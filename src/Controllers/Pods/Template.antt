-- ===== src/Controllers/Pods/Template.antt =====
-- `generatePodTemplateSpec` of controllers/handleDeployment.go: the pod template of a component.
pub mod Inversion
pub mod Values
pub mod Serves
pub mod Environment
use yatai_deployment.Base.{
  ℕ, String, Option, none, some, List, [], ◌∷◌, ◌++◌, Bool, true, false, ◌&&◌, ◌||◌, not, ◌==◌,
  ◌<>◌, is_some, join, Result, wrap_err, if◌then◌else◌,
}
use yatai_deployment.Base.Int.{ℤ, pos, half, int32}
use yatai_deployment.Base.Dict.{Dict, lookup, entries, merge}
use yatai_deployment.Base.Effect.{Exec, pure, lift, wrap_exec, call, ◌>>=◌, ◌>>◌}
use yatai_deployment.Api.Consts.{Consts}
use yatai_deployment.Api.Kube.{EnvVar, Quantity, QuantityLib, ResourceRequirements}
use yatai_deployment.Api.Yatai.{Http}
use yatai_deployment.Api.Common.{Resources}
use yatai_deployment.Api.Pods.{
  Container, Volume, VolumeMount, empty_dir, PodSpec, PodTemplateSpec, ServiceAccount,
}
use yatai_deployment.Api.V2alpha1.{MonitorExporterSpec, ExtraPodMetadata, ExtraPodSpec}
use yatai_deployment.Conversion.Names.{TextLib}
use yatai_deployment.YataiClient.{YataiClient, get_organization, get_cluster, get_version}
use yatai_deployment.Controllers.Debug.{
  find_runner, get_resource_annotations, check_if_is_debug_mode_enabled,
}
use yatai_deployment.Controllers.Labels.{get_kube_annotations}
use yatai_deployment.Controllers.Names.{get_bento_repository_name_and_bento_version}
use yatai_deployment.Controllers.Resources.{get_resources_config}
use yatai_deployment.Controllers.Pods.{pod_labels}
use yatai_deployment.Controllers.Pods.Envs.{
  SpecEnvs, env_var, read_spec_envs, default_envs, merge_envs,
}
use yatai_deployment.Controllers.Pods.Options.{PodOption, PodLib, PodClient}
use yatai_deployment.Controllers.Pods.Security.{is_on, main_context}
use yatai_deployment.Controllers.Pods.Serve.{is_old_version, probes, main_args}
use yatai_deployment.Controllers.Pods.Sidecars.{
  monitor_exporter_port, tcp_port, bare_container, metrics_container, monitor_container,
  monitor_volumes, debugger_container,
}
use yatai_deployment.Controllers.Pods.Proxy.{
  proxy_resources, save_envoy_config, proxy_volume, proxy_container,
}
use yatai_deployment.Controllers.Pods.Component.{
  spec_envs, annotations_of, monitor_of, component_resources, component_metadata,
  component_pod_spec, yatai_envs,
}
use yatai_deployment.Controllers.Pods.Containers.{
  main_container, has_debugger, own_containers, own_volumes,
}

module _ (c : Consts) (lib : TextLib) (quantities : QuantityLib) (pods : PodLib)
    (opt : PodOption) where
  -- The extra pod specification added to the pod.
  abbrev pub add_pod_spec : Option ExtraPodSpec → PodSpec → PodSpec
  add_pod_spec none pod = pod
  add_pod_spec (some extra) pod = record pod {
    scheduler_name = extra.scheduler_name;
    node_selector = extra.node_selector;
    affinity = extra.affinity;
    tolerations = extra.tolerations;
    topology_spread_constraints = extra.topology_spread_constraints;
    containers = pod.containers ++ extra.containers;
    service_account_name = extra.service_account_name;
  }

  -- The pod before its service account is known.
  unfoldable pub pod_spec : List Container → List Volume → PodSpec
  unfolding component_pod_spec is_on has_debugger
  pod_spec containers volumes =
      let annotations = annotations_of opt in
      let pod = add_pod_spec (component_pod_spec opt) (record {
        containers = containers;
        volumes = volumes;
        image_pull_secrets = opt.bento.spec.image_pull_secrets;
        scheduler_name = "";
        node_selector = none;
        affinity = none;
        tolerations = [];
        topology_spread_constraints = [];
        service_account_name = "";
        host_ipc = false;
        host_network = false;
        host_pid = false;
        share_process_namespace = none;
      }) in
      record pod {
        host_ipc = is_on c annotations "yatai.ai/enable-host-ipc";
        host_network = is_on c annotations "yatai.ai/enable-host-network";
        host_pid = is_on c annotations "yatai.ai/enable-host-pid";
        share_process_namespace =
            if has_debugger c lib quantities pods opt then some true else none;
      }

  abbrev pub metadata_annotations : Option ExtraPodMetadata → Dict String
  metadata_annotations none = []
  metadata_annotations (some metadata) = entries metadata.annotations

  unfoldable pub pod_annotations : Dict String
  unfolding component_metadata merge get_kube_annotations
  pod_annotations =
      merge (metadata_annotations (component_metadata opt))
        (get_kube_annotations c lib opt.bento_deployment opt.bento opt.runner_name)

  -- `DefaultServiceAccountName` where the namespace has no account for pods.
  abbrev pub first_account : List ServiceAccount → String
  first_account [] = "default"
  first_account (account ∷ accounts) = account.name

  module _ {S : Type 0} (client : PodClient S) (http : Http S) where
    -- The account of a name, or one of the namespace where the name is empty.
    unfoldable pub account_of : Bool → String → Exec S String
    account_of false name = pure name
    account_of true name = do
      accounts ←
          wrap_exec
            ("failed to list service accounts in namespace " <> opt.bento_deployment.meta.namespace)
            (call (
              client.list_service_accounts opt.bento_deployment.meta.namespace
                c.kube_label_bento_deployment_pod c.kube_label_value_true))
      pure (first_account accounts)

    unfoldable pub service_account : String → Exec S String
    unfolding account_of
    service_account name = account_of (name == "") name

    -- The proxy of an API server's pod: its resources, after its configuration has been saved.
    unfoldable pub proxy_of : Option String → ℤ → Exec S (Option ResourceRequirements)
    unfolding proxy_resources save_envoy_config
    proxy_of (some runner_name) port = pure none
    proxy_of none port = do
      resources ← lift (proxy_resources quantities (annotations_of opt))
      save_envoy_config c lib opt client port
      pure (some resources)

    unfoldable pub proxy_step : ℤ → Exec S (Option ResourceRequirements)
    unfolding proxy_of
    proxy_step = proxy_of opt.runner_name

    -- The variables of the main container.
    unfoldable pub all_envs : SpecEnvs → List EnvVar → List EnvVar
    unfolding default_envs merge_envs monitor_of
    all_envs spec yatai =
        merge_envs spec (default_envs c opt.bento_deployment spec.container_port ++ yatai)
          (if is_some (monitor_of opt) then some (monitor_exporter_port c) else none)

    -- The pod but for its service account.
    unfoldable pub pod_with :
        Bool → SpecEnvs → List EnvVar → ResourceRequirements → Option ResourceRequirements → PodSpec
    unfolding main_container all_envs own_containers own_volumes pod_spec
    pod_with is_old spec yatai resources proxy =
        let port = spec.container_port in
        let main =
          main_container c lib quantities pods opt is_old port (all_envs spec yatai) resources in
        pod_spec (own_containers c lib quantities pods opt main port proxy)
          (own_volumes c lib quantities pods opt resources proxy)

    unfoldable pub template_of : PodSpec → String → PodTemplateSpec
    unfolding pod_labels pod_annotations
    template_of pod account = record {
      labels =
          pod_labels c lib opt.bento_deployment opt.bento opt.runner_name
            opt.is_stealing_traffic_debug_mode_enabled;
      annotations = pod_annotations;
      spec = record pod { service_account_name = account };
    }

    unfoldable pub with_account : PodSpec → Exec S PodTemplateSpec
    unfolding service_account template_of
    with_account pod = do
      account ← service_account pod.service_account_name
      pure (template_of pod account)

    unfoldable pub component_config : Exec S ResourceRequirements
    unfolding get_resources_config component_resources
    component_config = lift (
        wrap_err "failed to get resources config"
          (get_resources_config quantities c (component_resources opt)))

    -- The rest, once the variables are known.
    unfoldable pub template_with : SpecEnvs → List EnvVar → Exec S PodTemplateSpec
    unfolding is_old_version component_config proxy_step pod_with with_account
    template_with spec yatai = do
      is_old ← lift (is_old_version pods opt.bento)
      resources ← component_config
      proxy ← proxy_step spec.container_port
      with_account (pod_with is_old spec yatai resources proxy)

    unfoldable pub generate_pod_template_spec : Exec S PodTemplateSpec
    unfolding spec_envs read_spec_envs yatai_envs template_with
    generate_pod_template_spec = do
      spec ← lift (read_spec_envs c (spec_envs opt) [] (pos c.bento_service_port))
      yatai ← yatai_envs http c opt
      template_with spec yatai
