-- ===== src/Controllers/Pods/Containers.antt =====
-- The containers and the volumes of a component's pods, from `generatePodTemplateSpec` of
-- controllers/handleDeployment.go.
use yatai_deployment.Base.{
  Option, none, some, List, [], ◌∷◌, ◌++◌, Bool, true, false, ◌||◌, join, if◌then◌else◌,
}
use yatai_deployment.Base.Int.{ℤ, int32}
use yatai_deployment.Api.Consts.{Consts}
use yatai_deployment.Api.Kube.{EnvVar, QuantityLib, ResourceRequirements}
use yatai_deployment.Api.Pods.{Container, Volume, empty_dir}
use yatai_deployment.Api.V2alpha1.{MonitorExporterSpec}
use yatai_deployment.Conversion.Names.{TextLib}
use yatai_deployment.Controllers.Debug.{get_resource_annotations, check_if_is_debug_mode_enabled}
use yatai_deployment.Controllers.Names.{get_bento_repository_name_and_bento_version}
use yatai_deployment.Controllers.Pods.Options.{PodOption, PodLib}
use yatai_deployment.Controllers.Pods.Security.{main_context}
use yatai_deployment.Controllers.Pods.Serve.{probes, main_args}
use yatai_deployment.Controllers.Pods.Sidecars.{
  tcp_port, bare_container, metrics_container, monitor_container, monitor_volumes,
  debugger_container,
}
use yatai_deployment.Controllers.Pods.Proxy.{proxy_volume, proxy_container}
use yatai_deployment.Controllers.Pods.Component.{annotations_of, monitor_of, shared_memory}

module _ (c : Consts) (lib : TextLib) (quantities : QuantityLib) (pods : PodLib)
    (opt : PodOption) where
  -- The main container, with the port, the variables and the resources that were found.
  unfoldable pub main_container : Bool → ℤ → List EnvVar → ResourceRequirements → Container
  unfolding probes main_args join int32 main_context
  main_container is_old port envs resources =
      let (liveness, readiness) = probes c lib opt port in
      record (bare_container "main" opt.bento.spec.image resources) {
        command = "sh" ∷ "-c" ∷ [];
        args = join " " (main_args c lib opt is_old port) ∷ [];
        liveness_probe = some liveness;
        readiness_probe = some readiness;
        env = envs;
        tty = true;
        stdin = true;
        volume_mounts =
            (record { name = "shared-memory"; mount_path = "/dev/shm"; read_only = false }) ∷ [];
        ports = tcp_port c.bento_container_port_name (int32 port) ∷ [];
        security_context = main_context c (annotations_of opt) pods;
      }

  abbrev pub proxy_containers : Option ResourceRequirements → List Container
  proxy_containers none = []
  proxy_containers (some resources) = proxy_container c pods resources ∷ []

  abbrev pub monitor_containers : Option MonitorExporterSpec → List Container
  monitor_containers none = []
  monitor_containers (some exporter) = monitor_container c quantities pods exporter ∷ []

  -- Whether the pod has a debugger.
  unfoldable pub has_debugger : Bool
  unfolding check_if_is_debug_mode_enabled get_resource_annotations
  has_debugger =
      opt.is_stealing_traffic_debug_mode_enabled
      || check_if_is_debug_mode_enabled c (annotations_of opt)

  -- All containers but those of the extra pod specification; `proxy` are the proxy's resources.
  unfoldable pub own_containers : Container → ℤ → Option ResourceRequirements → List Container
  unfolding metrics_container proxy_container monitor_container monitor_of debugger_container
      has_debugger get_bento_repository_name_and_bento_version
  own_containers main port proxy =
      let (repository, _) = get_bento_repository_name_and_bento_version lib opt.bento in
      main ∷ metrics_container c quantities pods repository port ∷ proxy_containers proxy
      ++ (monitor_containers (monitor_of opt)
          ++ (if has_debugger then debugger_container c quantities pods ∷ [] else []))

  abbrev pub proxy_volumes : Option ResourceRequirements → List Volume
  proxy_volumes none = []
  proxy_volumes (some resources) = proxy_volume c lib opt ∷ []

  abbrev pub exporter_volumes : Option MonitorExporterSpec → List Volume
  exporter_volumes none = []
  exporter_volumes (some exporter) = monitor_volumes c quantities pods 0 exporter.mounts

  unfoldable pub own_volumes : ResourceRequirements → Option ResourceRequirements → List Volume
  unfolding shared_memory proxy_volume monitor_volumes monitor_of
  own_volumes resources proxy =
      (record {
        name = "shared-memory";
        source = empty_dir "Memory" (shared_memory quantities resources);
      })
        ∷ proxy_volumes proxy
      ++ exporter_volumes (monitor_of opt)
