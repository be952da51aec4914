-- ===== src/Controllers/Reconcile/Sync.antt =====
-- The part of `Reconcile` of controllers/bentodeployment_controller.go that tells the Yatai server of the
-- deployment.
pub mod Frame
use yatai_deployment.Base.{
  String, Option, none, some, List, [], ◌∷◌, Bool, true, false, Result, ok, err, panic, map,
  contains, if◌then◌else◌,
}
use yatai_deployment.Base.Dict.{Dict, insert}
use yatai_deployment.Base.Effect.{
  Exec, pure, raise, lift, attempt, emit, or_warn, normal, ◌>>=◌, ◌>>◌,
}
use yatai_deployment.Api.Kube.{NamespacedName, EnvVar, Opaque}
use yatai_deployment.Api.Common.{LabelItemSchema}
use yatai_deployment.Api.Resources.{Bento}
use yatai_deployment.Api.V2alpha1.{BentoDeployment, BentoDeploymentRunnerSpec}
use yatai_deployment.Api.Yatai.{
  DeploymentTargetRunnerConfig, DeploymentTargetConfig, UpdateDeploymentSchema, DeploymentSchema,
}
use yatai_deployment.Conversion.Resources.{convert_to_deployment_target_resources}
use yatai_deployment.YataiClient.{
  YataiClient, get_bento, get_deployment, create_deployment, update_deployment,
  sync_deployment_status,
}
use yatai_deployment.Controllers.Debug.{
  check_if_is_debug_mode_enabled, check_if_is_stealing_traffic_debug_mode_enabled,
  check_if_is_debug_pod_receive_production_traffic_enabled,
}
use yatai_deployment.Controllers.Names.{get_bento_repository_name_and_bento_version}
use yatai_deployment.Controllers.OldHpa.{transform_to_old_hpa}
use yatai_deployment.Controllers.Status.{set_status_conditions}
use yatai_deployment.Controllers.Reconcile.{Reconciler}
use yatai_deployment.Controllers.Reconcile.Conditions.{available, condition}

abbrev pub label_items : Option (List EnvVar) → List LabelItemSchema
label_items none = []
label_items (some envs) = map (λ env. record { key = env.name; value = env.value }) envs

module _ {S V : Type 0} (r : Reconciler S V) where
  -- The configuration of one runner.
  unfoldable pub runner_config : BentoDeploymentRunnerSpec → DeploymentTargetRunnerConfig
  unfolding transform_to_old_hpa convert_to_deployment_target_resources
      check_if_is_debug_mode_enabled check_if_is_stealing_traffic_debug_mode_enabled
      check_if_is_debug_pod_receive_production_traffic_enabled
  runner_config runner = record {
    resources = convert_to_deployment_target_resources runner.resources;
    hpa_conf = transform_to_old_hpa r.consts r.quantities runner.autoscaling;
    envs = label_items runner.envs;
    enable_stealing_traffic_debug_mode =
        check_if_is_stealing_traffic_debug_mode_enabled r.consts runner.annotations;
    enable_debug_mode = check_if_is_debug_mode_enabled r.consts runner.annotations;
    enable_debug_pod_receive_production_traffic =
        check_if_is_debug_pod_receive_production_traffic_enabled r.consts runner.annotations;
    extra_pod_metadata = runner.extra_pod_metadata;
    extra_pod_spec = runner.extra_pod_spec;
  }

  -- The loop over the runners of the resource.
  unfoldable pub runner_configs :
      List BentoDeploymentRunnerSpec
      → Dict DeploymentTargetRunnerConfig
      → Dict DeploymentTargetRunnerConfig
  unfolding runner_config insert
  runner_configs [] configs = configs
  runner_configs (runner ∷ runners) configs =
      runner_configs runners (insert runner.name (runner_config runner) configs)

  -- The configuration of the deployment. Its overrides are those of a BentoRequest that is only read
  -- where the Bento is missing, and so has none here.
  unfoldable pub target_config : BentoDeployment → DeploymentTargetConfig
  unfolding transform_to_old_hpa convert_to_deployment_target_resources runner_configs
      check_if_is_debug_mode_enabled check_if_is_stealing_traffic_debug_mode_enabled
      check_if_is_debug_pod_receive_production_traffic_enabled
  target_config bento_deployment =
      let spec = bento_deployment.spec in
      record {
        kube_resource_uid = bento_deployment.meta.uid;
        kube_resource_version = bento_deployment.meta.resource_version;
        resources = convert_to_deployment_target_resources spec.resources;
        hpa_conf = transform_to_old_hpa r.consts r.quantities spec.autoscaling;
        envs = label_items spec.envs;
        runners = runner_configs spec.runners [];
        enable_ingress = spec.ingress.enabled;
        enable_stealing_traffic_debug_mode =
            check_if_is_stealing_traffic_debug_mode_enabled r.consts spec.annotations;
        enable_debug_mode = check_if_is_debug_mode_enabled r.consts spec.annotations;
        enable_debug_pod_receive_production_traffic =
            check_if_is_debug_pod_receive_production_traffic_enabled r.consts spec.annotations;
        monitor_exporter = spec.monitor_exporter;
        extra_pod_metadata = spec.extra_pod_metadata;
        extra_pod_spec = spec.extra_pod_spec;
        bento_request_overrides = [];
      }

  unfoldable pub update_schema : BentoDeployment → Bento → UpdateDeploymentSchema
  unfolding target_config get_bento_repository_name_and_bento_version
  update_schema bento_deployment bento =
      let (repository, version) = get_bento_repository_name_and_bento_version r.texts bento in
      record {
        targets =
            (record {
              type = r.consts.deployment_target_type_stable;
              bento_repository = repository;
              bento = version;
              config = target_config bento_deployment;
            })
            ∷ [];
        do_not_deploy = true;
      }

  -- The configuration with the uid and the version of the resource that are wanted, against the wanted one.
  same_config : Option DeploymentTargetConfig → DeploymentTargetConfig → Result Bool
  same_config none wanted = panic
  same_config (some config) wanted = ok (
      r.deep_equal
        (record config {
          kube_resource_uid = wanted.kube_resource_uid;
          kube_resource_version = wanted.kube_resource_version;
        })
        wanted)

  -- Whether the first target of the latest revision is as wanted, but for the resource's version. A target
  -- without a configuration is a nil dereference.
  unfoldable pub no_change : DeploymentSchema → DeploymentTargetConfig → Result Bool
  unfolding same_config
  no_change old wanted = elim old.latest_revision [
    | none ↦ ok false
    | some targets ↦ elim targets [ [] ↦ ok false | config ∷ _ ↦ same_config config wanted ]
  ]

  module _ (client : YataiClient) (cluster_name : String) (bento_deployment : BentoDeployment)
      (bento : Bento) where
    abbrev name : String
    name = bento_deployment.meta.name

    abbrev namespace : String
    namespace = bento_deployment.meta.namespace

    -- The deployment that the server has; an error that says so means that it has none.
    unfoldable pub known : Result DeploymentSchema → Exec S (Option DeploymentSchema)
    unfolding contains
    known (ok old) = pure (some old)
    known panic = lift panic
    known (err e) =
        if contains (r.pod_lib.to_lower (r.error_text e)) "not found" then pure none else raise e

    unfoldable pub find_deployment : Exec S (Option DeploymentSchema)
    unfolding get_deployment known
    find_deployment = do
      result ← attempt (get_deployment r.http r.consts client cluster_name namespace name)
      known result

    unfoldable pub create_yatai_deployment : Exec S (Unit {0})
    unfolding create_deployment update_schema emit or_warn
    create_yatai_deployment = do
      emit normal "CreateYataiDeployment" name
      created ← or_warn "CreateYataiDeployment" name (
          create_deployment r.http r.consts client cluster_name (record {
            name = name;
            kube_namespace = namespace;
            update = update_schema bento_deployment bento;
          }))
      emit normal "CreateYataiDeployment" name

    unfoldable pub update_yatai_deployment : Exec S (Unit {0})
    unfolding update_deployment update_schema emit or_warn
    update_yatai_deployment = do
      emit normal "UpdateYataiDeployment" name
      updated ← or_warn "UpdateYataiDeployment" name (
          update_deployment r.http r.consts client cluster_name namespace name
            (update_schema bento_deployment bento))
      emit normal "UpdateYataiDeployment" name

    unfoldable pub save_yatai_deployment : Option DeploymentSchema → Exec S (Unit {0})
    unfolding create_yatai_deployment update_yatai_deployment no_change target_config emit
    save_yatai_deployment none = create_yatai_deployment
    save_yatai_deployment (some old) = do
      unchanged ← lift (no_change old (target_config bento_deployment))
      if unchanged then emit normal "UpdateYataiDeployment" name else update_yatai_deployment

    unfoldable pub sync_status : Exec S (Unit {0})
    unfolding sync_deployment_status emit or_warn
    sync_status = do
      emit normal "SyncYataiDeploymentStatus" name
      synced ←
          or_warn "SyncYataiDeploymentStatus" name
            (sync_deployment_status r.http r.consts client cluster_name namespace name)
      emit normal "SyncYataiDeploymentStatus" name

    -- The server has the Bento: its deployment is brought up to date.
    unfoldable pub sync_deployment : Exec S (Unit {0})
    unfolding find_deployment save_yatai_deployment sync_status emit or_warn
    sync_deployment = do
      emit normal "GetYataiDeployment" name
      old ← or_warn "GetYataiDeployment" name find_deployment
      save_yatai_deployment old
      sync_status

    -- The server's answer on the Bento; an error that says so means that it does not have it.
    unfoldable pub has_bento : Result Opaque → Exec S Bool
    unfolding contains
    has_bento (ok body) = pure true
    has_bento panic = lift panic
    has_bento (err e) = if contains (r.error_text e) "not found" then pure false else raise e

    unfoldable pub find_bento : Exec S Bool
    unfolding get_bento has_bento get_bento_repository_name_and_bento_version
    find_bento = do
      let (repository, version) = get_bento_repository_name_and_bento_version r.texts bento
      result ← attempt (get_bento r.http r.consts client repository version)
      has_bento result

    -- Whether the reconciliation goes on: where the server does not have the Bento, it ends with the
    -- condition for that.
    unfoldable pub sync_known : NamespacedName → Bool → Exec S Bool
    unfolding sync_deployment set_status_conditions
    sync_known key true = do sync_deployment; pure true
    sync_known key false = do
      updated ←
          set_status_conditions r.status key
            (condition available "True" "Remote bento from Yatai is not found" ∷ [])
      pure false

    unfoldable pub sync_yatai : NamespacedName → Exec S Bool
    unfolding find_bento sync_known
    sync_yatai key = do is_known ← find_bento; sync_known key is_known
