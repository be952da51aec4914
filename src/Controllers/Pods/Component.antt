-- ===== src/Controllers/Pods/Component.antt =====
-- The parts of the resource that a component's pods are made from, and the variables that tell where
-- the Yatai server is, from `generatePodTemplateSpec` of controllers/handleDeployment.go.
use yatai_deployment.Base.{
  String, Option, none, some, List, [], ◌∷◌, ◌&&◌, not, ◌<>◌, is_some, if◌then◌else◌,
}
use yatai_deployment.Base.Int.{half}
use yatai_deployment.Base.Dict.{Dict, lookup}
use yatai_deployment.Base.Effect.{Exec, pure, ◌>>=◌}
use yatai_deployment.Api.Consts.{Consts}
use yatai_deployment.Api.Kube.{EnvVar, Quantity, QuantityLib, ResourceRequirements}
use yatai_deployment.Api.Yatai.{Http}
use yatai_deployment.Api.Common.{Resources}
use yatai_deployment.Api.V2alpha1.{MonitorExporterSpec, ExtraPodMetadata, ExtraPodSpec}
use yatai_deployment.YataiClient.{YataiClient, get_organization, get_cluster, get_version}
use yatai_deployment.Controllers.Debug.{find_runner, get_resource_annotations}
use yatai_deployment.Controllers.Pods.Envs.{env_var}
use yatai_deployment.Controllers.Pods.Options.{PodOption}

-- The list of a specification, which may be nil.
abbrev pub env_list : Option (List EnvVar) → List EnvVar
env_list none = []
env_list (some envs) = envs

-- The variables in the specification of the component.
unfoldable pub spec_envs : PodOption → List EnvVar
unfolding find_runner
spec_envs opt = elim opt.runner_name [
  | none ↦ env_list opt.bento_deployment.spec.envs
  | some runner_name ↦ elim (find_runner runner_name opt.bento_deployment.spec.runners) [
    | none ↦ []
    | some runner ↦ env_list runner.envs
  ]
]

abbrev pub annotations_of : PodOption → Option (Dict String)
annotations_of opt = get_resource_annotations opt.bento_deployment opt.runner_name

-- The monitor exporter, if the pod has one (`needMonitorContainer`).
unfoldable pub monitor_of : PodOption → Option MonitorExporterSpec
monitor_of opt = elim opt.bento_deployment.spec.monitor_exporter [
  | none ↦ none
  | some exporter ↦
      if exporter.enabled && not (is_some opt.runner_name) then some exporter else none
]

-- The resources, the extra pod metadata and the extra pod specification of the component: those of the
-- runner, or those of the resource for the API server and a runner that the resource does not have.
unfoldable pub component_resources : PodOption → Option Resources
unfolding find_runner
component_resources opt = elim opt.runner_name [
  | none ↦ opt.bento_deployment.spec.resources
  | some runner_name ↦ elim (find_runner runner_name opt.bento_deployment.spec.runners) [
    | none ↦ opt.bento_deployment.spec.resources
    | some runner ↦ runner.resources
  ]
]

unfoldable pub component_metadata : PodOption → Option ExtraPodMetadata
unfolding find_runner
component_metadata opt = elim opt.runner_name [
  | none ↦ opt.bento_deployment.spec.extra_pod_metadata
  | some runner_name ↦ elim (find_runner runner_name opt.bento_deployment.spec.runners) [
    | none ↦ opt.bento_deployment.spec.extra_pod_metadata
    | some runner ↦ runner.extra_pod_metadata
  ]
]

unfoldable pub component_pod_spec : PodOption → Option ExtraPodSpec
unfolding find_runner
component_pod_spec opt = elim opt.runner_name [
  | none ↦ opt.bento_deployment.spec.extra_pod_spec
  | some runner_name ↦ elim (find_runner runner_name opt.bento_deployment.spec.runners) [
    | none ↦ opt.bento_deployment.spec.extra_pod_spec
    | some runner ↦ runner.extra_pod_spec
  ]
]

-- `DefaultClusterName` where no name is given.
abbrev pub cluster_or_default : Option String → String
cluster_or_default none = "default"
cluster_or_default (some name) = name

module _ {S : Type 0} (http : Http S) (c : Consts) where
  -- The variables that tell where the Yatai server is, for a client and the name of the cluster.
  unfoldable pub client_envs : Option String → Option YataiClient → Exec S (List EnvVar)
  unfolding get_organization get_cluster get_version
  client_envs cluster_name none = pure []
  client_envs cluster_name (some client) = do
    organization ← get_organization http c client
    cluster ← get_cluster http c client (cluster_or_default cluster_name)
    version ← get_version http c client
    pure (
        env_var c.env_yatai_version (version.version <> ("-" <> version.git_commit))
        ∷ env_var c.env_yatai_org_uid organization.uid
        ∷ env_var c.env_yatai_cluster_uid cluster.uid
        ∷ [])

  unfoldable pub yatai_envs : PodOption → Exec S (List EnvVar)
  unfolding client_envs
  yatai_envs opt = client_envs opt.cluster_name opt.yatai_client

-- The size of `/dev/shm`: half of the memory limit, or 64Mi where that is 0.
unfoldable pub shared_memory : QuantityLib → ResourceRequirements → Quantity
unfolding lookup
shared_memory quantities resources =
    let default = quantities.must_parse "64Mi" in
    elim (lookup "memory" resources.limits) [
      | none ↦ default
      | some limit ↦
          if quantities.is_zero limit
          then default
          else quantities.set_milli (half (quantities.milli_value limit)) default
    ]
