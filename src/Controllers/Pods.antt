-- ===== src/Controllers/Pods.antt =====
-- The labels of a component's pods, from `generatePodTemplateSpec` of controllers/handleDeployment.go.
pub mod BentoLabels
pub mod Selected
pub mod Own
pub mod Options
pub mod Envs
pub mod Serve
pub mod Security
pub mod Sidecars
pub mod Proxy
pub mod Component
pub mod Containers
pub mod Template
use yatai_deployment.Base.{String, Option, none, some, Bool, is_some, if◌then◌else◌}
use yatai_deployment.Base.Dict.{Dict, insert, merge, entries}
use yatai_deployment.Api.Consts.{Consts}
use yatai_deployment.Api.Resources.{Bento}
use yatai_deployment.Api.V2alpha1.{BentoDeployment, ExtraPodMetadata}
use yatai_deployment.Conversion.Names.{TextLib}
use yatai_deployment.Controllers.Debug.{find_runner}
use yatai_deployment.Controllers.Names.{get_kube_name, get_bento_repository_name_and_bento_version}
use yatai_deployment.Controllers.Labels.{debug, get_kube_labels}

abbrev metadata_labels : Option ExtraPodMetadata → Option (Dict String)
metadata_labels none = none
metadata_labels (some metadata) = metadata.labels

-- A runner's extra pod metadata replaces that of the resource, also where the runner has none.
unfoldable pub extra_pod_labels : BentoDeployment → Option String → Option (Dict String)
unfolding find_runner
extra_pod_labels bento_deployment none = metadata_labels bento_deployment.spec.extra_pod_metadata
extra_pod_labels bento_deployment (some runner_name) =
    elim (find_runner runner_name bento_deployment.spec.runners) [
      | none ↦ metadata_labels bento_deployment.spec.extra_pod_metadata
      | some runner ↦ metadata_labels runner.extra_pod_metadata
    ]

module _ (c : Consts) (lib : TextLib) where
  -- The labels of a runner's pods name the Bento even where the user's labels say otherwise.
  pub bento_labels : Bento → Option String → Dict String → Dict String
  unfolding get_bento_repository_name_and_bento_version insert
  bento_labels bento runner_name labels =
      let (repository, version) = get_bento_repository_name_and_bento_version lib bento in
      if is_some runner_name
      then insert c.kube_label_bento_version version
          (insert c.kube_label_bento_repository repository labels)
      else labels

  -- The labels from the component and from its debug mode.
  selected_labels : BentoDeployment → Bento → Option String → Bool → Dict String
  unfolding bento_labels get_kube_labels insert
  selected_labels bento_deployment bento runner_name is_stealing =
      let labels =
        bento_labels bento runner_name (get_kube_labels c lib bento_deployment bento runner_name) in
      if is_stealing
      then insert c.kube_label_yatai_bento_deployment_target_type debug labels
      else labels

  -- The labels of the pod template: those, the selector of the Deployment, and those of the extra pod
  -- metadata.
  unfoldable pub pod_labels : BentoDeployment → Bento → Option String → Bool → Dict String
  unfolding selected_labels extra_pod_labels get_kube_name insert merge
  pod_labels bento_deployment bento runner_name is_stealing =
      merge (entries (extra_pod_labels bento_deployment runner_name)) (
        insert c.kube_label_yatai_selector
          (get_kube_name bento_deployment bento runner_name is_stealing)
          (selected_labels bento_deployment bento runner_name is_stealing))
