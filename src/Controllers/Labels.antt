-- ===== src/Controllers/Labels.antt =====
-- `getKubeLabels` and `getKubeAnnotations` of controllers/handleOthers.go.
use yatai_deployment.Base.{String, Option, none, some, [], ◌∷◌, false, ◌==◌, ◌≡◌, ◌∙◌, eq_refl}
use yatai_deployment.Base.Dict.{
  Dict, lookup, insert, merge, entries, lookup-insert, lookup-merge_absent,
}
use yatai_deployment.Api.Consts.{Consts}
use yatai_deployment.Api.Resources.{Bento}
use yatai_deployment.Api.V2alpha1.{BentoDeployment, BentoDeploymentRunnerSpec, ExtraPodMetadata}
use yatai_deployment.Conversion.Names.{TextLib}
use yatai_deployment.Controllers.Debug.{find_runner}
use yatai_deployment.Controllers.Names.{get_bento_repository_name_and_bento_version}

abbrev pub production : String
production = "production"

abbrev pub debug : String
debug = "debug"

-- The labels of the resource, replaced by those of the runner if the resource has that runner.
unfoldable pub extra_labels : BentoDeployment → Option String → Option (Dict String)
unfolding find_runner
extra_labels bento_deployment none = bento_deployment.spec.labels
extra_labels bento_deployment (some runner_name) =
    elim (find_runner runner_name bento_deployment.spec.runners) [
      | none ↦ bento_deployment.spec.labels
      | some runner ↦ runner.labels
    ]

abbrev metadata_annotations : Option ExtraPodMetadata → Option (Dict String)
metadata_annotations none = some []
metadata_annotations (some metadata) = metadata.annotations

-- A runner's annotations replace those of the resource only if the runner has extra pod metadata.
abbrev runner_annotations :
    Option BentoDeploymentRunnerSpec → Option (Dict String) → Option (Dict String)
runner_annotations none default = default
runner_annotations (some runner) default = elim runner.extra_pod_metadata [
  | none ↦ default
  | some metadata ↦ metadata.annotations
]

extra_annotations : BentoDeployment → Option String → Option (Dict String)
unfolding find_runner
extra_annotations bento_deployment none =
    metadata_annotations bento_deployment.spec.extra_pod_metadata
extra_annotations bento_deployment (some runner_name) =
    runner_annotations (find_runner runner_name bento_deployment.spec.runners)
      (metadata_annotations bento_deployment.spec.extra_pod_metadata)

module _ (c : Consts) (lib : TextLib) where
  component_labels : Option String → Dict String → Dict String
  unfolding insert
  component_labels none labels =
      insert c.kube_label_yatai_bento_deployment_component_type
        c.yatai_bento_deployment_component_api_server labels
  component_labels (some runner_name) labels =
      insert c.kube_label_yatai_bento_deployment_component_name runner_name (
        insert c.kube_label_yatai_bento_deployment_component_type
          c.yatai_bento_deployment_component_runner labels)

  -- The labels before those of the user.
  unfoldable pub own_labels : BentoDeployment → Bento → Option String → Dict String
  unfolding component_labels merge
  own_labels bento_deployment bento runner_name =
      let (repository_name, _, version) = lib.partition bento.spec.tag ":" in
      component_labels runner_name (
        merge
          ((c.kube_label_yatai_bento_deployment, bento_deployment.meta.name)
            ∷ (c.kube_label_bento_repository, repository_name)
            ∷ (c.kube_label_bento_version, version)
            ∷ (c.kube_label_yatai_bento_deployment_target_type, production)
            ∷ (c.kube_label_creator, "yatai-deployment")
            ∷ [])
          [])

  unfoldable pub get_kube_labels : BentoDeployment → Bento → Option String → Dict String
  unfolding own_labels extra_labels
  get_kube_labels bento_deployment bento runner_name =
      merge (entries (extra_labels bento_deployment runner_name))
        (own_labels bento_deployment bento runner_name)

  unfoldable pub get_kube_annotations : BentoDeployment → Bento → Option String → Dict String
  unfolding extra_annotations get_bento_repository_name_and_bento_version merge
  get_kube_annotations bento_deployment bento runner_name =
      let (repository_name, version) = get_bento_repository_name_and_bento_version lib bento in
      merge (entries (extra_annotations bento_deployment runner_name)) (
        merge
          ((c.kube_annotation_bento_repository, repository_name)
            ∷ (c.kube_annotation_bento_version, version)
            ∷ [])
          [])

-- The label keys of the library that must differ from the key of the target type.
pub record TargetTypeDiffers (c : Consts) : Type 0 where
  pub creator : (c.kube_label_creator == c.kube_label_yatai_bento_deployment_target_type) ≡ false
  pub component_type :
      (c.kube_label_yatai_bento_deployment_component_type
        == c.kube_label_yatai_bento_deployment_target_type)
      ≡ false
  pub component_name :
      (c.kube_label_yatai_bento_deployment_component_name
        == c.kube_label_yatai_bento_deployment_target_type)
      ≡ false

module _ (c : Consts) (lib : TextLib) (differs : TargetTypeDiffers c) where
  own_target_type :
      (bento_deployment : BentoDeployment) (bento : Bento) (runner_name : Option String)
      → lookup c.kube_label_yatai_bento_deployment_target_type
          (own_labels c lib bento_deployment bento runner_name)
        ≡ some production
  unfolding own_labels
  own_target_type bento_deployment bento none =
      simp (lookup-insert, differs.creator, differs.component_type, eq_refl)
  own_target_type bento_deployment bento (some runner_name) =
      simp (lookup-insert, differs.creator, differs.component_type, differs.component_name, eq_refl)

  -- A component that the user gives no target type label has the production one.
  pub target_type-get_kube_labels :
      (bento_deployment : BentoDeployment) (bento : Bento) (runner_name : Option String)
      → lookup c.kube_label_yatai_bento_deployment_target_type
          (entries (extra_labels bento_deployment runner_name))
        ≡ none
      → lookup c.kube_label_yatai_bento_deployment_target_type
          (get_kube_labels c lib bento_deployment bento runner_name)
        ≡ some production
  unfolding get_kube_labels
  target_type-get_kube_labels bento_deployment bento runner_name h =
      lookup-merge_absent c.kube_label_yatai_bento_deployment_target_type
        (entries (extra_labels bento_deployment runner_name))
        (own_labels c lib bento_deployment bento runner_name) h
      ∙ own_target_type bento_deployment bento runner_name
