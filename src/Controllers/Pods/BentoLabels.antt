-- ===== src/Controllers/Pods/BentoLabels.antt =====
-- The labels of a component's pods that name its Bento.
use yatai_deployment.Base.{String, Option, none, some, false, ◌==◌, ◌≡◌, ◌∙◌, refl, eq_refl}
use yatai_deployment.Base.Dict.{
  lookup, insert, entries, lookup-insert_same, lookup-insert, lookup-merge_absent,
}
use yatai_deployment.Api.Consts.{Consts}
use yatai_deployment.Api.Resources.{Bento}
use yatai_deployment.Api.V2alpha1.{BentoDeployment}
use yatai_deployment.Conversion.Names.{TextLib}
use yatai_deployment.Controllers.Names.{get_bento_repository_name_and_bento_version}
use yatai_deployment.Controllers.Labels.{own_labels, extra_labels, get_kube_labels}
use yatai_deployment.Controllers.Pods.{bento_labels}

abbrev DifferentKeys : String → String → Type 0
DifferentKeys a b = (a == b) ≡ false

-- The keys by which a Bento is labelled differ from those of the labels that are written after them.
pub record BentoKeysDiffer (c : Consts) : Type 0 where
  pub repository_version : DifferentKeys c.kube_label_bento_version c.kube_label_bento_repository
  pub repository_target :
      DifferentKeys c.kube_label_yatai_bento_deployment_target_type c.kube_label_bento_repository
  pub repository_creator : DifferentKeys c.kube_label_creator c.kube_label_bento_repository
  pub repository_type :
      DifferentKeys c.kube_label_yatai_bento_deployment_component_type c.kube_label_bento_repository
  pub repository_name :
      DifferentKeys c.kube_label_yatai_bento_deployment_component_name c.kube_label_bento_repository
  pub version_target :
      DifferentKeys c.kube_label_yatai_bento_deployment_target_type c.kube_label_bento_version
  pub version_creator : DifferentKeys c.kube_label_creator c.kube_label_bento_version
  pub version_type :
      DifferentKeys c.kube_label_yatai_bento_deployment_component_type c.kube_label_bento_version
  pub version_name :
      DifferentKeys c.kube_label_yatai_bento_deployment_component_name c.kube_label_bento_version

module _ (c : Consts) (lib : TextLib) (differ : BentoKeysDiffer c) where
  abbrev repository : Bento → String
  repository bento = (lib.partition bento.spec.tag ":").0

  own_repository :
      (bento_deployment : BentoDeployment) (bento : Bento) (runner_name : Option String)
      → lookup c.kube_label_bento_repository (own_labels c lib bento_deployment bento runner_name)
        ≡ some (get_bento_repository_name_and_bento_version lib bento).0
  unfolding own_labels get_bento_repository_name_and_bento_version
  own_repository bento_deployment bento none = simp (
    lookup-insert, differ.repository_version, differ.repository_target, differ.repository_creator,
    differ.repository_type, eq_refl,
  )
  own_repository bento_deployment bento (some runner_name) = simp (
    lookup-insert, differ.repository_version, differ.repository_target, differ.repository_creator,
    differ.repository_type, differ.repository_name, eq_refl,
  )

  own_version :
      (bento_deployment : BentoDeployment) (bento : Bento) (runner_name : Option String)
      → lookup c.kube_label_bento_version (own_labels c lib bento_deployment bento runner_name)
        ≡ some (get_bento_repository_name_and_bento_version lib bento).1
  unfolding own_labels get_bento_repository_name_and_bento_version
  own_version bento_deployment bento none =
      simp
        (lookup-insert, differ.version_target, differ.version_creator, differ.version_type, eq_refl)
  own_version bento_deployment bento (some runner_name) = simp (
    lookup-insert, differ.version_target, differ.version_creator, differ.version_type,
    differ.version_name, eq_refl,
  )

  -- The user's labels do not name another Bento.
  abbrev pub KeepsBento : BentoDeployment → Option String → Type 0
  KeepsBento bento_deployment runner_name =
      (lookup c.kube_label_bento_repository (entries (extra_labels bento_deployment runner_name))
        ≡ none)
      × (lookup c.kube_label_bento_version (entries (extra_labels bento_deployment runner_name))
          ≡ none)

  kube_repository :
      (bento_deployment : BentoDeployment) (bento : Bento) (runner_name : Option String)
      → KeepsBento bento_deployment runner_name
      → lookup c.kube_label_bento_repository
          (get_kube_labels c lib bento_deployment bento runner_name)
        ≡ some (get_bento_repository_name_and_bento_version lib bento).0
  unfolding get_kube_labels
  kube_repository bento_deployment bento runner_name (no_repository, no_version) =
      lookup-merge_absent c.kube_label_bento_repository
        (entries (extra_labels bento_deployment runner_name))
        (own_labels c lib bento_deployment bento runner_name) no_repository
      ∙ own_repository bento_deployment bento runner_name

  kube_version :
      (bento_deployment : BentoDeployment) (bento : Bento) (runner_name : Option String)
      → KeepsBento bento_deployment runner_name
      → lookup c.kube_label_bento_version (get_kube_labels c lib bento_deployment bento runner_name)
        ≡ some (get_bento_repository_name_and_bento_version lib bento).1
  unfolding get_kube_labels
  kube_version bento_deployment bento runner_name (no_repository, no_version) =
      lookup-merge_absent c.kube_label_bento_version
        (entries (extra_labels bento_deployment runner_name))
        (own_labels c lib bento_deployment bento runner_name) no_version
      ∙ own_version bento_deployment bento runner_name

  pub lookup-bento_labels :
      (bento_deployment : BentoDeployment) (bento : Bento) (runner_name : Option String)
      (j : String)
      → KeepsBento bento_deployment runner_name
      → lookup j (
          bento_labels c lib bento runner_name
            (get_kube_labels c lib bento_deployment bento runner_name))
        ≡ lookup j (get_kube_labels c lib bento_deployment bento runner_name)
  unfolding bento_labels
  lookup-bento_labels bento_deployment bento none j keeps = refl
  lookup-bento_labels bento_deployment bento (some runner_name) j keeps =
      let labels = get_kube_labels c lib bento_deployment bento (some runner_name) in
      let (repository, version) = get_bento_repository_name_and_bento_version lib bento in
      let r = kube_repository bento_deployment bento (some runner_name) keeps in
      let v = kube_version bento_deployment bento (some runner_name) keeps in
      let once =
        λ (i : String). lookup-insert_same c.kube_label_bento_repository i repository labels r in
      lookup-insert_same c.kube_label_bento_version j version
        (insert c.kube_label_bento_repository repository labels)
        (once c.kube_label_bento_version ∙ v)
      ∙ once j
