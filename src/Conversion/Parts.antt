-- ===== src/Conversion/Parts.antt =====
-- The parts of a conversion that the spec and its runners share: environment variables, the extra pod
-- metadata and spec (apis/serving/v1alpha3/bentodeployment_conversion.go), and the resources
-- (apis/serving/conversion/conversion.go).
use yatai_deployment.Base.{
  Option, none, some, List, [], ◌∷◌, ◌≡◌, refl, ap, arith, ◌==◌, not, keep, if◌then◌else◌,
}
use mathlib.Core.Option
use yatai_deployment.Api.Kube.{EnvVar}
use yatai_deployment.Api.Common.{LabelItemSchema}
use yatai_deployment.Api.V2alpha1
use yatai_deployment.Api.V1alpha3

unfoldable pub transform_to_new_extra_pod_metadata :
    Option V1alpha3.ExtraPodMetadata → Option V2alpha1.ExtraPodMetadata
transform_to_new_extra_pod_metadata none = none
transform_to_new_extra_pod_metadata (some src) =
    some (record { annotations = src.annotations; labels = src.labels })

unfoldable pub transform_to_old_extra_pod_metadata :
    Option V2alpha1.ExtraPodMetadata → Option V1alpha3.ExtraPodMetadata
transform_to_old_extra_pod_metadata none = none
transform_to_old_extra_pod_metadata (some src) =
    some (record { annotations = src.annotations; labels = src.labels })

-- The fields that only the new version has get Go's zero values.
unfoldable pub transform_to_new_extra_pod_spec :
    Option V1alpha3.ExtraPodSpec → Option V2alpha1.ExtraPodSpec
transform_to_new_extra_pod_spec none = none
transform_to_new_extra_pod_spec (some src) = some (record {
  scheduler_name = src.scheduler_name;
  node_selector = src.node_selector;
  affinity = src.affinity;
  tolerations = src.tolerations;
  topology_spread_constraints = src.topology_spread_constraints;
  containers = [];
  service_account_name = "";
})

unfoldable pub transform_to_old_extra_pod_spec :
    Option V2alpha1.ExtraPodSpec → Option V1alpha3.ExtraPodSpec
transform_to_old_extra_pod_spec none = none
transform_to_old_extra_pod_spec (some src) = some (record {
  scheduler_name = src.scheduler_name;
  node_selector = src.node_selector;
  affinity = src.affinity;
  tolerations = src.tolerations;
  topology_spread_constraints = src.topology_spread_constraints;
})

new_envs : List LabelItemSchema → List EnvVar
new_envs [] = []
new_envs (item ∷ items) =
    (record { name = item.key; value = item.value; value_from = none }) ∷ new_envs items

unfoldable pub transform_to_new_envs : Option (List LabelItemSchema) → Option (List EnvVar)
unfolding new_envs
transform_to_new_envs none = none
transform_to_new_envs (some old_envs) = some (new_envs old_envs)

-- A variable without a value is left out.
old_envs : List EnvVar → List LabelItemSchema
old_envs [] = []
old_envs (item ∷ envs) =
    let rest = old_envs envs in
    if item.value == "" then rest else (record { key = item.name; value = item.value }) ∷ rest

unfoldable pub transform_to_old_envs : Option (List EnvVar) → Option (List LabelItemSchema)
unfolding old_envs
transform_to_old_envs none = none
transform_to_old_envs (some envs) = some (old_envs envs)

-- The items that have a value.
abbrev pub with_value : List LabelItemSchema → List LabelItemSchema
with_value = keep (λ item. not (item.value == ""))

old_envs-new_envs : (items : List LabelItemSchema) → old_envs (new_envs items) ≡ with_value items
unfolding old_envs new_envs keep
old_envs-new_envs [] = refl
old_envs-new_envs (item ∷ items) = ground (arith, old_envs-new_envs items)

-- Environment variables that are converted and converted back lose the items with an empty value, and
-- nothing else: an absent list stays absent, the order is kept.
pub transform_to_old_envs-transform_to_new_envs :
    (items : Option (List LabelItemSchema))
    → transform_to_old_envs (transform_to_new_envs items) ≡ Option.map with_value items
unfolding transform_to_old_envs transform_to_new_envs
transform_to_old_envs-transform_to_new_envs none = refl
transform_to_old_envs-transform_to_new_envs (some items) = ap some (old_envs-new_envs items)

pub old-new_extra_pod_metadata :
    (src : Option V1alpha3.ExtraPodMetadata)
    → transform_to_old_extra_pod_metadata (transform_to_new_extra_pod_metadata src) ≡ src
unfolding transform_to_old_extra_pod_metadata transform_to_new_extra_pod_metadata
old-new_extra_pod_metadata none = refl
old-new_extra_pod_metadata (some src) = refl

pub old-new_extra_pod_spec :
    (src : Option V1alpha3.ExtraPodSpec)
    → transform_to_old_extra_pod_spec (transform_to_new_extra_pod_spec src) ≡ src
unfolding transform_to_old_extra_pod_spec transform_to_new_extra_pod_spec
old-new_extra_pod_spec none = refl
old-new_extra_pod_spec (some src) = refl
