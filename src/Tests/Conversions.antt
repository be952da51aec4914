-- ===== src/Tests/Conversions.antt =====
-- Old resources that are stored as new ones and read back.
use mathlib.Core.Option
use yatai_deployment.Base.{
  ◌≤◌, len, Option, none, some, List, [], ◌∷◌, Result, ok, bind, ◌≡◌, refl, ap, arith,
}
use yatai_deployment.Base.Int.{pos}
use yatai_deployment.Base.Effect.{World, err, panic, not_found}
use yatai_deployment.Api.Common.{DeploymentTargetHpaConf, LabelItemSchema, Resources}
use yatai_deployment.Api.Resources.{BentoRequest}
use yatai_deployment.Api.V2alpha1
use yatai_deployment.Api.V1alpha3
use yatai_deployment.Conversion.Hpa.{transform_to_old_hpa, transform_to_new_hpa}
use yatai_deployment.Conversion.Hpa.RoundTrip.{after_round_trip, old-new_hpa}
use yatai_deployment.Conversion.Names.{
  get_bento_name_from_bento_tag, get_bento_name_from_bento_tag-le,
}
use yatai_deployment.Conversion.Parts.{
  with_value, transform_to_new_envs, transform_to_old_envs,
  transform_to_old_envs-transform_to_new_envs,
}
use yatai_deployment.Conversion.Resources.{
  convert_to_deployment_target_resources, convert_from_deployment_target_resources,
  resources_inverse,
}
use yatai_deployment.Conversion.V1alpha3.{BentoClients, convert_to, convert_from}
use yatai_deployment.Conversion.V1alpha3.RoundTrip.{restored, convert_from-convert_to}
use yatai_deployment.Conversion.Older.{
  zero_deployment, empty_v1alpha2, convert_from_v1alpha2, convert_from_v1alpha2-forgets,
}
use yatai_deployment.Tests.Fixtures.{
  consts, texts, quantities, value_new, sixteen, bento, deployment, meta_of, world,
}

-- A target of 70 % CPU and of memory.
abbrev old_hpa : DeploymentTargetHpaConf
old_hpa = record {
  cpu = some (pos 70);
  gpu = none;
  memory = some "1Gi";
  qps = some (pos 5);
  min_replicas = none;
  max_replicas = some (pos 4);
}

abbrev new_hpa : Option V2alpha1.Autoscaling
new_hpa = elim (transform_to_new_hpa consts quantities (some old_hpa)) [
  | ok hpa ↦ hpa
  | err e ↦ none
  | panic ↦ none
]

old-new_hpa_example :
    transform_to_old_hpa consts quantities new_hpa ≡ some (after_round_trip consts old_hpa)
unfolding transform_to_new_hpa
old-new_hpa_example = old-new_hpa consts quantities value_new old_hpa new_hpa refl

-- The memory target is lost.
memory_lost : (after_round_trip consts old_hpa).memory ≡ none
memory_lost = refl

abbrev items : List LabelItemSchema
items = (record { key = "A"; value = "1" }) ∷ (record { key = "B"; value = "" }) ∷ []

transform_to_old_envs-transform_to_new_envs_example :
    transform_to_old_envs (transform_to_new_envs (some items)) ≡ Option.map with_value (some items)
transform_to_old_envs-transform_to_new_envs_example =
    transform_to_old_envs-transform_to_new_envs (some items)

get_bento_name_from_bento_tag-le_example : len (get_bento_name_from_bento_tag texts "iris:v1") ≤ 63
get_bento_name_from_bento_tag-le_example = get_bento_name_from_bento_tag-le texts sixteen "iris:v1"

abbrev resources : Resources
resources = record {
  requests = none;
  limits = some (record { cpu = "1"; memory = ""; gpu = ""; custom = none });
}

resources_inverse_example :
    (convert_from_deployment_target_resources
        (convert_to_deployment_target_resources (some resources))
      ≡ some resources)
    × (convert_to_deployment_target_resources (convert_from_deployment_target_resources none)
        ≡ none)
resources_inverse_example = resources_inverse (some resources) none

-- A cluster that keeps the Bento.
abbrev clients : BentoClients (List BentoRequest)
clients = record {
  new_for_config = λ s. (ok tt, s);
  get_bento = λ key s. (ok bento, s);
  create_bento_request = λ request s. (ok tt, request ∷ s);
  get_bento_request = λ key s. (err not_found, s);
  update_bento_request = λ request s. (ok tt, s);
}

abbrev src : V1alpha3.BentoDeployment
src = record zero_deployment {
  meta = meta_of "iris";
  spec = record zero_deployment.spec {
    bento_tag = "iris:v1";
    autoscaling = some old_hpa;
    envs = some items;
    runners =
        (record {
          name = "iris_clf";
          annotations = none;
          labels = none;
          resources = some resources;
          autoscaling = none;
          envs = none;
          extra_pod_metadata = none;
          extra_pod_spec = none;
        })
        ∷ [];
  };
}

abbrev empty : World (List BentoRequest)
empty = world []

abbrev or_deployment : Result V2alpha1.BentoDeployment → V2alpha1.BentoDeployment
or_deployment (ok stored) = stored
or_deployment (err e) = deployment
or_deployment panic = deployment

abbrev stored : V2alpha1.BentoDeployment
stored = or_deployment (convert_to clients consts quantities texts src deployment empty).0

abbrev requested : World (List BentoRequest)
requested = (convert_to clients consts quantities texts src deployment empty).1

convert_from-convert_to_example :
    (convert_from clients consts quantities stored zero_deployment requested).0
    ≡ ok (restored consts src zero_deployment)
unfolding convert_to
convert_from-convert_to_example =
    convert_from-convert_to clients consts quantities texts value_new src zero_deployment deployment
      stored empty requested refl (λ e. omega (arith, ap len e)) (bento, refl, refl, refl)

convert_from_v1alpha2-forgets_example :
    (convert_from_v1alpha2 clients consts quantities deployment empty_v1alpha2 empty).0
    ≡ bind
        (convert_from clients consts quantities deployment zero_deployment empty).0
        (λ _. ok empty_v1alpha2)
convert_from_v1alpha2-forgets_example =
    convert_from_v1alpha2-forgets clients consts quantities deployment empty_v1alpha2 empty
