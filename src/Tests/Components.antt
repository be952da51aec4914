-- ===== src/Tests/Components.antt =====
-- The names, labels, selectors and resources of a component.
use yatai_deployment.Base.{◌≤◌, String, len, none, some, [], ◌∷◌, Bool, true, false, ◌≡◌, ◌≢◌, refl}
use yatai_deployment.Base.Dict.{Dict, lookup}
use yatai_deployment.Api.Common.{ResourceItem}
use yatai_deployment.Controllers.Names.{get_service_name, get_generic_service_name}
use yatai_deployment.Controllers.Names.Bounds.{runner_service_names-le, service_names-ne}
use yatai_deployment.Controllers.Labels.{extra_labels, TargetTypeDiffers}
use yatai_deployment.Api.Kube.{ResourceRequirements}
use yatai_deployment.Controllers.Resources.{get_resources_config}
use yatai_deployment.Controllers.Resources.Effective.{GivesItem, get_resources_config-GivesItem}
use yatai_deployment.Controllers.Service.{ServicesOption, service_of, service_option}
use yatai_deployment.Controllers.Service.Selector.{
  lookup-selector, Selects, split_services-disjoint,
}
use yatai_deployment.Tests.Fixtures.{consts, texts, quantities, sixteen, bento, deployment}

abbrev runner_option : ServicesOption
runner_option = record {
  bento_deployment = deployment;
  bento = bento;
  runner_name = some "iris_clf";
}

differs : TargetTypeDiffers consts
differs = record { creator = refl; component_type = refl; component_name = refl }

abbrev target_key : String
target_key = "yatai.ai/bento-deployment-target-type"

lookup-selector_example :
    lookup target_key
      (service_of consts texts (service_option consts runner_option false true)).spec.selector
    ≡ some "debug"
unfolding service_option
lookup-selector_example =
    lookup-selector consts texts (service_option consts runner_option false true) target_key

service_names-ne_example :
    (get_service_name texts deployment bento (some "iris_clf") true
      ≢ get_service_name texts deployment bento (some "iris_clf") false)
    × ((is_debug : Bool)
        → get_generic_service_name texts deployment bento (some "iris_clf")
          ≢ get_service_name texts deployment bento (some "iris_clf") is_debug)
service_names-ne_example = service_names-ne texts sixteen deployment bento (some "iris_clf")

runner_service_names-le_example :
    (len (get_service_name texts deployment bento (some "iris_clf") true) ≤ 63)
    × (len (get_generic_service_name texts deployment bento (some "iris_clf")) ≤ 63)
runner_service_names-le_example =
    runner_service_names-le texts sixteen deployment bento "iris_clf" true

abbrev limits : ResourceItem
limits = record { cpu = "2"; memory = ""; gpu = "1"; custom = none }

abbrev requests : ResourceItem
requests = record { cpu = ""; memory = "3Gi"; gpu = ""; custom = none }

abbrev config : ResourceRequirements
config = record {
  limits =
      ("cpu", record { repr = "2" })
      ∷ ("memory", record { repr = "1Gi" })
      ∷ ("nvidia.com/gpu", record { repr = "1" })
      ∷ [];
  requests = ("cpu", record { repr = "300m" }) ∷ ("memory", record { repr = "3Gi" }) ∷ [];
}

get_resources_config-GivesItem_example :
    GivesItem quantities config.limits limits
      (quantities.must_parse "500m")
      (quantities.must_parse "1Gi")
    × GivesItem quantities config.requests requests
        (quantities.must_parse "300m")
        (quantities.must_parse "500Mi")
unfolding get_resources_config lookup
get_resources_config-GivesItem_example =
    get_resources_config-GivesItem quantities consts (refl, refl) limits requests config refl
      (refl, refl) (refl, refl)

-- The pods that carry the labels of the production Service.
abbrev production_labels : Dict String
production_labels =
    (service_of consts texts (service_option consts runner_option false false)).spec.selector

split_services-disjoint_example :
    ¬ Selects
      (service_of consts texts (service_option consts runner_option false true)).spec.selector
      production_labels
split_services-disjoint_example =
    split_services-disjoint consts texts differs runner_option production_labels
      (unfold extra_labels lookup in refl) (λ j v h. h)
