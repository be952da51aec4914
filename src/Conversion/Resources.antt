-- ===== src/Conversion/Resources.antt =====
-- apis/serving/conversion/conversion.go: resources to and from the types of
-- github.com/bentoml/yatai-schemas.
use yatai_deployment.Base.{String, Option, none, some, ◌≡◌, refl}
use yatai_deployment.Base.Dict.{Dict}
use yatai_deployment.Api.Common.{Resources, ResourceItem}

-- `modelschemas.DeploymentTargetResourceItem`
pub record DeploymentTargetResourceItem : Type 0 where
  pub cpu : String
  pub memory : String
  pub gpu : String
  pub custom : Option (Dict String)

-- `modelschemas.DeploymentTargetResources`
pub record DeploymentTargetResources : Type 0 where
  pub requests : Option DeploymentTargetResourceItem
  pub limits : Option DeploymentTargetResourceItem

unfoldable pub convert_to_deployment_target_resource_item :
    Option ResourceItem → Option DeploymentTargetResourceItem
convert_to_deployment_target_resource_item none = none
convert_to_deployment_target_resource_item (some src) =
    some (record { cpu = src.cpu; memory = src.memory; gpu = src.gpu; custom = src.custom })

unfoldable pub convert_to_deployment_target_resources :
    Option Resources → Option DeploymentTargetResources
unfolding convert_to_deployment_target_resource_item
convert_to_deployment_target_resources none = none
convert_to_deployment_target_resources (some src) = some (record {
  requests = convert_to_deployment_target_resource_item src.requests;
  limits = convert_to_deployment_target_resource_item src.limits;
})

unfoldable pub convert_from_deployment_target_resource_item :
    Option DeploymentTargetResourceItem → Option ResourceItem
convert_from_deployment_target_resource_item none = none
convert_from_deployment_target_resource_item (some src) =
    some (record { cpu = src.cpu; memory = src.memory; gpu = src.gpu; custom = src.custom })

unfoldable pub convert_from_deployment_target_resources :
    Option DeploymentTargetResources → Option Resources
unfolding convert_from_deployment_target_resource_item
convert_from_deployment_target_resources none = none
convert_from_deployment_target_resources (some src) = some (record {
  requests = convert_from_deployment_target_resource_item src.requests;
  limits = convert_from_deployment_target_resource_item src.limits;
})

from_item-to_item :
    (item : Option ResourceItem)
    → convert_from_deployment_target_resource_item (convert_to_deployment_target_resource_item item)
      ≡ item
unfolding convert_from_deployment_target_resource_item convert_to_deployment_target_resource_item
from_item-to_item none = refl
from_item-to_item (some item) = refl

to_item-from_item :
    (item : Option DeploymentTargetResourceItem)
    → convert_to_deployment_target_resource_item (convert_from_deployment_target_resource_item item)
      ≡ item
unfolding convert_from_deployment_target_resource_item convert_to_deployment_target_resource_item
to_item-from_item none = refl
to_item-from_item (some item) = refl

from-to :
    (src : Option Resources)
    → convert_from_deployment_target_resources (convert_to_deployment_target_resources src) ≡ src
unfolding convert_from_deployment_target_resources convert_to_deployment_target_resources
from-to none = refl
from-to (some src) = λ i. some (record {
  requests = from_item-to_item src.requests i;
  limits = from_item-to_item src.limits i;
})

to-from :
    (dest : Option DeploymentTargetResources)
    → convert_to_deployment_target_resources (convert_from_deployment_target_resources dest) ≡ dest
unfolding convert_from_deployment_target_resources convert_to_deployment_target_resources
to-from none = refl
to-from (some dest) = λ i. some (record {
  requests = to_item-from_item dest.requests i;
  limits = to_item-from_item dest.limits i;
})

-- The two conversions of resources are inverse to each other, nil pointers included.
pub resources_inverse :
    (src : Option Resources) (dest : Option DeploymentTargetResources)
    → (convert_from_deployment_target_resources (convert_to_deployment_target_resources src) ≡ src)
      × (convert_to_deployment_target_resources (convert_from_deployment_target_resources dest)
          ≡ dest)
resources_inverse src dest = (from-to src, to-from dest)
