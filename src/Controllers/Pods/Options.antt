-- ===== src/Controllers/Pods/Options.antt =====
-- What `generatePodTemplateSpec` of controllers/handleDeployment.go is called with, and the libraries
-- that it uses.
use yatai_deployment.Base.{String, Option, List, Bool, Result}
use yatai_deployment.Api.Resources.{Bento}
use yatai_deployment.Api.Pods.{ConfigMap, ServiceAccount}
use yatai_deployment.Api.V2alpha1.{BentoDeployment}
use yatai_deployment.YataiClient.{YataiClient}

-- `generatePodTemplateSpecOption`, and `generateDeploymentOption` and `createOrUpdateDeploymentOption`,
-- which have the same fields.
pub record PodOption : Type 0 where
  pub bento_deployment : BentoDeployment
  pub bento : Bento
  pub yatai_client : Option YataiClient
  pub cluster_name : Option String
  pub runner_name : Option String
  pub is_stealing_traffic_debug_mode_enabled : Bool
  pub contains_stealing_traffic_debug_mode_enabled : Bool

-- The environment of the program, the image of the metrics transformer from
-- `commonconfig.GetInternalImages`, go-pep440-version, and Unicode's cases.
pub record PodLib : Type 0 where
  pub getenv : String → String
  pub metrics_transformer : String
  pub parse_version : String → Result String
  pub less_than_or_equal : String → String → Bool
  pub to_lower : String → String
  pub to_upper : String → String

-- The API client's calls for the pods: `ctrl.SetControllerReference` and `ctrl.CreateOrUpdate` of a
-- ConfigMap, the latter with the function that changes what is there, and the list of the service
-- accounts of a namespace that have a label.
pub record PodClient (S : Type 0) : Type 0 where
  pub set_controller_reference : BentoDeployment → ConfigMap → Result ConfigMap
  pub create_or_update : ConfigMap → (ConfigMap → Result ConfigMap) → S → Result (Unit {0}) × S
  pub list_service_accounts : String → String → String → S → Result (List ServiceAccount) × S
