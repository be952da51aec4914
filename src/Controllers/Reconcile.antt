-- ===== src/Controllers/Reconcile.antt =====
-- controllers/bentodeployment_controller.go: the reconciler.
pub mod Conditions
pub mod Components
pub mod Sync
pub mod Loop
use yatai_deployment.Base.{String, Option, List, Bool, Result}
use yatai_deployment.Base.Effect.{Error}
use yatai_deployment.Api.Consts.{Consts}
use yatai_deployment.Api.Kube.{NamespacedName, QuantityLib, Condition, Service}
use yatai_deployment.Api.Pods.{Deployment}
use yatai_deployment.Api.Resources.{Bento, BentoRequest}
use yatai_deployment.Api.Yatai.{Http, DeploymentTargetConfig}
use yatai_deployment.Conversion.Names.{TextLib}
use yatai_deployment.Controllers.Objects.{Kind}
use yatai_deployment.Controllers.Hpa.{HpaClient, ServerVersion}
use yatai_deployment.Controllers.Ingress.{Ingress, IngressLib}
use yatai_deployment.Controllers.Status.{StatusClient, YataiLib}
use yatai_deployment.Controllers.Pods.Options.{PodLib, PodClient}

-- `BentoDeploymentReconciler`: the API client for each kind of object, and the other libraries that the
-- methods call. `error_text` is `err.Error()`, `find_status_condition` that of apimachinery, and
-- `deep_equal` is `reflect.DeepEqual`.
pub record Reconciler (S V : Type 0) : Type 0 where
  pub status : StatusClient S
  pub bentos : NamespacedName → S → Result Bento × S
  pub bento_requests : NamespacedName → S → Result BentoRequest × S
  pub deployments : Kind S Deployment
  pub services : Kind S Service
  pub hpas : HpaClient S V
  pub version : ServerVersion
  pub ingresses : Kind S Ingress
  pub ingress_lib : IngressLib S
  pub pod_client : PodClient S
  pub pod_lib : PodLib
  pub yatai : YataiLib S
  pub http : Http S
  pub consts : Consts
  pub texts : TextLib
  pub quantities : QuantityLib
  pub find_status_condition : List Condition → String → Option Condition
  pub error_text : Error → String
  pub deep_equal : DeploymentTargetConfig → DeploymentTargetConfig → Bool
