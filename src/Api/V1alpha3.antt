-- ===== src/Api/V1alpha3.antt =====
-- apis/serving/v1alpha3/bentodeployment_types.go. The status of an old version is not converted, and
-- not modelled.
use yatai_deployment.Base.{String, Option, List, Bool}
use yatai_deployment.Base.Dict.{Dict}
use yatai_deployment.Api.Kube.{Opaque, ObjectMeta}
use yatai_deployment.Api.Common.{Resources, DeploymentTargetHpaConf, LabelItemSchema}

pub record ExtraPodMetadata : Type 0 where
  pub annotations : Option (Dict String)
  pub labels : Option (Dict String)

pub record ExtraPodSpec : Type 0 where
  pub scheduler_name : String
  pub node_selector : Option (Dict String)
  pub affinity : Option Opaque
  pub tolerations : List Opaque
  pub topology_spread_constraints : List Opaque

pub record BentoDeploymentRunnerSpec : Type 0 where
  pub name : String
  pub annotations : Option (Dict String)
  pub labels : Option (Dict String)
  pub resources : Option Resources
  pub autoscaling : Option DeploymentTargetHpaConf
  pub envs : Option (List LabelItemSchema)
  pub extra_pod_metadata : Option ExtraPodMetadata
  pub extra_pod_spec : Option ExtraPodSpec

pub record BentoDeploymentIngressTlsSpec : Type 0 where
  pub secret_name : String

pub record BentoDeploymentIngressSpec : Type 0 where
  pub enabled : Bool
  pub annotations : Option (Dict String)
  pub labels : Option (Dict String)
  pub tls : Option BentoDeploymentIngressTlsSpec

pub record BentoDeploymentSpec : Type 0 where
  pub annotations : Option (Dict String)
  pub labels : Option (Dict String)
  pub bento_tag : String
  pub resources : Option Resources
  pub autoscaling : Option DeploymentTargetHpaConf
  pub envs : Option (List LabelItemSchema)
  pub runners : List BentoDeploymentRunnerSpec
  pub ingress : BentoDeploymentIngressSpec
  pub extra_pod_metadata : Option ExtraPodMetadata
  pub extra_pod_spec : Option ExtraPodSpec

pub record BentoDeployment : Type 0 where
  pub meta : ObjectMeta
  pub spec : BentoDeploymentSpec
