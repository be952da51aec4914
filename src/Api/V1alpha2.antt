-- ===== src/Api/V1alpha2.antt =====
-- apis/serving/v1alpha2/bentodeployment_types.go
use yatai_deployment.Base.{String, Option, List, Bool}
use yatai_deployment.Api.Kube.{ObjectMeta}
use yatai_deployment.Api.Common.{Resources, DeploymentTargetHpaConf, LabelItemSchema}

pub record BentoDeploymentRunnerSpec : Type 0 where
  pub name : String
  pub resources : Option Resources
  pub autoscaling : Option DeploymentTargetHpaConf
  pub envs : Option (List LabelItemSchema)

pub record BentoDeploymentIngressSpec : Type 0 where
  pub enabled : Bool

pub record BentoDeploymentSpec : Type 0 where
  pub bento_tag : String
  pub resources : Option Resources
  pub autoscaling : Option DeploymentTargetHpaConf
  pub envs : Option (List LabelItemSchema)
  pub runners : List BentoDeploymentRunnerSpec
  pub ingress : BentoDeploymentIngressSpec

pub record BentoDeployment : Type 0 where
  pub meta : ObjectMeta
  pub spec : BentoDeploymentSpec
