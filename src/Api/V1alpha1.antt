-- ===== src/Api/V1alpha1.antt =====
-- apis/serving/v1alpha1/bentodeployment_types.go; the types of its runners, which no code reads, are
-- opaque.
use yatai_deployment.Base.{String, Option, List}
use yatai_deployment.Api.Kube.{Opaque, ObjectMeta}
use yatai_deployment.Api.Common.{Resources, DeploymentTargetHpaConf, LabelItemSchema}

pub record BentoDeploymentSpec : Type 0 where
  pub bento_tag : String
  pub resources : Option Resources
  pub autoscaling : Option DeploymentTargetHpaConf
  pub envs : Option (List LabelItemSchema)
  pub runners : List Opaque

pub record BentoDeployment : Type 0 where
  pub meta : ObjectMeta
  pub spec : BentoDeploymentSpec
