-- ===== src/Api/V2alpha1.antt =====
-- apis/serving/v2alpha1/bentodeployment_types.go: the version that is stored, the conversion hub.
use yatai_deployment.Base.{String, Option, List, Bool}
use yatai_deployment.Base.Int.{ℤ}
use yatai_deployment.Base.Dict.{Dict}
use yatai_deployment.Api.Kube.{Opaque, ObjectMeta, EnvVar, MetricSpec, Condition}
use yatai_deployment.Api.Pods.{Container}
use yatai_deployment.Api.Common.{Resources}

pub record ExtraPodMetadata : Type 0 where
  pub annotations : Option (Dict String)
  pub labels : Option (Dict String)

pub record ExtraPodSpec : Type 0 where
  pub scheduler_name : String
  pub node_selector : Option (Dict String)
  pub affinity : Option Opaque
  pub tolerations : List Opaque
  pub topology_spread_constraints : List Opaque
  pub containers : List Container
  pub service_account_name : String

pub record Autoscaling : Type 0 where
  pub min_replicas : ℤ
  pub max_replicas : ℤ
  pub metrics : List MetricSpec
  pub behavior : Option Opaque

pub record BentoDeploymentRunnerSpec : Type 0 where
  pub name : String
  pub annotations : Option (Dict String)
  pub labels : Option (Dict String)
  pub resources : Option Resources
  pub autoscaling : Option Autoscaling
  pub envs : Option (List EnvVar)
  pub extra_pod_metadata : Option ExtraPodMetadata
  pub extra_pod_spec : Option ExtraPodSpec

pub record BentoDeploymentIngressTlsSpec : Type 0 where
  pub secret_name : String

pub record BentoDeploymentIngressSpec : Type 0 where
  pub enabled : Bool
  pub annotations : Option (Dict String)
  pub labels : Option (Dict String)
  pub tls : Option BentoDeploymentIngressTlsSpec

pub record MonitorExporterMountSpec : Type 0 where
  pub path : String
  pub read_only : Bool
  pub volume_source : Opaque

pub record MonitorExporterSpec : Type 0 where
  pub enabled : Bool
  pub output : String
  pub options : Option (Dict String)
  pub structure_options : List EnvVar
  pub mounts : List MonitorExporterMountSpec

pub record BentoDeploymentSpec : Type 0 where
  pub annotations : Option (Dict String)
  pub labels : Option (Dict String)
  pub bento : String
  pub resources : Option Resources
  pub autoscaling : Option Autoscaling
  pub envs : Option (List EnvVar)
  pub runners : List BentoDeploymentRunnerSpec
  pub ingress : BentoDeploymentIngressSpec
  pub monitor_exporter : Option MonitorExporterSpec
  pub extra_pod_metadata : Option ExtraPodMetadata
  pub extra_pod_spec : Option ExtraPodSpec

pub record BentoDeploymentStatus : Type 0 where
  pub conditions : List Condition
  pub pod_selector : Option (Dict String)

pub record BentoDeployment : Type 0 where
  pub meta : ObjectMeta
  pub spec : BentoDeploymentSpec
  pub status : BentoDeploymentStatus
