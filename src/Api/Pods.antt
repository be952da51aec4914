-- ===== src/Api/Pods.antt =====
-- The Kubernetes types of pods and Deployments, with the fields that the program reads or writes.
use yatai_deployment.Base.{ℕ, String, Option, List, Bool}
use yatai_deployment.Base.Int.{ℤ}
use yatai_deployment.Base.Dict.{Dict}
use yatai_deployment.Api.Kube.{
  Opaque, Quantity, ObjectMeta, EnvVar, IntOrString, ResourceRequirements,
}

pub record ContainerPort : Type 0 where
  pub name : String
  pub container_port : ℤ
  pub protocol : String

pub record VolumeMount : Type 0 where
  pub name : String
  pub mount_path : String
  pub read_only : Bool

-- `corev1.VolumeSource`; `given` is one that the user wrote.
pub data VolumeSource : Type 0 where
  empty_dir : String → Quantity → VolumeSource
  config_map : String → VolumeSource
  given : Opaque → VolumeSource

pub record Volume : Type 0 where
  pub name : String
  pub source : VolumeSource

pub data ProbeHandler : Type 0 where
  http_get : String → IntOrString → ProbeHandler
  exec : List String → ProbeHandler

pub record Probe : Type 0 where
  pub initial_delay_seconds : ℕ
  pub timeout_seconds : ℕ
  pub failure_threshold : ℕ
  pub handler : ProbeHandler

pub record Capabilities : Type 0 where
  pub add : List String
  pub drop : List String

pub record SecurityContext : Type 0 where
  pub allow_privilege_escalation : Option Bool
  pub run_as_non_root : Option Bool
  pub run_as_user : Option ℕ
  pub run_as_group : Option ℕ
  pub seccomp_profile : Option String
  pub capabilities : Option Capabilities
  pub privileged : Option Bool

pub record Container : Type 0 where
  pub name : String
  pub image : String
  pub command : List String
  pub args : List String
  pub liveness_probe : Option Probe
  pub readiness_probe : Option Probe
  pub resources : ResourceRequirements
  pub env : List EnvVar
  pub tty : Bool
  pub stdin : Bool
  pub volume_mounts : List VolumeMount
  pub ports : List ContainerPort
  pub security_context : Option SecurityContext

pub record PodSpec : Type 0 where
  pub containers : List Container
  pub volumes : List Volume
  pub image_pull_secrets : List Opaque
  pub scheduler_name : String
  pub node_selector : Option (Dict String)
  pub affinity : Option Opaque
  pub tolerations : List Opaque
  pub topology_spread_constraints : List Opaque
  pub service_account_name : String
  pub host_ipc : Bool
  pub host_network : Bool
  pub host_pid : Bool
  pub share_process_namespace : Option Bool

pub record PodTemplateSpec : Type 0 where
  pub labels : Dict String
  pub annotations : Dict String
  pub spec : PodSpec

-- `appsv1.DeploymentStrategy`, with `maxSurge` and `maxUnavailable` of a rolling update.
pub data DeploymentStrategy : Type 0 where
  rolling_update : IntOrString → IntOrString → DeploymentStrategy
  recreate : DeploymentStrategy

pub record DeploymentSpec : Type 0 where
  pub replicas : Option ℕ
  pub selector : Dict String
  pub template : PodTemplateSpec
  pub strategy : DeploymentStrategy

pub record Deployment : Type 0 where
  pub meta : ObjectMeta
  pub spec : DeploymentSpec

pub record ConfigMap : Type 0 where
  pub meta : ObjectMeta
  pub data_of : Option (Dict String)

pub record ServiceAccount : Type 0 where
  pub name : String
