-- ===== src/Api/Yatai.antt =====
-- The schemas of github.com/bentoml/yatai-schemas, with the fields that the program reads or writes,
-- and the HTTP requests of yatai-common/reqcli.
use yatai_deployment.Base.{ℕ, String, Option, List, Bool, Result}
use yatai_deployment.Base.Dict.{Dict}
use yatai_deployment.Api.Kube.{Opaque}
use yatai_deployment.Api.Common.{DeploymentTargetHpaConf, LabelItemSchema}
use yatai_deployment.Conversion.Resources.{DeploymentTargetResources}
use yatai_deployment.Api.V2alpha1.{ExtraPodMetadata, ExtraPodSpec, MonitorExporterSpec}

pub record OrganizationFullSchema : Type 0 where
  pub uid : String
  pub name : String

pub record ClusterFullSchema : Type 0 where
  pub uid : String

pub record VersionSchema : Type 0 where
  pub version : String
  pub git_commit : String

pub record ListQuerySchema : Type 0 where
  pub start : ℕ
  pub count : ℕ
  pub q : String

-- `DeploymentTargetRunnerConfig`; the overrides are its last two fields.
pub record DeploymentTargetRunnerConfig : Type 0 where
  pub resources : Option DeploymentTargetResources
  pub hpa_conf : Option DeploymentTargetHpaConf
  pub envs : List LabelItemSchema
  pub enable_stealing_traffic_debug_mode : Bool
  pub enable_debug_mode : Bool
  pub enable_debug_pod_receive_production_traffic : Bool
  pub extra_pod_metadata : Option ExtraPodMetadata
  pub extra_pod_spec : Option ExtraPodSpec

-- `DeploymentTargetConfig`, with the fields of its two overrides at the end.
pub record DeploymentTargetConfig : Type 0 where
  pub kube_resource_uid : String
  pub kube_resource_version : String
  pub resources : Option DeploymentTargetResources
  pub hpa_conf : Option DeploymentTargetHpaConf
  pub envs : List LabelItemSchema
  pub runners : Dict DeploymentTargetRunnerConfig
  pub enable_ingress : Bool
  pub enable_stealing_traffic_debug_mode : Bool
  pub enable_debug_mode : Bool
  pub enable_debug_pod_receive_production_traffic : Bool
  pub monitor_exporter : Option MonitorExporterSpec
  pub extra_pod_metadata : Option ExtraPodMetadata
  pub extra_pod_spec : Option ExtraPodSpec
  pub bento_request_overrides : List Opaque

pub record CreateDeploymentTargetSchema : Type 0 where
  pub type : String
  pub bento_repository : String
  pub bento : String
  pub config : DeploymentTargetConfig

pub record UpdateDeploymentSchema : Type 0 where
  pub targets : List CreateDeploymentTargetSchema
  pub do_not_deploy : Bool

pub record CreateDeploymentSchema : Type 0 where
  pub name : String
  pub kube_namespace : String
  pub update : UpdateDeploymentSchema

-- `DeploymentSchema`: the configurations of the targets of the latest revision, if there is one. The
-- source has a pointer to each configuration.
pub record DeploymentSchema : Type 0 where
  pub latest_revision : Option (List (Option DeploymentTargetConfig))

pub record RegisterYataiComponentSchema : Type 0 where
  pub name : String
  pub kube_namespace : String
  pub version : String
  pub selector_labels : Dict String
  pub manifest_selector_labels : Dict String
  pub latest_crd_version : String

pub data Payload : Type 0 where
  no_payload : Payload
  fields : Dict String → Payload
  create_deployment_payload : CreateDeploymentSchema → Payload
  update_deployment_payload : UpdateDeploymentSchema → Payload
  register_payload : RegisterYataiComponentSchema → Payload

pub record Request : Type 0 where
  pub method : String
  pub url : String
  pub headers : Dict String
  pub payload : Payload

-- `utils.UrlJoin` with its query, the builder's `Do`, which returns the body, and the decoding of a
-- body into a schema. A schema of which no field is read is its body.
pub record Http (S : Type 0) : Type 0 where
  pub url_join : String → String → Dict String → String
  pub send : Request → S → Result Opaque × S
  pub organization_of : Opaque → Result OrganizationFullSchema
  pub cluster_of : Opaque → Result ClusterFullSchema
  pub version_of : Opaque → Result VersionSchema
  pub deployment_of : Opaque → Result DeploymentSchema
