-- ===== src/Api/Kube.antt =====
-- The Kubernetes types that the resources are made of, with the fields that the program reads or
-- writes. A part that it only copies is `Opaque`.
use yatai_deployment.Base.{ℕ, String, Option, List, Bool, Result}
use yatai_deployment.Base.Int.{ℤ}
use yatai_deployment.Base.Dict.{Dict}

-- A value of a library type that the program copies and never looks into, by its encoding.
abbrev pub Opaque : Type 0
Opaque = String

-- `resource.Quantity`, known through the calls of its package alone.
pub record Quantity : Type 0 where
  pub repr : Opaque

-- The calls of k8s.io/apimachinery/pkg/api/resource that the program makes.
pub record QuantityLib : Type 0 where
  pub parse_quantity : String → Result Quantity
  pub must_parse : String → Quantity
  pub new_quantity : ℤ → Quantity
  pub value : Quantity → ℤ
  -- `String` has a pointer for its receiver, which may be nil.
  pub to_string : Option Quantity → String
  pub is_zero : Quantity → Bool
  pub milli_value : Quantity → ℤ
  -- `q.SetMilli(value)`, the quantity after it.
  pub set_milli : ℤ → Quantity → Quantity

-- `corev1.ResourceList`
abbrev pub ResourceList : Type 0
ResourceList = Dict Quantity

-- `corev1.ResourceRequirements`
pub record ResourceRequirements : Type 0 where
  pub requests : ResourceList
  pub limits : ResourceList

pub record ObjectMeta : Type 0 where
  pub name : String
  pub namespace : String
  pub uid : String
  pub resource_version : String
  pub labels : Option (Dict String)
  pub annotations : Option (Dict String)
  pub owner_references : List Opaque

pub record NamespacedName : Type 0 where
  pub namespace : String
  pub name : String

pub record EnvVar : Type 0 where
  pub name : String
  pub value : String
  pub value_from : Option Opaque

pub record MetricTarget : Type 0 where
  pub type : String
  pub average_value : Option Quantity
  pub average_utilization : Option ℤ

pub record PodsMetricSource : Type 0 where
  pub metric_name : String
  pub target : MetricTarget

pub record ResourceMetricSource : Type 0 where
  pub name : String
  pub target : MetricTarget

-- `autoscalingv2beta2.MetricSpec`; `others` are the sources of the other types.
pub record MetricSpec : Type 0 where
  pub type : String
  pub pods : Option PodsMetricSource
  pub resource : Option ResourceMetricSource
  pub others : Option Opaque

-- `metav1.Condition`
pub record Condition : Type 0 where
  pub type : String
  pub status : String
  pub reason : String
  pub message : String

-- `intstr.IntOrString`
pub data IntOrString : Type 0 where
  from_int : ℕ → IntOrString
  from_string : String → IntOrString

pub record ServicePort : Type 0 where
  pub name : String
  pub port : ℕ
  pub target_port : IntOrString
  pub protocol : String

pub record ServiceSpec : Type 0 where
  pub selector : Dict String
  pub ports : List ServicePort

pub record Service : Type 0 where
  pub meta : ObjectMeta
  pub spec : ServiceSpec
