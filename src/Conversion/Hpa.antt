-- ===== src/Conversion/Hpa.antt =====
-- `TransformToOldHPA` and `TransformToNewHPA` of apis/serving/v1alpha3/bentodeployment_conversion.go.
pub mod RoundTrip
pub mod Errors
use yatai_deployment.Base.{
  String, Option, none, some, List, [], ◌∷◌, ◌++◌, Result, ok, wrap_err, ◌==◌, if◌then◌else◌,
  is_some, bind,
}
use yatai_deployment.Base.Int.{ℤ, pos, is_positive}
use yatai_deployment.Api.Consts.{Consts}
use yatai_deployment.Api.Kube.{
  Quantity, QuantityLib, MetricTarget, PodsMetricSource, ResourceMetricSource, MetricSpec,
}
use yatai_deployment.Api.Common.{DeploymentTargetHpaConf}
use yatai_deployment.Api.V2alpha1.{Autoscaling}

module _ (c : Consts) (lib : QuantityLib) where
  -- The target of a pods metric that measures the requests per second.
  unfoldable pub read_qps : MetricTarget → DeploymentTargetHpaConf → DeploymentTargetHpaConf
  read_qps target conf =
      if target.type == "Utilization"
      then elim target.average_value [
        | none ↦ conf
        | some quantity ↦ record conf { qps = some (lib.value quantity) }
      ]
      else conf

  unfoldable pub read_pods :
      Option PodsMetricSource → DeploymentTargetHpaConf → DeploymentTargetHpaConf
  unfolding read_qps
  read_pods none conf = conf
  read_pods (some pods) conf =
      if pods.metric_name == c.kube_hpa_qps_metric then read_qps pods.target conf else conf

  unfoldable pub read_cpu : MetricTarget → DeploymentTargetHpaConf → DeploymentTargetHpaConf
  read_cpu target conf =
      if target.type == "Utilization"
      then elim target.average_utilization [
        | none ↦ conf
        | some utilization ↦ record conf { cpu = some utilization }
      ]
      else conf

  -- The test is on the utilization, the value read is the average value.
  unfoldable pub read_memory : MetricTarget → DeploymentTargetHpaConf → DeploymentTargetHpaConf
  read_memory target conf =
      if target.type == "Utilization"
      then elim target.average_utilization [
        | none ↦ conf
        | some _ ↦ record conf { memory = some (lib.to_string target.average_value) }
      ]
      else conf

  unfoldable pub read_resource :
      Option ResourceMetricSource → DeploymentTargetHpaConf → DeploymentTargetHpaConf
  unfolding read_cpu read_memory
  read_resource none conf = conf
  read_resource (some resource) conf =
      if resource.name == "cpu"
      then read_cpu resource.target conf
      else if resource.name == "memory"
      then read_memory resource.target conf
      else conf

  -- One round of the loop over the metrics.
  unfoldable pub read_metric : MetricSpec → DeploymentTargetHpaConf → DeploymentTargetHpaConf
  unfolding read_pods read_resource
  read_metric metric conf =
      if metric.type == "Pods"
      then read_pods metric.pods conf
      else if metric.type == "Resource"
      then read_resource metric.resource conf
      else conf

  unfoldable pub read_metrics : List MetricSpec → DeploymentTargetHpaConf → DeploymentTargetHpaConf
  unfolding read_metric
  read_metrics [] conf = conf
  read_metrics (metric ∷ metrics) conf = read_metrics metrics (read_metric metric conf)

  -- The error that the source returns beside it is always nil.
  unfoldable pub transform_to_old_hpa : Option Autoscaling → Option DeploymentTargetHpaConf
  unfolding read_metrics
  transform_to_old_hpa none = none
  transform_to_old_hpa (some hpa) = some (
      read_metrics hpa.metrics (record {
        cpu = none;
        gpu = none;
        memory = none;
        qps = none;
        min_replicas = some hpa.min_replicas;
        max_replicas = some hpa.max_replicas;
      }))

abbrev utilization_target : Option Quantity → Option ℤ → MetricTarget
utilization_target value utilization = record {
  type = "Utilization";
  average_value = value;
  average_utilization = utilization;
}

abbrev pods_metric : String → MetricTarget → MetricSpec
pods_metric name target = record {
  type = "Pods";
  pods = some (record { metric_name = name; target = target });
  resource = none;
  others = none;
}

abbrev resource_metric : String → MetricTarget → MetricSpec
resource_metric name target = record {
  type = "Resource";
  pods = none;
  resource = some (record { name = name; target = target });
  others = none;
}

-- `x != nil && *x > 0`
abbrev pub positive : Option ℤ → Option ℤ
positive none = none
positive (some n) = if is_positive n then some n else none

-- `x != nil && *x != ""`
abbrev pub non_empty : Option String → Option String
non_empty none = none
non_empty (some s) = if s == "" then none else some s

abbrev pub or_default {ℓ} : {A : Type ℓ} → Option A → A → A
or_default none d = d
or_default (some a) d = a

module _ (c : Consts) where
  -- `if len(metrics) == 0`
  unfoldable pub default_metrics : List MetricSpec → List MetricSpec
  default_metrics [] =
      resource_metric "cpu" (utilization_target none (some c.hpa_cpu_default_average_utilization))
      ∷ []
  default_metrics (metric ∷ metrics) = metric ∷ metrics

module _ (c : Consts) (lib : QuantityLib) where
  qps_metrics : Option ℤ → List MetricSpec
  qps_metrics none = []
  qps_metrics (some n) =
      pods_metric c.kube_hpa_qps_metric (utilization_target (some (lib.new_quantity n)) none) ∷ []

  cpu_metrics : Option ℤ → List MetricSpec
  cpu_metrics none = []
  cpu_metrics (some n) = resource_metric "cpu" (utilization_target none (some n)) ∷ []

  memory_metrics : Option String → Result (List MetricSpec)
  memory_metrics none = ok []
  memory_metrics (some memory) =
      bind (wrap_err "parse memory" (lib.parse_quantity memory))
        λ quantity. ok (resource_metric "memory" (utilization_target (some quantity) none) ∷ [])

  unfoldable pub transform_to_new_hpa : Option DeploymentTargetHpaConf → Result (Option Autoscaling)
  unfolding qps_metrics cpu_metrics memory_metrics default_metrics
  transform_to_new_hpa none = ok none
  transform_to_new_hpa (some old) = bind (memory_metrics (non_empty old.memory)) λ memory. ok (
      some (record {
        min_replicas = or_default old.min_replicas (pos 2);
        max_replicas = or_default old.max_replicas c.hpa_default_max_replicas;
        metrics =
            default_metrics c
              (qps_metrics (positive old.qps) ++ (cpu_metrics (positive old.cpu) ++ memory));
        behavior = none;
      }))
