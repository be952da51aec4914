-- ===== src/Controllers/OldHpa.antt =====
-- `TransformToOldHPA` of controllers/helper.go, which reads an autoscaling for the Yatai server. It is a
-- copy of the function of the same name in apis/serving/v1alpha3/bentodeployment_conversion.go.
use yatai_deployment.Base.{
  Option, none, some, List, [], ◌∷◌, ◌==◌, ◌≡◌, refl, ◌∙◌, ap, arith, if◌then◌else◌,
}
use yatai_deployment.Api.Consts.{Consts}
use yatai_deployment.Api.Kube.{
  QuantityLib, MetricTarget, MetricSpec, PodsMetricSource, ResourceMetricSource,
}
use yatai_deployment.Api.Common.{DeploymentTargetHpaConf}
use yatai_deployment.Api.V2alpha1.{Autoscaling}
use yatai_deployment.Conversion.Hpa as Api

-- A metric with a utilization target and the value that is asked for.
utilized :
    {A : Type 0}
    → MetricTarget
    → Option A
    → (A → DeploymentTargetHpaConf)
    → DeploymentTargetHpaConf
    → DeploymentTargetHpaConf
utilized target none change conf = conf
utilized target (some value) change conf =
    if target.type == "Utilization" then change value else conf

one_metric :
    {A : Type 0} (metric : MetricSpec) (conf : A) {pods pods' resource resource' : A}
    → pods ≡ pods'
    → resource ≡ resource'
    → (if metric.type == "Pods" then pods else if metric.type == "Resource" then resource else conf)
      ≡ (if metric.type == "Pods"
          then pods'
          else if metric.type == "Resource"
          then resource'
          else conf)
one_metric metric conf e e' = cc

module _ (c : Consts) (lib : QuantityLib) where
  pods_metric : Option PodsMetricSource → DeploymentTargetHpaConf → DeploymentTargetHpaConf
  unfolding utilized
  pods_metric none conf = conf
  pods_metric (some pods) conf =
      if pods.metric_name == c.kube_hpa_qps_metric
      then utilized pods.target pods.target.average_value
          (λ quantity. record conf { qps = some (lib.value quantity) }) conf
      else conf

  resource_metric : Option ResourceMetricSource → DeploymentTargetHpaConf → DeploymentTargetHpaConf
  unfolding utilized
  resource_metric none conf = conf
  resource_metric (some resource) conf =
      let target = resource.target in
      if resource.name == "cpu"
      then utilized target target.average_utilization
          (λ utilization. record conf { cpu = some utilization }) conf
      else if resource.name == "memory"
      then utilized target target.average_utilization
          (λ _. record conf { memory = some (lib.to_string target.average_value) }) conf
      else conf

  -- The loop over the metrics.
  metrics_step : List MetricSpec → DeploymentTargetHpaConf → DeploymentTargetHpaConf
  unfolding pods_metric resource_metric
  metrics_step [] conf = conf
  metrics_step (metric ∷ metrics) conf = metrics_step metrics (
      if metric.type == "Pods"
      then pods_metric metric.pods conf
      else if metric.type == "Resource"
      then resource_metric metric.resource conf
      else conf)

  unfoldable pub transform_to_old_hpa : Option Autoscaling → Option DeploymentTargetHpaConf
  unfolding metrics_step
  transform_to_old_hpa none = none
  transform_to_old_hpa (some hpa) = some (
      metrics_step hpa.metrics (record {
        cpu = none;
        gpu = none;
        memory = none;
        qps = none;
        min_replicas = some hpa.min_replicas;
        max_replicas = some hpa.max_replicas;
      }))

  pods_metric-read_pods :
      (pods : Option PodsMetricSource) (conf : DeploymentTargetHpaConf)
      → pods_metric pods conf ≡ Api.read_pods c lib pods conf
  unfolding pods_metric Api.read_pods
  pods_metric-read_pods pods conf = ground arith

  resource_metric-read_resource :
      (resource : Option ResourceMetricSource) (conf : DeploymentTargetHpaConf)
      → resource_metric resource conf ≡ Api.read_resource c lib resource conf
  unfolding resource_metric Api.read_resource
  resource_metric-read_resource resource conf = ground arith

  metrics_step-read_metrics :
      (metrics : List MetricSpec) (conf : DeploymentTargetHpaConf)
      → metrics_step metrics conf ≡ Api.read_metrics c lib metrics conf
  unfolding metrics_step Api.read_metrics
  metrics_step-read_metrics [] conf = refl
  metrics_step-read_metrics (metric ∷ metrics) conf =
      metrics_step-read_metrics metrics _
      ∙ ap (λ next. Api.read_metrics c lib metrics next)
          (one_metric metric conf (pods_metric-read_pods metric.pods conf)
            (resource_metric-read_resource metric.resource conf))

  -- The two functions of this name in the program agree: what the Yatai server is told of an autoscaling
  -- is what the API shows in the old version.
  pub transform_to_old_hpa-same :
      (hpa : Option Autoscaling) → transform_to_old_hpa hpa ≡ Api.transform_to_old_hpa c lib hpa
  unfolding transform_to_old_hpa Api.transform_to_old_hpa
  transform_to_old_hpa-same none = refl
  transform_to_old_hpa-same (some hpa) = ap some (metrics_step-read_metrics hpa.metrics _)
