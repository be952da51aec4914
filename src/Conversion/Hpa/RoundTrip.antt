-- ===== src/Conversion/Hpa/RoundTrip.antt =====
-- What an old autoscaling configuration becomes by way of the new version.
use yatai_deployment.Base.{
  String, Option, none, some, List, ◌++◌, ok, ◌≡◌, refl, bind-eq-ok, ok-injective, subst, ap, arith,
  eq_refl,
}
use mathlib.Core.Option
use yatai_deployment.Base.Int.{ℤ, pos}
use yatai_deployment.Api.Consts.{Consts}
use yatai_deployment.Api.Kube.{QuantityLib, MetricSpec}
use yatai_deployment.Api.Common.{DeploymentTargetHpaConf}
use yatai_deployment.Api.V2alpha1.{Autoscaling}
use yatai_deployment.Conversion.Hpa.{
  read_metrics, qps_metrics, cpu_metrics, memory_metrics, default_metrics, transform_to_old_hpa,
  transform_to_new_hpa, positive, non_empty, or_default,
}

-- The CPU target after the round trip, from the targets that were set: the default appears where
-- none was.
abbrev pub cpu_after : Consts → Option ℤ → Option ℤ → Option String → Option ℤ
cpu_after c (some n) qps memory = some n
cpu_after c none (some _) memory = none
cpu_after c none none (some _) = none
cpu_after c none none none = some c.hpa_cpu_default_average_utilization

-- The configuration that comes back. The memory target is lost, and so is the GPU target.
abbrev pub after_round_trip : Consts → DeploymentTargetHpaConf → DeploymentTargetHpaConf
after_round_trip c old = record {
  cpu = cpu_after c (positive old.cpu) (positive old.qps) (non_empty old.memory);
  gpu = none;
  memory = none;
  qps = positive old.qps;
  min_replicas = some (or_default old.min_replicas (pos 2));
  max_replicas = some (or_default old.max_replicas c.hpa_default_max_replicas);
}

-- The configuration before the loop over the metrics.
abbrev start : Consts → DeploymentTargetHpaConf → DeploymentTargetHpaConf
start c old = record {
  cpu = none;
  gpu = none;
  memory = none;
  qps = none;
  min_replicas = some (or_default old.min_replicas (pos 2));
  max_replicas = some (or_default old.max_replicas c.hpa_default_max_replicas);
}

module _ (c : Consts) (lib : QuantityLib)
    (value_new : (n : ℤ) → lib.value (lib.new_quantity n) ≡ n) where
  read_back :
      (qps cpu : Option ℤ) (memory : Option String) (metrics : List MetricSpec)
      (conf : DeploymentTargetHpaConf)
      → conf.cpu ≡ none
      → conf.qps ≡ none
      → memory_metrics c lib memory ≡ ok metrics
      → read_metrics c lib
          (default_metrics c (qps_metrics c lib qps ++ (cpu_metrics c lib cpu ++ metrics)))
          conf
        ≡ record conf { cpu = cpu_after c cpu qps memory; qps = qps }
  unfolding qps_metrics cpu_metrics memory_metrics default_metrics read_metrics
  read_back (some n) (some m) none metrics conf hc hq h =
      ground (arith, eq_refl c.kube_hpa_qps_metric, value_new n)
  read_back (some n) (some m) (some s) metrics conf hc hq h =
      ground (arith, eq_refl c.kube_hpa_qps_metric, value_new n)
  read_back (some n) none none metrics conf hc hq h =
      ground (arith, eq_refl c.kube_hpa_qps_metric, value_new n)
  read_back (some n) none (some s) metrics conf hc hq h =
      ground (arith, eq_refl c.kube_hpa_qps_metric, value_new n)
  read_back none cpu memory metrics conf hc hq h = ground arith

  -- An old configuration that converts comes back with its positive QPS and CPU targets and its
  -- replica bounds (2 and the library's default where they were missing); a CPU target appears where
  -- no target was set, and the memory and GPU targets are lost.
  pub old-new_hpa :
      (old : DeploymentTargetHpaConf) (hpa : Option Autoscaling)
      → transform_to_new_hpa c lib (some old) ≡ ok hpa
      → transform_to_old_hpa c lib hpa ≡ some (after_round_trip c old)
  unfolding transform_to_new_hpa transform_to_old_hpa
  old-new_hpa old hpa h =
      let (metrics, parsed, e) = bind-eq-ok (memory_metrics c lib (non_empty old.memory)) _ h in
      let read =
        read_back (positive old.qps) (positive old.cpu) (non_empty old.memory) metrics (start c old)
          refl refl parsed in
      subst (λ x. transform_to_old_hpa c lib x ≡ some (after_round_trip c old)) (ok-injective e)
        (ap some read)

  -- The same for a configuration that may be missing.
  pub old-new_hpa_option :
      (old : Option DeploymentTargetHpaConf) (hpa : Option Autoscaling)
      → transform_to_new_hpa c lib old ≡ ok hpa
      → transform_to_old_hpa c lib hpa ≡ Option.map (after_round_trip c) old
  unfolding transform_to_new_hpa
  old-new_hpa_option none hpa h =
      subst (λ x. transform_to_old_hpa c lib x ≡ none) (ok-injective h)
        (unfold transform_to_old_hpa in refl)
  old-new_hpa_option (some old) hpa h = old-new_hpa old hpa h
