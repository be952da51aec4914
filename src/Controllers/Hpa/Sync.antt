-- ===== src/Controllers/Hpa/Sync.antt =====
-- `createOrUpdateHPA` brings the autoscaler of a component up to date.
use yatai_deployment.Base.{
  none, some, find_first, ◌==◌, String, Option, List, [], ◌∷◌, Bool, ok, ◌≡◌, subst,
}
use yatai_deployment.Base.Effect.{World, lift, or_warn, or_warn-eq-ok, >>=-eq-ok}
use yatai_deployment.Api.Consts.{Consts}
use yatai_deployment.Api.Kube.{NamespacedName, MetricSpec}
use yatai_deployment.Api.Resources.{Bento}
use yatai_deployment.Api.V2alpha1.{BentoDeployment, BentoDeploymentRunnerSpec, Autoscaling}
use yatai_deployment.Base.Int.{pos}
use yatai_deployment.Conversion.Names.{TextLib}
use yatai_deployment.Controllers.Objects.{create_or_update_object, subject_of}
use yatai_deployment.Controllers.Objects.Laws.{IsLawful}
use yatai_deployment.Controllers.Objects.Upsert.{Upserted, create_or_update_object-Upserted}
use yatai_deployment.Controllers.Hpa.{
  HorizontalPodAutoscaler, HpaObject, HpaClient, ServerVersion, hpa_kind, generate_hpa,
  handle_legacy_hpa, create_or_update_hpa,
}

-- The autoscaling in the specification of the component: that of the resource, or that of the first
-- runner of the name.
abbrev autoscaling_in : Option BentoDeploymentRunnerSpec → Option Autoscaling
autoscaling_in none = none
autoscaling_in (some runner) = runner.autoscaling

abbrev pub own_autoscaling : BentoDeployment → Option String → Option Autoscaling
own_autoscaling bento_deployment none = bento_deployment.spec.autoscaling
own_autoscaling bento_deployment (some runner_name) =
    autoscaling_in (find_first (λ runner. runner.name == runner_name) bento_deployment.spec.runners)

-- The metrics of an autoscaler: those of the configuration, and without any the use of the CPU.
abbrev pub HasMetrics : Consts → List MetricSpec → List MetricSpec → Type 0
HasMetrics c (metric ∷ metrics) given = given ≡ metric ∷ metrics
HasMetrics c [] given =
    given
    ≡ (record {
      type = "Resource";
      pods = none;
      resource = some (record {
        name = "cpu";
        target = record {
          type = "Utilization";
          average_value = none;
          average_utilization = some c.hpa_cpu_default_average_utilization;
        };
      });
      others = none;
    })
      ∷ []

-- An autoscaler has the bounds and the metrics of a configuration, or without one those of a single pod.
abbrev pub IsConfigured : Consts → Option Autoscaling → HorizontalPodAutoscaler → Type 0
IsConfigured c (some conf) hpa =
    (hpa.min_replicas ≡ conf.min_replicas)
    × (hpa.max_replicas ≡ conf.max_replicas)
    × HasMetrics c conf.metrics hpa.metrics
IsConfigured c none hpa =
    (hpa.min_replicas ≡ pos 1) × (hpa.max_replicas ≡ pos 1) × HasMetrics c [] hpa.metrics

module _ {S V : Type 0} (client : HpaClient S V) (c : Consts) (lib : TextLib)
    (version : ServerVersion) (view : S → NamespacedName → Option (HpaObject V))
    (Agrees : HpaObject V → HpaObject V → Type 0)
    (law : (hpa : HorizontalPodAutoscaler)
      → IsLawful (hpa_kind client version hpa) view Agrees) where
  -- When the method has returned, the cluster has the autoscaler that was generated for the component,
  -- in the API version for the server, and every other autoscaler is as before.
  pub create_or_update_hpa-Upserted :
      (bento_deployment : BentoDeployment) (bento : Bento) (runner_name : Option String)
      (w w' : World S) (b : Bool)
      → create_or_update_hpa client c lib version bento_deployment bento runner_name w ≡ (ok b, w')
      → (hpa : HorizontalPodAutoscaler) × (object : HpaObject V) × (generate_hpa client c lib
            bento_deployment bento runner_name
          ≡ ok hpa)
        × (handle_legacy_hpa client version hpa ≡ ok object)
        × Upserted (hpa_kind client version hpa) view Agrees (law hpa) w w' object
  unfolding create_or_update_hpa
  create_or_update_hpa-Upserted bento_deployment bento runner_name w w' b h =
      let (hpa, e1, h1) =
        >>=-eq-ok (lift (generate_hpa client c lib bento_deployment bento runner_name)) _ w h in
      let handle =
        or_warn "HandleHPA"
          (subject_of (record { namespace = hpa.meta.namespace; name = hpa.meta.name }))
          (lift (handle_legacy_hpa client version hpa)) in
      let (object, e2, h2) = >>=-eq-ok handle _ w h1 in
      let (made, same) =
        or_warn-eq-ok "HandleHPA"
          (subject_of (record { namespace = hpa.meta.namespace; name = hpa.meta.name }))
          (lift (handle_legacy_hpa client version hpa)) w e2 in
      let more =
        subst
          (λ x.
            create_or_update_object (hpa_kind client version hpa) object (λ old new. new) x
            ≡ (ok b, w'))
          same h2 in
      (
        hpa,
        object,
        e1,
        made,
        create_or_update_object-Upserted (hpa_kind client version hpa) view Agrees (law hpa) object
            (λ old new. new) w w' b (λ old _ annotated key agrees. (key, agrees)) more,
      )
