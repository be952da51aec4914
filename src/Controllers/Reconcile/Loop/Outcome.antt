-- ===== src/Controllers/Reconcile/Loop/Outcome.antt =====
-- What `Reconcile` has done when it returns without an error.
use yatai_deployment.Base.{
  ℕ, ◌≤◌, Option, none, some, List, [], ◌∷◌, true, Result, ok, err, panic, ◌<>◌, ◌≡◌, ◌⊎◌, inl, inr,
  ◌∙◌, ap, arith,
}
use yatai_deployment.Base.Effect.{
  Error, World, attempt, emit, warning, is_not_found, >>=-eq-ok, attempt-eq-ok,
}
use yatai_deployment.Api.Kube.{NamespacedName, Condition}
use yatai_deployment.Api.Pods.{Deployment}
use yatai_deployment.Api.V2alpha1.{BentoDeployment}
use yatai_deployment.Controllers.Objects.Laws.{IsLawful}
use yatai_deployment.Controllers.Reconcile.Components.Placed.{IsSeparate}
use yatai_deployment.Controllers.Reconcile.Loop.Placed.{
  Waits, Deployed, reconcile_resource-Deployed,
}
use yatai_deployment.Controllers.Status.Retry.{
  IsLawfulStatus, Conditioned, set_status_conditions-Conditioned,
}
use yatai_deployment.Controllers.Status.{set_status_conditions}
use yatai_deployment.Controllers.Reconcile.{Reconciler}
use yatai_deployment.Controllers.Reconcile.Conditions.{available, condition}
use yatai_deployment.Controllers.Reconcile.Loop.{
  reconcile_resource, record_failure, deferred, initialise, reconcile_watched, reconcile_found,
  found_resource, get_resource, reconcile, set_conditions,
}

module _ {S V : Type 0} (r : Reconciler S V) (key : NamespacedName)
    (resources : S → NamespacedName → Option BentoDeployment)
    (status : IsLawfulStatus resources r.status) (view : S → NamespacedName → Option Deployment)
    (Agrees : Deployment → Deployment → Type 0) (law : IsLawful r.deployments view Agrees)
    (key_of : (a : Deployment)
      → r.deployments.key a ≡ record { namespace = a.meta.namespace; name = a.meta.name })
    (separate : IsSeparate r view) where
  -- The condition for a failure.
  abbrev pub failed : Error → List Condition
  failed e =
      condition available "False" ("Failed to reconcile BentoDeployment: " <> r.error_text e) ∷ []

  -- The resource has been deleted, and nothing was done.
  abbrev pub Deleted : World S → World S → Type 0
  Deleted w w' =
      (e : Error) × ((r.status.get key w.cluster).0 ≡ err e)
      × (is_not_found e ≡ true)
      × (w'.cluster ≡ (r.status.get key w.cluster).1)

  -- The run over the resource from `w` has failed, and from where it ended the condition with the text of
  -- its error has been set on the resource in the cluster.
  abbrev pub Recorded : BentoDeployment → World S → World S → Type 0
  Recorded bento_deployment w w' =
      (e : Error) × ((reconcile_resource r key bento_deployment w).0 ≡ err e)
      × ((times : ℕ) × (1 ≤ times)
          × (times ≤ 3)
          × Conditioned r.status resources status times
              (reconcile_resource r key bento_deployment w).1.cluster w'.cluster key (failed e))

  -- How the run over the resource from `w` has ended.
  abbrev pub Ended : BentoDeployment → World S → World S → Type 0
  Ended bento_deployment w w' =
      (Waits r key view Agrees law key_of separate bento_deployment w
        ⊎ Deployed r key view Agrees law key_of separate bento_deployment w w')
      ⊎ Recorded bento_deployment w w'

  -- The resource that was read, and that resource with its first conditions, from which the run starts.
  pub record Reconciled (before after : World S) : Type 0 where
    pub read : BentoDeployment
    pub was : (r.status.get key before.cluster).0 ≡ ok read
    pub ready : BentoDeployment
    pub initialised : (initialise r key read (get_resource r key before).1).0 ≡ ok ready
    pub ended : Ended ready (initialise r key read (get_resource r key before).1).1 after

  record_failure-Conditioned :
      (e : Error) (w w' : World S)
      → record_failure r key e w ≡ (ok tt, w')
      → (times : ℕ) × (1 ≤ times)
        × (times ≤ 3)
        × Conditioned r.status resources status times w.cluster w'.cluster key (failed e)
  unfolding record_failure set_conditions emit
  record_failure-Conditioned e w w' h =
      let noted = (emit warning "ReconcileError" (r.error_text e) w).1 in
      let set = set_status_conditions r.status key (failed e) in
      let (d, e1, h1) = >>=-eq-ok set _ noted h in
      let done : (set noted).1 ≡ w' = ap (λ p. p.1) h1 in
      (set_status_conditions-Conditioned r.status resources status key (failed e) noted w' d
        (λ i. (e1 i, done i))).0

  deferred-Ended :
      (result : Result (Unit {0})) (bento_deployment : BentoDeployment) (w w' : World S)
      → (reconcile_resource r key bento_deployment w).0 ≡ result
      → deferred r key result (reconcile_resource r key bento_deployment w).1 ≡ (ok tt, w')
      → Ended bento_deployment w w'
  unfolding deferred
  deferred-Ended (ok tt) bento_deployment w w' ran h = inl (
      reconcile_resource-Deployed r key view Agrees law key_of separate bento_deployment w w'
        (λ i. (ran i, ap (λ p. p.1) h i)))
  deferred-Ended (err e) bento_deployment w w' ran h =
      inr
        (e, ran, record_failure-Conditioned e (reconcile_resource r key bento_deployment w).1 w' h)
  deferred-Ended panic bento_deployment w w' ran h = cc h

  watched-Ended :
      (bento_deployment : BentoDeployment) (w w' : World S)
      → reconcile_watched r key bento_deployment w ≡ (ok tt, w')
      → Ended bento_deployment w w'
  unfolding reconcile_watched
  watched-Ended bento_deployment w w' h =
      let run = reconcile_resource r key bento_deployment in
      let (result, e, more) = >>=-eq-ok (attempt run) (deferred r key) w h in
      let w1 = (attempt run w).1 in
      let (ran, after) = attempt-eq-ok run w w1 result (λ i. (e i, w1)) in
      deferred-Ended result bento_deployment w w' ran (ap (deferred r key result) after ∙ more)

  get_resource-none : (w w' : World S) → get_resource r key w ≡ (ok none, w') → Deleted w w'
  unfolding get_resource found_resource
  get_resource-none w w' h = ground arith

  get_resource-some :
      (d : BentoDeployment) (w w' : World S)
      → get_resource r key w ≡ (ok (some d), w')
      → (r.status.get key w.cluster).0 ≡ ok d
  unfolding get_resource found_resource
  get_resource-some d w w' h = ground arith

  found-outcome :
      (resource : Option BentoDeployment) (w w' : World S)
      → (get_resource r key w).0 ≡ ok resource
      → reconcile_found r key resource (get_resource r key w).1 ≡ (ok tt, w')
      → Deleted w w' ⊎ Reconciled w w'
  unfolding reconcile_found
  found-outcome none w w' e h =
      let same : (get_resource r key w).1 ≡ w' = ap (λ p. p.1) h in
      inl (get_resource-none w w' λ i. (e i, same i))
  found-outcome (some read) w w' e h =
      let w1 = (get_resource r key w).1 in
      let (ready, e1, more) = >>=-eq-ok (initialise r key read) (reconcile_watched r key) w1 h in
      inr (record {
        read = read;
        was = get_resource-some read w w1 (λ i. (e i, w1));
        ready = ready;
        initialised = e1;
        ended = watched-Ended ready (initialise r key read w1).1 w' more;
      })

  -- When Reconcile returns without an error, the API client has answered that the resource is not there,
  -- and nothing was done; or it has answered with the resource, and the run over it, with its first
  -- conditions if it had none, has ended in one of three ways: the API client's answer for the Bento was
  -- that it is not there; or the Bento was found and the Deployments of the API server and of all
  -- runners are in place; or the run has failed, the error is not returned, and the condition with the
  -- error's text has been set on the resource in the cluster. This is provided that the client for the
  -- status keeps its contract, under which a failed update may have been made, and that no call for
  -- another kind of object, for settings, or of the Yatai server shows a Deployment another way.
  pub reconcile-outcome :
      (w w' : World S) → reconcile r key w ≡ (ok tt, w') → Deleted w w' ⊎ Reconciled w w'
  unfolding reconcile
  reconcile-outcome w w' h =
      let (resource, e, more) = >>=-eq-ok (get_resource r key) (reconcile_found r key) w h in
      found-outcome resource w w' e more
