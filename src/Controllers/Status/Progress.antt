-- ===== src/Controllers/Status/Progress.antt =====
-- When `setStatusConditions` returns a resource: if fewer than three updates conflict.
use yatai_deployment.Base.{
  ℕ, zero, suc, ◌≤◌, ◌<◌, List, Result, ok, err, panic, wrap_err, bind, ◌≡◌, ◌∙◌, refl, ap, arith,
}
use yatai_deployment.Base.Effect.{World, conflict, wrap}
use yatai_deployment.Api.Kube.{NamespacedName, Condition}
use yatai_deployment.Api.V2alpha1.{BentoDeployment}
use yatai_deployment.Controllers.Status.{
  StatusClient, with_conditions, tries, set_status_conditions,
}
use yatai_deployment.Controllers.Status.Retry.{key_of}

-- A cluster in which the resource stays and its next updates conflict, as many as `conflicts` says.
pub record IsContended {S : Type 0} (client : StatusClient S) (key : NamespacedName)
    (Stable : S → Type 0) (conflicts : S → ℕ) : Type 0 where
  pub get_found :
      (s : S) → Stable s → (d : BentoDeployment) × ((client.get key s).0 ≡ ok d) × (key_of d ≡ key)
  pub get_stable : (s : S) → Stable s → Stable (client.get key s).1
  pub get_conflicts : (s : S) → Stable s → conflicts (client.get key s).1 ≡ conflicts s
  pub update_stable : (d : BentoDeployment) (s : S) → Stable s → Stable (client.update_status d s).1
  pub update_free :
      (d : BentoDeployment) (s : S)
      → Stable s
      → key_of d ≡ key
      → conflicts s ≡ 0
      → (client.update_status d s).0 ≡ ok tt
  pub update_contended :
      (d : BentoDeployment) (s : S) (n : ℕ)
      → Stable s
      → key_of d ≡ key
      → conflicts s ≡ suc n
      → ((client.update_status d s).0 ≡ err conflict) × (conflicts (client.update_status d s).1 ≡ n)

module _ {S : Type 0} (client : StatusClient S) (key : NamespacedName) (Stable : S → Type 0)
    (conflicts : S → ℕ) (contended : IsContended client key Stable conflicts)
    (conditions : List Condition) where
  -- The worlds after the two calls of a try.
  abbrev fetched : World S → World S
  fetched w = record w { cluster = (client.get key w.cluster).1 }

  abbrev updated : BentoDeployment → World S → World S
  updated d w = record w {
    cluster = (client.update_status (with_conditions client conditions d) (fetched w).cluster).1;
  }

  try_free :
      (n : ℕ) (last : Result (Unit {0})) (w : World S) (d : BentoDeployment)
      → (client.get key w.cluster).0 ≡ ok d
      → (client.update_status (with_conditions client conditions d) (fetched w).cluster).0 ≡ ok tt
      → tries client (suc n) key conditions last w ≡ (ok (ok tt), updated d w)
  unfolding tries
  try_free n last w d e e' = ground (arith, e, e')

  try_contended :
      (n : ℕ) (last : Result (Unit {0})) (w : World S) (d : BentoDeployment)
      → (client.get key w.cluster).0 ≡ ok d
      → (client.update_status (with_conditions client conditions d) (fetched w).cluster).0
        ≡ err conflict
      → tries client (suc n) key conditions last w
        ≡ tries client n key conditions (err conflict) (updated d w)
  unfolding tries
  try_contended n last w d e e' = ground (arith, e, e')

  -- With fewer conflicts than tries the last try succeeds.
  tries-free :
      (n c : ℕ) (last : Result (Unit {0})) (w : World S)
      → Stable w.cluster
      → conflicts w.cluster ≡ c
      → c < n
      → (w' : World S) × (tries client n key conditions last w ≡ (ok (ok tt), w'))
        × Stable w'.cluster
  tries-free zero c last w stable e h = absurd (omega (arith, h))
  tries-free (suc n) zero last w stable e h =
      let (d, found, keyed) = contended.get_found w.cluster stable in
      let stable' = contended.get_stable w.cluster stable in
      (
        updated d w,
        try_free n last w d found (
            contended.update_free (with_conditions client conditions d) _ stable' keyed
              (contended.get_conflicts w.cluster stable ∙ e)),
        contended.update_stable (with_conditions client conditions d) _ stable',
      )
  tries-free (suc n) (suc c) last w stable e h =
      let (d, found, keyed) = contended.get_found w.cluster stable in
      let stable' = contended.get_stable w.cluster stable in
      let (conflicted, fewer) =
        contended.update_contended (with_conditions client conditions d) _ c stable' keyed
          (contended.get_conflicts w.cluster stable ∙ e) in
      let (w', more, there) =
        tries-free n c (err conflict) (updated d w)
          (contended.update_stable (with_conditions client conditions d) _ stable') fewer
          (omega (arith, h)) in
      (w', try_contended n last w d found conflicted ∙ more, there)

  -- With as many conflicts as tries or more, the last try has failed.
  tries-contended :
      (n c : ℕ) (w : World S)
      → Stable w.cluster
      → conflicts w.cluster ≡ c
      → n ≤ c
      → (w' : World S) × (tries client n key conditions (err conflict) w ≡ (ok (err conflict), w'))
  unfolding tries
  tries-contended zero c w stable e h = (w, refl)
  tries-contended (suc n) zero w stable e h = absurd (omega (arith, h))
  tries-contended (suc n) (suc c) w stable e h =
      let (d, found, keyed) = contended.get_found w.cluster stable in
      let stable' = contended.get_stable w.cluster stable in
      let (conflicted, fewer) =
        contended.update_contended (with_conditions client conditions d) _ c stable' keyed
          (contended.get_conflicts w.cluster stable ∙ e) in
      let (w', more) =
        tries-contended n c (updated d w)
          (contended.update_stable (with_conditions client conditions d) _ stable') fewer
          (omega (arith, h)) in
      (w', try_contended n (err conflict) w d found conflicted ∙ more)

  -- What was known before the first try does not matter.
  tries_last :
      (n : ℕ) (last last' : Result (Unit {0})) (w : World S)
      → tries client (suc n) key conditions last w ≡ tries client (suc n) key conditions last' w
  unfolding tries
  tries_last n last last' w = refl

  -- What the method returns after its tries.
  after_tries : Result (Result (Unit {0})) × World S → Result BentoDeployment
  after_tries (ok last, w) =
      bind (wrap_err "Failed to update BentoDeployment status" last)
        λ _. wrap_err "Failed to re-fetch BentoDeployment" (client.get key w.cluster).0
  after_tries (err e, w) = err e
  after_tries (panic, w) = panic

  after_tries-eq :
      (w : World S)
      → (set_status_conditions client key conditions w).0
        ≡ after_tries (tries client 3 key conditions (ok tt) w)
  unfolding set_status_conditions after_tries
  after_tries-eq w = ground arith

  -- In a cluster where the resource stays and is read, and where its next updates conflict a number of
  -- times and then succeed, the method returns a resource if that number is below three, and otherwise it
  -- fails with the conflict.
  pub set_status_conditions-progress :
      (w : World S)
      → Stable w.cluster
      → (conflicts w.cluster < 3
          → (d : BentoDeployment) × ((set_status_conditions client key conditions w).0 ≡ ok d))
        × (3 ≤ conflicts w.cluster
            → (set_status_conditions client key conditions w).0
              ≡ err (wrap "Failed to update BentoDeployment status" conflict))
  unfolding after_tries
  set_status_conditions-progress w stable = (
    λ h.
        let (w1, tried, stable1) = tries-free 3 (conflicts w.cluster) (ok tt) w stable refl h in
        let (d, found, _) = contended.get_found w1.cluster stable1 in
        (
          d,
          after_tries-eq w
              ∙ (ap after_tries tried ∙ ap (wrap_err "Failed to re-fetch BentoDeployment") found),
        ),
    λ h.
        let (w1, tried) = tries-contended 3 (conflicts w.cluster) w stable refl h in
        after_tries-eq w
        ∙ (ap after_tries (tries_last 2 (ok tt) (err conflict) w) ∙ ap after_tries tried),
  )
