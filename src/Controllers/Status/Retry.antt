-- ===== src/Controllers/Status/Retry.antt =====
-- What `setStatusConditions` has written when it returns.
use yatai_deployment.Base.{
  ℕ, zero, suc, ◌≤◌, String, Option, some, List, false, Result, ok, err, panic, ◌≡◌, ◌⊎◌, inl, inr,
  ap, sym, ◌∙◌, subst, arith, wrap_err-eq-ok,
}
use yatai_deployment.Base.Effect.{
  Error, World, Exec, pure, call, attempt, wrap_exec, lift, >>=-eq-ok,
}
use yatai_deployment.Api.Kube.{NamespacedName, Condition}
use yatai_deployment.Api.V2alpha1.{BentoDeployment}
use yatai_deployment.Controllers.Objects.Laws.{same_key}
use yatai_deployment.Controllers.Status.{
  StatusClient, set_all, with_conditions, tries, set_status_conditions,
}

abbrev pub key_of : BentoDeployment → NamespacedName
key_of bento_deployment = record {
  namespace = bento_deployment.meta.namespace;
  name = bento_deployment.meta.name;
}

-- What the cluster has after an update of the status with `bento_deployment`: the metadata but for the
-- resource version, which the server chooses, and the specification stay.
abbrev pub written : String → BentoDeployment → BentoDeployment → BentoDeployment
written resource_version bento_deployment old = record old {
  meta = record old.meta { resource_version = resource_version };
  status = bento_deployment.status;
}

module _ {S : Type 0} (view : S → NamespacedName → Option BentoDeployment) where
  -- The status of the resource has been written, and no other resource has changed.
  pub record StatusUpdated (bento_deployment : BentoDeployment) (before after : S) : Type 0 where
    pub at_key :
        (old : BentoDeployment)
        → view before (key_of bento_deployment) ≡ some old
        → (resource_version : String) × (view after (key_of bento_deployment)
            ≡ some (written resource_version bento_deployment old))
    pub elsewhere :
        (j : NamespacedName)
        → same_key (key_of bento_deployment) j ≡ false
        → view after j ≡ view before j

  abbrev pub Same : S → S → Type 0
  Same s s' = (j : NamespacedName) → view s' j ≡ view s j

  -- The contracts: `view` are the resources of the cluster. An update of the status that succeeds writes
  -- the status and gives the resource a version; one that fails has been done whole or not at all.
  pub record IsLawfulStatus (client : StatusClient S) : Type 0 where
    pub view_key :
        (s : S) (key : NamespacedName) (d : BentoDeployment) → view s key ≡ some d → key_of d ≡ key
    pub get_found :
        (key : NamespacedName) (s : S) (d : BentoDeployment)
        → (client.get key s).0 ≡ ok d
        → view s key ≡ some d
    pub get_view : (key : NamespacedName) (s : S) → Same s (client.get key s).1
    pub update_failed :
        (d : BentoDeployment) (s : S) (e : Error)
        → (client.update_status d s).0 ≡ err e
        → Same s (client.update_status d s).1 ⊎ StatusUpdated d s (client.update_status d s).1
    pub update_done :
        (d : BentoDeployment) (s : S)
        → (client.update_status d s).0 ≡ ok tt
        → StatusUpdated d s (client.update_status d s).1

-- `f` applied `n` times.
abbrev pub repeated : {A : Type 0} → ℕ → (A → A) → A → A
repeated zero f a = a
repeated (suc n) f a = repeated n f (f a)

module _ {S : Type 0} (client : StatusClient S) (view : S → NamespacedName → Option BentoDeployment)
    (law : IsLawfulStatus view client) where
  -- The resource after the conditions were set so many times.
  abbrev pub conditioned : ℕ → String → List Condition → BentoDeployment → BentoDeployment
  conditioned times resource_version conditions old = record old {
    meta = record old.meta { resource_version = resource_version };
    status = record old.status {
      conditions = repeated times (set_all client conditions) old.status.conditions;
    };
  }

  -- From `before` to `after`, the conditions have been set so many times on the status of the resource at
  -- `key`, and nothing else has changed but its resource version.
  pub record Conditioned (times : ℕ) (before after : S) (key : NamespacedName)
      (conditions : List Condition) : Type 0 where
    pub old : BentoDeployment
    pub was : view before key ≡ some old
    pub resource_version : String
    pub now : view after key ≡ some (conditioned times resource_version conditions old)
    pub elsewhere : (j : NamespacedName) → same_key key j ≡ false → view after j ≡ view before j

  Conditioned-after :
      (times : ℕ) (s s1 s' : S) (key : NamespacedName) (conditions : List Condition)
      → Same view s s1
      → Conditioned times s1 s' key conditions
      → Conditioned times s s' key conditions
  Conditioned-after times s s1 s' key conditions same done = record {
    old = done.old;
    was = sym (same key) ∙ done.was;
    resource_version = done.resource_version;
    now = done.now;
    elsewhere = λ j ne. done.elsewhere j ne ∙ same j;
  }

  -- One update that was made.
  updated :
      (key : NamespacedName) (conditions : List Condition) (d : BentoDeployment) (s s' : S)
      → view s key ≡ some d
      → StatusUpdated view (with_conditions client conditions d) s s'
      → Conditioned 1 s s' key conditions
  updated key conditions d s s' there done =
      let keyed = law.view_key s key d there in
      let (resource_version, now) = done.at_key d (ap (view s) keyed ∙ there) in
      record {
        old = d;
        was = there;
        resource_version = resource_version;
        now = ap (view s') (sym keyed) ∙ now;
        elsewhere = λ j ne. done.elsewhere j (ap (λ x. same_key x j) keyed ∙ ne);
      }

  -- The updates after one that was made.
  Conditioned-again :
      (times : ℕ) (s s1 s' : S) (key : NamespacedName) (conditions : List Condition)
      → Conditioned 1 s s1 key conditions
      → Conditioned times s1 s' key conditions
      → Conditioned (suc times) s s' key conditions
  Conditioned-again times s s1 s' key conditions one more =
      let first = conditioned 1 one.resource_version conditions one.old in
      let shows : some more.old ≡ some first = sym more.was ∙ one.now in
      let same : more.old ≡ first = cc shows in
      record {
        old = one.old;
        was = one.was;
        resource_version = more.resource_version;
        now = more.now ∙ ap (λ x. some (conditioned times more.resource_version conditions x)) same;
        elsewhere = λ j ne. more.elsewhere j ne ∙ one.elsewhere j ne;
      }

  -- Some number of updates, and at most `n`.
  abbrev pub AtMost : ℕ → S → S → NamespacedName → List Condition → Type 0
  AtMost n s s' key conditions =
      (times : ℕ) × (1 ≤ times) × (times ≤ n) × Conditioned times s s' key conditions

  -- The update of one try, in the world where it is made.
  abbrev update : List Condition → BentoDeployment → Exec S (Result (Unit {0}))
  update conditions d = attempt (call (client.update_status (with_conditions client conditions d)))

  update-eq-ok :
      (conditions : List Condition) (d : BentoDeployment) (w : World S) (r : Result (Unit {0}))
      → (update conditions d w).0 ≡ ok r
      → (client.update_status (with_conditions client conditions d) w.cluster).0 ≡ r
  update-eq-ok conditions d w r h = ground arith

  update-cluster :
      (conditions : List Condition) (d : BentoDeployment) (w : World S)
      → (update conditions d w).1.cluster
        ≡ (client.update_status (with_conditions client conditions d) w.cluster).1
  update-cluster conditions d w = ground arith

  -- How the tries end that end with a success, by the result of the first update.
  abbrev Succeeds :
      ℕ → NamespacedName → List Condition → Result (Unit {0}) → World S → World S → Type 0
  Succeeds n key conditions r w w' =
      (elim r as (λ _. Exec S (Result (Unit {0}))) [
        | ok _ ↦ pure (ok tt)
        | err e ↦ tries client n key conditions (err e)
        | panic ↦ lift panic
      ])
        w
      ≡ (ok (ok tt), w')

  module _ (key : NamespacedName) (conditions : List Condition) where
    first_try :
        (n : ℕ) (last : Result (Unit {0})) (w w' : World S)
        → tries client (suc n) key conditions last w ≡ (ok (ok tt), w')
        → (d : BentoDeployment) × (view w.cluster key ≡ some d)
          × ((w1 : World S) × Same view w.cluster w1.cluster
              × ((r : Result (Unit {0})) × ((client.update_status
                      (with_conditions client conditions d)
                      w1.cluster).0
                    ≡ r)
                  × Succeeds n key conditions r (update conditions d w1).1 w'))
    unfolding tries
    first_try n last w w' h =
        let get = wrap_exec "Failed to re-fetch BentoDeployment" (call (client.get key)) in
        let (d, e, more) = >>=-eq-ok get _ w h in
        let w1 = (get w).1 in
        let (r, er, rest) = >>=-eq-ok (update conditions d) _ w1 more in
        (
          d,
          law.get_found key w.cluster d (wrap_err-eq-ok "Failed to re-fetch BentoDeployment" _ e),
          (w1, law.get_view key w.cluster, (r, update-eq-ok conditions d w1 r er, rest)),
        )

    -- A failed update after which the tries go on.
    lost_answer :
        (n : ℕ) (d : BentoDeployment) (s s1 s' : S)
        → view s key ≡ some d
        → Same view s s1 ⊎ StatusUpdated view (with_conditions client conditions d) s s1
        → AtMost n s1 s' key conditions
        → AtMost (suc n) s s' key conditions
    lost_answer n d s s1 s' there (inl same) (times, least, most, done) = (
      times,
      least,
      omega (arith, most),
      Conditioned-after times s s1 s' key conditions same done,
    )
    lost_answer n d s s1 s' there (inr made) (times, least, most, done) = (
      suc times,
      omega arith,
      omega (arith, most),
      Conditioned-again times s s1 s' key conditions (updated key conditions d s s1 there made)
          done,
    )

    AtMost-after :
        (n : ℕ) (s s1 s' : S)
        → Same view s s1
        → AtMost n s1 s' key conditions
        → AtMost n s s' key conditions
    AtMost-after n s s1 s' same (times, least, most, done) =
        (times, least, most, Conditioned-after times s s1 s' key conditions same done)

    by_result :
        (n : ℕ) (r : Result (Unit {0})) (d : BentoDeployment) (w w1 w' : World S)
        → ((e : Error) (x : World S)
            → tries client n key conditions (err e) x ≡ (ok (ok tt), w')
            → AtMost n x.cluster w'.cluster key conditions)
        → view w.cluster key ≡ some d
        → Same view w.cluster w1.cluster
        → (client.update_status (with_conditions client conditions d) w1.cluster).0 ≡ r
        → Succeeds n key conditions r (update conditions d w1).1 w'
        → AtMost (suc n) w.cluster w'.cluster key conditions
    by_result n (ok _) d w w1 w' again there same e h =
        let made = law.update_done (with_conditions client conditions d) w1.cluster e in
        let done = updated key conditions d w1.cluster _ (same key ∙ there) made in
        (
          1,
          omega arith,
          omega arith,
          Conditioned-after 1 w.cluster w1.cluster w'.cluster key conditions same (
              subst (λ x. Conditioned 1 w1.cluster x key conditions)
                (sym (update-cluster conditions d w1) ∙ ap (λ p. p.1.cluster) h) done),
        )
    by_result n (err e') d w w1 w' again there same e h =
        let w2 = (update conditions d w1).1 in
        let d' = with_conditions client conditions d in
        let attempted =
          subst (λ x. Same view w1.cluster x ⊎ StatusUpdated view d' w1.cluster x)
            (sym (update-cluster conditions d w1)) (law.update_failed d' w1.cluster e' e) in
        AtMost-after (suc n) w.cluster w1.cluster w'.cluster same (
          lost_answer n d w1.cluster w2.cluster w'.cluster (same key ∙ there) attempted
            (again e' w2 h))
    by_result n panic d w w1 w' again there same e h = cc h

    no_tries :
        (e : Error) (w w' : World S)
        → tries client zero key conditions (err e) w ≡ (ok (ok tt), w')
        → AtMost zero w.cluster w'.cluster key conditions
    unfolding tries
    no_tries e w w' h = cc h

    -- A series of tries that ends with a success has made an update in each try at most.
    tries-Conditioned :
        (n : ℕ) (last : Result (Unit {0})) (w w' : World S)
        → tries client (suc n) key conditions last w ≡ (ok (ok tt), w')
        → AtMost (suc n) w.cluster w'.cluster key conditions
    tries-Conditioned zero last w w' h =
        let (d, there, (w1, same, (r, e, rest))) = first_try zero last w w' h in
        by_result zero r d w w1 w' (λ e' x. no_tries e' x w') there same e rest
    tries-Conditioned (suc n) last w w' h =
        let (d, there, (w1, same, (r, e, rest))) = first_try (suc n) last w w' h in
        by_result (suc n) r d w w1 w' (λ e' x. tries-Conditioned n (err e') x w') there same e rest

    re_fetched :
        (s : S) (w w' : World S) (d : BentoDeployment)
        → wrap_exec "Failed to re-fetch BentoDeployment" (call (client.get key)) w ≡ (ok d, w')
        → AtMost 3 s w.cluster key conditions
        → AtMost 3 s w'.cluster key conditions × (view w'.cluster key ≡ some d)
    re_fetched s w w' d h (times, least, most, done) =
        let after : (client.get key w.cluster).1 ≡ w'.cluster = ap (λ p. p.1.cluster) h in
        let got = wrap_err-eq-ok "Failed to re-fetch BentoDeployment" _ (ap (λ p. p.0) h) in
        let same =
          λ (j : NamespacedName). ap (λ x. view x j) (sym after) ∙ law.get_view key w.cluster j in
        (
          (
            times,
            least,
            most,
            record {
              old = done.old;
              was = done.was;
              resource_version = done.resource_version;
              now = same key ∙ done.now;
              elsewhere = λ j ne. same j ∙ done.elsewhere j ne;
            },
          ),
          same key ∙ law.get_found key w.cluster d got,
        )

    pub set_status_conditions-Conditioned :
        (w w' : World S) (d : BentoDeployment)
        → set_status_conditions client key conditions w ≡ (ok d, w')
        → ((times : ℕ) × (1 ≤ times)
            × (times ≤ 3)
            × Conditioned times w.cluster w'.cluster key conditions)
          × (view w'.cluster key ≡ some d)
    unfolding set_status_conditions
    set_status_conditions-Conditioned w w' d h =
        let (last, e1, h1) = >>=-eq-ok (tries client 3 key conditions (ok tt)) _ w h in
        let w1 = (tries client 3 key conditions (ok tt) w).1 in
        let (u, e2, h2) =
          >>=-eq-ok (wrap_exec "Failed to update BentoDeployment status" (lift last))
            (λ _. wrap_exec "Failed to re-fetch BentoDeployment" (call (client.get key))) w1 h1 in
        let succeeded : last ≡ ok tt =
          wrap_err-eq-ok "Failed to update BentoDeployment status" last e2 in
        let done = tries-Conditioned 2 (ok tt) w w1 (λ i. ((e1 ∙ ap ok succeeded) i, w1)) in
        re_fetched w.cluster w1 w' d h2 done
