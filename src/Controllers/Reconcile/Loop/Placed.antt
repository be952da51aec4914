-- ===== src/Controllers/Reconcile/Loop/Placed.antt =====
-- The Deployments in the cluster after a reconciliation of a resource that did not fail.
use yatai_deployment.Base.{
  String, Option, none, some, [], ◌∷◌, Bool, true, false, not, ◌&&◌, is_some, Result, ok, err,
  panic, ◌≡◌, ◌⊎◌, inl, inr, ◌<>◌, ◌∙◌, refl, ap, sym, arith,
}
use yatai_deployment.Base.Effect.{
  Error, World, Exec, pure, call, attempt, wrap_exec, emit, normal, is_not_found, >>=-eq-ok,
  attempt-eq-ok, wrap_err-eq-ok, ◌>>=◌, ◌>>◌,
}
use yatai_deployment.Base.Effect.Keeps.{Keeps, >>=-Keeps}
use yatai_deployment.Api.Kube.{NamespacedName}
use yatai_deployment.Api.Pods.{Deployment}
use yatai_deployment.Api.Resources.{Bento}
use yatai_deployment.Api.V2alpha1.{BentoDeployment}
use yatai_deployment.Controllers.Names.Distinct.{IsComponent}
use yatai_deployment.Controllers.Objects.{subject_of}
use yatai_deployment.Controllers.Objects.Laws.{IsLawful}
use yatai_deployment.Controllers.Objects.Frame.{Of, after_event-Keeps, emit-Keeps}
use yatai_deployment.Controllers.Status.{YataiClient, get_yatai_client, set_status_conditions}
use yatai_deployment.Controllers.Status.Frame.{set_status_conditions-Keeps}
use yatai_deployment.Controllers.Reconcile.{Reconciler}
use yatai_deployment.Controllers.Reconcile.Conditions.{
  available, bento_found, condition, has_status,
}
use yatai_deployment.Controllers.Reconcile.Components.{all_components}
use yatai_deployment.Controllers.Reconcile.Components.AllPlaced.{all_components-Placed}
use yatai_deployment.Controllers.Reconcile.Components.Placed.{
  Shows, IsSeparate, Placed, Placed-after, key,
}
use yatai_deployment.Controllers.Reconcile.Sync.Frame.{sync_yatai-Keeps}
use yatai_deployment.Controllers.Reconcile.Loop.{
  when, or_missing, set_conditions, bento_key, find_bento, with_bento, by_bento, finish,
  finish_unless, tell_yatai, deploy, reconcile_resource,
}

module _ {S V : Type 0} (r : Reconciler S V) (resource : NamespacedName)
    (view : S → NamespacedName → Option Deployment) (Agrees : Deployment → Deployment → Type 0)
    (law : IsLawful r.deployments view Agrees)
    (key_of : (a : Deployment)
      → r.deployments.key a ≡ record { namespace = a.meta.namespace; name = a.meta.name })
    (separate : IsSeparate r view) where
  -- The worlds of a run that starts in `w`: when the Bento is asked for, when the answer is there, and
  -- when the condition for the Bento that was found is set.
  abbrev pub asking : BentoDeployment → World S → World S
  asking d w =
      (when (has_status (r.find_status_condition d.status.conditions bento_found) "Unknown")
        (emit normal "GetBento" d.spec.bento) (get_yatai_client r.yatai r.consts w).1).1

  abbrev pub answered : BentoDeployment → World S → World S
  answered d w = (find_bento r resource d (asking d w)).1

  abbrev pub marking : BentoDeployment → World S → World S
  marking d w =
      let seen = r.find_status_condition d.status.conditions bento_found in
      (when (is_some seen && not (has_status seen "True")) (emit normal "GetBento" d.spec.bento)
        (answered d w)).1

  -- The API client's answer in this run for the Bento is that it is not there.
  abbrev pub Waits : BentoDeployment → World S → Type 0
  Waits bento_deployment before =
      (e : Error) × ((r.bentos (bento_key r resource bento_deployment)
          (asking bento_deployment before).cluster).0
        ≡ err e)
      × (is_not_found e ≡ true)

  -- The API client's answer in this run is the Bento, and the Deployments of the API server and of each of
  -- the Bento's runners are in place, for this run's client for Yatai and for the resource as it was
  -- after this run has set its condition for the Bento.
  pub record Deployed (bento_deployment : BentoDeployment) (before after : World S) : Type 0 where
    pub bento : Bento
    pub found :
        (r.bentos
          (bento_key r resource bento_deployment)
          (asking bento_deployment before).cluster).0
        ≡ ok bento
    pub yatai : Option YataiClient
    pub connected : (get_yatai_client r.yatai r.consts before).0 ≡ ok yatai
    pub current : BentoDeployment
    pub marked :
        (set_status_conditions r.status resource
          (condition bento_found "True" "Bento found" ∷ [])
          (marking bento_deployment before)).0
        ≡ ok current
    pub placed :
        (x : Option String)
        → IsComponent bento x
        → Placed r view Agrees law key_of separate yatai current bento x after

  when-Keeps :
      (P : S → Type 0) (b : Bool) (m : Exec S (Unit {0})) → Keeps (Of P) m → Keeps (Of P) (when b m)
  when-Keeps P true m keeps = keeps
  when-Keeps P false m keeps = λ w h. h

  finish-Shows :
      (shown : NamespacedName → Option Deployment) (d : BentoDeployment) (modified goes_on : Bool)
      → Keeps (Of (Shows view shown)) (finish_unless r resource d modified goes_on)
  unfolding finish_unless finish set_conditions
  finish-Shows shown d modified false = λ w h. h
  finish-Shows shown d modified true =
      let P = Shows view shown in
      let told = emit normal "UpdateYataiDeployment" d.meta.name in
      let conditions = condition available "True" "Reconciling" ∷ [] in
      let set = set_status_conditions r.status resource conditions >>= λ updated. pure tt in
      >>=-Keeps (Of P) (when (not modified) told) (λ _. emit normal "Update" "" >> set)
        (when-Keeps P (not modified) told (emit-Keeps P normal "UpdateYataiDeployment" d.meta.name))
        λ _. after_event-Keeps P normal "Update" "" set (
          >>=-Keeps (Of P) (set_status_conditions r.status resource conditions) (λ updated. pure tt)
            (set_status_conditions-Keeps P r.status (separate.status shown) resource conditions)
            λ _ w h. h)

  tell-Shows :
      (shown : NamespacedName → Option Deployment) (yatai : Option YataiClient)
      (d : BentoDeployment) (bento : Bento)
      → Keeps (Of (Shows view shown)) (tell_yatai r resource yatai d bento)
  unfolding tell_yatai
  tell-Shows shown none d bento = λ w h. h
  tell-Shows shown (some yatai) d bento =
      sync_yatai-Keeps (Shows view shown) r (λ request s h j. separate.pods.send request s j ∙ h j)
        (separate.status shown) _ _ d bento resource

  deploy-Placed :
      (yatai : Option YataiClient) (bento : Bento) (d : BentoDeployment) (w w' : World S)
      → deploy r resource yatai bento d w ≡ (ok tt, w')
      → (x : Option String) → IsComponent bento x
      → Placed r view Agrees law key_of separate yatai d bento x w'
  unfolding deploy
  deploy-Placed yatai bento d w w' h x p =
      let all = all_components r yatai d bento in
      let tell = tell_yatai r resource yatai d bento in
      let (modified, e1, h1) = >>=-eq-ok all _ w h in
      let w1 = (all w).1 in
      let (goes_on, e2, h2) = >>=-eq-ok tell (finish_unless r resource d modified) w1 h1 in
      let w2 = (tell w1).1 in
      let kept : Shows view (view w1.cluster)
          (finish_unless r resource d modified goes_on w2).1.cluster =
        finish-Shows (view w1.cluster) d modified goes_on w2
          (tell-Shows (view w1.cluster) yatai d bento w1 λ j. refl) in
      let same : Shows view (view w1.cluster) w'.cluster =
        λ j. ap (λ q. view q.1.cluster j) (sym h2) ∙ kept j in
      Placed-after r view Agrees law key_of separate yatai d bento x w1 w'
        (λ is_debug. same (key r view Agrees law key_of separate yatai d bento x is_debug))
        (all_components-Placed r view Agrees law key_of separate yatai d bento w w1 modified
          (λ i. (e1 i, w1)) x p)

  -- What the search for the Bento says of the API client's answer.
  Searched : BentoDeployment → Option Bento → S → Type 0
  Searched d none s =
      (e : Error) × ((r.bentos (bento_key r resource d) s).0 ≡ err e) × (is_not_found e ≡ true)
  Searched d (some bento) s = (r.bentos (bento_key r resource d) s).0 ≡ ok bento

  searched :
      (d : BentoDeployment) (found : Option Bento) (result : Result Bento) (w w1 w' : World S)
      → (r.bentos (bento_key r resource d) w.cluster).0 ≡ result
      → or_missing r resource ("get Bento " <> subject_of (bento_key r resource d)) result w1
        ≡ (ok found, w')
      → Searched d found w.cluster
  unfolding or_missing Searched
  searched d none (ok bento) w w1 w' e h = cc h
  searched d none (err e') w w1 w' e h = (e', e, ground (arith, h))
  searched d none panic w w1 w' e h = cc h
  searched d (some bento) (ok bento') w w1 w' e h = cc (e, h)
  searched d (some bento) (err e') w w1 w' e h = ground (arith, h)
  searched d (some bento) panic w w1 w' e h = cc h

  find_bento-Searched :
      (d : BentoDeployment) (found : Option Bento) (w w' : World S)
      → find_bento r resource d w ≡ (ok found, w')
      → Searched d found w.cluster
  unfolding find_bento
  find_bento-Searched d found w w' h =
      let ask = call (r.bentos (bento_key r resource d)) in
      let (result, e, more) = >>=-eq-ok (attempt ask) _ w h in
      let w1 = (attempt ask w).1 in
      let (answered, _) = attempt-eq-ok ask w w1 result (λ i. (e i, w1)) in
      searched d found result w w1 w' answered more

  with_bento-Deployed :
      (yatai : Option YataiClient) (d : BentoDeployment) (bento : Bento) (w w' : World S)
      → (get_yatai_client r.yatai r.consts w).0 ≡ ok yatai
      → (r.bentos (bento_key r resource d) (asking d w).cluster).0 ≡ ok bento
      → with_bento r resource yatai d bento (answered d w) ≡ (ok tt, w')
      → Deployed d w w'
  unfolding with_bento set_conditions
  with_bento-Deployed yatai d bento w w' connected found h =
      let seen = r.find_status_condition d.status.conditions bento_found in
      let told =
        when (is_some seen && not (has_status seen "True")) (emit normal "GetBento" d.spec.bento) in
      let (_, _, h1) =
        >>=-eq-ok told
          (λ _.
            set_conditions r resource (condition bento_found "True" "Bento found" ∷ [])
            >>= deploy r resource yatai bento)
          (answered d w) h in
      let set =
        set_status_conditions r.status resource (condition bento_found "True" "Bento found" ∷ []) in
      let (current, e2, h2) = >>=-eq-ok set (deploy r resource yatai bento) (marking d w) h1 in
      record {
        bento = bento;
        found = found;
        yatai = yatai;
        connected = connected;
        current = current;
        marked = e2;
        placed = deploy-Placed yatai bento current (set (marking d w)).1 w' h2;
      }

  by_bento-Deployed :
      (yatai : Option YataiClient) (d : BentoDeployment) (found : Option Bento) (w w' : World S)
      → (get_yatai_client r.yatai r.consts w).0 ≡ ok yatai
      → Searched d found (asking d w).cluster
      → by_bento r resource yatai d found (answered d w) ≡ (ok tt, w')
      → Waits d w ⊎ Deployed d w w'
  unfolding by_bento Searched
  by_bento-Deployed yatai d none w w' connected answer h = inl answer
  by_bento-Deployed yatai d (some bento) w w' connected answer h =
      inr (with_bento-Deployed yatai d bento w w' connected answer h)

  -- When Reconcile has gone through a resource without an error, the API client has answered, when this
  -- run asked for the resource's Bento, that it is not there; or it has answered with a Bento, and the
  -- Deployments of the API server and of every runner of that Bento are in place at once, as the
  -- resource describes them that this run's setting of the condition for the Bento has returned, and
  -- with the client for Yatai that this run has got. This is provided that no call for another kind
  -- of object, for settings, or of the Yatai server shows a Deployment another way.
  pub reconcile_resource-Deployed :
      (d : BentoDeployment) (w w' : World S)
      → reconcile_resource r resource d w ≡ (ok tt, w')
      → Waits d w ⊎ Deployed d w w'
  unfolding reconcile_resource
  reconcile_resource-Deployed d w w' h =
      let get = wrap_exec "get yatai client" (get_yatai_client r.yatai r.consts) in
      let seen = r.find_status_condition d.status.conditions bento_found in
      let told = when (has_status seen "Unknown") (emit normal "GetBento" d.spec.bento) in
      let find = find_bento r resource d in
      let (yatai, e1, h1) =
        >>=-eq-ok get (λ yatai. told >> (find >>= by_bento r resource yatai d)) w h in
      let (_, _, h2) = >>=-eq-ok told (λ _. find >>= by_bento r resource yatai d) (get w).1 h1 in
      let (found, e3, h3) = >>=-eq-ok find (by_bento r resource yatai d) (asking d w) h2 in
      by_bento-Deployed yatai d found w w' (wrap_err-eq-ok "get yatai client" _ e1)
        (find_bento-Searched d found (asking d w) (answered d w) (λ i. (e3 i, answered d w))) h3
