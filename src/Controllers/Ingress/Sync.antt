-- ===== src/Controllers/Ingress/Sync.antt =====
-- One round of the loop of `createOrUpdateIngresses`.
use yatai_deployment.Base.{
  String, Option, none, some, List, [], ◌∷◌, Bool, true, false, ok, panic, ◌≡◌, ◌∙◌, refl, sym, ap,
  subst, arith,
}
use yatai_deployment.Base.Effect.{World, lift, >>=-eq-ok}
use yatai_deployment.Api.Kube.{NamespacedName}
use yatai_deployment.Controllers.Objects.{Kind, find_object}
use yatai_deployment.Controllers.Objects.Laws.{IsLawful, find_object-eq-ok, same_key_iff}
use yatai_deployment.Controllers.Objects.Upsert.{
  Upserted, Removed, create_object-Upserted, update_object-Upserted, find_object-view,
  Upserted-after,
}
use yatai_deployment.Controllers.Ingress.{
  Ingress, IngressRule, with_host, save_ingress, sync_ingress,
}

-- `rules[0].host`, if there is a rule.
abbrev pub first_host : List IngressRule → Option String
first_host [] = none
first_host (rule ∷ _) = some rule.host

-- The key of an Ingress is in its metadata, and what `get` returns has the host of the cluster's Ingress
-- in its first rule: the server may add other fields, such as the uid and the resource version.
pub record IsIngressKind {S : Type 0} (k : Kind S Ingress)
    (view : S → NamespacedName → Option Ingress) : Type 0 where
  pub key_of : (a : Ingress) → k.key a ≡ record { namespace = a.meta.namespace; name = a.meta.name }
  pub get_host :
      (key : NamespacedName) (s : S) (a there : Ingress)
      → (k.get key s).0 ≡ ok a
      → view s key ≡ some there
      → first_host a.rules ≡ first_host there.rules

with_host-first_host :
    (rules rules' : List IngressRule) (ingress : Ingress)
    → first_host rules ≡ first_host rules'
    → with_host rules ingress ≡ with_host rules' ingress
with_host-first_host [] [] ingress h = refl
with_host-first_host [] (_ ∷ _) ingress h = cc h
with_host-first_host (_ ∷ _) [] ingress h = cc h
with_host-first_host (old ∷ _) (old' ∷ _) ingress h =
    let same : old.host ≡ old'.host = cc h in
    ap
      (λ host. elim ingress.rules [
        | [] ↦ panic
        | rule ∷ rules ↦ ok (record ingress { rules = (record rule { host = host }) ∷ rules })
      ])
      same

module _ {S : Type 0} (k : Kind S Ingress) where
  delete_ingress-eq-ok :
      (ingress old : Ingress) (w w' : World S) (b : Bool)
      → save_ingress k false ingress (some old) w ≡ (ok b, w')
      → ((k.delete ingress w.cluster).0 ≡ ok tt) × (w'.cluster ≡ (k.delete ingress w.cluster).1)
  unfolding save_ingress
  delete_ingress-eq-ok ingress old w w' b h = ground arith

module _ {S : Type 0} (k : Kind S Ingress) (view : S → NamespacedName → Option Ingress)
    (Agrees : Ingress → Ingress → Type 0) (law : IsLawful k view Agrees)
    (kind : IsIngressKind k view) where
  -- What is written: the generated Ingress, with the host of the one that is there.
  abbrev pub Written : Option Ingress → Ingress → Ingress → Type 0
  Written none ingress written = written ≡ ingress
  Written (some old) ingress written = with_host old.rules ingress ≡ ok written

  -- The cluster after one Ingress was synchronised.
  abbrev pub IsSynced : Bool → Ingress → World S → World S → Type 0
  IsSynced true ingress w w' =
      (written : Ingress) × Written (view w.cluster (k.key ingress)) ingress written
      × (k.key written ≡ k.key ingress)
      × Upserted k view Agrees law w w' written
  IsSynced false ingress w w' = Removed k view Agrees law w w' (k.key ingress)

  with_host-meta :
      (rules : List IngressRule) (ingress written : Ingress)
      → with_host rules ingress ≡ ok written
      → written.meta ≡ ingress.meta
  with_host-meta [] ingress written h = cc
  with_host-meta (old ∷ rules) ingress written h = ground arith

  with_host-key :
      (rules : List IngressRule) (ingress written : Ingress)
      → with_host rules ingress ≡ ok written
      → k.key written ≡ k.key ingress
  with_host-key rules ingress written h =
      let same = with_host-meta rules ingress written h in
      kind.key_of written
      ∙ (ap (λ m. record { namespace = m.namespace; name = m.name }) same
          ∙ sym (kind.key_of ingress))

  -- What was found tells what the cluster shows, and the host that it has.
  abbrev Sees : Option Ingress → Option Ingress → Type 0
  Sees seen none = seen ≡ none
  Sees seen (some old) =
      (there : Ingress) × (seen ≡ some there)
      × (k.key old ≡ k.key there)
      × ((d : Ingress) → Agrees old d → Agrees there d)
      × (first_host old.rules ≡ first_host there.rules)

  save_ingress-IsSynced :
      (enabled : Bool) (ingress : Ingress) (old : Option Ingress) (w w' : World S) (b : Bool)
      → Sees (view w.cluster (k.key ingress)) old
      → save_ingress k enabled ingress old w ≡ (ok b, w')
      → IsSynced enabled ingress w w'
  unfolding save_ingress
  save_ingress-IsSynced true ingress none w w' b there h = (
    ingress,
    subst (λ o. Written o ingress ingress) (sym there) refl,
    refl,
    create_object-Upserted k view Agrees law ingress w w' b h,
  )
  save_ingress-IsSynced true ingress (some old) w w' b (shown, there, as_shown, agree, host) h =
      let (written, e, more) = >>=-eq-ok (lift (with_host old.rules ingress)) _ w h in
      let keyed = with_host-key old.rules ingress written e in
      (
        written,
        subst (λ o. Written o ingress written) (sym there)
            (sym (with_host-first_host old.rules shown.rules ingress host) ∙ e),
        keyed,
        update_object-Upserted k view Agrees law old written (λ new. new) w w' b
            (shown, ap (view w.cluster) keyed ∙ there, as_shown, agree)
            (λ annotated key agrees. (key, agrees)) more,
      )
  save_ingress-IsSynced false ingress none w w' b there h =
      let same : w'.cluster ≡ w.cluster = ground arith in
      record {
        gone = ap (λ s. view s (k.key ingress)) same ∙ there;
        elsewhere = λ j ne. ap (λ s. view s j) same;
      }
  save_ingress-IsSynced false ingress (some old) w w' b there h =
      let (deleted, after) = delete_ingress-eq-ok k ingress old w w' b h in
      record {
        gone = ground (
          arith,
          law.delete_view ingress w.cluster (k.key ingress) deleted,
          same_key_iff (k.key ingress) (k.key ingress),
        );
        elsewhere = λ j ne. ground (arith, law.delete_view ingress w.cluster j deleted);
      }

  pub IsSynced-after :
      (enabled : Bool) (ingress : Ingress) (w w1 w' : World S)
      → ((j : NamespacedName) → view w1.cluster j ≡ view w.cluster j)
      → IsSynced enabled ingress w1 w'
      → IsSynced enabled ingress w w'
  IsSynced-after true ingress w w1 w' same (written, is_written, keyed, up) = (
    written,
    subst (λ o. Written o ingress written) (same (k.key ingress)) is_written,
    keyed,
    Upserted-after k view Agrees law w w1 w' written same up,
  )
  IsSynced-after false ingress w w1 w' same removed = record {
    gone = removed.gone;
    elsewhere = λ j ne. removed.elsewhere j ne ∙ same j;
  }

  found_Sees :
      (ingress : Ingress) (w w1 : World S) (old : Option Ingress)
      → find_object k ingress w ≡ (ok old, w1)
      → Sees (view w.cluster (k.key ingress)) old
  found_Sees ingress w w1 none h =
      let (_, (e, missing, is_missing)) = find_object-eq-ok k ingress w w1 none h in
      law.get_missing (k.key ingress) w.cluster e missing is_missing
  found_Sees ingress w w1 (some old) h =
      let got = (find_object-eq-ok k ingress w w1 (some old) h).1 in
      let (there, shows, keyed, agree) = law.get_found (k.key ingress) w.cluster old got in
      (there, shows, keyed, agree, kind.get_host (k.key ingress) w.cluster old there got shows)

  -- One Ingress is brought up to date: if Ingresses are enabled, it is in the cluster as it was
  -- generated, but with the host that the cluster's Ingress had before, if there was one; otherwise it
  -- is gone. Every other Ingress is as before.
  pub sync_ingress-IsSynced :
      (enabled : Bool) (ingress : Ingress) (w w' : World S) (b : Bool)
      → sync_ingress k enabled ingress w ≡ (ok b, w')
      → IsSynced enabled ingress w w'
  unfolding sync_ingress
  sync_ingress-IsSynced enabled ingress w w' b h =
      let find = find_object k ingress in
      let (old, e, more) = >>=-eq-ok find (save_ingress k enabled ingress) w h in
      let h1 : find w ≡ (ok old, (find w).1) = λ i. (e i, (find w).1) in
      let (same, _) = find_object-view k view Agrees law ingress w (find w).1 old h1 in
      let there =
        subst (λ seen. Sees seen old) (sym (same (k.key ingress)))
          (found_Sees ingress w (find w).1 old h1) in
      IsSynced-after enabled ingress w (find w).1 w' same
        (save_ingress-IsSynced enabled ingress old (find w).1 w' b there more)
