-- ===== src/Controllers/Service/Component.antt =====
-- `createOrUpdateOrDeleteServices`: the Services of a component after the method has returned.
use yatai_deployment.Base.{
  if◌then◌else◌, String, Option, none, Bool, true, false, ok, ◌≡◌, ◌∙◌, sym, ap, subst, length,
  Bool-cases, inl, inr,
}
use yatai_deployment.Base.Effect.{World, >>=-eq-ok}
use yatai_deployment.Api.Consts.{Consts}
use yatai_deployment.Api.Kube.{NamespacedName, Service}
use yatai_deployment.Conversion.Names.{TextLib}
use yatai_deployment.Controllers.Names.{get_service_name, get_generic_service_name}
use yatai_deployment.Controllers.Names.Bounds.{service_names-ne}
use yatai_deployment.Controllers.Objects.{Kind, delete_if_found}
use yatai_deployment.Controllers.Objects.Laws.{IsLawful, same_key}
use yatai_deployment.Controllers.Objects.Upsert.{delete_if_found-Removed}
use yatai_deployment.Controllers.Service.{
  ServicesOption, service_of, service_option, service_key, create_or_update_service, split_services,
  remove_services, has_split_services, create_or_update_or_delete_services,
}
use yatai_deployment.Controllers.Service.Sync.{
  same_key_ne, IsServiceKind, InPlace, create_or_update_service-Changed,
}

Bool-elim : (P : Bool → Type 0) → P false → P true → (b : Bool) → P b
Bool-elim P f t true = t
Bool-elim P f t false = f

module _ {S : Type 0} (k : Kind S Service) (view : S → NamespacedName → Option Service)
    (Agrees : Service → Service → Type 0) (law : IsLawful k view Agrees)
    (kind : IsServiceKind k Agrees) (c : Consts) (lib : TextLib)
    (sixteen : (t : String) → length (lib.md5_sum t) ≡ 16) (opt : ServicesOption) where
  -- The generic Service, and that of the production (`false`) or the debug (`true`) pods.
  abbrev pub generic : Service
  generic = service_of c lib (service_option c opt true false)

  abbrev pub split : Bool → Service
  split is_debug = service_of c lib (service_option c opt false is_debug)

  -- The production and the debug Service: both in place, or neither in the cluster.
  abbrev pub Splits : World S → Bool → Type 0
  Splits after true = (is_debug : Bool) → InPlace k view Agrees law kind after (split is_debug)
  Splits after false = (is_debug : Bool) → view after.cluster (k.key (split is_debug)) ≡ none

  -- The Services of the component, in a cluster that is up to date, and the rest of the cluster.
  pub record IsUpToDate (before after : World S) : Type 0 where
    pub generic_there : InPlace k view Agrees law kind after generic
    pub splits : Splits after (has_split_services c opt)
    pub elsewhere :
        (j : NamespacedName)
        → same_key (k.key generic) j ≡ false
        → ((is_debug : Bool) → same_key (k.key (split is_debug)) j ≡ false)
        → view after.cluster j ≡ view before.cluster j

  generic_name :
      (k.key generic).name
      ≡ get_generic_service_name lib opt.bento_deployment opt.bento opt.runner_name
  unfolding service_of service_option
  generic_name = ap (λ key. key.name) (kind.key_of generic)

  split_key : (is_debug : Bool) → k.key (split is_debug) ≡ service_key k c lib opt is_debug
  unfolding service_of service_option service_key
  split_key is_debug = kind.key_of (split is_debug)

  split_name :
      (is_debug : Bool)
      → (k.key (split is_debug)).name
        ≡ get_service_name lib opt.bento_deployment opt.bento opt.runner_name is_debug
  split_name is_debug = unfold service_key in ap (λ key. key.name) (split_key is_debug)

  generic-split : (is_debug : Bool) → same_key (k.key (split is_debug)) (k.key generic) ≡ false
  generic-split is_debug = same_key_ne (k.key (split is_debug)) (k.key generic) λ e.
      (service_names-ne lib sixteen opt.bento_deployment opt.bento opt.runner_name).1 is_debug
        (sym generic_name ∙ (sym e ∙ split_name is_debug))

  debug-production : same_key (k.key (split true)) (k.key (split false)) ≡ false
  debug-production = same_key_ne (k.key (split true)) (k.key (split false)) λ e.
      (service_names-ne lib sixteen opt.bento_deployment opt.bento opt.runner_name).0
        (sym (split_name true) ∙ (e ∙ split_name false))

  kept :
      (service : Service) (w w' : World S)
      → view w'.cluster (k.key service) ≡ view w.cluster (k.key service)
      → InPlace k view Agrees law kind w service
      → InPlace k view Agrees law kind w' service
  kept service w w' same (stored, there, agrees) = (stored, same ∙ there, agrees)

  abbrev SplitDone : World S → World S → Type 0
  SplitDone w w' =
      ((is_debug : Bool) → InPlace k view Agrees law kind w' (split is_debug))
      × ((j : NamespacedName)
          → ((is_debug : Bool) → same_key (k.key (split is_debug)) j ≡ false)
          → view w'.cluster j ≡ view w.cluster j)

  split_services-SplitDone :
      (w w' : World S) (modified b : Bool)
      → split_services k c lib opt modified w ≡ (ok b, w')
      → SplitDone w w'
  unfolding split_services
  split_services-SplitDone w w' modified b h =
      let first = create_or_update_service k c lib (service_option c opt false false) in
      let second = create_or_update_service k c lib (service_option c opt false true) in
      let (b1, e1, h1) = >>=-eq-ok first _ w h in
      let w1 = (first w).1 in
      let (b2, e2, h2) = >>=-eq-ok second _ w1 h1 in
      let w2 = (second w1).1 in
      let done : w2 ≡ w' = ap (λ p. p.1) h2 in
      let (there1, other1) =
        create_or_update_service-Changed k view Agrees law kind c lib
          (service_option c opt false false) w w1 b1 (λ i. (e1 i, w1)) in
      let (there2, other2) =
        create_or_update_service-Changed k view Agrees law kind c lib
          (service_option c opt false true) w1 w2 b2 (λ i. (e2 i, w2)) in
      subst (SplitDone w) done (
        Bool-elim _
            (kept (split false) w1 w2 (other2 (k.key (split false)) debug-production) there1)
            there2,
        λ j ne. other2 j (ne true) ∙ other1 j (ne false),
      )

  abbrev SplitGone : World S → World S → Type 0
  SplitGone w w' =
      ((is_debug : Bool) → view w'.cluster (k.key (split is_debug)) ≡ none)
      × ((j : NamespacedName)
          → ((is_debug : Bool) → same_key (k.key (split is_debug)) j ≡ false)
          → view w'.cluster j ≡ view w.cluster j)

  remove_services-SplitGone :
      (w w' : World S) (modified b : Bool)
      → remove_services k c lib opt modified w ≡ (ok b, w')
      → SplitGone w w'
  unfolding remove_services
  remove_services-SplitGone w w' modified b h =
      let remove = λ (is_debug : Bool).
        delete_if_found k "Failed to get service" "Failed to delete service"
          (service_key k c lib opt is_debug) in
      let (b1, e1, h1) = >>=-eq-ok (remove false) _ w h in
      let w1 = (remove false w).1 in
      let (b2, e2, h2) = >>=-eq-ok (remove true) _ w1 h1 in
      let w2 = (remove true w1).1 in
      let done : w2 ≡ w' = ap (λ p. p.1) h2 in
      let removed1 =
        (delete_if_found-Removed k view Agrees law "Failed to get service"
          "Failed to delete service" (service_key k c lib opt false) w w1 b1 (λ i. (e1 i, w1))).0 in
      let removed2 =
        (delete_if_found-Removed k view Agrees law "Failed to get service"
          "Failed to delete service" (service_key k c lib opt true) w1 w2 b2 (λ i. (e2 i, w2))).0 in
      let at =
        λ (is_debug : Bool) (j : NamespacedName) (ne : same_key (k.key (split is_debug)) j ≡ false).
          ap (λ key. same_key key j) (sym (split_key is_debug)) ∙ ne in
      subst (SplitGone w) done (
        Bool-elim _
            (removed2.elsewhere (k.key (split false))
                (at true (k.key (split false)) debug-production)
              ∙ (ap (view w1.cluster) (split_key false) ∙ removed1.gone))
            (ap (view w2.cluster) (split_key true) ∙ removed2.gone),
        λ j ne.
            removed2.elsewhere j (at true j (ne true))
            ∙ removed1.elsewhere j (at false j (ne false)),
      )

  -- When the method has returned, the component's Services in the cluster are as they should be: the
  -- generic Service is there as described; in stealing-traffic debug mode so are the production and the
  -- debug Service, and otherwise neither of them exists; every other Service is as before.
  pub create_or_update_or_delete_services-IsUpToDate :
      (w w' : World S) (b : Bool)
      → create_or_update_or_delete_services k c lib opt w ≡ (ok b, w')
      → IsUpToDate w w'
  unfolding create_or_update_or_delete_services
  create_or_update_or_delete_services-IsUpToDate w w' b h =
      let first = create_or_update_service k c lib (service_option c opt true false) in
      let (m, e, more) = >>=-eq-ok first _ w h in
      let w1 = (first w).1 in
      let (there, other) =
        create_or_update_service-Changed k view Agrees law kind c lib
          (service_option c opt true false) w w1 m (λ i. (e i, w1)) in
      elim (Bool-cases (has_split_services c opt)) [
        | inl yes_split ↦
            let (splits, rest) = split_services-SplitDone w1 w' m b (
              subst
                (λ x.
                  (if x then split_services k c lib opt m else remove_services k c lib opt m) w1
                  ≡ (ok b, w'))
                yes_split more) in
            record {
              generic_there = kept generic w1 w' (rest (k.key generic) generic-split) there;
              splits = subst (Splits w') (sym yes_split) splits;
              elsewhere = λ j ng ns. rest j ns ∙ other j ng;
            }
        | inr no_split ↦
            let (gone, rest) = remove_services-SplitGone w1 w' m b (
              subst
                (λ x.
                  (if x then split_services k c lib opt m else remove_services k c lib opt m) w1
                  ≡ (ok b, w'))
                no_split more) in
            record {
              generic_there = kept generic w1 w' (rest (k.key generic) generic-split) there;
              splits = subst (Splits w') (sym no_split) gone;
              elsewhere = λ j ng ns. rest j ns ∙ other j ng;
            }
      ]
