-- ===== src/Controllers/CleanUp/Safety.antt =====
-- The clean-up deletes no Service but those that it is meant for.
use yatai_deployment.Base.{
  ◌≤◌, String, Option, none, some, List, [], ◌∷◌, Bool, true, false, ok, ◌≡◌, inl, inr, refl, sym,
  ◌∙◌, subst, arith, ltb, if◌then◌else◌, Bool-cases, wrap_err-eq-ok,
}
use yatai_deployment.Base.Effect.{World, call, wrap_exec}
use yatai_deployment.Base.Effect.Keeps.{Keeps, >>=-Keeps, >>=-Keeps-at}
use yatai_deployment.Base.Dict.{Dict}
use yatai_deployment.Api.Consts.{Consts}
use yatai_deployment.Api.Kube.{Opaque, NamespacedName, Service}
use yatai_deployment.Controllers.Objects.Laws.{same_key, same_key_iff}
use yatai_deployment.Controllers.CleanUp.{
  CleanUpLib, three_minutes, delete_service, clean_if_old, clean_if_unused, clean_service,
  clean_services, clean_namespace, clean_namespaces, remember_namespaces, read_namespaces,
  cached_namespaces, get_namespaces, do_clean_up_abandoned_runner_services,
}
use yatai_deployment.Controllers.CleanUp.Contract.{
  All, HasLabel, service_key, IsLawfulCleanUp, Abandoned, OnlyAbandoned, Inv, Known, Older, label,
  Abandoned-Older, Known-Older, only_later, Quiet-Inv,
}

module _ {S : Type 0} (lib : CleanUpLib S) (view : S → NamespacedName → Option Service)
    (pods : S → String → Dict String → List Opaque) (law : IsLawfulCleanUp lib view pods)
    (c : Consts) where
  abandoned :
      (s s' : S) (service : Service)
      → Known lib view pods law c s s' service
      → pods s service.meta.namespace service.spec.selector ≡ []
      → three_minutes ≤ lib.since service s'
      → Abandoned lib view pods law c s s' (service_key service)
  abandoned s s' service (inl (there, labelled)) empty old = (service, there, labelled, empty, old)
  abandoned s s' service (inr gone) empty old = gone

  delete_service-Inv :
      (s : S) (service : Service) (w : World S)
      → Abandoned lib view pods law c s w.cluster (service_key service)
      → Inv lib view pods law c s w
      → Inv lib view pods law c s (delete_service lib service w).1
  unfolding delete_service
  delete_service-Inv s service w gone (only, same) =
      let after = (lib.delete service w.cluster).1 in
      let older : Older lib view pods law c w.cluster after =
        λ other. law.delete_older other service w.cluster in
      (
        λ j. elim (Bool-cases (same_key (service_key service) j)) [
          | inl here ↦ inr (
              subst (Abandoned lib view pods law c s after)
                ((same_key_iff (service_key service) j).0 here)
                (Abandoned-Older lib view pods law c s w.cluster after (service_key service) older
                  gone))
          | inr ne ↦
              only_later lib view pods law c s w.cluster after j
                (law.delete_elsewhere service w.cluster j ne) older (only j)
        ],
        λ namespace selector.
            law.delete_pods service w.cluster namespace selector ∙ same namespace selector,
      )

  by_age-Inv :
      (s : S) (service : Service) (w : World S) (young : Bool)
      → ltb (lib.since service w.cluster) three_minutes ≡ young
      → Known lib view pods law c s w.cluster service
      → pods s service.meta.namespace service.spec.selector ≡ []
      → Inv lib view pods law c s w
      → Inv lib view pods law c s (if young then (ok tt, w) else delete_service lib service w).1
  by_age-Inv s service w true e known empty inv = inv
  by_age-Inv s service w false e known empty inv =
      delete_service-Inv s service w (abandoned s w.cluster service known empty (ground (arith, e)))
        inv

  clean_if_old-Inv :
      (s : S) (service : Service) (w : World S)
      → Known lib view pods law c s w.cluster service
      → pods s service.meta.namespace service.spec.selector ≡ []
      → Inv lib view pods law c s w
      → Inv lib view pods law c s (clean_if_old lib service w).1
  unfolding clean_if_old
  clean_if_old-Inv s service w known empty inv =
      by_age-Inv s service w (ltb (lib.since service w.cluster) three_minutes) refl known empty inv

  clean_if_unused-Inv :
      (s : S) (service : Service) (l : List Opaque) (w : World S)
      → Known lib view pods law c s w.cluster service
      → l ≡ pods s service.meta.namespace service.spec.selector
      → Inv lib view pods law c s w
      → Inv lib view pods law c s (clean_if_unused lib service l w).1
  unfolding clean_if_unused
  clean_if_unused-Inv s service [] w known empty inv =
      clean_if_old-Inv s service w known (sym empty) inv
  clean_if_unused-Inv s service (pod ∷ l) w known empty inv = inv

  clean_service-Inv :
      (s : S) (service : Service) (w : World S)
      → Known lib view pods law c s w.cluster service
      → Inv lib view pods law c s w
      → Inv lib view pods law c s (clean_service lib service w).1
  unfolding clean_service
  clean_service-Inv s service w known inv =
      let quiet = law.list_pods service.meta.namespace service.spec.selector w.cluster in
      let list =
        wrap_exec "list pods" (call (lib.list_pods service.meta.namespace service.spec.selector)) in
      let inv1 = Quiet-Inv lib view pods law c s w (list w).1 quiet inv in
      >>=-Keeps-at (Inv lib view pods law c s) list (clean_if_unused lib service) w inv1 λ l e.
        clean_if_unused-Inv s service l (list w).1
          (Known-Older lib view pods law c s w.cluster (list w).1.cluster service quiet.older known)
          (law.matching service.meta.namespace service.spec.selector w.cluster l
              (wrap_err-eq-ok "list pods" _ e)
            ∙ inv.1 service.meta.namespace service.spec.selector)
          inv1

  clean_service-Older :
      (service : Service) (w : World S)
      → Older lib view pods law c w.cluster (clean_service lib service w).1.cluster
  unfolding clean_service clean_if_unused clean_if_old delete_service
  clean_service-Older service w other = grind (
    arith,
    (law.list_pods service.meta.namespace service.spec.selector w.cluster).older other,
    law.delete_older other service
        (lib.list_pods service.meta.namespace service.spec.selector w.cluster).1,
  )

  All-Older :
      (s s1 s2 : S) (services : List Service)
      → Older lib view pods law c s1 s2
      → All (Known lib view pods law c s s1) services
      → All (Known lib view pods law c s s2) services
  All-Older s s1 s2 [] older known = tt
  All-Older s s1 s2 (service ∷ services) older (first, rest) = (
    Known-Older lib view pods law c s s1 s2 service older first,
    All-Older s s1 s2 services older rest,
  )

  clean_services-Inv :
      (s : S) (services : List Service) (w : World S)
      → All (Known lib view pods law c s w.cluster) services
      → Inv lib view pods law c s w
      → Inv lib view pods law c s (clean_services lib services w).1
  unfolding clean_services
  clean_services-Inv s [] w known inv = inv
  clean_services-Inv s (service ∷ services) w (first, rest) inv =
      let w1 = (clean_service lib service w).1 in
      let inv1 = clean_service-Inv s service w first inv in
      >>=-Keeps-at (Inv lib view pods law c s) (clean_service lib service)
        (λ _. clean_services lib services) w inv1
        λ _ _.
          clean_services-Inv s services w1
            (All-Older s w.cluster w1.cluster services (clean_service-Older service w) rest) inv1

  -- A Service that is listed now was there at the start, or is one that was cleaned up and has come
  -- back.
  listed-Known :
      (s s1 : S) (service : Service)
      → OnlyAbandoned lib view pods law c s s1
      → (view s1 (service_key service) ≡ some service)
        × HasLabel (label lib view pods law c) service
      → Known lib view pods law c s s1 service
  listed-Known s s1 service only (there, labelled) = elim (only (service_key service)) [
    | inl kept ↦ inl (sym kept ∙ there, labelled)
    | inr gone ↦ inr gone
  ]

  All-Known :
      (s s1 : S) (services : List Service)
      → OnlyAbandoned lib view pods law c s s1
      → All
          (λ service.
            (view s1 (service_key service) ≡ some service)
            × HasLabel (label lib view pods law c) service)
          services
      → All (Known lib view pods law c s s1) services
  All-Known s s1 [] only listed = tt
  All-Known s s1 (service ∷ services) only (first, rest) =
      (listed-Known s s1 service only first, All-Known s s1 services only rest)

  clean_namespace-Inv :
      (s : S) (namespace : String) (w : World S)
      → Inv lib view pods law c s w
      → Inv lib view pods law c s (clean_namespace lib c namespace w).1
  unfolding clean_namespace
  clean_namespace-Inv s namespace w inv =
      let list =
        wrap_exec "list services"
          (call (lib.list_services (label lib view pods law c) namespace)) in
      let quiet = law.list_services (label lib view pods law c) namespace w.cluster in
      let inv1 = Quiet-Inv lib view pods law c s w (list w).1 quiet inv in
      >>=-Keeps-at (Inv lib view pods law c s) list (clean_services lib) w inv1 λ services e.
        clean_services-Inv s services (list w).1
          (All-Older s w.cluster (list w).1.cluster services quiet.older (
            All-Known s w.cluster services inv.0 (
              law.listed (label lib view pods law c) namespace w.cluster services
                (wrap_err-eq-ok "list services" _ e))))
          inv1

  clean_namespaces-Inv :
      (s : S) (namespaces : List String)
      → Keeps (Inv lib view pods law c s) (clean_namespaces lib c namespaces)
  unfolding clean_namespaces
  clean_namespaces-Inv s [] w inv = inv
  clean_namespaces-Inv s (namespace ∷ namespaces) w inv =
      >>=-Keeps (Inv lib view pods law c s) (clean_namespace lib c namespace)
        (λ _. clean_namespaces lib c namespaces) (clean_namespace-Inv s namespace)
        (λ _. clean_namespaces-Inv s namespaces) w inv

  read_namespaces-Inv : (s : S) → Keeps (Inv lib view pods law c s) (read_namespaces lib)
  unfolding read_namespaces remember_namespaces
  read_namespaces-Inv s =
      >>=-Keeps (Inv lib view pods law c s)
        (wrap_exec "create kubernetes clientset" (call lib.new_for_config)) _
        (λ w inv.
          Quiet-Inv lib view pods law c s w
            (record w { cluster = (lib.new_for_config w.cluster).1 }) (law.new_for_config w.cluster)
            inv)
        λ _.
          >>=-Keeps (Inv lib view pods law c s)
            (wrap_exec "get bento deployment namespaces" (call lib.get_bento_deployment_namespaces))
            (remember_namespaces lib)
            (λ w inv.
              Quiet-Inv lib view pods law c s w
                (record w { cluster = (lib.get_bento_deployment_namespaces w.cluster).1 })
                (law.get_bento_deployment_namespaces w.cluster) inv)
            (λ namespaces w inv. inv)

  cached_namespaces-Inv :
      (s : S) (cached : Option (List String))
      → Keeps (Inv lib view pods law c s) (cached_namespaces lib cached)
  unfolding cached_namespaces
  cached_namespaces-Inv s none = read_namespaces-Inv s
  cached_namespaces-Inv s (some namespaces) = λ w inv. inv

  -- However the clean-up ends, also by an error half way, every Service that it has changed was a
  -- runner's, no pod matched its selector, and it is at least three minutes old; all other Services are
  -- as before.
  pub do_clean_up_abandoned_runner_services-OnlyAbandoned :
      (w : World S)
      → OnlyAbandoned lib view pods law c w.cluster
          (do_clean_up_abandoned_runner_services lib c w).1.cluster
  unfolding do_clean_up_abandoned_runner_services get_namespaces
  do_clean_up_abandoned_runner_services-OnlyAbandoned w =
      (>>=-Keeps (Inv lib view pods law c w.cluster) (get_namespaces lib) (clean_namespaces lib c)
        (λ x. cached_namespaces-Inv w.cluster x.caches.bento_deployment_namespaces x)
        (clean_namespaces-Inv w.cluster) w (λ j. inl refl, λ namespace selector. refl)).0
