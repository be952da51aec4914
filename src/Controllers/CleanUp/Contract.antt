-- ===== src/Controllers/CleanUp/Contract.antt =====
-- What a clean-up may rely on, and what it may change.
use yatai_deployment.Base.{
  ◌≤◌, String, Option, some, List, [], ◌∷◌, false, ok, ◌≡◌, ◌⊎◌, inl, inr, ◌∙◌, arith,
}
use yatai_deployment.Base.Effect.{World}
use yatai_deployment.Base.Dict.{Dict, lookup, entries}
use yatai_deployment.Api.Consts.{Consts}
use yatai_deployment.Api.Kube.{Opaque, NamespacedName, Service}
use yatai_deployment.Controllers.Objects.Laws.{same_key}
use yatai_deployment.Controllers.CleanUp.{CleanUpLib, three_minutes}

abbrev pub service_key : Service → NamespacedName
service_key service = record { namespace = service.meta.namespace; name = service.meta.name }

abbrev pub HasLabel : String → Service → Type 0
HasLabel label service = (v : String) × (lookup label (entries service.meta.labels) ≡ some v)

abbrev pub All : {A : Type 0} → (A → Type 0) → List A → Type 0
All P [] = Unit
All P (x ∷ xs) = P x × All P xs

module _ {S : Type 0} (lib : CleanUpLib S) (view : S → NamespacedName → Option Service)
    (pods : S → String → Dict String → List Opaque) where
  -- The Services and the pods stay, and time may pass.
  pub record Quiet (s s' : S) : Type 0 where
    pub services_stay : (j : NamespacedName) → view s' j ≡ view s j
    pub pods_stay :
        (namespace : String) (selector : Dict String)
        → pods s' namespace selector ≡ pods s namespace selector
    pub older : (service : Service) → lib.since service s ≤ lib.since service s'

  -- The contracts: `view` are the Services of the cluster and `pods` the pods that match a selector in
  -- a namespace. Calls that read are quiet; a deletion may change the cluster at its key alone.
  pub record IsLawfulCleanUp : Type 0 where
    pub new_for_config : (s : S) → Quiet s (lib.new_for_config s).1
    pub get_bento_deployment_namespaces :
        (s : S) → Quiet s (lib.get_bento_deployment_namespaces s).1
    pub list_services :
        (label namespace : String) (s : S) → Quiet s (lib.list_services label namespace s).1
    pub listed :
        (label namespace : String) (s : S) (services : List Service)
        → (lib.list_services label namespace s).0 ≡ ok services
        → All
            (λ service. (view s (service_key service) ≡ some service) × HasLabel label service)
            services
    pub list_pods :
        (namespace : String) (selector : Dict String) (s : S)
        → Quiet s (lib.list_pods namespace selector s).1
    pub matching :
        (namespace : String) (selector : Dict String) (s : S) (l : List Opaque)
        → (lib.list_pods namespace selector s).0 ≡ ok l
        → l ≡ pods s namespace selector
    pub delete_elsewhere :
        (service : Service) (s : S) (j : NamespacedName)
        → same_key (service_key service) j ≡ false
        → view (lib.delete service s).1 j ≡ view s j
    pub delete_pods :
        (service : Service) (s : S) (namespace : String) (selector : Dict String)
        → pods (lib.delete service s).1 namespace selector ≡ pods s namespace selector
    pub delete_older :
        (service deleted : Service) (s : S)
        → lib.since service s ≤ lib.since service (lib.delete deleted s).1

module _ {S : Type 0} (lib : CleanUpLib S) (view : S → NamespacedName → Option Service)
    (pods : S → String → Dict String → List Opaque) (law : IsLawfulCleanUp lib view pods)
    (c : Consts) where
  abbrev pub label : String
  label = c.kube_label_yatai_bento_deployment_runner

  -- The Service that the cluster `s` has at a key is one of a runner, no pod matches it, and in `s'` it
  -- is at least three minutes old.
  abbrev pub Abandoned : S → S → NamespacedName → Type 0
  Abandoned s s' j =
      (service : Service) × (view s j ≡ some service)
      × HasLabel c.kube_label_yatai_bento_deployment_runner service
      × (pods s service.meta.namespace service.spec.selector ≡ [])
      × (three_minutes ≤ lib.since service s')

  -- From the cluster `s` to `s'`, only abandoned Services have changed.
  abbrev pub OnlyAbandoned : S → S → Type 0
  OnlyAbandoned s s' = (j : NamespacedName) → (view s' j ≡ view s j) ⊎ Abandoned s s' j

  abbrev pub SamePods : S → S → Type 0
  SamePods s s' =
      (namespace : String) (selector : Dict String)
      → pods s' namespace selector ≡ pods s namespace selector

  abbrev pub Inv : S → World S → Type 0
  Inv s w = OnlyAbandoned s w.cluster × SamePods s w.cluster

  -- What is known of a Service that was listed.
  abbrev pub Known : S → S → Service → Type 0
  Known s s' service =
      ((view s (service_key service) ≡ some service)
        × HasLabel c.kube_label_yatai_bento_deployment_runner service)
      ⊎ Abandoned s s' (service_key service)

  abbrev pub Older : S → S → Type 0
  Older s s' = (service : Service) → lib.since service s ≤ lib.since service s'

  pub Abandoned-Older :
      (s s1 s2 : S) (j : NamespacedName) → Older s1 s2 → Abandoned s s1 j → Abandoned s s2 j
  Abandoned-Older s s1 s2 j older (service, there, labelled, empty, old) =
      (service, there, labelled, empty, omega (arith, old, older service))

  pub Known-Older :
      (s s1 s2 : S) (service : Service) → Older s1 s2 → Known s s1 service → Known s s2 service
  Known-Older s s1 s2 service older (inl known) = inl known
  Known-Older s s1 s2 service older (inr abandoned) =
      inr (Abandoned-Older s s1 s2 (service_key service) older abandoned)

  pub only_later :
      (s s1 s2 : S) (j : NamespacedName)
      → view s2 j ≡ view s1 j
      → Older s1 s2
      → (view s1 j ≡ view s j) ⊎ Abandoned s s1 j
      → (view s2 j ≡ view s j) ⊎ Abandoned s s2 j
  only_later s s1 s2 j same older (inl kept) = inl (same ∙ kept)
  only_later s s1 s2 j same older (inr gone) = inr (Abandoned-Older s s1 s2 j older gone)

  pub Quiet-Inv :
      (s : S) (w w' : World S) → Quiet lib view pods w.cluster w'.cluster → Inv s w → Inv s w'
  Quiet-Inv s w w' quiet (only, same) = (
    λ j. only_later s w.cluster w'.cluster j (quiet.services_stay j) quiet.older (only j),
    λ namespace selector. quiet.pods_stay namespace selector ∙ same namespace selector,
  )
