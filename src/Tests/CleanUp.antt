-- ===== src/Tests/CleanUp.antt =====
-- A cluster with one Service, of a runner that is gone.
use yatai_deployment.Base.{
  ◌≤◌, ◌*◌, String, Option, none, some, List, [], ◌∷◌, Bool, true, false, Result, ok, ◌≡◌, refl,
  arith, subst, sym, ok-injective, eq_iff, eq_refl, if◌then◌else◌, is_some,
}
use yatai_deployment.Base.Effect.{err, not_found}
use yatai_deployment.Base.Dict.{Dict, lookup, entries}
use yatai_deployment.Api.Kube.{Opaque, NamespacedName, Service}
use yatai_deployment.Controllers.Objects.Laws.{same_key}
use yatai_deployment.Controllers.CleanUp.{CleanUpLib, do_clean_up_abandoned_runner_services}
use yatai_deployment.Controllers.CleanUp.Contract.{
  service_key, HasLabel, All, IsLawfulCleanUp, Quiet, OnlyAbandoned,
}
use yatai_deployment.Controllers.CleanUp.Safety.{
  do_clean_up_abandoned_runner_services-OnlyAbandoned,
}
use yatai_deployment.Tests.Fixtures.{consts, meta_of, world}

abbrev Slot : Type 0
Slot = Option Service

abbrev view : Slot → NamespacedName → Option Service
view none j = none
view (some a) j = if same_key (service_key a) j then some a else none

abbrev pods : Slot → String → Dict String → List Opaque
pods s namespace selector = []

abbrev has_label : String → Service → Bool
has_label label a = is_some (lookup label (entries a.meta.labels))

abbrev list_slot : String → Slot → List Service
list_slot label none = []
list_slot label (some a) = if has_label label a then a ∷ [] else []

abbrev delete_slot : Service → Slot → Result (Unit {0}) × Slot
delete_slot service none = (err not_found, none)
delete_slot service (some a) =
    if same_key (service_key service) (service_key a)
    then (ok tt, none)
    else (err not_found, some a)

abbrev lib : CleanUpLib Slot
lib = record {
  new_for_config = λ s. (ok tt, s);
  get_bento_deployment_namespaces = λ s. (ok ("yatai" ∷ []), s);
  list_services = λ label namespace s. (ok (list_slot label s), s);
  list_pods = λ namespace selector s. (ok [], s);
  since = λ service s. 4 * (60 * 1000000000);
  delete = delete_slot;
}

quiet : (s : Slot) → Quiet lib view pods s s
quiet s = record {
  services_stay = λ j. refl;
  pods_stay = λ namespace selector. refl;
  older = λ service. omega arith;
}

labelled : (label : String) (a : Service) → has_label label a ≡ true → HasLabel label a
unfolding lookup
labelled label a h = ground arith

shown : (a : Service) → view (some a) (service_key a) ≡ some a
shown a = ground (arith, eq_refl a.meta.namespace, eq_refl a.meta.name)

listed_if :
    (label : String) (a : Service) (b : Bool)
    → has_label label a ≡ b
    → All
        (λ service. (view (some a) (service_key service) ≡ some service) × HasLabel label service)
        (if b then a ∷ [] else [])
listed_if label a true h = ((shown a, labelled label a h), tt)
listed_if label a false h = tt

listed :
    (label : String) (s : Slot)
    → All
        (λ service. (view s (service_key service) ≡ some service) × HasLabel label service)
        (list_slot label s)
listed label none = tt
listed label (some a) = listed_if label a (has_label label a) refl

delete_elsewhere :
    (service : Service) (s : Slot) (j : NamespacedName)
    → same_key (service_key service) j ≡ false
    → view (delete_slot service s).1 j ≡ view s j
delete_elsewhere service none j h = refl
delete_elsewhere service (some a) j h =
    ground
      (arith, eq_iff service.meta.namespace a.meta.namespace, eq_iff service.meta.name a.meta.name)

older :
    (service deleted : Service) (s : Slot)
    → lib.since service s ≤ lib.since service (lib.delete deleted s).1
older service deleted s = omega arith

lawful : IsLawfulCleanUp lib view pods
lawful = record {
  new_for_config = quiet;
  get_bento_deployment_namespaces = quiet;
  list_services = λ label namespace s. quiet s;
  listed = λ label namespace s services h.
      subst
        (All (λ service. (view s (service_key service) ≡ some service) × HasLabel label service))
        (ok-injective h) (listed label s);
  list_pods = λ namespace selector s. quiet s;
  matching = λ namespace selector s l h. sym (ok-injective h);
  delete_elsewhere = delete_elsewhere;
  delete_pods = λ service s namespace selector. refl;
  delete_older = older;
}

abbrev abandoned : Service
abandoned = record {
  meta = record (meta_of "iris-runner") {
    labels = some (("yatai.ai/bento-deployment-runner", "iris_clf") ∷ []);
  };
  spec = record { selector = []; ports = [] };
}

-- The Service is deleted.
cleaned :
    (do_clean_up_abandoned_runner_services lib consts (world (some abandoned))).1.cluster ≡ none
unfolding do_clean_up_abandoned_runner_services lookup
cleaned = refl

do_clean_up_abandoned_runner_services-OnlyAbandoned_example :
    OnlyAbandoned lib view pods lawful consts
      (some abandoned)
      (do_clean_up_abandoned_runner_services lib consts (world (some abandoned))).1.cluster
do_clean_up_abandoned_runner_services-OnlyAbandoned_example =
    do_clean_up_abandoned_runner_services-OnlyAbandoned lib view pods lawful consts
      (world (some abandoned))
