-- ===== src/Tests/Store.antt =====
-- A cluster that keeps one kind of object in a function, with the operations of the API client.
use yatai_deployment.Base.{
  String, Option, none, some, true, false, Result, ok, err, Error, ◌≡◌, refl, subst, ok-injective,
  arith, if◌then◌else◌, is_some,
}
use yatai_deployment.Base.Effect.{not_found, already_exists}
use yatai_deployment.Api.Kube.{NamespacedName}
use yatai_deployment.Controllers.Objects.{Kind}
use yatai_deployment.Controllers.Objects.Laws.{IsLawful, same_key}

abbrev pub Store : Type 0 → Type 0
Store A = NamespacedName → Option A

module _ {A : Type 0} (key : A → NamespacedName) where
  abbrev only_at : NamespacedName → Option A → Option A
  only_at j none = none
  only_at j (some a) = if same_key (key a) j then some a else none

  abbrev pub view : Store A → NamespacedName → Option A
  view s j = only_at j (s j)

  abbrev put : A → Store A → Store A
  put a s j = if same_key (key a) j then some a else s j

  abbrev pub or_missing : Option A → Result A
  or_missing none = err not_found
  or_missing (some a) = ok a

  abbrev pub store_get : NamespacedName → Store A → Result A × Store A
  store_get j s = (or_missing (view s j), s)

  abbrev pub store_create : A → Store A → Result (Unit {0}) × Store A
  store_create a s = if is_some (s (key a)) then (err already_exists, s) else (ok tt, put a s)

  abbrev pub store_update : A → Store A → Result (Unit {0}) × Store A
  store_update a s = if is_some (s (key a)) then (ok tt, put a s) else (err not_found, s)

  abbrev pub store_delete : A → Store A → Result (Unit {0}) × Store A
  store_delete a s =
      if is_some (s (key a))
      then (ok tt, λ j. if same_key (key a) j then none else s j)
      else (err not_found, s)

  -- The kind, given what the annotator and the owner reference do. No patch is ever empty.
  abbrev pub store_kind : String → (A → A) → (A → A) → Kind (Store A) A
  store_kind reason annotate refer = record {
    reason = reason;
    key = key;
    get = store_get;
    create = store_create;
    update = store_update;
    delete = store_delete;
    set_controller_reference = λ owner a. ok (refer a);
    set_last_applied_annotation = λ a. ok (annotate a);
    calculate = λ old new. ok false;
  }

  view_key :
      (s : Store A) (j : NamespacedName) (a : A) → view s j ≡ some a → same_key (key a) j ≡ true
  view_key s j a h = ground arith

  pub get_found :
      (j : NamespacedName) (s : Store A) (a : A) → (store_get j s).0 ≡ ok a → view s j ≡ some a
  get_found j s a h = ground arith

  get_missing :
      (j : NamespacedName) (s : Store A) (e : Error) → (store_get j s).0 ≡ err e → view s j ≡ none
  get_missing j s e h = ground arith

  create_view :
      (a : A) (s : Store A) (j : NamespacedName)
      → (store_create a s).0 ≡ ok tt
      → view (store_create a s).1 j ≡ (if same_key (key a) j then some a else view s j)
  create_view a s j h = ground arith

  update_view :
      (a : A) (s : Store A) (j : NamespacedName)
      → (store_update a s).0 ≡ ok tt
      → view (store_update a s).1 j ≡ (if same_key (key a) j then some a else view s j)
  update_view a s j h = ground arith

  delete_view :
      (a : A) (s : Store A) (j : NamespacedName)
      → (store_delete a s).0 ≡ ok tt
      → view (store_delete a s).1 j ≡ (if same_key (key a) j then none else view s j)
  delete_view a s j h = ground arith

  module _ (reason : String) (annotate refer : A → A) (Agrees : A → A → Type 0)
      (annotated : (a : A) → (key (annotate a) ≡ key a) × Agrees (annotate a) a)
      (referred : (a : A)
        → (key (refer a) ≡ key a)
          × ((stored : A) → Agrees stored (refer a) → Agrees stored a)) where
    pub store_kind-IsLawful : IsLawful (store_kind reason annotate refer) view Agrees
    store_kind-IsLawful = record {
      view_key = view_key;
      get_found = λ j s a h. (a, get_found j s a h, refl, λ d agrees. agrees);
      get_missing = λ j s e h _. get_missing j s e h;
      get_view = λ j i s. refl;
      create_view = create_view;
      update_view = update_view;
      delete_view = delete_view;
      annotated = λ a b h. subst (λ x. (key x ≡ key a) × Agrees x a) (ok-injective h) (annotated a);
      referenced = λ owner a b h.
          subst (λ x. (key x ≡ key a) × ((stored : A) → Agrees stored x → Agrees stored a))
            (ok-injective h) (referred a);
      empty_patch = λ old new h. cc h;
    }
