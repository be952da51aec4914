-- ===== src/Controllers/Objects/Laws.antt =====
-- What one object's update does to a cluster whose API client and patch maker keep their contracts.
use yatai_deployment.Base.{
  Option, none, some, Bool, true, false, ok, err, ◌==◌, ◌&&◌, if◌then◌else◌, ◌≡◌, ◌⊎◌, ◌↔◌, arith,
  eq_iff,
}
use yatai_deployment.Base.Effect.{World, is_not_found, Error}
use yatai_deployment.Api.Kube.{NamespacedName}
use yatai_deployment.Api.V2alpha1.{BentoDeployment}
use yatai_deployment.Controllers.Objects.{
  Kind, get_object, create_object, update_object, find_object,
}

abbrev pub same_key : NamespacedName → NamespacedName → Bool
same_key a b = a.namespace == b.namespace && a.name == b.name

-- The contracts: `view` is what the cluster holds, `Agrees a b` says that the object `a` of the cluster
-- is as `b` describes it. What `get` returns may differ from what is there, but not in its key nor
-- in a way that matters to a description.
pub record IsLawful {S A : Type 0} (k : Kind S A) (view : S → NamespacedName → Option A)
    (Agrees : A → A → Type 0) : Type 0 where
  pub view_key :
      (s : S) (key : NamespacedName) (a : A) → view s key ≡ some a → same_key (k.key a) key ≡ true
  pub get_found :
      (key : NamespacedName) (s : S) (a : A)
      → (k.get key s).0 ≡ ok a
      → (there : A) × (view s key ≡ some there)
        × (k.key a ≡ k.key there)
        × ((d : A) → Agrees a d → Agrees there d)
  pub get_missing :
      (key : NamespacedName) (s : S) (e : Error)
      → (k.get key s).0 ≡ err e
      → is_not_found e ≡ true
      → view s key ≡ none
  pub get_view : (key j : NamespacedName) (s : S) → view (k.get key s).1 j ≡ view s j
  pub create_view :
      (a : A) (s : S) (j : NamespacedName)
      → (k.create a s).0 ≡ ok tt
      → view (k.create a s).1 j ≡ (if same_key (k.key a) j then some a else view s j)
  pub update_view :
      (a : A) (s : S) (j : NamespacedName)
      → (k.update a s).0 ≡ ok tt
      → view (k.update a s).1 j ≡ (if same_key (k.key a) j then some a else view s j)
  pub delete_view :
      (a : A) (s : S) (j : NamespacedName)
      → (k.delete a s).0 ≡ ok tt
      → view (k.delete a s).1 j ≡ (if same_key (k.key a) j then none else view s j)
  pub annotated :
      (a b : A) → k.set_last_applied_annotation a ≡ ok b → (k.key b ≡ k.key a) × Agrees b a
  pub referenced :
      (owner : BentoDeployment) (a b : A)
      → k.set_controller_reference owner a ≡ ok b
      → (k.key b ≡ k.key a) × ((stored : A) → Agrees stored b → Agrees stored a)
  pub empty_patch : (old new : A) → k.calculate old new ≡ ok true → Agrees old new

module _ {S A : Type 0} (k : Kind S A) where
  pub create_object-eq-ok :
      (object : A) (w w' : World S) (b : Bool)
      → create_object k object w ≡ (ok b, w')
      → (annotated : A) × (k.set_last_applied_annotation object ≡ ok annotated)
        × ((k.create annotated w.cluster).0 ≡ ok tt)
        × (w'.cluster ≡ (k.create annotated w.cluster).1)
  unfolding create_object
  create_object-eq-ok object w w' b h = ground arith

  -- How an update that returned has ended: nothing to do, or written.
  pub update_object-eq-ok :
      (old object : A) (write : A → A) (w w' : World S) (b : Bool)
      → update_object k old object write w ≡ (ok b, w')
      → ((k.calculate old object ≡ ok true) × (w'.cluster ≡ w.cluster) × (b ≡ false))
        ⊎ ((annotated : A) × (k.set_last_applied_annotation object ≡ ok annotated)
            × ((k.update (write annotated) w.cluster).0 ≡ ok tt)
            × (w'.cluster ≡ (k.update (write annotated) w.cluster).1)
            × (b ≡ true))
  unfolding update_object
  update_object-eq-ok old object write w w' b h = ground arith

  -- What the search that returned has found.
  abbrev pub Found : NamespacedName → S → Option A → Type 0
  Found key s none = (e : Error) × ((k.get key s).0 ≡ err e) × (is_not_found e ≡ true)
  Found key s (some a) = (k.get key s).0 ≡ ok a

  pub get_object-eq-ok :
      (key : NamespacedName) (w w' : World S) (old : Option A)
      → get_object k key w ≡ (ok old, w')
      → (w'.cluster ≡ (k.get key w.cluster).1) × Found key w.cluster old
  unfolding get_object
  get_object-eq-ok key w w' none h = ground arith
  get_object-eq-ok key w w' (some a) h = ground arith

  pub find_object-eq-ok :
      (object : A) (w w' : World S) (old : Option A)
      → find_object k object w ≡ (ok old, w')
      → (w'.cluster ≡ (k.get (k.key object) w.cluster).1) × Found (k.key object) w.cluster old
  unfolding find_object
  find_object-eq-ok object w w' none h = ground arith
  find_object-eq-ok object w w' (some a) h = ground arith

-- `a` and `b` are one key.
pub same_key_iff : (a b : NamespacedName) → (same_key a b ≡ true) ↔ (a ≡ b)
same_key_iff a b = ground (arith, eq_iff a.namespace b.namespace, eq_iff a.name b.name)
