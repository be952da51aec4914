-- ===== src/Controllers/Objects/Failure.antt =====
-- What a method that fails to create or to update its object may have left in the cluster.
use yatai_deployment.Base.{Option, some, false, err, ◌≡◌, ◌⊎◌, if◌then◌else◌}
use yatai_deployment.Base.Effect.{Error, Result}
use yatai_deployment.Api.Kube.{NamespacedName}
use yatai_deployment.Controllers.Objects.{Kind}
use yatai_deployment.Controllers.Objects.Laws.{IsLawful, same_key}

module _ {S A : Type 0} (k : Kind S A) (view : S → NamespacedName → Option A)
    (Agrees : A → A → Type 0) (law : IsLawful k view Agrees) where
  -- A write of an object that has failed: it has not been done, or it has, and only the answer is lost.
  abbrev pub Attempted : A → S → S → Type 0
  Attempted a s s' =
      ((j : NamespacedName) → view s' j ≡ view s j)
      ⊎ ((j : NamespacedName) → view s' j ≡ (if same_key (k.key a) j then some a else view s j))

  -- The contract of the API client: a request that fails has been done whole or not at all.
  pub record IsWholeOrNot : Type 0 where
    pub create_failed :
        (a : A) (s : S) (e : Error) → (k.create a s).0 ≡ err e → Attempted a s (k.create a s).1
    pub update_failed :
        (a : A) (s : S) (e : Error) → (k.update a s).0 ≡ err e → Attempted a s (k.update a s).1

  -- The object is as before, or as it was described; all others are as before.
  pub record LeftOrWritten (object : A) (before after : S) : Type 0 where
    pub at_key :
        (view after (k.key object) ≡ view before (k.key object))
        ⊎ ((stored : A) × (view after (k.key object) ≡ some stored) × Agrees stored object)
    pub elsewhere :
        (j : NamespacedName) → same_key (k.key object) j ≡ false → view after j ≡ view before j

  Left : S → S → Type 0
  Left s s' = (j : NamespacedName) → view s' j ≡ view s j

  -- The request that failed, or no request was made.
  abbrev Failed : (A → S → Result (Unit {0}) × S) → A → S → S → Error → Type 0
  Failed request a s s' e = (s' ≡ s) ⊎ (((request a s).0 ≡ err e) × (s' ≡ (request a s).1))
