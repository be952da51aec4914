-- ===== src/Base/Effect/Keeps.antt =====
-- Properties of the world that a method keeps.
use mathlib.Core.Path.{◌≡◌, refl}
use mathlib.Core.Bool.{Bool, true, false}
use yatai_deployment.Base.Tests.{if◌then◌else◌}
use yatai_deployment.Base.Effect.{Result, ok, err, panic, World, Exec, continue, ◌>>=◌}

-- The worlds after a method are among those that it started from.
abbrev pub Keeps : {S A : Type 0} → (World S → Type 0) → Exec S A → Type 0
Keeps {S} Inv m = (w : World S) → Inv w → Inv (m w).1

module _ {S A B : Type 0} (Inv : World S → Type 0) where
  continue-Keeps :
      (r : Result A) (f : A → Exec S B) (w : World S)
      → ((a : A) → Keeps Inv (f a))
      → Inv w
      → Inv (continue r f w).1
  continue-Keeps (ok a) f w keeps h = keeps a w h
  continue-Keeps (err e) f w keeps h = h
  continue-Keeps panic f w keeps h = h

  pub >>=-Keeps :
      (m : Exec S A) (f : A → Exec S B)
      → Keeps Inv m
      → ((a : A) → Keeps Inv (f a))
      → Keeps Inv (m >>= f)
  >>=-Keeps m f first rest w h = continue-Keeps (m w).0 f (m w).1 rest (first w h)

  continue-Keeps-at :
      (r : Result A) (f : A → Exec S B) (w : World S)
      → Inv w
      → ((a : A) → r ≡ ok a → Inv (f a w).1)
      → Inv (continue r f w).1
  continue-Keeps-at (ok a) f w h keeps = keeps a refl
  continue-Keeps-at (err e) f w h keeps = h
  continue-Keeps-at panic f w h keeps = h

  -- The same in one world, where the value that the first method returned is known.
  pub >>=-Keeps-at :
      (m : Exec S A) (f : A → Exec S B) (w : World S)
      → Inv (m w).1
      → ((a : A) → (m w).0 ≡ ok a → Inv (f a (m w).1).1)
      → Inv ((m >>= f) w).1
  >>=-Keeps-at m f w h keeps = continue-Keeps-at (m w).0 f (m w).1 h keeps

module _ {S A : Type 0} (Inv : World S → Type 0) where
  pub if-Keeps :
      (b : Bool) (m n : Exec S A) → Keeps Inv m → Keeps Inv n → Keeps Inv (if b then m else n)
  if-Keeps true m n first second = first
  if-Keeps false m n first second = second
