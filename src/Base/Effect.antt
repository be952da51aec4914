-- ===== src/Base/Effect.antt =====
-- The effects of the program: errors as Go's `error`, panics, the cluster behind the API client, and
-- the events of the recorder. What was written before an error stays written, so the state comes
-- back beside the error too.
pub mod Keeps
use Prim.Native.String.{String}
use mathlib.Core.Path.{◌≡◌, refl, sym, ap, subst}
use mathlib.Core.Logic.{◌⊎◌, inr}
use native.Mathlib.Omega.{arith}
use mathlib.Core.Bool.{Bool, true, false}
use mathlib.Core.Option.{Option}
use yatai_deployment.Base.Dict.{Dict}
use mathlib.Core.List.{List, [], ◌∷◌, ◌++◌}

-- An API error by its reason, any other error by its text, and `errors.Wrap`.
pub data Error : Type 0 where
  not_found already_exists conflict : Error
  other : String → Error
  wrap : String → Error → Error

-- `k8serrors.IsNotFound` and `k8serrors.IsAlreadyExists` look through wrapped errors.
abbrev pub is_not_found : Error → Bool
is_not_found not_found = true
is_not_found (wrap _ e) = is_not_found e
is_not_found _ = false

abbrev pub is_already_exists : Error → Bool
is_already_exists already_exists = true
is_already_exists (wrap _ e) = is_already_exists e
is_already_exists _ = false

-- A Go call that returns a value and an error; `panic` is a run-time panic, such as an index out of
-- range.
pub data Result (A : Type 0) : Type 0 where
  ok : A → Result A
  err : Error → Result A
  panic : Result A

-- `errors.Wrap(err, text)`, which keeps a nil error nil.
abbrev pub wrap_err : {A : Type 0} → String → Result A → Result A
wrap_err text (ok a) = ok a
wrap_err text (err e) = err (wrap text e)
wrap_err text panic = panic

-- `if err != nil { return }` in a function without effects.
abbrev pub bind : {A B : Type 0} → Result A → (A → Result B) → Result B
bind (ok a) f = f a
bind (err e) f = err e
bind panic f = panic

pub ok-injective : {A : Type 0} {a b : A} → ok a ≡ ok b → a ≡ b
ok-injective h = cc

pub wrap_err-eq-ok :
    {A : Type 0} (text : String) (r : Result A) {a : A} → wrap_err text r ≡ ok a → r ≡ ok a
wrap_err-eq-ok text (ok a) h = h
wrap_err-eq-ok text (err e) h = cc
wrap_err-eq-ok text panic h = cc

-- Inversion of a chain that returned a value.
pub bind-eq-ok :
    {A B : Type 0} (m : Result A) (f : A → Result B) {b : B}
    → bind m f ≡ ok b
    → (a : A) × (m ≡ ok a) × (f a ≡ ok b)
bind-eq-ok panic f h = cc
bind-eq-ok (err reason) f h = cc
bind-eq-ok (ok value) f h = (value, refl, h)

pub data EventType : Type 0 where
  normal warning : EventType

-- A recorded event: its type, its reason and the object that its message names.
pub record Event : Type 0 where
  pub kind : EventType
  pub reason : String
  pub subject : String

-- `IngressConfig` of controllers/helper.go.
pub record IngressConfig : Type 0 where
  pub class_name : Option String
  pub annotations : Dict String
  pub path : String
  pub path_type : String

-- `commonconfig.YataiConfig`
pub record YataiConfig : Type 0 where
  pub endpoint : String
  pub cluster_name : String
  pub api_token : String

-- The package's global variables, which keep what has been read once.
pub record Caches : Type 0 where
  pub yatai_conf : Option YataiConfig
  pub domain_suffix : Option String
  pub ingress_config : Option IngressConfig
  pub bento_deployment_namespaces : Option (List String)

-- The cluster, the recorded events, the newest last, and the global variables.
pub record World (S : Type 0) : Type 0 where
  pub cluster : S
  pub events : List Event
  pub caches : Caches

abbrev pub Exec : Type 0 → Type 0 → Type 0
Exec S A = World S → Result A × World S

module _ {S A : Type 0} where
  abbrev pub pure : A → Exec S A
  pure a w = (ok a, w)

  abbrev pub raise : Error → Exec S A
  raise e w = (err e, w)

  abbrev pub lift : Result A → Exec S A
  lift r w = (r, w)

  -- A call of the API client.
  abbrev pub call : (S → Result A × S) → Exec S A
  call f w = let (r, s) = f w.cluster in (r, record w { cluster = s })

  -- A call whose error the caller looks at; a panic goes on.
  abbrev pub reify : Result A → Exec S (Result A)
  reify (ok a) w = (ok (ok a), w)
  reify (err e) w = (ok (err e), w)
  reify panic w = (panic, w)

  abbrev pub attempt : Exec S A → Exec S (Result A)
  attempt m w = let (r, w') = m w in reify r w'

  -- `if err != nil { err = errors.Wrap(err, text); return }`
  abbrev pub wrap_exec : String → Exec S A → Exec S A
  wrap_exec text m w = let (r, w') = m w in (wrap_err text r, w')

module _ {S A B : Type 0} where
  abbrev pub continue : Result A → (A → Exec S B) → Exec S B
  continue (ok a) f w = f a w
  continue (err e) f w = (err e, w)
  continue panic f w = (panic, w)

  infixl 5 ◌>>=◌
  abbrev pub ◌>>=◌ : Exec S A → (A → Exec S B) → Exec S B
  ◌>>=◌ m f w = let (r, w') = m w in continue r f w'

infixl 5 ◌>>◌
abbrev pub ◌>>◌ : {S B : Type 0} → Exec S (Unit {0}) → Exec S B → Exec S B
m >> k = m >>= λ _. k

module _ {S A B : Type 0} where
  continue-eq-ok :
      (r : Result A) (f : A → Exec S B) (w : World S) {b : B} {w' : World S}
      → continue r f w ≡ (ok b, w')
      → (a : A) × (r ≡ ok a) × (f a w ≡ (ok b, w'))
  continue-eq-ok (ok a) f w h = (a, refl, h)
  continue-eq-ok (err e) f w h = cc
  continue-eq-ok panic f w h = cc

  -- Inversion of a chain that returned a value.
  pub >>=-eq-ok :
      (m : Exec S A) (f : A → Exec S B) (w : World S) {b : B} {w' : World S}
      → (m >>= f) w ≡ (ok b, w')
      → (a : A) × ((m w).0 ≡ ok a) × (f a (m w).1 ≡ (ok b, w'))
  >>=-eq-ok m f w h = continue-eq-ok (m w).0 f (m w).1 h

module _ {S A : Type 0} where
  reify-eq-ok :
      (r result : Result A) (w w' : World S) → reify r w ≡ (ok result, w') → (r ≡ result) × (w ≡ w')
  reify-eq-ok (ok a) result w w' h = (ok-injective (ap (λ p. p.0) h), ap (λ p. p.1) h)
  reify-eq-ok (err e) result w w' h = (ok-injective (ap (λ p. p.0) h), ap (λ p. p.1) h)
  reify-eq-ok panic result w w' h = cc

  -- What a call did whose error is looked at.
  pub attempt-eq-ok :
      (m : Exec S A) (w w' : World S) (result : Result A)
      → attempt m w ≡ (ok result, w')
      → ((m w).0 ≡ result) × ((m w).1 ≡ w')
  attempt-eq-ok m w w' result h = reify-eq-ok (m w).0 result (m w).1 w' h

module _ {S A B : Type 0} where
  continue-eq-err :
      (r : Result A) (f : A → Exec S B) (w : World S) {e : Error} {w' : World S}
      → continue r f w ≡ (err e, w')
      → ((r ≡ err e) × (w' ≡ w)) ⊎ ((a : A) × (f a w ≡ (err e, w')))
  continue-eq-err (ok a) f w h = inr (a, h)
  continue-eq-err (err e) f w h = ground (arith, h)
  continue-eq-err panic f w h = cc

  -- Where a chain that failed has failed.
  pub >>=-eq-err :
      (m : Exec S A) (f : A → Exec S B) (w : World S) {e : Error} {w' : World S}
      → (m >>= f) w ≡ (err e, w')
      → (((m w).0 ≡ err e) × (w' ≡ (m w).1)) ⊎ ((a : A) × (f a (m w).1 ≡ (err e, w')))
  >>=-eq-err m f w h = continue-eq-err (m w).0 f (m w).1 h

module _ {S : Type 0} where
  -- `r.Recorder.Eventf(...)`
  unfoldable pub emit : EventType → String → String → Exec S (Unit {0})
  emit kind reason subject w =
      let event : Event = record { kind = kind; reason = reason; subject = subject } in
      (ok tt, record w { events = w.events ++ event ∷ [] })

  after_warning : {A : Type 0} → String → String → Result A → Exec S A
  unfolding emit
  after_warning reason subject (ok a) w = (ok a, w)
  after_warning reason subject (err e) w = (err e, (emit warning reason subject w).1)
  after_warning reason subject panic w = (panic, w)

  -- `if err != nil { r.Recorder.Eventf(..., Warning, reason, ...); return }`
  unfoldable pub or_warn : {A : Type 0} → String → String → Exec S A → Exec S A
  unfolding after_warning
  or_warn reason subject m w = let (r, w') = m w in after_warning reason subject r w'

  after_warning-eq-ok :
      {A : Type 0} (reason subject : String) (r : Result A) (w : World S) {a : A}
      → (after_warning reason subject r w).0 ≡ ok a
      → (r ≡ ok a) × ((after_warning reason subject r w).1 ≡ w)
  unfolding after_warning
  after_warning-eq-ok reason subject (ok a) w h = (h, refl)
  after_warning-eq-ok reason subject (err e) w h = cc
  after_warning-eq-ok reason subject panic w h = cc

  -- A call that returned a value has recorded no warning.
  pub or_warn-eq-ok :
      {A : Type 0} (reason subject : String) (m : Exec S A) (w : World S) {a : A}
      → (or_warn reason subject m w).0 ≡ ok a
      → ((m w).0 ≡ ok a) × ((or_warn reason subject m w).1 ≡ (m w).1)
  unfolding or_warn
  or_warn-eq-ok reason subject m w h = after_warning-eq-ok reason subject (m w).0 (m w).1 h

module _ {S : Type 0} where
  after_warning-cluster :
      {A : Type 0} (reason subject : String) (r : Result A) (w : World S)
      → (after_warning reason subject r w).1.cluster ≡ w.cluster
  unfolding after_warning
  after_warning-cluster reason subject (ok a) w = refl
  after_warning-cluster reason subject (err e) w = refl
  after_warning-cluster reason subject panic w = refl

  -- A warning is not a change of the cluster.
  pub or_warn-cluster :
      {A : Type 0} (reason subject : String) (m : Exec S A) (w : World S) (P : S → Type 0)
      → P (m w).1.cluster
      → P (or_warn reason subject m w).1.cluster
  unfolding or_warn
  or_warn-cluster reason subject m w P h =
      subst P (sym (after_warning-cluster reason subject (m w).0 (m w).1)) h
