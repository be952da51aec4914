-- ===== src/Controllers/Names/Distinct.antt =====
-- The Deployments of different components of a resource have different names.
use text.Mathlib.TextLemmas.{append_cancel_left, append_assoc, append-nil}
use yatai_deployment.Base.{
  ◌≤◌, ◌⊎◌, Bool-cases, inl, inr, ℕ, ◌+◌, String, len, len-append, Option, none, some, List, [],
  ◌∷◌, Bool, true, false, ◌==◌, ◌<>◌, any, eq_iff, ◌≡◌, ◌≢◌, ◌∙◌, refl, sym, ap, arith,
  if◌then◌else◌,
}
use yatai_deployment.Decimal.{decimal}
use yatai_deployment.Decimal.Atoi.{decimal-injective, decimal-ne}
use yatai_deployment.Api.Resources.{Bento, BentoRunner}
use yatai_deployment.Api.V2alpha1.{BentoDeployment}
use yatai_deployment.Controllers.Names.{find_index, get_kube_name}

-- Whether a runner has a name.
abbrev pub is_runner : String → List BentoRunner → Bool
is_runner name = any λ runner. runner.name == name

-- The API server, or a runner of the Bento.
abbrev pub IsComponent : Bento → Option String → Type 0
IsComponent bento none = Unit {0}
IsComponent bento (some name) = is_runner name bento.spec.runners ≡ true

find_index-is_runner :
    (idx : ℕ) (name : String) (runners : List BentoRunner)
    → is_runner name runners ≡ true
    → (n : ℕ) × (find_index idx name runners ≡ some n)
unfolding find_index any
find_index-is_runner idx name [] h = cc h
find_index-is_runner idx name (runner ∷ runners) h = elim (Bool-cases (runner.name == name)) [
  | inl same ↦ (idx, ground (arith, same))
  | inr other ↦
      let (n, found) = find_index-is_runner (idx + 1) name runners (ground (arith, h, other)) in
      (n, ground (arith, other, found))
]

find_index-le :
    (idx n : ℕ) (name : String) (runners : List BentoRunner)
    → find_index idx name runners ≡ some n
    → idx ≤ n
unfolding find_index
find_index-le idx n name [] h = cc h
find_index-le idx n name (runner ∷ runners) h =
    grind (arith, find_index-le (idx + 1) n name runners)

-- The index of a runner tells its name.
find_index-injective :
    (idx n : ℕ) (name name' : String) (runners : List BentoRunner)
    → find_index idx name runners ≡ some n
    → find_index idx name' runners ≡ some n
    → name ≡ name'
unfolding find_index
find_index-injective idx n name name' [] h h' = cc h
find_index-injective idx n name name' (runner ∷ runners) h h' = grind (
  arith,
  eq_iff runner.name name,
  eq_iff runner.name name',
  find_index-le (idx + 1) n name runners,
  find_index-le (idx + 1) n name' runners,
  find_index-injective (idx + 1) n name name' runners,
)

-- Two components are the same one or not.
pub component-cases : (x y : Option String) → (x ≡ y) ⊎ (x ≢ y)
component-cases none none = inl refl
component-cases none (some name) = inr λ h. cc h
component-cases (some name) none = inr λ h. cc h
component-cases (some name) (some name') = elim (Bool-cases (name == name')) [
  | inl same ↦ inl (ap some (ground (arith, same, eq_iff name name')))
  | inr other ↦ inr λ h. ground (arith, other, eq_iff name name', h)
]

-- What a component's name adds to that of the resource.
abbrev suffix : Option ℕ → Bool → String
suffix none debug = if debug then "-d" else ""
suffix (some idx) debug = if debug then "-runner-d-" <> decimal idx else "-runner-" <> decimal idx

suffix-ne : (n : ℕ) (debug debug' : Bool) → suffix none debug ≢ suffix (some n) debug'
suffix-ne n true true h = omega (arith, ap len h, len-append "-runner-d-" (decimal n))
suffix-ne n true false h = omega (arith, ap len h, len-append "-runner-" (decimal n))
suffix-ne n false true h = omega (arith, ap len h, len-append "-runner-d-" (decimal n))
suffix-ne n false false h = omega (arith, ap len h, len-append "-runner-" (decimal n))

runner_suffix-ne : (m n : ℕ) → suffix (some m) true ≢ suffix (some n) false
runner_suffix-ne m n h = decimal-ne n ("-" <> decimal m) (
    sym (
      append_cancel_left "-runner-" ("d-" <> decimal m) (decimal n)
        (sym (append_assoc "-runner-" "d-" (decimal m)) ∙ h))
    ∙ append_assoc "d" "-" (decimal m))

suffix-injective : (x y : Option ℕ) (debug debug' : Bool) → suffix x debug ≡ suffix y debug' → x ≡ y
suffix-injective none none debug debug' h = refl
suffix-injective none (some n) debug debug' h = absurd (suffix-ne n debug debug' h)
suffix-injective (some m) none debug debug' h = absurd (suffix-ne m debug' debug (sym h))
suffix-injective (some m) (some n) true true h =
    ap some (decimal-injective m n (append_cancel_left "-runner-d-" (decimal m) (decimal n) h))
suffix-injective (some m) (some n) false false h =
    ap some (decimal-injective m n (append_cancel_left "-runner-" (decimal m) (decimal n) h))
suffix-injective (some m) (some n) true false h = absurd (runner_suffix-ne m n h)
suffix-injective (some m) (some n) false true h = absurd (runner_suffix-ne n m (sym h))

abbrev index_of : Bento → Option String → Option ℕ
index_of bento none = none
index_of bento (some name) = find_index 0 name bento.spec.runners

kube_name-suffix :
    (bento_deployment : BentoDeployment) (bento : Bento) (x : Option String) (debug : Bool)
    → get_kube_name bento_deployment bento x debug
      ≡ bento_deployment.meta.name <> suffix (index_of bento x) debug
unfolding get_kube_name
kube_name-suffix bento_deployment bento none true = refl
kube_name-suffix bento_deployment bento none false = sym (append-nil bento_deployment.meta.name)
kube_name-suffix bento_deployment bento (some name) debug =
    ground (arith, append-nil bento_deployment.meta.name)

index_of-injective :
    (bento : Bento) (x y : Option String)
    → IsComponent bento x
    → IsComponent bento y
    → index_of bento x ≡ index_of bento y
    → x ≡ y
index_of-injective bento none none p q h = refl
index_of-injective bento none (some name) p q h =
    let (n, found) = find_index-is_runner 0 name bento.spec.runners q in cc (h, found)
index_of-injective bento (some name) none p q h =
    let (n, found) = find_index-is_runner 0 name bento.spec.runners p in cc (h, found)
index_of-injective bento (some name) (some name') p q h =
    let (n, found) = find_index-is_runner 0 name bento.spec.runners p in
    ap some (find_index-injective 0 n name name' bento.spec.runners found (sym h ∙ found))

-- The names of the objects of a resource, of debug pods or not, differ between its components.
pub kube_name-component :
    (bento_deployment : BentoDeployment) (bento : Bento) (x y : Option String) (debug debug' : Bool)
    → IsComponent bento x
    → IsComponent bento y
    → get_kube_name bento_deployment bento x debug ≡ get_kube_name bento_deployment bento y debug'
    → x ≡ y
kube_name-component bento_deployment bento x y debug debug' p q h =
    index_of-injective bento x y p q (
      suffix-injective (index_of bento x) (index_of bento y) debug debug' (
        append_cancel_left bento_deployment.meta.name (suffix (index_of bento x) debug)
          (suffix (index_of bento y) debug')
          (sym (kube_name-suffix bento_deployment bento x debug)
            ∙ (h ∙ kube_name-suffix bento_deployment bento y debug'))))
