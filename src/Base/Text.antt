-- ===== src/Base/Text.antt =====
-- Texts as Go's `string`: lengths count bytes.
use Prim.Native.Char.{Char, code}
use Prim.Native.Nat.{ℕ, compare, Ordering}
use Prim.Native.String.{String, len}
use Prim.Native.String
use mathlib.Core.Path.{◌≡◌, refl}
use mathlib.Core.List.{List, [], ◌∷◌}
use mathlib.Core.Bool.{Bool, true, false, ◌&&◌, ◌||◌}
use text.Mathlib.Text.{◌==◌}
use yatai_deployment.Base.Tests.{leb, if◌then◌else◌}

infixr 65 ◌<>◌
-- Concatenation of texts; `++` is that of lists.
abbrev pub ◌<>◌ : String → String → String
s <> t = String.◌++◌ s t

abbrev char_eq : Char → Char → Bool
char_eq c d = elim (compare (code c) (code d)) [ Ordering.eq ↦ true | _ ↦ false ]

abbrev within : ℕ → ℕ → ℕ → Bool
within low high n = leb low n && leb n high

-- `strings.ReplaceAll(s, old, new)` at an `old` of one character.
unfoldable pub replace_all : String → Char → String → String
replace_all String.[] old new = ""
replace_all (String.◌∷◌ c s) old new =
    let rest = replace_all s old new in
    elim (char_eq c old) [ true ↦ new <> rest | false ↦ String.◌∷◌ c rest ]

-- `unicode.IsSpace`
is_space : Char → Bool
is_space c =
    let n = code c in
    within 9 13 n
    || (within 32 32 n
        || (within 0x85 0x85 n
            || (within 0xa0 0xa0 n
                || (within 0x1680 0x1680 n
                    || (within 0x2000 0x200a n
                        || (within 0x2028 0x2029 n
                            || (within 0x202f 0x202f n
                                || (within 0x205f 0x205f n || within 0x3000 0x3000 n))))))))

trim_left : String → String
unfolding is_space
trim_left String.[] = ""
trim_left (String.◌∷◌ c s) = let rest = trim_left s in if is_space c then rest else String.◌∷◌ c s

trim_right : String → String
unfolding is_space
trim_right String.[] = ""
trim_right (String.◌∷◌ c s) =
    let rest = trim_right s in if rest == "" && is_space c then "" else String.◌∷◌ c rest

-- `strings.TrimSpace`
unfoldable pub trim_space : String → String
unfolding trim_left trim_right
trim_space s = trim_right (trim_left s)

-- `strings.Join`
unfoldable pub join : String → List String → String
join separator [] = ""
join separator (s ∷ []) = s
join separator (s ∷ t ∷ texts) = s <> (separator <> join separator (t ∷ texts))

starts_with : String → String → Bool
starts_with String.[] s = true
starts_with (String.◌∷◌ c prefix) String.[] = false
starts_with (String.◌∷◌ c prefix) (String.◌∷◌ d s) = char_eq c d && starts_with prefix s

-- `strings.Contains(s, part)`
unfoldable pub contains : String → String → Bool
unfolding starts_with
contains String.[] part = starts_with part String.[]
contains (String.◌∷◌ c s) part = starts_with part (String.◌∷◌ c s) || contains s part

contains-inside : contains "a.monitoring=b" "monitoring" ≡ true
unfolding contains
contains-inside = refl

trim_space-both : trim_space " nginx\n" ≡ "nginx"
unfolding trim_space
trim_space-both = refl
