-- ===== src/Json.antt =====
-- `json.Marshal` of a `map[string]string`: the keys in order, and the characters that Go escapes.
use Prim.Native.Char.{Char, code}
use Prim.Native.Nat.{Ordering}
use Prim.Native.String.{compare}
use yatai_deployment.Base.{
  ℕ, String, [], ◌∷◌, Bool, ◌<>◌, ltb, leb, ◌&&◌, ◌||◌, ◌≡◌, refl, join, map, if◌then◌else◌,
}
use yatai_deployment.Base.Dict.{Dict}
use yatai_deployment.Hash.{encode_to_string}

has_code : Char → ℕ → Bool
has_code c n = leb n (code c) && leb (code c) n

-- One character, in the form that is safe in HTML too.
escape_char : Char → String
unfolding has_code encode_to_string
escape_char c =
    if has_code c 34
    then "\\\""
    else if has_code c 92
    then "\\\\"
    else if has_code c 10
    then "\\n"
    else if has_code c 13
    then "\\r"
    else if has_code c 9
    then "\\t"
    else if ltb (code c) 32 || (has_code c 60 || (has_code c 62 || has_code c 38))
    then "\\u" <> encode_to_string (0 ∷ code c ∷ [])
    else if has_code c 8232
    then "\\u2028"
    else if has_code c 8233
    then "\\u2029"
    else String.◌∷◌ c ""

escape : String → String
unfolding escape_char
escape String.[] = ""
escape (String.◌∷◌ c s) = escape_char c <> escape s

quote : String → String
unfolding escape
quote s = "\"" <> (escape s <> "\"")

-- Keys are ordered by their bytes, which is the order of the characters' codes.
insert_sorted : String × String → Dict String → Dict String
insert_sorted entry [] = entry ∷ []
insert_sorted entry (other ∷ rest) =
    let later = insert_sorted entry rest in
    elim (compare entry.0 other.0) [ Ordering.gt ↦ other ∷ later | _ ↦ entry ∷ other ∷ rest ]

sort_keys : Dict String → Dict String
unfolding insert_sorted
sort_keys [] = []
sort_keys (entry ∷ rest) = insert_sorted entry (sort_keys rest)

unfoldable pub marshal : Dict String → String
unfolding sort_keys quote join
marshal d =
    "{" <> (join "," (map (λ entry. quote entry.0 <> (":" <> quote entry.1)) (sort_keys d)) <> "}")

marshal-two :
    marshal (("b", "x&y") ∷ ("a", "\"1\"") ∷ []) ≡ "{\"a\":\"\\\"1\\\"\",\"b\":\"x\\u0026y\"}"
unfolding marshal
marshal-two = refl
