-- ===== src/Hash.antt =====
-- `hash` of controllers/helper.go and of apis/serving/v1alpha3/bentodeployment_conversion.go: the MD5
-- sum of a text in hexadecimal. The sum itself is a parameter.
use yatai_deployment.Base.{
  ℕ, zero, suc, ◌*◌, String, len, List, [], ◌∷◌, ◌≡◌, refl, arith, length, len-append, ◌<>◌,
}
use Prim.Native.Nat.{◌/◌, ◌%◌}

digit_at : List String → ℕ → String
digit_at [] n = "0"
digit_at (d ∷ ds) zero = d
digit_at (d ∷ ds) (suc n) = digit_at ds n

abbrev hex_digits : List String
hex_digits =
    "0" ∷ "1" ∷ "2" ∷ "3" ∷ "4" ∷ "5" ∷ "6" ∷ "7" ∷ "8" ∷ "9" ∷ "a" ∷ "b" ∷ "c" ∷ "d" ∷ "e" ∷ "f"
    ∷ []

-- `hex.EncodeToString`
unfoldable pub encode_to_string : List ℕ → String
unfolding digit_at
encode_to_string [] = ""
encode_to_string (b ∷ bs) =
    digit_at hex_digits (b / 16) <> (digit_at hex_digits (b % 16) <> encode_to_string bs)

unfoldable pub hash : (String → List ℕ) → String → String
unfolding encode_to_string
hash md5_sum text = encode_to_string (md5_sum text)

-- Every listed digit has one byte.
abbrev OneByte : List String → Type 0
OneByte [] = Unit
OneByte (d ∷ ds) = (len d ≡ 1) × OneByte ds

len-digit_at : (ds : List String) (n : ℕ) → OneByte ds → len (digit_at ds n) ≡ 1
unfolding digit_at
len-digit_at [] n h = refl
len-digit_at (d ∷ ds) zero h = h.0
len-digit_at (d ∷ ds) (suc n) h = len-digit_at ds n h.1

hex_digits-OneByte : OneByte hex_digits
hex_digits-OneByte = omega arith

len-encode_to_string : (bs : List ℕ) → len (encode_to_string bs) ≡ 2 * length bs
unfolding encode_to_string
len-encode_to_string [] = refl
len-encode_to_string (b ∷ bs) =
    let high = digit_at hex_digits (b / 16) in
    let low = digit_at hex_digits (b % 16) in
    omega (
      arith,
      len-append high (low <> encode_to_string bs),
      len-append low (encode_to_string bs),
      len-digit_at hex_digits (b / 16) hex_digits-OneByte,
      len-digit_at hex_digits (b % 16) hex_digits-OneByte,
      len-encode_to_string bs,
    )

-- MD5 sums have sixteen bytes, so a hash has 32 characters.
pub len-hash :
    (md5_sum : String → List ℕ)
    → ((t : String) → length (md5_sum t) ≡ 16)
    → (text : String) → len (hash md5_sum text) ≡ 32
unfolding hash
len-hash md5_sum sixteen text = omega (arith, len-encode_to_string (md5_sum text), sixteen text)
