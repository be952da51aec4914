-- ===== src/Decimal/Atoi.antt =====
-- `strconv.Atoi`, and that it reads what `fmt.Sprintf("%d", n)` wrote.
use Prim.Native.Char.{Char, code}
use Prim.Native.Nat.{◌/◌, ◌%◌}
use Prim.Native.String.append
use yatai_deployment.Base.{
  ℕ, zero, suc, ◌+◌, ◌-◌, ◌*◌, ◌<◌, String, Option, none, some, Bool, true, false, ◌&&◌, ltb, leb,
  if◌then◌else◌, Result, ok, err, Error, ◌≡◌, ◌≢◌, ◌<>◌, refl, ap, arith,
}
use yatai_deployment.Base.Int.{ℤ, pos, neg}
use yatai_deployment.Decimal.{digit, digits, decimal}

digit_value : Char → Option ℕ
digit_value c = let n = code c in if leb 48 n && leb n 57 then some (n - 48) else none

-- The number that the digits of a text continue.
natural : ℕ → String → Option ℕ
unfolding digit_value
natural acc String.[] = some acc
natural acc (String.◌∷◌ c s) = elim (digit_value c) [
  | none ↦ none
  | some d ↦ natural (acc * 10 + d) s
]

-- A text of digits, at least one.
unsigned : String → Option ℕ
unfolding natural
unsigned String.[] = none
unsigned (String.◌∷◌ c s) = natural 0 (String.◌∷◌ c s)

-- The number with its sign, if it is one and fits.
in_range : ℕ → (ℕ → ℤ) → Option ℕ → Result ℤ
in_range bound sign none = err (Error.other "invalid syntax")
in_range bound sign (some n) =
    if ltb n bound then ok (sign n) else err (Error.other "value out of range")

-- `strconv.Atoi` on a 64-bit machine.
unfoldable pub atoi : String → Result ℤ
unfolding unsigned in_range
atoi String.[] = err (Error.other "invalid syntax")
atoi (String.◌∷◌ c s) =
    if leb 45 (code c) && leb (code c) 45
    then in_range 9223372036854775809 neg (unsigned s)
    else if leb 43 (code c) && leb (code c) 43
    then in_range 9223372036854775808 pos (unsigned s)
    else in_range 9223372036854775808 pos (unsigned (String.◌∷◌ c s))

natural-digit :
    (acc d : ℕ) (rest : String)
    → d < 10
    → natural acc (String.◌∷◌ (digit d) rest) ≡ natural (acc * 10 + d) rest
unfolding digit natural digit_value
natural-digit acc zero rest h = ap (λ x. natural x rest) (omega arith)
natural-digit acc (suc zero) rest h = refl
natural-digit acc (suc (suc zero)) rest h = refl
natural-digit acc (suc (suc (suc zero))) rest h = refl
natural-digit acc (suc (suc (suc (suc zero)))) rest h = refl
natural-digit acc (suc (suc (suc (suc (suc zero))))) rest h = refl
natural-digit acc (suc (suc (suc (suc (suc (suc zero)))))) rest h = refl
natural-digit acc (suc (suc (suc (suc (suc (suc (suc zero))))))) rest h = refl
natural-digit acc (suc (suc (suc (suc (suc (suc (suc (suc zero)))))))) rest h = refl
natural-digit acc (suc (suc (suc (suc (suc (suc (suc (suc (suc zero))))))))) rest h = refl
natural-digit acc (suc (suc (suc (suc (suc (suc (suc (suc (suc (suc n)))))))))) rest h =
    absurd (omega (arith, h))

natural-digits :
    (fuel n : ℕ) (rest : String) → n < fuel → natural 0 (digits fuel n rest) ≡ natural n rest
unfolding digits
natural-digits zero n rest h = absurd (omega (arith, h))
natural-digits (suc fuel) n rest h = ground (
  arith,
  h,
  natural-digits fuel (n / 10) (String.◌∷◌ (digit (n % 10)) rest),
  natural-digit 0 n rest,
  natural-digit (n / 10) (n % 10) rest,
)

abbrev nonempty : String → Bool
nonempty String.[] = false
nonempty (String.◌∷◌ c s) = true

nonempty-digits :
    (fuel n : ℕ) (rest : String) → nonempty rest ≡ true → nonempty (digits fuel n rest) ≡ true
unfolding digits
nonempty-digits zero n rest h = h
nonempty-digits (suc fuel) n rest h =
    ground (arith, nonempty-digits fuel (n / 10) (String.◌∷◌ (digit (n % 10)) rest) refl)

nonempty-decimal : (n : ℕ) → nonempty (decimal n) ≡ true
unfolding decimal digits
nonempty-decimal n =
    ground (arith, nonempty-digits n (n / 10) (String.◌∷◌ (digit (n % 10)) "") refl)

-- A text that starts with a digit has no sign.
atoi-unsigned :
    (c : Char) (s : String) (n : ℕ)
    → natural 0 (String.◌∷◌ c s) ≡ some n
    → n < 9223372036854775808
    → atoi (String.◌∷◌ c s) ≡ ok (pos n)
unfolding atoi natural digit_value
atoi-unsigned c s n h small = ground arith

atoi-natural :
    (s : String) (n : ℕ)
    → nonempty s ≡ true
    → natural 0 s ≡ some n
    → n < 9223372036854775808
    → atoi s ≡ ok (pos n)
atoi-natural String.[] n there h small = ground arith
atoi-natural (String.◌∷◌ c s) n there h small = atoi-unsigned c s n h small

-- A number below 2 ^ 63 is read back from its decimal text.
pub atoi-decimal : (n : ℕ) → n < 9223372036854775808 → atoi (decimal n) ≡ ok (pos n)
atoi-decimal n h =
    atoi-natural (decimal n) n (nonempty-decimal n)
      (unfold decimal in unfold natural in natural-digits (n + 1) n "" (omega arith)) h

natural-decimal : (n : ℕ) → natural 0 (decimal n) ≡ some n
unfolding decimal natural
natural-decimal n = natural-digits (n + 1) n "" (omega arith)

-- Different numbers have different decimals.
pub decimal-injective : (m n : ℕ) → decimal m ≡ decimal n → m ≡ n
decimal-injective m n h = cc (natural-decimal m, natural-decimal n, ap (natural 0) h)

-- A decimal does not start with a letter `d`.
pub decimal-ne : (n : ℕ) (s : String) → decimal n ≢ "d" <> s
unfolding natural digit_value
decimal-ne n s h =
    let starts : natural 0 ("d" <> s) ≡ none = ap (natural 0) (append.cons "d" "" s) in
    cc (natural-decimal n, ap (natural 0) h, starts)
