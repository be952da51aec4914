-- ===== src/Decimal.antt =====
-- Numbers in decimal: `fmt.Sprintf("%d", n)` and `strconv.Atoi`.
pub mod Atoi
use Prim.Native.Char.{Char}
use Prim.Native.Nat.{◌/◌, ◌%◌}
use Prim.Native.String
use yatai_deployment.Base.{
  ℕ, zero, suc, ◌+◌, ◌<◌, String, ◌<>◌, ltb, if◌then◌else◌, ◌≡◌, refl, arith,
}
use yatai_deployment.Base.Int.{ℤ, pos, negsuc}

unfoldable digit : ℕ → Char
digit zero = "0"
digit (suc zero) = "1"
digit (suc (suc zero)) = "2"
digit (suc (suc (suc zero))) = "3"
digit (suc (suc (suc (suc zero)))) = "4"
digit (suc (suc (suc (suc (suc zero))))) = "5"
digit (suc (suc (suc (suc (suc (suc zero)))))) = "6"
digit (suc (suc (suc (suc (suc (suc (suc zero))))))) = "7"
digit (suc (suc (suc (suc (suc (suc (suc (suc zero)))))))) = "8"
digit n = "9"

-- The digits of `n` before those of `rest`; the fuel bounds their number.
digits : ℕ → ℕ → String → String
unfolding digit
digits zero n rest = rest
digits (suc fuel) n rest =
    let more = digits fuel (n / 10) (String.◌∷◌ (digit (n % 10)) rest) in
    if ltb n 10 then String.◌∷◌ (digit n) rest else more

-- A number has no more digits than its value and one.
unfoldable pub decimal : ℕ → String
unfolding digits
decimal n = digits (n + 1) n ""

-- `fmt.Sprintf("%d", x)` of a number that may be negative.
unfoldable pub decimal_int : ℤ → String
unfolding decimal
decimal_int (pos n) = decimal n
decimal_int (negsuc n) = "-" <> decimal (suc n)

pub decimal_int-pos : (n : ℕ) → decimal_int (pos n) ≡ decimal n
unfolding decimal_int
decimal_int-pos n = refl

-- Any fuel above the number gives the same digits.
digits_fuel :
    (fuel fuel' n : ℕ) (rest : String)
    → n < fuel
    → n < fuel'
    → digits fuel n rest ≡ digits fuel' n rest
unfolding digits
digits_fuel zero fuel' n rest h h' = absurd (omega (arith, h))
digits_fuel (suc fuel) zero n rest h h' = absurd (omega (arith, h'))
digits_fuel (suc fuel) (suc fuel') n rest h h' =
    ground (arith, h, h', digits_fuel fuel fuel' (n / 10) (String.◌∷◌ (digit (n % 10)) rest))

-- The fuel that `decimal` gives is enough.
decimal_fuel : (fuel n : ℕ) → n < fuel → digits fuel n "" ≡ decimal n
unfolding decimal
decimal_fuel fuel n h = digits_fuel fuel (n + 1) n "" h (omega arith)

decimal_0 : decimal 0 ≡ "0"
unfolding decimal
decimal_0 = refl

decimal_3001 : decimal 3001 ≡ "3001"
unfolding decimal
decimal_3001 = refl
