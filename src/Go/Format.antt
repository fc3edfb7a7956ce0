-- ===== src/Go/Format.antt =====
-- The part of package fmt that the program's texts rest on: `%d` for an `int`, `host:port` addresses.
use Prim.Native.String.{◌++◌ as cat}
use samsara_components.Prelude.{
  ℕ, zero, suc, ◌/◌, ◌%◌, ◌<◌, String, ◌≡◌, refl, arith, ℤ, pos, negsuc, ltb, ◌==◌, if◌then◌else◌,
}

unfoldable pub digit : ℕ → String
digit n =
    if n == 0
    then "0"
    else if n == 1
    then "1"
    else if n == 2
    then "2"
    else if n == 3
    then "3"
    else if n == 4
    then "4"
    else if n == 5
    then "5"
    else if n == 6
    then "6"
    else if n == 7
    then "7"
    else if n == 8
    then "8"
    else "9"

-- Each round takes one digit, so `n + 1` rounds are more than enough.
unfoldable pub decimal : ℕ → ℕ → String
unfolding digit
decimal zero n = ""
decimal (suc f) n =
    let more = decimal f (n / 10) in if ltb n 10 then digit n else cat more (digit (n % 10))

-- `fmt.Sprint(n)`, `%d`
unfoldable pub itoa : ℤ → String
unfolding decimal
itoa (pos n) = decimal (suc n) n
itoa (negsuc n) = cat "-" (decimal (suc (suc n)) (suc n))

-- `fmt.Sprintf("%s:%d", host, port)`
unfoldable pub host_port : String → ℤ → String
unfolding itoa
host_port host port = cat host (cat ":" (itoa port))

-- The text does not depend on the fuel, once that exceeds the number.
pub decimal_fuel : (f g n : ℕ) → n < f → n < g → decimal f n ≡ decimal g n
unfolding decimal
decimal_fuel zero g n h k = absurd (omega arith)
decimal_fuel (suc f) zero n h k = absurd (omega arith)
decimal_fuel (suc f) (suc g) n h k = ground (arith, decimal_fuel f g (n / 10))

itoa_port : itoa (pos 5672) ≡ "5672"
unfolding itoa
itoa_port = refl
