-- ===== src/Base/Decimal.antt =====
-- strconv.Itoa and the verb %d.
use Prim.Native.Nat.{ℕ, zero, suc, ◌/◌, ◌%◌}
use Prim.Native.String.{String, ◌++◌ as concat}
use camblet.Base.Tests.{nat_eq, if◌then◌else◌}
use camblet.Base.Int.{ℤ, pos, negsuc}

abbrev digit : ℕ → String
digit d =
    if nat_eq d 0
    then "0"
    else if nat_eq d 1
    then "1"
    else if nat_eq d 2
    then "2"
    else if nat_eq d 3
    then "3"
    else if nat_eq d 4
    then "4"
    else if nat_eq d 5
    then "5"
    else if nat_eq d 6
    then "6"
    else if nat_eq d 7
    then "7"
    else if nat_eq d 8
    then "8"
    else "9"

-- The fuel n is enough for n.
digits_onto : ℕ → ℕ → String → String
digits_onto zero n low = low
digits_onto (suc fuel) n low =
    let higher = digits_onto fuel (n / 10) (concat (digit (n % 10)) low) in
    if nat_eq n 0 then low else higher

unfoldable pub itoa_nat : ℕ → String
unfolding digits_onto
itoa_nat n = if nat_eq n 0 then "0" else digits_onto n n ""

unfoldable pub itoa : ℤ → String
unfolding itoa_nat
itoa (pos n) = itoa_nat n
itoa (negsuc n) = concat "-" (itoa_nat (suc n))
