-- ===== src/Base/Decimal.antt =====
-- `strconv.Itoa` and `strconv.Atoi` on a 64-bit int.
pub mod RoundTrip
use alekhines_counter_gambit.Base.{
  Bool, Option, [], false, if◌then◌else◌, leb, none, some, suc, true, zero, ℕ, ◌%◌, ◌&&◌, ◌*◌, ◌+◌,
  ◌-◌, ◌/◌, ◌==◌, ◌^◌, ◌∷◌,
}
use alekhines_counter_gambit.Base.Int.{negsuc, pos, sub_ℕ, ℤ}
use alekhines_counter_gambit.Base.Text.{Bytes}

abbrev pub max_int : ℕ
max_int = 2 ^ 63 - 1

-- The digits of `n` before `out`. Each round divides `n` by ten, so 20 rounds are enough below 10 ^ 20.
unfoldable pub digits : ℕ → ℕ → Bytes → Bytes
digits zero n out = out
digits (suc fuel) n out = elim (n == 0) [
  | true ↦ out
  | false ↦ digits fuel (n / 10) ((b'0' + n % 10) ∷ out)
]

-- `Itoa` of an int that is not negative.
unfoldable pub itoa : ℕ → Bytes
unfolding digits
itoa n = if n == 0 then b'0' ∷ [] else digits 20 n []

-- `Itoa` of any int.
unfoldable pub itoa_int : ℤ → Bytes
unfolding itoa
itoa_int (pos n) = itoa n
itoa_int (negsuc n) = b'-' ∷ itoa (suc n)

abbrev pub is_digit : ℕ → Bool
is_digit c = leb b'0' c && leb c b'9'

-- The number that digits spell behind `n`.
unfoldable pub scan : ℕ → Bytes → Option ℕ
scan n [] = some n
scan n (c ∷ s) = if is_digit c then scan (n * 10 + (c - b'0')) s else none

-- One digit or more.
unfoldable pub scan_digits : Bytes → Option ℕ
unfolding scan
scan_digits [] = none
scan_digits (c ∷ s) = scan 0 (c ∷ s)

abbrev pub in_bounds : Bool → Option ℕ → Option ℤ
in_bounds negative none = none
in_bounds false (some n) = if leb n max_int then some (pos n) else none
in_bounds true (some n) = if leb n (max_int + 1) then some (sub_ℕ 0 n) else none

-- `Atoi`: a sign, if any, then digits, in the range of an int64. `none` is an error.
unfoldable pub atoi : Bytes → Option ℤ
unfolding scan_digits
atoi [] = none
atoi (c ∷ s) =
    if c == b'-'
    then in_bounds true (scan_digits s)
    else if c == b'+'
    then in_bounds false (scan_digits s)
    else in_bounds false (scan_digits (c ∷ s))
