-- ===== src/Base/Decimal/RoundTrip.antt =====
-- A number is read back from its decimal digits.
use alekhines_counter_gambit.Base.{
  Bool-cases, [], arith, false, inl, inr, refl, some, suc, zero, ℕ, ◌%◌, ◌+◌, ◌/◌, ◌<◌, ◌==◌, ◌^◌,
  ◌∙◌, ◌∷◌, ◌≡◌, ◌≢◌, ◌≤◌,
}
use alekhines_counter_gambit.Base.Decimal.{atoi, digits, itoa, itoa_int, max_int, scan, scan_digits}
use alekhines_counter_gambit.Base.Int.{negsuc, pos, ℤ}
use alekhines_counter_gambit.Base.Text.{Bytes}
use alekhines_counter_gambit.Base.Text.Words.{Above}
use native.Mathlib.Nat.{pow-suc}

scan-digit : (n : ℕ) (out : Bytes) → scan (n / 10) ((b'0' + n % 10) ∷ out) ≡ scan n out
unfolding scan
scan-digit n out = ground arith

scan-digits : (fuel n : ℕ) (out : Bytes) → n < 10 ^ fuel → scan 0 (digits fuel n out) ≡ scan n out
unfolding digits
scan-digits zero n out h = let e : n ≡ 0 = omega arith in rw e
scan-digits (suc fuel) n out h = elim (Bool-cases (n == 0)) [
  | inl e ↦ rw (e, digits) (let z : n ≡ 0 = ground arith in rw z)
  | inr e ↦
      rw (e, digits)
        (scan-digits fuel (n / 10) ((b'0' + n % 10) ∷ out) (omega (arith, pow-suc 10 fuel))
          ∙ scan-digit n out)
]

Above-digits : (fuel n : ℕ) (out : Bytes) → Above b'0' out → Above b'0' (digits fuel n out)
unfolding digits
Above-digits zero n out h = h
Above-digits (suc fuel) n out h = elim (Bool-cases (n == 0)) [
  | inl e ↦ rw (e, digits) h
  | inr e ↦ rw (e, digits) (Above-digits fuel (n / 10) ((b'0' + n % 10) ∷ out) (omega arith, h))
]

digits-ne-nil : (fuel n : ℕ) (out : Bytes) → out ≢ [] → digits fuel n out ≢ []
unfolding digits
digits-ne-nil zero n out h = h
digits-ne-nil (suc fuel) n out h = elim (Bool-cases (n == 0)) [
  | inl e ↦ rw (e, digits) h
  | inr e ↦ rw (e, digits) (digits-ne-nil fuel (n / 10) ((b'0' + n % 10) ∷ out) (λ p. cc))
]

pub Above-itoa : (n : ℕ) → Above b'0' (itoa n)
unfolding itoa
Above-itoa n = elim (Bool-cases (n == 0)) [
  | inl e ↦ rw e (omega arith, tt)
  | inr e ↦ rw e (Above-digits 20 n [] tt)
]

digits_pos : (n : ℕ) → (n == 0) ≡ false → digits 20 n [] ≢ []
unfolding digits
digits_pos n e = rw (e, digits) (digits-ne-nil 19 (n / 10) ((b'0' + n % 10) ∷ []) (λ p. cc))

pub itoa-ne-nil : (n : ℕ) → itoa n ≢ []
unfolding itoa
itoa-ne-nil n = elim (Bool-cases (n == 0)) [
  | inl e ↦ rw e (λ p. cc)
  | inr e ↦ rw e (digits_pos n e)
]

scan_digits-scan : (s : Bytes) → s ≢ [] → scan_digits s ≡ scan 0 s
unfolding scan_digits
scan_digits-scan [] h = absurd (h refl)
scan_digits-scan (c ∷ s) h = refl

scan-itoa : (n : ℕ) → n < 10 ^ 20 → scan 0 (itoa n) ≡ some n
unfolding scan itoa
scan-itoa n h = elim (Bool-cases (n == 0)) [
  | inl e ↦ rw e (let z : n ≡ 0 = ground arith in rw z)
  | inr e ↦ rw e (scan-digits 20 n [] h)
]

scan_digits-itoa : (n : ℕ) → n ≤ max_int + 1 → scan_digits (itoa n) ≡ some n
scan_digits-itoa n h = scan_digits-scan (itoa n) (itoa-ne-nil n) ∙ scan-itoa n (omega arith)

atoi_unsigned :
    (s : Bytes) (n : ℕ)
    → Above b'0' s
    → scan_digits s ≡ some n
    → n ≤ max_int
    → atoi s ≡ some (pos n)
unfolding atoi
atoi_unsigned [] n a e h = absurd (cc)
atoi_unsigned (c ∷ s) n (hc, hs) e h = ground arith

-- Atoi reads back what Itoa prints, for every int that is not negative.
pub atoi-itoa : (n : ℕ) → n ≤ max_int → atoi (itoa n) ≡ some (pos n)
atoi-itoa n h = atoi_unsigned (itoa n) n (Above-itoa n) (scan_digits-itoa n (omega arith)) h

-- An int64.
abbrev pub IsInt : ℤ → Type 0
IsInt (pos n) = n ≤ max_int
IsInt (negsuc n) = n ≤ max_int

-- Atoi reads back what Itoa prints, for every int.
pub atoi-itoa_int : (i : ℤ) → IsInt i → atoi (itoa_int i) ≡ some i
unfolding itoa_int atoi
atoi-itoa_int (pos n) h = atoi-itoa n h
atoi-itoa_int (negsuc n) h = ground (arith, scan_digits-itoa (suc n) (omega arith))
