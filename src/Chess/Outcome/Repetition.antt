-- ===== src/Chess/Outcome/Repetition.antt =====
-- Threefold repetition: threefold and repetitionKey of pkg/chess/outcome.go.
use alekhines_counter_gambit.Base.{
  Bool-cases, List, [], arith, false, if◌then◌else◌, inl, inr, leb, true, ℕ, ◌+◌, ◌<◌, ◌↔◌, ◌∷◌,
  ◌≡◌, ◌≤◌,
}
use alekhines_counter_gambit.Base.Text.{Bytes, bytes_eq}
use alekhines_counter_gambit.Base.Text.Words.{bytes_eq_refl, bytes_eq-≡}
use alekhines_counter_gambit.Chess.Outcome.{
  Counts, count_of, increment, repetition_key, threefold, threefold_from,
}

-- How many positions of a history have the key `k`.
pub occurrences : Bytes → List Bytes → ℕ
occurrences k [] = 0
occurrences k (f ∷ fs) = (if bytes_eq (repetition_key f) k then 1 else 0) + occurrences k fs

bytes_eq-trans_ne : (j k l : Bytes) → bytes_eq j k ≡ true → bytes_eq j l ≡ bytes_eq k l
bytes_eq-trans_ne j k l h = rw (bytes_eq-≡ j k h)

count_of-increment :
    (j k : Bytes) (m : Counts)
    → count_of k (increment j m) ≡ (if bytes_eq j k then 1 else 0) + count_of k m
unfolding count_of increment
count_of-increment j k [] = omega arith
count_of-increment j k ((i, n) ∷ m) = elim (Bool-cases (bytes_eq i j)) [
  | inl e ↦ ground (arith, bytes_eq-trans_ne i j k e)
  | inr e ↦
      ground (arith, count_of-increment j k m, bytes_eq-≡ i k, bytes_eq-≡ j k, bytes_eq_refl j)
]

-- Every key is counted less than three times.
abbrev AllBelow : Counts → Type 0
AllBelow m = (k : Bytes) → count_of k m < 3

threefold_from_sound :
    (m : Counts) (fs : List Bytes)
    → threefold_from m fs ≡ true
    → (k : Bytes) × (3 ≤ count_of k m + occurrences k fs)
unfolding threefold_from occurrences
threefold_from_sound m [] h = absurd (cc)
threefold_from_sound m (f ∷ fs) h =
    let k = repetition_key f in
    elim (Bool-cases (leb 3 (count_of k (increment k m)))) [
      | inl e ↦ (k, ground (arith, count_of-increment k k m, bytes_eq_refl k))
      | inr e ↦
          let (j, l) = threefold_from_sound (increment k m) fs (ground arith) in
          (j, omega (arith, l, count_of-increment k j m))
    ]

threefold_from_complete :
    (m : Counts) (fs : List Bytes) (k : Bytes)
    → AllBelow m
    → 3 ≤ count_of k m + occurrences k fs
    → threefold_from m fs ≡ true
unfolding threefold_from occurrences
threefold_from_complete m [] k below h = absurd (omega (arith, below k))
threefold_from_complete m (f ∷ fs) k below h =
    let j = repetition_key f in
    elim (Bool-cases (leb 3 (count_of j (increment j m)))) [
      | inl e ↦ rw e
      | inr e ↦ rw e (
          threefold_from_complete (increment j m) fs k (still_below j e)
            (omega (arith, count_of-increment j k m)))
    ]
  where
    still_below :
        (j : Bytes) → leb 3 (count_of j (increment j m)) ≡ false → AllBelow (increment j m)
    still_below j e i = elim (Bool-cases (bytes_eq j i)) [
      | inl same ↦ let p = bytes_eq-≡ j i same in rw (← p) (ground arith)
      | inr other ↦ ground (arith, count_of-increment j i m, below i)
    ]

-- A history is reported as a repetition exactly when some key, the FEN without its clocks, is that of
-- three positions of it or more.
pub threefold_iff :
    (history : List Bytes)
    → (threefold history ≡ true) ↔ ((k : Bytes) × (3 ≤ occurrences k history))
unfolding threefold count_of
threefold_iff history = (
  λ h. let (k, l) = threefold_from_sound [] history h in (k, omega (arith, l)),
  λ h. threefold_from_complete [] history h.0 (λ k. omega arith) (omega (arith, h.1)),
)
