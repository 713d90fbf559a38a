-- ===== src/Openingbook/Book/Choice.antt =====
-- Which candidate Move plays: Move and positionKey of pkg/openingbook/book.go.
use alekhines_counter_gambit.Base.{
  Bool-cases, List, Option, [], ap, arith, false, inl, inr, ltb, map, none, refl, some, sym, true,
  ℕ, ◌++◌, ◌+◌, ◌-◌, ◌<◌, ◌^◌, ◌↔◌, ◌∙◌, ◌∷◌, ◌≡◌, ◌≢◌, ◌≤◌,
}
use alekhines_counter_gambit.Base.All.{All, cons, nil}
use alekhines_counter_gambit.Base.Int.{ltb_ℤ, pos, to_int64, ℤ, ◌+ℤ◌, ◌-ℤ◌}
use alekhines_counter_gambit.Base.Text.{Bytes}
use alekhines_counter_gambit.Chess.Board.{Board}
use alekhines_counter_gambit.Chess.Fen.Key.{repetition_key-fen}
use alekhines_counter_gambit.Chess.Fen.Print.{fen}
use alekhines_counter_gambit.Chess.Fen.RoundTrip.{IsPrintable, fields-fen}
use alekhines_counter_gambit.Chess.Outcome.{repetition_key}
use alekhines_counter_gambit.Openingbook.Book.{
  BookMove, Positions, book_move, candidates, choose, pick_from, position_key, sum_weights,
}
use mathlib.Core.Path.{subst}

-- The key of the book and the key of the repetition rule are the same text for the FEN of a position.
pub position_key-fen : (b : Board) → IsPrintable b → position_key (fen b) ≡ repetition_key (fen b)
unfolding position_key
position_key-fen b h = rw (fields-fen b h.letters) (sym (repetition_key-fen b h.letters))

-- A candidate with a weight that is not negative.
abbrev pub weighed : Bytes × ℕ → BookMove
weighed (u, w) = record { uci = u; weight = pos w }

unfoldable pub weight_sum : List (Bytes × ℕ) → ℕ
weight_sum [] = 0
weight_sum ((u, w) ∷ ms) = w + weight_sum ms

+ℤ_pos : (a b : ℕ) → a + b < 2 ^ 63 → to_int64 (pos a +ℤ pos b) ≡ pos (a + b)
unfolding ◌+ℤ◌ to_int64
+ℤ_pos a b h = ground (arith, h)

-ℤ_pos : (a b : ℕ) → a + b < 2 ^ 63 → to_int64 (pos (a + b) -ℤ pos a) ≡ pos b
unfolding ◌-ℤ◌ to_int64
-ℤ_pos a b h = ground (arith, h)

sum_weights-weighed :
    (t : ℕ) (ms : List (Bytes × ℕ))
    → t + weight_sum ms < 2 ^ 63
    → sum_weights (pos t) (map weighed ms) ≡ pos (t + weight_sum ms)
unfolding sum_weights weight_sum
sum_weights-weighed t [] h = ap pos (omega arith)
sum_weights-weighed t ((u, w) ∷ ms) h =
    rw (+ℤ_pos t w (omega (arith, h)), sum_weights)
      (sum_weights-weighed (t + w) ms (omega (arith, h)) ∙ ap pos (omega arith))

weight_sum_nil : weight_sum [] ≡ 0
unfolding weight_sum
weight_sum_nil = refl

pick_here :
    (n : ℤ) (m : BookMove) (ms : List BookMove) → ltb_ℤ n m.weight ≡ true → pick_from n m ms ≡ m.uci
unfolding pick_from
pick_here n m [] h = refl
pick_here n m (m' ∷ ms) h = rw h

pick_later :
    (x s : ℕ) (v : Bytes) (m : BookMove) (ms : List BookMove)
    → x + s < 2 ^ 63
    → pick_from (pos (x + s)) (weighed (v, x)) (m ∷ ms) ≡ pick_from (pos s) m ms
unfolding pick_from
pick_later x s v m ms h =
    let passed : ltb_ℤ (pos (x + s)) (pos x) ≡ false = ground arith in rw (passed, -ℤ_pos x s h)

-- Which candidate the number `r` falls to: each takes as many numbers as its weight, in order.
unfoldable pub share_of : ℕ → List (Bytes × ℕ) → Option Bytes
share_of r [] = none
share_of r ((u, w) ∷ ms) = elim (ltb r w) [ true ↦ some u | false ↦ share_of (r - w) ms ]

-- The whole second loop.
pick : ℤ → List BookMove → Bytes
pick n [] = []
pick n (m ∷ ms) = pick_from n m ms

share_of_later :
    (r w : ℕ) (u : Bytes) (ms : List (Bytes × ℕ))
    → w ≤ r
    → share_of r ((u, w) ∷ ms) ≡ share_of (r - w) ms
unfolding share_of
share_of_later r w u ms h = let e : ltb r w ≡ false = ground (arith, h) in rw (share_of, e) refl

share_of-pick :
    (r : ℕ) (ms : List (Bytes × ℕ))
    → r < weight_sum ms
    → weight_sum ms < 2 ^ 63
    → share_of r ms ≡ some (pick (pos r) (map weighed ms))
unfolding share_of pick weight_sum
share_of-pick r [] h small = absurd (omega (arith, h))
share_of-pick r ((u, w) ∷ []) h small =
    let e : ltb r w ≡ true = ground (arith, h) in
    rw (share_of, e) (ap some (sym (pick_here (pos r) (weighed (u, w)) [] (ground (arith, e)))))
share_of-pick r ((u, w) ∷ m ∷ ms) h small = elim (Bool-cases (ltb r w)) [
  | inl e ↦
      let rest = map weighed (m ∷ ms) in
      rw (share_of, e) (ap some (sym (pick_here (pos r) (weighed (u, w)) rest (ground (arith, e)))))
  | inr e ↦
      let same : w + (r - w) ≡ r = ground (arith, e) in
      share_of_later r w u (m ∷ ms) (ground (arith, e))
      ∙ share_of-pick (r - w) (m ∷ ms) (omega (arith, h, same)) (omega (arith, small))
      ∙ ap some (
          sym (pick_later w (r - w) u (weighed m) (map weighed ms) (omega (arith, h, small, same)))
          ∙ ap (λ n. pick_from (pos n) (weighed (u, w)) (map weighed (m ∷ ms))) same)
]

abbrev pub IsOther : Bytes → Bytes × ℕ → Type 0
IsOther u m = m.0 ≢ u

share_of-other :
    (u : Bytes) (r : ℕ) (ms : List (Bytes × ℕ)) → All (IsOther u) ms → share_of r ms ≢ some u
unfolding share_of
share_of-other u r [] nil h = absurd (cc)
share_of-other u r ((v, x) ∷ ms) (cons o os) h = elim (Bool-cases (ltb r x)) [
  | inl e ↦ o (ground (arith, h, e))
  | inr e ↦ share_of-other u (r - x) ms os (ground (arith, h, e))
]

module _ (u : Bytes) (w : ℕ) (after : List (Bytes × ℕ)) where
  share_of-range :
      (before : List (Bytes × ℕ)) (r : ℕ)
      → weight_sum before ≤ r
      → r < weight_sum before + w
      → share_of r (before ++ (u, w) ∷ after) ≡ some u
  unfolding share_of weight_sum
  share_of-range [] r low high =
      let e : ltb r w ≡ true = ground (arith, high) in rw (share_of, e) refl
  share_of-range ((v, x) ∷ before) r low high =
      let e : ltb r x ≡ false = ground (arith, low) in
      rw (share_of, e)
        (share_of-range before (r - x) (omega (arith, low)) (omega (arith, low, high)))

  range-share_of :
      (before : List (Bytes × ℕ)) (r : ℕ)
      → All (IsOther u) before
      → All (IsOther u) after
      → share_of r (before ++ (u, w) ∷ after) ≡ some u
      → (weight_sum before ≤ r) × (r < weight_sum before + w)
  unfolding share_of weight_sum
  range-share_of [] r nil os h = elim (Bool-cases (ltb r w)) [
    | inl e ↦ (omega arith, ground (arith, e))
    | inr e ↦ absurd (share_of-other u (r - w) after os (ground (arith, h, e)))
  ]
  range-share_of ((v, x) ∷ before) r (cons p ps) os h = elim (Bool-cases (ltb r x)) [
    | inl e ↦ absurd (p (ground (arith, h, e)))
    | inr e ↦
        let (low, high) = range-share_of before (r - x) ps os (ground (arith, h, e)) in
        (ground (arith, low, e), ground (arith, high, e))
  ]

choose-share_of :
    (intn : ℕ → ℕ) (ms : List (Bytes × ℕ))
    → 0 < weight_sum ms
    → weight_sum ms < 2 ^ 63
    → intn (weight_sum ms) < weight_sum ms
    → choose intn (map weighed ms) ≡ share_of (intn (weight_sum ms)) ms
unfolding choose pick
choose-share_of intn [] h small draws =
    absurd (let e : weight_sum [] ≡ 0 = weight_sum_nil in omega (arith, h, e))
choose-share_of intn (m ∷ ms) h small draws =
    let total : sum_weights (pos 0) (map weighed (m ∷ ms)) ≡ pos (weight_sum (m ∷ ms)) =
      sum_weights-weighed 0 (m ∷ ms) (omega (arith, small)) ∙ ap pos (omega arith) in
    let positive : ltb_ℤ (pos 0) (pos (weight_sum (m ∷ ms))) ≡ true = ground (arith, h) in
    rw (total, positive) (sym (share_of-pick (intn (weight_sum (m ∷ ms))) (m ∷ ms) draws small))

-- When the weights of a position's candidates are not negative, and their sum is positive and fits in an
-- int, a candidate of weight `w` whose move no other candidate has is played for exactly `w` of the
-- numbers that the generator can draw below the sum: those that are at least the sum of the weights
-- before it, and less than that sum and `w`.
pub book_move-share :
    (intn : ℕ → ℕ) (positions : Positions) (fen_text : Bytes) (before after : List (Bytes × ℕ))
    (u : Bytes) (w r : ℕ)
    → candidates (position_key fen_text) positions ≡ map weighed (before ++ (u, w) ∷ after)
    → All (IsOther u) before
    → All (IsOther u) after
    → weight_sum (before ++ (u, w) ∷ after) < 2 ^ 63
    → intn (weight_sum (before ++ (u, w) ∷ after)) ≡ r
    → r < weight_sum (before ++ (u, w) ∷ after)
    → (book_move intn (some positions) fen_text ≡ some u)
      ↔ ((weight_sum before ≤ r) × (r < weight_sum before + w))
unfolding book_move
book_move-share intn positions fen_text before after u w r e ps os small draws below =
    let ms = before ++ (u, w) ∷ after in
    let played : book_move intn (some positions) fen_text ≡ share_of r ms =
      ap (choose intn) e
      ∙ choose-share_of intn ms (omega (arith, below)) small
          (subst (λ k. k < weight_sum ms) (sym draws) below)
      ∙ ap (λ k. share_of k ms) draws in
    (
      λ h. range-share_of u w after before r ps os (sym played ∙ h),
      λ (low, high). played ∙ share_of-range u w after before r low high,
    )
