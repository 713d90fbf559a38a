-- ===== src/Analysis/Summary/Laws.antt =====
-- What the counts of a report add up to: Summarise of pkg/analysis/score.go.
use alekhines_counter_gambit.Analysis.Score.{Quality, best}
use alekhines_counter_gambit.Analysis.Summary.{
  Floats, MoveReport, Totals, add_move, bool_eq, is_blunder, is_inaccuracy, is_mistake, no_totals,
  sum_moves, summarise,
}
use alekhines_counter_gambit.Base.{
  Bool, Bool-cases, List, [], arith, false, if◌then◌else◌, inl, inr, length, true, ℕ, ◌+◌, ◌∷◌, ◌≡◌,
  ◌≤◌,
}

one_grade : (q : Quality) → is_blunder q + is_mistake q + is_inaccuracy q ≤ 1
one_grade best = omega arith
one_grade _ = omega arith

module _ (F : Floats) where
  -- The moves of one side.
  unfoldable pub moves_of : Bool → List (MoveReport F) → List (MoveReport F)
  moves_of side [] = []
  moves_of side (m ∷ ms) =
      let rest = moves_of side ms in if bool_eq m.white_to_move side then m ∷ rest else rest

  -- How many moves of a list pass a test.
  unfoldable pub count_moves : (MoveReport F → ℕ) → List (MoveReport F) → ℕ
  count_moves f [] = 0
  count_moves f (m ∷ ms) = f m + count_moves f ms

  sum_moves_counts :
      (ms : List (MoveReport F)) (side : Bool) (t : Totals F)
      → let u = sum_moves F ms side t in
        (u.blunders ≡ t.blunders + count_moves (λ m. is_blunder m.quality) (moves_of side ms))
        × (u.mistakes ≡ t.mistakes + count_moves (λ m. is_mistake m.quality) (moves_of side ms))
        × (u.inaccuracies
            ≡ t.inaccuracies + count_moves (λ m. is_inaccuracy m.quality) (moves_of side ms))
        × (u.move_count ≡ t.move_count + length (moves_of side ms))
        × (u.matched
            ≡ t.matched + count_moves (λ m. if m.matched_engine then 1 else 0) (moves_of side ms))
  unfolding sum_moves moves_of count_moves add_move
  sum_moves_counts [] side t = omega arith
  sum_moves_counts (m ∷ ms) side t = elim (Bool-cases (bool_eq m.white_to_move side)) [
    | inl e ↦ rw (e, sum_moves) (omega (arith, sum_moves_counts ms side (add_move F m t)))
    | inr e ↦ rw (e, sum_moves) (sum_moves_counts ms side t)
  ]

  length-moves_of :
      (ms : List (MoveReport F))
      → length (moves_of true ms) + length (moves_of false ms) ≡ length ms
  unfolding moves_of
  length-moves_of [] = omega arith
  length-moves_of (m ∷ ms) = ground (arith, length-moves_of ms)

  graded_once :
      (ms : List (MoveReport F))
      → count_moves (λ m. is_blunder m.quality) ms
          + count_moves (λ m. is_mistake m.quality) ms
          + count_moves (λ m. is_inaccuracy m.quality) ms
        ≤ length ms
  unfolding count_moves
  graded_once [] = omega arith
  graded_once (m ∷ ms) = omega (arith, graded_once ms, one_grade m.quality)

  -- The counts of a report are those of the side's moves, each move is graded once, and the reports on
  -- the two sides share all moves out between them.
  pub summarise_counts :
      (ms : List (MoveReport F)) (side : Bool)
      → let r = summarise F ms side in
        (r.blunders ≡ count_moves (λ m. is_blunder m.quality) (moves_of side ms))
        × (r.mistakes ≡ count_moves (λ m. is_mistake m.quality) (moves_of side ms))
        × (r.inaccuracies ≡ count_moves (λ m. is_inaccuracy m.quality) (moves_of side ms))
        × (r.blunders + r.mistakes + r.inaccuracies ≤ r.move_count)
        × ((summarise F ms true).move_count + (summarise F ms false).move_count ≡ length ms)
  unfolding summarise
  summarise_counts ms side = (
    omega (arith, sum_moves_counts ms side (no_totals F)),
    omega (arith, sum_moves_counts ms side (no_totals F)),
    omega (arith, sum_moves_counts ms side (no_totals F)),
    omega (arith, sum_moves_counts ms side (no_totals F), graded_once (moves_of side ms)),
    omega (
      arith,
      sum_moves_counts ms true (no_totals F),
      sum_moves_counts ms false (no_totals F),
      length-moves_of ms,
    ),
  )
