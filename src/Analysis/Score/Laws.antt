-- ===== src/Analysis/Score/Laws.antt =====
-- Bounds and order of the scores of pkg/analysis/score.go.
use alekhines_counter_gambit.Analysis.Score.{
  Eval, Quality, best, blunder, brilliant, centipawn_loss, clamp_int, classify, excellent, good,
  inaccuracy, loss_for_move, max_loss, mistake, normalized,
}
use alekhines_counter_gambit.Base.{
  Bool, Bool-cases, arith, false, if◌then◌else◌, inl, inr, refl, suc, true, ℕ, ◌<◌, ◌≡◌, ◌≤◌,
}
use alekhines_counter_gambit.Base.Int.{ltb_ℤ, negsuc, pos, ℤ, ◌*ℤ◌, ◌+ℤ◌, ◌-ℤ◌, ◌≤ℤ◌}
use alekhines_counter_gambit.Base.Text.{Bytes}

abbrev pub mate_eval : Bytes → ℤ → ℤ → Eval
mate_eval text cp n = record { best_move = text; score_cp = cp; mate = true; mate_in = n }

-- A forced mate is at most two hundred moves away.
abbrev pub IsNear : Eval → Type 0
IsNear e = (negsuc 199 ≤ℤ e.mate_in) × (e.mate_in ≤ℤ pos 200)

-- Every evaluation is within the mate score, whatever its centipawns, when a mate in it is at most
-- two hundred moves away.
pub normalized_bounds :
    (e : Eval) → IsNear e → (negsuc 9999 ≤ℤ normalized e) × (normalized e ≤ℤ pos 10000)
unfolding normalized clamp_int ◌-ℤ◌ ◌*ℤ◌
normalized_bounds e h = ground arith

-- A nearer mate for the side to move is worth strictly more, and a nearer mate against it strictly less,
-- whatever the engine's centipawns say.
pub normalized_mate_order :
    (s t : Bytes) (c d : ℤ) (m n : ℕ)
    → m < n
    → (ltb_ℤ (normalized (mate_eval t d (pos (suc n)))) (normalized (mate_eval s c (pos (suc m))))
        ≡ true)
      × (ltb_ℤ (normalized (mate_eval s c (negsuc m))) (normalized (mate_eval t d (negsuc n)))
          ≡ true)
unfolding normalized ◌-ℤ◌ ◌*ℤ◌
normalized_mate_order s t c d m n h = (ground arith, ground arith)

-- A side that is mated already is scored no higher than in any evaluation whose distance to mate is at
-- most two hundred.
pub normalized_mated :
    (e f : Eval) → e.mate ≡ true → e.mate_in ≡ pos 0 → IsNear f → normalized e ≤ℤ normalized f
unfolding normalized
normalized_mated e f h0 h1 h =
    let low : normalized e ≡ negsuc 9999 = ground arith in rw low ((normalized_bounds f h).0)

-- The part of a loss that counts: `counted` is `sum` where it is between 0 and 1000, and the nearer end
-- of this range where it is not.
pub data IsCapped (sum counted : ℤ) : Type 0 where
  no_loss : sum ≤ℤ pos 0 → counted ≡ pos 0 → IsCapped sum counted
  whole_loss : pos 0 ≤ℤ sum → sum ≤ℤ pos 1000 → counted ≡ sum → IsCapped sum counted
  capped_loss : pos 1000 ≤ℤ sum → counted ≡ pos 1000 → IsCapped sum counted

-- A move of the engine's costs nothing. Any other costs the sum of the evaluations before and after
-- it, of which each is its own mover's, where that is between 0 and 1000; nothing where it is less, and
-- 1000 where it is more.
pub loss_for_move_bounds :
    (before after : Eval)
    → (loss_for_move before after true ≡ pos 0)
      × IsCapped (normalized before +ℤ normalized after) (loss_for_move before after false)
unfolding loss_for_move centipawn_loss clamp_int
loss_for_move_bounds before after = (refl, cap (normalized before +ℤ normalized after))
  where
    cap : (l : ℤ) → IsCapped l (if ltb_ℤ l (pos 0) then pos 0 else clamp_int l (pos 0) max_loss)
    cap l = elim (Bool-cases (ltb_ℤ l (pos 0))) [
      | inl e ↦ no_loss (ground arith) (ground arith)
      | inr e ↦ elim (Bool-cases (ltb_ℤ (pos 1000) l)) [
        | inl k ↦ capped_loss (ground arith) (ground arith)
        | inr k ↦ whole_loss (ground arith) (ground arith) (ground arith)
      ]
    ]

-- Best to worst, for moves that are not the engine's.
abbrev pub severity : Quality → ℕ
severity brilliant = 0
severity best = 0
severity excellent = 1
severity good = 2
severity inaccuracy = 3
severity mistake = 4
severity blunder = 5

-- A move that cost more is never graded better.
pub classify_monotone :
    (l k : ℤ) (matched only : Bool)
    → l ≤ℤ k
    → severity (classify l matched only) ≤ severity (classify k matched only)
unfolding classify
classify_monotone l k true true h = omega arith
classify_monotone l k true false h = omega arith
classify_monotone l k false only h = ground arith
