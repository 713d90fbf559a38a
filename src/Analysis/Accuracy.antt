-- ===== src/Analysis/Accuracy.antt =====
-- How accurate a move was: WinPercent, MoveAccuracy, AccuracyFor and AccuracyForMove of
-- pkg/analysis/score.go, over any float64.
use alekhines_counter_gambit.Analysis.Score.{Eval, negate, normalized}
use alekhines_counter_gambit.Analysis.Summary.{Floats}
use alekhines_counter_gambit.Base.{Bool, drop, if◌then◌else◌}
use alekhines_counter_gambit.Base.Text.{codes}

module _ (F : Floats) where
  open F use {
    Float, float_add, float_div, float_exp, float_ltb, float_mul, float_sub, float_zero, literal,
    of_int,
  }

  unfoldable pub win_percent : Float → Float
  win_percent centipawns = float_add (literal (codes "50")) (
      float_mul (literal (codes "50")) (
        float_sub
          (float_div (literal (codes "2")) (
            float_add (literal (codes "1"))
              (float_exp (float_mul (literal (codes "-0.00368208")) centipawns))))
          (literal (codes "1"))))

  unfoldable pub clamp_float : Float → Float → Float → Float
  clamp_float v lo hi = if float_ltb v lo then lo else if float_ltb hi v then hi else v

  unfoldable pub move_accuracy : Float → Float
  unfolding clamp_float
  move_accuracy drop =
      let surrendered = if float_ltb drop float_zero then float_zero else drop in
      clamp_float
        (float_sub
          (float_mul (literal (codes "103.1668"))
            (float_exp (float_mul (literal (codes "-0.04354")) surrendered)))
          (literal (codes "3.1669")))
        float_zero (literal (codes "100"))

  unfoldable pub accuracy_for : Eval → Eval → Float
  unfolding normalized win_percent move_accuracy
  accuracy_for before after = move_accuracy (
      float_sub (win_percent (of_int (normalized before)))
        (win_percent (of_int (negate (normalized after)))))

  unfoldable pub accuracy_for_move : Eval → Eval → Bool → Float
  unfolding accuracy_for
  accuracy_for_move before after matched_engine =
      if matched_engine then literal (codes "100") else accuracy_for before after
