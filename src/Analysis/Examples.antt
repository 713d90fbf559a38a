-- ===== src/Analysis/Examples.antt =====
-- The laws of the scores at concrete evaluations of pkg/analysis/score_test.go.
use alekhines_counter_gambit.Analysis.Score.{Eval, best, blunder, loss_for_move, normalized}
use alekhines_counter_gambit.Analysis.Score.Laws.{IsCapped, IsNear, loss_for_move_bounds, mate_eval}
use alekhines_counter_gambit.Analysis.Summary.{Floats, MoveReport, summarise}
use alekhines_counter_gambit.Analysis.Summary.Laws.{count_moves, moves_of, summarise_counts}
use alekhines_counter_gambit.Analysis.Worker.{WorkerEnv}
use alekhines_counter_gambit.Base.{List, [], arith, false, none, some, true, ◌+◌, ◌∷◌, ◌≡◌, ◌≤◌}
use alekhines_counter_gambit.Base.Int.{ltb_ℤ, negsuc, pos, ℤ, ◌*ℤ◌, ◌+ℤ◌, ◌-ℤ◌}
use alekhines_counter_gambit.Base.Text.{codes}

abbrev mate_in_two : Eval
mate_in_two = mate_eval (codes "d8h4") (pos 0) (pos 2)

near : IsNear mate_in_two
near = (omega arith, omega arith)

loss_for_move_bounds_example :
    (loss_for_move mate_in_two mate_in_two true ≡ pos 0)
    × IsCapped (pos 19600) (loss_for_move mate_in_two mate_in_two false)
unfolding normalized ◌-ℤ◌ ◌*ℤ◌ ◌+ℤ◌
loss_for_move_bounds_example = loss_for_move_bounds mate_in_two mate_in_two

-- Whole numbers in the place of floats.
abbrev pub whole : Floats
whole = record {
  Float = ℤ;
  float_zero = pos 0;
  float_add = λ x y. x +ℤ y;
  float_div = λ x y. x;
  of_int = λ x. x;
  float_sub = λ x y. x -ℤ y;
  float_mul = λ x y. x *ℤ y;
  float_ltb = ltb_ℤ;
  float_exp = λ x. x;
  literal = λ s. pos 1;
  float_pow = λ x y. x;
  floor_int = λ x. x;
}

abbrev game : List (MoveReport whole)
game =
    record {
      ply = 1;
      uci = codes "g2g4";
      best_uci = codes "e2e4";
      eval_before_cp = pos 30;
      eval_after_cp = pos 220;
      mate_before = false;
      mate_after = false;
      centipawn_loss = pos 250;
      accuracy = pos 10;
      quality = blunder;
      matched_engine = false;
      white_to_move = true;
    }
    ∷ record {
      ply = 2;
      uci = codes "d7d5";
      best_uci = codes "d7d5";
      eval_before_cp = pos 220;
      eval_after_cp = negsuc 219;
      mate_before = false;
      mate_after = false;
      centipawn_loss = pos 0;
      accuracy = pos 100;
      quality = best;
      matched_engine = true;
      white_to_move = false;
    }
    ∷ []

summarise_counts_example :
    ((summarise whole game true).blunders ≡ 1)
    × ((summarise whole game true).mistakes ≡ 0)
    × ((summarise whole game true).inaccuracies ≡ 0)
    × ((summarise whole game true).blunders
          + (summarise whole game true).mistakes
          + (summarise whole game true).inaccuracies
        ≤ (summarise whole game true).move_count)
    × ((summarise whole game true).move_count + (summarise whole game false).move_count ≡ 2)
unfolding moves_of count_moves
summarise_counts_example = summarise_counts whole game true

abbrev pub answering : WorkerEnv whole
answering = record {
  engine = λ f depth. some (mate_eval (codes "e2e4") (pos 30) (pos 0));
  default_depth = 14;
  first_novelty = none;
  integrity_enabled = false;
}
