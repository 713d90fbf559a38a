-- ===== src/Analysis/Summary.antt =====
-- The report on one side's play: MoveReport, PlayerReport and Summarise of pkg/analysis/score.go.
-- The float64 fields are of an abstract type with the operations that pkg/analysis and
-- pkg/rating use.
pub mod Laws
use alekhines_counter_gambit.Analysis.Score.{Quality, blunder, centipawn_loss, inaccuracy, mistake}
use alekhines_counter_gambit.Base.{Bool, List, [], false, if◌then◌else◌, true, ℕ, ◌+◌, ◌==◌, ◌∷◌}
use alekhines_counter_gambit.Base.Int.{pos, ℤ, ◌+ℤ◌}
use alekhines_counter_gambit.Base.Text.{Bytes}
use mathlib.Core.Bool.{not}

-- float64: zero, arithmetic, the order, math.Exp and math.Pow, conversion from int, the int of math.Floor, and a literal by its spelling.
pub record Floats : Type 1 where
  pub Float : Type 0
  pub float_zero : Float
  pub float_add : Float → Float → Float
  pub float_div : Float → Float → Float
  pub of_int : ℤ → Float
  pub float_sub : Float → Float → Float
  pub float_mul : Float → Float → Float
  pub float_ltb : Float → Float → Bool
  pub float_exp : Float → Float
  pub literal : Bytes → Float
  pub float_pow : Float → Float → Float
  pub floor_int : Float → ℤ

pub record MoveReport (F : Floats) : Type 0 where
  pub ply : ℕ
  pub uci : Bytes
  pub best_uci : Bytes
  pub eval_before_cp : ℤ
  pub eval_after_cp : ℤ
  pub centipawn_loss : ℤ
  pub accuracy : F.Float
  pub quality : Quality
  pub matched_engine : Bool
  pub mate_before : Bool
  pub mate_after : Bool
  pub white_to_move : Bool

pub record PlayerReport (F : Floats) : Type 0 where
  pub engine_match_rate : F.Float
  pub avg_centipawn_loss : F.Float
  pub accuracy : F.Float
  pub blunders : ℕ
  pub mistakes : ℕ
  pub inaccuracies : ℕ
  pub move_count : ℕ

-- The variables of the loop.
pub record Totals (F : Floats) : Type 0 where
  pub blunders : ℕ
  pub mistakes : ℕ
  pub inaccuracies : ℕ
  pub move_count : ℕ
  pub total_loss : ℤ
  pub total_accuracy : F.Float
  pub matched : ℕ

abbrev pub bool_eq : Bool → Bool → Bool
bool_eq true b = b
bool_eq false b = not b

-- 1 for a move of that quality.
abbrev pub is_blunder : Quality → ℕ
is_blunder blunder = 1
is_blunder _ = 0

abbrev pub is_mistake : Quality → ℕ
is_mistake mistake = 1
is_mistake _ = 0

abbrev pub is_inaccuracy : Quality → ℕ
is_inaccuracy inaccuracy = 1
is_inaccuracy _ = 0

module _ (F : Floats) where
  open F use {float_zero, float_add, float_div, of_int}

  abbrev pub no_totals : Totals F
  no_totals = record {
    blunders = 0;
    mistakes = 0;
    inaccuracies = 0;
    move_count = 0;
    total_loss = pos 0;
    total_accuracy = float_zero;
    matched = 0;
  }

  -- The body of the loop for a move of the side.
  unfoldable pub add_move : MoveReport F → Totals F → Totals F
  unfolding ◌+ℤ◌
  add_move m t = record {
    blunders = t.blunders + is_blunder m.quality;
    mistakes = t.mistakes + is_mistake m.quality;
    inaccuracies = t.inaccuracies + is_inaccuracy m.quality;
    move_count = t.move_count + 1;
    total_loss = t.total_loss +ℤ m.centipawn_loss;
    total_accuracy = float_add t.total_accuracy m.accuracy;
    matched = t.matched + (if m.matched_engine then 1 else 0);
  }

  unfoldable pub sum_moves : List (MoveReport F) → Bool → Totals F → Totals F
  unfolding add_move
  sum_moves [] side t = t
  sum_moves (m ∷ ms) side t =
      sum_moves ms side (if bool_eq m.white_to_move side then add_move m t else t)

  -- The averages over the moves of the side; with none the report is all zero.
  unfoldable pub summarise : List (MoveReport F) → Bool → PlayerReport F
  unfolding sum_moves
  summarise ms side =
      let t = sum_moves ms side no_totals in
      let n = of_int (pos t.move_count) in
      record {
        engine_match_rate =
            if t.move_count == 0 then float_zero else float_div (of_int (pos t.matched)) n;
        avg_centipawn_loss =
            if t.move_count == 0 then float_zero else float_div (of_int t.total_loss) n;
        accuracy = if t.move_count == 0 then float_zero else float_div t.total_accuracy n;
        blunders = t.blunders;
        mistakes = t.mistakes;
        inaccuracies = t.inaccuracies;
        move_count = t.move_count;
      }
