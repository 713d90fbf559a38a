-- ===== src/Rating.antt =====
-- Elo ratings: pkg/rating/elo.go, over any float64.
use alekhines_counter_gambit.Analysis.Score.{leb_ℤ, negate}
use alekhines_counter_gambit.Analysis.Summary.{Floats}
use alekhines_counter_gambit.Base.{if◌then◌else◌, ltb, ℕ}
use alekhines_counter_gambit.Base.Int.{pos, ℤ, ◌-ℤ◌}
use alekhines_counter_gambit.Base.Text.{codes}
use alekhines_counter_gambit.Chess.Outcome.{outcome}

pub data RatingOutcome : Type 0 where
  black_won drawn white_won : RatingOutcome

module _ (F : Floats) where
  open F use {
    Float, float_add, float_div, float_ltb, float_mul, float_pow, float_sub, float_zero, floor_int,
    literal, of_int,
  }

  abbrev pub score_of : RatingOutcome → Float
  score_of black_won = float_zero
  score_of drawn = literal (codes "0.5")
  score_of white_won = literal (codes "1.0")

  unfoldable pub k_factor : ℤ → ℕ → Float
  k_factor rating games_played =
      if ltb games_played 30
      then literal (codes "40")
      else if leb_ℤ (pos 2400) rating
      then literal (codes "10")
      else literal (codes "20")

  unfoldable pub expected : ℤ → ℤ → Float
  unfolding ◌-ℤ◌
  expected a b = float_div (literal (codes "1")) (
      float_add (literal (codes "1"))
        (float_pow (literal (codes "10")) (float_div (of_int (b -ℤ a)) (literal (codes "400")))))

  unfoldable pub round_half_away : Float → ℤ
  round_half_away f =
      if float_ltb f float_zero
      then negate (floor_int (float_add (float_sub float_zero f) (literal (codes "0.5"))))
      else floor_int (float_add f (literal (codes "0.5")))

  -- Update
  unfoldable pub rating_update : ℤ → ℤ → RatingOutcome → ℕ → ℕ → ℤ × ℤ
  unfolding k_factor expected round_half_away
  rating_update white_elo black_elo outcome white_games black_games =
      let exp_white = expected white_elo black_elo in
      let exp_black = float_sub (literal (codes "1")) exp_white in
      let score_white = score_of outcome in
      let score_black = float_sub (literal (codes "1")) score_white in
      (
        round_half_away
            (float_mul (k_factor white_elo white_games) (float_sub score_white exp_white)),
        round_half_away
            (float_mul (k_factor black_elo black_games) (float_sub score_black exp_black)),
      )
