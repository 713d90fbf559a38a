-- ===== src/Analysis/Score.antt =====
-- What a move cost: Eval, Normalized, CentipawnLoss, LossForMove and Classify of
-- pkg/analysis/score.go. A Go int is an integer here; the scores that the worker passes are int32,
-- so no sum or product of these functions leaves an int64.
pub mod Laws
use alekhines_counter_gambit.Base.{Bool, if◌then◌else◌, ◌&&◌}
use alekhines_counter_gambit.Base.Int.{ltb_ℤ, neg_part, pos, pos_part, sub_ℕ, ℤ, ◌*ℤ◌, ◌+ℤ◌, ◌-ℤ◌}
use alekhines_counter_gambit.Base.Text.{Bytes}
use mathlib.Core.Bool.{not}

abbrev pub mate_score : ℤ
mate_score = pos 10000

abbrev pub max_loss : ℤ
max_loss = pos 1000

pub data Quality : Type 0 where
  best excellent good inaccuracy mistake blunder brilliant : Quality

-- An engine verdict, from the side to move's view.
pub record Eval : Type 0 where
  pub best_move : Bytes
  pub score_cp : ℤ
  pub mate : Bool
  pub mate_in : ℤ

abbrev pub negate : ℤ → ℤ
negate a = sub_ℕ (neg_part a) (pos_part a)

unfoldable pub clamp_int : ℤ → ℤ → ℤ → ℤ
clamp_int v lo hi = if ltb_ℤ v lo then lo else if ltb_ℤ hi v then hi else v

unfoldable pub normalized : Eval → ℤ
unfolding clamp_int ◌-ℤ◌ ◌*ℤ◌
normalized e =
    if not e.mate
    then clamp_int e.score_cp (negate mate_score) mate_score
    else if ltb_ℤ (pos 0) e.mate_in
    then mate_score -ℤ e.mate_in *ℤ pos 100
    else if ltb_ℤ e.mate_in (pos 0)
    then negate mate_score -ℤ e.mate_in *ℤ pos 100
    else negate mate_score

unfoldable pub centipawn_loss : Eval → Eval → ℤ
unfolding normalized clamp_int ◌+ℤ◌
centipawn_loss before after =
    let loss = normalized before +ℤ normalized after in
    if ltb_ℤ loss (pos 0) then pos 0 else clamp_int loss (pos 0) max_loss

unfoldable pub loss_for_move : Eval → Eval → Bool → ℤ
unfolding centipawn_loss
loss_for_move before after matched_engine =
    if matched_engine then pos 0 else centipawn_loss before after

abbrev pub leb_ℤ : ℤ → ℤ → Bool
leb_ℤ a b = not (ltb_ℤ b a)

unfoldable pub classify : ℤ → Bool → Bool → Quality
classify loss matched_engine only_good_move =
    if matched_engine && only_good_move
    then brilliant
    else if matched_engine
    then best
    else if leb_ℤ loss (pos 10)
    then excellent
    else if leb_ℤ loss (pos 50)
    then good
    else if leb_ℤ loss (pos 100)
    then inaccuracy
    else if leb_ℤ loss (pos 300)
    then mistake
    else blunder
