-- ===== src/Chess/Outcome/Laws.antt =====
-- When a game is over, and how: Outcome and OutcomeWithHistory of pkg/chess/outcome.go, by the moves that
-- ApplyMove of pkg/chess/movegen.go accepts.
use alekhines_counter_gambit.Base.{List, false, true, ◌<◌, ◌≡◌, ◌≤◌}
use alekhines_counter_gambit.Base.All.{All}
use alekhines_counter_gambit.Base.Result.{err, ok}
use alekhines_counter_gambit.Base.Text.{Bytes}
use alekhines_counter_gambit.Chess.Attack.{in_check}
use alekhines_counter_gambit.Chess.Board.{Board}
use alekhines_counter_gambit.Chess.Legal.{apply_move, illegal_move}
use alekhines_counter_gambit.Chess.Move.{Move}
use alekhines_counter_gambit.Chess.Outcome.{
  Verdict, black_wins, checkmate, draw, fifty_move, in_progress, insufficient_material,
  is_insufficient, ongoing, stalemate, threefold, threefold_repetition, white_wins,
}
use alekhines_counter_gambit.Chess.Piece.{black, white}

-- ApplyMove accepts some move; and it refuses every move.
abbrev pub CanMove : Board → Type 0
CanMove b = (m : Move) × (nb : Board) × (apply_move b m ≡ ok nb)

abbrev pub IsStuck : Board → Type 0
IsStuck b = (m : Move) → apply_move b m ≡ err (illegal_move m)

-- The verdicts of a position behind a history, each with its conditions.
pub data IsVerdict (b : Board) (history : List Bytes) : Verdict → Type 0 where
  white_is_mated :
      b.turn ≡ white → IsStuck b → in_check b ≡ true → IsVerdict b history (black_wins, checkmate)
  black_is_mated :
      b.turn ≡ black → IsStuck b → in_check b ≡ true → IsVerdict b history (white_wins, checkmate)
  stalemated : IsStuck b → in_check b ≡ false → IsVerdict b history (draw, stalemate)
  lacks_material :
      CanMove b → is_insufficient b ≡ true → IsVerdict b history (draw, insufficient_material)
  fifty_moves :
      CanMove b
      → is_insufficient b ≡ false
      → 100 ≤ b.half_move
      → IsVerdict b history (draw, fifty_move)
  repeated :
      CanMove b
      → is_insufficient b ≡ false
      → b.half_move < 100
      → threefold history ≡ true
      → IsVerdict b history (draw, threefold_repetition)
  goes_on :
      CanMove b
      → is_insufficient b ≡ false
      → b.half_move < 100
      → threefold history ≡ false
      → IsVerdict b history (in_progress, ongoing)
