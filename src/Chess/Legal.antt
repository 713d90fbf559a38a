-- ===== src/Chess/Legal.antt =====
-- Legal moves and their application: LegalMoves, IsLegal, ApplyMove and ApplyUCI of
-- pkg/chess/movegen.go.
pub mod Laws
pub mod Game
use alekhines_counter_gambit.Base.{Bool, List, [], false, if◌then◌else◌, ◌||◌, ◌∷◌}
use alekhines_counter_gambit.Base.Result.{Result, err, ok}
use alekhines_counter_gambit.Base.Text.{Bytes}
use alekhines_counter_gambit.Chess.Apply.{apply_move_unchecked}
use alekhines_counter_gambit.Chess.Attack.{is_attacked}
use alekhines_counter_gambit.Chess.Board.{Board, int_square, king_square}
use alekhines_counter_gambit.Chess.Move.{Move, MoveError, move_eq, parse_uci_move}
use alekhines_counter_gambit.Chess.MoveGen.{pseudo_legal_moves}
use alekhines_counter_gambit.Chess.Piece.{opposite}
use mathlib.Core.Bool.{not}

-- The mover's king is not attacked in the position after the move.
unfoldable pub leaves_king_safe : Board → Move → Bool
unfolding king_square
leaves_king_safe b m =
    let nb = apply_move_unchecked b m in
    not (is_attacked nb (int_square (king_square nb b.turn)) (opposite b.turn))

-- The loop of LegalMoves.
unfoldable pub keep_safe : Board → List Move → List Move
unfolding leaves_king_safe
keep_safe b [] = []
keep_safe b (m ∷ ms) = let rest = keep_safe b ms in if leaves_king_safe b m then m ∷ rest else rest

unfoldable pub legal_moves : Board → List Move
unfolding keep_safe pseudo_legal_moves
legal_moves b = keep_safe b (pseudo_legal_moves b)

unfoldable pub any_move : Move → List Move → Bool
any_move m [] = false
any_move m (lm ∷ lms) = move_eq lm m || any_move m lms

unfoldable pub is_legal : Board → Move → Bool
unfolding any_move legal_moves
is_legal b m = any_move m (legal_moves b)

-- ErrIllegalMove and ErrInvalidMove.
pub data ChessError : Type 0 where
  illegal_move : Move → ChessError
  invalid_move : MoveError → ChessError

unfoldable pub apply_move : Board → Move → Result ChessError Board
unfolding is_legal
apply_move b m = if is_legal b m then ok (apply_move_unchecked b m) else err (illegal_move m)

abbrev pub apply_parsed : Board → Result MoveError Move → Result ChessError Board
apply_parsed b (ok m) = apply_move b m
apply_parsed b (err e) = err (invalid_move e)

unfoldable pub apply_uci : Board → Bytes → Result ChessError Board
unfolding apply_move parse_uci_move
apply_uci b s = apply_parsed b (parse_uci_move s)
