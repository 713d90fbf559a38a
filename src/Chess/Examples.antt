-- ===== src/Chess/Examples.antt =====
-- The laws of the rules of chess at concrete positions, moves and texts of pkg/chess/chess_test.go.
use alekhines_counter_gambit.Base.{
  List, [], arith, false, none, refl, replicate, set, some, true, ◌<◌, ◌↔◌, ◌∷◌, ◌≡◌, ◌≤◌,
}
use alekhines_counter_gambit.Base.All.{All}
use alekhines_counter_gambit.Base.Result.{ok}
use alekhines_counter_gambit.Base.Text.{Bytes, codes}
use alekhines_counter_gambit.Chess.Apply.{
  apply_move_unchecked, en_passant_after, half_move_after, squares_after, update_castling_rights,
}
use alekhines_counter_gambit.Chess.Apply.Clocks.{update_castling_rights_lem}
use alekhines_counter_gambit.Chess.Attack.{in_check, is_attacked}
use alekhines_counter_gambit.Chess.Board.{Board, IsWellFormed, king_square}
use alekhines_counter_gambit.Chess.Fen.Game.{parse_fen-fen-apply_uci}
use alekhines_counter_gambit.Chess.Fen.Key.{SamePosition, repetition_key-fen_iff}
use alekhines_counter_gambit.Chess.Fen.Parse.{new_board, parse_fen, start_fen}
use alekhines_counter_gambit.Chess.Fen.Print.{fen}
use alekhines_counter_gambit.Chess.Fen.RoundTrip.{IsPrintable, parse_fen-fen}
use alekhines_counter_gambit.Chess.Fen.Sound.{parse_fen-IsPrintable}
use alekhines_counter_gambit.Chess.Legal.{apply_move, apply_uci, is_legal, legal_moves}
use alekhines_counter_gambit.Chess.Legal.Game.{IsFewer, IsSafe, Reach-IsSafe, here, played}
use alekhines_counter_gambit.Chess.Legal.Laws.{IsLegalMove, apply_move_ok}
use alekhines_counter_gambit.Chess.Move.{Move, parse_uci_move, uci_string}
use alekhines_counter_gambit.Chess.Move.RoundTrip.{
  IsPromotion, parse_uci_move-uci_string, uci_string-parse_uci_move,
}
use alekhines_counter_gambit.Chess.MoveGen.{pseudo_legal_moves}
use alekhines_counter_gambit.Chess.MoveGen.Landing.{IsSound}
use alekhines_counter_gambit.Chess.MoveGen.Sound.{pseudo_legal_moves-IsSound}
use alekhines_counter_gambit.Chess.Outcome.{
  checkmate, draw, is_insufficient, outcome, repetition_key, stalemate, threefold, white_wins,
}
use alekhines_counter_gambit.Chess.Outcome.Insufficient.{
  IsDead, all_light, bishops_from, count_minors, is_insufficient_iff,
}
use alekhines_counter_gambit.Chess.Outcome.Repetition.{occurrences, threefold_iff}
use alekhines_counter_gambit.Chess.Piece.{
  Piece, bishop, black, empty, king, make_piece, no_piece_type, pawn, queen, rook, white,
}
use alekhines_counter_gambit.Chess.Tests.{start_board, start_parses}

abbrev e2e4 : Move
e2e4 = record { from = 12; to = 28; promotion = no_piece_type }

-- The position after 1. e4.
abbrev pub king_pawn : Board
king_pawn = record {
  squares = set (set start_board.squares 28 (make_piece white pawn)) 12 empty;
  turn = black;
  castling = start_board.castling;
  en_passant = some 20;
  half_move = 0;
  full_move = 1;
}

start-IsPrintable : IsPrintable start_board
unfolding new_board
start-IsPrintable = parse_fen-IsPrintable start_fen start_parses

pub king_pawn_accepted : apply_uci start_board (codes "e2e4") ≡ ok king_pawn
unfolding apply_uci is_legal legal_moves is_attacked apply_move_unchecked squares_after
    update_castling_rights en_passant_after half_move_after
king_pawn_accepted = refl

king_pawn_applied : apply_move start_board e2e4 ≡ ok king_pawn
unfolding apply_move is_legal legal_moves is_attacked apply_move_unchecked squares_after
    update_castling_rights en_passant_after half_move_after
king_pawn_applied = refl

parse_fen-fen-apply_uci_example : parse_fen (fen king_pawn) ≡ ok king_pawn
parse_fen-fen-apply_uci_example =
    parse_fen-fen-apply_uci start_board (codes "e2e4") start-IsPrintable (omega arith) (omega arith)
      king_pawn_accepted

parse_fen-fen_example : parse_fen (fen start_board) ≡ ok start_board
parse_fen-fen_example = parse_fen-fen start_board start-IsPrintable

parse_fen-IsPrintable_example : IsPrintable start_board
unfolding new_board
parse_fen-IsPrintable_example = parse_fen-IsPrintable start_fen start_parses

repetition_key-fen_iff_example :
    (repetition_key (fen start_board) ≡ repetition_key (fen start_board))
    ↔ SamePosition start_board start_board
repetition_key-fen_iff_example =
    repetition_key-fen_iff start_board start_board start-IsPrintable start-IsPrintable

threefold_iff_example :
    (threefold (start_fen ∷ start_fen ∷ start_fen ∷ []) ≡ true)
    ↔ ((k : Bytes) × (3 ≤ occurrences k (start_fen ∷ start_fen ∷ start_fen ∷ [])))
threefold_iff_example = threefold_iff (start_fen ∷ start_fen ∷ start_fen ∷ [])

pseudo_legal_moves-IsSound_example :
    All (IsSound start_board white) (pseudo_legal_moves start_board)
pseudo_legal_moves-IsSound_example = pseudo_legal_moves-IsSound start_board

apply_move_ok_example :
    IsLegalMove start_board e2e4
    × (king_pawn ≡ apply_move_unchecked start_board e2e4)
    × IsWellFormed king_pawn
apply_move_ok_example =
    apply_move_ok start_board e2e4 start-IsPrintable.well_formed king_pawn_applied

start-IsSafe : IsSafe start_board
unfolding is_attacked king_square new_board
start-IsSafe = refl

Reach-IsSafe_example : IsSafe king_pawn × IsFewer start_board.castling king_pawn.castling
Reach-IsSafe_example = Reach-IsSafe start-IsSafe (played (codes "e2e4") here king_pawn_accepted)

parse_uci_move-uci_string_example : parse_uci_move (uci_string e2e4) ≡ ok e2e4
parse_uci_move-uci_string_example = parse_uci_move-uci_string e2e4 (omega arith) (omega arith) tt

e7e8q_parses :
    parse_uci_move (codes "e7e8q") ≡ ok (record { from = 52; to = 60; promotion = queen })
unfolding parse_uci_move
e7e8q_parses = refl

uci_string-parse_uci_move_example :
    (uci_string (record { from = 52; to = 60; promotion = queen }) ≡ codes "e7e8q")
    × (52 < 64)
    × (60 < 64)
    × IsPromotion queen
uci_string-parse_uci_move_example = uci_string-parse_uci_move (codes "e7e8q") e7e8q_parses

update_castling_rights_lem_example :
    let d = update_castling_rights e2e4 (make_piece white pawn) start_board.castling in
    (d.white_king ≡ true) × (d.white_queen ≡ true) × (d.black_king ≡ true) × (d.black_queen ≡ true)
update_castling_rights_lem_example =
    update_castling_rights_lem e2e4 (make_piece white pawn) start_board.castling

-- Black to move, with the king on h8 and the squares given.
abbrev cornered : List Piece → Board
cornered squares = record {
  squares = set (set squares 63 (make_piece black king)) 4 (make_piece white king);
  turn = black;
  castling = record {
    white_king = false;
    white_queen = false;
    black_king = false;
    black_queen = false;
  };
  en_passant = none;
  half_move = 0;
  full_move = 40;
}

-- Rooks on a7 and a8, and a queen on f7.
abbrev mate_board : Board
mate_board =
    cornered (set (set (replicate 64 empty) 48 (make_piece white rook)) 56 (make_piece white rook))

abbrev stalemate_board : Board
stalemate_board = cornered (set (replicate 64 empty) 53 (make_piece white queen))

mate_is_reported : outcome mate_board ≡ (white_wins, checkmate)
unfolding outcome legal_moves is_attacked apply_move_unchecked squares_after update_castling_rights
    en_passant_after half_move_after in_check
mate_is_reported = refl

stalemate_is_reported : outcome stalemate_board ≡ (draw, stalemate)
unfolding outcome legal_moves is_attacked apply_move_unchecked squares_after update_castling_rights
    en_passant_after half_move_after in_check
stalemate_is_reported = refl

-- Two bishops on squares of one color, c1 and f4.
abbrev two_bishops : Board
two_bishops =
    cornered
      (set (set (replicate 64 empty) 2 (make_piece white bishop)) 29 (make_piece black bishop))

is_insufficient_iff_example : (is_insufficient two_bishops ≡ true) ↔ (
    (all_light two_bishops.squares ≡ true)
    × IsDead (count_minors two_bishops.squares) (bishops_from 0 two_bishops.squares))
is_insufficient_iff_example = is_insufficient_iff two_bishops

two_bishops_are_insufficient : is_insufficient two_bishops ≡ true
unfolding is_insufficient
two_bishops_are_insufficient = refl
