-- ===== src/Chess/San/Examples.antt =====
-- SAN on positions like those of pkg/chess/san_test.go.
use alekhines_counter_gambit.Base.{arith, false, none, refl, replicate, set, true, ◌&&◌, ◌≡◌}
use alekhines_counter_gambit.Base.All.{All}
use alekhines_counter_gambit.Base.Text.{codes}
use alekhines_counter_gambit.Chess.Apply.{
  apply_move_unchecked, en_passant_after, half_move_after, squares_after, update_castling_rights,
}
use alekhines_counter_gambit.Chess.Attack.{in_check, is_attacked}
use alekhines_counter_gambit.Chess.Board.{Board}
use alekhines_counter_gambit.Chess.Legal.{legal_moves}
use alekhines_counter_gambit.Chess.Move.{Move}
use alekhines_counter_gambit.Chess.Piece.{
  black, empty, king, knight, make_piece, no_piece_type, white,
}
use alekhines_counter_gambit.Chess.San.{check_suffix, disambiguation, san}
use alekhines_counter_gambit.Chess.San.Origin.{disambiguation_unique, is_rival, names_origin}
use alekhines_counter_gambit.Chess.Tests.{start_board}

-- White knights on b1 and f3, both able to reach d2.
abbrev two_knights : Board
two_knights = record {
  squares =
      set
        (set (set (set (replicate 64 empty) 4 (make_piece white king)) 60 (make_piece black king)) 1
          (make_piece white knight))
        21 (make_piece white knight);
  turn = white;
  castling = record {
    white_king = false;
    white_queen = false;
    black_king = false;
    black_queen = false;
  };
  en_passant = none;
  half_move = 0;
  full_move = 1;
}

abbrev to_d2 : Move
to_d2 = record { from = 1; to = 11; promotion = no_piece_type }

knight_is_told : san two_knights to_d2 ≡ codes "Nbd2"
unfolding san check_suffix disambiguation legal_moves is_attacked apply_move_unchecked squares_after
    update_castling_rights en_passant_after half_move_after in_check
knight_is_told = refl

pawn_is_bare :
    san start_board (record { from = 12; to = 28; promotion = no_piece_type }) ≡ codes "e4"
unfolding san check_suffix disambiguation legal_moves is_attacked apply_move_unchecked squares_after
    update_castling_rights en_passant_after half_move_after in_check
pawn_is_bare = refl

disambiguation_unique_example :
    (names_origin (disambiguation two_knights to_d2 (make_piece white knight)) 1 ≡ true)
    × All
        (λ lm.
          (is_rival two_knights to_d2 lm
            && names_origin (disambiguation two_knights to_d2 (make_piece white knight)) lm.from)
          ≡ false)
        (legal_moves two_knights)
disambiguation_unique_example = disambiguation_unique two_knights to_d2 (omega arith)
