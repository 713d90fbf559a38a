-- ===== src/Chess/Tests.antt =====
-- Runs of the rules of chess on the positions of pkg/chess/chess_test.go and perft_test.go.
use alekhines_counter_gambit.Base.{
  List, [], length, none, refl, replicate, suc, true, zero, ℕ, ◌++◌, ◌+◌, ◌∷◌, ◌≡◌,
}
use alekhines_counter_gambit.Base.Result.{err, ok}
use alekhines_counter_gambit.Base.Text.{Bytes, codes}
use alekhines_counter_gambit.Chess.Apply.{
  apply_move_unchecked, en_passant_after, half_move_after, squares_after, update_castling_rights,
}
use alekhines_counter_gambit.Chess.Attack.{is_attacked}
use alekhines_counter_gambit.Chess.Board.{Board}
use alekhines_counter_gambit.Chess.Fen.Parse.{new_board, parse_fen, start_fen}
use alekhines_counter_gambit.Chess.Fen.Print.{fen}
use alekhines_counter_gambit.Chess.Legal.{legal_moves}
use alekhines_counter_gambit.Chess.Move.{Move}
use alekhines_counter_gambit.Chess.Piece.{
  Color, Piece, bishop, black, empty, king, knight, make_piece, pawn, queen, rook, white,
}

abbrev back_rank : Color → List Piece
back_rank c =
    make_piece c rook
    ∷ make_piece c knight
    ∷ make_piece c bishop
    ∷ make_piece c queen
    ∷ make_piece c king
    ∷ make_piece c bishop
    ∷ make_piece c knight
    ∷ make_piece c rook
    ∷ []

abbrev pub start_board : Board
start_board = record {
  squares =
      back_rank white
      ++ (replicate 8 (make_piece white pawn)
          ++ (replicate 32 empty ++ (replicate 8 (make_piece black pawn) ++ back_rank black)));
  turn = white;
  castling = record {
    white_king = true;
    white_queen = true;
    black_king = true;
    black_queen = true;
  };
  en_passant = none;
  half_move = 0;
  full_move = 1;
}

pub start_parses : new_board ≡ ok start_board
unfolding new_board
start_parses = refl

start_prints : fen start_board ≡ start_fen
unfolding fen
start_prints = refl

start_moves : length (legal_moves start_board) ≡ 20
unfolding legal_moves is_attacked apply_move_unchecked squares_after
start_moves = refl

-- The nodes of the game tree, as perft counts them.
perft_list : (Board → ℕ) → Board → List Move → ℕ
perft_list count b [] = 0
perft_list count b (m ∷ ms) = count (apply_move_unchecked b m) + perft_list count b ms

perft : ℕ → Board → ℕ
unfolding perft_list
perft zero b = 1
perft (suc d) b = perft_list (perft d) b (legal_moves b)

abbrev perft_of : ℕ → Bytes → ℕ
perft_of d text = elim (parse_fen text) [ ok b ↦ perft d b | err e ↦ 0 ]

start_perft : perft 2 start_board ≡ 400
unfolding perft legal_moves is_attacked apply_move_unchecked squares_after update_castling_rights
    en_passant_after half_move_after
start_perft = refl

kiwipete_perft :
    perft_of 1 (codes "r3k2r/p1ppqpb1/bn2pnp1/3PN3/1p2P3/2N2Q1p/PPPBBPPP/R3K2R w KQkq - 0 1") ≡ 48
unfolding perft legal_moves is_attacked apply_move_unchecked squares_after update_castling_rights
    en_passant_after half_move_after parse_fen
kiwipete_perft = refl

endgame_perft : perft_of 2 (codes "8/2p5/3p4/KP5r/1R3p1k/8/4P1P1/8 w - - 0 1") ≡ 191
unfolding perft legal_moves is_attacked apply_move_unchecked squares_after update_castling_rights
    en_passant_after half_move_after parse_fen
endgame_perft = refl
