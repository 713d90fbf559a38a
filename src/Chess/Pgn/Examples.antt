-- ===== src/Chess/Pgn/Examples.antt =====
-- PGN on a game like that of pkg/chess/san_test.go.
use alekhines_counter_gambit.Base.{List, [], arith, length, refl, ◌∷◌, ◌≡◌, ◌≤◌}
use alekhines_counter_gambit.Base.All.{All, cons, nil}
use alekhines_counter_gambit.Base.Decimal.{itoa}
use alekhines_counter_gambit.Base.Result.{ok}
use alekhines_counter_gambit.Base.Text.{Bytes, codes, fields, fields_from}
use alekhines_counter_gambit.Chess.Apply.{
  apply_move_unchecked, en_passant_after, half_move_after, squares_after, update_castling_rights,
}
use alekhines_counter_gambit.Chess.Attack.{in_check, is_attacked}
use alekhines_counter_gambit.Chess.Fen.Parse.{new_board, parse_fen, start_fen}
use alekhines_counter_gambit.Chess.Legal.{apply_move, is_legal, legal_moves}
use alekhines_counter_gambit.Chess.Pgn.{
  extra_lines, move_text, pgn, quote_bytes, roster_lines, trim_right, wrap_movetext,
}
use alekhines_counter_gambit.Chess.Pgn.Replay.{is_ok, pgn-is_ok, replay}
use alekhines_counter_gambit.Chess.Pgn.Wrap.{lines, lines-wrap_movetext}
use alekhines_counter_gambit.Chess.San.{check_suffix, disambiguation, san}
use alekhines_counter_gambit.Chess.Tests.{start_board, start_parses}

abbrev moves : List Bytes
moves = codes "e2e4" ∷ codes "e7e5" ∷ []

document :
    pgn start_fen moves []
    ≡ ok (
        codes
          "[Event \"?\"]\n[Site \"?\"]\n[Date \"?\"]\n[Round \"?\"]\n[White \"?\"]\n[Black \"?\"]\n[Result \"?\"]\n\n1. e4 e5 *\n")
unfolding pgn move_text parse_fen san check_suffix disambiguation is_legal legal_moves is_attacked
    apply_move apply_move_unchecked squares_after update_castling_rights en_passant_after
    half_move_after in_check roster_lines extra_lines wrap_movetext trim_right quote_bytes itoa
document = refl

pgn-is_ok_example : is_ok (pgn start_fen moves []) ≡ is_ok (replay start_board moves)
unfolding new_board
pgn-is_ok_example = pgn-is_ok start_fen moves [] start_parses

abbrev text : Bytes
text = codes "1. e4 e5 2. Nf3 *"

text_fits : All (λ w. length w ≤ 8) (fields text)
unfolding fields fields_from
text_fits = cons (omega arith) (
    cons (omega arith)
      (cons (omega arith) (cons (omega arith) (cons (omega arith) (cons (omega arith) nil)))))

lines-wrap_movetext_example : All (λ l. length l ≤ 8) (lines (wrap_movetext text 8))
lines-wrap_movetext_example = lines-wrap_movetext text 8 text_fits
