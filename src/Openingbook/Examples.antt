-- ===== src/Openingbook/Examples.antt =====
-- A small opening book, as in pkg/openingbook/book_test.go.
use alekhines_counter_gambit.Base.{
  List, [], ap, arith, map, refl, some, ℕ, ◌+◌, ◌<◌, ◌↔◌, ◌∷◌, ◌≡◌, ◌≤◌,
}
use alekhines_counter_gambit.Base.All.{cons, nil}
use alekhines_counter_gambit.Base.Decimal.{itoa}
use alekhines_counter_gambit.Base.Int.{pos}
use alekhines_counter_gambit.Base.Result.{ok}
use alekhines_counter_gambit.Base.Text.{Bytes, codes}
use alekhines_counter_gambit.Chess.Apply.{
  apply_move_unchecked, en_passant_after, half_move_after, squares_after, update_castling_rights,
}
use alekhines_counter_gambit.Chess.Attack.{is_attacked}
use alekhines_counter_gambit.Chess.Fen.Parse.{new_board, start_fen}
use alekhines_counter_gambit.Chess.Fen.Print.{fen}
use alekhines_counter_gambit.Chess.Fen.RoundTrip.{IsPrintable}
use alekhines_counter_gambit.Chess.Fen.Sound.{parse_fen-IsPrintable}
use alekhines_counter_gambit.Chess.Legal.{apply_uci, is_legal, legal_moves}
use alekhines_counter_gambit.Chess.Tests.{start_board, start_parses}
use alekhines_counter_gambit.Openingbook.Book.{
  Positions, book_move, candidates, position_key, walk_lines,
}
use alekhines_counter_gambit.Openingbook.Book.Choice.{IsOther, book_move-share, weighed, weight_sum}
use alekhines_counter_gambit.Openingbook.Book.Walk.{plays_all, walk_lines-weight_of, weight_of}

abbrev key : Bytes
key = codes "rnbqkbnr/pppppppp/8/8/8/8/PPPPPPPP/RNBQKBNR w KQkq -"

abbrev small_book : Positions
small_book =
    (
      key,
      record { uci = codes "e2e4"; weight = pos 3 }
          ∷ record { uci = codes "d2d4"; weight = pos 2 }
          ∷ [],
    )
    ∷ []

start-IsPrintable : IsPrintable start_board
unfolding new_board
start-IsPrintable = parse_fen-IsPrintable start_fen start_parses

small_book_found :
    candidates (position_key start_fen) small_book
    ≡ map weighed ((codes "e2e4", 3) ∷ (codes "d2d4", 2) ∷ [])
unfolding candidates position_key
small_book_found = refl

abbrev first_code : Bytes → ℕ
first_code [] = 0
first_code (c ∷ s) = c

king_pawn-IsOther : IsOther (codes "d2d4") (codes "e2e4", 3)
king_pawn-IsOther h = let apart : 101 ≡ 100 = ap first_code h in absurd (omega (arith, apart))

book_move-share_example :
    (book_move (λ n. 4) (some small_book) start_fen ≡ some (codes "d2d4")) ↔ ((3 ≤ 4) × (4 < 3 + 2))
unfolding weight_sum
book_move-share_example =
    book_move-share (λ n. 4) small_book start_fen ((codes "e2e4", 3) ∷ []) [] (codes "d2d4") 2 4
      small_book_found (cons king_pawn-IsOther nil) nil (omega arith) refl (omega arith)

abbrev opening_lines : List (List Bytes)
opening_lines = (codes "e2e4" ∷ []) ∷ (codes "e2e4" ∷ []) ∷ []

lines_are_counted : walk_lines start_board opening_lines [] ≡ ok (((key, codes "e2e4"), 2) ∷ [])
unfolding walk_lines apply_uci is_legal legal_moves is_attacked apply_move_unchecked squares_after
    update_castling_rights en_passant_after half_move_after fen position_key itoa
lines_are_counted = refl

walk_lines-weight_of_example :
    weight_of (key, codes "e2e4") (((key, codes "e2e4"), 2) ∷ [])
    ≡ plays_all (key, codes "e2e4") start_board opening_lines
walk_lines-weight_of_example =
    walk_lines-weight_of (key, codes "e2e4") start_board opening_lines lines_are_counted
