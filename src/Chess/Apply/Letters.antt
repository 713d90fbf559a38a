-- ===== src/Chess/Apply/Letters.antt =====
-- A move writes no piece without a FEN letter: applyMoveUnchecked of pkg/chess/movegen.go.
use alekhines_counter_gambit.Base.{
  Bool, Bool-cases, Option, arith, false, inl, inr, none, some, true, ℕ,
}
use alekhines_counter_gambit.Base.All.{All, All-get_or, All-set}
use alekhines_counter_gambit.Chess.Apply.{
  Squares, behind, capture_en_passant, castle, is_castling, move_piece, promote, read_square,
  rook_from, rook_to, squares_after,
}
use alekhines_counter_gambit.Chess.Board.{Board, HasLetter, piece_at}
use alekhines_counter_gambit.Chess.Move.{Move}
use alekhines_counter_gambit.Chess.Piece.{Piece, empty, make_piece, no_piece_type, type_eq}

module _ (b : Board) (m : Move) (letters : All HasLetter b.squares) where
  empty-HasLetter : HasLetter empty
  empty-HasLetter h = absurd (cc)

  read-HasLetter : (s : Squares) (i : ℕ) → All HasLetter s → HasLetter (read_square s i)
  read-HasLetter s i a = All-get_or s i empty a empty-HasLetter

  move_piece-HasLetter : All HasLetter (move_piece m (piece_at b m.from) b.squares)
  move_piece-HasLetter =
      All-set _ m.from empty
        (All-set b.squares m.to _ letters (read-HasLetter b.squares m.from letters)) empty-HasLetter

  capture-HasLetter :
      (test : Bool) (i : Option ℕ) (s : Squares)
      → All HasLetter s
      → All HasLetter (capture_en_passant b.turn test i s)
  capture-HasLetter false i s a = a
  capture-HasLetter true none s a = a
  capture-HasLetter true (some i) s a = All-set s i empty a empty-HasLetter

  promote-HasLetter : (s : Squares) → All HasLetter s → All HasLetter (promote b.turn m s)
  promote-HasLetter s a = elim (Bool-cases (type_eq m.promotion no_piece_type)) [
    | inl e ↦ rw e a
    | inr e ↦ rw e (All-set s m.to (make_piece b.turn m.promotion) a (λ h p. ground arith))
  ]

  castle-HasLetter : (p : Piece) (s : Squares) → All HasLetter s → All HasLetter (castle p m s)
  castle-HasLetter p s a = elim (Bool-cases (is_castling p m)) [
    | inl e ↦ rw e (
        All-set _ (rook_from m) empty (All-set s (rook_to m) _ a (read-HasLetter s (rook_from m) a))
          empty-HasLetter)
    | inr e ↦ rw e a
  ]

  pub squares_after-HasLetter : All HasLetter (squares_after b m)
  unfolding squares_after
  squares_after-HasLetter =
      castle-HasLetter (piece_at b m.from) _
        (promote-HasLetter _ (capture-HasLetter _ (behind b.turn m.to) _ move_piece-HasLetter))
