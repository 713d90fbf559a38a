-- ===== src/Chess/Apply/WellFormed.antt =====
-- A move keeps the array of squares whole and the en-passant target on the board:
-- applyMoveUnchecked of pkg/chess/movegen.go.
use alekhines_counter_gambit.Base.{
  Bool, Bool-cases, Option, arith, false, inl, inr, length, length-set, none, refl, set, some, true,
  ℕ, ◌&&◌, ◌<◌, ◌==◌, ◌∙◌, ◌≡◌,
}
use alekhines_counter_gambit.Chess.Apply.{
  Squares, apply_move_unchecked, behind, capture_en_passant, castle, clear_at, distance,
  en_passant_after, is_castling, is_pawn, move_piece, promote, read_square, rook_from, rook_to,
  squares_after,
}
use alekhines_counter_gambit.Chess.Board.{Board, IsWellFormed, OnBoard, piece_at, rank_of}
use alekhines_counter_gambit.Chess.Move.{Move}
use alekhines_counter_gambit.Chess.Piece.{Color, Piece, empty, make_piece, no_piece_type, type_eq}

length-clear_at : (i : Option ℕ) (s : Squares) → length (clear_at i s) ≡ length s
length-clear_at none s = refl
length-clear_at (some i) s = length-set s i empty

length-move_piece : (m : Move) (p : Piece) (s : Squares) → length (move_piece m p s) ≡ length s
length-move_piece m p s = length-set (set s m.to p) m.from empty ∙ length-set s m.to p

length-promote : (us : Color) (m : Move) (s : Squares) → length (promote us m s) ≡ length s
length-promote us m s = elim (Bool-cases (type_eq m.promotion no_piece_type)) [
  | inl e ↦ rw e
  | inr e ↦ rw e (length-set s m.to (make_piece us m.promotion))
]

length-capture_en_passant :
    (us : Color) (test : Bool) (i : Option ℕ) (s : Squares)
    → length (capture_en_passant us test i s) ≡ length s
length-capture_en_passant us true i s = length-clear_at i s
length-capture_en_passant us false i s = refl

length-castle : (p : Piece) (m : Move) (s : Squares) → length (castle p m s) ≡ length s
length-castle p m s = elim (Bool-cases (is_castling p m)) [
  | inl e ↦ rw e (
      length-set (set s (rook_to m) (read_square s (rook_from m))) (rook_from m) empty
      ∙ length-set s (rook_to m) (read_square s (rook_from m)))
  | inr e ↦ rw e
]

length-squares_after : (b : Board) (m : Move) → length (squares_after b m) ≡ length b.squares
unfolding squares_after
length-squares_after b m =
    length-castle (piece_at b m.from) m _
    ∙ (length-promote b.turn m _
        ∙ (length-capture_en_passant b.turn _ (behind b.turn m.to) _
            ∙ length-move_piece m (piece_at b m.from) b.squares))

pub en_passant_after-OnBoard :
    (b : Board) (m : Move) → m.from < 64 → m.to < 64 → OnBoard (en_passant_after b m)
unfolding en_passant_after
en_passant_after-OnBoard b m hf ht =
    elim (Bool-cases
      (is_pawn (piece_at b m.from) && distance (rank_of m.to) (rank_of m.from) == 2)) [
        | inl e ↦ rw e (omega arith)
        | inr e ↦ rw e tt
      ]

-- A move between squares of the board, legal or not, keeps the board at 64 squares and its en-passant
-- target on the board.
pub apply_move_unchecked-IsWellFormed :
    (b : Board) (m : Move)
    → m.from < 64
    → m.to < 64
    → IsWellFormed b
    → IsWellFormed (apply_move_unchecked b m)
unfolding apply_move_unchecked
apply_move_unchecked-IsWellFormed b m hf ht w = record {
  size = length-squares_after b m ∙ w.size;
  target = en_passant_after-OnBoard b m hf ht;
}
