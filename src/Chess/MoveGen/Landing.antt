-- ===== src/Chess/MoveGen/Landing.antt =====
-- Where a generated move may start and land: pkg/chess/movegen.go.
use alekhines_counter_gambit.Base.{
  Bool, arith, if◌then◌else◌, refl, true, ℕ, ◌%◌, ◌&&◌, ◌/◌, ◌<◌, ◌==◌, ◌≡◌, ◌≢◌,
}
use alekhines_counter_gambit.Base.Int.{negsuc, pos, ℤ, ◌+ℤ◌}
use alekhines_counter_gambit.Chess.Board.{Board, in_range, on_board, piece_at}
use alekhines_counter_gambit.Chess.Move.{Move}
use alekhines_counter_gambit.Chess.Move.RoundTrip.{IsPromotion}
use alekhines_counter_gambit.Chess.MoveGen.{pawn_double, start_rank, to_square}
use alekhines_counter_gambit.Chess.Piece.{
  Color, Piece, PieceType, black, color_eq, is_empty, make_piece, no_piece_type, piece_eq, white,
}
use mathlib.Core.Bool.{not}

-- A piece of color `us`.
abbrev pub is_own : Color → Piece → Bool
is_own us p = not (is_empty p) && color_eq p.color us

-- An empty square, or a piece of the other color.
abbrev pub is_free : Color → Piece → Bool
is_free us p = if is_empty p then true else not (color_eq p.color us)

pub record IsSound (b : Board) (us : Color) (m : Move) : Type 0 where
  pub from_on_board : m.from < 64
  pub to_on_board : m.to < 64
  pub own : is_own us (piece_at b m.from) ≡ true
  pub free : is_free us (piece_at b m.to) ≡ true
  pub promotion : IsPromotion m.promotion

pub on_board-to_square : (f r : ℤ) → on_board f r ≡ true → to_square f r < 64
on_board-to_square (pos f) (pos r) h = ground arith
on_board-to_square (pos f) (negsuc r) h = absurd (ground arith)
on_board-to_square (negsuc f) r h = absurd (ground arith)

pub make_piece-own :
    (us : Color) (t : PieceType) (p : Piece)
    → t ≢ no_piece_type
    → piece_eq p (make_piece us t) ≡ true
    → is_own us p ≡ true
make_piece-own us no_piece_type p n h = absurd (n refl)
make_piece-own us _ p n h = ground arith

pub empty-is_free : (us : Color) (p : Piece) → is_empty p ≡ true → is_free us p ≡ true
empty-is_free us p h = ground arith

pub enemy-is_free :
    (us : Color) (p : Piece)
    → (not (is_empty p) && not (color_eq p.color us)) ≡ true
    → is_free us p ≡ true
enemy-is_free us p h = ground arith

pub file_in_range : (s : ℕ) (r : ℤ) → in_range r ≡ true → on_board (pos (s % 8)) r ≡ true
file_in_range s r h = ground arith

pub double-on_board :
    (us : Color) (s : ℕ)
    → (s / 8 == start_rank us) ≡ true
    → to_square (pos (s % 8)) (pos (s / 8) +ℤ pawn_double us) < 64
unfolding ◌+ℤ◌
double-on_board white s h = ground arith
double-on_board black s h = ground arith
