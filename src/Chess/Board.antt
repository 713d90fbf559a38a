-- ===== src/Chess/Board.antt =====
-- The position and the helpers on squares: pkg/chess/board.go.
use alekhines_counter_gambit.Base.{
  Bool, List, Option, [], false, get_or, if◌then◌else◌, length, ltb, none, some, suc, ℕ, ◌%◌, ◌&&◌,
  ◌*◌, ◌+◌, ◌/◌, ◌<◌, ◌∷◌, ◌≡◌, ◌≢◌,
}
use alekhines_counter_gambit.Base.Int.{negsuc, pos, pos_part, sub_ℕ, ℤ}
use alekhines_counter_gambit.Chess.Piece.{
  Color, Piece, empty, is_empty, king, make_piece, no_piece_type, piece_eq,
}

-- The four bits of `Castling`.
pub record Castling : Type 0 where
  pub white_king : Bool
  pub white_queen : Bool
  pub black_king : Bool
  pub black_queen : Bool

-- `en_passant` is `none` for NoSquare. The clocks are Go ints.
pub record Board : Type 0 where
  pub squares : List Piece
  pub turn : Color
  pub castling : Castling
  pub en_passant : Option ℕ
  pub half_move : ℕ
  pub full_move : ℕ

-- An array of 64 pieces, and a target on the board.
abbrev pub OnBoard : Option ℕ → Type 0
OnBoard none = Unit {0}
OnBoard (some s) = s < 64

pub record IsWellFormed (b : Board) : Type 0 where
  pub size : length b.squares ≡ 64
  pub target : OnBoard b.en_passant

-- No square holds a black piece of no type, the one byte that has no FEN letter and is not Empty.
abbrev pub HasLetter : Piece → Type 0
HasLetter p = is_empty p ≡ false → p.piece_type ≢ no_piece_type

abbrev pub sq : ℕ → ℕ → ℕ
sq file rank = rank * 8 + file

abbrev pub file_of : ℕ → ℕ
file_of s = s % 8

abbrev pub rank_of : ℕ → ℕ
rank_of s = s / 8

-- The same on a Go int, which may be NoSquare = -1: `%` and `/` truncate towards zero.
abbrev pub int_file_of : ℤ → ℤ
int_file_of (pos s) = pos (s % 8)
int_file_of (negsuc n) = sub_ℕ 0 (suc n % 8)

abbrev pub int_rank_of : ℤ → ℤ
int_rank_of (pos s) = pos (s / 8)
int_rank_of (negsuc n) = sub_ℕ 0 (suc n / 8)

-- 0 ≤ x < 8
abbrev pub in_range : ℤ → Bool
in_range (pos n) = ltb n 8
in_range (negsuc n) = false

abbrev pub on_board : ℤ → ℤ → Bool
on_board file rank = in_range file && in_range rank

-- `b.squares[s]`. Every index that the code forms is on the board.
abbrev pub piece_at : Board → ℕ → Piece
piece_at b s = get_or b.squares s empty

-- `b.squares[sq(file, rank)]` behind a test of `on_board`.
abbrev pub piece_on : Board → ℤ → ℤ → Piece
piece_on b file rank = piece_at b (sq (pos_part file) (pos_part rank))

-- The loop of kingSquare: the first square that holds `want`.
pub find_piece : Piece → List Piece → ℕ → Option ℕ
find_piece want [] s = none
find_piece want (p ∷ ps) s =
    let rest = find_piece want ps (suc s) in if piece_eq p want then some s else rest

unfoldable pub king_square : Board → Color → Option ℕ
unfolding find_piece
king_square b c = find_piece (make_piece c king) b.squares 0

-- A square as the source's int, with NoSquare = -1.
abbrev pub int_square : Option ℕ → ℤ
int_square none = negsuc 0
int_square (some s) = pos s
