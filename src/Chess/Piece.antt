-- ===== src/Chess/Piece.antt =====
-- Colors, piece types and pieces: pkg/chess/board.go.
use alekhines_counter_gambit.Base.{ℕ, Bool, ◌&&◌, ◌==◌}

pub data Color : Type 0 where
  white black : Color

pub data PieceType : Type 0 where
  no_piece_type pawn knight bishop rook queen king : PieceType

-- The values that `iota` gives the constants.
abbrev pub color_byte : Color → ℕ
color_byte white = 0
color_byte black = 1

abbrev pub type_byte : PieceType → ℕ
type_byte no_piece_type = 0
type_byte pawn = 1
type_byte knight = 2
type_byte bishop = 3
type_byte rook = 4
type_byte queen = 5
type_byte king = 6

abbrev pub opposite : Color → Color
opposite white = black
opposite black = white

abbrev pub color_eq : Color → Color → Bool
color_eq c d = color_byte c == color_byte d

abbrev pub type_eq : PieceType → PieceType → Bool
type_eq t u = type_byte t == type_byte u

-- A piece by its two parts; Chess/Packed.antt has the packed byte of the source.
pub record Piece : Type 0 where
  pub color : Color
  pub piece_type : PieceType

abbrev pub make_piece : Color → PieceType → Piece
make_piece c t = record { color = c; piece_type = t }

-- The zero byte.
abbrev pub empty : Piece
empty = make_piece white no_piece_type

abbrev pub piece_eq : Piece → Piece → Bool
piece_eq p q = color_eq p.color q.color && type_eq p.piece_type q.piece_type

abbrev pub is_empty : Piece → Bool
is_empty p = piece_eq p empty
