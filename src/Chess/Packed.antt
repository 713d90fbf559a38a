-- ===== src/Chess/Packed.antt =====
-- The bytes in which pkg/chess/board.go packs a color, a piece and the castling rights.
use Prim.Native.Nat.{bit_and, bit_or, bit_xor}
use alekhines_counter_gambit.Base.{Bool, arith, refl, ℕ, ◌*◌, ◌/◌, ◌<◌, ◌==◌, ◌≡◌}
use alekhines_counter_gambit.Chess.Piece.{
  Color, Piece, PieceType, black, color_byte, is_empty, make_piece, no_piece_type, opposite,
  type_byte, white,
}

-- MakePiece, Type, Color, IsEmpty and Opposite on bytes.
pub make_piece_byte : ℕ → ℕ → ℕ
make_piece_byte c t = bit_or t (c * 8)

pub type_of_byte : ℕ → ℕ
type_of_byte p = bit_and p 0x7

pub color_of_byte : ℕ → ℕ
color_of_byte p = bit_and (p / 8) 1

pub is_empty_byte : ℕ → Bool
is_empty_byte p = p == 0

pub opposite_byte : ℕ → ℕ
opposite_byte c = bit_xor c 1

-- The byte of a piece.
pub byte_of : Piece → ℕ
unfolding make_piece_byte
byte_of p = make_piece_byte (color_byte p.color) (type_byte p.piece_type)

-- The packed operations on the byte of any piece are the operations on its two parts: the low three
-- bits give the type, bit 3 gives the color, the zero byte is exactly the empty piece, `Opposite`
-- flips the color, and the byte is below 16.
pub packed_refines :
    (c : Color) (t : PieceType)
    → (type_of_byte (byte_of (make_piece c t)) ≡ type_byte t)
      × (color_of_byte (byte_of (make_piece c t)) ≡ color_byte c)
      × (is_empty_byte (byte_of (make_piece c t)) ≡ is_empty (make_piece c t))
      × (opposite_byte (color_byte c) ≡ color_byte (opposite c))
      × (byte_of (make_piece c t) < 16)
unfolding byte_of type_of_byte color_of_byte is_empty_byte opposite_byte
packed_refines white no_piece_type = (refl, refl, refl, refl, omega arith)
packed_refines white _ = (refl, refl, refl, refl, omega arith)
packed_refines black no_piece_type = (refl, refl, refl, refl, omega arith)
packed_refines black _ = (refl, refl, refl, refl, omega arith)
