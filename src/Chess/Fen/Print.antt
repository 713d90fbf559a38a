-- ===== src/Chess/Fen/Print.antt =====
-- The method FEN of pkg/chess/fen.go.
use alekhines_counter_gambit.Base.{
  Bool, List, Option, [], drop, false, if◌then◌else◌, none, some, suc, take, true, zero, ℕ, ◌*◌,
  ◌++◌, ◌+◌, ◌||◌, ◌∷◌,
}
use alekhines_counter_gambit.Base.Decimal.{itoa}
use alekhines_counter_gambit.Base.Text.{Bytes}
use alekhines_counter_gambit.Chess.Board.{Board, Castling}
use alekhines_counter_gambit.Chess.Move.{square_name}
use alekhines_counter_gambit.Chess.Piece.{
  Color, Piece, PieceType, bishop, black, is_empty, king, knight, no_piece_type, pawn, queen, rook,
  white,
}
use mathlib.Core.Bool.{not}

-- pieceToFEN; a missing key gives the zero byte.
abbrev pub white_letter : PieceType → ℕ
white_letter no_piece_type = 0
white_letter pawn = b'P'
white_letter knight = b'N'
white_letter bishop = b'B'
white_letter rook = b'R'
white_letter queen = b'Q'
white_letter king = b'K'

abbrev pub black_letter : PieceType → ℕ
black_letter no_piece_type = 0
black_letter pawn = b'p'
black_letter knight = b'n'
black_letter bishop = b'b'
black_letter rook = b'r'
black_letter queen = b'q'
black_letter king = b'k'

abbrev pub letter_of : Color → PieceType → ℕ
letter_of white t = white_letter t
letter_of black t = black_letter t

abbrev pub piece_letter : Piece → ℕ
piece_letter p = letter_of p.color p.piece_type

-- `if empty > 0 { sb.WriteByte(byte('0' + empty)) }`
abbrev pub flush_empty : ℕ → Bytes
flush_empty zero = []
flush_empty (suc e) = (b'0' + suc e) ∷ []

-- The inner loop: the pieces from this file on, with `e` empty squares not yet written.
unfoldable pub write_rank : List Piece → ℕ → Bytes
write_rank [] e = flush_empty e
write_rank (p ∷ ps) e = elim (is_empty p) [
  | true ↦ write_rank ps (suc e)
  | false ↦ flush_empty e ++ piece_letter p ∷ write_rank ps 0
]

-- The squares of a rank, in the order of the files.
abbrev pub rank_pieces : List Piece → ℕ → List Piece
rank_pieces s rank = take 8 (drop (rank * 8) s)

-- The outer loop, for the ranks `rank` down to 0.
unfoldable pub write_ranks : List Piece → ℕ → Bytes
unfolding write_rank
write_ranks s zero = write_rank (rank_pieces s 0) 0
write_ranks s (suc r) = write_rank (rank_pieces s (suc r)) 0 ++ b'/' ∷ write_ranks s r

abbrev pub side_letter : Color → ℕ
side_letter white = b'w'
side_letter black = b'b'

abbrev pub letter_if : Bool → ℕ → Bytes
letter_if true c = c ∷ []
letter_if false c = []

-- `b.Castling == 0`
abbrev pub no_rights : Castling → Bool
no_rights c = not (c.white_king || (c.white_queen || (c.black_king || c.black_queen)))

unfoldable pub write_castling : Castling → Bytes
write_castling c =
    if no_rights c
    then b'-' ∷ []
    else letter_if c.white_king b'K'
      ++ (letter_if c.white_queen b'Q'
          ++ (letter_if c.black_king b'k' ++ letter_if c.black_queen b'q'))

unfoldable pub write_target : Option ℕ → Bytes
unfolding square_name
write_target none = b'-' ∷ []
write_target (some s) = square_name s

unfoldable pub fen : Board → Bytes
unfolding write_ranks write_castling write_target itoa
fen b =
    write_ranks b.squares 7
    ++ 32
      ∷ (side_letter b.turn
          ∷ 32
          ∷ (write_castling b.castling
              ++ 32
                ∷ (write_target b.en_passant ++ 32 ∷ (itoa b.half_move ++ 32 ∷ itoa b.full_move))))
