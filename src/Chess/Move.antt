-- ===== src/Chess/Move.antt =====
-- Moves and their UCI notation: pkg/chess/move.go.
pub mod RoundTrip
use alekhines_counter_gambit.Base.{
  Bool, Option, [], if◌then◌else◌, length, ltb, none, some, ℕ, ◌&&◌, ◌++◌, ◌+◌, ◌-◌, ◌==◌, ◌||◌,
  ◌∷◌,
}
use alekhines_counter_gambit.Base.Result.{Result, err, ok, ◌>>=◌}
use alekhines_counter_gambit.Base.Text.{Bytes}
use alekhines_counter_gambit.Chess.Board.{file_of, rank_of, sq}
use alekhines_counter_gambit.Chess.Piece.{
  PieceType, bishop, knight, no_piece_type, queen, rook, type_eq,
}

pub record Move : Type 0 where
  pub from : ℕ
  pub to : ℕ
  pub promotion : PieceType

abbrev pub plain : ℕ → ℕ → Move
plain from to = record { from = from; to = to; promotion = no_piece_type }

-- `lm == m` on the struct.
abbrev pub move_eq : Move → Move → Bool
move_eq m n = m.from == n.from && (m.to == n.to && type_eq m.promotion n.promotion)

-- The causes that ErrInvalidMove is wrapped with.
pub data MoveError : Type 0 where
  bad_length bad_from bad_to bad_promotion : MoveError

-- promoToLetter; a missing key gives the zero byte.
abbrev pub promo_to_letter : PieceType → ℕ
promo_to_letter knight = b'n'
promo_to_letter bishop = b'b'
promo_to_letter rook = b'r'
promo_to_letter queen = b'q'
promo_to_letter _ = 0

-- letterToPromo
unfoldable pub letter_to_promo : ℕ → Option PieceType
letter_to_promo c =
    if c == b'n'
    then some knight
    else if c == b'b'
    then some bishop
    else if c == b'r'
    then some rook
    else if c == b'q'
    then some queen
    else none

unfoldable pub parse_square : ℕ → ℕ → Option ℕ
parse_square file_byte rank_byte =
    if ltb file_byte b'a' || (ltb b'h' file_byte || (ltb rank_byte b'1' || ltb b'8' rank_byte))
    then none
    else some (sq (file_byte - b'a') (rank_byte - b'1'))

unfoldable pub square_name : ℕ → Bytes
square_name s = (b'a' + file_of s) ∷ (b'1' + rank_of s) ∷ []

abbrev pub or_error {ℓ} : {A : Type ℓ} → MoveError → Option A → Result MoveError A
or_error e none = err e
or_error e (some a) = ok a

-- The promotion of a five-byte move; a four-byte move has none.
abbrev pub promotion_of : Bytes → Result MoveError PieceType
promotion_of [] = ok no_piece_type
promotion_of (c ∷ _) = or_error bad_promotion (letter_to_promo c)

unfoldable pub parse_uci_move : Bytes → Result MoveError Move
unfolding parse_square letter_to_promo
parse_uci_move (f ∷ r ∷ g ∷ q ∷ s) = if ltb 1 (length s) then err bad_length else do
  from ← or_error bad_from (parse_square f r)
  to ← or_error bad_to (parse_square g q)
  promotion ← promotion_of s
  ok (record { from = from; to = to; promotion = promotion })
parse_uci_move _ = err bad_length

-- Move.String
unfoldable pub uci_string : Move → Bytes
unfolding square_name
uci_string m =
    square_name m.from
    ++ (square_name m.to
        ++ (if type_eq m.promotion no_piece_type then [] else promo_to_letter m.promotion ∷ []))
