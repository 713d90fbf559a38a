-- ===== src/Chess/San.antt =====
-- Standard algebraic notation: SAN of pkg/chess/san.go.
pub mod Origin
pub mod Examples
use alekhines_counter_gambit.Base.{
  Bool, List, [], false, if◌then◌else◌, ℕ, ◌&&◌, ◌++◌, ◌+◌, ◌==◌, ◌||◌, ◌∷◌,
}
use alekhines_counter_gambit.Base.Text.{Bytes, codes}
use alekhines_counter_gambit.Chess.Apply.{apply_move_unchecked, is_castling, is_pawn}
use alekhines_counter_gambit.Chess.Attack.{in_check}
use alekhines_counter_gambit.Chess.Board.{Board, file_of, piece_at, rank_of}
use alekhines_counter_gambit.Chess.Legal.{legal_moves}
use alekhines_counter_gambit.Chess.Move.{Move, square_name, uci_string}
use alekhines_counter_gambit.Chess.MoveGen.{is_target}
use alekhines_counter_gambit.Chess.Outcome.{no_moves_left}
use alekhines_counter_gambit.Chess.Piece.{
  Piece, PieceType, bishop, is_empty, king, knight, no_piece_type, piece_eq, queen, rook, type_eq,
}
use mathlib.Core.Bool.{not}

abbrev pub piece_letter_upper : PieceType → ℕ
piece_letter_upper knight = b'N'
piece_letter_upper bishop = b'B'
piece_letter_upper rook = b'R'
piece_letter_upper queen = b'Q'
piece_letter_upper king = b'K'
piece_letter_upper _ = b'P'

-- The first loop of disambiguation: the other squares from which such a piece reaches `m.to`.
unfoldable pub rivals_of : Board → Move → Piece → List Move → List ℕ
rivals_of b m piece [] = []
rivals_of b m piece (lm ∷ lms) =
    let rest = rivals_of b m piece lms in
    if not (lm.to == m.to) || lm.from == m.from
    then rest
    else if piece_eq (piece_at b lm.from) piece
    then lm.from ∷ rest
    else rest

-- The second loop: whether a rival shares a coordinate with the square `s`.
unfoldable pub is_shared : (ℕ → ℕ) → ℕ → List ℕ → Bool
is_shared coordinate s [] = false
is_shared coordinate s (r ∷ rivals) = coordinate r == coordinate s || is_shared coordinate s rivals

abbrev pub origin_among : ℕ → List ℕ → Bytes
origin_among s [] = []
origin_among s (r ∷ rivals) =
    if not (is_shared file_of s (r ∷ rivals))
    then (b'a' + file_of s) ∷ []
    else if not (is_shared rank_of s (r ∷ rivals))
    then (b'1' + rank_of s) ∷ []
    else square_name s

unfoldable pub disambiguation : Board → Move → Piece → Bytes
unfolding rivals_of is_shared square_name legal_moves
disambiguation b m piece = origin_among m.from (rivals_of b m piece (legal_moves b))

unfoldable pub check_suffix : Board → Move → Bytes
check_suffix b m =
    let after = apply_move_unchecked b m in
    if in_check after
    then (if no_moves_left (legal_moves after) then codes "#" else codes "+")
    else []

abbrev pub is_capture : Board → Move → Bool
is_capture b m =
    not (is_empty (piece_at b m.to)) || (is_pawn (piece_at b m.from) && is_target b.en_passant m.to)

abbrev pub pawn_text : Board → Move → Bytes
pawn_text b m =
    (if is_capture b m then (b'a' + file_of m.from) ∷ b'x' ∷ [] else [])
    ++ (square_name m.to
        ++ (if type_eq m.promotion no_piece_type
            then []
            else b'=' ∷ piece_letter_upper m.promotion ∷ []))

abbrev pub piece_text : Board → Move → Bytes
piece_text b m =
    piece_letter_upper (piece_at b m.from).piece_type
    ∷ (disambiguation b m (piece_at b m.from)
        ++ ((if is_capture b m then b'x' ∷ [] else []) ++ square_name m.to))

unfoldable pub san : Board → Move → Bytes
unfolding disambiguation check_suffix square_name uci_string
san b m =
    if is_empty (piece_at b m.from)
    then uci_string m
    else if is_castling (piece_at b m.from) m
    then (if file_of m.to == 2 then codes "O-O-O" else codes "O-O") ++ check_suffix b m
    else (if is_pawn (piece_at b m.from) then pawn_text b m else piece_text b m) ++ check_suffix b m
