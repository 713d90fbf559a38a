-- ===== src/Chess/Fen/Parse.antt =====
-- ParseFEN and NewBoard of pkg/chess/fen.go.
use alekhines_counter_gambit.Base.{
  List, Option, [], false, if◌then◌else◌, leb, length, ltb, none, replicate, set, some, true, ℕ,
  ◌&&◌, ◌+◌, ◌-◌, ◌==◌, ◌∷◌,
}
use alekhines_counter_gambit.Base.Decimal.{atoi}
use alekhines_counter_gambit.Base.Int.{negsuc, pos, ℤ}
use alekhines_counter_gambit.Base.Result.{Result, err, ok, ◌>>=◌}
use alekhines_counter_gambit.Base.Text.{Bytes, bytes_eq, codes, fields, split}
use alekhines_counter_gambit.Chess.Board.{Board, Castling, sq}
use alekhines_counter_gambit.Chess.Move.{parse_square}
use alekhines_counter_gambit.Chess.Piece.{
  Color, Piece, PieceType, bishop, black, empty, king, knight, make_piece, pawn, queen, rook, white,
}

-- The causes that ErrInvalidFEN is wrapped with.
pub data FenError : Type 0 where
  bad_field_count bad_rank_count bad_piece rank_overflow bad_file_count bad_side : FenError
  bad_castling bad_en_passant bad_half_move bad_full_move : FenError

-- fenPieceToPiece
abbrev pub white_piece_of : ℕ → Option PieceType
white_piece_of c =
    if c == b'P'
    then some pawn
    else if c == b'N'
    then some knight
    else if c == b'B'
    then some bishop
    else if c == b'R'
    then some rook
    else if c == b'Q'
    then some queen
    else if c == b'K'
    then some king
    else none

abbrev pub black_piece_of : ℕ → Option PieceType
black_piece_of c =
    if c == b'p'
    then some pawn
    else if c == b'n'
    then some knight
    else if c == b'b'
    then some bishop
    else if c == b'r'
    then some rook
    else if c == b'q'
    then some queen
    else if c == b'k'
    then some king
    else none

abbrev pub either_piece : Option PieceType → Option PieceType → Option Piece
either_piece (some t) o = some (make_piece white t)
either_piece none (some t) = some (make_piece black t)
either_piece none none = none

unfoldable pub piece_of_letter : ℕ → Option Piece
piece_of_letter c = either_piece (white_piece_of c) (black_piece_of c)

-- The loop over the bytes of one rank.
unfoldable pub parse_rank : Bytes → ℕ → ℕ → List Piece → Result FenError (List Piece)
unfolding piece_of_letter
parse_rank [] rank file s = if file == 8 then ok s else err bad_file_count
parse_rank (ch ∷ str) rank file s = elim (leb b'1' ch && leb ch b'8') [
  | true ↦ parse_rank str rank (file + (ch - b'0')) s
  | false ↦ elim (piece_of_letter ch) [
    | none ↦ err bad_piece
    | some p ↦ elim (ltb 7 file) [
      | true ↦ err rank_overflow
      | false ↦ parse_rank str rank (file + 1) (set s (sq file rank) p)
    ]
  ]
]

-- The loop over the ranks; the first one is rank `7 - i`.
unfoldable pub parse_ranks : List Bytes → ℕ → List Piece → Result FenError (List Piece)
unfolding parse_rank
parse_ranks [] i s = ok s
parse_ranks (r ∷ rs) i s = parse_rank r (7 - i) 0 s >>= λ s'. parse_ranks rs (i + 1) s'

abbrev pub no_squares : List Piece
no_squares = replicate 64 empty

unfoldable pub parse_placement : Bytes → Result FenError (List Piece)
unfolding parse_ranks split
parse_placement text =
    let ranks = split text b'/' in
    if length ranks == 8 then parse_ranks ranks 0 no_squares else err bad_rank_count

unfoldable pub parse_side : Bytes → Result FenError Color
parse_side text =
    if bytes_eq text (b'w' ∷ [])
    then ok white
    else if bytes_eq text (b'b' ∷ [])
    then ok black
    else err bad_side

abbrev pub no_castling : Castling
no_castling = record {
  white_king = false;
  white_queen = false;
  black_king = false;
  black_queen = false;
}

-- The loop over the letters of the castling rights.
unfoldable pub parse_rights : Bytes → Castling → Result FenError Castling
parse_rights [] c = ok c
parse_rights (ch ∷ text) c = elim (ch == b'K') [
  | true ↦ parse_rights text (record c { white_king = true })
  | false ↦ elim (ch == b'Q') [
    | true ↦ parse_rights text (record c { white_queen = true })
    | false ↦ elim (ch == b'k') [
      | true ↦ parse_rights text (record c { black_king = true })
      | false ↦ elim (ch == b'q') [
        | true ↦ parse_rights text (record c { black_queen = true })
        | false ↦ err bad_castling
      ]
    ]
  ]
]

unfoldable pub parse_castling : Bytes → Result FenError Castling
unfolding parse_rights
parse_castling text =
    if bytes_eq text (b'-' ∷ []) then ok no_castling else parse_rights text no_castling

abbrev pub target_or_error : Option ℕ → Result FenError (Option ℕ)
target_or_error none = err bad_en_passant
target_or_error (some s) = ok (some s)

abbrev pub parse_two_bytes : Bytes → Result FenError (Option ℕ)
parse_two_bytes (f ∷ r ∷ []) = target_or_error (parse_square f r)
parse_two_bytes _ = err bad_en_passant

unfoldable pub parse_target : Bytes → Result FenError (Option ℕ)
unfolding parse_square
parse_target text = if bytes_eq text (b'-' ∷ []) then ok none else parse_two_bytes text

-- A clock: an int that is at least `least`.
abbrev pub clock_from : ℕ → FenError → Option ℤ → Result FenError ℕ
clock_from least e none = err e
clock_from least e (some (negsuc n)) = err e
clock_from least e (some (pos n)) = if ltb n least then err e else ok n

unfoldable pub parse_clock : ℕ → FenError → Bytes → Result FenError ℕ
unfolding atoi
parse_clock least e text = clock_from least e (atoi text)

unfoldable pub parse_fields : List Bytes → Result FenError Board
unfolding parse_placement parse_side parse_castling parse_target parse_clock
parse_fields (f0 ∷ f1 ∷ f2 ∷ f3 ∷ f4 ∷ f5 ∷ []) = do
  squares ← parse_placement f0
  turn ← parse_side f1
  castling ← parse_castling f2
  target ← parse_target f3
  half_move ← parse_clock 0 bad_half_move f4
  full_move ← parse_clock 1 bad_full_move f5
  ok (record {
    squares = squares;
    turn = turn;
    castling = castling;
    en_passant = target;
    half_move = half_move;
    full_move = full_move;
  })
parse_fields _ = err bad_field_count

unfoldable pub parse_fen : Bytes → Result FenError Board
unfolding parse_fields fields
parse_fen text = parse_fields (fields text)

abbrev pub start_fen : Bytes
start_fen = codes "rnbqkbnr/pppppppp/8/8/8/8/PPPPPPPP/RNBQKBNR w KQkq - 0 1"

-- NewBoard panics if this is an error.
unfoldable pub new_board : Result FenError Board
unfolding parse_fen
new_board = parse_fen start_fen
