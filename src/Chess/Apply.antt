-- ===== src/Chess/Apply.antt =====
-- Applying a move: applyMoveUnchecked and updateCastlingRights of pkg/chess/movegen.go.
pub mod WellFormed
pub mod Clocks
pub mod Letters
use alekhines_counter_gambit.Base.{
  Bool, List, Option, false, get_or, if◌then◌else◌, ltb, none, set, some, ℕ, ◌&&◌, ◌+◌, ◌-◌, ◌/◌,
  ◌==◌, ◌||◌,
}
use alekhines_counter_gambit.Chess.Board.{Board, Castling, file_of, piece_at, rank_of, sq}
use alekhines_counter_gambit.Chess.Move.{Move}
use alekhines_counter_gambit.Chess.MoveGen.{is_target}
use alekhines_counter_gambit.Chess.Piece.{
  Color, Piece, black, color_eq, empty, is_empty, king, make_piece, no_piece_type, opposite, pawn,
  type_eq, white,
}
use mathlib.Core.Bool.{not}

abbrev pub Squares : Type 0
Squares = List Piece

-- `abs(x - y)` of two squares' files or ranks.
abbrev pub distance : ℕ → ℕ → ℕ
distance x y = (x - y) + (y - x)

-- The square behind the target of an en-passant capture. `none` is an index below the array, at
-- which the source would panic; a write past its end changes nothing here.
abbrev pub behind : Color → ℕ → Option ℕ
behind white to = if ltb to 8 then none else some (to - 8)
behind black to = some (to + 8)

abbrev pub clear_at : Option ℕ → Squares → Squares
clear_at none s = s
clear_at (some i) s = set s i empty

-- The moving piece on its target, and its origin empty.
abbrev pub move_piece : Move → Piece → Squares → Squares
move_piece m moving s = set (set s m.to moving) m.from empty

abbrev pub is_pawn : Piece → Bool
is_pawn p = type_eq p.piece_type pawn

abbrev pub is_king : Piece → Bool
is_king p = type_eq p.piece_type king

abbrev pub capture_en_passant : Color → Bool → Option ℕ → Squares → Squares
capture_en_passant us test victim s = if test then clear_at victim s else s

abbrev pub promote : Color → Move → Squares → Squares
promote us m s =
    if type_eq m.promotion no_piece_type then s else set s m.to (make_piece us m.promotion)

-- `nb.squares[to] = nb.squares[from]; nb.squares[from] = Empty`
abbrev pub move_rook : (ℕ → Piece) → ℕ → ℕ → Squares → Squares
move_rook read from to s = set (set s to (read from)) from empty

-- Whether the move is a castling: a king that goes two files.
abbrev pub is_castling : Piece → Move → Bool
is_castling moving m = is_king moving && distance (file_of m.to) (file_of m.from) == 2

abbrev pub rook_from : Move → ℕ
rook_from m = if file_of m.to == 6 then sq 7 (rank_of m.from) else sq 0 (rank_of m.from)

abbrev pub rook_to : Move → ℕ
rook_to m = if file_of m.to == 6 then sq 5 (rank_of m.from) else sq 3 (rank_of m.from)

abbrev pub read_square : Squares → ℕ → Piece
read_square s i = get_or s i empty

abbrev pub castle : Piece → Move → Squares → Squares
castle moving m s =
    if is_castling moving m then move_rook (read_square s) (rook_from m) (rook_to m) s else s

-- The squares after the move.
unfoldable pub squares_after : Board → Move → Squares
squares_after b m =
    let moving = piece_at b m.from in
    let captured = piece_at b m.to in
    let moved = move_piece m moving b.squares in
    let passed =
      capture_en_passant b.turn
        (is_pawn moving && (is_target b.en_passant m.to && is_empty captured)) (behind b.turn m.to)
        moved in
    castle moving m (promote b.turn m passed)

-- The rights that a king's move forfeits.
abbrev pub king_moved : Piece → Castling → Castling
king_moved moving c =
    if is_king moving
    then if color_eq moving.color white
      then record c { white_king = false; white_queen = false }
      else record c { black_king = false; black_queen = false }
    else c

-- clearForSquare
abbrev pub clear_for_square : ℕ → Castling → Castling
clear_for_square s c =
    if s == sq 0 0
    then record c { white_queen = false }
    else if s == sq 7 0
    then record c { white_king = false }
    else if s == sq 0 7
    then record c { black_queen = false }
    else if s == sq 7 7
    then record c { black_king = false }
    else c

unfoldable pub update_castling_rights : Move → Piece → Castling → Castling
update_castling_rights m moving c =
    clear_for_square m.to (clear_for_square m.from (king_moved moving c))

-- The target behind a double pawn push.
unfoldable pub en_passant_after : Board → Move → Option ℕ
en_passant_after b m =
    if is_pawn (piece_at b m.from) && distance (rank_of m.to) (rank_of m.from) == 2
    then some ((m.from + m.to) / 2)
    else none

unfoldable pub half_move_after : Board → Move → ℕ
half_move_after b m =
    if is_pawn (piece_at b m.from) || not (is_empty (piece_at b m.to)) then 0 else b.half_move + 1

abbrev pub full_move_after : Color → ℕ → ℕ
full_move_after white n = n
full_move_after black n = n + 1

unfoldable pub apply_move_unchecked : Board → Move → Board
apply_move_unchecked b m = record {
  squares = squares_after b m;
  turn = opposite b.turn;
  castling = update_castling_rights m (piece_at b m.from) b.castling;
  en_passant = en_passant_after b m;
  half_move = half_move_after b m;
  full_move = full_move_after b.turn b.full_move;
}
