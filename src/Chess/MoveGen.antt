-- ===== src/Chess/MoveGen.antt =====
-- Pseudo-legal moves: pseudoLegalMoves and the generators of pkg/chess/movegen.go.
-- A generator of the source appends to the slice `moves`; here it returns what it appends.
pub mod Landing
pub mod Sound
use alekhines_counter_gambit.Base.{
  Bool, List, Option, [], false, if◌then◌else◌, none, some, suc, true, zero, ℕ, ◌%◌, ◌&&◌, ◌++◌,
  ◌/◌, ◌==◌, ◌∷◌,
}
use alekhines_counter_gambit.Base.Int.{pos, pos_part, ℤ, ◌+ℤ◌}
use alekhines_counter_gambit.Chess.Attack.{
  Delta, bishop_dirs, is_attacked, king_deltas, knight_deltas, minus_one, minus_two, ray_fuel,
  rook_dirs,
}
use alekhines_counter_gambit.Chess.Board.{Board, in_range, on_board, piece_at, piece_on, sq}
use alekhines_counter_gambit.Chess.Move.{Move, plain}
use alekhines_counter_gambit.Chess.Piece.{
  Color, Piece, PieceType, bishop, black, color_eq, is_empty, king, knight, make_piece,
  no_piece_type, opposite, pawn, piece_eq, queen, rook, white,
}
use mathlib.Core.Bool.{not}

-- `if test { moves = append(moves, …) }`
abbrev pub only_if : Bool → List Move → List Move
only_if true ms = ms
only_if false ms = []

abbrev pub to_square : ℤ → ℤ → ℕ
to_square f r = sq (pos_part f) (pos_part r)

-- addPawnMove
unfoldable pub add_pawn_move : ℕ → ℕ → Bool → List Move
add_pawn_move from to false = plain from to ∷ []
add_pawn_move from to true =
    record { from = from; to = to; promotion = queen }
    ∷ record { from = from; to = to; promotion = rook }
    ∷ record { from = from; to = to; promotion = bishop }
    ∷ record { from = from; to = to; promotion = knight }
    ∷ []

-- The direction, the starting rank and the promotion rank of a color's pawns.
abbrev pub pawn_dir : Color → ℤ
pawn_dir white = pos 1
pawn_dir black = minus_one

abbrev pub pawn_double : Color → ℤ
pawn_double white = pos 2
pawn_double black = minus_two

abbrev pub start_rank : Color → ℕ
start_rank white = 1
start_rank black = 6

abbrev pub promo_rank : Color → ℕ
promo_rank white = 7
promo_rank black = 0

-- `t == b.EnPassant`
abbrev pub is_target : Option ℕ → ℕ → Bool
is_target none t = false
is_target (some e) t = t == e

module _ (b : Board) where
  abbrev pub may_land : Color → ℤ → ℤ → Bool
  may_land us f r =
      if is_empty (piece_on b f r) then true else not (color_eq (piece_on b f r).color us)

  unfoldable pub gen_step : ℕ → Color → List Delta → List Move
  unfolding ◌+ℤ◌
  gen_step s us [] = []
  gen_step s us ((df, dr) ∷ ds) =
      let nf = pos (s % 8) +ℤ df in
      let nr = pos (s / 8) +ℤ dr in
      only_if (on_board nf nr && may_land us nf nr) (plain s (to_square nf nr) ∷ [])
      ++ gen_step s us ds

  -- One ray: empty squares, and the first piece if it is the enemy's.
  unfoldable pub gen_ray : ℕ → Color → Delta → ℕ → ℤ → ℤ → List Move
  unfolding ◌+ℤ◌
  gen_ray s us d zero f r = []
  gen_ray s us (df, dr) (suc fuel) f r = elim (on_board f r) [
    | false ↦ []
    | true ↦ elim (is_empty (piece_on b f r)) [
      | true ↦ plain s (to_square f r) ∷ gen_ray s us (df, dr) fuel (f +ℤ df) (r +ℤ dr)
      | false ↦ only_if (not (color_eq (piece_on b f r).color us)) (plain s (to_square f r) ∷ [])
    ]
  ]

  unfoldable pub gen_sliding : ℕ → Color → List Delta → List Move
  unfolding gen_ray ◌+ℤ◌
  gen_sliding s us [] = []
  gen_sliding s us ((df, dr) ∷ ds) =
      gen_ray s us (df, dr) ray_fuel (pos (s % 8) +ℤ df) (pos (s / 8) +ℤ dr) ++ gen_sliding s us ds

  -- The single and the double push.
  unfoldable pub gen_pushes : ℕ → Color → List Move
  unfolding add_pawn_move ◌+ℤ◌
  gen_pushes s us =
      let f = pos (s % 8) in
      let one_rank = pos (s / 8) +ℤ pawn_dir us in
      let two_rank = pos (s / 8) +ℤ pawn_double us in
      let one = to_square f one_rank in
      let two = to_square f two_rank in
      if in_range one_rank && is_empty (piece_at b one)
      then add_pawn_move s one (pos_part one_rank == promo_rank us)
        ++ only_if (s / 8 == start_rank us && is_empty (piece_at b two)) (plain s two ∷ [])
      else []

  -- The captures towards file offset `df`, en passant included.
  unfoldable pub gen_capture : ℕ → Color → ℤ → List Move
  unfolding add_pawn_move ◌+ℤ◌
  gen_capture s us df =
      let nf = pos (s % 8) +ℤ df in
      let nr = pos (s / 8) +ℤ pawn_dir us in
      let t = to_square nf nr in
      if on_board nf nr
      then if not (is_empty (piece_at b t)) && not (color_eq (piece_at b t).color us)
        then add_pawn_move s t (pos_part nr == promo_rank us)
        else only_if (is_target b.en_passant t && is_empty (piece_at b t)) (plain s t ∷ [])
      else []

  unfoldable pub gen_pawn : ℕ → Color → List Move
  unfolding gen_pushes gen_capture
  gen_pawn s us = gen_pushes s us ++ (gen_capture s us minus_one ++ gen_capture s us (pos 1))

  -- The conditions of one castling: `right`, the squares that are empty, those that are not
  -- attacked, and the rook's.
  abbrev pub attacked : Color → ℕ → Bool
  attacked us s = is_attacked b (pos s) (opposite us)

  abbrev pub vacant : ℕ → Bool
  vacant s = is_empty (piece_at b s)

  abbrev pub holds : ℕ → Piece → Bool
  holds s p = piece_eq (piece_at b s) p

  unfoldable pub castle_king_side : Color → ℕ → Bool → List Move
  castle_king_side us rank right =
      only_if
        (right
          && (vacant (sq 5 rank)
              && (vacant (sq 6 rank)
                  && (not (attacked us (sq 5 rank))
                      && (not (attacked us (sq 6 rank))
                          && holds (sq 7 rank) (make_piece us rook))))))
        (plain (sq 4 rank) (sq 6 rank) ∷ [])

  unfoldable pub castle_queen_side : Color → ℕ → Bool → List Move
  castle_queen_side us rank right =
      only_if
        (right
          && (vacant (sq 1 rank)
              && (vacant (sq 2 rank)
                  && (vacant (sq 3 rank)
                      && (not (attacked us (sq 2 rank))
                          && (not (attacked us (sq 3 rank))
                              && holds (sq 0 rank) (make_piece us rook)))))))
        (plain (sq 4 rank) (sq 2 rank) ∷ [])

  -- One color's half of genCastling: its king on its square and not in check.
  unfoldable pub castle_side : Color → ℕ → Bool → Bool → List Move
  unfolding castle_king_side castle_queen_side
  castle_side us rank king_right queen_right =
      if holds (sq 4 rank) (make_piece us king) && not (attacked us (sq 4 rank))
      then castle_king_side us rank king_right ++ castle_queen_side us rank queen_right
      else []

  unfoldable pub gen_castling : Color → List Move
  unfolding castle_side
  gen_castling white = castle_side white 0 b.castling.white_king b.castling.white_queen
  gen_castling black = castle_side black 7 b.castling.black_king b.castling.black_queen

  -- The `switch` on the type of the piece on `s`.
  unfoldable pub gen_type : PieceType → ℕ → Color → List Move
  unfolding gen_pawn gen_step gen_sliding gen_castling
  gen_type pawn s us = gen_pawn s us
  gen_type knight s us = gen_step s us knight_deltas
  gen_type king s us = gen_step s us king_deltas ++ gen_castling us
  gen_type bishop s us = gen_sliding s us bishop_dirs
  gen_type rook s us = gen_sliding s us rook_dirs
  gen_type queen s us = gen_sliding s us bishop_dirs ++ gen_sliding s us rook_dirs
  gen_type no_piece_type s us = []

  -- One round of the loop over the squares.
  unfoldable pub gen_square : ℕ → List Move
  unfolding gen_type
  gen_square s =
      let p = piece_at b s in
      if not (is_empty p) && color_eq p.color b.turn then gen_type p.piece_type s b.turn else []

  -- The loop from `s` with `left` squares to go.
  unfoldable pub gen_squares : ℕ → ℕ → List Move
  unfolding gen_square
  gen_squares zero s = []
  gen_squares (suc left) s = gen_square s ++ gen_squares left (suc s)

  unfoldable pub pseudo_legal_moves : List Move
  unfolding gen_squares
  pseudo_legal_moves = gen_squares 64 0
