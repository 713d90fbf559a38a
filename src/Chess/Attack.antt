-- ===== src/Chess/Attack.antt =====
-- Attacks: IsAttacked, slidingAttack and InCheck of pkg/chess/board.go.
use alekhines_counter_gambit.Base.{
  ℕ, zero, suc, Bool, true, false, ◌&&◌, ◌||◌, Option, none, some, List, [], ◌∷◌,
}
use alekhines_counter_gambit.Base.Int.{ℤ, pos, negsuc, ◌+ℤ◌}
use alekhines_counter_gambit.Chess.Piece.{
  Color, white, black, PieceType, pawn, knight, bishop, rook, queen, king, opposite, color_eq,
  type_eq, make_piece, piece_eq, is_empty,
}
use alekhines_counter_gambit.Chess.Board.{
  Board, int_file_of, int_rank_of, in_range, on_board, piece_on, king_square,
}

-- A (file, rank) offset.
abbrev pub Delta : Type 0
Delta = ℤ × ℤ

abbrev pub minus_one : ℤ
minus_one = negsuc 0

abbrev pub minus_two : ℤ
minus_two = negsuc 1

abbrev pub knight_deltas : List Delta
knight_deltas =
    (pos 1, pos 2)
    ∷ (pos 2, pos 1)
    ∷ (pos 2, minus_one)
    ∷ (pos 1, minus_two)
    ∷ (minus_one, minus_two)
    ∷ (minus_two, minus_one)
    ∷ (minus_two, pos 1)
    ∷ (minus_one, pos 2)
    ∷ []

abbrev pub king_deltas : List Delta
king_deltas =
    (pos 1, pos 0)
    ∷ (pos 1, pos 1)
    ∷ (pos 0, pos 1)
    ∷ (minus_one, pos 1)
    ∷ (minus_one, pos 0)
    ∷ (minus_one, minus_one)
    ∷ (pos 0, minus_one)
    ∷ (pos 1, minus_one)
    ∷ []

abbrev pub bishop_dirs : List Delta
bishop_dirs = (pos 1, pos 1) ∷ (pos 1, minus_one) ∷ (minus_one, pos 1) ∷ (minus_one, minus_one) ∷ []

abbrev pub rook_dirs : List Delta
rook_dirs = (pos 1, pos 0) ∷ (minus_one, pos 0) ∷ (pos 0, pos 1) ∷ (pos 0, minus_one) ∷ []

-- The rounds of a ray's loop: seven squares at most, and the test that leaves the board.
abbrev pub ray_fuel : ℕ
ray_fuel = 8

module _ (b : Board) where
  -- The two squares from which a pawn of color `by` attacks file `f`.
  pawn_on_either_side : Color → ℤ → ℤ → List ℤ → Bool
  pawn_on_either_side by f rank [] = false
  pawn_on_either_side by f rank (df ∷ dfs) =
      (in_range (f +ℤ df) && piece_eq (piece_on b (f +ℤ df) rank) (make_piece by pawn))
      || pawn_on_either_side by f rank dfs

  abbrev pawn_rank : Color → ℤ → ℤ
  pawn_rank white r = r +ℤ minus_one
  pawn_rank black r = r +ℤ pos 1

  unfoldable pub pawn_attack : Color → ℤ → ℤ → Bool
  unfolding pawn_on_either_side ◌+ℤ◌
  pawn_attack by f r =
      in_range (pawn_rank by r)
      && pawn_on_either_side by f (pawn_rank by r) (minus_one ∷ pos 1 ∷ [])

  -- The loops over knightDeltas and kingDeltas.
  unfoldable pub step_attack : PieceType → Color → List Delta → ℤ → ℤ → Bool
  unfolding ◌+ℤ◌
  step_attack t by [] f r = false
  step_attack t by ((df, dr) ∷ ds) f r =
      (on_board (f +ℤ df) (r +ℤ dr) && piece_eq (piece_on b (f +ℤ df) (r +ℤ dr)) (make_piece by t))
      || step_attack t by ds f r

  -- One ray: the first piece on it decides.
  unfoldable pub ray_attack : PieceType → Color → Delta → ℕ → ℤ → ℤ → Bool
  unfolding ◌+ℤ◌
  ray_attack slider by d zero f r = false
  ray_attack slider by (df, dr) (suc fuel) f r = elim (on_board f r) [
    | false ↦ false
    | true ↦ elim (is_empty (piece_on b f r)) [
      | true ↦ ray_attack slider by (df, dr) fuel (f +ℤ df) (r +ℤ dr)
      | false ↦
          let p = piece_on b f r in
          color_eq p.color by && (type_eq p.piece_type slider || type_eq p.piece_type queen)
    ]
  ]

  unfoldable pub sliding_attack : PieceType → Color → List Delta → ℤ → ℤ → Bool
  unfolding ray_attack ◌+ℤ◌
  sliding_attack slider by [] f r = false
  sliding_attack slider by ((df, dr) ∷ ds) f r =
      ray_attack slider by (df, dr) ray_fuel (f +ℤ df) (r +ℤ dr) || sliding_attack slider by ds f r

  unfoldable pub is_attacked : ℤ → Color → Bool
  unfolding pawn_attack step_attack sliding_attack
  is_attacked s by =
      let f = int_file_of s in
      let r = int_rank_of s in
      pawn_attack by f r
      || (step_attack knight by knight_deltas f r
          || (step_attack king by king_deltas f r
              || (sliding_attack bishop by bishop_dirs f r
                  || sliding_attack rook by rook_dirs f r)))

unfoldable pub in_check_at : Board → Option ℕ → Bool
in_check_at b none = false
in_check_at b (some s) = is_attacked b (pos s) (opposite b.turn)

unfoldable pub in_check : Board → Bool
unfolding in_check_at king_square
in_check b = in_check_at b (king_square b b.turn)
