-- ===== src/Chess/MoveGen/Sound.antt =====
-- Every move that pseudoLegalMoves generates starts from a piece of the side to move and lands on
-- the board, on an empty square or on a piece of the opponent: pkg/chess/movegen.go.
use alekhines_counter_gambit.Base.{
  &&-left, &&-right, Bool, Bool-cases, List, [], arith, false, if◌then◌else◌, inl, inr, refl, suc,
  true, zero, ℕ, ◌%◌, ◌&&◌, ◌++◌, ◌+◌, ◌/◌, ◌<◌, ◌==◌, ◌∷◌, ◌≡◌, ◌≤◌,
}
use alekhines_counter_gambit.Base.All.{All, All-append, All-if, All-one, cons, nil}
use alekhines_counter_gambit.Base.Int.{pos, ℤ, ◌+ℤ◌}
use alekhines_counter_gambit.Chess.Attack.{
  Delta, bishop_dirs, king_deltas, knight_deltas, minus_one, ray_fuel, rook_dirs,
}
use alekhines_counter_gambit.Chess.Board.{Board, in_range, on_board, piece_at, piece_on, sq}
use alekhines_counter_gambit.Chess.Move.{plain}
use alekhines_counter_gambit.Chess.Move.RoundTrip.{IsPromotion}
use alekhines_counter_gambit.Chess.MoveGen.{
  add_pawn_move, attacked, castle_king_side, castle_queen_side, castle_side, gen_capture,
  gen_castling, gen_pawn, gen_pushes, gen_ray, gen_sliding, gen_square, gen_squares, gen_step,
  gen_type, holds, is_target, only_if, pawn_dir, pawn_double, pseudo_legal_moves, start_rank,
  to_square,
}
use alekhines_counter_gambit.Chess.MoveGen.Landing.{
  IsSound, double-on_board, empty-is_free, enemy-is_free, file_in_range, is_free, is_own,
  make_piece-own, on_board-to_square,
}
use alekhines_counter_gambit.Chess.Piece.{
  Color, PieceType, bishop, black, color_eq, is_empty, king, knight, make_piece, no_piece_type,
  pawn, queen, rook, white,
}
use mathlib.Core.Bool.{not}

module _ (b : Board) (us : Color) (s : ℕ) (hs : s < 64)
    (own : is_own us (piece_at b s) ≡ true) where
  plain-IsSound : (t : ℕ) → t < 64 → is_free us (piece_at b t) ≡ true → IsSound b us (plain s t)
  plain-IsSound t ht free = record {
    from_on_board = hs;
    to_on_board = ht;
    own = own;
    free = free;
    promotion = tt;
  }

  only_if-IsSound :
      (test : Bool) (t : ℕ)
      → (test ≡ true → t < 64)
      → (test ≡ true → is_free us (piece_at b t) ≡ true)
      → All (IsSound b us) (only_if test (plain s t ∷ []))
  only_if-IsSound true t ht free = All-one (plain-IsSound t (ht refl) (free refl))
  only_if-IsSound false t ht free = nil

  add_pawn_move-IsSound :
      (t : ℕ) (promo : Bool)
      → t < 64
      → is_free us (piece_at b t) ≡ true
      → All (IsSound b us) (add_pawn_move s t promo)
  unfolding add_pawn_move
  add_pawn_move-IsSound t false ht free = All-one (plain-IsSound t ht free)
  add_pawn_move-IsSound t true ht free =
      cons (promoted queen tt)
        (cons (promoted rook tt) (cons (promoted bishop tt) (All-one (promoted knight tt))))
    where
      promoted :
          (p : PieceType)
          → IsPromotion p
          → IsSound b us (record { from = s; to = t; promotion = p })
      promoted p hp = record {
        from_on_board = hs;
        to_on_board = ht;
        own = own;
        free = free;
        promotion = hp;
      }

  gen_step-IsSound : (ds : List Delta) → All (IsSound b us) (gen_step b s us ds)
  unfolding gen_step
  gen_step-IsSound [] = nil
  gen_step-IsSound ((df, dr) ∷ ds) =
      All-append
        (only_if-IsSound _ _
          (λ h. on_board-to_square (pos (s % 8) +ℤ df) (pos (s / 8) +ℤ dr) (ground arith))
          (λ h. ground arith))
        (gen_step-IsSound ds)

  gen_ray-IsSound :
      (d : Delta) (fuel : ℕ) (f r : ℤ) → All (IsSound b us) (gen_ray b s us d fuel f r)
  unfolding gen_ray
  gen_ray-IsSound d zero f r = nil
  gen_ray-IsSound (df, dr) (suc fuel) f r = elim (Bool-cases (on_board f r)) [
    | inr off ↦ rw (off, gen_ray) nil
    | inl on ↦ elim (Bool-cases (is_empty (piece_on b f r))) [
      | inl e ↦
          rw (on, e, gen_ray)
            (cons (plain-IsSound (to_square f r) (on_board-to_square f r on) (rw e))
              (gen_ray-IsSound (df, dr) fuel (f +ℤ df) (r +ℤ dr)))
      | inr n ↦
          rw (on, n, gen_ray)
            (only_if-IsSound _ (to_square f r) (λ h. on_board-to_square f r on) (λ h. rw n h))
    ]
  ]

  gen_sliding-IsSound : (ds : List Delta) → All (IsSound b us) (gen_sliding b s us ds)
  unfolding gen_sliding
  gen_sliding-IsSound [] = nil
  gen_sliding-IsSound ((df, dr) ∷ ds) =
      All-append (gen_ray-IsSound (df, dr) ray_fuel (pos (s % 8) +ℤ df) (pos (s / 8) +ℤ dr))
        (gen_sliding-IsSound ds)

  pushes-IsSound :
      (one two : ℕ) (test promo start : Bool)
      → (test ≡ true → one < 64)
      → (start ≡ true → two < 64)
      → All (IsSound b us) (
          if test && is_empty (piece_at b one)
          then add_pawn_move s one promo
            ++ only_if (start && is_empty (piece_at b two)) (plain s two ∷ [])
          else [])
  pushes-IsSound one two test promo start h1 h2 = All-if (test && is_empty (piece_at b one)) _ (λ h.
      All-append
        (add_pawn_move-IsSound one promo (h1 (&&-left test _ h))
          (empty-is_free us (piece_at b one) (&&-right test _ h)))
        (only_if-IsSound _ two (λ k. h2 (&&-left start _ k))
          (λ k. empty-is_free us (piece_at b two) (&&-right start _ k))))

  gen_pushes-IsSound : All (IsSound b us) (gen_pushes b s us)
  unfolding gen_pushes
  gen_pushes-IsSound =
      let one_rank = pos (s / 8) +ℤ pawn_dir us in
      pushes-IsSound (to_square (pos (s % 8)) one_rank)
        (to_square (pos (s % 8)) (pos (s / 8) +ℤ pawn_double us)) (in_range one_rank) _
        (s / 8 == start_rank us)
        (λ h. on_board-to_square (pos (s % 8)) one_rank (file_in_range s one_rank h))
        (double-on_board us s)

  capture-IsSound :
      (t : ℕ) (promo target : Bool)
      → t < 64
      → All (IsSound b us) (
          if not (is_empty (piece_at b t)) && not (color_eq (piece_at b t).color us)
          then add_pawn_move s t promo
          else only_if (target && is_empty (piece_at b t)) (plain s t ∷ []))
  capture-IsSound t promo target ht =
      elim (Bool-cases (not (is_empty (piece_at b t)) && not (color_eq (piece_at b t).color us))) [
        | inl e ↦ rw e (add_pawn_move-IsSound t promo ht (enemy-is_free us (piece_at b t) e))
        | inr e ↦ rw e (
            only_if-IsSound _ t (λ k. ht)
              (λ k. empty-is_free us (piece_at b t) (&&-right target _ k)))
      ]

  gen_capture-IsSound : (df : ℤ) → All (IsSound b us) (gen_capture b s us df)
  unfolding gen_capture
  gen_capture-IsSound df =
      let nf = pos (s % 8) +ℤ df in
      let nr = pos (s / 8) +ℤ pawn_dir us in
      let t = to_square nf nr in
      All-if (on_board nf nr) _
        (λ h. capture-IsSound t _ (is_target b.en_passant t) (on_board-to_square nf nr h))

  gen_pawn-IsSound : All (IsSound b us) (gen_pawn b s us)
  unfolding gen_pawn
  gen_pawn-IsSound =
      All-append gen_pushes-IsSound
        (All-append (gen_capture-IsSound minus_one) (gen_capture-IsSound (pos 1)))

module _ (b : Board) (us : Color) where
  castle_king_side-IsSound :
      (rank : ℕ) (right : Bool)
      → rank < 8
      → is_own us (piece_at b (sq 4 rank)) ≡ true
      → All (IsSound b us) (castle_king_side b us rank right)
  unfolding castle_king_side
  castle_king_side-IsSound rank right hr own =
      only_if-IsSound b us (sq 4 rank) (omega arith) own _ (sq 6 rank) (λ h. omega arith)
        (λ h. empty-is_free us (piece_at b (sq 6 rank)) (ground arith))

  castle_queen_side-IsSound :
      (rank : ℕ) (right : Bool)
      → rank < 8
      → is_own us (piece_at b (sq 4 rank)) ≡ true
      → All (IsSound b us) (castle_queen_side b us rank right)
  unfolding castle_queen_side
  castle_queen_side-IsSound rank right hr own =
      only_if-IsSound b us (sq 4 rank) (omega arith) own _ (sq 2 rank) (λ h. omega arith)
        (λ h. empty-is_free us (piece_at b (sq 2 rank)) (ground arith))

  castle_side-IsSound :
      (rank : ℕ) (king_right queen_right : Bool)
      → rank < 8
      → All (IsSound b us) (castle_side b us rank king_right queen_right)
  unfolding castle_side
  castle_side-IsSound rank king_right queen_right hr =
      All-if (holds b (sq 4 rank) (make_piece us king) && not (attacked b us (sq 4 rank))) _ (λ h.
        let own = make_piece-own us king (piece_at b (sq 4 rank)) (λ e. cc) (&&-left _ _ h) in
        All-append (castle_king_side-IsSound rank king_right hr own)
          (castle_queen_side-IsSound rank queen_right hr own))

gen_castling-IsSound : (b : Board) (us : Color) → All (IsSound b us) (gen_castling b us)
unfolding gen_castling
gen_castling-IsSound b white = castle_side-IsSound b white 0 _ _ (omega arith)
gen_castling-IsSound b black = castle_side-IsSound b black 7 _ _ (omega arith)

gen_type-IsSound :
    (b : Board) (us : Color) (s : ℕ) (t : PieceType)
    → s < 64
    → is_own us (piece_at b s) ≡ true
    → All (IsSound b us) (gen_type b t s us)
unfolding gen_type
gen_type-IsSound b us s no_piece_type hs own = nil
gen_type-IsSound b us s pawn hs own = gen_pawn-IsSound b us s hs own
gen_type-IsSound b us s knight hs own = gen_step-IsSound b us s hs own knight_deltas
gen_type-IsSound b us s bishop hs own = gen_sliding-IsSound b us s hs own bishop_dirs
gen_type-IsSound b us s rook hs own = gen_sliding-IsSound b us s hs own rook_dirs
gen_type-IsSound b us s queen hs own =
    All-append (gen_sliding-IsSound b us s hs own bishop_dirs)
      (gen_sliding-IsSound b us s hs own rook_dirs)
gen_type-IsSound b us s king hs own =
    All-append (gen_step-IsSound b us s hs own king_deltas) (gen_castling-IsSound b us)

gen_squares-IsSound :
    (b : Board) (left s : ℕ) → s + left ≤ 64 → All (IsSound b b.turn) (gen_squares b left s)
unfolding gen_squares gen_square
gen_squares-IsSound b zero s h = nil
gen_squares-IsSound b (suc left) s h =
    All-append
      (All-if (is_own b.turn (piece_at b s)) _
        (λ own. gen_type-IsSound b b.turn s (piece_at b s).piece_type (omega arith) own))
      (gen_squares-IsSound b left (suc s) (omega arith))

-- Every pseudo-legal move starts on a square of the board that holds a piece of the side to move, and
-- ends on a square of the board that is empty or holds a piece of the other color; it promotes to a
-- knight, a bishop, a rook, a queen or to nothing.
pub pseudo_legal_moves-IsSound : (b : Board) → All (IsSound b b.turn) (pseudo_legal_moves b)
unfolding pseudo_legal_moves
pseudo_legal_moves-IsSound b = gen_squares-IsSound b 64 0 (omega arith)
