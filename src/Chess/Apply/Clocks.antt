-- ===== src/Chess/Apply/Clocks.antt =====
-- What a move does to the side to move, the clocks, the castling rights and the en-passant target:
-- applyMoveUnchecked and updateCastlingRights of pkg/chess/movegen.go.
use alekhines_counter_gambit.Base.{Bool, ap, arith, true, ℕ, ◌&&◌, ◌==◌, ◌∙◌, ◌≡◌}
use alekhines_counter_gambit.Chess.Apply.{
  clear_for_square, is_king, king_moved, update_castling_rights,
}
use alekhines_counter_gambit.Chess.Board.{Castling, sq}
use alekhines_counter_gambit.Chess.Move.{Move}
use alekhines_counter_gambit.Chess.Piece.{Color, Piece, black, color_eq, white}
use mathlib.Core.Bool.{not}

-- Every right of the first is one of the second.
pub record IsSubset (c d : Castling) : Type 0 where
  pub white_king : c.white_king ≡ true → d.white_king ≡ true
  pub white_queen : c.white_queen ≡ true → d.white_queen ≡ true
  pub black_king : c.black_king ≡ true → d.black_king ≡ true
  pub black_queen : c.black_queen ≡ true → d.black_queen ≡ true

clear_for_square-IsSubset : (s : ℕ) (c : Castling) → IsSubset (clear_for_square s c) c
clear_for_square-IsSubset s c = ground arith

king_moved-IsSubset : (p : Piece) (c : Castling) → IsSubset (king_moved p c) c
king_moved-IsSubset p c = ground arith

pub IsSubset-trans : (c d e : Castling) → IsSubset c d → IsSubset d e → IsSubset c e
IsSubset-trans c d e h k = record {
  white_king = λ x. k.white_king (h.white_king x);
  white_queen = λ x. k.white_queen (h.white_queen x);
  black_king = λ x. k.black_king (h.black_king x);
  black_queen = λ x. k.black_queen (h.black_queen x);
}

-- No move gives a castling right back.
pub update_castling_rights-IsSubset :
    (m : Move) (p : Piece) (c : Castling) → IsSubset (update_castling_rights m p c) c
unfolding update_castling_rights
update_castling_rights-IsSubset m p c =
    IsSubset-trans _ _ _ (clear_for_square-IsSubset m.to _)
      (IsSubset-trans _ _ _ (clear_for_square-IsSubset m.from _) (king_moved-IsSubset p c))

-- A king of color `us`.
abbrev pub is_king_of : Color → Piece → Bool
is_king_of us p = is_king p && color_eq p.color us

clear_for_square_lem :
    (s : ℕ) (c : Castling)
    → ((clear_for_square s c).white_king ≡ (c.white_king && not (s == 7)))
      × ((clear_for_square s c).white_queen ≡ (c.white_queen && not (s == 0)))
      × ((clear_for_square s c).black_king ≡ (c.black_king && not (s == 63)))
      × ((clear_for_square s c).black_queen ≡ (c.black_queen && not (s == 56)))
clear_for_square_lem s c = (ground arith, ground arith, ground arith, ground arith)

king_moved_lem :
    (p : Piece) (c : Castling)
    → ((king_moved p c).white_king ≡ (c.white_king && not (is_king_of white p)))
      × ((king_moved p c).white_queen ≡ (c.white_queen && not (is_king_of white p)))
      × ((king_moved p c).black_king ≡ (c.black_king && not (is_king_of black p)))
      × ((king_moved p c).black_queen ≡ (c.black_queen && not (is_king_of black p)))
king_moved_lem p c = (ground arith, ground arith, ground arith, ground arith)

-- A right survives a move.
abbrev pub survives : Bool → Color → Piece → ℕ → Move → Bool
survives right us p home m =
    ((right && not (is_king_of us p)) && not (m.from == home)) && not (m.to == home)

-- The rights after a move, exactly: a right is left when it was there, the piece that moves is not
-- the king of its color, and the move neither starts nor ends on its rook's home square.
pub update_castling_rights_lem :
    (m : Move) (p : Piece) (c : Castling)
    → let d = update_castling_rights m p c in
      (d.white_king ≡ survives c.white_king white p (sq 7 0) m)
      × (d.white_queen ≡ survives c.white_queen white p (sq 0 0) m)
      × (d.black_king ≡ survives c.black_king black p (sq 7 7) m)
      × (d.black_queen ≡ survives c.black_queen black p (sq 0 7) m)
unfolding update_castling_rights
update_castling_rights_lem m p c =
    let (k0, k1, k2, k3) = king_moved_lem p c in
    let (f0, f1, f2, f3) = clear_for_square_lem m.from (king_moved p c) in
    let (t0, t1, t2, t3) = clear_for_square_lem m.to (clear_for_square m.from (king_moved p c)) in
    (
      t0 ∙ ap (λ x. x && not (m.to == 7)) (f0 ∙ ap (λ x. x && not (m.from == 7)) k0),
      t1 ∙ ap (λ x. x && not (m.to == 0)) (f1 ∙ ap (λ x. x && not (m.from == 0)) k1),
      t2 ∙ ap (λ x. x && not (m.to == 63)) (f2 ∙ ap (λ x. x && not (m.from == 63)) k2),
      t3 ∙ ap (λ x. x && not (m.to == 56)) (f3 ∙ ap (λ x. x && not (m.from == 56)) k3),
    )
