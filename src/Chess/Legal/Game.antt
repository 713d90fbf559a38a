-- ===== src/Chess/Legal/Game.antt =====
-- What the moves of a game keep: ApplyUCI of pkg/chess/movegen.go.
use alekhines_counter_gambit.Base.{Bool, ap, arith, false, refl, true, ℕ, ◌||◌, ◌∙◌, ◌≡◌}
use alekhines_counter_gambit.Base.Result.{Result, err, ok}
use alekhines_counter_gambit.Base.Text.{Bytes}
use alekhines_counter_gambit.Chess.Apply.{
  apply_move_unchecked, clear_for_square, king_moved, update_castling_rights,
}
use alekhines_counter_gambit.Chess.Attack.{is_attacked}
use alekhines_counter_gambit.Chess.Board.{Board, Castling, int_square, king_square, piece_at}
use alekhines_counter_gambit.Chess.Legal.{apply_parsed, apply_uci, leaves_king_safe}
use alekhines_counter_gambit.Chess.Legal.Laws.{apply_move-IsLegalMove}
use alekhines_counter_gambit.Chess.Move.{Move, MoveError, parse_uci_move}
use alekhines_counter_gambit.Chess.Piece.{Color, Piece, black, opposite, white}
use mathlib.Core.Bool.{not}

-- A position reached from `b` by moves that ApplyUCI accepts.
pub data Reach (b : Board) : Board → Type 0 where
  here : Reach b b
  played : {c d : Board} (text : Bytes) → Reach b c → apply_uci c text ≡ ok d → Reach b d

-- The side that has just moved is not in check: the square of its king is not attacked by the other.
abbrev pub IsSafe : Board → Type 0
IsSafe b = is_attacked b (int_square (king_square b (opposite b.turn))) b.turn ≡ false

-- Every castling right of `later` is one of `sooner`.
pub record IsFewer (sooner later : Castling) : Type 0 where
  pub white_short : (sooner.white_king || not later.white_king) ≡ true
  pub white_long : (sooner.white_queen || not later.white_queen) ≡ true
  pub black_short : (sooner.black_king || not later.black_king) ≡ true
  pub black_long : (sooner.black_queen || not later.black_queen) ≡ true

IsFewer-refl : (c : Castling) → IsFewer c c
IsFewer-refl c = record {
  white_short = ground arith;
  white_long = ground arith;
  black_short = ground arith;
  black_long = ground arith;
}

IsFewer-trans : (c d e : Castling) → IsFewer c d → IsFewer d e → IsFewer c e
IsFewer-trans c d e f g = record {
  white_short = ground (arith, f.white_short, g.white_short);
  white_long = ground (arith, f.white_long, g.white_long);
  black_short = ground (arith, f.black_short, g.black_short);
  black_long = ground (arith, f.black_long, g.black_long);
}

clear_for_square-IsFewer : (s : ℕ) (c : Castling) → IsFewer c (clear_for_square s c)
clear_for_square-IsFewer s c = record {
  white_short = ground arith;
  white_long = ground arith;
  black_short = ground arith;
  black_long = ground arith;
}

king_moved-IsFewer : (p : Piece) (c : Castling) → IsFewer c (king_moved p c)
king_moved-IsFewer p c = record {
  white_short = ground arith;
  white_long = ground arith;
  black_short = ground arith;
  black_long = ground arith;
}

update_castling_rights-IsFewer :
    (m : Move) (p : Piece) (c : Castling) → IsFewer c (update_castling_rights m p c)
unfolding update_castling_rights
update_castling_rights-IsFewer m p c =
    let moved = king_moved p c in
    let left = clear_for_square m.from moved in
    IsFewer-trans c left (clear_for_square m.to left)
      (IsFewer-trans c moved left (king_moved-IsFewer p c) (clear_for_square-IsFewer m.from moved))
      (clear_for_square-IsFewer m.to left)

opposite-opposite : (c : Color) → opposite (opposite c) ≡ c
opposite-opposite white = refl
opposite-opposite black = refl

false_of_not : (t : Bool) → not t ≡ true → t ≡ false
false_of_not true h = absurd (cc)
false_of_not false h = refl

leaves_king_safe-IsSafe :
    (b : Board) (m : Move) → leaves_king_safe b m ≡ true → IsSafe (apply_move_unchecked b m)
unfolding leaves_king_safe apply_move_unchecked
leaves_king_safe-IsSafe b m h =
    ap
      (λ c.
        is_attacked (apply_move_unchecked b m)
          (int_square (king_square (apply_move_unchecked b m) c)) (opposite b.turn))
      (opposite-opposite b.turn)
    ∙ false_of_not _ h

apply_uci-keeps :
    (b : Board) (text : Bytes) {nb : Board}
    → apply_uci b text ≡ ok nb
    → IsSafe nb × IsFewer b.castling nb.castling
unfolding apply_uci apply_move_unchecked
apply_uci-keeps b text {nb} h = go (parse_uci_move text) h
  where
    go :
        (r : Result MoveError Move)
        → apply_parsed b r ≡ ok nb
        → IsSafe nb × IsFewer b.castling nb.castling
    go (ok m) e =
        let (l, same) = apply_move-IsLegalMove b m e in
        rw same (
          leaves_king_safe-IsSafe b m l.king_safe,
          update_castling_rights-IsFewer m (piece_at b m.from) b.castling,
        )
    go (err x) e = absurd (ground arith)

-- In every position of a game, that is behind any moves that ApplyUCI accepts, the side that has just moved
-- is not in check, if this is so in the first position; and no castling right has come back.
pub Reach-IsSafe : {b c : Board} → IsSafe b → Reach b c → IsSafe c × IsFewer b.castling c.castling
Reach-IsSafe {b = b} safe here = (safe, IsFewer-refl b.castling)
Reach-IsSafe {b = b} safe (played {c = c} {d = d} text r h) =
    let (held, fewer) = Reach-IsSafe safe r in
    let (next, lost) = apply_uci-keeps c text h in
    (next, IsFewer-trans b.castling c.castling d.castling fewer lost)
