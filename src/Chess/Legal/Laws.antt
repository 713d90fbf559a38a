-- ===== src/Chess/Legal/Laws.antt =====
-- What the moves that LegalMoves returns and ApplyMove accepts are: pkg/chess/movegen.go.
use alekhines_counter_gambit.Base.{Bool-cases, List, [], arith, inl, inr, true, ◌∷◌, ◌≡◌}
use alekhines_counter_gambit.Base.All.{All, All-map, cons, nil}
use alekhines_counter_gambit.Base.Result.{ok}
use alekhines_counter_gambit.Chess.Apply.{apply_move_unchecked}
use alekhines_counter_gambit.Chess.Apply.WellFormed.{apply_move_unchecked-IsWellFormed}
use alekhines_counter_gambit.Chess.Board.{Board, IsWellFormed}
use alekhines_counter_gambit.Chess.Legal.{
  any_move, apply_move, is_legal, keep_safe, leaves_king_safe, legal_moves,
}
use alekhines_counter_gambit.Chess.Move.{Move, move_eq}
use alekhines_counter_gambit.Chess.MoveGen.{pseudo_legal_moves}
use alekhines_counter_gambit.Chess.MoveGen.Landing.{IsSound}
use alekhines_counter_gambit.Chess.MoveGen.Sound.{pseudo_legal_moves-IsSound}
use alekhines_counter_gambit.Chess.Piece.{PieceType, type_eq}
use mathlib.Core.Path.{subst}

-- A sound move that leaves the mover's king safe.
pub record IsLegalMove (b : Board) (m : Move) : Type 0 where
  pub sound : IsSound b b.turn m
  pub king_safe : leaves_king_safe b m ≡ true

keep_safe-IsLegalMove :
    (b : Board) (ms : List Move) → All (IsSound b b.turn) ms → All (IsLegalMove b) (keep_safe b ms)
unfolding keep_safe
keep_safe-IsLegalMove b [] nil = nil
keep_safe-IsLegalMove b (m ∷ ms) (cons s rest) = elim (Bool-cases (leaves_king_safe b m)) [
  | inl e ↦ rw e (cons (record { sound = s; king_safe = e }) (keep_safe-IsLegalMove b ms rest))
  | inr e ↦ rw e (keep_safe-IsLegalMove b ms rest)
]

-- Every legal move is sound, and after it the mover's king is not attacked.
pub legal_moves-IsLegalMove : (b : Board) → All (IsLegalMove b) (legal_moves b)
unfolding legal_moves
legal_moves-IsLegalMove b =
    keep_safe-IsLegalMove b (pseudo_legal_moves b) (pseudo_legal_moves-IsSound b)

type_eq-≡ : (t u : PieceType) → type_eq t u ≡ true → t ≡ u
type_eq-≡ t u h = ground arith

move_eq-≡ : (m n : Move) → move_eq m n ≡ true → m ≡ n
move_eq-≡ m n h = ground (arith, type_eq-≡ m.promotion n.promotion)

any_move-All :
    (P : Move → Type 0) (m : Move) (ms : List Move) → All P ms → any_move m ms ≡ true → P m
unfolding any_move
any_move-All P m [] nil h = absurd (ground arith)
any_move-All P m (n ∷ ms) (cons p ps) h = elim (Bool-cases (move_eq n m)) [
  | inl e ↦ subst P (move_eq-≡ n m e) p
  | inr e ↦ any_move-All P m ms ps (ground arith)
]

any_move_self : (ms : List Move) → All (λ m. any_move m ms ≡ true) ms
unfolding any_move
any_move_self [] = nil
any_move_self (m ∷ ms) =
    cons (ground arith)
      (All-map {Q = λ n. any_move n (m ∷ ms) ≡ true} (λ n h. ground arith) (any_move_self ms))

-- ApplyMove accepts every move of LegalMoves.
pub apply_move-legal_moves :
    (b : Board) → All (λ m. apply_move b m ≡ ok (apply_move_unchecked b m)) (legal_moves b)
unfolding apply_move is_legal
apply_move-legal_moves b = All-map (λ m h. rw h) (any_move_self (legal_moves b))

pub apply_move-IsLegalMove :
    (b : Board) (m : Move) {nb : Board}
    → apply_move b m ≡ ok nb
    → IsLegalMove b m × (nb ≡ apply_move_unchecked b m)
unfolding apply_move is_legal
apply_move-IsLegalMove b m {nb} h = elim (Bool-cases (is_legal b m)) [
  | inl e ↦
      (any_move-All (IsLegalMove b) m (legal_moves b) (legal_moves-IsLegalMove b) e, ground arith)
  | inr e ↦ absurd (ground arith)
]

-- ApplyMove accepts a move only if it is sound and leaves the mover's king safe, and then returns
-- the position after it, which is well formed if the position before it was.
pub apply_move_ok :
    (b : Board) (m : Move) {nb : Board}
    → IsWellFormed b
    → apply_move b m ≡ ok nb
    → IsLegalMove b m × (nb ≡ apply_move_unchecked b m) × IsWellFormed nb
apply_move_ok b m {nb} w h =
    let (l, same) = apply_move-IsLegalMove b m h in
    (
      l,
      same,
      rw same (apply_move_unchecked-IsWellFormed b m l.sound.from_on_board l.sound.to_on_board w),
    )
