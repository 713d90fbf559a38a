-- ===== src/Chess/Outcome.antt =====
-- The outcome of a position: pkg/chess/outcome.go.
pub mod Laws
pub mod Insufficient
pub mod Repetition
use alekhines_counter_gambit.Base.{
  Bool, List, Option, [], false, if◌then◌else◌, leb, ltb, none, some, suc, true, ℕ, ◌%◌, ◌&&◌, ◌++◌,
  ◌+◌, ◌==◌, ◌∷◌,
}
use alekhines_counter_gambit.Base.Text.{Bytes, bytes_eq}
use alekhines_counter_gambit.Chess.Attack.{in_check}
use alekhines_counter_gambit.Chess.Board.{Board, file_of, rank_of}
use alekhines_counter_gambit.Chess.Fen.Print.{fen}
use alekhines_counter_gambit.Chess.Legal.{legal_moves}
use alekhines_counter_gambit.Chess.Move.{Move}
use alekhines_counter_gambit.Chess.Piece.{
  Color, Piece, bishop, black, is_empty, king, knight, type_eq, white,
}

pub data GameResult : Type 0 where
  in_progress white_wins black_wins draw : GameResult

pub data EndReason : Type 0 where
  ongoing checkmate stalemate insufficient_material fifty_move threefold_repetition : EndReason

abbrev pub Verdict : Type 0
Verdict = GameResult × EndReason

-- What the loop of InsufficientMaterial counts.
pub record Material : Type 0 where
  pub white_minor : ℕ
  pub black_minor : ℕ
  pub bishop_squares : List ℕ

-- whiteMinor++ or blackMinor++
abbrev pub add_minor : Color → Material → Material
add_minor white t = record t { white_minor = t.white_minor + 1 }
add_minor black t = record t { black_minor = t.black_minor + 1 }

-- `none` is the early `return false`.
abbrev pub count_piece : Piece → ℕ → Material → Option Material
count_piece p s t =
    if type_eq p.piece_type king
    then some t
    else if type_eq p.piece_type bishop
    then some (add_minor p.color (record t { bishop_squares = t.bishop_squares ++ s ∷ [] }))
    else if type_eq p.piece_type knight
    then some (add_minor p.color t)
    else none

unfoldable pub count_material : List Piece → ℕ → Material → Option Material
count_material [] s t = some t
count_material (p ∷ ps) s t = elim (is_empty p) [
  | true ↦ count_material ps (suc s) t
  | false ↦ elim (count_piece p s t) [ none ↦ none | some t' ↦ count_material ps (suc s) t' ]
]

abbrev pub square_color : ℕ → ℕ
square_color s = (file_of s + rank_of s) % 2

abbrev pub same_color_pair : List ℕ → Bool
same_color_pair (x ∷ y ∷ []) = square_color x == square_color y
same_color_pair _ = false

abbrev pub judge_material : Option Material → Bool
judge_material none = false
judge_material (some t) =
    let total = t.white_minor + t.black_minor in
    if ltb total 2 then true else if total == 2 then same_color_pair t.bishop_squares else false

unfoldable pub is_insufficient : Board → Bool
unfolding count_material
is_insufficient b =
    judge_material (
      count_material b.squares 0 (record { white_minor = 0; black_minor = 0; bishop_squares = [] }))

-- The winner when the side to move is mated.
abbrev pub mated : Color → GameResult
mated white = black_wins
mated black = white_wins

abbrev pub no_moves_left : List Move → Bool
no_moves_left [] = true
no_moves_left (m ∷ ms) = false

unfoldable pub outcome : Board → Verdict
outcome b =
    if no_moves_left (legal_moves b)
    then if in_check b then (mated b.turn, checkmate) else (draw, stalemate)
    else if is_insufficient b
    then (draw, insufficient_material)
    else if leb 100 b.half_move
    then (draw, fifty_move)
    else (in_progress, ongoing)

-- repetitionKey: the text before the fourth space, or all of it.
unfoldable pub repetition_key_from : ℕ → Bytes → Bytes
repetition_key_from spaces [] = []
repetition_key_from spaces (c ∷ fen) = elim (c == 32 && suc spaces == 4) [
  | true ↦ []
  | false ↦ c ∷ repetition_key_from (if c == 32 then suc spaces else spaces) fen
]

unfoldable pub repetition_key : Bytes → Bytes
unfolding repetition_key_from
repetition_key fen = repetition_key_from 0 fen

-- The map `counts`, which has 0 for a missing key.
abbrev pub Counts : Type 0
Counts = List (Bytes × ℕ)

unfoldable pub count_of : Bytes → Counts → ℕ
count_of k [] = 0
count_of k ((j, n) ∷ m) = if bytes_eq j k then n else count_of k m

unfoldable pub increment : Bytes → Counts → Counts
increment k [] = (k, 1) ∷ []
increment k ((j, n) ∷ m) = if bytes_eq j k then (j, n + 1) ∷ m else (j, n) ∷ increment k m

unfoldable pub threefold_from : Counts → List Bytes → Bool
unfolding count_of increment repetition_key
threefold_from counts [] = false
threefold_from counts (f ∷ fs) =
    let counts' = increment (repetition_key f) counts in
    let rest = threefold_from counts' fs in
    if leb 3 (count_of (repetition_key f) counts') then true else rest

unfoldable pub threefold : List Bytes → Bool
unfolding threefold_from
threefold history = threefold_from [] history

abbrev pub is_in_progress : GameResult → Bool
is_in_progress in_progress = true
is_in_progress _ = false

unfoldable pub outcome_with_history : Board → List Bytes → Verdict
outcome_with_history b history =
    let (r, reason) = outcome b in
    if is_in_progress r
    then if threefold history then (draw, threefold_repetition) else (in_progress, ongoing)
    else (r, reason)
