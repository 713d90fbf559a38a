-- ===== src/Openingbook/Book.antt =====
-- The opening book: positionKey, Build's walk and Move of pkg/openingbook/book.go.
pub mod Choice
pub mod Walk
use alekhines_counter_gambit.Base.{
  Bool, List, Option, [], false, if◌then◌else◌, length, none, some, true, ℕ, ◌&&◌, ◌++◌, ◌+◌, ◌∷◌,
}
use alekhines_counter_gambit.Base.Int.{ltb_ℤ, pos, pos_part, to_int64, ℤ, ◌+ℤ◌, ◌-ℤ◌}
use alekhines_counter_gambit.Base.Result.{Result, ok, ◌>>=◌}
use alekhines_counter_gambit.Base.Text.{Bytes, bytes_eq, fields}
use alekhines_counter_gambit.Chess.Board.{Board}
use alekhines_counter_gambit.Chess.Fen.Print.{fen}
use alekhines_counter_gambit.Chess.Legal.{ChessError, apply_uci}
use alekhines_counter_gambit.Eventlog.Stream.{key}
use alekhines_counter_gambit.Store.Ratings.Ledger.{total}

abbrev pub key_of : Bytes → List Bytes → Bytes
key_of fen_text (a ∷ b ∷ c ∷ d ∷ _) = a ++ 32 ∷ (b ++ 32 ∷ (c ++ 32 ∷ d))
key_of fen_text _ = fen_text

-- positionKey
unfoldable pub position_key : Bytes → Bytes
unfolding fields
position_key fen_text = key_of fen_text (fields fen_text)

pub record BookMove : Type 0 where
  pub uci : Bytes
  pub weight : ℤ

-- The map from position keys to candidates; a missing key gives no candidates.
abbrev pub Positions : Type 0
Positions = List (Bytes × List BookMove)

unfoldable pub candidates : Bytes → Positions → List BookMove
candidates key [] = []
candidates key ((k, moves) ∷ positions) = elim (bytes_eq k key) [
  | true ↦ moves
  | false ↦ candidates key positions
]

-- The first loop of Move; the sum wraps around.
unfoldable pub sum_weights : ℤ → List BookMove → ℤ
unfolding ◌+ℤ◌ to_int64
sum_weights total [] = total
sum_weights total (m ∷ moves) = sum_weights (to_int64 (total +ℤ m.weight)) moves

-- The second loop, from the candidate `m`; behind the last one it is the last that is returned.
unfoldable pub pick_from : ℤ → BookMove → List BookMove → Bytes
unfolding ◌-ℤ◌ to_int64
pick_from n m [] = m.uci
pick_from n m (m' ∷ moves) =
    let rest = pick_from (to_int64 (n -ℤ m.weight)) m' moves in
    if ltb_ℤ n m.weight then m.uci else rest

-- `intn` is the generator's `Intn`, at the state that it is in.
unfoldable pub choose : (ℕ → ℕ) → List BookMove → Option Bytes
unfolding sum_weights pick_from
choose intn [] = none
choose intn (m ∷ moves) =
    let total = sum_weights (pos 0) (m ∷ moves) in
    if ltb_ℤ (pos 0) total
    then some (pick_from (pos (intn (pos_part total))) m moves)
    else some m.uci

-- Move of a book, of which `none` is a nil pointer.
unfoldable pub book_move : (ℕ → ℕ) → Option Positions → Bytes → Option Bytes
unfolding position_key candidates choose
book_move intn none fen_text = none
book_move intn (some positions) fen_text =
    choose intn (candidates (position_key fen_text) positions)

-- Len
abbrev pub book_len : Option Positions → ℕ
book_len none = 0
book_len (some positions) = length positions

-- Build's counts, as one list of a key, a move and its count.
abbrev pub Counts : Type 0
Counts = List ((Bytes × Bytes) × ℕ)

unfoldable pub pair_eq : Bytes × Bytes → Bytes × Bytes → Bool
pair_eq (k, u) (j, v) = bytes_eq k j && bytes_eq u v

-- `counts[key][uci]++`
unfoldable pub count_play : Bytes × Bytes → Counts → Counts
unfolding pair_eq
count_play p [] = (p, 1) ∷ []
count_play p ((q, n) ∷ counts) = elim (pair_eq q p) [
  | true ↦ (q, n + 1) ∷ counts
  | false ↦ (q, n) ∷ count_play p counts
]

-- The walk along one opening line.
unfoldable pub walk_line : Board → List Bytes → Counts → Result ChessError Counts
unfolding count_play position_key fen apply_uci
walk_line b [] counts = ok counts
walk_line b (uci ∷ line) counts = do
  next ← apply_uci b uci
  walk_line next line (count_play (position_key (fen b), uci) counts)

-- The walk along every line, each from the start.
unfoldable pub walk_lines : Board → List (List Bytes) → Counts → Result ChessError Counts
unfolding walk_line
walk_lines start [] counts = ok counts
walk_lines start (line ∷ lines) counts = do
  counts' ← walk_line start line counts
  walk_lines start lines counts'
