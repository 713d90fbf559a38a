-- ===== src/Store/Tables.antt =====
-- Laws of the tables: the queries and updates of pkg/store/store.go.
use alekhines_counter_gambit.Base.{
  Bool, Bool-cases, List, Option-cases, [], ap, arith, false, inl, inr, leb, length, refl, some,
  suc, sym, true, ℕ, ◌++◌, ◌+◌, ◌∙◌, ◌∷◌, ◌≡◌, ◌≤◌,
}
use alekhines_counter_gambit.Base.All.{All, cons, nil}
use alekhines_counter_gambit.Base.Result.{Result, ok, ok-injective}
use alekhines_counter_gambit.Base.Text.{Bytes, bytes_eq}
use alekhines_counter_gambit.Base.Text.Words.{bytes_eq-≡, bytes_eq_refl}
use alekhines_counter_gambit.Store.{Db, Game, GameRow, StoreError, StoredMove}
use alekhines_counter_gambit.Store.Games.{
  any_row, append_move, appended, find_row, found_game, game_moves, get_game, has_id, insert_by_ply,
  is_blocked, read_row, rows_of, sort_by_ply, update_where,
}
use mathlib.Core.Path.{subst}

module _ {P Q : GameRow → Type 0} where
  -- An update of the rows that a test selects, row by row.
  pub All-update_where :
      (test : GameRow → Bool) (change : GameRow → GameRow) (rows : List GameRow)
      → ((row : GameRow) → test row ≡ true → P row → Q (change row))
      → ((row : GameRow) → test row ≡ false → P row → Q row)
      → All P rows
      → All Q (update_where test change rows)
  unfolding update_where
  All-update_where test change [] f g nil = nil
  All-update_where test change (row ∷ rows) f g (cons p ps) = elim (Bool-cases (test row)) [
    | inl e ↦ rw e (cons (f row e p) (All-update_where test change rows f g ps))
    | inr e ↦ rw e (cons (g row e p) (All-update_where test change rows f g ps))
  ]

pub any_row-update_where :
    (id : Bytes) (test : GameRow → Bool) (change : GameRow → GameRow) (rows : List GameRow)
    → ((row : GameRow) → (change row).id ≡ row.id)
    → any_row (has_id id) (update_where test change rows) ≡ any_row (has_id id) rows
unfolding any_row update_where
any_row-update_where id test change [] h = refl
any_row-update_where id test change (row ∷ rows) h = elim (Bool-cases (test row)) [
  | inl e ↦ rw (e, h row, any_row-update_where id test change rows h)
  | inr e ↦ rw (e, any_row-update_where id test change rows h)
]

pub any_row-append :
    (test : GameRow → Bool) (rows : List GameRow) (row : GameRow)
    → any_row test rows ≡ true
    → any_row test (rows ++ row ∷ []) ≡ true
unfolding any_row
any_row-append test [] row h = cc
any_row-append test (x ∷ rows) row h = ground (arith, any_row-append test rows row)

-- The row that a query finds has the id, and what holds of every row.
pub find_row-All :
    {P : GameRow → Type 0} (id : Bytes) (rows : List GameRow) {row : GameRow}
    → All P rows
    → find_row id rows ≡ some row
    → P row × (row.id ≡ id)
unfolding find_row
find_row-All id [] nil h = absurd (cc)
find_row-All {P = P} id (x ∷ rows) {row} (cons p ps) h = elim (Bool-cases (has_id id x)) [
  | inl e ↦ let same : x ≡ row = ground arith in rw (← same) (p, bytes_eq-≡ x.id id e)
  | inr e ↦ find_row-All id rows ps (ground arith)
]

pub rows_of-append_same :
    (id : Bytes) (table : List (Bytes × StoredMove)) (m : StoredMove)
    → rows_of id (table ++ (id, m) ∷ []) ≡ rows_of id table ++ m ∷ []
unfolding rows_of
rows_of-append_same id [] m = rw (bytes_eq_refl id)
rows_of-append_same id ((g, x) ∷ table) m = elim (Bool-cases (bytes_eq g id)) [
  | inl e ↦ rw (e, rows_of-append_same id table m)
  | inr e ↦ rw (e, rows_of-append_same id table m)
]

pub rows_of-append_other :
    (id g : Bytes) (table : List (Bytes × StoredMove)) (m : StoredMove)
    → bytes_eq g id ≡ false
    → rows_of id (table ++ (g, m) ∷ []) ≡ rows_of id table
unfolding rows_of
rows_of-append_other id g [] m h = rw h
rows_of-append_other id g ((f, x) ∷ table) m h = elim (Bool-cases (bytes_eq f id)) [
  | inl e ↦ rw (e, rows_of-append_other id g table m h)
  | inr e ↦ rw (e, rows_of-append_other id g table m h)
]

pub length-rows_of :
    (id : Bytes) (table : List (Bytes × StoredMove)) → length (rows_of id table) ≤ length table
unfolding rows_of
length-rows_of id [] = omega arith
length-rows_of id ((g, m) ∷ table) = ground (arith, length-rows_of id table)

-- A game without a row has no moves, when every move's game has one.
pub rows_of-nil :
    (id : Bytes) (rows : List GameRow) (table : List (Bytes × StoredMove))
    → All (λ gm. any_row (has_id gm.0) rows ≡ true) table
    → any_row (has_id id) rows ≡ false
    → rows_of id table ≡ []
unfolding rows_of
rows_of-nil id rows [] nil h = refl
rows_of-nil id rows ((g, m) ∷ table) (cons p ps) h = elim (Bool-cases (bytes_eq g id)) [
  | inl e ↦ let same = bytes_eq-≡ g id e in absurd (cc)
  | inr e ↦ rw (e, rows_of-nil id rows table ps h)
]

-- The plies n, n + 1, ...
abbrev pub Numbered : ℕ → List StoredMove → Type 0
Numbered n [] = Unit {0}
Numbered n (m ∷ ms) = (m.ply ≡ n) × Numbered (suc n) ms

pub Numbered-append :
    (n : ℕ) (ms : List StoredMove) (m : StoredMove)
    → Numbered n ms
    → m.ply ≡ n + length ms
    → Numbered n (ms ++ m ∷ [])
Numbered-append n [] m h e = (omega (arith, e), tt)
Numbered-append n (x ∷ ms) m (h, hs) e = (h, Numbered-append (suc n) ms m hs (omega (arith, e)))

-- Moves in the order of their plies are not moved by `ORDER BY ply`.
insert_by_ply_first :
    (m : StoredMove) (ms : List StoredMove) → Numbered (suc m.ply) ms → insert_by_ply m ms ≡ m ∷ ms
unfolding insert_by_ply
insert_by_ply_first m [] h = refl
insert_by_ply_first m (x ∷ ms) (h, hs) =
    let before : leb m.ply x.ply ≡ true = ground (arith, h) in rw (before, insert_by_ply) refl

pub sort_by_ply-Numbered : (n : ℕ) (ms : List StoredMove) → Numbered n ms → sort_by_ply ms ≡ ms
unfolding sort_by_ply
sort_by_ply-Numbered n [] h = refl
sort_by_ply-Numbered n (m ∷ ms) (h, hs) =
    rw (sort_by_ply-Numbered (suc n) ms hs)
      (insert_by_ply_first m ms (subst (λ k. Numbered (suc k) ms) (sym h) hs))

-- A transaction that commits had its game's row and wrote what it says.
pub append_move_ok :
    (down : Bool) (id : Bytes) (m : StoredMove) (status end_reason : Bytes) (ended : Bool) (db : Db)
    {db' : Db}
    → append_move down id m status end_reason ended db ≡ ok db'
    → (any_row (has_id id) db.games ≡ true) × (appended id m status end_reason ended db ≡ db')
unfolding append_move is_blocked
append_move_ok down id m status end_reason ended db h =
    elim (Bool-cases (is_blocked down id m db)) [
      | inl e ↦ absurd (ground (arith, h, e))
      | inr e ↦ (ground arith, ground (arith, h, e))
    ]

pub bytes_eq_flip : (s t : Bytes) → bytes_eq s t ≡ false → bytes_eq t s ≡ false
bytes_eq_flip s t h = elim (Bool-cases (bytes_eq t s)) [
  | inl e ↦ let same = bytes_eq-≡ t s e in absurd (let r = bytes_eq_refl s in cc)
  | inr e ↦ e
]

-- What GetGame returns is the first row with the id, and its moves.
pub get_game_ok :
    (down : Bool) (id : Bytes) (db : Db) {g : Game} {moves : List StoredMove}
    → get_game down id db ≡ ok (g, moves)
    → (row : GameRow) × (find_row id db.games ≡ some row)
      × (read_row row ≡ g)
      × (game_moves id db ≡ moves)
unfolding get_game
get_game_ok true id db h = absurd (cc)
get_game_ok false id db {g} {moves} h = elim (Option-cases (find_row id db.games)) [
  | inl e ↦ absurd (ground (arith, h, e))
  | inr (row, e) ↦
      let same : ◌≡◌ {A = Result StoreError (Game × List StoredMove)} (found_game id db (some row))
          (ok (g, moves)) =
        ap (found_game id db) (sym e) ∙ h in
      let both = ok-injective (read_row row, game_moves id db) (g, moves) same in
      (row, e, ap (λ p. p.0) both, ap (λ p. p.1) both)
]
