-- ===== src/Store/Games.antt =====
-- The operations on games and moves: pkg/store/store.go. The argument `down` says that the database
-- or the connection fails the call. A transaction that fails leaves the tables as they were.
use alekhines_counter_gambit.Base.{
  Bool, List, Option, [], false, if◌then◌else◌, leb, length, none, some, true, ℕ, ◌&&◌, ◌++◌, ◌+◌,
  ◌==◌, ◌||◌, ◌∷◌,
}
use alekhines_counter_gambit.Base.Int.{ℤ}
use alekhines_counter_gambit.Base.Result.{Result, err, ok}
use alekhines_counter_gambit.Base.Text.{Bytes, bytes_eq}
use alekhines_counter_gambit.Store.{
  Db, Game, GameRow, OutboxRow, StoreError, StoredMove, database, in_progress_text,
  is_in_progress_text, not_found, not_in_progress, seat_unavailable,
}
use mathlib.Core.Bool.{not}

pub record CreateGameParams : Type 0 where
  pub white_id : Bytes
  pub black_id : Bytes
  pub vs_engine : Bool
  pub engine_depth : ℤ
  pub start_fen : Bytes
  pub rated : Bool
  pub initial_ms : ℤ
  pub increment_ms : ℤ

-- `""` for NULL, and NULL for the Black seat of an engine game or an open seat.
abbrev pub text_or_empty : Option Bytes → Bytes
text_or_empty none = []
text_or_empty (some s) = s

abbrev pub is_null : Option Bytes → Bool
is_null none = true
is_null (some s) = false

abbrev pub is_empty_text : Bytes → Bool
is_empty_text [] = true
is_empty_text (c ∷ s) = false

-- `UPDATE games SET ... WHERE ...`: the new rows; and whether some row was changed.
unfoldable pub update_where : (GameRow → Bool) → (GameRow → GameRow) → List GameRow → List GameRow
update_where test change [] = []
update_where test change (row ∷ rows) =
    (if test row then change row else row) ∷ update_where test change rows

unfoldable pub any_row : (GameRow → Bool) → List GameRow → Bool
any_row test [] = false
any_row test (row ∷ rows) = test row || any_row test rows

abbrev pub has_id : Bytes → GameRow → Bool
has_id id row = bytes_eq row.id id

-- CreateGame. `id` is the new UUID, `none` when none could be made; it is the primary key. The result holds the parameter's
-- Black player even where the row has NULL.
unfoldable pub create_game :
    Bool → Option Bytes → CreateGameParams → Db → Result StoreError (Game × Db)
unfolding any_row
create_game down none p db = err database
create_game true (some id) p db = err database
create_game false (some id) p db =
    let row : GameRow = record {
      id = id;
      white_id = p.white_id;
      black_id =
          if not p.vs_engine && not (is_empty_text p.black_id) then some p.black_id else none;
      status = in_progress_text;
      end_reason = none;
      fen = p.start_fen;
      engine_depth = p.engine_depth;
      vs_engine = p.vs_engine;
      rated = not p.vs_engine && p.rated;
      initial_ms = p.initial_ms;
      increment_ms = p.increment_ms;
      started_at = db.now;
      ended_at = none;
    } in
    let game : Game = record {
      id = id;
      white_id = p.white_id;
      black_id = p.black_id;
      vs_engine = p.vs_engine;
      status = in_progress_text;
      end_reason = [];
      fen = p.start_fen;
      engine_depth = p.engine_depth;
      rated = not p.vs_engine && p.rated;
      initial_ms = p.initial_ms;
      increment_ms = p.increment_ms;
      awaiting_opponent = not p.vs_engine && is_empty_text p.black_id;
      started_at = db.now;
      ended_at = none;
    } in
    if any_row (has_id id) db.games
    then err database
    else ok (game, record db { games = db.games ++ row ∷ [] })

-- `SELECT ... FROM games WHERE id = $1`
unfoldable pub find_row : Bytes → List GameRow → Option GameRow
find_row id [] = none
find_row id (row ∷ rows) = elim (has_id id row) [ true ↦ some row | false ↦ find_row id rows ]

abbrev pub read_row : GameRow → Game
read_row row = record {
  id = row.id;
  white_id = row.white_id;
  black_id = text_or_empty row.black_id;
  vs_engine = row.vs_engine;
  status = row.status;
  end_reason = text_or_empty row.end_reason;
  fen = row.fen;
  engine_depth = row.engine_depth;
  rated = row.rated;
  initial_ms = row.initial_ms;
  increment_ms = row.increment_ms;
  awaiting_opponent = not row.vs_engine && (is_null row.black_id && is_in_progress_text row.status);
  started_at = row.started_at;
  ended_at = row.ended_at;
}

-- `SELECT ... FROM moves WHERE game_id = $1`, and its `ORDER BY ply`.
unfoldable pub rows_of : Bytes → List (Bytes × StoredMove) → List StoredMove
rows_of id [] = []
rows_of id ((g, m) ∷ moves) =
    let rest = rows_of id moves in if bytes_eq g id then m ∷ rest else rest

unfoldable pub insert_by_ply : StoredMove → List StoredMove → List StoredMove
insert_by_ply m [] = m ∷ []
insert_by_ply m (x ∷ xs) = elim (leb m.ply x.ply) [
  | true ↦ m ∷ x ∷ xs
  | false ↦ x ∷ insert_by_ply m xs
]

unfoldable pub sort_by_ply : List StoredMove → List StoredMove
unfolding insert_by_ply
sort_by_ply [] = []
sort_by_ply (m ∷ ms) = insert_by_ply m (sort_by_ply ms)

unfoldable pub game_moves : Bytes → Db → List StoredMove
unfolding rows_of sort_by_ply
game_moves id db = sort_by_ply (rows_of id db.moves)

abbrev pub found_game : Bytes → Db → Option GameRow → Result StoreError (Game × List StoredMove)
found_game id db none = err not_found
found_game id db (some row) = ok (read_row row, game_moves id db)

-- GetGame
unfoldable pub get_game : Bool → Bytes → Db → Result StoreError (Game × List StoredMove)
unfolding find_row game_moves
get_game true id db = err database
get_game false id db = found_game id db (find_row id db.games)

-- JoinGame: the update, and then the row that it left.
abbrev pub is_joinable : Bytes → Bytes → GameRow → Bool
is_joinable game_id player_id row =
    has_id game_id row
    && (is_null row.black_id
        && (not row.vs_engine
            && (is_in_progress_text row.status && not (bytes_eq row.white_id player_id))))

abbrev pub take_seat : Bytes → GameRow → GameRow
take_seat player_id row = record row { black_id = some player_id }

abbrev pub joined_game :
    Db → Result StoreError (Game × List StoredMove) → Result StoreError Game × Db
joined_game db (ok (g, moves)) = (ok g, db)
joined_game db (err e) = (err e, db)

unfoldable pub join_game : Bool → Bool → Bytes → Bytes → Db → Result StoreError Game × Db
unfolding update_where any_row get_game
join_game true reload_down game_id player_id db = (err database, db)
join_game false reload_down game_id player_id db =
    let db' = record db {
      games = update_where (is_joinable game_id player_id) (take_seat player_id) db.games;
    } in
    if any_row (is_joinable game_id player_id) db.games
    then joined_game db' (get_game reload_down game_id db')
    else (err seat_unavailable, db)

-- The unique index on (game_id, ply) of `moves` and of `move_outbox`.
unfoldable pub has_ply : Bytes → ℕ → List (Bytes × StoredMove) → Bool
has_ply id ply [] = false
has_ply id ply ((g, m) ∷ moves) = (bytes_eq g id && m.ply == ply) || has_ply id ply moves

unfoldable pub outbox_has_ply : Bytes → ℕ → List (OutboxRow × Bool) → Bool
outbox_has_ply id ply [] = false
outbox_has_ply id ply ((r, published) ∷ rows) =
    (bytes_eq r.game_id id && r.ply == ply) || outbox_has_ply id ply rows

-- The update of AppendMove; it does not look at the row's status.
abbrev pub set_position : StoredMove → Bytes → Bytes → Bool → ℕ → GameRow → GameRow
set_position m status end_reason true now row = record row {
  fen = m.fen_after;
  status = status;
  end_reason = some end_reason;
  ended_at = some now;
}
set_position m status end_reason false now row = record row { fen = m.fen_after; status = status }

-- What AppendMove's transaction writes.
abbrev pub appended : Bytes → StoredMove → Bytes → Bytes → Bool → Db → Db
appended game_id m status end_reason ended db = record db {
  games = update_where (has_id game_id) (set_position m status end_reason ended db.now) db.games;
  moves = db.moves ++ (game_id, m) ∷ [];
  outbox =
      db.outbox
      ++ (
        record {
          id = db.next_outbox_id;
          game_id = game_id;
          ply = m.ply;
          uci = m.uci;
          fen_after = m.fen_after;
          status = status;
          end_reason = end_reason;
          ended = ended;
        },
        false,
      )
        ∷ [];
  next_outbox_id = db.next_outbox_id + 1;
}

-- Why the transaction fails: the database, a foreign key without its game, or a ply that is taken.
unfoldable pub is_blocked : Bool → Bytes → StoredMove → Db → Bool
unfolding any_row has_ply outbox_has_ply
is_blocked down game_id m db =
    down
    || (not (any_row (has_id game_id) db.games)
        || (has_ply game_id m.ply db.moves || outbox_has_ply game_id m.ply db.outbox))

-- AppendMove
unfoldable pub append_move :
    Bool → Bytes → StoredMove → Bytes → Bytes → Bool → Db → Result StoreError Db
unfolding is_blocked update_where
append_move down game_id m status end_reason ended db =
    if is_blocked down game_id m db
    then err database
    else ok (appended game_id m status end_reason ended db)

abbrev pub is_endable : Bytes → GameRow → Bool
is_endable game_id row = has_id game_id row && is_in_progress_text row.status

abbrev pub close_row : Bytes → Bytes → ℕ → GameRow → GameRow
close_row status end_reason now row = record row {
  status = status;
  end_reason = some end_reason;
  ended_at = some now;
}

-- EndGame
unfoldable pub end_game : Bool → Bytes → Bytes → Bytes → Db → Result StoreError Db
unfolding update_where any_row
end_game down game_id status end_reason db =
    if down
    then err database
    else if any_row (is_endable game_id) db.games
    then ok (record db {
      games = update_where (is_endable game_id) (close_row status end_reason db.now) db.games;
    })
    else err not_in_progress

-- MoveCount
unfoldable pub move_count : Bool → Bytes → Db → Result StoreError ℕ
unfolding rows_of
move_count down id db = if down then err database else ok (length (rows_of id db.moves))
