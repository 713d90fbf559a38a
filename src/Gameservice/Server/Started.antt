-- ===== src/Gameservice/Server/Started.antt =====
-- The description of an accepted move, its row and its work: SubmitMove of
-- services/game-service/internal/server/server.go over AppendMove of pkg/store/store.go.
use alekhines_counter_gambit.Base.{
  Bool, Bool-cases, List, Option, [], ap, arith, false, if◌then◌else◌, inl, inr, refl, some, true,
  ℕ, ◌++◌, ◌∙◌, ◌∷◌, ◌≡◌,
}
use alekhines_counter_gambit.Base.Result.{ok}
use alekhines_counter_gambit.Base.Text.{Bytes, bytes_eq, codes}
use alekhines_counter_gambit.Chess.Board.{Board}
use alekhines_counter_gambit.Chess.Fen.Print.{fen}
use alekhines_counter_gambit.Chess.Outcome.{
  EndReason, GameResult, black_wins, draw, in_progress, is_in_progress, white_wins,
}
use alekhines_counter_gambit.Gameservice.Mapping.{reason_to_db, reason_to_session, result_to_db}
use alekhines_counter_gambit.Gameservice.Server.{
  Effect, Env, Winner, World, analysis_requested, game_closed, move_counted, move_effects,
  opening_ingested, pgn_archived, ratings_applied, session_ended, session_moved, winner_black,
  winner_none, winner_white,
}
use alekhines_counter_gambit.Store.{Game, GameRow, StoredMove}
use alekhines_counter_gambit.Store.Games.{
  find_row, get_game, has_id, read_row, set_position, text_or_empty, update_where,
}
use mathlib.Core.Bool.{not}

-- How a result is written in the tables, and which side the session is told to have won.
abbrev pub told : GameResult → Bytes × Winner
told white_wins = (codes "WHITE_WON", winner_white)
told black_wins = (codes "BLACK_WON", winner_black)
told draw = (codes "DRAW", winner_none)
told in_progress = (codes "IN_PROGRESS", winner_none)

abbrev pub when : Bool → List Effect → List Effect
when test es = if test then es else []

-- The work that a move starts in a game of two players, by the session manager and the counters that
-- are there: of a game that goes on, and of one that is over.
abbrev pub started : Bool → Bool → Bytes → Bytes → GameResult → EndReason → List Effect
started session metrics id player in_progress reason =
    when session (session_moved id player ∷ []) ++ when metrics (move_counted ∷ [])
started session metrics id player result reason =
    when session (session_ended id (told result).1 (reason_to_session reason) ∷ [])
    ++ (when metrics (move_counted ∷ game_closed (told result).0 ∷ [])
        ++ ratings_applied id result
          ∷ analysis_requested id
          ∷ pgn_archived id
          ∷ opening_ingested id (told result).0
          ∷ [])

-- The reason and the time of the end, which a game that goes on keeps as they were.
abbrev pub ending : GameResult → Bytes → ℕ → Game → Bytes × Option ℕ
ending in_progress reason now g = (g.end_reason, g.ended_at)
ending result reason now g = (reason, some now)

abbrev pub is_over : GameResult → Bool
is_over in_progress = false
is_over result = true

-- The move `m`, which leads to `after` with a verdict, is the next one of the game `g`, which is read as `g'`
-- with the moves `moves` and `m` behind it: in the tables and the outbox, with the work that it starts.
pub record IsPlayed (env : Env) (player : Bytes) (g g' : Game) (moves : List StoredMove)
    (m : StoredMove) (after : Board) (result : GameResult) (reason : EndReason) (w w' : World)
    : Type 0 where
  pub appended_move : w'.db.moves ≡ w.db.moves ++ (g.id, m) ∷ []
  pub read_back : get_game false g.id w'.db ≡ ok (g', moves ++ m ∷ [])
  pub position : g'.fen ≡ fen after
  pub status : g'.status ≡ (told result).0
  pub end_reason : g'.end_reason ≡ (ending result (reason_to_db reason) w.db.now g).0
  pub ended_at : g'.ended_at ≡ (ending result (reason_to_db reason) w.db.now g).1
  pub white_id : g'.white_id ≡ g.white_id
  pub black_id : g'.black_id ≡ g.black_id
  pub outbox_row :
      w'.db.outbox
      ≡ w.db.outbox
        ++ (
          record {
            id = w.db.next_outbox_id;
            game_id = g.id;
            ply = m.ply;
            uci = m.uci;
            fen_after = m.fen_after;
            status = (told result).0;
            end_reason = reason_to_db reason;
            ended = is_over result;
          },
          false,
        )
          ∷ []
  pub work_started :
      w'.effects
      ≡ w.effects ++ started env.session_enabled env.metrics_enabled g.id player result reason

pub told-result_to_db : (result : GameResult) → result_to_db result ≡ (told result).0
told-result_to_db white_wins = refl
told-result_to_db black_wins = refl
told-result_to_db draw = refl
told-result_to_db in_progress = refl

pub is_over-not : (result : GameResult) → not (is_in_progress result) ≡ is_over result
is_over-not white_wins = refl
is_over-not black_wins = refl
is_over-not draw = refl
is_over-not in_progress = refl

pub move_effects-started :
    (env : Env) (g : Game) (player : Bytes) (result : GameResult) (reason : EndReason)
    → g.vs_engine ≡ false
    → move_effects env g player (result, reason) (is_over result)
      ≡ started env.session_enabled env.metrics_enabled g.id player result reason
unfolding move_effects
move_effects-started env g player white_wins reason two = ground (arith, two)
move_effects-started env g player black_wins reason two = ground (arith, two)
move_effects-started env g player draw reason two = ground (arith, two)
move_effects-started env g player in_progress reason two = ground (arith, two)

-- The row that a query finds behind an update of the rows with its id.
pub find_row-update_where :
    (id : Bytes) (change : GameRow → GameRow) (rows : List GameRow) {row : GameRow}
    → ((r : GameRow) → (change r).id ≡ r.id)
    → find_row id rows ≡ some row
    → find_row id (update_where (has_id id) change rows) ≡ some (change row)
unfolding find_row update_where
find_row-update_where id change [] keeps h = absurd (cc)
find_row-update_where id change (x ∷ rows) {row} keeps h = elim (Bool-cases (has_id id x)) [
  | inl e ↦
      let same : x ≡ row = ground (arith, h, e) in
      let here : has_id id (change x) ≡ true = ap (λ i. bytes_eq i id) (keeps x) ∙ e in
      let first : find_row id (change x ∷ update_where (has_id id) change rows) ≡ some (change x) =
        rw (find_row, here) refl in
      let updated : update_where (has_id id) change (x ∷ rows)
          ≡ change x ∷ update_where (has_id id) change rows =
        rw (update_where, e) refl in
      ap (find_row id) updated ∙ first ∙ ap (λ r. some (change r)) same
  | inr e ↦
      let updated : update_where (has_id id) change (x ∷ rows)
          ≡ x ∷ update_where (has_id id) change rows =
        rw (update_where, e) refl in
      let later : find_row id (x ∷ update_where (has_id id) change rows)
          ≡ find_row id (update_where (has_id id) change rows) =
        rw (find_row, e) refl in
      ap (find_row id) updated
      ∙ later
      ∙ find_row-update_where id change rows keeps (ground (arith, h, e))
]

-- The row of the game behind the move.
abbrev pub row_behind : StoredMove → GameResult → Bytes → ℕ → GameRow → GameRow
row_behind m result reason now row = set_position m (told result).0 reason (is_over result) now row

pub row_behind_fields :
    (m : StoredMove) (result : GameResult) (reason : Bytes) (now : ℕ) (row : GameRow)
    → ((read_row (row_behind m result reason now row)).fen ≡ m.fen_after)
      × ((read_row (row_behind m result reason now row)).status ≡ (told result).0)
      × ((read_row (row_behind m result reason now row)).end_reason
          ≡ (ending result reason now (read_row row)).0)
      × ((read_row (row_behind m result reason now row)).ended_at
          ≡ (ending result reason now (read_row row)).1)
      × ((read_row (row_behind m result reason now row)).white_id ≡ row.white_id)
      × ((read_row (row_behind m result reason now row)).black_id ≡ text_or_empty row.black_id)
row_behind_fields m white_wins reason now row = (refl, refl, refl, refl, refl, refl)
row_behind_fields m black_wins reason now row = (refl, refl, refl, refl, refl, refl)
row_behind_fields m draw reason now row = (refl, refl, refl, refl, refl, refl)
row_behind_fields m in_progress reason now row = (refl, refl, refl, refl, refl, refl)
