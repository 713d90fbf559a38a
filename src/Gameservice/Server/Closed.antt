-- ===== src/Gameservice/Server/Closed.antt =====
-- A finished game stays as it is: services/game-service/internal/server/server.go over
-- pkg/store/store.go.
use alekhines_counter_gambit.Base.{
  Bool, Bool-cases, List, Option, [], ap, arith, elim_cases, false, if◌then◌else◌, inl, inr, none,
  refl, some, sym, true, ◌&&◌, ◌||◌, ◌∙◌, ◌∷◌, ◌≡◌,
}
use alekhines_counter_gambit.Base.Result.{Result, err, ok, ok-injective}
use alekhines_counter_gambit.Base.Text.{Bytes, bytes_eq, codes}
use alekhines_counter_gambit.Base.Text.Words.{bytes_eq-≡}
use alekhines_counter_gambit.Chess.Fen.Parse.{parse_fen}
use alekhines_counter_gambit.Chess.Outcome.{GameResult}
use alekhines_counter_gambit.Gameservice.Mapping.{result_to_db}
use alekhines_counter_gambit.Gameservice.Server.{Env, World, failed_precondition, invalid_argument}
use alekhines_counter_gambit.Gameservice.Server.Calls.{
  Call, create_call, create_stored_db, join_call, join_stored_db, joined_game_db, resign_call,
  run_call, serve, submit_call,
}
use alekhines_counter_gambit.Gameservice.Server.Consistent.{set_position_id}
use alekhines_counter_gambit.Gameservice.Server.Frame.{parsed_keeps}
use alekhines_counter_gambit.Gameservice.Server.Handlers.{
  Answer, MoveRequest, refuse, submit_loaded, submit_move, submit_parsed,
}
use alekhines_counter_gambit.Gameservice.Server.Position.{reload_same}
use alekhines_counter_gambit.Gameservice.Server.Seats.{
  CreateRequest, PlayerRequest, create_for, create_stored, handle_create, handle_join,
  handle_resign, join_stored, resign_closed, resign_judged, resign_loaded, winner_against,
}
use alekhines_counter_gambit.Store.{Db, Game, GameRow, StoreError, StoredMove, is_in_progress_text}
use alekhines_counter_gambit.Store.Games.{
  CreateGameParams, any_row, appended, close_row, create_game, end_game, find_row, get_game, has_id,
  is_empty_text, is_endable, is_joinable, is_null, join_game, rows_of, set_position, take_seat,
  update_where,
}
use alekhines_counter_gambit.Store.Lookup.{find_row-append, find_row-update_where, find_row_id}
use alekhines_counter_gambit.Store.Tables.{bytes_eq_flip, get_game_ok, rows_of-append_other}
use mathlib.Core.Bool.{not}
use mathlib.Core.Option.{some-injective}
use mathlib.Core.Path.{subst}

-- A game's row and its moves.
pub record Has (id : Bytes) (row : GameRow) (moves : List StoredMove) (db : Db) : Type 0 where
  pub row_eq : find_row id db.games ≡ some row
  pub moves_eq : rows_of id db.moves ≡ moves

-- A move of another game.
appended-Has :
    (id gid : Bytes) (row : GameRow) (moves : List StoredMove)
    → bytes_eq gid id ≡ false
    → (m : StoredMove) (status end_reason : Bytes) (ended : Bool) (db : Db) → Has id row moves db
    → Has id row moves (appended gid m status end_reason ended db)
appended-Has id gid row moves other m status end_reason ended db h = record {
  row_eq =
      find_row-update_where id (has_id gid) (set_position m status end_reason ended db.now) db.games
        (set_position_id m status end_reason ended db.now) h.row_eq
        (subst (λ i. bytes_eq i gid ≡ false) (sym (find_row_id id db.games h.row_eq))
          (bytes_eq_flip gid id other));
  moves_eq = rows_of-append_other id gid db.moves m other ∙ h.moves_eq;
}

-- Updates of rows in progress.
updated-Has :
    (id : Bytes) (row : GameRow) (moves : List StoredMove) (test : GameRow → Bool)
    (change : GameRow → GameRow) (db : Db)
    → ((r : GameRow) → (change r).id ≡ r.id)
    → test row ≡ false
    → Has id row moves db
    → Has id row moves (record db { games = update_where test change db.games })
updated-Has id row moves test change db same off h = record {
  row_eq = find_row-update_where id test change db.games same h.row_eq off;
  moves_eq = h.moves_eq;
}

module _ (id : Bytes) (row : GameRow) (moves : List StoredMove)
    (finished : is_in_progress_text row.status ≡ false) where
  not_joinable : (game_id player_id : Bytes) → is_joinable game_id player_id row ≡ false
  not_joinable game_id player_id =
      rw finished (&&-false (has_id game_id row) (is_null row.black_id) (not row.vs_engine))
    where
      &&-false : (a b c : Bool) → (a && (b && (c && false))) ≡ false
      &&-false false b c = refl
      &&-false true false c = refl
      &&-false true true false = refl
      &&-false true true true = refl

  not_endable : (game_id : Bytes) → is_endable game_id row ≡ false
  not_endable game_id = rw finished (and_false (has_id game_id row))
    where
      and_false : (a : Bool) → (a && false) ≡ false
      and_false true = refl
      and_false false = refl

  module _ (env : Env) (w : World) (h : Has id row moves w.db) where
    create_game-Has :
        (gid : Option Bytes) (p : CreateGameParams) (down : Bool)
        → Has id row moves (create_stored env w (create_game down gid p w.db)).1.db
    unfolding create_game
    create_game-Has none p down = h
    create_game-Has (some gid) p true = h
    create_game-Has (some gid) p false = elim (Bool-cases (any_row (has_id gid) w.db.games)) [
      | inl e ↦ rw e h
      | inr e ↦
          rw (e, create_stored_db)
            (record { row_eq = find_row-append id w.db.games _ h.row_eq; moves_eq = h.moves_eq })
    ]

    handle_create-Has : (req : CreateRequest) → Has id row moves (handle_create env req w).1.db
    unfolding handle_create
    handle_create-Has req = go (if is_empty_text req.white_id then env.guest else some req.white_id)
      where
        go : (player : Option Bytes) → Has id row moves (create_for env req w player).1.db
        go none = h
        go (some player) = create_game-Has env.uuid _ env.write_down

    join_game-Has :
        (down reload_down : Bool) (game_id player_id : Bytes)
        → Has id row moves (join_game down reload_down game_id player_id w.db).1
    unfolding join_game
    join_game-Has true reload_down game_id player_id = h
    join_game-Has false reload_down game_id player_id =
        elim (Bool-cases (any_row (is_joinable game_id player_id) w.db.games)) [
          | inl e ↦
              rw (e, joined_game_db)
                (updated-Has id row moves (is_joinable game_id player_id) (take_seat player_id) w.db
                  (λ r. refl) (not_joinable game_id player_id) h)
          | inr e ↦ rw e h
        ]

    join_handler-Has : (req : PlayerRequest) → Has id row moves (handle_join env req w).1.db
    unfolding handle_join
    join_handler-Has req =
        elim_cases (λ (x : Answer). Has id row moves x.1.db)
          (is_empty_text req.game_id || is_empty_text req.player_id) (refuse invalid_argument w)
          (join_stored env w
            (join_game env.write_down env.load_down req.game_id req.player_id w.db))
          (λ e. h)
          (λ e.
            subst (Has id row moves) (sym (join_stored_db env w _))
              (join_game-Has env.write_down env.load_down req.game_id req.player_id))

    end_game-Has :
        (down : Bool) (gid status end_reason : Bytes) (db : Db)
        → end_game down gid status end_reason w.db ≡ ok db
        → Has id row moves db
    unfolding end_game
    end_game-Has true gid status end_reason db e = absurd (cc)
    end_game-Has false gid status end_reason db e =
        elim (Bool-cases (any_row (is_endable gid) w.db.games)) [
          | inl t ↦
              let change = close_row status end_reason w.db.now in
              let closed = record (w.db) {
                games = update_where (is_endable gid) change w.db.games;
              } in
              let same : closed ≡ db =
                ok-injective {E = StoreError} closed db (ground (arith, e, t)) in
              subst (Has id row moves) same (
                updated-Has id row moves (is_endable gid) change w.db (λ r. refl) (not_endable gid)
                  h)
          | inr t ↦ absurd (ground (arith, e, t))
        ]

    resign_closed-Has :
        (req : PlayerRequest) (g : Game) (winner : GameResult) (r : Result StoreError Db)
        → ((db : Db) → r ≡ ok db → Has id row moves db)
        → Has id row moves (resign_closed env req g winner w r).1.db
    resign_closed-Has req g winner (err e) k = h
    resign_closed-Has req g winner (ok db) k =
        subst (λ v. Has id row moves v.db) (sym (reload_same env g.id _)) (k db refl)

    resign_handler-Has : (req : PlayerRequest) → Has id row moves (handle_resign env req w).1.db
    unfolding handle_resign
    resign_handler-Has req =
        elim_cases (λ (x : Answer). Has id row moves x.1.db)
          (is_empty_text req.game_id || is_empty_text req.player_id) (refuse invalid_argument w)
          (resign_loaded env req w (get_game env.load_down req.game_id w.db)) (λ e. h)
          (λ e. loaded (get_game env.load_down req.game_id w.db))
      where
        judged :
            (g : Game) (winner : Option GameResult)
            → Has id row moves (resign_judged env req g w winner).1.db
        judged g none = h
        judged g (some winner) =
            resign_closed-Has req g winner _
              (end_game-Has env.write_down g.id (result_to_db winner) (codes "RESIGNATION"))

        loaded :
            (r : Result StoreError (Game × List StoredMove))
            → Has id row moves (resign_loaded env req w r).1.db
        loaded (err e) = h
        loaded (ok (g, ms)) = judged g (winner_against g req.player_id)

    -- The game of a move that is accepted is in progress, so it is another game.
    submit_loaded-Has :
        (req : MoveRequest) (r : Result StoreError (Game × List StoredMove))
        → get_game env.load_down req.game_id w.db ≡ r
        → Has id row moves (submit_loaded env req w r).1.db
    submit_loaded-Has req (err e) found = h
    submit_loaded-Has req (ok (g, ms)) found =
        elim_cases (λ (x : Answer). Has id row moves x.1.db) (is_in_progress_text g.status)
          (submit_parsed env req g ms w (parse_fen g.fen)) (refuse failed_precondition w)
          (λ playing.
            let (other, known, same, sorted) = get_game_ok env.load_down req.game_id w.db found in
            let differs : bytes_eq g.id id ≡ false = elim (Bool-cases (bytes_eq g.id id)) [
              | inl t ↦
                  let asked : req.game_id ≡ id =
                    sym (find_row_id req.game_id w.db.games known)
                    ∙ ap (λ x. x.id) same
                    ∙ bytes_eq-≡ g.id id t in
                  let one : other ≡ row =
                    some-injective other row
                      (sym known ∙ ap (λ i. find_row i w.db.games) asked ∙ h.row_eq) in
                  let running : is_in_progress_text row.status ≡ true =
                    ap (λ x. is_in_progress_text x.status) (sym one)
                    ∙ ap (λ x. is_in_progress_text x.status) same
                    ∙ playing in
                  absurd (cc)
              | inr f ↦ f
            ] in
            parsed_keeps (Has id row moves) env g (appended-Has id g.id row moves differs) req ms w
              h (parse_fen g.fen))
          (λ over. h)

    submit_move-Has : (req : MoveRequest) → Has id row moves (submit_move env req w).1.db
    unfolding submit_move
    submit_move-Has req =
        elim_cases (λ (x : Answer). Has id row moves x.1.db)
          (is_empty_text req.game_id || is_empty_text req.uci) (refuse invalid_argument w)
          (submit_loaded env req w (get_game env.load_down req.game_id w.db)) (λ e. h)
          (λ e. submit_loaded-Has req (get_game env.load_down req.game_id w.db) refl)

    run_call-Has : (call : Call) → Has id row moves (run_call env call w).db
    unfolding run_call
    run_call-Has (create_call req) = handle_create-Has req
    run_call-Has (join_call req) = join_handler-Has req
    run_call-Has (submit_call req) = submit_move-Has req
    run_call-Has (resign_call req) = resign_handler-Has req

-- Once a game's row is not in progress, no later calls of CreateGame, JoinGame, SubmitMove and Resign
-- change the row or the game's moves, when each of them starts behind the end of the one before.
pub serve-Has :
    (calls : List (Env × Call)) (w : World) (id : Bytes) (row : GameRow) (moves : List StoredMove)
    → is_in_progress_text row.status ≡ false
    → Has id row moves w.db
    → Has id row moves (serve calls w).db
unfolding serve
serve-Has [] w id row moves finished h = h
serve-Has ((env, call) ∷ calls) w id row moves finished h =
    serve-Has calls (run_call env call w) id row moves finished
      (run_call-Has id row moves finished env w h call)
