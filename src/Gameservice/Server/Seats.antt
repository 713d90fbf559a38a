-- ===== src/Gameservice/Server/Seats.antt =====
-- CreateGame, JoinGame, Resign, GetGame and LegalMoves:
-- services/game-service/internal/server/server.go.
use alekhines_counter_gambit.Base.{
  Bool, List, Option, [], false, if◌then◌else◌, map, none, some, true, ◌&&◌, ◌++◌, ◌||◌,
}
use alekhines_counter_gambit.Base.Int.{ℤ}
use alekhines_counter_gambit.Base.Result.{Result, err, ok}
use alekhines_counter_gambit.Base.Text.{Bytes, bytes_eq, codes}
use alekhines_counter_gambit.Chess.Board.{Board}
use alekhines_counter_gambit.Chess.Fen.Parse.{FenError, parse_fen, start_fen}
use alekhines_counter_gambit.Chess.Legal.{legal_moves}
use alekhines_counter_gambit.Chess.Move.{uci_string}
use alekhines_counter_gambit.Chess.Outcome.{GameResult, black_wins, white_wins}
use alekhines_counter_gambit.Gameservice.Mapping.{result_to_db}
use alekhines_counter_gambit.Gameservice.Server.{
  Env, Status, WireGame, World, closing_work, effect_if, failed_precondition, game_counted,
  game_ended, internal, invalid_argument, not_found_code, permission_denied, reload,
  session_created, session_resigned, to_wire_game,
}
use alekhines_counter_gambit.Gameservice.Server.Handlers.{Answer, load_refusal, refuse}
use alekhines_counter_gambit.Store.{
  Db, Game, StoreError, StoredMove, not_found, not_in_progress, seat_unavailable,
}
use alekhines_counter_gambit.Store.Games.{create_game, end_game, get_game, is_empty_text, join_game}
use mathlib.Core.Bool.{not}

-- CreateGame behind the insertion. A live session starts for two players; when it cannot, the row is
-- there and the call fails.
abbrev pub create_stored : Env → World → Result StoreError (Game × Db) → Answer
create_stored env w (err e) = refuse internal w
create_stored env w (ok (g, db)) =
    let live = not g.vs_engine && (not g.awaiting_opponent && env.session_enabled) in
    if live && env.session_down then refuse internal (record w { db = db }) else (
      ok (to_wire_game g []),
      record w {
        db = db;
        effects =
            w.effects
            ++ (effect_if live (session_created g.id)
                ++ effect_if env.metrics_enabled game_counted);
      },
    )

pub record CreateRequest : Type 0 where
  pub white_id : Bytes
  pub black_id : Bytes
  pub vs_engine : Bool
  pub engine_depth : ℤ
  pub rated : Bool
  pub initial_ms : ℤ
  pub increment_ms : ℤ

abbrev pub create_for : Env → CreateRequest → World → Option Bytes → Answer
create_for env req w none = refuse internal w
create_for env req w (some white_id) = create_stored env w (
    create_game env.write_down env.uuid
      (record {
        white_id = white_id;
        black_id = req.black_id;
        vs_engine = req.vs_engine;
        engine_depth = req.engine_depth;
        start_fen = start_fen;
        rated = req.rated;
        initial_ms = req.initial_ms;
        increment_ms = req.increment_ms;
      })
      w.db)

unfoldable pub handle_create : Env → CreateRequest → World → Answer
unfolding create_game to_wire_game
handle_create env req w =
    create_for env req w (if is_empty_text req.white_id then env.guest else some req.white_id)

pub record PlayerRequest : Type 0 where
  pub game_id : Bytes
  pub player_id : Bytes

-- JoinGame behind the update.
abbrev pub join_refusal : StoreError → Status
join_refusal seat_unavailable = failed_precondition
join_refusal not_found = not_found_code
join_refusal _ = internal

abbrev pub join_answer : Game → World → Result StoreError (Game × List StoredMove) → Answer
join_answer g w (err e) = refuse internal w
join_answer g w (ok (g', moves)) = (ok (to_wire_game g moves), w)

abbrev pub join_stored : Env → World → Result StoreError Game × Db → Answer
join_stored env w (err e, db) = refuse (join_refusal e) (record w { db = db })
join_stored env w (ok g, db) =
    let w' : World = record {
      db = db;
      effects =
          w.effects
          ++ effect_if (env.session_enabled && not env.session_down) (session_created g.id);
    } in
    join_answer g w' (get_game env.reload_down g.id db)

unfoldable pub handle_join : Env → PlayerRequest → World → Answer
unfolding join_game get_game to_wire_game
handle_join env req w = elim (is_empty_text req.game_id || is_empty_text req.player_id) [
  | true ↦ refuse invalid_argument w
  | false ↦
      join_stored env w (join_game env.write_down env.load_down req.game_id req.player_id w.db)
]

-- Resign: the winner, `none` for a stranger.
unfoldable pub winner_against : Game → Bytes → Option GameResult
winner_against g player_id =
    if bytes_eq player_id g.white_id
    then some black_wins
    else if bytes_eq player_id g.black_id
    then some white_wins
    else none

abbrev pub resign_refusal : StoreError → Status
resign_refusal not_in_progress = failed_precondition
resign_refusal _ = internal

abbrev pub resign_closed :
    Env → PlayerRequest → Game → GameResult → World → Result StoreError Db → Answer
resign_closed env req g winner w (err e) = refuse (resign_refusal e) w
resign_closed env req g winner w (ok db) = reload env g.id (record {
  db = db;
  effects =
      w.effects
      ++ (game_ended env winner
          ++ (effect_if (not g.vs_engine && env.session_enabled)
                (session_resigned g.id req.player_id)
              ++ closing_work g.id winner));
})

abbrev pub resign_judged : Env → PlayerRequest → Game → World → Option GameResult → Answer
resign_judged env req g w none = refuse permission_denied w
resign_judged env req g w (some winner) =
    resign_closed env req g winner w
      (end_game env.write_down g.id (result_to_db winner) (codes "RESIGNATION") w.db)

abbrev pub resign_loaded :
    Env → PlayerRequest → World → Result StoreError (Game × List StoredMove) → Answer
resign_loaded env req w (err e) = refuse (load_refusal e) w
resign_loaded env req w (ok (g, moves)) = resign_judged env req g w (winner_against g req.player_id)

unfoldable pub handle_resign : Env → PlayerRequest → World → Answer
unfolding get_game winner_against end_game reload
handle_resign env req w = elim (is_empty_text req.game_id || is_empty_text req.player_id) [
  | true ↦ refuse invalid_argument w
  | false ↦ resign_loaded env req w (get_game env.load_down req.game_id w.db)
]

-- GetGame
abbrev pub get_answer : Result StoreError (Game × List StoredMove) → Result Status WireGame
get_answer (err e) = err (load_refusal e)
get_answer (ok (g, moves)) = ok (to_wire_game g moves)

unfoldable pub handle_get : Env → Bytes → World → Result Status WireGame
unfolding get_game to_wire_game
handle_get env id w =
    if is_empty_text id then err invalid_argument else get_answer (get_game env.load_down id w.db)

-- LegalMoves
abbrev pub moves_answer : Result FenError Board → Result Status (List Bytes)
moves_answer (err e) = err internal
moves_answer (ok b) = ok (map uci_string (legal_moves b))

abbrev pub moves_loaded : Result StoreError (Game × List StoredMove) → Result Status (List Bytes)
moves_loaded (err e) = err (load_refusal e)
moves_loaded (ok (g, moves)) = moves_answer (parse_fen g.fen)

unfoldable pub handle_legal_moves : Env → Bytes → World → Result Status (List Bytes)
unfolding get_game parse_fen legal_moves uci_string
handle_legal_moves env id w =
    if is_empty_text id then err invalid_argument else moves_loaded (get_game env.load_down id w.db)
