-- ===== src/Gameservice/Server.antt =====
-- The handlers of games and moves: services/game-service/internal/server/server.go.
pub mod Handlers
pub mod Seats
pub mod Line
pub mod Consistent
pub mod Position
pub mod Submit
pub mod Calls
pub mod Frame
pub mod Refused
pub mod Closed
pub mod FreePly
pub mod Accepted
pub mod Started
pub mod Played
use alekhines_counter_gambit.Base.{
  Bool, List, Option, [], if◌then◌else◌, map, none, some, ℕ, ◌%◌, ◌&&◌, ◌++◌, ◌^◌, ◌∷◌,
}
use alekhines_counter_gambit.Base.Int.{ℤ}
use alekhines_counter_gambit.Base.Result.{Result, err, ok, ◌>>=◌}
use alekhines_counter_gambit.Base.Text.{Bytes, bytes_eq}
use alekhines_counter_gambit.Chess.Board.{Board}
use alekhines_counter_gambit.Chess.Fen.Parse.{start_fen}
use alekhines_counter_gambit.Chess.Fen.Print.{fen}
use alekhines_counter_gambit.Chess.Legal.{ChessError, apply_uci}
use alekhines_counter_gambit.Chess.Outcome.{
  GameResult, Verdict, black_wins, is_in_progress, outcome_with_history, white_wins,
}
use alekhines_counter_gambit.Chess.Piece.{Color, black, color_eq}
use alekhines_counter_gambit.Gameservice.Mapping.{
  WireReason, WireStatus, end_reason_from_db, reason_to_db, reason_to_session, result_to_db,
  status_from_db,
}
use alekhines_counter_gambit.Store.{Db, Game, StoreError, StoredMove}
use alekhines_counter_gambit.Store.Games.{append_move, get_game, is_empty_text}
use mathlib.Core.Bool.{not}

-- The codes of gRPC that the handlers return.
pub data Status : Type 0 where
  invalid_argument not_found_code internal failed_precondition permission_denied already_exists
        unauthenticated :
      Status

pub data Winner : Type 0 where
  winner_white winner_black winner_none : Winner

-- The calls whose failure is logged and changes nothing in the handler, with their arguments: those of
-- the session manager, the counters, and the work that a finished game starts.
pub data Effect : Type 0 where
  game_counted : Effect
  move_counted : Effect
  game_closed : Bytes → Effect
  session_created : Bytes → Effect
  session_moved : Bytes → Bytes → Effect
  session_ended : Bytes → Winner → Bytes → Effect
  session_resigned : Bytes → Bytes → Effect
  ratings_applied : Bytes → GameResult → Effect
  analysis_requested : Bytes → Effect
  pgn_archived : Bytes → Effect
  opening_ingested : Bytes → Bytes → Effect

pub record World : Type 0 where
  pub db : Db
  pub effects : List Effect

-- The server's configuration, the answer of the engine and of a new account, and which calls of the
-- database fail in this request, in the order in which the handler makes them.
pub record Env : Type 0 where
  pub session_enabled : Bool
  pub session_down : Bool
  pub metrics_enabled : Bool
  pub engine : Bytes → ℤ → Option Bytes
  pub guest : Option Bytes
  pub uuid : Option Bytes
  pub load_down : Bool
  pub write_down : Bool
  pub reply_down : Bool
  pub reload_down : Bool

pub record WireMove : Type 0 where
  pub ply : ℕ
  pub uci : Bytes
  pub fen_after : Bytes

pub record WireGame : Type 0 where
  pub id : Bytes
  pub fen : Bytes
  pub status : WireStatus
  pub end_reason : WireReason
  pub vs_engine : Bool
  pub awaiting_opponent : Bool
  pub rated : Bool
  pub white_id : Bytes
  pub black_id : Bytes
  pub started_at : ℕ
  pub ended_at : Option ℕ
  pub moves : List WireMove

abbrev pub to_wire_move : StoredMove → WireMove
to_wire_move m = record { ply = m.ply % 2 ^ 32; uci = m.uci; fen_after = m.fen_after }

unfoldable pub to_wire_game : Game → List StoredMove → WireGame
unfolding status_from_db end_reason_from_db
to_wire_game g moves = record {
  id = g.id;
  fen = g.fen;
  status = status_from_db g.status;
  end_reason = end_reason_from_db g.end_reason;
  vs_engine = g.vs_engine;
  awaiting_opponent = g.awaiting_opponent;
  rated = g.rated;
  white_id = g.white_id;
  black_id = g.black_id;
  started_at = g.started_at;
  ended_at = g.ended_at;
  moves = map to_wire_move moves;
}

-- buildHistory
abbrev pub build_history : List StoredMove → List Bytes
build_history moves = start_fen ∷ map (λ m. m.fen_after) moves

-- authorizeMover; `none` is no error.
unfoldable pub authorize_mover : Game → Color → Bytes → Option Status
authorize_mover g turn player_id =
    if is_empty_text player_id
    then some invalid_argument
    else if bytes_eq player_id (if color_eq turn black then g.black_id else g.white_id)
    then none
    else some permission_denied

abbrev pub winner_of : GameResult → Winner
winner_of white_wins = winner_white
winner_of black_wins = winner_black
winner_of _ = winner_none

abbrev pub effect_if : Bool → Effect → List Effect
effect_if test e = if test then e ∷ [] else []

-- gameEnded
abbrev pub game_ended : Env → GameResult → List Effect
game_ended env result = effect_if env.metrics_enabled (game_closed (result_to_db result))

-- recordMove
abbrev pub record_move : Env → Bool → GameResult → List Effect
record_move env ended result =
    effect_if env.metrics_enabled move_counted ++ (if ended then game_ended env result else [])

-- applyRatings, requestAnalysis, archivePGN and ingestOpening of a finished game.
abbrev pub closing_work : Bytes → GameResult → List Effect
closing_work id result =
    ratings_applied id result
    ∷ analysis_requested id
    ∷ pgn_archived id
    ∷ opening_ingested id (result_to_db result)
    ∷ []

-- What a persisted move of a player starts.
unfoldable pub move_effects : Env → Game → Bytes → Verdict → Bool → List Effect
move_effects env g player_id (result, reason) ended =
    effect_if (not g.vs_engine && env.session_enabled) (
      if ended
      then session_ended g.id (winner_of result) (reason_to_session reason)
      else session_moved g.id player_id)
    ++ (record_move env ended result ++ (if ended then closing_work g.id result else []))

-- The last lines of a handler: the game as it is stored now.
abbrev pub answer :
    World → Result StoreError (Game × List StoredMove) → Result Status WireGame × World
answer w (ok (g, moves)) = (ok (to_wire_game g moves), w)
answer w (err e) = (err internal, w)

unfoldable pub reload : Env → Bytes → World → Result Status WireGame × World
unfolding get_game to_wire_game
reload env id w = answer w (get_game env.reload_down id w.db)

-- The move that is stored, and the verdict on the position after it.
unfoldable pub persist :
    Bool → Game → Board → List Bytes → ℕ → Bytes → World → Result StoreError World
unfolding append_move outcome_with_history fen
persist down g after history ply uci w =
    let (result, reason) = outcome_with_history after history in
    do
      db ←
          append_move down g.id (record { ply = ply; uci = uci; fen_after = fen after })
            (result_to_db result) (reason_to_db reason) (not (is_in_progress result)) w.db
      ok (record w { db = db })

-- playEngineReply behind the engine's answer.
abbrev pub reply_persisted : World → Result StoreError World → Option Status × World
reply_persisted w (err e) = (some internal, w)
reply_persisted w (ok w') = (none, w')

abbrev pub reply_applied :
    Env → Game → List Bytes → ℕ → Bytes → World → Result ChessError Board → Option Status × World
reply_applied env g history ply uci w (err e) = (some internal, w)
reply_applied env g history ply uci w (ok board) =
    reply_persisted w (persist env.reply_down g board (history ++ fen board ∷ []) ply uci w)

abbrev pub reply_answered :
    Env → Game → Board → List Bytes → ℕ → World → Option Bytes → Option Status × World
reply_answered env g after history ply w none = (some internal, w)
reply_answered env g after history ply w (some uci) =
    reply_applied env g history ply uci w (apply_uci after uci)

-- playEngineReply
unfoldable pub play_engine_reply :
    Env → Game → Board → List Bytes → ℕ → World → Option Status × World
unfolding persist apply_uci fen
play_engine_reply env g after history ply w =
    reply_answered env g after history ply w (env.engine (fen after) g.engine_depth)
