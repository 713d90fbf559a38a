-- ===== src/Gameservice/Server/Handlers.antt =====
-- SubmitMove:
-- services/game-service/internal/server/server.go.
use alekhines_counter_gambit.Base.{
  List, Option, [], false, if◌then◌else◌, length, none, some, true, ◌&&◌, ◌++◌, ◌+◌, ◌||◌, ◌∷◌,
}
use alekhines_counter_gambit.Base.Result.{Result, err, ok}
use alekhines_counter_gambit.Base.Text.{Bytes}
use alekhines_counter_gambit.Chess.Board.{Board}
use alekhines_counter_gambit.Chess.Fen.Parse.{FenError, parse_fen}
use alekhines_counter_gambit.Chess.Fen.Print.{fen}
use alekhines_counter_gambit.Chess.Legal.{ChessError, apply_uci}
use alekhines_counter_gambit.Chess.Outcome.{is_in_progress, outcome_with_history}
use alekhines_counter_gambit.Gameservice.Server.{
  Env, Status, WireGame, World, authorize_mover, build_history, failed_precondition, internal,
  invalid_argument, move_effects, not_found_code, persist, play_engine_reply, reload,
}
use alekhines_counter_gambit.Store.{Game, StoreError, StoredMove, is_in_progress_text, not_found}
use alekhines_counter_gambit.Store.Games.{get_game, is_empty_text}
use mathlib.Core.Bool.{not}

pub record MoveRequest : Type 0 where
  pub game_id : Bytes
  pub player_id : Bytes
  pub uci : Bytes

abbrev pub Answer : Type 0
Answer = Result Status WireGame × World

-- `return nil, status.Error(...)`
abbrev pub refuse : {A : Type 0} → Status → World → Result Status A × World
refuse s w = (err s, w)

abbrev pub after_reply : Env → Bytes → Option Status × World → Answer
after_reply env id (some s, w) = refuse s w
after_reply env id (none, w) = reload env id w

-- Behind AppendMove: the effects, and the engine's reply if the game goes on.
abbrev pub submit_persisted :
    Env
    → MoveRequest
    → Game
    → List StoredMove
    → Board
    → List Bytes
    → World
    → Result StoreError World
    → Answer
submit_persisted env req g moves after history w (err e) = refuse internal w
submit_persisted env req g moves after history w (ok w') =
    let verdict = outcome_with_history after history in
    let ended = not (is_in_progress verdict.0) in
    let w'' = record w' {
      effects = w'.effects ++ move_effects env g req.player_id verdict ended;
    } in
    elim (not ended && g.vs_engine) [
      | true ↦
          after_reply env g.id (play_engine_reply env g after history (length moves + 1 + 1) w'')
      | false ↦ reload env g.id w''
    ]

-- Behind ApplyUCI.
abbrev pub submit_applied :
    Env → MoveRequest → Game → List StoredMove → World → Result ChessError Board → Answer
submit_applied env req g moves w (err e) = refuse invalid_argument w
submit_applied env req g moves w (ok after) =
    let history = build_history moves ++ fen after ∷ [] in
    submit_persisted env req g moves after history w
      (persist env.write_down g after history (length moves + 1) req.uci w)

abbrev pub mover_refusal : Game → Board → MoveRequest → Option Status
mover_refusal g board req = if g.vs_engine then none else authorize_mover g board.turn req.player_id

-- Behind the test of the mover.
abbrev pub submit_authorized :
    Env → MoveRequest → Game → List StoredMove → Board → World → Option Status → Answer
submit_authorized env req g moves board w (some s) = refuse s w
submit_authorized env req g moves board w none =
    submit_applied env req g moves w (apply_uci board req.uci)

-- Behind ParseFEN.
abbrev pub submit_parsed :
    Env → MoveRequest → Game → List StoredMove → World → Result FenError Board → Answer
submit_parsed env req g moves w (err e) = refuse internal w
submit_parsed env req g moves w (ok board) =
    submit_authorized env req g moves board w (mover_refusal g board req)

-- The error of a failed GetGame.
abbrev pub load_refusal : StoreError → Status
load_refusal not_found = not_found_code
load_refusal _ = internal

-- Behind GetGame.
abbrev pub submit_loaded :
    Env → MoveRequest → World → Result StoreError (Game × List StoredMove) → Answer
submit_loaded env req w (err e) = refuse (load_refusal e) w
submit_loaded env req w (ok (g, moves)) = elim (is_in_progress_text g.status) [
  | true ↦ submit_parsed env req g moves w (parse_fen g.fen)
  | false ↦ refuse failed_precondition w
]

unfoldable pub submit_move : Env → MoveRequest → World → Answer
unfolding get_game parse_fen authorize_mover apply_uci fen persist outcome_with_history move_effects
    play_engine_reply reload
submit_move env req w = elim (is_empty_text req.game_id || is_empty_text req.uci) [
  | true ↦ refuse invalid_argument w
  | false ↦ submit_loaded env req w (get_game env.load_down req.game_id w.db)
]
