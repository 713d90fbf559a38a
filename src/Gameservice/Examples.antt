-- ===== src/Gameservice/Examples.antt =====
-- The laws of the game service at a small game.
use alekhines_counter_gambit.Analysis.Examples.{answering, whole}
use alekhines_counter_gambit.Analysis.Score.Laws.{mate_eval}
use alekhines_counter_gambit.Analysis.Worker.{
  AnalysisCompleted, AnalysisRequest, GameSignals, analyze,
}
use alekhines_counter_gambit.Base.{List, [], arith, false, map, none, refl, some, true, ◌∷◌, ◌≡◌}
use alekhines_counter_gambit.Base.All.{cons, nil}
use alekhines_counter_gambit.Base.Int.{pos}
use alekhines_counter_gambit.Base.Result.{ok}
use alekhines_counter_gambit.Base.Text.{Bytes, codes}
use alekhines_counter_gambit.Chess.Apply.{
  apply_move_unchecked, en_passant_after, half_move_after, squares_after, update_castling_rights,
}
use alekhines_counter_gambit.Chess.Attack.{is_attacked}
use alekhines_counter_gambit.Chess.Board.{Board}
use alekhines_counter_gambit.Chess.Examples.{king_pawn, king_pawn_accepted}
use alekhines_counter_gambit.Chess.Fen.Parse.{new_board, parse_fen, start_fen}
use alekhines_counter_gambit.Chess.Fen.Print.{fen}
use alekhines_counter_gambit.Chess.Legal.{apply_uci, is_legal, legal_moves}
use alekhines_counter_gambit.Chess.Outcome.{
  in_progress, is_insufficient, ongoing, outcome, outcome_with_history, threefold,
}
use alekhines_counter_gambit.Chess.Pgn.{pgn}
use alekhines_counter_gambit.Chess.Pgn.Replay.{replay}
use alekhines_counter_gambit.Chess.Tests.{start_board, start_parses}
use alekhines_counter_gambit.Gameservice.History.{Archive, archive_pgn, request_analysis, tags_of}
use alekhines_counter_gambit.Gameservice.History.Finished.{
  archive_pgn-some, request_analysis-analyze,
}
use alekhines_counter_gambit.Gameservice.Server.{
  Env, World, authorize_mover, failed_precondition, persist, reload, to_wire_game,
}
use alekhines_counter_gambit.Gameservice.Server.Calls.{
  Call, create_call, empty_world, resign_call, run_call, serve, serve-IsConsistent, submit_call,
}
use alekhines_counter_gambit.Gameservice.Server.Closed.{Has, serve-Has}
use alekhines_counter_gambit.Gameservice.Server.Consistent.{
  IsConsistent, appended-IsConsistent, created-IsConsistent,
}
use alekhines_counter_gambit.Gameservice.Server.Handlers.{MoveRequest, submit_move}
use alekhines_counter_gambit.Gameservice.Server.Line.{IsLine-nil, next_move}
use alekhines_counter_gambit.Gameservice.Server.Played.{submit_move-ok}
use alekhines_counter_gambit.Gameservice.Server.Refused.{submit_move-Untouched}
use alekhines_counter_gambit.Gameservice.Server.Seats.{handle_create, handle_resign, winner_against}
use alekhines_counter_gambit.Gameservice.Server.Started.{IsPlayed}
use alekhines_counter_gambit.Rating.{black_won}
use alekhines_counter_gambit.Store.{Db, Game, GameRow, in_progress_text}
use alekhines_counter_gambit.Store.Games.{
  any_row, append_move, appended, create_game, end_game, find_row, game_moves, get_game,
  insert_by_ply, is_blocked, read_row, rows_of, sort_by_ply, update_where,
}
use alekhines_counter_gambit.Store.Ratings.{RatingCall, RatingTables, rate_games}
use alekhines_counter_gambit.Store.Ratings.Ledger.{IsLedger, rate_games-IsLedger}

abbrev game_id : Bytes
game_id = codes "0b6e5c1e-8f1d-4a55-9a0c-3f5f0a1d2c01"

abbrev fresh_row : GameRow
fresh_row = record {
  id = game_id;
  white_id = codes "alice";
  black_id = some (codes "bob");
  status = in_progress_text;
  end_reason = none;
  fen = start_fen;
  engine_depth = pos 0;
  vs_engine = false;
  rated = true;
  initial_ms = pos 300000;
  increment_ms = pos 0;
  started_at = 7;
  ended_at = none;
}

abbrev resigned_row : GameRow
resigned_row = record fresh_row {
  status = codes "BLACK_WON";
  end_reason = some (codes "RESIGNATION");
  ended_at = some 9;
}

abbrev with_row : GameRow → Db
with_row row = record { games = row ∷ []; moves = []; outbox = []; next_outbox_id = 1; now = 0 }

abbrev calm : Env
calm = record {
  session_enabled = true;
  session_down = false;
  metrics_enabled = true;
  engine = λ f depth. none;
  guest = none;
  uuid = some game_id;
  load_down = false;
  write_down = false;
  reply_down = false;
  reload_down = false;
}

abbrev alice_to_move : MoveRequest
alice_to_move = record { game_id = game_id; player_id = codes "alice"; uci = codes "e2e4" }

abbrev a_game : List (Env × Call)
a_game =
    (
      calm,
      create_call (record {
        white_id = codes "alice";
        black_id = codes "bob";
        vs_engine = false;
        engine_depth = pos 0;
        rated = true;
        initial_ms = pos 300000;
        increment_ms = pos 0;
      }),
    )
    ∷ (calm, submit_call alice_to_move)
    ∷ (calm, resign_call (record { game_id = game_id; player_id = codes "bob" }))
    ∷ []

-- The service plays the game: two players, a move of White, and Black resigns.
a_game_runs : map (λ row. row.status) (serve a_game empty_world).db.games ≡ codes "WHITE_WON" ∷ []
unfolding serve run_call handle_create create_game submit_move handle_resign persist append_move
    end_game get_game game_moves reload winner_against authorize_mover update_where any_row
    is_blocked find_row parse_fen apply_uci is_legal legal_moves is_attacked apply_move_unchecked
    squares_after fen outcome_with_history outcome en_passant_after is_insufficient half_move_after
    threefold update_castling_rights
a_game_runs = refl

serve-IsConsistent_example : IsConsistent (serve a_game empty_world).db
serve-IsConsistent_example = serve-IsConsistent a_game (omega arith)

serve-Has_example :
    Has game_id resigned_row []
      (serve
        ((calm, submit_call alice_to_move) ∷ [])
        (record { db = with_row resigned_row; effects = [] })).db
unfolding find_row rows_of
serve-Has_example =
    serve-Has ((calm, submit_call alice_to_move) ∷ [])
      (record { db = with_row resigned_row; effects = [] }) game_id resigned_row [] refl
      (record { row_eq = refl; moves_eq = refl })

submit_move-Untouched_example :
    (submit_move calm alice_to_move (record { db = with_row resigned_row; effects = [] })).1
    ≡ record { db = with_row resigned_row; effects = [] }
unfolding submit_move get_game find_row game_moves
submit_move-Untouched_example =
    submit_move-Untouched calm alice_to_move (record { db = with_row resigned_row; effects = [] })
      failed_precondition refl (λ e. cc)

-- The game behind the first move.
opened_game : IsConsistent (with_row fresh_row)
unfolding any_row
opened_game =
    created-IsConsistent fresh_row empty_world.db refl refl
      (record { games = nil; owners = nil; announced = refl; ascending = omega arith })

abbrev after_move : Db
after_move =
    appended game_id (next_move [] (codes "e2e4") king_pawn) in_progress_text [] false
      (with_row fresh_row)

moved_game : IsConsistent after_move
unfolding rows_of any_row IsLine-nil
moved_game =
    appended-IsConsistent game_id (codes "e2e4") in_progress_text [] false king_pawn
      (with_row fresh_row) opened_game IsLine-nil (omega arith) king_pawn_accepted refl

abbrev moved_row : Game
moved_row = read_row (record fresh_row { fen = fen king_pawn })

request_analysis-analyze_example :
    (req : AnalysisRequest) × (r : AnalysisCompleted whole × List (GameSignals whole))
    × (request_analysis true (pos 12) false false game_id after_move ≡ some req)
    × (analyze whole answering req ≡ ok r)
    × (map (λ m. m.uci) r.0.moves ≡ codes "e2e4" ∷ [])
unfolding get_game find_row game_moves rows_of sort_by_ply insert_by_ply update_where
request_analysis-analyze_example =
    request_analysis-analyze whole answering (pos 12) game_id after_move moved_row
      (next_move [] (codes "e2e4") king_pawn ∷ []) moved_game (omega arith) refl (omega arith)
      (λ f depth. (mate_eval (codes "e2e4") (pos 30) (pos 0), refl))

abbrev archive : Archive
archive = record { enabled = true; username = λ id. some id; date = λ time. codes "2024.05.01" }

archive_pgn-some_example :
    (text : Bytes) × (last : Board) × (archive_pgn archive false game_id after_move ≡ some text)
    × (pgn start_fen (codes "e2e4" ∷ []) (tags_of archive moved_row) ≡ ok text)
    × (replay start_board (codes "e2e4" ∷ []) ≡ ok last)
    × (moved_row.fen ≡ fen last)
unfolding get_game find_row game_moves rows_of sort_by_ply insert_by_ply update_where
archive_pgn-some_example =
    archive_pgn-some archive game_id after_move moved_row
      (next_move [] (codes "e2e4") king_pawn ∷ []) moved_game refl (omega arith) refl

abbrev accounts : RatingTables
accounts = record {
  accounts =
      record { id = codes "alice"; elo = pos 1200 }
      ∷ record { id = codes "bob"; elo = pos 1200 }
      ∷ [];
  scored = [];
}

abbrev scored_twice : List (RatingCall whole)
scored_twice =
    record {
      query_down = false;
      down = false;
      game_id = game_id;
      outcome = black_won;
      db = with_row resigned_row;
    }
    ∷ record {
      query_down = false;
      down = false;
      game_id = game_id;
      outcome = black_won;
      db = with_row resigned_row;
    }
    ∷ []

rate_games-IsLedger_example : IsLedger (rate_games whole scored_twice accounts)
rate_games-IsLedger_example =
    rate_games-IsLedger whole scored_twice accounts
      (record { ratings = cons refl (cons refl nil); once = tt })

king_pawn_goes_on :
    outcome_with_history king_pawn (start_fen ∷ fen king_pawn ∷ []) ≡ (in_progress, ongoing)
unfolding outcome_with_history outcome legal_moves is_attacked apply_move_unchecked squares_after
    is_insufficient threefold fen
king_pawn_goes_on = refl

abbrev before_move : World
before_move = record { db = with_row fresh_row; effects = [] }

submit_move-ok_example :
    (g' : Game) × (w' : World) × (submit_move calm alice_to_move before_move
      ≡ (ok (to_wire_game g' (next_move [] (codes "e2e4") king_pawn ∷ [])), w'))
    × IsPlayed calm
        (codes "alice")
        (read_row fresh_row)
        g'
        []
        (next_move [] (codes "e2e4") king_pawn)
        king_pawn
        in_progress
        ongoing
        before_move
        w'
unfolding get_game find_row game_moves rows_of sort_by_ply authorize_mover parse_fen new_board
submit_move-ok_example =
    submit_move-ok calm alice_to_move before_move (read_row fresh_row) [] start_board king_pawn
      in_progress ongoing opened_game refl refl refl refl refl refl refl start_parses refl
      king_pawn_accepted king_pawn_goes_on
