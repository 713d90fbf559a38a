-- ===== src/Gameservice/History.antt =====
-- What a finished game starts: requestAnalysis and archivePGN of
-- services/game-service/internal/server/history.go, over GameForAnalysis of pkg/store/analysis.go.
pub mod Finished
use alekhines_counter_gambit.Analysis.Summary.{Floats}
use alekhines_counter_gambit.Analysis.Worker.{AnalysisRequest}
use alekhines_counter_gambit.Base.{Bool, List, Option, [], if◌then◌else◌, map, none, some, ℕ, ◌∷◌}
use alekhines_counter_gambit.Base.Int.{to_uint32, ℤ}
use alekhines_counter_gambit.Base.Result.{Result, err, ok}
use alekhines_counter_gambit.Base.Text.{Bytes, StringMap, codes}
use alekhines_counter_gambit.Chess.Fen.Parse.{start_fen}
use alekhines_counter_gambit.Chess.Outcome.{
  GameResult, black_wins, draw, in_progress, outcome, white_wins,
}
use alekhines_counter_gambit.Chess.Pgn.{PgnError, pgn}
use alekhines_counter_gambit.Gameservice.Mapping.{pgn_result}
use alekhines_counter_gambit.Rating.{RatingOutcome, black_won, drawn, white_won}
use alekhines_counter_gambit.Store.{Db, Game, StoreError, StoredMove}
use alekhines_counter_gambit.Store.Games.{get_game}
use alekhines_counter_gambit.Store.Ratings.{RatingTables, apply_ratings, kept}

-- GameForAnalysis: the positions of a game and its moves.
abbrev pub history_of :
    Result StoreError (Game × List StoredMove) → Result StoreError (List Bytes × List Bytes)
history_of (err e) = err e
history_of (ok (g, moves)) = ok (start_fen ∷ map (λ m. m.fen_after) moves, map (λ m. m.uci) moves)

unfoldable pub game_for_analysis : Bool → Bytes → Db → Result StoreError (List Bytes × List Bytes)
unfolding get_game
game_for_analysis down id db = history_of (get_game down id db)

-- requestAnalysis: the message that it hands to Publish, if any, whose failure is only logged. It reads
-- the game and then its history.
abbrev pub request_of : Bytes → ℤ → Game → List Bytes × List Bytes → Option AnalysisRequest
request_of id depth g (fens, []) = none
request_of id depth g (fens, uci ∷ ucis) = some (record {
  game_id = id;
  depth = to_uint32 depth;
  fen_history = fens;
  ucis = uci ∷ ucis;
  white_id = g.white_id;
  black_id = g.black_id;
  vs_engine = g.vs_engine;
})

abbrev pub request_loaded :
    Bytes
    → ℤ
    → Result StoreError (Game × List StoredMove)
    → Result StoreError (List Bytes × List Bytes)
    → Option AnalysisRequest
request_loaded id depth (err e) history = none
request_loaded id depth (ok (g, moves)) (err e) = none
request_loaded id depth (ok (g, moves)) (ok history) = request_of id depth g history

unfoldable pub request_analysis : Bool → ℤ → Bool → Bool → Bytes → Db → Option AnalysisRequest
unfolding get_game game_for_analysis
request_analysis enabled depth down history_down id db =
    if enabled
    then request_loaded id depth (get_game down id db) (game_for_analysis history_down id db)
    else none

-- What archivePGN asks of others: GetUser for a player's name, and the spelling of a date.
pub record Archive : Type 0 where
  pub enabled : Bool
  pub username : Bytes → Option Bytes
  pub date : ℕ → Bytes

abbrev pub name_or : Bytes → Option Bytes → Bytes
name_or default none = default
name_or default (some name) = name

abbrev pub tags_of : Archive → Game → StringMap
tags_of a g =
    (codes "Event", codes "Alekhine's Counter-Gambit")
    ∷ (codes "Site", codes "localhost")
    ∷ (codes "Date", a.date g.started_at)
    ∷ (codes "White", name_or (codes "Guest") (a.username g.white_id))
    ∷ (
      codes "Black",
      if g.vs_engine then codes "Stockfish" else name_or (codes "Guest") (a.username g.black_id),
    )
    ∷ (codes "Result", pgn_result g.status)
    ∷ []

abbrev pub written : Result PgnError Bytes → Option Bytes
written (err e) = none
written (ok text) = some text

abbrev pub archive_loaded : Archive → Result StoreError (Game × List StoredMove) → Option Bytes
archive_loaded a (err e) = none
archive_loaded a (ok (g, [])) = none
archive_loaded a (ok (g, m ∷ moves)) =
    written (pgn start_fen (map (λ m'. m'.uci) (m ∷ moves)) (tags_of a g))

-- archivePGN: the text that it hands to Put, if any, whose failure is only logged.
unfoldable pub archive_pgn : Archive → Bool → Bytes → Db → Option Bytes
unfolding get_game pgn pgn_result
archive_pgn a down id db = if a.enabled then archive_loaded a (get_game down id db) else none

-- applyRatings: what it asks of the store.
abbrev pub rating_outcome : GameResult → Option RatingOutcome
rating_outcome white_wins = some white_won
rating_outcome black_wins = some black_won
rating_outcome draw = some drawn
rating_outcome in_progress = none

abbrev pub score_game :
    Floats → Bool → Bool → Bytes → Option RatingOutcome → Db → RatingTables → RatingTables
score_game F query_down down id none db t = t
score_game F query_down down id (some outcome) db t =
    kept F t (apply_ratings F query_down down id outcome db t)
