-- ===== src/Analysis/Worker.antt =====
-- The analysis of a finished game: services/analysis-worker/internal/worker/worker.go. The engine, the
-- filter of known positions and float64 are arguments; a call of the engine that fails or takes more
-- than its 30 seconds has no answer.
pub mod Total
use alekhines_counter_gambit.Analysis.Accuracy.{accuracy_for_move}
use alekhines_counter_gambit.Analysis.Score.{
  Eval, Quality, best, blunder, brilliant, centipawn_loss, classify, excellent, good, inaccuracy,
  loss_for_move, mistake, normalized,
}
use alekhines_counter_gambit.Analysis.Summary.{Floats, MoveReport, PlayerReport, summarise}
use alekhines_counter_gambit.Base.{
  Bool, List, Option, [], false, if◌then◌else◌, length, ltb, map, none, some, suc, true, zero, ℕ,
  ◌%◌, ◌++◌, ◌+◌, ◌==◌, ◌^◌, ◌||◌, ◌∷◌,
}
use alekhines_counter_gambit.Base.Int.{to_int32, ℤ}
use alekhines_counter_gambit.Base.Result.{Result, err, ok, ◌>>=◌}
use alekhines_counter_gambit.Base.Text.{Bytes, bytes_eq}
use alekhines_counter_gambit.Chess.Fen.Parse.{parse_fen}
use alekhines_counter_gambit.Chess.Piece.{color_eq, white}
use alekhines_counter_gambit.Store.Games.{is_empty_text}
use mathlib.Core.Bool.{not}

-- AnalysisRequested
pub record AnalysisRequest : Type 0 where
  pub game_id : Bytes
  pub depth : ℕ
  pub fen_history : List Bytes
  pub ucis : List Bytes
  pub white_id : Bytes
  pub black_id : Bytes
  pub vs_engine : Bool

pub data AnalyzeError : Type 0 where
  no_move : AnalyzeError
  bad_history : AnalyzeError
  no_answer : ℕ → AnalyzeError
  corrupt_fen : ℕ → AnalyzeError

pub data WireQuality : Type 0 where
  wire_unspecified wire_brilliant wire_best wire_excellent wire_good wire_inaccuracy wire_mistake
        wire_blunder :
      WireQuality

-- toProtoQuality
abbrev pub to_wire_quality : Quality → WireQuality
to_wire_quality brilliant = wire_brilliant
to_wire_quality best = wire_best
to_wire_quality excellent = wire_excellent
to_wire_quality good = wire_good
to_wire_quality inaccuracy = wire_inaccuracy
to_wire_quality mistake = wire_mistake
to_wire_quality blunder = wire_blunder

-- MoveAnalysis
pub record WireMoveReport : Type 0 where
  pub ply : ℕ
  pub uci : Bytes
  pub best_uci : Bytes
  pub eval_before_cp : ℤ
  pub eval_after_cp : ℤ
  pub centipawn_loss : ℤ
  pub quality : WireQuality
  pub matched_engine : Bool
  pub mate_before : Bool
  pub mate_after : Bool

-- The evaluation of every position, one call of the engine for each.
unfoldable pub evaluate_all :
    (Bytes → ℕ → Option Eval) → ℕ → ℕ → List Bytes → Result AnalyzeError (List Eval)
evaluate_all engine depth ply [] = ok []
evaluate_all engine depth ply (f ∷ fens) = elim (engine f depth) [
  | none ↦ err (no_answer ply)
  | some e ↦ do es ← evaluate_all engine depth (ply + 1) fens; ok (e ∷ es)
]

module _ (F : Floats) where
  abbrev pub report_of : ℕ → Bytes → Eval → Eval → Bool → MoveReport F
  report_of ply uci before after white_to_move =
      let matched = bytes_eq before.best_move uci in
      let loss = loss_for_move before after matched in
      record {
        ply = ply;
        uci = uci;
        best_uci = before.best_move;
        eval_before_cp = normalized before;
        eval_after_cp = normalized after;
        centipawn_loss = loss;
        accuracy = accuracy_for_move F before after matched;
        quality = classify loss matched false;
        matched_engine = matched;
        mate_before = before.mate;
        mate_after = after.mate;
        white_to_move = white_to_move;
      }

  -- The loop over the moves; the evaluations and positions stand at the move's index. Too few of them, for
  -- which Go panics, are an error here; Analyze has compared the lengths before.
  unfoldable pub report_moves :
      ℕ → List Bytes → List Bytes → List Eval → Result AnalyzeError (List (MoveReport F))
  unfolding parse_fen loss_for_move accuracy_for_move normalized classify
  report_moves ply [] fens evals = ok []
  report_moves ply (uci ∷ ucis) [] evals = err bad_history
  report_moves ply (uci ∷ ucis) (f ∷ fens) [] = err bad_history
  report_moves ply (uci ∷ ucis) (f ∷ fens) (before ∷ []) = err bad_history
  report_moves ply (uci ∷ ucis) (f ∷ fens) (before ∷ after ∷ evals) = elim (parse_fen f) [
    | err e ↦ err (corrupt_fen (ply + 1))
    | ok board ↦ do
      rest ← report_moves (ply + 1) ucis fens (after ∷ evals)
      ok (report_of (ply + 1) uci before after (color_eq board.turn white) ∷ rest)
  ]

  abbrev pub to_wire_move_report : MoveReport F → WireMoveReport
  to_wire_move_report r = record {
    ply = r.ply % 2 ^ 32;
    uci = r.uci;
    best_uci = r.best_uci;
    eval_before_cp = to_int32 r.eval_before_cp;
    eval_after_cp = to_int32 r.eval_after_cp;
    centipawn_loss = to_int32 r.centipawn_loss;
    quality = to_wire_quality r.quality;
    matched_engine = r.matched_engine;
    mate_before = r.mate_before;
    mate_after = r.mate_after;
  }

  -- PlayerReport of the protocol: the counts are uint32.
  pub record WirePlayerReport : Type 0 where
    pub player_id : Bytes
    pub engine_match_rate : F.Float
    pub avg_centipawn_loss : F.Float
    pub accuracy : F.Float
    pub blunders : ℕ
    pub mistakes : ℕ
    pub inaccuracies : ℕ
    pub move_count : ℕ

  abbrev pub to_wire_player_report : Bytes → PlayerReport F → WirePlayerReport
  to_wire_player_report player_id r = record {
    player_id = player_id;
    engine_match_rate = r.engine_match_rate;
    avg_centipawn_loss = r.avg_centipawn_loss;
    accuracy = r.accuracy;
    blunders = r.blunders % 2 ^ 32;
    mistakes = r.mistakes % 2 ^ 32;
    inaccuracies = r.inaccuracies % 2 ^ 32;
    move_count = r.move_count % 2 ^ 32;
  }

  pub record AnalysisCompleted : Type 0 where
    pub game_id : Bytes
    pub depth : ℕ
    pub moves : List WireMoveReport
    pub white_report : WirePlayerReport
    pub black_report : WirePlayerReport
    pub novelty : Option (Bytes × ℕ)

  -- GameSignals
  pub record GameSignals : Type 0 where
    pub player_id : Bytes
    pub engine_match_rate : F.Float
    pub avg_centipawn_loss : F.Float
    pub move_count : ℕ

  abbrev pub signals_of : Bytes → PlayerReport F → List GameSignals
  signals_of player_id r =
      if is_empty_text player_id
      then []
      else record {
        player_id = player_id;
        engine_match_rate = r.engine_match_rate;
        avg_centipawn_loss = r.avg_centipawn_loss;
        move_count = r.move_count;
      }
        ∷ []

  -- recordFairPlay: what it records, of White and then of Black.
  abbrev pub fair_play_signals :
      Bool → AnalysisRequest → PlayerReport F → PlayerReport F → List GameSignals
  fair_play_signals enabled req white_side black_side =
      if not enabled || req.vs_engine
      then []
      else signals_of req.white_id white_side ++ signals_of req.black_id black_side

  -- The worker's settings, and the answers around it: of the engine, and of the filter of known positions
  -- if there is one.
  pub record WorkerEnv : Type 0 where
    pub engine : Bytes → ℕ → Option Eval
    pub default_depth : ℕ
    pub first_novelty : Option (List Bytes → Option (Bytes × ℕ))
    pub integrity_enabled : Bool

  -- attachNovelty: the filter is asked before the game's positions are recorded in it.
  abbrev pub novelty_of : Option (List Bytes → Option (Bytes × ℕ)) → List Bytes → Option (Bytes × ℕ)
  novelty_of none fens = none
  novelty_of (some ask) fens = elim (ask fens) [
    | none ↦ none
    | some (f, index) ↦ some (f, index % 2 ^ 32)
  ]

  abbrev pub effective_depth : ℕ → ℕ → ℕ
  effective_depth zero default_depth = default_depth
  effective_depth (suc n) default_depth = suc n

  abbrev pub completed :
      WorkerEnv → AnalysisRequest → ℕ → List (MoveReport F) → AnalysisCompleted × List GameSignals
  completed env req depth reports =
      let white_side = summarise F reports true in
      let black_side = summarise F reports false in
      (
        record {
          game_id = req.game_id;
          depth = depth % 2 ^ 32;
          moves = map to_wire_move_report reports;
          white_report = to_wire_player_report req.white_id white_side;
          black_report = to_wire_player_report req.black_id black_side;
          novelty = novelty_of env.first_novelty req.fen_history;
        },
        fair_play_signals env.integrity_enabled req white_side black_side,
      )

  -- Analyze behind its tests of the lengths.
  unfoldable pub analyze_positions :
      WorkerEnv → AnalysisRequest → ℕ → Result AnalyzeError (AnalysisCompleted × List GameSignals)
  unfolding evaluate_all report_moves summarise
  analyze_positions env req depth = do
    evals ← evaluate_all env.engine depth 0 req.fen_history
    reports ← report_moves 0 req.ucis req.fen_history evals
    ok (completed env req depth reports)

  -- Analyze: the report, and the fair-play signals that it records.
  unfoldable pub analyze :
      WorkerEnv → AnalysisRequest → Result AnalyzeError (AnalysisCompleted × List GameSignals)
  unfolding analyze_positions
  analyze env req =
      if ltb (length req.fen_history) 2 || length req.ucis == 0
      then err no_move
      else if not (length req.fen_history == length req.ucis + 1)
      then err bad_history
      else analyze_positions env req (effective_depth req.depth env.default_depth)
