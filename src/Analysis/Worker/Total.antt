-- ===== src/Analysis/Worker/Total.antt =====
-- When a game is analysed: Analyze of services/analysis-worker/internal/worker/worker.go.
use alekhines_counter_gambit.Analysis.Score.{Eval}
use alekhines_counter_gambit.Analysis.Summary.{Floats, MoveReport}
use alekhines_counter_gambit.Analysis.Worker.{
  AnalysisCompleted, AnalysisRequest, GameSignals, WorkerEnv, analyze, analyze_positions, completed,
  effective_depth, evaluate_all, report_moves, report_of, to_wire_move_report,
}
use alekhines_counter_gambit.Base.{
  List, Option, [], ap, arith, false, length, ltb, map, refl, some, suc, true, ℕ, ◌+◌, ◌==◌, ◌||◌,
  ◌∙◌, ◌∷◌, ◌≡◌, ◌≤◌,
}
use alekhines_counter_gambit.Base.All.{All, cons}
use alekhines_counter_gambit.Base.Result.{ok}
use alekhines_counter_gambit.Base.Text.{Bytes}
use alekhines_counter_gambit.Chess.Board.{Board}
use alekhines_counter_gambit.Chess.Fen.Parse.{parse_fen}
use alekhines_counter_gambit.Chess.Piece.{color_eq, white}
use mathlib.Core.List.{map-map}

abbrev pub Parses : Bytes → Type 0
Parses f = (b : Board) × (parse_fen f ≡ ok b)

abbrev pub Answers : (Bytes → ℕ → Option Eval) → Type 0
Answers engine = (f : Bytes) → (depth : ℕ) → (e : Eval) × (engine f depth ≡ some e)

evaluate_all_ok :
    (engine : Bytes → ℕ → Option Eval) (depth ply : ℕ) (fens : List Bytes)
    → Answers engine
    → (es : List Eval) × (evaluate_all engine depth ply fens ≡ ok es) × (length es ≡ length fens)
unfolding evaluate_all
evaluate_all_ok engine depth ply [] h = ([], refl, refl)
evaluate_all_ok engine depth ply (f ∷ fens) h =
    let (e, answered) = h f depth in
    let (es, rest, same) = evaluate_all_ok engine depth (ply + 1) fens h in
    (e ∷ es, rw (evaluate_all, answered, rest) refl, ap suc same)

module _ (F : Floats) where
  report_moves_ok :
      (ply : ℕ) (ucis fens : List Bytes) (evals : List Eval)
      → length fens ≡ length ucis + 1
      → length evals ≡ length ucis + 1
      → All Parses fens
      → (rs : List (MoveReport F)) × (report_moves F ply ucis fens evals ≡ ok rs)
        × (map (λ r. r.uci) rs ≡ ucis)
  unfolding report_moves
  report_moves_ok ply [] fens evals hf he hp = ([], refl, refl)
  report_moves_ok ply (uci ∷ ucis) [] evals hf he hp = absurd (omega (arith, hf))
  report_moves_ok ply (uci ∷ ucis) (f ∷ fens) [] hf he hp = absurd (omega (arith, he))
  report_moves_ok ply (uci ∷ ucis) (f ∷ fens) (e ∷ []) hf he hp = absurd (omega (arith, he))
  report_moves_ok ply (uci ∷ ucis) (f ∷ fens) (before ∷ after ∷ evals) hf he (cons (b, p) hp) =
      let (rs, rest, same) =
        report_moves_ok (ply + 1) ucis fens (after ∷ evals) (omega (arith, hf)) (omega (arith, he))
          hp in
      (
        report_of F (ply + 1) uci before after (color_eq b.turn white) ∷ rs,
        rw (report_moves, p, rest) refl,
        ap (λ us. uci ∷ us) same,
      )

  -- Analyze reports on every move, in the order of play: given a history with a move and with one
  -- position more than it has moves, each of which can be read, and an engine that answers every call.
  pub analyze_ok :
      (env : WorkerEnv F) (req : AnalysisRequest)
      → Answers env.engine
      → 1 ≤ length req.ucis
      → length req.fen_history ≡ length req.ucis + 1
      → All Parses req.fen_history
      → (r : AnalysisCompleted F × List (GameSignals F)) × (analyze F env req ≡ ok r)
        × (map (λ m. m.uci) r.0.moves ≡ req.ucis)
  unfolding analyze analyze_positions
  analyze_ok env req answers some_move fits parses =
      let depth = effective_depth F req.depth env.default_depth in
      let (es, evaluated, as_many) = evaluate_all_ok env.engine depth 0 req.fen_history answers in
      let (rs, reported, ucis) =
        report_moves_ok 0 req.ucis req.fen_history es fits (as_many ∙ fits) parses in
      let long : (ltb (length req.fen_history) 2 || length req.ucis == 0) ≡ false =
        ground (arith, some_move, fits) in
      let same : (length req.fen_history == length req.ucis + 1) ≡ true = ground (arith, fits) in
      (
        completed F env req depth rs,
        rw (long, same, evaluated, reported) refl,
        map-map (λ m. m.uci) (to_wire_move_report F) rs ∙ ucis,
      )
