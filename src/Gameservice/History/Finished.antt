-- ===== src/Gameservice/History/Finished.antt =====
-- The analysis and the archive of a stored game succeed: services/game-service/internal/server/history.go
-- and services/analysis-worker/internal/worker/worker.go.
use alekhines_counter_gambit.Analysis.Summary.{Floats}
use alekhines_counter_gambit.Analysis.Worker.{
  AnalysisCompleted, AnalysisRequest, GameSignals, WorkerEnv, analyze,
}
use alekhines_counter_gambit.Analysis.Worker.Total.{Answers, Parses, analyze_ok}
use alekhines_counter_gambit.Base.{
  List, [], ap, arith, false, length, length-map, map, refl, some, sym, true, ℕ, ◌+◌, ◌<◌, ◌∙◌, ◌∷◌,
  ◌≡◌, ◌≤◌,
}
use alekhines_counter_gambit.Base.All.{All, cons, nil}
use alekhines_counter_gambit.Base.Decimal.{max_int}
use alekhines_counter_gambit.Base.Int.{ℤ}
use alekhines_counter_gambit.Base.Result.{Result, err, ok}
use alekhines_counter_gambit.Base.Text.{Bytes}
use alekhines_counter_gambit.Chess.Board.{Board}
use alekhines_counter_gambit.Chess.Fen.Game.{IsNext, apply_uci-IsNext}
use alekhines_counter_gambit.Chess.Fen.Parse.{new_board, start_fen}
use alekhines_counter_gambit.Chess.Fen.Print.{fen}
use alekhines_counter_gambit.Chess.Fen.RoundTrip.{IsPrintable, parse_fen-fen}
use alekhines_counter_gambit.Chess.Fen.Sound.{parse_fen-IsPrintable}
use alekhines_counter_gambit.Chess.Legal.{ChessError, apply_uci}
use alekhines_counter_gambit.Chess.Pgn.{PgnError, pgn}
use alekhines_counter_gambit.Chess.Pgn.Replay.{is_ok, pgn-is_ok, replay}
use alekhines_counter_gambit.Chess.Tests.{start_board, start_parses}
use alekhines_counter_gambit.Gameservice.History.{
  Archive, archive_loaded, archive_pgn, game_for_analysis, request_analysis, request_of, tags_of,
  written,
}
use alekhines_counter_gambit.Gameservice.Server.Consistent.{IsConsistent, IsStored}
use alekhines_counter_gambit.Gameservice.Server.Line.{IsLine, trail, ucis_of}
use alekhines_counter_gambit.Store.{Db, Game, StoredMove}
use alekhines_counter_gambit.Store.Games.{game_moves, get_game, rows_of}
use alekhines_counter_gambit.Store.Tables.{
  find_row-All, get_game_ok, length-rows_of, sort_by_ply-Numbered,
}
use mathlib.Core.Path.{subst}

trail-Parses :
    (k : ℕ) (b : Board) (ucis : List Bytes)
    → IsPrintable b
    → b.half_move ≤ k
    → b.full_move ≤ k
    → k + length ucis < max_int
    → All Parses (trail b ucis)
unfolding trail
trail-Parses k b [] p h f small = nil
trail-Parses k b (uci ∷ ucis) p h f small =
    step_parses (apply_uci b uci)
      (λ nb e. apply_uci-IsNext b uci p (omega (arith, h, small)) (omega (arith, f, small)) e)
      (λ nb n.
        trail-Parses (k + 1) nb ucis n.printable (omega (arith, n.half, h))
          (omega (arith, n.full, f)) (omega (arith, small)))
  where
    step_parses :
        (r : Result ChessError Board)
        → ((nb : Board) → r ≡ ok nb → IsNext b nb)
        → ((nb : Board) → IsNext b nb → All Parses (trail nb ucis))
        → All Parses (elim r [ ok nb ↦ fen nb ∷ trail nb ucis | err e ↦ [] ])
    step_parses (err e) next rest = nil
    step_parses (ok nb) next rest =
        let n = next nb refl in cons (nb, parse_fen-fen nb n.printable) (rest nb n)

-- The history of a line of moves can be read.
line-Parses :
    (ms : List StoredMove)
    → IsLine ms
    → length ms + 1 < max_int
    → All Parses (start_fen ∷ map (λ m. m.fen_after) ms)
unfolding new_board
line-Parses ms l small =
    cons (start_board, start_parses)
      (subst (All Parses) (sym l.fens) (
        trail-Parses 1 start_board (ucis_of ms) (parse_fen-IsPrintable start_fen start_parses)
          (omega arith) (omega arith) (omega (arith, small, length-map ms (λ m. m.uci)))))

-- The moves of a game that is read are a line, which reaches the position that is read.
read-IsLine :
    (id : Bytes) (db : Db) (g : Game) (moves : List StoredMove)
    → IsConsistent db
    → get_game false id db ≡ ok (g, moves)
    → (l : IsLine moves) × (length moves ≤ length db.moves) × (g.fen ≡ fen l.board)
unfolding game_moves
read-IsLine id db g moves c h =
    let (row, found, same, sorted) = get_game_ok false id db h in
    let (p, id_eq) =
      find_row-All {P = λ r. IsStored (rows_of r.id db.moves) r} id db.games c.games found in
    let numbered = p.line.numbered in
    let listed : rows_of row.id db.moves ≡ moves =
      sym (sort_by_ply-Numbered 1 (rows_of row.id db.moves) numbered)
      ∙ ap (λ i. game_moves i db) id_eq
      ∙ sorted in
    let few : length moves ≤ length db.moves =
      omega (arith, length-rows_of row.id db.moves, ap length listed) in
    let (l, stored) =
      subst (λ ms. (k : IsLine ms) × (row.fen ≡ fen k.board)) listed (p.line, p.position) in
    (l, few, ap (λ x. x.fen) (sym same) ∙ stored)

request_of-some :
    (id : Bytes) (depth : ℤ) (g : Game) (fens ucis : List Bytes)
    → 1 ≤ length ucis
    → (req : AnalysisRequest) × (request_of id depth g (fens, ucis) ≡ some req)
      × (req.fen_history ≡ fens)
      × (req.ucis ≡ ucis)
request_of-some id depth g fens [] h = absurd (omega (arith, h))
request_of-some id depth g fens (uci ∷ ucis) h = (_, refl, refl, refl)

-- With the analysis of games enabled, requestAnalysis makes a message of a stored game with a move and
-- hands it to Publish, and a worker that receives this message reports on the game's moves, all of them
-- and in order: in consistent tables of fewer moves than an int can count, if the two reads of the game
-- and every call of the engine succeed. A message that Publish fails to send is not received.
pub request_analysis-analyze :
    (F : Floats) (env : WorkerEnv F) (depth : ℤ) (id : Bytes) (db : Db) (g : Game)
    (moves : List StoredMove)
    → IsConsistent db
    → length db.moves + 1 < max_int
    → get_game false id db ≡ ok (g, moves)
    → 1 ≤ length moves
    → Answers env.engine
    → (req : AnalysisRequest) × (r : AnalysisCompleted F × List (GameSignals F)) × (request_analysis
          true depth false false id db
        ≡ some req)
      × (analyze F env req ≡ ok r)
      × (map (λ m. m.uci) r.0.moves ≡ ucis_of moves)
unfolding request_analysis game_for_analysis
request_analysis-analyze F env depth id db g moves c small h some_move answers =
    let (l, few, _) = read-IsLine id db g moves c h in
    let ucis = ucis_of moves in
    let fens = start_fen ∷ map (λ m. m.fen_after) moves in
    let (req, made, fens_eq, ucis_eq) =
      request_of-some id depth g fens ucis
        (omega (arith, some_move, length-map moves (λ m. m.uci))) in
    let (r, analyzed, reported) =
      analyze_ok F env req answers
        (omega (arith, some_move, ap length ucis_eq, length-map moves (λ m. m.uci)))
        (omega (
          arith,
          ap length fens_eq,
          ap length ucis_eq,
          length-map moves (λ m. m.uci),
          length-map moves (λ m. m.fen_after),
        ))
        (subst (All Parses) (sym fens_eq) (line-Parses moves l (omega (arith, small, few)))) in
    (req, r, rw h made, analyzed, reported ∙ ucis_eq)

-- When the archive is enabled and a stored game with a move can be read, archivePGN hands Put a text,
-- whether or not Put then stores it: the PGN of exactly the game's moves, in order, from the start
-- position, with the game's tags. Its moves replay from the start position to the stored position of the
-- game. The tables are consistent.
pub archive_pgn-some :
    (a : Archive) (id : Bytes) (db : Db) (g : Game) (moves : List StoredMove)
    → IsConsistent db
    → get_game false id db ≡ ok (g, moves)
    → 1 ≤ length moves
    → a.enabled ≡ true
    → (text : Bytes) × (last : Board) × (archive_pgn a false id db ≡ some text)
      × (pgn start_fen (ucis_of moves) (tags_of a g) ≡ ok text)
      × (replay start_board (ucis_of moves) ≡ ok last)
      × (g.fen ≡ fen last)
unfolding archive_pgn new_board
archive_pgn-some a id db g moves c h some_move on =
    let (l, few, stored) = read-IsLine id db g moves c h in
    let (text, made) =
      ok_value (pgn start_fen (ucis_of moves) (tags_of a g))
        (pgn-is_ok start_fen (ucis_of moves) (tags_of a g) start_parses ∙ ap is_ok l.replayed) in
    (text, l.board, rw (on, h) (go moves some_move made), made, l.replayed, stored)
  where
    ok_value : (r : Result PgnError Bytes) → is_ok r ≡ true → (text : Bytes) × (r ≡ ok text)
    ok_value (ok text) e = (text, refl)
    ok_value (err x) e = absurd (cc)

    go :
        (ms : List StoredMove) {text : Bytes}
        → 1 ≤ length ms
        → pgn start_fen (ucis_of ms) (tags_of a g) ≡ ok text
        → archive_loaded a (ok (g, ms)) ≡ some text
    go [] few made = absurd (omega (arith, few))
    go (m ∷ ms) few made = ap written made
