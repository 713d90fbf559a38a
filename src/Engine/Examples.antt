-- ===== src/Engine/Examples.antt =====
-- The laws of the engine's dialogue and of its client at small runs.
use alekhines_counter_gambit.Base.{List, [], false, none, refl, some, true, ◌++◌, ◌∷◌, ◌≡◌}
use alekhines_counter_gambit.Base.All.{cons, nil}
use alekhines_counter_gambit.Base.Decimal.{atoi, itoa}
use alekhines_counter_gambit.Base.Int.{pos, to_uint32}
use alekhines_counter_gambit.Base.Text.{Bytes, codes}
use alekhines_counter_gambit.Engine.Client.{
  CacheState, ClientCall, Workers, client_analyze, client_calls, worker_analyze,
}
use alekhines_counter_gambit.Engine.Client.Coherent.{client_analyze-worker_analyze}
use alekhines_counter_gambit.Engine.Uci.{
  Line, SearchResult, analyze_position, go_command, has_prefix, no_result, parse_fields,
  set_best_move,
}
use alekhines_counter_gambit.Engine.Uci.Info.{IsPlain, IsScored, IsUint32, parse_fields_info}
use alekhines_counter_gambit.Engine.Uci.Search.{analyze_position_done}

abbrev lines_before : List Line
lines_before = (false, codes "info depth 1 score cp 20 pv e2e4") ∷ (true, codes "info depth 2") ∷ []

abbrev best_line : Bytes
best_line = codes "bestmove e2e4 ponder e7e5"

analyze_position_done_example :
    (r : SearchResult) × (analyze_position
        (λ command. false)
        (codes "8/8/8/8/8/8/8/8 w - - 0 1")
        12
        0
        false
        ((false, codes "option name Hash")
          ∷ (false, codes "readyok")
          ∷ (lines_before ++ (false, best_line) ∷ (false, codes "late") ∷ []))
      ≡ record {
        result = set_best_move best_line r;
        error = none;
        sent =
            codes "isready"
            ∷ codes "position fen 8/8/8/8/8/8/8/8 w - - 0 1"
            ∷ codes "go depth 12"
            ∷ codes "stop"
            ∷ [];
        rest = (false, codes "late") ∷ [];
      })
unfolding has_prefix go_command itoa
analyze_position_done_example =
    analyze_position_done (λ command. false) (codes "8/8/8/8/8/8/8/8 w - - 0 1") 12 0 false
      ((false, codes "option name Hash") ∷ []) (false, codes "readyok") lines_before false best_line
      ((false, codes "late") ∷ []) (λ command. refl) (cons refl nil) refl
      (cons refl (cons refl nil)) refl

twelve-IsPlain : IsPlain (codes "12")
twelve-IsPlain = record { not_pv = refl; not_depth = refl; not_score = refl }

parse_fields_info_example :
    (set : SearchResult) × (parse_fields
        (codes "info"
          ∷ codes "depth"
          ∷ codes "12"
          ∷ codes "score"
          ∷ codes "cp"
          ∷ codes "12"
          ∷ codes "pv"
          ∷ codes "e2e4"
          ∷ [])
        no_result
      ≡ set)
    × IsUint32 (pos 12) set.depth
    × IsScored (codes "cp") (pos 12) set
    × (set.pv ≡ codes "e2e4" ∷ [])
    × (set.best_move ≡ [])
unfolding atoi
parse_fields_info_example =
    parse_fields_info (codes "info" ∷ []) [] [] (codes "e2e4" ∷ []) (codes "12") (codes "cp")
      (codes "12") (pos 12) (pos 12) no_result
      (cons (record { not_pv = refl; not_depth = refl; not_score = refl }) nil) nil nil
      twelve-IsPlain (record { not_pv = refl; not_depth = refl; not_score = refl }) twelve-IsPlain
      refl refl

abbrev workers : Workers
workers = record {
  book = λ f. some (codes "d2d4");
  search = λ f depth. some (record no_result { best_move = codes "e2e4"; depth = depth });
}

abbrev reachable : CacheState
reachable = record { enabled = true; readable = true; writable = true }

abbrev played_and_analyzed : List ClientCall
played_and_analyzed =
    record {
      state = reachable;
      fen = codes "8/8/8/8/8/8/8/8 w - - 0 1";
      depth = pos 12;
      use_book = true;
    }
    ∷ record {
      state = reachable;
      fen = codes "8/8/8/8/8/8/8/8 w - - 0 1";
      depth = pos 12;
      use_book = false;
    }
    ∷ []

client_analyze-worker_analyze_example :
    (client_analyze workers reachable
      (codes "8/8/8/8/8/8/8/8 w - - 0 1")
      (pos 12)
      false
      (client_calls workers played_and_analyzed [])).0
    ≡ worker_analyze workers (codes "8/8/8/8/8/8/8/8 w - - 0 1") (to_uint32 (pos 12)) false
client_analyze-worker_analyze_example =
    client_analyze-worker_analyze workers played_and_analyzed reachable
      (codes "8/8/8/8/8/8/8/8 w - - 0 1") (pos 12)
