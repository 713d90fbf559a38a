-- ===== src/Engine/Uci.antt =====
-- The dialogue with a UCI engine: services/engine-worker/internal/uci/uci.go. What the engine prints is
-- a list of lines, after which its output is closed. Each line carries whether it is received in the
-- branch of the cancelled context: where both branches of a select are ready, Go takes either.
pub mod Search
pub mod Info
use alekhines_counter_gambit.Base.{
  Bool, List, Option, [], false, if◌then◌else◌, ltb, none, some, true, ℕ, ◌&&◌, ◌++◌, ◌==◌, ◌||◌,
  ◌∷◌,
}
use alekhines_counter_gambit.Base.Decimal.{atoi, itoa}
use alekhines_counter_gambit.Base.Int.{pos, to_int32, to_uint32, ℤ}
use alekhines_counter_gambit.Base.Text.{Bytes, bytes_eq, codes, fields}
use mathlib.Core.Bool.{not}

-- Result
pub record SearchResult : Type 0 where
  pub best_move : Bytes
  pub score_cp : ℤ
  pub mate : Bool
  pub mate_in : ℤ
  pub depth : ℕ
  pub pv : List Bytes

abbrev pub no_result : SearchResult
no_result = record {
  best_move = [];
  score_cp = pos 0;
  mate = false;
  mate_in = pos 0;
  depth = 0;
  pv = [];
}

pub data UciError : Type 0 where
  engine_closed : UciError
  not_sent : Bytes → UciError
  context_done : UciError

abbrev pub Line : Type 0
Line = Bool × Bytes

-- `strings.HasPrefix`
unfoldable pub has_prefix : Bytes → Bytes → Bool
has_prefix s [] = true
has_prefix [] (c ∷ prefix) = false
has_prefix (d ∷ s) (c ∷ prefix) = d == c && has_prefix s prefix

-- setBestMove
abbrev pub second_field : List Bytes → SearchResult → SearchResult
second_field [] res = res
second_field (f ∷ []) res = res
second_field (f ∷ g ∷ fs) res = record res { best_move = g }

unfoldable pub set_best_move : Bytes → SearchResult → SearchResult
unfolding fields
set_best_move line res = second_field (fields line) res

-- parseInfo: the value behind `depth`, and the two behind `score`.
abbrev pub with_depth : Option ℤ → SearchResult → SearchResult
with_depth none res = res
with_depth (some d) res = record res { depth = to_uint32 d }

abbrev pub set_depth : List Bytes → SearchResult → SearchResult
set_depth [] res = res
set_depth (d ∷ fs) res = with_depth (atoi d) res

abbrev pub with_score : Bytes → Option ℤ → SearchResult → SearchResult
with_score kind none res = res
with_score kind (some v) res =
    if bytes_eq kind (codes "mate")
    then record res { mate = true; mate_in = to_int32 v; score_cp = pos 0 }
    else record res { mate = false; score_cp = to_int32 v; mate_in = pos 0 }

abbrev pub set_score : List Bytes → SearchResult → SearchResult
set_score [] res = res
set_score (kind ∷ []) res = res
set_score (kind ∷ v ∷ fs) res = with_score kind (atoi v) res

abbrev pub apply_field : Bytes → List Bytes → SearchResult → SearchResult
apply_field f fs res =
    if bytes_eq f (codes "depth")
    then set_depth fs res
    else if bytes_eq f (codes "score")
    then set_score fs res
    else res

-- The loop of parseInfo over the fields; `pv` ends it.
unfoldable pub parse_fields : List Bytes → SearchResult → SearchResult
unfolding atoi to_uint32 to_int32
parse_fields [] res = res
parse_fields (f ∷ fs) res = elim (bytes_eq f (codes "pv")) [
  | true ↦ record res { pv = fs }
  | false ↦ parse_fields fs (apply_field f fs res)
]

unfoldable pub parse_info : Bytes → SearchResult → SearchResult
unfolding fields parse_fields
parse_info line res = parse_fields (fields line) res

-- waitFor: the lines behind the first one that begins with the token.
unfoldable pub wait_for : Bytes → List Line → Option (List Line)
unfolding has_prefix
wait_for token [] = none
wait_for token ((late, line) ∷ lines) = elim (has_prefix line token) [
  | true ↦ some lines
  | false ↦ wait_for token lines
]

-- What a call leaves: its two results, of which `none` is no error, the commands that were sent, and the
-- lines that were not read.
pub record Exchange : Type 0 where
  pub result : SearchResult
  pub error : Option UciError
  pub sent : List Bytes
  pub rest : List Line

-- `_ = e.send("stop")`, once.
abbrev pub stop_once : Bool → Bool → List Bytes → List Bytes
stop_once late stopped sent = if late && not stopped then sent ++ codes "stop" ∷ [] else sent

-- The error beside the result of a search: `nil`, or `ctx.Err()` in the branch of the cancelled context.
abbrev pub context_error : Bool → Option UciError
context_error true = some context_done
context_error false = none

-- readSearch. A line that is received in the branch of the cancelled context is only looked at for
-- `bestmove`; `closed_late` says in which branch the closed output is found.
unfoldable pub read_search : Bool → List Line → SearchResult → Bool → List Bytes → Exchange
unfolding has_prefix set_best_move parse_info
read_search closed_late [] res stopped sent = record {
  result = no_result;
  error = some engine_closed;
  sent = stop_once closed_late stopped sent;
  rest = [];
}
read_search closed_late ((late, line) ∷ lines) res stopped sent =
    elim (has_prefix line (codes "bestmove")) [
      | true ↦ record {
        result = set_best_move line res;
        error = context_error late;
        sent = stop_once late stopped sent;
        rest = lines;
      }
      | false ↦
          read_search closed_late lines
            (if not late && has_prefix line (codes "info ") then parse_info line res else res)
            (stopped || late) (stop_once late stopped sent)
    ]

unfoldable pub go_command : ℕ → ℕ → Bytes
unfolding itoa
go_command depth movetime =
    if ltb 0 movetime
    then codes "go movetime " ++ itoa movetime
    else codes "go depth " ++ itoa (if depth == 0 then 12 else depth)

abbrev pub failed : UciError → List Bytes → List Line → Exchange
failed e sent rest = record { result = no_result; error = some e; sent = sent; rest = rest }

-- Analyze behind `readyok`: the position, the search, and its answer. `down` says which command cannot be
-- written.
abbrev pub search_from : (Bytes → Bool) → Bytes → Bytes → Bool → List Line → Exchange
search_from down position go closed_late lines =
    if down position
    then failed (not_sent position) (codes "isready" ∷ []) lines
    else if down go
    then failed (not_sent go) (codes "isready" ∷ position ∷ []) lines
    else read_search closed_late lines no_result false (codes "isready" ∷ position ∷ go ∷ [])

abbrev pub analyze_ready : (Bytes → Bool) → Bytes → Bytes → Bool → Option (List Line) → Exchange
analyze_ready down position go closed_late none = failed engine_closed (codes "isready" ∷ []) []
analyze_ready down position go closed_late (some lines) =
    search_from down position go closed_late lines

-- Analyze
unfoldable pub analyze_position : (Bytes → Bool) → Bytes → ℕ → ℕ → Bool → List Line → Exchange
unfolding wait_for read_search go_command
analyze_position down position_fen depth movetime closed_late lines =
    if down (codes "isready")
    then failed (not_sent (codes "isready")) [] lines
    else analyze_ready down (codes "position fen " ++ position_fen) (go_command depth movetime)
        closed_late (wait_for (codes "readyok") lines)
