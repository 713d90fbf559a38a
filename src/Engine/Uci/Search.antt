-- ===== src/Engine/Uci/Search.antt =====
-- A search comes to an end and leaves the engine's output clean: services/engine-worker/internal/uci/uci.go.
use alekhines_counter_gambit.Base.{
  Bool, List, [], ap, false, if◌then◌else◌, refl, some, true, ℕ, ◌&&◌, ◌++◌, ◌||◌, ◌∙◌, ◌∷◌, ◌≡◌,
}
use alekhines_counter_gambit.Base.All.{All, cons, nil}
use alekhines_counter_gambit.Base.Text.{Bytes, codes}
use alekhines_counter_gambit.Engine.Uci.{
  Line, SearchResult, analyze_position, context_error, go_command, has_prefix, no_result,
  parse_info, read_search, set_best_move, stop_once, wait_for,
}
use mathlib.Core.Bool.{not}

abbrev pub Unlike : Bytes → Line → Type 0
Unlike token line = has_prefix line.1 token ≡ false

-- Whether one of the lines, or the one behind them, was received in the branch of the cancelled context.
abbrev pub any_late : List Line → Bool → Bool
any_late [] last = last
any_late ((late, line) ∷ lines) last = late || any_late lines last

stop_once_stopped : (late : Bool) (sent : List Bytes) → stop_once late true sent ≡ sent
stop_once_stopped true sent = refl
stop_once_stopped false sent = refl

stopped_after :
    (late stopped later : Bool) (sent : List Bytes)
    → stop_once later (stopped || late) (stop_once late stopped sent)
      ≡ stop_once (late || later) stopped sent
stopped_after true true later sent = stop_once_stopped later sent
stopped_after true false later sent = stop_once_stopped later (sent ++ codes "stop" ∷ [])
stopped_after false true later sent = refl
stopped_after false false later sent = refl

-- A search ends with the engine's first bestmove line, whether or not the context is cancelled meanwhile:
-- it has a result, with the move of that line if there is one, and the error of the context beside it
-- exactly when the line was received in the branch of the cancelled context; it has sent stop once if it noticed the
-- cancellation and never otherwise; and it leaves exactly the lines behind that one.
pub read_search_done :
    (closed_late : Bool) (before : List Line) (late : Bool) (line : Bytes) (after : List Line)
    (res : SearchResult) (stopped : Bool) (sent : List Bytes)
    → All (Unlike (codes "bestmove")) before
    → has_prefix line (codes "bestmove") ≡ true
    → (r : SearchResult) × (read_search closed_late
          (before ++ (late, line) ∷ after)
          res
          stopped
          sent
        ≡ record {
          result = set_best_move line r;
          error = context_error late;
          sent = stop_once (any_late before late) stopped sent;
          rest = after;
        })
unfolding read_search
read_search_done closed_late [] late line after res stopped sent nil h =
    (res, rw (read_search, h) refl)
read_search_done closed_late ((l, x) ∷ before) late line after res stopped sent (cons u us) h =
    let (r, rest) =
      read_search_done closed_late before late line after
        (if not l && has_prefix x (codes "info ") then parse_info x res else res) (stopped || l)
        (stop_once l stopped sent) us h in
    (
      r,
      rw (read_search, u)
          (rest
            ∙ ap
                (λ commands. record {
                  result = set_best_move line r;
                  error = context_error late;
                  sent = commands;
                  rest = after;
                })
                (stopped_after l stopped (any_late before late) sent)),
    )

wait_for_found :
    (token : Bytes) (before : List Line) (late : Bool) (line : Bytes) (after : List Line)
    → All (Unlike token) before
    → has_prefix line token ≡ true
    → wait_for token (before ++ (late, line) ∷ after) ≡ some after
unfolding wait_for
wait_for_found token [] late line after nil h = rw (wait_for, h) refl
wait_for_found token ((l, x) ∷ before) late line after (cons u us) h =
    rw (wait_for, u) (wait_for_found token before late line after us h)

-- Analyze answers whenever the engine prints readyok and then, some lines later, a bestmove, and every
-- command can be written, whether or not the context is cancelled meanwhile. It returns a result with the
-- move of that bestmove line if there is one, and with it no error but that of the context, exactly when
-- that line was received in the branch of the cancelled context. It leaves the lines behind
-- that bestmove for the next call, and its last command is stop exactly when it noticed the cancellation.
pub analyze_position_done :
    (down : Bytes → Bool) (position_fen : Bytes) (depth movetime : ℕ) (closed_late : Bool)
    (noise : List Line) (ready : Bool × Bytes) (before : List Line) (late : Bool) (line : Bytes)
    (after : List Line)
    → ((command : Bytes) → down command ≡ false)
    → All (Unlike (codes "readyok")) noise
    → has_prefix ready.1 (codes "readyok") ≡ true
    → All (Unlike (codes "bestmove")) before
    → has_prefix line (codes "bestmove") ≡ true
    → (r : SearchResult) × (analyze_position down position_fen depth movetime closed_late
          (noise ++ ready ∷ (before ++ (late, line) ∷ after))
        ≡ record {
          result = set_best_move line r;
          error = context_error late;
          sent = stop_once (any_late before late) false (
              codes "isready"
              ∷ (codes "position fen " ++ position_fen)
              ∷ go_command depth movetime
              ∷ []);
          rest = after;
        })
unfolding analyze_position
analyze_position_done down position_fen depth movetime closed_late noise (ready_late, ready) before
      late line after up hn hr hb h =
    let position = codes "position fen " ++ position_fen in
    let go = go_command depth movetime in
    let (r, found) =
      read_search_done closed_late before late line after no_result false
        (codes "isready" ∷ position ∷ go ∷ []) hb h in
    (
      r,
      rw
          (
            up (codes "isready"),
            wait_for_found (codes "readyok") noise ready_late ready (before ++ (late, line) ∷ after)
                hn hr,
            up position,
            up go,
          )
          found,
    )
