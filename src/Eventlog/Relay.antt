-- ===== src/Eventlog/Relay.antt =====
-- The relay from the outbox to the streams: pkg/eventlog/relay.go.
pub mod Outbox
pub mod Delivery
pub mod Liveness
use alekhines_counter_gambit.Base.{
  Bool, List, [], false, if◌then◌else◌, length, ltb, none, some, true, ℕ, ◌||◌, ◌∷◌,
}
use alekhines_counter_gambit.Base.Int.{pos}
use alekhines_counter_gambit.Base.Result.{Result, err, ok}
use alekhines_counter_gambit.Eventlog.Event.{MoveEvent}
use alekhines_counter_gambit.Eventlog.Stream.{StreamLog, append_event}
use alekhines_counter_gambit.Store.{Db, OutboxRow, StoreError}
use alekhines_counter_gambit.Store.Outbox.{fetch_unpublished, mark_published}
use mathlib.Core.Bool.{not}

-- What fails in one cycle: the query, the append of a row, and the update.
pub record Cycle : Type 0 where
  pub fetch_down : Bool
  pub append_down : OutboxRow → Bool
  pub mark_down : Bool

pub record Pipe : Type 0 where
  pub db : Db
  pub log : StreamLog

abbrev pub batch : ℕ
batch = 200

abbrev pub event_of : OutboxRow → MoveEvent
event_of r = record {
  game_id = r.game_id;
  ply = pos r.ply;
  uci = r.uci;
  fen_after = r.fen_after;
  status = r.status;
  end_reason = r.end_reason;
  ended = r.ended;
}

-- The loop over the rows of a batch: the log, the ids that were published, and whether all were.
unfoldable pub publish : (OutboxRow → Bool) → List OutboxRow → StreamLog → StreamLog × List ℕ × Bool
unfolding append_event
publish down [] log = (log, [], true)
publish down (r ∷ rows) log = elim (append_event true (down r) (event_of r) log) [
  | none ↦ (log, [], false)
  | some log' ↦ let (end_log, ids, whole) = publish down rows log' in (end_log, r.id ∷ ids, whole)
]

-- drainOnce behind the query: how many rows were published, whether it failed, and the new state.
abbrev pub settle : Pipe → StreamLog → List ℕ → Bool → Result StoreError Db → ℕ × Bool × Pipe
settle w log ids whole (err e) = (length ids, true, record { db = w.db; log = log })
settle w log ids whole (ok db) = (length ids, not whole, record { db = db; log = log })

abbrev pub drain_rows : Cycle → Pipe → Result StoreError (List OutboxRow) → ℕ × Bool × Pipe
drain_rows c w (err e) = (0, true, w)
drain_rows c w (ok []) = (0, false, w)
drain_rows c w (ok (r ∷ rows)) =
    let (log, ids, whole) = publish c.append_down (r ∷ rows) w.log in
    settle w log ids whole (mark_published c.mark_down ids w.db)

-- drainOnce
unfoldable pub drain_once : Cycle → Pipe → ℕ × Bool × Pipe
unfolding fetch_unpublished publish mark_published
drain_once c w = drain_rows c w (fetch_unpublished c.fetch_down (pos batch) w.db)

-- Whether Run waits before its next cycle: behind an error, or when it has caught up.
abbrev pub idles : ℕ × Bool × Pipe → Bool
idles (published, failed, w) = failed || ltb published batch

-- Run, as many cycles as it makes before its context ends. Without a client it does not start.
unfoldable pub run_cycles : List Cycle → Pipe → Pipe
unfolding drain_once
run_cycles [] w = w
run_cycles (c ∷ cycles) w = run_cycles cycles (drain_once c w).2

unfoldable pub run_relay : Bool → List Cycle → Pipe → Pipe
unfolding run_cycles
run_relay enabled cycles w = if enabled then run_cycles cycles w else w
