-- ===== src/Eventlog/Relay/Liveness.antt =====
-- The relay catches up: Run of pkg/eventlog/relay.go.
use Prim.Native.Nat.{min}
use alekhines_counter_gambit.Base.{
  Bool, List, [], ap, arith, false, length, length-drop, length-take, refl, suc, take, true, ℕ, ◌*◌,
  ◌-◌, ◌∙◌, ◌∷◌, ◌≡◌, ◌≤◌,
}
use alekhines_counter_gambit.Base.All.{All, All-both, All-map, cons, nil}
use alekhines_counter_gambit.Eventlog.Relay.{Cycle, Pipe, batch, run_cycles, run_relay}
use alekhines_counter_gambit.Eventlog.Relay.Delivery.{
  Ascending-mark_first, IsLogged, drain_once_lem, drained, item_of, marked_by, run_relay-IsLogged,
  sent_all,
}
use alekhines_counter_gambit.Eventlog.Relay.Outbox.{pending, pending-mark_first}
use alekhines_counter_gambit.Store.{OutboxRow}
use alekhines_counter_gambit.Store.Outbox.{Ascending}
use mathlib.Core.List.{Memᴰ}

-- A cycle in which nothing fails.
pub record IsClean (c : Cycle) : Type 0 where
  pub fetches : c.fetch_down ≡ false
  pub appends : (r : OutboxRow) → c.append_down r ≡ false
  pub marks : c.mark_down ≡ false

-- At least `n` of the cycles are clean; the others may fail in any way.
pub data Fair : ℕ → List Cycle → Type 0 where
  no_cycles : Fair 0 []
  any_cycle : {n : ℕ} {c : Cycle} {cycles : List Cycle} → Fair n cycles → Fair n (c ∷ cycles)
  clean_cycle :
      {n : ℕ} {c : Cycle} {cycles : List Cycle}
      → IsClean c
      → Fair n cycles
      → Fair (suc n) (c ∷ cycles)

-- How many rows wait.
abbrev pub waiting : Pipe → ℕ
waiting w = length (pending w.db.outbox)

waiting-drained : (c : Cycle) (w : Pipe) → waiting (drained c w) ≡ waiting w - marked_by c w
waiting-drained c w =
    ap length (pending-mark_first (marked_by c w) w.db.outbox)
    ∙ length-drop (marked_by c w) (pending w.db.outbox)

marked_by-IsClean : (c : Cycle) (w : Pipe) → IsClean c → marked_by c w ≡ min batch (waiting w)
marked_by-IsClean c w h =
    rw (h.marks, h.fetches)
      (sent_all c.append_down (take batch (pending w.db.outbox)) h.appends
        ∙ length-take batch (pending w.db.outbox))

waiting-run_cycles :
    (n : ℕ) (cycles : List Cycle) (w : Pipe)
    → Fair n cycles
    → Ascending 0 w.db.outbox w.db.next_outbox_id
    → waiting (run_cycles cycles w) ≤ waiting w - n * batch
unfolding run_cycles
waiting-run_cycles n [] w no_cycles a = omega arith
waiting-run_cycles n (c ∷ cycles) w (any_cycle f) a =
    let rest =
      waiting-run_cycles n cycles (drained c w) f
        (Ascending-mark_first (marked_by c w) 0 _ w.db.outbox a) in
    rw (run_cycles, drain_once_lem c w a) (omega (arith, rest, waiting-drained c w))
waiting-run_cycles (suc n) (c ∷ cycles) w (clean_cycle clean f) a =
    let rest =
      waiting-run_cycles n cycles (drained c w) f
        (Ascending-mark_first (marked_by c w) 0 _ w.db.outbox a) in
    rw (run_cycles, drain_once_lem c w a)
      (omega (arith, rest, waiting-drained c w, marked_by-IsClean c w clean))

none_waiting :
    (rows : List (OutboxRow × Bool)) → length (pending rows) ≡ 0 → All (λ row. row.1 ≡ true) rows
none_waiting [] h = nil
none_waiting ((r, true) ∷ rows) h = cons refl (none_waiting rows h)
none_waiting ((r, false) ∷ rows) h = absurd (omega (arith, h))

-- Once so many cycles of the relay did not fail as the waiting rows fill batches of 200, with any number
-- of cycles that failed in any way before, between and behind them, the event of every row of the outbox
-- is in the streams and every row is marked; given that the ids of the outbox ascend and that the rows
-- that were marked before are in the streams.
pub run_relay-Fair :
    (n : ℕ) (cycles : List Cycle) (w : Pipe)
    → Fair n cycles
    → waiting w ≤ n * batch
    → Ascending 0 w.db.outbox w.db.next_outbox_id
    → IsLogged w
    → All
        (λ row. (row.1 ≡ true) × Memᴰ (item_of row.0) (run_relay true cycles w).log)
        (run_relay true cycles w).db.outbox
unfolding run_relay
run_relay-Fair n cycles w f few a h =
    let marked =
      none_waiting (run_cycles cycles w).db.outbox
        (omega (arith, waiting-run_cycles n cycles w f a, few)) in
    All-map (λ row p. (p.0, p.1 p.0)) (All-both marked (run_relay-IsLogged true cycles w a h))
