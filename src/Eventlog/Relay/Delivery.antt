-- ===== src/Eventlog/Relay/Delivery.antt =====
-- Every announced move reaches its stream: drainOnce and Run of pkg/eventlog/relay.go over
-- pkg/store/outbox.go.
use mathlib.Core.List.Memᴰ
use alekhines_counter_gambit.Base.{
  Bool, Bool-cases, List, [], ap, arith, false, if◌then◌else◌, inl, inr, length, length-take, map,
  refl, suc, sym, take, true, zero, ℕ, ◌++◌, ◌∙◌, ◌∷◌, ◌≡◌, ◌≤◌,
}
use alekhines_counter_gambit.Base.All.{All, All-map, cons, nil}
use alekhines_counter_gambit.Base.Result.{ok}
use alekhines_counter_gambit.Base.Text.{Bytes, StringMap}
use alekhines_counter_gambit.Eventlog.Relay.{
  Cycle, Pipe, batch, drain_once, drain_rows, event_of, publish, run_cycles, run_relay, settle,
}
use alekhines_counter_gambit.Eventlog.Relay.Outbox.{
  ids_of, mark_first, pending, stamp-nil, stamp-unpublished, unpublished-pending,
}
use alekhines_counter_gambit.Eventlog.Stream.{StreamLog, added, append_event}
use alekhines_counter_gambit.Store.{Db, OutboxRow}
use alekhines_counter_gambit.Store.Outbox.{Ascending, fetch_unpublished, mark_published, stamp}
use mathlib.Core.List.{Memᴰ, append-nil, append_assoc}
use mathlib.Core.Path.{subst}

-- What XADD appends for a row.
abbrev pub item_of : OutboxRow → Bytes × StringMap
item_of r = added (event_of r)

-- How many rows are published before the first failure.
abbrev pub sent : (OutboxRow → Bool) → List OutboxRow → ℕ
sent down [] = 0
sent down (r ∷ rows) = if down r then 0 else suc (sent down rows)

sent-le : (down : OutboxRow → Bool) (rows : List OutboxRow) → sent down rows ≤ length rows
sent-le down [] = omega arith
sent-le down (r ∷ rows) = ground (arith, sent-le down rows)

pub sent_all :
    (down : OutboxRow → Bool) (rows : List OutboxRow)
    → ((r : OutboxRow) → down r ≡ false)
    → sent down rows ≡ length rows
sent_all down [] h = refl
sent_all down (r ∷ rows) h = rw (h r) (ap suc (sent_all down rows h))

take-take : {A : Type 0} (k n : ℕ) (xs : List A) → k ≤ n → take k (take n xs) ≡ take k xs
take-take zero n xs h = refl
take-take (suc k) zero xs h = absurd (omega (arith, h))
take-take (suc k) (suc n) [] h = refl
take-take (suc k) (suc n) (x ∷ xs) h = ap (λ ys. x ∷ ys) (take-take k n xs (omega (arith, h)))

publish_log :
    (down : OutboxRow → Bool) (rows : List OutboxRow) (log : StreamLog)
    → (publish down rows log).0 ≡ log ++ map item_of (take (sent down rows) rows)
unfolding publish append_event
publish_log down [] log = sym (append-nil log)
publish_log down (r ∷ rows) log = elim (Bool-cases (down r)) [
  | inl e ↦ rw (e, publish, append_event) (sym (append-nil log))
  | inr e ↦
      rw (e, publish, append_event)
        (publish_log down rows (log ++ item_of r ∷ []) ∙ append_assoc log (item_of r ∷ []) _)
]

publish_ids :
    (down : OutboxRow → Bool) (rows : List OutboxRow) (log : StreamLog)
    → (publish down rows log).1 ≡ ids_of (take (sent down rows) rows)
unfolding publish append_event
publish_ids down [] log = refl
publish_ids down (r ∷ rows) log = elim (Bool-cases (down r)) [
  | inl e ↦ rw (e, publish, append_event) refl
  | inr e ↦
      rw (e, publish, append_event)
        (ap (λ ids. r.id ∷ ids) (publish_ids down rows (log ++ item_of r ∷ [])))
]

-- How many rows a cycle appends to the streams, and how many of them it marks.
abbrev pub appended_by : Cycle → Pipe → ℕ
appended_by c w = if c.fetch_down then 0 else sent c.append_down (take batch (pending w.db.outbox))

abbrev pub marked_by : Cycle → Pipe → ℕ
marked_by c w = if c.mark_down then 0 else appended_by c w

mark_published_up :
    (ids : List ℕ) (db : Db)
    → mark_published false ids db ≡ ok (record db { outbox = stamp ids db.outbox })
unfolding mark_published
mark_published_up [] db = ap (λ rows. ok (record db { outbox = rows })) (sym (stamp-nil db.outbox))
mark_published_up (id ∷ ids) db = refl

settle_down :
    (w : Pipe) (log : StreamLog) (ids : List ℕ) (whole : Bool)
    → (settle w log ids whole (mark_published true ids w.db)).2 ≡ record { db = w.db; log = log }
unfolding mark_published
settle_down w log [] whole = refl
settle_down w log (id ∷ ids) whole = refl

settle_lem :
    (down : Bool) (w : Pipe) (log : StreamLog) (n : ℕ) (whole : Bool)
    → Ascending 0 w.db.outbox w.db.next_outbox_id
    → (settle w log
        (ids_of (take n (pending w.db.outbox)))
        whole
        (mark_published down (ids_of (take n (pending w.db.outbox))) w.db)).2
      ≡ record {
        db = record (w.db) { outbox = mark_first (if down then 0 else n) w.db.outbox };
        log = log;
      }
settle_lem true w log n whole h = settle_down w log (ids_of (take n (pending w.db.outbox))) whole
settle_lem false w log n whole h =
    rw (mark_published_up (ids_of (take n (pending w.db.outbox))) w.db) (
      ap (λ rows. record { db = record (w.db) { outbox = rows }; log = log })
        (stamp-unpublished n 0 w.db.next_outbox_id w.db.outbox h))

-- The state behind a cycle.
abbrev pub drained : Cycle → Pipe → Pipe
drained c w = record {
  db = record (w.db) { outbox = mark_first (marked_by c w) w.db.outbox };
  log = w.log ++ map item_of (take (appended_by c w) (pending w.db.outbox));
}

idle_cycle :
    (down : Bool) (w : Pipe)
    → w ≡ record {
      db = record (w.db) { outbox = mark_first (if down then 0 else 0) w.db.outbox };
      log = w.log ++ [];
    }
idle_cycle true w = rw (append-nil w.log) refl
idle_cycle false w = rw (append-nil w.log) refl

drain_rows_lem :
    (c : Cycle) (w : Pipe) (rows : List OutboxRow)
    → rows ≡ take batch (pending w.db.outbox)
    → Ascending 0 w.db.outbox w.db.next_outbox_id
    → (drain_rows c w (ok rows)).2 ≡ record {
      db = record (w.db) {
        outbox = mark_first (if c.mark_down then 0 else sent c.append_down rows) w.db.outbox;
      };
      log = w.log ++ map item_of (take (sent c.append_down rows) (pending w.db.outbox));
    }
drain_rows_lem c w [] e h = idle_cycle c.mark_down w
drain_rows_lem c w (r ∷ rows) e h =
    let k = sent c.append_down (r ∷ rows) in
    let few : k ≤ batch = omega (
      arith,
      sent-le c.append_down (r ∷ rows),
      ap length e,
      length-take batch (pending w.db.outbox),
    ) in
    let first = ap (take k) e ∙ take-take k batch (pending w.db.outbox) few in
    let result = publish c.append_down (r ∷ rows) w.log in
    ap (λ ids. (settle w result.0 ids result.2 (mark_published c.mark_down ids w.db)).2)
      (publish_ids c.append_down (r ∷ rows) w.log ∙ ap ids_of first)
    ∙ settle_lem c.mark_down w result.0 k result.2 h
    ∙ ap
        (λ log. record {
          db = record (w.db) { outbox = mark_first (if c.mark_down then 0 else k) w.db.outbox };
          log = log;
        })
        (publish_log c.append_down (r ∷ rows) w.log ∙ ap (λ xs. w.log ++ map item_of xs) first)

-- A cycle appends the first pending rows to the streams, in order and up to the first failure, and
-- marks exactly those, or none when the update fails; given that the ids of the outbox ascend.
pub drain_once_lem :
    (c : Cycle) (w : Pipe)
    → Ascending 0 w.db.outbox w.db.next_outbox_id
    → (drain_once c w).2 ≡ drained c w
unfolding drain_once fetch_unpublished
drain_once_lem c w h = elim (Bool-cases c.fetch_down) [
  | inl e ↦ rw e (idle_cycle c.mark_down w)
  | inr e ↦
      rw (e, unpublished-pending batch w.db.outbox)
        (drain_rows_lem c w (take batch (pending w.db.outbox)) refl h)
]

pub Ascending-mark_first :
    (k n next : ℕ) (rows : List (OutboxRow × Bool))
    → Ascending n rows next
    → Ascending n (mark_first k rows) next
Ascending-mark_first zero n next rows h = h
Ascending-mark_first (suc k) n next [] h = h
Ascending-mark_first (suc k) n next ((r, true) ∷ rows) (le, h) =
    (le, Ascending-mark_first (suc k) (suc r.id) next rows h)
Ascending-mark_first (suc k) n next ((r, false) ∷ rows) (le, h) =
    (le, Ascending-mark_first k (suc r.id) next rows h)

-- Every row that is marked as published has its event in the streams.
abbrev pub IsLogged : Pipe → Type 0
IsLogged w = All (λ row. row.1 ≡ true → Memᴰ (item_of row.0) w.log) w.db.outbox

mark_first-logged :
    (k n : ℕ) (log more : StreamLog) (rows : List (OutboxRow × Bool))
    → k ≤ n
    → ((r : Bytes × StringMap) → Memᴰ r (map item_of (take n (pending rows))) → Memᴰ r more)
    → ((r : Bytes × StringMap) → Memᴰ r log → Memᴰ r more)
    → All (λ row. row.1 ≡ true → Memᴰ (item_of row.0) log) rows
    → All (λ row. row.1 ≡ true → Memᴰ (item_of row.0) more) (mark_first k rows)
mark_first-logged zero n log more rows le new old h = All-map (λ row p e. old _ (p e)) h
mark_first-logged (suc k) zero log more rows le new old h = absurd (omega (arith, le))
mark_first-logged (suc k) (suc n) log more [] le new old h = nil
mark_first-logged (suc k) (suc n) log more ((r, true) ∷ rows) le new old (cons p h) =
    cons (λ e. old _ (p e)) (mark_first-logged (suc k) (suc n) log more rows le new old h)
mark_first-logged (suc k) (suc n) log more ((r, false) ∷ rows) le new old (cons p h) =
    cons (λ e. new _ (Memᴰ.head refl))
      (mark_first-logged k n log more rows (omega (arith, le)) (λ x m. new x (Memᴰ.tail m)) old h)

marked-le : (c : Cycle) (w : Pipe) → marked_by c w ≤ appended_by c w
marked-le c w = elim (Bool-cases c.mark_down) [
  | inl e ↦ rw e (omega arith)
  | inr e ↦ rw e (omega arith)
]

pub drained-IsLogged : (c : Cycle) (w : Pipe) → IsLogged w → IsLogged (drained c w)
drained-IsLogged c w h =
    mark_first-logged (marked_by c w) (appended_by c w) w.log _ w.db.outbox (marked-le c w)
      (λ r m. Memᴰ.append_right w.log m) (λ r m. Memᴰ.append_left _ m) h

-- If the ids of the outbox ascend and the event of every row that is marked as published is in the
-- streams before the relay runs, then it is so behind any cycles, whatever fails in them: the relay
-- marks no row whose event is not in the streams.
pub run_relay-IsLogged :
    (enabled : Bool) (cycles : List Cycle) (w : Pipe)
    → Ascending 0 w.db.outbox w.db.next_outbox_id
    → IsLogged w
    → IsLogged (run_relay enabled cycles w)
unfolding run_relay run_cycles
run_relay-IsLogged false cycles w a h = h
run_relay-IsLogged true [] w a h = h
run_relay-IsLogged true (c ∷ cycles) w a h =
    subst (λ v. IsLogged (run_cycles cycles v)) (sym (drain_once_lem c w a))
      (run_relay-IsLogged true cycles (drained c w)
        (Ascending-mark_first (marked_by c w) 0 _ w.db.outbox a) (drained-IsLogged c w h))
