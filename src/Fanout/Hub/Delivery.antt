-- ===== src/Fanout/Hub/Delivery.antt =====
-- What a spectator of a hub is sent: the operations of services/fanout/internal/hub/hub.go in any order.
use alekhines_counter_gambit.Base.{
  Bool-cases, List, Option, [], ap, arith, inl, inr, length, length-append, ltb, refl, suc, sym,
  tests, true, zero, ℕ, ◌++◌, ◌∙◌, ◌∷◌, ◌≡◌, ◌≤◌,
}
use alekhines_counter_gambit.Base.All.{All, All-append, All-one, cons, nil}
use alekhines_counter_gambit.Base.Text.{Bytes}
use alekhines_counter_gambit.Eventlog.Event.{Entry}
use alekhines_counter_gambit.Fanout.Hub.{
  Delta, Hub, Metrics, Sub, attach, broadcast, deliver, deliver_all, detach, detach_at,
  filter_after, new_hub, receive, receive_at, remove_sub, send_buffer, take_next,
}
use mathlib.Core.List.{append-nil, append_assoc}

-- A spectator was sent the part of the history before it subscribed that it asked for, then every
-- later delta once and in order, up to the point where it was removed.
pub record IsServed (history : List Delta) (s : Sub) : Type 0 where
  pub before : List Delta
  pub missed : List Delta
  pub initial_eq : s.initial ≡ filter_after before s.from
  pub history_eq : history ≡ before ++ ((s.received ++ s.channel) ++ missed)
  pub attached_eq : s.attached ≡ true → missed ≡ []
  pub channel_bound : length s.channel ≤ send_buffer

-- The operations that clients and the stream cause.
pub data Step : Hub → Hub → Type 0 where
  attached : (from : Bytes) (h : Hub) → Step h (attach from h)
  detached : (i : ℕ) (h : Hub) → Step h (detach i h)
  sent : (d : Delta) (h : Hub) → Step h (broadcast d h)
  taken : (i : ℕ) (h : Hub) → Step h (receive i h)

pub data Steps (start : Hub) : Hub → Type 0 where
  done : Steps start start
  step : {h h' : Hub} → Steps start h → Step h h' → Steps start h'

append-one :
    (xs ys zs : List Delta) (d : Delta)
    → (xs ++ (ys ++ zs)) ++ d ∷ [] ≡ xs ++ (ys ++ (zs ++ d ∷ []))
append-one xs ys zs d =
    append_assoc xs (ys ++ zs) (d ∷ []) ∙ ap (λ l. xs ++ l) (append_assoc ys zs (d ∷ []))

-- The history grows: a spectator that was removed misses the delta.
history-missed :
    (s : Sub) (d : Delta) {history : List Delta} (p : IsServed history s)
    → history ++ d ∷ [] ≡ p.before ++ ((s.received ++ s.channel) ++ (p.missed ++ d ∷ []))
history-missed s d p =
    ap (λ l. l ++ d ∷ []) p.history_eq ∙ append-one p.before (s.received ++ s.channel) p.missed d

-- The history grows: the delta goes to the channel of a spectator that is still there.
history-queued :
    (s : Sub) (d : Delta) {history : List Delta} (p : IsServed history s)
    → s.attached ≡ true
    → history ++ d ∷ [] ≡ p.before ++ ((s.received ++ (s.channel ++ d ∷ [])) ++ [])
history-queued s d p e =
    history-missed s d p
    ∙ rw (p.attached_eq e) (
        rw (append-nil (s.received ++ (s.channel ++ d ∷ [])))
          (rw (append_assoc s.received s.channel (d ∷ []))))

deliver-IsServed :
    (d : Delta) (s : Sub) (m : Metrics) {history : List Delta}
    → IsServed history s
    → IsServed (history ++ d ∷ []) (deliver d s m).0
unfolding deliver
deliver-IsServed d s m p = elim (Bool-cases s.attached) [
  | inr e ↦ rw e (record {
    before = p.before;
    missed = p.missed ++ d ∷ [];
    initial_eq = p.initial_eq;
    history_eq = history-missed s d p;
    attached_eq = λ a. absurd (cc);
    channel_bound = p.channel_bound;
  })
  | inl e ↦ elim (Bool-cases (ltb (length s.channel) send_buffer)) [
    | inl l ↦
        rw (e, l)
          (record {
            before = p.before;
            missed = [];
            initial_eq = p.initial_eq;
            history_eq = history-queued s d p e;
            attached_eq = λ a. refl;
            channel_bound = omega (tests, length-append s.channel (d ∷ []));
          })
    | inr l ↦
        rw (e, l)
          (record {
            before = p.before;
            missed = p.missed ++ d ∷ [];
            initial_eq = p.initial_eq;
            history_eq = history-missed s d p;
            attached_eq = λ a. absurd (cc);
            channel_bound = p.channel_bound;
          })
  ]
]

deliver_all-IsServed :
    (d : Delta) (subs : List Sub) (m : Metrics) {history : List Delta}
    → All (IsServed history) subs
    → All (IsServed (history ++ d ∷ [])) (deliver_all d subs m).0
unfolding deliver_all
deliver_all-IsServed d [] m nil = nil
deliver_all-IsServed d (s ∷ subs) m (cons p ps) =
    cons (deliver-IsServed d s m p) (deliver_all-IsServed d subs _ ps)

take_next-IsServed :
    (s : Sub) (c : List Delta) {history : List Delta}
    → s.channel ≡ c
    → IsServed history s
    → IsServed history (take_next s c)
take_next-IsServed s [] e p = p
take_next-IsServed s (d ∷ c) e p = record {
  before = p.before;
  missed = p.missed;
  initial_eq = p.initial_eq;
  history_eq = p.history_eq ∙ rw e (rw (append_assoc s.received (d ∷ []) c));
  attached_eq = p.attached_eq;
  channel_bound = omega (arith, p.channel_bound, ap length e);
}

receive_at-IsServed :
    (i : ℕ) (subs : List Sub) {history : List Delta}
    → All (IsServed history) subs
    → All (IsServed history) (receive_at i subs)
unfolding receive_at
receive_at-IsServed i [] nil = nil
receive_at-IsServed zero (s ∷ subs) (cons p ps) = cons (take_next-IsServed s s.channel refl p) ps
receive_at-IsServed (suc i) (s ∷ subs) (cons p ps) = cons p (receive_at-IsServed i subs ps)

remove_sub-IsServed :
    (s : Sub) (m : Metrics) {history : List Delta}
    → IsServed history s
    → IsServed history (remove_sub s m).0
remove_sub-IsServed s m p = elim (Bool-cases s.attached) [
  | inl e ↦ rw e (record {
    before = p.before;
    missed = p.missed;
    initial_eq = p.initial_eq;
    history_eq = p.history_eq;
    attached_eq = λ a. absurd (cc);
    channel_bound = p.channel_bound;
  })
  | inr e ↦ rw e (record {
    before = p.before;
    missed = p.missed;
    initial_eq = p.initial_eq;
    history_eq = p.history_eq;
    attached_eq = λ a. absurd (cc);
    channel_bound = p.channel_bound;
  })
]

detach_at-IsServed :
    (i : ℕ) (subs : List Sub) (m : Metrics) {history : List Delta}
    → All (IsServed history) subs
    → All (IsServed history) (detach_at i subs m).0
unfolding detach_at
detach_at-IsServed i [] m nil = nil
detach_at-IsServed zero (s ∷ subs) m (cons p ps) = cons (remove_sub-IsServed s m p) ps
detach_at-IsServed (suc i) (s ∷ subs) m (cons p ps) = cons p (detach_at-IsServed i subs m ps)

Step-IsServed :
    {h h' : Hub} → Step h h' → All (IsServed h.history) h.subs → All (IsServed h'.history) h'.subs
unfolding attach detach broadcast receive
Step-IsServed (attached from h) ps = All-append ps (
    All-one (record {
      before = h.history;
      missed = [];
      initial_eq = refl;
      history_eq = sym (append-nil h.history);
      attached_eq = λ a. refl;
      channel_bound = omega arith;
    }))
Step-IsServed (detached i h) ps = detach_at-IsServed i h.subs h.metrics ps
Step-IsServed (sent d h) ps = deliver_all-IsServed d h.subs _ ps
Step-IsServed (taken i h) ps = receive_at-IsServed i h.subs ps

Steps-keep-IsServed :
    {start h : Hub}
    → Steps start h
    → All (IsServed start.history) start.subs
    → All (IsServed h.history) h.subs
Steps-keep-IsServed done p = p
Steps-keep-IsServed (step r s) p = Step-IsServed s (Steps-keep-IsServed r p)

-- However attach, detach, broadcast and the readers interleave after a hub is opened, each
-- spectator gets the part of the history before its attach that filterAfter selects, then the later
-- deltas in order, none lost and none twice, all of them as long as it is attached; a removed
-- one misses only the last ones. No channel holds more than its buffer.
pub Steps-IsServed :
    (replayed : Option (List Entry)) {h : Hub}
    → Steps (new_hub replayed) h
    → All (IsServed h.history) h.subs
unfolding new_hub
Steps-IsServed replayed r = Steps-keep-IsServed r nil
