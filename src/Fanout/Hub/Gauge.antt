-- ===== src/Fanout/Hub/Gauge.antt =====
-- The counters of a hub and its history: services/fanout/internal/hub/hub.go.
use alekhines_counter_gambit.Base.{
  Bool-cases, List, Option, [], ap, arith, if◌then◌else◌, inl, inr, length, ltb, map, refl, some,
  suc, sym, zero, ℕ, ◌++◌, ◌+◌, ◌∙◌, ◌∷◌, ◌≡◌,
}
use alekhines_counter_gambit.Base.Text.{Bytes, codes}
use alekhines_counter_gambit.Eventlog.Event.{Entry}
use alekhines_counter_gambit.Fanout.Hub.{
  Delta, Hub, Metrics, Sub, attach, broadcast, broadcast_entries, count_attached, deliver,
  deliver_all, delta_from, detach, detach_at, load_entries, load_history, new_hub, receive,
  receive_at, run_round, send_buffer, take_next,
}
use alekhines_counter_gambit.Fanout.Hub.Delivery.{
  Step, Steps, attached, detached, done, sent, step, taken,
}
use mathlib.Core.List.{append-nil, append_assoc, map-append}

Balanced : List Sub × Metrics → List Sub × Metrics → Type 0
Balanced (subs, m) (subs', m') =
    (count_attached subs' + m'.subs_removed ≡ count_attached subs + m.subs_removed)
    × (m'.subs_added ≡ m.subs_added)

deliver-count :
    (d : Delta) (s : Sub) (m : Metrics)
    → ((if (deliver d s m).0.attached then 1 else 0) + (deliver d s m).1.subs_removed
        ≡ (if s.attached then 1 else 0) + m.subs_removed)
      × ((deliver d s m).1.subs_added ≡ m.subs_added)
unfolding deliver
deliver-count d s m = elim (Bool-cases s.attached) [
  | inl e ↦ elim (Bool-cases (ltb (length s.channel) send_buffer)) [
    | inl l ↦ rw (e, l) (refl, refl)
    | inr l ↦ rw (e, l) (omega arith, refl)
  ]
  | inr e ↦ rw e (refl, refl)
]

deliver_all-Balanced :
    (d : Delta) (subs : List Sub) (m : Metrics) → Balanced (subs, m) (deliver_all d subs m)
unfolding deliver_all count_attached Balanced
deliver_all-Balanced d [] m = (refl, refl)
deliver_all-Balanced d (s ∷ subs) m =
    let (p, q) = deliver_all-Balanced d subs (deliver d s m).1 in
    let (p', q') = deliver-count d s m in (omega (arith, p, p'), q ∙ q')

detach_at-Balanced :
    (i : ℕ) (subs : List Sub) (m : Metrics) → Balanced (subs, m) (detach_at i subs m)
unfolding detach_at count_attached Balanced
detach_at-Balanced i [] m = (refl, refl)
detach_at-Balanced zero (s ∷ subs) m = elim (Bool-cases s.attached) [
  | inl e ↦ rw e (omega arith, refl)
  | inr e ↦ rw e (omega arith, refl)
]
detach_at-Balanced (suc i) (s ∷ subs) m =
    let (p, q) = detach_at-Balanced i subs m in (omega (arith, p), q)

take_next-attached : (s : Sub) (c : List Delta) → (take_next s c).attached ≡ s.attached
take_next-attached s [] = refl
take_next-attached s (d ∷ c) = refl

receive_at-count :
    (i : ℕ) (subs : List Sub) → count_attached (receive_at i subs) ≡ count_attached subs
unfolding receive_at count_attached
receive_at-count i [] = refl
receive_at-count zero (s ∷ subs) = rw (take_next-attached s s.channel)
receive_at-count (suc i) (s ∷ subs) = rw (receive_at-count i subs)

count_attached-append :
    (xs ys : List Sub) → count_attached (xs ++ ys) ≡ count_attached xs + count_attached ys
unfolding count_attached
count_attached-append [] ys = omega arith
count_attached-append (x ∷ xs) ys = omega (arith, count_attached-append xs ys)

IsBalanced : Hub → Type 0
IsBalanced h = count_attached h.subs + h.metrics.subs_removed ≡ h.metrics.subs_added

Step-IsBalanced : {h h' : Hub} → Step h h' → IsBalanced h → IsBalanced h'
unfolding attach detach broadcast receive count_attached IsBalanced Balanced
Step-IsBalanced (attached from h) e = omega (arith, e, count_attached-append h.subs _)
Step-IsBalanced (detached i h) e =
    let (p, q) = detach_at-Balanced i h.subs h.metrics in omega (arith, e, p, q)
Step-IsBalanced (sent d h) e =
    let m : Metrics = h.metrics in
    let (p, q) = deliver_all-Balanced d h.subs (record m { broadcasts = m.broadcasts + 1 }) in
    omega (arith, e, p, q)
Step-IsBalanced (taken i h) e = rw (receive_at-count i h.subs) e

Steps-keep-IsBalanced : {start h : Hub} → Steps start h → IsBalanced start → IsBalanced h
Steps-keep-IsBalanced done p = p
Steps-keep-IsBalanced (step r s) p = Step-IsBalanced s (Steps-keep-IsBalanced r p)

-- At every point, the spectators that a hub has counted as added, less those that it has counted as
-- removed, are the ones in its map; each removal is counted once, by detach or by a drop.
pub Steps-count :
    (replayed : Option (List Entry)) {h : Hub}
    → Steps (new_hub replayed) h
    → count_attached h.subs + h.metrics.subs_removed ≡ h.metrics.subs_added
unfolding new_hub count_attached IsBalanced
Steps-count replayed r = Steps-keep-IsBalanced r refl

broadcast_entries-history :
    (es : List Entry) (last_id : Bytes) (h : Hub)
    → (broadcast_entries es last_id h).0.history ≡ h.history ++ map delta_from es
unfolding broadcast_entries broadcast
broadcast_entries-history [] last_id h = sym (append-nil h.history)
broadcast_entries-history (e ∷ es) last_id h =
    broadcast_entries-history es e.id (broadcast (delta_from e) h)
    ∙ append_assoc h.history (delta_from e ∷ []) (map delta_from es)

load_entries-history :
    (es : List Entry) (history : List Delta) (start : Bytes)
    → (load_entries es history start).0 ≡ history ++ map delta_from es
unfolding load_entries
load_entries-history [] history start = sym (append-nil history)
load_entries-history (e ∷ es) history start =
    load_entries-history es (history ++ delta_from e ∷ []) e.id
    ∙ append_assoc history (delta_from e ∷ []) (map delta_from es)

-- A hub that preloads some entries and then reads more holds the deltas of all of them, in the
-- order of the stream.
pub run_round-history :
    (loaded next : List Entry) (last_id : Bytes)
    → (run_round (some next) last_id (new_hub (some loaded))).0.history
      ≡ map delta_from (loaded ++ next)
unfolding run_round new_hub load_history
run_round-history loaded next last_id =
    broadcast_entries-history next last_id (new_hub (some loaded))
    ∙ (ap (λ l. l ++ map delta_from next) (load_entries-history loaded [] (codes "0"))
        ∙ sym (map-append delta_from loaded next))
