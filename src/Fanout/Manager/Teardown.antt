-- ===== src/Fanout/Manager/Teardown.antt =====
-- A hub is closed only when no one watches, and no one comes to watch a closed hub:
-- services/fanout/internal/hub/manager.go.
use alekhines_counter_gambit.Base.{
  &&-left, &&-right, ==_iff, Bool-cases, List, Option, [], ap, arith, false, if◌then◌else◌, inl,
  inr, length, ltb, none, refl, some, suc, sym, true, zero, ℕ, ◌&&◌, ◌++◌, ◌+◌, ◌∙◌, ◌∷◌, ◌≡◌, ◌≢◌,
  ◌≤◌,
}
use alekhines_counter_gambit.Base.All.{All, All-append, All-one, cons, nil}
use alekhines_counter_gambit.Base.Text.{Bytes, bytes_eq}
use alekhines_counter_gambit.Eventlog.Event.{Entry}
use alekhines_counter_gambit.Fanout.Hub.{
  Delta, Hub, Metrics, Sub, attach, broadcast, count_attached, deliver, deliver_all, detach,
  detach_at, is_hub_empty, new_hub, send_buffer,
}
use alekhines_counter_gambit.Fanout.Manager.{
  HubSlot, Manager, ManagerStep, ManagerSteps, after_slot, and_step, broadcasted, detached_one,
  find_hub, hub_count, is_empty_slot, is_found, new_manager, no_step, on_hub, subscribe,
  subscribe_at, subscribed, tear_down, torn_down, update_slot,
}
use mathlib.Core.Option.{some-injective}

detach_at-le :
    (i : ℕ) (subs : List Sub) (m : Metrics)
    → count_attached (detach_at i subs m).0 ≤ count_attached subs
unfolding detach_at count_attached
detach_at-le i [] m = omega arith
detach_at-le zero (s ∷ subs) m = elim (Bool-cases s.attached) [
  | inl e ↦ rw e (omega arith)
  | inr e ↦ rw e (omega arith)
]
detach_at-le (suc i) (s ∷ subs) m = omega (arith, detach_at-le i subs m)

deliver-le :
    (d : Delta) (s : Sub) (m : Metrics)
    → (if (deliver d s m).0.attached then 1 else 0) ≤ (if s.attached then 1 else 0)
unfolding deliver
deliver-le d s m = elim (Bool-cases s.attached) [
  | inl e ↦ elim (Bool-cases (ltb (length s.channel) send_buffer)) [
    | inl l ↦ rw (e, l) (omega arith)
    | inr l ↦ rw (e, l) (omega arith)
  ]
  | inr e ↦ rw e (omega arith)
]

deliver_all-le :
    (d : Delta) (subs : List Sub) (m : Metrics)
    → count_attached (deliver_all d subs m).0 ≤ count_attached subs
unfolding deliver_all count_attached
deliver_all-le d [] m = omega arith
deliver_all-le d (s ∷ subs) m =
    omega (arith, deliver_all-le d subs (deliver d s m).1, deliver-le d s m)

-- A hub that is not in the map has no spectator.
abbrev pub IsQuiet : HubSlot → Type 0
IsQuiet s = s.live ≡ false → count_attached s.hub.subs ≡ 0

-- The gauge of open hubs, and the quiet of the closed ones.
pub record IsTidy (m : Manager) : Type 0 where
  pub gauge : m.hubs_opened ≡ m.hubs_closed + hub_count m.slots
  pub quiet : All IsQuiet m.slots

hub_count-on_hub :
    (i : ℕ) (f : Hub → Hub) (slots : List HubSlot)
    → hub_count (update_slot i (on_hub f) slots) ≡ hub_count slots
unfolding hub_count update_slot
hub_count-on_hub i f [] = refl
hub_count-on_hub zero f (s ∷ slots) = refl
hub_count-on_hub (suc i) f (s ∷ slots) = omega (arith, hub_count-on_hub i f slots)

-- An operation on a hub that adds no spectator.
on_hub-IsQuiet :
    (i : ℕ) (f : Hub → Hub) (slots : List HubSlot)
    → ((h : Hub) → count_attached (f h).subs ≤ count_attached h.subs)
    → All IsQuiet slots
    → All IsQuiet (update_slot i (on_hub f) slots)
unfolding update_slot
on_hub-IsQuiet i f [] le nil = nil
on_hub-IsQuiet zero f (s ∷ slots) le (cons q qs) = cons (λ e. omega (arith, le s.hub, q e)) qs
on_hub-IsQuiet (suc i) f (s ∷ slots) le (cons q qs) = cons q (on_hub-IsQuiet i f slots le qs)

-- Where a hub is found.
after_slot_first : (o : Option ℕ) → after_slot o ≢ some 0
after_slot_first none h = cc
after_slot_first (some j) h = omega (arith, some-injective (suc j) 0 h)

after_slot_later : (o : Option ℕ) (i : ℕ) → after_slot o ≡ some (suc i) → o ≡ some i
after_slot_later none i h = absurd (cc)
after_slot_later (some j) i h = ap some (omega (arith, some-injective (suc j) (suc i) h))

find_hub_first :
    (game_id : Bytes) (s : HubSlot) (slots : List HubSlot)
    → find_hub game_id (s ∷ slots) ≡ some 0
    → s.live ≡ true
unfolding find_hub
find_hub_first game_id s slots h = elim (Bool-cases (s.live && bytes_eq s.game_id game_id)) [
  | inl t ↦ &&-left s.live (bytes_eq s.game_id game_id) t
  | inr t ↦ absurd (after_slot_first (find_hub game_id slots) (ground (arith, h, t)))
]

find_hub_later :
    (game_id : Bytes) (s : HubSlot) (slots : List HubSlot) (i : ℕ)
    → find_hub game_id (s ∷ slots) ≡ some (suc i)
    → find_hub game_id slots ≡ some i
unfolding find_hub
find_hub_later game_id s slots i h = elim (Bool-cases (s.live && bytes_eq s.game_id game_id)) [
  | inl t ↦
      let first : ◌≡◌ {A = Option ℕ} (some 0) (some (suc i)) = ground (arith, h, t) in
      absurd (omega (arith, some-injective 0 (suc i) first))
  | inr t ↦ after_slot_later (find_hub game_id slots) i (ground (arith, h, t))
]

-- A new spectator of a hub in the map.
found-IsQuiet :
    (game_id : Bytes) (i : ℕ) (f : Hub → Hub) (slots : List HubSlot)
    → find_hub game_id slots ≡ some i
    → All IsQuiet slots
    → All IsQuiet (update_slot i (on_hub f) slots)
unfolding update_slot
found-IsQuiet game_id i f [] h nil = nil
found-IsQuiet game_id zero f (s ∷ slots) h (cons q qs) =
    let up = find_hub_first game_id s slots h in cons (λ e. absurd (cc)) qs
found-IsQuiet game_id (suc i) f (s ∷ slots) h (cons q qs) =
    cons q (found-IsQuiet game_id i f slots (find_hub_later game_id s slots i h) qs)

abbrev closed_slot : HubSlot → HubSlot
closed_slot s = record s { live = false }

-- The hub that is found is closed.
closed_one :
    (game_id : Bytes) (i : ℕ) (slots : List HubSlot)
    → find_hub game_id slots ≡ some i
    → is_empty_slot i slots ≡ true
    → All IsQuiet slots
    → All IsQuiet (update_slot i closed_slot slots)
      × (hub_count slots ≡ hub_count (update_slot i closed_slot slots) + 1)
unfolding update_slot hub_count is_hub_empty
closed_one game_id i [] h e nil = absurd (cc)
closed_one game_id zero (s ∷ slots) h e (cons q qs) =
    let up = find_hub_first game_id s slots h in
    (cons (λ l. (==_iff (count_attached s.hub.subs) 0).0 e) qs, rw up (omega arith))
closed_one game_id (suc i) (s ∷ slots) h e (cons q qs) =
    let (rest, count) = closed_one game_id i slots (find_hub_later game_id s slots i h) e qs in
    (cons q rest, omega (arith, count))

hub_count-append : (xs ys : List HubSlot) → hub_count (xs ++ ys) ≡ hub_count xs + hub_count ys
unfolding hub_count
hub_count-append [] ys = omega arith
hub_count-append (x ∷ xs) ys = omega (arith, hub_count-append xs ys)

subscribe-IsTidy :
    (replayed : Option (List Entry)) (game_id from : Bytes) (m : Manager)
    → IsTidy m
    → IsTidy (subscribe replayed game_id from m)
unfolding subscribe hub_count
subscribe-IsTidy replayed game_id from m t = go (find_hub game_id m.slots) refl
  where
    go :
        (o : Option ℕ)
        → find_hub game_id m.slots ≡ o
        → IsTidy (subscribe_at replayed game_id from m o)
    go (some i) h = record {
      gauge =
          t.gauge ∙ ap (λ n. m.hubs_closed + n) (sym (hub_count-on_hub i (attach from) m.slots));
      quiet = found-IsQuiet game_id i (attach from) m.slots h t.quiet;
    }
    go none h = record {
      gauge = omega (
        arith,
        t.gauge,
        hub_count-append m.slots
            (record { game_id = game_id; hub = attach from (new_hub replayed); live = true } ∷ []),
      );
      quiet = All-append t.quiet (All-one (λ e. absurd (cc)));
    }

is_found-some : (i : ℕ) (o : Option ℕ) → is_found i o ≡ true → o ≡ some i
is_found-some i none h = absurd (cc)
is_found-some i (some j) h = ap some (sym ((==_iff i j).0 h))

tear_down-IsTidy :
    (game_id : Bytes) (i : ℕ) (m : Manager) → IsTidy m → IsTidy (tear_down game_id i m)
unfolding tear_down
tear_down-IsTidy game_id i m t =
    let here = is_found i (find_hub game_id m.slots) in
    let idle = is_empty_slot i m.slots in
    elim (Bool-cases (here && idle)) [
      | inl e ↦
          let found = is_found-some i (find_hub game_id m.slots) (&&-left here idle e) in
          let (quiet, count) = closed_one game_id i m.slots found (&&-right here idle e) t.quiet in
          rw e (record { gauge = omega (arith, t.gauge, count); quiet = quiet })
      | inr e ↦ rw e t
    ]

step-IsTidy : {m n : Manager} → ManagerStep m n → IsTidy m → IsTidy n
unfolding detach broadcast
step-IsTidy (subscribed replayed game_id from m) t = subscribe-IsTidy replayed game_id from m t
step-IsTidy (detached_one i k m) t = record {
  gauge = t.gauge ∙ ap (λ n. m.hubs_closed + n) (sym (hub_count-on_hub i (detach k) m.slots));
  quiet = on_hub-IsQuiet i (detach k) m.slots (λ h. detach_at-le k h.subs h.metrics) t.quiet;
}
step-IsTidy (torn_down game_id i m) t = tear_down-IsTidy game_id i m t
step-IsTidy (broadcasted i d m) t = record {
  gauge = t.gauge ∙ ap (λ n. m.hubs_closed + n) (sym (hub_count-on_hub i (broadcast d) m.slots));
  quiet = on_hub-IsQuiet i (broadcast d) m.slots (λ h. deliver_all-le d h.subs _) t.quiet;
}

steps-IsTidy : {m n : Manager} → ManagerSteps m n → IsTidy m → IsTidy n
steps-IsTidy no_step t = t
steps-IsTidy (and_step steps last) t = step-IsTidy last (steps-IsTidy steps t)

-- Whatever spectators come and go and whatever their hubs broadcast, in any interleaving of Subscribe, the
-- parts of Unsubscribe and the hubs' readers: the hubs that were opened are those that were closed and
-- those in the map, and a hub that is not in the map any more, whose reader is cancelled, has no spectator.
pub ManagerSteps-IsTidy : {m : Manager} → ManagerSteps new_manager m → IsTidy m
unfolding hub_count
ManagerSteps-IsTidy steps = steps-IsTidy steps (record { gauge = refl; quiet = nil })
