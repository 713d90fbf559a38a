-- ===== src/Fanout/Manager.antt =====
-- The hubs of all games: services/fanout/internal/hub/manager.go. Hubs are shared objects: a hub stands at
-- its position in a list, and its slot says whether it is in the map `hubs`. Subscribe enters a hub when it
-- creates it, and Unsubscribe cancels a hub's reader when it deletes it, so a hub is in the map exactly
-- while its reader has not been cancelled.
pub mod Teardown
use alekhines_counter_gambit.Base.{
  Bool, List, Option, [], elim_cases, false, if◌then◌else◌, none, some, suc, true, zero, ℕ, ◌&&◌,
  ◌++◌, ◌+◌, ◌==◌, ◌∷◌,
}
use alekhines_counter_gambit.Base.Text.{Bytes, bytes_eq}
use alekhines_counter_gambit.Eventlog.Event.{Entry}
use alekhines_counter_gambit.Fanout.Hub.{
  Delta, Hub, attach, broadcast, detach, is_hub_empty, new_hub,
}

pub record HubSlot : Type 0 where
  pub game_id : Bytes
  pub hub : Hub
  pub live : Bool

pub record Manager : Type 0 where
  pub slots : List HubSlot
  pub hubs_opened : ℕ
  pub hubs_closed : ℕ

-- NewManager
abbrev pub new_manager : Manager
new_manager = record { slots = []; hubs_opened = 0; hubs_closed = 0 }

-- `m.hubs[gameID]`
abbrev pub after_slot : Option ℕ → Option ℕ
after_slot none = none
after_slot (some i) = some (suc i)

unfoldable pub find_hub : Bytes → List HubSlot → Option ℕ
find_hub game_id [] = none
find_hub game_id (s ∷ slots) = elim (s.live && bytes_eq s.game_id game_id) [
  | true ↦ some 0
  | false ↦ after_slot (find_hub game_id slots)
]

-- A change of the hub at a position.
unfoldable pub update_slot : ℕ → (HubSlot → HubSlot) → List HubSlot → List HubSlot
update_slot i f [] = []
update_slot zero f (s ∷ slots) = f s ∷ slots
update_slot (suc i) f (s ∷ slots) = s ∷ update_slot i f slots

abbrev pub on_hub : (Hub → Hub) → HubSlot → HubSlot
on_hub f s = record s { hub = f s.hub }

-- Subscribe, all of it under the lock: `replayed` is what Replay answers for a new hub.
abbrev pub subscribe_at : Option (List Entry) → Bytes → Bytes → Manager → Option ℕ → Manager
subscribe_at replayed game_id from m (some i) = record m {
  slots = update_slot i (on_hub (attach from)) m.slots;
}
subscribe_at replayed game_id from m none = record m {
  slots =
      m.slots
      ++ record { game_id = game_id; hub = attach from (new_hub replayed); live = true } ∷ [];
  hubs_opened = m.hubs_opened + 1;
}

unfoldable pub subscribe : Option (List Entry) → Bytes → Bytes → Manager → Manager
unfolding find_hub update_slot attach new_hub
subscribe replayed game_id from m = subscribe_at replayed game_id from m (find_hub game_id m.slots)

-- The last part of Unsubscribe, under the lock, for the hub at `i` that its first part has found.
abbrev pub is_empty_slot : ℕ → List HubSlot → Bool
is_empty_slot i [] = false
is_empty_slot zero (s ∷ slots) = is_hub_empty s.hub
is_empty_slot (suc i) (s ∷ slots) = is_empty_slot i slots

abbrev pub is_found : ℕ → Option ℕ → Bool
is_found i none = false
is_found i (some j) = i == j

unfoldable pub tear_down : Bytes → ℕ → Manager → Manager
unfolding find_hub update_slot is_hub_empty
tear_down game_id i m =
    if is_found i (find_hub game_id m.slots) && is_empty_slot i m.slots
    then record m {
      slots = update_slot i (λ s. record s { live = false }) m.slots;
      hubs_closed = m.hubs_closed + 1;
    }
    else m

-- Unsubscribe without other calls between its parts: the hub, the spectator's end, and the teardown if no
-- one is left.
abbrev pub unsubscribe_at : Bytes → ℕ → Manager → Option ℕ → Manager
unsubscribe_at game_id k m none = m
unsubscribe_at game_id k m (some i) =
    let left : Manager = record m { slots = update_slot i (on_hub (detach k)) m.slots } in
    elim (is_empty_slot i left.slots) [ true ↦ tear_down game_id i left | false ↦ left ]

unfoldable pub unsubscribe : Bytes → ℕ → Manager → Manager
unfolding find_hub update_slot detach is_hub_empty tear_down
unsubscribe game_id k m = unsubscribe_at game_id k m (find_hub game_id m.slots)

-- HubCount
unfoldable pub hub_count : List HubSlot → ℕ
hub_count [] = 0
hub_count (s ∷ slots) = (if s.live then 1 else 0) + hub_count slots

-- What happens, in any order: the two parts of Unsubscribe that change something are steps of their own,
-- and a hub that a call has found earlier may have left the map meanwhile.
pub data ManagerStep : Manager → Manager → Type 0 where
  subscribed :
      (replayed : Option (List Entry)) (game_id from : Bytes) (m : Manager)
      → ManagerStep m (subscribe replayed game_id from m)
  detached_one :
      (i k : ℕ) (m : Manager)
      → ManagerStep m (record m { slots = update_slot i (on_hub (detach k)) m.slots })
  torn_down : (game_id : Bytes) (i : ℕ) (m : Manager) → ManagerStep m (tear_down game_id i m)
  broadcasted :
      (i : ℕ) (d : Delta) (m : Manager)
      → ManagerStep m (record m { slots = update_slot i (on_hub (broadcast d)) m.slots })

pub data ManagerSteps : Manager → Manager → Type 0 where
  no_step : {m : Manager} → ManagerSteps m m
  and_step : {m n o : Manager} → ManagerSteps m n → ManagerStep n o → ManagerSteps m o

-- Unsubscribe is made of these steps.
pub unsubscribe-ManagerSteps :
    (game_id : Bytes) (k : ℕ) (m : Manager) → ManagerSteps m (unsubscribe game_id k m)
unfolding unsubscribe
unsubscribe-ManagerSteps game_id k m = go (find_hub game_id m.slots)
  where
    go : (o : Option ℕ) → ManagerSteps m (unsubscribe_at game_id k m o)
    go none = no_step
    go (some i) =
        let left : Manager = record m { slots = update_slot i (on_hub (detach k)) m.slots } in
        elim_cases (ManagerSteps m) (is_empty_slot i left.slots) (tear_down game_id i left) left
          (λ e. and_step (and_step no_step (detached_one i k m)) (torn_down game_id i left))
          (λ e. and_step no_step (detached_one i k m))
