-- ===== src/Fanout/Examples.antt =====
-- The laws of the hub at a game of two entries, as in services/fanout/internal/hub/hub_test.go.
use alekhines_counter_gambit.Base.{List, Option, [], none, refl, some, ◌∷◌, ◌≡◌}
use alekhines_counter_gambit.Base.All.{All}
use alekhines_counter_gambit.Base.Text.{Bytes, codes}
use alekhines_counter_gambit.Eventlog.Event.{Entry}
use alekhines_counter_gambit.Eventlog.Examples.{king_pawn_event}
use alekhines_counter_gambit.Fanout.Hub.{
  Delta, Hub, attach, broadcast, delta_from, detach, filter_after, new_hub, receive,
}
use alekhines_counter_gambit.Fanout.Hub.Delivery.{
  IsServed, Steps, Steps-IsServed, attached, detached, done, sent, step, taken,
}
use alekhines_counter_gambit.Fanout.Hub.Resume.{filter_after-tenth}
use alekhines_counter_gambit.Fanout.Manager.{
  Manager, and_step, detached_one, new_manager, no_step, on_hub, subscribe, subscribed, tear_down,
  torn_down, update_slot,
}
use alekhines_counter_gambit.Fanout.Manager.Teardown.{IsTidy, ManagerSteps-IsTidy}

abbrev entry_of : Bytes → Entry
entry_of id = record { id = id; event = king_pawn_event }

abbrev loaded : Option (List Entry)
loaded = some (entry_of (codes "5-0") ∷ [])

abbrev first : Hub
first = new_hub loaded

abbrev live : Delta
live = delta_from (entry_of (codes "6-0"))

-- A spectator attaches, a delta is sent, the spectator reads it and leaves.
abbrev last : Hub
last = detach 0 (receive 0 (broadcast live (attach [] first)))

run : Steps first last
run = step (step (step (step done (attached [] first)) (sent live _)) (taken 0 _)) (detached 0 _)

Steps-IsServed_example : All (IsServed last.history) last.subs
Steps-IsServed_example = Steps-IsServed loaded run

filter_after-tenth_example :
    filter_after (delta_from (entry_of (codes "5-10")) ∷ []) (codes "5-9")
    ≡ filter_after [] (codes "5-9")
unfolding delta_from
filter_after-tenth_example =
    filter_after-tenth (codes "5") (delta_from (entry_of (codes "5-10"))) [] refl

-- A spectator comes and goes, and the hub is torn down.
abbrev watched : Manager
watched = subscribe none (codes "g1") [] new_manager

abbrev left : Manager
left = record watched { slots = update_slot 0 (on_hub (detach 0)) watched.slots }

ManagerSteps-IsTidy_example : IsTidy (tear_down (codes "g1") 0 left)
ManagerSteps-IsTidy_example = ManagerSteps-IsTidy (
    and_step
      (and_step (and_step no_step (subscribed none (codes "g1") [] new_manager))
        (detached_one 0 0 watched))
      (torn_down (codes "g1") 0 left))
