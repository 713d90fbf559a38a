-- ===== src/Fanout/Hub.antt =====
-- One game's hub: services/fanout/internal/hub/hub.go. Each operation holds the hub's lock, so it is
-- one step. A spectator's record also keeps what its channel has delivered so far.
pub mod Delivery
pub mod Resume
pub mod Gauge
use alekhines_counter_gambit.Base.{
  Bool, List, Option, [], false, if◌then◌else◌, length, ltb, none, some, suc, true, zero, ℕ, ◌&&◌,
  ◌++◌, ◌+◌, ◌==◌, ◌∷◌,
}
use alekhines_counter_gambit.Base.Int.{ℤ}
use alekhines_counter_gambit.Base.Text.{Bytes, codes}
use alekhines_counter_gambit.Eventlog.Event.{Entry}

abbrev pub send_buffer : ℕ
send_buffer = 256

pub record Delta : Type 0 where
  pub id : Bytes
  pub ply : ℤ
  pub uci : Bytes
  pub fen : Bytes
  pub status : Bytes
  pub end_reason : Bytes
  pub ended : Bool

unfoldable pub delta_from : Entry → Delta
delta_from e = record {
  id = e.id;
  ply = e.event.ply;
  uci = e.event.uci;
  fen = e.event.fen_after;
  status = e.event.status;
  end_reason = e.event.end_reason;
  ended = e.event.ended;
}

-- `a > b` on strings, byte by byte.
unfoldable pub bytes_gt : Bytes → Bytes → Bool
bytes_gt [] t = false
bytes_gt (a ∷ s) [] = true
bytes_gt (a ∷ s) (b ∷ t) = if ltb b a then true else a == b && bytes_gt s t

unfoldable pub newer_than : Bytes → List Delta → List Delta
unfolding bytes_gt
newer_than from [] = []
newer_than from (d ∷ ds) =
    let rest = newer_than from ds in if bytes_gt d.id from then d ∷ rest else rest

abbrev pub is_nil : Bytes → Bool
is_nil [] = true
is_nil (c ∷ s) = false

-- filterAfter
unfoldable pub filter_after : List Delta → Bytes → List Delta
unfolding newer_than
filter_after history from = if is_nil from then history else newer_than from history

-- `attached` says whether the spectator is in the map `subs`. `channel` is what is in its buffer,
-- `received` what its reader has taken from it, and `from` the id that it subscribed with.
pub record Sub : Type 0 where
  pub from : Bytes
  pub initial : List Delta
  pub channel : List Delta
  pub received : List Delta
  pub kicked : Bool
  pub attached : Bool

-- The events that Metrics counts.
pub record Metrics : Type 0 where
  pub subs_added : ℕ
  pub subs_removed : ℕ
  pub subs_dropped : ℕ
  pub broadcasts : ℕ

pub record Hub : Type 0 where
  pub history : List Delta
  pub subs : List Sub
  pub metrics : Metrics

-- attach: the new spectator is the last of the list.
unfoldable pub attach : Bytes → Hub → Hub
unfolding filter_after
attach from h =
    let s : Sub = record {
      from = from;
      initial = filter_after h.history from;
      channel = [];
      received = [];
      kicked = false;
      attached = true;
    } in
    let m : Metrics = h.metrics in
    record h { subs = h.subs ++ s ∷ []; metrics = record m { subs_added = m.subs_added + 1 } }

-- `delete(h.subs, s)` and SubRemoved, if the spectator is there.
abbrev pub remove_sub : Sub → Metrics → Sub × Metrics
remove_sub s m =
    if s.attached
    then (record s { attached = false }, record m { subs_removed = m.subs_removed + 1 })
    else (s, m)

-- The spectator at position `i`.
unfoldable pub detach_at : ℕ → List Sub → Metrics → List Sub × Metrics
detach_at i [] m = ([], m)
detach_at zero (s ∷ subs) m = let (s', m') = remove_sub s m in (s' ∷ subs, m')
detach_at (suc i) (s ∷ subs) m = let (subs', m') = detach_at i subs m in (s ∷ subs', m')

unfoldable pub detach : ℕ → Hub → Hub
unfolding detach_at
detach i h = let (subs, m) = detach_at i h.subs h.metrics in record h { subs = subs; metrics = m }

-- `len(h.subs)`
unfoldable pub count_attached : List Sub → ℕ
count_attached [] = 0
count_attached (s ∷ subs) = (if s.attached then 1 else 0) + count_attached subs

unfoldable pub is_hub_empty : Hub → Bool
unfolding count_attached
is_hub_empty h = count_attached h.subs == 0

-- One round of the loop of broadcast: the delta is queued, or the spectator is dropped.
unfoldable pub deliver : Delta → Sub → Metrics → Sub × Metrics
deliver d s m =
    if s.attached
    then if ltb (length s.channel) send_buffer
      then (record s { channel = s.channel ++ d ∷ [] }, m)
      else (
        record s { attached = false; kicked = true },
        record m { subs_removed = m.subs_removed + 1; subs_dropped = m.subs_dropped + 1 },
      )
    else (s, m)

unfoldable pub deliver_all : Delta → List Sub → Metrics → List Sub × Metrics
unfolding deliver
deliver_all d [] m = ([], m)
deliver_all d (s ∷ subs) m =
    let (s', m') = deliver d s m in let (subs', m'') = deliver_all d subs m' in (s' ∷ subs', m'')

unfoldable pub broadcast : Delta → Hub → Hub
unfolding deliver_all
broadcast d h =
    let m = h.metrics in
    let (subs, m') = deliver_all d h.subs (record m { broadcasts = m.broadcasts + 1 }) in
    record { history = h.history ++ d ∷ []; subs = subs; metrics = m' }

-- The reader of a spectator takes the next delta from its channel, if there is one.
abbrev pub take_next : Sub → List Delta → Sub
take_next s [] = s
take_next s (d ∷ ds) = record s { channel = ds; received = s.received ++ d ∷ [] }

unfoldable pub receive_at : ℕ → List Sub → List Sub
receive_at i [] = []
receive_at zero (s ∷ subs) = take_next s s.channel ∷ subs
receive_at (suc i) (s ∷ subs) = s ∷ receive_at i subs

unfoldable pub receive : ℕ → Hub → Hub
unfolding receive_at
receive i h = record h { subs = receive_at i h.subs }

-- loadHistory of a new hub. `none` is a failed Replay. The result has the id to tail from.
unfoldable pub load_entries : List Entry → List Delta → Bytes → List Delta × Bytes
unfolding delta_from
load_entries [] history start = (history, start)
load_entries (e ∷ es) history start = load_entries es (history ++ delta_from e ∷ []) e.id

unfoldable pub load_history : Option (List Entry) → List Delta → List Delta × Bytes
unfolding load_entries
load_history none history = (history, codes "0")
load_history (some entries) history = load_entries entries history (codes "0")

-- The hub that Subscribe opens for a game.
unfoldable pub new_hub : Option (List Entry) → Hub
unfolding load_history
new_hub replayed = record {
  history = (load_history replayed []).0;
  subs = [];
  metrics = record { subs_added = 0; subs_removed = 0; subs_dropped = 0; broadcasts = 0 };
}

-- The loop over the entries of one Read: each is broadcast, and its id is the next to read from.
unfoldable pub broadcast_entries : List Entry → Bytes → Hub → Hub × Bytes
unfolding broadcast delta_from
broadcast_entries [] last_id h = (h, last_id)
broadcast_entries (e ∷ es) last_id h = broadcast_entries es e.id (broadcast (delta_from e) h)

-- One round of the loop of run. `none` is a failed Read, which is tried again.
unfoldable pub run_round : Option (List Entry) → Bytes → Hub → Hub × Bytes
unfolding broadcast_entries
run_round none last_id h = (h, last_id)
run_round (some entries) last_id h = broadcast_entries entries last_id h
