-- ===== src/Eventlog/Stream.antt =====
-- The streams of move events in Redis: pkg/eventlog/stream.go.
use alekhines_counter_gambit.Base.{
  Bool, List, Option, [], ap, false, inl, inr, map, none, refl, some, true, ◌++◌, ◌∷◌, ◌≡◌, ◌⊎◌,
}
use alekhines_counter_gambit.Base.All.{All, cons, nil}
use alekhines_counter_gambit.Base.Decimal.RoundTrip.{IsInt}
use alekhines_counter_gambit.Base.Text.{Bytes, StringMap, codes}
use alekhines_counter_gambit.Eventlog.Event.{
  Entry, MoveEvent, decode_event, decode_event-event_fields, event_fields,
}

-- The stream of a game.
abbrev pub key : Bytes → Bytes
key game_id = codes "game:" ++ (game_id ++ codes ":events")

-- What XADD has appended so far, each item with its stream.
abbrev pub StreamLog : Type 0
StreamLog = List (Bytes × StringMap)

abbrev pub added : MoveEvent → Bytes × StringMap
added e = (key e.game_id, event_fields e)

-- Append; `none` is an error. Without a client it does nothing.
unfoldable pub append_event : Bool → Bool → MoveEvent → StreamLog → Option StreamLog
unfolding event_fields
append_event false down e log = some log
append_event true true e log = none
append_event true false e log = some (log ++ added e ∷ [])

-- A value of a stream message: an `interface{}` that is a string, or is not.
pub data StreamValue : Type 0 where
  text_value : Bytes → StreamValue
  other_value : StreamValue

pub record Message : Type 0 where
  pub id : Bytes
  pub values : List (Bytes × StreamValue)

-- The string values.
unfoldable pub text_values : List (Bytes × StreamValue) → StringMap
text_values [] = []
text_values ((k, text_value s) ∷ values) = (k, s) ∷ text_values values
text_values ((k, other_value) ∷ values) = text_values values

abbrev pub with_entry : Bytes → Option MoveEvent → List Entry → List Entry
with_entry id none entries = entries
with_entry id (some e) entries = record { id = id; event = e } ∷ entries

unfoldable pub decode : List Message → List Entry
unfolding text_values decode_event
decode [] = []
decode (m ∷ messages) = with_entry m.id (decode_event (text_values m.values)) (decode messages)

-- The message that Redis keeps for an entry.
abbrev pub message_of : Entry → Message
message_of x = record {
  id = x.id;
  values = map (λ (k, v). (k, text_value v)) (event_fields x.event);
}

text_values-map : (m : StringMap) → text_values (map (λ (k, v). (k, text_value v)) m) ≡ m
unfolding text_values
text_values-map [] = refl
text_values-map ((k, v) ∷ m) = rw (text_values, text_values-map m) refl

-- A message of a batch: an entry that Append wrote, or one that is no event.
abbrev pub Slot : Type 0
Slot = Entry ⊎ Message

abbrev pub slot_message : Slot → Message
slot_message (inl x) = message_of x
slot_message (inr m) = m

abbrev pub slot_entries : List Slot → List Entry
slot_entries [] = []
slot_entries (inl x ∷ slots) = x ∷ slot_entries slots
slot_entries (inr m ∷ slots) = slot_entries slots

abbrev pub IsSlot : Slot → Type 0
IsSlot (inl x) = IsInt x.event.ply
IsSlot (inr m) = decode_event (text_values m.values) ≡ none

-- A batch of messages in which some were written by Append, of events whose ply is an int64, and the
-- others are no events is decoded to the events that were appended, with their ids and in their order.
pub decode-slot_message :
    (slots : List Slot) → All IsSlot slots → decode (map slot_message slots) ≡ slot_entries slots
unfolding decode
decode-slot_message [] nil = refl
decode-slot_message (inl x ∷ slots) (cons h hs) =
    rw (text_values-map (event_fields x.event), decode_event-event_fields x.event h)
      (ap (λ xs. x ∷ xs) (decode-slot_message slots hs))
decode-slot_message (inr m ∷ slots) (cons h hs) = rw h (decode-slot_message slots hs)
