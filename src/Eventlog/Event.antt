-- ===== src/Eventlog/Event.antt =====
-- A move event and the fields of its stream entry: pkg/eventlog/event.go.
use alekhines_counter_gambit.Base.{Bool, Option, [], false, none, refl, some, true, ◌||◌, ◌∷◌, ◌≡◌}
use alekhines_counter_gambit.Base.Decimal.{atoi, itoa_int}
use alekhines_counter_gambit.Base.Decimal.RoundTrip.{IsInt, atoi-itoa_int}
use alekhines_counter_gambit.Base.Int.{ℤ}
use alekhines_counter_gambit.Base.Text.{Bytes, StringMap, bytes_eq, codes, get_string}

pub record MoveEvent : Type 0 where
  pub game_id : Bytes
  pub ply : ℤ
  pub uci : Bytes
  pub fen_after : Bytes
  pub status : Bytes
  pub end_reason : Bytes
  pub ended : Bool

pub record Entry : Type 0 where
  pub id : Bytes
  pub event : MoveEvent

-- `strconv.FormatBool`
abbrev pub format_bool : Bool → Bytes
format_bool true = codes "true"
format_bool false = codes "false"

unfoldable pub event_fields : MoveEvent → StringMap
unfolding itoa_int
event_fields e =
    (codes "game_id", e.game_id)
    ∷ (codes "ply", itoa_int e.ply)
    ∷ (codes "uci", e.uci)
    ∷ (codes "fen_after", e.fen_after)
    ∷ (codes "status", e.status)
    ∷ (codes "end_reason", e.end_reason)
    ∷ (codes "ended", format_bool e.ended)
    ∷ []

-- `strconv.ParseBool` with its error dropped: an unknown text gives false.
unfoldable pub parse_bool : Bytes → Bool
parse_bool s =
    bytes_eq s (codes "1")
    || (bytes_eq s (codes "t")
        || (bytes_eq s (codes "T")
            || (bytes_eq s (codes "true")
                || (bytes_eq s (codes "True") || bytes_eq s (codes "TRUE")))))

abbrev pub event_with : StringMap → Option ℤ → Option MoveEvent
event_with m none = none
event_with m (some ply) = some (record {
  game_id = get_string (codes "game_id") m;
  ply = ply;
  uci = get_string (codes "uci") m;
  fen_after = get_string (codes "fen_after") m;
  status = get_string (codes "status") m;
  end_reason = get_string (codes "end_reason") m;
  ended = parse_bool (get_string (codes "ended") m);
})

-- `none` is the error on a ply that is no number.
unfoldable pub decode_event : StringMap → Option MoveEvent
unfolding get_string parse_bool atoi
decode_event m = event_with m (atoi (get_string (codes "ply") m))

parse_bool-format : (b : Bool) → parse_bool (format_bool b) ≡ b
unfolding parse_bool
parse_bool-format true = refl
parse_bool-format false = refl

-- An event whose ply is an int64 is read back from the fields of its stream entry.
pub decode_event-event_fields :
    (e : MoveEvent) → IsInt e.ply → decode_event (event_fields e) ≡ some e
unfolding decode_event event_fields
decode_event-event_fields e h = rw (atoi-itoa_int e.ply h, parse_bool-format e.ended)
