-- ===== src/Eventlog/Examples.antt =====
-- The laws of the move events and of the relay at events of pkg/eventlog/event_test.go.
use alekhines_counter_gambit.Base.{[], arith, false, inl, inr, refl, some, true, ◌==◌, ◌∷◌, ◌≡◌}
use alekhines_counter_gambit.Base.All.{All, cons, nil}
use alekhines_counter_gambit.Base.Decimal.{atoi}
use alekhines_counter_gambit.Base.Int.{pos}
use alekhines_counter_gambit.Base.Text.{codes, get_string}
use alekhines_counter_gambit.Eventlog.Event.{
  MoveEvent, decode_event, decode_event-event_fields, event_fields,
}
use alekhines_counter_gambit.Eventlog.Relay.{Cycle, Pipe, drain_once, run_relay}
use alekhines_counter_gambit.Eventlog.Relay.Delivery.{
  IsLogged, drain_once_lem, drained, item_of, run_relay-IsLogged,
}
use alekhines_counter_gambit.Eventlog.Relay.Liveness.{
  any_cycle, clean_cycle, no_cycles, run_relay-Fair,
}
use alekhines_counter_gambit.Eventlog.Stream.{decode, decode-slot_message, message_of, text_values}
use alekhines_counter_gambit.Store.{OutboxRow}
use mathlib.Core.List.{Memᴰ}

abbrev pub king_pawn_event : MoveEvent
king_pawn_event = record {
  game_id = codes "g1";
  ply = pos 1;
  uci = codes "e2e4";
  fen_after = codes "rnbqkbnr/pppppppp/8/8/4P3/8/PPPP1PPP/RNBQKBNR b KQkq e3 0 1";
  status = codes "IN_PROGRESS";
  end_reason = [];
  ended = false;
}

decode_event-event_fields_example :
    decode_event (event_fields king_pawn_event) ≡ some king_pawn_event
decode_event-event_fields_example = decode_event-event_fields king_pawn_event (omega arith)

decode-slot_message_example :
    decode (
      message_of (record { id = codes "1-0"; event = king_pawn_event })
      ∷ record { id = codes "2-0"; values = [] }
      ∷ [])
    ≡ record { id = codes "1-0"; event = king_pawn_event } ∷ []
unfolding text_values decode_event get_string atoi
decode-slot_message_example =
    decode-slot_message
      (inl (record { id = codes "1-0"; event = king_pawn_event })
        ∷ inr (record { id = codes "2-0"; values = [] })
        ∷ [])
      (cons (omega arith) (cons refl nil))

abbrev waiting_row : OutboxRow
waiting_row = record {
  id = 4;
  game_id = codes "g1";
  ply = 1;
  uci = codes "e2e4";
  fen_after = codes "rnbqkbnr/pppppppp/8/8/4P3/8/PPPP1PPP/RNBQKBNR b KQkq e3 0 1";
  status = codes "IN_PROGRESS";
  end_reason = [];
  ended = false;
}

abbrev backlog : Pipe
backlog = record {
  db = record {
    games = [];
    moves = [];
    outbox = (waiting_row, false) ∷ (record waiting_row { id = 7; ply = 2 }, false) ∷ [];
    next_outbox_id = 8;
    now = 0;
  };
  log = [];
}

abbrev half_failing : Cycle
half_failing = record { fetch_down = false; append_down = λ r. r.ply == 2; mark_down = true }

abbrev clean : Cycle
clean = record { fetch_down = false; append_down = λ r. false; mark_down = false }

run_relay-Fair_example :
    All
      (λ row.
        (row.1 ≡ true)
        × Memᴰ (item_of row.0) (run_relay true (half_failing ∷ clean ∷ []) backlog).log)
      (run_relay true (half_failing ∷ clean ∷ []) backlog).db.outbox
run_relay-Fair_example =
    run_relay-Fair 1 (half_failing ∷ clean ∷ []) backlog
      (any_cycle
        (clean_cycle (record { fetches = refl; appends = λ r. refl; marks = refl }) no_cycles))
      (omega arith) (omega arith, (omega arith, omega arith))
      (cons (λ e. absurd (cc)) (cons (λ e. absurd (cc)) nil))

run_relay-IsLogged_example : IsLogged (run_relay true (half_failing ∷ []) backlog)
run_relay-IsLogged_example =
    run_relay-IsLogged true (half_failing ∷ []) backlog (omega arith, (omega arith, omega arith))
      (cons (λ e. absurd (cc)) (cons (λ e. absurd (cc)) nil))

drain_once_lem_example : (drain_once half_failing backlog).2 ≡ drained half_failing backlog
drain_once_lem_example =
    drain_once_lem half_failing backlog (omega arith, (omega arith, omega arith))
