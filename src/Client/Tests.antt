-- ===== src/Client/Tests.antt =====
-- A concrete client for crates/canal-client/src/lib.rs.
use canal_rust.Prelude.{
  ◌≡◌, refl, Option, none, some, Bool, true, false, List, [], ◌∷◌, ◌++◌, map, arith, take, ltb,
}
use canal_rust.Prelude.Bytes.{Text, bytes}
use canal_rust.Prelude.Int.{ℤ, pos}
use canal_rust.Common.CanalError.{CanalError, CanalResult, Result, ok, err}
use canal_rust.Common.Event.{EventType, CanalEvent}
use canal_rust.Codec.{from_be_bytes, decode}
use canal_rust.Wire.Proto.{ProtoRowChange, Entry}
use canal_rust.Wire.Conversion.{
  proto_event_type, store_change, store_change_of, entry_of, canal_event_to_entry,
}
use canal_rust.Server.Connection.{Packet, Protobuf}
use canal_rust.Server.Fetch.{encode_events}
use canal_rust.Client.{Answers, CanalClient, new, sending}
use canal_rust.Client.Framing.{read_frame, as_read, read_frame-decode}
use canal_rust.Client.Poll
use canal_rust.Client.Poll.{
  Poll, deliver, back_off, sent_ok, forward, acknowledged, on_messages, on_response, turn,
  poll_loop, get_request, ack_request,
}
use canal_rust.Client.Turns.{acks, batches_in}
use canal_rust.Client.Delivery.{Progress, poll_loop-Progress}
use canal_rust.Client.EndToEnd.{IsCarried, IsUndisturbed, entry_event, arrived, turn-encode_events}

abbrev closed : CanalError
closed = CanalError.io (bytes "early eof")

-- A frame of two bytes and the start of the next one
abbrev input : Text
input = 0 ∷ 0 ∷ 0 ∷ 2 ∷ 7 ∷ 8 ∷ 0 ∷ []

read_frame-decode_example :
    read_frame closed input ≡ as_read closed (from_be_bytes (take 4 input)) (decode input)
read_frame-decode_example = read_frame-decode closed input

abbrev client : CanalClient
client = new 1001 (bytes "localhost") 11111

abbrev messages : ℤ → Packet
messages n = record { type_number = pos 7; body = 1 ∷ [] }

-- Answers whose batch 5 has two entries of one byte
abbrev answers : Answers
answers = record {
  decode_ack = λ t. ok [];
  decode_messages = λ t. ok (pos 5, (1 ∷ []) ∷ (2 ∷ []) ∷ []);
}

abbrev no_event : Text → CanalResult CanalEvent
no_event bs = err (CanalError.protocol bs)

-- The consumer takes three messages, and the responses are two batches and an answer without one.
abbrev at_start : Poll
at_start = Poll.start (record { sent = []; attempts = 0; fails_at = λ n. none }) (λ n. ltb n 3)

abbrev responses : List (CanalResult Packet)
responses =
    ok (messages (pos 5))
    ∷ ok (record { type_number = pos 9; body = [] })
    ∷ ok (messages (pos 5))
    ∷ ok (messages (pos 5))
    ∷ []

abbrev finished : Poll
finished = poll_loop answers no_event client responses at_start

-- One batch acknowledged, and one event of the next delivered
finished_lem :
    (acks finished.outgoing.sent ≡ pos 5 ∷ [])
    × (finished.delivered ≡ no_event (1 ∷ []) ∷ no_event (2 ∷ []) ∷ no_event (1 ∷ []) ∷ [])
    × (finished.slept ≡ 200 ∷ [])
unfolding poll_loop turn on_response on_messages acknowledged forward deliver back_off sent_ok
    sending get_request ack_request acks Poll.start new
finished_lem = (refl, refl, refl)

poll_loop-Progress_example :
    Progress answers no_event (batches_in answers no_event responses) at_start finished
poll_loop-Progress_example = poll_loop-Progress answers no_event client responses at_start

abbrev event : CanalEvent
event = record {
  journal_name = bytes "b.1";
  position = 18446744073709551615;
  server_id = 1;
  execute_time = pos 100;
  entry_type = EventType.insert;
  schema_name = bytes "db";
  table_name = bytes "t";
  row_change = none;
  ddl_sql = none;
  gtid = none;
  raw_bytes = [];
}

-- A protobuf library that knows the messages of this event.
abbrev encode_change : ProtoRowChange → Text
encode_change rc = 1 ∷ rc.sql

abbrev decode_change : Text → Option ProtoRowChange
decode_change bs = some (store_change (pos 1) event)

abbrev decode_entry : Text → Result Entry Text
decode_entry bs = ok (entry_of encode_change (pos 1) event)

abbrev protobuf : Protobuf
protobuf = record {
  decode_packet = λ t. err [];
  decode_auth = λ t. err [];
  decode_sub = λ t. err [];
  decode_get = λ t. err [];
  decode_ack = λ t. err [];
  decode_rollback = λ t. false;
  encode_entry = λ entry. 2 ∷ entry.store_value;
}

event-IsCarried : IsCarried protobuf encode_change decode_change decode_entry event
unfolding proto_event_type
event-IsCarried = record {
  t = pos 1;
  known = refl;
  position_fits = omega arith;
  server_id_fits = omega arith;
  some_bytes = refl;
  inner = refl;
  outer = refl;
}

abbrev entries : List Text
entries = (2 ∷ (1 ∷ [])) ∷ []

-- The answer that carries the event
abbrev carrying : Answers
carrying = record { decode_ack = λ t. ok []; decode_messages = λ t. ok (pos 5, entries) }

abbrev undisturbed : Poll
undisturbed = Poll.start (record { sent = []; attempts = 0; fails_at = λ n. none }) (λ n. true)

event-encode_events : encode_events protobuf encode_change (event ∷ []) ≡ ok entries
unfolding encode_events canal_event_to_entry proto_event_type store_change_of
event-encode_events = refl

undisturbed_lem : IsUndisturbed protobuf encode_change decode_change decode_entry undisturbed
unfolding Poll.start
undisturbed_lem = record { alive = λ n. refl; sends = λ n. refl }

abbrev one_turn : Bool × Poll
one_turn =
    turn carrying (entry_event protobuf encode_change decode_change decode_entry) client
      (ok (messages (pos 5))) undisturbed

turn-encode_events_example :
    (one_turn.0 ≡ true)
    × (one_turn.1.delivered
        ≡ undisturbed.delivered
          ++ map (arrived protobuf encode_change decode_change decode_entry) (event ∷ []))
    × (acks one_turn.1.outgoing.sent ≡ acks undisturbed.outgoing.sent ++ pos 5 ∷ [])
turn-encode_events_example =
    turn-encode_events protobuf encode_change decode_change decode_entry carrying client
      (event ∷ []) entries (pos 5) (messages (pos 5)) undisturbed (event-IsCarried, tt)
      event-encode_events refl refl undisturbed_lem
