-- ===== src/Client/Whole/Tests.antt =====
-- A concrete run of server and client for crates/canal-client/src/lib.rs: two events that lie behind
-- the cursor, two Gets of one event each, and the acknowledgement that the client sends for each.
use canal_rust.Prelude.{
  ◌-◌, ℕ, ◌<◌, inr, filter, All-filter, ◌≡◌, refl, Option, none, some, true, false, List, [], ◌∷◌,
  ◌++◌, map, arith,
}
use canal_rust.Prelude.Bytes.{Text, bytes, text_eq, parse_u64}
use canal_rust.Prelude.Int.{negsuc, pos}
use canal_rust.Common.CanalError.{Result, ok, err}
use canal_rust.Prelude.Words.{u64_as_i64, wrapping_inc}
use canal_rust.Wire.Proto.{ProtoRowChange, Entry, Header}
use canal_rust.Wire.Conversion.{
  proto_event_type, store_change, store_change_of, header_of, entry_of, canal_event_to_entry,
}
use canal_rust.Server.Connection.{ack_ok, Connection, Packet, Protobuf}
use canal_rust.Server.Fetch.{encode_events}
use canal_rust.Client.{Answers, CanalClient, new}
use canal_rust.Client.Poll
use canal_rust.Client.Poll.{
  Poll, deliver, back_off, sent_ok, forward, acknowledged, on_messages, on_response, turn,
  poll_loop, get_request, ack_request,
}
use canal_rust.Client.EndToEnd.{IsCarried, IsUndisturbed, entry_event, arrived}
use canal_rust.Server.Examples.{lib, one, served}
use canal_rust.Common.Events.{with_events}
use canal_rust.Prelude.Dict.{lookup, insert}
use canal_rust.Server.Sent.{sent_entries}
use canal_rust.Server.Session
use canal_rust.Server.Session.{get_session, register, update_ack}
use canal_rust.Server.Fetch.{answer_get, passes, start_of, fetch_size, lost_events}
use canal_rust.Store
use canal_rust.Store.{MemoryEventStore, get_pass}
use canal_rust.Store.Invariant.{empty}
use canal_rust.Store.Sorted.{IsSorted, behind}
use canal_rust.Store.Reads.{unread}
use canal_rust.Common.LogPosition
use canal_rust.Common.LogPosition.{binlog_suffix, key_leb}
use canal_rust.Common.Event.{EventType, CanalEvent}
use canal_rust.Client.Turns.{acks}
use canal_rust.Client.Poll.{
  deliver, sent_ok, forward, acknowledged, on_messages, on_response, turn, get_request, ack_request,
}
use canal_rust.Client.Whole.{Carry, poll_loop-answers}
use canal_rust.Server.Sequence
use canal_rust.Server.Sequence.{Request, count_gets}
use canal_rust.Server.Keeping.{cursor, shown}
use canal_rust.Server.Cursor.{acknowledge, handle_client_ack}

abbrev event : ℕ → CanalEvent
event n = record {
  journal_name = bytes "b.1";
  position = n;
  server_id = 1;
  execute_time = pos 100;
  entry_type = EventType.insert;
  schema_name = bytes "db";
  table_name = bytes "t";
  row_change = none;
  ddl_sql = none;
  gtid = none;
  raw_bytes = [];
}

abbrev encode_change : ProtoRowChange → Text
encode_change rc = 1 ∷ rc.sql

abbrev decode_change : Text → Option ProtoRowChange
decode_change bs = some (store_change (pos 1) (event 0))

-- The encoding of an entry is its offset and the bytes that it stores.
abbrev offset_of : Option Header → ℕ
offset_of none = 0
offset_of (some h) = elim h.logfile_offset [ pos n ↦ n | negsuc n ↦ 0 ]

abbrev decode_entry : Text → Result Entry Text
decode_entry [] = err []
decode_entry (n ∷ bs) = ok (entry_of encode_change (pos 1) (event n))

abbrev first_number : Text → ℕ
first_number [] = 0
first_number (n ∷ bs) = n

abbrev protobuf : Protobuf
protobuf = record {
  decode_packet = λ t. err [];
  decode_auth = λ t. err [];
  decode_sub = λ t. err [];
  decode_get = λ t. err [];
  decode_ack =
      λ t. ok (record { destination = []; client_id = []; batch_id = pos (first_number t) });
  decode_rollback = λ t. false;
  encode_entry = λ entry. offset_of entry.header ∷ entry.store_value;
}

abbrev KnowsEntry : ℕ → Type 0
KnowsEntry n =
    decode_entry (protobuf.encode_entry (entry_of encode_change (pos 1) (event n)))
    ≡ ok (entry_of encode_change (pos 1) (event n))

event-IsCarried :
    (n : ℕ)
    → n < 100
    → KnowsEntry n
    → IsCarried protobuf encode_change decode_change decode_entry (event n)
unfolding proto_event_type
event-IsCarried n h outer = record {
  t = pos 1;
  known = refl;
  position_fits = omega (arith, h);
  server_id_fits = omega arith;
  some_bytes = refl;
  inner = refl;
  outer = outer;
}

both_known : KnowsEntry 12 × KnowsEntry 13
unfolding header_of u64_as_i64
both_known = (refl, refl)

abbrev events : List CanalEvent
events = event 12 ∷ event 13 ∷ []

abbrev stored : MemoryEventStore
stored = record (empty 3) { buffer = events; batch_id_seq = pos 7 }

abbrev subscribed : Connection Text
subscribed = record served {
  sessions =
      register lib 7 (bytes "c") [] (record { pattern = bytes "db.t"; black_list = [] })
        Session.new;
  transport = record { sent = ack_ok ∷ ack_ok ∷ []; attempts = 2; fails_at = λ n. none };
}

abbrev undisturbed : Poll
undisturbed = Poll.start (record { sent = []; attempts = 0; fails_at = λ n. none }) (λ n. true)

abbrev requests : List Request
requests =
    Request.get one
    ∷ Request.ack (record { type_number = pos 8; body = 7 ∷ [] })
    ∷ Request.get one
    ∷ Request.ack (record { type_number = pos 8; body = 8 ∷ [] })
    ∷ []

abbrev client : CanalClient
client = new 1001 (bytes "localhost") 11111

program : Unit {0}
unfolding bytes text_eq parse_u64 binlog_suffix key_leb LogPosition.new behind start_of get_session
    passes register encode_events canal_event_to_entry proto_event_type store_change_of fetch_size
    lost_events lookup insert Session.new_session
program = tt

undisturbed_lem : IsUndisturbed protobuf encode_change decode_change decode_entry undisturbed
unfolding Poll.start
undisturbed_lem = record { alive = λ n. refl; sends = λ n. refl }

stored-IsSorted : IsSorted stored.buffer
unfolding program
stored-IsSorted = ((refl, tt), (tt, tt))

cursor_at_end : unread (cursor lib (bytes "c") subscribed).0 stored.buffer ≡ events
unfolding program
cursor_at_end = refl

let_through : filter (passes lib (get_session (bytes "c") subscribed.sessions)) events ≡ events
unfolding program
let_through = refl

abbrev carrying : Answers
carrying = record {
  decode_ack = λ t. ok [];
  decode_messages = λ t. ok (pos (first_number t - 5), (first_number t ∷ 1 ∷ []) ∷ []);
}

abbrev packets : List Packet
packets =
    record { type_number = pos 7; body = 12 ∷ [] }
    ∷ record { type_number = pos 7; body = 13 ∷ [] }
    ∷ []

carried_packets :
    Carry protobuf encode_change decode_change decode_entry carrying client
      (Sequence.answers lib protobuf encode_change
        (bytes "c")
        requests
        stored
        subscribed).transport.sent
      packets
unfolding program Sequence.answers answer_get get_pass Store.start_idx Store.sub_slice Store.end_idx
    Store.base_end canal_rust.Server.Fetch.deliver with_events canal_rust.Server.Connection.sending
    handle_client_ack acknowledge update_ack header_of u64_as_i64 LogPosition.key_eq wrapping_inc
carried_packets = (refl, refl, (refl, refl, tt))

only_acks : sent_entries subscribed.transport.sent ≡ []
unfolding sent_entries
only_acks = refl

poll_loop-answers_example :
    (poll_loop carrying
      (entry_event protobuf encode_change decode_change decode_entry)
      client
      (map (λ packet. ok packet) packets)
      undisturbed).delivered
    ≡ undisturbed.delivered
      ++ map
          (arrived protobuf encode_change decode_change decode_entry)
          (shown lib (bytes "c") subscribed events)
poll_loop-answers_example =
    poll_loop-answers protobuf encode_change decode_change decode_entry carrying client lib
      (bytes "c") requests stored subscribed events packets undisturbed stored-IsSorted refl
      (inr (LogPosition.new (bytes "b.1") 9, refl)) (λ k. refl) only_acks cursor_at_end
      (omega arith)
      (All-filter (IsCarried protobuf encode_change decode_change decode_entry)
        (passes lib (get_session (bytes "c") subscribed.sessions)) events
        (
          event-IsCarried 12 (omega arith) both_known.0,
          (event-IsCarried 13 (omega arith) both_known.1, tt),
        ))
      carried_packets undisturbed_lem

-- The client acknowledges the batches that the requests above acknowledge.
client_asks :
    acks
      (poll_loop carrying
        (entry_event protobuf encode_change decode_change decode_entry)
        client
        (map (λ packet. ok packet) packets)
        undisturbed).outgoing.sent
    ≡ pos 7 ∷ pos 8 ∷ []
unfolding poll_loop turn on_response on_messages acknowledged forward deliver sent_ok
    canal_rust.Client.sending get_request ack_request acks Poll.start
client_asks = refl
