-- ===== src/Server/Fetch.antt =====
-- crates/canal-server/src/server.rs: `handle_get`. `fetch` is the call of `store.get_batch` with its
-- waits: what it returns for a start and a size. `later` are the sessions after that wait.
use canal_rust.Prelude.{
  ℕ, Option, none, some, Bool, true, false, not, List, [], ◌∷◌, ◌++◌, ◌&&◌, filter, min, max,
  if◌then◌else◌,
}
use canal_rust.Prelude.Bytes.{Text, bytes}
use canal_rust.Prelude.Int.{ℤ, pos, negsuc}
use canal_rust.Common.CanalError.{CanalResult, ok, err, protocol, ◌>>=◌}
use canal_rust.Common.Event.{CanalEvent}
use canal_rust.Common.Events.{Events, has_none}
use canal_rust.Common.LogPosition
use canal_rust.Common.LogPosition.{LogPosition, lt, fmt}
use canal_rust.Common.Regex.{RegexLib}
use canal_rust.Server.Session.{ClientSession, SessionManager, get_session}
use canal_rust.Server.Connection.{
  Packet, Get, Protobuf, messages, ClientState, Connection, Handled, send, send_ack_err, decoded,
}
use canal_rust.Wire.Proto.{ProtoRowChange}
use canal_rust.Wire.Conversion.{canal_event_to_entry}

-- `usize::try_from(fetch_size).unwrap_or(100).clamp(1, 10_000)`
unfoldable pub fetch_size : ℤ → ℕ
fetch_size (pos n) = min (max n 1) 10000
fetch_size (negsuc n) = 100

abbrev pub default_start : LogPosition
default_start = LogPosition.new (bytes "mysql-bin.000001") 4

abbrev pub session_ack : {R : Type 0} → Option (ClientSession R) → Option LogPosition
session_ack none = none
session_ack (some s) = s.last_ack_position

-- Where the read starts, and whether that is a cursor of the client's own.
unfoldable pub start_of : Option LogPosition → Option LogPosition → LogPosition × Bool
start_of (some current) ack = (current, true)
start_of none (some ack) = (ack, true)
start_of none none = (default_start, false)

-- The watermark that the cursor lies below, if it does.
unfoldable pub lost_events : LogPosition × Bool → Option LogPosition → Option LogPosition
lost_events (start, own) none = none
lost_events (start, own) (some watermark) =
    if own && (is_none start.timestamp && lt start watermark) then some watermark else none
  where
    is_none : Option ℤ → Bool
    is_none none = true
    is_none (some t) = false

pub evicted_message : LogPosition → LogPosition → Text
evicted_message start watermark =
    bytes "cursor "
    ++ (fmt start
        ++ (bytes " is below the eviction watermark "
            ++ (fmt watermark ++ bytes " — events were dropped, reset the subscription")))

abbrev pub table_of : CanalEvent → Text
table_of event = event.schema_name ++ (bytes "." ++ event.table_name)

module _ (lib : RegexLib) where
  open lib use {Regex, is_match}

  abbrev pub is_none_or_match : Option Regex → Text → Bool
  is_none_or_match none table = true
  is_none_or_match (some re) table = is_match re table

  abbrev pub is_some_and_match : Option Regex → Text → Bool
  is_some_and_match none table = false
  is_some_and_match (some re) table = is_match re table

  unfoldable pub passes : Option (ClientSession Regex) → CanalEvent → Bool
  passes none event = true
  passes (some s) event =
      is_none_or_match s.compiled_pattern (table_of event)
      && not (is_some_and_match s.compiled_black_list (table_of event))

abbrev pub move_cursor : Events → ClientState → ClientState
move_cursor batch s = record s {
  current_pos = some batch.position_range.end;
  last_get_batch_id = batch.batch_id;
  last_get_end_pos = some batch.position_range.end;
}

abbrev pub send_messages : {R : Type 0} → ℤ → CanalResult (List Text) → Connection R → Handled R
send_messages batch_id (err e) c = (err e, c)
send_messages batch_id (ok entries) c = send (messages batch_id entries) c

module _ (protobuf : Protobuf) (encode_change : ProtoRowChange → Text) where
  unfoldable pub encode_events : List CanalEvent → CanalResult (List Text)
  encode_events [] = ok []
  encode_events (event ∷ events) = do
    entry ← canal_event_to_entry encode_change event
    rest ← encode_events events
    ok (protobuf.encode_entry entry ∷ rest)

module _ (lib : RegexLib) (protobuf : Protobuf) (encode_change : ProtoRowChange → Text)
    (watermark : Option LogPosition) (fetch : LogPosition → ℕ → CanalResult Events) where
  open lib use {Regex}

  -- What is sent for a batch: the events that pass the filter of the session, which may be none. A
  -- batch without events has the batch id 0 of `Messages::default()`.
  unfoldable pub deliver : Text → Events → Connection Regex → Handled Regex
  deliver cid batch c =
      if has_none batch
      then send (messages (pos 0) []) c
      else send_messages batch.batch_id
          (encode_events protobuf encode_change
            (filter (passes lib (get_session cid c.sessions)) batch.events))
          (record c { state = move_cursor batch c.state })

  abbrev pub with_batch : Text → CanalResult Events → Connection Regex → Handled Regex
  with_batch cid (err e) c = (err e, c)
  with_batch cid (ok batch) c = deliver cid batch c

  abbrev pub reading :
      Text
      → ℕ
      → SessionManager Regex
      → LogPosition × Bool
      → Option LogPosition
      → Connection Regex
      → Handled Regex
  reading cid size later start (some w) c = send_ack_err (evicted_message start.0 w) c
  reading cid size later start none c =
      with_batch cid (fetch start.0 size) (record c { sessions = later })

  abbrev pub named : Option Text → ℕ → SessionManager Regex → Connection Regex → Handled Regex
  named none size later c = (err (protocol (bytes "not authenticated — client_id missing")), c)
  named (some cid) size later c =
      let start = start_of c.state.current_pos (session_ack (get_session cid c.sessions)) in
      reading cid size later start (lost_events start watermark) c

  unfoldable pub answer_get : SessionManager Regex → Get → Connection Regex → Handled Regex
  answer_get later get c = named c.state.client_id (fetch_size get.fetch_size) later c

  unfoldable pub handle_get : Packet → SessionManager Regex → Connection Regex → Handled Regex
  handle_get packet later c =
      decoded (bytes "Get") (protobuf.decode_get packet.body) (answer_get later) c
