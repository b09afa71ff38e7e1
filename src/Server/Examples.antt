-- ===== src/Server/Examples.antt =====
-- Concrete libraries, connections and stores for crates/canal-server/src/server.rs.
use canal_rust.Prelude.{ℕ, none, some, true, List, [], ◌∷◌}
use canal_rust.Prelude.Bytes.{Text, bytes, text_eq}
use canal_rust.Prelude.Int.{pos}
use canal_rust.Common.CanalError.{Result, ok, err}
use canal_rust.Common.Event.{EventType, CanalEvent}
use canal_rust.Common.Events
use canal_rust.Common.Events.{Events, event_position}
use canal_rust.Common.LogPosition
use canal_rust.Common.LogPosition.{LogPosition, binlog_suffix, key_leb, key_eq}
use canal_rust.Common.Regex.{RegexLib}
use canal_rust.Store.{MemoryEventStore}
use canal_rust.Store.Invariant.{empty}
use canal_rust.Server.Session
use canal_rust.Server.Session.{SessionManager, ClientSession, get_session, update_ack, register}
use canal_rust.Server.Connection.{Packet, Get, Protobuf, Transport, fresh, Connection}
use canal_rust.Server.Client.{Moment}
use canal_rust.Wire.Proto.{ProtoRowChange}

-- Patterns that match the one text that they are.
abbrev pub lib : RegexLib
lib = record {
  Regex = Text;
  Error = Text;
  build = λ limit t. ok t;
  compile = λ t. some t;
  is_match = text_eq;
  syntax = λ t. t;
  display = λ t. t;
}

abbrev split_packet : Text → Result Packet Text
split_packet [] = err []
split_packet (t ∷ body) = ok (record { type_number = pos t; body = body })

abbrev first_number : Text → ℕ
first_number [] = 0
first_number (n ∷ rest) = n

-- A packet is its type and its body, and a body is the one field that differs.
abbrev pub protobuf : Protobuf
protobuf = record {
  decode_packet = split_packet;
  decode_auth = λ bs. ok (record {
    password = bs;
    destination = [];
    client_id = bytes "c";
    filter = [];
    start_timestamp = pos 0;
  });
  decode_sub = λ bs. ok (record { destination = []; client_id = bs; filter = [] });
  decode_get =
      λ bs. ok (record { destination = []; client_id = []; fetch_size = pos (first_number bs) });
  decode_ack =
      λ bs. ok (record { destination = []; client_id = []; batch_id = pos (first_number bs) });
  decode_rollback = λ bs. true;
  encode_entry = λ entry. entry.store_value;
}

abbrev pub encode_change : ProtoRowChange → Text
encode_change rc = 1 ∷ rc.sql

abbrev pub transport : Transport
transport = record { sent = []; attempts = 0; fails_at = λ n. none }

abbrev pub connected : Connection Text
connected = record { state = fresh; sessions = Session.new; transport = transport }

abbrev pub moment : Moment Text
moment = record {
  now = 7;
  sessions = Session.new;
  watermark = none;
  fetch = λ start size. ok (Events.new (pos 0));
  later = Session.new;
}

abbrev pub registered : SessionManager Text
registered =
    register lib 7 (bytes "c") [] (record { pattern = bytes "."; black_list = [] }) Session.new

abbrev pub end : LogPosition
end = LogPosition.new (bytes "b.1") 9

abbrev pub served : Connection Text
served = record connected {
  state = record fresh {
    authenticated = true;
    client_id = some (bytes "c");
    current_pos = some end;
    last_get_batch_id = pos 3;
    last_get_end_pos = some end;
  };
  sessions = registered;
}

abbrev pub event : Text → ℕ → CanalEvent
event journal offset = record {
  journal_name = journal;
  position = offset;
  server_id = 1;
  execute_time = pos 0;
  entry_type = EventType.insert;
  schema_name = [];
  table_name = [];
  row_change = none;
  ddl_sql = none;
  gtid = none;
  raw_bytes = [];
}

abbrev pub rows : List CanalEvent
rows = event (bytes "b.1") 12 ∷ event (bytes "b.2") 4 ∷ []

abbrev pub store : MemoryEventStore
store = record (empty 3) { buffer = event (bytes "b.1") 9 ∷ rows }

abbrev pub one : Get
one = record { destination = []; client_id = []; fetch_size = pos 1 }
