-- ===== src/Kafka/Tests.antt =====
-- A concrete connector for crates/canal-connector/src/kafka.rs.
use canal_rust.Prelude.{
  ℕ, map, ◌≡◌, ◌↔◌, refl, Option, none, some, Bool, true, List, [], ◌∷◌, not, ◌==◌, is_empty,
  if◌then◌else◌,
}
use canal_rust.Prelude.Bytes.{Text, bytes}
use canal_rust.Prelude.Int.{pos}
use canal_rust.Common.CanalError.{ok}
use canal_rust.Common.Event.{EventType, CanalEvent, as_str}
use canal_rust.Kafka.{
  KafkaPayload, KafkaConnector, new_config, settings, serialize_events, payload_of, dispatch,
}
use canal_rust.Kafka.Sending.{AllDelivered, message, present, dispatch_iff}

abbrev event : Text → CanalEvent
event table = record {
  journal_name = bytes "b.1";
  position = 4;
  server_id = 1;
  execute_time = pos 0;
  entry_type = EventType.insert;
  schema_name = bytes "db";
  table_name = table;
  row_change = none;
  ddl_sql = none;
  gtid = none;
  raw_bytes = [];
}

-- A text for every event of a named table
abbrev to_json : KafkaPayload → Option Text
to_json p = if is_empty p.table then none else some p.event_type

abbrev second_fails : ℕ → Bool
second_fails n = not (n == 1)

abbrev connector : KafkaConnector
connector = record {
  name = bytes "k";
  producer = true;
  config = new_config (bytes "localhost:9092") (bytes "canal");
}

abbrev events : List CanalEvent
events = event (bytes "a") ∷ event [] ∷ event (bytes "b") ∷ []

plain_settings :
    settings connector.config
    ≡ (bytes "bootstrap.servers", bytes "localhost:9092")
      ∷ (bytes "message.timeout.ms", bytes "5000")
      ∷ (bytes "acks", bytes "1")
      ∷ []
unfolding settings new_config
plain_settings = refl

two_messages :
    serialize_events to_json second_fails events
    ≡ (bytes "db", bytes "INSERT") ∷ (bytes "db", bytes "INSERT") ∷ []
unfolding serialize_events payload_of as_str bytes
two_messages = refl

dispatch_iff_example :
    let r = dispatch to_json second_fails events connector in
    let messages = present to_json second_fails (map (message to_json second_fails) events) in
    (r.1 ≡ messages) × ((r.0 ≡ ok tt) ↔ AllDelivered to_json second_fails 0 messages)
dispatch_iff_example = dispatch_iff to_json second_fails events connector refl
