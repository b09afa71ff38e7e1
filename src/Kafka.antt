-- ===== src/Kafka.antt =====
-- crates/canal-connector/src/kafka.rs: `KafkaConnector`, which sends events as JSON.
pub mod Sending
mod Tests
use canal_rust.Prelude.{
  ℕ, zero, suc, ◌+◌, ◌-◌, Option, none, some, Bool, true, false, not, List, [], ◌∷◌, ◌++◌, map,
  length, filter, ltb, if◌then◌else◌,
}
use canal_rust.Prelude.Bytes.{Text, bytes, decimal}
use canal_rust.Prelude.Int.{ℤ}
use canal_rust.Common.CanalError.{CanalError, CanalResult, Result, ok, err}
use canal_rust.Common.Event.{ColumnValue, RowData, RowChange, CanalEvent, as_str, dml_as_str}

pub record KafkaColumn : Type 0 where
  pub name : Text
  pub value : Option Text
  pub is_key : Bool
  pub updated : Bool

pub record KafkaRowChange : Type 0 where
  pub dml_type : Text
  pub before : Option (List KafkaColumn)
  pub after : Option (List KafkaColumn)

pub record KafkaPayload : Type 0 where
  pub schema : Text
  pub table : Text
  pub event_type : Text
  pub position : ℕ
  pub journal : Text
  pub server_id : ℕ
  pub execute_time : ℤ
  pub gtid : Option Text
  pub row_change : Option KafkaRowChange
  pub ddl_sql : Option Text

pub record KafkaConfig : Type 0 where
  pub servers : Text
  pub topic : Text
  pub ssl_ca_location : Option Text
  pub sasl_username : Option Text
  pub sasl_password : Option Text
  pub sasl_mechanism : Option Text

unfoldable pub new_config : Text → Text → KafkaConfig
new_config servers topic = record {
  servers = servers;
  topic = topic;
  ssl_ca_location = none;
  sasl_username = none;
  sasl_password = none;
  sasl_mechanism = none;
}

-- `producer` is whether there is one.
pub record KafkaConnector : Type 0 where
  pub name : Text
  pub producer : Bool
  pub config : KafkaConfig

unfoldable pub new : Text → KafkaConfig → CanalResult KafkaConnector
new name config = ok (record { name = name; producer = false; config = config })

unfoldable pub before_column : ColumnValue → KafkaColumn
before_column c = record { name = c.name; value = c.value; is_key = c.is_key; updated = false }

unfoldable pub after_column : ColumnValue → KafkaColumn
after_column c = record { name = c.name; value = c.value; is_key = c.is_key; updated = c.updated }

abbrev pub image : (ColumnValue → KafkaColumn) → Option RowData → Option (List KafkaColumn)
image f none = none
image f (some r) = some (map f r.columns)

unfoldable pub row_change_of : Option RowChange → Option KafkaRowChange
unfolding before_column after_column
row_change_of none = none
row_change_of (some rc) = some (record {
  dml_type = dml_as_str rc.dml_type;
  before = image before_column rc.before;
  after = image after_column rc.after;
})

unfoldable pub payload_of : CanalEvent → KafkaPayload
unfolding row_change_of
payload_of event = record {
  schema = event.schema_name;
  table = event.table_name;
  event_type = as_str event.entry_type;
  position = event.position;
  journal = event.journal_name;
  server_id = event.server_id;
  execute_time = event.execute_time;
  gtid = event.gtid;
  row_change = row_change_of event.row_change;
  ddl_sql = event.ddl_sql;
}

-- The settings of `rdkafka`'s `ClientConfig`, in the order of the calls of `set`
security_protocol : Bool → Bool → List (Text × Text)
security_protocol true true = (bytes "security.protocol", bytes "SASL_SSL") ∷ []
security_protocol true false = (bytes "security.protocol", bytes "SSL") ∷ []
security_protocol false true = (bytes "security.protocol", bytes "SASL_PLAINTEXT") ∷ []
security_protocol false false = []

abbrev is_some : Option Text → Bool
is_some none = false
is_some (some t) = true

abbrev set_if : Text → Option Text → List (Text × Text)
set_if key none = []
set_if key (some value) = (key, value) ∷ []

abbrev unwrap_or : Option Text → Text → Text
unwrap_or none d = d
unwrap_or (some t) d = t

sasl_settings : KafkaConfig → Option Text → List (Text × Text)
sasl_settings config none = []
sasl_settings config (some user) =
    (bytes "sasl.username", user)
    ∷ (set_if (bytes "sasl.password") config.sasl_password
        ++ (bytes "sasl.mechanism", unwrap_or config.sasl_mechanism (bytes "PLAIN")) ∷ [])

unfoldable pub settings : KafkaConfig → List (Text × Text)
unfolding security_protocol sasl_settings
settings config =
    (bytes "bootstrap.servers", config.servers)
    ∷ (bytes "message.timeout.ms", bytes "5000")
    ∷ (bytes "acks", bytes "1")
    ∷ (security_protocol (is_some config.ssl_ca_location) (is_some config.sasl_username)
        ++ (set_if (bytes "ssl.ca.location") config.ssl_ca_location
            ++ sasl_settings config config.sasl_username))

-- How `connect` fails: creating the producer, joining the blocking task, reading the metadata
pub data Failure : Type 0 where
  creating joining metadata : Text → Failure

connect_error : Failure → CanalError
connect_error (creating e) = CanalError.internal (bytes "Kafka producer: " ++ e)
connect_error (joining e) = CanalError.internal (bytes "Kafka metadata join error: " ++ e)
connect_error (metadata e) = CanalError.internal (bytes "Kafka metadata: " ++ e)

connected : Result (Unit {0}) Failure → KafkaConnector → CanalResult (Unit {0}) × KafkaConnector
unfolding connect_error
connected (err failure) k = (err (connect_error failure), k)
connected (ok u) k = (ok tt, record k { producer = true })

-- `attempt` is what `rdkafka` does with the settings and the topic.
unfoldable pub connect :
    (List (Text × Text) → Text → Result (Unit {0}) Failure)
    → KafkaConnector
    → CanalResult (Unit {0}) × KafkaConnector
unfolding connected
connect attempt k = connected (attempt (settings k.config) k.config.topic) k

unfoldable pub close : KafkaConnector → CanalResult (Unit {0}) × KafkaConnector
close k = (ok tt, record k { producer = false })

unfoldable pub messages_failed : Text → ℕ → ℕ → CanalError
messages_failed name failed total = CanalError.internal (
    bytes "Kafka '"
    ++ (name
        ++ (bytes "': "
            ++ (decimal failed ++ (bytes "/" ++ (decimal total ++ bytes " messages failed"))))))

-- `to_json` is `serde_json::to_string`, and `delivered` says whether the `n`-th send of a call succeeds.
module _ (to_json : KafkaPayload → Option Text) (delivered : ℕ → Bool) where
  abbrev pub keyed : Text → Option Text → List (Text × Text)
  keyed schema none = []
  keyed schema (some json) = (schema, json) ∷ []

  -- The keys and the payloads
  unfoldable pub serialize_events : List CanalEvent → List (Text × Text)
  serialize_events [] = []
  serialize_events (event ∷ events) =
      keyed event.schema_name (to_json (payload_of event)) ++ serialize_events events

  -- How many of the sends from the `n`-th on fail
  unfoldable pub failures : ℕ → List (Text × Text) → ℕ
  failures n [] = 0
  failures n (message ∷ messages) = (if delivered n then 0 else 1) + failures (n + 1) messages

  -- The result, and what was given to the producer
  unfoldable pub dispatch :
      List CanalEvent → KafkaConnector → CanalResult (Unit {0}) × List (Text × Text)
  dispatch [] k = (ok tt, [])
  dispatch (event ∷ events) k =
      let messages = serialize_events (event ∷ events) in
      let failed = failures 0 messages in
      if not k.producer
      then (err (CanalError.internal (bytes "KafkaConnector: not connected")), [])
      else if ltb 0 failed
      then (err (messages_failed k.name failed (length (event ∷ events))), messages)
      else (ok tt, messages)
