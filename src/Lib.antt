-- ===== src/Lib.antt =====
-- canal-rust: a server that reads the binlog of a MySQL server as a replica, keeps the newest events
-- in memory and sends them to clients that subscribe over TCP.
--
-- The parts, and how they interact: crates/canal-binlog decodes the events of a replication stream
-- into `CanalEvent`s and puts them on a channel; crates/canal-cli takes them from there in batches and
-- feeds an instance of crates/canal-instance, which crates/canal-admin starts and stops; the sink of
-- the instance (crates/canal-sink) filters a batch and puts what is left into the store of
-- crates/canal-store; crates/canal-server decodes packets, keeps a session per client, reads the store
-- behind the cursor of a client and answers; crates/canal-client polls it and decodes the answers;
-- crates/canal-common has the types that all of them share.
--
-- Which file models which part:
--   Common.*              crates/canal-common/src/types.rs and error.rs: `LogPosition`, its order and
--                         `binlog_suffix`, events, batches (`Events`), `FilterPattern`, `CanalError`.
--   Store, Store.*        crates/canal-store/src/memory.rs: `MemoryEventStore` with `put_batch` and
--                         `get_batch`. Store.Window, Watermark, History: what `put_batch` keeps and
--                         reports as evicted. Store.Reads, Delivery: what `get_batch` answers.
--   Codec, Codec.*        crates/canal-server/src/codec.rs: `CanalCodec`.
--   Binlog.*              crates/canal-binlog/src: the table map, the converter, the column data and
--                         the texts of cells (Binlog.Value), the events that are sent for one binlog
--                         event, the replication loop, and the life of a connector with its tasks
--                         (Binlog.Lifecycle).
--   Wire.*                crates/canal-server/src/conversion.rs (`canal_event_to_entry`) and
--                         `entry_bytes_to_event` of crates/canal-client/src/lib.rs, over the messages
--                         of crates/canal-proto.
--   Server.*              crates/canal-server/src/session.rs (Server.Session) and server.rs: the
--                         state of a connection (Server.Connection), `handle_auth` and `handle_sub`
--                         (Server.Auth), `handle_get` (Server.Fetch), acknowledging, rolling back and
--                         heartbeats (Server.Cursor), `handle_client` (Server.Client), `CanalServer`
--                         and its accept loop (Server.Serve).
--   Client, Client.*      crates/canal-client/src/lib.rs: `CanalClient` and its handshake, the framing of
--                         packets (Client.Framing) and the polling task (Client.Poll); Client.EndToEnd
--                         takes what Server encodes to the consumer, and Client.FromStore and
--                         Client.Whole what the store holds.
--   Filter                crates/canal-filter/src/lib.rs: `EventFilter`.
--   Sink, Sink.*          crates/canal-sink/src/sink.rs: `DefaultEventSink`, and the worker that serves its
--                         connectors (Sink.Worker).
--   Kafka, Kafka.*        crates/canal-connector/src/kafka.rs: `KafkaConnector`.
--   Meta                  crates/canal-meta/src/lib.rs: `TableMeta` and `TableMetaCache`.
--   Config                crates/canal-cli/src/lib.rs: the configuration.
--   Instance, Instance.*  crates/canal-instance/src/instance.rs: `CanalInstance` and `InstanceManager`
--                         (Instance.Manager); Instance.Ingest is the task of
--                         crates/canal-cli/src/main.rs that feeds an instance.
--   Metrics, Metrics.*    crates/canal-prometheus/src/metrics_server.rs: `CanalMetrics` and
--                         `MetricsServer`.
--   Admin, Admin.*        the tests of the Authorization header in crates/canal-admin/src/lib.rs and
--                         crates/canal-prometheus/src/metrics_server.rs; the handlers of the Admin API
--                         (Admin.Handlers).
--
-- The state of a component is a record, and an operation takes it and returns the new one. The lock
-- that an operation holds is not modelled: one call is one step. A panic is `none`; an error is a
-- value of `Result`. Strings are their UTF-8 bytes. `u64` values are natural numbers, and a counter
-- of type `i64` wraps. A function that waits takes the list of what ends its waits: `get_batch` of
-- Store takes the wake-ups, and returns nothing while it still waits. A channel counts the attempts
-- to send, and a parameter says which of them find the receiver alive. What several owners share
-- through an `Arc` stands in a list, and the `Arc` is an index there (instances of a manager, the
-- tokens of replication tasks). The loop of `run_replication`
-- recurs on the list of the outcomes of the stream, and the polling task of the client on the list of
-- what its reads give. `handle_client` recurs on the list of what
-- arrives; with each item comes a `Moment`, what the other connections and the store do meanwhile.
--
-- Fuel: `read_all` of Store.Delivery polls once per unit, and `answers` of Server.Sequence once per
-- Get; as many as there are unread events are enough, since every answer has at least one event.
-- `receive` of Codec.Stream decodes at most as many packets per piece as its fuel says; one more than
-- the packets sent is enough.
--
-- Parameters: the text of a float (Binlog.Value), the regular expressions of the crate `regex`
-- (Common.Regex), the stream of the crate `mysql_cdc`, the encoding of messages by the crate `prost`
-- (Server.Connection.Protobuf, Client.Answers, and the arguments of Wire.RoundTrip), the producer of the
-- crate `rdkafka`, `serde_json` and `serde_yaml`, and the clock.
--
-- Not modelled: sockets, TLS, logging, the HTTP servers' routing, the `debug_assert!` of
-- `put_batch`, which builds for release do not check, the `reserve` of `encode`, the generated protobuf
-- code, and what PROJECT.json lists as not modelled.
pub mod Prelude
pub mod Common
pub mod Store
pub mod Codec
pub mod Binlog
pub mod Wire
pub mod Server
pub mod Filter
pub mod Sink
pub mod Instance
pub mod Client
pub mod Kafka
pub mod Meta
pub mod Metrics
pub mod Config
pub mod Admin
