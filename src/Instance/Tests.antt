-- ===== src/Instance/Tests.antt =====
-- A concrete instance for crates/canal-instance/src/instance.rs and crates/canal-cli/src/main.rs.
use canal_rust.Prelude.{
  ◌++◌, ℕ, ◌≡◌, refl, none, some, true, false, List, [], ◌∷◌, arith, All, length,
}
use canal_rust.Prelude.Bytes.{Text, bytes, text_eq, parse_u64}
use canal_rust.Prelude.Int.{pos}
use canal_rust.Prelude.Dict.{insert, remove}
use canal_rust.Common.CanalError.{CanalError, ok, err}
use canal_rust.Common.Event.{EventType, CanalEvent}
use canal_rust.Common.Events.{event_position}
use canal_rust.Common.LogPosition
use canal_rust.Common.LogPosition.{binlog_suffix, key_leb}
use canal_rust.Common.Regex.{RegexLib}
use canal_rust.Filter.{matches}
use canal_rust.Store
use canal_rust.Metrics.{init_metrics}
use canal_rust.Store.{put_batch}
use canal_rust.Store.Sorted.{IsSorted, behind}
use canal_rust.Store.History.{flatten, Reaches}
use canal_rust.Store.Invariant.{empty, new-IsValid}
use canal_rust.Sink.{sink, keep}
use canal_rust.Sink.Pipeline.{passing}
use canal_rust.Instance.{CanalInstance, InstanceConfig, destination, feed, fed}
use canal_rust.Instance.Manager
use canal_rust.Instance.Manager.{
  InstanceManager, register, remove_instance, start_all, stop_all, running_count,
}
use canal_rust.Instance.Running.{Reached, created, registered, removed, running_count-start_all}
use canal_rust.Instance.Ingest.{
  Selected, received, tick, feed_batch, flush, on_selected, ingest_loop, ingest,
}
use canal_rust.Instance.Stopped.{idle, selects, restarted, ingest-stopped}
use canal_rust.Instance.Batches.{events_of, IsBatch, feed_all, ingest-feed_all, ingest-no_gap}

-- Patterns that match the one name that they are.
abbrev lib : RegexLib
lib = record {
  Regex = Text;
  Error = Text;
  build = λ limit t. ok t;
  compile = λ t. some t;
  is_match = text_eq;
  syntax = λ t. t;
  display = λ t. t;
}

abbrev event : Text → ℕ → CanalEvent
event table offset = record {
  journal_name = bytes "b.1";
  position = offset;
  server_id = 1;
  execute_time = pos 0;
  entry_type = EventType.insert;
  schema_name = bytes "db";
  table_name = table;
  row_change = none;
  ddl_sql = none;
  gtid = none;
  raw_bytes = [];
}

abbrev config : Text → InstanceConfig
config name = record {
  destination = name;
  mysql_host = bytes "localhost";
  mysql_port = 3306;
  mysql_username = bytes "canal";
  mysql_password = bytes "canal";
  mysql_server_id = 1001;
  start_position = LogPosition.new (bytes "b.1") 4;
  filter = record { pattern = bytes "db.users"; black_list = [] };
  store_buffer_size = 2;
  connector_names = [];
}

abbrev running_instance : CanalInstance Text
running_instance = record {
  config = config (bytes "default");
  sink = record {
    store = empty 2;
    event_filter = record { include = bytes "db.users"; exclude = none };
    connectors = [];
    metrics = init_metrics;
    requests = [];
  };
  running = true;
}

abbrev stopped_instance : CanalInstance Text
stopped_instance = record running_instance { running = false }

abbrev arrivals : List Selected
arrivals =
    received (ok (event (bytes "users") 4))
    ∷ received (ok (event (bytes "other") 6))
    ∷ tick
    ∷ received (err (CanalError.internal []))
    ∷ received (ok (event (bytes "users") 8))
    ∷ tick
    ∷ tick
    ∷ received (ok (event (bytes "users") 9))
    ∷ []

program : Unit {0}
unfolding bytes text_eq parse_u64 binlog_suffix key_leb LogPosition.new event_position matches sink
    keep put_batch Store.drain Store.split_off Store.drained Store.skipped Store.raise_watermark
    Store.raise_to Store.drain_count feed fed feed_batch flush on_selected ingest_loop ingest
    events_of destination Manager.new register insert remove
program = tt

ingest-feed_all_example :
    (batches : List (List CanalEvent)) × (flatten batches ≡ events_of arrivals)
    × All IsBatch batches
    × (ingest lib arrivals running_instance ≡ feed_all lib batches running_instance)
ingest-feed_all_example = ingest-feed_all lib arrivals running_instance

arrivals-IsSorted : IsSorted (passing lib running_instance.sink (events_of arrivals))
unfolding program
arrivals-IsSorted = ((refl, (refl, tt)), ((refl, tt), (tt, tt)))

at_watermark : Reaches (ingest lib arrivals running_instance).sink.store.evicted_watermark (1, 4)
unfolding program
at_watermark = refl

ingest-no_gap_example :
    behind (1, 4) (ingest lib arrivals running_instance).sink.store.buffer
    ≡ behind (1, 4) (passing lib running_instance.sink (events_of arrivals))
ingest-no_gap_example =
    ingest-no_gap lib arrivals 2 running_instance (1, 4) refl (new-IsValid 2 (omega arith)).0
      arrivals-IsSorted at_watermark

ingest-stopped_example :
    (ingest_loop lib arrivals
      (restarted lib (selects lib (arrivals ++ tick ∷ []) (idle lib stopped_instance)))).instance_
    ≡ ingest lib arrivals (canal_rust.Instance.start stopped_instance).1
ingest-stopped_example = ingest-stopped lib arrivals arrivals stopped_instance refl

abbrev two_instances : InstanceManager Text
two_instances =
    register (record stopped_instance { config = config (bytes "other") })
      (register stopped_instance (remove_instance (bytes "none") Manager.new).1)

two_instances-Reached : Reached two_instances
two_instances-Reached = registered _ (registered _ (removed (bytes "none") created))

running_count-start_all_example :
    ((start_all two_instances).0 ≡ ok tt)
    × (running_count (start_all two_instances).1 ≡ length two_instances.instances)
    × ((stop_all two_instances).0 ≡ ok tt)
    × (running_count (stop_all two_instances).1 ≡ 0)
running_count-start_all_example = running_count-start_all two_instances two_instances-Reached
