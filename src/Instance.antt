-- ===== src/Instance.antt =====
-- crates/canal-instance/src/instance.rs: `CanalInstance`, a sink with its store and a running flag.
pub mod Manager
pub mod Running
pub mod Ingest
pub mod Batches
pub mod Stopped
mod Tests
use canal_rust.Prelude.{ℕ, Option, none, some, Bool, true, false, List, ◌++◌, if◌then◌else◌}
use canal_rust.Prelude.Bytes.{Text, bytes}
use canal_rust.Common.CanalError.{CanalError, CanalResult, Result, ok, err, ◌>>=◌, map_err}
use canal_rust.Common.Event.{CanalEvent}
use canal_rust.Common.Events.{Events}
use canal_rust.Common.LogPosition.{LogPosition}
use canal_rust.Common.Regex.{RegexLib, FilterPattern}
use canal_rust.Filter.{with_blacklist}
use canal_rust.Store
use canal_rust.Store.{MemoryEventStore}
use canal_rust.Sink
use canal_rust.Metrics.{CanalMetrics}
use canal_rust.Sink.{DefaultEventSink, sink}

pub record InstanceConfig : Type 0 where
  pub destination : Text
  pub mysql_host : Text
  pub mysql_port : ℕ
  pub mysql_username : Text
  pub mysql_password : Text
  pub mysql_server_id : ℕ
  pub start_position : LogPosition
  pub filter : FilterPattern
  pub store_buffer_size : ℕ
  pub connector_names : List Text

-- The store that the instance shares with its sink is the sink's.
pub record CanalInstance (Regex : Type 0) : Type 0 where
  pub config : InstanceConfig
  pub sink : DefaultEventSink Regex
  pub running : Bool

unfoldable pub destination : {R : Type 0} → CanalInstance R → Text
destination i = i.config.destination

unfoldable pub store : {R : Type 0} → CanalInstance R → MemoryEventStore
store i = i.sink.store

-- `CanalLifecycle for CanalInstance`
unfoldable pub start : {R : Type 0} → CanalInstance R → CanalResult (Unit {0}) × CanalInstance R
start i = (ok tt, record i { running = true })

unfoldable pub stop : {R : Type 0} → CanalInstance R → CanalResult (Unit {0}) × CanalInstance R
stop i = (ok tt, record i { running = false })

unfoldable pub is_running : {R : Type 0} → CanalInstance R → Bool
is_running i = i.running

unfoldable pub not_running : Text → CanalError
not_running name =
    CanalError.internal
      (bytes "instance '" ++ (name ++ bytes "' is not running — cannot feed events"))

-- `self.sink.sink(events).await?; Ok(())`
unfoldable pub fed :
    {R : Type 0}
    → CanalInstance R
    → CanalResult Events × DefaultEventSink R
    → CanalResult (Unit {0}) × CanalInstance R
fed i (ok events, s) = (ok tt, record i { sink = s })
fed i (err e, s) = (err e, record i { sink = s })

module _ (lib : RegexLib) where
  open lib use {Regex, Error, display}

  invalid_filter : InstanceConfig → Error → CanalError
  invalid_filter config e =
      CanalError.config
        (bytes "Invalid filter pattern '" ++ (config.filter.pattern ++ (bytes "': " ++ display e)))

  with_store :
      CanalMetrics
      → InstanceConfig
      → List Text
      → MemoryEventStore
      → CanalResult (CanalInstance Regex)
  unfolding invalid_filter
  with_store recorder config connectors created = do
    event_filter ←
        map_err (invalid_filter config)
          (with_blacklist lib config.filter.pattern config.filter.black_list)
    ok (record {
      config = config;
      sink = Sink.new recorder created event_filter connectors;
      running = false;
    })

  -- `none` is the panic of `MemoryEventStore::new`.
  unfoldable pub new :
      CanalMetrics → InstanceConfig → List Text → Option (CanalResult (CanalInstance Regex))
  unfolding with_store
  new recorder config connectors = elim (Store.new config.store_buffer_size) [
    | none ↦ none
    | some created ↦ some (with_store recorder config connectors created)
  ]

  unfoldable pub feed :
      List CanalEvent → CanalInstance Regex → CanalResult (Unit {0}) × CanalInstance Regex
  unfolding fed
  feed events i =
      if i.running
      then fed i (sink lib events i.sink)
      else (err (not_running i.config.destination), i)
