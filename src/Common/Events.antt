-- ===== src/Common/Events.antt =====
-- crates/canal-common/src/types.rs, lines 197 to 245: a batch of events with its position range.
use canal_rust.Prelude.{ℕ, Bool, List, [], ◌∷◌, length, is_empty, last_of}
use canal_rust.Prelude.Int.{ℤ}
use canal_rust.Common.LogPosition
use canal_rust.Common.LogPosition.{LogPosition, PositionRange, Key, binlog_suffix}
use canal_rust.Common.Event.{CanalEvent}

pub record Events : Type 0 where
  pub position_range : PositionRange
  pub events : List CanalEvent
  pub batch_id : ℤ

-- `LogPosition::new(&e.journal_name, e.position)` and `(binlog_suffix(&e.journal_name), e.position)`
unfoldable pub event_position : CanalEvent → LogPosition
unfolding LogPosition.new
event_position e = LogPosition.new e.journal_name e.position

abbrev pub event_key : CanalEvent → Key
event_key e = (binlog_suffix e.journal_name, e.position)

unfoldable pub new : ℤ → Events
new batch_id = record {
  position_range = record { start = LogPosition.new [] 0; end = LogPosition.new [] 0 };
  events = [];
  batch_id = batch_id;
}

unfoldable pub with_events : List CanalEvent → ℤ → Events
unfolding new event_position
with_events [] batch_id = new batch_id
with_events (e ∷ es) batch_id = record {
  position_range = record { start = event_position e; end = event_position (last_of e es) };
  events = e ∷ es;
  batch_id = batch_id;
}

abbrev pub has_none : Events → Bool
has_none batch = is_empty batch.events

abbrev pub len : Events → ℕ
len batch = length batch.events
