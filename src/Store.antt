-- ===== src/Store.antt =====
-- crates/canal-store/src/memory.rs: `MemoryEventStore`, the bounded buffer of events that clients
-- read. An operation takes the store and returns the new one; locks are not modelled, since each
-- operation holds the buffer's lock while it reads and writes the state below.
pub mod Window
pub mod Sorted
pub mod Watermark
pub mod History
pub mod Invariant
pub mod Reads
pub mod Cuts
pub mod Delivery
mod Tests
use canal_rust.Prelude.{
  ℕ, ◌+◌, ◌-◌, Option, none, some, Bool, true, false, List, [], ◌∷◌, ◌++◌, length, take, drop,
  get_elem?, first?, last?, take_while, count_while, not, is_empty, ltb, leb, if◌then◌else◌, min,
  max,
}
use mathlib.Core.Option
use canal_rust.Prelude.Int.{ℤ, pos, leb_ℤ}
use canal_rust.Prelude.Words.{wrapping_inc}
use canal_rust.Common.CanalError.{CanalResult, ok}
use canal_rust.Common.LogPosition
use canal_rust.Common.LogPosition.{LogPosition, Key, key, key_leb, key_eq}
use canal_rust.Common.Event.{CanalEvent}
use canal_rust.Common.Events
use canal_rust.Common.Events.{Events, event_position, event_key}

pub record MemoryEventStore : Type 0 where
  pub buffer : List CanalEvent
  pub capacity : ℕ
  pub batch_id_seq : ℤ
  pub latest_position : Option LogPosition
  pub first_position : Option LogPosition
  pub evicted_watermark : Option LogPosition
  pub running : Bool
  -- how often `notify_waiters` was called
  pub notified : ℕ

-- `none` is the panic of `assert!(capacity > 0)`.
unfoldable pub new : ℕ → Option MemoryEventStore
new capacity =
    if ltb 0 capacity
    then some (record {
      buffer = [];
      capacity = capacity;
      batch_id_seq = pos 0;
      latest_position = none;
      first_position = none;
      evicted_watermark = none;
      running = false;
      notified = 0;
    })
    else none

-- `current.is_none_or(|cur| pos > cur)`, and then `current = Some(pos)`
unfoldable pub raise_to : Option LogPosition → LogPosition → Option LogPosition
raise_to none p = some p
raise_to (some cur) p = if LogPosition.gt p cur then some p else some cur

-- The oldest events that make room: how many, and the position of the last of them.
unfoldable pub drain_count : MemoryEventStore → List CanalEvent → ℕ
drain_count s events = min (length s.buffer + length events - s.capacity) (length s.buffer)

unfoldable pub drained : MemoryEventStore → List CanalEvent → Option LogPosition
unfolding drain_count
drained s events =
    if ltb s.capacity (length s.buffer + length events)
    then if ltb 0 (drain_count s events)
      then Option.map event_position (get_elem? s.buffer (drain_count s events - 1))
      else none
    else none

unfoldable pub drain : MemoryEventStore → List CanalEvent → List CanalEvent
unfolding drain_count
drain s events =
    if ltb s.capacity (length s.buffer + length events)
    then drop (drain_count s events) s.buffer
    else s.buffer

-- An oversized batch keeps its last `capacity` events.
unfoldable pub skipped :
    MemoryEventStore → List CanalEvent → Option LogPosition → Option LogPosition
skipped s events evicted =
    if ltb s.capacity (length events)
    then elim (get_elem? events (length events - s.capacity - 1)) [
      | none ↦ evicted
      | some last_dropped ↦ raise_to evicted (event_position last_dropped)
    ]
    else evicted

unfoldable pub split_off : MemoryEventStore → List CanalEvent → List CanalEvent
split_off s events =
    if ltb s.capacity (length events) then drop (length events - s.capacity) events else events

unfoldable pub raise_watermark : Option LogPosition → Option LogPosition → Option LogPosition
raise_watermark watermark none = watermark
raise_watermark watermark (some p) = raise_to watermark p

-- The front of the drained buffer or, if that is empty, of the new events.
unfoldable pub front_position : List CanalEvent → List CanalEvent → Option LogPosition
front_position [] events = Option.map event_position (first? events)
front_position (front ∷ buffer) events = some (event_position front)

-- The `debug_assert!` that the batch is not behind the buffer is left out: a build for release does not
-- check it, and a debug build panics there. Store.Sorted says when it holds.
unfoldable pub put_batch : List CanalEvent → MemoryEventStore → CanalResult ℤ × MemoryEventStore
put_batch [] s = (ok (pos 0), s)
put_batch (e ∷ es) s =
    let buffer = drain s (e ∷ es) in
    let evicted = skipped s (e ∷ es) (drained s (e ∷ es)) in
    let events = split_off s (e ∷ es) in
    (
      ok s.batch_id_seq,
      record {
        buffer = buffer ++ events;
        capacity = s.capacity;
        batch_id_seq = wrapping_inc s.batch_id_seq;
        latest_position = Option.map event_position (last? events);
        first_position = front_position buffer events;
        evicted_watermark = raise_watermark s.evicted_watermark evicted;
        running = s.running;
        notified = s.notified + 1;
      },
    )

-- `slice.iter().position(test).unwrap_or(slice.len())`
position_or_len : (CanalEvent → Bool) → List CanalEvent → ℕ
position_or_len test = count_while (λ e. not (test e))

-- `slice.partition_point(test)`, which is specified where the test holds of a prefix and of nothing
-- behind it: the length of that prefix.
partition_point : (CanalEvent → Bool) → List CanalEvent → ℕ
partition_point = count_while

-- Where a read starts: at the first event that is not older than a timestamp cursor, or behind the
-- last event at or below a position cursor.
unfoldable pub start_idx : LogPosition → List CanalEvent → ℕ
unfolding position_or_len partition_point
start_idx start slice = elim start.timestamp [
  | some ts ↦ position_or_len (λ e. leb_ℤ ts e.execute_time) slice
  | none ↦ partition_point (λ e. key_leb (event_key e) (key start)) slice
]

-- Where it ends: `batch_size` events on, at least one, and then behind the last event of the position
-- group of the last one.
unfoldable pub base_end : ℕ → ℕ → List CanalEvent → ℕ
base_end start batch_size slice = min (start + max batch_size 1) (length slice)

unfoldable pub end_idx : ℕ → List CanalEvent → ℕ
end_idx base slice = elim (get_elem? slice (base - 1)) [
  | none ↦ base
  | some last ↦
      length (take_while (λ e. key_eq (event_key e) (event_key last)) (drop base slice)) + base
]

-- `slice[start..end]`
unfoldable pub sub_slice : ℕ → ℕ → List CanalEvent → List CanalEvent
sub_slice start end slice = take (end - start) (drop start slice)

-- One pass of the loop of `get_batch`, under the lock.
unfoldable pub get_pass : LogPosition → ℕ → MemoryEventStore → Option Events × MemoryEventStore
get_pass start batch_size s =
    let i = start_idx start s.buffer in
    let events = sub_slice i (end_idx (base_end i batch_size s.buffer) s.buffer) s.buffer in
    if ltb i (length s.buffer)
    then (
      (if is_empty events then none else some (Events.with_events events s.batch_id_seq)),
      record s { batch_id_seq = wrapping_inc s.batch_id_seq },
    )
    else (none, s)

-- What ends a wait of `get_batch`: a notification, with the store as the reader then finds it, or
-- the timeout of `GET_BATCH_TIMEOUT_MS`.
pub data Wake : Type 0 where
  woken : MemoryEventStore → Wake
  timed_out : Wake

-- `none` while the reader still waits.
unfoldable pub get_batch :
    LogPosition → ℕ → MemoryEventStore → List Wake → Option (CanalResult Events) × MemoryEventStore
get_batch start batch_size s [] = elim (get_pass start batch_size s).0 [
  | some events ↦ (some (ok events), (get_pass start batch_size s).1)
  | none ↦ (none, (get_pass start batch_size s).1)
]
get_batch start batch_size s (timed_out ∷ wakes) = elim (get_pass start batch_size s).0 [
  | some events ↦ (some (ok events), (get_pass start batch_size s).1)
  | none ↦ (some (ok (Events.new (pos 0))), (get_pass start batch_size s).1)
]
get_batch start batch_size s (woken s' ∷ wakes) =
    let rest = get_batch start batch_size s' wakes in
    elim (get_pass start batch_size s).0 [
      | some events ↦ (some (ok events), (get_pass start batch_size s).1)
      | none ↦ rest
    ]

-- `CanalLifecycle for MemoryEventStore`
unfoldable pub start : MemoryEventStore → CanalResult (Unit {0}) × MemoryEventStore
start s = (ok tt, record s { running = true })

unfoldable pub stop : MemoryEventStore → CanalResult (Unit {0}) × MemoryEventStore
stop s = (ok tt, record s { running = false })
