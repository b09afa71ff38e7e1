-- ===== src/Store/Tests.antt =====
-- Concrete runs of crates/canal-store/src/memory.rs.
use canal_rust.Prelude.{
  ℕ, ◌≤◌, ◌≡◌, refl, none, some, List, [], ◌∷◌, ◌++◌, arith, length, is_empty, if◌then◌else◌,
}
use canal_rust.Prelude.Words.{wrapping_inc}
use canal_rust.Prelude.Bytes.{Text, bytes, text_eq, parse_u64}
use canal_rust.Prelude.Int.{pos}
use canal_rust.Common.LogPosition
use canal_rust.Common.LogPosition.{LogPosition, Key, key, key_leb, binlog_suffix}
use canal_rust.Common.Event.{EventType, CanalEvent}
use canal_rust.Common.Events.{event_position}
use canal_rust.Store
use canal_rust.Store.{MemoryEventStore, get_pass, put_batch}
use canal_rust.Store.Sorted.{IsSorted, behind}
use canal_rust.Store.Window.{keep_last, put_batch-window}
use canal_rust.Store.History.{Tracks, feed, flatten, Reaches, feed-Tracks, feed-no_gap}
use canal_rust.Store.Invariant.{IsValid, empty, new-IsValid, put_batch-IsValid}
use canal_rust.Store.Reads.{unread, cut, answer, get_pass-answer}
use canal_rust.Store.Delivery.{read_all, read_all-unread}

program : Unit {0}
unfolding bytes text_eq parse_u64 binlog_suffix key_leb LogPosition.new put_batch Store.drain
    Store.split_off Store.drained Store.skipped Store.raise_watermark Store.raise_to get_pass
    Store.new event_position behind feed
program = tt

abbrev event : Text → ℕ → CanalEvent
event journal offset = record {
  journal_name = journal;
  position = offset;
  server_id = 1;
  execute_time = pos 0;
  entry_type = EventType.insert;
  schema_name = [];
  table_name = [];
  row_change = none;
  ddl_sql = none;
  gtid = none;
  raw_bytes = [];
}

abbrev a : CanalEvent
a = event (bytes "b.1") 4

abbrev b : CanalEvent
b = event (bytes "b.1") 9

abbrev c : CanalEvent
c = event (bytes "b.1") 9

abbrev d : CanalEvent
d = event (bytes "b.2") 4

abbrev batches : List (List CanalEvent)
batches = (a ∷ b ∷ []) ∷ (c ∷ d ∷ []) ∷ []

in_order : IsSorted (flatten batches)
unfolding program
in_order = ((refl, (refl, (refl, tt))), ((refl, (refl, tt)), ((refl, tt), (tt, tt))))

abbrev filled : MemoryEventStore
filled = (put_batch (a ∷ b ∷ []) (empty 3)).1

-- The second batch pushes out one event.
overflow :
    ((feed batches (empty 3)).buffer ≡ b ∷ c ∷ d ∷ [])
    × ((feed batches (empty 3)).evicted_watermark ≡ some (event_position a))
unfolding program
overflow = (refl, refl)

a-b-IsSorted : IsSorted (a ∷ b ∷ [])
unfolding program
a-b-IsSorted = ((refl, tt), (tt, tt))

put_batch-IsValid_example : IsValid filled
put_batch-IsValid_example =
    put_batch-IsValid (a ∷ b ∷ []) (empty 3) a-b-IsSorted (new-IsValid 3 (omega arith)).1

put_batch-window_example :
    (put_batch (c ∷ d ∷ []) filled).1.buffer
    ≡ keep_last filled.capacity (filled.buffer ++ c ∷ d ∷ [])
put_batch-window_example = put_batch-window (c ∷ d ∷ []) filled put_batch-IsValid_example.bounded

feed-Tracks_example : Tracks (feed batches (empty 3)) (flatten batches)
feed-Tracks_example = feed-Tracks batches 3 (new-IsValid 3 (omega arith)).0 in_order

at_watermark : Reaches (feed batches (empty 3)).evicted_watermark (1, 4)
unfolding program
at_watermark = refl

feed-no_gap_example :
    behind (1, 4) (feed batches (empty 3)).buffer ≡ behind (1, 4) (flatten batches)
feed-no_gap_example =
    feed-no_gap batches 3 (1, 4) (new-IsValid 3 (omega arith)).0 in_order at_watermark

abbrev three : MemoryEventStore
three = record (empty 3) { buffer = b ∷ c ∷ d ∷ [] }

abbrev cursor : LogPosition
cursor = LogPosition.new (bytes "b.1") 4

-- The base of one event is extended to its position group.
group : (get_pass cursor 1 three).0 ≡ answer (pos 0) (b ∷ c ∷ [])
unfolding program Store.start_idx Store.sub_slice Store.end_idx Store.base_end LogPosition.key_eq
group = refl

get_pass-answer_example : get_pass cursor 1 three ≡ (
  answer (pos 0) (cut 1 (unread cursor three.buffer)),
  record three {
    batch_id_seq = if is_empty (unread cursor three.buffer) then pos 0 else wrapping_inc (pos 0);
  },
)
get_pass-answer_example = get_pass-answer cursor 1 three in_order.1

unread-three : length (unread cursor three.buffer) ≤ 3
unfolding program
unread-three = ground arith

read_all-unread_example : read_all 3 1 cursor three ≡ unread cursor three.buffer
read_all-unread_example = read_all-unread 3 1 cursor three in_order.1 unread-three
