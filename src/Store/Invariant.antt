-- ===== src/Store/Invariant.antt =====
-- The state that `MemoryEventStore` of crates/canal-store/src/memory.rs keeps: its bound, its order
-- and the positions that it reports.
use canal_rust.Prelude.{
  ℕ, ◌-◌, ◌≤◌, ◌<◌, ◌≡◌, refl, sym, ap, ◌∙◌, none, some, List, [], ◌∷◌, ◌++◌, arith, length, first?,
  last?, false, last?-append, drop-cons,
}
use mathlib.Core.Option
use canal_rust.Prelude.Int.{pos}
use canal_rust.Common.Event.{CanalEvent}
use canal_rust.Common.Events.{event_position}
use canal_rust.Store.{MemoryEventStore, new, drain, split_off, front_position, put_batch}
use canal_rust.Store.Sorted.{IsSorted, IsSorted-drop}
use canal_rust.Store.Window.{length-keep_last, split_off-eq-drop, put_batch-window}

pub record IsValid (s : MemoryEventStore) : Type 0 where
  pub positive : 0 < s.capacity
  pub bounded : length s.buffer ≤ s.capacity
  pub sorted : IsSorted s.buffer
  pub front : s.first_position ≡ Option.map event_position (first? s.buffer)
  pub back : s.latest_position ≡ Option.map event_position (last? s.buffer)

front_position_lem :
    (xs ys : List CanalEvent) → front_position xs ys ≡ Option.map event_position (first? (xs ++ ys))
unfolding front_position
front_position_lem [] ys = refl
front_position_lem (x ∷ xs) ys = refl

-- Of a batch that is not empty something is kept.
split_off-cons :
    (s : MemoryEventStore) (e : CanalEvent) (es : List CanalEvent)
    → 0 < s.capacity
    → (y : CanalEvent) × (ys : List CanalEvent) × (split_off s (e ∷ es) ≡ y ∷ ys)
split_off-cons s e es h =
    let (y, ys, kept) = drop-cons (length (e ∷ es) - s.capacity) (e ∷ es) (omega arith) in
    (y, ys, split_off-eq-drop s (e ∷ es) ∙ kept)

abbrev pub empty : ℕ → MemoryEventStore
empty capacity = record {
  buffer = [];
  capacity = capacity;
  batch_id_seq = pos 0;
  latest_position = none;
  first_position = none;
  evicted_watermark = none;
  running = false;
  notified = 0;
}

-- The constructor accepts every positive capacity, and gives an empty and well-formed store.
pub new-IsValid :
    (capacity : ℕ)
    → 0 < capacity
    → (new capacity ≡ some (empty capacity)) × IsValid (empty capacity)
unfolding new
new-IsValid capacity h = (
  ground arith,
  record { positive = h; bounded = omega arith; sorted = tt; front = refl; back = refl },
)

-- A batch in order behind the buffer keeps the store well-formed: within its capacity, sorted, and
-- with the first and the latest position those of the ends of the buffer.
pub put_batch-IsValid :
    (events : List CanalEvent) (s : MemoryEventStore)
    → IsSorted (s.buffer ++ events)
    → IsValid s
    → IsValid (put_batch events s).1
unfolding put_batch
put_batch-IsValid [] s sorted v = v
put_batch-IsValid (e ∷ es) s sorted v = record {
  positive = v.positive;
  bounded =
      rw (put_batch-window (e ∷ es) s v.bounded) (length-keep_last s.capacity (s.buffer ++ e ∷ es));
  sorted =
      rw (put_batch-window (e ∷ es) s v.bounded)
        (IsSorted-drop (length (s.buffer ++ e ∷ es) - s.capacity) (s.buffer ++ e ∷ es) sorted);
  front = front_position_lem (drain s (e ∷ es)) (split_off s (e ∷ es));
  back =
      let (y, ys, kept) = split_off-cons s e es v.positive in
      rw kept (ap (Option.map event_position) (sym (last?-append (drain s (e ∷ es)) y ys)));
}
