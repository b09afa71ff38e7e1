-- ===== src/Store/Watermark.antt =====
-- What the eviction of `put_batch` in crates/canal-store/src/memory.rs records.
use canal_rust.Prelude.{
  ◌+◌, ◌-◌, ◌≤◌, ◌<◌, ◌≡◌, inl, inr, Option, none, some, true, false, List, arith, length,
  get_elem?, ltb, Bool-cases,
}
use canal_rust.Common.LogPosition
use canal_rust.Common.LogPosition.{LogPosition, Key, key, key_leb, gt}
use canal_rust.Common.LogPosition.Order.{
  key_leb_refl, key_leb_trans, key_leb_total, gt-lt, lt-not-key_leb,
}
use canal_rust.Common.Event.{CanalEvent}
use canal_rust.Common.Events.{event_key, event_position}
use canal_rust.Store.{MemoryEventStore, raise_to, drained, drain_count, skipped, raise_watermark}

-- A key that the watermark reports as dropped.
abbrev pub Covered : Option LogPosition → Key → Type 0
Covered none k = ⊥
Covered (some w) k = key_leb k (key w) ≡ true

pub Covered-trans :
    (o : Option LogPosition) (k l : Key) → key_leb k l ≡ true → Covered o l → Covered o k
Covered-trans none k l h c = c
Covered-trans (some w) k l h c = key_leb_trans k l (key w) h c

raise_to-above : (o : Option LogPosition) (p : LogPosition) → Covered (raise_to o p) (key p)
unfolding raise_to
raise_to-above none p = key_leb_refl (key p)
raise_to-above (some cur) p = elim (Bool-cases (gt p cur)) [
  | inl above ↦ rw above (key_leb_refl (key p))
  | inr below ↦
      rw below (ground (arith, gt-lt p cur, lt-not-key_leb cur p, key_leb_total (key cur) (key p)))
]

raise_to-keeps :
    (o : Option LogPosition) (p : LogPosition) (k : Key) → Covered o k → Covered (raise_to o p) k
unfolding raise_to
raise_to-keeps none p k c = absurd c
raise_to-keeps (some cur) p k c = elim (Bool-cases (gt p cur)) [
  | inl above ↦ rw above (
      ground (
        arith,
        gt-lt p cur,
        lt-not-key_leb cur p,
        key_leb_total (key p) (key cur),
        key_leb_trans k (key cur) (key p),
      ))
  | inr below ↦ rw below c
]

pub raise_watermark-keeps :
    (o evicted : Option LogPosition) (k : Key) → Covered o k → Covered (raise_watermark o evicted) k
unfolding raise_watermark
raise_watermark-keeps o none k c = c
raise_watermark-keeps o (some p) k c = raise_to-keeps o p k c

pub raise_watermark-adds :
    (o evicted : Option LogPosition) (k : Key)
    → Covered evicted k
    → Covered (raise_watermark o evicted) k
unfolding raise_watermark
raise_watermark-adds o none k c = absurd c
raise_watermark-adds o (some p) k c = Covered-trans (raise_to o p) k (key p) c (raise_to-above o p)

-- The last event that a batch pushes out of the buffer, or that an oversized batch skips, is covered.
pub evicted-drained :
    (s : MemoryEventStore) (events : List CanalEvent) (x : CanalEvent)
    → s.capacity < length s.buffer + length events
    → length events ≤ s.capacity
    → 0 < drain_count s events
    → get_elem? s.buffer (drain_count s events - 1) ≡ some x
    → Covered (skipped s events (drained s events)) (event_key x)
unfolding skipped drained event_position LogPosition.new
evicted-drained s events x over fits some_drained at =
    let e : ltb s.capacity (length events) ≡ false = ground arith in
    let f : ltb s.capacity (length s.buffer + length events) ≡ true = ground arith in
    let g : ltb 0 (drain_count s events) ≡ true = ground arith in
    rw e (rw f (rw g (rw at (key_leb_refl (event_key x)))))

pub evicted-skipped :
    (s : MemoryEventStore) (events : List CanalEvent) (x : CanalEvent)
    → s.capacity < length events
    → get_elem? events (length events - s.capacity - 1) ≡ some x
    → Covered (skipped s events (drained s events)) (event_key x)
unfolding skipped event_position LogPosition.new
evicted-skipped s events x over at =
    let e : ltb s.capacity (length events) ≡ true = ground arith in
    rw e (rw at (raise_to-above (drained s events) (event_position x)))
