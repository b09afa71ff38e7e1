-- ===== src/Store/History.antt =====
-- The buffer of crates/canal-store/src/memory.rs against the history of all events ever put: what
-- left the window is at or below the watermark, and what a cursor above it has not read is there.
use canal_rust.Prelude.{
  ℕ, suc, ◌+◌, ◌-◌, ◌≤◌, ◌<◌, ◌≡◌, refl, sym, ap, ◌∙◌, inl, inr, Option, none, some, true, false,
  not, List, [], ◌∷◌, ◌++◌, arith, length, take, drop, get_elem?, ltb, All, All-map, Bool-cases,
  length-append, length-drop, get_elem?-drop, get_elem?-append_left, get_elem?-append_right,
  get_elem?-some, take-append-drop, filter-append, filter_none,
}
use mathlib.Core.List.{append-nil, append_assoc}
use canal_rust.Common.LogPosition.{LogPosition, Key, key, key_leb}
use canal_rust.Common.LogPosition.Order.{key_leb_trans}
use canal_rust.Common.Event.{CanalEvent}
use canal_rust.Common.Events.{event_key}
use canal_rust.Store.{
  MemoryEventStore, new, drain_count, drained, skipped, raise_watermark, put_batch,
}
use canal_rust.Store.Sorted.{IsSorted, AtOrBelow, AtOrBelow-take, IsSorted-append_left, behind}
use canal_rust.Store.Watermark.{
  Covered, Covered-trans, raise_watermark-adds, evicted-drained, evicted-skipped,
}
use canal_rust.Store.Window.{keep_last, length-keep_last, keep_last-keep_last, put_batch-window}

-- `h` is everything that was put into `s`, in order.
pub record Tracks (s : MemoryEventStore) (h : List CanalEvent) : Type 0 where
  pub window : s.buffer ≡ keep_last s.capacity h
  pub covered :
      All (λ e. Covered s.evicted_watermark (event_key e)) (take (length h - s.capacity) h)

pub Tracks-bounded :
    (s : MemoryEventStore) (h : List CanalEvent) → Tracks s h → length s.buffer ≤ s.capacity
Tracks-bounded s h t = rw t.window (length-keep_last s.capacity h)

-- The last event that leaves the window is covered by what the batch reports as evicted.
last_dropped :
    (s : MemoryEventStore) (h events : List CanalEvent) (x : CanalEvent)
    → Tracks s h
    → s.capacity < length h + length events
    → 0 < length events
    → get_elem? (h ++ events) (length h + length events - s.capacity - 1) ≡ some x
    → Covered (skipped s events (drained s events)) (event_key x)
last_dropped s h events x t over some_put at = elim (Bool-cases (ltb s.capacity (length events))) [
  | inl oversized ↦ evicted-skipped s events x (ground arith) (in_batch (ground arith))
  | inr fits ↦
      let kept : length s.buffer ≡ length h - (length h - s.capacity) =
        ap length t.window ∙ length-drop (length h - s.capacity) h in
      evicted-drained s events x (ground arith) (ground arith) (in_count kept (ground arith))
        (in_buffer kept (ground arith))
]
  where
    in_batch :
        s.capacity < length events → get_elem? events (length events - s.capacity - 1) ≡ some x
    in_batch big =
        let e : length h + length events - s.capacity - 1
            ≡ length h + (length events - s.capacity - 1) =
          omega arith in
        sym (get_elem?-append_right (length events - s.capacity - 1) h events)
        ∙ (ap (get_elem? (h ++ events)) (sym e) ∙ at)

    in_count :
        length s.buffer ≡ length h - (length h - s.capacity)
        → length events ≤ s.capacity
        → 0 < drain_count s events
    in_count kept small = unfold drain_count in omega arith

    in_buffer :
        length s.buffer ≡ length h - (length h - s.capacity)
        → length events ≤ s.capacity
        → get_elem? s.buffer (drain_count s events - 1) ≡ some x
    in_buffer kept small =
        let e : length h - s.capacity + (drain_count s events - 1)
            ≡ length h + length events - s.capacity - 1 =
          unfold drain_count in omega arith in
        ap (λ b. get_elem? b (drain_count s events - 1)) t.window
        ∙ (get_elem?-drop (length h - s.capacity) (drain_count s events - 1) h
            ∙ (ap (get_elem? h) e ∙ (sym (get_elem?-append_left _ h events (omega arith)) ∙ at)))

-- A batch that overflows the window covers everything in front of the new window.
overflow-Covered :
    (s : MemoryEventStore) (h events : List CanalEvent)
    → IsSorted (h ++ events)
    → Tracks s h
    → 0 < length events
    → s.capacity < length h + length events
    → All
        (λ e.
          Covered
            (raise_watermark s.evicted_watermark (skipped s events (drained s events)))
            (event_key e))
        (take (length h + length events - s.capacity) (h ++ events))
overflow-Covered s h events sorted t some_put over =
    let i = length h + length events - s.capacity - 1 in
    let (x, at) = get_elem?-some i (h ++ events) (omega (arith, length-append h events)) in
    let e : suc i ≡ length h + length events - s.capacity = omega arith in
    let evicted = skipped s events (drained s events) in
    let top : Covered (raise_watermark s.evicted_watermark evicted) (event_key x) =
      raise_watermark-adds s.evicted_watermark evicted (event_key x)
        (last_dropped s h events x t over some_put at) in
    rw (sym e) (
      All-map (AtOrBelow (event_key x))
        (λ f. Covered (raise_watermark s.evicted_watermark evicted) (event_key f))
        (take (suc i) (h ++ events))
        (λ f below. Covered-trans _ (event_key f) (event_key x) below top)
        (AtOrBelow-take i (h ++ events) x sorted at))

put_batch-Covered :
    (events : List CanalEvent) (s : MemoryEventStore) (h : List CanalEvent)
    → IsSorted (h ++ events)
    → Tracks s h
    → All
        (λ e. Covered (put_batch events s).1.evicted_watermark (event_key e))
        (take (length (h ++ events) - s.capacity) (h ++ events))
unfolding put_batch
put_batch-Covered [] s h sorted t = rw append-nil t.covered
put_batch-Covered (e ∷ es) s h sorted t =
    rw (length-append h (e ∷ es)) (elim (Bool-cases (ltb s.capacity (length h + length (e ∷ es)))) [
      | inl over ↦ overflow-Covered s h (e ∷ es) sorted t (omega arith) (ground arith)
      | inr fits ↦ let z : length h + length (e ∷ es) - s.capacity ≡ 0 = ground arith in rw z tt
    ])

capacity-put_batch :
    (events : List CanalEvent) (s : MemoryEventStore) → (put_batch events s).1.capacity ≡ s.capacity
unfolding put_batch
capacity-put_batch [] s = refl
capacity-put_batch (e ∷ es) s = refl

-- One more batch in order: the store tracks the longer history.
pub put_batch-Tracks :
    (events : List CanalEvent) (s : MemoryEventStore) (h : List CanalEvent)
    → IsSorted (h ++ events)
    → Tracks s h
    → Tracks (put_batch events s).1 (h ++ events)
put_batch-Tracks events s h sorted t = record {
  window =
      put_batch-window events s (Tracks-bounded s h t)
      ∙ (ap (λ b. keep_last s.capacity (b ++ events)) t.window
          ∙ (keep_last-keep_last s.capacity h events
              ∙ ap (λ n. keep_last n (h ++ events)) (sym (capacity-put_batch events s))));
  covered = rw (capacity-put_batch events s) (put_batch-Covered events s h sorted t);
}

-- The sink's calls of `put_batch`, one after the other.
unfoldable pub feed : List (List CanalEvent) → MemoryEventStore → MemoryEventStore
feed [] s = s
feed (events ∷ batches) s = feed batches (put_batch events s).1

abbrev pub flatten : List (List CanalEvent) → List CanalEvent
flatten [] = []
flatten (events ∷ batches) = events ++ flatten batches

feed-Tracks_from :
    (batches : List (List CanalEvent)) (s : MemoryEventStore) (h : List CanalEvent)
    → IsSorted (h ++ flatten batches)
    → Tracks s h
    → Tracks (feed batches s) (h ++ flatten batches)
unfolding feed
feed-Tracks_from [] s h sorted t = rw append-nil t
feed-Tracks_from (events ∷ batches) s h sorted t =
    let e : (h ++ events) ++ flatten batches ≡ h ++ (events ++ flatten batches) =
      append_assoc h events (flatten batches) in
    rw (sym e) (
      feed-Tracks_from batches (put_batch events s).1 (h ++ events) (rw e sorted) (
        put_batch-Tracks events s h
          (IsSorted-append_left (h ++ events) (flatten batches) (rw e sorted)) t))

-- Any batches that are in order, put into a new store: the buffer is the last `capacity` events of
-- all of them, and every event in front of these is at or below the watermark.
pub feed-Tracks :
    (batches : List (List CanalEvent)) (capacity : ℕ) {s : MemoryEventStore}
    → new capacity ≡ some s
    → IsSorted (flatten batches)
    → Tracks (feed batches s) (flatten batches)
unfolding new
feed-Tracks batches capacity {s} created sorted = feed-Tracks_from batches s [] sorted (record {
  window = ground arith;
  covered = let z : length {A = CanalEvent} [] - s.capacity ≡ 0 = omega arith in rw z tt;
})

-- A cursor is not below the watermark.
abbrev pub Reaches : Option LogPosition → Key → Type 0
Reaches none k = Unit
Reaches (some w) k = key_leb (key w) k ≡ true

Covered-read :
    (o : Option LogPosition) (k : Key) (e : CanalEvent)
    → Reaches o k
    → Covered o (event_key e)
    → not (key_leb (event_key e) k) ≡ false
Covered-read none k e r c = absurd c
Covered-read (some w) k e r c = rw (key_leb_trans (event_key e) (key w) k c r) refl

Tracks-no_gap :
    (s : MemoryEventStore) (h : List CanalEvent) (k : Key)
    → Tracks s h
    → Reaches s.evicted_watermark k
    → behind k s.buffer ≡ behind k h
unfolding behind
Tracks-no_gap s h k t reaches =
    let n = length h - s.capacity in
    let p = λ (e : CanalEvent). not (key_leb (event_key e) k) in
    ap (behind k) t.window
    ∙ sym (
        ap (behind k) (sym (take-append-drop n h))
        ∙ (filter-append p (take n h) (drop n h)
            ∙ ap (λ l. l ++ behind k (drop n h))
                (filter_none p (take n h) (
                  All-map _ _ (take n h) (λ e. Covered-read s.evicted_watermark k e reaches)
                    t.covered))))

-- Any batches that are in order, put into a new store: a reader whose cursor is not below the
-- watermark finds in the buffer every event ever put that lies behind its cursor, in order, and
-- nothing else. Eviction has taken nothing from it.
pub feed-no_gap :
    (batches : List (List CanalEvent)) (capacity : ℕ) {s : MemoryEventStore} (k : Key)
    → new capacity ≡ some s
    → IsSorted (flatten batches)
    → Reaches (feed batches s).evicted_watermark k
    → behind k (feed batches s).buffer ≡ behind k (flatten batches)
feed-no_gap batches capacity {s} k created sorted reaches =
    Tracks-no_gap (feed batches s) (flatten batches) k (feed-Tracks batches capacity created sorted)
      reaches
