-- ===== src/Sink/Pipeline.antt =====
-- What the filter and the sink of crates/canal-sink/src/sink.rs leave in the store for readers.
use canal_rust.Prelude.{
  ℕ, ◌≡◌, refl, sym, ap, ◌∙◌, some, List, [], ◌∷◌, ◌++◌, map, filter, filter-append,
}
use mathlib.Core.Path.{subst}
use canal_rust.Common.Event.{CanalEvent}
use canal_rust.Common.LogPosition.{Key}
use canal_rust.Common.Regex.{RegexLib}
use canal_rust.Filter.{matches}
use canal_rust.Store
use canal_rust.Store.{MemoryEventStore, put_batch}
use canal_rust.Store.Sorted.{IsSorted, behind}
use canal_rust.Store.History.{feed, flatten, Reaches, feed-no_gap}
use canal_rust.Sink.{DefaultEventSink, keep, sink}

module _ (lib : RegexLib) where
  open lib use {Regex}

  -- The sink's calls, one after the other.
  unfoldable pub sink_all : List (List CanalEvent) → DefaultEventSink Regex → DefaultEventSink Regex
  sink_all [] s = s
  sink_all (events ∷ batches) s = sink_all batches (sink lib events s).1

  abbrev pub passing : DefaultEventSink Regex → List CanalEvent → List CanalEvent
  passing s = filter (matches lib s.event_filter)

  keep-store :
      (events : List CanalEvent) (s : DefaultEventSink Regex)
      → (keep events s).1.store ≡ (put_batch events s.store).1
  unfolding keep put_batch
  keep-store [] s = refl
  keep-store (e ∷ es) s = refl

  pub keep-event_filter :
      (events : List CanalEvent) (s : DefaultEventSink Regex)
      → (keep events s).1.event_filter ≡ s.event_filter
  unfolding keep put_batch
  keep-event_filter [] s = refl
  keep-event_filter (e ∷ es) s = refl

  sink_all-store :
      (batches : List (List CanalEvent)) (s : DefaultEventSink Regex)
      → (sink_all batches s).store ≡ feed (map (passing s) batches) s.store
  unfolding sink_all sink feed
  sink_all-store [] s = refl
  sink_all-store (events ∷ batches) s =
      let s' = (sink lib events s).1 in
      sink_all-store batches s'
      ∙ (ap (λ f. feed (map (filter (matches lib f)) batches) s'.store)
            (keep-event_filter (passing s events) _)
          ∙ ap (feed (map (passing s) batches)) (keep-store (passing s events) _))

  flatten-map :
      (s : DefaultEventSink Regex) (batches : List (List CanalEvent))
      → flatten (map (passing s) batches) ≡ passing s (flatten batches)
  flatten-map s [] = refl
  flatten-map s (events ∷ batches) =
      ap (λ t. passing s events ++ t) (flatten-map s batches)
      ∙ sym (filter-append (matches lib s.event_filter) events (flatten batches))

  -- From the channel to the readers: whatever batches the sink is given, on a new store and with the
  -- events that pass the filter in order, a reader whose cursor is not below the watermark finds in
  -- the store exactly the events behind its cursor that pass the filter, all of them and in order.
  pub sink_all-no_gap :
      (batches : List (List CanalEvent)) (capacity : ℕ) (s : DefaultEventSink Regex) (k : Key)
      → Store.new capacity ≡ some s.store
      → IsSorted (passing s (flatten batches))
      → Reaches (sink_all batches s).store.evicted_watermark k
      → behind k (sink_all batches s).store.buffer ≡ behind k (passing s (flatten batches))
  sink_all-no_gap batches capacity s k created sorted reaches =
      let e = sink_all-store batches s in
      ap (λ t. behind k t.buffer) e
      ∙ (feed-no_gap (map (passing s) batches) capacity k created
            (subst IsSorted (sym (flatten-map s batches)) sorted)
            (subst (λ t. Reaches t.evicted_watermark k) e reaches)
          ∙ ap (behind k) (flatten-map s batches))
