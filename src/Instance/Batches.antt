-- ===== src/Instance/Batches.antt =====
-- crates/canal-cli/src/main.rs: the batches that the ingest task feeds, and what they leave in the
-- store.
use canal_rust.Prelude.{
  ℕ, ◌≤◌, ◌<◌, ◌≡◌, refl, sym, ap, ◌∙◌, some, true, List, [], ◌∷◌, ◌++◌, length, leb, if◌then◌else◌,
  arith, All, if-cases, length-append,
}
use mathlib.Core.Path.{subst}
use mathlib.Core.List.{append-nil, append_assoc}
use canal_rust.Common.CanalError.{CanalError, CanalResult, ok, err}
use canal_rust.Common.Event.{CanalEvent}
use canal_rust.Common.Events.{Events}
use canal_rust.Common.LogPosition.{Key}
use canal_rust.Common.Regex.{RegexLib}
use canal_rust.Store
use canal_rust.Store.{MemoryEventStore, put_batch}
use canal_rust.Store.Sorted.{IsSorted, behind}
use canal_rust.Store.History.{flatten, Reaches}
use canal_rust.Sink.{DefaultEventSink, sink}
use canal_rust.Sink.Pipeline.{sink_all, passing, sink_all-no_gap}
use canal_rust.Instance.{CanalInstance, feed, fed, not_running}
use canal_rust.Instance.Ingest.{
  Selected, received, tick, Ingest, max_batch, feed_batch, flush, on_selected, ingest_loop, ingest,
}

-- The events that the channel delivered, errors left out
unfoldable pub events_of : List Selected → List CanalEvent
events_of [] = []
events_of (received (ok event) ∷ more) = event ∷ events_of more
events_of (received (err e) ∷ more) = events_of more
events_of (tick ∷ more) = events_of more

abbrev pub IsBatch : List CanalEvent → Type 0
IsBatch events = (0 < length events) × (length events ≤ max_batch)

module _ (lib : RegexLib) where
  open lib use {Regex}

  -- `feed` on one batch after the other
  unfoldable pub feed_all : List (List CanalEvent) → CanalInstance Regex → CanalInstance Regex
  feed_all [] i = i
  feed_all (events ∷ batches) i = feed_all batches (feed lib events i).1

  -- What the loop still does: it feeds batches of the right size that hold the pending events and then
  -- what arrives.
  abbrev Feeds : List CanalEvent → CanalInstance Regex → CanalInstance Regex → Type 0
  Feeds events i after =
      (batches : List (List CanalEvent)) × (flatten batches ≡ events)
      × All IsBatch batches
      × (after ≡ feed_all batches i)

  Feeds-batch :
      (events more : List CanalEvent) (i after : CanalInstance Regex)
      → IsBatch events
      → Feeds more (feed lib events i).1 after
      → Feeds (events ++ more) i after
  unfolding feed_all
  Feeds-batch events more i after sized (batches, all, are, e) =
      (events ∷ batches, ap (λ t. events ++ t) all, (sized, are), e)

  Feeds-flush :
      (batch : List CanalEvent) (i : CanalInstance Regex)
      → length batch < max_batch
      → Feeds batch i (flush lib batch i).instance_
  unfolding flush feed_batch feed_all
  Feeds-flush [] i small = ([], refl, tt, refl)
  Feeds-flush (e ∷ es) i small =
      ((e ∷ es) ∷ [], append-nil (e ∷ es), ((omega arith, omega arith), tt), refl)

  abbrev Continues : List Selected → List CanalEvent → CanalInstance Regex → Ingest Regex → Type 0
  Continues more events i s = Feeds events i (ingest_loop lib more s).instance_

  abbrev ContinuesAll : List Selected → Type 0
  ContinuesAll more =
      (s : Ingest Regex)
      → length s.batch < max_batch
      → Continues more (s.batch ++ events_of more) s.instance_ s

  flush-Continues :
      (more : List Selected) (batch : List CanalEvent) (i : CanalInstance Regex)
      → length batch < max_batch
      → ContinuesAll more
      → Continues more (batch ++ events_of more) i (flush lib batch i)
  unfolding flush feed_batch
  flush-Continues more [] i small go = go _ (omega arith)
  flush-Continues more (e ∷ es) i small go =
      Feeds-batch (e ∷ es) (events_of more) i _ (omega arith, omega arith) (go _ (omega arith))

  push-Continues :
      (event : CanalEvent) (more : List Selected) (s : Ingest Regex)
      → length s.batch < max_batch
      → ContinuesAll more
      → Continues more
          ((s.batch ++ event ∷ []) ++ events_of more)
          s.instance_
          (on_selected lib (received (ok event)) s)
  unfolding on_selected feed_batch
  push-Continues event more s small go =
      let pushed = s.batch ++ event ∷ [] in
      let size = length-append s.batch (event ∷ []) in
      if-cases (Continues more (pushed ++ events_of more) s.instance_)
        (leb max_batch (length pushed))
        (λ full.
          Feeds-batch pushed (events_of more) s.instance_ _
            (omega (arith, size), omega (arith, size)) (go _ (omega arith)))
        (λ room. go _ (ground arith))

  error-Continues :
      (e : CanalError) (more : List Selected) (s : Ingest Regex)
      → length s.batch < max_batch
      → ContinuesAll more
      → Continues more
          (s.batch ++ events_of more)
          s.instance_
          (on_selected lib (received (err e)) s)
  unfolding on_selected
  error-Continues e more s small go = go s small

  tick-Continues :
      (more : List Selected) (s : Ingest Regex)
      → length s.batch < max_batch
      → ContinuesAll more
      → Continues more (s.batch ++ events_of more) s.instance_ (on_selected lib tick s)
  unfolding on_selected
  tick-Continues more s small go = flush-Continues more s.batch s.instance_ small go

  ingest_loop-Feeds : (all : List Selected) → ContinuesAll all
  unfolding ingest_loop events_of
  ingest_loop-Feeds [] s small =
      subst (λ t. Feeds t s.instance_ (flush lib s.batch s.instance_).instance_)
        (sym (append-nil s.batch)) (Feeds-flush s.batch s.instance_ small)
  ingest_loop-Feeds (received (ok event) ∷ more) s small =
      subst (λ t. Continues more t s.instance_ (on_selected lib (received (ok event)) s))
        (append_assoc s.batch (event ∷ []) (events_of more))
        (push-Continues event more s small (ingest_loop-Feeds more))
  ingest_loop-Feeds (received (err e) ∷ more) s small =
      error-Continues e more s small (ingest_loop-Feeds more)
  ingest_loop-Feeds (tick ∷ more) s small = tick-Continues more s small (ingest_loop-Feeds more)

  -- Whatever the channel delivers and however the ticks fall between: the task does what feeding some
  -- batches one after the other does, where every batch has at least one and at most 256 events, and
  -- the batches together are the delivered events, all of them, once and in order.
  pub ingest-feed_all :
      (all : List Selected) (i : CanalInstance Regex)
      → (batches : List (List CanalEvent)) × (flatten batches ≡ events_of all)
        × All IsBatch batches
        × (ingest lib all i ≡ feed_all batches i)
  unfolding ingest
  ingest-feed_all all i = ingest_loop-Feeds all (record { batch = []; instance_ = i }) (omega arith)

  fed-sink :
      (i : CanalInstance Regex) (r : CanalResult Events × DefaultEventSink Regex)
      → (fed i r).1 ≡ record i { sink = r.1 }
  unfolding fed
  fed-sink i (ok events, s) = refl
  fed-sink i (err e, s) = refl

  -- A running instance takes every batch: the sink gets it, and nothing is refused.
  feed-running :
      (events : List CanalEvent) (i : CanalInstance Regex)
      → i.running ≡ true
      → (feed lib events i).1 ≡ record i { sink = (sink lib events i.sink).1 }
  unfolding feed
  feed-running events i on =
      let done = fed i (sink lib events i.sink) in
      ap (λ b. (if b then done else (err (not_running i.config.destination), i)).1) on
      ∙ fed-sink i (sink lib events i.sink)

  feed_all-sink :
      (batches : List (List CanalEvent)) (i : CanalInstance Regex)
      → i.running ≡ true
      → (feed_all batches i).sink ≡ sink_all lib batches i.sink
  unfolding feed_all sink_all
  feed_all-sink [] i on = refl
  feed_all-sink (events ∷ batches) i on =
      let e = feed-running events i on in
      feed_all-sink batches (feed lib events i).1 (ap (λ j. j.running) e ∙ on)
      ∙ ap (λ j. sink_all lib batches j.sink) e

  -- From the channel of the binlog connector to the readers of the store: the instance runs with a new
  -- store, and the delivered events that pass the filter are in order. Then, whatever errors and ticks
  -- came between, a reader whose cursor is not below the watermark finds in the store exactly the
  -- delivered events behind its cursor that pass the filter, all of them and in order.
  pub ingest-no_gap :
      (all : List Selected) (capacity : ℕ) (i : CanalInstance Regex) (k : Key)
      → i.running ≡ true
      → Store.new capacity ≡ some i.sink.store
      → IsSorted (passing lib i.sink (events_of all))
      → Reaches (ingest lib all i).sink.store.evicted_watermark k
      → behind k (ingest lib all i).sink.store.buffer
        ≡ behind k (passing lib i.sink (events_of all))
  ingest-no_gap all capacity i k on created sorted reaches =
      let (batches, e, sized, same) = ingest-feed_all all i in
      let at : (ingest lib all i).sink ≡ sink_all lib batches i.sink =
        ap (λ j. j.sink) same ∙ feed_all-sink batches i on in
      ap (λ s. behind k s.store.buffer) at
      ∙ (sink_all-no_gap lib batches capacity i.sink k created
            (subst (λ t. IsSorted (passing lib i.sink t)) (sym e) sorted)
            (subst (λ s. Reaches s.store.evicted_watermark k) at reaches)
          ∙ ap (λ t. behind k (passing lib i.sink t)) e)
