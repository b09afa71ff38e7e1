-- ===== src/Instance/Stopped.antt =====
-- crates/canal-cli/src/main.rs: what the ingest task does with the events of a stopped instance.
use canal_rust.Prelude.{
  ◌≡◌, refl, ap, ◌∙◌, false, List, [], ◌∷◌, ◌++◌, length, leb, if◌then◌else◌, if-cases,
}
use canal_rust.Common.CanalError.{ok, err}
use canal_rust.Common.Event.{CanalEvent}
use canal_rust.Common.Regex.{RegexLib}
use canal_rust.Sink.{sink}
use canal_rust.Instance
use canal_rust.Instance.{CanalInstance, feed, fed, not_running}
use canal_rust.Instance.Ingest.{
  Selected, received, tick, Ingest, max_batch, feed_batch, flush, on_selected, ingest_loop, ingest,
}

module _ (lib : RegexLib) where
  open lib use {Regex}

  -- Nothing is pending.
  abbrev pub idle : CanalInstance Regex → Ingest Regex
  idle i = record { batch = []; instance_ = i }

  feed-stopped :
      (events : List CanalEvent) (i : CanalInstance Regex)
      → i.running ≡ false
      → (feed lib events i).1 ≡ i
  unfolding feed
  feed-stopped events i off =
      let done = fed i (sink lib events i.sink) in
      ap (λ b. (if b then done else (err (not_running i.config.destination), i)).1) off

  -- What the loop comes to when its input goes on
  unfoldable pub selects : List Selected → Ingest Regex → Ingest Regex
  selects [] s = s
  selects (selected ∷ more) s = selects more (on_selected lib selected s)

  ingest_loop-selects :
      (all more : List Selected) (s : Ingest Regex)
      → ingest_loop lib (all ++ more) s ≡ ingest_loop lib more (selects all s)
  unfolding ingest_loop selects
  ingest_loop-selects [] more s = refl
  ingest_loop-selects (selected ∷ all) more s = ingest_loop-selects all more _

  flush-stopped :
      (batch : List CanalEvent) (i : CanalInstance Regex)
      → i.running ≡ false
      → flush lib batch i ≡ idle i
  unfolding flush feed_batch
  flush-stopped [] i off = refl
  flush-stopped (e ∷ es) i off = ap idle (feed-stopped (e ∷ es) i off)

  on_selected-stopped :
      (selected : Selected) (s : Ingest Regex)
      → s.instance_.running ≡ false
      → (on_selected lib selected s).instance_ ≡ s.instance_
  unfolding on_selected feed_batch
  on_selected-stopped (received (ok event)) s off =
      if-cases (λ (t : Ingest Regex). t.instance_ ≡ s.instance_)
        (leb max_batch (length (s.batch ++ event ∷ [])))
        (λ full. feed-stopped (s.batch ++ event ∷ []) s.instance_ off) (λ room. refl)
  on_selected-stopped (received (err e)) s off = refl
  on_selected-stopped tick s off =
      ap (λ (t : Ingest Regex). t.instance_) (flush-stopped s.batch s.instance_ off)

  selects-stopped :
      (all : List Selected) (s : Ingest Regex)
      → s.instance_.running ≡ false
      → (selects (all ++ tick ∷ []) s) ≡ idle s.instance_
  unfolding selects on_selected
  selects-stopped [] s off = flush-stopped s.batch s.instance_ off
  selects-stopped (selected ∷ all) s off =
      let same = on_selected-stopped selected s off in
      selects-stopped all (on_selected lib selected s) (ap (λ i. i.running) same ∙ off)
      ∙ ap idle same

  abbrev pub restarted : Ingest Regex → Ingest Regex
  restarted s = record s { instance_ = (Instance.start s.instance_).1 }

  -- The instance is stopped while the channel delivers some events, up to a tick of the timer. When it
  -- is started then, the task goes on as one that begins with the started instance: none of those
  -- events is fed, now or later, and the store and its watermark are as they were.
  pub ingest-stopped :
      (all more : List Selected) (i : CanalInstance Regex)
      → i.running ≡ false
      → (ingest_loop lib more (restarted (selects (all ++ tick ∷ []) (idle i)))).instance_
        ≡ ingest lib more (Instance.start i).1
  unfolding ingest
  ingest-stopped all more i off =
      ap (λ s. (ingest_loop lib more (restarted s)).instance_) (selects-stopped all (idle i) off)
