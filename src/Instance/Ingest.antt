-- ===== src/Instance/Ingest.antt =====
-- crates/canal-cli/src/main.rs, lines 165 to 203: the task that feeds what the binlog connector
-- sends into the instance, in batches. `tokio::select!` makes one sequence of what the channel
-- delivers and of the ticks of the timer; the end of that sequence is the end of the channel.
use canal_rust.Prelude.{ℕ, List, [], ◌∷◌, ◌++◌, length, leb, if◌then◌else◌}
use canal_rust.Common.CanalError.{CanalResult, ok, err}
use canal_rust.Common.Event.{CanalEvent}
use canal_rust.Common.Regex.{RegexLib}
use canal_rust.Instance.{CanalInstance, feed}

pub data Selected : Type 0 where
  received : CanalResult CanalEvent → Selected
  tick : Selected

abbrev pub max_batch : ℕ
max_batch = 256

pub record Ingest (Regex : Type 0) : Type 0 where
  pub batch : List CanalEvent
  pub instance_ : CanalInstance Regex

module _ (lib : RegexLib) where
  open lib use {Regex}

  -- `instance.feed(batch.split_off(0))`; an error is only logged.
  unfoldable pub feed_batch : Ingest Regex → Ingest Regex
  feed_batch s = record { batch = []; instance_ = (feed lib s.batch s.instance_).1 }

  unfoldable pub flush : List CanalEvent → CanalInstance Regex → Ingest Regex
  flush [] i = record { batch = []; instance_ = i }
  flush (e ∷ es) i = feed_batch (record { batch = e ∷ es; instance_ = i })

  unfoldable pub on_selected : Selected → Ingest Regex → Ingest Regex
  on_selected (received (ok event)) s =
      let pushed : Ingest Regex = record {
        batch = s.batch ++ event ∷ [];
        instance_ = s.instance_;
      } in
      if leb max_batch (length (s.batch ++ event ∷ [])) then feed_batch pushed else pushed
  on_selected (received (err e)) s = s
  on_selected tick s = flush s.batch s.instance_

  unfoldable pub ingest_loop : List Selected → Ingest Regex → Ingest Regex
  ingest_loop [] s = flush s.batch s.instance_
  ingest_loop (selected ∷ more) s = ingest_loop more (on_selected selected s)

  -- The whole task, from the connected channel to its end
  unfoldable pub ingest : List Selected → CanalInstance Regex → CanalInstance Regex
  ingest all i = (ingest_loop all (record { batch = []; instance_ = i })).instance_
