-- ===== src/Store/Delivery.antt =====
-- A reader of crates/canal-store/src/memory.rs that takes the end of each answer of `get_batch` as
-- its next cursor, as `handle_get` of crates/canal-server/src/server.rs does.
use canal_rust.Prelude.{
  ℕ, zero, suc, ◌-◌, ◌≤◌, ◌≡◌, refl, sym, ap, ◌∙◌, Option, none, some, List, [], ◌∷◌, ◌++◌, arith,
  length, take, last_of, max, if◌then◌else◌, is_empty, drop_all, take-append-drop, length-append,
}
use canal_rust.Prelude.Words.{wrapping_inc}
use canal_rust.Common.LogPosition
use canal_rust.Common.LogPosition.{LogPosition, Key, key, key_leb, key_eq}
use mathlib.Core.Path.{subst}
use canal_rust.Common.Event.{CanalEvent}
use canal_rust.Common.Events
use canal_rust.Common.Events.{Events, event_key, event_position}
use canal_rust.Store.{MemoryEventStore, get_pass, start_idx}
use canal_rust.Store.Sorted.{IsSorted, IsSorted-append_right, behind}
use canal_rust.Store.Reads.{unread, cut_at, cut, answer, drop-start_idx, get_pass-answer}
use canal_rust.Store.Cuts.{cut_rest, cut_key, cut_at-behind, behind-whole}

-- A reader that polls until nothing is left, with the end of each answer as its next cursor.
read_on :
    (LogPosition → MemoryEventStore → List CanalEvent)
    → Option Events × MemoryEventStore
    → List CanalEvent
read_on next (none, s) = []
read_on next (some batch, s) = batch.events ++ next batch.position_range.end s

unfoldable pub read_all : ℕ → ℕ → LogPosition → MemoryEventStore → List CanalEvent
unfolding read_on
read_all zero batch_size start s = []
read_all (suc fuel) batch_size start s =
    read_on (read_all fuel batch_size) (get_pass start batch_size s)

unread-event_position :
    (e : CanalEvent) (xs : List CanalEvent) → unread (event_position e) xs ≡ behind (event_key e) xs
unfolding event_position LogPosition.new
unread-event_position e xs = refl

-- The next read of the same buffer, after an answer that started at `e ∷ es`.
pub next_unread :
    (start : LogPosition) (k : ℕ) (buf : List CanalEvent) (e : CanalEvent) (es : List CanalEvent)
    → IsSorted buf
    → unread start buf ≡ e ∷ es
    → cut_at k (e ∷ es) ++ unread (event_position (last_of e (cut_rest k e es))) buf ≡ e ∷ es
next_unread start k buf e es h found =
    let i = start_idx start buf in
    let split : take i buf ++ e ∷ es ≡ buf =
      ap (λ t. take i buf ++ t) (sym found ∙ sym (drop-start_idx start buf h))
      ∙ take-append-drop i buf in
    let sorted = subst IsSorted (sym split) h in
    ap (λ t. cut_at k (e ∷ es) ++ t)
      (unread-event_position (last_of e (cut_rest k e es)) buf
        ∙ (ap (behind (cut_key k e es)) (sym split) ∙ behind-whole k (take i buf) e es sorted))
    ∙ cut_at-behind k e es (IsSorted-append_right (take i buf) (e ∷ es) sorted)

read_all-step :
    (fuel : ℕ) (batch_size : ℕ) (start : LogPosition) (s : MemoryEventStore)
    → IsSorted s.buffer
    → read_all (suc fuel) batch_size start s
      ≡ read_on (read_all fuel batch_size) (
        answer s.batch_id_seq (cut batch_size (unread start s.buffer)),
        record s {
          batch_id_seq =
              if is_empty (unread start s.buffer)
              then s.batch_id_seq
              else wrapping_inc s.batch_id_seq;
        },
      )
unfolding read_all
read_all-step fuel batch_size start s h =
    ap (read_on (read_all fuel batch_size)) (get_pass-answer start batch_size s h)

-- A reader that polls a quiet store as often as there are unread events, from any cursor and with
-- any batch size, is sent every unread event exactly once and in order.
pub read_all-unread :
    (fuel batch_size : ℕ) (start : LogPosition) (s : MemoryEventStore)
    → IsSorted s.buffer
    → length (unread start s.buffer) ≤ fuel
    → read_all fuel batch_size start s ≡ unread start s.buffer
unfolding read_all Events.with_events
read_all-unread zero batch_size start s h enough = sym (drop_all 0 (unread start s.buffer) enough)
read_all-unread (suc fuel) batch_size start s h enough =
    read_all-step fuel batch_size start s h
    ∙ go (read_all-unread fuel batch_size) (unread start s.buffer) refl
  where
    after : List CanalEvent → MemoryEventStore
    after u = record s {
      batch_id_seq = if is_empty u then s.batch_id_seq else wrapping_inc s.batch_id_seq;
    }

    go :
        ((p : LogPosition) (t : MemoryEventStore)
          → IsSorted t.buffer
          → length (unread p t.buffer) ≤ fuel
          → read_all fuel batch_size p t ≡ unread p t.buffer)
        → (u : List CanalEvent) → unread start s.buffer ≡ u
        → read_on (read_all fuel batch_size) (answer s.batch_id_seq (cut batch_size u), after u) ≡ u
    go ih [] found = refl
    go ih (e ∷ es) found =
        let k = max batch_size 1 - 1 in
        let end = event_position (last_of e (cut_rest k e es)) in
        let next = next_unread start k s.buffer e es h found in
        let fewer : length (unread end s.buffer) ≤ fuel = omega (
          arith,
          ap length next,
          length-append (cut_at k (e ∷ es)) (unread end s.buffer),
          ap length found,
        ) in
        ap (λ t. cut_at k (e ∷ es) ++ t) (ih end (after (e ∷ es)) h fewer) ∙ next
