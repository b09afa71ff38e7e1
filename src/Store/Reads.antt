-- ===== src/Store/Reads.antt =====
-- The answers of `get_batch` in crates/canal-store/src/memory.rs: what is cut from the buffer, and
-- that a reader which follows the answers is sent every event once.
use canal_rust.Prelude.{
  ℕ, suc, ◌+◌, ◌-◌, ◌<◌, ◌≡◌, refl, sym, ap, ◌∙◌, inl, inr, Option, none, some, not, List, [], ◌∷◌,
  ◌++◌, arith, length, take, drop, get_elem?, last_of, take_while, drop_while, ltb, if◌then◌else◌,
  min, max, Bool-cases, drop-drop, length-drop, get_elem?-drop, take-add, take-take_while,
  drop-count_while, drop_all, is_empty, Option-cases, get_elem?-last_of, drop-cons, drop-min,
  take-min,
}
use canal_rust.Prelude.Words.{wrapping_inc}
use canal_rust.Prelude.Int.{ℤ, leb_ℤ}
use canal_rust.Common.LogPosition.{LogPosition, key, key_leb, key_eq}
use canal_rust.Common.Event.{CanalEvent}
use canal_rust.Common.Events
use canal_rust.Common.Events.{Events, event_key, event_position}
use canal_rust.Store.{MemoryEventStore, start_idx, base_end, end_idx, sub_slice, get_pass}
use canal_rust.Store.Sorted.{IsSorted, behind, drop_while-behind}

-- The events that a cursor has not read.
abbrev pub unread : LogPosition → List CanalEvent → List CanalEvent
unread start slice = elim start.timestamp [
  | some ts ↦ drop_while (λ e. not (leb_ℤ ts e.execute_time)) slice
  | none ↦ behind (key start) slice
]

-- One answer, cut from the unread events: `k + 1` of them, and then the rest of the position group
-- of the last of these.
abbrev pub cut_at : ℕ → List CanalEvent → List CanalEvent
cut_at k [] = []
cut_at k (e ∷ es) =
    (e ∷ take k es)
    ++ take_while (λ f. key_eq (event_key f) (event_key (last_of e (take k es)))) (drop k es)

abbrev pub cut : ℕ → List CanalEvent → List CanalEvent
cut batch_size = cut_at (max batch_size 1 - 1)

pub drop-start_idx :
    (start : LogPosition) (slice : List CanalEvent)
    → IsSorted slice
    → drop (start_idx start slice) slice ≡ unread start slice
unfolding start_idx
drop-start_idx start slice sorted = elim (Option-cases start.timestamp) [
  | inl e ↦
      rw (e, start_idx)
        (drop-count_while (λ f. key_leb (event_key f) (key start)) slice
          ∙ drop_while-behind (key start) slice sorted)
  | inr (ts, e) ↦ rw (e, start_idx) (drop-count_while (λ f. not (leb_ℤ ts f.execute_time)) slice)
]

-- `end_idx` seen from the start: the last event of the base, and the group behind it.
end_idx-drop :
    (i k : ℕ) (buf : List CanalEvent) (e : CanalEvent) (es : List CanalEvent)
    → drop i buf ≡ e ∷ es
    → length buf ≡ i + length (e ∷ es)
    → end_idx (min (i + suc k) (length buf)) buf
      ≡ length
          (take_while (λ f. key_eq (event_key f) (event_key (last_of e (take k es)))) (drop k es))
        + min (i + suc k) (length buf)
unfolding end_idx
end_idx-drop i k buf e es rest len =
    rw (at, end_idx)
      (ap
        (λ b.
          length (take_while (λ f. key_eq (event_key f) (event_key (last_of e (take k es)))) b)
          + min (i + suc k) (length buf))
        behind_base)
  where
    m : ℕ
    m = min (suc k) (length (e ∷ es))

    at : get_elem? buf (min (i + suc k) (length buf) - 1) ≡ some (last_of e (take k es))
    at =
        let h : min (i + suc k) (length buf) - 1 ≡ i + (m - 1) = omega arith in
        ap (get_elem? buf) h
        ∙ (sym (get_elem?-drop i (m - 1) buf)
            ∙ (ap (λ b. get_elem? b (m - 1)) rest ∙ get_elem?-last_of k e es))

    behind_base : drop (min (i + suc k) (length buf)) buf ≡ drop k es
    behind_base =
        let h : min (i + suc k) (length buf) ≡ i + m = omega arith in
        ap (λ j. drop j buf) h
        ∙ (sym (drop-drop m i buf) ∙ (ap (drop m) rest ∙ drop-min (suc k) (e ∷ es)))

sub_slice-cut_at :
    (i k : ℕ) (buf : List CanalEvent)
    → i < length buf
    → sub_slice i (end_idx (min (i + suc k) (length buf)) buf) buf ≡ cut_at k (drop i buf)
unfolding sub_slice
sub_slice-cut_at i k buf h =
    let (e, es, rest) = drop-cons i buf h in
    let same = λ (f : CanalEvent). key_eq (event_key f) (event_key (last_of e (take k es))) in
    let g = length (take_while same (drop k es)) in
    let m = min (suc k) (length (e ∷ es)) in
    let len : length buf ≡ i + length (e ∷ es) = omega (arith, length-drop i buf, ap length rest) in
    let h : g + min (i + suc k) (length buf) - i ≡ m + g = omega arith in
    ap (λ j. take (j - i) (drop i buf)) (end_idx-drop i k buf e es rest len)
    ∙ (ap (take (g + min (i + suc k) (length buf) - i)) rest
        ∙ (ap (λ j. take j (e ∷ es)) h
            ∙ (take-add m g (e ∷ es)
                ∙ (ap (λ l. l ++ take g (drop m (e ∷ es))) (take-min (suc k) (e ∷ es))
                    ∙ (ap (λ l. (e ∷ take k es) ++ take g l) (drop-min (suc k) (e ∷ es))
                        ∙ (ap (λ l. (e ∷ take k es) ++ l) (take-take_while same (drop k es))
                            ∙ ap (cut_at k) (sym rest)))))))

sub_slice-cut :
    (i batch_size : ℕ) (buf : List CanalEvent)
    → i < length buf
    → sub_slice i (end_idx (base_end i batch_size buf) buf) buf ≡ cut batch_size (drop i buf)
unfolding base_end
sub_slice-cut i batch_size buf h =
    let k = max batch_size 1 - 1 in
    let e : max batch_size 1 ≡ suc k = omega arith in
    ap (λ n. sub_slice i (end_idx (min (i + n) (length buf)) buf) buf) e
    ∙ sub_slice-cut_at i k buf h

abbrev pub answer : ℤ → List CanalEvent → Option Events
answer batch_id [] = none
answer batch_id (e ∷ es) = some (Events.with_events (e ∷ es) batch_id)

-- One pass of `get_batch` over a buffer that is in order answers with `cut` of the unread events,
-- or finds nothing exactly when none is unread; it takes a batch id only for an answer, and leaves
-- all else of the store alone.
pub get_pass-answer :
    (start : LogPosition) (batch_size : ℕ) (s : MemoryEventStore)
    → IsSorted s.buffer
    → get_pass start batch_size s ≡ (
      answer s.batch_id_seq (cut batch_size (unread start s.buffer)),
      record s {
        batch_id_seq =
            if is_empty (unread start s.buffer)
            then s.batch_id_seq
            else wrapping_inc s.batch_id_seq;
      },
    )
unfolding get_pass
get_pass-answer start batch_size s sorted =
    let i = start_idx start s.buffer in
    elim (Bool-cases (ltb i (length s.buffer))) [
      | inl some_left ↦
          let (x, xs, rest) = drop-cons i s.buffer (ground arith) in
          let found = sym (drop-start_idx start s.buffer sorted) ∙ rest in
          rw (found, some_left)
            (rw (sub_slice-cut i batch_size s.buffer (ground arith)) (rw rest refl))
      | inr none_left ↦
          let found =
            sym (drop-start_idx start s.buffer sorted) ∙ drop_all i s.buffer (ground arith) in
          rw (found, none_left) refl
    ]
