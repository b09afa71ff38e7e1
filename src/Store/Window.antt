-- ===== src/Store/Window.antt =====
-- `put_batch` of crates/canal-store/src/memory.rs keeps the newest events: the buffer is a window
-- at the end of everything that was put.
use canal_rust.Prelude.{
  ℕ, ◌+◌, ◌-◌, ◌≤◌, ◌≡◌, refl, sym, ap, ◌∙◌, inl, inr, List, [], ◌∷◌, ◌++◌, arith, length, drop,
  ltb, Bool-cases, drop-min, drop-append, drop-drop, length-append, length-drop,
}
use mathlib.Core.List.{append-nil}
use canal_rust.Common.Event.{CanalEvent}
use canal_rust.Store.{MemoryEventStore, drain, split_off, put_batch}

abbrev pub keep_last {ℓ} : {A : Type ℓ} → ℕ → List A → List A
keep_last n xs = drop (length xs - n) xs

drain-eq-drop :
    (s : MemoryEventStore) (events : List CanalEvent)
    → drain s events ≡ drop (length s.buffer + length events - s.capacity) s.buffer
unfolding drain
drain-eq-drop s events = elim (Bool-cases (ltb s.capacity (length s.buffer + length events))) [
  | inl over ↦ rw over (drop-min _ s.buffer)
  | inr fits ↦
      let e : 0 ≡ length s.buffer + length events - s.capacity = ground arith in
      rw fits (ap (λ k. drop k s.buffer) e)
]

pub split_off-eq-drop :
    (s : MemoryEventStore) (events : List CanalEvent)
    → split_off s events ≡ drop (length events - s.capacity) events
unfolding split_off
split_off-eq-drop s events = elim (Bool-cases (ltb s.capacity (length events))) [
  | inl over ↦ rw over refl
  | inr fits ↦
      let e : 0 ≡ length events - s.capacity = ground arith in rw fits (ap (λ k. drop k events) e)
]

pub keep_last-append {ℓ} :
    {A : Type ℓ} (n : ℕ) (xs ys : List A)
    → keep_last n (xs ++ ys) ≡ drop (length xs + length ys - n) xs ++ drop (length ys - n) ys
keep_last-append n xs ys =
    let e : length (xs ++ ys) - n ≡ length xs + length ys - n =
      omega (arith, length-append xs ys) in
    let e' : length xs + length ys - n - length xs ≡ length ys - n = omega arith in
    ap (λ k. drop k (xs ++ ys)) e
    ∙ (drop-append (length xs + length ys - n) xs ys
        ∙ ap (λ k. drop (length xs + length ys - n) xs ++ drop k ys) e')

pub length-keep_last {ℓ} : {A : Type ℓ} (n : ℕ) (xs : List A) → length (keep_last n xs) ≤ n
length-keep_last n xs = omega (arith, length-drop (length xs - n) xs)

pub keep_last_all {ℓ} : {A : Type ℓ} (n : ℕ) (xs : List A) → length xs ≤ n → keep_last n xs ≡ xs
keep_last_all n xs h = let e : length xs - n ≡ 0 = omega arith in ap (λ k. drop k xs) e

-- After any batch, empty and oversized ones included, a buffer within its capacity holds exactly
-- the last `capacity` events of the old buffer followed by the batch, in order.
pub put_batch-window :
    (events : List CanalEvent) (s : MemoryEventStore)
    → length s.buffer ≤ s.capacity
    → (put_batch events s).1.buffer ≡ keep_last s.capacity (s.buffer ++ events)
unfolding put_batch
put_batch-window [] s h = rw append-nil (sym (keep_last_all s.capacity s.buffer h))
put_batch-window (e ∷ es) s h =
    rw (drain-eq-drop s (e ∷ es))
      (rw (split_off-eq-drop s (e ∷ es)) (sym (keep_last-append s.capacity s.buffer (e ∷ es))))

-- A window of a window that grows is the window of the whole.
pub keep_last-keep_last {ℓ} :
    {A : Type ℓ} (n : ℕ) (xs ys : List A)
    → keep_last n (keep_last n xs ++ ys) ≡ keep_last n (xs ++ ys)
keep_last-keep_last n xs ys =
    let m = length xs - n in
    let k = length (drop m xs) + length ys - n in
    let e : m + k ≡ length xs + length ys - n = omega (arith, length-drop m xs) in
    keep_last-append n (keep_last n xs) ys
    ∙ (ap (λ t. t ++ drop (length ys - n) ys) (drop-drop k m xs ∙ ap (λ j. drop j xs) e)
        ∙ sym (keep_last-append n xs ys))
