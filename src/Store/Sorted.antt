-- ===== src/Store/Sorted.antt =====
-- Events in the order of their `(suffix, offset)` keys, which crates/canal-store/src/memory.rs
-- requires of what `put_batch` is fed, and what a position cursor splits them into.
use canal_rust.Prelude.{
  ℕ, zero, suc, ◌≡◌, refl, sym, ap, ◌∙◌, inl, inr, some, true, false, not, List, [], ◌∷◌, ◌++◌,
  arith, take, drop, get_elem?, filter, drop_while, All, All-map, All-append_left, Bool-cases,
  filter-All,
}
use canal_rust.Common.LogPosition.{Key, key_leb}
use canal_rust.Common.LogPosition.Order.{key_leb_refl, key_leb_trans}
use canal_rust.Common.Event.{CanalEvent}
use canal_rust.Common.Events.{event_key}

abbrev pub AtOrBelow : Key → CanalEvent → Type 0
AtOrBelow k e = key_leb (event_key e) k ≡ true

abbrev pub IsSorted : List CanalEvent → Type 0
IsSorted [] = Unit
IsSorted (e ∷ es) = All (λ f. key_leb (event_key e) (event_key f) ≡ true) es × IsSorted es

-- The events that a position cursor has not read.
unfoldable pub behind : Key → List CanalEvent → List CanalEvent
behind k = filter (λ e. not (key_leb (event_key e) k))

pub IsSorted-append_left : (xs ys : List CanalEvent) → IsSorted (xs ++ ys) → IsSorted xs
IsSorted-append_left [] ys h = tt
IsSorted-append_left (x ∷ xs) ys h = (All-append_left _ xs ys h.0, IsSorted-append_left xs ys h.1)

pub IsSorted-append_right : (xs ys : List CanalEvent) → IsSorted (xs ++ ys) → IsSorted ys
IsSorted-append_right [] ys h = h
IsSorted-append_right (x ∷ xs) ys h = IsSorted-append_right xs ys h.1

pub IsSorted-drop : (n : ℕ) (xs : List CanalEvent) → IsSorted xs → IsSorted (drop n xs)
IsSorted-drop zero xs h = h
IsSorted-drop (suc n) [] h = tt
IsSorted-drop (suc n) (x ∷ xs) h = IsSorted-drop n xs h.1

-- In a sorted list nothing up to an index lies above the event there.
pub AtOrBelow-take :
    (i : ℕ) (xs : List CanalEvent) (x : CanalEvent)
    → IsSorted xs
    → get_elem? xs i ≡ some x
    → All (AtOrBelow (event_key x)) (take (suc i) xs)
AtOrBelow-take i [] x h e = cc
AtOrBelow-take zero (y ∷ xs) x h e =
    let same : y ≡ x = ground arith in
    (ap (λ z. key_leb (event_key y) (event_key z)) (sym same) ∙ key_leb_refl (event_key y), tt)
AtOrBelow-take (suc i) (y ∷ xs) x h e = (mem-All i xs h.0 e, AtOrBelow-take i xs x h.1 e)
  where
    mem-All :
        (j : ℕ) (zs : List CanalEvent)
        → All (λ f. key_leb (event_key y) (event_key f) ≡ true) zs
        → get_elem? zs j ≡ some x
        → key_leb (event_key y) (event_key x) ≡ true
    mem-All j [] a p = cc
    mem-All zero (z ∷ zs) a p =
        let same : z ≡ x = ground arith in
        ap (λ w. key_leb (event_key y) (event_key w)) (sym same) ∙ a.0
    mem-All (suc j) (z ∷ zs) a p = mem-All j zs a.1 p

pub AtOrBelow-trans :
    (k l : Key) (e : CanalEvent) → key_leb k l ≡ true → AtOrBelow k e → AtOrBelow l e
AtOrBelow-trans k l e h below = key_leb_trans (event_key e) k l below h

-- On a sorted list the binary search of a position cursor finds exactly the unread events.
pub drop_while-behind :
    (k : Key) (xs : List CanalEvent)
    → IsSorted xs
    → drop_while (λ e. key_leb (event_key e) k) xs ≡ behind k xs
unfolding behind
drop_while-behind k [] h = refl
drop_while-behind k (x ∷ xs) h = elim (Bool-cases (key_leb (event_key x) k)) [
  | inl read ↦ rw read (drop_while-behind k xs h.1)
  | inr unread ↦
      rw unread (ap (◌∷◌ x) (sym (filter-All _ xs (All-map _ _ xs (λ f g. rest f g unread) h.0))))
]
  where
    rest :
        (f : CanalEvent)
        → key_leb (event_key x) (event_key f) ≡ true
        → key_leb (event_key x) k ≡ false
        → not (key_leb (event_key f) k) ≡ true
    rest f g unread = ground (arith, key_leb_trans (event_key x) (event_key f) k)
