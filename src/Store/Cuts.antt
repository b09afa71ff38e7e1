-- ===== src/Store/Cuts.antt =====
-- Where an answer of `get_batch` of crates/canal-store/src/memory.rs ends, and what stays behind it.
use canal_rust.Prelude.{
  ℕ, suc, ◌-◌, ◌≡◌, refl, sym, ap, ◌∙◌, inl, inr, true, false, not, List, [], ◌∷◌, ◌++◌, arith,
  length, take, drop, last_of, take_while, drop_while, min, All, All-map, Bool-cases, filter_none,
  filter-All, filter-append, take-append-drop, take_while-append-drop_while, All-last_of,
  All-take_while, last_of-last_of, get_elem?-last_of, take-min,
}
use canal_rust.Common.LogPosition.{Key, key_leb, key_eq}
use canal_rust.Common.LogPosition.Order.{
  key_leb_refl, key_leb_trans, key_leb_antisymm, key_eq_iff, key_eq_refl,
}
use mathlib.Core.List.{append_assoc}
use mathlib.Core.Path.{subst}
use canal_rust.Common.Event.{CanalEvent}
use canal_rust.Common.Events.{event_key}
use canal_rust.Store.Sorted.{
  AtOrBelow, IsSorted, IsSorted-append_right, AtOrBelow-take, AtOrBelow-trans, behind,
}
use canal_rust.Store.Reads.{cut_at}

behind-AtOrBelow : (k : Key) (xs : List CanalEvent) → All (AtOrBelow k) xs → behind k xs ≡ []
unfolding behind
behind-AtOrBelow k xs h = filter_none _ xs (All-map (AtOrBelow k) _ xs (λ e below. ap not below) h)

behind-append :
    (k : Key) (xs ys : List CanalEvent) → behind k (xs ++ ys) ≡ behind k xs ++ behind k ys
unfolding behind
behind-append k xs ys = filter-append _ xs ys

-- What stands in front of an event of a sorted list is at or below it.
AtOrBelow-front :
    (xs : List CanalEvent) (e : CanalEvent) (es : List CanalEvent)
    → IsSorted (xs ++ e ∷ es)
    → All (AtOrBelow (event_key e)) xs
AtOrBelow-front [] e es h = tt
AtOrBelow-front (x ∷ xs) e es h = (front xs h.0, AtOrBelow-front xs e es h.1)
  where
    front :
        (ys : List CanalEvent)
        → All (λ f. key_leb (event_key x) (event_key f) ≡ true) (ys ++ e ∷ es)
        → AtOrBelow (event_key e) x
    front [] a = a.0
    front (y ∷ ys) a = front ys a.1

-- The position group of `k` at the front of what follows it: the rest is strictly behind.
group-behind :
    (k : Key) (xs : List CanalEvent)
    → All (λ f. key_leb k (event_key f) ≡ true) xs
    → IsSorted xs
    → behind k xs ≡ drop_while (λ f. key_eq (event_key f) k) xs
unfolding behind
group-behind k [] above sorted = refl
group-behind k (x ∷ xs) above sorted = elim (Bool-cases (key_eq (event_key x) k)) [
  | inl same ↦
      let read : key_leb (event_key x) k ≡ true =
        ground (arith, key_eq_iff (event_key x) k, key_leb_refl k) in
      rw same (rw read (group-behind k xs above.1 sorted.1))
  | inr other ↦ rw other (
      filter-All _ (x ∷ xs) (
        unread_one x above.0 other,
        All-map _ _ xs (λ f g. beyond f g (unread_one x above.0 other)) sorted.0,
      ))
]
  where
    unread_one :
        (f : CanalEvent)
        → key_leb k (event_key f) ≡ true
        → key_eq (event_key f) k ≡ false
        → not (key_leb (event_key f) k) ≡ true
    unread_one f g ne = ground (arith, key_leb_antisymm (event_key f) k, key_eq_refl k)

    beyond :
        (f : CanalEvent)
        → key_leb (event_key x) (event_key f) ≡ true
        → not (key_leb (event_key x) k) ≡ true
        → not (key_leb (event_key f) k) ≡ true
    beyond f g u = ground (arith, key_leb_trans (event_key x) (event_key f) k)

-- What follows in a sorted list is at or above the last event in front of it.
above-last_of :
    (e : CanalEvent) (xs ys : List CanalEvent)
    → IsSorted ((e ∷ xs) ++ ys)
    → All (λ f. key_leb (event_key (last_of e xs)) (event_key f) ≡ true) ys
above-last_of e [] ys h = h.0
above-last_of e (x ∷ xs) ys h = above-last_of x xs ys h.1

-- The events of one answer but the first, and the key where it ends.
abbrev pub cut_rest : ℕ → CanalEvent → List CanalEvent → List CanalEvent
cut_rest k e es =
    take k es
    ++ take_while (λ f. key_eq (event_key f) (event_key (last_of e (take k es)))) (drop k es)

abbrev pub cut_key : ℕ → CanalEvent → List CanalEvent → Key
cut_key k e es = event_key (last_of e (cut_rest k e es))

cut_key-base :
    (k : ℕ) (e : CanalEvent) (es : List CanalEvent)
    → cut_key k e es ≡ event_key (last_of e (take k es))
cut_key-base k e es =
    let l = last_of e (take k es) in
    let same = λ (f : CanalEvent). key_eq (event_key f) (event_key l) in
    ap event_key (last_of-last_of e (take k es) (take_while same (drop k es)))
    ∙ key_eq_iff _ _ (
        All-last_of (λ f. same f ≡ true) l (take_while same (drop k es)) (key_eq_refl (event_key l))
          (All-take_while same (drop k es)))

base-AtOrBelow :
    (k : ℕ) (e : CanalEvent) (es : List CanalEvent)
    → IsSorted (e ∷ es)
    → All (AtOrBelow (event_key (last_of e (take k es)))) (e ∷ take k es)
base-AtOrBelow k e es h =
    let i = min (suc k) (length (e ∷ es)) - 1 in
    let j : suc i ≡ min (suc k) (length (e ∷ es)) = omega arith in
    let cut_off : take (suc i) (e ∷ es) ≡ e ∷ take k es =
      ap (λ n. take n (e ∷ es)) j ∙ take-min (suc k) (e ∷ es) in
    subst (All (AtOrBelow (event_key (last_of e (take k es))))) cut_off
      (AtOrBelow-take i (e ∷ es) (last_of e (take k es)) h (get_elem?-last_of k e es))

-- An answer and the events behind its last one are all that was unread: none is skipped at the cut,
-- none is sent again, and no position group is split.
pub cut_at-behind :
    (k : ℕ) (e : CanalEvent) (es : List CanalEvent)
    → IsSorted (e ∷ es)
    → cut_at k (e ∷ es) ++ behind (cut_key k e es) (e ∷ es) ≡ e ∷ es
cut_at-behind k e es h =
    let base = e ∷ take k es in
    let l = event_key (last_of e (take k es)) in
    let whole : base ++ drop k es ≡ e ∷ es = ap (◌∷◌ e) (take-append-drop k es) in
    let sorted : IsSorted (base ++ drop k es) = subst IsSorted (sym whole) h in
    let left : behind l (e ∷ es) ≡ drop_while (λ f. key_eq (event_key f) l) (drop k es) =
      ap (behind l) (sym whole)
      ∙ (behind-append l base (drop k es)
          ∙ (ap (λ t. t ++ behind l (drop k es)) (behind-AtOrBelow l base (base-AtOrBelow k e es h))
              ∙ group-behind l (drop k es) (above-last_of e (take k es) (drop k es) sorted)
                  (IsSorted-append_right base (drop k es) sorted))) in
    ap (λ t. cut_at k (e ∷ es) ++ t) (ap (λ q. behind q (e ∷ es)) (cut_key-base k e es) ∙ left)
    ∙ (append_assoc base (take_while (λ f. key_eq (event_key f) l) (drop k es))
          (drop_while (λ f. key_eq (event_key f) l) (drop k es))
        ∙ (ap (λ t. base ++ t) (take_while-append-drop_while _ (drop k es)) ∙ whole))

-- Where a read starts, the skipped events are at or below the end of its answer.
pub behind-whole :
    (k : ℕ) (pre : List CanalEvent) (e : CanalEvent) (es : List CanalEvent)
    → IsSorted (pre ++ e ∷ es)
    → behind (cut_key k e es) (pre ++ e ∷ es) ≡ behind (cut_key k e es) (e ∷ es)
behind-whole k pre e es h =
    let l = cut_key k e es in
    let first : key_leb (event_key e) l ≡ true =
      rw (cut_key-base k e es) ((base-AtOrBelow k e es (IsSorted-append_right pre (e ∷ es) h)).0) in
    behind-append l pre (e ∷ es)
    ∙ ap (λ t. t ++ behind l (e ∷ es))
        (behind-AtOrBelow l pre (
          All-map (AtOrBelow (event_key e)) (AtOrBelow l) pre
            (λ f below. AtOrBelow-trans (event_key e) l f first below)
            (AtOrBelow-front pre e es h)))
