-- ===== src/Prelude/Prefixes.antt =====
-- Cutting lists: prefixes, counts and last elements, and two lists one behind the other.
use Prim.Native.Nat.{◌<◌, ℕ, zero, suc, ◌+◌, ◌-◌, ◌≤◌, min}
use mathlib.Core.Path.{◌≡◌, refl, sym, ap, ◌∙◌}
use mathlib.Core.Bool.{Bool, true}
use mathlib.Core.List.{List, [], ◌∷◌, ◌++◌, map}
use mathlib.Core.Option.{some}
use mathlib.Core.Logic.{inl, inr}
use native.Mathlib.Decide.{dec_le}
use native.Mathlib.Omega.{arith}
use canal_rust.Prelude.Tests.{Bool-cases}
use canal_rust.Prelude.Lists.{
  length, get_elem?, take, drop, last_of, last?, take_while, drop_while, count_while, All, drop_all,
  take_all, last_of-append,
}

module _ {ℓ} {A : Type ℓ} where
  pub drop-min : (n : ℕ) (xs : List A) → drop (min n (length xs)) xs ≡ drop n xs
  drop-min n xs = elim (dec_le n (length xs)) [
    | yes h ↦ let e : min n (length xs) ≡ n = omega arith in ap (λ k. drop k xs) e
    | no h ↦
        let e : min n (length xs) ≡ length xs = omega arith in
        ap (λ k. drop k xs) e
        ∙ (drop_all (length xs) xs (omega arith) ∙ sym (drop_all n xs (omega arith)))
  ]

  pub take-nil : (n : ℕ) → take {A = A} n [] ≡ []
  take-nil zero = refl
  take-nil (suc n) = refl

  pub take-add : (m n : ℕ) (xs : List A) → take (m + n) xs ≡ take m xs ++ take n (drop m xs)
  take-add zero n xs = let e : 0 + n ≡ n = omega arith in ap (λ k. take k xs) e
  take-add (suc m) n [] = take-nil (suc m + n) ∙ sym (take-nil n)
  take-add (suc m) n (x ∷ xs) =
      let e : suc m + n ≡ suc (m + n) = omega arith in
      ap (λ k. take k (x ∷ xs)) e ∙ ap (◌∷◌ x) (take-add m n xs)

  pub take-take_while :
      (p : A → Bool) (xs : List A) → take (length (take_while p xs)) xs ≡ take_while p xs
  take-take_while p [] = refl
  take-take_while p (x ∷ xs) = elim (Bool-cases (p x)) [
    | inl h ↦ rw h (ap (◌∷◌ x) (take-take_while p xs))
    | inr h ↦ rw h refl
  ]

  pub drop-count_while : (p : A → Bool) (xs : List A) → drop (count_while p xs) xs ≡ drop_while p xs
  drop-count_while p [] = refl
  drop-count_while p (x ∷ xs) = elim (Bool-cases (p x)) [
    | inl h ↦ rw h (drop-count_while p xs)
    | inr h ↦ rw h refl
  ]

  pub count_while-le : (p : A → Bool) (xs : List A) → count_while p xs ≤ length xs
  count_while-le p [] = omega arith
  count_while-le p (x ∷ xs) = ground (arith, count_while-le p xs)

  pub drop-cons :
      (i : ℕ) (xs : List A) → i < length xs → (y : A) × (ys : List A) × (drop i xs ≡ y ∷ ys)
  drop-cons i [] h = absurd (omega arith)
  drop-cons zero (x ∷ xs) h = (x, xs, refl)
  drop-cons (suc i) (x ∷ xs) h = drop-cons i xs (omega arith)

  pub take-min : (n : ℕ) (xs : List A) → take (min n (length xs)) xs ≡ take n xs
  take-min n xs = elim (dec_le n (length xs)) [
    | yes h ↦ let e : min n (length xs) ≡ n = omega arith in ap (λ k. take k xs) e
    | no h ↦
        let e : min n (length xs) ≡ length xs = omega arith in
        ap (λ k. take k xs) e
        ∙ (take_all (length xs) xs (omega arith) ∙ sym (take_all n xs (omega arith)))
  ]

  pub last?-append : (xs : List A) (y : A) (ys : List A) → last? (xs ++ y ∷ ys) ≡ last? (y ∷ ys)
  last?-append [] y ys = refl
  last?-append (x ∷ xs) y ys = ap some (last_of-append x y xs ys)

  pub get_elem?-last_of :
      (n : ℕ) (x : A) (xs : List A)
      → get_elem? (x ∷ xs) (min (suc n) (length (x ∷ xs)) - 1) ≡ some (last_of x (take n xs))
  get_elem?-last_of zero x xs =
      let e : min 1 (length (x ∷ xs)) - 1 ≡ 0 = omega arith in ap (get_elem? (x ∷ xs)) e
  get_elem?-last_of (suc n) x [] =
      let e : min (suc (suc n)) 1 - 1 ≡ 0 = omega arith in ap (get_elem? (x ∷ [])) e
  get_elem?-last_of (suc n) x (y ∷ ys) =
      let e : min (suc (suc n)) (suc (suc (length ys))) - 1
          ≡ suc (min (suc n) (suc (length ys)) - 1) =
        omega arith in
      ap (get_elem? (x ∷ y ∷ ys)) e ∙ get_elem?-last_of n y ys

  pub last_of-last_of : (x : A) (xs ys : List A) → last_of x (xs ++ ys) ≡ last_of (last_of x xs) ys
  last_of-last_of x [] ys = refl
  last_of-last_of x (y ∷ xs) ys = last_of-last_of y xs ys

module _ {ℓ κ} {A : Type ℓ} where
  pub All-last_of : (P : A → Type κ) (x : A) (xs : List A) → P x → All P xs → P (last_of x xs)
  All-last_of P x [] h hs = h
  All-last_of P x (y ∷ ys) h hs = All-last_of P y ys hs.0 hs.1

module _ {ℓ} {A : Type ℓ} where
  pub All-take_while : (p : A → Bool) (xs : List A) → All (λ x. p x ≡ true) (take_while p xs)
  All-take_while p [] = tt
  All-take_while p (x ∷ xs) = elim (Bool-cases (p x)) [
    | inl h ↦ rw h (h, All-take_while p xs)
    | inr h ↦ rw h tt
  ]

pub take-append_whole {ℓ} :
    {A : Type ℓ} (n : ℕ) (xs ys : List A) → take (length xs + n) (xs ++ ys) ≡ xs ++ take n ys
take-append_whole {A} n [] ys =
    let e : length {A = A} [] + n ≡ n = omega arith in ap (λ m. take m ys) e
take-append_whole {A} n (x ∷ xs) ys =
    let e : length (x ∷ xs) + n ≡ suc (length xs + n) = omega arith in
    ap (λ m. take m (x ∷ (xs ++ ys))) e ∙ ap (◌∷◌ x) (take-append_whole n xs ys)

pub take-append_part {ℓ} :
    {A : Type ℓ} (n : ℕ) (xs ys : List A) → take (min n (length xs)) (xs ++ ys) ≡ take n xs
take-append_part zero xs ys =
    let e : min 0 (length xs) ≡ 0 = omega arith in ap (λ m. take m (xs ++ ys)) e
take-append_part {A} (suc n) [] ys =
    let e : min (suc n) (length {A = A} []) ≡ 0 = omega arith in ap (λ m. take m ys) e
take-append_part (suc n) (x ∷ xs) ys =
    let e : min (suc n) (length (x ∷ xs)) ≡ suc (min n (length xs)) = omega arith in
    ap (λ m. take m (x ∷ (xs ++ ys))) e ∙ ap (◌∷◌ x) (take-append_part n xs ys)

pub map-append {ℓ κ} :
    {A : Type ℓ} {B : Type κ} (f : A → B) (xs ys : List A) → map f (xs ++ ys) ≡ map f xs ++ map f ys
map-append f [] ys = refl
map-append f (x ∷ xs) ys = ap (◌∷◌ (f x)) (map-append f xs ys)
