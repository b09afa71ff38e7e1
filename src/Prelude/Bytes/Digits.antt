-- ===== src/Prelude/Bytes/Digits.antt =====
-- The decimal texts of numbers with at most four digits, digit by digit.
use Prim.Native.Nat.{ℕ, suc, ◌+◌, ◌-◌, ◌/◌, ◌%◌, ◌≤◌, ◌<◌}
use mathlib.Core.Path.{◌≡◌, refl, ap, ◌∙◌}
use mathlib.Core.Bool.{true, false}
use mathlib.Core.List.{[], ◌∷◌}
use native.Mathlib.Omega.{arith}
use canal_rust.Prelude.Tests.{ltb}
use canal_rust.Prelude.Bytes.{Text, decimal_from, decimal}

last_digit : (fuel n : ℕ) (rest : Text) → n < 10 → decimal_from (suc fuel) n rest ≡ (48 + n) ∷ rest
unfolding decimal_from
last_digit fuel n rest h = let e : ltb n 10 ≡ true = ground arith in rw e refl

next_digit :
    (fuel n : ℕ) (rest : Text)
    → 10 ≤ n
    → decimal_from (suc fuel) n rest ≡ decimal_from fuel (n / 10) ((48 + n % 10) ∷ rest)
unfolding decimal_from
next_digit fuel n rest h = let e : ltb n 10 ≡ false = ground arith in rw e refl

pub decimal_1 : (n : ℕ) → n < 10 → decimal n ≡ (48 + n) ∷ []
unfolding decimal
decimal_1 n h = last_digit n n [] h

pub decimal_2 : (n : ℕ) → 10 ≤ n → n < 100 → decimal n ≡ (48 + n / 10) ∷ (48 + n % 10) ∷ []
unfolding decimal
decimal_2 n l h =
    let e : suc n ≡ suc (suc (n - 1)) = omega arith in
    ap (λ f. decimal_from f n []) e
    ∙ (next_digit (suc (n - 1)) n [] l ∙ last_digit (n - 1) (n / 10) _ (omega arith))

pub decimal_3 :
    (n : ℕ)
    → 100 ≤ n
    → n < 1000
    → decimal n ≡ (48 + n / 10 / 10) ∷ (48 + n / 10 % 10) ∷ (48 + n % 10) ∷ []
unfolding decimal
decimal_3 n l h =
    let e : suc n ≡ suc (suc (suc (n - 2))) = omega arith in
    ap (λ f. decimal_from f n []) e
    ∙ (next_digit (suc (suc (n - 2))) n [] (omega arith)
        ∙ (next_digit (suc (n - 2)) (n / 10) _ (omega arith)
            ∙ last_digit (n - 2) (n / 10 / 10) _ (omega arith)))

pub decimal_4 :
    (n : ℕ)
    → 1000 ≤ n
    → n < 10000
    → decimal n
      ≡ (48 + n / 10 / 10 / 10) ∷ (48 + n / 10 / 10 % 10) ∷ (48 + n / 10 % 10) ∷ (48 + n % 10) ∷ []
unfolding decimal
decimal_4 n l h =
    let e : suc n ≡ suc (suc (suc (suc (n - 3)))) = omega arith in
    ap (λ f. decimal_from f n []) e
    ∙ (next_digit (suc (suc (suc (n - 3)))) n [] (omega arith)
        ∙ (next_digit (suc (suc (n - 3))) (n / 10) _ (omega arith)
            ∙ (next_digit (suc (n - 3)) (n / 10 / 10) _ (omega arith)
                ∙ last_digit (n - 3) (n / 10 / 10 / 10) _ (omega arith))))
