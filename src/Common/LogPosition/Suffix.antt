-- ===== src/Common/LogPosition/Suffix.antt =====
-- What `binlog_suffix` reads from a journal name such as `mysql-bin.000042`.
use canal_rust.Prelude.{
  ℕ, ◌+◌, ◌-◌, ◌*◌, ◌≤◌, ◌<◌, ◌≡◌, refl, ◌↔◌, ◌⊎◌, true, false, some, [], ◌∷◌, ◌++◌, arith, All,
  ◌==◌, if◌then◌else◌,
}
use canal_rust.Prelude.Bytes.{Text, is_digit, parse_digits, parse_u64}
use canal_rust.Prelude.Words.{u64_mod}
use canal_rust.Common.LogPosition.Order.{lt_iff}
use canal_rust.Common.LogPosition.{rsplit_next, binlog_suffix, lt, new}

-- The number that digits stand for, behind those already read.
abbrev pub digits_value : ℕ → Text → ℕ
digits_value acc [] = acc
digits_value acc (c ∷ cs) = digits_value (acc * 10 + (c - 48)) cs

acc-le-digits_value : (acc : ℕ) (cs : Text) → acc ≤ digits_value acc cs
acc-le-digits_value acc [] = omega arith
acc-le-digits_value acc (c ∷ cs) = omega (arith, acc-le-digits_value (acc * 10 + (c - 48)) cs)

parse_digits_lem :
    (acc : ℕ) (cs : Text)
    → All (λ c. is_digit c ≡ true) cs
    → digits_value acc cs < u64_mod
    → parse_digits acc cs ≡ some (digits_value acc cs)
unfolding parse_digits
parse_digits_lem acc [] h lt = refl
parse_digits_lem acc (c ∷ cs) h lt =
    let below = acc-le-digits_value (acc * 10 + (c - 48)) cs in
    ground (arith, parse_digits_lem (acc * 10 + (c - 48)) cs h.1 lt)

rsplit_next-digits :
    (segment cs : Text) → All (λ c. is_digit c ≡ true) cs → rsplit_next segment cs ≡ segment
unfolding rsplit_next is_digit
rsplit_next-digits segment [] h = refl
rsplit_next-digits segment (c ∷ cs) h =
    let e : (c == b'.') ≡ false = ground arith in rw e (rsplit_next-digits segment cs h.1)

rsplit_next-dot :
    (base segment cs : Text)
    → All (λ c. is_digit c ≡ true) cs
    → rsplit_next segment (base ++ b'.' ∷ cs) ≡ cs
unfolding rsplit_next
rsplit_next-dot [] segment cs h = rsplit_next-digits cs cs h
rsplit_next-dot (b ∷ base) segment cs h =
    rsplit_next-dot base (if b == b'.' then base ++ b'.' ∷ cs else segment) cs h

digit-ne-plus : (c : ℕ) → is_digit c ≡ true → (c == b'+') ≡ false
unfolding is_digit
digit-ne-plus c h = ground arith

parse_u64_lem :
    (c : ℕ) (cs : Text)
    → All (λ c. is_digit c ≡ true) (c ∷ cs)
    → digits_value 0 (c ∷ cs) < u64_mod
    → parse_u64 (c ∷ cs) ≡ some (digits_value 0 (c ∷ cs))
unfolding parse_u64
parse_u64_lem c cs h lt = rw (digit-ne-plus c h.0) (parse_digits_lem 0 (c ∷ cs) h lt)

-- A journal name whose part behind the last dot is a non-empty run of digits below 2^64 has the
-- number of these digits as its suffix, whatever stands before the dot.
pub binlog_suffix-digits :
    (base : Text) (c : ℕ) (cs : Text)
    → All (λ c. is_digit c ≡ true) (c ∷ cs)
    → digits_value 0 (c ∷ cs) < u64_mod
    → binlog_suffix (base ++ b'.' ∷ c ∷ cs) ≡ digits_value 0 (c ∷ cs)
unfolding binlog_suffix
binlog_suffix-digits base c cs h fits = rw (
  rsplit_next-dot base (base ++ b'.' ∷ c ∷ cs) (c ∷ cs) h,
  parse_u64_lem c cs h fits,
  binlog_suffix,
)

-- Two positions in journals with numeric suffixes compare by the number of the file and, within one
-- number, by the offset. Leading zeros and the text before the dot play no part.
pub lt-new_iff :
    (b₁ b₂ : Text) (c₁ c₂ : ℕ) (cs₁ cs₂ : Text) (p q : ℕ)
    → All (λ c. is_digit c ≡ true) (c₁ ∷ cs₁)
    → All (λ c. is_digit c ≡ true) (c₂ ∷ cs₂)
    → digits_value 0 (c₁ ∷ cs₁) < u64_mod
    → digits_value 0 (c₂ ∷ cs₂) < u64_mod
    → (lt (new (b₁ ++ b'.' ∷ c₁ ∷ cs₁) p) (new (b₂ ++ b'.' ∷ c₂ ∷ cs₂) q) ≡ true) ↔ (
        (digits_value 0 (c₁ ∷ cs₁) < digits_value 0 (c₂ ∷ cs₂))
        ⊎ ((digits_value 0 (c₁ ∷ cs₁) ≡ digits_value 0 (c₂ ∷ cs₂)) × (p < q)))
unfolding new
lt-new_iff b₁ b₂ c₁ c₂ cs₁ cs₂ p q h₁ h₂ fits₁ fits₂ =
    rw (binlog_suffix-digits b₁ c₁ cs₁ h₁ fits₁, binlog_suffix-digits b₂ c₂ cs₂ h₂ fits₂) at
      (lt_iff (new (b₁ ++ b'.' ∷ c₁ ∷ cs₁) p) (new (b₂ ++ b'.' ∷ c₂ ∷ cs₂) q))
