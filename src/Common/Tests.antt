-- ===== src/Common/Tests.antt =====
-- Concrete positions for crates/canal-common/src/types.rs.
use canal_rust.Prelude.{◌<◌, ◌≡◌, refl, ◌↔◌, ◌⊎◌, true, [], ◌∷◌, ◌++◌, arith}
use canal_rust.Prelude.Bytes.{bytes, is_digit}
use canal_rust.Common.LogPosition.{new, lt, binlog_suffix}
use canal_rust.Common.LogPosition.Suffix.{digits_value, binlog_suffix-digits, lt-new_iff}

program : Unit {0}
unfolding bytes is_digit
program = tt

binlog_suffix-digits_example :
    binlog_suffix (bytes "b.0" ++ b'.' ∷ b'4' ∷ b'2' ∷ []) ≡ digits_value 0 (b'4' ∷ b'2' ∷ [])
unfolding program
binlog_suffix-digits_example =
    binlog_suffix-digits (bytes "b.0") b'4' (b'2' ∷ []) (refl, (refl, tt)) (omega arith)

lt-new_iff_example :
    (lt (new (bytes "b" ++ b'.' ∷ b'9' ∷ []) 700) (new (bytes "a" ++ b'.' ∷ b'1' ∷ b'0' ∷ []) 4)
      ≡ true)
    ↔ ((digits_value 0 (b'9' ∷ []) < digits_value 0 (b'1' ∷ b'0' ∷ []))
        ⊎ ((digits_value 0 (b'9' ∷ []) ≡ digits_value 0 (b'1' ∷ b'0' ∷ [])) × (700 < 4)))
unfolding program
lt-new_iff_example =
    lt-new_iff (bytes "b") (bytes "a") b'9' b'1' [] (b'0' ∷ []) 700 4 (refl, tt) (refl, (refl, tt))
      (omega arith) (omega arith)
