-- ===== src/Prelude/Words.antt =====
-- Machine words: u64 and i64 casts, and the wrapping increment of an atomic counter.
use Prim.Native.Nat.{ℕ, ◌+◌, ◌-◌, ◌<◌}
use mathlib.Core.Path.{◌≡◌}
use native.Mathlib.Omega.{arith}
use canal_rust.Prelude.Tests.{ltb, ◌==◌, if◌then◌else◌}
use canal_rust.Prelude.Int.{ℤ, pos, negsuc}

abbrev pub u64_mod : ℕ
u64_mod = 18446744073709551616

abbrev pub u64_max : ℕ
u64_max = 18446744073709551615

abbrev pub i64_mod : ℕ
i64_mod = 9223372036854775808

-- `n as i64` of a u64 and `z as u64` of an i64: the same 64 bits.
unfoldable pub u64_as_i64 : ℕ → ℤ
u64_as_i64 n = if ltb n i64_mod then pos n else negsuc (u64_max - n)

unfoldable pub i64_as_u64 : ℤ → ℕ
i64_as_u64 (pos n) = n
i64_as_u64 (negsuc n) = u64_max - n

pub i64_as_u64-u64_as_i64 : (n : ℕ) → n < u64_mod → i64_as_u64 (u64_as_i64 n) ≡ n
unfolding u64_as_i64 i64_as_u64
i64_as_u64-u64_as_i64 n h = ground arith

-- `AtomicI64::fetch_add(1)`: the new value, which wraps from the greatest to the least.
unfoldable pub wrapping_inc : ℤ → ℤ
wrapping_inc (pos n) = if n == 9223372036854775807 then negsuc n else pos (n + 1)
wrapping_inc (negsuc n) = if n == 0 then pos 0 else negsuc (n - 1)
