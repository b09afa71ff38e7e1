-- ===== src/Common/LogPosition.antt =====
-- crates/canal-common/src/types.rs, lines 1 to 65: binlog positions and their order.
pub mod Order
pub mod Suffix
use Prim.Native.Nat.{compare, Ordering}
use canal_rust.Prelude.{
  ℕ, Option, none, some, Bool, true, false, [], ◌∷◌, ◌++◌, if◌then◌else◌, ltb, leb, ◌==◌,
}
use canal_rust.Prelude.Bytes.{Text, bytes, decimal, parse_u64}
use canal_rust.Prelude.Int.{ℤ}
use canal_rust.Prelude.Words.{u64_max}

pub record LogPosition : Type 0 where
  pub journal_name : Text
  pub position : ℕ
  pub timestamp : Option ℤ
  pub server_id : Option ℕ
  pub gtid : Option Text

unfoldable pub new : Text → ℕ → LogPosition
new journal_name position = record {
  journal_name = journal_name;
  position = position;
  timestamp = none;
  server_id = none;
  gtid = none;
}

-- `Display for LogPosition`
pub fmt : LogPosition → Text
fmt p = elim p.gtid [
  | some gtid ↦ p.journal_name ++ (bytes ":" ++ (decimal p.position ++ (bytes ":" ++ gtid)))
  | none ↦ p.journal_name ++ (bytes ":" ++ decimal p.position)
]

-- `s.rsplit('.').next()`: what stands behind the last dot, or the whole text.
rsplit_next : Text → Text → Text
rsplit_next segment [] = segment
rsplit_next segment (c ∷ cs) = rsplit_next (if c == b'.' then cs else segment) cs

unfoldable pub binlog_suffix : Text → ℕ
unfolding rsplit_next
binlog_suffix journal_name = elim (parse_u64 (rsplit_next journal_name journal_name)) [
  | some n ↦ n
  | none ↦ u64_max
]

-- `Ord for LogPosition`
unfoldable pub cmp : LogPosition → LogPosition → Ordering
cmp a b = elim (compare (binlog_suffix a.journal_name) (binlog_suffix b.journal_name)) [
  | Ordering.eq ↦ compare a.position b.position
  | o ↦ o
]

-- `a < b`
unfoldable pub lt : LogPosition → LogPosition → Bool
unfolding cmp
lt a b = elim (cmp a b) [ Ordering.lt ↦ true | _ ↦ false ]

-- `a > b`
unfoldable pub gt : LogPosition → LogPosition → Bool
unfolding cmp
gt a b = elim (cmp a b) [ Ordering.gt ↦ true | _ ↦ false ]

-- `a <= b` on pairs `(u64, u64)`, which Rust compares from the left
abbrev pub Key : Type 0
Key = ℕ × ℕ

unfoldable pub key_leb : Key → Key → Bool
key_leb (s, p) (t, q) = if ltb s t then true else if s == t then leb p q else false

unfoldable pub key_eq : Key → Key → Bool
key_eq (s, p) (t, q) = if s == t then p == q else false

abbrev pub key : LogPosition → Key
key p = (binlog_suffix p.journal_name, p.position)

pub record PositionRange : Type 0 where
  pub start : LogPosition
  pub end : LogPosition
