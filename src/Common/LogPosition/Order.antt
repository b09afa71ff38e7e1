-- ===== src/Common/LogPosition/Order.antt =====
-- The order of binlog positions: `LogPosition::cmp` against the order of `(suffix, offset)` keys.
use canal_rust.Prelude.{◌≡◌, true, false, not, ◌⊎◌, ◌↔◌, ◌<◌, arith}
use canal_rust.Common.LogPosition.{LogPosition, Key, key, key_leb, key_eq, lt, gt, binlog_suffix}

pub key_leb_refl : (a : Key) → key_leb a a ≡ true
unfolding key_leb
key_leb_refl a = ground arith

pub key_leb_trans : (a b c : Key) → key_leb a b ≡ true → key_leb b c ≡ true → key_leb a c ≡ true
unfolding key_leb
key_leb_trans a b c h k = ground arith

pub key_leb_total : (a b : Key) → key_leb a b ≡ false → key_leb b a ≡ true
unfolding key_leb
key_leb_total a b h = ground arith

pub key_leb_antisymm : (a b : Key) → key_leb a b ≡ true → key_leb b a ≡ true → a ≡ b
unfolding key_leb
key_leb_antisymm a b h k = ground arith

pub key_eq_iff : (a b : Key) → key_eq a b ≡ true → a ≡ b
unfolding key_eq
key_eq_iff a b h = ground arith

pub key_eq_refl : (a : Key) → key_eq a a ≡ true
unfolding key_eq
key_eq_refl a = ground arith

-- The comparison that the server and the store make is the strict order of the keys.
pub lt-not-key_leb : (a b : LogPosition) → lt a b ≡ not (key_leb (key b) (key a))
unfolding lt key_leb
lt-not-key_leb a b = ground arith

pub lt_iff :
    (a b : LogPosition)
    → (lt a b ≡ true) ↔ (
        (binlog_suffix a.journal_name < binlog_suffix b.journal_name)
        ⊎ ((binlog_suffix a.journal_name ≡ binlog_suffix b.journal_name)
            × (a.position < b.position)))
unfolding lt
lt_iff a b = ground arith

pub gt-lt : (a b : LogPosition) → gt a b ≡ lt b a
unfolding lt gt
gt-lt a b = ground arith
