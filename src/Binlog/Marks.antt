-- ===== src/Binlog/Marks.antt =====
-- Which columns an update marks: the loop of `handle_update_row_event` in
-- crates/canal-binlog/src/converter.rs.
use canal_rust.Prelude.{
  ℕ, zero, suc, ◌+◌, ◌≡◌, refl, ap, ◌∙◌, ◌↔◌, Option, none, some, true, not, List, [], ◌∷◌, arith,
  get_elem?,
}
use mathlib.Core.Option
use canal_rust.Prelude.Bytes.{Text, text_eq_iff}
use canal_rust.Common.Event.{ColumnValue}
use canal_rust.Binlog.Converter.{value_eq, mark_updated}

pub value_eq_iff : (a b : Option Text) → (value_eq a b ≡ true) ↔ (a ≡ b)
unfolding value_eq
value_eq_iff none none = ground arith
value_eq_iff none (some b) = ground arith
value_eq_iff (some a) none = ground arith
value_eq_iff (some a) (some b) = ground (arith, text_eq_iff a b)

abbrev pub marked : Option ColumnValue → ColumnValue → ColumnValue
marked none col = record col { updated = true }
marked (some b) col = record col { updated = not (value_eq b.value col.value) }

mark_updated_from :
    (before : List ColumnValue) (i j : ℕ) (after : List ColumnValue)
    → get_elem? (mark_updated before i after) j
      ≡ Option.map (marked (get_elem? before (i + j))) (get_elem? after j)
unfolding mark_updated
mark_updated_from before i j [] = refl
mark_updated_from before i zero (col ∷ after) =
    let e : i + 0 ≡ i = omega arith in rw e (ground arith)
mark_updated_from before i (suc j) (col ∷ after) =
    let e : suc i + j ≡ i + suc j = omega arith in
    mark_updated_from before (suc i) j after
    ∙ ap (λ k. Option.map (marked (get_elem? before k)) (get_elem? after j)) e

-- The after-image of an update keeps every column, and marks the `j`-th as updated exactly when the
-- before-image has no column `j` or another value there.
pub mark_updated-get_elem? :
    (before after : List ColumnValue) (j : ℕ)
    → get_elem? (mark_updated before 0 after) j
      ≡ Option.map (marked (get_elem? before j)) (get_elem? after j)
mark_updated-get_elem? before after j =
    let e : 0 + j ≡ j = omega arith in
    mark_updated_from before 0 j after
    ∙ ap (λ k. Option.map (marked (get_elem? before k)) (get_elem? after j)) e
