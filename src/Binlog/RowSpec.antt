-- ===== src/Binlog/RowSpec.antt =====
-- The columns that a row event must carry, described for themselves: what column_serde.rs and
-- converter.rs of crates/canal-binlog/src have to make of the cells of a row.
use canal_rust.Prelude.{
  ℕ, suc, ◌+◌, ◌≡◌, refl, ap, ◌∙◌, Option, none, some, Bool, true, false, not, List, [], ◌∷◌, ◌++◌,
  arith, get_elem?,
}
use mathlib.Core.Path.{ap₂}
use canal_rust.Prelude.Bytes.{Text, bytes, decimal, text_eq}
use canal_rust.Prelude.Int.{pos}
use canal_rust.Common.Event.{ColumnValue}
use canal_rust.Binlog.TableMap.{ColumnInfo}
use canal_rust.Binlog.Converter.{value_eq, mark_updated}
use canal_rust.Binlog.ColumnSerde.{column_value, col_name, extract_from, extract_column_values}

module _ {V : Type 0} (to_string : V → Text) where
  abbrev pub cell_text : Option V → Option Text
  cell_text none = none
  cell_text (some v) = some (to_string v)

  -- A cell behind the known columns has its place, counted from 0, as its name.
  abbrev pub row_columns : List ColumnInfo → ℕ → List (Option V) → List ColumnValue
  row_columns infos i [] = []
  row_columns [] i (cell ∷ cells) =
      record {
        name = bytes "col_" ++ decimal i;
        value = cell_text cell;
        column_type = pos 0;
        is_key = false;
        updated = false;
      }
      ∷ row_columns [] (suc i) cells
  row_columns (info ∷ infos) i (cell ∷ cells) =
      record {
        name = info.name;
        value = cell_text cell;
        column_type = info.column_type;
        is_key = info.is_key;
        updated = false;
      }
      ∷ row_columns infos (suc i) cells

-- The elements of the first list from `i` on are those of the second.
abbrev From {ℓ} : {A : Type ℓ} → List A → ℕ → List A → Type ℓ
From all i rest = (j : ℕ) → get_elem? all (i + j) ≡ get_elem? rest j

From-start {ℓ} : {A : Type ℓ} (all : List A) → From all 0 all
From-start all j = let e : 0 + j ≡ j = omega arith in ap (get_elem? all) e

From-here {ℓ} :
    {A : Type ℓ} (all : List A) (i : ℕ) (rest : List A)
    → From all i rest
    → get_elem? all i ≡ get_elem? rest 0
From-here all i rest h = let e : i ≡ i + 0 = omega arith in ap (get_elem? all) e ∙ h 0

From-none {ℓ} : {A : Type ℓ} (all : List A) (i : ℕ) → From all i [] → From all (suc i) []
From-none all i h j =
    let e : suc i + j ≡ i + suc j = omega arith in ap (get_elem? all) e ∙ h (suc j)

From-next {ℓ} :
    {A : Type ℓ} (all : List A) (i : ℕ) (x : A) (rest : List A)
    → From all i (x ∷ rest)
    → From all (suc i) rest
From-next all i x rest h j =
    let e : suc i + j ≡ i + suc j = omega arith in ap (get_elem? all) e ∙ h (suc j)

module _ {V : Type 0} (to_string : V → Text) where
  extract_from-row_columns :
      (all : List ColumnInfo) (rest : List ColumnInfo) (i : ℕ) (cells : List (Option V))
      → From all i rest
      → extract_from to_string all i cells ≡ row_columns to_string rest i cells
  unfolding extract_from column_value col_name
  extract_from-row_columns all rest i [] h = refl
  extract_from-row_columns all [] i (none ∷ cells) h =
      ap₂ (λ o t. column_value to_string o i none ∷ t) (From-here all i [] h)
        (extract_from-row_columns all [] (suc i) cells (From-none all i h))
  extract_from-row_columns all [] i (some v ∷ cells) h =
      ap₂ (λ o t. column_value to_string o i (some v) ∷ t) (From-here all i [] h)
        (extract_from-row_columns all [] (suc i) cells (From-none all i h))
  extract_from-row_columns all (info ∷ rest) i (none ∷ cells) h =
      ap₂ (λ o t. column_value to_string o i none ∷ t) (From-here all i (info ∷ rest) h)
        (extract_from-row_columns all rest (suc i) cells (From-next all i info rest h))
  extract_from-row_columns all (info ∷ rest) i (some v ∷ cells) h =
      ap₂ (λ o t. column_value to_string o i (some v) ∷ t) (From-here all i (info ∷ rest) h)
        (extract_from-row_columns all rest (suc i) cells (From-next all i info rest h))

  pub extract_column_values-row_columns :
      (infos : List ColumnInfo) (cells : List (Option V))
      → extract_column_values to_string cells infos ≡ row_columns to_string infos 0 cells
  unfolding extract_column_values
  extract_column_values-row_columns infos cells =
      extract_from-row_columns infos infos 0 cells (From-start infos)

abbrev pub differs : Option Text → Option Text → Bool
differs none none = false
differs none (some b) = true
differs (some a) none = true
differs (some a) (some b) = not (text_eq a b)

-- The after-image of an update: a column is marked where it is new or its value differs.
abbrev pub marked_after : List ColumnValue → List ColumnValue → List ColumnValue
marked_after before [] = []
marked_after [] (col ∷ after) = record col { updated = true } ∷ marked_after [] after
marked_after (b ∷ before) (col ∷ after) =
    record col { updated = differs b.value col.value } ∷ marked_after before after

not-value_eq : (a b : Option Text) → not (value_eq a b) ≡ differs a b
unfolding value_eq
not-value_eq none none = refl
not-value_eq none (some b) = refl
not-value_eq (some a) none = refl
not-value_eq (some a) (some b) = refl

abbrev mark_by : ColumnValue → Option ColumnValue → ColumnValue
mark_by col o = record col {
  updated = elim o [ none ↦ true | some b ↦ not (value_eq b.value col.value) ];
}

mark_updated-marked :
    (all rest : List ColumnValue) (i : ℕ) (after : List ColumnValue)
    → From all i rest
    → mark_updated all i after ≡ marked_after rest after
unfolding mark_updated
mark_updated-marked all rest i [] h = refl
mark_updated-marked all [] i (col ∷ after) h =
    ap₂ (λ o t. mark_by col o ∷ t) (From-here all i [] h)
      (mark_updated-marked all [] (suc i) after (From-none all i h))
mark_updated-marked all (b ∷ rest) i (col ∷ after) h =
    ap₂ (λ o t. mark_by col o ∷ t) (From-here all i (b ∷ rest) h)
      (mark_updated-marked all rest (suc i) after (From-next all i b rest h))
    ∙ ap (λ u. record col { updated = u } ∷ marked_after rest after)
        (not-value_eq b.value col.value)

pub mark_updated-marked_after :
    (before after : List ColumnValue) → mark_updated before 0 after ≡ marked_after before after
mark_updated-marked_after before after =
    mark_updated-marked before before 0 after (From-start before)
