-- ===== src/Binlog/ColumnSerde.antt =====
-- crates/canal-binlog/src/column_serde.rs: column metadata and row cells of the `mysql_cdc` crate.
use canal_rust.Prelude.{
  ℕ, zero, suc, Option, none, some, Bool, true, false, List, [], ◌∷◌, ◌++◌, map, length, get_elem?,
  ltb, if◌then◌else◌,
}
use canal_rust.Prelude.Bytes.{Text, bytes, decimal}
use canal_rust.Prelude.Int.{pos}
use canal_rust.Common.Event.{ColumnValue}
use canal_rust.Binlog.TableMap.{ColumnInfo}

-- The fields of `mysql_cdc`'s `TableMetadata` and `TableMapEvent` that the program reads.
pub record TableMetadata : Type 0 where
  pub column_names : Option (List Text)
  pub simple_primary_keys : Option (List ℕ)
  pub primary_keys_with_prefix : Option (List (ℕ × ℕ))

pub record TableMapEvent : Type 0 where
  pub table_id : ℕ
  pub database_name : Text
  pub table_name : Text
  pub column_types : List ℕ
  pub null_bitmap : List Bool
  pub table_metadata : Option TableMetadata

-- `vec[i] = v`, with the index tested before
abbrev set {ℓ} : {A : Type ℓ} → List A → ℕ → A → List A
set [] i v = []
set (x ∷ xs) zero v = v ∷ xs
set (x ∷ xs) (suc i) v = x ∷ set xs i v

abbrev replicate {ℓ} : {A : Type ℓ} → ℕ → A → List A
replicate zero v = []
replicate (suc n) v = v ∷ replicate n v

-- `for &idx in pks { if idx < num_cols { is_key[idx] = true } }`
mark_keys : ℕ → List ℕ → List Bool → List Bool
mark_keys num_cols [] is_key = is_key
mark_keys num_cols (idx ∷ pks) is_key =
    mark_keys num_cols pks (if ltb idx num_cols then set is_key idx true else is_key)

abbrev or_empty {ℓ} : {A : Type ℓ} → Option (List A) → List A
or_empty none = []
or_empty (some xs) = xs

abbrev firsts : List (ℕ × ℕ) → List ℕ
firsts = map (λ p. p.0)

key_flags : ℕ → Option TableMetadata → List Bool
unfolding mark_keys
key_flags num_cols none = replicate num_cols false
key_flags num_cols (some meta) =
    mark_keys num_cols (firsts (or_empty meta.primary_keys_with_prefix))
      (mark_keys num_cols (or_empty meta.simple_primary_keys) (replicate num_cols false))

unfoldable pub col_name : ℕ → Text
col_name i = bytes "col_" ++ decimal i

-- `(0..n).map(f)`, from `i` on
abbrev range_map {ℓ} : {A : Type ℓ} → (ℕ → A) → ℕ → ℕ → List A
range_map f i zero = []
range_map f i (suc n) = f i ∷ range_map f (suc i) n

abbrev unwrap_or {ℓ} : {A : Type ℓ} → Option A → A → A
unwrap_or none d = d
unwrap_or (some x) d = x

column_names : TableMapEvent → List Text
column_names tm = elim tm.table_metadata [
  | none ↦ range_map col_name 0 (length tm.column_types)
  | some meta ↦ unwrap_or meta.column_names (range_map col_name 0 (length tm.column_types))
]

unfoldable pub build_column_infos : TableMapEvent → List ColumnInfo
unfolding key_flags column_names
build_column_infos tm =
    let num_cols = length tm.column_types in
    let names = column_names tm in
    let is_key = key_flags num_cols tm.table_metadata in
    range_map
      (λ i. record {
        name = unwrap_or (get_elem? names i) (col_name i);
        column_type = pos (unwrap_or (get_elem? tm.column_types i) 0);
        is_key = unwrap_or (get_elem? is_key i) false;
        is_nullable = unwrap_or (get_elem? tm.null_bitmap i) true;
      })
      0 num_cols

-- A row of `mysql_cdc` is its cells; `to_string` is `mysql_value_to_string`.
module _ {V : Type 0} (to_string : V → Text) where
  unfoldable pub column_value : Option ColumnInfo → ℕ → Option V → ColumnValue
  column_value none i cell = record {
    name = col_name i;
    value = elim cell [ none ↦ none | some v ↦ some (to_string v) ];
    column_type = pos 0;
    is_key = false;
    updated = false;
  }
  column_value (some info) i cell = record {
    name = info.name;
    value = elim cell [ none ↦ none | some v ↦ some (to_string v) ];
    column_type = info.column_type;
    is_key = info.is_key;
    updated = false;
  }

  unfoldable pub extract_from : List ColumnInfo → ℕ → List (Option V) → List ColumnValue
  unfolding column_value
  extract_from infos i [] = []
  extract_from infos i (cell ∷ cells) =
      column_value (get_elem? infos i) i cell ∷ extract_from infos (suc i) cells

  unfoldable pub extract_column_values : List (Option V) → List ColumnInfo → List ColumnValue
  unfolding extract_from
  extract_column_values cells infos = extract_from infos 0 cells
