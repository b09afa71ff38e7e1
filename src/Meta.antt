-- ===== src/Meta.antt =====
-- crates/canal-meta/src/lib.rs: table schemas and their cache.
use canal_rust.Prelude.{
  ℕ, ◌≡◌, refl, ap, ◌∙◌, Option, none, some, Bool, true, false, List, [], ◌∷◌, length, filter, ◌==◌,
  if◌then◌else◌,
}
use canal_rust.Prelude.Bytes.{Text, text_eq}
use canal_rust.Prelude.Dict.{Dict, lookup, insert, remove, text_key, lookup-insert, lookup-remove}
use canal_rust.Prelude.Int.{ℤ}

pub record ColumnMeta : Type 0 where
  pub name : Text
  pub column_type : ℤ
  pub is_key : Bool
  pub is_nullable : Bool
  pub position : ℕ

-- `updated_at` is a time of the clock, in milliseconds.
pub record TableMeta : Type 0 where
  pub schema_name : Text
  pub table_name : Text
  pub columns : List ColumnMeta
  pub updated_at : ℤ

unfoldable pub primary_keys : TableMeta → List ColumnMeta
primary_keys t = filter (λ c. c.is_key) t.columns

unfoldable pub column_count : TableMeta → ℕ
column_count t = length t.columns

-- `iter().find(test)`
abbrev find : (ColumnMeta → Bool) → List ColumnMeta → Option ColumnMeta
find test [] = none
find test (c ∷ cs) = if test c then some c else find test cs

unfoldable pub get_column : Text → TableMeta → Option ColumnMeta
get_column name t = find (λ c. text_eq c.name name) t.columns

pub record TableMetaCache : Type 0 where
  pub tables : Dict Text TableMeta

unfoldable pub new : TableMetaCache
new = record { tables = [] }

unfoldable pub put : Text → TableMeta → TableMetaCache → TableMetaCache
put key meta cache = record { tables = insert key meta cache.tables }

unfoldable pub get : Text → TableMetaCache → Option TableMeta
get key cache = lookup key cache.tables

unfoldable pub remove_table : Text → TableMetaCache → TableMetaCache
remove_table key cache = record { tables = remove key cache.tables }

abbrev is_some : Option TableMeta → Bool
is_some none = false
is_some (some meta) = true

unfoldable pub contains : Text → TableMetaCache → Bool
contains key cache = is_some (lookup key cache.tables)

unfoldable pub len : TableMetaCache → ℕ
len cache = length cache.tables

unfoldable pub is_empty : TableMetaCache → Bool
unfolding len
is_empty cache = len cache == 0

unfoldable pub clear : TableMetaCache → TableMetaCache
clear cache = record { tables = [] }

-- The operations that change the cache, and what they make of it
pub data Op : Type 0 where
  putting : Text → TableMeta → Op
  removing : Text → Op
  clearing : Op

unfoldable pub run : List Op → TableMetaCache → TableMetaCache
run [] cache = cache
run (putting key meta ∷ ops) cache = run ops (put key meta cache)
run (removing key ∷ ops) cache = run ops (remove_table key cache)
run (clearing ∷ ops) cache = run ops (clear cache)

-- A map from keys to tables, of which a key's last operation decides
unfoldable pub latest : List Op → Text → Option TableMeta → Option TableMeta
latest [] key found = found
latest (putting k meta ∷ ops) key found =
    latest ops key (if text_eq k key then some meta else found)
latest (removing k ∷ ops) key found = latest ops key (if text_eq k key then none else found)
latest (clearing ∷ ops) key found = latest ops key none

-- After any operations a key has what its last operation gave it.
pub get-run :
    (ops : List Op) (key : Text) (cache : TableMetaCache)
    → get key (run ops cache) ≡ latest ops key (get key cache)
unfolding get run latest put remove_table clear lookup
get-run [] key cache = refl
get-run (putting k meta ∷ ops) key cache =
    get-run ops key (put k meta cache) ∙ ap (latest ops key) (lookup-insert k key meta cache.tables)
get-run (removing k ∷ ops) key cache =
    get-run ops key (remove_table k cache) ∙ ap (latest ops key) (lookup-remove k key cache.tables)
get-run (clearing ∷ ops) key cache = get-run ops key (clear cache)
