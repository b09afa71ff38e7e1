-- ===== src/Binlog/TableMap.antt =====
-- crates/canal-binlog/src/table_map.rs: `TableMapCache`, from a table id to names and columns.
use canal_rust.Prelude.{ℕ, ◌≡◌, refl, Option, none, some, Bool, List, [], if◌then◌else◌, ◌==◌}
use canal_rust.Prelude.Bytes.{Text}
use canal_rust.Prelude.Int.{ℤ}
use canal_rust.Prelude.Dict.{Dict, nat_key, lookup, insert, remove, lookup-insert, lookup-remove}

pub record ColumnInfo : Type 0 where
  pub name : Text
  pub column_type : ℤ
  pub is_key : Bool
  pub is_nullable : Bool

pub record TableMapCache : Type 0 where
  pub names : Dict ℕ (Text × Text)
  pub columns : Dict ℕ (List ColumnInfo)

abbrev pub new : TableMapCache
new = record { names = []; columns = [] }

unfoldable pub put : ℕ → Text → Text → TableMapCache → TableMapCache
put table_id schema table c = record {
  names = insert table_id (schema, table) c.names;
  columns = remove table_id c.columns;
}

unfoldable pub put_with_columns : ℕ → Text → Text → List ColumnInfo → TableMapCache → TableMapCache
put_with_columns table_id schema table cols c = record {
  names = insert table_id (schema, table) c.names;
  columns = insert table_id cols c.columns;
}

unfoldable pub get : ℕ → TableMapCache → Option (Text × Text)
get table_id c = lookup table_id c.names

unfoldable pub get_columns : ℕ → TableMapCache → Option (List ColumnInfo)
get_columns table_id c = lookup table_id c.columns

unfoldable pub clear : TableMapCache → TableMapCache
clear c = record { names = []; columns = [] }

-- A name-only entry replaces the names of its id, forgets the columns of that id, which may belong
-- to another table by now, and leaves every other id alone.
pub get-put :
    (i j : ℕ) (schema table : Text) (c : TableMapCache)
    → (get j (put i schema table c) ≡ (if i == j then some (schema, table) else get j c))
      × (get_columns j (put i schema table c) ≡ (if i == j then none else get_columns j c))
unfolding get put get_columns
get-put i j schema table c =
    (lookup-insert i j (schema, table) c.names, lookup-remove i j c.columns)

-- An entry with columns replaces the names and the columns of its id, and of no other id.
pub get-put_with_columns :
    (i j : ℕ) (schema table : Text) (cols : List ColumnInfo) (c : TableMapCache)
    → (get j (put_with_columns i schema table cols c)
        ≡ (if i == j then some (schema, table) else get j c))
      × (get_columns j (put_with_columns i schema table cols c)
          ≡ (if i == j then some cols else get_columns j c))
unfolding get put_with_columns get_columns
get-put_with_columns i j schema table cols c =
    (lookup-insert i j (schema, table) c.names, lookup-insert i j cols c.columns)

pub get-clear : (i : ℕ) (c : TableMapCache) → get i (clear c) ≡ none
unfolding get clear lookup
get-clear i c = refl
