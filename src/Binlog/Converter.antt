-- ===== src/Binlog/Converter.antt =====
-- crates/canal-binlog/src/converter.rs: `EventConverter`, from row images to `RowChange`.
use canal_rust.Prelude.{
  ℕ, suc, Option, none, some, Bool, true, false, not, List, [], ◌∷◌, ◌++◌, get_elem?,
}
use canal_rust.Prelude.Bytes.{Text, bytes, decimal, text_eq}
use canal_rust.Common.CanalError.{CanalError, CanalResult, ok, err, not_found, internal, ◌>>=◌}
use canal_rust.Common.Event.{EventType, DmlType, ColumnValue, RowData, RowChange, debug}
use canal_rust.Binlog.TableMap
use canal_rust.Binlog.TableMap.{ColumnInfo, TableMapCache}

pub record EventConverter : Type 0 where
  pub table_map : TableMapCache

abbrev pub new : EventConverter
new = record { table_map = TableMap.new }

unfoldable pub handle_table_map : ℕ → Text → Text → EventConverter → EventConverter
handle_table_map table_id schema table c = record {
  table_map = TableMap.put table_id schema table c.table_map;
}

unfoldable pub handle_table_map_event :
    ℕ → Text → Text → List ColumnInfo → EventConverter → EventConverter
handle_table_map_event table_id schema table columns c = record {
  table_map = TableMap.put_with_columns table_id schema table columns c.table_map;
}

unfoldable pub get_columns : ℕ → EventConverter → Option (List ColumnInfo)
get_columns table_id c = TableMap.get_columns table_id c.table_map

unfoldable pub unknown_table : ℕ → CanalError
unknown_table table_id = not_found (
    bytes "table_id "
    ++ (decimal table_id ++ bytes " not found in TableMap — did you call handle_table_map_event?"))

pub unsupported : Text → CanalError
unsupported event_type = internal (
    bytes "handle_row_event does not support "
    ++ (event_type ++ bytes "; use handle_update_row_event"))

images : EventType → List ColumnValue → CanalResult (Option RowData × Option RowData × DmlType)
images EventType.insert columns = ok (none, some (record { columns = columns }), DmlType.insert)
images EventType.delete columns = ok (some (record { columns = columns }), none, DmlType.delete)
images other columns = err (unsupported (debug other))

-- `.ok_or_else(|| CanalError::NotFound(...))`
abbrev pub or_unknown : ℕ → Option (Text × Text) → CanalResult (Text × Text)
or_unknown table_id none = err (unknown_table table_id)
or_unknown table_id (some names) = ok names

unfoldable pub found_table : ℕ → EventConverter → CanalResult (Text × Text)
found_table table_id c = or_unknown table_id (TableMap.get table_id c.table_map)

unfoldable pub handle_row_event :
    ℕ → EventType → List ColumnValue → EventConverter → CanalResult RowChange
unfolding images
handle_row_event table_id event_type columns c = do
  (schema, table) ← found_table table_id c
  (before, after, dml_type) ← images event_type columns
  ok (record {
    table_name = table;
    schema_name = schema;
    before = before;
    after = after;
    dml_type = dml_type;
  })

-- `before.value != col.value`
unfoldable pub value_eq : Option Text → Option Text → Bool
value_eq none none = true
value_eq none (some b) = false
value_eq (some a) none = false
value_eq (some a) (some b) = text_eq a b

-- The loop over `after_columns.iter_mut().enumerate()`, from the column `i` on.
unfoldable pub mark_updated : List ColumnValue → ℕ → List ColumnValue → List ColumnValue
unfolding value_eq
mark_updated before i [] = []
mark_updated before i (col ∷ after) =
    record col {
      updated = elim (get_elem? before i) [
        | none ↦ true
        | some b ↦ not (value_eq b.value col.value)
      ];
    }
    ∷ mark_updated before (suc i) after

unfoldable pub handle_update_row_event :
    ℕ → List ColumnValue → List ColumnValue → EventConverter → CanalResult RowChange
handle_update_row_event table_id before_columns after_columns c = do
  (schema, table) ← found_table table_id c
  ok (record {
    table_name = table;
    schema_name = schema;
    before = some (record { columns = before_columns });
    after = some (record { columns = mark_updated before_columns 0 after_columns });
    dml_type = DmlType.update;
  })

unfoldable pub clear_table_map : EventConverter → EventConverter
clear_table_map c = record { table_map = TableMap.clear c.table_map }
