-- ===== src/Wire/Decoding.antt =====
-- `entry_bytes_to_event` of crates/canal-client/src/lib.rs: from the bytes of an entry to an event.
use canal_rust.Prelude.{
  Option, none, some, Bool, List, [], ◌∷◌, ◌++◌, map, length, is_empty, if◌then◌else◌, ◌==◌,
}
use canal_rust.Prelude.Bytes.{Text, bytes, decimal}
use canal_rust.Prelude.Int.{ℤ, pos, negsuc}
use canal_rust.Prelude.Words.{i64_as_u64}
use canal_rust.Common.CanalError.{
  CanalError, Result, CanalResult, ok, err, protocol, ◌>>=◌, map_err,
}
use canal_rust.Common.Event.{DmlType, ColumnValue, RowData, RowChange, CanalEvent, from_proto}
use canal_rust.Wire.Proto.{Column, ProtoRowData, ProtoRowChange, Header, Entry}

abbrev pub value_from_proto : Text → Option Bool → Option Text
value_from_proto value none = some value
value_from_proto value (some b) = if is_empty value then none else some value

unfoldable pub column_value_from_proto : Column → ColumnValue
column_value_from_proto c = record {
  name = c.name;
  value = value_from_proto c.value c.is_null_present;
  column_type = c.sql_type;
  is_key = c.is_key;
  updated = c.updated;
}

unfoldable pub image_from_proto : List Column → Option RowData
image_from_proto [] = none
image_from_proto (c ∷ cs) = some (record { columns = map column_value_from_proto (c ∷ cs) })

unfoldable pub dml_from_proto : Option ℤ → DmlType
dml_from_proto (some (pos v)) =
    if v == 1
    then DmlType.insert
    else if v == 2
    then DmlType.update
    else if v == 3
    then DmlType.delete
    else DmlType.insert
dml_from_proto (some (negsuc v)) = DmlType.insert
dml_from_proto none = DmlType.insert

unfoldable pub ddl_of : ProtoRowChange → Option Text
ddl_of rc = elim rc.is_ddl_present [ some b ↦ if b then some rc.sql else none | none ↦ none ]

unfoldable pub change_from_proto : Header → Option ℤ → List ProtoRowData → Option RowChange
change_from_proto hdr event_type [] = none
change_from_proto hdr event_type (rd ∷ row_datas) = some (record {
  table_name = hdr.table_name;
  schema_name = hdr.schema_name;
  before = image_from_proto rd.before_columns;
  after = image_from_proto rd.after_columns;
  dml_type = dml_from_proto event_type;
})

-- The row change and the DDL statement of a decoded `RowChange`.
unfoldable pub content_of : Header → ProtoRowChange → Option RowChange × Option Text
content_of hdr rc = elim (ddl_of rc) [
  | some sql ↦ (none, some sql)
  | none ↦ (change_from_proto hdr rc.event_type_present rc.row_datas, none)
]

unfoldable pub decoded_content : Header → Option ProtoRowChange → Option RowChange × Option Text
decoded_content hdr none = (none, none)
decoded_content hdr (some rc) = content_of hdr rc

-- `prost::Message::decode` of an `Entry`, whose error is its text, and of a `RowChange`.
module _ (decode_entry : Text → Result Entry Text)
    (decode_change : Text → Option ProtoRowChange) where
  unfoldable pub store_content : Header → Text → Option RowChange × Option Text
  store_content hdr [] = (none, none)
  store_content hdr (b ∷ bs) = decoded_content hdr (decode_change (b ∷ bs))

  unfoldable pub event_of : Header → Text → CanalEvent
  event_of hdr store_value = record {
    journal_name = hdr.logfile_name;
    position = i64_as_u64 hdr.logfile_offset;
    server_id = i64_as_u64 hdr.server_id;
    execute_time = hdr.execute_time;
    entry_type = from_proto (elim hdr.event_type_present [ none ↦ pos 0 | some v ↦ v ]);
    schema_name = hdr.schema_name;
    table_name = hdr.table_name;
    row_change = (store_content hdr store_value).0;
    ddl_sql = (store_content hdr store_value).1;
    gtid = if is_empty hdr.gtid then none else some hdr.gtid;
    raw_bytes = store_value;
  }

  pub bad_entry : Text → Text → CanalError
  bad_entry bs e =
      protocol
        (bytes "Failed to decode Entry from " ++ (decimal (length bs) ++ (bytes " bytes: " ++ e)))

  unfoldable pub with_header : Entry → CanalResult CanalEvent
  with_header entry = elim entry.header [
    | none ↦ err (protocol (bytes "Entry missing header"))
    | some hdr ↦ ok (event_of hdr entry.store_value)
  ]

  unfoldable pub entry_bytes_to_event : Text → CanalResult CanalEvent
  entry_bytes_to_event bs = do entry ← map_err (bad_entry bs) (decode_entry bs); with_header entry
