-- ===== src/Wire/Proto.antt =====
-- The messages of crates/canal-proto/src/com.alibaba.otter.canal.protocol.rs, with the fields that the
-- program writes or reads. A `oneof` of one case is an option.
use canal_rust.Prelude.{Option, none, Bool, List, []}
use canal_rust.Prelude.Bytes.{Text}
use canal_rust.Prelude.Int.{ℤ, pos}

pub record Column : Type 0 where
  pub index : ℤ
  pub sql_type : ℤ
  pub name : Text
  pub is_key : Bool
  pub updated : Bool
  pub value : Text
  pub length : ℤ
  pub mysql_type : Text
  pub is_null_present : Option Bool

pub record ProtoRowData : Type 0 where
  pub before_columns : List Column
  pub after_columns : List Column

pub record ProtoRowChange : Type 0 where
  pub table_id : ℤ
  pub sql : Text
  pub row_datas : List ProtoRowData
  pub ddl_schema_name : Text
  pub event_type_present : Option ℤ
  pub is_ddl_present : Option Bool

-- `RowChange::default()`
abbrev pub no_change : ProtoRowChange
no_change = record {
  table_id = pos 0;
  sql = [];
  row_datas = [];
  ddl_schema_name = [];
  event_type_present = none;
  is_ddl_present = none;
}

pub record Header : Type 0 where
  pub logfile_name : Text
  pub logfile_offset : ℤ
  pub server_id : ℤ
  pub serveren_code : Text
  pub execute_time : ℤ
  pub schema_name : Text
  pub table_name : Text
  pub event_length : ℤ
  pub gtid : Text
  pub version_present : Option ℤ
  pub source_type_present : Option ℤ
  pub event_type_present : Option ℤ

pub record Entry : Type 0 where
  pub header : Option Header
  pub store_value : Text
  pub entry_type_present : Option ℤ
