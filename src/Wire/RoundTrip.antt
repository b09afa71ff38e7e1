-- ===== src/Wire/RoundTrip.antt =====
-- What the client makes of the entry that the server sends: crates/canal-server/src/conversion.rs
-- against `entry_bytes_to_event` of crates/canal-client/src/lib.rs.
use canal_rust.Prelude.{
  ◌<◌, ◌≡◌, refl, sym, ap, ◌∙◌, Option, none, some, Bool, false, List, [], ◌∷◌, map, is_empty,
  if◌then◌else◌,
}
use mathlib.Core.Path.{ap₂}
use canal_rust.Prelude.Bytes.{Text}
use canal_rust.Prelude.Int.{ℤ, pos}
use canal_rust.Prelude.Words.{u64_mod, i64_as_u64-u64_as_i64}
use canal_rust.Common.CanalError.{Result, ok}
use canal_rust.Common.Event.{
  EventType, DmlType, ColumnValue, RowData, RowChange, CanalEvent, from_proto,
}
use canal_rust.Wire.Proto.{Column, ProtoRowChange, Header, Entry}
use canal_rust.Wire.Conversion.{
  proto_event_type, column_value_to_proto, dml_to_proto, row_change_to_proto, store_change,
  store_change_of, header_of, null_mark, entry_of, canal_event_to_entry, columns_of, or_default,
}
use canal_rust.Wire.Decoding.{
  value_from_proto, column_value_from_proto, image_from_proto, dml_from_proto, ddl_of,
  change_from_proto, content_of, store_content, decoded_content, event_of, with_header,
  entry_bytes_to_event,
}
use canal_rust.Wire.Received.{
  received_type, kept, received_image, marked_by, unmarked, same, received_change, received_ddl,
  received_gtid, received_row, received,
}

value-proto : (o : Option Text) → value_from_proto (or_default o) (null_mark o) ≡ o
value-proto none = refl
value-proto (some v) = refl

column_value-proto :
    (c : ColumnValue) (b : Bool)
    → column_value_from_proto (column_value_to_proto c b) ≡ record c { updated = b }
unfolding column_value_to_proto column_value_from_proto
column_value-proto c b = ap (λ v. record c { value = v; updated = b }) (value-proto c.value)

columns-proto :
    (mark : ColumnValue → Bool) (cs : List ColumnValue)
    → map column_value_from_proto (map (λ c. column_value_to_proto c (mark c)) cs)
      ≡ map (marked_by mark) cs
columns-proto mark [] = refl
columns-proto mark (c ∷ cs) = ap₂ ◌∷◌ (column_value-proto c (mark c)) (columns-proto mark cs)

image-kept : (cs : List Column) → image_from_proto cs ≡ kept (map column_value_from_proto cs)
unfolding image_from_proto
image-kept [] = refl
image-kept (c ∷ cs) = refl

image-proto :
    (mark : ColumnValue → Bool) (o : Option RowData)
    → image_from_proto (map (λ c. column_value_to_proto c (mark c)) (columns_of o))
      ≡ received_image (marked_by mark) o
unfolding image_from_proto
image-proto mark none = refl
image-proto mark (some row) =
    image-kept (map (λ c. column_value_to_proto c (mark c)) row.columns)
    ∙ ap kept (columns-proto mark row.columns)

dml-proto : (d : DmlType) → dml_from_proto (some (dml_to_proto d)) ≡ d
unfolding dml_from_proto dml_to_proto
dml-proto DmlType.insert = refl
dml-proto DmlType.update = refl
dml-proto DmlType.delete = refl

gtid-proto :
    (o : Option Text)
    → (if is_empty (or_default o) then none else some (or_default o)) ≡ received_gtid o
gtid-proto none = refl
gtid-proto (some []) = refl
gtid-proto (some (c ∷ cs)) = refl

type-proto : (t : EventType) (v : ℤ) → proto_event_type t ≡ ok v → from_proto v ≡ received_type t
unfolding proto_event_type from_proto
type-proto EventType.insert v e = let h : pos 1 ≡ v = cc in ap from_proto (sym h)
type-proto EventType.update v e = let h : pos 2 ≡ v = cc in ap from_proto (sym h)
type-proto EventType.delete v e = let h : pos 3 ≡ v = cc in ap from_proto (sym h)
type-proto EventType.ddl v e = let h : pos 7 ≡ v = cc in ap from_proto (sym h)
type-proto EventType.query v e = let h : pos 7 ≡ v = cc in ap from_proto (sym h)
type-proto EventType.rotate v e = let h : pos 7 ≡ v = cc in ap from_proto (sym h)
type-proto EventType.xid v e = let h : pos 13 ≡ v = cc in ap from_proto (sym h)
type-proto EventType.heartbeat v e = let h : pos 15 ≡ v = cc in ap from_proto (sym h)
type-proto (EventType.unknown w) v e = cc

change-proto :
    (event : CanalEvent) (t : ℤ) (store_value : Text) (change : RowChange)
    → content_of (header_of t event store_value) (row_change_to_proto change)
      ≡ (some (received_change event change), none)
unfolding content_of ddl_of change_from_proto row_change_to_proto header_of
change-proto event t store_value change =
    ap₂ (whole (dml_from_proto (some (dml_to_proto change.dml_type))))
      (image-proto (λ c. false) change.before) (image-proto (λ c. c.updated) change.after)
    ∙ ap (λ d. whole d (received_image unmarked change.before) (received_image same change.after))
        (dml-proto change.dml_type)
  where
    whole : DmlType → Option RowData → Option RowData → Option RowChange × Option Text
    whole d b a = (
      some (record {
        table_name = event.table_name;
        schema_name = event.schema_name;
        before = b;
        after = a;
        dml_type = d;
      }),
      none,
    )

content-proto :
    (event : CanalEvent) (t : ℤ) (store_value : Text) (o : Option RowChange) (ddl_sql : Option Text)
    → content_of (header_of t event store_value) (store_change_of t event.schema_name o ddl_sql)
      ≡ (received_row event o, received_ddl o ddl_sql)
unfolding content_of ddl_of change_from_proto store_change_of header_of
content-proto event t store_value (some change) ddl_sql = change-proto event t store_value change
content-proto event t store_value none (some sql) = refl
content-proto event t store_value none none = refl

store_content-not_empty :
    (decode_entry : Text → Result Entry Text) (decode_change : Text → Option ProtoRowChange)
    (hdr : Header) (bs : Text) (rc : ProtoRowChange)
    → is_empty bs ≡ false
    → decode_change bs ≡ some rc
    → store_content decode_entry decode_change hdr bs ≡ content_of hdr rc
unfolding store_content decoded_content
store_content-not_empty decode_entry decode_change hdr [] rc h e = cc
store_content-not_empty decode_entry decode_change hdr (b ∷ bs) rc h e = ap (decoded_content hdr) e

event_of-header_of :
    (decode_entry : Text → Result Entry Text) (decode_change : Text → Option ProtoRowChange)
    (event : CanalEvent) (t : ℤ) (bs : Text)
    → proto_event_type event.entry_type ≡ ok t
    → event.position < u64_mod
    → event.server_id < u64_mod
    → is_empty bs ≡ false
    → decode_change bs ≡ some (store_change t event)
    → event_of decode_entry decode_change (header_of t event bs) bs ≡ received event bs
unfolding event_of header_of
event_of-header_of decode_entry decode_change event t bs known pos_fits id_fits some_bytes inner =
    let kind = type-proto event.entry_type t known in
    let position = i64_as_u64-u64_as_i64 event.position pos_fits in
    let id = i64_as_u64-u64_as_i64 event.server_id id_fits in
    let content =
      store_content-not_empty decode_entry decode_change (header_of t event bs) bs
        (store_change t event) some_bytes inner
      ∙ content-proto event t bs event.row_change event.ddl_sql in
    λ i. record event {
      position = position i;
      server_id = id i;
      entry_type = kind i;
      row_change = (content i).0;
      ddl_sql = (content i).1;
      gtid = gtid-proto event.gtid i;
      raw_bytes = bs;
    }

module _ (encode_change : ProtoRowChange → Text) (decode_change : Text → Option ProtoRowChange)
    (encode_entry : Entry → Text) (decode_entry : Text → Result Entry Text) where
  -- An event that the server can convert, with a position and a server id below 2^64, arrives at the
  -- client as `received` says: with all its columns and their values, its position, server id and
  -- type, where DDL, query and rotate events all arrive as DDL, the table's names are those of the
  -- event, a before-image carries no marks, and an image without columns or an empty GTID is gone. The
  -- protobuf library decodes these two messages to what was encoded, and the inner one has bytes.
  pub entry_bytes_to_event-canal_event_to_entry :
      (event : CanalEvent) (t : ℤ)
      → proto_event_type event.entry_type ≡ ok t
      → event.position < u64_mod
      → event.server_id < u64_mod
      → is_empty (encode_change (store_change t event)) ≡ false
      → decode_change (encode_change (store_change t event)) ≡ some (store_change t event)
      → decode_entry (encode_entry (entry_of encode_change t event))
        ≡ ok (entry_of encode_change t event)
      → (canal_event_to_entry encode_change event ≡ ok (entry_of encode_change t event))
        × (entry_bytes_to_event decode_entry decode_change
              (encode_entry (entry_of encode_change t event))
            ≡ ok (received event (encode_change (store_change t event))))
  unfolding canal_event_to_entry entry_bytes_to_event with_header
  entry_bytes_to_event-canal_event_to_entry event t known pos_fits id_fits some_bytes inner outer =
      (
        rw known refl,
        rw outer (
            ap ok (
              event_of-header_of decode_entry decode_change event t
                (encode_change (store_change t event)) known pos_fits id_fits some_bytes inner)),
      )
