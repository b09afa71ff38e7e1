-- ===== src/Server/Client.antt =====
-- crates/canal-server/src/server.rs: the loop of `handle_client` over what arrives.
use canal_rust.Prelude.{ℕ, ◌+◌, Option, none, some, List, [], ◌∷◌, is_empty, leb, if◌then◌else◌}
use canal_rust.Prelude.Bytes.{Text, bytes}
use canal_rust.Prelude.Int.{ℤ, pos, eq_ℤ}
use canal_rust.Common.CanalError.{CanalError, CanalResult, ok, err, protocol}
use canal_rust.Common.Events.{Events}
use canal_rust.Common.LogPosition.{LogPosition}
use canal_rust.Common.Regex.{RegexLib}
use canal_rust.Server.Session.{SessionManager, unregister}
use canal_rust.Server.Connection.{Packet, Protobuf, Connection, Handled, send_ack_err, decoded}
use canal_rust.Server.Auth.{handle_auth, handle_sub}
use canal_rust.Server.Fetch.{handle_get}
use canal_rust.Server.Cursor.{handle_client_ack, handle_client_rollback, handle_heartbeat}
use canal_rust.Wire.Proto.{ProtoRowChange}

-- What `timeout(transport.next())` returns, when it is not the end of the stream, which is the end of
-- the list.
pub data Incoming : Type 0 where
  frame : Text → Incoming
  failed : CanalError → Incoming
  idle : Incoming

-- What the rest of the server does around one packet: the time, the sessions as other connections
-- have left them, the store's watermark, what the store returns, and the sessions after that wait.
pub record Moment (Regex : Type 0) : Type 0 where
  pub now : ℕ
  pub sessions : SessionManager Regex
  pub watermark : Option LogPosition
  pub fetch : LogPosition → ℕ → CanalResult Events
  pub later : SessionManager Regex

-- The numbers of `PacketType`.
abbrev pub client_authentication : ℤ
client_authentication = pos 2

abbrev pub subscription : ℤ
subscription = pos 4

abbrev pub get_packet : ℤ
get_packet = pos 6

abbrev pub client_ack : ℤ
client_ack = pos 8

abbrev pub heartbeat_packet : ℤ
heartbeat_packet = pos 11

abbrev pub client_rollback : ℤ
client_rollback = pos 12

abbrev pub known_packet : {R : Type 0} → Connection R → Connection R
known_packet c = record c { state = record c.state { unknown_packet_count = 0 } }

unfoldable pub unknown_packet : {R : Type 0} → Connection R → Handled R
unknown_packet c =
    let c' = record c {
      state = record c.state { unknown_packet_count = c.state.unknown_packet_count + 1 };
    } in
    if leb 10 c'.state.unknown_packet_count
    then (err (protocol (bytes "too many unknown packets")), c')
    else (ok tt, c')

abbrev pub leave : {R : Type 0} → Option Text → SessionManager R → SessionManager R
leave none m = m
leave (some cid) m = unregister cid m

-- Behind the loop
unfoldable pub disconnect : {R : Type 0} → Connection R → Handled R
disconnect c = (ok tt, record c { sessions = leave c.state.client_id c.sessions })

abbrev pub go_on : {R : Type 0} → (Connection R → Handled R) → Handled R → Handled R
go_on next (ok _, c) = next c
go_on next (err e, c) = (err e, c)

-- The packets of an authenticated client
unfoldable pub dispatch_known :
    (lib : RegexLib)
    → Protobuf
    → (ProtoRowChange → Text)
    → Moment lib.Regex
    → Packet
    → Connection lib.Regex
    → Handled lib.Regex
dispatch_known lib protobuf encode_change m packet c =
    if eq_ℤ packet.type_number subscription
    then handle_sub lib protobuf m.now packet (known_packet c)
    else if eq_ℤ packet.type_number get_packet
    then handle_get lib protobuf encode_change m.watermark m.fetch packet m.later (known_packet c)
    else if eq_ℤ packet.type_number client_ack
    then (ok tt, handle_client_ack protobuf packet (known_packet c))
    else if eq_ℤ packet.type_number client_rollback
    then (ok tt, handle_client_rollback protobuf packet (known_packet c))
    else if eq_ℤ packet.type_number heartbeat_packet
    then handle_heartbeat m.now (known_packet c)
    else unknown_packet c

module _ (lib : RegexLib) (protobuf : Protobuf) (encode_change : ProtoRowChange → Text)
    (auth_token : Option Text) where
  open lib use {Regex}

  unfoldable pub dispatch : Moment Regex → Packet → Connection Regex → Handled Regex
  dispatch m packet c =
      if eq_ℤ packet.type_number client_authentication
      then handle_auth lib protobuf m.now auth_token packet c
      else if c.state.authenticated
      then dispatch_known lib protobuf encode_change m packet c
      else send_ack_err (bytes "not authenticated") c

  unfoldable pub handle_frame : Moment Regex → Text → Connection Regex → Handled Regex
  handle_frame m frame_bytes c =
      if is_empty frame_bytes
      then (ok tt, c)
      else decoded (bytes "Packet") (protobuf.decode_packet frame_bytes) (dispatch m) c

  unfoldable pub handle_client : List (Moment Regex × Incoming) → Connection Regex → Handled Regex
  handle_client [] c = disconnect c
  handle_client ((m, idle) ∷ rest) c = disconnect (record c { sessions = m.sessions })
  handle_client ((m, failed e) ∷ rest) c = (err e, record c { sessions = m.sessions })
  handle_client ((m, frame frame_bytes) ∷ rest) c =
      go_on (handle_client rest) (handle_frame m frame_bytes (record c { sessions = m.sessions }))
