-- ===== src/Server/Invariant.antt =====
-- The loop of crates/canal-server/src/server.rs keeps the state of its connection valid.
use canal_rust.Prelude.{Option, is_empty, if-cases}
use canal_rust.Prelude.Bytes.{Text, bytes}
use canal_rust.Prelude.Int.{eq_ℤ}
use canal_rust.Common.Regex.{RegexLib}
use canal_rust.Server.Connection.{Packet, Protobuf, Connection, decoded-cases}
use canal_rust.Server.Cursor.{handle_client_ack}
use canal_rust.Server.Client.{
  Moment, client_authentication, subscription, get_packet, client_ack, heartbeat_packet,
  client_rollback, known_packet, dispatch_known, dispatch, handle_frame,
}
use canal_rust.Wire.Proto.{ProtoRowChange}
use canal_rust.Server.Keeps.{
  IsValid, Keeps, send-Keeps, unknown_packet-Keeps, handle_client_ack-Keeps,
  handle_client_rollback-Keeps, handle_heartbeat-Keeps, known-IsValid, handle_auth-Keeps,
  handle_sub-Keeps, handle_get-Keeps,
}

dispatch_known-Keeps :
    (lib : RegexLib) (protobuf : Protobuf) (encode_change : ProtoRowChange → Text)
    (m : Moment lib.Regex) (packet : Packet) (c : Connection lib.Regex)
    → IsValid c.state
    → Keeps (dispatch_known lib protobuf encode_change m packet c)
unfolding dispatch_known handle_client_ack
dispatch_known-Keeps lib protobuf encode_change m packet c v =
    let k = known-IsValid c v in
    let n = packet.type_number in
    if-cases Keeps (eq_ℤ n subscription)
      (λ e. handle_sub-Keeps lib protobuf m.now packet (known_packet c) k)
      (λ e.
        if-cases Keeps (eq_ℤ n get_packet)
          (λ e.
            handle_get-Keeps lib protobuf encode_change m.watermark m.fetch packet m.later
              (known_packet c) k)
          (λ e.
            if-cases Keeps (eq_ℤ n client_ack)
              (λ e. handle_client_ack-Keeps (protobuf.decode_ack packet.body) (known_packet c) k)
              (λ e.
                if-cases Keeps (eq_ℤ n client_rollback)
                  (λ e. handle_client_rollback-Keeps protobuf packet (known_packet c) k)
                  (λ e.
                    if-cases Keeps (eq_ℤ n heartbeat_packet)
                      (λ e. handle_heartbeat-Keeps m.now (known_packet c) k)
                      (λ e. unknown_packet-Keeps c v)))))

-- From a valid state, whatever frame arrives, and whatever the other connections and the store do
-- meanwhile: the loop ends with an error, or it goes on with a client id if the client is
-- authenticated, fewer than three failed authentications and fewer than ten unknown packets in a row.
pub handle_frame-Keeps :
    (lib : RegexLib) (protobuf : Protobuf) (encode_change : ProtoRowChange → Text)
    (auth_token : Option Text) (m : Moment lib.Regex) (frame_bytes : Text)
    (c : Connection lib.Regex)
    → IsValid c.state
    → Keeps (handle_frame lib protobuf encode_change auth_token m frame_bytes c)
unfolding handle_frame dispatch
handle_frame-Keeps lib protobuf encode_change auth_token m frame_bytes c v =
    if-cases Keeps (is_empty frame_bytes) (λ e. v)
      (λ e.
        decoded-cases Keeps (bytes "Packet") (protobuf.decode_packet frame_bytes)
          (dispatch lib protobuf encode_change auth_token m) c
          (λ packet _.
            if-cases Keeps (eq_ℤ packet.type_number client_authentication)
              (λ e. handle_auth-Keeps lib protobuf m.now auth_token packet c v)
              (λ e.
                if-cases Keeps c.state.authenticated
                  (λ e. dispatch_known-Keeps lib protobuf encode_change m packet c v)
                  (λ e. send-Keeps _ c v)))
          (λ e. tt))
