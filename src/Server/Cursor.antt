-- ===== src/Server/Cursor.antt =====
-- crates/canal-server/src/server.rs: `handle_client_ack`, `handle_client_rollback` and
-- `handle_heartbeat`.
use canal_rust.Prelude.{ℕ, Option, none, some, if◌then◌else◌}
use canal_rust.Prelude.Bytes.{Text}
use canal_rust.Prelude.Int.{eq_ℤ}
use canal_rust.Common.CanalError.{Result, ok, err}
use canal_rust.Common.LogPosition.{LogPosition}
use canal_rust.Server.Session
use canal_rust.Server.Session.{SessionManager, update_ack}
use canal_rust.Server.Connection.{Packet, ClientAck, Protobuf, Connection, Handled, send_ack_ok}

-- Both the identity and the end of the last batch must be known.
unfoldable pub acknowledge :
    {R : Type 0} → ClientAck → Option Text → Option LogPosition → Connection R → Connection R
acknowledge client_ack (some cid) (some end) c =
    if eq_ℤ client_ack.batch_id c.state.last_get_batch_id
    then record c {
      state = record c.state { last_ack_pos = some end };
      sessions = update_ack cid end c.sessions;
    }
    else c
acknowledge client_ack (some cid) none c = c
acknowledge client_ack none end c = c

abbrev pub if_decoded : {R : Type 0} → Result ClientAck Text → Connection R → Connection R
if_decoded (err e) c = c
if_decoded (ok client_ack) c = acknowledge client_ack c.state.client_id c.state.last_get_end_pos c

unfoldable pub handle_client_ack : {R : Type 0} → Protobuf → Packet → Connection R → Connection R
handle_client_ack protobuf packet c = if_decoded (protobuf.decode_ack packet.body) c

-- Back to the last acknowledged position, or to no position.
unfoldable pub handle_client_rollback :
    {R : Type 0} → Protobuf → Packet → Connection R → Connection R
handle_client_rollback protobuf packet c =
    if protobuf.decode_rollback packet.body
    then record c { state = record c.state { current_pos = c.state.last_ack_pos } }
    else c

abbrev pub beat : {R : Type 0} → ℕ → Option Text → SessionManager R → SessionManager R
beat now none m = m
beat now (some cid) m = Session.heartbeat now cid m

unfoldable pub handle_heartbeat : {R : Type 0} → ℕ → Connection R → Handled R
handle_heartbeat now c = send_ack_ok (record c { sessions = beat now c.state.client_id c.sessions })
