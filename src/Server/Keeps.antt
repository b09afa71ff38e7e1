-- ===== src/Server/Keeps.antt =====
-- What holds of the state of a connection of crates/canal-server/src/server.rs, and that each handler
-- keeps it.
use canal_rust.Prelude.{
  ℕ, ◌+◌, ◌<◌, ◌≡◌, refl, Option, none, some, Bool, true, false, List, arith, length, ltb, leb,
  if-cases,
}
use canal_rust.Prelude.Bytes.{Text, bytes}
use canal_rust.Prelude.Int.{ℤ, eq_ℤ}
use canal_rust.Common.CanalError.{CanalError, Result, CanalResult, ok, err}
use canal_rust.Common.Events.{Events, has_none}
use canal_rust.Common.LogPosition.{LogPosition}
use canal_rust.Common.Regex.{RegexLib, FilterPattern}
use canal_rust.Server.Session.{SessionManager, get_session}
use canal_rust.Server.Connection.{
  Packet, ClientAuth, Sub, ClientAck, Protobuf, Reply, messages, ClientState, fresh, Connection,
  Handled, sending, send, decoded-cases,
}
use canal_rust.Server.Auth.{
  max_filter_pattern_len, wrong_password, count_failure, third_failure, after_failure, bad_password,
  auth_filter, admit, with_filter, authenticate, handle_auth, admit_sub, with_sub_filter,
  own_identity, subscribe, handle_sub,
}
use canal_rust.Server.Fetch.{
  move_cursor, send_messages, deliver, with_batch, reading, named, answer_get, handle_get, start_of,
  session_ack,
}
use canal_rust.Server.Cursor.{
  acknowledge, if_decoded, handle_client_rollback, beat, handle_heartbeat,
}
use canal_rust.Server.Client.{known_packet, unknown_packet}
use canal_rust.Wire.Proto.{ProtoRowChange}

-- An authenticated connection has a client id, and the counters are below their limits.
pub record IsValid (s : ClientState) : Type 0 where
  pub named : s.authenticated ≡ true → (cid : Text) × (s.client_id ≡ some cid)
  pub failures : s.auth_error_count < 3
  pub unknown : s.unknown_packet_count < 10

pub fresh-IsValid : IsValid fresh
fresh-IsValid = record { named = λ e. cc; failures = omega arith; unknown = omega arith }

-- The loop goes on in a valid state, or it ends.
abbrev pub Keeps : {R : Type 0} → Handled R → Type 0
Keeps (ok _, c) = IsValid c.state
Keeps (err e, c) = Unit

sending-Keeps :
    {R : Type 0} (o : Option CanalError) (reply : Reply) (c : Connection R)
    → IsValid c.state
    → Keeps (sending o reply c)
unfolding sending
sending-Keeps none reply c v = v
sending-Keeps (some e) reply c v = tt

pub send-Keeps :
    {R : Type 0} (reply : Reply) (c : Connection R) → IsValid c.state → Keeps (send reply c)
send-Keeps reply c v = sending-Keeps (c.transport.fails_at c.transport.attempts) reply c v

third_failure-Keeps :
    {R : Type 0} (b : Bool) (c : Connection R)
    → leb 3 c.state.auth_error_count ≡ b
    → (c.state.auth_error_count < 3 → IsValid c.state)
    → Keeps (third_failure b c)
unfolding third_failure
third_failure-Keeps true c e v = tt
third_failure-Keeps false c e v = v (ground arith)

bad_password-Keeps :
    {R : Type 0} (o : Option CanalError) (reply : Reply) (c : Connection R)
    → IsValid c.state
    → Keeps (after_failure (sending o reply (count_failure c)))
unfolding after_failure sending
bad_password-Keeps (some e) reply c v = tt
bad_password-Keeps none reply c v =
    third_failure-Keeps (leb 3 (c.state.auth_error_count + 1))
      (sending none reply (count_failure c)).1 refl
      (λ few. record { named = v.named; failures = few; unknown = v.unknown })

pub unknown_packet-Keeps :
    {R : Type 0} (c : Connection R) → IsValid c.state → Keeps (unknown_packet c)
unfolding unknown_packet
unknown_packet-Keeps c v =
    if-cases Keeps (leb 10 (c.state.unknown_packet_count + 1)) (λ e. tt)
      (λ e. record { named = v.named; failures = v.failures; unknown = ground arith })

acknowledge-Keeps :
    {R : Type 0} (ack : ClientAck) (cid : Option Text) (end : Option LogPosition) (c : Connection R)
    → IsValid c.state
    → IsValid (acknowledge ack cid end c).state
unfolding acknowledge
acknowledge-Keeps {R = R} ack (some cid) (some end) c v =
    if-cases (λ (d : Connection R). IsValid d.state) (eq_ℤ ack.batch_id c.state.last_get_batch_id)
      (λ e. record { named = v.named; failures = v.failures; unknown = v.unknown }) (λ e. v)
acknowledge-Keeps ack (some cid) none c v = v
acknowledge-Keeps ack none end c v = v

pub handle_client_ack-Keeps :
    {R : Type 0} (r : Result ClientAck Text) (c : Connection R)
    → IsValid c.state
    → IsValid (if_decoded r c).state
handle_client_ack-Keeps (err e) c v = v
handle_client_ack-Keeps (ok ack) c v =
    acknowledge-Keeps ack c.state.client_id c.state.last_get_end_pos c v

pub handle_client_rollback-Keeps :
    {R : Type 0} (protobuf : Protobuf) (packet : Packet) (c : Connection R)
    → IsValid c.state
    → IsValid (handle_client_rollback protobuf packet c).state
unfolding handle_client_rollback
handle_client_rollback-Keeps {R = R} protobuf packet c v =
    if-cases (λ (d : Connection R). IsValid d.state) (protobuf.decode_rollback packet.body)
      (λ e. record { named = v.named; failures = v.failures; unknown = v.unknown }) (λ e. v)

pub handle_heartbeat-Keeps :
    {R : Type 0} (now : ℕ) (c : Connection R) → IsValid c.state → Keeps (handle_heartbeat now c)
unfolding handle_heartbeat
handle_heartbeat-Keeps now c v =
    send-Keeps _ (record c { sessions = beat now c.state.client_id c.sessions }) v

pub known-IsValid :
    {R : Type 0} (c : Connection R) → IsValid c.state → IsValid (known_packet c).state
known-IsValid c v = record { named = v.named; failures = v.failures; unknown = omega arith }

send_messages-Keeps :
    {R : Type 0} (batch_id : ℤ) (entries : CanalResult (List Text)) (c : Connection R)
    → IsValid c.state
    → Keeps (send_messages batch_id entries c)
send_messages-Keeps batch_id (err e) c v = tt
send_messages-Keeps batch_id (ok entries) c v = send-Keeps (messages batch_id entries) c v

module _ (lib : RegexLib) (protobuf : Protobuf) (now : ℕ) where
  with_filter-Keeps :
      (auth : ClientAuth) (f : Result FilterPattern Text) (c : Connection lib.Regex)
      → IsValid c.state
      → Keeps (with_filter lib protobuf now auth f c)
  with_filter-Keeps auth (err message) c v = send-Keeps _ c v
  with_filter-Keeps auth (ok f) c v =
      send-Keeps _ (admit lib protobuf now auth f c)
        (record { named = λ e. (_, refl); failures = v.failures; unknown = v.unknown })

  pub handle_auth-Keeps :
      (auth_token : Option Text) (packet : Packet) (c : Connection lib.Regex)
      → IsValid c.state
      → Keeps (handle_auth lib protobuf now auth_token packet c)
  unfolding handle_auth authenticate bad_password
  handle_auth-Keeps auth_token packet c v =
      decoded-cases Keeps (bytes "ClientAuth") (protobuf.decode_auth packet.body)
        (authenticate lib protobuf now auth_token) c
        (λ auth _.
          if-cases Keeps c.state.authenticated (λ e. send-Keeps _ c v)
            (λ e.
              if-cases Keeps (wrong_password auth_token auth.password)
                (λ f. bad_password-Keeps (c.transport.fails_at c.transport.attempts) _ c v)
                (λ f. with_filter-Keeps auth (auth_filter lib protobuf now auth.filter) c v)))
        (λ e. tt)

  with_sub_filter-Keeps :
      (sub : Sub) (f : Result FilterPattern Text) (c : Connection lib.Regex)
      → IsValid c.state
      → Keeps (with_sub_filter lib protobuf now sub f c)
  with_sub_filter-Keeps sub (err message) c v = send-Keeps _ c v
  with_sub_filter-Keeps sub (ok f) c v =
      send-Keeps _ (admit_sub lib protobuf now sub f c)
        (record { named = λ e. (_, refl); failures = v.failures; unknown = v.unknown })

  own_identity-Keeps :
      (o : Option Text) (sub : Sub) (c : Connection lib.Regex)
      → IsValid c.state
      → Keeps (own_identity lib protobuf now o sub c)
  own_identity-Keeps (some message) sub c v = send-Keeps _ c v
  own_identity-Keeps none sub c v =
      if-cases Keeps (ltb max_filter_pattern_len (length sub.filter)) (λ e. send-Keeps _ c v)
        (λ e. with_sub_filter-Keeps sub _ c v)

  pub handle_sub-Keeps :
      (packet : Packet) (c : Connection lib.Regex)
      → IsValid c.state
      → Keeps (handle_sub lib protobuf now packet c)
  unfolding handle_sub subscribe
  handle_sub-Keeps packet c v =
      decoded-cases Keeps (bytes "Sub") (protobuf.decode_sub packet.body)
        (subscribe lib protobuf now) c (λ sub _. own_identity-Keeps _ sub c v) (λ e. tt)

module _ (lib : RegexLib) (protobuf : Protobuf) (encode_change : ProtoRowChange → Text)
    (watermark : Option LogPosition) (fetch : LogPosition → ℕ → CanalResult Events) where
  with_batch-Keeps :
      (cid : Text) (r : CanalResult Events) (c : Connection lib.Regex)
      → IsValid c.state
      → Keeps (with_batch lib protobuf encode_change watermark fetch cid r c)
  unfolding deliver
  with_batch-Keeps cid (err e) c v = tt
  with_batch-Keeps cid (ok batch) c v =
      if-cases Keeps (has_none batch) (λ e. send-Keeps _ c v)
        (λ e.
          send_messages-Keeps batch.batch_id _ (record c { state = move_cursor batch c.state })
            (record { named = v.named; failures = v.failures; unknown = v.unknown }))

  reading-Keeps :
      (cid : Text) (size : ℕ) (later : SessionManager lib.Regex) (start : LogPosition × Bool)
      (lost : Option LogPosition) (c : Connection lib.Regex)
      → IsValid c.state
      → Keeps (reading lib protobuf encode_change watermark fetch cid size later start lost c)
  reading-Keeps cid size later start (some w) c v = send-Keeps _ c v
  reading-Keeps cid size later start none c v =
      with_batch-Keeps cid (fetch start.0 size) (record c { sessions = later }) v

  named-Keeps :
      (o : Option Text) (size : ℕ) (later : SessionManager lib.Regex) (c : Connection lib.Regex)
      → IsValid c.state
      → Keeps (named lib protobuf encode_change watermark fetch o size later c)
  named-Keeps none size later c v = tt
  named-Keeps (some cid) size later c v =
      reading-Keeps cid size later
        (start_of c.state.current_pos (session_ack (get_session cid c.sessions))) _ c v

  pub handle_get-Keeps :
      (packet : Packet) (later : SessionManager lib.Regex) (c : Connection lib.Regex)
      → IsValid c.state
      → Keeps (handle_get lib protobuf encode_change watermark fetch packet later c)
  unfolding handle_get answer_get
  handle_get-Keeps packet later c v =
      decoded-cases Keeps (bytes "Get") (protobuf.decode_get packet.body)
        (answer_get lib protobuf encode_change watermark fetch later) c
        (λ get _. named-Keeps c.state.client_id _ later c v) (λ e. tt)
