-- ===== src/Server/Locked.antt =====
-- What a client without the password can do on a connection of crates/canal-server/src/server.rs.
use canal_rust.Prelude.{
  ℕ, ◌≡◌, ◌≢◌, ◌↔◌, ap, inl, inr, Option, none, some, Bool, true, false, List, [], ◌∷◌, arith,
  length, is_empty, ◌==◌, All, All-append, Bool-cases, leb, if-cases,
}
use canal_rust.Prelude.Bytes.{Text, bytes}
use canal_rust.Prelude.Int.{eq_ℤ}
use canal_rust.Common.CanalError.{CanalError, ok, err}
use canal_rust.Common.Regex.{RegexLib}
use canal_rust.Server.Connection.{
  Packet, ClientAuth, Protobuf, Reply, ack_ok, ack_err, messages, Connection, Handled, sending,
  send_ack_err, decoded-cases,
}
use canal_rust.Server.Auth.{
  bytes_differ, wrong_password, count_failure, third_failure, after_failure, bad_password,
  authenticate, handle_auth,
}
use canal_rust.Server.Client.{
  Incoming, frame, failed, idle, Moment, client_authentication, dispatch, handle_frame, disconnect,
  go_on, handle_client,
}
use canal_rust.Wire.Proto.{ProtoRowChange}

bytes_differ_iff : (a b : Text) → length a ≡ length b → (bytes_differ a b ≡ false) ↔ (a ≡ b)
unfolding bytes_differ
bytes_differ_iff [] [] h = ground arith
bytes_differ_iff [] (c ∷ b) h = absurd (omega arith)
bytes_differ_iff (c ∷ a) [] h = absurd (omega arith)
bytes_differ_iff (c ∷ a) (d ∷ b) h = ground (arith, bytes_differ_iff a b (omega arith))

-- A configured token is matched by itself alone, whatever the lengths.
pub wrong_password_iff :
    (token pass : Text) → (wrong_password (some token) pass ≡ false) ↔ (pass ≡ token)
unfolding wrong_password
wrong_password_iff token pass = elim (Bool-cases (length pass == length token)) [
  | inl same ↦ ground (arith, bytes_differ_iff pass token (ground arith))
  | inr other ↦ ground (arith, ap (length {A = ℕ}))
]

abbrev pub IsRefusal : Reply → Type 0
IsRefusal ack_ok = ⊥
IsRefusal (ack_err message) = Unit
IsRefusal (messages batch_id entries) = ⊥

-- No identity, and nothing sent but refusals.
pub record Locked {R : Type 0} (c : Connection R) : Type 0 where
  pub unknown : c.state.authenticated ≡ false
  pub nameless : c.state.client_id ≡ none
  pub refused : All IsRefusal c.transport.sent

abbrev LockedAfter : {R : Type 0} → Handled R → Type 0
LockedAfter h = Locked h.1

sending-Locked :
    {R : Type 0} (o : Option CanalError) (message : Text) (c : Connection R)
    → Locked c
    → Locked (sending o (ack_err message) c).1
unfolding sending
sending-Locked none message c l = record {
  unknown = l.unknown;
  nameless = l.nameless;
  refused = All-append IsRefusal c.transport.sent (ack_err message ∷ []) l.refused (tt, tt);
}
sending-Locked (some e) message c l = record {
  unknown = l.unknown;
  nameless = l.nameless;
  refused = l.refused;
}

send_ack_err-Locked :
    {R : Type 0} (message : Text) (c : Connection R) → Locked c → Locked (send_ack_err message c).1
send_ack_err-Locked message c l =
    sending-Locked (c.transport.fails_at c.transport.attempts) message c l

third_failure-Locked :
    {R : Type 0} (b : Bool) (c : Connection R) → Locked c → Locked (third_failure b c).1
unfolding third_failure
third_failure-Locked true c l = l
third_failure-Locked false c l = l

after_failure-Locked : {R : Type 0} (h : Handled R) → Locked h.1 → Locked (after_failure h).1
unfolding after_failure
after_failure-Locked (err e, c) l = l
after_failure-Locked (ok u, c) l = third_failure-Locked (leb 3 c.state.auth_error_count) c l

-- No authentication packet in what arrives has the password.
abbrev pub Lacks : Protobuf → Text → Incoming → Type 0
Lacks protobuf token (frame bs) =
    (packet : Packet) (auth : ClientAuth)
    → protobuf.decode_packet bs ≡ ok packet
    → protobuf.decode_auth packet.body ≡ ok auth
    → auth.password ≢ token
Lacks protobuf token (failed e) = Unit
Lacks protobuf token idle = Unit

module _ (lib : RegexLib) (protobuf : Protobuf) (encode_change : ProtoRowChange → Text)
    (token : Text) where
  authenticate-Locked :
      (now : ℕ) (auth : ClientAuth) (c : Connection lib.Regex)
      → auth.password ≢ token
      → Locked c
      → Locked (authenticate lib protobuf now (some token) auth c).1
  unfolding authenticate bad_password
  authenticate-Locked now auth c other l =
      if-cases LockedAfter c.state.authenticated (λ e. cc)
        (λ e.
          if-cases LockedAfter (wrong_password (some token) auth.password)
            (λ wrong.
              after_failure-Locked (send_ack_err (bytes "authentication failed") (count_failure c))
                (send_ack_err-Locked (bytes "authentication failed") (count_failure c)
                  (record { unknown = l.unknown; nameless = l.nameless; refused = l.refused })))
            (λ right. absurd (other ((wrong_password_iff token auth.password).0 right))))

  handle_auth-Locked :
      (now : ℕ) (packet : Packet) (c : Connection lib.Regex)
      → ((auth : ClientAuth) → protobuf.decode_auth packet.body ≡ ok auth → auth.password ≢ token)
      → Locked c
      → Locked (handle_auth lib protobuf now (some token) packet c).1
  unfolding handle_auth
  handle_auth-Locked now packet c other l =
      decoded-cases LockedAfter (bytes "ClientAuth") (protobuf.decode_auth packet.body)
        (authenticate lib protobuf now (some token)) c
        (λ auth e. authenticate-Locked now auth c (other auth e) l) (λ e. l)

  dispatch-Locked :
      (m : Moment lib.Regex) (packet : Packet) (c : Connection lib.Regex)
      → ((auth : ClientAuth) → protobuf.decode_auth packet.body ≡ ok auth → auth.password ≢ token)
      → Locked c
      → Locked (dispatch lib protobuf encode_change (some token) m packet c).1
  unfolding dispatch
  dispatch-Locked m packet c other l =
      if-cases LockedAfter (eq_ℤ packet.type_number client_authentication)
        (λ e. handle_auth-Locked m.now packet c other l)
        (λ e.
          if-cases LockedAfter c.state.authenticated (λ f. absurd (open_twice f))
            (λ f. send_ack_err-Locked (bytes "not authenticated") c l))
    where
      open_twice : c.state.authenticated ≡ true → ⊥
      open_twice f = let u = l.unknown in cc

  handle_frame-Locked :
      (m : Moment lib.Regex) (bs : Text) (c : Connection lib.Regex)
      → Lacks protobuf token (frame bs)
      → Locked c
      → Locked (handle_frame lib protobuf encode_change (some token) m bs c).1
  unfolding handle_frame
  handle_frame-Locked m bs c lacks l =
      if-cases LockedAfter (is_empty bs) (λ e. l)
        (λ e.
          decoded-cases LockedAfter (bytes "Packet") (protobuf.decode_packet bs)
            (dispatch lib protobuf encode_change (some token) m) c
            (λ packet f. dispatch-Locked m packet c (λ auth. lacks packet auth f) l) (λ f. l))

  -- A client that has no identity yet, has got nothing but refusals, and never sends the configured
  -- token, gets nothing but refusals: over any sequence of frames, errors and timeouts, and whatever
  -- the other connections and the store do meanwhile, the connection never has an identity, and every
  -- answer is an error.
  pub handle_client-Locked :
      (stream : List (Moment lib.Regex × Incoming)) (c : Connection lib.Regex)
      → All (λ x. Lacks protobuf token x.1) stream
      → Locked c
      → Locked (handle_client lib protobuf encode_change (some token) stream c).1
  unfolding handle_client disconnect
  handle_client-Locked [] c lacks l = record {
    unknown = l.unknown;
    nameless = l.nameless;
    refused = l.refused;
  }
  handle_client-Locked ((m, idle) ∷ stream) c lacks l = record {
    unknown = l.unknown;
    nameless = l.nameless;
    refused = l.refused;
  }
  handle_client-Locked ((m, failed e) ∷ stream) c lacks l = record {
    unknown = l.unknown;
    nameless = l.nameless;
    refused = l.refused;
  }
  handle_client-Locked ((m, frame bs) ∷ stream) c lacks l =
      go (handle_client-Locked stream)
        (handle_frame lib protobuf encode_change (some token) m bs
          (record c { sessions = m.sessions }))
        (handle_frame-Locked m bs (record c { sessions = m.sessions }) lacks.0
          (record { unknown = l.unknown; nameless = l.nameless; refused = l.refused }))
    where
      go :
          ((c' : Connection lib.Regex)
            → All (λ x. Lacks protobuf token x.1) stream
            → Locked c'
            → Locked (handle_client lib protobuf encode_change (some token) stream c').1)
          → (h : Handled lib.Regex) → Locked h.1
          → Locked (go_on (handle_client lib protobuf encode_change (some token) stream) h).1
      go ih (ok u, c') k = ih c' lacks.1 k
      go ih (err e, c') k = k
