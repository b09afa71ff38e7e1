-- ===== src/Server/Connection.antt =====
-- crates/canal-server/src/server.rs: the state of one connection, and what is sent on it. The
-- messages of crates/canal-proto are records with the fields that the server reads or writes.
use canal_rust.Prelude.{ℕ, ◌+◌, ◌≡◌, refl, Option, none, some, Bool, false, List, [], ◌∷◌, ◌++◌}
use canal_rust.Prelude.Bytes.{Text, bytes}
use canal_rust.Prelude.Int.{ℤ, pos}
use canal_rust.Common.CanalError.{CanalError, Result, CanalResult, ok, err, protocol}
use canal_rust.Common.LogPosition.{LogPosition}
use canal_rust.Server.Session.{SessionManager}
use canal_rust.Wire.Proto.{Entry}

pub record Packet : Type 0 where
  pub type_number : ℤ
  pub body : Text

pub record ClientAuth : Type 0 where
  pub password : Text
  pub destination : Text
  pub client_id : Text
  pub filter : Text
  pub start_timestamp : ℤ

pub record Sub : Type 0 where
  pub destination : Text
  pub client_id : Text
  pub filter : Text

pub record Get : Type 0 where
  pub destination : Text
  pub client_id : Text
  pub fetch_size : ℤ

pub record ClientAck : Type 0 where
  pub destination : Text
  pub client_id : Text
  pub batch_id : ℤ

-- `prost::Message::decode` of the messages that the server reads, with the text of an error, and what
-- it writes into an answer.
pub record Protobuf : Type 0 where
  pub decode_packet : Text → Result Packet Text
  pub decode_auth : Text → Result ClientAuth Text
  pub decode_sub : Text → Result Sub Text
  pub decode_get : Text → Result Get Text
  pub decode_ack : Text → Result ClientAck Text
  pub decode_rollback : Text → Bool
  pub encode_entry : Entry → Text

-- An answer: an `Ack` without an error, one with a message and the error code 1, or `Messages`.
pub data Reply : Type 0 where
  ack_ok : Reply
  ack_err : Text → Reply
  messages : ℤ → List Text → Reply

-- The sending half: what was sent, and which attempt to send fails.
pub record Transport : Type 0 where
  pub sent : List Reply
  pub attempts : ℕ
  pub fails_at : ℕ → Option CanalError

pub record ClientState : Type 0 where
  pub client_id : Option Text
  pub current_pos : Option LogPosition
  pub last_ack_pos : Option LogPosition
  pub last_get_batch_id : ℤ
  pub last_get_end_pos : Option LogPosition
  pub authenticated : Bool
  pub auth_error_count : ℕ
  pub unknown_packet_count : ℕ

-- `ClientState::default()`
abbrev pub fresh : ClientState
fresh = record {
  client_id = none;
  current_pos = none;
  last_ack_pos = none;
  last_get_batch_id = pos 0;
  last_get_end_pos = none;
  authenticated = false;
  auth_error_count = 0;
  unknown_packet_count = 0;
}

-- What a handler works on: its own connection, and the sessions that all connections share.
pub record Connection (Regex : Type 0) : Type 0 where
  pub state : ClientState
  pub sessions : SessionManager Regex
  pub transport : Transport

abbrev pub Handled : Type 0 → Type 0
Handled R = CanalResult (Unit {0}) × Connection R

-- `transport.send(packet).await`, when the attempt ends with an error or without one
unfoldable pub sending : {R : Type 0} → Option CanalError → Reply → Connection R → Handled R
sending none reply c = (
  ok tt,
  record c {
    transport = record c.transport {
      sent = c.transport.sent ++ reply ∷ [];
      attempts = c.transport.attempts + 1;
    };
  },
)
sending (some e) reply c =
    (err e, record c { transport = record c.transport { attempts = c.transport.attempts + 1 } })

abbrev pub send : {R : Type 0} → Reply → Connection R → Handled R
send reply c = sending (c.transport.fails_at c.transport.attempts) reply c

abbrev pub send_ack_ok : {R : Type 0} → Connection R → Handled R
send_ack_ok = send ack_ok

abbrev pub send_ack_err : {R : Type 0} → Text → Connection R → Handled R
send_ack_err message = send (ack_err message)

abbrev pub decode_failed : Text → Text → CanalError
decode_failed what e = protocol (bytes "failed to decode " ++ (what ++ (bytes ": " ++ e)))

-- `X::decode(...).map_err(...)?` in front of the rest of a handler
unfoldable pub decoded :
    {A R : Type 0}
    → Text
    → Result A Text
    → (A → Connection R → Handled R)
    → Connection R
    → Handled R
decoded what (err e) next c = (err (decode_failed what e), c)
decoded what (ok a) next c = next a c

pub decoded-cases :
    {A R : Type 0} (P : Handled R → Type 0) (what : Text) (r : Result A Text)
    (next : A → Connection R → Handled R) (c : Connection R)
    → ((a : A) → r ≡ ok a → P (next a c))
    → ((e : CanalError) → P (err e, c))
    → P (decoded what r next c)
unfolding decoded
decoded-cases P what (err e) next c h k = k (decode_failed what e)
decoded-cases P what (ok a) next c h k = h a refl
