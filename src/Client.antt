-- ===== src/Client.antt =====
-- crates/canal-client/src/lib.rs: `CanalClient`, its handshake and its requests. A stream is what
-- was sent on it and what its reads will give; behind the last of these the peer has closed it.
pub mod Framing
pub mod Poll
pub mod Turns
pub mod Delivery
pub mod EndToEnd
pub mod FromStore
pub mod Whole
pub mod Events
mod Tests
use canal_rust.Prelude.{
  ℕ, ◌+◌, Option, none, some, Bool, true, false, List, [], ◌∷◌, ◌++◌, is_empty, if◌then◌else◌,
}
use canal_rust.Prelude.Bytes.{Text, bytes, decimal}
use canal_rust.Prelude.Int.{ℤ, pos, eq_ℤ}
use canal_rust.Common.CanalError.{CanalError, CanalResult, Result, ok, err}
use canal_rust.Common.LogPosition.{LogPosition}
use canal_rust.Common.Regex
use canal_rust.Common.Regex.{FilterPattern}
use canal_rust.Server.Connection.{Packet, ClientAuth, Sub, Get, ClientAck}

-- The packets that a client sends, by the message in their body
pub data Request : Type 0 where
  authenticate : ClientAuth → Request
  subscription : Sub → Request
  get : Get → Request
  acknowledge : ClientAck → Request

-- The sending half: what was sent, and which attempt to send fails.
pub record Outgoing : Type 0 where
  pub sent : List Request
  pub attempts : ℕ
  pub fails_at : ℕ → Option CanalError

pub record Stream : Type 0 where
  pub outgoing : Outgoing
  pub incoming : List (CanalResult Packet)

-- `prost`'s decoding of the answers, with the text of an error: the error message of an `Ack`, and
-- the batch id and the entries of `Messages`
pub record Answers : Type 0 where
  pub decode_ack : Text → Result Text Text
  pub decode_messages : Text → Result (ℤ × List Text) Text

pub record CanalClient : Type 0 where
  pub host : Text
  pub port : ℕ
  pub client_id : ℕ
  pub destination : Text
  pub filter : FilterPattern
  pub stream : Option Stream

-- `next_id` is what the counter `NEXT_ID`, which starts at 1001, gives out.
unfoldable pub new : ℕ → Text → ℕ → CanalClient
new next_id host port = record {
  host = host;
  port = port;
  client_id = next_id;
  destination = bytes "example";
  filter = Regex.default;
  stream = none;
}

unfoldable pub with_destination : Text → CanalClient → CanalClient
with_destination dest c = record c { destination = dest }

unfoldable pub with_filter : FilterPattern → CanalClient → CanalClient
with_filter filter c = record c { filter = filter }

-- The numbers of `PacketType`
abbrev pub ack_type : ℤ
ack_type = pos 3

abbrev pub messages_type : ℤ
messages_type = pos 7

-- `send_packet`, when the attempt ends with an error or without one
unfoldable pub sending : Option CanalError → Request → Outgoing → CanalResult (Unit {0}) × Outgoing
sending none request o =
    (ok tt, record o { sent = o.sent ++ request ∷ []; attempts = o.attempts + 1 })
sending (some e) request o = (err e, record o { attempts = o.attempts + 1 })

abbrev pub send_packet : Request → Outgoing → CanalResult (Unit {0}) × Outgoing
send_packet request o = sending (o.fails_at o.attempts) request o

auth_of : CanalClient → ClientAuth
auth_of c = record {
  password = [];
  destination = c.destination;
  client_id = decimal c.client_id;
  filter = c.filter.pattern;
  start_timestamp = pos 0;
}

sub_of : CanalClient → Sub
sub_of c = record {
  destination = c.destination;
  client_id = decimal c.client_id;
  filter = c.filter.pattern;
}

tcp_failed : CanalClient → Text → CanalError
tcp_failed c e =
    CanalError.binlog_connection
      (bytes "TCP connect to " ++ (c.host ++ (bytes ":" ++ (decimal c.port ++ (bytes ": " ++ e)))))

module _ (answers : Answers) (closed : CanalError) where
  -- `ack.error_message` of the answer to `ClientAuth`
  ack_error : Result Text Text → CanalResult (Unit {0})
  ack_error (err e) = err (CanalError.protocol (bytes "decode Ack: " ++ e))
  ack_error (ok message) = if is_empty message then ok tt else err (CanalError.auth_failed message)

  is_ack : Text → Packet → CanalResult (Unit {0})
  is_ack expected packet =
      if eq_ℤ packet.type_number ack_type then ok tt else err (CanalError.protocol expected)

  accepted : Packet → CanalResult (Unit {0})
  unfolding is_ack ack_error
  accepted packet =
      if eq_ℤ packet.type_number ack_type
      then ack_error (answers.decode_ack packet.body)
      else err (CanalError.protocol (bytes "expected Ack after ClientAuth"))

  -- `read_packet(&mut stream).await?` and the test of what it gave; then the rest of the stream
  answered :
      (Packet → CanalResult (Unit {0}))
      → CanalResult (Unit {0}) × Outgoing
      → List (CanalResult Packet)
      → CanalResult Stream
  answered test (err e, o) incoming = err e
  answered test (ok u, o) [] = err closed
  answered test (ok u, o) (err e ∷ incoming) = err e
  answered test (ok u, o) (ok packet ∷ incoming) = elim (test packet) [
    | err e ↦ err e
    | ok v ↦ ok (record { outgoing = o; incoming = incoming })
  ]

  kept : CanalResult Stream → CanalClient → CanalResult (Unit {0}) × CanalClient
  kept (err e) c = (err e, c)
  kept (ok stream) c = (ok tt, record c { stream = some stream })

  -- `tcp` is what `TcpStream::connect` gives.
  unfoldable pub connect : Result Stream Text → CanalClient → CanalResult (Unit {0}) × CanalClient
  unfolding answered kept accepted auth_of tcp_failed
  connect (err e) c = (err (tcp_failed c e), c)
  connect (ok s) c =
      kept (answered accepted (send_packet (authenticate (auth_of c)) s.outgoing) s.incoming) c

  subscribed : Option Stream → CanalClient → CanalResult Stream
  unfolding is_ack answered sub_of
  subscribed none c = err (CanalError.internal (bytes "not connected"))
  subscribed (some s) c =
      answered (is_ack (bytes "expected Ack after Sub"))
        (send_packet (subscription (sub_of c)) s.outgoing) s.incoming

  -- What `subscribe` does before it spawns the loop of Client.Poll, which gets the stream; the
  -- position that it is given is not used.
  unfoldable pub subscribe : Option LogPosition → CanalClient → CanalResult Stream × CanalClient
  unfolding subscribed
  subscribe position c = (subscribed c.stream c, record c { stream = none })
