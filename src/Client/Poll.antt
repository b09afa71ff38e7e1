-- ===== src/Client/Poll.antt =====
-- crates/canal-client/src/lib.rs, lines 123 to 222: the background task of `subscribe`, which polls the
-- server, hands the events to the consumer and acknowledges. It recurs on what its reads give.
use canal_rust.Prelude.{
  ℕ, ◌+◌, ◌*◌, ◌^◌, Bool, true, false, List, [], ◌∷◌, ◌++◌, min, if◌then◌else◌,
}
use canal_rust.Prelude.Bytes.{Text, decimal}
use canal_rust.Prelude.Int.{ℤ, pos, eq_ℤ}
use canal_rust.Prelude.Words.{u64_max}
use canal_rust.Common.CanalError.{CanalResult, Result, ok, err}
use canal_rust.Common.Event.{CanalEvent}
use canal_rust.Server.Connection.{Packet}
use canal_rust.Client.{
  Request, get, acknowledge, Outgoing, Answers, CanalClient, ack_type, messages_type, send_packet,
}

-- The task's variables: what it sends, what it handed to the consumer and whether the `n`-th hand-over
-- finds the consumer alive, and the delays it slept.
pub record Poll : Type 0 where
  pub outgoing : Outgoing
  pub delivered : List (CanalResult CanalEvent)
  pub offers : ℕ
  pub alive_at : ℕ → Bool
  pub idle_count : ℕ
  pub slept : List ℕ

-- What the task holds at its start
unfoldable pub start : Outgoing → (ℕ → Bool) → Poll
start outgoing alive_at = record {
  outgoing = outgoing;
  delivered = [];
  offers = 0;
  alive_at = alive_at;
  idle_count = 0;
  slept = [];
}

-- `tx.send(message).await`, and whether it was delivered
unfoldable pub deliver : CanalResult CanalEvent → Poll → Bool × Poll
deliver message p =
    if p.alive_at p.offers
    then (true, record p { delivered = p.delivered ++ message ∷ []; offers = p.offers + 1 })
    else (false, record p { offers = p.offers + 1 })

abbrev u32_max : ℕ
u32_max = 4294967295

-- The saturating arithmetic of the delay: 100 ms times a power of two
unfoldable pub back_off : Poll → Poll
back_off p =
    let idle_count = min (p.idle_count + 1) u32_max in
    record p {
      idle_count = idle_count;
      slept = p.slept ++ min (100 * min (2 ^ min idle_count 6) u64_max) u64_max ∷ [];
    }

-- `?`-like: `false` ends the task.
abbrev pub go_on : (Poll → Bool × Poll) → Bool × Poll → Bool × Poll
go_on next (true, p) = next p
go_on next (false, p) = (false, p)

unfoldable pub sent_ok : CanalResult (Unit {0}) × Outgoing → Poll → Bool × Poll
sent_ok (ok u, o) p = (true, record p { outgoing = o })
sent_ok (err e, o) p = (false, record p { outgoing = o })

abbrev pub send : Request → Poll → Bool × Poll
send request p = sent_ok (send_packet request p.outgoing) p

abbrev pub continue : (Poll → Poll) → Bool × Poll → Poll
continue next (true, p) = next p
continue next (false, p) = p

-- `entry_event` is `entry_bytes_to_event`.
module _ (answers : Answers) (entry_event : Text → CanalResult CanalEvent) (c : CanalClient) where
  unfoldable pub get_request : Request
  get_request = get (record {
    destination = c.destination;
    client_id = decimal c.client_id;
    fetch_size = pos 100;
  })

  unfoldable pub ack_request : ℤ → Request
  ack_request batch_id =
      acknowledge (record {
        destination = c.destination;
        client_id = decimal c.client_id;
        batch_id = batch_id;
      })

  -- The entries of one answer, in order, until the consumer is gone
  unfoldable pub forward : List Text → Poll → Bool × Poll
  forward [] p = (true, p)
  forward (entry_bytes ∷ entries) p = go_on (forward entries) (deliver (entry_event entry_bytes) p)

  unfoldable pub acknowledged : ℤ → Poll → Bool × Poll
  unfolding ack_request
  acknowledged batch_id p = send (ack_request batch_id) (record p { idle_count = 0 })

  unfoldable pub on_messages : Result (ℤ × List Text) Text → Poll → Bool × Poll
  on_messages (err e) p = (false, p)
  on_messages (ok (batch_id, entries)) p = go_on (acknowledged batch_id) (forward entries p)

  unfoldable pub on_response : CanalResult Packet → Poll → Bool × Poll
  on_response (err e) p = (false, p)
  on_response (ok packet) p =
      if eq_ℤ packet.type_number messages_type
      then on_messages (answers.decode_messages packet.body) p
      else if eq_ℤ packet.type_number ack_type
      then (false, p)
      else (true, back_off p)

  -- One turn of the loop; `true` where the next one follows.
  unfoldable pub turn : CanalResult Packet → Poll → Bool × Poll
  unfolding get_request
  turn response p = go_on (on_response response) (send get_request p)

  -- A read behind the last response fails, which ends the task.
  unfoldable pub poll_loop : List (CanalResult Packet) → Poll → Poll
  unfolding get_request
  poll_loop [] p = (send get_request p).1
  poll_loop (response ∷ responses) p = continue (poll_loop responses) (turn response p)
