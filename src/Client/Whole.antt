-- ===== src/Client/Whole.antt =====
-- From the store of crates/canal-store/src/memory.rs, over the answers of
-- crates/canal-server/src/server.rs, to what the polling task of crates/canal-client/src/lib.rs hands
-- to its consumer.
mod Tests
use canal_rust.Prelude.{
  ℕ, ◌≤◌, ◌≡◌, refl, sym, ap, ◌∙◌, Option, some, none, Bool, true, false, List, [], ◌∷◌, ◌++◌, map,
  All, length, map-append, if◌then◌else◌,
}
use mathlib.Core.Path.{subst}
use mathlib.Core.List.{append-nil, append_assoc}
use canal_rust.Prelude.Bytes.{Text}
use canal_rust.Prelude.Int.{ℤ, eq_ℤ}
use canal_rust.Common.CanalError.{CanalResult, Result, ok}
use canal_rust.Common.Event.{CanalEvent}
use canal_rust.Common.Regex.{RegexLib}
use canal_rust.Store.{MemoryEventStore}
use canal_rust.Store.Sorted.{IsSorted}
use canal_rust.Store.Reads.{unread}
use canal_rust.Wire.Proto.{Entry, ProtoRowChange}
use canal_rust.Server.Connection.{
  Get, Packet, Protobuf, Connection, Reply, ack_ok, ack_err, messages,
}
use canal_rust.Server.Sent.{sent_entries}
use canal_rust.Server.Keeping.{cursor, shown, Placed}
use canal_rust.Server.Sequence
use canal_rust.Server.Sequence.{Request, count_gets}
use canal_rust.Client.{Answers, CanalClient, messages_type, sending}
use canal_rust.Client.Poll.{
  Poll, continue, go_on, sent_ok, ack_request, get_request, forward, acknowledged, on_messages,
  on_response, turn, poll_loop,
}
use canal_rust.Client.Turns.{batch_of, batch_in, outcomes-one, Step, turn-Step}
use canal_rust.Client.EndToEnd.{
  IsUndisturbed, entry_event, arrived, forward-IsUndisturbed, turn-goes_on, Step-whole,
}
use canal_rust.Client.FromStore.{Carried, answers-arrived}

module _ (protobuf : Protobuf) (encode_change : ProtoRowChange → Text)
    (decode_change : Text → Option ProtoRowChange) (decode_entry : Text → Result Entry Text)
    (answers : Answers) (client : CanalClient) where
  abbrev decode : Text → CanalResult CanalEvent
  decode = entry_event protobuf encode_change decode_change decode_entry

  abbrev Undisturbed : Poll → Type 0
  Undisturbed = IsUndisturbed protobuf encode_change decode_change decode_entry

  -- The packets carry the messages that the server sent, in order; what it accepted before them is
  -- read by connect and subscribe.
  abbrev pub Carry : List Reply → List Packet → Type 0
  Carry [] [] = Unit
  Carry [] (packet ∷ packets) = ⊥
  Carry (messages id entries ∷ replies) [] = ⊥
  Carry (messages id entries ∷ replies) (packet ∷ packets) =
      (eq_ℤ packet.type_number messages_type ≡ true)
      × (answers.decode_messages packet.body ≡ ok (id, entries))
      × Carry replies packets
  Carry (ack_ok ∷ replies) packets = Carry replies packets
  Carry (ack_err message ∷ replies) packets = ⊥

  acknowledged-Undisturbed :
      (id : ℤ) (r : Bool × Poll)
      → r.0 ≡ true
      → Undisturbed r.1
      → Undisturbed (go_on (acknowledged answers decode client id) r).1
  unfolding acknowledged sent_ok sending
  acknowledged-Undisturbed id (true, q) e u =
      subst
        (λ f.
          Undisturbed
            (sent_ok (sending f (ack_request answers decode client id) q.outgoing)
              (record q { idle_count = 0 })).1)
        (sym (u.sends q.outgoing.attempts)) (record { alive = u.alive; sends = u.sends })
  acknowledged-Undisturbed id (false, q) e u = u

  on_response-Undisturbed :
      (packet : Packet) (id : ℤ) (entries : List Text) (p : Poll)
      → eq_ℤ packet.type_number messages_type ≡ true
      → answers.decode_messages packet.body ≡ ok (id, entries)
      → Undisturbed p
      → Undisturbed (on_response answers decode client (ok packet) p).1
  unfolding on_response on_messages
  on_response-Undisturbed packet id entries p typed decodes u =
      let (whole, v) =
        forward-IsUndisturbed protobuf encode_change decode_change decode_entry answers client
          entries p u in
      rw (typed, decodes)
        (acknowledged-Undisturbed id (forward answers decode client entries p) whole v)

  turn-Undisturbed :
      (packet : Packet) (id : ℤ) (entries : List Text) (p : Poll)
      → eq_ℤ packet.type_number messages_type ≡ true
      → answers.decode_messages packet.body ≡ ok (id, entries)
      → Undisturbed p
      → Undisturbed (turn answers decode client (ok packet) p).1
  unfolding turn sent_ok sending
  turn-Undisturbed packet id entries p typed decodes u =
      subst
        (λ f.
          Undisturbed
            (go_on (on_response answers decode client (ok packet))
              (sent_ok (sending f (get_request answers decode client) p.outgoing) p)).1)
        (sym (u.sends p.outgoing.attempts))
        (on_response-Undisturbed packet id entries _ typed decodes
          (record { alive = u.alive; sends = u.sends }))

  turn-delivered :
      (packet : Packet) (id : ℤ) (entries : List Text) (p : Poll)
      → eq_ℤ packet.type_number messages_type ≡ true
      → answers.decode_messages packet.body ≡ ok (id, entries)
      → (turn answers decode client (ok packet) p).0 ≡ true
      → (turn answers decode client (ok packet) p).1.delivered ≡ p.delivered ++ map decode entries
  turn-delivered packet id entries p typed decodes on =
      let r = turn answers decode client (ok packet) p in
      let answered : batch_in answers decode (ok packet) ≡ (id, entries) ∷ [] =
        ap (λ b. if b then batch_of answers decode (answers.decode_messages packet.body) else [])
          typed
        ∙ ap (batch_of answers decode) decodes in
      (Step-whole protobuf encode_change decode_change decode_entry answers client
        ((id, entries) ∷ []) p r on
        (subst (λ b. Step answers decode b p r) answered
          (turn-Step answers decode client (ok packet) p))).0
      ∙ ap (λ t. p.delivered ++ t) (outcomes-one answers decode id entries)

  continued : (next : Poll → Poll) (r : Bool × Poll) → r.0 ≡ true → continue next r ≡ next r.1
  continued next (true, q) e = refl
  continued next (false, q) e = absurd cc

  abbrev received_packets : List Packet → List (CanalResult Packet)
  received_packets = map (λ packet. ok packet)

  poll_loop-delivered :
      (replies : List Reply) (packets : List Packet) (p : Poll)
      → Carry replies packets
      → Undisturbed p
      → (poll_loop answers decode client (received_packets packets) p).delivered
        ≡ p.delivered ++ map decode (sent_entries replies)
  unfolding poll_loop sent_entries sent_ok sending
  poll_loop-delivered [] [] p h u =
      ap (λ f. (sent_ok (sending f (get_request answers decode client) p.outgoing) p).1.delivered)
        (u.sends p.outgoing.attempts)
      ∙ sym (append-nil _)
  poll_loop-delivered [] (packet ∷ packets) p h u = absurd h
  poll_loop-delivered (messages id entries ∷ replies) [] p h u = absurd h
  poll_loop-delivered (messages id entries ∷ replies) (packet ∷ packets) p (typed, decodes, h) u =
      let on =
        turn-goes_on protobuf encode_change decode_change decode_entry answers client packet id
          entries p typed decodes u in
      let r = turn answers decode client (ok packet) p in
      let rest = map decode (sent_entries replies) in
      ap (λ q. q.delivered)
        (continued (poll_loop answers decode client (received_packets packets)) r on)
      ∙ (poll_loop-delivered replies packets r.1 h
            (turn-Undisturbed packet id entries p typed decodes u)
          ∙ (ap (λ t. t ++ rest) (turn-delivered packet id entries p typed decodes on)
              ∙ (append_assoc p.delivered (map decode entries) rest
                  ∙ ap (λ t. p.delivered ++ t)
                      (sym (map-append decode entries (sent_entries replies))))))
  poll_loop-delivered (ack_ok ∷ replies) packets p h u = poll_loop-delivered replies packets p h u
  poll_loop-delivered (ack_err message ∷ replies) packets p h u = absurd h

  module _ (lib : RegexLib) (cid : Text) where
    open lib use {Regex}

    -- On the server, the store has its events in order and has dropped none, no other connection
    -- changes the session, the client is named, has a cursor of its own or was sent no batch yet, and
    -- no entry was sent before; the server can convert the unread events that pass the filter, into
    -- messages that decode to themselves. No send fails, and the consumer stays. The server handles
    -- Gets and acknowledgements of one client, of any fetch sizes and batches and in any order, among
    -- them at least as many Gets as there are unread events. When its packets reach the client, the
    -- consumer gets exactly the unread events that pass the filter, in order and each as its round
    -- trip says, and no error.
    pub poll_loop-answers :
        (requests : List Request) (s : MemoryEventStore) (c : Connection Regex)
        (events : List CanalEvent) (packets : List Packet) (p : Poll)
        → IsSorted s.buffer
        → c.state.client_id ≡ some cid
        → Placed lib cid c
        → ((k : ℕ) → c.transport.fails_at k ≡ none)
        → sent_entries c.transport.sent ≡ []
        → unread (cursor lib cid c).0 s.buffer ≡ events
        → length events ≤ count_gets requests
        → All (Carried protobuf encode_change decode_change decode_entry) (shown lib cid c events)
        → Carry
            (Sequence.answers lib protobuf encode_change cid requests s c).transport.sent
            packets
        → Undisturbed p
        → (poll_loop answers decode client (received_packets packets) p).delivered
          ≡ p.delivered
            ++ map
                (arrived protobuf encode_change decode_change decode_entry)
                (shown lib cid c events)
    poll_loop-answers requests s c events packets p sorted known placed sends fresh found few
          carried carry u =
        poll_loop-delivered
          (Sequence.answers lib protobuf encode_change cid requests s c).transport.sent packets p
          carry u
        ∙ ap (λ t. p.delivered ++ t)
            (answers-arrived protobuf encode_change decode_change decode_entry lib cid requests s c
              events sorted known placed sends fresh found few carried)
