-- ===== src/Client/EndToEnd.antt =====
-- From `handle_get` of crates/canal-server/src/server.rs to the consumer of
-- crates/canal-client/src/lib.rs: what the client makes of the entries that the server encodes.
use canal_rust.Prelude.{
  ℕ, ◌+◌, ◌<◌, ◌≡◌, refl, sym, ap, ◌∙◌, Option, none, some, Bool, true, false, List, [], ◌∷◌, ◌++◌,
  map, All, is_empty, arith, if◌then◌else◌,
}
use mathlib.Core.Path.{subst}
use canal_rust.Prelude.Bytes.{Text}
use canal_rust.Prelude.Int.{ℤ, eq_ℤ}
use canal_rust.Prelude.Words.{u64_mod}
use canal_rust.Common.CanalError.{CanalError, CanalResult, Result, ok, err, ◌>>=◌}
use canal_rust.Common.Event.{CanalEvent}
use canal_rust.Wire.Proto.{Entry, ProtoRowChange}
use canal_rust.Wire.Conversion.{proto_event_type, store_change, entry_of}
use canal_rust.Wire.Decoding.{entry_bytes_to_event}
use canal_rust.Wire.Received.{received}
use canal_rust.Wire.RoundTrip.{entry_bytes_to_event-canal_event_to_entry}
use canal_rust.Server.Connection.{Packet, Protobuf}
use canal_rust.Server.Fetch.{encode_events}
use canal_rust.Client.{Answers, CanalClient, messages_type, sending}
use canal_rust.Client.Poll.{
  Poll, deliver, go_on, sent_ok, ack_request, get_request, forward, acknowledged, on_messages,
  on_response, turn,
}
use canal_rust.Client.Turns.{acks, batch_of, batch_in, outcomes, outcomes-one, Step, turn-Step}

module _ (protobuf : Protobuf) (encode_change : ProtoRowChange → Text)
    (decode_change : Text → Option ProtoRowChange) (decode_entry : Text → Result Entry Text) where
  -- The server can convert the event, and the messages that it makes of it decode to themselves.
  pub record IsCarried (event : CanalEvent) : Type 0 where
    pub t : ℤ
    pub known : proto_event_type event.entry_type ≡ ok t
    pub position_fits : event.position < u64_mod
    pub server_id_fits : event.server_id < u64_mod
    pub some_bytes : is_empty (encode_change (store_change t event)) ≡ false
    pub inner : decode_change (encode_change (store_change t event)) ≡ some (store_change t event)
    pub outer :
        decode_entry (protobuf.encode_entry (entry_of encode_change t event))
        ≡ ok (entry_of encode_change t event)

  abbrev pub entry_event : Text → CanalResult CanalEvent
  entry_event = entry_bytes_to_event decode_entry decode_change

  -- What arrives of an event, which its type decides
  abbrev arrives : CanalEvent → Result ℤ CanalError → CanalResult CanalEvent
  arrives event (ok t) = ok (received event (encode_change (store_change t event)))
  arrives event (err e) = err e

  abbrev pub arrived : CanalEvent → CanalResult CanalEvent
  arrived event = arrives event (proto_event_type event.entry_type)

  pub arrived-IsCarried :
      (event : CanalEvent) (k : IsCarried event)
      → arrived event ≡ ok (received event (encode_change (store_change k.t event)))
  arrived-IsCarried event k = ap (arrives event) k.known

  encode_events-arrived :
      (events : List CanalEvent)
      → All IsCarried events
      → (entries : List Text) × (encode_events protobuf encode_change events ≡ ok entries)
        × (map entry_event entries ≡ map arrived events)
  unfolding encode_events
  encode_events-arrived [] carried = ([], refl, refl)
  encode_events-arrived (event ∷ events) (k, carried) =
      let (entries, encoded, decodes) = encode_events-arrived events carried in
      let (entry, back) =
        entry_bytes_to_event-canal_event_to_entry encode_change decode_change protobuf.encode_entry
          decode_entry event k.t k.known k.position_fits k.server_id_fits k.some_bytes k.inner
          k.outer in
      let one = protobuf.encode_entry (entry_of encode_change k.t event) in
      (
        one ∷ entries,
        ap
              (λ r. r >>= λ e.
                (encode_events protobuf encode_change events >>= λ rest.
                ok (protobuf.encode_entry e ∷ rest)))
              entry
            ∙ ap (λ r. r >>= λ rest. ok (one ∷ rest)) encoded,
        ap (λ x. x ∷ map entry_event entries) (back ∙ sym (arrived-IsCarried event k))
            ∙ ap (λ xs. arrived event ∷ xs) decodes,
      )

  abbrev Decodes : List CanalEvent → CanalResult (List Text) → Type 0
  Decodes events (ok entries) = map entry_event entries ≡ map arrived events
  Decodes events (err e) = Unit

  -- The consumer stays, and every send succeeds.
  pub record IsUndisturbed (p : Poll) : Type 0 where
    pub alive : (n : ℕ) → p.alive_at n ≡ true
    pub sends : (n : ℕ) → p.outgoing.fails_at n ≡ none

  module _ (answers : Answers) (c : CanalClient) where
    pub forward-IsUndisturbed :
        (entries : List Text) (p : Poll)
        → IsUndisturbed p
        → ((forward answers entry_event c entries p).0 ≡ true)
          × IsUndisturbed (forward answers entry_event c entries p).1
    unfolding forward deliver
    forward-IsUndisturbed [] p u = (refl, u)
    forward-IsUndisturbed (entry_bytes ∷ entries) p u =
        let next : Poll = record p {
          delivered = p.delivered ++ entry_event entry_bytes ∷ [];
          offers = p.offers + 1;
        } in
        subst
          (λ b.
            let r =
              go_on (forward answers entry_event c entries)
                (if b then (true, next) else (false, record p { offers = p.offers + 1 })) in
            (r.0 ≡ true) × IsUndisturbed r.1)
          (sym (u.alive p.offers))
          (forward-IsUndisturbed entries next (record { alive = u.alive; sends = u.sends }))

    acknowledged-IsUndisturbed :
        (id : ℤ) (r : Bool × Poll)
        → r.0 ≡ true
        → IsUndisturbed r.1
        → (go_on (acknowledged answers entry_event c id) r).0 ≡ true
    unfolding acknowledged sent_ok sending
    acknowledged-IsUndisturbed id (true, q) e u =
        ap
          (λ f.
            (sent_ok (sending f (ack_request answers entry_event c id) q.outgoing)
              (record q { idle_count = 0 })).0)
          (u.sends q.outgoing.attempts)
    acknowledged-IsUndisturbed id (false, q) e u = e

    on_response-goes_on :
        (packet : Packet) (id : ℤ) (entries : List Text) (p : Poll)
        → eq_ℤ packet.type_number messages_type ≡ true
        → answers.decode_messages packet.body ≡ ok (id, entries)
        → IsUndisturbed p
        → (on_response answers entry_event c (ok packet) p).0 ≡ true
    unfolding on_response on_messages
    on_response-goes_on packet id entries p typed decodes u =
        let (whole, v) = forward-IsUndisturbed entries p u in
        rw (typed, decodes)
          (acknowledged-IsUndisturbed id (forward answers entry_event c entries p) whole v)

    pub turn-goes_on :
        (packet : Packet) (id : ℤ) (entries : List Text) (p : Poll)
        → eq_ℤ packet.type_number messages_type ≡ true
        → answers.decode_messages packet.body ≡ ok (id, entries)
        → IsUndisturbed p
        → (turn answers entry_event c (ok packet) p).0 ≡ true
    unfolding turn sent_ok sending
    turn-goes_on packet id entries p typed decodes u =
        ap
          (λ f.
            (go_on (on_response answers entry_event c (ok packet))
              (sent_ok (sending f (get_request answers entry_event c) p.outgoing) p)).0)
          (u.sends p.outgoing.attempts)
        ∙ on_response-goes_on packet id entries _ typed decodes
            (record { alive = u.alive; sends = u.sends })

    pub Step-whole :
        (batches : List (ℤ × List Text)) (p : Poll) (r : Bool × Poll)
        → r.0 ≡ true
        → Step answers entry_event batches p r
        → (r.1.delivered ≡ p.delivered ++ outcomes answers entry_event batches)
          × (acks r.1.outgoing.sent ≡ acks p.outgoing.sent ++ map (λ b. b.0) batches)
    Step-whole batches p (true, q) e s = s
    Step-whole batches p (false, q) e s = absurd (ground (arith, e))

    -- The client polls and gets `Messages` with the entries that the server encodes for some events,
    -- each of which the server can convert into messages that decode to themselves. While the
    -- consumer stays and the sends succeed, the consumer gets all these events, in order and as the
    -- round trip of one event says, then the batch is acknowledged, and the task goes on.
    pub turn-encode_events :
        (events : List CanalEvent) (entries : List Text) (id : ℤ) (packet : Packet) (p : Poll)
        → All IsCarried events
        → encode_events protobuf encode_change events ≡ ok entries
        → eq_ℤ packet.type_number messages_type ≡ true
        → answers.decode_messages packet.body ≡ ok (id, entries)
        → IsUndisturbed p
        → ((turn answers entry_event c (ok packet) p).0 ≡ true)
          × ((turn answers entry_event c (ok packet) p).1.delivered
              ≡ p.delivered ++ map arrived events)
          × (acks (turn answers entry_event c (ok packet) p).1.outgoing.sent
              ≡ acks p.outgoing.sent ++ id ∷ [])
    turn-encode_events events entries id packet p carried encoded typed decodes u =
        let on = turn-goes_on packet id entries p typed decodes u in
        let (made, e, back) = encode_events-arrived events carried in
        let decoded : map entry_event entries ≡ map arrived events =
          subst (Decodes events) (sym e ∙ encoded) back in
        let answered : batch_in answers entry_event (ok packet) ≡ (id, entries) ∷ [] =
          ap
            (λ b.
              if b then batch_of answers entry_event (answers.decode_messages packet.body) else [])
            typed
          ∙ ap (batch_of answers entry_event) decodes in
        let (d, a) =
          Step-whole ((id, entries) ∷ []) p (turn answers entry_event c (ok packet) p) on (
            subst (λ b. Step answers entry_event b p (turn answers entry_event c (ok packet) p))
              answered (turn-Step answers entry_event c (ok packet) p)) in
        (
          on,
          d ∙ ap (λ t. p.delivered ++ t) (outcomes-one answers entry_event id entries ∙ decoded),
          a,
        )
