-- ===== src/Client/FromStore.antt =====
-- From the store of crates/canal-store/src/memory.rs to the events that
-- crates/canal-client/src/lib.rs makes of the answers to many Gets.
use canal_rust.Prelude.{
  ℕ, ◌≤◌, ◌≡◌, refl, sym, ap, ◌∙◌, Option, some, none, List, [], ◌∷◌, ◌++◌, map, All, length,
}
use canal_rust.Prelude.Bytes.{Text}
use canal_rust.Common.CanalError.{Result}
use canal_rust.Common.Event.{CanalEvent}
use canal_rust.Common.Regex.{RegexLib}
use canal_rust.Store.{MemoryEventStore}
use canal_rust.Store.Sorted.{IsSorted}
use canal_rust.Store.Reads.{unread}
use canal_rust.Wire.Proto.{Entry, ProtoRowChange}
use canal_rust.Wire.Conversion.{entry_of}
use canal_rust.Wire.RoundTrip.{entry_bytes_to_event-canal_event_to_entry}
use canal_rust.Server.Connection.{Protobuf, Connection}
use canal_rust.Server.Sent.{IsEncodable, entry_text, text_of, sent_entries}
use canal_rust.Server.Keeping.{cursor, shown, Placed}
use canal_rust.Server.Sequence.{Request, count_gets, answers, answers-unread}
use canal_rust.Client.EndToEnd.{IsCarried, entry_event, arrived, arrived-IsCarried}

module _ (protobuf : Protobuf) (encode_change : ProtoRowChange → Text)
    (decode_change : Text → Option ProtoRowChange) (decode_entry : Text → Result Entry Text) where
  abbrev pub Carried : CanalEvent → Type 0
  Carried = IsCarried protobuf encode_change decode_change decode_entry

  Carried-Encodable :
      (events : List CanalEvent)
      → All Carried events
      → All (IsEncodable protobuf encode_change) events
        × (map
              (entry_event protobuf encode_change decode_change decode_entry)
              (map (entry_text protobuf encode_change) events)
            ≡ map (arrived protobuf encode_change decode_change decode_entry) events)
  Carried-Encodable [] carried = (tt, refl)
  Carried-Encodable (event ∷ events) (k, carried) =
      let (encodable, arrives) = Carried-Encodable events carried in
      let (entry, back) =
        entry_bytes_to_event-canal_event_to_entry encode_change decode_change protobuf.encode_entry
          decode_entry event k.t k.known k.position_fits k.server_id_fits k.some_bytes k.inner
          k.outer in
      let decode = entry_event protobuf encode_change decode_change decode_entry in
      let here : decode (entry_text protobuf encode_change event)
          ≡ arrived protobuf encode_change decode_change decode_entry event =
        ap (λ r. decode (text_of protobuf encode_change r)) entry
        ∙ (back
            ∙ sym (arrived-IsCarried protobuf encode_change decode_change decode_entry event k)) in
      (
        ((entry_of encode_change k.t event, entry), encodable),
        ap (λ x. x ∷ map decode (map (entry_text protobuf encode_change) events)) here
            ∙ ap (λ xs. arrived protobuf encode_change decode_change decode_entry event ∷ xs)
                arrives,
      )

  module _ (lib : RegexLib) (cid : Text) where
    open lib use {Regex}

    -- The store has its events in order and has dropped none, no other connection changes the session,
    -- the client is named, has a cursor of its own or was sent no batch yet, every send succeeds, and
    -- no entry was sent before. The server can convert the unread events that pass the filter, into
    -- messages that decode to themselves. The client asks with Gets and acknowledgements in any order.
    -- Then as many Gets as there are unread events are enough: what the client decodes from the
    -- entries of all the answers is exactly these events, in order and each as its round trip says,
    -- with no error between them.
    pub answers-arrived :
        (requests : List Request) (s : MemoryEventStore) (c : Connection Regex)
        (events : List CanalEvent)
        → IsSorted s.buffer
        → c.state.client_id ≡ some cid
        → Placed lib cid c
        → ((k : ℕ) → c.transport.fails_at k ≡ none)
        → sent_entries c.transport.sent ≡ []
        → unread (cursor lib cid c).0 s.buffer ≡ events
        → length events ≤ count_gets requests
        → All Carried (shown lib cid c events)
        → map
            (entry_event protobuf encode_change decode_change decode_entry)
            (sent_entries (answers lib protobuf encode_change cid requests s c).transport.sent)
          ≡ map (arrived protobuf encode_change decode_change decode_entry) (shown lib cid c events)
    unfolding sent_entries
    answers-arrived requests s c events sorted known placed sends fresh found few carried =
        let decode = entry_event protobuf encode_change decode_change decode_entry in
        let (encodable, arrives) = Carried-Encodable (shown lib cid c events) carried in
        ap (map decode) (
          answers-unread lib protobuf encode_change cid requests s c events sorted known placed
            sends found few encodable
          ∙ ap (λ t. t ++ map (entry_text protobuf encode_change) (shown lib cid c events)) fresh)
        ∙ arrives
