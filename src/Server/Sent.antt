-- ===== src/Server/Sent.antt =====
-- What crates/canal-server/src/server.rs has sent: the entries of answers and of events.
use canal_rust.Prelude.{◌≡◌, refl, sym, ap, ◌∙◌, List, [], ◌∷◌, ◌++◌, map, All}
use mathlib.Core.List.{append-nil, append_assoc}
use canal_rust.Prelude.Bytes.{Text}
use canal_rust.Prelude.Int.{ℤ}
use canal_rust.Common.CanalError.{CanalResult, ok, err, ◌>>=◌}
use canal_rust.Common.Event.{CanalEvent}
use canal_rust.Server.Connection.{Protobuf, Reply, ack_ok, ack_err, messages}
use canal_rust.Server.Fetch.{encode_events}
use canal_rust.Wire.Proto.{Entry, ProtoRowChange}
use canal_rust.Wire.Conversion.{canal_event_to_entry}

-- The entries in what was sent
unfoldable pub sent_entries : List Reply → List Text
sent_entries [] = []
sent_entries (messages id entries ∷ sent) = entries ++ sent_entries sent
sent_entries (ack_ok ∷ sent) = sent_entries sent
sent_entries (ack_err message ∷ sent) = sent_entries sent

pub sent_entries-snoc :
    (sent : List Reply) (id : ℤ) (entries : List Text)
    → sent_entries (sent ++ messages id entries ∷ []) ≡ sent_entries sent ++ entries
unfolding sent_entries
sent_entries-snoc [] id entries = append-nil entries
sent_entries-snoc (messages i es ∷ sent) id entries =
    ap (λ t. es ++ t) (sent_entries-snoc sent id entries) ∙ sym (append_assoc es _ entries)
sent_entries-snoc (ack_ok ∷ sent) id entries = sent_entries-snoc sent id entries
sent_entries-snoc (ack_err message ∷ sent) id entries = sent_entries-snoc sent id entries

module _ (protobuf : Protobuf) (encode_change : ProtoRowChange → Text) where
  abbrev pub IsEncodable : CanalEvent → Type 0
  IsEncodable event = (entry : Entry) × (canal_event_to_entry encode_change event ≡ ok entry)

  abbrev pub text_of : CanalResult Entry → Text
  text_of (ok entry) = protobuf.encode_entry entry
  text_of (err e) = []

  -- The bytes of the entry of an event
  abbrev pub entry_text : CanalEvent → Text
  entry_text event = text_of (canal_event_to_entry encode_change event)

  pub encode_events-text :
      (events : List CanalEvent)
      → All IsEncodable events
      → encode_events protobuf encode_change events ≡ ok (map entry_text events)
  unfolding encode_events
  encode_events-text [] h = refl
  encode_events-text (event ∷ events) ((entry, e), h) =
      ap
        (λ r. r >>= λ x.
          (encode_events protobuf encode_change events >>= λ rest.
          ok (protobuf.encode_entry x ∷ rest)))
        e
      ∙ (ap (λ r. r >>= λ rest. ok (protobuf.encode_entry entry ∷ rest))
            (encode_events-text events h)
          ∙ ap (λ t. ok (t ∷ map entry_text events)) (ap text_of (sym e)))
