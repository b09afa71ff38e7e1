-- ===== src/Server/Tests.antt =====
-- Concrete connections for crates/canal-server/src/server.rs.
use canal_rust.Prelude.{
  inr, All-filter, map, ℕ, ◌-◌, ◌≡◌, ◌≢◌, refl, ap, ◌∙◌, none, some, List, [], ◌∷◌, ◌++◌, arith,
  filter, last_of, max, if◌then◌else◌, All,
}
use canal_rust.Prelude.Bytes.{Text, bytes, text_eq, parse_u64}
use canal_rust.Prelude.Int.{negsuc, pos, eq_ℤ}
use canal_rust.Common.CanalError.{Result, ok, err}
use canal_rust.Common.Events.{event_position}
use canal_rust.Common.LogPosition
use canal_rust.Common.LogPosition.{LogPosition, binlog_suffix, key_leb, key_eq}
use canal_rust.Store.Sorted.{IsSorted, behind}
use canal_rust.Store.Reads.{unread, cut}
use canal_rust.Store.Cuts.{cut_rest}
use canal_rust.Server.Session.{get_session}
use canal_rust.Server.Connection.{Packet, ClientAuth}
use canal_rust.Server.Fetch.{
  fetch_size, session_ack, start_of, lost_events, passes, encode_events, send_messages, answer_get,
}
use canal_rust.Server.Cursor.{handle_client_ack, handle_client_rollback}
use canal_rust.Server.Client.{Incoming, frame, idle, Moment, handle_frame, handle_client}
use canal_rust.Server.Locked.{Locked, Lacks, handle_client-Locked}
use canal_rust.Server.Invariant.{handle_frame-Keeps}
use canal_rust.Server.Keeps.{Keeps, fresh-IsValid}
use canal_rust.Server.Acks.{rollback-ack}
use canal_rust.Server.Reading.{poll, moved, answer_get-unread}
use canal_rust.Server.Leaving.{Left, handle_client-Left}
use canal_rust.Server.Examples.{
  lib, protobuf, encode_change, connected, moment, registered, end, served, event, rows, store, one,
}
use canal_rust.Server.Sent.{IsEncodable, entry_text, sent_entries}
use canal_rust.Server.Sequence.{Request, answers, answers-unread}
use canal_rust.Wire.Conversion.{
  proto_event_type, store_change_of, header_of, entry_of, canal_event_to_entry,
}

abbrev secret : Text
secret = 5 ∷ []

abbrev longer : Text
longer = 5 ∷ 6 ∷ []

abbrev guesses : List (Moment Text × Incoming)
guesses = (moment, frame (2 ∷ 6 ∷ [])) ∷ (moment, frame (6 ∷ 10 ∷ [])) ∷ []

abbrev body_of : Result Packet Text → Text
body_of (ok packet) = packet.body
body_of (err e) = []

abbrev password_of : Result ClientAuth Text → Text
password_of (ok auth) = auth.password
password_of (err e) = []

guess-Lacks : (t : ℕ) (bs token : Text) → bs ≢ token → Lacks protobuf token (frame (t ∷ bs))
guess-Lacks t bs token other packet auth e f g = other (ap body_of e ∙ (ap password_of f ∙ g))

guesses-Lacks : All (λ x. Lacks protobuf (5 ∷ []) x.1) guesses
guesses-Lacks = (
  guess-Lacks 2 (6 ∷ []) (5 ∷ []) (λ e. ground arith),
  (guess-Lacks 6 (10 ∷ []) (5 ∷ []) (λ e. ground arith), tt),
)

connected-Locked : Locked connected
connected-Locked = record { unknown = refl; nameless = refl; refused = tt }

handle_client-Locked_example :
    Locked (handle_client lib protobuf encode_change (some (5 ∷ [])) guesses connected).1
handle_client-Locked_example =
    handle_client-Locked lib protobuf encode_change (5 ∷ []) guesses connected guesses-Lacks
      connected-Locked

handle_frame-Keeps_example :
    Keeps (handle_frame lib protobuf encode_change none moment (2 ∷ 5 ∷ []) connected)
handle_frame-Keeps_example =
    handle_frame-Keeps lib protobuf encode_change none moment (2 ∷ 5 ∷ []) connected fresh-IsValid

handle_client-Left_example : Left (
    handle_client lib protobuf encode_change none
      ((moment, frame (2 ∷ 5 ∷ [])) ∷ (moment, idle) ∷ [])
      connected)
handle_client-Left_example =
    handle_client-Left lib protobuf encode_change none
      ((moment, frame (2 ∷ 5 ∷ [])) ∷ (moment, idle) ∷ []) connected

rollback-ack_example :
    (handle_client_rollback protobuf
      (record { type_number = pos 12; body = [] })
      (handle_client_ack protobuf
        (record { type_number = pos 8; body = 3 ∷ [] })
        served)).state.current_pos
    ≡ (if eq_ℤ (pos 3) (pos 3) then some end else none)
rollback-ack_example =
    rollback-ack protobuf (record { type_number = pos 8; body = 3 ∷ [] })
      (record { type_number = pos 12; body = [] }) served
      (record { destination = []; client_id = []; batch_id = pos 3 }) (bytes "c") end refl refl refl
      refl

program : Unit {0}
unfolding bytes text_eq parse_u64 binlog_suffix key_leb LogPosition.new behind fetch_size start_of
    lost_events get_session
program = tt

store-IsSorted : IsSorted store.buffer
unfolding program
store-IsSorted = ((refl, (refl, tt)), ((refl, tt), (tt, tt)))

no_loss :
    lost_events
      (start_of served.state.current_pos (session_ack (get_session (bytes "c") served.sessions)))
      none
    ≡ none
unfolding program
no_loss = refl

still_unread :
    unread
      (start_of served.state.current_pos (session_ack (get_session (bytes "c") served.sessions))).0
      store.buffer
    ≡ rows
unfolding program
still_unread = refl

answer_get-unread_example :
    let e = event (bytes "b.1") 12 in
    let es = event (bytes "b.2") 4 ∷ [] in
    let end = event_position (last_of e (cut_rest (max (fetch_size (pos 1)) 1 - 1) e es)) in
    let batch = cut (fetch_size (pos 1)) (e ∷ es) in
    (answer_get lib protobuf encode_change none (poll store) registered one served
      ≡ send_messages store.batch_id_seq
          (encode_events protobuf encode_change
            (filter (passes lib (get_session (bytes "c") registered)) batch))
          (record served {
            sessions = registered;
            state = moved store.batch_id_seq end served.state;
          }))
    × (batch ++ unread end store.buffer ≡ e ∷ es)
answer_get-unread_example =
    answer_get-unread lib protobuf encode_change none store one registered served (bytes "c")
      (event (bytes "b.1") 12) (event (bytes "b.2") 4 ∷ []) store-IsSorted refl no_loss still_unread

rows-IsEncodable : All (IsEncodable protobuf encode_change) rows
unfolding canal_event_to_entry proto_event_type store_change_of header_of
rows-IsEncodable = (
  (entry_of encode_change (pos 1) (event (bytes "b.1") 12), refl),
  ((entry_of encode_change (pos 1) (event (bytes "b.2") 4), refl), tt),
)

abbrev requests : List Request
requests =
    Request.get (record one { fetch_size = negsuc 0 })
    ∷ Request.ack (record { type_number = pos 8; body = 0 ∷ [] })
    ∷ Request.get one
    ∷ []

answers-unread_example :
    sent_entries
      (answers lib protobuf encode_change (bytes "c") requests store served).transport.sent
    ≡ sent_entries served.transport.sent
      ++ map
          (entry_text protobuf encode_change)
          (filter (passes lib (get_session (bytes "c") served.sessions)) rows)
answers-unread_example =
    answers-unread lib protobuf encode_change (bytes "c") requests store served rows store-IsSorted
      refl (inr (end, refl)) (λ k. refl) still_unread (omega arith)
      (All-filter (IsEncodable protobuf encode_change)
        (passes lib (get_session (bytes "c") served.sessions)) rows rows-IsEncodable)
