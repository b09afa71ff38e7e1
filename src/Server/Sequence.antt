-- ===== src/Server/Sequence.antt =====
-- Many Gets and acknowledgements of one client of crates/canal-server/src/server.rs, one after the
-- other, on a store of crates/canal-store/src/memory.rs that gets no new events meanwhile.
use canal_rust.Prelude.{
  inr, ℕ, suc, ◌+◌, ◌-◌, ◌≤◌, ◌≡◌, refl, sym, ap, ◌∙◌, none, some, List, [], ◌∷◌, ◌++◌, map, filter,
  length, arith, All, All-append_left, All-append_right, filter-append, map-append, length-append,
  last_of, max,
}
use mathlib.Core.Path.{subst, ap₂}
use mathlib.Core.List.{append-nil, append_assoc}
use canal_rust.Prelude.Bytes.{Text}
use canal_rust.Prelude.Int.{pos}
use canal_rust.Common.Event.{CanalEvent}
use canal_rust.Common.Events
use canal_rust.Common.Events.{Events, event_position}
use canal_rust.Common.LogPosition.{LogPosition}
use canal_rust.Common.Regex.{RegexLib}
use canal_rust.Store.{MemoryEventStore, get_pass}
use canal_rust.Store.Sorted.{IsSorted}
use canal_rust.Store.Reads.{unread, cut, answer, get_pass-answer}
use canal_rust.Store.Cuts.{cut_rest}
use canal_rust.Store.Delivery.{next_unread}
use canal_rust.Server.Session.{get_session}
use canal_rust.Server.Connection.{Packet, Get, Protobuf, Reply, messages, Connection, sending, send}
use canal_rust.Server.Fetch.{
  fetch_size, start_of, lost_events, passes, send_messages, deliver, with_batch, named, answer_get,
}
use canal_rust.Server.Cursor.{handle_client_ack}
use canal_rust.Server.Reading.{polled, poll, moved, answer_get-unread}
use canal_rust.Wire.Proto.{ProtoRowChange}
use canal_rust.Server.Sent.{
  sent_entries, sent_entries-snoc, IsEncodable, entry_text, encode_events-text,
}
use canal_rust.Server.Keeping.{
  cursor, shown, Placed, handle_client_ack-Unmoved, cursor-handle_client_ack,
  Placed-handle_client_ack,
}

-- What a client asks: a Get, or a packet of the type ClientAck
pub data Request : Type 0 where
  get : Get → Request
  ack : Packet → Request

abbrev pub count_gets : List Request → ℕ
count_gets [] = 0
count_gets (get g ∷ requests) = suc (count_gets requests)
count_gets (ack packet ∷ requests) = count_gets requests

module _ (lib : RegexLib) (protobuf : Protobuf) (encode_change : ProtoRowChange → Text)
    (cid : Text) where
  open lib use {Regex}

  -- The requests one after the other, where nothing has left the store and no other connection
  -- changes the sessions
  unfoldable pub answers : List Request → MemoryEventStore → Connection Regex → Connection Regex
  answers [] s c = c
  answers (get g ∷ requests) s c =
      answers requests (get_pass (cursor lib cid c).0 (fetch_size g.fetch_size) s).1
        (answer_get lib protobuf encode_change none (poll s) c.sessions g c).1
  answers (ack packet ∷ requests) s c = answers requests s (handle_client_ack protobuf packet c)

  -- The connection after an answer that was sent
  abbrev replied : Reply → Connection Regex → Connection Regex
  replied reply c = record c {
    transport = record c.transport {
      sent = c.transport.sent ++ reply ∷ [];
      attempts = c.transport.attempts + 1;
    };
  }

  send-replied :
      (reply : Reply) (c : Connection Regex)
      → ((n : ℕ) → c.transport.fails_at n ≡ none)
      → (send reply c).1 ≡ replied reply c
  unfolding sending
  send-replied reply c sends = ap (λ f. (sending f reply c).1) (sends c.transport.attempts)

  buffer-get_pass :
      (start : LogPosition) (size : ℕ) (s : MemoryEventStore)
      → IsSorted s.buffer
      → (get_pass start size s).1.buffer ≡ s.buffer
  buffer-get_pass start size s sorted = ap (λ r. r.1.buffer) (get_pass-answer start size s sorted)

  module _ (g : Get) where
    -- A Get with nothing unread is answered without entries, and the cursor stays.
    answer_get-nothing :
        (s : MemoryEventStore) (c : Connection Regex)
        → IsSorted s.buffer
        → c.state.client_id ≡ some cid
        → ((n : ℕ) → c.transport.fails_at n ≡ none)
        → unread (cursor lib cid c).0 s.buffer ≡ []
        → (answer_get lib protobuf encode_change none (poll s) c.sessions g c).1
          ≡ replied (messages (pos 0) []) c
    unfolding answer_get deliver lost_events Events.new
    answer_get-nothing s c sorted known sends found =
        let size = fetch_size g.fetch_size in
        ap (λ o. (named lib protobuf encode_change none (poll s) o size c.sessions c).1) known
        ∙ (ap (λ r. (with_batch lib protobuf encode_change none (poll s) cid (polled r.0) c).1)
              (get_pass-answer (cursor lib cid c).0 size s sorted)
            ∙ (ap
                  (λ u.
                    (with_batch lib protobuf encode_change none (poll s) cid
                      (polled (answer s.batch_id_seq (cut size u))) c).1)
                  found
                ∙ send-replied (messages (pos 0) []) c sends))

    abbrev end_of : CanalEvent → List CanalEvent → LogPosition
    end_of e es = event_position (last_of e (cut_rest (max (fetch_size g.fetch_size) 1 - 1) e es))

    abbrev batch_of : CanalEvent → List CanalEvent → List CanalEvent
    batch_of e es = cut (fetch_size g.fetch_size) (e ∷ es)

    -- The connection after a Get that found something
    abbrev served :
        MemoryEventStore → CanalEvent → List CanalEvent → Connection Regex → Connection Regex
    served s e es c =
        replied
          (messages s.batch_id_seq
            (map (entry_text protobuf encode_change) (shown lib cid c (batch_of e es))))
          (record c { state = moved s.batch_id_seq (end_of e es) c.state })

    answer_get-some :
        (s : MemoryEventStore) (c : Connection Regex) (e : CanalEvent) (es : List CanalEvent)
        → IsSorted s.buffer
        → c.state.client_id ≡ some cid
        → ((n : ℕ) → c.transport.fails_at n ≡ none)
        → unread (cursor lib cid c).0 s.buffer ≡ e ∷ es
        → All (IsEncodable protobuf encode_change) (shown lib cid c (batch_of e es))
        → ((answer_get lib protobuf encode_change none (poll s) c.sessions g c).1 ≡ served s e es c)
          × (batch_of e es ++ unread (end_of e es) s.buffer ≡ e ∷ es)
    unfolding lost_events
    answer_get-some s c e es sorted known sends found encodable =
        let (answered, rest) =
          answer_get-unread lib protobuf encode_change none s g c.sessions c cid e es sorted known
            refl found in
        let entered : Connection Regex = record c {
          state = moved s.batch_id_seq (end_of e es) c.state;
        } in
        (
          ap (λ r. r.1) answered
              ∙ (ap (λ r. (send_messages s.batch_id_seq r entered).1)
                    (encode_events-text protobuf encode_change _ encodable)
                  ∙ send-replied _ entered sends),
          rest,
        )

  -- The store has its events in order and has dropped none, no other connection changes the session,
  -- the client is named, has a cursor of its own or was sent no batch yet, every send succeeds, and
  -- the server can convert the unread events that pass the filter. The client asks with Gets, of
  -- whatever fetch sizes, and with acknowledgements of whatever batches, in any order. Then as many
  -- Gets as there are unread events are enough: the entries of all the answers together are those of
  -- exactly the unread events that pass the filter, in order, and further requests add none.
  pub answers-unread :
      (requests : List Request) (s : MemoryEventStore) (c : Connection Regex)
      (events : List CanalEvent)
      → IsSorted s.buffer
      → c.state.client_id ≡ some cid
      → Placed lib cid c
      → ((k : ℕ) → c.transport.fails_at k ≡ none)
      → unread (cursor lib cid c).0 s.buffer ≡ events
      → length events ≤ count_gets requests
      → All (IsEncodable protobuf encode_change) (shown lib cid c events)
      → sent_entries (answers requests s c).transport.sent
        ≡ sent_entries c.transport.sent
          ++ map (entry_text protobuf encode_change) (shown lib cid c events)
  unfolding answers start_of event_position
  answers-unread [] s c [] sorted known placed sends found few encodable = sym (append-nil _)
  answers-unread [] s c (e ∷ es) sorted known placed sends found few encodable =
      absurd (omega (arith, few))
  answers-unread (ack packet ∷ requests) s c events sorted known placed sends found few encodable =
      let d = handle_client_ack protobuf packet c in
      let same = handle_client_ack-Unmoved lib protobuf cid packet c in
      let hide = ap (λ f. filter f events) same.filters in
      answers-unread requests s d events sorted (same.client_id ∙ known)
        (Placed-handle_client_ack lib protobuf cid packet c placed)
        (subst (λ t. (k : ℕ) → t.fails_at k ≡ none) (sym same.transport) sends)
        (ap (λ x. unread x.0 s.buffer) (cursor-handle_client_ack lib protobuf cid packet c placed)
          ∙ found)
        few (subst (All (IsEncodable protobuf encode_change)) (sym hide) encodable)
      ∙ ap₂ (λ t xs. sent_entries t.sent ++ map (entry_text protobuf encode_change) xs)
          same.transport hide
  answers-unread (get g ∷ requests) s c [] sorted known placed sends found few encodable =
      let s' = (get_pass (cursor lib cid c).0 (fetch_size g.fetch_size) s).1 in
      let same = buffer-get_pass (cursor lib cid c).0 (fetch_size g.fetch_size) s sorted in
      let empty = messages (pos 0) [] in
      ap (λ d. sent_entries (answers requests s' d).transport.sent)
        (answer_get-nothing g s c sorted known sends found)
      ∙ (answers-unread requests s' (replied empty c) [] (subst IsSorted (sym same) sorted) known
            placed sends (ap (unread (cursor lib cid c).0) same ∙ found) (omega arith) encodable
          ∙ ap (λ t. t ++ []) (sent_entries-snoc c.transport.sent (pos 0) [] ∙ append-nil _))
  answers-unread (get g ∷ requests) s c (e ∷ es) sorted known placed sends found few encodable =
      let k = max (fetch_size g.fetch_size) 1 - 1 in
      let s' = (get_pass (cursor lib cid c).0 (fetch_size g.fetch_size) s).1 in
      let same = buffer-get_pass (cursor lib cid c).0 (fetch_size g.fetch_size) s sorted in
      let text = map (entry_text protobuf encode_change) in
      let rest = unread (end_of g e es) s.buffer in
      let split = next_unread (cursor lib cid c).0 k s.buffer e es sorted found in
      let parts : shown lib cid c (batch_of g e es) ++ shown lib cid c rest
          ≡ shown lib cid c (e ∷ es) =
        sym (filter-append (passes lib (get_session cid c.sessions)) (batch_of g e es) rest)
        ∙ ap (shown lib cid c) split in
      let all = subst (All (IsEncodable protobuf encode_change)) (sym parts) encodable in
      let now =
        All-append_left (IsEncodable protobuf encode_change) (shown lib cid c (batch_of g e es)) _
          all in
      let then_ =
        All-append_right (IsEncodable protobuf encode_change) (shown lib cid c (batch_of g e es)) _
          all in
      let fewer : length rest ≤ count_gets requests =
        omega (arith, few, length-append (batch_of g e es) rest, ap length split) in
      let replies = c.transport.sent in
      ap (λ d. sent_entries (answers requests s' d).transport.sent)
        (answer_get-some g s c e es sorted known sends found now).0
      ∙ (answers-unread requests s' (served g s e es c) rest (subst IsSorted (sym same) sorted)
            known (inr (end_of g e es, refl)) sends (ap (unread (end_of g e es)) same) fewer then_
          ∙ (ap (λ t. t ++ text (shown lib cid c rest))
                (sent_entries-snoc replies s.batch_id_seq
                  (text (shown lib cid c (batch_of g e es))))
              ∙ (append_assoc (sent_entries replies) _ _
                  ∙ ap (λ t. sent_entries replies ++ t)
                      (sym (
                          map-append (entry_text protobuf encode_change)
                            (shown lib cid c (batch_of g e es)) (shown lib cid c rest))
                        ∙ ap text parts))))
