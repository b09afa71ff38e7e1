-- ===== src/Server/Reading.antt =====
-- What one Get of crates/canal-server/src/server.rs delivers from the store of
-- crates/canal-store/src/memory.rs.
use canal_rust.Prelude.{
  ℕ, ◌-◌, ◌≡◌, ap, ◌∙◌, Option, none, some, List, ◌∷◌, ◌++◌, last_of, filter, max,
}
use canal_rust.Prelude.Bytes.{Text}
use canal_rust.Prelude.Int.{ℤ, pos}
use canal_rust.Common.CanalError.{CanalResult, ok}
use canal_rust.Common.Event.{CanalEvent}
use canal_rust.Common.Events
use canal_rust.Common.Events.{Events, event_position}
use canal_rust.Common.LogPosition.{LogPosition}
use canal_rust.Common.Regex.{RegexLib}
use canal_rust.Store.{MemoryEventStore, get_pass}
use canal_rust.Store.Sorted.{IsSorted}
use canal_rust.Store.Reads.{unread, cut, answer, get_pass-answer}
use canal_rust.Store.Cuts.{cut_rest}
use canal_rust.Store.Delivery.{next_unread}
use canal_rust.Server.Session.{SessionManager, get_session}
use canal_rust.Server.Connection.{Get, Protobuf, ClientState, Connection}
use canal_rust.Server.Fetch.{
  fetch_size, session_ack, start_of, lost_events, passes, encode_events, send_messages, deliver,
  with_batch, reading, named, answer_get,
}
use canal_rust.Wire.Proto.{ProtoRowChange}

-- `get_batch` on a store that does not change meanwhile: an answer at once, or the empty batch after
-- the timeout.
abbrev pub polled : Option Events → CanalResult Events
polled none = ok (Events.new (pos 0))
polled (some batch) = ok batch

abbrev pub poll : MemoryEventStore → LogPosition → ℕ → CanalResult Events
poll s start size = polled (get_pass start size s).0

abbrev pub moved : ℤ → LogPosition → ClientState → ClientState
moved batch_id end s = record s {
  current_pos = some end;
  last_get_batch_id = batch_id;
  last_get_end_pos = some end;
}

module _ (lib : RegexLib) (protobuf : Protobuf) (encode_change : ProtoRowChange → Text)
    (watermark : Option LogPosition) (s : MemoryEventStore) where
  -- The buffer is in order, the client is named and has lost no event, some event is unread, and the
  -- store does not change meanwhile. A Get then sends the events of one batch that pass its filter, and
  -- moves the cursor to the end of the batch. The batch is the next part of the unread events, and
  -- what is unread from the new cursor is exactly the rest: the following Get neither skips an event
  -- nor repeats one, whatever the filter hides.
  pub answer_get-unread :
      (get : Get) (later : SessionManager lib.Regex) (c : Connection lib.Regex) (cid : Text)
      (e : CanalEvent) (es : List CanalEvent)
      → IsSorted s.buffer
      → c.state.client_id ≡ some cid
      → lost_events
          (start_of c.state.current_pos (session_ack (get_session cid c.sessions)))
          watermark
        ≡ none
      → unread (start_of c.state.current_pos (session_ack (get_session cid c.sessions))).0 s.buffer
        ≡ e ∷ es
      → let end =
          event_position (last_of e (cut_rest (max (fetch_size get.fetch_size) 1 - 1) e es)) in
        let batch = cut (fetch_size get.fetch_size) (e ∷ es) in
        (answer_get lib protobuf encode_change watermark (poll s) later get c
          ≡ send_messages s.batch_id_seq
              (encode_events protobuf encode_change
                (filter (passes lib (get_session cid later)) batch))
              (record c { sessions = later; state = moved s.batch_id_seq end c.state }))
        × (batch ++ unread end s.buffer ≡ e ∷ es)
  unfolding answer_get deliver Events.with_events
  answer_get-unread get later c cid e es sorted known fresh found =
      let start = start_of c.state.current_pos (session_ack (get_session cid c.sessions)) in
      let size = fetch_size get.fetch_size in
      (
        ap (λ o. named lib protobuf encode_change watermark (poll s) o size later c) known
            ∙ (ap
                  (λ o.
                    reading lib protobuf encode_change watermark (poll s) cid size later start o c)
                  fresh
                ∙ ap
                    (λ r.
                      with_batch lib protobuf encode_change watermark (poll s) cid r
                        (record c { sessions = later }))
                    (ap (λ r. polled r.0) (get_pass-answer start.0 size s sorted)
                      ∙ ap (λ u. polled (answer s.batch_id_seq (cut size u))) found)),
        next_unread start.0 (max size 1 - 1) s.buffer e es sorted found,
      )
