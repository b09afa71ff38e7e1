-- ===== src/Server/Keeping.antt =====
-- What acknowledgements of crates/canal-server/src/server.rs leave as they are: the cursor of a client
-- and what passes its filter.
use canal_rust.Prelude.{
  ◌⊎◌, inl, inr, if-cases, Option, ◌≡◌, refl, sym, ap, ◌∙◌, none, some, Bool, List, filter,
}
use mathlib.Core.Option
use mathlib.Core.Path.{fun_ext}
use canal_rust.Prelude.Bytes.{Text, text_eq}
use canal_rust.Prelude.Int.{eq_ℤ}
use canal_rust.Common.Event.{CanalEvent}
use canal_rust.Common.LogPosition.{LogPosition}
use canal_rust.Common.Regex.{RegexLib}
use canal_rust.Server.Session.{ClientSession, SessionManager, get_session, update_ack}
use canal_rust.Server.Connection.{Packet, ClientAck, Protobuf, Connection}
use canal_rust.Server.Fetch.{session_ack, start_of, passes}
use canal_rust.Common.CanalError.{Result, ok, err}
use canal_rust.Server.Cursor.{acknowledge, if_decoded, handle_client_ack}
use canal_rust.Server.Acks.{acked, get_session-update_ack}

module _ (lib : RegexLib) (cid : Text) where
  open lib use {Regex}

  abbrev pub cursor : Connection Regex → LogPosition × Bool
  cursor c = start_of c.state.current_pos (session_ack (get_session cid c.sessions))

  abbrev pub shown : Connection Regex → List CanalEvent → List CanalEvent
  shown c = filter (passes lib (get_session cid c.sessions))

  -- No batch was sent yet, or the client has a cursor of its own.
  abbrev pub Placed : Connection Regex → Type 0
  Placed c =
      (c.state.last_get_end_pos ≡ none) ⊎ ((p : LogPosition) × (c.state.current_pos ≡ some p))

module _ (lib : RegexLib) (protobuf : Protobuf) (cid : Text) where
  open lib use {Regex}

  -- What an acknowledgement leaves as it is
  pub record Unmoved (c d : Connection Regex) : Type 0 where
    pub client_id : d.state.client_id ≡ c.state.client_id
    pub end : d.state.last_get_end_pos ≡ c.state.last_get_end_pos
    pub current : d.state.current_pos ≡ c.state.current_pos
    pub transport : d.transport ≡ c.transport
    pub filters : passes lib (get_session cid d.sessions) ≡ passes lib (get_session cid c.sessions)

  Unmoved-refl : (c : Connection Regex) → Unmoved c c
  Unmoved-refl c = record {
    client_id = refl;
    end = refl;
    current = refl;
    transport = refl;
    filters = refl;
  }

  passes-acked :
      (p : LogPosition) (o : Option (ClientSession Regex)) (e : CanalEvent)
      → passes lib (Option.map (acked p) o) e ≡ passes lib o e
  unfolding passes
  passes-acked p none e = refl
  passes-acked p (some s) e = refl

  passes-update_ack :
      (i : Text) (p : LogPosition) (m : SessionManager Regex) (e : CanalEvent)
      → passes lib (get_session cid (update_ack i p m)) e ≡ passes lib (get_session cid m) e
  passes-update_ack i p m e =
      ap (λ o. passes lib o e) (get_session-update_ack i cid p m)
      ∙ if-cases (λ o. passes lib o e ≡ passes lib (get_session cid m) e) (text_eq i cid)
          (λ t. passes-acked p (get_session cid m) e) (λ f. refl)

  acknowledge-Unmoved :
      (client_ack : ClientAck) (known : Option Text) (end : Option LogPosition)
      (c : Connection Regex)
      → Unmoved c (acknowledge client_ack known end c)
  unfolding acknowledge
  acknowledge-Unmoved client_ack (some i) (some end) c =
      if-cases (Unmoved c) (eq_ℤ client_ack.batch_id c.state.last_get_batch_id)
        (λ t. record {
          client_id = refl;
          end = refl;
          current = refl;
          transport = refl;
          filters = fun_ext (passes-update_ack i end c.sessions);
        })
        (λ f. Unmoved-refl c)
  acknowledge-Unmoved client_ack (some i) none c = Unmoved-refl c
  acknowledge-Unmoved client_ack none end c = Unmoved-refl c

  -- Before the first batch an acknowledgement changes nothing at all.
  acknowledge-nothing :
      (client_ack : ClientAck) (known : Option Text) (c : Connection Regex)
      → acknowledge client_ack known none c ≡ c
  unfolding acknowledge
  acknowledge-nothing client_ack none c = refl
  acknowledge-nothing client_ack (some i) c = refl

  pub handle_client_ack-Unmoved :
      (packet : Packet) (c : Connection Regex) → Unmoved c (handle_client_ack protobuf packet c)
  unfolding handle_client_ack
  handle_client_ack-Unmoved packet c = go (protobuf.decode_ack packet.body)
    where
      go : (r : Result ClientAck Text) → Unmoved c (if_decoded r c)
      go (err e) = Unmoved-refl c
      go (ok a) = acknowledge-Unmoved a c.state.client_id c.state.last_get_end_pos c

  pub cursor-handle_client_ack :
      (packet : Packet) (c : Connection Regex)
      → Placed lib cid c
      → cursor lib cid (handle_client_ack protobuf packet c) ≡ cursor lib cid c
  unfolding handle_client_ack start_of
  cursor-handle_client_ack packet c (inl none_sent) = go (protobuf.decode_ack packet.body)
    where
      go : (r : Result ClientAck Text) → cursor lib cid (if_decoded r c) ≡ cursor lib cid c
      go (err e) = refl
      go (ok a) =
          ap (λ o. cursor lib cid (acknowledge a c.state.client_id o c)) none_sent
          ∙ ap (cursor lib cid) (acknowledge-nothing a c.state.client_id c)
  cursor-handle_client_ack packet c (inr (p, at)) =
      let d = handle_client_ack protobuf packet c in
      let own = (handle_client_ack-Unmoved packet c).current in
      ap (λ o. start_of o (session_ack (get_session cid d.sessions))) (own ∙ at)
      ∙ ap (λ o. start_of o (session_ack (get_session cid c.sessions))) (sym at)

  pub Placed-handle_client_ack :
      (packet : Packet) (c : Connection Regex)
      → Placed lib cid c
      → Placed lib cid (handle_client_ack protobuf packet c)
  Placed-handle_client_ack packet c (inl none_sent) =
      inl ((handle_client_ack-Unmoved packet c).end ∙ none_sent)
  Placed-handle_client_ack packet c (inr (p, at)) =
      inr (p, (handle_client_ack-Unmoved packet c).current ∙ at)
