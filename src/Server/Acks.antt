-- ===== src/Server/Acks.antt =====
-- What acknowledging and rolling back do to the cursors of crates/canal-server/src/server.rs.
use canal_rust.Prelude.{
  ◌≡◌, refl, sym, ap, ◌∙◌, Option, none, some, Bool, true, false, if◌then◌else◌, if-cases,
}
use mathlib.Core.Option
use mathlib.Core.Path.{ap₂}
use canal_rust.Prelude.Bytes.{Text, text_eq, text_eq_iff}
use canal_rust.Prelude.Dict.{lookup, text_key, lookup-insert}
use canal_rust.Prelude.Int.{eq_ℤ}
use canal_rust.Common.CanalError.{ok}
use canal_rust.Common.LogPosition.{LogPosition}
use canal_rust.Server.Session.{ClientSession, SessionManager, get_session, updated, update_ack}
use canal_rust.Server.Connection.{Packet, ClientAck, Protobuf, Connection}
use canal_rust.Server.Cursor.{acknowledge, if_decoded, handle_client_ack, handle_client_rollback}

abbrev pub acked : {R : Type 0} → LogPosition → ClientSession R → ClientSession R
acked p s = record s { last_ack_position = some p }

-- An acknowledged position is kept in the session of that client, if there is one, and in no other:
-- no session appears, and nothing else of it changes.
pub get_session-update_ack :
    {R : Type 0} (i j : Text) (p : LogPosition) (m : SessionManager R)
    → get_session j (update_ack i p m)
      ≡ (if text_eq i j then Option.map (acked p) (get_session j m) else get_session j m)
unfolding get_session update_ack
get_session-update_ack {R = R} i j p m = go (lookup i m.sessions) refl
  where
    branch :
        (b : Bool) {x y : Option (ClientSession R)} (z : Option (ClientSession R))
        → (b ≡ true → x ≡ y)
        → (if b then x else z) ≡ (if b then y else z)
    branch true z h = h refl
    branch false z h = refl

    go :
        (o : Option (ClientSession R))
        → lookup i m.sessions ≡ o
        → lookup j (updated (acked p) i m o).sessions ≡ (
            if text_eq i j then Option.map (acked p) (lookup j m.sessions) else lookup j m.sessions)
    go none e =
        if-cases (λ z. lookup j m.sessions ≡ z) (text_eq i j)
          (λ t.
            let none_there : lookup j m.sessions ≡ none =
              ap (λ k. lookup k m.sessions) (sym ((text_eq_iff i j).0 t)) ∙ e in
            none_there ∙ ap (Option.map (acked p)) (sym none_there))
          (λ f. refl)
    go (some s) e =
        lookup-insert i j (acked p s) m.sessions
        ∙ branch (text_eq i j) (lookup j m.sessions) (λ t.
          ap (Option.map (acked p)) (sym e ∙ ap (λ k. lookup k m.sessions) ((text_eq_iff i j).0 t)))

rolled_back :
    {R : Type 0} (protobuf : Protobuf) (rollback : Packet) (c : Connection R)
    → protobuf.decode_rollback rollback.body ≡ true
    → (handle_client_rollback protobuf rollback c).state.current_pos ≡ c.state.last_ack_pos
unfolding handle_client_rollback
rolled_back protobuf rollback c e = rw e refl

-- A rollback of a named client that was sent a batch leads back to what it has acknowledged: to the
-- end of that batch, if the packet before it acknowledges just that batch, and else to what was
-- acknowledged before, or to no position at all.
pub rollback-ack :
    {R : Type 0} (protobuf : Protobuf) (ack rollback : Packet) (c : Connection R)
    (client_ack : ClientAck) (cid : Text) (end : LogPosition)
    → protobuf.decode_ack ack.body ≡ ok client_ack
    → protobuf.decode_rollback rollback.body ≡ true
    → c.state.client_id ≡ some cid
    → c.state.last_get_end_pos ≡ some end
    → (handle_client_rollback protobuf rollback
        (handle_client_ack protobuf ack c)).state.current_pos
      ≡ (if eq_ℤ client_ack.batch_id c.state.last_get_batch_id
          then some end
          else c.state.last_ack_pos)
unfolding handle_client_rollback handle_client_ack acknowledge
rollback-ack protobuf ack rollback c client_ack cid end e f g h =
    let known : handle_client_ack protobuf ack c ≡ acknowledge client_ack (some cid) (some end) c =
      ap (λ r. if_decoded r c) e ∙ ap₂ (λ a b. acknowledge client_ack a b c) g h in
    rolled_back protobuf rollback (handle_client_ack protobuf ack c) f
    ∙ (ap (λ d. d.state.last_ack_pos) known
        ∙ chosen (eq_ℤ client_ack.batch_id c.state.last_get_batch_id))
  where
    chosen :
        (b : Bool)
        → (if b
            then record c {
              state = record c.state { last_ack_pos = some end };
              sessions = update_ack cid end c.sessions;
            }
            else c).state.last_ack_pos
          ≡ (if b then some end else c.state.last_ack_pos)
    chosen true = refl
    chosen false = refl
