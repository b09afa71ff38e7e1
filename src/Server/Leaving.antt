-- ===== src/Server/Leaving.antt =====
-- What is left of a connection of crates/canal-server/src/server.rs when its loop ends.
use canal_rust.Prelude.{◌≡◌, refl, ap, ◌∙◌, Option, none, some, List, [], ◌∷◌, if-cases}
use canal_rust.Prelude.Bytes.{Text, text_eq, text_eq_refl}
use canal_rust.Prelude.Dict.{text_key, lookup-remove}
use canal_rust.Common.CanalError.{ok, err}
use canal_rust.Common.Regex.{RegexLib}
use canal_rust.Server.Session.{get_session, unregister}
use canal_rust.Server.Connection.{Protobuf, Connection, Handled}
use canal_rust.Server.Client.{
  Incoming, frame, failed, idle, Moment, handle_frame, leave, disconnect, go_on, handle_client,
}
use canal_rust.Wire.Proto.{ProtoRowChange}

-- Its session is gone, unless the loop ended with an error.
abbrev pub Left : {R : Type 0} → Handled R → Type 0
Left (ok _, c) = (cid : Text) → c.state.client_id ≡ some cid → get_session cid c.sessions ≡ none
Left (err e, c) = Unit

disconnect-Left : {R : Type 0} (c : Connection R) → Left (disconnect c)
unfolding disconnect get_session unregister
disconnect-Left c cid e =
    ap (λ o. get_session cid (leave o c.sessions)) e
    ∙ (lookup-remove cid cid c.sessions.sessions
        ∙ if-cases (λ o. o ≡ none) (text_eq cid cid) (λ t. refl)
            (λ f. let t = text_eq_refl cid in cc))

-- A client that leaves or falls silent has no session any more, whatever it and the others did
-- before. Only a loop that ends with an error keeps the session.
pub handle_client-Left :
    (lib : RegexLib) (protobuf : Protobuf) (encode_change : ProtoRowChange → Text)
    (auth_token : Option Text) (stream : List (Moment lib.Regex × Incoming))
    (c : Connection lib.Regex)
    → Left (handle_client lib protobuf encode_change auth_token stream c)
unfolding handle_client
handle_client-Left lib protobuf encode_change auth_token [] c = disconnect-Left c
handle_client-Left lib protobuf encode_change auth_token ((m, idle) ∷ stream) c =
    disconnect-Left (record c { sessions = m.sessions })
handle_client-Left lib protobuf encode_change auth_token ((m, failed e) ∷ stream) c = tt
handle_client-Left lib protobuf encode_change auth_token ((m, frame bs) ∷ stream) c =
    go (handle_client-Left lib protobuf encode_change auth_token stream)
      (handle_frame lib protobuf encode_change auth_token m bs (record c { sessions = m.sessions }))
  where
    go :
        ((c' : Connection lib.Regex)
          → Left (handle_client lib protobuf encode_change auth_token stream c'))
        → (h : Handled lib.Regex)
        → Left (go_on (handle_client lib protobuf encode_change auth_token stream) h)
    go ih (ok u, c') = ih c'
    go ih (err e, c') = tt
