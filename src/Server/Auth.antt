-- ===== src/Server/Auth.antt =====
-- crates/canal-server/src/server.rs: `handle_auth` and `handle_sub`.
use canal_rust.Prelude.{
  ℕ, ◌+◌, Option, none, some, Bool, true, false, not, [], ◌∷◌, ◌++◌, ◌||◌, length, is_empty, ltb,
  leb, ◌==◌, if◌then◌else◌,
}
use canal_rust.Prelude.Bytes.{Text, bytes, decimal, text_eq}
use canal_rust.Prelude.Int.{ℤ, pos, ltb_ℤ}
use canal_rust.Common.CanalError.{Result, ok, err, auth_failed}
use canal_rust.Common.LogPosition.{LogPosition}
use canal_rust.Common.Regex.{RegexLib, FilterPattern, default, validate}
use canal_rust.Server.Session.{ClientSession, register, get_session}
use canal_rust.Server.Connection.{
  Packet, ClientAuth, Sub, Protobuf, Connection, Handled, decoded, send_ack_ok, send_ack_err,
}

-- The fold over the zipped bytes, which is 0 exactly when no pair differs, seen as a test.
unfoldable pub bytes_differ : Text → Text → Bool
bytes_differ [] token = false
bytes_differ (a ∷ pass) [] = false
bytes_differ (a ∷ pass) (b ∷ token) = not (a == b) || bytes_differ pass token

unfoldable pub wrong_password : Option Text → Text → Bool
unfolding bytes_differ
wrong_password none pass = false
wrong_password (some token) pass = not (length pass == length token) || bytes_differ pass token

abbrev pub max_filter_pattern_len : ℕ
max_filter_pattern_len = 256

pub too_long : Text → Text
too_long filter = bytes "filter pattern too long: " ++ (decimal (length filter) ++ bytes " > 256")

unfoldable pub client_name : Text → Text
client_name client_id = if is_empty client_id then bytes "anonymous" else client_id

abbrev pub count_failure : {R : Type 0} → Connection R → Connection R
count_failure c = record c {
  state = record c.state { auth_error_count = c.state.auth_error_count + 1 };
}

-- After the error is sent: the third failure ends the connection.
unfoldable pub third_failure : {R : Type 0} → Bool → Connection R → Handled R
third_failure true c = (err (auth_failed (bytes "too many failures")), c)
third_failure false c = (ok tt, c)

unfoldable pub after_failure : {R : Type 0} → Handled R → Handled R
after_failure (err e, c) = (err e, c)
after_failure (ok _, c) = third_failure (leb 3 c.state.auth_error_count) c

unfoldable pub bad_password : {R : Type 0} → Connection R → Handled R
unfolding after_failure
bad_password c = after_failure (send_ack_err (bytes "authentication failed") (count_failure c))

unfoldable pub start_cursor : ℤ → Option LogPosition → Option LogPosition
start_cursor start_timestamp current =
    if ltb_ℤ (pos 0) start_timestamp
    then some (record {
      journal_name = [];
      position = 0;
      timestamp = some start_timestamp;
      server_id = none;
      gtid = none;
    })
    else current

module _ (lib : RegexLib) (protobuf : Protobuf) (now : ℕ) where
  open lib use {Regex}

  -- `fp` if it validates, or the message for the client
  unfoldable pub validated : FilterPattern → Result FilterPattern Text
  validated fp = elim (validate lib fp) [
    | ok _ ↦ ok fp
    | err e ↦ err (bytes "invalid filter pattern: " ++ e)
  ]

  unfoldable pub auth_filter : Text → Result FilterPattern Text
  unfolding validated
  auth_filter filter =
      if is_empty filter
      then ok default
      else if ltb max_filter_pattern_len (length filter)
      then err (too_long filter)
      else validated (record { pattern = filter; black_list = [] })

  abbrev pub admit : ClientAuth → FilterPattern → Connection Regex → Connection Regex
  admit auth filter c = record c {
    state = record c.state {
      authenticated = true;
      client_id = some (client_name auth.client_id);
      current_pos = start_cursor auth.start_timestamp c.state.current_pos;
    };
    sessions = register lib now (client_name auth.client_id) auth.destination filter c.sessions;
  }

  abbrev pub with_filter : ClientAuth → Result FilterPattern Text → Connection Regex → Handled Regex
  with_filter auth (err message) c = send_ack_err message c
  with_filter auth (ok filter) c = send_ack_ok (admit auth filter c)

  unfoldable pub authenticate : Option Text → ClientAuth → Connection Regex → Handled Regex
  authenticate auth_token auth c =
      if c.state.authenticated
      then send_ack_err (bytes "already authenticated") c
      else if wrong_password auth_token auth.password
      then bad_password c
      else with_filter auth (auth_filter auth.filter) c

  unfoldable pub handle_auth : Option Text → Packet → Connection Regex → Handled Regex
  handle_auth auth_token packet c =
      decoded (bytes "ClientAuth") (protobuf.decode_auth packet.body) (authenticate auth_token) c

  pub mismatch : Text → Text → Text
  mismatch sub_id auth_id =
      bytes "client_id mismatch: sub has '"
      ++ (sub_id ++ (bytes "' but authenticated as '" ++ (auth_id ++ bytes "'")))

  -- `some` is the message for a client that names another identity.
  unfoldable pub other_identity : Option Text → Text → Option Text
  other_identity none sub_id = none
  other_identity (some auth_id) sub_id =
      if text_eq sub_id auth_id then none else some (mismatch sub_id auth_id)

  unfoldable pub kept_black_list : Option (ClientSession Regex) → Text
  kept_black_list none = []
  kept_black_list (some s) = s.filter.black_list

  abbrev pub admit_sub : Sub → FilterPattern → Connection Regex → Connection Regex
  admit_sub sub filter c = record c {
    state = record c.state { client_id = some sub.client_id };
    sessions = register lib now sub.client_id sub.destination filter c.sessions;
  }

  abbrev pub with_sub_filter : Sub → Result FilterPattern Text → Connection Regex → Handled Regex
  with_sub_filter sub (err message) c = send_ack_err message c
  with_sub_filter sub (ok filter) c = send_ack_ok (admit_sub sub filter c)

  abbrev pub own_identity : Option Text → Sub → Connection Regex → Handled Regex
  own_identity (some message) sub c = send_ack_err message c
  own_identity none sub c =
      if ltb max_filter_pattern_len (length sub.filter)
      then send_ack_err (too_long sub.filter) c
      else with_sub_filter sub
          (validated (record {
            pattern = sub.filter;
            black_list = kept_black_list (get_session sub.client_id c.sessions);
          }))
          c

  unfoldable pub subscribe : Sub → Connection Regex → Handled Regex
  subscribe sub c = own_identity (other_identity c.state.client_id sub.client_id) sub c

  unfoldable pub handle_sub : Packet → Connection Regex → Handled Regex
  handle_sub packet c = decoded (bytes "Sub") (protobuf.decode_sub packet.body) subscribe c
