-- ===== src/Server/Session.antt =====
-- crates/canal-server/src/session.rs: `ClientSession` and `SessionManager`. Times are numbers, and
-- `Utc::now()` is an argument. Sessions are shared through `Arc`, so an update by client id is seen by
-- every holder: the map is the store of all sessions.
use canal_rust.Prelude.{ℕ, Option, none, some, [], is_empty, if◌then◌else◌}
use canal_rust.Prelude.Bytes.{Text}
use canal_rust.Prelude.Dict.{Dict, text_key, lookup, insert, remove}
use canal_rust.Common.LogPosition.{LogPosition}
use canal_rust.Common.Regex.{RegexLib, FilterPattern}

pub record ClientSession (Regex : Type 0) : Type 0 where
  pub client_id : Text
  pub destination : Text
  pub filter : FilterPattern
  pub last_ack_position : Option LogPosition
  pub connected_at : ℕ
  pub last_heartbeat : ℕ
  pub compiled_pattern : Option Regex
  pub compiled_black_list : Option Regex

pub record SessionManager (Regex : Type 0) : Type 0 where
  pub sessions : Dict Text (ClientSession Regex)

module _ (lib : RegexLib) where
  open lib use {Regex, compile}

  unfoldable pub new_session : ℕ → Text → Text → FilterPattern → ClientSession Regex
  new_session now client_id destination filter = record {
    client_id = client_id;
    destination = destination;
    filter = filter;
    last_ack_position = none;
    connected_at = now;
    last_heartbeat = now;
    compiled_pattern = compile filter.pattern;
    compiled_black_list = if is_empty filter.black_list then none else compile filter.black_list;
  }

  unfoldable pub register :
      ℕ → Text → Text → FilterPattern → SessionManager Regex → SessionManager Regex
  register now client_id destination filter m = record {
    sessions = insert client_id (new_session now client_id destination filter) m.sessions;
  }

abbrev pub new : {R : Type 0} → SessionManager R
new = record { sessions = [] }

unfoldable pub unregister : {R : Type 0} → Text → SessionManager R → SessionManager R
unregister client_id m = record { sessions = remove client_id m.sessions }

unfoldable pub get_session : {R : Type 0} → Text → SessionManager R → Option (ClientSession R)
get_session client_id m = lookup client_id m.sessions

-- `if let Some(s) = self.sessions.get(client_id) { ... }` with an assignment through the lock
abbrev pub updated :
    {R : Type 0}
    → (ClientSession R → ClientSession R)
    → Text
    → SessionManager R
    → Option (ClientSession R)
    → SessionManager R
updated f client_id m none = m
updated f client_id m (some s) = record { sessions = insert client_id (f s) m.sessions }

abbrev pub update :
    {R : Type 0} → (ClientSession R → ClientSession R) → Text → SessionManager R → SessionManager R
update f client_id m = updated f client_id m (lookup client_id m.sessions)

unfoldable pub update_ack : {R : Type 0} → Text → LogPosition → SessionManager R → SessionManager R
update_ack client_id p = update (λ s. record s { last_ack_position = some p }) client_id

unfoldable pub heartbeat : {R : Type 0} → ℕ → Text → SessionManager R → SessionManager R
heartbeat now client_id = update (λ s. record s { last_heartbeat = now }) client_id
