-- ===== src/Binlog/Lifecycle.antt =====
-- crates/canal-binlog/src/connector.rs: `DefaultBinlogConnector` and its life, from `new` to `Drop`.
-- A replication task is known by its number; the token that cancels it stands with it.
pub mod Runs
pub mod Tasks
pub mod Live
pub mod Reconnect
mod Tests
use canal_rust.Prelude.{
  ℕ, zero, suc, ◌+◌, ◌%◌, Option, none, some, Bool, true, false, List, [], ◌∷◌, ◌++◌, length,
  is_empty, ltb, if◌then◌else◌,
}
use canal_rust.Prelude.Bytes.{Text, bytes, decimal}
use canal_rust.Common.CanalError.{CanalError, CanalResult, Result, ok, err}
use canal_rust.Common.LogPosition.{LogPosition}

-- `mysql_cdc`'s `SslMode`, of which the program names one
pub data SslMode : Type 0 where
  disabled other_mode : SslMode

-- The fields of `mysql_cdc`'s `ReplicaOptions` and `BinlogOptions` that the program sets
pub record ReplicaOptions : Type 0 where
  pub hostname : Text
  pub port : ℕ
  pub username : Text
  pub password : Text
  pub server_id : ℕ
  pub blocking : Bool
  pub ssl_mode : SslMode
  pub binlog_file : Text
  pub binlog_position : ℕ

-- A blocking task that was spawned with the sender of a channel
pub record Task : Type 0 where
  pub options : ReplicaOptions
  pub sender : ℕ
  pub cancelled : Bool
  -- it has returned or panicked
  pub ended : Bool

pub record DefaultBinlogConnector : Type 0 where
  pub host : Text
  pub port : ℕ
  pub username : Text
  pub password : Text
  pub original_password : Option Text
  pub server_id : ℕ
  pub ssl_mode : SslMode
  pub connect_timeout_secs : ℕ
  pub sender : Option ℕ
  pub current_pos : Option LogPosition
  pub running : Bool
  pub cancel_token : Option ℕ
  pub connected : Bool
  -- the channels and the tasks that it has made
  pub channels : ℕ
  pub tasks : List Task

abbrev pub u32_max : ℕ
u32_max = 4294967295

unfoldable pub exceeds_u32 : ℕ → CanalError
exceeds_u32 server_id =
    CanalError.config (bytes "server_id " ++ (decimal server_id ++ bytes " exceeds u32::MAX"))

unfoldable pub new : Text → ℕ → Text → Text → ℕ → CanalResult DefaultBinlogConnector
new host port username password server_id =
    if ltb u32_max server_id
    then err (exceeds_u32 server_id)
    else ok (record {
      host = host;
      port = port;
      username = username;
      password = password;
      original_password = some password;
      server_id = server_id;
      ssl_mode = disabled;
      connect_timeout_secs = 30;
      sender = none;
      current_pos = none;
      running = false;
      cancel_token = none;
      connected = false;
      channels = 0;
      tasks = [];
    })

unfoldable pub with_ssl_mode : SslMode → DefaultBinlogConnector → DefaultBinlogConnector
with_ssl_mode mode c = record c { ssl_mode = mode }

unfoldable pub with_connect_timeout : ℕ → DefaultBinlogConnector → DefaultBinlogConnector
with_connect_timeout secs c = record c { connect_timeout_secs = secs }

-- The connector that sends on a new channel, and that channel for the receiver
unfoldable pub with_channel : DefaultBinlogConnector → DefaultBinlogConnector × ℕ
with_channel c = (record c { sender = some c.channels; channels = c.channels + 1 }, c.channels)

abbrev u32_mod : ℕ
u32_mod = 4294967296

unfoldable pub build_options : LogPosition → DefaultBinlogConnector → ReplicaOptions
build_options pos c = record {
  hostname = c.host;
  port = c.port;
  username = c.username;
  password = c.password;
  server_id = c.server_id % u32_mod;
  blocking = true;
  ssl_mode = c.ssl_mode;
  binlog_file = pos.journal_name;
  binlog_position = pos.position % u32_mod;
}

-- How `timeout(secs, started_rx).await` ends: the task sent, it ended without sending, or it did
-- neither in time.
pub data Started : Type 0 where
  sent dropped timed_out : Started

abbrev pub cancel : Task → Task
cancel t = record t { cancelled = true }

abbrev pub end : Task → Task
end t = record t { ended = true }

unfoldable pub at_task : (Task → Task) → ℕ → List Task → List Task
at_task f n [] = []
at_task f zero (t ∷ ts) = f t ∷ ts
at_task f (suc n) (t ∷ ts) = t ∷ at_task f n ts

unfoldable pub timeout_error : ℕ → CanalError
timeout_error secs =
    CanalError.binlog_connection
      (bytes "connection timed out after " ++ (decimal secs ++ bytes "s"))

-- The new task is the last one.
unfoldable pub after_start :
    Started → ℕ → DefaultBinlogConnector → CanalResult (Unit {0}) × DefaultBinlogConnector
after_start sent n c = (ok tt, record c { connected = true })
after_start dropped n c = (ok tt, record c { running = false; tasks = at_task end n c.tasks })
after_start timed_out n c = (
  err (timeout_error c.connect_timeout_secs),
  record c { running = false; tasks = at_task cancel n c.tasks },
)

unfoldable pub spawn : LogPosition → ℕ → DefaultBinlogConnector → DefaultBinlogConnector
spawn pos tx c = record c {
  password = [];
  cancel_token = some (length c.tasks);
  current_pos = some pos;
  running = true;
  tasks =
      c.tasks
      ++ record { options = build_options pos c; sender = tx; cancelled = false; ended = false }
        ∷ [];
}

unfoldable pub connect_with :
    Option ℕ
    → LogPosition
    → Started
    → DefaultBinlogConnector
    → CanalResult (Unit {0}) × DefaultBinlogConnector
connect_with none pos started c = (err (CanalError.internal (bytes "no sender configured")), c)
connect_with (some tx) pos started c = after_start started (length c.tasks) (spawn pos tx c)

unfoldable pub connect :
    LogPosition → Started → DefaultBinlogConnector → CanalResult (Unit {0}) × DefaultBinlogConnector
connect pos started c =
    if c.running
    then (err (CanalError.internal (bytes "already connected — disconnect first")), c)
    else connect_with c.sender pos started c

take_unsent : Option ℕ → DefaultBinlogConnector → Option (ℕ × DefaultBinlogConnector)
take_unsent (some tx) c = none
take_unsent none c =
    some (c.channels, record c { sender = some c.channels; channels = c.channels + 1 })

-- `none` is the panic of an assertion.
unfoldable pub take_receiver : DefaultBinlogConnector → Option (ℕ × DefaultBinlogConnector)
unfolding take_unsent
take_receiver c = if c.connected then none else take_unsent c.sender c

-- `if let Some(token) = self.cancel_token.take() { token.cancel() }`
unfoldable pub cancelled_tasks : Option ℕ → List Task → List Task
cancelled_tasks none tasks = tasks
cancelled_tasks (some n) tasks = at_task cancel n tasks

unfoldable pub restored : Option Text → Text → Text
restored none password = password
restored (some original) password = if is_empty password then original else password

unfoldable pub disconnect : DefaultBinlogConnector → CanalResult (Unit {0}) × DefaultBinlogConnector
disconnect c = (
  ok tt,
  record c {
    running = false;
    connected = false;
    sender = none;
    cancel_token = none;
    tasks = cancelled_tasks c.cancel_token c.tasks;
    password = restored c.original_password c.password;
  },
)

unfoldable pub current_position : DefaultBinlogConnector → Option LogPosition
current_position c = c.current_pos

-- `Drop`
unfoldable pub drop_ : DefaultBinlogConnector → DefaultBinlogConnector
drop_ c = record c { cancel_token = none; tasks = cancelled_tasks c.cancel_token c.tasks }
