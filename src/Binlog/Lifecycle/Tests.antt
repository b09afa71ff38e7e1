-- ===== src/Binlog/Lifecycle/Tests.antt =====
-- A concrete connector for crates/canal-binlog/src/connector.rs.
use canal_rust.Prelude.{◌≤◌, ◌≡◌, ◌⊎◌, refl, none, some, true, false, []}
use canal_rust.Prelude.Bytes.{Text, bytes}
use canal_rust.Common.CanalError.{ok, err}
use canal_rust.Common.LogPosition
use canal_rust.Common.LogPosition.{LogPosition}
use canal_rust.Binlog.Lifecycle.{
  DefaultBinlogConnector, new, with_channel, connect, disconnect, drop_, disabled, sent, dropped,
  timed_out, timeout_error, spawn, after_start, connect_with, at_task,
}
use canal_rust.Binlog.Lifecycle.Runs.{Reached, created, connected, channelled}
use canal_rust.Binlog.Lifecycle.Live.{live_count, live_count-disconnect}
use canal_rust.Binlog.Lifecycle.Reconnect.{last_password, connect-disconnect, connect-timed_out}

abbrev secret : Text
secret = bytes "secret"

abbrev made : DefaultBinlogConnector
made = record {
  host = bytes "localhost";
  port = 3306;
  username = bytes "canal";
  password = secret;
  original_password = some secret;
  server_id = 1001;
  ssl_mode = disabled;
  connect_timeout_secs = 30;
  sender = none;
  current_pos = none;
  running = false;
  cancel_token = none;
  connected = false;
  channels = 0;
  tasks = [];
}

made-new : new (bytes "localhost") 3306 (bytes "canal") secret 1001 ≡ ok made
unfolding new
made-new = refl

abbrev origin : LogPosition
origin = LogPosition.new (bytes "b.1") 4

-- A task that did not start, then one that runs
abbrev used : DefaultBinlogConnector
used = (connect origin sent (connect origin dropped (with_channel made).0).1).1

used-Reached : Reached secret used
used-Reached = connected origin sent (
    connected origin dropped
      (channelled (created (bytes "localhost") 3306 (bytes "canal") 1001 made-new)))

used-live : live_count used.tasks ≡ 1
unfolding live_count connect connect_with after_start spawn with_channel at_task
used-live = refl

live_count-disconnect_example :
    (live_count used.tasks ≤ 1)
    × ((used.running ≡ true) ⊎ (live_count used.tasks ≡ 0))
    × (live_count (disconnect used).1.tasks ≡ 0)
    × (live_count (drop_ used).tasks ≡ 0)
live_count-disconnect_example = live_count-disconnect used-Reached

connect-disconnect_example :
    ((connect origin sent (with_channel (disconnect used).1).0).0 ≡ ok tt)
    × ((connect origin sent (with_channel (disconnect used).1).0).1.connected ≡ true)
    × (last_password (connect origin sent (with_channel (disconnect used).1).0).1 ≡ some secret)
connect-disconnect_example = connect-disconnect origin used-Reached

abbrev waiting : DefaultBinlogConnector
waiting = record made { sender = some 0; channels = 1 }

connect-timed_out_example :
    ((connect origin timed_out waiting).0 ≡ err (timeout_error 30))
    × ((connect origin sent (connect origin timed_out waiting).1).0 ≡ ok tt)
    × (last_password (connect origin sent (connect origin timed_out waiting).1).1 ≡ some [])
connect-timed_out_example = connect-timed_out origin origin 0 waiting refl refl
