-- ===== src/Admin/Tests.antt =====
-- Concrete headers for crates/canal-admin/src/lib.rs.
use canal_rust.Prelude.{refl, [], ◌<◌, ◌≡◌, ◌↔◌, Option, none, some, true, false, arith, length}
use canal_rust.Prelude.Bytes.{Text, bytes, text_eq}
use canal_rust.Prelude.Dict.{insert, remove, lookup}
use canal_rust.Common.CanalError.{ok, err}
use canal_rust.Admin.{header_text, bearer, check_auth, constant_time_eq, padded_eq}
use canal_rust.Metrics.{init_metrics}
use canal_rust.Store.Invariant.{empty}
use canal_rust.Instance.{CanalInstance, destination}
use canal_rust.Instance.Manager
use canal_rust.Instance.Manager.{Arc, register}
use canal_rust.Instance.Running.{Reached, created, registered}
use canal_rust.Admin.Handlers.{AdminState, new, with_auth, start_instance, stop_instance}
use canal_rust.Admin.Commands.{Obeyed, start_instance-Obeyed}
use canal_rust.Admin.Tokens.{Passes, check_auth_iff}

abbrev token : Text
token = bytes "s3"

abbrev given : Option Text
given = some (bearer token)

short : length (header_text given) < 65536
unfolding bytes
short = omega arith

check_auth_iff_example :
    (check_auth given (some token) ≡ ok tt) ↔ Passes (some token) (header_text given)
unfolding bytes
check_auth_iff_example = check_auth_iff given (some token) short (omega arith)

abbrev server_one : CanalInstance Text
server_one = record {
  config = record {
    destination = bytes "one";
    mysql_host = bytes "localhost";
    mysql_port = 3306;
    mysql_username = bytes "canal";
    mysql_password = bytes "canal";
    mysql_server_id = 1001;
    start_position = record {
      journal_name = bytes "b.1";
      position = 4;
      timestamp = none;
      server_id = none;
      gtid = none;
    };
    filter = record { pattern = bytes ".*"; black_list = [] };
    store_buffer_size = 2;
    connector_names = [];
  };
  sink = record {
    store = empty 2;
    event_filter = record { include = bytes ".*"; exclude = none };
    connectors = [];
    metrics = init_metrics;
    requests = [];
  };
  running = false;
}

abbrev state : AdminState Text
state = (with_auth token (new (bytes "127.0.0.1:11112") (register server_one Manager.new))).state

state-Reached : Reached state.instance_manager
unfolding new with_auth
state-Reached = registered server_one created

-- The token of a server passes, and the name is registered.
given_passes : check_auth given state.admin_token ≡ ok tt
unfolding check_auth constant_time_eq padded_eq bytes new with_auth
given_passes = refl

one_registered : Manager.get (bytes "one") state.instance_manager ≡ some 0
unfolding Manager.get Manager.new register insert remove lookup bytes new with_auth text_eq
    destination
one_registered = refl

start_instance-Obeyed_example :
    Obeyed true 0 state.instance_manager (start_instance given (bytes "one") state)
    × Obeyed false 0 state.instance_manager (stop_instance given (bytes "one") state)
start_instance-Obeyed_example =
    start_instance-Obeyed given (bytes "one") state 0 state-Reached given_passes one_registered

nothing_refused : check_auth none state.admin_token ≡ err 401
unfolding check_auth constant_time_eq padded_eq bytes new with_auth
nothing_refused = refl
