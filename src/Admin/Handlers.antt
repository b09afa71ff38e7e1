-- ===== src/Admin/Handlers.antt =====
-- crates/canal-admin/src/lib.rs: the state of the Admin API and its handlers for instances.
use canal_rust.Prelude.{ℕ, Option, none, some, Bool, false, List, [], ◌∷◌, ◌++◌, length}
use canal_rust.Prelude.Bytes.{Text, bytes}
use canal_rust.Common.CanalError.{to_string, CanalResult, Result, ok, err}
use canal_rust.Instance.{CanalInstance, start, stop}
use canal_rust.Instance.Manager
use canal_rust.Instance.Manager.{Arc, InstanceManager, running_at, runs, running_count, call}
use canal_rust.Admin.{check_auth}

pub record AdminState (Regex : Type 0) : Type 0 where
  pub instance_manager : InstanceManager Regex
  pub admin_token : Option Text

pub record AdminServer (Regex : Type 0) : Type 0 where
  pub bind_addr : Text
  pub state : AdminState Regex

pub record InstanceSummary : Type 0 where
  pub name : Text
  pub destination : Text
  pub running : Bool

pub record StatusMessage : Type 0 where
  pub status : Text
  pub message : Text

-- The numbers on the landing page
pub record Counts : Type 0 where
  pub running : ℕ
  pub total : ℕ

-- What the handler answers: the verb of a success, the verb of a failure, the instance's name
unfoldable pub status_of : Text → Text → Text → Option (CanalResult (Unit {0})) → StatusMessage
status_of done failed name none = record {
  status = bytes "not_found";
  message = bytes "Instance '" ++ (name ++ bytes "' not found");
}
status_of done failed name (some (ok u)) = record {
  status = bytes "ok";
  message = bytes "Instance '" ++ (name ++ (bytes "' " ++ done));
}
status_of done failed name (some (err e)) = record {
  status = bytes "error";
  message =
      bytes "Failed to " ++ (failed ++ (bytes " '" ++ (name ++ (bytes "': " ++ to_string e))));
}

module _ {R : Type 0} where
  unfoldable pub new : Text → InstanceManager R → AdminServer R
  new bind_addr instance_manager = record {
    bind_addr = bind_addr;
    state = record { instance_manager = instance_manager; admin_token = none };
  }

  unfoldable pub with_auth : Text → AdminServer R → AdminServer R
  with_auth token server = record server {
    state = record server.state { admin_token = some token };
  }

  unfoldable pub index_handler : AdminState R → Counts
  index_handler state = record {
    running = running_count state.instance_manager;
    total = length (Manager.list state.instance_manager);
  }

  -- `get(&d).map(|i| i.is_running()).unwrap_or(false)`
  is_running_named : Option Arc → InstanceManager R → Bool
  is_running_named none m = false
  is_running_named (some arc) m = runs (running_at m.shared arc)

  summaries : List Text → InstanceManager R → List InstanceSummary
  unfolding is_running_named
  summaries [] m = []
  summaries (d ∷ dests) m =
      record { name = d; destination = d; running = is_running_named (Manager.get d m) m }
      ∷ summaries dests m

  unfoldable pub listed : Result (Unit {0}) ℕ → InstanceManager R → Result (List InstanceSummary) ℕ
  unfolding summaries
  listed (err status) m = err status
  listed (ok u) m = ok (summaries (Manager.list m) m)

  unfoldable pub list_instances : Option Text → AdminState R → Result (List InstanceSummary) ℕ
  unfolding listed
  list_instances header state = listed (check_auth header state.admin_token) state.instance_manager

  -- `self.instances.get(&name)` and the call of the method behind it
  unfoldable pub commanded :
      (CanalInstance R → CanalResult (Unit {0}) × CanalInstance R)
      → Option Arc
      → InstanceManager R
      → Option (CanalResult (Unit {0})) × InstanceManager R
  commanded method none m = (none, m)
  commanded method (some arc) m =
      let called = call arc method m.shared in (some called.0, record m { shared = called.1 })

  unfoldable pub authorized :
      Result (Unit {0}) ℕ
      → (CanalInstance R → CanalResult (Unit {0}) × CanalInstance R)
      → (Option (CanalResult (Unit {0})) → StatusMessage)
      → Text
      → AdminState R
      → Result StatusMessage ℕ × AdminState R
  unfolding commanded
  authorized (err status) method answer name state = (err status, state)
  authorized (ok u) method answer name state =
      let r = commanded method (Manager.get name state.instance_manager) state.instance_manager in
      (ok (answer r.0), record state { instance_manager = r.1 })

  unfoldable pub start_instance :
      Option Text → Text → AdminState R → Result StatusMessage ℕ × AdminState R
  unfolding authorized status_of
  start_instance header name state =
      authorized (check_auth header state.admin_token) start
        (status_of (bytes "started") (bytes "start") name) name state

  unfoldable pub stop_instance :
      Option Text → Text → AdminState R → Result StatusMessage ℕ × AdminState R
  unfolding authorized status_of
  stop_instance header name state =
      authorized (check_auth header state.admin_token) stop
        (status_of (bytes "stopped") (bytes "stop") name) name state
