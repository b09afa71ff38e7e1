-- ===== src/Server/Serve.antt =====
-- crates/canal-server/src/server.rs: `CanalServer`, its builder functions and the accept loop of
-- `serve`. A client task is known by its number; what it does is Server.Client.
pub mod Permits
mod Tests
use canal_rust.Prelude.{
  ℕ, zero, suc, ◌+◌, ◌-◌, ◌≤◌, arith, if-cases, Option, none, some, Bool, true, false, List, [],
  ◌∷◌, ◌++◌, length, leb, ltb, ◌==◌, ◌&&◌, ◌||◌, if◌then◌else◌,
}
use canal_rust.Prelude.Bytes.{Text}
use canal_rust.Common.CanalError.{CanalError, CanalResult, ok, err}
use canal_rust.Store
use canal_rust.Store.{MemoryEventStore}

abbrev pub max_connections : ℕ
max_connections = 1024

pub record CanalServer : Type 0 where
  pub store : MemoryEventStore
  pub bind_addr : Text
  pub auth_token : Option Text
  pub idle_timeout_secs : ℕ

unfoldable pub new : Text → MemoryEventStore → CanalServer
new bind_addr store = record {
  store = store;
  bind_addr = bind_addr;
  auth_token = none;
  idle_timeout_secs = 600;
}

-- Between characters, within one that Unicode may call white space (the bytes so far name the
-- state), or behind one that it does not
pub data White : Type 0 where
  between c2 e1 e1_9a e2 e2_80 e2_81 e3 e3_80 other : White

white_from : ℕ → White
white_from c =
    if leb 9 c && leb c 13 || c == 32
    then between
    else if c == 0xc2
    then c2
    else if c == 0xe1
    then e1
    else if c == 0xe2
    then e2
    else if c == 0xe3
    then e3
    else other

white_next : White → ℕ → White
unfolding white_from
white_next between c = white_from c
white_next c2 c = if c == 0x85 || c == 0xa0 then between else other
white_next e1 c = if c == 0x9a then e1_9a else other
white_next e1_9a c = if c == 0x80 then between else other
white_next e2 c = if c == 0x80 then e2_80 else if c == 0x81 then e2_81 else other
white_next e2_80 c =
    if leb 0x80 c && leb c 0x8a || (c == 0xa8 || (c == 0xa9 || c == 0xaf)) then between else other
white_next e2_81 c = if c == 0x9f then between else other
white_next e3 c = if c == 0x80 then e3_80 else other
white_next e3_80 c = if c == 0x80 then between else other
white_next other c = other

blank_from : White → Text → Bool
unfolding white_next
blank_from between [] = true
blank_from w [] = false
blank_from w (c ∷ cs) = blank_from (white_next w c) cs

-- `token.trim().is_empty()`
unfoldable pub is_blank : Text → Bool
unfolding blank_from
is_blank cs = blank_from between cs

unfoldable pub with_auth : Text → CanalServer → CanalServer
with_auth token s =
    if is_blank token then record s { auth_token = none } else record s { auth_token = some token }

unfoldable pub with_idle_timeout : ℕ → CanalServer → CanalServer
with_idle_timeout secs s = record s { idle_timeout_secs = secs }

-- The loop's state: the tasks that hold a permit, those that have given it back and are not yet
-- joinable, the finished ones that the set still keeps, and how many tasks were joined and connections
-- refused.
pub record Serving : Type 0 where
  pub running : ℕ
  pub ending : ℕ
  pub finished : ℕ
  pub joined : ℕ
  pub refused : ℕ

-- A task gives its permit back at the end of its body, and only later becomes joinable.
pub data TaskStep : Type 0 where
  permit_released joinable : TaskStep

-- What happens around the loop, until the shutdown token is cancelled: a connection, with the steps of
-- tasks until `try_join_next` finds nothing more; a failure of `accept`; and a step of a task while
-- the loop waits.
pub data Arrival : Type 0 where
  accepted : List TaskStep → Arrival
  accept_failed : CanalError → Arrival
  stepped : TaskStep → Arrival

unfoldable pub task_step : TaskStep → Serving → Serving
task_step permit_released s =
    if ltb 0 s.running then record s { running = s.running - 1; ending = s.ending + 1 } else s
task_step joinable s =
    if ltb 0 s.ending then record s { ending = s.ending - 1; finished = s.finished + 1 } else s

unfoldable pub task_steps : List TaskStep → Serving → Serving
task_steps [] s = s
task_steps (step ∷ steps) s = task_steps steps (task_step step s)

-- `try_join_next` until nothing finished is left
unfoldable pub reap : Serving → Serving
reap s = record s { finished = 0; joined = s.joined + s.finished }

-- `tasks.spawn`, where the task holds the permit
unfoldable pub spawn_task : Serving → Serving
spawn_task s = record s { running = s.running + 1 }

-- `try_acquire_owned`, `spawn`, and the reaping, with `meanwhile` of the tasks' steps before its end
unfoldable pub accept : List TaskStep → Serving → Serving
accept meanwhile s =
    if ltb s.running max_connections
    then reap (task_steps meanwhile (spawn_task s))
    else task_steps meanwhile (record s { refused = s.refused + 1 })

unfoldable pub serve_loop : List Arrival → Serving → CanalResult (Unit {0}) × Serving
serve_loop [] s = (ok tt, s)
serve_loop (accepted meanwhile ∷ arrivals) s = serve_loop arrivals (accept meanwhile s)
serve_loop (accept_failed e ∷ arrivals) s = (err e, s)
serve_loop (stepped step ∷ arrivals) s = serve_loop arrivals (task_step step s)

abbrev pub at_start : Serving
at_start = record { running = 0; ending = 0; finished = 0; joined = 0; refused = 0 }

-- The wait at shutdown, with the steps of tasks within the 30 seconds: `join_next` takes every task
-- that becomes joinable, and all of them if it is not cut off.
unfoldable pub drain : List TaskStep → Serving → Serving
drain steps s = reap (task_steps steps s)

abbrev drained : List TaskStep → CanalResult (Unit {0}) × Serving → CanalResult (Unit {0}) × Serving
drained steps (err e, s) = (err e, s)
drained steps (ok u, s) = (ok tt, drain steps s)

-- `bound` is what binding the address gives. A failure of `accept` returns without the wait.
unfoldable pub serve :
    CanalResult (Unit {0})
    → List Arrival
    → List TaskStep
    → CanalServer
    → CanalResult (Unit {0}) × CanalServer × Serving
serve (err e) arrivals steps s = (err e, s, at_start)
serve (ok u) arrivals steps s =
    let looped = drained steps (serve_loop arrivals at_start) in
    (looped.0, record s { store = (Store.start s.store).1 }, looped.1)
