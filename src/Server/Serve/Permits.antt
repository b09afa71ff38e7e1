-- ===== src/Server/Serve/Permits.antt =====
-- How many connections `serve` of crates/canal-server/src/server.rs serves at a time.
use canal_rust.Prelude.{ℕ, suc, ◌+◌, ◌≤◌, ◌≡◌, refl, arith, if-cases, List, [], ◌∷◌, ltb}
use canal_rust.Server.Serve.{
  max_connections, Serving, TaskStep, permit_released, joinable, Arrival, accepted, accept_failed,
  stepped, task_step, task_steps, reap, spawn_task, accept, serve_loop, at_start,
}

-- The connections that `accept` returned before it failed, if it did
unfoldable pub connections : List Arrival → ℕ
connections [] = 0
connections (accepted meanwhile ∷ arrivals) = suc (connections arrivals)
connections (accept_failed e ∷ arrivals) = 0
connections (stepped step ∷ arrivals) = connections arrivals

-- The tasks that were spawned and not joined: what the set holds
abbrev pub in_set : Serving → ℕ
in_set s = s.running + s.ending + s.finished

-- The permits are kept to, and `n` connections are accounted for.
pub record Accounted (n : ℕ) (s : Serving) : Type 0 where
  pub permits : s.running ≤ max_connections
  pub total : in_set s + s.joined + s.refused ≡ n

task_step-Accounted :
    (n : ℕ) (step : TaskStep) (s : Serving) → Accounted n s → Accounted n (task_step step s)
unfolding task_step
task_step-Accounted n permit_released s h =
    if-cases (Accounted n) (ltb 0 s.running)
      (λ some_running. record {
        permits = omega (arith, h.permits);
        total = ground (arith, h.total, some_running);
      })
      (λ none_running. h)
task_step-Accounted n joinable s h =
    if-cases (Accounted n) (ltb 0 s.ending)
      (λ some_ending. record { permits = h.permits; total = ground (arith, h.total, some_ending) })
      (λ none_ending. h)

task_steps-Accounted :
    (n : ℕ) (steps : List TaskStep) (s : Serving) → Accounted n s → Accounted n (task_steps steps s)
unfolding task_steps
task_steps-Accounted n [] s h = h
task_steps-Accounted n (step ∷ steps) s h =
    task_steps-Accounted n steps (task_step step s) (task_step-Accounted n step s h)

accept-Accounted :
    (n : ℕ) (meanwhile : List TaskStep) (s : Serving)
    → Accounted n s
    → Accounted (n + 1) (accept meanwhile s)
unfolding accept spawn_task reap
accept-Accounted n meanwhile s h =
    if-cases (Accounted (n + 1)) (ltb s.running max_connections)
      (λ room.
        let spawned : Accounted (n + 1) (spawn_task s) = record {
          permits = ground (arith, room);
          total = omega (arith, h.total);
        } in
        let after = task_steps-Accounted (n + 1) meanwhile (spawn_task s) spawned in
        record { permits = after.permits; total = omega (arith, after.total) })
      (λ full.
        task_steps-Accounted (n + 1) meanwhile (record s { refused = s.refused + 1 })
          (record { permits = h.permits; total = omega (arith, h.total) }))

serve_loop-Accounted_from :
    (n : ℕ) (arrivals : List Arrival) (s : Serving)
    → Accounted n s
    → Accounted (n + connections arrivals) (serve_loop arrivals s).1
unfolding serve_loop connections
serve_loop-Accounted_from n [] s h = record { permits = h.permits; total = omega (arith, h.total) }
serve_loop-Accounted_from n (accepted meanwhile ∷ arrivals) s h =
    let rest = serve_loop-Accounted_from (n + 1) arrivals _ (accept-Accounted n meanwhile s h) in
    record { permits = rest.permits; total = omega (arith, rest.total) }
serve_loop-Accounted_from n (accept_failed e ∷ arrivals) s h = record {
  permits = h.permits;
  total = omega (arith, h.total);
}
serve_loop-Accounted_from n (stepped step ∷ arrivals) s h =
    serve_loop-Accounted_from n arrivals _ (task_step-Accounted n step s h)

-- Whatever connections arrive and however the tasks end in between: never more than 1024 tasks hold a
-- permit, and no connection gets lost. Each one was refused, or its task was joined, or the set still
-- holds its task.
pub serve_loop-Accounted :
    (arrivals : List Arrival) → Accounted (connections arrivals) (serve_loop arrivals at_start).1
serve_loop-Accounted arrivals =
    let all =
      serve_loop-Accounted_from 0 arrivals at_start
        (record { permits = omega arith; total = refl }) in
    record { permits = all.permits; total = omega (arith, all.total) }
