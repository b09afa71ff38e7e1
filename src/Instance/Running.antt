-- ===== src/Instance/Running.antt =====
-- crates/canal-instance/src/instance.rs: what starting and stopping all instances does.
use canal_rust.Prelude.{
  ℕ, zero, suc, ◌<◌, ◌≡◌, refl, sym, ap, ◌∙◌, some, Bool, true, false, List, [], ◌∷◌, length, arith,
  All, All-map, filter-All, filter_none, ◌≤◌, if-cases, length-append,
}
use mathlib.Core.Path.{subst}
use canal_rust.Prelude.Bytes.{Text, text_eq}
use canal_rust.Prelude.Dict.{Dict, insert, remove, text_key}
use canal_rust.Common.CanalError.{CanalResult, ok}
use canal_rust.Instance.{CanalInstance, start, stop, is_running}
use canal_rust.Instance.Manager
use canal_rust.Instance.Manager.{
  Arc, InstanceManager, register, get, remove_instance, running_at, runs, running_count, call, next,
  for_each, start_all, stop_all,
}

pub start-sets : {R : Type 0} (i : CanalInstance R) → start i ≡ (ok tt, record i { running = true })
unfolding start
start-sets i = refl

pub stop-sets : {R : Type 0} (i : CanalInstance R) → stop i ≡ (ok tt, record i { running = false })
unfolding stop
stop-sets i = refl

-- Every `Arc` of the map has its instance.
abbrev pub Points : {R : Type 0} → InstanceManager R → Type 0
Points m = All (λ e. e.1 < length m.shared) m.instances

-- A method that sets the flag to `b` and never fails
module _ {R : Type 0} (b : Bool)
    (method : CanalInstance R → CanalResult (Unit {0}) × CanalInstance R)
    (sets : (i : CanalInstance R) → method i ≡ (ok tt, record i { running = b })) where
  pub call-sets : (arc : Arc) (shared : List (CanalInstance R)) → (call arc method shared).0 ≡ ok tt
  unfolding call
  call-sets arc [] = refl
  call-sets zero (i ∷ is) = ap (λ r. r.0) (sets i)
  call-sets (suc arc) (i ∷ is) = call-sets arc is

  length-call :
      (arc : Arc) (shared : List (CanalInstance R))
      → length (call arc method shared).1 ≡ length shared
  unfolding call
  length-call arc [] = refl
  length-call zero (i ∷ is) = refl
  length-call (suc arc) (i ∷ is) = ap suc (length-call arc is)

  pub running_at-call :
      (arc : Arc) (shared : List (CanalInstance R))
      → arc < length shared
      → running_at (call arc method shared).1 arc ≡ some b
  unfolding call is_running
  running_at-call arc [] h = absurd (omega (arith, h))
  running_at-call zero (i ∷ is) h = ap (λ r. some (r.1.running)) (sets i)
  running_at-call (suc arc) (i ∷ is) h = running_at-call arc is (omega arith)

  running_at-call_other :
      (arc j : Arc) (shared : List (CanalInstance R))
      → running_at shared j ≡ some b
      → running_at (call arc method shared).1 j ≡ some b
  unfolding call is_running
  running_at-call_other arc j [] h = h
  running_at-call_other zero zero (i ∷ is) h = ap (λ r. some (r.1.running)) (sets i)
  running_at-call_other zero (suc j) (i ∷ is) h = h
  running_at-call_other (suc arc) zero (i ∷ is) h = h
  running_at-call_other (suc arc) (suc j) (i ∷ is) h = running_at-call_other arc j is h

  for_each-step :
      (name : Text) (arc : Arc) (m : Dict Text Arc) (shared : List (CanalInstance R))
      → for_each method ((name, arc) ∷ m) shared ≡ for_each method m (call arc method shared).1
  unfolding for_each
  for_each-step name arc m shared =
      let called = call arc method shared in
      ap (λ r. next (r, called.1) (for_each method m called.1)) (call-sets arc shared)

  for_each-keeps :
      (m : Dict Text Arc) (shared : List (CanalInstance R)) (j : Arc)
      → running_at shared j ≡ some b
      → running_at (for_each method m shared).1 j ≡ some b
  unfolding for_each
  for_each-keeps [] shared j h = h
  for_each-keeps ((name, arc) ∷ m) shared j h =
      ap (λ r. running_at r.1 j) (for_each-step name arc m shared)
      ∙ for_each-keeps m (call arc method shared).1 j (running_at-call_other arc j shared h)

  for_each-ok :
      (m : Dict Text Arc) (shared : List (CanalInstance R)) → (for_each method m shared).0 ≡ ok tt
  unfolding for_each
  for_each-ok [] shared = refl
  for_each-ok ((name, arc) ∷ m) shared =
      ap (λ r. r.0) (for_each-step name arc m shared) ∙ for_each-ok m (call arc method shared).1

  length-for_each :
      (m : Dict Text Arc) (shared : List (CanalInstance R))
      → length (for_each method m shared).1 ≡ length shared
  unfolding for_each
  length-for_each [] shared = refl
  length-for_each ((name, arc) ∷ m) shared =
      ap (λ r. length r.1) (for_each-step name arc m shared)
      ∙ (length-for_each m (call arc method shared).1 ∙ length-call arc shared)

  for_each-running :
      (m : Dict Text Arc) (shared : List (CanalInstance R))
      → All (λ e. e.1 < length shared) m
      → All (λ e. running_at (for_each method m shared).1 e.1 ≡ some b) m
  unfolding for_each
  for_each-running [] shared h = tt
  for_each-running ((name, arc) ∷ m) shared h =
      let after = (call arc method shared).1 in
      subst (λ r. All (λ e. running_at r.1 e.1 ≡ some b) ((name, arc) ∷ m))
        (sym (for_each-step name arc m shared))
        (
          for_each-keeps m after arc (running_at-call arc shared h.0),
          for_each-running m after (rw (length-call arc shared) h.1),
        )

remove-Points :
    (name : Text) (m : Dict Text Arc) (n k : ℕ)
    → n ≤ k
    → All (λ e. e.1 < n) m
    → All (λ e. e.1 < k) (remove name m)
unfolding remove
remove-Points name [] n k le h = tt
remove-Points name ((other, arc) ∷ m) n k le h =
    let rest = remove-Points name m n k le h.1 in
    if-cases (All (λ e. e.1 < k)) (text_eq other name) (λ e. rest)
      (λ e. (omega (arith, h.0, le), rest))

module _ {R : Type 0} where
  -- The managers that the operations lead to, from a new one
  pub data Reached : InstanceManager R → Type 0 where
    created : Reached Manager.new
    registered : (i : CanalInstance R) {m : InstanceManager R} → Reached m → Reached (register i m)
    removed : (name : Text) {m : InstanceManager R} → Reached m → Reached (remove_instance name m).1
    started : {m : InstanceManager R} → Reached m → Reached (start_all m).1
    stopped : {m : InstanceManager R} → Reached m → Reached (stop_all m).1

  pub Reached-Points : {m : InstanceManager R} → Reached m → Points m
  unfolding Manager.new register remove_instance start_all stop_all insert
  Reached-Points created = tt
  Reached-Points (registered i {m} r) =
      let size = length-append m.shared (i ∷ []) in
      (
        omega (arith, size),
        remove-Points _ m.instances (length m.shared) _ (omega (arith, size)) (Reached-Points r),
      )
  Reached-Points (removed name {m} r) =
      remove-Points name m.instances (length m.shared) _ (omega arith) (Reached-Points r)
  Reached-Points (started {m} r) =
      rw (length-for_each true start start-sets m.instances m.shared) (Reached-Points r)
  Reached-Points (stopped {m} r) =
      rw (length-for_each false stop stop-sets m.instances m.shared) (Reached-Points r)

  -- For every manager that the operations lead to: `start_all` returns Ok and leaves all registered
  -- instances running, so the count of running ones is that of the registered ones, and
  -- `stop_all` returns Ok and leaves that count at 0.
  pub running_count-start_all :
      (m : InstanceManager R)
      → Reached m
      → ((start_all m).0 ≡ ok tt)
        × (running_count (start_all m).1 ≡ length m.instances)
        × ((stop_all m).0 ≡ ok tt)
        × (running_count (stop_all m).1 ≡ 0)
  unfolding start_all stop_all running_count
  running_count-start_all m r = (
    for_each-ok true start start-sets m.instances m.shared,
    ap length (
        filter-All _ m.instances (
          All-map _ _ m.instances (λ e at. ap runs at)
            (for_each-running true start start-sets m.instances m.shared (Reached-Points r)))),
    for_each-ok false stop stop-sets m.instances m.shared,
    ap length (
        filter_none _ m.instances (
          All-map _ _ m.instances (λ e at. ap runs at)
            (for_each-running false stop stop-sets m.instances m.shared (Reached-Points r)))),
  )
