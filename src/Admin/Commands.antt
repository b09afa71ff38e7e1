-- ===== src/Admin/Commands.antt =====
-- What the handlers of crates/canal-admin/src/lib.rs do to the instances.
use canal_rust.Prelude.{
  ℕ, zero, suc, ◌<◌, ◌≡◌, ◌≢◌, refl, ap, ◌∙◌, Option, some, Bool, true, false, List, [], ◌∷◌, arith,
  length, get_elem?, sym, All, if-cases,
}
use mathlib.Core.Path.{subst}
use canal_rust.Prelude.Dict.{Dict, lookup, text_key}
use canal_rust.Prelude.Bytes.{Text, text_eq, bytes}
use canal_rust.Common.CanalError.{CanalResult, Result, ok, err}
use canal_rust.Instance.{CanalInstance, start, stop}
use canal_rust.Instance.Manager
use canal_rust.Instance.Manager.{Arc, InstanceManager, running_at, call}
use canal_rust.Instance.Running.{
  Reached, Reached-Points, call-sets, running_at-call, start-sets, stop-sets,
}
use canal_rust.Admin.{check_auth}
use canal_rust.Admin.Handlers.{
  AdminState, StatusMessage, authorized, commanded, listed, status_of, list_instances,
  start_instance, stop_instance,
}

lookup-Points :
    (name : Text) (m : Dict Text Arc) (arc : Arc) (n : ℕ)
    → All (λ e. e.1 < n) m
    → lookup name m ≡ some arc
    → arc < n
unfolding lookup
lookup-Points name [] arc n points h = ground arith
lookup-Points name ((other, found) ∷ m) arc n points h =
    let go = lookup-Points name m arc n points.1 in
    if-cases (λ o. o ≡ some arc → arc < n) (text_eq other name) (λ e same. ground (arith, points.0))
      (λ e. go) h

get-Points :
    {R : Type 0} (name : Text) (m : InstanceManager R) (arc : Arc)
    → Reached m
    → Manager.get name m ≡ some arc
    → arc < length m.shared
unfolding Manager.get
get-Points name m arc reached got =
    lookup-Points name m.instances arc (length m.shared) (Reached-Points reached) got

abbrev starting : Text → Option (CanalResult (Unit {0})) → StatusMessage
starting = status_of (bytes "started") (bytes "start")

abbrev stopping : Text → Option (CanalResult (Unit {0})) → StatusMessage
stopping = status_of (bytes "stopped") (bytes "stop")

module _ {R : Type 0} where
  get_elem?-call :
      (method : CanalInstance R → CanalResult (Unit {0}) × CanalInstance R) (arc j : Arc)
      (shared : List (CanalInstance R))
      → j ≢ arc
      → get_elem? (call arc method shared).1 j ≡ get_elem? shared j
  unfolding call
  get_elem?-call method arc j [] h = refl
  get_elem?-call method zero zero (i ∷ is) h = absurd (h refl)
  get_elem?-call method zero (suc j) (i ∷ is) h = refl
  get_elem?-call method (suc arc) zero (i ∷ is) h = refl
  get_elem?-call method (suc arc) (suc j) (i ∷ is) h =
      get_elem?-call method arc j is (λ e. h (ap suc e))

  -- Only the instance `arc` was told to run or to stop, and the answer is `Ok`.
  abbrev pub Obeyed :
      Bool → Arc → InstanceManager R → Result StatusMessage ℕ × AdminState R → Type 0
  Obeyed b arc m r =
      (running_at r.1.instance_manager.shared arc ≡ some b)
      × ((j : Arc) → j ≢ arc → get_elem? r.1.instance_manager.shared j ≡ get_elem? m.shared j)
      × (r.1.instance_manager.instances ≡ m.instances)
      × ((message : StatusMessage) × (r.0 ≡ ok message) × (message.status ≡ bytes "ok"))

  authorized-err :
      (method : CanalInstance R → CanalResult (Unit {0}) × CanalInstance R)
      (answer : Option (CanalResult (Unit {0})) → StatusMessage) (name : Text)
      (state : AdminState R) (status : ℕ) {r : Result (Unit {0}) ℕ}
      → r ≡ err status
      → authorized r method answer name state ≡ (err status, state)
  unfolding authorized
  authorized-err method answer name state status e =
      ap (λ r. authorized r method answer name state) e

  authorized-Obeyed :
      (b : Bool) (method : CanalInstance R → CanalResult (Unit {0}) × CanalInstance R)
      (sets : (i : CanalInstance R) → method i ≡ (ok tt, record i { running = b }))
      (answer : Option (CanalResult (Unit {0})) → StatusMessage) (name : Text)
      (state : AdminState R) (arc : Arc)
      → (answer (some (ok tt))).status ≡ bytes "ok"
      → arc < length state.instance_manager.shared
      → Manager.get name state.instance_manager ≡ some arc
      → Obeyed b arc state.instance_manager (authorized (ok tt) method answer name state)
  unfolding authorized commanded
  authorized-Obeyed b method sets answer name state arc good there got =
      let m = state.instance_manager in
      subst
        (λ o. Obeyed b arc m (
          ok (answer (commanded method o m).0),
          record state { instance_manager = (commanded method o m).1 },
        ))
        (sym got)
        (
          running_at-call b method sets arc m.shared there,
          (λ j other. get_elem?-call method arc j m.shared other),
          refl,
          (
            _,
            refl,
            ap (λ r. (answer (some r)).status) (call-sets b method sets arc m.shared) ∙ good,
          ),
        )

  -- A request that the token refuses is answered with that status and changes nothing.
  pub start_instance_refused :
      (header : Option Text) (name : Text) (state : AdminState R) (status : ℕ)
      → check_auth header state.admin_token ≡ err status
      → (start_instance header name state ≡ (err status, state))
        × (stop_instance header name state ≡ (err status, state))
        × (list_instances header state ≡ err status)
  unfolding start_instance stop_instance list_instances listed
  start_instance_refused header name state status h = (
    authorized-err start (starting name) name state status h,
    authorized-err stop (stopping name) name state status h,
    ap (λ r. listed r state.instance_manager) h,
  )

  -- A request that the token lets through, for the name of an instance of a manager that the
  -- operations lead to, is answered with `ok`, and it leaves exactly that instance running
  -- (`start_instance`) or not running (`stop_instance`) and every other instance as it was.
  pub start_instance-Obeyed :
      (header : Option Text) (name : Text) (state : AdminState R) (arc : Arc)
      → Reached state.instance_manager
      → check_auth header state.admin_token ≡ ok tt
      → Manager.get name state.instance_manager ≡ some arc
      → Obeyed true arc state.instance_manager (start_instance header name state)
        × Obeyed false arc state.instance_manager (stop_instance header name state)
  unfolding start_instance stop_instance status_of
  start_instance-Obeyed header name state arc reached h got =
      let there = get-Points name state.instance_manager arc reached got in
      (
        subst
            (λ r.
              Obeyed true arc state.instance_manager
                (authorized r start (starting name) name state))
            (sym h)
            (authorized-Obeyed true start start-sets (starting name) name state arc refl there got),
        subst
            (λ r.
              Obeyed false arc state.instance_manager
                (authorized r stop (stopping name) name state))
            (sym h)
            (authorized-Obeyed false stop stop-sets (stopping name) name state arc refl there got),
      )
