-- ===== src/Instance/Manager.antt =====
-- crates/canal-instance/src/instance.rs: `InstanceManager`. The instances stand in `shared`, and an
-- `Arc<CanalInstance>` is an index there, so that whoever has got one sees what others do with it.
use canal_rust.Prelude.{
  ℕ, zero, suc, Option, none, some, Bool, false, List, [], ◌∷◌, ◌++◌, map, length, filter,
}
use canal_rust.Prelude.Bytes.{Text}
use canal_rust.Prelude.Dict.{Dict, lookup, insert, remove, text_key}
use canal_rust.Common.CanalError.{CanalResult, ok, err}
use canal_rust.Instance.{CanalInstance, destination, start, stop, is_running}

abbrev pub Arc : Type 0
Arc = ℕ

pub record InstanceManager (Regex : Type 0) : Type 0 where
  pub shared : List (CanalInstance Regex)
  pub instances : Dict Text Arc

abbrev pub runs : Option Bool → Bool
runs none = false
runs (some b) = b

module _ {R : Type 0} where
  unfoldable pub new : InstanceManager R
  new = record { shared = []; instances = [] }

  unfoldable pub register : CanalInstance R → InstanceManager R → InstanceManager R
  register instance_ m = record {
    shared = m.shared ++ instance_ ∷ [];
    instances = insert (destination instance_) (length m.shared) m.instances;
  }

  unfoldable pub get : Text → InstanceManager R → Option Arc
  get name m = lookup name m.instances

  -- What was removed, which lives on for those who have its `Arc`
  unfoldable pub remove_instance : Text → InstanceManager R → Option Arc × InstanceManager R
  remove_instance name m =
      (lookup name m.instances, record m { instances = remove name m.instances })

  unfoldable pub list : InstanceManager R → List Text
  list m = map (λ e. e.0) m.instances

  abbrev pub running_at : List (CanalInstance R) → Arc → Option Bool
  running_at [] arc = none
  running_at (i ∷ is) zero = some (is_running i)
  running_at (i ∷ is) (suc arc) = running_at is arc

  unfoldable pub running_count : InstanceManager R → ℕ
  running_count m = length (filter (λ e. runs (running_at m.shared e.1)) m.instances)

  -- A method call on the instance behind an `Arc`
  unfoldable pub call :
      Arc
      → (CanalInstance R → CanalResult (Unit {0}) × CanalInstance R)
      → List (CanalInstance R)
      → CanalResult (Unit {0}) × List (CanalInstance R)
  call arc method [] = (ok tt, [])
  call zero method (i ∷ is) = ((method i).0, (method i).1 ∷ is)
  call (suc arc) method (i ∷ is) = let rest = call arc method is in (rest.0, i ∷ rest.1)

  -- `called?; rest`
  abbrev pub next :
      CanalResult (Unit {0}) × List (CanalInstance R)
      → CanalResult (Unit {0}) × List (CanalInstance R)
      → CanalResult (Unit {0}) × List (CanalInstance R)
  next (ok u, shared) rest = rest
  next (err e, shared) rest = (err e, shared)

  -- `for entry in self.instances.iter() { entry.value().method().await?; } Ok(())`
  unfoldable pub for_each :
      (CanalInstance R → CanalResult (Unit {0}) × CanalInstance R)
      → Dict Text Arc
      → List (CanalInstance R)
      → CanalResult (Unit {0}) × List (CanalInstance R)
  for_each method [] shared = (ok tt, shared)
  for_each method ((name, arc) ∷ entries) shared =
      let called = call arc method shared in
      let rest = for_each method entries called.1 in next called rest

  unfoldable pub start_all : InstanceManager R → CanalResult (Unit {0}) × InstanceManager R
  start_all m =
      let done = for_each start m.instances m.shared in (done.0, record m { shared = done.1 })

  unfoldable pub stop_all : InstanceManager R → CanalResult (Unit {0}) × InstanceManager R
  stop_all m =
      let done = for_each stop m.instances m.shared in (done.0, record m { shared = done.1 })
