-- ===== src/Binlog/Lifecycle/Live.antt =====
-- How many replication tasks of crates/canal-binlog/src/connector.rs are live at once.
use canal_rust.Prelude.{
  ℕ, suc, ◌+◌, ◌-◌, ◌≤◌, ◌≡◌, ◌⊎◌, refl, inl, inr, true, false, List, [], ◌∷◌, arith, Bool-cases,
  Option-cases, if◌then◌else◌,
}
use canal_rust.Prelude.Bytes.{Text}
use canal_rust.Binlog.Lifecycle.{Task, DefaultBinlogConnector, cancelled_tasks, disconnect, drop_}
use canal_rust.Binlog.Lifecycle.Runs.{Reached, Consistent, is_live, live_at}
use canal_rust.Binlog.Lifecycle.Tasks.{Reached-Consistent, none_live, cancelled_tasks-dead}

unfoldable pub live_count : List Task → ℕ
live_count [] = 0
live_count (t ∷ ts) = (if is_live t then 1 else 0) + live_count ts

live_count-dead : (ts : List Task) → ((n : ℕ) → live_at ts n ≡ false) → live_count ts ≡ 0
unfolding live_count
live_count-dead [] h = refl
live_count-dead (t ∷ ts) h =
    let rest = live_count-dead ts (λ n. h (suc n)) in let first = h 0 in ground arith

live_count-one :
    (ts : List Task) (token : ℕ) → ((n : ℕ) → live_at ts n ≡ true → n ≡ token) → live_count ts ≤ 1
unfolding live_count
live_count-one [] token h = omega arith
live_count-one (t ∷ ts) token h =
    let later = live_count-one ts (token - 1) (λ n live. omega (arith, h (suc n) live)) in
    elim (Bool-cases (is_live t)) [
      | inl live ↦
          let rest = live_count-dead ts (λ n. elim (Bool-cases (live_at ts n)) [
            | inl too ↦ absurd (omega (arith, h 0 live, h (suc n) too))
            | inr dead ↦ dead
          ]) in
          ground arith
      | inr dead ↦ ground arith
    ]

-- Over every run of the operations and however the tasks start and end: at most one replication task
-- is live, that is, has neither ended nor been cancelled, and none unless the connector runs. After
-- `disconnect`, and after `Drop`, none is.
pub live_count-disconnect :
    {p : Text} {c : DefaultBinlogConnector}
    → Reached p c
    → (live_count c.tasks ≤ 1)
      × ((c.running ≡ true) ⊎ (live_count c.tasks ≡ 0))
      × (live_count (disconnect c).1.tasks ≡ 0)
      × (live_count (drop_ c).tasks ≡ 0)
unfolding disconnect drop_
live_count-disconnect {p} {c} r =
    let k = Reached-Consistent r in
    let dead : live_count (cancelled_tasks c.cancel_token c.tasks) ≡ 0 =
      live_count-dead _ (λ n. cancelled_tasks-dead n k) in
    (at_most_one k, runs k, dead, dead)
  where
    at_most_one : Consistent p c → live_count c.tasks ≤ 1
    at_most_one k = elim (Option-cases c.cancel_token) [
      | inl e ↦ live_count-one c.tasks 0 (λ n live. ground (arith, (k.live n live).0, e))
      | inr (token, e) ↦
          live_count-one c.tasks token (λ n live. ground (arith, (k.live n live).0, e))
    ]

    runs : Consistent p c → (c.running ≡ true) ⊎ (live_count c.tasks ≡ 0)
    runs k = elim (Bool-cases c.running) [
      | inl on ↦ inl on
      | inr off ↦ inr (live_count-dead c.tasks (λ n. none_live n k off))
    ]
