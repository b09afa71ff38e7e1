-- ===== src/Binlog/Lifecycle/Runs.antt =====
-- Runs of the operations of `DefaultBinlogConnector` in crates/canal-binlog/src/connector.rs, and what
-- the connector keeps in step with its replication tasks.
use canal_rust.Prelude.{
  ℕ, zero, suc, ◌≡◌, ◌≢◌, ◌⊎◌, refl, ap, inl, inr, some, Bool, true, false, not, ◌&&◌, List, [],
  ◌∷◌, ◌++◌, arith, length,
}
use canal_rust.Prelude.Bytes.{Text}
use canal_rust.Common.CanalError.{ok}
use canal_rust.Common.LogPosition.{LogPosition}
use canal_rust.Binlog.Lifecycle.{
  Task, DefaultBinlogConnector, Started, new, with_channel, connect, cancel, end, at_task,
  take_receiver, disconnect,
}

-- The connectors that the operations lead to from a new one with the password `p`. A task may end at
-- any time.
pub data Reached (p : Text) : DefaultBinlogConnector → Type 0 where
  created :
      (host : Text) (port : ℕ) (username : Text) (server_id : ℕ) {c : DefaultBinlogConnector}
      → new host port username p server_id ≡ ok c
      → Reached p c
  connected :
      (pos : LogPosition) (started : Started) {c : DefaultBinlogConnector}
      → Reached p c
      → Reached p (connect pos started c).1
  disconnected : {c : DefaultBinlogConnector} → Reached p c → Reached p (disconnect c).1
  channelled : {c : DefaultBinlogConnector} → Reached p c → Reached p (with_channel c).0
  taken :
      {c : DefaultBinlogConnector} {r : ℕ × DefaultBinlogConnector}
      → take_receiver c ≡ some r
      → Reached p c
      → Reached p r.1
  ended :
      (n : ℕ) {c : DefaultBinlogConnector}
      → Reached p c
      → Reached p (record c { tasks = at_task end n c.tasks })

-- The task has not returned, and nothing tells it to.
abbrev pub is_live : Task → Bool
is_live t = not t.cancelled && not t.ended

abbrev pub live_at : List Task → ℕ → Bool
live_at [] n = false
live_at (t ∷ ts) zero = is_live t
live_at (t ∷ ts) (suc n) = live_at ts n

pub live_at-at_task :
    (f : Task → Task) (n m : ℕ) (ts : List Task)
    → ((t : Task) → is_live (f t) ≡ false)
    → live_at (at_task f n ts) m ≡ true
    → (live_at ts m ≡ true) × (m ≢ n)
unfolding at_task
live_at-at_task f n m [] kills h = ground arith
live_at-at_task f zero zero (t ∷ ts) kills h = ground (arith, kills t)
live_at-at_task f zero (suc m) (t ∷ ts) kills h = (h, omega arith)
live_at-at_task f (suc n) zero (t ∷ ts) kills h = (h, omega arith)
live_at-at_task f (suc n) (suc m) (t ∷ ts) kills h =
    let (live, other) = live_at-at_task f n m ts kills h in (live, omega (arith, other))

pub live_at-append :
    (m : ℕ) (ts : List Task) (t : Task)
    → live_at (ts ++ t ∷ []) m ≡ true
    → (live_at ts m ≡ true) ⊎ (m ≡ length ts)
live_at-append zero [] t h = inr refl
live_at-append (suc m) [] t h = ground arith
live_at-append zero (u ∷ ts) t h = inl h
live_at-append (suc m) (u ∷ ts) t h = elim (live_at-append m ts t h) [
  | inl live ↦ inl live
  | inr e ↦ inr (ap suc e)
]

pub ends : (t : Task) → is_live (end t) ≡ false
ends t = ground arith

pub cancels : (t : Task) → is_live (cancel t) ≡ false
cancels t = ground arith

-- A live task is the one that the token cancels, and the connector runs.
pub record Consistent (p : Text) (c : DefaultBinlogConnector) : Type 0 where
  pub live : (n : ℕ) → live_at c.tasks n ≡ true → (c.cancel_token ≡ some n) × (c.running ≡ true)
  pub runs : c.connected ≡ true → c.running ≡ true
  pub original : c.original_password ≡ some p
  pub password : (c.password ≡ p) ⊎ (c.password ≡ [])
