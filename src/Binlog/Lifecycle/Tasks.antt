-- ===== src/Binlog/Lifecycle/Tasks.antt =====
-- The operations of `DefaultBinlogConnector` in crates/canal-binlog/src/connector.rs keep the connector
-- in step with its replication tasks.
use canal_rust.Prelude.{
  ℕ, ◌≡◌, ◌⊎◌, refl, sym, ap, ◌∙◌, inl, inr, Option, none, some, true, false, [], arith, length,
  is_empty, ltb, Bool-cases, if-cases,
}
use mathlib.Core.Path.{subst}
use canal_rust.Prelude.Bytes.{Text}
use canal_rust.Common.CanalError.{CanalResult, ok, err}
use canal_rust.Common.LogPosition.{LogPosition}
use canal_rust.Binlog.Lifecycle.{
  Task, DefaultBinlogConnector, Started, sent, dropped, timed_out, u32_max, new, with_channel,
  spawn, after_start, connect, connect_with, cancel, end, at_task, take_receiver, take_unsent,
  cancelled_tasks, restored, disconnect,
}
use canal_rust.Binlog.Lifecycle.Runs.{
  Reached, created, connected, disconnected, channelled, taken, ended, is_live, live_at,
  live_at-at_task, live_at-append, ends, cancels, Consistent,
}

pub none_live :
    {p : Text} {c : DefaultBinlogConnector} (n : ℕ)
    → Consistent p c
    → c.running ≡ false
    → live_at c.tasks n ≡ false
none_live {c = c} n k off = elim (Bool-cases (live_at c.tasks n)) [
  | inl live ↦ ground (arith, k.live n live, off)
  | inr e ↦ e
]

end-Consistent :
    {p : Text} {c : DefaultBinlogConnector} (n : ℕ)
    → Consistent p c
    → Consistent p (record c { tasks = at_task end n c.tasks })
end-Consistent {c = c} n k = record {
  live = λ m h. k.live m (live_at-at_task end n m c.tasks ends h).0;
  runs = k.runs;
  original = k.original;
  password = k.password;
}

-- With no live task before, the new one is the only one.
spawn-Consistent :
    {p : Text} {c : DefaultBinlogConnector} (pos : LogPosition) (tx : ℕ)
    → Consistent p c
    → c.running ≡ false
    → Consistent p (spawn pos tx c)
unfolding spawn
spawn-Consistent {c = c} pos tx k off = record {
  live = λ n h. elim (live_at-append n c.tasks _ h) [
    | inl old ↦ ground (arith, none_live n k off, old)
    | inr e ↦ (ap some (sym e), refl)
  ];
  runs = λ e. refl;
  original = k.original;
  password = inr refl;
}

-- A method that kills the task of the token leaves none.
killed :
    {p : Text} {c : DefaultBinlogConnector} (f : Task → Task) (n m : ℕ)
    → ((t : Task) → is_live (f t) ≡ false)
    → Consistent p c
    → c.cancel_token ≡ some n
    → live_at (at_task f n c.tasks) m ≡ false
killed {c = c} f n m kills k token = elim (Bool-cases (live_at (at_task f n c.tasks) m)) [
  | inl h ↦
      let (old, other) = live_at-at_task f n m c.tasks kills h in
      ground (arith, other, (k.live m old).0, token)
  | inr e ↦ e
]

pub cancelled_tasks-dead :
    {p : Text} {c : DefaultBinlogConnector} (m : ℕ)
    → Consistent p c
    → live_at (cancelled_tasks c.cancel_token c.tasks) m ≡ false
unfolding cancelled_tasks
cancelled_tasks-dead {c = c} m k = by_token c.cancel_token refl
  where
    by_token : (o : Option ℕ) → c.cancel_token ≡ o → live_at (cancelled_tasks o c.tasks) m ≡ false
    by_token none e = elim (Bool-cases (live_at c.tasks m)) [
      | inl live ↦ ground (arith, (k.live m live).0, e)
      | inr d ↦ d
    ]
    by_token (some n) e = killed cancel n m cancels k e

after_start-Consistent :
    {p : Text} {c : DefaultBinlogConnector} (started : Started) (n : ℕ)
    → Consistent p c
    → c.cancel_token ≡ some n
    → c.running ≡ true
    → c.connected ≡ false
    → Consistent p (after_start started n c).1
unfolding after_start
after_start-Consistent sent n k token on off = record {
  live = k.live;
  runs = λ e. on;
  original = k.original;
  password = k.password;
}
after_start-Consistent dropped n k token on off = record {
  live = λ m h. ground (arith, killed end n m ends k token, h);
  runs = λ e. ground (arith, e, off);
  original = k.original;
  password = k.password;
}
after_start-Consistent timed_out n k token on off = record {
  live = λ m h. ground (arith, killed cancel n m cancels k token, h);
  runs = λ e. ground (arith, e, off);
  original = k.original;
  password = k.password;
}

connect_with-Consistent :
    {p : Text} {c : DefaultBinlogConnector} (o : Option ℕ) (pos : LogPosition) (started : Started)
    → Consistent p c
    → c.running ≡ false
    → Consistent p (connect_with o pos started c).1
unfolding connect_with spawn
connect_with-Consistent none pos started k off = k
connect_with-Consistent {c = c} (some tx) pos started k off =
    after_start-Consistent started (length c.tasks) (spawn-Consistent pos tx k off) refl refl
      (elim (Bool-cases c.connected) [ inl e ↦ ground (arith, k.runs e, off) | inr e ↦ e ])

connect-Consistent :
    {p : Text} {c : DefaultBinlogConnector} (pos : LogPosition) (started : Started)
    → Consistent p c
    → Consistent p (connect pos started c).1
unfolding connect
connect-Consistent {p} {c} pos started k =
    if-cases (λ (r : CanalResult (Unit {0}) × DefaultBinlogConnector). Consistent p r.1) c.running
      (λ e. k) (λ off. connect_with-Consistent c.sender pos started k off)

pub restored-password :
    (o : Option Text) (p password : Text)
    → o ≡ some p
    → (password ≡ p) ⊎ (password ≡ [])
    → restored o password ≡ p
unfolding restored
restored-password none p password e h = ground arith
restored-password (some original) p password e h =
    if-cases (λ s. s ≡ p) (is_empty password) (λ empty. ground (arith, e))
      (λ filled. elim h [ inl same ↦ same | inr gone ↦ ground (arith, ap is_empty gone, filled) ])

disconnect-Consistent :
    {p : Text} {c : DefaultBinlogConnector} → Consistent p c → Consistent p (disconnect c).1
unfolding disconnect
disconnect-Consistent {p} {c} k = record {
  live = λ m h. ground (arith, cancelled_tasks-dead m k, h);
  runs = λ e. ground (arith, e);
  original = k.original;
  password = inl (restored-password c.original_password p c.password k.original k.password);
}

same-Consistent :
    {p : Text} {c d : DefaultBinlogConnector}
    → Consistent p c
    → d.tasks ≡ c.tasks
    → d.cancel_token ≡ c.cancel_token
    → d.running ≡ c.running
    → d.connected ≡ c.connected
    → d.original_password ≡ c.original_password
    → d.password ≡ c.password
    → Consistent p d
same-Consistent {p} {c} {d} k at_tasks at_token at_running at_connected at_original at_password =
    record {
      live = λ n h.
          let (t, r) = k.live n (ap (λ ts. live_at ts n) (sym at_tasks) ∙ h) in
          (at_token ∙ t, at_running ∙ r);
      runs = λ e. at_running ∙ k.runs (sym at_connected ∙ e);
      original = at_original ∙ k.original;
      password = elim k.password [ inl e ↦ inl (at_password ∙ e) | inr e ↦ inr (at_password ∙ e) ];
    }

channel-Consistent :
    {p : Text} {c : DefaultBinlogConnector} → Consistent p c → Consistent p (with_channel c).0
unfolding with_channel
channel-Consistent k = same-Consistent k refl refl refl refl refl refl

-- `P` holds of the connector that a call gave, if it gave one.
abbrev OnOk : (DefaultBinlogConnector → Type 0) → CanalResult DefaultBinlogConnector → Type 0
OnOk P (ok c) = P c
OnOk P (err e) = Unit

abbrev OnSome : (DefaultBinlogConnector → Type 0) → Option (ℕ × DefaultBinlogConnector) → Type 0
OnSome P none = Unit
OnSome P (some r) = P r.1

new-Consistent :
    (host : Text) (port : ℕ) (username p : Text) (server_id : ℕ)
    → OnOk (Consistent p) (new host port username p server_id)
unfolding new
new-Consistent host port username p server_id =
    if-cases (OnOk (Consistent p)) (ltb u32_max server_id) (λ e. tt)
      (λ e. record {
        live = λ n h. ground (arith, h);
        runs = λ h. h;
        original = refl;
        password = inl refl;
      })

take_unsent-Consistent :
    {p : Text} {c : DefaultBinlogConnector} (o : Option ℕ)
    → Consistent p c
    → OnSome (Consistent p) (take_unsent o c)
unfolding take_unsent
take_unsent-Consistent none k = same-Consistent k refl refl refl refl refl refl
take_unsent-Consistent (some tx) k = tt

take_receiver-Consistent :
    {p : Text} {c : DefaultBinlogConnector}
    → Consistent p c
    → OnSome (Consistent p) (take_receiver c)
unfolding take_receiver
take_receiver-Consistent {p} {c} k =
    if-cases (OnSome (Consistent p)) c.connected (λ e. tt) (λ e. take_unsent-Consistent c.sender k)

pub Reached-Consistent : {p : Text} {c : DefaultBinlogConnector} → Reached p c → Consistent p c
Reached-Consistent {p} (created host port username server_id e) =
    subst (OnOk (Consistent p)) e (new-Consistent host port username p server_id)
Reached-Consistent (connected pos started r) = connect-Consistent pos started (Reached-Consistent r)
Reached-Consistent (disconnected r) = disconnect-Consistent (Reached-Consistent r)
Reached-Consistent (channelled r) = channel-Consistent (Reached-Consistent r)
Reached-Consistent {p} (taken e r) =
    subst (OnSome (Consistent p)) e (take_receiver-Consistent (Reached-Consistent r))
Reached-Consistent (ended n r) = end-Consistent n (Reached-Consistent r)
