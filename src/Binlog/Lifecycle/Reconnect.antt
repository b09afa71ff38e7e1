-- ===== src/Binlog/Lifecycle/Reconnect.antt =====
-- Which password `connect` of crates/canal-binlog/src/connector.rs uses.
use canal_rust.Prelude.{
  ℕ, ◌≡◌, refl, ap, ◌∙◌, Option, some, true, false, List, [], ◌∷◌, ◌++◌, length, last?,
  last?-append, if◌then◌else◌,
}
use mathlib.Core.Option
use canal_rust.Prelude.Bytes.{Text, bytes}
use canal_rust.Common.CanalError.{CanalError, ok, err}
use canal_rust.Common.LogPosition.{LogPosition}
use canal_rust.Binlog.Lifecycle.{
  DefaultBinlogConnector, Started, sent, timed_out, build_options, with_channel, spawn, after_start,
  connect, connect_with, disconnect, restored, timeout_error,
}
use canal_rust.Binlog.Lifecycle.Runs.{Reached, Consistent}
use canal_rust.Binlog.Lifecycle.Tasks.{Reached-Consistent, restored-password}

-- The password that the newest task was given
abbrev pub last_password : DefaultBinlogConnector → Option Text
last_password c = Option.map (λ t. t.options.password) (last? c.tasks)

last?-snoc : {A : Type 0} (xs : List A) (x : A) → last? (xs ++ x ∷ []) ≡ some x
last?-snoc xs x = last?-append xs x []

-- A call that is not refused
connect-starts :
    (pos : LogPosition) (started : Started) (tx : ℕ) (c : DefaultBinlogConnector)
    → c.running ≡ false
    → c.sender ≡ some tx
    → connect pos started c ≡ after_start started (length c.tasks) (spawn pos tx c)
unfolding connect connect_with
connect-starts pos started tx c off sender =
    ap
      (λ b.
        if b
        then (err (CanalError.internal (bytes "already connected — disconnect first")), c)
        else connect_with c.sender pos started c)
      off
    ∙ ap (λ o. connect_with o pos started c) sender

spawn-password :
    (pos : LogPosition) (tx : ℕ) (c : DefaultBinlogConnector)
    → last_password (spawn pos tx c) ≡ some c.password
unfolding spawn build_options
spawn-password pos tx c = ap (Option.map (λ t. t.options.password)) (last?-snoc c.tasks _)

-- After any run from a connector made with the password `p`: `disconnect`, a new channel and a
-- `connect` that starts in time end connected, and the new task logs in with `p`.
pub connect-disconnect :
    (pos : LogPosition) {p : Text} {c : DefaultBinlogConnector}
    → Reached p c
    → ((connect pos sent (with_channel (disconnect c).1).0).0 ≡ ok tt)
      × ((connect pos sent (with_channel (disconnect c).1).0).1.connected ≡ true)
      × (last_password (connect pos sent (with_channel (disconnect c).1).0).1 ≡ some p)
unfolding with_channel disconnect after_start
connect-disconnect pos {p} {c} r =
    let ready = (with_channel (disconnect c).1).0 in
    let e = connect-starts pos sent c.channels ready refl refl in
    (
      ap (λ x. x.0) e,
      ap (λ x. x.1.connected) e,
      ap (λ x. last_password x.1) e
          ∙ (spawn-password pos c.channels ready ∙ ap some (restores (Reached-Consistent r))),
    )
  where
    restores : Consistent p c → restored c.original_password c.password ≡ p
    restores k = restored-password c.original_password p c.password k.original k.password

-- A connector with a channel whose `connect` timed out can be asked to connect again at once, but the
-- new task then has no password, whatever the connector was made with.
pub connect-timed_out :
    (pos again : LogPosition) (tx : ℕ) (c : DefaultBinlogConnector)
    → c.running ≡ false
    → c.sender ≡ some tx
    → ((connect pos timed_out c).0 ≡ err (timeout_error c.connect_timeout_secs))
      × ((connect again sent (connect pos timed_out c).1).0 ≡ ok tt)
      × (last_password (connect again sent (connect pos timed_out c).1).1 ≡ some [])
unfolding after_start spawn
connect-timed_out pos again tx c off sender =
    let late = connect-starts pos timed_out tx c off sender in
    let failed = (after_start timed_out (length c.tasks) (spawn pos tx c)).1 in
    let e =
      ap (λ x. connect again sent x.1) late ∙ connect-starts again sent tx failed refl sender in
    (
      ap (λ x. x.0) late,
      ap (λ x. x.0) e,
      ap (λ x. last_password x.1) e ∙ spawn-password again tx failed,
    )
