-- ===== src/Client/Events.antt =====
-- crates/canal-client/src/lib.rs: `CanalEventStream`, what the consumer holds of the polling task.
use canal_rust.Prelude.{ℕ, zero, suc, ◌≡◌, refl, ap, List, [], ◌∷◌, length}
use canal_rust.Common.CanalError.{CanalResult}
use canal_rust.Common.Event.{CanalEvent}

-- The background task, which closes the channel when it ends
pub data BackgroundTask : Type 0 where
  polling finished panicked aborted : BackgroundTask

-- `rx` is what the channel still holds.
pub record CanalEventStream : Type 0 where
  pub rx : List (CanalResult CanalEvent)
  pub bg_task : BackgroundTask

-- What `next_event().await` comes to: an item, the end, or it still waits.
pub data NextEvent : Type 0 where
  item : CanalResult CanalEvent → NextEvent
  end_of_stream waiting : NextEvent

-- A task that has ended is joined and replaced by one that does nothing.
unfoldable pub next_event : CanalEventStream → NextEvent × CanalEventStream
next_event s = elim s.rx [
  | x ∷ rx ↦ (item x, record s { rx = rx })
  | [] ↦ elim s.bg_task [
    | polling ↦ (waiting, s)
    | finished ↦ (end_of_stream, record s { bg_task = finished })
    | panicked ↦ (end_of_stream, record s { bg_task = finished })
    | aborted ↦ (end_of_stream, record s { bg_task = finished })
  ]
]

-- `Drop`
unfoldable pub drop_ : CanalEventStream → CanalEventStream
drop_ s = record s { bg_task = aborted }

abbrev with_item :
    (CanalEventStream → List (CanalResult CanalEvent))
    → NextEvent × CanalEventStream
    → List (CanalResult CanalEvent)
with_item next (item x, s) = x ∷ next s
with_item next (end_of_stream, s) = []
with_item next (waiting, s) = []

-- The items of a consumer that asks until it gets none, at most `fuel` times
unfoldable pub collect : ℕ → CanalEventStream → List (CanalResult CanalEvent)
collect zero s = []
collect (suc fuel) s = with_item (collect fuel) (next_event s)

-- As often as the channel holds items, and once more: the consumer gets all of them, in order.
pub collect-rx :
    (rx : List (CanalResult CanalEvent)) (bg_task : BackgroundTask)
    → collect (suc (length rx)) (record { rx = rx; bg_task = bg_task }) ≡ rx
unfolding collect next_event
collect-rx [] polling = refl
collect-rx [] finished = refl
collect-rx [] panicked = refl
collect-rx [] aborted = refl
collect-rx (x ∷ rx) bg_task = ap (λ t. x ∷ t) (collect-rx rx bg_task)
