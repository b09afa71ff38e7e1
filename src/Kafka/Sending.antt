-- ===== src/Kafka/Sending.antt =====
-- What `dispatch` of crates/canal-connector/src/kafka.rs sends and answers.
use canal_rust.Prelude.{
  ℕ, ◌+◌, ◌≡◌, ◌↔◌, refl, Option, none, some, map, ap, ◌∙◌, ◌++◌, Bool, true, false, not, List, [],
  ◌∷◌, arith, length, ltb, if◌then◌else◌, Bool-cases, inl, inr, if-cases, sym,
}
use mathlib.Core.Option
use mathlib.Core.Path.{subst, ap₂}
use canal_rust.Prelude.Bytes.{Text, bytes}
use canal_rust.Common.CanalError.{CanalError, CanalResult, ok, err}
use canal_rust.Common.Event.{ColumnValue, RowData, RowChange, CanalEvent, as_str, dml_as_str}
use canal_rust.Kafka.{
  KafkaColumn, KafkaRowChange, KafkaPayload, KafkaConnector, before_column, after_column, image,
  row_change_of, payload_of, keyed, serialize_events, failures, dispatch, messages_failed,
}

-- The columns of a before-image are never marked.
abbrev pub plain_columns : RowData → List KafkaColumn
plain_columns r =
    map (λ c. record { name = c.name; value = c.value; is_key = c.is_key; updated = false })
      r.columns

abbrev pub marked_columns : RowData → List KafkaColumn
marked_columns r =
    map (λ c. record { name = c.name; value = c.value; is_key = c.is_key; updated = c.updated })
      r.columns

-- The payload that an event must have
abbrev pub payload : CanalEvent → KafkaPayload
payload event = record {
  schema = event.schema_name;
  table = event.table_name;
  event_type = as_str event.entry_type;
  position = event.position;
  journal = event.journal_name;
  server_id = event.server_id;
  execute_time = event.execute_time;
  gtid = event.gtid;
  row_change =
      Option.map
        (λ rc. record {
          dml_type = dml_as_str rc.dml_type;
          before = Option.map plain_columns rc.before;
          after = Option.map marked_columns rc.after;
        })
        event.row_change;
  ddl_sql = event.ddl_sql;
}

image-map :
    (f : ColumnValue → KafkaColumn) (o : Option RowData)
    → image f o ≡ Option.map (λ r. map f r.columns) o
image-map f none = refl
image-map f (some r) = refl

with_row_change : CanalEvent → Option KafkaRowChange → KafkaPayload
with_row_change event o = record (payload event) { row_change = o }

payload_of_lem : (event : CanalEvent) → payload_of event ≡ payload event
unfolding payload_of row_change_of with_row_change before_column after_column
payload_of_lem event = ap (with_row_change event) (by_case event.row_change)
  where
    by_case :
        (o : Option RowChange)
        → row_change_of o
          ≡ Option.map
              (λ rc. record {
                dml_type = dml_as_str rc.dml_type;
                before = Option.map plain_columns rc.before;
                after = Option.map marked_columns rc.after;
              })
              o
    by_case none = refl
    by_case (some rc) =
        ap₂ (λ b a. some (record { dml_type = dml_as_str rc.dml_type; before = b; after = a }))
          (image-map before_column rc.before) (image-map after_column rc.after)

module _ (to_json : KafkaPayload → Option Text) (delivered : ℕ → Bool) where
  -- The sends from the `n`-th on all succeed.
  abbrev pub AllDelivered : ℕ → List (Text × Text) → Type 0
  AllDelivered n [] = Unit
  AllDelivered n (message ∷ messages) = (delivered n ≡ true) × AllDelivered (n + 1) messages

  failures-none :
      (n : ℕ) (messages : List (Text × Text))
      → failures to_json delivered n messages ≡ 0
      → AllDelivered n messages
  unfolding failures
  failures-none n [] h = tt
  failures-none n (message ∷ messages) h = elim (Bool-cases (delivered n)) [
    | inl e ↦ (e, failures-none (n + 1) messages (ground (arith, h, e)))
    | inr e ↦ absurd (ground (arith, h, e))
  ]

  none-failures :
      (n : ℕ) (messages : List (Text × Text))
      → AllDelivered n messages
      → failures to_json delivered n messages ≡ 0
  unfolding failures
  none-failures n [] h = refl
  none-failures n (message ∷ messages) h =
      let rest = none-failures (n + 1) messages h.1 in ground (arith, h.0)

  abbrev IsOk : CanalResult (Unit {0}) → Type 0
  IsOk (ok u) = Unit
  IsOk (err e) = ⊥

  abbrev Answer : Type 0
  Answer = CanalResult (Unit {0}) × List (Text × Text)

  -- What a call sent and what it answered
  abbrev Answers : List (Text × Text) → Answer → Type 0
  Answers messages r = (r.1 ≡ messages) × ((r.0 ≡ ok tt) ↔ AllDelivered 0 messages)

  answered :
      (e : CanalError) (messages : List (Text × Text))
      → Answers messages (
          if ltb 0 (failures to_json delivered 0 messages)
          then (err e, messages)
          else (ok tt, messages))
  answered e messages =
      if-cases (Answers messages) (ltb 0 (failures to_json delivered 0 messages))
        (λ some_failed. (
          refl,
          (
            (λ good. absurd (subst IsOk (sym good) tt)),
            (λ all. absurd (ground (arith, some_failed, none-failures 0 messages all))),
          ),
        ))
        (λ none_failed.
          (refl, ((λ good. failures-none 0 messages (ground (arith, none_failed))), (λ all. refl))))

  -- The message of an event, if its payload has a JSON text: the schema is its key.
  abbrev pub message : CanalEvent → Option (Text × Text)
  message event = Option.map (λ json. (event.schema_name, json)) (to_json (payload event))

  abbrev pub present : List (Option (Text × Text)) → List (Text × Text)
  present [] = []
  present (none ∷ messages) = present messages
  present (some m ∷ messages) = m ∷ present messages

  serialize_events-present :
      (events : List CanalEvent)
      → serialize_events to_json delivered events ≡ present (map message events)
  unfolding serialize_events
  serialize_events-present [] = refl
  serialize_events-present (event ∷ events) =
      ap (λ t. keyed to_json delivered event.schema_name (to_json (payload_of event)) ++ t)
        (serialize_events-present events)
      ∙ (one (to_json (payload_of event))
          ∙ ap
              (λ p.
                present
                  (Option.map (λ json. (event.schema_name, json)) (to_json p) ∷ map message events))
              (payload_of_lem event))
    where
      one :
          (o : Option Text)
          → keyed to_json delivered event.schema_name o ++ present (map message events)
            ≡ present (Option.map (λ json. (event.schema_name, json)) o ∷ map message events)
      one none = refl
      one (some json) = refl

  dispatch_answers :
      (events : List CanalEvent) (k : KafkaConnector)
      → k.producer ≡ true
      → ((dispatch to_json delivered events k).1 ≡ serialize_events to_json delivered events)
        × (((dispatch to_json delivered events k).0 ≡ ok tt)
            ↔ AllDelivered 0 (serialize_events to_json delivered events))
  unfolding dispatch serialize_events
  dispatch_answers [] k on = (refl, ((λ e. tt), (λ all. refl)))
  dispatch_answers (event ∷ events) k on =
      let messages = serialize_events to_json delivered (event ∷ events) in
      let failed = failures to_json delivered 0 messages in
      let e = messages_failed k.name failed (length (event ∷ events)) in
      subst
        (λ b. Answers messages (
          if not b
          then (err (CanalError.internal (bytes "KafkaConnector: not connected")), [])
          else if ltb 0 failed
          then (err e, messages)
          else (ok tt, messages)))
        (sym on) (answered e messages)

  -- A connected connector: it gives the producer one message for every event that has a JSON text, in
  -- the order of the events, with the schema as the key and the JSON text of the payload of the event, and it answers
  -- `Ok` exactly when all of these sends succeed; an event without a JSON text is left out and does
  -- not count as a failure.
  pub dispatch_iff :
      (events : List CanalEvent) (k : KafkaConnector)
      → k.producer ≡ true
      → let r = dispatch to_json delivered events k in
        (r.1 ≡ present (map message events))
        × ((r.0 ≡ ok tt) ↔ AllDelivered 0 (present (map message events)))
  dispatch_iff events k on =
      subst
        (λ messages.
          ((dispatch to_json delivered events k).1 ≡ messages)
          × (((dispatch to_json delivered events k).0 ≡ ok tt) ↔ AllDelivered 0 messages))
        (serialize_events-present events) (dispatch_answers events k on)
