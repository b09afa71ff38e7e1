-- ===== src/Sink/Dispatch.antt =====
-- What each connector of crates/canal-sink/src/sink.rs gets.
use canal_rust.Prelude.{
  ℕ, ◌≡◌, refl, sym, ap, ◌∙◌, List, [], ◌∷◌, ◌++◌, map, filter, length, arith, if◌then◌else◌,
  Bool-cases, inl, inr, filter-append, map-append,
}
use mathlib.Core.Path.{subst}
use mathlib.Core.List.{append-nil, append_assoc}
use canal_rust.Prelude.Bytes.{Text, text_eq}
use canal_rust.Common.CanalError.{CanalResult, ok, err}
use canal_rust.Common.Event.{CanalEvent}
use canal_rust.Common.Regex.{RegexLib}
use canal_rust.Filter.{matches}
use canal_rust.Store.{put_batch}
use canal_rust.Sink.{DefaultEventSink, DispatchRequest, keep, sink, enqueue}
use canal_rust.Sink.Pipeline.{sink_all, passing, keep-event_filter}
use canal_rust.Sink.Worker.{Worker, ensure_worker, counted, dispatch, fan_out, work}

-- The batches that the calls gave to the connectors of a name
unfoldable pub received_by : Text → List (Text × List CanalEvent) → List (List CanalEvent)
received_by name calls = map (λ call. call.1) (filter (λ call. text_eq name call.0) calls)

received_by-append :
    (name : Text) (a b : List (Text × List CanalEvent))
    → received_by name (a ++ b) ≡ received_by name a ++ received_by name b
unfolding received_by
received_by-append name a b =
    ap (map (λ call. call.1)) (filter-append (λ call. text_eq name call.0) a b)
    ∙ map-append (λ call. call.1) (filter (λ call. text_eq name call.0) a) _

counted-calls :
    (r : CanalResult (Unit {0})) (req : DispatchRequest) (w : Worker)
    → ((counted r req w).calls ≡ w.calls) × ((counted r req w).connectors ≡ w.connectors)
unfolding counted
counted-calls (ok u) req w = (refl, refl)
counted-calls (err e) req w = (refl, refl)

module _ (outcome : ℕ → CanalResult (Unit {0})) (name : Text) where
  received_by-one :
      (conn : Text) (events : List CanalEvent) (others : List Text)
      → received_by name ((conn, events) ∷ []) ++ map (λ c. events) others
        ≡ map (λ (c : Text). events) (if text_eq name conn then conn ∷ others else others)
  unfolding received_by
  received_by-one conn events others = elim (Bool-cases (text_eq name conn)) [
    | inl e ↦ rw e refl
    | inr e ↦ rw e refl
  ]

  -- One request: as many copies as the name stands among the connectors, whatever the calls return
  fan_out-received_by :
      (connectors : List Text) (req : DispatchRequest) (w : Worker)
      → (received_by name (fan_out outcome connectors req w).calls
          ≡ received_by name w.calls ++ map (λ c. req.events) (filter (text_eq name) connectors))
        × ((fan_out outcome connectors req w).connectors ≡ w.connectors)
  unfolding fan_out dispatch
  fan_out-received_by [] req w = (sym (append-nil _), refl)
  fan_out-received_by (conn ∷ connectors) req w =
      let called = record w { calls = w.calls ++ (conn, req.events) ∷ [] } in
      let (calls, names) = counted-calls (outcome (length w.calls)) req called in
      let (rest, same) = fan_out-received_by connectors req (dispatch outcome conn req w) in
      (
        rest
            ∙ (ap
                  (λ t.
                    received_by name t ++ map (λ c. req.events) (filter (text_eq name) connectors))
                  calls
                ∙ one conn connectors req w),
        same ∙ names,
      )
    where
      one :
          (conn : Text) (connectors : List Text) (req : DispatchRequest) (w : Worker)
          → received_by name (w.calls ++ (conn, req.events) ∷ [])
              ++ map (λ c. req.events) (filter (text_eq name) connectors)
            ≡ received_by name w.calls
              ++ map (λ c. req.events) (filter (text_eq name) (conn ∷ connectors))
      one conn connectors req w =
          ap (λ t. t ++ map (λ c. req.events) (filter (text_eq name) connectors))
            (received_by-append name w.calls ((conn, req.events) ∷ []))
          ∙ (append_assoc (received_by name w.calls) _ _
              ∙ ap (λ t. received_by name w.calls ++ t)
                  (received_by-one conn req.events (filter (text_eq name) connectors)))

  work-received_by :
      (requests : List DispatchRequest) (w : Worker)
      → filter (text_eq name) w.connectors ≡ name ∷ []
      → received_by name (work outcome requests w).calls
        ≡ received_by name w.calls ++ map (λ req. req.events) requests
  unfolding work
  work-received_by [] w once = sym (append-nil _)
  work-received_by (req ∷ requests) w once =
      let (got, same) = fan_out-received_by w.connectors req w in
      work-received_by requests (fan_out outcome w.connectors req w)
        (ap (filter (text_eq name)) same ∙ once)
      ∙ (ap (λ t. t ++ map (λ r. r.events) requests)
            (got ∙ ap (λ t. received_by name w.calls ++ map (λ c. req.events) t) once)
          ∙ append_assoc (received_by name w.calls) _ _)

abbrev pub nonempty : List (List CanalEvent) → List (List CanalEvent)
nonempty [] = []
nonempty ([] ∷ batches) = nonempty batches
nonempty ((e ∷ es) ∷ batches) = (e ∷ es) ∷ nonempty batches

module _ (lib : RegexLib) where
  open lib use {Regex}

  keep-connectors :
      (events : List CanalEvent) (s : DefaultEventSink Regex)
      → (keep events s).1.connectors ≡ s.connectors
  unfolding keep put_batch
  keep-connectors [] s = refl
  keep-connectors (e ∷ es) s = refl

  abbrev HasConnector : List Text → Type 0
  HasConnector [] = ⊥
  HasConnector (c ∷ cs) = Unit

  enqueue-events :
      (connectors : List Text) (req : DispatchRequest) (requests : List DispatchRequest)
      → HasConnector connectors
      → map (λ r. r.events) (enqueue connectors req requests)
        ≡ map (λ r. r.events) requests ++ req.events ∷ []
  enqueue-events [] req requests h = absurd h
  enqueue-events (c ∷ cs) req requests h = map-append (λ r. r.events) requests (req ∷ [])

  keep-requests :
      (events : List CanalEvent) (s : DefaultEventSink Regex)
      → HasConnector s.connectors
      → map (λ r. r.events) (keep events s).1.requests
        ≡ map (λ r. r.events) s.requests ++ nonempty (events ∷ [])
  unfolding keep put_batch
  keep-requests [] s h = sym (append-nil _)
  keep-requests (e ∷ es) s h = enqueue-events s.connectors _ s.requests h

  nonempty-cons :
      (events : List CanalEvent) (batches : List (List CanalEvent))
      → nonempty (events ∷ []) ++ nonempty batches ≡ nonempty (events ∷ batches)
  nonempty-cons [] batches = refl
  nonempty-cons (e ∷ es) batches = refl

  sink_all-requests :
      (batches : List (List CanalEvent)) (s : DefaultEventSink Regex)
      → HasConnector s.connectors
      → map (λ r. r.events) (sink_all lib batches s).requests
        ≡ map (λ r. r.events) s.requests ++ nonempty (map (passing lib s) batches)
  unfolding sink_all sink
  sink_all-requests [] s h = sym (append-nil _)
  sink_all-requests (events ∷ batches) s h =
      let kept = passing lib s events in
      let s' = (sink lib events s).1 in
      sink_all-requests batches s' (subst HasConnector (sym (keep-connectors kept _)) h)
      ∙ (ap
            (λ f.
              map (λ r. r.events) s'.requests ++ nonempty (map (filter (matches lib f)) batches))
            (keep-event_filter lib kept _)
          ∙ (ap (λ t. t ++ nonempty (map (passing lib s) batches)) (keep-requests kept _ h)
              ∙ (append_assoc (map (λ r. r.events) s.requests) (nonempty (kept ∷ [])) _
                  ∙ ap (λ t. map (λ r. r.events) s.requests ++ t)
                      (nonempty-cons kept (map (passing lib s) batches)))))

  once-HasConnector :
      (name : Text) (connectors : List Text)
      → filter (text_eq name) connectors ≡ name ∷ []
      → HasConnector connectors
  once-HasConnector name [] once = ground (arith, once)
  once-HasConnector name (c ∷ cs) once = tt

  -- A new sink, any batches, and a connector whose name stands once among the sink's: when the worker
  -- has served its queue, that connector has got every batch of events that pass the filter, without
  -- the empty ones, once and in order, whatever its own calls and those of the others return.
  pub work-sink_all :
      (outcome : ℕ → CanalResult (Unit {0})) (name : Text) (batches : List (List CanalEvent))
      (s : DefaultEventSink Regex)
      → s.requests ≡ []
      → filter (text_eq name) s.connectors ≡ name ∷ []
      → received_by name (work outcome (sink_all lib batches s).requests (ensure_worker s)).calls
        ≡ nonempty (map (passing lib s) batches)
  unfolding ensure_worker received_by
  work-sink_all outcome name batches s fresh once =
      work-received_by outcome name (sink_all lib batches s).requests (ensure_worker s) once
      ∙ (sink_all-requests batches s (once-HasConnector name s.connectors once)
          ∙ ap (λ t. map (λ r. r.events) t ++ nonempty (map (passing lib s) batches)) fresh)
