-- ===== src/Client/Turns.antt =====
-- What one turn of the polling task of crates/canal-client/src/lib.rs delivers and acknowledges.
use canal_rust.Prelude.{
  ℕ, suc, ◌+◌, ◌≡◌, refl, sym, ap, ◌∙◌, Option, none, some, Bool, true, false, List, [], ◌∷◌, ◌++◌,
  map, length, take, arith, if◌then◌else◌, if-cases, Bool-cases, take_all, inl, inr,
}
use mathlib.Core.List.{append-nil, append_assoc}
use canal_rust.Prelude.Bytes.{Text}
use canal_rust.Prelude.Int.{ℤ, eq_ℤ}
use canal_rust.Common.CanalError.{CanalError, CanalResult, Result, ok, err}
use canal_rust.Common.Event.{CanalEvent}
use canal_rust.Server.Connection.{Packet}
use canal_rust.Client.{
  Request, authenticate, subscription, get, acknowledge, Answers, CanalClient, messages_type,
  ack_type, sending,
}
use canal_rust.Client.Poll.{
  Poll, deliver, back_off, go_on, sent_ok, forward, acknowledged, on_messages, on_response, turn,
  ack_request, get_request,
}

-- The batches that were acknowledged, in order
unfoldable pub acks : List Request → List ℤ
acks [] = []
acks (acknowledge ack ∷ sent) = ack.batch_id ∷ acks sent
acks (authenticate r ∷ sent) = acks sent
acks (subscription r ∷ sent) = acks sent
acks (get r ∷ sent) = acks sent

acks-append : (a b : List Request) → acks (a ++ b) ≡ acks a ++ acks b
unfolding acks
acks-append [] b = refl
acks-append (acknowledge ack ∷ a) b = ap (λ t. ack.batch_id ∷ t) (acks-append a b)
acks-append (authenticate r ∷ a) b = acks-append a b
acks-append (subscription r ∷ a) b = acks-append a b
acks-append (get r ∷ a) b = acks-append a b

module _ (answers : Answers) (entry_event : Text → CanalResult CanalEvent) where
  -- The batches among the answers of the server
  abbrev pub batch_of : Result (ℤ × List Text) Text → List (ℤ × List Text)
  batch_of (ok b) = b ∷ []
  batch_of (err e) = []

  abbrev pub batch_in : CanalResult Packet → List (ℤ × List Text)
  batch_in (err e) = []
  batch_in (ok packet) =
      if eq_ℤ packet.type_number messages_type
      then batch_of (answers.decode_messages packet.body)
      else []

  unfoldable pub batches_in : List (CanalResult Packet) → List (ℤ × List Text)
  batches_in [] = []
  batches_in (response ∷ responses) = batch_in response ++ batches_in responses

  -- What their entries decode to, all batches one after the other
  unfoldable pub outcomes : List (ℤ × List Text) → List (CanalResult CanalEvent)
  outcomes [] = []
  outcomes ((id, entries) ∷ batches) = map entry_event entries ++ outcomes batches

  -- What one turn does about the batches of its answer: it goes on when it has delivered and
  -- acknowledged them, and else it has delivered some of them and acknowledged none.
  abbrev pub Step : List (ℤ × List Text) → Poll → Bool × Poll → Type 0
  Step batches p (true, q) =
      (q.delivered ≡ p.delivered ++ outcomes batches)
      × (acks q.outgoing.sent ≡ acks p.outgoing.sent ++ map (λ b. b.0) batches)
  Step batches p (false, q) =
      (k : ℕ) × (q.delivered ≡ p.delivered ++ take k (outcomes batches))
      × (acks q.outgoing.sent ≡ acks p.outgoing.sent)

  abbrev pub Same : Poll → Poll → Type 0
  Same p q = (q.delivered ≡ p.delivered) × (acks q.outgoing.sent ≡ acks p.outgoing.sent)

  Step-cast :
      (batches : List (ℤ × List Text)) (p q : Poll) (r : Bool × Poll)
      → Same p q
      → Step batches q r
      → Step batches p r
  Step-cast batches p q (true, s) (d, a) (e, f) =
      (e ∙ ap (λ t. t ++ outcomes batches) d, f ∙ ap (λ t. t ++ map (λ b. b.0) batches) a)
  Step-cast batches p q (false, s) (d, a) (k, e, f) =
      (k, e ∙ ap (λ t. t ++ take k (outcomes batches)) d, f ∙ a)

  pub stop : (batches : List (ℤ × List Text)) (p q : Poll) → Same p q → Step batches p (false, q)
  stop batches p q (d, a) = (0, d ∙ sym (append-nil _), a)

  skip : (p q : Poll) → Same p q → Step [] p (true, q)
  unfolding outcomes
  skip p q (d, a) = (d ∙ sym (append-nil _), a ∙ sym (append-nil _))

  -- Sending a request that is no acknowledgement
  pub sent_ok-Same :
      (failure : Option CanalError) (request : Request) (p : Poll)
      → acks (request ∷ []) ≡ []
      → Same p (sent_ok (sending failure request p.outgoing) p).1
  unfolding sent_ok sending
  sent_ok-Same none request p quiet = (
    refl,
    acks-append p.outgoing.sent (request ∷ [])
        ∙ (ap (λ t. acks p.outgoing.sent ++ t) quiet ∙ append-nil _),
  )
  sent_ok-Same (some e) request p quiet = (refl, refl)

  go_on-Step :
      (batches : List (ℤ × List Text)) (next : Poll → Bool × Poll) (p : Poll) (r : Bool × Poll)
      → Same p r.1
      → ((q : Poll) → Step batches q (next q))
      → Step batches p (go_on next r)
  go_on-Step batches next p (true, q) same steps = Step-cast batches p q (next q) same (steps q)
  go_on-Step batches next p (false, q) same steps = stop batches p q same

  -- Some of the entries were delivered, all of them if the consumer is still there.
  abbrev Forwarded : List Text → Poll → Bool × Poll → Type 0
  Forwarded entries p (true, q) =
      (q.delivered ≡ p.delivered ++ map entry_event entries) × (q.outgoing ≡ p.outgoing)
  Forwarded entries p (false, q) =
      (k : ℕ) × (q.delivered ≡ p.delivered ++ take k (map entry_event entries))
      × (q.outgoing ≡ p.outgoing)

  Forwarded-cons :
      (entry_bytes : Text) (entries : List Text) (p q : Poll) (r : Bool × Poll)
      → q.delivered ≡ p.delivered ++ entry_event entry_bytes ∷ []
      → q.outgoing ≡ p.outgoing
      → Forwarded entries q r
      → Forwarded (entry_bytes ∷ entries) p r
  Forwarded-cons entry_bytes entries p q (true, s) d o (e, f) =
      (e ∙ (ap (λ t. t ++ map entry_event entries) d ∙ append_assoc p.delivered _ _), f ∙ o)
  Forwarded-cons entry_bytes entries p q (false, s) d o (k, e, f) = (
    suc k,
    e ∙ (ap (λ t. t ++ take k (map entry_event entries)) d ∙ append_assoc p.delivered _ _),
    f ∙ o,
  )

  forward_lem :
      (c : CanalClient) (entries : List Text) (p : Poll)
      → Forwarded entries p (forward answers entry_event c entries p)
  unfolding forward deliver
  forward_lem c [] p = (sym (append-nil _), refl)
  forward_lem c (entry_bytes ∷ entries) p =
      let rest = forward_lem c entries in
      if-cases
        (λ (r : Bool × Poll).
          Forwarded (entry_bytes ∷ entries) p (go_on (forward answers entry_event c entries) r))
        (p.alive_at p.offers)
        (λ alive.
          let handed : Poll = record p {
            delivered = p.delivered ++ entry_event entry_bytes ∷ [];
            offers = p.offers + 1;
          } in
          Forwarded-cons entry_bytes entries p handed _ refl refl (rest handed))
        (λ gone. (0, sym (append-nil _), refl))

  pub outcomes-one :
      (id : ℤ) (entries : List Text) → outcomes ((id, entries) ∷ []) ≡ map entry_event entries
  unfolding outcomes
  outcomes-one id entries = append-nil _

  acked :
      (c : CanalClient) (id : ℤ) (entries : List Text) (p q : Poll) (failure : Option CanalError)
      → q.delivered ≡ p.delivered ++ map entry_event entries
      → q.outgoing ≡ p.outgoing
      → Step ((id, entries) ∷ []) p (
          sent_ok
            (sending failure (ack_request answers entry_event c id) q.outgoing)
            (record q { idle_count = 0 }))
  unfolding sent_ok sending ack_request acks
  acked c id entries p q none d o = (
    d ∙ ap (λ t. p.delivered ++ t) (sym (outcomes-one id entries)),
    acks-append q.outgoing.sent _ ∙ ap (λ t. acks t.sent ++ id ∷ []) o,
  )
  acked c id entries p q (some e) d o = (
    length (map entry_event entries),
    d
        ∙ ap (λ t. p.delivered ++ t)
            (sym (
                take_all (length (map entry_event entries)) (map entry_event entries) (omega arith))
              ∙ ap (take (length (map entry_event entries))) (sym (outcomes-one id entries))),
    ap (λ t. acks t.sent) o,
  )

  batch-Step :
      (c : CanalClient) (id : ℤ) (entries : List Text) (p : Poll) (r : Bool × Poll)
      → Forwarded entries p r
      → Step ((id, entries) ∷ []) p (go_on (acknowledged answers entry_event c id) r)
  unfolding acknowledged
  batch-Step c id entries p (true, q) (d, o) =
      acked c id entries p q (q.outgoing.fails_at q.outgoing.attempts) d o
  batch-Step c id entries p (false, q) (k, d, o) = (
    k,
    d ∙ ap (λ t. p.delivered ++ take k t) (sym (outcomes-one id entries)),
    ap (λ t. acks t.sent) o,
  )

  on_messages-Step :
      (c : CanalClient) (r : Result (ℤ × List Text) Text) (p : Poll)
      → Step (batch_of r) p (on_messages answers entry_event c r p)
  unfolding on_messages
  on_messages-Step c (err e) p = stop [] p p (refl, refl)
  on_messages-Step c (ok (id, entries)) p =
      batch-Step c id entries p (forward answers entry_event c entries p) (forward_lem c entries p)

  on_response-Step :
      (c : CanalClient) (response : CanalResult Packet) (p : Poll)
      → Step (batch_in response) p (on_response answers entry_event c response p)
  unfolding on_response back_off
  on_response-Step c (err e) p = stop [] p p (refl, refl)
  on_response-Step c (ok packet) p = elim (Bool-cases (eq_ℤ packet.type_number messages_type)) [
    | inl is_messages ↦ rw is_messages (on_messages-Step c (answers.decode_messages packet.body) p)
    | inr other ↦ rw other (
        if-cases (Step [] p) (eq_ℤ packet.type_number ack_type) (λ e. stop [] p p (refl, refl))
          (λ e. skip p (back_off p) (refl, refl)))
  ]

  pub turn-Step :
      (c : CanalClient) (response : CanalResult Packet) (p : Poll)
      → Step (batch_in response) p (turn answers entry_event c response p)
  unfolding turn get_request acks
  turn-Step c response p =
      go_on-Step (batch_in response) (on_response answers entry_event c response) p _
        (sent_ok-Same (p.outgoing.fails_at p.outgoing.attempts) _ p refl)
        (on_response-Step c response)
