-- ===== src/Client/Delivery.antt =====
-- What the polling task of crates/canal-client/src/lib.rs hands to its consumer and acknowledges.
use canal_rust.Prelude.{
  ℕ, ◌+◌, ◌≤◌, ◌≡◌, refl, sym, ap, ◌∙◌, Bool, true, false, List, [], ◌∷◌, ◌++◌, map, length,
  map-append, take-append_whole, take-append_part, min, take, arith, length-append,
}
use mathlib.Core.List.{append-nil, append_assoc}
use canal_rust.Prelude.Bytes.{Text}
use canal_rust.Prelude.Int.{ℤ}
use canal_rust.Common.CanalError.{CanalResult}
use canal_rust.Common.Event.{CanalEvent}
use canal_rust.Server.Connection.{Packet}
use canal_rust.Client.{Answers, CanalClient}
use canal_rust.Client.Poll.{Poll, continue, turn, poll_loop, get_request}
use canal_rust.Client.Turns.{acks, batch_in, batches_in, outcomes, Step, sent_ok-Same, turn-Step}

module _ (answers : Answers) (entry_event : Text → CanalResult CanalEvent) where
  -- From `p` to `q`: the first `n` batches were acknowledged and the first `k` outcomes delivered.
  pub record Progress (batches : List (ℤ × List Text)) (p q : Poll) : Type 0 where
    pub n : ℕ
    pub k : ℕ
    pub acknowledged_ids :
        acks q.outgoing.sent ≡ acks p.outgoing.sent ++ map (λ b. b.0) (take n batches)
    pub in_order : q.delivered ≡ p.delivered ++ take k (outcomes answers entry_event batches)
    pub delivered_first : length (outcomes answers entry_event (take n batches)) ≤ k

  outcomes-append :
      (a b : List (ℤ × List Text))
      → outcomes answers entry_event (a ++ b)
        ≡ outcomes answers entry_event a ++ outcomes answers entry_event b
  unfolding outcomes
  outcomes-append [] b = refl
  outcomes-append ((id, entries) ∷ a) b =
      ap (λ t. map entry_event entries ++ t) (outcomes-append a b)
      ∙ sym (append_assoc (map entry_event entries) _ _)

  -- A turn and what follows it
  Progress-step :
      (batches more : List (ℤ × List Text)) (p : Poll) (next : Poll → Poll) (r : Bool × Poll)
      → Step answers entry_event batches p r
      → ((q : Poll) → Progress more q (next q))
      → Progress (batches ++ more) p (continue next r)
  unfolding outcomes
  Progress-step batches more p next (true, q) (d, a) rest =
      let f = rest q in
      let first = take-append_whole f.n batches more in
      record {
        n = length batches + f.n;
        k = length (outcomes answers entry_event batches) + f.k;
        acknowledged_ids =
            f.acknowledged_ids
            ∙ (ap (λ t. t ++ map (λ b. b.0) (take f.n more)) a
                ∙ (append_assoc (acks p.outgoing.sent) (map (λ b. b.0) batches)
                      (map (λ b. b.0) (take f.n more))
                    ∙ ap (λ t. acks p.outgoing.sent ++ t)
                        (sym (map-append (λ b. b.0) batches (take f.n more))
                          ∙ ap (map (λ b. b.0)) (sym first))));
        in_order =
            f.in_order
            ∙ (ap (λ t. t ++ take f.k (outcomes answers entry_event more)) d
                ∙ (append_assoc p.delivered (outcomes answers entry_event batches)
                      (take f.k (outcomes answers entry_event more))
                    ∙ ap (λ t. p.delivered ++ t)
                        (sym (take-append_whole f.k (outcomes answers entry_event batches) _)
                          ∙ ap (take _) (sym (outcomes-append batches more)))));
        delivered_first =
            let size =
              ap (λ t. length (outcomes answers entry_event t)) first
              ∙ (ap length (outcomes-append batches (take f.n more))
                  ∙ length-append (outcomes answers entry_event batches)
                      (outcomes answers entry_event (take f.n more))) in
            omega (arith, size, f.delivered_first);
      }
  Progress-step batches more p next (false, q) (k, d, a) rest = record {
    n = 0;
    k = min k (length (outcomes answers entry_event batches));
    acknowledged_ids = a ∙ sym (append-nil _);
    in_order =
        d
        ∙ ap (λ t. p.delivered ++ t)
            (sym (take-append_part k (outcomes answers entry_event batches) _)
              ∙ ap (take _) (sym (outcomes-append batches more)));
    delivered_first = omega arith;
  }

  -- Over every run of the task, whatever the server answers and wherever a send fails or the consumer
  -- goes: the consumer has got the outcomes of the entries of the server's batches in order, the first
  -- `k` of them and nothing else, and the task has acknowledged the first `n` batches in order, each
  -- only after all of its entries were delivered.
  pub poll_loop-Progress :
      (c : CanalClient) (responses : List (CanalResult Packet)) (p : Poll)
      → Progress
          (batches_in answers entry_event responses)
          p
          (poll_loop answers entry_event c responses p)
  unfolding poll_loop batches_in get_request acks outcomes
  poll_loop-Progress c [] p =
      let (d, a) =
        sent_ok-Same answers entry_event (p.outgoing.fails_at p.outgoing.attempts) _ p refl in
      record {
        n = 0;
        k = 0;
        acknowledged_ids = a ∙ sym (append-nil _);
        in_order = d ∙ sym (append-nil _);
        delivered_first = omega arith;
      }
  poll_loop-Progress c (response ∷ responses) p =
      Progress-step (batch_in answers entry_event response)
        (batches_in answers entry_event responses) p (poll_loop answers entry_event c responses)
        (turn answers entry_event c response p) (turn-Step answers entry_event c response p)
        (poll_loop-Progress c responses)
