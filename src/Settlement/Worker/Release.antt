-- ===== src/Settlement/Worker/Release.antt =====
-- What a poll leaves on the queue.
use mathlib.Core.List.{append-nil}
use cpfbuddies.Prelude.{
  ◌++◌, ℕ, suc, ◌≡◌, refl, sym, ◌∙◌, ap, List, [], ◌∷◌, All, inl, inr, arith, Bool-cases, length,
  All-imp, subst,
}
use cpfbuddies.Errors.{Result, ok, err}
use cpfbuddies.Settlement.Models.{
  SettlementRequest, SettlementReceipt, SettlementInstruction, instruction_of, QueueMessage,
  settleable, from_request,
}
use cpfbuddies.Settlement.Queue.{receive, take_from}
use cpfbuddies.Settlement.Queue.Fates.{
  IsAwaited, remove-IsAwaited, none_awaited, redelivered, all_redelivered, again, given_up,
  IsReleased, returned, returned-in_flight, returned-again, IsTaken, take_from-IsAwaited,
  take_from-IsTaken,
}
use cpfbuddies.Settlement.Worker.{
  WorkerPorts, WorkerState, call_rail, settle, finish, handle, handle_all, process_once, collected,
  refusal,
}

module _ (ports : WorkerPorts) where
  settle-queue : (q : SettlementRequest) (s : WorkerState) → (settle ports q s).1.queue ≡ s.queue
  unfolding settle call_rail from_request
  settle-queue q s = ground arith

  finish-queue :
      (m : QueueMessage) (answer : Result SettlementReceipt) (s s' : WorkerState)
      (r : SettlementReceipt)
      → finish ports m answer s ≡ (ok r, s')
      → s'.queue ≡ returned r m s.queue
  unfolding finish
  finish-queue m (err e) s s' r h = ground arith
  finish-queue m (ok x) s s' r h = ground arith

  handle-queue :
      (m : QueueMessage) (s s' : WorkerState) (r : SettlementReceipt)
      → handle ports m s ≡ (ok r, s')
      → s'.queue ≡ returned r m s.queue
  unfolding handle
  handle-queue m s s' r h = finish-queue m _ _ s' r h ∙ ap (returned r m) (settle-queue m.request s)

  -- A comprehension that returns had a receipt for each message.
  collected_ok :
      (p : Result SettlementReceipt × WorkerState)
      (q : Result (List SettlementReceipt) × WorkerState) (rs : List SettlementReceipt)
      (s' : WorkerState)
      → collected ports p q ≡ (ok rs, s')
      → (x : SettlementReceipt) × (xs : List SettlementReceipt) × (p ≡ (ok x, p.1))
        × (q ≡ (ok xs, s'))
        × (rs ≡ x ∷ xs)
  collected_ok (err e, s) q rs s' h = ground arith
  collected_ok (ok x, s) (err e, t) rs s' h = ground arith
  collected_ok (ok x, s) (ok xs, t) rs s' h = (x, xs, refl, ground arith, ground arith)

  handle_all-releases :
      (ms : List QueueMessage) (s s' : WorkerState) (rs : List SettlementReceipt)
      → handle_all ports (all_redelivered ms) s ≡ (ok rs, s')
      → All (IsAwaited (all_redelivered ms)) s.queue.in_flight
      → IsReleased ms s.queue.pending rs s.queue s'.queue
  unfolding handle_all
  handle_all-releases [] s s' rs h awaited = record {
    none_in_flight = ground (arith, none_awaited s.queue.in_flight awaited);
    waiting = ap (λ p. p.1.queue.pending) (sym h) ∙ sym (append-nil s.queue.pending);
    dead = ap (λ p. p.1.queue.dead_letter) (sym h) ∙ sym (append-nil s.queue.dead_letter);
    receipts = ground arith;
  }
  handle_all-releases (m ∷ ms) s s' rs h awaited =
      let (x, xs, first, others, split) = collected_ok _ _ rs s' h in
      let t = (handle ports (redelivered m) s).1 in
      let q_eq = handle-queue (redelivered m) s t x first in
      let now_awaited =
        subst (All (IsAwaited (all_redelivered ms)))
          (sym (ap (λ q. q.in_flight) q_eq ∙ returned-in_flight x (redelivered m) s.queue))
          (remove-IsAwaited (redelivered m) (all_redelivered ms) s.queue.in_flight awaited) in
      let rest = handle_all-releases ms t s' xs others now_awaited in
      let (pending, dead, _) = returned-again x m s.queue ms xs in
      rw split (record {
        none_in_flight = rest.none_in_flight;
        waiting = rest.waiting ∙ ap (λ q. q.pending ++ again q.max_receives ms xs) q_eq ∙ pending;
        dead = rest.dead ∙ ap (λ q. q.dead_letter ++ given_up q.max_receives ms xs) q_eq ∙ dead;
        receipts = ap suc rest.receipts;
      })

module _ (ports : WorkerPorts)
    (answers : (n : ℕ) (i : SettlementInstruction)
      → (r : SettlementReceipt) × (ports.rail n i ≡ ok r)) where
  handle-returns :
      (m : QueueMessage) (s : WorkerState)
      → (r : SettlementReceipt) × (s' : WorkerState) × (handle ports m s ≡ (ok r, s'))
  unfolding handle settle call_rail from_request finish
  handle-returns m s = elim (Bool-cases (settleable m.request)) [
    | inl may ↦
        let (r, e) = answers (length s.attempts) (instruction_of m.request) in
        (r, (handle ports m s).1, rw (may, e) refl)
    | inr not ↦ (refusal ports m.request, (handle ports m s).1, rw not refl)
  ]

  handle_all-returns :
      (ms : List QueueMessage) (s : WorkerState)
      → (rs : List SettlementReceipt) × (s' : WorkerState) × (handle_all ports ms s ≡ (ok rs, s'))
  unfolding handle_all
  handle_all-returns [] s = ([], s, refl)
  handle_all-returns (m ∷ ms) s =
      let (r, t, first) = handle-returns m s in
      let (rs, s', others) = handle_all-returns ms t in (r ∷ rs, s', rw (first, others) refl)

  -- If the rail answers every instruction with a receipt and nothing is in flight, a poll of the worker returns a
  -- receipt for each message that it takes: the first that wait, as many as its limit allows. After it nothing is in
  -- flight. Behind the messages that it did not take wait again those whose receipt is an error and that were not yet
  -- delivered as often as the queue allows, each with one delivery more; those that were are dead letters, behind the
  -- ones before; the others have left the queue.
  pub process_once-releases :
      (limit : ℕ) (s : WorkerState)
      → s.queue.in_flight ≡ []
      → (taken left : List QueueMessage) × (rs : List SettlementReceipt) × (s' : WorkerState)
        × (process_once ports limit s ≡ (ok rs, s'))
        × IsTaken limit s.queue.pending taken left
        × IsReleased taken left rs s.queue s'.queue
  unfolding process_once receive
  process_once-releases limit s idle =
      let q = (take_from limit s.queue.pending s.queue).1 in
      let (taken, is_taken, messages, dead, max) =
        take_from-IsTaken limit s.queue.pending s.queue in
      let in_hand : All (IsAwaited (all_redelivered taken)) q.in_flight =
        subst (λ ms. All (IsAwaited ms) q.in_flight) messages
          (All-imp (λ p x. elim x [ inl no_one ↦ absurd no_one | inr y ↦ y ]) _
            (take_from-IsAwaited (λ p. ⊥) limit s.queue.pending s.queue (rw idle tt))) in
      let (rs, s', e) = handle_all-returns (all_redelivered taken) (record s { queue = q }) in
      let done = handle_all-releases ports taken (record s { queue = q }) s' rs e in_hand in
      (
        taken,
        q.pending,
        rs,
        s',
        ap (λ ms. handle_all ports ms (record s { queue = q })) messages ∙ e,
        is_taken,
        record {
          none_in_flight = done.none_in_flight;
          waiting = done.waiting ∙ ap (λ n. q.pending ++ again n taken rs) max;
          dead =
              done.dead
              ∙ ap (λ n. q.dead_letter ++ given_up n taken rs) max
              ∙ ap (λ ds. ds ++ given_up s.queue.max_receives taken rs) dead;
          receipts = done.receipts;
        },
      )
