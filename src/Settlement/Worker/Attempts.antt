-- ===== src/Settlement/Worker/Attempts.antt =====
-- What the worker hands to the rail.
use cpfbuddies.Prelude.{
  ℕ, zero, suc, ◌≡◌, refl, sym, ◌∙◌, ap, true, List, [], ◌∷◌, ◌++◌, All, All-append, Any, inl, inr,
  arith, Bool-cases,
}
use mathlib.Core.List.{append-nil, append_assoc}
use cpfbuddies.Errors.{Result, ok, err}
use cpfbuddies.Settlement.Models.{
  SettlementInstruction, SettlementReceipt, QueueMessage, settleable, instruction_of, from_request,
}
use cpfbuddies.Settlement.Queue.{SettlementQueue, receive, take_from}
use cpfbuddies.Settlement.Worker.{
  WorkerPorts, WorkerState, call_rail, settle, finish, handle, handle_all, process_once, collected,
}

-- The instruction is that of a settleable request among the messages.
abbrev pub IsOwed : List QueueMessage → SettlementInstruction → Type 0
IsOwed ms i = Any (λ m. (settleable m.request ≡ true) × (i ≡ instruction_of m.request)) ms

-- The rail was handed nothing, or what the messages owe.
abbrev pub Attempted : List QueueMessage → WorkerState → WorkerState → Type 0
Attempted ms s s' =
    (more : List SettlementInstruction) × (s'.attempts ≡ s.attempts ++ more) × All (IsOwed ms) more

module _ (ports : WorkerPorts) where
  settle-attempts :
      (m : QueueMessage) (s : WorkerState) → Attempted (m ∷ []) s (settle ports m.request s).1
  unfolding settle call_rail from_request
  settle-attempts m s = elim (Bool-cases (settleable m.request)) [
    | inl may ↦ (instruction_of m.request ∷ [], ground arith, (inl (may, refl), tt))
    | inr not ↦ ([], ground (arith, append-nil s.attempts), tt)
  ]

  handle-attempts : (m : QueueMessage) (s : WorkerState) → Attempted (m ∷ []) s (handle ports m s).1
  unfolding handle finish
  handle-attempts m s = let (more, e, h) = settle-attempts m s in (more, ground (arith, e), h)

  widen_right :
      (m : QueueMessage) (ms : List QueueMessage) (is : List SettlementInstruction)
      → All (IsOwed ms) is
      → All (IsOwed (m ∷ ms)) is
  widen_right m ms [] h = tt
  widen_right m ms (i ∷ is) h = (inr h.0, widen_right m ms is h.1)

  widen_left :
      (m : QueueMessage) (ms : List QueueMessage) (is : List SettlementInstruction)
      → All (IsOwed (m ∷ [])) is
      → All (IsOwed (m ∷ ms)) is
  widen_left m ms [] h = tt
  widen_left m ms (i ∷ is) (inl p, h) = (inl p, widen_left m ms is h)
  widen_left m ms (i ∷ is) (inr x, h) = elim x [ ]

  collected-attempts :
      (m : QueueMessage) (ms : List QueueMessage) (s : WorkerState)
      (first : Result SettlementReceipt × WorkerState)
      (rest : Result (List SettlementReceipt) × WorkerState)
      → Attempted (m ∷ []) s first.1
      → Attempted ms first.1 rest.1
      → Attempted (m ∷ ms) s (collected ports first rest).1
  collected-attempts m ms s (err x, t) rest (is, e, h) k = (is, e, widen_left m ms is h)
  collected-attempts m ms s (ok x, t) (err y, u) (is, e, h) (js, e', h') = (
    is ++ js,
    e' ∙ ap (λ l. l ++ js) e ∙ append_assoc s.attempts is js,
    All-append _ is js (widen_left m ms is h) (widen_right m ms js h'),
  )
  collected-attempts m ms s (ok x, t) (ok y, u) (is, e, h) (js, e', h') = (
    is ++ js,
    e' ∙ ap (λ l. l ++ js) e ∙ append_assoc s.attempts is js,
    All-append _ is js (widen_left m ms is h) (widen_right m ms js h'),
  )

  handle_all-attempts :
      (ms : List QueueMessage) (s : WorkerState) → Attempted ms s (handle_all ports ms s).1
  unfolding handle_all
  handle_all-attempts [] s = ([], sym (append-nil s.attempts), tt)
  handle_all-attempts (m ∷ ms) s =
      collected-attempts m ms s (handle ports m s) _ (handle-attempts m s)
        (handle_all-attempts ms (handle ports m s).1)

  -- What is delivered was pending.
  delivered-IsOwed :
      (limit : ℕ) (waiting : List QueueMessage) (q : SettlementQueue) (i : SettlementInstruction)
      → IsOwed (take_from limit waiting q).0 i
      → IsOwed waiting i
  delivered-IsOwed zero waiting q i x = elim x [ ]
  delivered-IsOwed (suc limit) [] q i x = elim x [ ]
  delivered-IsOwed (suc limit) (m ∷ waiting) q i (inl p) = inl p
  delivered-IsOwed (suc limit) (m ∷ waiting) q i (inr p) =
      inr (delivered-IsOwed limit waiting _ i p)

  delivered-All-IsOwed :
      (limit : ℕ) (waiting : List QueueMessage) (q : SettlementQueue)
      (is : List SettlementInstruction)
      → All (IsOwed (take_from limit waiting q).0) is
      → All (IsOwed waiting) is
  delivered-All-IsOwed limit waiting q [] h = tt
  delivered-All-IsOwed limit waiting q (i ∷ is) h =
      (delivered-IsOwed limit waiting q i h.0, delivered-All-IsOwed limit waiting q is h.1)

  -- Every instruction that a poll of the worker hands to the rail is that of a request which was pending
  -- on the queue and is settleable, whether the poll returns or raises.
  pub process_once-attempts :
      (limit : ℕ) (s : WorkerState) → Attempted s.queue.pending s (process_once ports limit s).1
  unfolding process_once receive
  process_once-attempts limit s =
      let (is, e, h) = handle_all-attempts _ _ in
      (is, e, delivered-All-IsOwed limit s.queue.pending s.queue is h)
