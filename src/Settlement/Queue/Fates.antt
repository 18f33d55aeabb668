-- ===== src/Settlement/Queue/Fates.antt =====
-- What becomes of the messages that are taken from the queue of src/trustrail/settlement/queue/memory.py.
use mathlib.Core.List.{append_assoc}
use cpfbuddies.Prelude.{
  Bool, false, some, ◌&&◌, ltb, leb, ◌++◌, ◌<◌, ℕ, zero, suc, ◌+◌, String, ◌≡◌, refl, ap, true,
  List, [], ◌∷◌, All, Any, inl, inr, arith, Bool-cases, if◌then◌else◌, length, ◌==◌, eq_iff,
  All-imp, ◌⊎◌,
}
use cpfbuddies.Prelude.Dict
use cpfbuddies.Prelude.Dict.{Dict}
use cpfbuddies.Models.Audit.{error}
use cpfbuddies.Settlement.Models.{SettlementReceipt, QueueMessage, retryable}
use cpfbuddies.Settlement.Queue.{SettlementQueue, take_from, delivered, ack, nack}
use cpfbuddies.Settlement.Queue.Redrive.{All-set}

-- The key is that of a message still to be handled.
abbrev pub IsAwaited : List QueueMessage → String × QueueMessage → Type 0
IsAwaited ms p = Any (λ m. m.message_id ≡ p.0) ms

-- The message as the queue delivers it: its count of deliveries is one more.
abbrev pub redelivered : QueueMessage → QueueMessage
redelivered m = record m { receive_count = m.receive_count + 1; receipt_handle = some m.message_id }

abbrev pub all_redelivered : List QueueMessage → List QueueMessage
all_redelivered [] = []
all_redelivered (m ∷ ms) = redelivered m ∷ all_redelivered ms

-- The settlement of a message ended in an error, which may be tried again.
abbrev pub is_error : SettlementReceipt → Bool
is_error r = elim r.status [ error ↦ true | _ ↦ false ]

-- The messages whose settlement ended in an error, and that have been delivered fewer times than the queue allows
abbrev pub again : ℕ → List QueueMessage → List SettlementReceipt → List QueueMessage
again most [] rs = []
again most (m ∷ ms) [] = []
again most (m ∷ ms) (r ∷ rs) =
    let rest = again most ms rs in
    if is_error r && ltb (m.receive_count + 1) most then redelivered m ∷ rest else rest

-- Those whose settlement ended in an error, and that have been delivered as often as the queue allows
abbrev pub given_up : ℕ → List QueueMessage → List SettlementReceipt → List QueueMessage
given_up most [] rs = []
given_up most (m ∷ ms) [] = []
given_up most (m ∷ ms) (r ∷ rs) =
    let rest = given_up most ms rs in
    if is_error r && leb most (m.receive_count + 1) then redelivered m ∷ rest else rest

-- What was taken with these receipts has left the queue, waits behind the others, or is a dead letter.
pub record IsReleased (taken left : List QueueMessage) (rs : List SettlementReceipt)
    (before after : SettlementQueue) : Type 0 where
  pub none_in_flight : after.in_flight ≡ []
  pub waiting : after.pending ≡ left ++ again before.max_receives taken rs
  pub dead : after.dead_letter ≡ before.dead_letter ++ given_up before.max_receives taken rs
  pub receipts : length rs ≡ length taken

pub remove-IsAwaited :
    (m : QueueMessage) (ms : List QueueMessage) (d : Dict QueueMessage)
    → All (IsAwaited (m ∷ ms)) d
    → All (IsAwaited ms) (Dict.remove m.message_id d)
unfolding Dict.remove
remove-IsAwaited m ms [] h = tt
remove-IsAwaited m ms ((j, v) ∷ d) (inl e, h) =
    let same : (j == m.message_id) ≡ true = ground (arith, eq_iff j m.message_id) in
    rw same (remove-IsAwaited m ms d h)
remove-IsAwaited m ms ((j, v) ∷ d) (inr x, h) = elim (Bool-cases (j == m.message_id)) [
  | inl same ↦ rw same (remove-IsAwaited m ms d h)
  | inr other ↦ rw other (x, remove-IsAwaited m ms d h)
]

pub none_awaited : (d : Dict QueueMessage) → All (IsAwaited []) d → d ≡ []
none_awaited [] h = refl
none_awaited (p ∷ d) (x, h) = elim x [ ]

-- A message in hand is given back or done with: it is no longer in flight.
abbrev pub returned : SettlementReceipt → QueueMessage → SettlementQueue → SettlementQueue
returned r m q = if retryable r.status then nack m q else ack m q

pub returned-in_flight :
    (r : SettlementReceipt) (m : QueueMessage) (q : SettlementQueue)
    → (returned r m q).in_flight ≡ Dict.remove m.message_id q.in_flight
unfolding ack nack
returned-in_flight r m q = ground arith

-- One message with its receipt, and then those behind it
pub returned-again :
    (r : SettlementReceipt) (m : QueueMessage) (q : SettlementQueue) (ms : List QueueMessage)
    (rs : List SettlementReceipt)
    → ((returned r (redelivered m) q).pending
          ++ again (returned r (redelivered m) q).max_receives ms rs
        ≡ q.pending ++ again q.max_receives (m ∷ ms) (r ∷ rs))
      × ((returned r (redelivered m) q).dead_letter
            ++ given_up (returned r (redelivered m) q).max_receives ms rs
          ≡ q.dead_letter ++ given_up q.max_receives (m ∷ ms) (r ∷ rs))
      × ((returned r (redelivered m) q).max_receives ≡ q.max_receives)
unfolding ack nack
returned-again r m q ms rs =
    let max = q.max_receives in
    let pending = append_assoc q.pending (redelivered m ∷ []) (again max ms rs) in
    let dead = append_assoc q.dead_letter (redelivered m ∷ []) (given_up max ms rs) in
    (ground (arith, pending), ground (arith, dead), ground arith)

-- What is taken is in flight, besides what was.
pub take_from-IsAwaited :
    (A : String × QueueMessage → Type 0) (limit : ℕ) (waiting : List QueueMessage)
    (q : SettlementQueue)
    → All A q.in_flight
    → All
        (λ p. A p ⊎ IsAwaited (take_from limit waiting q).0 p)
        (take_from limit waiting q).1.in_flight
take_from-IsAwaited A zero waiting q h = All-imp (λ p x. inl x) q.in_flight h
take_from-IsAwaited A (suc limit) [] q h = All-imp (λ p x. inl x) q.in_flight h
take_from-IsAwaited A (suc limit) (m ∷ waiting) q h =
    All-imp (λ p x. reassociate x) _
      (take_from-IsAwaited (λ p. A p ⊎ (m.message_id ≡ p.0)) limit waiting _
        (All-set _ m.message_id (delivered m) q.in_flight (inr refl)
          (All-imp (λ p x. inl x) q.in_flight h)))
  where
    reassociate : {X Y Z : Type 0} → (X ⊎ Y) ⊎ Z → X ⊎ (Y ⊎ Z)
    reassociate (inl (inl x)) = inl x
    reassociate (inl (inr y)) = inr (inl y)
    reassociate (inr z) = inr (inr z)

-- The messages that are taken are the first that wait, as many as the limit allows.
pub record IsTaken (limit : ℕ) (waiting taken left : List QueueMessage) : Type 0 where
  pub first : waiting ≡ taken ++ left
  pub enough : (length taken ≡ limit) ⊎ ((length taken < limit) × (left ≡ []))

pub take_from-IsTaken :
    (limit : ℕ) (waiting : List QueueMessage) (q : SettlementQueue)
    → (taken : List QueueMessage) × IsTaken limit waiting taken
        (take_from limit waiting q).1.pending
      × ((take_from limit waiting q).0 ≡ all_redelivered taken)
      × ((take_from limit waiting q).1.dead_letter ≡ q.dead_letter)
      × ((take_from limit waiting q).1.max_receives ≡ q.max_receives)
take_from-IsTaken zero waiting q =
    ([], record { first = refl; enough = inl refl }, refl, refl, refl)
take_from-IsTaken (suc limit) [] q =
    ([], record { first = refl; enough = inr (omega arith, refl) }, refl, refl, refl)
take_from-IsTaken (suc limit) (m ∷ waiting) q =
    let (taken, t, e, dead, max) = take_from-IsTaken limit waiting _ in
    (
      m ∷ taken,
      record {
        first = ap (λ ms. m ∷ ms) t.first;
        enough = elim t.enough [
          | inl all ↦ inl (omega (arith, all))
          | inr (fewer, empty) ↦ inr (omega (arith, fewer), empty)
        ];
      },
      ap (λ ms. redelivered m ∷ ms) e,
      dead,
      max,
    )
