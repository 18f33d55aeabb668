-- ===== src/Settlement/Queue/Redrive.antt =====
-- The redrive policy: how often a message is delivered, and when it is given up.
use cpfbuddies.Prelude.{
  ℕ, zero, suc, ◌≤◌, ◌<◌, ◌≡◌, String, refl, some, List, [], ◌∷◌, leb, All, All-append, arith, ◌==◌,
  Bool-cases, inl, inr, subst,
}
use cpfbuddies.Prelude.Dict
use cpfbuddies.Prelude.Dict.{Dict}
use cpfbuddies.Settlement.Models.{SettlementRequest, QueueMessage}
use cpfbuddies.Settlement.Queue.{
  SettlementQueue, publish, receive, ack, nack, take_from, delivered, new_queue,
}

-- What a client of the queue does; it returns only messages that it holds.
pub data Step : SettlementQueue → SettlementQueue → Type 0 where
  publishes : (r : SettlementRequest) (q : SettlementQueue) → Step q (publish r q).1
  receives : (limit : ℕ) (q : SettlementQueue) → Step q (receive limit q).1
  acks : (m : QueueMessage) (q : SettlementQueue) → Step q (ack m q)
  nacks :
      (m : QueueMessage) (q : SettlementQueue)
      → Dict.get m.message_id q.in_flight ≡ some m
      → Step q (nack m q)

-- Any number of steps.
pub data Steps : SettlementQueue → SettlementQueue → Type 0 where
  done : (q : SettlementQueue) → Steps q q
  next : (a b c : SettlementQueue) → Step a b → Steps b c → Steps a c

-- What waits may be delivered again, what is held was delivered at most as often as allowed, and what
-- was given up was delivered exactly that often.
pub record IsBounded (max : ℕ) (q : SettlementQueue) : Type 0 where
  pub same_max : q.max_receives ≡ max
  pub waiting : All (λ m. m.receive_count < max) q.pending
  pub held : All (λ p. (1 ≤ p.1.receive_count) × (p.1.receive_count ≤ max)) q.in_flight
  pub given_up : All (λ m. m.receive_count ≡ max) q.dead_letter

module _ {V : Type 0} (P : String × V → Type 0) where
  pub All-set : (k : String) (v : V) (d : Dict V) → P (k, v) → All P d → All P (Dict.set k v d)
  unfolding Dict.set
  All-set k v [] p h = (p, h)
  All-set k v ((j, w) ∷ d) p h = elim (Bool-cases (j == k)) [
    | inl e ↦ rw e (p, h.1)
    | inr e ↦ rw e (h.0, All-set k v d p h.1)
  ]

  All-remove : (k : String) (d : Dict V) → All P d → All P (Dict.remove k d)
  unfolding Dict.remove
  All-remove k [] h = h
  All-remove k ((j, w) ∷ d) h = elim (Bool-cases (j == k)) [
    | inl e ↦ rw e (All-remove k d h.1)
    | inr e ↦ rw e (h.0, All-remove k d h.1)
  ]

  All-get :
      {Q : V → Type 0}
      → ((k : String) (v : V) → P (k, v) → Q v)
      → (k : String) (v : V) (d : Dict V) → All P d
      → Dict.get k d ≡ some v
      → Q v
  unfolding Dict.get
  All-get f k v [] h e = ground arith
  All-get {Q} f k v ((j, w) ∷ d) h e = elim (Bool-cases (j == k)) [
    | inl same ↦ let is_it : w ≡ v = ground arith in subst Q is_it (f j w h.0)
    | inr other ↦ All-get f k v d h.1 (ground arith)
  ]

-- The bounds of a message that is held.
abbrev IsHeldWithin : ℕ → String × QueueMessage → Type 0
IsHeldWithin max p = (1 ≤ p.1.receive_count) × (p.1.receive_count ≤ max)

module _ (max : ℕ) where
  take_from-IsBounded :
      (limit : ℕ) (waiting : List QueueMessage) (q : SettlementQueue)
      → All (λ m. m.receive_count < max) waiting
      → IsBounded max q
      → IsBounded max (take_from limit waiting q).1
  take_from-IsBounded zero waiting q h b = record {
    same_max = b.same_max;
    waiting = h;
    held = b.held;
    given_up = b.given_up;
  }
  take_from-IsBounded (suc limit) [] q h b = record {
    same_max = b.same_max;
    waiting = tt;
    held = b.held;
    given_up = b.given_up;
  }
  take_from-IsBounded (suc limit) (m ∷ waiting) q h b =
      take_from-IsBounded limit waiting _ h.1 (record {
        same_max = b.same_max;
        waiting = b.waiting;
        held =
            All-set (IsHeldWithin max) m.message_id (delivered m) q.in_flight
              (omega arith, omega (arith, h.0)) b.held;
        given_up = b.given_up;
      })

  nack-IsBounded :
      (m : QueueMessage) (q : SettlementQueue)
      → Dict.get m.message_id q.in_flight ≡ some m
      → IsBounded max q
      → IsBounded max (nack m q)
  unfolding nack
  nack-IsBounded m q found b =
      let (_, at_most) =
        All-get (IsHeldWithin max) {Q = λ x. (1 ≤ x.receive_count) × (x.receive_count ≤ max)}
          (λ k v h. h) m.message_id m q.in_flight b.held found in
      let kept = All-remove (IsHeldWithin max) m.message_id q.in_flight b.held in
      elim (Bool-cases (leb q.max_receives m.receive_count)) [
        | inl spent ↦ rw spent (record {
          same_max = b.same_max;
          waiting = b.waiting;
          held = kept;
          given_up =
              All-append _ q.dead_letter (m ∷ []) b.given_up (ground (arith, b.same_max), tt);
        })
        | inr more ↦ rw more (record {
          same_max = b.same_max;
          waiting = All-append _ q.pending (m ∷ []) b.waiting (ground (arith, b.same_max), tt);
          held = kept;
          given_up = b.given_up;
        })
      ]

  module _ (positive : 1 ≤ max) where
    Step-IsBounded : (q q' : SettlementQueue) → Step q q' → IsBounded max q → IsBounded max q'
    unfolding publish receive ack
    Step-IsBounded _ _ (publishes r q) b = record {
      same_max = b.same_max;
      waiting = All-append _ q.pending _ b.waiting (positive, tt);
      held = b.held;
      given_up = b.given_up;
    }
    Step-IsBounded _ _ (receives limit q) b = take_from-IsBounded limit q.pending q b.waiting b
    Step-IsBounded _ _ (acks m q) b = record {
      same_max = b.same_max;
      waiting = b.waiting;
      held = All-remove (IsHeldWithin max) m.message_id q.in_flight b.held;
      given_up = b.given_up;
    }
    Step-IsBounded _ _ (nacks m q found) b = nack-IsBounded m q found b

    Steps-IsBounded : (q q' : SettlementQueue) → Steps q q' → IsBounded max q → IsBounded max q'
    Steps-IsBounded _ _ (done q) b = b
    Steps-IsBounded _ _ (next a m c s rest) b = Steps-IsBounded m c rest (Step-IsBounded a m s b)

    -- In every queue that its clients can reach from an empty one whose redrive limit is at least 1, no
    -- message has been delivered more often than the limit, one that waits may be delivered again, and
    -- the dead letters are those delivered exactly that often.
    pub reachable-IsBounded : (q : SettlementQueue) → Steps (new_queue max) q → IsBounded max q
    reachable-IsBounded q steps =
        Steps-IsBounded _ q steps
          (record { same_max = refl; waiting = tt; held = tt; given_up = tt })
