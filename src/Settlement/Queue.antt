-- ===== src/Settlement/Queue.antt =====
-- `InMemorySettlementQueue` of src/trustrail/settlement/queue/memory.py
pub mod Redrive
pub mod Fates
use cpfbuddies.Prelude.{
  ℕ, zero, suc, ◌+◌, String, ◌<>◌, none, some, List, [], ◌∷◌, ◌++◌, leb, if◌then◌else◌,
}
use cpfbuddies.Prelude.Text.{decimal}
use cpfbuddies.Prelude.Dict
use cpfbuddies.Prelude.Dict.{Dict}
use cpfbuddies.Settlement.Models.{SettlementRequest, QueueMessage}

abbrev pub default_max_receives : ℕ
default_max_receives = 3

-- `next_id` is what `itertools.count(1)` gives next.
pub record SettlementQueue : Type 0 where
  pub pending : List QueueMessage
  pub in_flight : Dict QueueMessage
  pub dead_letter : List QueueMessage
  pub next_id : ℕ
  pub max_receives : ℕ

abbrev pub new_queue : ℕ → SettlementQueue
new_queue max_receives = record {
  pending = [];
  in_flight = [];
  dead_letter = [];
  next_id = 1;
  max_receives = max_receives;
}

unfoldable pub publish : SettlementRequest → SettlementQueue → String × SettlementQueue
publish request q =
    let message : QueueMessage = record {
      message_id = "msg_" <> decimal q.next_id;
      request = request;
      receive_count = 0;
      receipt_handle = none;
    } in
    (
      message.message_id,
      record q { pending = q.pending ++ (message ∷ []); next_id = q.next_id + 1 },
    )

-- The message as it is delivered
abbrev pub delivered : QueueMessage → QueueMessage
delivered m = record m { receive_count = m.receive_count + 1; receipt_handle = some m.message_id }

-- The loop of `receive`, which ends at the limit or when nothing is pending
abbrev pub take_from : ℕ → List QueueMessage → SettlementQueue → List QueueMessage × SettlementQueue
take_from zero waiting q = ([], record q { pending = waiting })
take_from (suc limit) [] q = ([], record q { pending = [] })
take_from (suc limit) (m ∷ waiting) q =
    let rest =
      take_from limit waiting
        (record q { in_flight = Dict.set m.message_id (delivered m) q.in_flight }) in
    (delivered m ∷ rest.0, rest.1)

unfoldable pub receive : ℕ → SettlementQueue → List QueueMessage × SettlementQueue
receive limit q = take_from limit q.pending q

unfoldable pub ack : QueueMessage → SettlementQueue → SettlementQueue
ack m q = record q { in_flight = Dict.remove m.message_id q.in_flight }

unfoldable pub nack : QueueMessage → SettlementQueue → SettlementQueue
nack m q =
    let q' = record q { in_flight = Dict.remove m.message_id q.in_flight } in
    if leb q.max_receives m.receive_count
    then record q' { dead_letter = q.dead_letter ++ (m ∷ []) }
    else record q' { pending = q.pending ++ (m ∷ []) }
