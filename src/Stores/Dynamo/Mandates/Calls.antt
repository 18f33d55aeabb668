-- ===== src/Stores/Dynamo/Mandates/Calls.antt =====
-- A sequence of calls of a store of mandates, and what the two stores answer to it.
use cpfbuddies.Prelude.{String, Option, List, [], ◌∷◌}
use cpfbuddies.Errors.{Result, ok, err}
use cpfbuddies.Models.Mandate.{Timestamp, MandateRecord, MandateStatus}
use cpfbuddies.Stores.Mandates as Memory
use cpfbuddies.Stores.Mandates.{MandateStore}
use cpfbuddies.Stores.Dynamo.Table.{Table}
use cpfbuddies.Stores.Dynamo.Mandates as Dynamo
use cpfbuddies.Stores.Dynamo.Mandates.{Json}

-- What one method answers, as one type
pub data Reply : Type 0 where
  written : Result (Unit {0}) → Reply
  read : Result (Option MandateRecord) → Reply
  owned : Result (Option String) → Reply

pub data Call : Type 0 where
  save_new : MandateRecord → Call
  replace : MandateRecord → MandateStatus → Call
  get : String → Call
  nonce_owner : String → Call

-- A write in memory: an error writes nothing.
abbrev pub stored : Result MandateStore → MandateStore → Result (Unit {0}) × MandateStore
stored (ok m') m = (ok tt, m')
stored (err e) m = (err e, m)

-- The replies of the store in memory, to calls in the order in which they take effect
abbrev pub after_memory :
    (MandateStore → List Reply) → Result (Unit {0}) × MandateStore → List Reply
after_memory rest p = written p.0 ∷ rest p.1

unfoldable pub in_memory : List Call → MandateStore → List Reply
in_memory [] m = []
in_memory (Call.save_new r ∷ calls) m =
    after_memory (in_memory calls) (stored (Memory.save_new r m) m)
in_memory (Call.replace r e ∷ calls) m =
    after_memory (in_memory calls) (stored (Memory.replace r e m) m)
in_memory (Call.get i ∷ calls) m = read (ok (Memory.get i m)) ∷ in_memory calls m
in_memory (Call.nonce_owner n ∷ calls) m = owned (ok (Memory.nonce_owner n m)) ∷ in_memory calls m

module _ {S : Type 0} (t : Table S) (json : Json MandateRecord)
    (isoformat : Timestamp → String) where
  -- And of the one over a table
  abbrev pub after_dynamo : (S → List Reply) → Result (Unit {0}) × S → List Reply
  after_dynamo rest p = written p.0 ∷ rest p.1

  unfoldable pub in_dynamo : List Call → S → List Reply
  in_dynamo [] s = []
  in_dynamo (Call.save_new r ∷ calls) s =
      after_dynamo (in_dynamo calls) (Dynamo.save_new t json isoformat r s)
  in_dynamo (Call.replace r e ∷ calls) s =
      after_dynamo (in_dynamo calls) (Dynamo.replace t json isoformat r e s)
  in_dynamo (Call.get i ∷ calls) s = read (Dynamo.get t json isoformat i s) ∷ in_dynamo calls s
  in_dynamo (Call.nonce_owner n ∷ calls) s =
      owned (Dynamo.nonce_owner t json isoformat n s) ∷ in_dynamo calls s
