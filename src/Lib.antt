-- ===== src/Lib.antt =====
-- TrustRail: payments by shopping agents under a signed, capped, one-time mandate. A model of the Python
-- services of src/trustrail and of the marketplace of backend, with the theorems that make them correct.
--
-- How the parts interact. The Purchase Orchestrator mints a mandate at the Mandate Service, lets the agents
-- shop, makes a charge of what they found, gathers what the Verifier needs, and acts on its verdict: PASS
-- goes to the settlement queue, REVIEW is held for a human, FAIL stops. An approval binds the mandate to
-- the registered merchant and the basket, asks the Verifier again and queues the REVIEW with the approval.
-- The Settlement Worker takes requests from the queue and hands an instruction to the configured rail: the
-- onchain rail spends through the contract MandateRegistry, the card rail buys a card with a signed
-- authorisation. A merchant's 402 is answered by the x402 client; the demo marketplace is such a merchant.
--
-- Where each part is modelled.
--   Prelude       shared names, and Python's dict, str.lower, bytes.fromhex and str(int)
--   Errors        src/trustrail/errors.py, and calls that may raise: what was written before stays written
--   Models        src/trustrail/models: a record for each model, a Boolean test for each validator. A
--                 time is a number of microseconds, a price is the text that the model keeps. Amounts
--                 writes minor units as such a text; Money/RoundTrip proves that they are read back.
--   Signing       src/trustrail/signing/eip712.py, eip3009.py, crypto.py, evidence.py and kms.py. The record
--                 Libraries holds what the repository takes from packages: keccak, recovery of a public key,
--                 JSON. Kms starts from the bytes that KMS answers with; Kms/Packed and Kms/Signs are its proofs.
--   Stores        src/trustrail/stores/memory.py (Mandates, KillSwitch, Directories, Holds) and
--                 src/trustrail/orchestrator/onboarding.py. A method holds its lock for its whole body, so it
--                 is one step.
--                 Dynamo (Mandates, Control, Audit, Holds) is src/trustrail/stores/dynamo.py over tables that
--                 are parameters: Table/IsTable says what DynamoDB documents of conditional writes, of
--                 transactions and of reads that see the writes before them. Mandates/Calls runs calls on the
--                 two stores of mandates, Mandates/Represents relates them, Mandates/Creation and
--                 Mandates/Refines hold the proofs, Audit/Entries those of the audit log.
--   Verifier      src/trustrail/verifier: Checks holds a function for each check of checks.py, Service the
--                 pipeline of service.py; Authority says what authorises a charge; Facts, Decision, Trace and
--                 Verdicts hold the proofs.
--   Mandates      src/trustrail/mandate/service.py: Rail is the state and the ports (clock, random
--                 identifiers, signer, ledger), Service the operations; Lifecycle, Runs, OneTime and Stored
--                 hold the proofs. Operations that are split where a second caller can come between (bind_record,
--                 move_record) take the record that was read.
--   Settlement    src/trustrail/settlement/models.py, queue/memory.py and worker.py: Models, Queue, Worker,
--                 with proofs in Queue/Redrive, Queue/Fates, Worker/Attempts and Worker/Release. The rail is a parameter
--                 that answers an instruction with a receipt or raises.
--                 Chain (Node, Transactions, Reverts, Registry, Registrar, Explorer) is the client of
--                 src/trustrail/settlement/chain, over a node that is a parameter: the n-th question to it is
--                 answered by the environment, and what is broadcast is kept in order. Rails/Onchain and
--                 Rails/Card are src/trustrail/settlement/rails; the card API is a parameter. Proofs are in
--                 Chain/Registry/Broadcasts, Rails/Onchain/Settles, Rails/Card/Signed and Receipts.
--   X402          src/trustrail/x402: PublicSpec, Terms and Client, with proofs in Client/Payments. HTTP, JSON
--                 and the callable that pays are parameters.
--   Marketplace   backend/app/marketplace and backend/app/contracts.py: Contracts, Catalog, Repository and
--                 Service, with proofs in Service/Receipts, Service/Terms, Catalog/Matches and
--                 Repository/Expiry. The hash of a basket is a parameter.
--   Agents        backend/app/agents/evaluator.py: Patterns has the regular expressions and their matching,
--                 Evaluator the rules and the merge with a model, which is a parameter; Evaluator/Scores has
--                 the proofs. Evidence is backend/app/evidence.py, which hands the findings to the Verifier,
--                 and Browser is backend/app/agents/browser.py, where the answers of the merchants are
--                 parameters: Browser/Offers says what may be chosen, Browser/Every
--                 quantifies over that, Browser/Choice says what is. Bedrock is
--                 backend/app/agents/bedrock.py, from the response of Bedrock on, with Bedrock/Signals for what
--                 the evaluator makes of it. Adapter is backend/app/agents/rail_adapter.py, the two agents behind the port of the orchestrator, and
--                 Adapter/Bound follows what they found to the verdict.
--   Audit         src/trustrail/audit/api.py, the feed of the audit trail: a snapshot, and a stream as the rounds
--                 of its loop, each of which reads the whole log. Positions, Slices and Stream are the proofs.
--   Routes        src/trustrail/mandate/api.py, verifier/api.py and the error handler of src/trustrail/app.py,
--                 for requests whose fields were accepted; Once has the proof. Purchases is
--                 src/trustrail/orchestrator/api.py.
--   Orchestrator  src/trustrail/orchestrator/purchase.py: Office is the state, Purchase the operations. Quiet and
--                 Holding say which of them leave the queue and the holds alone, Origins and Gathered where a
--                 charge and the facts of its verification come from; Queueing, Judged, Answers, Later and
--                 Suspension hold the proofs. The shopping agents are a parameter.
--   Samples       data of the tests and the witnesses
--
-- Bounds. Two operations run on fuel: str(int), which has one unit for each digit and one to spare, and the
-- scan of the audit log, for which the number of pages is enough. Every other loop goes over a list or down
-- from the limit it is given.
--
-- Not modelled: amounts in other texts than digits and a point, the prose of details and summaries, the
-- settings and deployment files, the routes of the registry, the SQS queue and the schema of the tables, the
-- encodings of proofs and authorisations in headers, the HTTP clients and the rail of backend, the Solidity
-- contract and the frontend. Texts that are searched or lowered are ASCII. The product of a gas estimate with 1.25 is the
-- exact one, which the float is below 2 ^ 50. Payment on the ledger, signatures and hashing are the business
-- of others, and no theorem says anything of their strength.
pub mod Prelude
pub mod Errors
pub mod Models
pub mod Signing
pub mod Stores
pub mod Verifier
pub mod Mandates
pub mod Settlement
pub mod Orchestrator
pub mod X402
pub mod Marketplace
pub mod Agents
pub mod Audit
pub mod Routes
pub mod Samples
