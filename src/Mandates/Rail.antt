-- ===== src/Mandates/Rail.antt =====
-- The state that the Mandate Service works on, and what it calls outside this repository.
-- A call is an action: it may raise, and what it wrote before that stays written.
use cpfbuddies.Prelude.{ℕ, ◌+◌, String, Option, List, ◌∷◌, ◌++◌, []}
use cpfbuddies.Errors.{Result, ok, err}
unfoldable pub use cpfbuddies.Errors.{◌>>=◌, ◌>>◌, pure, raise}
use cpfbuddies.Models.Mandate.{Timestamp}
use cpfbuddies.Models.Audit.{AuditEntry}
use cpfbuddies.Models.Config.{Domain}
use cpfbuddies.Signing.Libraries.{Libraries}
use cpfbuddies.Stores.Mandates.{MandateStore}
use cpfbuddies.Stores.KillSwitch.{KillSwitchStore}

-- What was asked of the ledger, through the port `MandateRegistrar` (src/trustrail/ports.py).
pub data RegistrarCall : Type 0 where
  register : String → String → String → ℕ → Timestamp → String → RegistrarCall
  revoke : String → RegistrarCall

-- The ports that the service is built with. The n-th reading of the clock, the n-th random identifier and
-- the ledger's answer to the n-th call are those of the environment.
pub record Ports : Type 0 where
  pub lib : Libraries
  pub domain : Domain
  pub signer_address : String
  pub sign : List ℕ → String
  pub time : ℕ → Timestamp
  pub random : ℕ → String
  pub registrar : Option (ℕ → RegistrarCall → Result (Option String))

pub record Rail : Type 0 where
  pub store : MandateStore
  pub kill_switch : KillSwitchStore
  pub audit : List AuditEntry
  pub chain_calls : List RegistrarCall
  pub reads : ℕ
  pub draws : ℕ

abbrev pub Action : Type 0 → Type 0
Action A = Rail → Result A × Rail

-- `self._clock.now()`
unfoldable pub now : Ports → Action Timestamp
now ports s = (ok (ports.time s.reads), record s { reads = s.reads + 1 })

-- `new_hex32()`
unfoldable pub new_hex32 : Ports → Action String
new_hex32 ports s = (ok (ports.random s.draws), record s { draws = s.draws + 1 })

-- A write to the kill switch.
unfoldable pub write_switch : (KillSwitchStore → KillSwitchStore) → Action (Unit {0})
write_switch f s = (ok tt, record s { kill_switch = f s.kill_switch })

-- A write to the mandate store, which raises and writes nothing, or writes.
abbrev pub stored : Result MandateStore → Rail → Result (Unit {0}) × Rail
stored (ok store) s = (ok tt, record s { store = store })
stored (err e) s = (err e, s)

unfoldable pub write_store : (MandateStore → Result MandateStore) → Action (Unit {0})
write_store f s = stored (f s.store) s

-- `self._audit.record(entry)`
unfoldable pub record_entry : AuditEntry → Action (Unit {0})
record_entry entry s = (ok tt, record s { audit = s.audit ++ (entry ∷ []) })

-- How many calls the ledger has had.
abbrev count_calls : List RegistrarCall → ℕ
count_calls [] = 0
count_calls (c ∷ cs) = count_calls cs + 1

unfoldable pub call_registrar :
    (ℕ → RegistrarCall → Result (Option String)) → RegistrarCall → Action (Option String)
call_registrar answer call s = (
  answer (count_calls s.chain_calls) call,
  record s { chain_calls = s.chain_calls ++ (call ∷ []) },
)
