-- ===== src/Stores/Directories.antt =====
-- `InMemoryMerchantDirectory`, `InMemoryAgentDirectory`, and src/trustrail/orchestrator/onboarding.py,
-- which writes to them.
use cpfbuddies.Prelude.{String, true, false, Option, none, some, List, [], ◌∷◌}
use cpfbuddies.Prelude.Dict
use cpfbuddies.Prelude.Dict.{Dict, get-set}
use cpfbuddies.Models.Registry.{MerchantRecord, AgentRecord, AgentRole, evaluator}

abbrev pub MerchantDirectory : Type 0
MerchantDirectory = Dict MerchantRecord

abbrev pub AgentDirectory : Type 0
AgentDirectory = Dict AgentRecord

unfoldable pub get_merchant : String → MerchantDirectory → Option MerchantRecord
get_merchant merchant_id d = Dict.get merchant_id d

unfoldable pub put_merchant : MerchantRecord → MerchantDirectory → MerchantDirectory
put_merchant r d = Dict.set r.merchant_id r d

unfoldable pub get_agent : String → AgentDirectory → Option AgentRecord
get_agent agent_id d = Dict.get agent_id d

unfoldable pub put_agent : AgentRecord → AgentDirectory → AgentDirectory
put_agent r d = Dict.set r.agent_id r d

-- `OnboardingOrchestrator.register_merchant`
unfoldable pub register_merchant :
    String → String → String → MerchantDirectory → MerchantRecord × MerchantDirectory
register_merchant merchant_id name payout_address d =
    let r : MerchantRecord = record {
      merchant_id = merchant_id;
      name = name;
      payout_address = payout_address;
      is_active = true;
    } in
    (r, put_merchant r d)

-- `OnboardingOrchestrator.suspend_merchant`
unfoldable pub suspend_merchant :
    String → MerchantDirectory → Option MerchantRecord × MerchantDirectory
suspend_merchant merchant_id d = elim (get_merchant merchant_id d) [
  | none ↦ (none, d)
  | some r ↦
      let suspended = record r { is_active = false } in (some suspended, put_merchant suspended d)
]

-- `OnboardingOrchestrator.register_agent`
unfoldable pub register_agent :
    String → AgentRole → String → AgentDirectory → AgentRecord × AgentDirectory
register_agent agent_id role address d =
    let r : AgentRecord = record {
      agent_id = agent_id;
      role = role;
      address = address;
      is_active = true;
    } in
    (r, put_agent r d)

-- `OnboardingOrchestrator.register_evaluator`: the loop over the ids.
unfoldable pub register_evaluator :
    List String → String → AgentDirectory → List AgentRecord × AgentDirectory
register_evaluator [] address d = ([], d)
register_evaluator (agent_id ∷ ids) address d =
    let (r, d') = register_agent agent_id evaluator address d in
    let (rs, d'') = register_evaluator ids address d' in (r ∷ rs, d'')
