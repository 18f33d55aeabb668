-- ===== src/Models/Registry.antt =====
-- src/trustrail/models/registry.py
use Prim.Native.String.{String}
use cpfbuddies.Prelude.{Bool}

pub record MerchantRecord : Type 0 where
  pub merchant_id : String
  pub name : String
  pub payout_address : String
  pub is_active : Bool

pub data AgentRole : Type 0 where
  browser evaluator : AgentRole

pub record AgentRecord : Type 0 where
  pub agent_id : String
  pub role : AgentRole
  pub address : String
  pub is_active : Bool
