-- ===== src/Signing/Libraries.antt =====
-- What the signing code calls and the repository does not hold: `eth_utils`, `eth_keys` and the JSON
-- encoding of a model. They are parameters of all that uses them.
use Prim.Native.String.{String}
use cpfbuddies.Prelude.{ℕ, Option, List}
use cpfbuddies.Models.Evaluation.{EvaluatorOutput}
use cpfbuddies.Models.Config.{VerifierConfig}

pub record Libraries : Type 0 where
  -- `eth_utils.keccak`
  pub keccak : List ℕ → List ℕ
  -- `keys.Signature(vrs=(v, r, s)).recover_public_key_from_msg_hash(digest).to_address()`; `none` where
  -- it raises `BadSignature` or `ValueError`
  pub recover : ℕ → ℕ → ℕ → List ℕ → Option String
  -- `json.dumps(model.model_dump(mode="json"), sort_keys=True, …)` on the two models that are hashed
  pub evaluation_json : EvaluatorOutput → List ℕ
  pub config_json : VerifierConfig → List ℕ
