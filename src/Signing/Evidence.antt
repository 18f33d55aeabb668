-- ===== src/Signing/Evidence.antt =====
-- src/trustrail/signing/evidence.py
use Prim.Native.String.{String}
use cpfbuddies.Models.Evaluation.{EvaluatorOutput}
use cpfbuddies.Signing.Libraries.{Libraries}
use cpfbuddies.Signing.Crypto.{hash_bytes}

unfoldable pub evaluation_digest : Libraries → EvaluatorOutput → String
evaluation_digest lib evaluation = hash_bytes lib (lib.evaluation_json evaluation)
