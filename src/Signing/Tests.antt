-- ===== src/Signing/Tests.antt =====
-- Runs of the code that signs.
use cpfbuddies.Prelude.{ℕ, suc, zero, ◌≤◌, String, refl, Option, some, List, [], ◌∷◌, arith}
use cpfbuddies.Signing.Libraries.{Libraries}
use cpfbuddies.Signing.Crypto.{big_endian}
use cpfbuddies.Signing.Kms.{half_curve_order, sign}
use cpfbuddies.Signing.Kms.Signs.{der_of, low_half, IsSigned, sign-der_of}

-- The first recovery id recovers another address.
abbrev recover_second : ℕ → ℕ → ℕ → List ℕ → Option String
recover_second zero r s digest = some "0xanother"
recover_second (suc v) r s digest = some "0xours"

abbrev curve : Libraries
curve = record {
  keccak = λ bytes. bytes;
  recover = recover_second;
  evaluation_json = λ output. [];
  config_json = λ config. [];
}

sign-der_of_example :
    IsSigned curve
      (7 ∷ [])
      (big_endian 0 (1 ∷ 44 ∷ []))
      (low_half (big_endian 0 (0 ∷ 200 ∷ [])))
      "0xours"
      (sign curve (der_of 8 (1 ∷ 44 ∷ []) (0 ∷ 200 ∷ [])) "0xours" (7 ∷ []))
    × (low_half (big_endian 0 (0 ∷ 200 ∷ [])) ≤ half_curve_order)
unfolding big_endian
sign-der_of_example =
    sign-der_of curve (7 ∷ []) "0xours" 8 (1 ∷ 44 ∷ []) (0 ∷ 200 ∷ []) 1 (omega arith) (omega arith)
      (omega arith) refl
