-- ===== src/Verifier/Tests.antt =====
-- Runs of the verifier, and its theorems at concrete requests.
use cpfbuddies.Prelude.{
  ℕ, ◌≡◌, refl, ◌↔◌, ◌≤◌, ◌<◌, ◌⊎◌, inl, inr, none, true, [], ◌∷◌, arith, ◌++◌,
}
use cpfbuddies.Models.Mandate.{revoked}
use cpfbuddies.Models.Money.{minor_units}
use cpfbuddies.Models.Verdict.{
  pass, review, fail, ReasonCode, VerificationRequest, failed_deterministically,
}
use cpfbuddies.Models.Config.{config_accepted}
use cpfbuddies.Prelude.Text.{lower, from_hex, to_hex, encode}
use cpfbuddies.Signing.Crypto.{to_bytes, hash_bytes, recover_address}
use cpfbuddies.Signing.Eip712.{
  mandate_digest, separator, keccak_words, encode_string, encode_uint, encode_address,
  encode_bytes32, big_endian_bytes,
}
use cpfbuddies.Signing.Evidence.{evaluation_digest}
use cpfbuddies.Verifier.Checks.{deterministic_checks, recomputed_digest}
use cpfbuddies.Verifier.Service.{verify}
use cpfbuddies.Verifier.Authority.{Authorised}
use cpfbuddies.Verifier.Decision.{
  context, IsClean, verify-eq-pass_iff, verify-eq-fail_iff, verify-eq-review_iff,
}
use cpfbuddies.Verifier.Trace.{FirstRejection}
use cpfbuddies.Verifier.Verdicts.{
  failed_deterministically-verify, verify_stops, verify_asks, fact_names, question_names, names,
}
use cpfbuddies.Samples.{toy, config, request, merchant, agent}

-- All the sample's facts, computed.
request-Authorised : (score : ℕ) → Authorised toy (context config (request score))
unfolding recomputed_digest mandate_digest separator keccak_words encode_string encode_uint
    encode_address encode_bytes32 big_endian_bytes to_bytes hash_bytes recover_address
    evaluation_digest lower from_hex to_hex encode minor_units
request-Authorised score = record {
  digest = refl;
  issuer = refl;
  target = refl;
  alive = omega arith;
  spendable = inl refl;
  running = refl;
  nonce = inr refl;
  currency = refl;
  settleable = refl;
  capped = inl (omega arith);
  merchant = (merchant, refl, refl, refl, inl refl);
  basket = inl refl;
  evidence = (agent, refl, refl, refl, refl, refl, refl);
  same_mandate = refl;
  same_basket = refl;
  same_amount = refl;
}

-- The same charge under a mandate that has been revoked.
abbrev revoked_request : VerificationRequest
revoked_request = record (request 2) {
  mandate_state = record { status = revoked; nonce_claimed_by = none };
}

not-Authorised : ¬ Authorised toy (context config revoked_request)
not-Authorised h = ground (arith, h.spendable)

config_ok : config_accepted config ≡ true
unfolding config_accepted
config_ok = refl

is_clean : IsClean (context config (request 2))
is_clean = record { low_risk = omega arith; fits = refl; no_injection = refl; ordinary = refl }

passes : (verify toy config (request 2)).decision ≡ pass
passes = (verify-eq-pass_iff toy config (request 2) config_ok).1 (request-Authorised 2, is_clean)

verify-eq-pass_iff_example :
    ((verify toy config (request 2)).decision ≡ pass)
    ↔ (Authorised toy (context config (request 2)) × IsClean (context config (request 2)))
verify-eq-pass_iff_example = verify-eq-pass_iff toy config (request 2) config_ok

verify-eq-review_iff_example : ((verify toy config (request 5)).decision ≡ review) ↔ (
    Authorised toy (context config (request 5))
    × (5 ≤ config.review_score_max)
    × (¬ IsClean (context config (request 5))))
verify-eq-review_iff_example = verify-eq-review_iff toy config (request 5) config_ok

held : (verify toy config (request 5)).decision ≡ review
held =
    (verify-eq-review_iff toy config (request 5) config_ok).1
      (request-Authorised 5, omega arith, λ clean. absurd (omega (arith, clean.low_risk)))

verify-eq-fail_iff_example :
    ((verify toy config (request 9)).decision ≡ fail)
    ↔ ((¬ Authorised toy (context config (request 9))) ⊎ (config.review_score_max < 9))
verify-eq-fail_iff_example = verify-eq-fail_iff toy config (request 9)

failed_deterministically-verify_example :
    (failed_deterministically (verify toy config revoked_request) ≡ true)
    ↔ (¬ Authorised toy (context config revoked_request))
failed_deterministically-verify_example = failed_deterministically-verify toy config revoked_request

verify_stops_example :
    (f : FirstRejection
      (context config revoked_request)
      (deterministic_checks toy)
      (verify toy config revoked_request).checks)
    × ((verify toy config revoked_request).reason_codes ≡ f.rejection.reason ∷ [])
verify_stops_example = verify_stops toy config revoked_request not-Authorised

verify_asks_example :
    (names (verify toy config (request 5)).checks ≡ fact_names ++ question_names)
    × ((verify toy config (request 5)).reason_codes ≡ ReasonCode.risk_score_review_band ∷ [])
verify_asks_example = verify_asks toy config (request 5) (request-Authorised 5)
