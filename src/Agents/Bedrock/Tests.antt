-- ===== src/Agents/Bedrock/Tests.antt =====
-- Answers of Bedrock on a toothbrush.
use cpfbuddies.Prelude.{Bool, true, false, ◌≡◌, refl, Option, none, some}
use cpfbuddies.Marketplace.Contracts.{Listing, in_stock}
use cpfbuddies.Agents.Bedrock.{
  Value, Values, Fields, boolean, text, array, object, end, item, closed, field, Runtime,
  ModelSignals, signals_of, received,
}
use cpfbuddies.Samples.{four_twenty, five}

abbrev toothbrush : Listing
toothbrush = record {
  sku = "TB-SOFT-2PK";
  title = "Soft bristle toothbrush, 2 pack";
  description = "Two soft toothbrushes.";
  price = four_twenty;
  availability = in_stock;
  seller_id = "seller-dental-sg";
  seller_account_age_days = 1825;
  seller_rating_count = 4812;
  seller_rating = some "4.8";
}

abbrev as_bool : Value → Option Bool
as_bool (boolean b) = some b
as_bool _ = none

-- A use of the tool with these fields
abbrev use_of : Fields → Value
use_of payload = object (
    field "toolUse"
      (object (field "name" (text "ListingRiskAssessment") (field "input" (object payload) closed)))
      closed)

abbrev response : Values → Value
response content = object (
    field "output"
      (object (field "message" (object (field "content" (array content) closed)) closed)) closed)

abbrev injected : Fields
injected = field "intent_match" (boolean true) (
    field "injection_detected" (boolean true)
      (field "substitution_suspected" (boolean false) closed))

abbrev runtime : Runtime
runtime = record {
  converse = λ message. some (response (item (use_of injected) end));
  message = λ listing intent max_amount. intent;
  as_bool = as_bool;
}

abbrev signalled : ModelSignals
signalled = record {
  intent_match = true;
  injection_detected = true;
  substitution_suspected = false;
}

signals_are_read : received runtime toothbrush "a toothbrush" five ≡ some signalled
unfolding received
signals_are_read = refl

two_uses_are_refused :
    signals_of as_bool (response (item (use_of injected) (item (use_of injected) end))) ≡ none
unfolding signals_of
two_uses_are_refused = refl

other_fields_are_refused :
    signals_of as_bool (response (item (use_of (field "risk_score" (text "1") injected)) end))
    ≡ none
unfolding signals_of
other_fields_are_refused = refl
