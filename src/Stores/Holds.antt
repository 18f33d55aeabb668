-- ===== src/Stores/Holds.antt =====
-- `InMemoryReviewHoldStore`
use cpfbuddies.Prelude.{String, Bool, true, false, ◌&&◌, Option, List, [], ◌∷◌, ltb, if◌then◌else◌}
use cpfbuddies.Prelude.Dict
use cpfbuddies.Prelude.Dict.{Dict}
use cpfbuddies.Models.Mandate.{Timestamp}
use cpfbuddies.Models.Review.{ReviewHold, ReviewOutcome, pending}

abbrev pub ReviewHoldStore : Type 0
ReviewHoldStore = Dict ReviewHold

abbrev pub is_pending : ReviewOutcome → Bool
is_pending pending = true
is_pending _ = false

unfoldable pub put_hold : ReviewHold → ReviewHoldStore → ReviewHoldStore
put_hold h s = Dict.set h.charge_id h s

unfoldable pub get_hold : String → ReviewHoldStore → Option ReviewHold
get_hold charge_id s = Dict.get charge_id s

abbrev pub open_holds : Timestamp → List ReviewHold → List ReviewHold
open_holds now [] = []
open_holds now (h ∷ hs) =
    let rest = open_holds now hs in
    if is_pending h.outcome && ltb now h.deadline then h ∷ rest else rest

unfoldable pub list_pending : Timestamp → ReviewHoldStore → List ReviewHold
list_pending now s = open_holds now (Dict.values s)
