-- ===== src/Audit/Tests.antt =====
-- Runs of the feed.
use cpfbuddies.Prelude.{ℕ, ◌≡◌, ◌++◌, ◌∷◌, [], refl, String, none, some, List, arith, ◌+◌, length}
use cpfbuddies.Prelude.Text.{decimal}
use cpfbuddies.Prelude.Integers.{pos}
use cpfbuddies.Models.Audit.{AuditEntry, mandate_minted}
use cpfbuddies.Audit.{int, drop, feed, send_entries, starting_cursor, stream, tick, heartbeat}
use cpfbuddies.Audit.Stream.{numbered_from, only_entries, last_id, latest, stream-resumed}
use cpfbuddies.Samples.{mandate_1}

abbrev event : String → ℕ → AuditEntry
event event_id at = record {
  event_id = event_id;
  mandate_id = mandate_1;
  event_type = mandate_minted;
  occurred_at = at;
  actor = "mandate-service";
  verdict = none;
  evaluation = none;
  settlement = none;
}

abbrev one_event : List AuditEntry
one_event = event "e1" 1 ∷ []

abbrev two_events : List AuditEntry
two_events = event "e1" 1 ∷ event "e2" 2 ∷ []

abbrev three_events : List AuditEntry
three_events = event "e1" 1 ∷ event "e2" 2 ∷ event "e3" 3 ∷ []

reads_seventeen : int " +1_7 " ≡ some (pos 17)
unfolding int
reads_seventeen = refl

reads_below_zero : starting_cursor none (some "-5") ≡ 0
unfolding starting_cursor
reads_below_zero = refl

reads_no_position : int "1__7" ≡ none
unfolding int
reads_no_position = refl

-- After 59 quiet ticks the next one sends a heartbeat.
sixtieth_tick : (tick one_event (record { cursor = 1; quiet_ticks = 59 })).0 ≡ heartbeat ∷ []
unfolding tick send_entries drop
sixtieth_tick = refl

stream-resumed_example :
    (only_entries (
        (stream (some 1) none (one_event ∷ two_events ∷ [])).0
        ++ (stream none
            (some (
              decimal (
                last_id
                  (starting_cursor (some 1) none)
                  (stream (some 1) none (one_event ∷ two_events ∷ [])).0)))
            (two_events ∷ three_events ∷ [])).0)
      ≡ numbered_from (length one_event + 1) (event "e2" 2 ∷ event "e3" 3 ∷ []))
    × (feed (starting_cursor (some 1) none) 200 (latest two_events (three_events ∷ []))
        ≡ event "e2" 2 ∷ event "e3" 3 ∷ [])
unfolding starting_cursor
stream-resumed_example =
    stream-resumed (some 1) none one_event two_events (two_events ∷ []) (three_events ∷ []) 200
      one_event (event "e2" 2 ∷ event "e3" 3 ∷ []) (omega arith)
      ((event "e2" 2 ∷ [], refl), (([], refl), ((event "e3" 3 ∷ [], refl), tt))) (omega arith) refl
      refl
