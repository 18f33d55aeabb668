-- ===== src/Audit/Stream.antt =====
-- What a stream of the audit trail sends, while the trail grows.
use mathlib.Core.List.{append-nil, append_assoc}
use cpfbuddies.Prelude.{
  ℕ, ◌+◌, ◌≤◌, String, false, ◌≡◌, refl, sym, ◌∙◌, ap, Option, none, some, List, [], ◌∷◌, ◌++◌,
  length, length-append, inl, inr, Bool-cases, ltb, leb, arith,
}
use cpfbuddies.Prelude.Text.{decimal}
use cpfbuddies.Models.Audit.{AuditEntry}
use cpfbuddies.Audit.{
  take, drop, feed, starting_cursor, Sent, entry, heartbeat, Connection, send_entries, resumed,
  keep_alive, quiet_after, ticks_per_heartbeat, tick, entries_from, stream,
}
use cpfbuddies.Audit.Slices.{length-drop, drop-append, drop-length, take-all, send_entries-append}
use cpfbuddies.Audit.Positions.{starting_cursor-decimal}

-- What was sent, without the signs that the connection is alive
unfoldable pub only_entries : List Sent → List Sent
only_entries [] = []
only_entries (entry cursor e ∷ sent) = entry cursor e ∷ only_entries sent
only_entries (heartbeat ∷ sent) = only_entries sent

-- The id of the last entry that was sent, or else the cursor that the stream began with
unfoldable pub last_id : ℕ → List Sent → ℕ
last_id cursor [] = cursor
last_id cursor (entry k e ∷ sent) = last_id k sent
last_id cursor (heartbeat ∷ sent) = last_id cursor sent

-- Each read shows the entries of the one before it, and perhaps more behind them.
abbrev pub Grows : List AuditEntry → List (List AuditEntry) → Type 0
Grows es [] = Unit
Grows es (fs ∷ reads) = ((more : List AuditEntry) × (fs ≡ es ++ more)) × Grows fs reads

-- The last of the reads
abbrev pub latest : List AuditEntry → List (List AuditEntry) → List AuditEntry
latest es [] = es
latest es (fs ∷ reads) = latest fs reads

latest-Grows :
    (es : List AuditEntry) (reads : List (List AuditEntry))
    → Grows es reads
    → (more : List AuditEntry) × (latest es reads ≡ es ++ more)
latest-Grows es [] h = ([], sym (append-nil es))
latest-Grows es (fs ∷ reads) ((more, e), h) =
    let (later, e') = latest-Grows fs reads h in
    (more ++ later, e' ∙ ap (λ xs. xs ++ later) e ∙ append_assoc es more later)

-- What a round sends, before whatever follows
only_entries-round :
    (cursor : ℕ) (es : List AuditEntry) (quiet : ℕ) (sent : List Sent)
    → only_entries ((send_entries cursor es ++ keep_alive quiet) ++ sent)
      ≡ send_entries cursor es ++ only_entries sent
unfolding only_entries send_entries
only_entries-round cursor [] quiet sent = ground arith
only_entries-round cursor (e ∷ es) quiet sent =
    ap (λ xs. entry (cursor + 1) e ∷ xs) (only_entries-round (cursor + 1) es quiet sent)

last_id-round :
    (cursor : ℕ) (es : List AuditEntry) (quiet : ℕ) (sent : List Sent)
    → last_id cursor ((send_entries cursor es ++ keep_alive quiet) ++ sent)
      ≡ last_id (cursor + length es) sent
unfolding last_id send_entries
last_id-round cursor [] quiet sent = elim (Bool-cases (leb ticks_per_heartbeat quiet)) [
  | inl loud ↦ rw loud (ap (λ k. last_id k sent) (omega arith))
  | inr still ↦ rw still (ap (λ k. last_id k sent) (omega arith))
]
last_id-round cursor (e ∷ es) quiet sent =
    last_id-round (cursor + 1) es quiet sent ∙ ap (λ k. last_id k sent) (omega arith)

-- What a round makes of a log that its cursor does not lie behind
tick-within :
    (entries : List AuditEntry) (s : Connection)
    → s.cursor ≤ length entries
    → ((tick entries s).0
        ≡ send_entries s.cursor (drop s.cursor entries)
          ++ keep_alive (quiet_after (drop s.cursor entries) s.quiet_ticks))
      × ((tick entries s).1.cursor ≡ length entries)
unfolding tick resumed
tick-within entries s h =
    let there : ltb (length entries) s.cursor ≡ false = ground arith in
    (rw there refl, rw there (length-drop s.cursor entries h))

-- What the entries before a read and those behind it are when sent in two rounds
joined :
    (cursor : ℕ) (es more : List AuditEntry)
    → cursor ≤ length es
    → send_entries cursor (drop cursor es)
        ++ send_entries (length es) (drop (length es) (es ++ more))
      ≡ send_entries cursor (drop cursor (es ++ more))
joined cursor es more h =
    let behind : drop (length es) (es ++ more) ≡ more =
      drop-append (length es) es more (omega arith) ∙ ap (λ xs. xs ++ more) (drop-length es) in
    ap (λ xs. send_entries cursor (drop cursor es) ++ send_entries (length es) xs) behind
    ∙ ap (λ k. send_entries cursor (drop cursor es) ++ send_entries k more)
        (sym (length-drop cursor es h))
    ∙ sym (send_entries-append cursor (drop cursor es) more)
    ∙ ap (send_entries cursor) (sym (drop-append cursor es more h))

-- What a connection sends over reads of a growing log, its cursor at the end, and the id of the last entry sent.
pub record IsSent (cursor : ℕ) (entries : List AuditEntry) (sent : List Sent) (s : Connection)
    : Type 0 where
  pub shown : only_entries sent ≡ send_entries cursor (drop cursor entries)
  pub reached : s.cursor ≡ length entries
  pub numbered : last_id cursor sent ≡ length entries

entries_from-IsSent :
    (reads : List (List AuditEntry)) (first : List AuditEntry) (s : Connection)
    → Grows first reads
    → s.cursor ≤ length first
    → IsSent s.cursor
        (latest first reads)
        (entries_from (first ∷ reads) s).0
        (entries_from (first ∷ reads) s).1
unfolding entries_from only_entries last_id
entries_from-IsSent [] first s h le =
    let t = tick-within first s le in
    let fresh = drop s.cursor first in
    let quiet = quiet_after fresh s.quiet_ticks in
    record {
      shown =
          rw t.0
            (only_entries-round s.cursor fresh quiet [] ∙ append-nil (send_entries s.cursor fresh));
      reached = t.1;
      numbered = rw t.0 (last_id-round s.cursor fresh quiet [] ∙ length-drop s.cursor first le);
    }
entries_from-IsSent (second ∷ reads) first s ((more, e), h) le =
    let t = tick-within first s le in
    let fresh = drop s.cursor first in
    let quiet = quiet_after fresh s.quiet_ticks in
    let next = (tick first s).1 in
    let end = latest second reads in
    let longer : next.cursor ≤ length second =
      omega (arith, t.1, ap length e, length-append first more) in
    let later = entries_from-IsSent reads second next h longer in
    let sent = (entries_from (second ∷ reads) next).0 in
    let (rest, grown) = latest-Grows first (second ∷ reads) ((more, e), h) in
    record {
      shown = rw t.0 (
          only_entries-round s.cursor fresh quiet sent
          ∙ ap (λ xs. send_entries s.cursor fresh ++ xs)
              (later.shown ∙ ap (λ k. send_entries k (drop k end)) t.1)
          ∙ ap
              (λ es.
                send_entries s.cursor fresh ++ send_entries (length first) (drop (length first) es))
              grown
          ∙ joined s.cursor first rest le
          ∙ ap (λ es. send_entries s.cursor (drop s.cursor es)) (sym grown));
      reached = later.reached;
      numbered = rw t.0 (
          last_id-round s.cursor fresh quiet sent
          ∙ ap (λ k. last_id k sent) (length-drop s.cursor first le ∙ sym t.1)
          ∙ later.numbered);
    }

only_entries-append :
    (xs ys : List Sent) → only_entries (xs ++ ys) ≡ only_entries xs ++ only_entries ys
unfolding only_entries
only_entries-append [] ys = refl
only_entries-append (entry k e ∷ xs) ys = ap (λ zs. entry k e ∷ zs) (only_entries-append xs ys)
only_entries-append (heartbeat ∷ xs) ys = only_entries-append xs ys

Grows-append :
    (first again : List AuditEntry) (reads laters : List (List AuditEntry))
    → Grows first (reads ++ again ∷ laters)
    → Grows first reads
      × ((more : List AuditEntry) × (again ≡ latest first reads ++ more))
      × Grows again laters
Grows-append first again [] laters h = (tt, h.0, h.1)
Grows-append first again (fs ∷ reads) laters h =
    let (before, more, behind) = Grows-append fs again reads laters h.1 in
    ((h.0, before), more, behind)

-- The frames of both parts are those that the code makes of the snapshot.
sent-resumed :
    (since : Option ℕ) (last_event_id : Option String) (first again : List AuditEntry)
    (reads laters : List (List AuditEntry)) (limit : ℕ)
    → starting_cursor since last_event_id ≤ length first
    → Grows first (reads ++ again ∷ laters)
    → length (latest again laters) ≤ limit
    → only_entries (
        (stream since last_event_id (first ∷ reads)).0
        ++ (stream none
            (some (
              decimal (
                last_id
                  (starting_cursor since last_event_id)
                  (stream since last_event_id (first ∷ reads)).0)))
            (again ∷ laters)).0)
      ≡ send_entries
          (starting_cursor since last_event_id)
          (feed (starting_cursor since last_event_id) limit (latest again laters))
unfolding stream feed
sent-resumed since last_event_id first again reads laters limit le h fits =
    let c = starting_cursor since last_event_id in
    let mid = latest first reads in
    let end = latest again laters in
    let (before, more, behind) = Grows-append first again reads laters h in
    let (read, e) = latest-Grows first reads before in
    let (rest, grown) = latest-Grows mid (again ∷ laters) (more, behind) in
    let within : c ≤ length mid = omega (arith, le, ap length e, length-append first read) in
    let one = entries_from-IsSent reads first (record { cursor = c; quiet_ticks = 0 }) before le in
    let sent = (entries_from (first ∷ reads) (record { cursor = c; quiet_ticks = 0 })).0 in
    let id = decimal (last_id c sent) in
    let from : starting_cursor none (some id) ≡ length mid =
      starting_cursor-decimal (last_id c sent) ∙ one.numbered in
    let fits_again : starting_cursor none (some id) ≤ length again =
      omega (arith, from, ap length more.1, length-append mid more.0) in
    let two =
      entries_from-IsSent laters again
        (record { cursor = starting_cursor none (some id); quiet_ticks = 0 }) behind fits_again in
    let whole : c ≤ length end = omega (arith, ap length grown, length-append mid rest) in
    let all : take limit (drop c end) ≡ drop c end =
      take-all limit (drop c end) (omega (arith, length-drop c end whole)) in
    let sent_again = (stream none (some id) (again ∷ laters)).0 in
    only_entries-append sent sent_again
    ∙ ap (λ xs. xs ++ only_entries sent_again) one.shown
    ∙ ap (λ xs. send_entries c (drop c mid) ++ xs)
        (two.shown ∙ ap (λ k. send_entries k (drop k end)) from)
    ∙ ap (λ es. send_entries c (drop c mid) ++ send_entries (length mid) (drop (length mid) es))
        grown
    ∙ joined c mid rest within
    ∙ ap (λ es. send_entries c (drop c es)) (sym grown)
    ∙ ap (send_entries c) (sym all)

-- Entries with consecutive ids, the first of which is given
abbrev pub numbered_from : ℕ → List AuditEntry → List Sent
numbered_from n [] = []
numbered_from n (e ∷ es) = entry n e ∷ numbered_from (n + 1) es

send_entries-numbered_from :
    (cursor : ℕ) (es : List AuditEntry) → send_entries cursor es ≡ numbered_from (cursor + 1) es
unfolding send_entries
send_entries-numbered_from cursor [] = refl
send_entries-numbered_from cursor (e ∷ es) =
    ap (λ xs. entry (cursor + 1) e ∷ xs) (send_entries-numbered_from (cursor + 1) es)

-- Where the log only grows, and its first entries, as many as the first cursor says, stand in its first read: a stream
-- that breaks off and is resumed with the id of the last entry that it sent, or its first cursor if there was none, has
-- sent in both parts together each entry behind those once, in order and with its position in the log as id. They are
-- what a snapshot from the first cursor shows of the log in the end, whose limit is large enough.
pub stream-resumed :
    (since : Option ℕ) (last_event_id : Option String) (first again : List AuditEntry)
    (reads laters : List (List AuditEntry)) (limit : ℕ) (seen unseen : List AuditEntry)
    → starting_cursor since last_event_id ≤ length first
    → Grows first (reads ++ again ∷ laters)
    → length (latest again laters) ≤ limit
    → latest again laters ≡ seen ++ unseen
    → length seen ≡ starting_cursor since last_event_id
    → (only_entries (
          (stream since last_event_id (first ∷ reads)).0
          ++ (stream none
              (some (
                decimal (
                  last_id
                    (starting_cursor since last_event_id)
                    (stream since last_event_id (first ∷ reads)).0)))
              (again ∷ laters)).0)
        ≡ numbered_from (length seen + 1) unseen)
      × (feed (starting_cursor since last_event_id) limit (latest again laters) ≡ unseen)
unfolding feed
stream-resumed since last_event_id first again reads laters limit seen unseen le h fits log place =
    let c = starting_cursor since last_event_id in
    let rest : drop c (latest again laters) ≡ unseen =
      ap (drop c) log
      ∙ ap (λ k. drop k (seen ++ unseen)) (sym place)
      ∙ drop-append (length seen) seen unseen (omega arith)
      ∙ ap (λ xs. xs ++ unseen) (drop-length seen) in
    let shown : feed c limit (latest again laters) ≡ unseen =
      take-all limit (drop c (latest again laters))
        (omega (arith, ap length rest, ap length log, length-append seen unseen))
      ∙ rest in
    (
      sent-resumed since last_event_id first again reads laters limit le h fits
          ∙ ap (send_entries c) shown
          ∙ send_entries-numbered_from c unseen
          ∙ ap (λ k. numbered_from (k + 1) unseen) (sym place),
      shown,
    )
