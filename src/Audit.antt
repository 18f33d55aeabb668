-- ===== src/Audit.antt =====
-- src/trustrail/audit/api.py: the feed of the audit trail, as a snapshot and as a stream.
pub mod Positions
pub mod Slices
pub mod Stream
mod Tests
use Prim.Native.Char.{code}
use cpfbuddies.Prelude.{
  ℕ, zero, suc, ◌+◌, ◌-◌, ◌*◌, String, ◌<>◌, Bool, true, false, ◌&&◌, ◌||◌, Option, none, some,
  List, [], ◌∷◌, ◌++◌, length, eqb, leb, ltb, if◌then◌else◌,
}
use cpfbuddies.Prelude.Text.{decimal}
use cpfbuddies.Prelude.Integers.{ℤ, pos, negsuc}
use cpfbuddies.Models.Audit.{AuditEntry}
use cpfbuddies.Stores.Dynamo.Audit.{event_type_value}
use cpfbuddies.Stores.Dynamo.Mandates.{Json}

-- `xs[:n]` and `xs[n:]`
unfoldable pub take : ℕ → List AuditEntry → List AuditEntry
take zero es = []
take (suc n) [] = []
take (suc n) (e ∷ es) = e ∷ take n es

unfoldable pub drop : ℕ → List AuditEntry → List AuditEntry
drop zero es = es
drop (suc n) [] = []
drop (suc n) (e ∷ es) = drop n es

-- `GET /audit`, on what `all_entries` returns
unfoldable pub feed : ℕ → ℕ → List AuditEntry → List AuditEntry
feed since limit es = take limit (drop since es)

-- What `int(text)` makes of a character
pub data Figure : Type 0 where
  figure : ℕ → Figure
  underscore blank plus minus other : Figure

unfoldable pub is_blank : ℕ → Bool
is_blank c = eqb c 32 || (leb 9 c && leb c 13) || (leb 28 c && leb c 31)

unfoldable pub figure_of : ℕ → Figure
unfolding is_blank
figure_of c =
    if leb b'0' c && leb c b'9'
    then figure (c - b'0')
    else if eqb c b'_'
    then underscore
    else if eqb c b'+'
    then plus
    else if eqb c b'-'
    then minus
    else if is_blank c
    then blank
    else other

-- Whether nothing but white space is left
unfoldable pub all_blank : String → Bool
unfolding is_blank
all_blank String.[] = true
all_blank (String.◌∷◌ c s) = let rest = all_blank s in is_blank (code c) && rest

-- The digits of a number, with single underscores between them; `after` says whether a digit comes before.
unfoldable pub read_digits : ℕ → Bool → String → Option ℕ
unfolding figure_of all_blank
read_digits n after String.[] = if after then some n else none
read_digits n after (String.◌∷◌ c s) = elim (figure_of (code c)) [
  | figure d ↦ read_digits (n * 10 + d) true s
  | underscore ↦ elim after [ true ↦ read_digits n false s | false ↦ none ]
  | blank ↦ if after && all_blank s then some n else none
  | _ ↦ none
]

abbrev positive : Option ℕ → Option ℤ
positive none = none
positive (some n) = some (pos n)

abbrev negative : Option ℕ → Option ℤ
negative none = none
negative (some zero) = some (pos zero)
negative (some (suc n)) = some (negsuc n)

-- `int(text)`, for ASCII and for as many digits as Python converts; `none` where it raises ValueError
unfoldable pub int : String → Option ℤ
unfolding figure_of read_digits
int String.[] = none
int (String.◌∷◌ c s) = elim (figure_of (code c)) [
  | figure d ↦ positive (read_digits d true s)
  | blank ↦ int s
  | plus ↦ positive (read_digits 0 false s)
  | minus ↦ negative (read_digits 0 false s)
  | _ ↦ none
]

-- `max(0, …)`, and 0 after a ValueError
abbrev at_least_zero : Option ℤ → ℕ
at_least_zero none = 0
at_least_zero (some (pos n)) = n
at_least_zero (some (negsuc n)) = 0

-- `_starting_cursor`
unfoldable pub starting_cursor : Option ℕ → Option String → ℕ
unfolding int
starting_cursor (some n) last_event_id = n
starting_cursor none none = 0
starting_cursor none (some text) = at_least_zero (int text)

-- What a connection is sent: an entry with the cursor behind it, or the sign that it is alive
pub data Sent : Type 0 where
  entry : ℕ → AuditEntry → Sent
  heartbeat : Sent

-- `_frame`, and `_HEARTBEAT`
unfoldable pub frame : Json AuditEntry → ℕ → AuditEntry → String
unfolding decimal
frame json cursor e =
    "id: "
    <> (decimal cursor
        <> ("\nevent: "
            <> (event_type_value e.event_type <> ("\ndata: " <> (json.dump e <> "\n\n")))))

unfoldable pub text_of_sent : Json AuditEntry → Sent → String
unfolding frame
text_of_sent json (entry cursor e) = frame json cursor e
text_of_sent json heartbeat = ": keep-alive\n\n"

-- `_TICKS_PER_HEARTBEAT`
abbrev pub ticks_per_heartbeat : ℕ
ticks_per_heartbeat = 60

-- The two variables of `_entries_from`
pub record Connection : Type 0 where
  pub cursor : ℕ
  pub quiet_ticks : ℕ

-- The loop over the entries that are new
unfoldable pub send_entries : ℕ → List AuditEntry → List Sent
send_entries cursor [] = []
send_entries cursor (e ∷ es) = entry (cursor + 1) e ∷ send_entries (cursor + 1) es

-- The cursor that a round of the loop starts from, when it has read these entries
unfoldable pub resumed : ℕ → List AuditEntry → ℕ
resumed cursor entries = if ltb (length entries) cursor then 0 else cursor

abbrev quiet_after : List AuditEntry → ℕ → ℕ
quiet_after [] quiet_ticks = quiet_ticks + 1
quiet_after (e ∷ es) quiet_ticks = 1

-- What a round sends after the entries
abbrev keep_alive : ℕ → List Sent
keep_alive quiet_ticks = if leb ticks_per_heartbeat quiet_ticks then heartbeat ∷ [] else []

-- A round of the loop: what it sends, and the variables after it
unfoldable pub tick : List AuditEntry → Connection → List Sent × Connection
unfolding resumed
tick entries s =
    let start = resumed s.cursor entries in
    let fresh = drop start entries in
    let quiet_ticks = quiet_after fresh s.quiet_ticks in
    (
      send_entries start fresh ++ keep_alive quiet_ticks,
      record {
        cursor = start + length fresh;
        quiet_ticks = if leb ticks_per_heartbeat quiet_ticks then 0 else quiet_ticks;
      },
    )

-- `_entries_from`, on what `all_entries` returns in each round until the client goes away
unfoldable pub entries_from : List (List AuditEntry) → Connection → List Sent × Connection
entries_from [] s = ([], s)
entries_from (entries ∷ reads) s =
    let (sent, next) = tick entries s in
    let (later, last) = entries_from reads next in (sent ++ later, last)

-- `stream`: a connection starts with the cursor that the client asks for, after no quiet tick.
unfoldable pub stream : Option ℕ → Option String → List (List AuditEntry) → List Sent × Connection
stream since last_event_id reads =
    entries_from reads (record { cursor = starting_cursor since last_event_id; quiet_ticks = 0 })
