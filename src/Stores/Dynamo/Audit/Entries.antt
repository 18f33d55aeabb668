-- ===== src/Stores/Dynamo/Audit/Entries.antt =====
-- all_entries of src/trustrail/stores/dynamo.py: its loop ends, with every entry of the table in order.
use Prim.Native.Nat.{Ordering}
use Prim.Native.String.{compare}
use Prim.Native.String.compare as clauses
use mathlib.Core.List.{Perm, append-nil, append_assoc}
use mathlib.Core.List.Perm
use cpfbuddies.Prelude.{
  ℕ, zero, suc, ◌<◌, ◌≤◌, String, true, false, ◌≡◌, ◌≢◌, ◌⊎◌, ltb, ◌∙◌, ap, sym, inl, inr, Option,
  none, some, List, [], ◌∷◌, ◌++◌, length, Bool-cases, arith,
}
use cpfbuddies.Errors.{ok}
use cpfbuddies.Models.Mandate.{Timestamp}
use cpfbuddies.Models.Audit.{AuditEntry}
use cpfbuddies.Stores.Dynamo.Table.{Item}
use cpfbuddies.Stores.Dynamo.Mandates.{Json, read_models}
use cpfbuddies.Stores.Dynamo.Audit.{
  LogTable, precedes, insert_entry, sort_entries, scan_from, all_entries,
}

compare_asym : (s t : String) → compare s t ≡ Ordering.lt → compare t s ≡ Ordering.lt → ⊥
compare_asym String.[] String.[] h k = ground arith
compare_asym String.[] (String.◌∷◌ d t) h k = ground (arith, clauses.cons-nil d t)
compare_asym (String.◌∷◌ c s) String.[] h k = ground (arith, clauses.cons-nil c s)
compare_asym (String.◌∷◌ c s) (String.◌∷◌ d t) h k =
    ground (arith, clauses.cons-cons c d s t, clauses.cons-cons d c t s, compare_asym s t)

precedes_asym : (a b : AuditEntry) → precedes a b ≡ true → precedes b a ≡ false
unfolding precedes
precedes_asym a b h = ground (arith, compare_asym a.event_id b.event_id)

-- Each entry is earlier than the next, or at the same time with an event id that is not greater.
abbrev pub IsSorted : List AuditEntry → Type 0
IsSorted [] = Unit
IsSorted (e ∷ []) = Unit
IsSorted (e ∷ x ∷ xs) =
    ((e.occurred_at < x.occurred_at)
      ⊎ ((e.occurred_at ≡ x.occurred_at) × (compare x.event_id e.event_id ≢ Ordering.lt)))
    × IsSorted (x ∷ xs)

-- No entry comes before the one that it follows.
abbrev IsOrdered : List AuditEntry → Type 0
IsOrdered [] = Unit
IsOrdered (e ∷ []) = Unit
IsOrdered (e ∷ x ∷ xs) = (precedes x e ≡ false) × IsOrdered (x ∷ xs)

precedes-false :
    (x e : AuditEntry)
    → precedes x e ≡ false
    → (e.occurred_at < x.occurred_at)
      ⊎ ((e.occurred_at ≡ x.occurred_at) × (compare x.event_id e.event_id ≢ Ordering.lt))
unfolding precedes
precedes-false x e h = elim (Bool-cases (ltb e.occurred_at x.occurred_at)) [
  | inl earlier ↦ inl (ground arith)
  | inr later ↦ inr (ground arith, λ before. ground arith)
]

IsOrdered-IsSorted : (es : List AuditEntry) → IsOrdered es → IsSorted es
IsOrdered-IsSorted [] h = tt
IsOrdered-IsSorted (e ∷ []) h = tt
IsOrdered-IsSorted (e ∷ x ∷ xs) h = (precedes-false x e h.0, IsOrdered-IsSorted (x ∷ xs) h.1)

insert_entry-Perm : (e : AuditEntry) (es : List AuditEntry) → Perm (insert_entry e es) (e ∷ es)
unfolding insert_entry
insert_entry-Perm e [] = Perm.rfl
insert_entry-Perm e (x ∷ xs) = elim (Bool-cases (precedes x e)) [
  | inl before ↦ rw before (Perm.trans (Perm.cons x (insert_entry-Perm e xs)) (Perm.swap e x xs))
  | inr after ↦ rw after Perm.rfl
]

sort_entries-Perm : (es : List AuditEntry) → Perm (sort_entries es) es
unfolding sort_entries
sort_entries-Perm [] = Perm.rfl
sort_entries-Perm (e ∷ es) =
    Perm.trans (insert_entry-Perm e (sort_entries es)) (Perm.cons e (sort_entries-Perm es))

insert_entry-IsOrdered :
    (e : AuditEntry) (es : List AuditEntry) → IsOrdered es → IsOrdered (insert_entry e es)
unfolding insert_entry
insert_entry-IsOrdered e [] h = tt
insert_entry-IsOrdered e (x ∷ []) h = elim (Bool-cases (precedes x e)) [
  | inl before ↦ rw before (precedes_asym x e before, tt)
  | inr after ↦ rw after (after, tt)
]
insert_entry-IsOrdered e (x ∷ y ∷ ys) h =
    let rest = insert_entry-IsOrdered e (y ∷ ys) h.1 in
    elim (Bool-cases (precedes x e)) [
      | inl before ↦ elim (Bool-cases (precedes y e)) [
        | inl y_before ↦ rw (before, y_before) (h.0, rw y_before at rest)
        | inr y_after ↦ rw (before, y_after) (precedes_asym x e before, rw y_after at rest)
      ]
      | inr after ↦ rw after (after, h)
    ]

sort_entries-IsOrdered : (es : List AuditEntry) → IsOrdered (sort_entries es)
unfolding sort_entries
sort_entries-IsOrdered [] = tt
sort_entries-IsOrdered (e ∷ es) =
    insert_entry-IsOrdered e (sort_entries es) (sort_entries-IsOrdered es)

abbrev pub concat : List (List AuditEntry) → List AuditEntry
concat [] = []
concat (es ∷ ess) = es ++ concat ess

module _ {S : Type 0} (table : LogTable S) (json : Json AuditEntry) (isoformat : Timestamp → String)
    (s : S) where
  -- From `start` the scan gives pages with these entries, and no key behind the last of them.
  abbrev pub Scans : Option Item → List (List AuditEntry) → Type 0
  Scans start [] = ⊥
  Scans start (es ∷ []) =
      (read_models json "entry" (table.scan start s).items ≡ ok es)
      × ((table.scan start s).last_evaluated_key ≡ none)
  Scans start (es ∷ fs ∷ ess) =
      (read_models json "entry" (table.scan start s).items ≡ ok es)
      × ((key : Item) × ((table.scan start s).last_evaluated_key ≡ some key)
          × Scans (some key) (fs ∷ ess))

  scan_from-Scans :
      (fuel : ℕ) (start : Option Item) (entries : List AuditEntry) (ess : List (List AuditEntry))
      → Scans start ess
      → length ess < suc fuel
      → scan_from table json isoformat fuel start entries s
        ≡ some (ok (sort_entries (entries ++ concat ess)))
  unfolding scan_from
  scan_from-Scans fuel start entries [] h lt = absurd h
  scan_from-Scans zero start entries (es ∷ ess) h lt = absurd (omega arith)
  scan_from-Scans (suc fuel) start entries (es ∷ []) h lt =
      rw (h.0, h.1) (ap (λ xs. some (ok (sort_entries (entries ++ xs)))) (sym (append-nil es)))
  scan_from-Scans (suc fuel) start entries (es ∷ fs ∷ ess) h lt =
      rw (h.0, h.1.1)
        (scan_from-Scans fuel (some h.1.0) (entries ++ es) (fs ∷ ess) h.1.2 (omega arith)
          ∙ ap (λ xs. some (ok (sort_entries xs))) (append_assoc entries es (concat (fs ∷ ess))))

  -- Where a scan ends and its entries can be read back, with as much fuel as it has pages, all_entries returns all
  -- entries of the pages, each as often as it stands there. Each is earlier than the next, or at the same time with an
  -- event id that is not greater.
  pub all_entries-Scans :
      (fuel : ℕ) (ess : List (List AuditEntry))
      → Scans none ess
      → length ess ≤ fuel
      → (entries : List AuditEntry) × (all_entries table json isoformat fuel s ≡ some (ok entries))
        × Perm entries (concat ess)
        × IsSorted entries
  unfolding all_entries
  all_entries-Scans fuel ess h le = (
    sort_entries (concat ess),
    scan_from-Scans fuel none [] ess h (omega arith),
    sort_entries-Perm (concat ess),
    IsOrdered-IsSorted (sort_entries (concat ess)) (sort_entries-IsOrdered (concat ess)),
  )
