-- ===== src/Audit/Slices.antt =====
-- Slices of the audit trail, and what is sent of them.
use cpfbuddies.Prelude.{
  ℕ, zero, suc, ◌+◌, ◌≤◌, ◌≡◌, refl, ◌∙◌, ap, List, [], ◌∷◌, ◌++◌, length, arith,
}
use cpfbuddies.Models.Audit.{AuditEntry}
use cpfbuddies.Audit.{take, drop, entry, send_entries}

pub length-drop :
    (n : ℕ) (es : List AuditEntry) → n ≤ length es → n + length (drop n es) ≡ length es
unfolding drop
length-drop zero es h = omega arith
length-drop (suc n) [] h = absurd (omega arith)
length-drop (suc n) (e ∷ es) h = omega (arith, length-drop n es (omega arith))

pub drop-append :
    (n : ℕ) (es fs : List AuditEntry) → n ≤ length es → drop n (es ++ fs) ≡ drop n es ++ fs
unfolding drop
drop-append zero es fs h = refl
drop-append (suc n) [] fs h = absurd (omega arith)
drop-append (suc n) (e ∷ es) fs h = drop-append n es fs (omega arith)

pub drop-length : (es : List AuditEntry) → drop (length es) es ≡ []
unfolding drop
drop-length [] = refl
drop-length (e ∷ es) = drop-length es

pub take-all : (n : ℕ) (es : List AuditEntry) → length es ≤ n → take n es ≡ es
unfolding take
take-all zero [] h = refl
take-all zero (e ∷ es) h = absurd (omega arith)
take-all (suc n) [] h = refl
take-all (suc n) (e ∷ es) h = ap (λ xs. e ∷ xs) (take-all n es (omega arith))

pub send_entries-append :
    (cursor : ℕ) (es fs : List AuditEntry)
    → send_entries cursor (es ++ fs)
      ≡ send_entries cursor es ++ send_entries (cursor + length es) fs
unfolding send_entries
send_entries-append cursor [] fs = ap (λ k. send_entries k fs) (omega arith)
send_entries-append cursor (e ∷ es) fs =
    ap (λ xs. entry (cursor + 1) e ∷ xs)
      (send_entries-append (cursor + 1) es fs
        ∙ ap (λ k. send_entries (cursor + 1) es ++ send_entries k fs) (omega arith))
