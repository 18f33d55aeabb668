-- ===== src/Mandates/Keeps.antt =====
-- What every call of the Mandate Service keeps, whether it returns or raises: no stored mandate is lost
-- or widened, nonces stay unique, and the audit trail only grows.
use cpfbuddies.Prelude.{◌≡◌, refl, sym, ◌∙◌, ap, some, List, [], ◌∷◌, ◌++◌}
use mathlib.Core.List.{append-nil, append_assoc}
use cpfbuddies.Errors.{Result, ok, err}
use cpfbuddies.Models.Mandate.{MandateRecord, MandateStatus, record_id}
use cpfbuddies.Models.Audit.{AuditEntry}
use cpfbuddies.Stores.Mandates
use cpfbuddies.Stores.Mandates.{MandateStore}
use cpfbuddies.Stores.Mandates.Later.{Later}
use cpfbuddies.Stores.Mandates.Laws.{
  IsUnbound, IsConsistent, Progress, Progress-refl, Progress-trans, save_new-Progress,
  save_new-IsConsistent, replace-Progress, replace-IsConsistent,
}
use cpfbuddies.Mandates.Rail.{Rail, Action, ◌>>=◌, write_store, stored, record_entry}

-- The later trail begins with the earlier one.
abbrev pub Extends : List AuditEntry → List AuditEntry → Type 0
Extends a b = (more : List AuditEntry) × (b ≡ a ++ more)

pub record Moved (s s' : Rail) : Type 0 where
  pub consistent : IsConsistent s'.store
  pub progress : Progress s.store s'.store
  pub trail : Extends s.audit s'.audit

pub Moved-refl : (s : Rail) → IsConsistent s.store → Moved s s
Moved-refl s c = record {
  consistent = c;
  progress = Progress-refl s.store;
  trail = ([], sym (append-nil s.audit));
}

Extends-trans : (a b c : List AuditEntry) → Extends a b → Extends b c → Extends a c
Extends-trans a b c (xs, p) (ys, q) = (xs ++ ys, q ∙ ap (λ l. l ++ ys) p ∙ append_assoc a xs ys)

pub Moved-trans : (a b c : Rail) → Moved a b → Moved b c → Moved a c
Moved-trans a b c p q = record {
  consistent = q.consistent;
  progress = Progress-trans a.store b.store c.store p.progress q.progress;
  trail = Extends-trans a.audit b.audit c.audit p.trail q.trail;
}

-- The action moves the state on.
pub record Keeps {A : Type 0} (m : Action A) (s : Rail) : Type 0 where
  pub moved : IsConsistent s.store → Moved s (m s).1

bind_with : {A B : Type 0} → Result A × Rail → (A → Action B) → Result B × Rail
bind_with (r, s') f = elim r [ ok a ↦ f a s' | err e ↦ (err e, s') ]

-- A step of a `do` block, after which the result of the step is known.
bind_cases :
    {A B : Type 0} (s : Rail) (p : Result A × Rail) (f : A → Action B)
    → Moved s p.1
    → ((a : A) → p.0 ≡ ok a → Moved p.1 (f a p.1).1)
    → Moved s (bind_with p f).1
unfolding bind_with
bind_cases s (ok a, s') f h k = Moved-trans s s' _ h (k a refl)
bind_cases s (err e, s') f h k = h

pub Keeps-bind :
    {A B : Type 0} (s : Rail) (m : Action A) (f : A → Action B)
    → Keeps m s
    → ((a : A) → (m s).0 ≡ ok a → Keeps (f a) (m s).1)
    → Keeps (m >>= f) s
unfolding ◌>>=◌ bind_with
Keeps-bind s m f hm hf = record {
  moved = λ c. bind_cases s (m s) f (hm.moved c) (λ a e. (hf a e).moved (hm.moved c).consistent);
}

-- An action that leaves the store and the trail alone.
pub Keeps-same :
    {A : Type 0} (s : Rail) (m : Action A)
    → (m s).1.store ≡ s.store
    → (m s).1.audit ≡ s.audit
    → Keeps m s
Keeps-same s m p q = record {
  moved = λ c. record {
    consistent = rw p c;
    progress = rw p (Progress-refl s.store);
    trail = ([], q ∙ sym (append-nil s.audit));
  };
}

pub Keeps-record_entry : (e : AuditEntry) (s : Rail) → Keeps (record_entry e) s
unfolding record_entry
Keeps-record_entry e s = record {
  moved = λ c. record { consistent = c; progress = Progress-refl s.store; trail = (e ∷ [], refl) };
}

-- A store that is written is consistent and has moved on.
pub Keeps-write_store :
    (f : MandateStore → Result MandateStore) (s : Rail)
    → ((t : MandateStore)
        → f s.store ≡ ok t
        → IsConsistent s.store
        → IsConsistent t × Progress s.store t)
    → Keeps (write_store f) s
unfolding write_store
Keeps-write_store f s h = record { moved = λ c. stored_cases c (f s.store) refl }
  where
    stored_cases :
        IsConsistent s.store → (r : Result MandateStore) → f s.store ≡ r → Moved s (stored r s).1
    stored_cases c (ok t) e = record {
      consistent = (h t e c).0;
      progress = (h t e c).1;
      trail = ([], sym (append-nil s.audit));
    }
    stored_cases c (err x) e = Moved-refl s c

pub Keeps-save_new :
    (r : MandateRecord) (s : Rail) → IsUnbound r → Keeps (write_store (Mandates.save_new r)) s
Keeps-save_new r s u =
    Keeps-write_store (Mandates.save_new r) s
      λ t e c. (save_new-IsConsistent r s.store e u c, save_new-Progress r s.store e)

pub Keeps-replace :
    (current r : MandateRecord) (e : MandateStatus) (s : Rail)
    → Mandates.get (record_id r) s.store ≡ some current
    → Later current r
    → IsUnbound r
    → Keeps (write_store (Mandates.replace r e)) s
Keeps-replace current r e s found later u = Keeps-write_store (Mandates.replace r e) s λ t done c. (
  replace-IsConsistent r e s.store done current found later u c,
  replace-Progress r e s.store done current found later,
)

-- The state is consistent where the action begins.
pub Keeps-under :
    {A : Type 0} (m : Action A) (s : Rail) → (IsConsistent s.store → Keeps m s) → Keeps m s
Keeps-under m s h = record { moved = λ c. (h c).moved c }
