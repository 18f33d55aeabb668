-- ===== src/Settlement/Chain/Node/Rules.antt =====
-- What holds of a chain of actions, from what holds of its steps.
use cpfbuddies.Prelude.{◌≡◌, refl}
use cpfbuddies.Settlement.Chain.Node.{
  Fault, Answer, returned, raised, Chain, Action, ◌then◌, attempt,
}

split_at :
    {A B : Type 0} (Q : Answer B × Chain → Type 0) (p : Answer A × Chain) (f : A → Action B)
    (h : Fault → Action B)
    → ((a : A) → p.0 ≡ returned a → Q (f a p.1))
    → ((e : Fault) → p.0 ≡ raised e → Q (h e p.1))
    → Q (elim p.0 [ returned a ↦ f a p.1 | raised e ↦ h e p.1 ])
split_at Q (returned a, s) f h k l = k a refl
split_at Q (raised e, s) f h k l = l e refl

pub then_post :
    {A B : Type 0} (Q : Answer B × Chain → Type 0) (m : Action A) (f : A → Action B) (s : Chain)
    → ((e : Fault) → (m s).0 ≡ raised e → Q (raised e, (m s).1))
    → ((a : A) → (m s).0 ≡ returned a → Q (f a (m s).1))
    → Q ((m then f) s)
unfolding ◌then◌
then_post Q m f s h k = split_at Q (m s) f (λ e t. (raised e, t)) k h

pub attempt_post :
    {A B : Type 0} (Q : Answer B × Chain → Type 0) (m : Action A) (f : A → Action B)
    (h : Fault → Action B) (s : Chain)
    → ((a : A) → (m s).0 ≡ returned a → Q (f a (m s).1))
    → ((e : Fault) → (m s).0 ≡ raised e → Q (h e (m s).1))
    → Q (attempt m f h s)
unfolding attempt
attempt_post Q m f h s k l = split_at Q (m s) f h k l

-- What holds of the value, where one is returned.
abbrev pub Returns : {A : Type 0} → (A → Type 0) → Answer A → Type 0
Returns P (returned a) = P a
Returns P (raised e) = Unit
