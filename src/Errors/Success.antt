-- ===== src/Errors/Success.antt =====
-- What is known of a call that returned.
use cpfbuddies.Prelude.{◌≡◌, refl, ap, arith}
use cpfbuddies.Errors.{Error, Result, ok, err, ◌>>=◌}

-- What `>>=` does with the result of its first step
abbrev continued : {S A B : Type 0} → Result A × S → (A → S → Result B × S) → Result B × S
continued p f = elim p.0 [ ok a ↦ f a p.1 | err e ↦ (err e, p.1) ]

bind_ok_at :
    {S A B : Type 0} (p : Result A × S) (f : A → S → Result B × S) (b : B) (s' : S)
    → continued p f ≡ (ok b, s')
    → (a : A) × (p ≡ (ok a, p.1)) × (f a p.1 ≡ (ok b, s'))
bind_ok_at (ok a, t) f b s' h = (a, refl, h)
bind_ok_at (err e, t) f b s' h = ground arith

-- A chain that succeeds went through its first step, and is its second from there.
pub bind_ok :
    {S A B : Type 0} (m : S → Result A × S) (f : A → S → Result B × S) (s : S) (b : B) (s' : S)
    → (m >>= f) s ≡ (ok b, s')
    → (a : A) × (m s ≡ (ok a, (m s).1)) × (f a (m s).1 ≡ (ok b, s'))
unfolding ◌>>=◌
bind_ok m f s b s' h = bind_ok_at (m s) f b s' h

-- A chain whose first step raises has raised.
pub bind_err :
    {S A B : Type 0} (m : S → Result A × S) (f : A → S → Result B × S) (s s' : S) (e : Error)
    → m s ≡ (err e, s')
    → (m >>= f) s ≡ (err e, s')
unfolding ◌>>=◌
bind_err m f s s' e h = ap (λ p. continued p f) h

bind_post_at :
    {S A B : Type 0} (Q : Result B × S → Type 0) (p : Result A × S) (f : A → S → Result B × S)
    → ((e : Error) → p.0 ≡ err e → Q (err e, p.1))
    → ((a : A) → p.0 ≡ ok a → Q (f a p.1))
    → Q (continued p f)
bind_post_at Q (ok a, t) f h k = k a refl
bind_post_at Q (err e, t) f h k = h e refl

-- What holds of a chain where its first step raises, and where it goes on.
pub bind_post :
    {S A B : Type 0} (Q : Result B × S → Type 0) (m : S → Result A × S) (f : A → S → Result B × S)
    (s : S)
    → ((e : Error) → (m s).0 ≡ err e → Q (err e, (m s).1))
    → ((a : A) → (m s).0 ≡ ok a → Q (f a (m s).1))
    → Q ((m >>= f) s)
unfolding ◌>>=◌
bind_post Q m f s h k = bind_post_at Q (m s) f h k
