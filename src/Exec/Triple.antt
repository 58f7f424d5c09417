-- ===== src/Exec/Triple.antt =====
-- What a call does to the state: from a state where `P` holds it ends with a result and a state where
-- `Q` holds, or raises in a state where `E` holds.
use ram_link.Base.{Result, ok, err, stuck}
use ram_link.Exec.{Exec, ◌>>=◌}

module _ {S A : Type 0} where
  abbrev pub Ends : (A → S → Type 0) → (S → Type 0) → Result A × S → Type 0
  Ends Q E (ok a, s) = Q a s
  Ends Q E (err e, s) = E s
  Ends Q E (stuck, s) = E s

  abbrev pub Triple : (S → Type 0) → Exec S A → (A → S → Type 0) → (S → Type 0) → Type 0
  Triple P m Q E = (s : S) → P s → Ends Q E (m s)

  pub Ends-mono :
      (Q Q' : A → S → Type 0) (E E' : S → Type 0)
      → ((a : A) (s : S) → Q a s → Q' a s)
      → ((s : S) → E s → E' s)
      → (r : Result A × S) → Ends Q E r
      → Ends Q' E' r
  Ends-mono Q Q' E E' f g (ok a, s) h = f a s h
  Ends-mono Q Q' E E' f g (err e, s) h = g s h
  Ends-mono Q Q' E E' f g (stuck, s) h = g s h

-- The final state, however the call ended.
pub Ends-state : {S A : Type 0} (E : S → Type 0) (r : Result A × S) → Ends (λ _. E) E r → E r.1
Ends-state E (ok a, s) h = h
Ends-state E (err e, s) h = h
Ends-state E (stuck, s) h = h

pub >>=-Ends :
    {S A B : Type 0} (f : A → Exec S B) (Q : A → S → Type 0) (R : B → S → Type 0) (E : S → Type 0)
    → ((a : A) → Triple (Q a) (f a) R E)
    → (m : Exec S A) (s : S) → Ends Q E (m s)
    → Ends R E ((m >>= f) s)
>>=-Ends f Q R E k m s h = go (m s) h
  where
    go :
        (r : Result _ × _)
        → Ends Q E r
        → Ends R E (elim r.0 [ ok a ↦ f a r.1 | err e ↦ (err e, r.1) | stuck ↦ (stuck, r.1) ])
    go (ok a, s') h = k a s' h
    go (err e, s') h = h
    go (stuck, s') h = h
