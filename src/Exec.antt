-- ===== src/Exec.antt =====
-- Code that changes a state and may raise. The state comes back after a raise too: what was written
-- stays written.
pub mod Triple
use ram_link.Base.{Bool, if◌then◌else◌, Option, none, some, Error, Result, ok, err, stuck}

abbrev pub Exec : Type 0 → Type 0 → Type 0
Exec S A = S → Result A × S

module _ {S A : Type 0} where
  abbrev pub pure : A → Exec S A
  pure a s = (ok a, s)

  abbrev pub raise : Error → Exec S A
  raise e s = (err e, s)

  abbrev pub gets : (S → A) → Exec S A
  gets f s = (ok (f s), s)

  abbrev pub lift : Result A → Exec S A
  lift r s = (r, s)

  abbrev pub or_raise : Option A → Error → Exec S A
  or_raise none e = raise e
  or_raise (some a) e = pure a

infixl 5 ◌>>=◌ ◌>>◌
abbrev pub ◌>>=◌ : {S A B : Type 0} → Exec S A → (A → Exec S B) → Exec S B
◌>>=◌ m f s =
    let (r, s') = m s in elim r [ ok a ↦ f a s' | err e ↦ (err e, s') | stuck ↦ (stuck, s') ]

abbrev pub ◌>>◌ : {S A B : Type 0} → Exec S A → Exec S B → Exec S B
m >> k = m >>= λ _. k

module _ {S : Type 0} where
  -- `if c: raise e`
  abbrev pub raise_if : Bool → Error → Exec S (Unit {0})
  raise_if c e s = (if c then err e else ok tt, s)

  abbrev pub modify : (S → S) → Exec S (Unit {0})
  modify f s = (ok tt, f s)

-- `try: m` with `except Exception as e: h e`
abbrev pub try_except : {S A : Type 0} → Exec S A → (Error → Exec S A) → Exec S A
try_except m h s =
    let (r, s') = m s in elim r [ ok a ↦ (ok a, s') | err e ↦ h e s' | stuck ↦ (stuck, s') ]

-- `try: m` with `finally: c`; an exception of `c` takes the place of the outcome of `m`
abbrev pub try_finally : {S A : Type 0} → Exec S A → Exec S (Unit {0}) → Exec S A
try_finally m c s =
    let (r, s') = m s in
    let (q, s'') = c s' in elim q [ ok _ ↦ (r, s'') | err e ↦ (err e, s'') | stuck ↦ (stuck, s'') ]

-- `>>=`, of the outcome of its first part
abbrev pub bind_result : {S A B : Type 0} → Result A × S → (A → Exec S B) → Result B × S
bind_result (r, s) f = elim r [ ok a ↦ f a s | err e ↦ (err e, s) | stuck ↦ (stuck, s) ]
