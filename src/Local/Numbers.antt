-- ===== src/Local/Numbers.antt =====
-- A number that was printed is read back.
use ram_link.Base.{
  ℕ, zero, suc, ◌+◌, ◌-◌, ◌*◌, ◌/◌, ◌%◌, ◌≤◌, ◌<◌, Bool, true, false, ltb, ltb→lt, Bool-cases, inl,
  inr, some, [], ◌∷◌, Bytes, ◌≡◌, refl, ◌∙◌, ap, sym, subst, arith, digits_onto, decimal,
}
use ram_link.Local.Text.{Text, is_space, Unicode, pos, digit_of, digits, signed, int}
use ram_link.Local.Words.{AreAscii, IsWord}

abbrev IsDigit : ℕ → Type 0
IsDigit c = (48 ≤ c) × (c ≤ 57)

abbrev AreDigits : Bytes → Type 0
AreDigits [] = Unit
AreDigits (c ∷ cs) = IsDigit c × AreDigits cs

digits_onto-AreDigits :
    (fuel n : ℕ) (rest : Bytes) → AreDigits rest → AreDigits (digits_onto fuel n rest)
unfolding digits_onto
digits_onto-AreDigits zero n rest h = h
digits_onto-AreDigits (suc fuel) n rest h =
    ground (arith, digits_onto-AreDigits fuel (n / 10) ((48 + n % 10) ∷ rest), h)

digits-step :
    (unicode : Unicode) (after : Bool) (value c : ℕ) (rest : Text)
    → IsDigit c
    → digits unicode after value (c ∷ rest) ≡ digits unicode true (value * 10 + (c - 48)) rest
unfolding digits digit_of
digits-step unicode after value c rest h = ground (arith, h)

digits-digits_onto :
    (unicode : Unicode) (fuel n : ℕ) (rest : Bytes)
    → n < fuel
    → digits unicode false 0 (digits_onto fuel n rest) ≡ digits unicode true n rest
unfolding digits_onto
digits-digits_onto unicode zero n rest enough = absurd (omega arith)
digits-digits_onto unicode (suc fuel) n rest enough = elim (Bool-cases (ltb n 10)) [
  | inl small ↦ rw small (
      digits-step unicode false 0 (48 + n % 10) rest (omega arith)
      ∙ ap (λ (v : ℕ). digits unicode true v rest) (omega (arith, ltb→lt n 10 small)))
  | inr large ↦ rw large (
      digits-digits_onto unicode fuel (n / 10) ((48 + n % 10) ∷ rest) (ground (arith, large))
      ∙ digits-step unicode true (n / 10) (48 + n % 10) rest (omega arith)
      ∙ ap (λ (v : ℕ). digits unicode true v rest) (omega arith))
]

digits_onto-first :
    (fuel n : ℕ) (rest : Bytes)
    → n < fuel
    → (c : ℕ) × (cs : Bytes) × (digits_onto fuel n rest ≡ c ∷ cs)
unfolding digits_onto
digits_onto-first zero n rest enough = absurd (omega arith)
digits_onto-first (suc fuel) n rest enough = elim (Bool-cases (ltb n 10)) [
  | inl small ↦ (48 + n % 10, rest, rw small refl)
  | inr large ↦
      let (c, cs, e) =
        digits_onto-first fuel (n / 10) ((48 + n % 10) ∷ rest) (ground (arith, large)) in
      (c, cs, rw large e)
]

int-digit :
    (unicode : Unicode) (c : ℕ) (cs : Text)
    → IsDigit c
    → int unicode (c ∷ cs) ≡ signed unicode pos (digits unicode false 0 (c ∷ cs))
unfolding int
int-digit unicode c cs h = ground (arith, h)

-- `int(str(n))` is `n`.
pub int-decimal : (unicode : Unicode) (n : ℕ) → int unicode (decimal n) ≡ some (pos n)
unfolding digits
int-decimal unicode n =
    let (c, cs, e) = digits_onto-first (n + 1) n [] (omega arith) in
    let numerals : AreDigits (c ∷ cs) = subst AreDigits e (digits_onto-AreDigits (n + 1) n [] tt) in
    ap (int unicode) e
    ∙ int-digit unicode c cs numerals.0
    ∙ ap (λ (t : Text). signed unicode pos (digits unicode false 0 t)) (sym e)
    ∙ ap (signed unicode pos) (digits-digits_onto unicode (n + 1) n [] (omega arith))

digits-AreAscii : (cs : Bytes) → AreDigits cs → AreAscii cs
digits-AreAscii [] h = tt
digits-AreAscii (c ∷ cs) h = (omega (arith, h.0), digits-AreAscii cs h.1)

digits-IsWord : (cs : Bytes) → AreDigits cs → IsWord cs
unfolding is_space
digits-IsWord [] h = tt
digits-IsWord (c ∷ cs) h = (ground (arith, h.0), digits-IsWord cs h.1)

-- A printed number is a word of ASCII that is not empty.
pub decimal-IsWord :
    (n : ℕ) → (c : ℕ) × (cs : Bytes) × (decimal n ≡ c ∷ cs) × AreAscii (c ∷ cs) × IsWord (c ∷ cs)
decimal-IsWord n =
    let (c, cs, e) = digits_onto-first (n + 1) n [] (omega arith) in
    let numerals : AreDigits (c ∷ cs) = subst AreDigits e (digits_onto-AreDigits (n + 1) n [] tt) in
    (c, cs, e, digits-AreAscii (c ∷ cs) numerals, digits-IsWord (c ∷ cs) numerals)
