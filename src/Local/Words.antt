-- ===== src/Local/Words.antt =====
-- `strip` and `split` of a line of words, and what `decode` makes of ASCII.
use mathlib.Core.List.{append_assoc}
use ram_link.Base.{
  ℕ, ◌≤◌, ◌<◌, true, false, ◌&&◌, if◌then◌else◌, Bool-cases, ◌⊎◌, inl, inr, List, [], ◌∷◌, ◌++◌,
  Bytes, ◌≡◌, ◌≢◌, refl, ◌∙◌, ap, sym, arith,
}
use ram_link.Local.Text.{
  Text, replacement, Decoding, between, inside, first_byte, next_byte, decode_from, decode,
  is_space, is_empty, strip_left, strip_right, strip, ended, split_from, split,
}

-- Bytes of ASCII.
abbrev pub AreAscii : Bytes → Type 0
AreAscii [] = Unit
AreAscii (b ∷ bs) = (b < 128) × AreAscii bs

-- A text with no space in it.
abbrev pub IsWord : Text → Type 0
IsWord [] = Unit
IsWord (c ∷ cs) = (is_space c ≡ false) × IsWord cs

pub decode_ascii : (a b : Bytes) → AreAscii a → decode (a ++ b) ≡ a ++ decode b
unfolding decode_from next_byte first_byte
decode_ascii [] b h = refl
decode_ascii (x ∷ a) b h = ground (arith, decode_ascii a b h.1, h.0)

-- No byte of ASCII goes on with a character.
abbrev IsLegal : Decoding → Type 0
IsLegal between = Unit
IsLegal (inside more lowest highest value) = 128 ≤ lowest

first_byte-IsLegal : (b : ℕ) → IsLegal (first_byte b).1
unfolding first_byte
first_byte-IsLegal b = ground arith

next_byte-IsLegal : (d : Decoding) (b : ℕ) → IsLegal (next_byte d b).1
unfolding next_byte
next_byte-IsLegal between b = first_byte-IsLegal b
next_byte-IsLegal (inside more lowest highest value) b = ground (arith, first_byte-IsLegal b)

-- A byte of ASCII is a character, whatever stands before it.
decode_from-visible :
    (before : Bytes) (d : Decoding) (b : ℕ) (after : Bytes)
    → IsLegal d
    → b < 128
    → (t : Text) × (u : Text) × (decode_from d (before ++ (b ∷ after)) ≡ t ++ (b ∷ u))
unfolding decode_from next_byte first_byte
decode_from-visible [] between b after legal h = ([], decode after, ground (arith, h))
decode_from-visible [] (inside more lowest highest value) b after legal h =
    (replacement ∷ [], decode after, ground (arith, h, legal))
decode_from-visible (x ∷ before) d b after legal h =
    let (t, u, e) =
      decode_from-visible before (next_byte d x).1 b after (next_byte-IsLegal d x) h in
    (
      (next_byte d x).0 ++ t,
      u,
      decode_from-step d x (before ++ (b ∷ after))
          ∙ ap (λ (r : Text). (next_byte d x).0 ++ r) e
          ∙ sym (append_assoc (next_byte d x).0 t (b ∷ u)),
    )
  where
    decode_from-step :
        (d : Decoding) (x : ℕ) (bs : Bytes)
        → decode_from d (x ∷ bs) ≡ (next_byte d x).0 ++ decode_from (next_byte d x).1 bs
    decode_from-step between x bs = refl
    decode_from-step (inside _ _ _ _) x bs = refl

pub decode-visible :
    (before : Bytes) (b : ℕ) (after : Bytes)
    → b < 128
    → (t : Text) × (u : Text) × (decode (before ++ (b ∷ after)) ≡ t ++ (b ∷ u))
decode-visible before b after h = decode_from-visible before between b after tt h

split_from-space :
    (word cs : Text) (c : ℕ)
    → is_space c ≡ true
    → split_from word (c ∷ cs) ≡ ended word (split_from [] cs)
unfolding split_from
split_from-space word cs c h = rw (h, split_from) refl

split_from-letter :
    (word cs : Text) (c : ℕ)
    → is_space c ≡ false
    → split_from word (c ∷ cs) ≡ split_from (word ++ (c ∷ [])) cs
unfolding split_from
split_from-letter word cs c h = rw (h, split_from) refl

ended_some : (word : Text) (words : List Text) → words ≢ [] → ended word words ≢ []
ended_some [] words h = h
ended_some (c ∷ cs) words h = λ same. cc same

ended_begun :
    (word : Text) (c : ℕ) (words : List Text)
    → ended (word ++ (c ∷ [])) words ≡ (word ++ (c ∷ [])) ∷ words
ended_begun [] c words = refl
ended_begun (x ∷ word) c words = refl

split_begun : (u word : Text) (c : ℕ) → split_from (word ++ (c ∷ [])) u ≢ []
unfolding split_from
split_begun [] word c = λ same. cc (ended_begun word c [], same)
split_begun (x ∷ u) word c = elim (Bool-cases (is_space x)) [
  | inl space ↦ λ same.
      cc (split_from-space (word ++ (c ∷ [])) u x space, ended_begun word c (split_from [] u), same)
  | inr letter ↦ λ same.
      split_begun u (word ++ (c ∷ [])) x
        (sym (split_from-letter (word ++ (c ∷ [])) u x letter) ∙ same)
]

-- A text with a character that is no space has a word.
pub split_from-some :
    (t word u : Text) (c : ℕ) → is_space c ≡ false → split_from word (t ++ (c ∷ u)) ≢ []
split_from-some [] word u c h =
    λ same. split_begun u word c (sym (split_from-letter word u c h) ∙ same)
split_from-some (x ∷ t) word u c h = elim (Bool-cases (is_space x)) [
  | inl space ↦ λ same.
      ended_some word _ (split_from-some t [] u c h)
        (sym (split_from-space word (t ++ (c ∷ u)) x space) ∙ same)
  | inr letter ↦ λ same.
      split_from-some t (word ++ (x ∷ [])) u c h
        (sym (split_from-letter word (t ++ (c ∷ u)) x letter) ∙ same)
]

-- A word and the space behind it.
pub split_from-word :
    (w word rest : Text) (c space : ℕ)
    → IsWord (c ∷ w)
    → is_space space ≡ true
    → split_from word ((c ∷ w) ++ (space ∷ rest)) ≡ (word ++ (c ∷ w)) ∷ split rest
split_from-word [] word rest c space h gap =
    split_from-letter word (space ∷ rest) c h.0
    ∙ split_from-space (word ++ (c ∷ [])) rest space gap
    ∙ ended_begun word c (split rest)
split_from-word (x ∷ w) word rest c space h gap =
    split_from-letter word (x ∷ (w ++ (space ∷ rest))) c h.0
    ∙ split_from-word w (word ++ (c ∷ [])) rest x space h.1 gap
    ∙ ap (λ (v : Text). v ∷ split rest) (append_assoc word (c ∷ []) (x ∷ w))

split_from-strip_right : (t word : Text) → split_from word (strip_right t) ≡ split_from word t
unfolding strip_right split_from
split_from-strip_right [] word = refl
split_from-strip_right (c ∷ cs) word =
    go (strip_right cs) (λ w. split_from-strip_right cs w) (Bool-cases (is_space c))
  where
    go :
        (r : Text)
        → ((w : Text) → split_from w r ≡ split_from w cs)
        → (is_space c ≡ true) ⊎ (is_space c ≡ false)
        → split_from word (if is_empty r && is_space c then [] else c ∷ r)
          ≡ split_from word (c ∷ cs)
    go [] same (inl space) =
        rw space (ap (ended word) (same []) ∙ sym (split_from-space word cs c space))
    go (x ∷ r) same (inl space) =
        split_from-space word (x ∷ r) c space
        ∙ ap (ended word) (same [])
        ∙ sym (split_from-space word cs c space)
    go [] same (inr letter) = rw letter (
        split_from-letter word [] c letter
        ∙ same (word ++ (c ∷ []))
        ∙ sym (split_from-letter word cs c letter))
    go (x ∷ r) same (inr letter) =
        split_from-letter word (x ∷ r) c letter
        ∙ same (word ++ (c ∷ []))
        ∙ sym (split_from-letter word cs c letter)

split-strip_left : (t : Text) → split (strip_left t) ≡ split t
unfolding strip_left
split-strip_left [] = refl
split-strip_left (c ∷ cs) = elim (Bool-cases (is_space c)) [
  | inl space ↦ rw (space, strip_left) (split-strip_left cs ∙ sym (split_from-space [] cs c space))
  | inr letter ↦ rw (letter, strip_left) refl
]

-- `strip` does not change the words.
pub split-strip : (t : Text) → split (strip t) ≡ split t
unfolding strip
split-strip t = split_from-strip_right (strip_left t) [] ∙ split-strip_left t
