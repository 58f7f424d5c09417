-- ===== src/Local/Text.antt =====
-- What the local protocol uses of Python's `str`: `decode("utf-8", "replace")`, `strip`, `split`, `upper` and `int`.
use ram_link.Base.{
  ℕ, zero, suc, ◌+◌, ◌-◌, ◌*◌, Bool, true, false, ◌&&◌, ◌||◌, ltb, leb, ◌==◌, if◌then◌else◌, Option,
  none, some, List, [], ◌∷◌, ◌++◌, Bytes,
}

-- Code points.
abbrev pub Text : Type 0
Text = List ℕ

-- What `decode` puts for bytes that it cannot read.
abbrev pub replacement : ℕ
replacement = 65533

-- Between two characters, or inside one: how many bytes are to come, the bounds of the next, and the value so far.
pub data Decoding : Type 0 where
  between : Decoding
  inside : (more lowest highest value : ℕ) → Decoding

-- The first byte of a character.
unfoldable pub first_byte : ℕ → Text × Decoding
first_byte b =
    if ltb b 128
    then (b ∷ [], between)
    else if ltb b 194
    then (replacement ∷ [], between)
    else if ltb b 224
    then ([], inside 1 128 191 (b - 192))
    else if b == 224
    then ([], inside 2 160 191 0)
    else if b == 237
    then ([], inside 2 128 159 13)
    else if ltb b 240
    then ([], inside 2 128 191 (b - 224))
    else if b == 240
    then ([], inside 3 144 191 0)
    else if ltb b 244
    then ([], inside 3 128 191 (b - 240))
    else if b == 244
    then ([], inside 3 128 143 4)
    else (replacement ∷ [], between)

unfoldable pub next_byte : Decoding → ℕ → Text × Decoding
unfolding first_byte
next_byte between b = first_byte b
next_byte (inside more lowest highest value) b =
    let value' = value * 64 + (b - 128) in
    if leb lowest b && leb b highest
    then (if more == 1 then (value' ∷ [], between) else ([], inside (more - 1) 128 191 value'))
    else (replacement ∷ (first_byte b).0, (first_byte b).1)

unfoldable pub decode_from : Decoding → Bytes → Text
unfolding next_byte
decode_from between [] = []
decode_from (inside more lowest highest value) [] = replacement ∷ []
decode_from d (b ∷ bs) = let (t, d') = next_byte d b in t ++ decode_from d' bs

-- `decode("utf-8", "replace")`
abbrev pub decode : Bytes → Text
decode = decode_from between

-- `c.isspace()`, as `strip` and `split` have it
unfoldable pub is_space : ℕ → Bool
is_space c =
    (leb 9 c && leb c 13)
    || (leb 28 c && leb c 32)
    || (c == 133)
    || (c == 160)
    || (c == 5760)
    || (leb 8192 c && leb c 8202)
    || (leb 8232 c && leb c 8233)
    || (c == 8239)
    || (c == 8287)
    || (c == 12288)

abbrev pub is_empty : Text → Bool
is_empty [] = true
is_empty (c ∷ cs) = false

unfoldable pub strip_left : Text → Text
strip_left [] = []
strip_left (c ∷ cs) = let rest = strip_left cs in if is_space c then rest else c ∷ cs

unfoldable pub strip_right : Text → Text
strip_right [] = []
strip_right (c ∷ cs) =
    let rest = strip_right cs in if is_empty rest && is_space c then [] else c ∷ rest

-- `strip()`
unfoldable pub strip : Text → Text
unfolding strip_left strip_right
strip t = strip_right (strip_left t)

-- A word that has ended, before the words behind it.
abbrev pub ended : Text → List Text → List Text
ended word words = if is_empty word then words else word ∷ words

-- The words of a text behind the word that was begun.
unfoldable pub split_from : Text → Text → List Text
split_from word [] = ended word []
split_from word (c ∷ cs) = elim (is_space c) [
  | true ↦ ended word (split_from [] cs)
  | false ↦ split_from (word ++ (c ∷ [])) cs
]

-- `split()`
abbrev pub split : Text → List Text
split = split_from []

-- What Python knows of a character beyond ASCII.
pub record Unicode : Type 0 where
  -- `c.upper()`
  pub upper : ℕ → Text
  -- the value of a decimal digit
  pub digit : ℕ → Option ℕ

pub data ℤ : Type 0 where
  pos : ℕ → ℤ
  negsuc : ℕ → ℤ

abbrev pub neg : ℕ → ℤ
neg zero = pos zero
neg (suc n) = negsuc n

module _ (unicode : Unicode) where
  -- `upper()`
  unfoldable pub upper : Text → Text
  upper [] = []
  upper (c ∷ cs) =
      (if leb 97 c && leb c 122
        then (c - 32) ∷ []
        else if ltb c 128
        then c ∷ []
        else unicode.upper c)
      ++ upper cs

  unfoldable pub digit_of : ℕ → Option ℕ
  digit_of c =
      if leb 48 c && leb c 57 then some (c - 48) else if ltb c 128 then none else unicode.digit c

  -- The digits of a number, with single underscores between them; the flag tells whether a digit came last.
  unfoldable pub digits : Bool → ℕ → Text → Option ℕ
  unfolding digit_of
  digits after value [] = if after then some value else none
  digits after value (c ∷ cs) = elim (digit_of c) [
    | some d ↦ digits true (value * 10 + d) cs
    | none ↦ elim (c == b'_' && after) [ true ↦ digits false value cs | false ↦ none ]
  ]

  abbrev pub signed : (ℕ → ℤ) → Option ℕ → Option ℤ
  signed sign none = none
  signed sign (some n) = some (sign n)

  -- `int(text)` of a text with no spaces, at most 4300 characters long
  unfoldable pub int : Text → Option ℤ
  unfolding digits
  int [] = none
  int (c ∷ cs) =
      if c == b'-'
      then signed neg (digits false 0 cs)
      else if c == b'+'
      then signed pos (digits false 0 cs)
      else signed pos (digits false 0 (c ∷ cs))
