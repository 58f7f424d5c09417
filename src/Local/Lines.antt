-- ===== src/Local/Lines.antt =====
-- The lines that the callers of the local service send, and the words that it finds in them.
use mathlib.Core.List.{append_assoc, append-nil}
use ram_link.Base.{
  ℕ, some, true, List, [], ◌∷◌, ◌++◌, Bytes, ◌≡◌, refl, ◌∙◌, ap, sym, subst, arith, decimal,
}
use ram_link.Local.Text.{
  Text, Unicode, pos, int, decode_from, decode, is_space, strip, split_from, split,
}
use ram_link.Local.Words.{AreAscii, IsWord, decode_ascii, split_from-word, split-strip}
use ram_link.Local.Numbers.{decimal-IsWord, int-decimal}

-- `f"{name} {a} {b}\n".encode()`
abbrev pub command_line : Bytes → ℕ → ℕ → Bytes
command_line name a b = name ++ (b' ' ∷ (decimal a ++ (b' ' ∷ (decimal b ++ (b'\n' ∷ [])))))

append-AreAscii : (a b : Bytes) → AreAscii a → AreAscii b → AreAscii (a ++ b)
append-AreAscii [] b h k = k
append-AreAscii (x ∷ a) b h k = (h.0, append-AreAscii a b h.1 k)

decimal-AreAscii : (n : ℕ) → AreAscii (decimal n)
decimal-AreAscii n = let (c, cs, e, h, _) = decimal-IsWord n in subst AreAscii (sym e) h

line-AreAscii : (name : Bytes) (a b : ℕ) → AreAscii name → AreAscii (command_line name a b)
line-AreAscii name a b h = append-AreAscii name _ h (
  omega arith,
  append-AreAscii (decimal a) _ (decimal-AreAscii a)
      (omega arith, append-AreAscii (decimal b) _ (decimal-AreAscii b) (omega arith, tt)),
)

split-decimal :
    (n space : ℕ) (rest : Text)
    → is_space space ≡ true
    → split (decimal n ++ (space ∷ rest)) ≡ decimal n ∷ split rest
split-decimal n space rest gap =
    let (c, cs, e, _, word) = decimal-IsWord n in
    subst (λ (t : Text). split (t ++ (space ∷ rest)) ≡ t ∷ split rest) (sym e)
      (split_from-word cs [] rest c space word gap)

-- The words of a line, with any bytes behind it.
pub split-command_line :
    (c : ℕ) (name : Bytes) (a b : ℕ) (rest : Bytes)
    → AreAscii (c ∷ name)
    → IsWord (c ∷ name)
    → split (strip (decode (command_line (c ∷ name) a b ++ rest)))
      ≡ (c ∷ name) ∷ (decimal a ∷ (decimal b ∷ split (decode rest)))
unfolding is_space
split-command_line c name a b rest ascii word =
    split-strip (decode (command_line (c ∷ name) a b ++ rest))
    ∙ ap split
        (decode_ascii (command_line (c ∷ name) a b) rest (line-AreAscii (c ∷ name) a b ascii))
    ∙ ap split (append_assoc (c ∷ name) (b' ' ∷ (decimal a ++ (b' ' ∷ last))) text)
    ∙ split_from-word name [] ((decimal a ++ (b' ' ∷ last)) ++ text) c b' ' word refl
    ∙ ap (λ (t : List Text). (c ∷ name) ∷ t)
        (ap split (append_assoc (decimal a) (b' ' ∷ last) text)
          ∙ split-decimal a b' ' (last ++ text) refl
          ∙ ap (λ (t : List Text). decimal a ∷ t)
              (ap split (append_assoc (decimal b) (b'\n' ∷ []) text)
                ∙ split-decimal b b'\n' text refl))
  where
    text : Text
    text = decode rest

    last : Text
    last = decimal b ++ (b'\n' ∷ [])

-- What the service reads in a line that a caller has sent is the name of the command and the numbers that went in.
pub command_line-split :
    (unicode : Unicode) (c : ℕ) (name : Bytes) (a b : ℕ)
    → AreAscii (c ∷ name)
    → IsWord (c ∷ name)
    → (t : Text) × (u : Text) × (split (strip (decode (command_line (c ∷ name) a b)))
        ≡ (c ∷ name) ∷ (t ∷ (u ∷ [])))
      × (int unicode t ≡ some (pos a))
      × (int unicode u ≡ some (pos b))
unfolding split_from decode_from
command_line-split unicode c name a b ascii word = (
  decimal a,
  decimal b,
  ap (λ (line : Bytes). split (strip (decode line)))
        (sym (append-nil (command_line (c ∷ name) a b)))
      ∙ split-command_line c name a b [] ascii word,
  int-decimal unicode a,
  int-decimal unicode b,
)
