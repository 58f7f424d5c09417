-- ===== src/Wire/BigEndian.antt =====
-- `!B`, `!I` and `!Q` of Python's `struct`: a number as bytes, the highest first.
use mathlib.Core.List.{append-nil}
use native.Mathlib.Nat.{pow-suc, mul-le-mul_right, le_trans}
use ram_link.Base.{
  ℕ, zero, suc, ◌+◌, ◌*◌, ◌/◌, ◌%◌, ◌^◌, ◌<◌, ◌≡◌, [], ◌∷◌, ◌++◌, arith, length, Bytes, ap, ◌∙◌,
  take, drop, slice, ◌-◌, ◌≤◌,
}

abbrev pub IsByte : ℕ → Type 0
IsByte b = b < 256

abbrev pub AreBytes : Bytes → Type 0
AreBytes [] = Unit
AreBytes (b ∷ bs) = IsByte b × AreBytes bs

-- The low `w` bytes of `n`, in front of `rest`.
unfoldable pub be_into : ℕ → ℕ → Bytes → Bytes
be_into zero n rest = rest
be_into (suc w) n rest = be_into w (n / 256) ((n % 256) ∷ rest)

abbrev pub be_bytes : ℕ → ℕ → Bytes
be_bytes w n = be_into w n []

unfoldable pub value_from : ℕ → Bytes → ℕ
value_from acc [] = acc
value_from acc (b ∷ bs) = value_from (acc * 256 + b) bs

abbrev pub be_value : Bytes → ℕ
be_value = value_from 0

length-be_into : (w n : ℕ) (rest : Bytes) → length (be_into w n rest) ≡ w + length rest
unfolding be_into
length-be_into zero n rest = omega arith
length-be_into (suc w) n rest = omega (arith, length-be_into w (n / 256) ((n % 256) ∷ rest))

pub length-be_bytes : (w n : ℕ) → length (be_bytes w n) ≡ w
length-be_bytes w n = omega (arith, length-be_into w n [])

value_from-be_into :
    (w n acc : ℕ) (rest : Bytes)
    → n < 256 ^ w
    → value_from acc (be_into w n rest) ≡ value_from (acc * 256 ^ w + n) rest
unfolding be_into value_from
value_from-be_into zero n acc rest h =
    let e : acc ≡ acc * 256 ^ 0 + n = omega arith in ap (λ a. value_from a rest) e
value_from-be_into (suc w) n acc rest h =
    value_from-be_into w (n / 256) acc ((n % 256) ∷ rest) (omega (arith, pow-suc 256 w))
    ∙ ap (λ a. value_from a rest)
        (omega (arith, pow-suc 256 w, ap (λ (t : ℕ). acc * t) (pow-suc 256 w)))

-- A number that fits `w` bytes is read back.
pub be_value-be_bytes : (w n : ℕ) → n < 256 ^ w → be_value (be_bytes w n) ≡ n
unfolding value_from
be_value-be_bytes w n h = value_from-be_into w n 0 [] h ∙ omega arith

be_into-value_from :
    (bs : Bytes) (k acc : ℕ) (rest : Bytes)
    → AreBytes bs
    → be_into (length bs + k) (value_from acc bs) rest ≡ be_into k acc (bs ++ rest)
unfolding be_into value_from
be_into-value_from [] k acc rest h = let e : 0 + k ≡ k = omega arith in rw e
be_into-value_from (b ∷ bs) k acc rest h =
    let count : suc (length bs) + k ≡ length bs + suc k = omega arith in
    let high : (acc * 256 + b) / 256 ≡ acc = omega arith in
    let low : (acc * 256 + b) % 256 ≡ b = omega arith in
    rw count (be_into-value_from bs (suc k) (acc * 256 + b) rest h.1 ∙ rw (high, low))

-- Bytes are written back.
pub be_bytes-be_value :
    (bs : Bytes) (w : ℕ) → length bs ≡ w → AreBytes bs → be_bytes w (be_value bs) ≡ bs
unfolding be_into
be_bytes-be_value bs w e h =
    let count : w ≡ length bs + 0 = omega arith in
    rw count (be_into-value_from bs 0 0 [] h ∙ append-nil bs)

value_from-lt :
    (bs : Bytes) (acc : ℕ) → AreBytes bs → value_from acc bs < (acc + 1) * 256 ^ length bs
unfolding value_from
value_from-lt [] acc h = omega arith
value_from-lt (b ∷ bs) acc h =
    let step : acc * 256 + b + 1 ≤ (acc + 1) * 256 = omega arith in
    let widen = mul-le-mul_right (256 ^ length bs) step in
    let power : (acc + 1) * 256 ^ suc (length bs) ≡ (acc + 1) * 256 * 256 ^ length bs =
      omega (arith, ap (λ (t : ℕ). (acc + 1) * t) (pow-suc 256 (length bs))) in
    rw power (le_trans (value_from-lt bs (acc * 256 + b) h.1) widen)

-- The number that `w` bytes stand for fits `w` bytes.
pub be_value-lt : (bs : Bytes) (w : ℕ) → length bs ≡ w → AreBytes bs → be_value bs < 256 ^ w
be_value-lt bs w e h = rw (← e) (omega (arith, value_from-lt bs 0 h))

-- Every slice of bytes holds bytes.
take-AreBytes : (n : ℕ) (bs : Bytes) → AreBytes bs → AreBytes (take n bs)
take-AreBytes zero bs h = tt
take-AreBytes (suc n) [] h = tt
take-AreBytes (suc n) (b ∷ bs) h = (h.0, take-AreBytes n bs h.1)

drop-AreBytes : (n : ℕ) (bs : Bytes) → AreBytes bs → AreBytes (drop n bs)
drop-AreBytes zero bs h = h
drop-AreBytes (suc n) [] h = tt
drop-AreBytes (suc n) (b ∷ bs) h = drop-AreBytes n bs h.1

pub slice-AreBytes : (bs : Bytes) (a b : ℕ) → AreBytes bs → AreBytes (slice bs a b)
unfolding slice
slice-AreBytes bs a b h = take-AreBytes (b - a) (drop a bs) (drop-AreBytes a bs h)

pub append-AreBytes : (xs ys : Bytes) → AreBytes xs → AreBytes ys → AreBytes (xs ++ ys)
append-AreBytes [] ys h k = k
append-AreBytes (x ∷ xs) ys h k = (h.0, append-AreBytes xs ys h.1 k)
