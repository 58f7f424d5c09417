-- ===== src/Base/Lists.antt =====
-- Lists measured and indexed by native numbers, under the library's names.
use Prim.Native.Nat.{ℕ, zero, suc, ◌+◌, ◌-◌, ◌≤◌, min}
use mathlib.Core.Path.{◌≡◌, refl, ap}
use mathlib.Core.List.{List, [], ◌∷◌, ◌++◌}
use mathlib.Core.Option.{Option, none, some}
use native.Mathlib.Omega.{arith}
use ram_link.Base.Tests.{ltb, if◌then◌else◌}

module _ {ℓ} {A : Type ℓ} where
  abbrev pub length : List A → ℕ
  length [] = 0
  length (x ∷ xs) = suc (length xs)

  abbrev pub get_elem? : List A → ℕ → Option A
  get_elem? [] i = none
  get_elem? (x ∷ xs) zero = some x
  get_elem? (x ∷ xs) (suc i) = get_elem? xs i

  abbrev pub take : ℕ → List A → List A
  take zero xs = []
  take (suc n) [] = []
  take (suc n) (x ∷ xs) = x ∷ take n xs

  abbrev pub drop : ℕ → List A → List A
  drop zero xs = xs
  drop (suc n) [] = []
  drop (suc n) (x ∷ xs) = drop n xs

  unfoldable pub replicate : ℕ → A → List A
  replicate zero a = []
  replicate (suc n) a = a ∷ replicate n a

  pub length-append : (xs ys : List A) → length (xs ++ ys) ≡ length xs + length ys
  length-append [] ys = omega arith
  length-append (x ∷ xs) ys = omega (arith, length-append xs ys)

  pub length-take : (n : ℕ) (xs : List A) → length (take n xs) ≡ min n (length xs)
  length-take zero xs = omega arith
  length-take (suc n) [] = omega arith
  length-take (suc n) (x ∷ xs) = omega (arith, length-take n xs)

  pub length-drop : (n : ℕ) (xs : List A) → length (drop n xs) ≡ length xs - n
  length-drop zero xs = omega arith
  length-drop (suc n) [] = omega arith
  length-drop (suc n) (x ∷ xs) = omega (arith, length-drop n xs)

  pub length-replicate : (n : ℕ) (a : A) → length (replicate n a) ≡ n
  unfolding replicate
  length-replicate zero a = refl
  length-replicate (suc n) a = ap suc (length-replicate n a)

  pub take-append-drop : (n : ℕ) (xs : List A) → take n xs ++ drop n xs ≡ xs
  take-append-drop zero xs = refl
  take-append-drop (suc n) [] = refl
  take-append-drop (suc n) (x ∷ xs) = rw (take-append-drop n xs)

  pub take_of_length-le : (n : ℕ) (xs : List A) → length xs ≤ n → take n xs ≡ xs
  take_of_length-le zero [] short = refl
  take_of_length-le (suc n) [] short = refl
  take_of_length-le zero (x ∷ xs) short = absurd (omega arith)
  take_of_length-le (suc n) (x ∷ xs) short = rw (take_of_length-le n xs (omega arith))

  pub drop_of_length-le : (n : ℕ) (xs : List A) → length xs ≤ n → drop n xs ≡ []
  drop_of_length-le zero [] h = refl
  drop_of_length-le zero (x ∷ xs) h = absurd (omega arith)
  drop_of_length-le (suc n) [] h = refl
  drop_of_length-le (suc n) (x ∷ xs) h = drop_of_length-le n xs (omega arith)

  pub take-append :
      (n : ℕ) (xs ys : List A) → length xs ≤ n → take n (xs ++ ys) ≡ xs ++ take (n - length xs) ys
  take-append n [] ys h = let e : n - 0 ≡ n = omega arith in rw e
  take-append zero (x ∷ xs) ys h = absurd (omega arith)
  take-append (suc n) (x ∷ xs) ys h =
      let e : suc n - suc (length xs) ≡ n - length xs = omega arith in
      rw (take-append n xs ys (omega arith), e)

  pub drop-append :
      (n : ℕ) (xs ys : List A) → length xs ≤ n → drop n (xs ++ ys) ≡ drop (n - length xs) ys
  drop-append n [] ys h = let e : n - 0 ≡ n = omega arith in rw e
  drop-append zero (x ∷ xs) ys h = absurd (omega arith)
  drop-append (suc n) (x ∷ xs) ys h =
      let e : suc n - suc (length xs) ≡ n - length xs = omega arith in
      rw (drop-append n xs ys (omega arith), e)

  -- The element at an index, through each of the operations.
  pub get_elem?-append :
      (xs ys : List A) (i : ℕ)
      → get_elem? (xs ++ ys) i
        ≡ (if ltb i (length xs) then get_elem? xs i else get_elem? ys (i - length xs))
  get_elem?-append [] ys i = ground arith
  get_elem?-append (x ∷ xs) ys zero = ground arith
  get_elem?-append (x ∷ xs) ys (suc i) = ground (arith, get_elem?-append xs ys i)

  pub get_elem?-take :
      (n : ℕ) (xs : List A) (i : ℕ)
      → get_elem? (take n xs) i ≡ (if ltb i n then get_elem? xs i else none)
  get_elem?-take zero xs i = ground arith
  get_elem?-take (suc n) [] i = ground arith
  get_elem?-take (suc n) (x ∷ xs) zero = ground arith
  get_elem?-take (suc n) (x ∷ xs) (suc i) = ground (arith, get_elem?-take n xs i)

  pub get_elem?-drop :
      (n : ℕ) (xs : List A) (i : ℕ) → get_elem? (drop n xs) i ≡ get_elem? xs (n + i)
  get_elem?-drop zero xs i = ground arith
  get_elem?-drop (suc n) [] i = ground arith
  get_elem?-drop (suc n) (x ∷ xs) i = ground (arith, get_elem?-drop n xs i)

  pub get_elem?-replicate :
      (n : ℕ) (a : A) (i : ℕ) → get_elem? (replicate n a) i ≡ (if ltb i n then some a else none)
  unfolding replicate
  get_elem?-replicate zero a i = ground arith
  get_elem?-replicate (suc n) a zero = ground arith
  get_elem?-replicate (suc n) a (suc i) = ground (arith, get_elem?-replicate n a i)

  pub get_elem?_of_length-le : (xs : List A) (i : ℕ) → length xs ≤ i → get_elem? xs i ≡ none
  get_elem?_of_length-le [] i h = refl
  get_elem?_of_length-le (x ∷ xs) zero h = absurd (omega arith)
  get_elem?_of_length-le (x ∷ xs) (suc i) h = get_elem?_of_length-le xs i (omega arith)

  -- Two lists with the same elements at every index are equal.
  pub ext_get_elem? : (xs ys : List A) → ((i : ℕ) → get_elem? xs i ≡ get_elem? ys i) → xs ≡ ys
  ext_get_elem? [] [] h = refl
  ext_get_elem? [] (y ∷ ys) h = cc (h 0)
  ext_get_elem? (x ∷ xs) [] h = cc (h 0)
  ext_get_elem? (x ∷ xs) (y ∷ ys) h = cc (h 0, ext_get_elem? xs ys (λ i. h (suc i)))

-- `P` holds of every element.
abbrev pub All {ℓ κ} : {A : Type ℓ} → (A → Type κ) → List A → Type κ
All P [] = Unit
All P (x ∷ xs) = P x × All P xs

pub All-mono {ℓ κ μ} :
    {A : Type ℓ} {P : A → Type κ} {Q : A → Type μ} (xs : List A)
    → ((x : A) → P x → Q x)
    → All P xs
    → All Q xs
All-mono [] f h = tt
All-mono (x ∷ xs) f h = (f x h.0, All-mono xs f h.1)

module _ {ℓ} {A : Type ℓ} where
  pub take_whole : (n : ℕ) (xs ys : List A) → length xs ≡ n → take n (xs ++ ys) ≡ xs
  take_whole n [] ys h = rw (← h) refl
  take_whole zero (x ∷ xs) ys h = absurd (omega arith)
  take_whole (suc n) (x ∷ xs) ys h = rw (take_whole n xs ys (omega arith))

  pub drop_whole : (n : ℕ) (xs ys : List A) → length xs ≡ n → drop n (xs ++ ys) ≡ ys
  drop_whole n [] ys h = rw (← h) refl
  drop_whole zero (x ∷ xs) ys h = absurd (omega arith)
  drop_whole (suc n) (x ∷ xs) ys h = drop_whole n xs ys (omega arith)

  pub drop_all : (xs : List A) → drop (length xs) xs ≡ []
  drop_all [] = refl
  drop_all (x ∷ xs) = drop_all xs
