-- ===== src/Prelude/Bytes.antt =====
-- Byte buffers as lists of numbers below 256: prefixes, suffixes, and what appending to a buffer leaves
-- of them.
use orderbooks.Prelude.{
  ℕ, zero, suc, ◌+◌, ◌-◌, ◌≤◌, ◌≡◌, refl, ap, ◌∙◌, arith, List, [], ◌∷◌, ◌++◌, length, Bool, true,
  false, ◌&&◌, ◌==◌,
}

module _ {ℓ} {A : Type ℓ} where
  abbrev pub take : ℕ → List A → List A
  take zero xs = []
  take (suc n) [] = []
  take (suc n) (x ∷ xs) = x ∷ take n xs

  abbrev pub drop : ℕ → List A → List A
  drop zero xs = xs
  drop (suc n) [] = []
  drop (suc n) (x ∷ xs) = drop n xs

  pub take-append : (n : ℕ) (xs ys : List A) → n ≤ length xs → take n (xs ++ ys) ≡ take n xs
  take-append zero xs ys le = refl
  take-append (suc n) [] ys le = absurd (omega arith)
  take-append (suc n) (x ∷ xs) ys le = ap (λ t. x ∷ t) (take-append n xs ys (omega arith))

  pub drop-append : (n : ℕ) (xs ys : List A) → n ≤ length xs → drop n (xs ++ ys) ≡ drop n xs ++ ys
  drop-append zero xs ys le = refl
  drop-append (suc n) [] ys le = absurd (omega arith)
  drop-append (suc n) (x ∷ xs) ys le = drop-append n xs ys (omega arith)

  pub drop-length : (xs ys : List A) → drop (length xs) (xs ++ ys) ≡ ys
  drop-length [] ys = refl
  drop-length (x ∷ xs) ys = drop-length xs ys

  pub drop-length-add : (n : ℕ) (xs ys : List A) → drop (length xs + n) (xs ++ ys) ≡ drop n ys
  drop-length-add n [] ys = ap (λ v. drop v ys) (omega arith)
  drop-length-add n (x ∷ xs) ys =
      ap (λ v. drop v (x ∷ (xs ++ ys))) {y = suc (length xs + n)} (omega arith)
      ∙ drop-length-add n xs ys

  pub take-length : (xs ys : List A) → take (length xs) (xs ++ ys) ≡ xs
  take-length [] ys = refl
  take-length (x ∷ xs) ys = ap (λ t. x ∷ t) (take-length xs ys)

  pub length-drop : (n : ℕ) (xs : List A) → length (drop n xs) ≡ length xs - n
  length-drop zero xs = omega arith
  length-drop (suc n) [] = omega arith
  length-drop (suc n) (x ∷ xs) = omega (arith, length-drop n xs)

  pub length-take : (n : ℕ) (xs : List A) → n ≤ length xs → length (take n xs) ≡ n
  length-take zero xs le = refl
  length-take (suc n) [] le = absurd (omega arith)
  length-take (suc n) (x ∷ xs) le = omega (arith, length-take n xs (omega arith))

pub take-drop {ℓ} : {A : Type ℓ} (n : ℕ) (xs : List A) → take n xs ++ drop n xs ≡ xs
take-drop zero xs = refl
take-drop (suc n) [] = refl
take-drop (suc n) (x ∷ xs) = ap (λ t. x ∷ t) (take-drop n xs)

-- `buf.substr(i, n)`
abbrev pub substr : List ℕ → ℕ → ℕ → List ℕ
substr buf i n = take n (drop i buf)

-- `buf[i]`
abbrev pub byte_at : List ℕ → ℕ → List ℕ
byte_at buf i = substr buf i 1

pub substr-append :
    (buf more : List ℕ) (i n : ℕ) → i + n ≤ length buf → substr (buf ++ more) i n ≡ substr buf i n
substr-append buf more i n le =
    ap (take n) (drop-append i buf more (omega arith))
    ∙ take-append n (drop i buf) more (omega (arith, length-drop i buf))

-- Comparison of two texts.
abbrev pub same : List ℕ → List ℕ → Bool
same [] [] = true
same [] (y ∷ ys) = false
same (x ∷ xs) [] = false
same (x ∷ xs) (y ∷ ys) = (x == y) && same xs ys
