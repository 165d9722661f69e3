-- ===== src/Prelude/Bits.antt =====
-- The digit equations of `bit_and` and `bit_or`, and the binary digit of a number at a position.
use Prim.Native.Nat.{digits, bit_and-bitwise, bit_or-bitwise}
use native.Mathlib.Nat.{le_refl, pow-suc, pow-succ', div-div-eq-div-mul}
use orderbooks.Prelude.{
  sym, ap, ◌∙◌, ◌-◌, ℕ, zero, suc, ◌+◌, ◌*◌, ◌/◌, ◌%◌, ◌^◌, ◌≤◌, min, max, bit_and, bit_or, ◌≡◌,
  refl, arith, ◌==◌, if◌then◌else◌,
}

-- Rounds beyond the first number's own size change nothing, so `bitwise` may be unrolled by a digit.
module _ (over : ℕ → ℕ) (op : ℕ → ℕ → ℕ) where
  exhausted : (n y : ℕ) → digits over op n 0 y ≡ over y
  exhausted zero y = refl
  exhausted (suc n) y = refl

  spare_rounds :
      (need spare x y : ℕ) → x ≤ need → digits over op need x y ≡ digits over op (spare + need) x y
  spare_rounds need spare zero y small = exhausted need y ∙ sym (exhausted (spare + need) y)
  spare_rounds zero spare (suc x) y small = absurd (omega arith)
  spare_rounds (suc need) spare (suc x) y small =
      let halves = spare_rounds need spare (suc x / 2) (y / 2) (omega arith) in
      let grown : spare + suc need ≡ suc (spare + need) = omega arith in
      rw grown (ap (λ (v : ℕ). v * 2 + op (suc x % 2) (y % 2)) halves)

  unroll-digits :
      (x y : ℕ)
      → digits over op (suc x / 2) (suc x / 2) (y / 2) * 2 + op (suc x % 2) (y % 2)
        ≡ digits over op (suc x) (suc x) y
  unroll-digits x y =
      let half = suc x / 2 in
      let all : x - half + half ≡ x = omega arith in
      ap (λ (v : ℕ). v * 2 + op (suc x % 2) (y % 2))
        (spare_rounds half (x - half) half (y / 2) (le_refl half)
          ∙ ap (λ (n : ℕ). digits over op n half (y / 2)) all)

pub unroll-bit_or : (x y : ℕ) → bit_or (x / 2) (y / 2) * 2 + max (x % 2) (y % 2) ≡ bit_or x y
unroll-bit_or zero y = simp bit_or-bitwise (omega arith)
unroll-bit_or (suc x) y = simp bit_or-bitwise (unroll-digits (λ v. v) max x y)

pub unroll-bit_and : (x y : ℕ) → bit_and (x / 2) (y / 2) * 2 + min (x % 2) (y % 2) ≡ bit_and x y
unroll-bit_and zero y = simp bit_and-bitwise (omega arith)
unroll-bit_and (suc x) y = simp bit_and-bitwise (unroll-digits (λ v. 0) min x y)

-- The digit of `w` at position `k`.
abbrev pub digit : ℕ → ℕ → ℕ
digit w zero = w % 2
digit w (suc k) = digit (w / 2) k

pub digit-bit_and : (a b k : ℕ) → digit (bit_and a b) k ≡ min (digit a k) (digit b k)
digit-bit_and a b zero = omega (arith, unroll-bit_and a b)
digit-bit_and a b (suc k) =
    let half : bit_and a b / 2 ≡ bit_and (a / 2) (b / 2) = omega (arith, unroll-bit_and a b) in
    rw half (digit-bit_and (a / 2) (b / 2) k)

pub digit-bit_or : (a b k : ℕ) → digit (bit_or a b) k ≡ max (digit a k) (digit b k)
digit-bit_or a b zero = omega (arith, unroll-bit_or a b)
digit-bit_or a b (suc k) =
    let half : bit_or a b / 2 ≡ bit_or (a / 2) (b / 2) = omega (arith, unroll-bit_or a b) in
    rw half (digit-bit_or (a / 2) (b / 2) k)

pub digit-le-one : (w k : ℕ) → digit w k ≤ 1
digit-le-one w zero = omega arith
digit-le-one w (suc k) = digit-le-one (w / 2) k

pub digit-zero : (k : ℕ) → digit 0 k ≡ 0
digit-zero zero = refl
digit-zero (suc k) = digit-zero k

pub digit-pow : (n k : ℕ) → digit (2 ^ n) k ≡ (if n == k then 1 else 0)
digit-pow zero zero = refl
digit-pow zero (suc k) = ground (arith, digit-zero k)
digit-pow (suc n) zero = ground (arith, pow-suc 2 n)
digit-pow (suc n) (suc k) =
    let half : 2 ^ suc n / 2 ≡ 2 ^ n = omega (arith, pow-suc 2 n) in
    rw half (ground (arith, digit-pow n k))

-- Against a number without digits nothing is kept, whatever the rounds.
digits-none : (rounds x : ℕ) → digits (λ v. 0) min rounds x 0 ≡ 0
digits-none zero x = refl
digits-none (suc rounds) zero = refl
digits-none (suc rounds) (suc x) =
    let upper = digits-none rounds (suc x / 2) in omega (arith, upper)

pub bit_and-zero : (w : ℕ) → bit_and w 0 ≡ 0
bit_and-zero w = simp bit_and-bitwise (digits-none w w)

pub bit_and-one : (w : ℕ) → bit_and w 1 ≡ w % 2
bit_and-one w =
    let upper = bit_and-zero (w / 2) in
    let whole = unroll-bit_and w 1 in omega (arith, upper, whole)

-- A shift and a remainder read the digit.
pub digit-eq-div-mod : (w k : ℕ) → digit w k ≡ w / 2 ^ k % 2
digit-eq-div-mod w zero = omega arith
digit-eq-div-mod w (suc k) =
    rw (pow-succ' 2 k, ← div-div-eq-div-mul w 2 (2 ^ k)) (digit-eq-div-mod (w / 2) k)
