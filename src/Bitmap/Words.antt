-- ===== src/Bitmap/Words.antt =====
-- The masks of include/lob/bitmap.hpp read digit by digit, and writes to one bit of a tier.
use Prim.Native.Nat.{min, bit_and-bitwise}
use native.Mathlib.Nat.{pow-suc, one-le-pow}
use orderbooks.Prelude.{
  subst, Bool-cases, ==_iff, inl, inr, sym, ◌∙◌, ◌*◌, false, ◌≢◌, ==_iff, ℕ, zero, suc, ◌+◌, ◌-◌,
  ◌/◌, ◌%◌, ◌^◌, ◌<◌, ◌≡◌, refl, arith, Bool, true, ◌&&◌, ◌==◌, ltb, leb, if◌then◌else◌, bit_and,
  bit_or, inl, inr, Bool-cases, ap,
}
use orderbooks.Prelude.Bits.{
  bit_and-zero, digit, digit-bit_and, digit-bit_or, digit-le-one, digit-zero, digit-pow,
  unroll-bit_and, unroll-bit_or,
}
use orderbooks.Prelude.Word.{all_ones, complement, shift_left, digit-complement, digit_ones}
use orderbooks.Prelude.Word.{IsLowest-ne-zero, countr_zero, countr_zero-IsLowest}
use orderbooks.Bitmap.{mask, high_mask, low_mask_inclusive, set_bit, clear_bit}

-- Shifts at every distance, by evaluation.
-- Rows of a table are tried from the last one down.
tried : (ℕ → Bool) → ℕ → Bool
tried row zero = true
tried row (suc last) = tried row last && row last

row_of_tried : (row : ℕ → Bool) (rows k : ℕ) → k < rows → tried row rows ≡ true → row k ≡ true
unfolding tried
row_of_tried row zero k inside all = absurd (omega arith)
row_of_tried row (suc last) k inside all = elim (Bool-cases (k == last)) [
  | inl e ↦ subst (λ v. row v ≡ true) (sym ((==_iff k last).0 e)) (ground arith)
  | inr ne ↦ row_of_tried row last k (ground arith) (ground arith)
]

mask_table : tried (λ k. shift_left 1 k == 2 ^ k && ltb (2 ^ k) (2 ^ 64)) 64 ≡ true
unfolding tried
mask_table = refl

high_table :
    tried (λ k. shift_left all_ones k == complement (2 ^ k - 1) && ltb (2 ^ k - 1) (2 ^ 64)) 64
    ≡ true
unfolding tried
high_table = refl

low_table : tried (λ k. shift_left 1 (k + 1) - 1 == 2 ^ suc k - 1) 63 ≡ true
unfolding tried
low_table = refl

pub mask-pow : (bit : ℕ) → (mask bit ≡ 2 ^ (bit % 64)) × (mask bit < 2 ^ 64)
unfolding mask
mask-pow bit = ground (
  arith,
  row_of_tried (λ k. shift_left 1 k == 2 ^ k && ltb (2 ^ k) (2 ^ 64)) 64 (bit % 64) (omega arith)
      mask_table,
)

pub digit-mask : (bit k : ℕ) → digit (mask bit) k ≡ (if bit % 64 == k then 1 else 0)
digit-mask bit k = rw ((mask-pow bit).0) (digit-pow (bit % 64) k)

pub digit-high_mask :
    (off k : ℕ) → off < 64 → k < 64 → digit (high_mask off) k ≡ (if leb off k then 1 else 0)
unfolding high_mask
digit-high_mask off k h lt = ground (
  arith,
  row_of_tried (λ k. shift_left all_ones k == complement (2 ^ k - 1) && ltb (2 ^ k - 1) (2 ^ 64)) 64
      off h high_table,
  digit-complement (2 ^ off - 1) k,
  digit_ones off k,
)

pub digit-low_mask :
    (off k : ℕ) → off < 64 → digit (low_mask_inclusive off) k ≡ (if leb k off then 1 else 0)
unfolding low_mask_inclusive
digit-low_mask off k h = elim (Bool-cases (off == 63)) [
  | inl e ↦ rw e (ground (arith, digit_ones 64 k))
  | inr e ↦ rw e (
      ground (
        arith,
        row_of_tried (λ k. shift_left 1 (k + 1) - 1 == 2 ^ suc k - 1) 63 off (ground arith)
            low_table,
        digit_ones (suc off) k,
      ))
]

pub bit_or-lt : (n a b : ℕ) → a < 2 ^ n → b < 2 ^ n → bit_or a b < 2 ^ n
bit_or-lt zero a b ha hb =
    let both : bit_or a b ≡ bit_or 0 0 =
      rw (ap (λ v. v) {x = a} {y = 0} (omega arith), ap (λ v. v) {x = b} {y = 0} (omega arith)) in
    rw both (omega arith)
bit_or-lt (suc n) a b ha hb = omega (
  arith,
  unroll-bit_or a b,
  pow-suc 2 n,
  bit_or-lt n (a / 2) (b / 2) (omega (arith, pow-suc 2 n)) (omega (arith, pow-suc 2 n)),
)

pub bit_and-lt : (n a b : ℕ) → a < 2 ^ n → bit_and a b < 2 ^ n
bit_and-lt zero a b h =
    let none_left : bit_and a b ≡ 0 =
      rw (ap (λ v. v) {x = a} {y = 0} (omega arith)) (bit_and-bitwise 0 b) in
    rw none_left (omega arith)
bit_and-lt (suc n) a b h = omega (
  arith,
  unroll-bit_and a b,
  pow-suc 2 n,
  bit_and-lt n (a / 2) (b / 2) (omega (arith, pow-suc 2 n)),
)

-- A tier read as one run of bits.
abbrev pub bit_at : (ℕ → ℕ) → ℕ → ℕ
bit_at words i = digit (words (i / 64)) (i % 64)

abbrev pub AreWords : (ℕ → ℕ) → Type 0
AreWords words = (j : ℕ) → words j < 2 ^ 64

pub set_bit-AreWords : (words : ℕ → ℕ) (bit : ℕ) → AreWords words → AreWords (set_bit words bit)
unfolding set_bit
set_bit-AreWords words bit w j =
    ground
      (arith, w j, bit_or-lt 64 (words (bit / 64)) (mask bit) (w (bit / 64)) ((mask-pow bit).1))

pub clear_bit-AreWords :
    (hint : Bool) (words : ℕ → ℕ) (bit : ℕ) → AreWords words → AreWords (clear_bit hint words bit)
unfolding clear_bit
clear_bit-AreWords hint words bit w j = ground (
  arith,
  w j,
  bit_and-lt 64 (words (bit / 64)) (complement (bit_and (mask bit) (if hint then all_ones else 0)))
      (w (bit / 64)),
)

pub bit_at-set_bit :
    (words : ℕ → ℕ) (bit i : ℕ)
    → bit_at (set_bit words bit) i ≡ (if bit == i then 1 else bit_at words i)
unfolding set_bit
bit_at-set_bit words bit i = ground (
  arith,
  digit-bit_or (words (bit / 64)) (mask bit) (i % 64),
  digit-mask bit (i % 64),
  digit-le-one (words (bit / 64)) (i % 64),
)

digit-unmask :
    (hint : Bool) (w bit k : ℕ)
    → k < 64
    → digit (bit_and w (complement (bit_and (mask bit) (if hint then all_ones else 0)))) k
      ≡ (if hint && (bit % 64 == k) then 0 else digit w k)
digit-unmask hint w bit k h = ground (
  arith,
  digit-bit_and w (complement (bit_and (mask bit) (if hint then all_ones else 0))) k,
  digit-complement (bit_and (mask bit) (if hint then all_ones else 0)) k
      (bit_and-lt 64 (mask bit) (if hint then all_ones else 0) ((mask-pow bit).1)),
  digit-bit_and (mask bit) (if hint then all_ones else 0) k,
  digit-mask bit k,
  digit_ones 64 k,
  digit-zero k,
  digit-le-one w k,
)

pub bit_at-clear_bit :
    (hint : Bool) (words : ℕ → ℕ) (bit i : ℕ)
    → bit_at (clear_bit hint words bit) i ≡ (if hint && (bit == i) then 0 else bit_at words i)
unfolding clear_bit
bit_at-clear_bit hint words bit i =
    ground (arith, digit-unmask hint (words (bit / 64)) bit (i % 64))

pub bit_and_ones : (n a : ℕ) → a < 2 ^ n → bit_and a (2 ^ n - 1) ≡ a
bit_and_ones zero a h =
    let none_left : bit_and a 0 ≡ 0 =
      rw (ap (λ v. v) {x = a} {y = 0} (omega arith)) (bit_and-bitwise 0 0) in
    rw none_left (omega arith)
bit_and_ones (suc n) a h =
    let half : (2 ^ suc n - 1) / 2 ≡ 2 ^ n - 1 = omega (arith, pow-suc 2 n) in
    let rest = bit_and_ones n (a / 2) (omega (arith, pow-suc 2 n)) in
    let step : bit_and a (2 ^ suc n - 1)
        ≡ bit_and (a / 2) (2 ^ n - 1) * 2 + min (a % 2) ((2 ^ suc n - 1) % 2) =
      sym (unroll-bit_and a (2 ^ suc n - 1)) ∙ (rw half) in
    omega (arith, step, rest, pow-suc 2 n, one-le-pow n 2)

-- With no hint the write changes nothing.
pub clear_bit-false :
    (words : ℕ → ℕ) (bit j : ℕ) → AreWords words → clear_bit false words bit j ≡ words j
unfolding clear_bit
clear_bit-false words bit j w =
    ground (arith, bit_and-zero (mask bit), bit_and_ones 64 (words (bit / 64)) (w (bit / 64)))

pub set_bit-ne-zero : (words : ℕ → ℕ) (bit : ℕ) → set_bit words bit (bit / 64) ≢ 0
set_bit-ne-zero words bit =
    IsLowest-ne-zero (set_bit words bit (bit / 64)) (bit % 64)
      (ground (arith, bit_at-set_bit words bit bit))

-- A word with no digit is zero.
pub eq-zero_of_digits : (w : ℕ) → w < 2 ^ 64 → ((k : ℕ) → k < 64 → digit w k ≡ 0) → w ≡ 0
eq-zero_of_digits w h none_set = elim (Bool-cases (w == 0)) [
  | inl e ↦ (==_iff _ _).0 e
  | inr ne ↦
      let low = countr_zero-IsLowest w (ground arith) h in
      absurd (omega (arith, low.0.here, none_set (countr_zero w) low.1))
]
