-- ===== src/Prelude/Word.antt =====
-- `uint64_t` as native numbers below 2 ^ 64, and what the code uses of <bit>: complement, shifts,
-- `std::countr_zero` and `std::countl_zero`, each with its defining property.
use native.Mathlib.Nat.{pow-suc, one-le-pow}
use orderbooks.Prelude.{
  ℕ, zero, suc, ◌+◌, ◌-◌, ◌*◌, ◌/◌, ◌%◌, ◌^◌, ◌≤◌, ◌<◌, ◌≡◌, ◌≢◌, refl, arith, ◌==◌, if◌then◌else◌,
  ltb, inl, inr, Bool-cases, ap, ==_iff,
}
use orderbooks.Prelude.Bits.{digit, digit-zero}

-- `~std::uint64_t{0}`
abbrev pub all_ones : ℕ
all_ones = 2 ^ 64 - 1

-- `~x`
abbrev pub complement : ℕ → ℕ
complement x = all_ones - x

abbrev pub shift_left : ℕ → ℕ → ℕ
shift_left x k = x * 2 ^ k % 2 ^ 64

abbrev pub shift_right : ℕ → ℕ → ℕ
shift_right x k = x / 2 ^ k

-- Unsigned subtraction and addition wrap.
abbrev pub sub_u64 : ℕ → ℕ → ℕ
sub_u64 a b = (a + 2 ^ 64 - b) % 2 ^ 64

abbrev pub add_u64 : ℕ → ℕ → ℕ
add_u64 a b = (a + b) % 2 ^ 64

trailing_zeros : ℕ → ℕ → ℕ
trailing_zeros zero w = 0
trailing_zeros (suc f) w = if w % 2 == 1 then 0 else suc (trailing_zeros f (w / 2))

bit_width : ℕ → ℕ → ℕ
bit_width zero w = 0
bit_width (suc f) w = if w == 0 then 0 else suc (bit_width f (w / 2))

-- `std::countr_zero`: 64 for zero.
unfoldable pub countr_zero : ℕ → ℕ
unfolding trailing_zeros
countr_zero w = trailing_zeros 64 w

-- `std::countl_zero`: 64 for zero.
unfoldable pub countl_zero : ℕ → ℕ
unfolding bit_width
countl_zero w = 64 - bit_width 64 w

-- The digits of a complement.
digit-sub : (n m k : ℕ) → m < 2 ^ n → k < n → digit (2 ^ n - 1 - m) k ≡ 1 - digit m k
digit-sub zero m k h lt = absurd (omega arith)
digit-sub (suc n) m zero h lt = omega (arith, pow-suc 2 n)
digit-sub (suc n) m (suc k) h lt =
    let half : (2 ^ suc n - 1 - m) / 2 ≡ 2 ^ n - 1 - m / 2 = omega (arith, pow-suc 2 n) in
    rw half (digit-sub n (m / 2) k (omega (arith, pow-suc 2 n)) (omega arith))

pub digit-complement : (m k : ℕ) → m < 2 ^ 64 → k < 64 → digit (complement m) k ≡ 1 - digit m k
digit-complement m k h lt = digit-sub 64 m k h lt

-- A number below 2 ^ n has no digit from position n on.
pub digit_above : (n w k : ℕ) → w < 2 ^ n → n ≤ k → digit w k ≡ 0
digit_above zero w k h le =
    ground (arith, ap (λ v. digit v k) {x = w} {y = 0} (omega arith), digit-zero k)
digit_above (suc n) w zero h le = absurd (omega arith)
digit_above (suc n) w (suc k) h le =
    digit_above n (w / 2) k (omega (arith, pow-suc 2 n)) (omega arith)

-- `2 ^ n - 1` is `n` ones.
pub digit_ones : (n k : ℕ) → digit (2 ^ n - 1) k ≡ (if ltb k n then 1 else 0)
digit_ones zero k = ground (arith, digit-zero k)
digit_ones (suc n) zero = ground (arith, pow-suc 2 n, one-le-pow n 2)
digit_ones (suc n) (suc k) =
    let half : (2 ^ suc n - 1) / 2 ≡ 2 ^ n - 1 = omega (arith, pow-suc 2 n) in
    rw half (ground (arith, digit_ones n k))

-- `k` is the lowest position with the digit 1, or the highest.
pub record IsLowest (w k : ℕ) : Type 0 where
  pub here : digit w k ≡ 1
  pub below : (j : ℕ) → j < k → digit w j ≡ 0

pub record IsHighest (w k : ℕ) : Type 0 where
  pub here : digit w k ≡ 1
  pub above : (j : ℕ) → k < j → digit w j ≡ 0

IsLowest-double : (w k : ℕ) → w % 2 ≡ 0 → IsLowest (w / 2) k → IsLowest w (suc k)
IsLowest-double w k even v = record { here = v.here; below = low }
  where
    low : (j : ℕ) → j < suc k → digit w j ≡ 0
    low zero lt = even
    low (suc j) lt = v.below j (omega arith)

IsHighest-double : (w k : ℕ) → IsHighest (w / 2) k → IsHighest w (suc k)
IsHighest-double w k v = record { here = v.here; above = high }
  where
    high : (j : ℕ) → suc k < j → digit w j ≡ 0
    high zero lt = absurd (omega arith)
    high (suc j) lt = v.above j (omega arith)

trailing_zeros-IsLowest :
    (f w : ℕ) → w ≢ 0 → w < 2 ^ f → IsLowest w (trailing_zeros f w) × (trailing_zeros f w < f)
unfolding trailing_zeros
trailing_zeros-IsLowest zero w ne h = absurd (omega arith)
trailing_zeros-IsLowest (suc f) w ne h = elim (Bool-cases (w % 2 == 1)) [
  | inl odd ↦
      rw odd
        (record { here = (==_iff _ _).0 odd; below = λ j lt. absurd (omega arith) }, omega arith)
  | inr even ↦
      let ih = trailing_zeros-IsLowest f (w / 2) (ground arith) (omega (arith, pow-suc 2 f)) in
      rw even
        (IsLowest-double w (trailing_zeros f (w / 2)) (ground arith) ih.0, omega (arith, ih.1))
]

digit_half_zero : (w j : ℕ) → w / 2 ≡ 0 → 0 < j → digit w j ≡ 0
digit_half_zero w zero e lt = absurd (omega arith)
digit_half_zero w (suc j) e lt = ground (arith, digit-zero j)

bit_width-zero : (f : ℕ) → bit_width f 0 ≡ 0
unfolding bit_width
bit_width-zero zero = refl
bit_width-zero (suc f) = refl

bit_width-IsHighest :
    (f w : ℕ) → w ≢ 0 → w < 2 ^ f → (k : ℕ) × (bit_width f w ≡ suc k) × (k < f) × IsHighest w k
unfolding bit_width
bit_width-IsHighest zero w ne h = absurd (omega arith)
bit_width-IsHighest (suc f) w ne h = elim (Bool-cases (w / 2 == 0)) [
  | inl one ↦
      let half : w / 2 ≡ 0 = (==_iff _ _).0 one in
      (
        0,
        rw half (ground (arith, bit_width-zero f)),
        omega arith,
        record { here = omega arith; above = λ j lt. digit_half_zero w j half (omega arith) },
      )
  | inr more ↦
      let ih = bit_width-IsHighest f (w / 2) (ground arith) (omega (arith, pow-suc 2 f)) in
      (suc ih.0, ground (arith, ih.1), omega (arith, ih.2), IsHighest-double w ih.0 ih.3)
]

pub countr_zero-IsLowest :
    (w : ℕ) → w ≢ 0 → w < 2 ^ 64 → IsLowest w (countr_zero w) × (countr_zero w < 64)
unfolding countr_zero
countr_zero-IsLowest w ne h = trailing_zeros-IsLowest 64 w ne h

-- The code writes the highest position as `63 - countl_zero(w)`.
pub countl_zero-IsHighest :
    (w : ℕ) → w ≢ 0 → w < 2 ^ 64 → IsHighest w (63 - countl_zero w) × (63 - countl_zero w < 64)
unfolding countl_zero
countl_zero-IsHighest w ne h =
    let top = bit_width-IsHighest 64 w ne h in
    let place : 63 - (64 - bit_width 64 w) ≡ top.0 = omega (arith, top.1, top.2) in
    rw place (top.3, top.2)

-- A word is zero exactly when it has no digit.
pub IsLowest-ne-zero : (w k : ℕ) → digit w k ≡ 1 → w ≢ 0
IsLowest-ne-zero w k h e = ground (arith, digit-zero k)
