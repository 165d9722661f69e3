-- ===== src/Bitmap.antt =====
-- include/lob/bitmap.hpp: `hier_bitmap<Ticks>`, up to four tiers of 64-bit words, each bit of a tier
-- saying that a word of the tier below is not zero. The `std::array` of a tier is a function from the
-- word's index; `ticks` is the template argument, and the `if constexpr` tests are tests on it.
pub mod Search
pub mod Words
pub mod Invariant
pub mod Extremes
pub mod Queries
pub mod Sizes
pub mod Forward
pub mod Next
pub mod Backward
pub mod Prev
use orderbooks.Prelude.{
  ℕ, ◌+◌, ◌-◌, ◌*◌, ◌/◌, ◌%◌, Bool, true, ◌&&◌, Option, none, some, ltb, ◌==◌, if◌then◌else◌,
  bit_and, bit_or, update,
}
use orderbooks.Prelude.Word.{
  all_ones, complement, shift_left, shift_right, countr_zero, countl_zero,
}

pub record Bitmap : Type 0 where
  pub l0 : ℕ → ℕ
  pub l1 : ℕ → ℕ
  pub l2 : ℕ → ℕ
  pub l3 : ℕ → ℕ

abbrev pub no_words : ℕ → ℕ
no_words i = 0

abbrev pub empty_bitmap : Bitmap
empty_bitmap = record { l0 = no_words; l1 = no_words; l2 = no_words; l3 = no_words }

abbrev pub ceildiv : ℕ → ℕ → ℕ
ceildiv a b = (a + b - 1) / b

-- `(W > 1) ? ceildiv(W, 64) : 0`
abbrev pub tier_above : ℕ → ℕ
tier_above w = if ltb 1 w then ceildiv w 64 else 0

-- The word counts of the tiers.
unfoldable pub l0_words : ℕ → ℕ
l0_words ticks = ceildiv ticks 64

unfoldable pub l1_words : ℕ → ℕ
l1_words ticks = tier_above (l0_words ticks)

unfoldable pub l2_words : ℕ → ℕ
l2_words ticks = tier_above (l1_words ticks)

unfoldable pub l3_words : ℕ → ℕ
l3_words ticks = tier_above (l2_words ticks)

-- `if constexpr (L1_W > 0)` and its like.
abbrev pub has_l1 : ℕ → Bool
has_l1 ticks = ltb 0 (l1_words ticks)

abbrev pub has_l2 : ℕ → Bool
has_l2 ticks = ltb 0 (l2_words ticks)

abbrev pub has_l3 : ℕ → Bool
has_l3 ticks = ltb 0 (l3_words ticks)

unfoldable pub mask : ℕ → ℕ
mask bit = shift_left 1 (bit % 64)

unfoldable pub high_mask : ℕ → ℕ
high_mask off = shift_left all_ones off

unfoldable pub low_mask_inclusive : ℕ → ℕ
low_mask_inclusive off = if off == 63 then all_ones else shift_left 1 (off + 1) - 1

-- `tier[bit / W] |= mask(bit)`
unfoldable pub set_bit : (ℕ → ℕ) → ℕ → ℕ → ℕ
set_bit words bit = update words (bit / 64) (bit_or (words (bit / 64)) (mask bit))

-- `tier[bit / W] &= ~(mask(bit) & (0 - hint))`: the hint is 1 where the tier below became empty.
unfoldable pub clear_bit : Bool → (ℕ → ℕ) → ℕ → ℕ → ℕ
clear_bit hint words bit =
    update words (bit / 64)
      (bit_and (words (bit / 64)) (complement (bit_and (mask bit) (if hint then all_ones else 0))))

-- `idx * W + countr_zero(tier[idx])`
abbrev pub descend_low : (ℕ → ℕ) → ℕ → ℕ
descend_low words idx = idx * 64 + countr_zero (words idx)

-- `idx * W + ((W - 1) - countl_zero(tier[idx]))`
abbrev pub descend_high : (ℕ → ℕ) → ℕ → ℕ
descend_high words idx = idx * 64 + (63 - countl_zero (words idx))

module _ (ticks : ℕ) where
  unfoldable pub set : Bitmap → ℕ → Bitmap
  set b bit = record {
    l0 = set_bit b.l0 bit;
    l1 = if has_l1 ticks then set_bit b.l1 (bit / 64) else b.l1;
    l2 = if has_l2 ticks then set_bit b.l2 (bit / 64 / 64) else b.l2;
    l3 = if has_l3 ticks then set_bit b.l3 (bit / 64 / 64 / 64) else b.l3;
  }

  -- The tiers above are cleared only while the word below has become zero.
  unfoldable pub clear : Bitmap → ℕ → Bitmap
  clear b bit =
      let l0_post = clear_bit true b.l0 bit in
      let l0_empty = l0_post (bit / 64) == 0 in
      let l1_post = clear_bit l0_empty b.l1 (bit / 64) in
      let l1_empty = l1_post (bit / 64 / 64) == 0 && l0_empty in
      let l2_post = clear_bit l1_empty b.l2 (bit / 64 / 64) in
      let l2_empty = l2_post (bit / 64 / 64 / 64) == 0 && l1_empty in
      let l3_post = clear_bit l2_empty b.l3 (bit / 64 / 64 / 64) in
      record {
        l0 = l0_post;
        l1 = if has_l1 ticks then l1_post else b.l1;
        l2 = if has_l2 ticks then l2_post else b.l2;
        l3 = if has_l3 ticks then l3_post else b.l3;
      }

  unfoldable pub clear_all : Bitmap → Bitmap
  clear_all b = record {
    l0 = no_words;
    l1 = if has_l1 ticks then no_words else b.l1;
    l2 = if has_l2 ticks then no_words else b.l2;
    l3 = if has_l3 ticks then no_words else b.l3;
  }

  unfoldable pub test : Bitmap → ℕ → Bool
  test b bit = bit_and (shift_right (b.l0 (bit / 64)) (bit % 64)) 1 == 1

  unfoldable pub empty : Bitmap → Bool
  empty b =
      if has_l3 ticks
      then b.l3 0 == 0
      else if has_l2 ticks
      then b.l2 0 == 0
      else if has_l1 ticks
      then b.l1 0 == 0
      else b.l0 0 == 0

  unfoldable pub lowest_set : Bitmap → Option ℕ
  lowest_set b =
      let idx3 = if has_l3 ticks then countr_zero (b.l3 0) else 0 in
      let idx2 = if has_l2 ticks then descend_low b.l2 idx3 else idx3 in
      let idx1 = if has_l1 ticks then descend_low b.l1 idx2 else idx2 in
      if empty b then none else some (descend_low b.l0 idx1)

  unfoldable pub highest_set : Bitmap → Option ℕ
  highest_set b =
      let idx3 = if has_l3 ticks then 63 - countl_zero (b.l3 0) else 0 in
      let idx2 = if has_l2 ticks then descend_high b.l2 idx3 else idx3 in
      let idx1 = if has_l1 ticks then descend_high b.l1 idx2 else idx2 in
      if empty b then none else some (descend_high b.l0 idx1)
