-- ===== src/Bitmap/Sizes.antt =====
-- include/lob/bitmap.hpp: how many ticks the words of each tier of `hier_bitmap` have room for.
use orderbooks.Prelude.{ℕ, ◌*◌, ◌≤◌, ◌≡◌, true, false, arith}
use orderbooks.Bitmap.{has_l1, has_l2, has_l3, l0_words, l1_words, l2_words, l3_words}
use orderbooks.Bitmap.Invariant.{has_l1_of_l2, has_l2_of_l3}

-- The words of the tiers hold every tick.
module _ (ticks : ℕ) where
  pub ticks-l0 : ticks ≤ l0_words ticks * 64
  unfolding l0_words
  ticks-l0 = omega arith

  pub ticks-l1 : has_l1 ticks ≡ true → ticks ≤ l1_words ticks * 4096
  unfolding l1_words
  ticks-l1 e = ground (arith, ticks-l0)

  pub ticks-l2 : has_l2 ticks ≡ true → ticks ≤ l2_words ticks * 262144
  unfolding l2_words
  ticks-l2 e = ground (arith, has_l1_of_l2 ticks, ticks-l1)

  pub ticks-l3 : has_l3 ticks ≡ true → ticks ≤ l3_words ticks * 16777216
  unfolding l3_words
  ticks-l3 e = ground (arith, has_l2_of_l3 ticks, ticks-l2)

  pub ticks-top0 : has_l1 ticks ≡ false → ticks ≤ 64
  unfolding l1_words
  ticks-top0 e = ground (arith, ticks-l0)

  pub ticks-top1 : has_l1 ticks ≡ true → has_l2 ticks ≡ false → ticks ≤ 4096
  unfolding l2_words
  ticks-top1 e1 e2 = ground (arith, ticks-l1 e1)

  pub ticks-top2 : has_l2 ticks ≡ true → has_l3 ticks ≡ false → ticks ≤ 262144
  unfolding l3_words
  ticks-top2 e2 e3 = ground (arith, ticks-l2 e2)

  pub l2-fits : l3_words ticks ≤ 1 → l2_words ticks ≤ 64
  unfolding l3_words
  l2-fits fits = ground arith
