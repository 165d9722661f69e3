-- ===== src/Bitmap/Search.antt =====
-- include/lob/bitmap.hpp: `next_set_at_or_after` and `prev_set_at_or_before`, a function for each tier
-- that the search bubbles up to.
use orderbooks.Prelude.{
  ℕ, ◌+◌, ◌-◌, ◌*◌, ◌/◌, ◌%◌, Option, none, some, leb, ◌==◌, if◌then◌else◌, bit_and,
}
use orderbooks.Prelude.Word.{countr_zero, countl_zero}
use orderbooks.Bitmap.{
  Bitmap, l0_words, l1_words, l2_words, has_l1, has_l2, has_l3, high_mask, low_mask_inclusive,
  descend_low, descend_high, empty,
}

module _ (ticks : ℕ) where
  unfoldable pub next_in_l3 : Bitmap → ℕ → Option ℕ
  next_in_l3 b l2_word =
      let pos = l2_word + 1 in
      let masked = bit_and (b.l3 0) (high_mask pos) in
      if has_l3 ticks
      then (if leb (l2_words ticks) pos
          then none
          else if masked == 0
          then none
          else some (descend_low b.l0 (descend_low b.l1 (descend_low b.l2 (countr_zero masked)))))
      else none

  unfoldable pub next_in_l2 : Bitmap → ℕ → Option ℕ
  next_in_l2 b l1_word =
      let pos = l1_word + 1 in
      let word = pos / 64 in
      let masked = bit_and (b.l2 word) (high_mask (pos % 64)) in
      if has_l2 ticks
      then (if leb (l1_words ticks) pos
          then none
          else if masked == 0
          then next_in_l3 b word
          else some (descend_low b.l0 (descend_low b.l1 (word * 64 + countr_zero masked))))
      else none

  unfoldable pub next_in_l1 : Bitmap → ℕ → Option ℕ
  next_in_l1 b l0_word =
      let pos = l0_word + 1 in
      let word = pos / 64 in
      let masked = bit_and (b.l1 word) (high_mask (pos % 64)) in
      if has_l1 ticks
      then (if leb (l0_words ticks) pos
          then none
          else if masked == 0
          then next_in_l2 b word
          else some (descend_low b.l0 (word * 64 + countr_zero masked)))
      else none

  unfoldable pub next_set_at_or_after : Bitmap → ℕ → Option ℕ
  next_set_at_or_after b start =
      let word = start / 64 in
      let masked = bit_and (b.l0 word) (high_mask (start % 64)) in
      if leb ticks start
      then none
      else if masked == 0
      then next_in_l1 b word
      else some (word * 64 + countr_zero masked)

  unfoldable pub prev_in_l3 : Bitmap → ℕ → Option ℕ
  prev_in_l3 b l2_word =
      let masked = bit_and (b.l3 0) (low_mask_inclusive (l2_word - 1)) in
      if has_l3 ticks
      then (if l2_word == 0
          then none
          else if masked == 0
          then none
          else some
              (descend_high b.l0 (descend_high b.l1 (descend_high b.l2 (63 - countl_zero masked)))))
      else none

  unfoldable pub prev_in_l2 : Bitmap → ℕ → Option ℕ
  prev_in_l2 b l1_word =
      let pos = l1_word - 1 in
      let word = pos / 64 in
      let masked = bit_and (b.l2 word) (low_mask_inclusive (pos % 64)) in
      if has_l2 ticks
      then (if l1_word == 0
          then none
          else if masked == 0
          then prev_in_l3 b word
          else some (descend_high b.l0 (descend_high b.l1 (word * 64 + (63 - countl_zero masked)))))
      else none

  unfoldable pub prev_in_l1 : Bitmap → ℕ → Option ℕ
  prev_in_l1 b l0_word =
      let pos = l0_word - 1 in
      let word = pos / 64 in
      let masked = bit_and (b.l1 word) (low_mask_inclusive (pos % 64)) in
      if has_l1 ticks
      then (if l0_word == 0
          then none
          else if masked == 0
          then prev_in_l2 b word
          else some (descend_high b.l0 (word * 64 + (63 - countl_zero masked))))
      else none

  unfoldable pub prev_set_at_or_before : Bitmap → ℕ → Option ℕ
  prev_set_at_or_before b start =
      let from = if leb ticks start then ticks - 1 else start in
      let word = from / 64 in
      let masked = bit_and (b.l0 word) (low_mask_inclusive (from % 64)) in
      if empty ticks b
      then none
      else if masked == 0
      then prev_in_l1 b word
      else some (word * 64 + (63 - countl_zero masked))
