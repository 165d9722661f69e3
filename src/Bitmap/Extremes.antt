-- ===== src/Bitmap/Extremes.antt =====
-- include/lob/bitmap.hpp: `test`, `set` and `clear` against a plain set of positions, and its extremes.
use orderbooks.Prelude.{
  zero, suc, ◌+◌, ◌*◌, ◌-◌, suc, ◌≤◌, ◌≢◌, inr, ==_iff, inl, false, Bool-cases, ◌<◌, ◌==◌, ◌%◌,
  if◌then◌else◌, ◌/◌, ◌≡◌, ℕ, arith,
}
use orderbooks.Prelude.Bits.{digit, digit-zero, bit_and-one, digit-eq-div-mod}
use orderbooks.Prelude.Word.{countl_zero-IsHighest, countr_zero, countr_zero-IsLowest}
use orderbooks.Bitmap.{
  countl_zero, ceildiv, descend_high, true, Bitmap, set, clear, test, descend_low,
}
use orderbooks.Bitmap.Words.{eq-zero_of_digits, bit_at, AreWords, bit_at-set_bit, bit_at-clear_bit}
use orderbooks.Bitmap.Invariant.{Summary}

pub test_reads : (ticks : ℕ) (b : Bitmap) (i : ℕ) → test ticks b i ≡ (bit_at b.l0 i == 1)
unfolding test
test_reads ticks b i = rw bit_and-one (ground (arith, digit-eq-div-mod (b.l0 (i / 64)) (i % 64)))

-- After set, test answers yes at the position that was set and as before elsewhere.
pub test-set :
    (ticks : ℕ) (b : Bitmap) (bit i : ℕ)
    → test ticks (set ticks b bit) i ≡ (if bit == i then true else test ticks b i)
unfolding set
test-set ticks b bit i =
    ground
      (arith, test_reads ticks (set ticks b bit) i, test_reads ticks b i, bit_at-set_bit b.l0 bit i)

-- After clear, test answers no at the position that was cleared and as before elsewhere.
pub test-clear :
    (ticks : ℕ) (b : Bitmap) (bit i : ℕ)
    → test ticks (clear ticks b bit) i ≡ (if bit == i then false else test ticks b i)
unfolding clear
test-clear ticks b bit i = ground (
  arith,
  test_reads ticks (clear ticks b bit) i,
  test_reads ticks b i,
  bit_at-clear_bit true b.l0 bit i,
)

-- After set and after clear, test answers yes and no at the position, and as before elsewhere.
pub test_lem :
    (ticks : ℕ) (b : Bitmap) (bit i : ℕ)
    → (test ticks (set ticks b bit) i ≡ (if bit == i then true else test ticks b i))
      × (test ticks (clear ticks b bit) i ≡ (if bit == i then false else test ticks b i))
test_lem ticks b bit i = (test-set ticks b bit i, test-clear ticks b bit i)

-- The lowest and the highest set bit of a tier.
pub record IsLeast (words : ℕ → ℕ) (i : ℕ) : Type 0 where
  pub here : bit_at words i ≡ 1
  pub below : (j : ℕ) → j < i → bit_at words j ≡ 0

pub record IsGreatest (words : ℕ → ℕ) (i : ℕ) : Type 0 where
  pub here : bit_at words i ≡ 1
  pub above : (j : ℕ) → i < j → bit_at words j ≡ 0

abbrev pub AllZero : (ℕ → ℕ) → Type 0
AllZero words = (j : ℕ) → words j ≡ 0

-- The lowest bit of the word that the least bit of the tier above names.
pub descend_low-IsLeast :
    (up lo : ℕ → ℕ) (i : ℕ)
    → AreWords lo
    → Summary up lo
    → IsLeast up i
    → IsLeast lo (descend_low lo i)
descend_low-IsLeast up lo i w s v =
    let low = countr_zero-IsLowest (lo i) (ground (arith, s i, v.here)) (w i) in
    let word : descend_low lo i / 64 ≡ i = omega (arith, low.1) in
    let off : descend_low lo i % 64 ≡ countr_zero (lo i) = omega (arith, low.1) in
    record {
      here = rw (word, off) (low.0.here);
      below = λ j lt. elim (Bool-cases (j / 64 == i)) [
        | inl e ↦
            let same : j / 64 ≡ i = (==_iff _ _).0 e in
            rw same (low.0.below (j % 64) (omega (arith, low.1)))
        | inr ne ↦
            let none_set : lo (j / 64) ≡ 0 = ground (arith, s (j / 64), v.below (j / 64)) in
            rw none_set (digit-zero (j % 64))
      ];
    }

-- The highest bit of the word that the greatest bit of the tier above names.
pub descend_high-IsGreatest :
    (up lo : ℕ → ℕ) (i : ℕ)
    → AreWords lo
    → Summary up lo
    → IsGreatest up i
    → IsGreatest lo (descend_high lo i)
descend_high-IsGreatest up lo i w s v =
    let low = countl_zero-IsHighest (lo i) (ground (arith, s i, v.here)) (w i) in
    let word : descend_high lo i / 64 ≡ i = omega (arith, low.1) in
    let off : descend_high lo i % 64 ≡ 63 - countl_zero (lo i) = omega (arith, low.1) in
    record {
      here = rw (word, off) (low.0.here);
      above = λ j lt. elim (Bool-cases (j / 64 == i)) [
        | inl e ↦
            let same : j / 64 ≡ i = (==_iff _ _).0 e in
            rw same (low.0.above (j % 64) (omega (arith, low.1)))
        | inr ne ↦
            let none_set : lo (j / 64) ≡ 0 = ground (arith, s (j / 64), v.above (j / 64)) in
            rw none_set (digit-zero (j % 64))
      ];
    }

pub AllZero-below : (up lo : ℕ → ℕ) → Summary up lo → AllZero up → AllZero lo
AllZero-below up lo s z j = ground (arith, s j, z (j / 64), digit-zero (j % 64))

-- Words past the end of a tier are zero, so the tier above has none past its own end.
pub zero_past :
    (up lo : ℕ → ℕ) (n : ℕ)
    → AreWords up
    → Summary up lo
    → ((j : ℕ) → n ≤ j → lo j ≡ 0)
    → (j : ℕ) → ceildiv n 64 ≤ j
    → up j ≡ 0
zero_past up lo n w s past j h = eq-zero_of_digits (up j) (w j) λ k lt.
    let word : (j * 64 + k) / 64 ≡ j = omega arith in
    let off : (j * 64 + k) % 64 ≡ k = omega arith in
    let read : digit (up ((j * 64 + k) / 64)) ((j * 64 + k) % 64)
        ≡ (if lo (j * 64 + k) == 0 then 0 else 1) =
      s (j * 64 + k) in
    ground (arith, rw (word, off) at read, past (j * 64 + k) (omega arith))

-- A tier of one word.
abbrev pub IsTop : (ℕ → ℕ) → Type 0
IsTop words = (j : ℕ) → 1 ≤ j → words j ≡ 0

pub AllZero-top : (words : ℕ → ℕ) → IsTop words → words 0 ≡ 0 → AllZero words
AllZero-top words top e zero = e
AllZero-top words top e (suc j) = top (suc j) (omega arith)

pub top-IsLeast :
    (words : ℕ → ℕ) → AreWords words → words 0 ≢ 0 → IsLeast words (countr_zero (words 0))
top-IsLeast words w ne =
    let low = countr_zero-IsLowest (words 0) ne (w 0) in
    let word : countr_zero (words 0) / 64 ≡ 0 = omega (arith, low.1) in
    let off : countr_zero (words 0) % 64 ≡ countr_zero (words 0) = omega (arith, low.1) in
    record {
      here = rw (word, off) (low.0.here);
      below = λ j lt.
          let same : j / 64 ≡ 0 = omega (arith, low.1) in
          rw same (low.0.below (j % 64) (omega (arith, low.1)));
    }

pub top-IsGreatest :
    (words : ℕ → ℕ)
    → AreWords words
    → IsTop words
    → words 0 ≢ 0
    → IsGreatest words (63 - countl_zero (words 0))
top-IsGreatest words w top ne =
    let high = countl_zero-IsHighest (words 0) ne (w 0) in
    let word : (63 - countl_zero (words 0)) / 64 ≡ 0 = omega (arith, high.1) in
    let off : (63 - countl_zero (words 0)) % 64 ≡ 63 - countl_zero (words 0) =
      omega (arith, high.1) in
    record {
      here = rw (word, off) (high.0.here);
      above = λ j lt. elim (Bool-cases (j / 64 == 0)) [
        | inl e ↦
            let same : j / 64 ≡ 0 = (==_iff _ _).0 e in
            rw same (high.0.above (j % 64) (omega (arith, high.1)))
        | inr ne' ↦
            let none_set : words (j / 64) ≡ 0 = top (j / 64) (ground arith) in
            rw none_set (digit-zero (j % 64))
      ];
    }

pub descend_top-IsLeast :
    (words : ℕ → ℕ) → AreWords words → words 0 ≢ 0 → IsLeast words (descend_low words 0)
descend_top-IsLeast words w ne =
    let same : descend_low words 0 ≡ countr_zero (words 0) = omega arith in
    rw same (top-IsLeast words w ne)

pub descend_top-IsGreatest :
    (words : ℕ → ℕ)
    → AreWords words
    → IsTop words
    → words 0 ≢ 0
    → IsGreatest words (descend_high words 0)
descend_top-IsGreatest words w top ne =
    let same : descend_high words 0 ≡ 63 - countl_zero (words 0) = omega arith in
    rw same (top-IsGreatest words w top ne)
