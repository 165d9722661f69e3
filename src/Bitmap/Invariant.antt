-- ===== src/Bitmap/Invariant.antt =====
-- include/lob/bitmap.hpp: what the tiers of `hier_bitmap` say of each other, and `set` and `clear`.
use orderbooks.Prelude.Bits.{digit, digit-zero}
use orderbooks.Bitmap.{
  l2_words, l3_words, true, Bool, Bitmap, empty_bitmap, set, clear, clear_all, set_bit, clear_bit,
  has_l1, has_l2, has_l3,
}
use orderbooks.Bitmap.Words.{
  bit_at, AreWords, set_bit-AreWords, clear_bit-AreWords, bit_at-set_bit, bit_at-clear_bit,
  clear_bit-false, set_bit-ne-zero, eq-zero_of_digits,
}
use orderbooks.Prelude.{
  false, true, inr, subst, ◌<◌, ==_iff, inl, ◌+◌, ◌≤◌, ◌&&◌, if◌then◌else◌, ◌*◌, Bool-cases, ◌≢◌,
  ◌==◌, ◌%◌, ◌≡◌, ◌/◌, ℕ, arith,
}

-- A bit of the upper tier is set exactly while its word below is not zero.
abbrev pub Summary : (ℕ → ℕ) → (ℕ → ℕ) → Type 0
Summary up lo = (j : ℕ) → bit_at up j ≡ (if lo j == 0 then 0 else 1)

set_bit-other : (words : ℕ → ℕ) (bit j : ℕ) → bit / 64 ≢ j → set_bit words bit j ≡ words j
unfolding set_bit
set_bit-other words bit j ne = ground arith

clear_bit-other :
    (hint : Bool) (words : ℕ → ℕ) (bit j : ℕ) → bit / 64 ≢ j → clear_bit hint words bit j ≡ words j
unfolding clear_bit
clear_bit-other hint words bit j ne = ground arith

pub set_bit-Summary :
    (up lo : ℕ → ℕ) (bit : ℕ) → Summary up lo → Summary (set_bit up (bit / 64)) (set_bit lo bit)
set_bit-Summary up lo bit s j = elim (Bool-cases (bit / 64 == j)) [
  | inl e ↦
      let here : bit / 64 ≡ j = (==_iff _ _).0 e in
      subst (λ v. bit_at (set_bit up (bit / 64)) v ≡ (if set_bit lo bit v == 0 then 0 else 1)) here
        (ground (arith, bit_at-set_bit up (bit / 64) (bit / 64), set_bit-ne-zero lo bit))
  | inr ne ↦ ground (arith, s j, bit_at-set_bit up (bit / 64) j, set_bit-other lo bit j)
]

-- A word that still has a digit after the clear had one before.
clear_bit-ne-zero :
    (hint : Bool) (words : ℕ → ℕ) (bit j : ℕ)
    → AreWords words
    → words j ≡ 0
    → clear_bit hint words bit j ≡ 0
clear_bit-ne-zero hint words bit j w e =
    eq-zero_of_digits (clear_bit hint words bit j) (clear_bit-AreWords hint words bit w j) λ k h.
      let place : (j * 64 + k) / 64 ≡ j = omega arith in
      let off : (j * 64 + k) % 64 ≡ k = omega arith in
      let read : digit (clear_bit hint words bit ((j * 64 + k) / 64)) ((j * 64 + k) % 64) ≡ (
          if hint && (bit == j * 64 + k)
          then 0
          else digit (words ((j * 64 + k) / 64)) ((j * 64 + k) % 64)) =
        bit_at-clear_bit hint words bit (j * 64 + k) in
      ground (arith, rw (place, off) at read, digit-zero k)

pub clear_bit-Summary :
    (hint : Bool) (up lo : ℕ → ℕ) (bit : ℕ)
    → AreWords lo
    → Summary up lo
    → Summary
        (clear_bit ((clear_bit hint lo bit (bit / 64) == 0) && hint) up (bit / 64))
        (clear_bit hint lo bit)
clear_bit-Summary false up lo bit w s j = ground (
  arith,
  s j,
  clear_bit-false lo bit j w,
  bit_at-clear_bit ((clear_bit false lo bit (bit / 64) == 0) && false) up (bit / 64) j,
)
clear_bit-Summary true up lo bit w s j = elim (Bool-cases (bit / 64 == j)) [
  | inl e ↦
      let here : bit / 64 ≡ j = (==_iff _ _).0 e in
      subst
        (λ v.
          bit_at (clear_bit ((clear_bit true lo bit (bit / 64) == 0) && true) up (bit / 64)) v
          ≡ (if clear_bit true lo bit v == 0 then 0 else 1))
        here
        (ground (
          arith,
          s (bit / 64),
          bit_at-clear_bit ((clear_bit true lo bit (bit / 64) == 0) && true) up (bit / 64)
              (bit / 64),
          clear_bit-ne-zero true lo bit (bit / 64) w,
        ))
  | inr ne ↦ ground (
    arith,
    s j,
    bit_at-clear_bit ((clear_bit true lo bit (bit / 64) == 0) && true) up (bit / 64) j,
    clear_bit-other true lo bit j,
  )
]

module _ (ticks : ℕ) where
  pub has_l1_of_l2 : has_l2 ticks ≡ true → has_l1 ticks ≡ true
  unfolding l2_words
  has_l1_of_l2 e = ground arith

  pub has_l2_of_l3 : has_l3 ticks ≡ true → has_l2 ticks ≡ true
  unfolding l3_words
  has_l2_of_l3 e = ground arith

module _ (ticks : ℕ) where
  pub record IsValid (b : Bitmap) : Type 0 where
    pub words0 : AreWords b.l0
    pub words1 : AreWords b.l1
    pub words2 : AreWords b.l2
    pub words3 : AreWords b.l3
    pub summary1 : has_l1 ticks ≡ true → Summary b.l1 b.l0
    pub summary2 : has_l2 ticks ≡ true → Summary b.l2 b.l1
    pub summary3 : has_l3 ticks ≡ true → Summary b.l3 b.l2
    pub in_range : (i : ℕ) → ticks ≤ i → bit_at b.l0 i ≡ 0

  pub empty_bitmap-IsValid : IsValid empty_bitmap
  empty_bitmap-IsValid = record {
    words0 = λ j. omega arith;
    words1 = λ j. omega arith;
    words2 = λ j. omega arith;
    words3 = λ j. omega arith;
    summary1 = λ _ j. digit-zero (j % 64);
    summary2 = λ _ j. digit-zero (j % 64);
    summary3 = λ _ j. digit-zero (j % 64);
    in_range = λ i h. digit-zero (i % 64);
  }

  -- Set, of a position below the number of ticks, keeps a valid bitmap valid.
  pub set-IsValid : (b : Bitmap) (bit : ℕ) → bit < ticks → IsValid b → IsValid (set ticks b bit)
  unfolding set
  set-IsValid b bit h v = record {
    words0 = set_bit-AreWords b.l0 bit v.words0;
    words1 = λ j. ground (arith, v.words1 j, set_bit-AreWords b.l1 (bit / 64) v.words1 j);
    words2 = λ j. ground (arith, v.words2 j, set_bit-AreWords b.l2 (bit / 64 / 64) v.words2 j);
    words3 = λ j. ground (arith, v.words3 j, set_bit-AreWords b.l3 (bit / 64 / 64 / 64) v.words3 j);
    summary1 = λ e. rw e (set_bit-Summary b.l1 b.l0 bit (v.summary1 e));
    summary2 =
        λ e. rw (e, has_l1_of_l2 ticks e) (set_bit-Summary b.l2 b.l1 (bit / 64) (v.summary2 e));
    summary3 = λ e.
        rw (e, has_l2_of_l3 ticks e) (set_bit-Summary b.l3 b.l2 (bit / 64 / 64) (v.summary3 e));
    in_range = λ i le. ground (arith, v.in_range i le, bit_at-set_bit b.l0 bit i);
  }

  -- Clear keeps a valid bitmap valid: each tier still marks exactly the words of the tier below
  -- that are not zero.
  pub clear-IsValid : (b : Bitmap) (bit : ℕ) → IsValid b → IsValid (clear ticks b bit)
  unfolding clear
  clear-IsValid b bit v =
      let l0_empty = clear_bit true b.l0 bit (bit / 64) == 0 in
      let l1_post = clear_bit l0_empty b.l1 (bit / 64) in
      let l1_empty = l1_post (bit / 64 / 64) == 0 && l0_empty in
      let l2_post = clear_bit l1_empty b.l2 (bit / 64 / 64) in
      let l2_empty = l2_post (bit / 64 / 64 / 64) == 0 && l1_empty in
      record {
        words0 = clear_bit-AreWords true b.l0 bit v.words0;
        words1 =
            λ j. ground (arith, v.words1 j, clear_bit-AreWords l0_empty b.l1 (bit / 64) v.words1 j);
        words2 = λ j.
            ground (arith, v.words2 j, clear_bit-AreWords l1_empty b.l2 (bit / 64 / 64) v.words2 j);
        words3 = λ j.
            ground
              (arith, v.words3 j, clear_bit-AreWords l2_empty b.l3 (bit / 64 / 64 / 64) v.words3 j);
        summary1 = λ e.
            rw e
              (λ j. ground (arith, clear_bit-Summary true b.l1 b.l0 bit v.words0 (v.summary1 e) j));
        summary2 = λ e.
            rw (e, has_l1_of_l2 ticks e)
              (clear_bit-Summary l0_empty b.l2 b.l1 (bit / 64) v.words1 (v.summary2 e));
        summary3 = λ e.
            rw (e, has_l2_of_l3 ticks e)
              (clear_bit-Summary l1_empty b.l3 b.l2 (bit / 64 / 64) v.words2 (v.summary3 e));
        in_range = λ i le. ground (arith, v.in_range i le, bit_at-clear_bit true b.l0 bit i);
      }

  pub clear_all-IsValid : (b : Bitmap) → IsValid b → IsValid (clear_all ticks b)
  unfolding clear_all
  clear_all-IsValid b v = record {
    words0 = λ j. omega arith;
    words1 = λ j. ground (arith, v.words1 j);
    words2 = λ j. ground (arith, v.words2 j);
    words3 = λ j. ground (arith, v.words3 j);
    summary1 = λ e. rw e (λ j. digit-zero (j % 64));
    summary2 = λ e. rw (e, has_l1_of_l2 ticks e) (λ j. digit-zero (j % 64));
    summary3 = λ e. rw (e, has_l2_of_l3 ticks e) (λ j. digit-zero (j % 64));
    in_range = λ i h. digit-zero (i % 64);
  }
