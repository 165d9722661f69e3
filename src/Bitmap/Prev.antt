-- ===== src/Bitmap/Prev.antt =====
-- include/lob/bitmap.hpp: `prev_set_at_or_before` finds the nearest set position below.
use orderbooks.Prelude.{
  ℕ, ◌+◌, ◌-◌, ◌*◌, ◌/◌, ◌%◌, ◌≤◌, ◌<◌, ◌≡◌, ◌==◌, ◌⊎◌, inl, inr, Bool-cases, true, false, none,
  some, leb, if◌then◌else◌, bit_and, arith, refl,
}
use orderbooks.Prelude.Bits.{digit-zero}
use orderbooks.Prelude.Word.{countl_zero}
use orderbooks.Bitmap.{
  Bitmap, test, empty, highest_set, low_mask_inclusive, descend_high, has_l1, has_l2, has_l3,
  l3_words,
}
use orderbooks.Bitmap.Sizes.{ticks-l3, ticks-top0, ticks-top1, ticks-top2}
use orderbooks.Bitmap.Invariant.{IsValid, has_l1_of_l2, has_l2_of_l3}
use orderbooks.Bitmap.Extremes.{test_reads, AllZero}
use orderbooks.Bitmap.Queries.{highest_set_lem}
use orderbooks.Bitmap.Search.{prev_in_l3, prev_in_l2, prev_in_l1, prev_set_at_or_before}
use orderbooks.Bitmap.Forward.{NoneIn}
use orderbooks.Bitmap.Next.{NoneIn-l1, NoneIn-l2, NoneIn-l3}
use orderbooks.Bitmap.Backward.{
  IsLast, IsLast-below, Prev, Prev-before, start_of, start_of-NoneIn, start_of-IsLast,
}

module _ (ticks : ℕ) {b : Bitmap} (v : IsValid ticks b) where
  empty_reads :
      l3_words ticks ≤ 1
      → ((empty ticks b ≡ true) × AllZero b.l0) ⊎ ((empty ticks b ≡ false) × (0 < ticks))
  unfolding highest_set
  empty_reads fits = elim (Bool-cases (empty ticks b)) [
    | inl e ↦ elim (highest_set_lem ticks v fits) [
      | inl (e', z) ↦ inl (e, z)
      | inr (k, e', m) ↦ absurd (ground arith)
    ]
    | inr ne ↦ elim (highest_set_lem ticks v fits) [
      | inl (e', z) ↦ absurd (ground arith)
      | inr (k, e', m) ↦ inr (ne, ground (arith, m.here, v.in_range k))
    ]
  ]

  IsLast-l1 :
      has_l1 ticks ≡ true
      → (to i : ℕ) → IsLast b.l1 to i
      → IsLast b.l0 (to * 64) (descend_high b.l0 i)
  IsLast-l1 e to i = IsLast-below b.l1 b.l0 to i v.words0 (v.summary1 e)

  IsLast-l2 :
      has_l2 ticks ≡ true
      → (to i : ℕ) → IsLast b.l2 to i
      → IsLast b.l0 (to * 64 * 64) (descend_high b.l0 (descend_high b.l1 i))
  IsLast-l2 e to i f =
      IsLast-l1 (has_l1_of_l2 ticks e) _ _ (IsLast-below b.l2 b.l1 to i v.words1 (v.summary2 e) f)

  IsLast-l3 :
      has_l3 ticks ≡ true
      → (to i : ℕ) → IsLast b.l3 to i
      → IsLast b.l0
          (to * 64 * 64 * 64)
          (descend_high b.l0 (descend_high b.l1 (descend_high b.l2 i)))
  IsLast-l3 e to i f =
      IsLast-l2 (has_l2_of_l3 ticks e) _ _ (IsLast-below b.l3 b.l2 to i v.words2 (v.summary3 e) f)

  at_zero : (to : ℕ) → to ≡ 0 → Prev b.l0 to none
  at_zero to e = inl (refl, λ j le lt. absurd (omega arith))

  prev_in_l3_lem :
      (q : ℕ)
      → l3_words ticks ≤ 1
      → has_l2 ticks ≡ true
      → q * 64 * 64 * 64 < ticks
      → Prev b.l0 (q * 64 * 64 * 64) (prev_in_l3 ticks b q)
  unfolding prev_in_l3
  prev_in_l3_lem q fits e2 lt = elim (Bool-cases (has_l3 ticks)) [
    | inr e3 ↦ rw e3 (at_zero _ (omega (arith, ticks-top2 ticks e2 e3, lt)))
    | inl e3 ↦ elim (Bool-cases (q == 0)) [
      | inl start ↦ rw (e3, start) (at_zero _ (ground arith))
      | inr later ↦
          let up : q - 1 + 1 ≡ q = ground arith in
          let low : q - 1 < 64 = omega (arith, ticks-l3 ticks e3, fits, lt) in
          let word : (q - 1) / 64 ≡ 0 = omega (arith, low) in
          let off : (q - 1) % 64 ≡ q - 1 = omega (arith, low) in
          let masked : start_of b.l3 (q - 1) ≡ bit_and (b.l3 0) (low_mask_inclusive (q - 1)) =
            rw (word, off) in
          elim (Bool-cases (bit_and (b.l3 0) (low_mask_inclusive (q - 1)) == 0)) [
            | inl e ↦
                let none_set : NoneIn b.l3 ((q - 1) / 64 * 64) q =
                  rw up at (start_of-NoneIn b.l3 (q - 1) (ground arith)) in
                rw (e3, later, e)
                  (Prev-before b.l0 _ _ none (omega (arith, low))
                    (NoneIn-l3 ticks v e3 _ _ none_set) (at_zero _ (omega (arith, low))))
            | inr ne ↦
                let place : (q - 1) / 64 * 64 + (63 - countl_zero (start_of b.l3 (q - 1)))
                    ≡ 63 - countl_zero (bit_and (b.l3 0) (low_mask_inclusive (q - 1))) =
                  rw (masked, word) (omega arith) in
                rw (e3, later, ne)
                  (inr (
                    _,
                    refl,
                    IsLast-l3 e3 _ _
                        (rw (place, up) at (start_of-IsLast b.l3 (q - 1) v.words3 (ground arith))),
                  ))
          ]
    ]
  ]

  prev_in_l2_lem :
      (q : ℕ)
      → l3_words ticks ≤ 1
      → has_l1 ticks ≡ true
      → q * 64 * 64 < ticks
      → Prev b.l0 (q * 64 * 64) (prev_in_l2 ticks b q)
  unfolding prev_in_l2
  prev_in_l2_lem q fits e1 lt = elim (Bool-cases (has_l2 ticks)) [
    | inr e2 ↦ rw e2 (at_zero _ (omega (arith, ticks-top1 ticks e1 e2, lt)))
    | inl e2 ↦ elim (Bool-cases (q == 0)) [
      | inl start ↦ rw (e2, start) (at_zero _ (ground arith))
      | inr later ↦
          let up : q - 1 + 1 ≡ q = ground arith in
          elim (Bool-cases (start_of b.l2 (q - 1) == 0)) [
            | inl e ↦
                rw (e2, later, e)
                  (Prev-before b.l0 _ _ _ (ground arith)
                    (NoneIn-l2 ticks v e2 _ _
                      (rw up at (start_of-NoneIn b.l2 (q - 1) (ground arith))))
                    (prev_in_l3_lem ((q - 1) / 64) fits e2 (omega (arith, lt))))
            | inr ne ↦
                rw (e2, later, ne)
                  (inr (
                    _,
                    refl,
                    IsLast-l2 e2 _ _
                        (rw up at (start_of-IsLast b.l2 (q - 1) v.words2 (ground arith))),
                  ))
          ]
    ]
  ]

  prev_in_l1_lem :
      (q : ℕ) → l3_words ticks ≤ 1 → q * 64 < ticks → Prev b.l0 (q * 64) (prev_in_l1 ticks b q)
  unfolding prev_in_l1
  prev_in_l1_lem q fits lt = elim (Bool-cases (has_l1 ticks)) [
    | inr e1 ↦ rw e1 (at_zero _ (omega (arith, ticks-top0 ticks e1)))
    | inl e1 ↦ elim (Bool-cases (q == 0)) [
      | inl start ↦ rw (e1, start) (at_zero _ (ground arith))
      | inr later ↦
          let up : q - 1 + 1 ≡ q = ground arith in
          elim (Bool-cases (start_of b.l1 (q - 1) == 0)) [
            | inl e ↦
                rw (e1, later, e)
                  (Prev-before b.l0 _ _ _ (ground arith)
                    (NoneIn-l1 ticks v e1 _ _
                      (rw up at (start_of-NoneIn b.l1 (q - 1) (ground arith))))
                    (prev_in_l2_lem ((q - 1) / 64) fits e1 (omega (arith, lt))))
            | inr ne ↦
                rw (e1, later, ne)
                  (inr (
                    _,
                    refl,
                    IsLast-l1 e1 _ _
                        (rw up at (start_of-IsLast b.l1 (q - 1) v.words1 (ground arith))),
                  ))
          ]
    ]
  ]

  prev_set_lem :
      (from : ℕ)
      → l3_words ticks ≤ 1
      → from < ticks
      → Prev b.l0 (from + 1) (
          if start_of b.l0 from == 0
          then prev_in_l1 ticks b (from / 64)
          else some (from / 64 * 64 + (63 - countl_zero (start_of b.l0 from))))
  prev_set_lem from fits lt = elim (Bool-cases (start_of b.l0 from == 0)) [
    | inl e ↦ rw e (
        Prev-before b.l0 _ _ _ (omega arith) (start_of-NoneIn b.l0 from (ground arith))
          (prev_in_l1_lem (from / 64) fits (omega (arith, lt))))
    | inr ne ↦ rw ne (inr (_, refl, start_of-IsLast b.l0 from v.words0 (ground arith)))
  ]

  -- A start past the ladder is moved to its last tick, and no position between is set.
  prev_set_at_or_before_lem :
      (start : ℕ) → l3_words ticks ≤ 1 → Prev b.l0 (start + 1) (prev_set_at_or_before ticks b start)
  unfolding prev_set_at_or_before
  prev_set_at_or_before_lem start fits = elim (empty_reads fits) [
    | inl (e, z) ↦ rw e (inl (refl, λ j le lt. ground (arith, z (j / 64), digit-zero (j % 64))))
    | inr (ne, some_tick) ↦ elim (Bool-cases (leb ticks start)) [
      | inl past ↦
          rw (ne, past)
            (Prev-before b.l0 (ticks - 1 + 1) (start + 1) _ (ground arith)
              (λ j le lt. v.in_range j (omega (arith, le, some_tick)))
              (prev_set_lem (ticks - 1) fits (omega (arith, some_tick))))
      | inr inside ↦ rw (ne, inside) (prev_set_lem start fits (ground arith))
    ]
  ]

-- On a valid bitmap of at most four tiers, prev_set_at_or_before is none and no position up to
-- start is set, or it is the last position up to start that test reports.
pub prev_set_at_or_before-test :
    (ticks : ℕ) {b : Bitmap} (start : ℕ)
    → IsValid ticks b
    → l3_words ticks ≤ 1
    → ((prev_set_at_or_before ticks b start ≡ none)
        × ((i : ℕ) → i ≤ start → test ticks b i ≡ false))
      ⊎ ((k : ℕ) × (prev_set_at_or_before ticks b start ≡ some k)
          × (k ≤ start)
          × (test ticks b k ≡ true)
          × ((j : ℕ) → k < j → j ≤ start → test ticks b j ≡ false))
prev_set_at_or_before-test ticks {b} start v fits =
    elim (prev_set_at_or_before_lem ticks v start fits) [
      | inl (e, z) ↦
          inl (e, λ i le. ground (arith, test_reads ticks b i, z i (omega arith) (omega arith)))
      | inr (k, e, f) ↦ inr (
        k,
        e,
        omega (arith, f.reached),
        ground (arith, test_reads ticks b k, f.here),
        λ j lt le.
            ground
              (arith, test_reads ticks b j, f.between j (omega (arith, lt)) (omega (arith, le))),
      )
    ]
