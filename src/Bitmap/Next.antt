-- ===== src/Bitmap/Next.antt =====
-- include/lob/bitmap.hpp: `next_set_at_or_after` finds the next position that is set.
use orderbooks.Prelude.{
  ℕ, ◌+◌, ◌*◌, ◌/◌, ◌%◌, ◌≤◌, ◌<◌, ◌≡◌, ◌==◌, ◌⊎◌, inl, inr, Bool-cases, true, false, none, some,
  leb, bit_and, arith, refl,
}
use orderbooks.Prelude.Word.{countr_zero}
use orderbooks.Bitmap.{
  Bitmap, test, high_mask, descend_low, has_l1, has_l2, has_l3, l0_words, l1_words, l2_words,
  l3_words,
}
use orderbooks.Bitmap.Sizes.{
  ticks-l0, ticks-l1, ticks-l2, ticks-l3, ticks-top0, ticks-top1, ticks-top2, l2-fits,
}
use orderbooks.Bitmap.Invariant.{IsValid, has_l1_of_l2, has_l2_of_l3}
use orderbooks.Bitmap.Extremes.{test_reads}
use orderbooks.Bitmap.Search.{next_in_l3, next_in_l2, next_in_l1, next_set_at_or_after}
use orderbooks.Bitmap.Forward.{
  NoneIn, NoneIn-below, IsFirst, IsFirst-below, Next, Next-after, rest_of, rest_of-NoneIn,
  rest_of-IsFirst,
}

module _ (ticks : ℕ) {b : Bitmap} (v : IsValid ticks b) where
  ends_past : (from : ℕ) → ticks ≤ from → Next b.l0 from none
  ends_past from h = inl (refl, λ j le. v.in_range j (omega arith))

  pub NoneIn-l1 :
      has_l1 ticks ≡ true → (from to : ℕ) → NoneIn b.l1 from to → NoneIn b.l0 (from * 64) (to * 64)
  NoneIn-l1 e from to = NoneIn-below b.l1 b.l0 from to (v.summary1 e)

  pub NoneIn-l2 :
      has_l2 ticks ≡ true
      → (from to : ℕ) → NoneIn b.l2 from to
      → NoneIn b.l0 (from * 64 * 64) (to * 64 * 64)
  NoneIn-l2 e from to n =
      NoneIn-l1 (has_l1_of_l2 ticks e) _ _ (NoneIn-below b.l2 b.l1 from to (v.summary2 e) n)

  pub NoneIn-l3 :
      has_l3 ticks ≡ true
      → (from to : ℕ) → NoneIn b.l3 from to
      → NoneIn b.l0 (from * 64 * 64 * 64) (to * 64 * 64 * 64)
  NoneIn-l3 e from to n =
      NoneIn-l2 (has_l2_of_l3 ticks e) _ _ (NoneIn-below b.l3 b.l2 from to (v.summary3 e) n)

  IsFirst-l1 :
      has_l1 ticks ≡ true
      → (from i : ℕ) → IsFirst b.l1 from i
      → IsFirst b.l0 (from * 64) (descend_low b.l0 i)
  IsFirst-l1 e from i = IsFirst-below b.l1 b.l0 from i v.words0 (v.summary1 e)

  IsFirst-l2 :
      has_l2 ticks ≡ true
      → (from i : ℕ) → IsFirst b.l2 from i
      → IsFirst b.l0 (from * 64 * 64) (descend_low b.l0 (descend_low b.l1 i))
  IsFirst-l2 e from i f =
      IsFirst-l1 (has_l1_of_l2 ticks e) _ _
        (IsFirst-below b.l2 b.l1 from i v.words1 (v.summary2 e) f)

  IsFirst-l3 :
      has_l3 ticks ≡ true
      → (from i : ℕ) → IsFirst b.l3 from i
      → IsFirst b.l0
          (from * 64 * 64 * 64)
          (descend_low b.l0 (descend_low b.l1 (descend_low b.l2 i)))
  IsFirst-l3 e from i f =
      IsFirst-l2 (has_l2_of_l3 ticks e) _ _
        (IsFirst-below b.l3 b.l2 from i v.words2 (v.summary3 e) f)

  next_in_l3_lem :
      (q : ℕ)
      → l3_words ticks ≤ 1
      → has_l2 ticks ≡ true
      → Next b.l0 ((q + 1) * 64 * 64 * 64) (next_in_l3 ticks b q)
  unfolding next_in_l3
  next_in_l3_lem q fits e2 = elim (Bool-cases (has_l3 ticks)) [
    | inr e3 ↦ rw e3 (ends_past _ (omega (arith, ticks-top2 ticks e2 e3)))
    | inl e3 ↦ elim (Bool-cases (leb (l2_words ticks) (q + 1))) [
      | inl past ↦ rw (e3, past) (ends_past _ (ground (arith, ticks-l2 ticks e2)))
      | inr inside ↦
          let low : q + 1 < 64 = ground (arith, l2-fits ticks fits) in
          let word : (q + 1) / 64 ≡ 0 = omega (arith, low) in
          let off : (q + 1) % 64 ≡ q + 1 = omega (arith, low) in
          let masked : rest_of b.l3 (q + 1) ≡ bit_and (b.l3 0) (high_mask (q + 1)) =
            rw (word, off) in
          elim (Bool-cases (bit_and (b.l3 0) (high_mask (q + 1)) == 0)) [
            | inl e ↦
                rw (e3, inside, e)
                  (Next-after b.l0 _ _ none (omega arith)
                    (NoneIn-l3 e3 _ _ (rest_of-NoneIn b.l3 (q + 1) (ground arith)))
                    (ends_past _ (omega (arith, ticks-l3 ticks e3, fits))))
            | inr ne ↦
                let place : (q + 1) / 64 * 64 + countr_zero (rest_of b.l3 (q + 1))
                    ≡ countr_zero (bit_and (b.l3 0) (high_mask (q + 1))) =
                  rw (masked, word) (omega arith) in
                let found : IsFirst b.l3 (q + 1)
                    (countr_zero (bit_and (b.l3 0) (high_mask (q + 1)))) =
                  rw (place) at (rest_of-IsFirst b.l3 (q + 1) v.words3 (ground arith)) in
                rw (e3, inside, ne) (inr (_, refl, IsFirst-l3 e3 _ _ found))
          ]
    ]
  ]

  next_in_l2_lem :
      (q : ℕ)
      → l3_words ticks ≤ 1
      → has_l1 ticks ≡ true
      → Next b.l0 ((q + 1) * 64 * 64) (next_in_l2 ticks b q)
  unfolding next_in_l2
  next_in_l2_lem q fits e1 = elim (Bool-cases (has_l2 ticks)) [
    | inr e2 ↦ rw e2 (ends_past _ (omega (arith, ticks-top1 ticks e1 e2)))
    | inl e2 ↦ elim (Bool-cases (leb (l1_words ticks) (q + 1))) [
      | inl past ↦ rw (e2, past) (ends_past _ (ground (arith, ticks-l1 ticks e1)))
      | inr inside ↦ elim (Bool-cases (rest_of b.l2 (q + 1) == 0)) [
        | inl e ↦
            rw (e2, inside, e)
              (Next-after b.l0 _ _ _ (omega arith)
                (NoneIn-l2 e2 _ _ (rest_of-NoneIn b.l2 (q + 1) (ground arith)))
                (next_in_l3_lem ((q + 1) / 64) fits e2))
        | inr ne ↦
            rw (e2, inside, ne)
              (inr
                (_, refl, IsFirst-l2 e2 _ _ (rest_of-IsFirst b.l2 (q + 1) v.words2 (ground arith))))
      ]
    ]
  ]

  next_in_l1_lem : (q : ℕ) → l3_words ticks ≤ 1 → Next b.l0 ((q + 1) * 64) (next_in_l1 ticks b q)
  unfolding next_in_l1
  next_in_l1_lem q fits = elim (Bool-cases (has_l1 ticks)) [
    | inr e1 ↦ rw e1 (ends_past _ (omega (arith, ticks-top0 ticks e1)))
    | inl e1 ↦ elim (Bool-cases (leb (l0_words ticks) (q + 1))) [
      | inl past ↦ rw (e1, past) (ends_past _ (ground (arith, ticks-l0 ticks)))
      | inr inside ↦ elim (Bool-cases (rest_of b.l1 (q + 1) == 0)) [
        | inl e ↦
            rw (e1, inside, e)
              (Next-after b.l0 _ _ _ (omega arith)
                (NoneIn-l1 e1 _ _ (rest_of-NoneIn b.l1 (q + 1) (ground arith)))
                (next_in_l2_lem ((q + 1) / 64) fits e1))
        | inr ne ↦
            rw (e1, inside, ne)
              (inr
                (_, refl, IsFirst-l1 e1 _ _ (rest_of-IsFirst b.l1 (q + 1) v.words1 (ground arith))))
      ]
    ]
  ]

  next_set_lem :
      (start : ℕ) → l3_words ticks ≤ 1 → Next b.l0 start (next_set_at_or_after ticks b start)
  unfolding next_set_at_or_after
  next_set_lem start fits = elim (Bool-cases (leb ticks start)) [
    | inl past ↦ rw past (ends_past _ (ground arith))
    | inr inside ↦ elim (Bool-cases (rest_of b.l0 start == 0)) [
      | inl e ↦
          rw (inside, e)
            (Next-after b.l0 _ _ _ (omega arith) (rest_of-NoneIn b.l0 start (ground arith))
              (next_in_l1_lem (start / 64) fits))
      | inr ne ↦ rw (inside, ne) (inr (_, refl, rest_of-IsFirst b.l0 start v.words0 (ground arith)))
    ]
  ]

-- On a valid bitmap of at most four tiers, next_set_at_or_after is none and no position from start
-- on is set, or it is the first position from start on that test reports.
pub next_set_at_or_after-test :
    (ticks : ℕ) {b : Bitmap} (start : ℕ)
    → IsValid ticks b
    → l3_words ticks ≤ 1
    → ((next_set_at_or_after ticks b start ≡ none) × ((i : ℕ) → start ≤ i → test ticks b i ≡ false))
      ⊎ ((k : ℕ) × (next_set_at_or_after ticks b start ≡ some k)
          × (start ≤ k)
          × (test ticks b k ≡ true)
          × ((j : ℕ) → start ≤ j → j < k → test ticks b j ≡ false))
next_set_at_or_after-test ticks {b} start v fits = elim (next_set_lem ticks v start fits) [
  | inl (e, z) ↦ inl (e, λ i le. ground (arith, test_reads ticks b i, z i le))
  | inr (k, e, f) ↦ inr (
    k,
    e,
    f.reached,
    ground (arith, test_reads ticks b k, f.here),
    λ j le lt. ground (arith, test_reads ticks b j, f.between j le lt),
  )
]
