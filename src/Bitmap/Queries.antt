-- ===== src/Bitmap/Queries.antt =====
-- include/lob/bitmap.hpp: `lowest_set` and `highest_set` on each configuration of the tiers.
use orderbooks.Prelude.Bits.{digit, digit-zero}
use orderbooks.Prelude.{
  ◌<◌, ◌%◌, inr, ==_iff, ◌/◌, ◌==◌, ◌+◌, ◌*◌, ◌⊎◌, Bool-cases, false, inl, ◌≡◌, ◌≤◌, ℕ, arith,
}
use orderbooks.Bitmap.{
  some, none, true, Option, Bitmap, test, empty, lowest_set, highest_set, descend_low, descend_high,
  has_l1, has_l2, has_l3, l0_words, l1_words, l2_words, l3_words,
}
use orderbooks.Bitmap.Words.{eq-zero_of_digits}
use orderbooks.Bitmap.Invariant.{IsValid, has_l1_of_l2, has_l2_of_l3}
use orderbooks.Bitmap.Extremes.{
  test_reads, descend_top-IsLeast, descend_top-IsGreatest, IsLeast, IsGreatest, AllZero, IsTop,
  AllZero-below, zero_past, AllZero-top, top-IsLeast, top-IsGreatest, descend_low-IsLeast,
  descend_high-IsGreatest,
}

abbrev pub Lowest : Bitmap → Option ℕ → Type 0
Lowest b r = ((r ≡ none) × AllZero b.l0) ⊎ ((k : ℕ) × (r ≡ some k) × IsLeast b.l0 k)

abbrev pub Highest : Bitmap → Option ℕ → Type 0
Highest b r = ((r ≡ none) × AllZero b.l0) ⊎ ((k : ℕ) × (r ≡ some k) × IsGreatest b.l0 k)

module _ (ticks : ℕ) {b : Bitmap} (v : IsValid ticks b) where
  l0_past : (j : ℕ) → l0_words ticks ≤ j → b.l0 j ≡ 0
  unfolding l0_words
  l0_past j h = eq-zero_of_digits (b.l0 j) (v.words0 j) λ k lt.
      let word : (j * 64 + k) / 64 ≡ j = omega arith in
      let off : (j * 64 + k) % 64 ≡ k = omega arith in
      let read : digit (b.l0 ((j * 64 + k) / 64)) ((j * 64 + k) % 64) ≡ 0 =
        v.in_range (j * 64 + k) (omega arith) in
      rw (word, off) at read

  l1_past : has_l1 ticks ≡ true → (j : ℕ) → l1_words ticks ≤ j → b.l1 j ≡ 0
  unfolding l1_words
  l1_past e j h =
      zero_past b.l1 b.l0 (l0_words ticks) v.words1 (v.summary1 e) l0_past j (ground arith)

  l2_past : has_l2 ticks ≡ true → (j : ℕ) → l2_words ticks ≤ j → b.l2 j ≡ 0
  unfolding l2_words
  l2_past e j h =
      zero_past b.l2 b.l1 (l1_words ticks) v.words2 (v.summary2 e) (l1_past (has_l1_of_l2 ticks e))
        j (ground arith)

  l3_past : has_l3 ticks ≡ true → (j : ℕ) → l3_words ticks ≤ j → b.l3 j ≡ 0
  unfolding l3_words
  l3_past e j h =
      zero_past b.l3 b.l2 (l2_words ticks) v.words3 (v.summary3 e) (l2_past (has_l2_of_l3 ticks e))
        j (ground arith)

  l0-IsTop : has_l1 ticks ≡ false → IsTop b.l0
  unfolding l1_words
  l0-IsTop e j h = l0_past j (ground arith)

  l1-IsTop : has_l1 ticks ≡ true → has_l2 ticks ≡ false → IsTop b.l1
  unfolding l2_words
  l1-IsTop e1 e2 j h = l1_past e1 j (ground arith)

  l2-IsTop : has_l2 ticks ≡ true → has_l3 ticks ≡ false → IsTop b.l2
  unfolding l3_words
  l2-IsTop e2 e3 j h = l2_past e2 j (ground arith)

  -- Four tiers at most, and each is there as long as the one above.
  abbrev Tiers : Type 0
  Tiers =
      ((has_l1 ticks ≡ false) × (has_l2 ticks ≡ false) × (has_l3 ticks ≡ false))
      ⊎ ((has_l1 ticks ≡ true) × (has_l2 ticks ≡ false) × (has_l3 ticks ≡ false))
      ⊎ ((has_l1 ticks ≡ true) × (has_l2 ticks ≡ true) × (has_l3 ticks ≡ false))
      ⊎ ((has_l1 ticks ≡ true) × (has_l2 ticks ≡ true) × (has_l3 ticks ≡ true))

  tiers : Tiers
  tiers = ground (arith, has_l1_of_l2 ticks, has_l2_of_l3 ticks)

  -- Every tier is zero once the top one is.
  l0_zero_1 : has_l1 ticks ≡ true → AllZero b.l1 → AllZero b.l0
  l0_zero_1 e = AllZero-below b.l1 b.l0 (v.summary1 e)

  l0_zero_2 : has_l2 ticks ≡ true → AllZero b.l2 → AllZero b.l0
  l0_zero_2 e z = l0_zero_1 (has_l1_of_l2 ticks e) (AllZero-below b.l2 b.l1 (v.summary2 e) z)

  l0_zero_3 : has_l3 ticks ≡ true → AllZero b.l3 → AllZero b.l0
  l0_zero_3 e z = l0_zero_2 (has_l2_of_l3 ticks e) (AllZero-below b.l3 b.l2 (v.summary3 e) z)

  IsLeast-1 : has_l1 ticks ≡ true → (i : ℕ) → IsLeast b.l1 i → IsLeast b.l0 (descend_low b.l0 i)
  IsLeast-1 e i = descend_low-IsLeast b.l1 b.l0 i v.words0 (v.summary1 e)

  IsLeast-2 : has_l2 ticks ≡ true → (i : ℕ) → IsLeast b.l2 i → IsLeast b.l1 (descend_low b.l1 i)
  IsLeast-2 e i = descend_low-IsLeast b.l2 b.l1 i v.words1 (v.summary2 e)

  IsLeast-3 : has_l3 ticks ≡ true → (i : ℕ) → IsLeast b.l3 i → IsLeast b.l2 (descend_low b.l2 i)
  IsLeast-3 e i = descend_low-IsLeast b.l3 b.l2 i v.words2 (v.summary3 e)

  pub lowest_set_lem : l3_words ticks ≤ 1 → Lowest b (lowest_set ticks b)
  unfolding lowest_set empty
  lowest_set_lem fits = elim tiers [
    | inl (e1, e2, e3) ↦ elim (Bool-cases (b.l0 0 == 0)) [
      | inl z ↦ inl (rw (e1, e2, e3, z), AllZero-top b.l0 (l0-IsTop e1) ((==_iff _ _).0 z))
      | inr ne ↦ inr (_, rw (e1, e2, e3, ne), descend_top-IsLeast b.l0 v.words0 (λ e. ground arith))
    ]
    | inr (inl (e1, e2, e3)) ↦ elim (Bool-cases (b.l1 0 == 0)) [
      | inl z ↦
          inl (
            rw (e1, e2, e3, z),
            l0_zero_1 e1 (AllZero-top b.l1 (l1-IsTop e1 e2) ((==_iff _ _).0 z)),
          )
      | inr ne ↦ inr (
        _,
        rw (e1, e2, e3, ne),
        IsLeast-1 e1 _ (descend_top-IsLeast b.l1 v.words1 (λ e. ground arith)),
      )
    ]
    | inr (inr (inl (e1, e2, e3))) ↦ elim (Bool-cases (b.l2 0 == 0)) [
      | inl z ↦
          inl (
            rw (e1, e2, e3, z),
            l0_zero_2 e2 (AllZero-top b.l2 (l2-IsTop e2 e3) ((==_iff _ _).0 z)),
          )
      | inr ne ↦ inr (
        _,
        rw (e1, e2, e3, ne),
        IsLeast-1 e1 _ (IsLeast-2 e2 _ (descend_top-IsLeast b.l2 v.words2 (λ e. ground arith))),
      )
    ]
    | inr (inr (inr (e1, e2, e3))) ↦ elim (Bool-cases (b.l3 0 == 0)) [
      | inl z ↦ inl (
        rw (e1, e2, e3, z),
        l0_zero_3 e3 (AllZero-top b.l3 (λ j h. l3_past e3 j (omega arith)) ((==_iff _ _).0 z)),
      )
      | inr ne ↦ inr (
        _,
        rw (e1, e2, e3, ne),
        IsLeast-1 e1 _
            (IsLeast-2 e2 _ (IsLeast-3 e3 _ (top-IsLeast b.l3 v.words3 (λ e. ground arith)))),
      )
    ]
  ]

  IsGreatest-1 :
      has_l1 ticks ≡ true → (i : ℕ) → IsGreatest b.l1 i → IsGreatest b.l0 (descend_high b.l0 i)
  IsGreatest-1 e i = descend_high-IsGreatest b.l1 b.l0 i v.words0 (v.summary1 e)

  IsGreatest-2 :
      has_l2 ticks ≡ true → (i : ℕ) → IsGreatest b.l2 i → IsGreatest b.l1 (descend_high b.l1 i)
  IsGreatest-2 e i = descend_high-IsGreatest b.l2 b.l1 i v.words1 (v.summary2 e)

  IsGreatest-3 :
      has_l3 ticks ≡ true → (i : ℕ) → IsGreatest b.l3 i → IsGreatest b.l2 (descend_high b.l2 i)
  IsGreatest-3 e i = descend_high-IsGreatest b.l3 b.l2 i v.words2 (v.summary3 e)

  pub highest_set_lem : l3_words ticks ≤ 1 → Highest b (highest_set ticks b)
  unfolding highest_set empty
  highest_set_lem fits = elim tiers [
    | inl (e1, e2, e3) ↦ elim (Bool-cases (b.l0 0 == 0)) [
      | inl z ↦ inl (rw (e1, e2, e3, z), AllZero-top b.l0 (l0-IsTop e1) ((==_iff _ _).0 z))
      | inr ne ↦ inr (
        _,
        rw (e1, e2, e3, ne),
        descend_top-IsGreatest b.l0 v.words0 (l0-IsTop e1) (λ e. ground arith),
      )
    ]
    | inr (inl (e1, e2, e3)) ↦ elim (Bool-cases (b.l1 0 == 0)) [
      | inl z ↦
          inl (
            rw (e1, e2, e3, z),
            l0_zero_1 e1 (AllZero-top b.l1 (l1-IsTop e1 e2) ((==_iff _ _).0 z)),
          )
      | inr ne ↦ inr (
        _,
        rw (e1, e2, e3, ne),
        IsGreatest-1 e1 _
            (descend_top-IsGreatest b.l1 v.words1 (l1-IsTop e1 e2) (λ e. ground arith)),
      )
    ]
    | inr (inr (inl (e1, e2, e3))) ↦ elim (Bool-cases (b.l2 0 == 0)) [
      | inl z ↦
          inl (
            rw (e1, e2, e3, z),
            l0_zero_2 e2 (AllZero-top b.l2 (l2-IsTop e2 e3) ((==_iff _ _).0 z)),
          )
      | inr ne ↦ inr (
        _,
        rw (e1, e2, e3, ne),
        IsGreatest-1 e1 _ (
            IsGreatest-2 e2 _
              (descend_top-IsGreatest b.l2 v.words2 (l2-IsTop e2 e3) (λ e. ground arith))),
      )
    ]
    | inr (inr (inr (e1, e2, e3))) ↦ elim (Bool-cases (b.l3 0 == 0)) [
      | inl z ↦ inl (
        rw (e1, e2, e3, z),
        l0_zero_3 e3 (AllZero-top b.l3 (λ j h. l3_past e3 j (omega arith)) ((==_iff _ _).0 z)),
      )
      | inr ne ↦ inr (
        _,
        rw (e1, e2, e3, ne),
        IsGreatest-1 e1 _ (
            IsGreatest-2 e2 _ (
              IsGreatest-3 e3 _ (
                top-IsGreatest b.l3 v.words3 (λ j h. l3_past e3 j (omega arith))
                  (λ e. ground arith)))),
      )
    ]
  ]

-- On a valid bitmap of at most four tiers, lowest_set is none and no position is set, or it is the
-- least position that test reports.
pub lowest_set-test :
    (ticks : ℕ) {b : Bitmap}
    → IsValid ticks b
    → l3_words ticks ≤ 1
    → ((lowest_set ticks b ≡ none) × ((i : ℕ) → test ticks b i ≡ false))
      ⊎ ((k : ℕ) × (lowest_set ticks b ≡ some k)
          × (test ticks b k ≡ true)
          × ((j : ℕ) → j < k → test ticks b j ≡ false))
lowest_set-test ticks {b} v fits = elim (lowest_set_lem ticks v fits) [
  | inl (e, z) ↦ inl (e, λ i. ground (arith, test_reads ticks b i, z (i / 64), digit-zero (i % 64)))
  | inr (k, e, m) ↦ inr (
    k,
    e,
    ground (arith, test_reads ticks b k, m.here),
    λ j lt. ground (arith, test_reads ticks b j, m.below j),
  )
]

-- On a valid bitmap of at most four tiers, highest_set is none and no position is set, or it is
-- the greatest position that test reports.
pub highest_set-test :
    (ticks : ℕ) {b : Bitmap}
    → IsValid ticks b
    → l3_words ticks ≤ 1
    → ((highest_set ticks b ≡ none) × ((i : ℕ) → test ticks b i ≡ false))
      ⊎ ((k : ℕ) × (highest_set ticks b ≡ some k)
          × (test ticks b k ≡ true)
          × ((j : ℕ) → k < j → test ticks b j ≡ false))
highest_set-test ticks {b} v fits = elim (highest_set_lem ticks v fits) [
  | inl (e, z) ↦ inl (e, λ i. ground (arith, test_reads ticks b i, z (i / 64), digit-zero (i % 64)))
  | inr (k, e, m) ↦ inr (
    k,
    e,
    ground (arith, test_reads ticks b k, m.here),
    λ j lt. ground (arith, test_reads ticks b j, m.above j),
  )
]
