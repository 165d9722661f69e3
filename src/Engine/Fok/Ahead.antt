-- ===== src/Engine/Fok/Ahead.antt =====
-- include/lob/engine.hpp: the next level of the walk of `can_fully_fill_`, and the orders that are behind a
-- price.
use orderbooks.Prelude.{
  ℕ, ◌+◌, ◌-◌, ◌%◌, ◌^◌, ◌<◌, ◌≤◌, ◌≡◌, ◌==◌, ◌⊎◌, if◌then◌else◌, List, [], ◌++◌, All_mono, refl,
  sym, ap, ◌∙◌, Bool-cases, none, some, true, false, inl, inr, arith,
}
use orderbooks.Types.{Side, bid, ask}
use orderbooks.Bitmap.{has_l1, has_l2, has_l3, l3_words, test}
use orderbooks.Bitmap.Invariant.{IsValid}
use orderbooks.Bitmap.Sizes.{ticks-l3, ticks-top0, ticks-top1, ticks-top2}
use orderbooks.Bitmap.Next.{next_set_at_or_after-test}
use orderbooks.Bitmap.Prev.{prev_set_at_or_before-test}
use orderbooks.BookSide.{
  BookSide, is_better, next_populated_at_or_after, prev_populated_at_or_before,
}
use orderbooks.Engine.Fok.{next_level}
use orderbooks.Engine.Priority.Ladder.{
  ladder, Split-ladder, orders_on, orders_on-best, orders_on-same,
}

-- A bitmap of at most four tiers has room for 2 ^ 24 ticks.
pub ticks_fit : (ticks : ℕ) → l3_words ticks ≤ 1 → ticks ≤ 16777216
ticks_fit ticks fits = elim (Bool-cases (has_l3 ticks)) [
  | inl e3 ↦ omega (arith, ticks-l3 ticks e3, fits)
  | inr e3 ↦ elim (Bool-cases (has_l2 ticks)) [
    | inl e2 ↦ omega (arith, ticks-top2 ticks e2 e3)
    | inr e2 ↦ elim (Bool-cases (has_l1 ticks)) [
      | inl e1 ↦ omega (arith, ticks-top1 ticks e1 e2)
      | inr e1 ↦ omega (arith, ticks-top0 ticks e1)
    ]
  ]
]

-- The walk goes on to the best marked price behind `px`, where there is one.
pub next_level-test :
    (ticks : ℕ) (s : Side) (b : BookSide) (px : ℕ)
    → IsValid ticks b.bm
    → l3_words ticks ≤ 1
    → px < ticks
    → ((next_level ticks s b px ≡ none)
        × ((q : ℕ) → is_better s px q ≡ true → test ticks b.bm q ≡ false))
      ⊎ ((k : ℕ) × (next_level ticks s b px ≡ some k)
          × (is_better s px k ≡ true)
          × (test ticks b.bm k ≡ true)
          × ((q : ℕ)
              → is_better s px q ≡ true
              → is_better s q k ≡ true
              → test ticks b.bm q ≡ false))
unfolding next_level next_populated_at_or_after prev_populated_at_or_before
next_level-test ticks ask b px v fits lt =
    let same : (px + 1) % 2 ^ 32 ≡ px + 1 = omega (arith, ticks_fit ticks fits, lt) in
    rw (same, next_level)
      (elim (next_set_at_or_after-test ticks (px + 1) v fits) [
        | inl (e, z) ↦ inl (e, λ q h. z q (ground (arith, h)))
        | inr (k, e, le, here, between) ↦ inr (
          k,
          e,
          ground (arith, le),
          here,
          λ q h h'. between q (ground (arith, h)) (ground (arith, h')),
        )
      ])
next_level-test ticks bid b px v fits lt = elim (Bool-cases (px == 0)) [
  | inl z ↦ rw (z, next_level) (inl (refl, λ q h. absurd (ground (arith, z, h))))
  | inr ne ↦
      rw (ne, next_level)
        (elim (prev_set_at_or_before-test ticks (px - 1) v fits) [
          | inl (e, z) ↦ inl (e, λ q h. z q (ground (arith, h, ne)))
          | inr (k, e, le, here, between) ↦ inr (
            k,
            e,
            ground (arith, le, ne),
            here,
            λ q h h'. between q (ground (arith, h')) (ground (arith, h, ne)),
          )
        ])
]

not_ahead_of_itself : (s : Side) (q : ℕ) → is_better s q q ≡ false
not_ahead_of_itself bid q = ground arith
not_ahead_of_itself ask q = ground arith

ahead_not_behind : (s : Side) (q k : ℕ) → is_better s q k ≡ true → is_better s k q ≡ false
ahead_not_behind bid q k h = ground arith
ahead_not_behind ask q k h = ground arith

-- Prices in a row.
pub ahead_trans :
    (s : Side) (p q r : ℕ)
    → is_better s p q ≡ true
    → is_better s q r ≡ true
    → is_better s p r ≡ true
ahead_trans bid p q r h h' = ground (arith, h, h')
ahead_trans ask p q r h h' = ground (arith, h, h')

module _ {ℓ} {A : Type ℓ} (f : ℕ → List A) (s : Side) where
  -- What rests behind `px`.
  abbrev pub beyond : ℕ → ℕ → List A
  beyond px q = if is_better s px q then f q else []

  -- With nothing ahead of `k`, what rests is what rests at `k`, and behind it.
  pub orders_on-beyond :
      (g : ℕ → List A) (n k : ℕ)
      → k < n
      → ((q : ℕ) → is_better s q k ≡ true → g q ≡ [])
      → ((q : ℕ) → is_better s k q ≡ true → g q ≡ f q)
      → g k ≡ f k
      → orders_on g (ladder s n) ≡ f k ++ orders_on (beyond k) (ladder s n)
  orders_on-beyond g n k lt none_ahead same here =
      let r = Split-ladder s n k lt in
      let behind : orders_on g r.behind ≡ orders_on (beyond k) r.behind =
        orders_on-same g (beyond k) r.behind (
          All_mono (λ q. is_better s k q ≡ true) (λ q. g q ≡ beyond k q) r.behind
            (λ q h. same q h ∙ sym (rw h refl)) r.worse) in
      let rest : orders_on (beyond k) (ladder s n) ≡ orders_on (beyond k) r.behind =
        orders_on-best (beyond k) s n k r (λ q h. rw (ahead_not_behind s q k h) refl)
        ∙ (rw (not_ahead_of_itself s k) refl) in
      orders_on-best g s n k r none_ahead
      ∙ ap (λ (xs : List A). xs ++ orders_on g r.behind) here
      ∙ ap (λ (xs : List A). f k ++ xs) (behind ∙ sym rest)
