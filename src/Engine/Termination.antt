-- ===== src/Engine/Termination.antt =====
-- include/lob/engine.hpp: the rounds of the outer loop of `match_against_opposite_`.
use orderbooks.Engine.Submit.{match_against_opposite-left}
use orderbooks.Engine.SameTop.{match_level-SameTop}
use orderbooks.Engine.Progress.{match_level-IsSettled, match_level-aborted}
use orderbooks.Engine.Matching.{match_level-BookMatching, with_side_of_book}
use orderbooks.Bitmap.Extremes.{test_reads}
use orderbooks.Bitmap.Invariant.{clear-IsValid, IsValid}
use orderbooks.Engine.Invariant.{start_BookMatching, BookMatching, BookInv}
use orderbooks.BookSide.Invariant.{best_of-IsBest, IsBest, SideInv}
use orderbooks.Arena.{Slot}
use orderbooks.Bitmap.{l3_words}
use orderbooks.Engine.{Engine}
use orderbooks.Engine.Match.{
  match_level, level_rounds, crosses, level_at, match_against_opposite, settle_level,
}
use orderbooks.Messages.{SubmitMsg}
use orderbooks.BookSide.{best_of, is_better, side_of, BookSide, notify_level_emptied}
use orderbooks.Bitmap.Extremes.{test-clear}
use orderbooks.Engine.Matching.{settle_level-BookInv}
use orderbooks.Bitmap
use orderbooks.Prelude.{
  zero, ◌∙◌, refl, ==_iff, ◌==◌, ltb, Bool-cases, subst, suc, Option-cases, ◌≢◌, [], arith, none,
  ◌<◌, ◌-◌, ◌≤◌, ◌+◌, ◌⊎◌, some, ◌≡◌, ℕ, Option, true, false, inl, inr, ap,
}
use orderbooks.Types.{opposite, Side, Template, bid, ask}

module _ (c : Template) where
  -- Rounds that the outer loop may still take with this best price.
  abbrev pub rounds_left : Side → Option ℕ → ℕ
  rounds_left s none = 0
  rounds_left bid (some px) = px + 1
  rounds_left ask (some px) = c.ticks - px

  -- No aggressor is left, or none that reaches the best price.
  abbrev pub IsMatched : SubmitMsg → Side → Engine × ℕ → Type 0
  IsMatched m s r =
      (r.1 ≡ 0)
      ⊎ ((px : ℕ) → (side_of s r.0.book).best ≡ some px → crosses (opposite s) m.px px ≡ false)

  pub some_rounds : (s : Side) (px : ℕ) → px < c.ticks → 0 < rounds_left s (some px)
  some_rounds bid px lt = omega arith
  some_rounds ask px lt = omega arith

  -- Another price that is not ahead has fewer rounds left.
  pub behind_rounds :
      (s : Side) (k px : ℕ)
      → k ≢ px
      → is_better s k px ≡ false
      → px < c.ticks
      → rounds_left s (some k) < rounds_left s (some px)
  behind_rounds bid k px ne worse lt = ground arith
  behind_rounds ask k px ne worse lt = ground arith

  -- The best price of a side is on the ladder.
  pub best_on_ladder :
      (s : Side) {slots : ℕ → Slot} {b : BookSide} (px : ℕ)
      → SideInv c.ticks s slots b
      → b.best ≡ some px
      → px < c.ticks
  best_on_ladder s {b} px v best =
      let marked = v.best_is.is_set px best in
      ground (arith, test_reads c.ticks b.bm px, v.bitmap.in_range px)

  pub start_rounds :
      (s : Side) {slots : ℕ → Slot} {b : BookSide}
      → SideInv c.ticks s slots b
      → rounds_left s b.best < c.ticks + 1
  start_rounds s {b} v = elim (Option-cases b.best) [
    | inl e0 ↦ rw e0 (omega arith)
    | inr (px, best) ↦ rw best (fits s px (best_on_ladder s px v best))
  ]
    where
      fits : (s : Side) (px : ℕ) → px < c.ticks → rounds_left s (some px) < c.ticks + 1
      fits bid px lt = omega arith
      fits ask px lt = omega arith

  -- After `notify_level_emptied` at the best price, a best price is behind it.
  emptied_rounds :
      (s : Side) (px : ℕ) (b : BookSide)
      → l3_words c.ticks ≤ 1
      → IsValid c.ticks b.bm
      → IsBest c.ticks s b.bm (some px)
      → b.best ≡ some px
      → px < c.ticks
      → rounds_left s (notify_level_emptied c.ticks s b px).best < rounds_left s (some px)
  unfolding notify_level_emptied
  emptied_rounds s px b fits valid best same lt =
      let bm = Bitmap.clear c.ticks b.bm px in
      let next = best_of-IsBest c.ticks s fits (clear-IsValid c.ticks b.bm px valid) in
      let here : (px == px) ≡ true = (==_iff px px).1 refl in
      rw (same, here)
        (elim (Option-cases (best_of c.ticks s bm)) [
          | inl e0 ↦ rw e0 (some_rounds s px lt)
          | inr (k, e) ↦ rw e (
              behind_rounds s k px (ground (arith, test-clear c.ticks b.bm px k, next.is_set k e))
                (ground
                  (arith, test-clear c.ticks b.bm px k, next.is_set k e, best.none_ahead px k refl))
                lt)
        ])

  -- A level that was matched until it ran empty is settled.
  pub settled_rounds :
      (s : Side) (px : ℕ) (e : Engine)
      → l3_words c.ticks ≤ 1
      → BookMatching c s px e.book
      → (side_of s e.book).best ≡ some px
      → px < c.ticks
      → (level_at e s px).fifo ≡ []
      → rounds_left s (side_of s (settle_level c s px e).book).best < rounds_left s (some px)
  unfolding settle_level
  settled_rounds s px e fits v best lt run_out =
      let k = notify_level_emptied c.ticks s (side_of s e.book) px in
      let is_best : IsBest c.ticks s (side_of s e.book).bm (some px) =
        subst (IsBest c.ticks s (side_of s e.book).bm) best v.here.best_is in
      rw (run_out, (with_side_of_book c s k e.book).0)
        (emptied_rounds s px (side_of s e.book) fits v.here.bitmap is_best best lt)

  -- With more rounds than the best price allows, the loop ends by its own condition.
  match_against_opposite-IsMatched :
      (f : ℕ) (m : SubmitMsg) (s : Side) (e : Engine) (remaining : ℕ)
      → l3_words c.ticks ≤ 1
      → BookInv c e.book
      → rounds_left s (side_of s e.book).best < f
      → IsMatched m s (match_against_opposite c f m s e remaining)
  unfolding match_against_opposite
  match_against_opposite-IsMatched zero m s e remaining fits v enough = absurd (omega arith)
  match_against_opposite-IsMatched (suc f) m s e remaining fits v enough =
      elim (Bool-cases (ltb 0 remaining)) [
        | inr done ↦ rw (done, match_against_opposite) (inl (ground arith))
        | inl more ↦ elim (Option-cases (side_of s e.book).best) [
          | inl e0 ↦ rw (more, e0, match_against_opposite) (inr (λ px best. cc))
          | inr (px, best) ↦ elim (Bool-cases (crosses (opposite s) m.px px)) [
            | inr apart ↦
                rw (more, best, apart, match_against_opposite)
                  (inr (λ q same.
                    let eq : px ≡ q = ground arith in
                    subst (λ q. crosses (opposite s) m.px q ≡ false) eq apart))
            | inl reached ↦
                let n = level_rounds c e s px in
                let r = match_level c n m s px e remaining in
                let matching =
                  match_level-BookMatching c n m s px e remaining
                    (start_BookMatching c s px best v) in
                let v' = settle_level-BookInv c s px r.engine fits matching in
                let kept = match_level-SameTop c n m s px e remaining in
                elim (Bool-cases r.aborted) [
                  | inl stop ↦
                      rw (more, best, reached, stop, match_against_opposite)
                        (inl (match_level-aborted c n m s px e remaining stop))
                  | inr on ↦
                      rw (more, best, reached, on, match_against_opposite)
                        (elim (match_level-IsSettled c n m s px e remaining (omega arith)) [
                          | inl none_left ↦ inl (
                              omega (
                                arith,
                                none_left,
                                match_against_opposite-left c f m s (settle_level c s px r.engine)
                                    r.remaining,
                              ))
                          | inr run_out ↦
                              match_against_opposite-IsMatched f m s (settle_level c s px r.engine)
                                r.remaining fits v'
                                (omega (
                                  arith,
                                  settled_rounds s px r.engine fits matching (kept.0 ∙ best)
                                      (best_on_ladder s px (v.sides s) best) run_out,
                                  ap (rounds_left s) best,
                                ))
                        ])
                ]
          ]
        ]
      ]

  -- On a sound book with at most four bitmap tiers, the matching loop with one round more than the
  -- ladder has prices ends with no aggressor quantity left or with no best opposite price that the
  -- aggressor reaches.
  pub match_against_opposite-ends :
      (m : SubmitMsg) (s : Side) (e : Engine) (remaining : ℕ)
      → l3_words c.ticks ≤ 1
      → BookInv c e.book
      → IsMatched m s (match_against_opposite c (c.ticks + 1) m s e remaining)
  match_against_opposite-ends m s e remaining fits v =
      match_against_opposite-IsMatched (c.ticks + 1) m s e remaining fits v
        (start_rounds s (v.sides s))
