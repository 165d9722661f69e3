-- ===== src/Engine/Behind.antt =====
-- include/lob/engine.hpp: the best price of the side that `match_against_opposite_` matches against.
use orderbooks.Bitmap.Extremes.{test-clear}
use orderbooks.Engine.Matching.{settle_level-BookInv, match_level-BookMatching, with_side_of_book}
use orderbooks.BookSide.Invariant.{best_of-IsBest, IsBest}
use orderbooks.Bitmap.Invariant.{clear-IsValid, IsValid}
use orderbooks.Engine.Invariant.{start_BookMatching, BookMatching, BookInv}
use orderbooks.Bitmap.{l3_words}
use orderbooks.Messages.{SubmitMsg}
use orderbooks.Engine.{Engine}
use orderbooks.Engine.Match.{
  match_level, level_rounds, level_at, crosses, match_against_opposite, settle_level,
}
use orderbooks.BookSide.{BookSide, is_better, side_of, notify_level_emptied}
use orderbooks.Level
use orderbooks.Bitmap
use orderbooks.Engine.SameTop.{match_level-SameTop}
use orderbooks.Prelude.{
  zero, ==_iff, ◌==◌, refl, ltb, Bool-cases, suc, Option-cases, subst, ◌≤◌, ◌∙◌, some, ◌≡◌, arith,
  ℕ, Option, true, false, inl, inr,
}
use orderbooks.Types.{opposite, Template, Side, bid, ask}

-- A best price that is not ahead of the one before.
abbrev pub IsBehind : Side → Option ℕ → Option ℕ → Type 0
IsBehind s before after =
    (k : ℕ) → after ≡ some k → (j : ℕ) × (before ≡ some j) × (is_better s k j ≡ false)

pub IsBehind-refl : (s : Side) (best : Option ℕ) → IsBehind s best best
IsBehind-refl bid best k e = (k, e, ground arith)
IsBehind-refl ask best k e = (k, e, ground arith)

is_better_trans :
    (s : Side) (k j i : ℕ)
    → is_better s k j ≡ false
    → is_better s j i ≡ false
    → is_better s k i ≡ false
is_better_trans bid k j i a b = ground arith
is_better_trans ask k j i a b = ground arith

IsBehind-trans : (s : Side) (a b d : Option ℕ) → IsBehind s a b → IsBehind s b d → IsBehind s a d
IsBehind-trans s a b d f g k e =
    let (j, at_b, worse) = g k e in
    let (i, at_a, worse') = f j at_b in (i, at_a, is_better_trans s k j i worse worse')

module _ (c : Template) where
  pub emptied-IsBehind :
      (s : Side) (px : ℕ) (b : BookSide)
      → l3_words c.ticks ≤ 1
      → IsValid c.ticks b.bm
      → IsBest c.ticks s b.bm (some px)
      → b.best ≡ some px
      → IsBehind s (some px) (notify_level_emptied c.ticks s b px).best
  unfolding notify_level_emptied
  emptied-IsBehind s px b fits valid best same =
      let bm = Bitmap.clear c.ticks b.bm px in
      let next = best_of-IsBest c.ticks s fits (clear-IsValid c.ticks b.bm px valid) in
      let here : (px == px) ≡ true = (==_iff px px).1 refl in
      rw (same, here)
        (λ k e. (
          px,
          refl,
          ground (arith, test-clear c.ticks b.bm px k, next.is_set k e, best.none_ahead px k refl),
        ))

  settled-IsBehind :
      (s : Side) (px : ℕ) (e : Engine)
      → l3_words c.ticks ≤ 1
      → BookMatching c s px e.book
      → (side_of s e.book).best ≡ some px
      → IsBehind s (some px) (side_of s (settle_level c s px e).book).best
        × (side_of (opposite s) (settle_level c s px e).book ≡ side_of (opposite s) e.book)
  unfolding settle_level
  settled-IsBehind s px e fits v best =
      let k = notify_level_emptied c.ticks s (side_of s e.book) px in
      let is_best = subst (IsBest c.ticks s (side_of s e.book).bm) best v.here.best_is in
      let w = with_side_of_book c s k e.book in
      elim (Bool-cases (Level.empty (level_at e s px))) [
        | inl run_out ↦
            rw (run_out, w.0)
              (emptied-IsBehind s px (side_of s e.book) fits v.here.bitmap is_best best, w.1)
        | inr left ↦ rw (left, best) (IsBehind-refl s (some px), refl)
      ]

  -- Matching moves the best of its side back, and leaves the other side.
  pub match-IsBehind :
      (f : ℕ) (m : SubmitMsg) (s : Side) (e : Engine) (remaining : ℕ)
      → l3_words c.ticks ≤ 1
      → BookInv c e.book
      → let b' = (match_against_opposite c f m s e remaining).0.book in
        IsBehind s (side_of s e.book).best (side_of s b').best
        × (side_of (opposite s) b' ≡ side_of (opposite s) e.book)
  unfolding match_against_opposite
  match-IsBehind zero m s e remaining fits v = (IsBehind-refl s _, refl)
  match-IsBehind (suc f) m s e remaining fits v = elim (Bool-cases (ltb 0 remaining)) [
    | inr done ↦ rw (done, match_against_opposite) (IsBehind-refl s _, refl)
    | inl more ↦ elim (Option-cases (side_of s e.book).best) [
      | inl e0 ↦
          rw (more, e0, match_against_opposite)
            (subst (λ x. IsBehind s x (side_of s e.book).best) e0 (IsBehind-refl s _), refl)
      | inr (px, best) ↦ elim (Bool-cases (crosses (opposite s) m.px px)) [
        | inr apart ↦
            rw (more, best, apart, match_against_opposite)
              (subst (λ x. IsBehind s x (side_of s e.book).best) best (IsBehind-refl s _), refl)
        | inl reached ↦
            let n = level_rounds c e s px in
            let r = match_level c n m s px e remaining in
            let e' = settle_level c s px r.engine in
            let matching =
              match_level-BookMatching c n m s px e remaining (start_BookMatching c s px best v) in
            let v' = settle_level-BookInv c s px r.engine fits matching in
            let kept = match_level-SameTop c n m s px e remaining in
            let settled = settled-IsBehind s px r.engine fits matching (kept.0 ∙ best) in
            elim (Bool-cases r.aborted) [
              | inl stop ↦
                  rw (more, best, reached, stop, match_against_opposite)
                    (settled.0, settled.1 ∙ kept.2)
              | inr on ↦
                  let later = match-IsBehind f m s e' r.remaining fits v' in
                  rw (more, best, reached, on, match_against_opposite)
                    (
                      IsBehind-trans s (some px) (side_of s e'.book).best _ settled.0 later.0,
                      later.1 ∙ settled.1 ∙ kept.2,
                    )
            ]
      ]
    ]
  ]
