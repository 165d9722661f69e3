-- ===== src/Engine/Uncrossed.antt =====
-- include/lob/engine.hpp: the best prices of the two sides through `on_submit`.
use orderbooks.Engine.Resting.{with_arena_side, place_book}
use orderbooks.Engine.Fok.{can_fully_fill}
use orderbooks.Engine.Termination.{match_against_opposite-ends, IsMatched}
use orderbooks.Arena.{allocate}
use orderbooks.Engine.Handlers.{is_fok, finish_by_tif, finish_submit, handle_submit, on_submit}
use orderbooks.Engine.Invariant.{BookInv}
use orderbooks.Bitmap.{l3_words}
use orderbooks.Messages.{SubmitMsg}
use orderbooks.Engine.{handle_of, with_book, Engine}
use orderbooks.Engine.Match.{place, resting_order, rest, crosses, match_against_opposite}
use orderbooks.BookSide.{improve, BookSide, side_of, add, Book}
use orderbooks.IdIndex
use orderbooks.Engine.Frame.{publish_top_if_changed-book}
use orderbooks.Prelude.{
  not, ◌&&◌, if◌then◌else◌, ◌+◌, ◌==◌, Bool-cases, Option-cases, subst, ◌<◌, ◌≤◌, ◌∙◌, sym, some,
  ◌≡◌, arith, ℕ, Bool, true, false, inl, inr, ap,
}
use orderbooks.Types.{
  Tif, empty_handle, is_by_handle, OrderHandle, Order, opposite, Ptr, Template, Side, bid, ask, gtc,
  ioc, fok,
}
use orderbooks.Engine.Behind.{IsBehind, match-IsBehind}

-- The best bid is below the best ask, where the book has both.
abbrev pub IsUncrossed : Book → Type 0
IsUncrossed b = (x a : ℕ) → b.bids.best ≡ some x → b.asks.best ≡ some a → x < a

module _ (c : Template) where
  pub still-IsUncrossed :
      (s : Side) (b b' : Book)
      → IsBehind s (side_of s b).best (side_of s b').best
      → side_of (opposite s) b' ≡ side_of (opposite s) b
      → IsUncrossed b
      → IsUncrossed b'
  still-IsUncrossed bid b b' back same u x a bx ba =
      let (j, at_j, worse) = back x bx in
      let lt = u j a at_j (ap (λ (k : BookSide). k.best) (sym same) ∙ ba) in ground arith
  still-IsUncrossed ask b b' back same u x a bx ba =
      let (j, at_j, worse) = back a ba in
      let lt = u x j (ap (λ (k : BookSide). k.best) (sym same) ∙ bx) at_j in ground arith

  -- An order that comes to rest at a price that reaches no best of the other side.
  pub placed-IsUncrossed :
      (s : Side) (b b' : Book) (p : Ptr) (o : Order)
      → side_of s b' ≡ add c.ticks s (side_of s b) p o
      → side_of (opposite s) b' ≡ side_of (opposite s) b
      → ((q : ℕ) → (side_of (opposite s) b).best ≡ some q → crosses s o.px q ≡ false)
      → IsUncrossed b
      → IsUncrossed b'
  unfolding add
  placed-IsUncrossed bid b b' p o here other apart u x a bx ba =
      let at_a = ap (λ (k : BookSide). k.best) (sym other) ∙ ba in
      let at_x : improve bid o.px b.bids.best ≡ some x =
        ap (λ (k : BookSide). k.best) (sym here) ∙ bx in
      elim (Option-cases b.bids.best) [
        | inl none_there ↦ ground (arith, apart a at_a)
        | inr (q, there) ↦ ground (arith, apart a at_a, u q a there at_a)
      ]
  placed-IsUncrossed ask b b' p o here other apart u x a bx ba =
      let at_x = ap (λ (k : BookSide). k.best) (sym other) ∙ bx in
      let at_a : improve ask o.px b.asks.best ≡ some a =
        ap (λ (k : BookSide). k.best) (sym here) ∙ ba in
      elim (Option-cases b.asks.best) [
        | inl none_there ↦ ground (arith, apart x at_x)
        | inr (q, there) ↦ ground (arith, apart x at_x, u x q at_x there)
      ]

  indexed-IsUncrossed :
      (handled : Bool) (h : OrderHandle) (e : Engine) (id : ℕ) (p : Ptr)
      → IsUncrossed e.book
      → IsUncrossed
          (if◌then◌else◌ {A = OrderHandle × Engine} handled
            (h, e)
            (
              empty_handle,
              with_book (record e.book { index = IdIndex.insert e.book.index id p }) e,
            )).1.book
  indexed-IsUncrossed true h e id p u = u
  indexed-IsUncrossed false h e id p u = u

  rest-IsUncrossed :
      (m : SubmitMsg) (s : Side) (e : Engine) (remaining : ℕ)
      → ((q : ℕ) → (side_of (opposite s) e.book).best ≡ some q → crosses s m.px q ≡ false)
      → IsUncrossed e.book
      → IsUncrossed (rest c m s e remaining).1.book
  unfolding rest
  rest-IsUncrossed m s e remaining apart u =
      let r = allocate c.max_orders (is_by_handle c) e.book.arena in
      let e' = with_book (record e.book { arena = r.1 }) e in
      elim (Option-cases r.0) [
        | inl full ↦ rw (full, rest) u
        | inr (p, got) ↦
            let o = resting_order c m s remaining in
            let b = place_book c p o s e' in
            let same = ap (λ (k : BookSide). k.best) (with_arena_side c (opposite s) r.1 e.book) in
            rw (got, rest)
              (indexed-IsUncrossed (is_by_handle c) (handle_of c (place c p o s e') p)
                (place c p o s e') m.id p
                (placed-IsUncrossed s e'.book (place c p o s e').book p o b.1 b.2
                  (λ q there. apart q (sym same ∙ there)) u))
      ]

  finish_submit-IsUncrossed :
      (m : SubmitMsg) (s : Side) (e : Engine) (remaining : ℕ)
      → IsMatched c m (opposite s) (e, remaining)
      → IsUncrossed e.book
      → IsUncrossed (finish_submit c m s (e, remaining)).1.book
  unfolding finish_submit finish_by_tif
  finish_submit-IsUncrossed m s e remaining matched u = elim (Bool-cases (remaining == 0)) [
    | inl none_left ↦ rw none_left u
    | inr some_left ↦ rw some_left (
        by_tif m.t (elim matched [
          | inl none_left ↦ absurd (omega_test none_left some_left)
          | inr apart ↦ rest-IsUncrossed m s e remaining (by_side s apart) u
        ]))
  ]
    where
      omega_test : remaining ≡ 0 → (remaining == 0) ≡ false → ⊥
      omega_test z nz = ground arith

      by_side :
          (s : Side)
          → ((q : ℕ)
              → (side_of (opposite s) e.book).best ≡ some q
              → crosses (opposite (opposite s)) m.px q ≡ false)
          → (q : ℕ) → (side_of (opposite s) e.book).best ≡ some q
          → crosses s m.px q ≡ false
      by_side bid h = h
      by_side ask h = h

      by_tif :
          (x : Tif)
          → IsUncrossed (rest c m s e remaining).1.book
          → IsUncrossed (finish_by_tif c x m s e remaining).1.book
      by_tif gtc r = r
      by_tif ioc r = u
      by_tif fok r = u

  handle_submit-IsUncrossed :
      (m : SubmitMsg) (s : Side) (e : Engine)
      → l3_words c.ticks ≤ 1
      → BookInv c e.book
      → IsUncrossed e.book
      → IsUncrossed (handle_submit c m s e).1.book
  unfolding handle_submit
  handle_submit-IsUncrossed m s e fits v u =
      let out = match_against_opposite c (c.ticks + 1) m (opposite s) e m.qty in
      let back = match-IsBehind c (c.ticks + 1) m (opposite s) e m.qty fits v in
      elim (Bool-cases
        (is_fok m.t && not (can_fully_fill c e (opposite s) m.px m.qty m.account_id))) [
          | inl killed ↦ rw killed u
          | inr taken ↦ rw taken (
              finish_submit-IsUncrossed m s out.0 out.1
                (match_against_opposite-ends c m (opposite s) e m.qty fits v)
                (still-IsUncrossed (opposite s) e.book out.0.book back.0 back.1 u))
        ]

  -- With at most four bitmap tiers, on a sound book whose best bid is below its best ask wherever
  -- it has both, a submit leaves a book of which the same holds, whatever the order, its time in
  -- force and the self-cross policy.
  pub on_submit-IsUncrossed :
      (m : SubmitMsg) (e : Engine)
      → l3_words c.ticks ≤ 1
      → BookInv c e.book
      → IsUncrossed e.book
      → IsUncrossed (on_submit c m e).1.book
  unfolding on_submit
  on_submit-IsUncrossed m e fits v u =
      subst IsUncrossed (sym (publish_top_if_changed-book (handle_submit c m m.s e).1))
        (handle_submit-IsUncrossed m m.s e fits v u)
