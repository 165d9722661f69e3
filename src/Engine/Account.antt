-- ===== src/Engine/Account.antt =====
-- include/lob/engine.hpp: what `on_submit` publishes after matching, and the quantity that it trades.
use orderbooks.BookSide.{side_of, add}
use orderbooks.Arena.{allocate}
use orderbooks.Messages.{SubmitMsg}
use orderbooks.Engine.Traded.{traded-append, traded}
use orderbooks.Engine.Match.{resting_order, place, rest}
use orderbooks.Engine.Handlers.{finish_by_tif, finish_submit}
use orderbooks.Prelude.{
  ap, if◌then◌else◌, ◌||◌, Bool, not, refl, ◌&&◌, Option-cases, ◌==◌, Bool-cases, ◌≡◌, ℕ, arith,
  ◌∙◌, true, false, inl, inr,
}
use orderbooks.IdIndex
use orderbooks.Types.{
  empty_handle, OrderHandle, Order, Ptr, is_by_handle, Tif, Side, Template, gtc, ioc, fok,
}
use orderbooks.Engine.{
  handle_of, with_book, with_side_of, affects_top, write_order, mark_top, top_unchanged,
  refresh_top, publish_top_if_changed, Engine,
}

module _ (c : Template) where
  pub mark_top-published :
      (s : Side) (px : ℕ) (e : Engine) → (mark_top s px e).published ≡ e.published
  unfolding mark_top
  mark_top-published s px e = elim (Bool-cases (not e.cfg.top_throttle || affects_top e s px)) [
    | inl marked ↦ rw marked refl
    | inr not_marked ↦ rw not_marked refl
  ]

  pub place-published :
      (p : Ptr) (o : Order) (s : Side) (e : Engine) → (place c p o s e).published ≡ e.published
  unfolding place
  place-published p o s e =
      let e' = write_order p o e in
      mark_top-published s o.px (with_side_of s (add c.ticks s (side_of s e'.book) p o) e')

  rest-traded :
      (m : SubmitMsg) (s : Side) (e : Engine) (remaining : ℕ)
      → traded (rest c m s e remaining).1.published ≡ traded e.published
  unfolding rest
  rest-traded m s e remaining =
      let r = allocate c.max_orders (is_by_handle c) e.book.arena in
      let e' = with_book (record e.book { arena = r.1 }) e in
      elim (Option-cases r.0) [
        | inl full ↦ rw (full, rest) (traded-append e.published _ ∙ omega arith)
        | inr (p, got) ↦
            let placed = place c p (resting_order c m s remaining) s e' in
            rw (got, rest)
              (by_mode (is_by_handle c) (handle_of c placed p) placed p
                ∙ ap traded (place-published p (resting_order c m s remaining) s e'))
      ]
    where
      by_mode :
          (handled : Bool) (h : OrderHandle) (e : Engine) (p : Ptr)
          → traded
              (if◌then◌else◌ {A = OrderHandle × Engine} handled
                (h, e)
                (
                  empty_handle,
                  with_book (record e.book { index = IdIndex.insert e.book.index m.id p }) e,
                )).1.published
            ≡ traded e.published
      by_mode true h e p = refl
      by_mode false h e p = refl

  pub finish_submit-traded :
      (m : SubmitMsg) (s : Side) (r : Engine × ℕ)
      → traded (finish_submit c m s r).1.published ≡ traded r.0.published
  unfolding finish_submit finish_by_tif
  finish_submit-traded m s (e, remaining) = elim (Bool-cases (remaining == 0)) [
    | inl done ↦ rw done refl
    | inr left ↦ rw left (by_tif m.t)
  ]
    where
      by_tif :
          (t : Tif) → traded (finish_by_tif c t m s e remaining).1.published ≡ traded e.published
      by_tif gtc = rest-traded m s e remaining
      by_tif ioc = refl
      by_tif fok = refl

  pub publish_top-traded :
      (e : Engine) → traded (publish_top_if_changed e).published ≡ traded e.published
  unfolding publish_top_if_changed refresh_top
  publish_top-traded e = elim (Bool-cases e.state.top_dirty) [
    | inr clean ↦ simp clean
    | inl dirty ↦ elim (Bool-cases (e.state.suppress_top_depth == 0)) [
      | inr suppressed ↦ simp (dirty, suppressed)
      | inl open_top ↦ elim (Bool-cases (e.cfg.top_throttle && top_unchanged e)) [
        | inl quiet ↦ simp (dirty, open_top, quiet)
        | inr changed ↦ simp (dirty, open_top, changed) (traded-append e.published _ ∙ omega arith)
      ]
    ]
  ]
