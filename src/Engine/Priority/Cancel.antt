-- ===== src/Engine/Priority/Cancel.antt =====
-- include/lob/engine.hpp: `on_cancel`, on the orders of the two sides.
use orderbooks.Prelude.{
  ℕ, ◌<◌, ◌≡◌, ◌≢◌, if◌then◌else◌, Bool, List, Option, Option-cases, none, some, refl, sym, ap, ◌∙◌,
  subst, true, false, inl, inr, update, update_self, update_ne, arith,
}
use mathlib.Core.Path.{fun_ext}
use orderbooks.Types.{Ptr, Side, bid, ask, opposite, Order, OrderHandle, Template, is_by_handle}
use orderbooks.Messages.{CancelMsg}
use orderbooks.IdIndex
use orderbooks.IdIndex.{IdIndex}
use orderbooks.Level.{Level, erase, unlink}
use orderbooks.Arena.{Arena, Slot, is_live, load, link, deallocate}
use orderbooks.Bitmap.Extremes.{test_reads}
use orderbooks.BookSide.{BookSide, Book, side_of}
use orderbooks.BookSide.Unlink.{In}
use orderbooks.Engine.{Engine, order_at, find, resolve, with_book}
use orderbooks.Engine.Handlers.{remove_order, on_cancel}
use orderbooks.Engine.Invariant.{BookInv, Rests-once, Rests-one_side}
use orderbooks.Engine.Frame.{publish_top_if_changed-book}
use orderbooks.Engine.Cancel.{
  live-Rests, remove_order_book, remove_levels, IsLiveIfFound, find-BookInv,
}
use orderbooks.Engine.Priority.Ladder.{ladder, orders_on}
use orderbooks.Engine.Priority.Effects.{orders_in, orders_at}
use orderbooks.Engine.Priority.Resting.{resting}
use orderbooks.Engine.Priority.Rest.{standing}
use orderbooks.Engine.Priority.Without.{
  Without, orders_in-erase, orders_on-Without, elsewhere, not_empty,
}

module _ (c : Template) where
  -- A price that an order rests at is on the ladder.
  order_on_ladder :
      (s : Side) (px : ℕ) (p : Ptr) (b : Book)
      → BookInv c b
      → In p ((side_of s b).levels px).fifo
      → px < c.ticks
  order_on_ladder s px p b v i =
      let some_there = not_empty p ((side_of s b).levels px).fifo i in
      ground (
        arith,
        some_there,
        (v.sides s).populated px,
        test_reads c.ticks (side_of s b).bm px,
        (v.sides s).bitmap.in_range px,
      )

  -- The order at `p` leaves its side, and the other side is as it was.
  remove_order-Without :
      (p : Ptr) (e : Engine)
      → is_live (e.book.arena.slots p) ≡ true
      → BookInv c e.book
      → let o = order_at e p in
        Without o (standing c e.book o.s) (standing c (remove_order c p e).book o.s)
        × (standing c (remove_order c p e).book (opposite o.s) ≡ standing c e.book (opposite o.s))
  unfolding deallocate unlink
  remove_order-Without p e live v =
      let o = order_at e p in
      let s = o.s in
      let far = opposite s in
      let b' = (remove_order c p e).book in
      let b = remove_order_book c p s e refl in
      let slots = e.book.arena.slots in
      let x = link e.book.arena.free_head in
      let after = update slots p x in
      let at_slots : b'.arena.slots ≡ after = ap (λ (a : Arena). a.slots) b.0 in
      let r = live-Rests c e.book p v live in
      let old = (side_of s e.book).levels in
      let lvl = unlink (old o.px) p o in
      let levels : (side_of s b').levels ≡ update old o.px lvl =
        ap (λ (k : BookSide). k.levels) b.1 ∙ remove_levels c s (side_of s e.book) p o in
      let f = λ (q : ℕ). orders_in slots (old q).fifo in
      let g = λ (q : ℕ). orders_in b'.arena.slots ((side_of s b').levels q).fifo in
      let read : (q : ℕ) → g q ≡ orders_in after (update old o.px lvl q).fifo = λ q.
        ap (λ (h : ℕ → Slot). orders_in h ((side_of s b').levels q).fifo) at_slots
        ∙ ap (λ (ls : ℕ → Level). orders_in after (ls q).fifo) levels in
      let here : g o.px ≡ orders_in after (erase p (old o.px).fifo) =
        read o.px ∙ ap (λ (l : Level). orders_in after l.fifo) (update_self old o.px lvl) in
      let other : (q : ℕ) → q ≢ o.px → g q ≡ f q = λ q ne.
        read q
        ∙ ap (λ (l : Level). orders_in after l.fifo) (update_ne old o.px q lvl (λ h. ne (sym h)))
        ∙ elsewhere s q slots p x (old q).fifo (Rests-once s o.px q (slots p) r.1 ne)
            ((v.sides s).sound q).owned in
      (
        orders_on-Without f g s c.ticks o.px o (order_on_ladder s o.px p e.book v r.0)
            (subst (λ (os : List Order). Without o (f o.px) os) (sym here)
              (orders_in-erase slots p x (old o.px).fifo r.0 ((v.sides s).sound o.px).distinct))
            other,
        ap (λ (h : ℕ → List Order). orders_on h (ladder far c.ticks))
            (fun_ext λ q.
              ap (λ (h : ℕ → Slot). orders_in h ((side_of far b').levels q).fifo) at_slots
              ∙ ap (λ (k : BookSide). orders_in after (k.levels q).fifo) b.2
              ∙ elsewhere far q slots p x ((side_of far e.book).levels q).fifo
                  (Rests-one_side s o.px q (slots p) r.1) ((v.sides far).sound q).owned),
      )

  -- The id index holds no order.
  with_index-standing :
      (b : Book) (x : IdIndex) (s : Side) → standing c (record b { index = x }) s ≡ standing c b s
  with_index-standing b x bid = refl
  with_index-standing b x ask = refl

  find-standing :
      (e : Engine) (id : ℕ) (h : OrderHandle) (unindex : Bool) (s : Side)
      → standing c (find c e id h unindex).1.book s ≡ standing c e.book s
  unfolding find
  find-standing e id h unindex s = by_mode (is_by_handle c) unindex
    where
      by_mode :
          (handled unindex : Bool)
          → let found : Option Ptr × Engine =
              if handled
              then (resolve c e h id, e)
              else if unindex
              then (let (p, index) = IdIndex.take e.book.index id in
                  (p, with_book (record e.book { index = index }) e))
              else (IdIndex.lookup e.book.index id, e) in
            standing c found.1.book s ≡ standing c e.book s
      by_mode true unindex = refl
      by_mode false true = with_index-standing e.book (IdIndex.take e.book.index id).1 s
      by_mode false false = refl

  -- `o` is taken out of its side, and the other side is as it was.
  abbrev pub TakesOut : Order → (Side → List Order) → (Side → List Order) → Type 0
  TakesOut o old now = Without o (old o.s) (now o.s) × (now (opposite o.s) ≡ old (opposite o.s))

  -- What a cancel does to the orders of the two sides.
  abbrev pub IsCancelled : Engine → Option Ptr → Engine → Type 0
  IsCancelled e none e' = (s : Side) → resting c e' s ≡ resting c e s
  IsCancelled e (some p) e' = TakesOut (order_at e p) (λ s. resting c e s) (λ s. resting c e' s)

  -- On a sound book, a cancel that finds an order takes exactly that one out of the orders of its
  -- side, the others keep their places, and the orders of the other side are as they were; one
  -- that finds none leaves the orders of both sides as they were; given that an order it finds
  -- lives in the arena.
  pub on_cancel-IsCancelled :
      (m : CancelMsg) (e : Engine)
      → IsLiveIfFound c e (find c e m.id m.handle true).0
      → BookInv c e.book
      → IsCancelled e (find c e m.id m.handle true).0 (on_cancel c m e)
  unfolding on_cancel resting orders_at
  on_cancel-IsCancelled m e finds v =
      let f = find c e m.id m.handle true in
      let kept = find-BookInv c e m.id m.handle true v in
      let same = find-standing e m.id m.handle true in
      elim (Option-cases f.0) [
        | inl missing ↦ rw (missing, on_cancel) same
        | inr (p, got) ↦
            let live =
              ap (λ (a : Arena). is_live (a.slots p)) kept.1
              ∙ subst (IsLiveIfFound c e) got finds in
            let e' = remove_order c p f.1 in
            let told =
              ap {B = Side → List Order} (λ (b : Book). λ (s : Side). standing c b s)
                (publish_top_if_changed-book e') in
            let found : order_at f.1 p ≡ order_at e p = ap (λ (a : Arena). load a p) kept.1 in
            rw (got, on_cancel)
              (subst
                (λ (now : Side → List Order).
                  TakesOut (order_at e p) (λ s. standing c e.book s) now)
                (sym told)
                (subst
                  (λ (old : Side → List Order).
                    TakesOut (order_at e p) old (λ s. standing c e'.book s))
                  (fun_ext same)
                  (subst
                    (λ (o : Order).
                      TakesOut o (λ s. standing c f.1.book s) (λ s. standing c e'.book s))
                    found (remove_order-Without p f.1 live kept.0))))
      ]
