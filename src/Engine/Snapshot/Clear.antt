-- ===== src/Engine/Snapshot/Clear.antt =====
-- include/lob/engine.hpp: the invariant of the book through `clear_state_`.
use orderbooks.Arena.{deallocate}
use orderbooks.Engine.Cancel.{remove_levels, remove_order_book, remove_order-BookInv}
use orderbooks.Engine.Frame.{mark_top-book}
use orderbooks.Level.{unlink}
use orderbooks.IdIndex.{IdIndex}
use orderbooks.Engine.Match.{level_at}
use orderbooks.Engine.Invariant.{with_index-BookInv, BookInv}
use orderbooks.BookSide.{BookSide, Book, remove, side_of}
use orderbooks.BookSide.Levels.{AllRest, Rests}
use orderbooks.Bitmap.{l3_words}
use orderbooks.Engine.Handlers.{remove_order}
use orderbooks.Engine.Snapshot.{drain_level, drain_side, clear_state, drop_resting}
use orderbooks.Prelude.{
  zero, length, inr, inl, Option-cases, List-cases, suc, ◌+◌, refl, ap, sym, subst, update, ◌≤◌,
  ◌≡◌, List, ℕ, ◌∷◌, ◌∙◌,
}
use orderbooks.Types.{opposite, Ptr, Side, Template, bid, ask, is_by_handle}
use orderbooks.Engine.{unindex_id, with_book, with_side_of, order_at, Engine}

with_index_side :
    (s : Side) (x : IdIndex) (b : Book) → side_of s (record b { index = x }) ≡ side_of s b
with_index_side bid x b = refl
with_index_side ask x b = refl

module _ (c : Template) where
  -- Dropping an order leaves the book that removing it leaves, but for the index.
  pub drop_resting_book :
      (s : Side) (p : Ptr) (e : Engine)
      → (order_at e p).s ≡ s
      → (x : IdIndex) × ((drop_resting c s p e).book
          ≡ record (remove_order c p e).book { index = x })
  unfolding drop_resting remove_order
  drop_resting_book bid p e of_side =
      let o = order_at e p in
      let e' = with_side_of bid (remove c.ticks bid e.book.bids p o) e in
      let b =
        mark_top-book bid o.px
          (with_book (record e'.book { arena = deallocate (is_by_handle c) e'.book.arena p }) e') in
      (
        unindex_id c o.id e.book.index,
        rw of_side (ap (λ (b : Book). record b { index = unindex_id c o.id e.book.index }) (sym b)),
      )
  drop_resting_book ask p e of_side =
      let o = order_at e p in
      let e' = with_side_of ask (remove c.ticks ask e.book.asks p o) e in
      let b =
        mark_top-book ask o.px
          (with_book (record e'.book { arena = deallocate (is_by_handle c) e'.book.arena p }) e') in
      (
        unindex_id c o.id e.book.index,
        rw of_side (ap (λ (b : Book). record b { index = unindex_id c o.id e.book.index }) (sym b)),
      )

  -- The first order of a level rests there.
  pub front-Rests :
      (s : Side) (px : ℕ) (e : Engine) (p : Ptr) (ps : List Ptr)
      → BookInv c e.book
      → (level_at e s px).fifo ≡ p ∷ ps
      → Rests s px (e.book.arena.slots p)
  front-Rests s px e p ps v front =
      let all : AllRest s px e.book.arena.slots (p ∷ ps) =
        rw front at ((v.sides s).sound px).owned in
      all.0

  pub drop_resting-BookInv :
      (s : Side) (px : ℕ) (p : Ptr) (e : Engine)
      → l3_words c.ticks ≤ 1
      → Rests s px (e.book.arena.slots p)
      → BookInv c e.book
      → BookInv c (drop_resting c s p e).book
  drop_resting-BookInv s px p e fits r v =
      let (x, same) = drop_resting_book s p e r.side in
      subst (BookInv c) (sym same)
        (with_index-BookInv c x (remove_order-BookInv c p e fits r.live v))

  -- What dropping the first order does to the levels.
  pub drop_resting_sides :
      (s : Side) (px : ℕ) (p : Ptr) (e : Engine)
      → Rests s px (e.book.arena.slots p)
      → let b = (drop_resting c s p e).book in
        ((side_of s b).levels
          ≡ update (side_of s e.book).levels px (unlink (level_at e s px) p (order_at e p)))
        × (side_of (opposite s) b ≡ side_of (opposite s) e.book)
  drop_resting_sides s px p e r =
      let (x, same) = drop_resting_book s p e r.side in
      let b = remove_order_book c p s e r.side in
      let at_px : (order_at e p).px ≡ px = r.price in
      let levels : (side_of s (remove_order c p e).book).levels
          ≡ update (side_of s e.book).levels px (unlink (level_at e s px) p (order_at e p)) =
        rw (b.1, remove_levels c s (side_of s e.book) p (order_at e p), at_px) refl in
      let apart = with_index_side (opposite s) x (remove_order c p e).book in
      (
        ap (λ (b : Book). (side_of s b).levels) same
            ∙ ap (λ (k : BookSide). k.levels) (with_index_side s x (remove_order c p e).book)
            ∙ levels,
        ap (side_of (opposite s)) same ∙ apart ∙ b.2,
      )

  -- Draining a level keeps the book sound.
  pub drain_level-BookInv :
      (f : ℕ) (s : Side) (px : ℕ) (e : Engine)
      → l3_words c.ticks ≤ 1
      → BookInv c e.book
      → BookInv c (drain_level c f s px e).book
  unfolding drain_level
  drain_level-BookInv zero s px e fits v = v
  drain_level-BookInv (suc f) s px e fits v = elim (List-cases (level_at e s px).fifo) [
    | inl done ↦ rw (done, drain_level) v
    | inr (p, ps, front) ↦
        rw (front, drain_level)
          (drain_level-BookInv f s px (drop_resting c s p e) fits
            (drop_resting-BookInv s px p e fits (front-Rests s px e p ps v front) v))
  ]

  pub drain_side-BookInv :
      (f : ℕ) (s : Side) (e : Engine)
      → l3_words c.ticks ≤ 1
      → BookInv c e.book
      → BookInv c (drain_side c f s e).book
  unfolding drain_side
  drain_side-BookInv zero s e fits v = v
  drain_side-BookInv (suc f) s e fits v = elim (Option-cases (side_of s e.book).best) [
    | inl done ↦ rw (done, drain_side) v
    | inr (px, best) ↦
        let n = length (level_at e s px).fifo in
        rw (best, drain_side)
          (drain_side-BookInv f s (drain_level c n s px e) fits
            (drain_level-BookInv n s px e fits v))
  ]

  -- With at most four bitmap tiers, clearing keeps a sound book sound.
  pub clear_state-BookInv :
      (e : Engine) → l3_words c.ticks ≤ 1 → BookInv c e.book → BookInv c (clear_state c e).book
  unfolding clear_state
  clear_state-BookInv e fits v =
      drain_side-BookInv (c.ticks + 1) ask (drain_side c (c.ticks + 1) bid e) fits
        (drain_side-BookInv (c.ticks + 1) bid e fits v)

  drop_resting-cfg : (s : Side) (p : Ptr) (e : Engine) → (drop_resting c s p e).cfg ≡ e.cfg
  unfolding drop_resting
  drop_resting-cfg s p e = refl

  drain_level-cfg : (f : ℕ) (s : Side) (px : ℕ) (e : Engine) → (drain_level c f s px e).cfg ≡ e.cfg
  unfolding drain_level
  drain_level-cfg zero s px e = refl
  drain_level-cfg (suc f) s px e = elim (List-cases (level_at e s px).fifo) [
    | inl done ↦ rw (done, drain_level) refl
    | inr (p, ps, front) ↦
        rw (front, drain_level)
          (drain_level-cfg f s px (drop_resting c s p e) ∙ drop_resting-cfg s p e)
  ]

  drain_side-cfg : (f : ℕ) (s : Side) (e : Engine) → (drain_side c f s e).cfg ≡ e.cfg
  unfolding drain_side
  drain_side-cfg zero s e = refl
  drain_side-cfg (suc f) s e = elim (Option-cases (side_of s e.book).best) [
    | inl done ↦ rw (done, drain_side) refl
    | inr (px, best) ↦
        let n = length (level_at e s px).fifo in
        rw (best, drain_side)
          (drain_side-cfg f s (drain_level c n s px e) ∙ drain_level-cfg n s px e)
  ]

  pub clear_state-cfg : (e : Engine) → (clear_state c e).cfg ≡ e.cfg
  unfolding clear_state
  clear_state-cfg e =
      drain_side-cfg (c.ticks + 1) ask (drain_side c (c.ticks + 1) bid e)
      ∙ drain_side-cfg (c.ticks + 1) bid e
