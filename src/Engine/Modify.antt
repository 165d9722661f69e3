-- ===== src/Engine/Modify.antt =====
-- include/lob/engine.hpp: the invariant of the book through `on_modify`.
use orderbooks.Engine.Consume.{store-ArenaSound}
use orderbooks.Engine.Resting.{push_back-In, In-before, add_levels, with_arena_side}
use orderbooks.BookSide.Settle.{SideInv-frame}
use orderbooks.BookSide.Change.{relink-SideInv, change-SideInv}
use orderbooks.Engine.Cancel.{In-erase, remove_levels, live-Rests}
use orderbooks.Engine.Frame.{mark_top-book}
use orderbooks.Engine.Linked.{Linked-write, fifo_of, Linked}
use orderbooks.Engine.Invariant.{Rests-one_side, BookInv-of_sides, BookInv}
use orderbooks.Prelude.Word.{sub_u64, add_u64}
use orderbooks.Engine.Match.{with_level, level_at}
use orderbooks.Arena.{raw, Arena, holds, store, load, is_live}
use orderbooks.Bitmap.{l3_words}
use orderbooks.Engine.{mark_top, with_side_of, write_order, order_at, Engine}
use orderbooks.BookSide.{BookSide, with_side, remove, set_level, add, side_of, Book}
use orderbooks.Level.{push_back, unlink}
use orderbooks.Engine.Handlers.{change_qty, relink}
use orderbooks.Messages.{ModifyMsg}
use orderbooks.Types.{ask, bid, opposite, Order, Side, Ptr, Template}
use orderbooks.BookSide.Levels.{Rests}
use orderbooks.Engine.Matching.{with_side_of_book}
use orderbooks.Prelude.{
  [], ◌∷◌, update-update, sym, refl, ◌∙◌, update, ◌^◌, ◌<◌, true, ◌≡◌, ◌≤◌, ap,
}

module _ (c : Template) where
  -- What `change_qty` does to the book, for an order of either side.
  pub change_qty_book :
      (m : ModifyMsg) (p : Ptr) (s : Side) (e : Engine)
      → (order_at e p).s ≡ s
      → let o = order_at e p in
        let lvl = level_at e s o.px in
        let b = (change_qty c m p e).book in
        (b.arena ≡ store e.book.arena p (record o { remaining = m.new_qty }))
        × (side_of s b
            ≡ set_level
                (side_of s e.book)
                o.px
                (record lvl { aggregate = add_u64 (sub_u64 lvl.aggregate o.remaining) m.new_qty }))
        × (side_of (opposite s) b ≡ side_of (opposite s) e.book)
  unfolding change_qty
  change_qty_book m p bid e of_side =
      let o = order_at e p in
      let lvl = level_at e bid o.px in
      let e' =
        with_level bid o.px
          (record lvl { aggregate = add_u64 (sub_u64 lvl.aggregate o.remaining) m.new_qty }) e in
      let b =
        mark_top-book bid o.px (write_order p (record o { s = bid; remaining = m.new_qty }) e') in
      rw of_side
        (ap (λ (b : Book). b.arena) b, ap (λ (b : Book). b.bids) b, ap (λ (b : Book). b.asks) b)
  change_qty_book m p ask e of_side =
      let o = order_at e p in
      let lvl = level_at e ask o.px in
      let e' =
        with_level ask o.px
          (record lvl { aggregate = add_u64 (sub_u64 lvl.aggregate o.remaining) m.new_qty }) e in
      let b =
        mark_top-book ask o.px (write_order p (record o { s = ask; remaining = m.new_qty }) e') in
      rw of_side
        (ap (λ (b : Book). b.arena) b, ap (λ (b : Book). b.asks) b, ap (λ (b : Book). b.bids) b)

  -- A new quantity that may rest, at the same price.
  pub change_qty-BookInv :
      (m : ModifyMsg) (p : Ptr) (e : Engine)
      → is_live (e.book.arena.slots p) ≡ true
      → 0 < m.new_qty
      → m.new_qty < 2 ^ 64
      → BookInv c e.book
      → BookInv c (change_qty c m p e).book
  change_qty-BookInv m p e live pos small v =
      let o = order_at e p in
      let o' : Order = record o { remaining = m.new_qty } in
      let b' = (change_qty c m p e).book in
      let b = change_qty_book m p o.s e refl in
      let slots = e.book.arena.slots in
      let at_slots : b'.arena.slots ≡ update slots p (holds o') = ap (λ (a : Arena). a.slots) b.0 in
      let old = live-Rests c e.book p v live in
      let new : Rests o.s o.px (holds o') = record {
        live = refl;
        side = refl;
        price = refl;
        positive = pos;
        bounded = small;
      } in
      BookInv-of_sides c o.s b'
        (rw (b.1, at_slots) (change-SideInv c.ticks o.s p o' o.px old.0 old.1 new (v.sides o.s)))
        (rw (b.2, at_slots)
          (SideInv-frame c.ticks (opposite o.s) slots p (holds o')
            (λ q. Rests-one_side o.s o.px q _ old.1) (v.sides (opposite o.s))))
        (rw b.0 (store-ArenaSound c e.book.arena p o' live v.arena))
        (Linked-write o.s o.px e.book b' p (holds o') _ at_slots
          (ap (λ (k : BookSide). k.levels) b.1) (ap (λ (k : BookSide). k.levels) b.2) (λ q ne i. i)
          (λ _. (refl, refl, old.0)) v.linked)

  -- What `relink` does to the book, for an order of either side.
  pub relink_book :
      (m : ModifyMsg) (p : Ptr) (s : Side) (e : Engine)
      → (order_at e p).s ≡ s
      → let o = order_at e p in
        let o' = record o { px = m.new_px; remaining = m.new_qty } in
        let b = (relink c m p e).book in
        (b.arena ≡ store e.book.arena p o')
        × (side_of s b ≡ add c.ticks s (remove c.ticks s (side_of s e.book) p o) p o')
        × (side_of (opposite s) b ≡ side_of (opposite s) e.book)
  unfolding relink
  relink_book m p bid e of_side =
      let o = order_at e p in
      let o' : Order = record o { s = bid; px = m.new_px; remaining = m.new_qty } in
      let e' = write_order p o' (with_side_of bid (remove c.ticks bid e.book.bids p o) e) in
      let e'' = with_side_of bid (add c.ticks bid e'.book.bids p o') e' in
      let b = mark_top-book bid m.new_px (mark_top bid o.px e'') ∙ mark_top-book bid o.px e'' in
      rw of_side
        (ap (λ (b : Book). b.arena) b, ap (λ (b : Book). b.bids) b, ap (λ (b : Book). b.asks) b)
  relink_book m p ask e of_side =
      let o = order_at e p in
      let o' : Order = record o { s = ask; px = m.new_px; remaining = m.new_qty } in
      let e' = write_order p o' (with_side_of ask (remove c.ticks ask e.book.asks p o) e) in
      let e'' = with_side_of ask (add c.ticks ask e'.book.asks p o') e' in
      let b = mark_top-book ask m.new_px (mark_top ask o.px e'') ∙ mark_top-book ask o.px e'' in
      rw of_side
        (ap (λ (b : Book). b.arena) b, ap (λ (b : Book). b.asks) b, ap (λ (b : Book). b.bids) b)

  -- The links, through the book where the order has left its level.
  relink-Linked :
      (b b' : Book) (p : Ptr) (o' : Order)
      → let o = load b.arena p in
        o'.s ≡ o.s
        → b'.arena ≡ store b.arena p o'
        → side_of o.s b' ≡ add c.ticks o.s (remove c.ticks o.s (side_of o.s b) p o) p o'
        → side_of (opposite o.s) b' ≡ side_of (opposite o.s) b
        → Linked b
        → Linked b'
  unfolding unlink push_back
  relink-Linked b b' p o' same arena side other v =
      let o = load b.arena p in
      let removed = remove c.ticks o.s (side_of o.s b) p o in
      let a = record b.arena { slots = update b.arena.slots p raw } in
      let mid : Book = with_side o.s removed (record b { arena = a }) in
      let w = with_side_of_book c o.s removed (record b { arena = a }) in
      let fifo = fifo_of b o.s o.px in
      let mid_slots : mid.arena.slots ≡ update b.arena.slots p raw =
        ap (λ (a : Arena). a.slots) w.2 in
      let mid_linked : Linked mid =
        Linked-write o.s o.px b mid p raw (unlink ((side_of o.s b).levels o.px) p o) mid_slots
          (ap (λ (k : BookSide). k.levels) w.0 ∙ remove_levels c o.s (side_of o.s b) p o)
          (ap (λ (k : BookSide). k.levels) (w.1 ∙ with_arena_side c (opposite o.s) a b))
          (λ q ne i. In-erase p q fifo ne i) (λ alive. cc) v in
      let lvl = push_back ((side_of o.s mid).levels o'.px) p o' in
      Linked-write o.s o'.px mid b' p (holds o') lvl
        (ap (λ (a : Arena). a.slots) arena
          ∙ sym (
              ap (λ f. update f p (holds o')) mid_slots
              ∙ update-update b.arena.slots p raw (holds o')))
        (ap (λ (k : BookSide). k.levels) (side ∙ ap (λ k. add c.ticks o.s k p o') (sym w.0))
          ∙ add_levels c o.s (side_of o.s mid) p o')
        (ap (λ (k : BookSide). k.levels) (other ∙ sym (w.1 ∙ with_arena_side c (opposite o.s) a b)))
        (λ q ne i. In-before c q (fifo_of mid o.s o'.px) (p ∷ []) i)
        (λ _. (same, refl, push_back-In c p (fifo_of mid o.s o'.px))) mid_linked

  -- A new price on the ladder, with a quantity that may rest there.
  pub relink-BookInv :
      (m : ModifyMsg) (p : Ptr) (e : Engine)
      → l3_words c.ticks ≤ 1
      → is_live (e.book.arena.slots p) ≡ true
      → m.new_px < c.ticks
      → 0 < m.new_qty
      → m.new_qty < 2 ^ 64
      → BookInv c e.book
      → BookInv c (relink c m p e).book
  relink-BookInv m p e fits live lt pos small v =
      let o = order_at e p in
      let o' : Order = record o { px = m.new_px; remaining = m.new_qty } in
      let b' = (relink c m p e).book in
      let b = relink_book m p o.s e refl in
      let slots = e.book.arena.slots in
      let at_slots : b'.arena.slots ≡ update slots p (holds o') = ap (λ (a : Arena). a.slots) b.0 in
      let old = live-Rests c e.book p v live in
      let new : Rests o.s m.new_px (holds o') = record {
        live = refl;
        side = refl;
        price = refl;
        positive = pos;
        bounded = small;
      } in
      BookInv-of_sides c o.s b'
        (rw (b.1, at_slots)
          (relink-SideInv c.ticks o.s p o' o.px fits lt old.0 old.1 new (v.sides o.s)))
        (rw (b.2, at_slots)
          (SideInv-frame c.ticks (opposite o.s) slots p (holds o')
            (λ q. Rests-one_side o.s o.px q _ old.1) (v.sides (opposite o.s))))
        (rw b.0 (store-ArenaSound c e.book.arena p o' live v.arena))
        (relink-Linked e.book b' p o' refl b.0 b.1 b.2 v.linked)
