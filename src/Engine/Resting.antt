-- ===== src/Engine/Resting.antt =====
-- include/lob/engine.hpp: the invariant of the book through `rest_`.
use orderbooks.Messages.{SubmitMsg}
use orderbooks.IdIndex
use orderbooks.BookSide.Settle.{SideInv-frame}
use orderbooks.Engine.Invariant.{with_index-BookInv, BookInv-of_sides, BookInv}
use orderbooks.Engine.Frame.{mark_top-book}
use orderbooks.BookSide.Levels.{AllRest, Rests, LevelInv}
use orderbooks.BookSide.Unlink.{In}
use orderbooks.Engine.{handle_of, with_book, write_order, with_side_of, Engine}
use orderbooks.Engine.Linked.{fifo_of, Linked-write, IsLinked, Linked}
use orderbooks.BookSide.Invariant.{add-SideInv, SideInv}
use orderbooks.Arena.FreeList.{Allocated, allocate_lem, Took, SameOrders}
use orderbooks.Engine.Match.{resting_order, rest, place}
use orderbooks.Arena.{order_in, allocate, holds, store, is_live, Slot, Arena}
use orderbooks.Level.{Level, push_back}
use orderbooks.BookSide.{side_of, BookSide, Book, add}
use orderbooks.Types.{
  empty_handle, OrderHandle, is_by_handle, ask, opposite, bid, Order, Side, Ptr, Template,
}
use orderbooks.Prelude.{
  if◌then◌else◌, Bool, Option-cases, some, ◌⊎◌, ◌^◌, none, arith, subst, List-cases, [], ◌∙◌, ◌∷◌,
  sym, inr, refl, true, ◌<◌, inl, false, update, ◌++◌, ◌≡◌, ℕ, List, ap,
}

module _ (c : Template) where
  -- `allocate` leaves the levels sound: it wrote over no order.
  allocated_sound :
      (s : Side) (px : ℕ) (a a' : Arena) (lvl : Level)
      → SameOrders a a'
      → LevelInv s px a.slots lvl
      → LevelInv s px a'.slots lvl
  allocated_sound s px a a' lvl (inl same) v = rw same v
  allocated_sound s px a a' lvl (inr (empty, dead)) v = elim (List-cases lvl.fifo) [
    | inl none_there ↦ record {
      owned = rw none_there tt;
      summed = rw none_there (rw none_there at v.summed);
      distinct = v.distinct;
    }
    | inr (p, ps, front) ↦
        let all : AllRest s px a.slots (p ∷ ps) = rw front at v.owned in
        let live : is_live (a.slots p) ≡ true = all.0.live in absurd (cc (live, empty p))
  ]

  allocated-SideInv :
      (s : Side) (a a' : Arena) {b : BookSide}
      → SameOrders a a'
      → SideInv c.ticks s a.slots b
      → SideInv c.ticks s a'.slots b
  allocated-SideInv s a a' {b} same v = record {
    sound = λ px. allocated_sound s px a a' (b.levels px) same (v.sound px);
    bitmap = v.bitmap;
    populated = v.populated;
    best_is = v.best_is;
  }

  pub with_arena_side :
      (s : Side) (a : Arena) (b : Book) → side_of s (record b { arena = a }) ≡ side_of s b
  with_arena_side bid a b = refl
  with_arena_side ask a b = refl

  allocated-Linked :
      (b : Book) (a' : Arena) → SameOrders b.arena a' → Linked b → Linked (record b { arena = a' })
  allocated-Linked b a' (inl same) v p live =
      let at_p : a'.slots p ≡ b.arena.slots p = ap (λ (f : ℕ → Slot). f p) same in
      let old = v p (ap is_live (sym at_p) ∙ live) in
      let slot = a'.slots p in
      subst (λ (k : BookSide). In p (k.levels (order_in slot).px).fifo)
        (sym (with_arena_side (order_in slot).s a' b))
        (subst (λ (x : Slot). IsLinked b p x) (sym at_p) old)
  allocated-Linked b a' (inr (empty, dead)) v p live = absurd (cc (live, dead p))

  allocated-within :
      (a a' : Arena)
      → SameOrders a a'
      → ((p : Ptr) → is_live (a.slots p) ≡ true → p < c.max_orders)
      → (p : Ptr) → is_live (a'.slots p) ≡ true
      → p < c.max_orders
  allocated-within a a' (inl same) w p live =
      w p (ap (λ (f : ℕ → Slot). is_live (f p)) (sym same) ∙ live)
  allocated-within a a' (inr (empty, dead)) w p live = absurd (cc (live, dead p))

  -- A book whose arena has handed out slot `p`, which holds no order yet.
  pub record BookOpen (b : Book) (p : Ptr) : Type 0 where
    pub sides : (s : Side) → SideInv c.ticks s b.arena.slots (side_of s b)
    pub taken : Took c.max_orders b.arena p
    pub within : (q : Ptr) → is_live (b.arena.slots q) ≡ true → q < c.max_orders
    pub linked : Linked b

  -- What `place` does to the book, on either side.
  pub place_book :
      (p : Ptr) (o : Order) (s : Side) (e : Engine)
      → let b = (place c p o s e).book in
        (b.arena ≡ store e.book.arena p o)
        × (side_of s b ≡ add c.ticks s (side_of s e.book) p o)
        × (side_of (opposite s) b ≡ side_of (opposite s) e.book)
  unfolding place
  place_book p o bid e =
      let b =
        mark_top-book bid o.px
          (with_side_of bid (add c.ticks bid e.book.bids p o) (write_order p o e)) in
      (ap (λ (b : Book). b.arena) b, ap (λ (b : Book). b.bids) b, ap (λ (b : Book). b.asks) b)
  place_book p o ask e =
      let b =
        mark_top-book ask o.px
          (with_side_of ask (add c.ticks ask e.book.asks p o) (write_order p o e)) in
      (ap (λ (b : Book). b.arena) b, ap (λ (b : Book). b.asks) b, ap (λ (b : Book). b.bids) b)

  pub add_levels :
      (s : Side) (b : BookSide) (p : Ptr) (o : Order)
      → (add c.ticks s b p o).levels ≡ update b.levels o.px (push_back (b.levels o.px) p o)
  unfolding add
  add_levels s b p o = refl

  pub push_back-In : (p : Ptr) (ps : List Ptr) → In p (ps ++ (p ∷ []))
  push_back-In p [] = inl refl
  push_back-In p (q ∷ ps) = inr (push_back-In p ps)

  pub In-before : (q : Ptr) (ps qs : List Ptr) → In q ps → In q (ps ++ qs)
  In-before q [] qs i = absurd i
  In-before q (r ∷ ps) qs (inl e) = inl e
  In-before q (r ∷ ps) qs (inr i) = inr (In-before q ps qs i)

  dead-free : (s : Side) (q : ℕ) (x : Slot) → is_live x ≡ false → ¬ Rests s q x
  dead-free s q x dead r = cc (dead, r.live)

  -- An order that can rest where it says goes into a slot that was taken for it.
  pub place-BookInv :
      (p : Ptr) (o : Order) (s : Side) (e : Engine)
      → o.px < c.ticks
      → Rests s o.px (holds o)
      → BookOpen e.book p
      → BookInv c (place c p o s e).book
  unfolding push_back
  place-BookInv p o s e lt r v =
      let b' = (place c p o s e).book in
      let b = place_book p o s e in
      let slots = e.book.arena.slots in
      let at_slots : b'.arena.slots ≡ update slots p (holds o) = ap (λ (a : Arena). a.slots) b.0 in
      let free = λ (t : Side) (q : ℕ). dead-free t q (slots p) v.taken.dead in
      BookInv-of_sides c s b'
        (rw (b.1, at_slots) (add-SideInv c.ticks s p o lt (free s) r (v.sides s)))
        (rw (b.2, at_slots)
          (SideInv-frame c.ticks (opposite s) slots p (holds o) (free (opposite s))
            (v.sides (opposite s))))
        (rw b.0 (record {
          free_list = v.taken.ready o;
          within = λ q h. ground (arith, v.within q, v.taken.below);
        }))
        (Linked-write s o.px e.book b' p (holds o) (push_back ((side_of s e.book).levels o.px) p o)
          at_slots (ap (λ (k : BookSide). k.levels) b.1 ∙ add_levels s (side_of s e.book) p o)
          (ap (λ (k : BookSide). k.levels) b.2)
          (λ q ne i. In-before q (fifo_of e.book s o.px) (p ∷ []) i)
          (λ live. (r.side, refl, push_back-In p (fifo_of e.book s o.px))) v.linked)

  pub allocated-book :
      (b : Book)
      → 0 < c.max_orders
      → BookInv c b
      → let r = allocate c.max_orders (is_by_handle c) b.arena in
        let b' = record b { arena = r.1 } in
        ((r.0 ≡ none) × BookInv c b') ⊎ ((p : Ptr) × (r.0 ≡ some p) × BookOpen b' p)
  allocated-book b some_room v =
      let r = allocate c.max_orders (is_by_handle c) b.arena in
      let b' : Book = record b { arena = r.1 } in
      let made = allocate_lem c.max_orders (is_by_handle c) b.arena some_room v.arena.free_list in
      let sides = λ (s : Side).
        subst (λ (k : BookSide). SideInv c.ticks s r.1.slots k) (sym (with_arena_side s r.1 b))
          (allocated-SideInv s b.arena r.1 made.1 (v.sides s)) in
      let within = allocated-within b.arena r.1 made.1 v.arena.within in
      let linked = allocated-Linked b r.1 made.1 v.linked in
      elim (Option-cases r.0) [
        | inl e ↦ inl (
          e,
          record {
            sides = sides;
            arena = record {
              free_list = (subst (λ x. Allocated c.max_orders x r.1) e made.0).0;
              within = within;
            };
            linked = linked;
          },
        )
        | inr (p, e) ↦ inr (
          p,
          e,
          record {
            sides = sides;
            taken = subst (λ x. Allocated c.max_orders x r.1) e made.0;
            within = within;
            linked = linked;
          },
        )
      ]

  indexed-BookInv :
      (handled : Bool) (h : OrderHandle) (e : Engine) (id : ℕ) (p : Ptr)
      → BookInv c e.book
      → BookInv c
          (if◌then◌else◌ {A = OrderHandle × Engine} handled
            (h, e)
            (
              empty_handle,
              with_book (record e.book { index = IdIndex.insert e.book.index id p }) e,
            )).1.book
  indexed-BookInv true h e id p v = v
  indexed-BookInv false h e id p v = with_index-BookInv c (IdIndex.insert e.book.index id p) v

  -- A valid quantity that rests at a price of the ladder, or finds no slot.
  pub rest-BookInv :
      (m : SubmitMsg) (s : Side) (e : Engine) (remaining : ℕ)
      → 0 < c.max_orders
      → m.px < c.ticks
      → 0 < remaining
      → remaining < 2 ^ 64
      → BookInv c e.book
      → BookInv c (rest c m s e remaining).1.book
  unfolding rest
  rest-BookInv m s e remaining some_room lt pos small v =
      let r = allocate c.max_orders (is_by_handle c) e.book.arena in
      let e' = with_book (record e.book { arena = r.1 }) e in
      elim (allocated-book e.book some_room v) [
        | inl (full, v') ↦ rw (full, rest) v'
        | inr (p, got, v') ↦
            let o = resting_order c m s remaining in
            let rests : Rests s m.px (holds o) = record {
              live = refl;
              side = refl;
              price = refl;
              positive = pos;
              bounded = small;
            } in
            let placed = place-BookInv p o s e' lt rests v' in
            rw (got, rest)
              (indexed-BookInv (is_by_handle c) (handle_of c (place c p o s e') p)
                (place c p o s e') m.id p placed)
      ]
