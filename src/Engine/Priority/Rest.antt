-- ===== src/Engine/Priority/Rest.antt =====
-- include/lob/engine.hpp: `rest_`, on the orders of the two sides.
use orderbooks.Prelude.{
  ℕ, ◌<◌, ◌≡◌, ◌≢◌, if◌then◌else◌, Bool, List, [], ◌∷◌, ◌++◌, All, All_mono, Option, none, some,
  refl, sym, ap, ◌∙◌, List-cases, true, false, inl, inr, update, update_self, update_ne,
}
use orderbooks.Prelude.{append-nil, not, ◌||◌, Bool-cases}
use orderbooks.Engine.{write_order, with_side_of, mark_top, affects_top}
use orderbooks.Engine.Account.{place-published}
use mathlib.Core.Path.{fun_ext}
use orderbooks.Prelude.Word.{add_u64}
use orderbooks.Types.{
  Ptr, Side, bid, ask, opposite, Order, OrderHandle, empty_handle, Template, is_by_handle,
}
use orderbooks.Messages.{SubmitMsg, Event, reject, arena_full}
use orderbooks.IdIndex
use orderbooks.Level.{Level, push_back}
use orderbooks.Arena.{Slot, Arena, order_in, holds, allocate, is_live}
use orderbooks.Arena.FreeList.{SameOrders, allocate_lem}
use orderbooks.BookSide.{BookSide, Book, side_of, add}
use orderbooks.BookSide.Levels.{Rests, AllRest, LevelInv}
use orderbooks.Engine.{Engine, with_book, handle_of}
use orderbooks.Engine.Match.{place, rest, resting_order}
use orderbooks.Engine.Resting.{place_book, add_levels, with_arena_side, allocated-book, BookOpen}
use orderbooks.Engine.Invariant.{BookInv}
use orderbooks.Engine.Priority.Ladder.{ladder, orders_on}
use orderbooks.Engine.Priority.Effects.{orders_in, orders_at, orders_in-same}
use orderbooks.Engine.Priority.Resting.{resting}
use orderbooks.Engine.Priority.Insert.{insert_order, orders_on-insert}

abbrev pub is_slot : Option Ptr → Bool
is_slot none = false
is_slot (some p) = true

-- The orders that the arena's slots hold on a side.
abbrev pub standing : Template → Book → Side → List Order
standing c b s =
    orders_on (λ q. orders_in b.arena.slots ((side_of s b).levels q).fifo) (ladder s c.ticks)

priced_in :
    (s : Side) (q : ℕ) (slots : ℕ → Slot) (ps : List Ptr)
    → AllRest s q slots ps
    → All (λ (p : Order). p.px ≡ q) (orders_in slots ps)
priced_in s q slots [] all = tt
priced_in s q slots (p ∷ ps) (r, all) = (r.price, priced_in s q slots ps all)

orders_in-push :
    (slots : ℕ → Slot) (ps : List Ptr) (p : Ptr)
    → orders_in slots (ps ++ (p ∷ [])) ≡ orders_in slots ps ++ (order_in (slots p) ∷ [])
orders_in-push slots [] p = refl
orders_in-push slots (q ∷ ps) p =
    ap (λ (os : List Order). order_in (slots q) ∷ os) (orders_in-push slots ps p)

-- A write to a slot that no order of the level stands in.
orders_in-store :
    (s : Side) (q : ℕ) (slots : ℕ → Slot) (p : Ptr) (x : Slot) (ps : List Ptr)
    → is_live (slots p) ≡ false
    → AllRest s q slots ps
    → orders_in (update slots p x) ps ≡ orders_in slots ps
orders_in-store s q slots p x ps dead all = orders_in-same (update slots p x) slots ps (
    All_mono (λ r. Rests s q (slots r)) (λ r. update slots p x r ≡ slots r) ps
      (λ r h.
        update_ne slots p r x
          (λ e. let live : is_live (slots p) ≡ true = ap (λ v. is_live (slots v)) e ∙ h.live in cc))
      all)

module _ (c : Template) where
  -- `allocate` hands out a slot, and no order moves.
  allocated-orders :
      (s : Side) (q : ℕ) (a a' : Arena) (lvl : Level)
      → SameOrders a a'
      → LevelInv s q a.slots lvl
      → orders_in a'.slots lvl.fifo ≡ orders_in a.slots lvl.fifo
  allocated-orders s q a a' lvl (inl same) v = ap (λ (f : ℕ → Slot). orders_in f lvl.fifo) same
  allocated-orders s q a a' lvl (inr (empty, dead)) v = elim (List-cases lvl.fifo) [
    | inl none_there ↦ rw none_there refl
    | inr (p, ps, front) ↦
        let all : AllRest s q a.slots (p ∷ ps) = rw front at v.owned in
        let live : is_live (a.slots p) ≡ true = all.0.live in absurd (cc (live, empty p))
  ]

  allocated-standing :
      (b : Book) (s : Side)
      → 0 < c.max_orders
      → BookInv c b
      → standing c (record b { arena = (allocate c.max_orders (is_by_handle c) b.arena).1 }) s
        ≡ standing c b s
  allocated-standing b s some_room v =
      let r = allocate c.max_orders (is_by_handle c) b.arena in
      let made = allocate_lem c.max_orders (is_by_handle c) b.arena some_room v.arena.free_list in
      ap (λ (f : ℕ → List Order). orders_on f (ladder s c.ticks))
        (fun_ext λ q.
          ap (λ (k : BookSide). orders_in r.1.slots (k.levels q).fifo) (with_arena_side c s r.1 b)
          ∙ allocated-orders s q b.arena r.1 ((side_of s b).levels q) made.1 ((v.sides s).sound q))

  -- The order stands behind those at its price, and the other side is as it was.
  place-standing :
      (p : Ptr) (o : Order) (s : Side) (e : Engine)
      → o.px < c.ticks
      → BookOpen c e.book p
      → (standing c (place c p o s e).book s ≡ insert_order s o (standing c e.book s))
        × (standing c (place c p o s e).book (opposite s) ≡ standing c e.book (opposite s))
  unfolding push_back
  place-standing p o s e lt v =
      let b' = (place c p o s e).book in
      let b = place_book c p o s e in
      let slots = e.book.arena.slots in
      let at_slots : b'.arena.slots ≡ update slots p (holds o) = ap (λ (a : Arena). a.slots) b.0 in
      let old = λ (q : ℕ). (side_of s e.book).levels q in
      let levels : (side_of s b').levels
          ≡ update (side_of s e.book).levels o.px (push_back (old o.px) p o) =
        ap (λ (k : BookSide). k.levels) b.1 ∙ add_levels c s (side_of s e.book) p o in
      let f = λ (q : ℕ). orders_in slots (old q).fifo in
      let g = λ (q : ℕ). orders_in b'.arena.slots ((side_of s b').levels q).fifo in
      let after = update slots p (holds o) in
      let stored = λ (t : Side) (q : ℕ).
        orders_in-store t q slots p (holds o) ((side_of t e.book).levels q).fifo v.taken.dead
          ((v.sides t).sound q).owned in
      let read : (q : ℕ)
          → g q
            ≡ orders_in after
                (update (side_of s e.book).levels o.px (push_back (old o.px) p o) q).fifo =
        λ q.
          ap (λ (h : ℕ → Slot). orders_in h ((side_of s b').levels q).fifo) at_slots
          ∙ ap (λ (ls : ℕ → Level). orders_in after (ls q).fifo) levels in
      let here : g o.px ≡ f o.px ++ (o ∷ []) =
        read o.px
        ∙ ap (λ (l : Level). orders_in after l.fifo)
            (update_self (side_of s e.book).levels o.px (push_back (old o.px) p o))
        ∙ orders_in-push after (old o.px).fifo p
        ∙ (rw (update_self slots p (holds o), stored s o.px) refl) in
      let other : (q : ℕ) → q ≢ o.px → g q ≡ f q = λ q ne.
        read q
        ∙ ap (λ (l : Level). orders_in after l.fifo)
            (update_ne (side_of s e.book).levels o.px q (push_back (old o.px) p o)
              (λ h. ne (sym h)))
        ∙ stored s q in
      let far = opposite s in
      (
        orders_on-insert f g s c.ticks o lt
            (λ q. priced_in s q slots (old q).fifo ((v.sides s).sound q).owned) here other,
        ap (λ (h : ℕ → List Order). orders_on h (ladder far c.ticks))
            (fun_ext λ q.
              ap (λ (h : ℕ → Slot). orders_in h ((side_of far b').levels q).fifo) at_slots
              ∙ ap (λ (k : BookSide). orders_in after (k.levels q).fifo) b.2
              ∙ stored far q),
      )

  -- Whether the arena has a slot for one more order.
  abbrev pub has_slot : Engine → Bool
  has_slot e = is_slot (allocate c.max_orders (is_by_handle c) e.book.arena).0

  abbrev pub refusal : SubmitMsg → ℕ → ℕ → Event
  refusal m remaining seq = reject (record {
    id = m.id;
    account = m.account_id;
    px = m.px;
    qty = remaining;
    reason = arena_full;
    seq = seq;
  })

  place-seq :
      (p : Ptr) (o : Order) (s : Side) (e : Engine) → (place c p o s e).state.seq ≡ e.state.seq
  unfolding place mark_top
  place-seq p o s e =
      let e' = write_order p o e in
      let e'' = with_side_of s (add c.ticks s (side_of s e'.book) p o) e' in
      elim (Bool-cases (not e''.cfg.top_throttle || affects_top e'' s o.px)) [
        | inl marked ↦ rw (marked, mark_top) refl
        | inr not_marked ↦ rw (not_marked, mark_top) refl
      ]

  -- What `rest_` leaves: with a slot, the order behind the others at its price, and else a reject.
  pub record IsRested (m : SubmitMsg) (s : Side) (e : Engine) (remaining : ℕ) (room : Bool)
      (e' : Engine) : Type 0 where
    pub published :
        e'.published
        ≡ e.published ++ (if room then [] else refusal m remaining (add_u64 e.state.seq 1) ∷ [])
    pub here : resting c e' s ≡ (
        if room
        then insert_order s (resting_order c m s remaining) (resting c e s)
        else resting c e s)
    pub there : resting c e' (opposite s) ≡ resting c e (opposite s)
    pub seq : e'.state.seq ≡ (if room then e.state.seq else add_u64 e.state.seq 1)

  -- The id index holds no order.
  indexed-IsRested :
      (m : SubmitMsg) (s : Side) (e : Engine) (remaining : ℕ) (room handled : Bool)
      (h : OrderHandle) (e' : Engine) (x : IdIndex.IdIndex)
      → IsRested m s e remaining room e'
      → IsRested m s e remaining room
          (if◌then◌else◌ {A = OrderHandle × Engine} handled
            (h, e')
            (empty_handle, with_book (record e'.book { index = x }) e')).1
  unfolding resting orders_at
  indexed-IsRested m s e remaining room true h e' x v = v
  indexed-IsRested m bid e remaining room false h e' x v = record {
    published = v.published;
    here = v.here;
    there = v.there;
    seq = v.seq;
  }
  indexed-IsRested m ask e remaining room false h e' x v = record {
    published = v.published;
    here = v.here;
    there = v.there;
    seq = v.seq;
  }

  pub rest-IsRested :
      (m : SubmitMsg) (s : Side) (e : Engine) (remaining : ℕ)
      → 0 < c.max_orders
      → m.px < c.ticks
      → BookInv c e.book
      → IsRested m s e remaining (has_slot e) (rest c m s e remaining).1
  unfolding rest resting orders_at
  rest-IsRested m s e remaining some_room lt v =
      let r = allocate c.max_orders (is_by_handle c) e.book.arena in
      let e' = with_book (record e.book { arena = r.1 }) e in
      let o = resting_order c m s remaining in
      let same = λ (t : Side). allocated-standing e.book t some_room v in
      elim (allocated-book c e.book some_room v) [
        | inl (full, v') ↦
            rw (full, rest)
              (record { published = refl; here = same s; there = same (opposite s); seq = refl })
        | inr (p, got, v') ↦
            let placed = place-standing p o s e' lt v' in
            rw (got, rest)
              (indexed-IsRested m s e remaining true (is_by_handle c)
                (handle_of c (place c p o s e') p) (place c p o s e')
                (IdIndex.insert (place c p o s e').book.index m.id p)
                (record {
                  published = place-published c p o s e' ∙ sym (append-nil e.published);
                  here = placed.0 ∙ ap (insert_order s o) (same s);
                  there = placed.1 ∙ same (opposite s);
                  seq = place-seq p o s e';
                }))
      ]
