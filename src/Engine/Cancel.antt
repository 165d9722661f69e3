-- ===== src/Engine/Cancel.antt =====
-- include/lob/engine.hpp: the invariant of the book through `on_cancel`.
use orderbooks.Messages.{CancelMsg}
use orderbooks.Engine.Consume.{deallocate-ArenaSound}
use orderbooks.BookSide.Settle.{SideInv-frame, remove-SideInv}
use orderbooks.BookSide.Levels.{Rests}
use orderbooks.Engine.Linked.{Linked-write, fifo_of}
use orderbooks.Bitmap.{l3_words}
use orderbooks.Engine.{resolve, find, order_at, Engine}
use orderbooks.Engine.Invariant.{with_index-BookInv, Rests-one_side, BookInv-of_sides, BookInv}
use orderbooks.BookSide.Unlink.{In}
use orderbooks.Arena.{Arena, load, link, is_live, deallocate}
use orderbooks.Engine.Handlers.{on_cancel, remove_order}
use orderbooks.BookSide.{side_of, BookSide, notify_level_emptied, remove, Book}
use orderbooks.Types.{OrderHandle, ask, bid, opposite, is_by_handle, Order, Side, Template, Ptr}
use orderbooks.Level.{unlink, erase}
use orderbooks.Level
use orderbooks.IdIndex
use orderbooks.Engine.Frame.{publish_top_if_changed-book, mark_top-book}
use orderbooks.Engine.{with_side_of, with_book, order_at}
use orderbooks.Prelude.{
  none, true, false, if◌then◌else◌, some, Option, Option-cases, arith, ℕ, ◌==◌, refl, ◌∙◌, [],
  Bool-cases, inr, update, subst, sym, true, ◌≤◌, inl, ◌≡◌, ◌∷◌, All, ◌≢◌, Bool, List, ap,
}

module _ (P : Ptr → Type 0) where
  All-In : (p : Ptr) (ps : List Ptr) → In p ps → All P ps → P p
  All-In p [] i h = absurd i
  All-In p (q ∷ ps) (inl e) h = subst P e h.0
  All-In p (q ∷ ps) (inr i) h = All-In p ps i h.1

pub In-erase : (p q : Ptr) (ps : List Ptr) → q ≢ p → In q ps → In q (erase p ps)
unfolding erase
In-erase p q [] ne i = absurd i
In-erase p q (r ∷ ps) ne i = elim (Bool-cases (r == p)) [
  | inl hit ↦ rw hit (behind r (ground arith) i)
  | inr miss ↦ rw miss (kept (In-erase p q ps ne) i)
]
  where
    behind : (r : Ptr) → q ≢ r → In q (r ∷ ps) → In q ps
    behind r other (inl e) = absurd (other (sym e))
    behind r other (inr j) = j

    kept : (In q ps → In q (erase p ps)) → In q (r ∷ ps) → In q (r ∷ erase p ps)
    kept tail (inl e) = inl e
    kept tail (inr j) = inr (tail j)

module _ (c : Template) where
  -- A live order rests where it says.
  pub live-Rests :
      (b : Book) (p : Ptr)
      → BookInv c b
      → is_live (b.arena.slots p) ≡ true
      → let o = load b.arena p in In p (fifo_of b o.s o.px) × Rests o.s o.px (b.arena.slots p)
  live-Rests b p v live =
      let o = load b.arena p in
      let i = v.linked p live in
      (
        i,
        All-In (λ q. Rests o.s o.px (b.arena.slots q)) p (fifo_of b o.s o.px) i
            (((v.sides o.s).sound o.px).owned),
      )

  -- What `remove_order` does to the book, for an order of either side.
  pub remove_order_book :
      (p : Ptr) (s : Side) (e : Engine)
      → (order_at e p).s ≡ s
      → let b = (remove_order c p e).book in
        (b.arena ≡ deallocate (is_by_handle c) e.book.arena p)
        × (side_of s b ≡ remove c.ticks s (side_of s e.book) p (order_at e p))
        × (side_of (opposite s) b ≡ side_of (opposite s) e.book)
  unfolding remove_order
  remove_order_book p bid e of_side =
      let o = order_at e p in
      let e' = with_side_of bid (remove c.ticks bid e.book.bids p o) e in
      let b =
        mark_top-book bid o.px
          (with_book (record e'.book { arena = deallocate (is_by_handle c) e'.book.arena p }) e') in
      rw of_side
        (ap (λ (b : Book). b.arena) b, ap (λ (b : Book). b.bids) b, ap (λ (b : Book). b.asks) b)
  remove_order_book p ask e of_side =
      let o = order_at e p in
      let e' = with_side_of ask (remove c.ticks ask e.book.asks p o) e in
      let b =
        mark_top-book ask o.px
          (with_book (record e'.book { arena = deallocate (is_by_handle c) e'.book.arena p }) e') in
      rw of_side
        (ap (λ (b : Book). b.arena) b, ap (λ (b : Book). b.asks) b, ap (λ (b : Book). b.bids) b)

  pub remove_levels :
      (s : Side) (b : BookSide) (p : Ptr) (o : Order)
      → (remove c.ticks s b p o).levels ≡ update b.levels o.px (unlink (b.levels o.px) p o)
  unfolding remove notify_level_emptied
  remove_levels s b p o = elim (Bool-cases (Level.empty (unlink (b.levels o.px) p o))) [
    | inl e ↦ rw e
    | inr ne ↦ rw ne
  ]

  pub remove_order-BookInv :
      (p : Ptr) (e : Engine)
      → l3_words c.ticks ≤ 1
      → is_live (e.book.arena.slots p) ≡ true
      → BookInv c e.book
      → BookInv c (remove_order c p e).book
  unfolding deallocate unlink
  remove_order-BookInv p e fits live v =
      let o = order_at e p in
      let b' = (remove_order c p e).book in
      let b = remove_order_book p o.s e refl in
      let slots = e.book.arena.slots in
      let x = link e.book.arena.free_head in
      let at_slots : b'.arena.slots ≡ update slots p x = ap (λ (a : Arena). a.slots) b.0 in
      let r = live-Rests e.book p v live in
      BookInv-of_sides c o.s b'
        (rw (b.1, at_slots) (remove-SideInv c.ticks o.s p x o.px fits r.0 r.1 (v.sides o.s)))
        (rw (b.2, at_slots)
          (SideInv-frame c.ticks (opposite o.s) slots p x (λ q. Rests-one_side o.s o.px q _ r.1)
            (v.sides (opposite o.s))))
        (rw b.0 (deallocate-ArenaSound c (is_by_handle c) e.book.arena p live v.arena))
        (Linked-write o.s o.px e.book b' p x (unlink ((side_of o.s e.book).levels o.px) p o)
          at_slots
          (ap (λ (k : BookSide). k.levels) b.1 ∙ remove_levels o.s (side_of o.s e.book) p o)
          (ap (λ (k : BookSide). k.levels) b.2)
          (λ q ne i. In-erase p q (fifo_of e.book o.s o.px) ne i) (λ alive. cc) v.linked)

  -- What the engine finds lives in the arena.
  abbrev pub IsLiveIfFound : Engine → Option Ptr → Type 0
  IsLiveIfFound e none = Unit
  IsLiveIfFound e (some p) = is_live (e.book.arena.slots p) ≡ true

  -- `find` changes nothing but the id index.
  pub find-BookInv :
      (e : Engine) (id : ℕ) (h : OrderHandle) (unindex : Bool)
      → BookInv c e.book
      → BookInv c (find c e id h unindex).1.book
        × ((find c e id h unindex).1.book.arena ≡ e.book.arena)
  unfolding find
  find-BookInv e id h unindex v = by_mode (is_by_handle c) unindex
    where
      by_mode :
          (handled unindex : Bool)
          → let found : Option Ptr × Engine =
              if handled
              then (resolve c e h id, e)
              else if unindex
              then (let (p, index) = IdIndex.take e.book.index id in
                  (p, with_book (record e.book { index = index }) e))
              else (IdIndex.lookup e.book.index id, e) in
            BookInv c found.1.book × (found.1.book.arena ≡ e.book.arena)
      by_mode true unindex = (v, refl)
      by_mode false true = (with_index-BookInv c (IdIndex.take e.book.index id).1 v, refl)
      by_mode false false = (v, refl)

  -- With at most four bitmap tiers, a cancel keeps a sound book sound, whether it finds an order
  -- or not, given that an order it finds lives in the arena.
  pub on_cancel-BookInv :
      (m : CancelMsg) (e : Engine)
      → l3_words c.ticks ≤ 1
      → IsLiveIfFound e (find c e m.id m.handle true).0
      → BookInv c e.book
      → BookInv c (on_cancel c m e).book
  unfolding on_cancel
  on_cancel-BookInv m e fits finds v =
      let f = find c e m.id m.handle true in
      let kept = find-BookInv e m.id m.handle true v in
      elim (Option-cases f.0) [
        | inl missing ↦ rw (missing, on_cancel) (kept.0)
        | inr (p, got) ↦
            let live =
              ap (λ (a : Arena). is_live (a.slots p)) kept.1 ∙ subst (IsLiveIfFound e) got finds in
            rw (got, on_cancel)
              (subst (λ (b : Book). BookInv c b)
                (sym (publish_top_if_changed-book (remove_order c p f.1)))
                (remove_order-BookInv p f.1 fits live kept.0))
      ]
