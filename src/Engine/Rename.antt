-- ===== src/Engine/Rename.antt =====
-- include/lob/engine.hpp: the invariant of the book through the rename of `on_modify`.
use orderbooks.BookSide.Unlink.{In}
use orderbooks.Engine.Consume.{store-ArenaSound}
use orderbooks.Engine.Linked.{fifo_of}
use orderbooks.Engine.Invariant.{with_index-BookInv, BookInv}
use orderbooks.BookSide.Invariant.{SideInv}
use orderbooks.BookSide.Levels.{total}
use orderbooks.BookSide.Levels.{AllRest, Rests}
use orderbooks.Engine.{order_at, Engine}
use orderbooks.Messages.{ModifyMsg}
use orderbooks.Arena.{load, store, holds, is_live, order_in, Slot}
use orderbooks.BookSide.{side_of, BookSide, Book}
use orderbooks.Engine.Handlers.{rename_order}
use orderbooks.Types.{bid, ask, is_by_handle, Order, Side, Ptr, Template}
use orderbooks.IdIndex
use orderbooks.Prelude.{
  ◌∙◌, refl, update_self, inr, sym, subst, ==_iff, inl, arith, ◌==◌, [], ◌∷◌, Bool-cases, true, ◌≡◌,
  update, List, ℕ, ap,
}

module _ (slots : ℕ → Slot) (p : Ptr) (id : ℕ) where
  abbrev renamed : ℕ → Slot
  renamed = update slots p (holds (record (order_in (slots p)) { id = id }))

  Rests-renamed : (s : Side) (px q : ℕ) → Rests s px (slots q) → Rests s px (renamed q)
  Rests-renamed s px q r = elim (Bool-cases (p == q)) [
    | inl e ↦
        let old = subst (λ v. Rests s px (slots v)) (sym ((==_iff p q).0 e)) r in
        rw e (record {
          live = refl;
          side = old.side;
          price = old.price;
          positive = old.positive;
          bounded = old.bounded;
        })
    | inr ne ↦ rw ne r
  ]

  remaining-renamed : (q : ℕ) → (order_in (renamed q)).remaining ≡ (order_in (slots q)).remaining
  remaining-renamed q = elim (Bool-cases (p == q)) [
    | inl e ↦ rw e (ap (λ (v : ℕ). (order_in (slots v)).remaining) ((==_iff p q).0 e))
    | inr ne ↦ rw ne refl
  ]

  AllRest-renamed :
      (s : Side) (px : ℕ) (ps : List Ptr) → AllRest s px slots ps → AllRest s px renamed ps
  AllRest-renamed s px [] all = tt
  AllRest-renamed s px (q ∷ ps) all = (Rests-renamed s px q all.0, AllRest-renamed s px ps all.1)

  total-renamed : (ps : List Ptr) → total renamed ps ≡ total slots ps
  total-renamed [] = refl
  total-renamed (q ∷ ps) = omega (arith, remaining-renamed q, total-renamed ps)

  SideInv-renamed :
      (ticks : ℕ) (s : Side) {b : BookSide} → SideInv ticks s slots b → SideInv ticks s renamed b
  SideInv-renamed ticks s {b} v = record {
    sound = λ px. record {
      owned = AllRest-renamed s px (b.levels px).fifo ((v.sound px).owned);
      summed = rw (total-renamed (b.levels px).fifo) ((v.sound px).summed);
      distinct = (v.sound px).distinct;
    };
    bitmap = v.bitmap;
    populated = v.populated;
    best_is = v.best_is;
  }

module _ (c : Template) where
  stored-BookInv :
      (b : Book) (p : Ptr) (id : ℕ)
      → is_live (b.arena.slots p) ≡ true
      → BookInv c b
      → BookInv c (record b { arena = store b.arena p (record (load b.arena p) { id = id }) })
  stored-BookInv b p id live v =
      let o : Order = record (load b.arena p) { id = id } in
      let b' : Book = record b { arena = store b.arena p o } in
      record {
        sides = λ (s : Side). both s;
        arena = store-ArenaSound c b.arena p o live v.arena;
        linked = λ q alive. elim (Bool-cases (p == q)) [
          | inl e ↦
              let at_q : b'.arena.slots q ≡ holds o = rw e in
              let there =
                subst (λ (r : ℕ). In r (fifo_of b (load b.arena p).s (load b.arena p).px))
                  ((==_iff p q).0 e) (v.linked p live) in
              rw at_q (subst (λ (f : List Ptr). In q f) (sym (same o.s o.px)) there)
          | inr ne ↦
              let slot = b.arena.slots q in
              let at_q : b'.arena.slots q ≡ slot = rw ne in
              rw at_q (
                subst (λ (f : List Ptr). In q f) (sym (same (order_in slot).s (order_in slot).px))
                  (v.linked q (ap is_live (sym at_q) ∙ alive)))
        ];
      }
    where
      same :
          (t : Side) (r : ℕ)
          → fifo_of (record b { arena = store b.arena p (record (load b.arena p) { id = id }) }) t r
            ≡ fifo_of b t r
      same bid r = refl
      same ask r = refl

      both :
          (s : Side)
          → SideInv c.ticks s (renamed b.arena.slots p id) (
              side_of s
                (record b { arena = store b.arena p (record (load b.arena p) { id = id }) }))
      both bid = SideInv-renamed b.arena.slots p id c.ticks bid (v.sides bid)
      both ask = SideInv-renamed b.arena.slots p id c.ticks ask (v.sides ask)

  -- A live order that is renamed keeps its place; the id index is no part of the invariant.
  pub rename_order-BookInv :
      (m : ModifyMsg) (p : Ptr) (e : Engine)
      → is_live (e.book.arena.slots p) ≡ true
      → BookInv c e.book
      → BookInv c (rename_order c m p e).book
        × (is_live ((rename_order c m p e).book.arena.slots p) ≡ true)
  unfolding rename_order
  rename_order-BookInv m p e live v =
      let o : Order = record (order_at e p) { id = m.new_id } in
      let kept = stored-BookInv e.book p m.new_id live v in
      let alive = ap is_live (update_self e.book.arena.slots p (holds o)) in
      elim (Bool-cases (is_by_handle c)) [
        | inl by_hand ↦ rw by_hand (kept, alive)
        | inr indexed ↦
            rw indexed (with_index-BookInv c (IdIndex.insert e.book.index m.new_id p) kept, alive)
      ]
