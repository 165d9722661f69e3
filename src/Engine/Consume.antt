-- ===== src/Engine/Consume.antt =====
-- include/lob/engine.hpp: one maker in `match_against_opposite_`, and the invariant of the book.
use orderbooks.Engine.Linked.{Linked-write, fifo_of}
use orderbooks.BookSide.Unlink.{In}
use orderbooks.Prelude.Word.{sub_u64}
use orderbooks.Engine.{order_at, Engine}
use orderbooks.Engine.Match.{consume, with_level, cancel_front, level_at, drop_front, decrement}
use orderbooks.Prelude.{
  subst, sym, false, ◌≢◌, inr, inl, ◌==◌, Bool-cases, ◌≤◌, update_self, refl, ◌∙◌, ◌<◌, ◌∷◌, ◌-◌,
  update-update, ap, List, update, ◌≡◌, Bool, ℕ, arith, true,
}
use orderbooks.Types.{ask, bid, is_by_handle, Ptr, Order, Side, opposite, Template}
use orderbooks.Arena.{link, order_in, holds, Slot, Arena, is_live, store, deallocate}
use orderbooks.Arena.FreeList.{store-ArenaInv, deallocate-ArenaInv}
use orderbooks.BookSide.{BookSide, set_level, Book, side_of}
use orderbooks.Level.{pop_front, Level}
use orderbooks.BookSide.Levels.{
  LevelInv-drop, LevelInv-shrink, AllRest, Rests, LevelInv, LevelInv-update,
}
use orderbooks.BookSide.Settle.{SideMatching-write, SideInv-frame}
use orderbooks.Engine.Invariant.{ArenaSound, BookMatching, Rests-once, Rests-one_side}

behind_front : (p q : Ptr) (ps : List Ptr) → q ≢ p → In q (p ∷ ps) → In q ps
behind_front p q ps ne (inl e) = absurd (ne (sym e))
behind_front p q ps ne (inr i) = i

module _ (c : Template) where
  -- Writes to a live slot keep the arena sound.
  pub store-ArenaSound :
      (a : Arena) (p : Ptr) (o : Order)
      → is_live (a.slots p) ≡ true
      → ArenaSound c a
      → ArenaSound c (store a p o)
  store-ArenaSound a p o live v = record {
    free_list = store-ArenaInv c.max_orders a p o live v.free_list;
    within = λ q h. ground (arith, v.within q, v.within p live);
  }

  pub deallocate-ArenaSound :
      (keeps : Bool) (a : Arena) (p : Ptr)
      → is_live (a.slots p) ≡ true
      → ArenaSound c a
      → ArenaSound c (deallocate keeps a p)
  unfolding deallocate
  deallocate-ArenaSound keeps a p live v = record {
    free_list = deallocate-ArenaInv c.max_orders keeps a p (v.within p live) live v.free_list;
    within = λ q h. ground (arith, v.within q, v.within p live);
  }

  -- A write to the level under matching and to the slot of an order that rests there.
  BookMatching-write :
      (s : Side) (px : ℕ) (b b' : Book) (p : Ptr) (x : Slot) (lvl : Level)
      → Rests s px (b.arena.slots p)
      → LevelInv s px (update b.arena.slots p x) lvl
      → b'.arena.slots ≡ update b.arena.slots p x
      → side_of s b' ≡ set_level (side_of s b) px lvl
      → side_of (opposite s) b' ≡ side_of (opposite s) b
      → ArenaSound c b'.arena
      → ((q : Ptr) → q ≢ p → In q (fifo_of b s px) → In q lvl.fifo)
      → (is_live x ≡ true → ((order_in x).s ≡ s) × ((order_in x).px ≡ px) × In p lvl.fifo)
      → BookMatching c s px b
      → BookMatching c s px b'
  BookMatching-write s px b b' p x lvl r here slots side other arena keeps placed v = record {
    here =
        rw (side, slots)
          (SideMatching-write c.ticks s px (update b.arena.slots p x) lvl here
            (λ q ne.
              LevelInv-update s q b.arena.slots p x (Rests-once s px q _ r ne) (v.here.sound q))
            v.here);
    other =
        rw (other, slots)
          (SideInv-frame c.ticks (opposite s) b.arena.slots p x (λ q. Rests-one_side s px q _ r)
            v.other);
    arena = arena;
    linked =
        Linked-write s px b b' p x lvl slots (ap (λ (k : BookSide). k.levels) side)
          (ap (λ (k : BookSide). k.levels) other) keeps placed v.linked;
  }

  front-Rests :
      (s : Side) (px : ℕ) (p : Ptr) (ps : List Ptr) (e : Engine)
      → (level_at e s px).fifo ≡ p ∷ ps
      → BookMatching c s px e.book
      → Rests s px (e.book.arena.slots p)
  front-Rests s px p ps e front v =
      let all : AllRest s px e.book.arena.slots (p ∷ ps) = rw front at ((v.here.sound px).owned) in
      all.0

  -- What `decrement` and `drop_front` do to the book, on either side.
  decrement_book :
      (s : Side) (px : ℕ) (p : Ptr) (q : ℕ) (e : Engine)
      → let o' = record (order_at e p) { remaining = (order_at e p).remaining - q } in
        let lvl = level_at e s px in
        let b = (decrement s px p q e).book in
        (b.arena ≡ store e.book.arena p o')
        × (side_of s b
            ≡ set_level (side_of s e.book) px (record lvl { aggregate = sub_u64 lvl.aggregate q }))
        × (side_of (opposite s) b ≡ side_of (opposite s) e.book)
  unfolding decrement
  decrement_book bid px p q e = (refl, refl, refl)
  decrement_book ask px p q e = (refl, refl, refl)

  drop_front_book :
      (s : Side) (px : ℕ) (p : Ptr) (e : Engine)
      → let lvl = level_at e s px in
        let b = (drop_front c s px p e).book in
        (b.arena ≡ deallocate (is_by_handle c) e.book.arena p)
        × (side_of s b ≡ set_level (side_of s e.book) px (record lvl { fifo = pop_front lvl.fifo }))
        × (side_of (opposite s) b ≡ side_of (opposite s) e.book)
  unfolding drop_front
  drop_front_book bid px p e = (refl, refl, refl)
  drop_front_book ask px p e = (refl, refl, refl)

  set_level_twice :
      (b : BookSide) (px : ℕ) (l l' : Level)
      → set_level (set_level b px l) px l' ≡ set_level b px l'
  set_level_twice b px l l' = ap (λ f. record b { levels = f }) (update-update b.levels px l l')

  -- A front order that gives up part of its quantity stays.
  decrement-BookMatching :
      (s : Side) (px : ℕ) (p : Ptr) (ps : List Ptr) (q : ℕ) (e : Engine)
      → (level_at e s px).fifo ≡ p ∷ ps
      → q < (order_at e p).remaining
      → BookMatching c s px e.book
      → BookMatching c s px (decrement s px p q e).book
  decrement-BookMatching s px p ps q e front lt v =
      let b = decrement_book s px p q e in
      let o = order_at e p in
      let o' : Order = record o { remaining = o.remaining - q } in
      let lvl = level_at e s px in
      let r : Rests s px (e.book.arena.slots p) = front-Rests s px p ps e front v in
      BookMatching-write s px e.book (decrement s px p q e).book p (holds o')
        (record lvl { aggregate = sub_u64 lvl.aggregate q }) r
        (LevelInv-shrink s px e.book.arena.slots p ps q front lt (v.here.sound px))
        (ap (λ (a : Arena). a.slots) b.0) b.1 b.2
        (rw (b.0) (store-ArenaSound e.book.arena p o' r.live v.arena)) (λ _ _ i. i)
        (λ _. (r.side, r.price, rw front (inl refl))) v

  -- A front order that leaves the level with all that it has.
  leave-BookMatching :
      (s : Side) (px : ℕ) (p : Ptr) (ps : List Ptr) (x : Slot) (b b' : Book) (lvl : Level)
      → lvl ≡ (side_of s b).levels px
      → lvl.fifo ≡ p ∷ ps
      → b'.arena.slots ≡ update b.arena.slots p x
      → side_of s b'
        ≡ set_level (side_of s b) px (record {
          aggregate = sub_u64 lvl.aggregate (order_in (b.arena.slots p)).remaining;
          fifo = ps;
        })
      → side_of (opposite s) b' ≡ side_of (opposite s) b
      → ArenaSound c b'.arena
      → is_live x ≡ false
      → Rests s px (b.arena.slots p)
      → BookMatching c s px b
      → BookMatching c s px b'
  leave-BookMatching s px p ps x b b' lvl same front slots side other arena dead r v =
      BookMatching-write s px b b' p x
        (record {
          aggregate = sub_u64 lvl.aggregate (order_in (b.arena.slots p)).remaining;
          fifo = ps;
        })
        r (LevelInv-drop s px b.arena.slots p ps x front (rw same (v.here.sound px))) slots side
        other arena
        (λ q ne i.
          behind_front p q ps ne
            (subst (λ (f : List Ptr). In q f) (sym (ap (λ (l : Level). l.fifo) same) ∙ front) i))
        (λ live. cc) v

  -- The front order is dropped in a state `e'` where the level's aggregate has already lost its quantity.
  dropped-BookMatching :
      (s : Side) (px : ℕ) (p : Ptr) (ps : List Ptr) (q : ℕ) (e e' : Engine)
      → (level_at e s px).fifo ≡ p ∷ ps
      → q ≡ (order_at e p).remaining
      → ((x : Slot) → update e'.book.arena.slots p x ≡ update e.book.arena.slots p x)
      → is_live (e'.book.arena.slots p) ≡ true
      → ArenaSound c e'.book.arena
      → side_of s e'.book
        ≡ set_level
            (side_of s e.book)
            px
            (record (level_at e s px) { aggregate = sub_u64 (level_at e s px).aggregate q })
      → side_of (opposite s) e'.book ≡ side_of (opposite s) e.book
      → BookMatching c s px e.book
      → BookMatching c s px (drop_front c s px p e').book
  unfolding deallocate
  dropped-BookMatching s px p ps q e e' front all slots live arena side other v =
      let b' = drop_front_book s px p e' in
      let lvl = level_at e s px in
      let lvl' : Level = record lvl { aggregate = sub_u64 lvl.aggregate q } in
      let x = link e'.book.arena.free_head in
      let level : level_at e' s px ≡ lvl' =
        ap (λ (k : BookSide). k.levels px) side ∙ update_self (side_of s e.book).levels px lvl' in
      leave-BookMatching s px p ps x e.book (drop_front c s px p e').book lvl refl front
        (ap (λ (a : Arena). a.slots) b'.0 ∙ slots x)
        (b'.1
          ∙ ap
              (λ (l : Level).
                set_level (side_of s e'.book) px (record l { fifo = pop_front l.fifo }))
              level
          ∙ ap (λ (k : BookSide). set_level k px (record lvl' { fifo = pop_front lvl.fifo })) side
          ∙ set_level_twice (side_of s e.book) px lvl' (record lvl' { fifo = pop_front lvl.fifo })
          ∙ ap
              (λ (f : List Ptr).
                set_level (side_of s e.book) px (record lvl' { fifo = pop_front f }))
              front
          ∙ ap
              (λ (t : ℕ).
                set_level (side_of s e.book) px
                  (record { aggregate = sub_u64 lvl.aggregate t; fifo = ps }))
              all)
        (b'.2 ∙ other) (rw b'.0 (deallocate-ArenaSound (is_by_handle c) e'.book.arena p live arena))
        refl (front-Rests s px p ps e front v) v

  with_level_book :
      (s : Side) (px : ℕ) (lvl : Level) (e : Engine)
      → let b = (with_level s px lvl e).book in
        (b.arena ≡ e.book.arena)
        × (side_of s b ≡ set_level (side_of s e.book) px lvl)
        × (side_of (opposite s) b ≡ side_of (opposite s) e.book)
  with_level_book bid px lvl e = (refl, refl, refl)
  with_level_book ask px lvl e = (refl, refl, refl)

  -- `cancel_oldest` takes the front maker out.
  pub cancel_front-BookMatching :
      (s : Side) (px : ℕ) (p : Ptr) (ps : List Ptr) (e : Engine)
      → (level_at e s px).fifo ≡ p ∷ ps
      → BookMatching c s px e.book
      → BookMatching c s px (cancel_front c s px p e).book
  unfolding cancel_front
  cancel_front-BookMatching s px p ps e front v =
      let lvl = level_at e s px in
      let q = (order_at e p).remaining in
      let e' = with_level s px (record lvl { aggregate = sub_u64 lvl.aggregate q }) e in
      let b = with_level_book s px (record lvl { aggregate = sub_u64 lvl.aggregate q }) e in
      let r = front-Rests s px p ps e front v in
      dropped-BookMatching s px p ps q e e' front refl
        (λ x. ap (λ (a : Arena). update a.slots p x) b.0)
        (ap (λ (a : Arena). is_live (a.slots p)) b.0 ∙ r.live) (rw b.0 (v.arena)) b.1 b.2 v

  drained-BookMatching :
      (s : Side) (px : ℕ) (p : Ptr) (ps : List Ptr) (q : ℕ) (e : Engine)
      → (level_at e s px).fifo ≡ p ∷ ps
      → q ≡ (order_at e p).remaining
      → BookMatching c s px e.book
      → BookMatching c s px (drop_front c s px p (decrement s px p q e)).book
  drained-BookMatching s px p ps q e front all v =
      let b = decrement_book s px p q e in
      let o' : Order = record (order_at e p) { remaining = (order_at e p).remaining - q } in
      let r = front-Rests s px p ps e front v in
      dropped-BookMatching s px p ps q e (decrement s px p q e) front all
        (λ x.
          ap (λ (a : Arena). update a.slots p x) b.0
          ∙ update-update e.book.arena.slots p (holds o') x)
        (ap (λ (a : Arena). is_live (a.slots p)) b.0
          ∙ ap is_live (update_self e.book.arena.slots p (holds o')))
        (rw b.0 (store-ArenaSound e.book.arena p o' r.live v.arena)) b.1 b.2 v

  left_after_decrement :
      (s : Side) (px : ℕ) (p : Ptr) (q : ℕ) (e : Engine)
      → (order_at (decrement s px p q e) p).remaining ≡ (order_at e p).remaining - q
  left_after_decrement s px p q e =
      let b = decrement_book s px p q e in
      let o' : Order = record (order_at e p) { remaining = (order_at e p).remaining - q } in
      ap (λ (a : Arena). (order_in (a.slots p)).remaining) b.0
      ∙ ap (λ (l : Slot). (order_in l).remaining) (update_self e.book.arena.slots p (holds o'))

  -- A trade of at most the front maker's quantity.
  pub consume-BookMatching :
      (s : Side) (px : ℕ) (p : Ptr) (ps : List Ptr) (q : ℕ) (e : Engine)
      → (level_at e s px).fifo ≡ p ∷ ps
      → q ≤ (order_at e p).remaining
      → BookMatching c s px e.book
      → BookMatching c s px (consume c s px p q e).book
  unfolding consume
  consume-BookMatching s px p ps q e front le v =
      elim (Bool-cases ((order_at (decrement s px p q e) p).remaining == 0)) [
        | inl z ↦ rw z (
            drained-BookMatching s px p ps q e front
              (ground (arith, left_after_decrement s px p q e)) v)
        | inr nz ↦ rw nz (
            decrement-BookMatching s px p ps q e front
              (ground (arith, left_after_decrement s px p q e)) v)
      ]
