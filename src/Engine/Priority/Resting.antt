-- ===== src/Engine/Priority/Resting.antt =====
-- include/lob/engine.hpp: the orders of one side by price and time, and what `match_against_opposite_`
-- writes of them outside its level.
use orderbooks.Prelude.{
  ℕ, ◌≡◌, ◌≢◌, List, [], ◌∷◌, All_mono, refl, sym, ap, ◌∙◌, Bool-cases, true, false, inl, inr,
  arith,
}
use mathlib.Core.Path.{fun_ext}
use orderbooks.BookSide.{BookSide}
use orderbooks.Types.{opposite, bid, ask}
use orderbooks.Engine.Invariant.{Rests-one_side}
use orderbooks.Types.{Ptr, Order, Side, bid, ask, opposite, Template, SelfCrossPolicy}
use orderbooks.Messages.{SubmitMsg}
use orderbooks.Arena.{Slot, order_in}
use orderbooks.Bitmap.{test}
use orderbooks.Level
use orderbooks.Level.{is_empty}
use orderbooks.BookSide.{side_of, notify_level_emptied}
use orderbooks.BookSide.Levels.{Rests, AllRest}
use orderbooks.BookSide.Invariant.{SideInv}
use orderbooks.Engine.{Engine}
use orderbooks.Engine.Match.{crosses, level_at, settle_level}
use orderbooks.Engine.Invariant.{Rests-once}
use orderbooks.Engine.Priority.{AllCross}
use orderbooks.Engine.Priority.Ladder.{ladder, orders_on}
use orderbooks.Engine.Priority.Effects.{orders_in, orders_at, orders_in-same, Frame}

module _ (c : Template) where
  -- The orders of one side by price, then by time.
  unfoldable pub resting : Engine → Side → List Order
  resting e s = orders_on (orders_at e s) (ladder s c.ticks)

  pub emptied :
      (e : Engine) (s : Side) (px : ℕ)
      → Level.empty (level_at e s px) ≡ true
      → orders_at e s px ≡ []
  unfolding orders_at
  emptied e s px h = ap (orders_in e.book.arena.slots) (nil (level_at e s px).fifo h)
    where
      nil : (ps : List Ptr) → is_empty ps ≡ true → ps ≡ []
      nil [] h = refl
      nil (p ∷ ps) h = cc

  pub unmarked :
      (e : Engine) (s : Side) (px : ℕ)
      → SideInv c.ticks s e.book.arena.slots (side_of s e.book)
      → test c.ticks (side_of s e.book).bm px ≡ false
      → orders_at e s px ≡ []
  unmarked e s px v h = emptied e s px (ground (arith, v.populated px))

  -- Orders of another price.
  pub framed :
      (s : Side) (px q : ℕ) (e e' : Engine)
      → Frame s px e e'
      → q ≢ px
      → AllRest s q e.book.arena.slots (level_at e s q).fifo
      → orders_at e' s q ≡ orders_at e s q
  unfolding orders_at
  framed s px q e e' f ne all =
      ap (λ (l : Level.Level). orders_in e'.book.arena.slots l.fifo) (f.levels q ne)
      ∙ orders_in-same e'.book.arena.slots e.book.arena.slots (level_at e s q).fifo (
          All_mono (λ p. Rests s q (e.book.arena.slots p))
            (λ p. e'.book.arena.slots p ≡ e.book.arena.slots p) (level_at e s q).fifo
            (λ p r. f.slots p (Rests-once s q px (e.book.arena.slots p) r (λ h. ne (sym h)))) all)

  reached_all :
      (policy : SelfCrossPolicy) (m : SubmitMsg) (s : Side) (px : ℕ) (slots : ℕ → Slot)
      (ps : List Ptr)
      → AllRest s px slots ps
      → crosses (opposite s) m.px px ≡ true
      → AllCross policy m s (orders_in slots ps)
  reached_all policy m s px slots [] all h = tt
  reached_all policy m s px slots (p ∷ ps) (r, all) h =
      (ap (crosses (opposite s) m.px) r.price ∙ h, reached_all policy m s px slots ps all h)

  pub orders_at-AllCross :
      (policy : SelfCrossPolicy) (m : SubmitMsg) (s : Side) (px : ℕ) (e : Engine)
      → AllRest s px e.book.arena.slots (level_at e s px).fifo
      → crosses (opposite s) m.px px ≡ true
      → AllCross policy m s (orders_at e s px)
  unfolding orders_at
  orders_at-AllCross policy m s px e =
      reached_all policy m s px e.book.arena.slots (level_at e s px).fifo

  -- A level that has an order.
  pub orders_at-first :
      (e : Engine) (s : Side) (px : ℕ)
      → AllRest s px e.book.arena.slots (level_at e s px).fifo
      → Level.empty (level_at e s px) ≡ false
      → (o : Order) × (os : List Order) × (orders_at e s px ≡ o ∷ os) × (o.px ≡ px)
  unfolding orders_at
  orders_at-first e s px all h = first (level_at e s px).fifo all h
    where
      first :
          (ps : List Ptr)
          → AllRest s px e.book.arena.slots ps
          → is_empty ps ≡ false
          → (o : Order) × (os : List Order) × (orders_in e.book.arena.slots ps ≡ o ∷ os)
            × (o.px ≡ px)
      first [] all h = cc
      first (p ∷ ps) (r, all) h =
          (order_in (e.book.arena.slots p), orders_in e.book.arena.slots ps, refl, r.price)

  pub settle-orders :
      (s : Side) (px : ℕ) (e : Engine) (q : ℕ)
      → orders_at (settle_level c s px e) s q ≡ orders_at e s q
  unfolding settle_level notify_level_emptied orders_at
  settle-orders bid px e q = elim (Bool-cases (Level.empty (level_at e bid px))) [
    | inl run_out ↦ rw (settle_level, run_out) refl
    | inr left ↦ rw (settle_level, left) refl
  ]
  settle-orders ask px e q = elim (Bool-cases (Level.empty (level_at e ask px))) [
    | inl run_out ↦ rw (settle_level, run_out) refl
    | inr left ↦ rw (settle_level, left) refl
  ]

  -- The orders of the other side, where it keeps its levels.
  pub other_side :
      (s : Side) (px : ℕ) (e e' : Engine)
      → Frame s px e e'
      → side_of (opposite s) e'.book ≡ side_of (opposite s) e.book
      → SideInv c.ticks (opposite s) e.book.arena.slots (side_of (opposite s) e.book)
      → resting e' (opposite s) ≡ resting e (opposite s)
  unfolding resting orders_at
  other_side s px e e' f same v =
      let t = opposite s in
      ap (λ (g : ℕ → List Order). orders_on g (ladder t c.ticks))
        (fun_ext λ q.
          ap (λ (k : BookSide). orders_in e'.book.arena.slots (k.levels q).fifo) same
          ∙ orders_in-same e'.book.arena.slots e.book.arena.slots (level_at e t q).fifo (
              All_mono (λ p. Rests t q (e.book.arena.slots p))
                (λ p. e'.book.arena.slots p ≡ e.book.arena.slots p) (level_at e t q).fifo
                (λ p r. f.slots p (λ h. Rests-one_side s px q (e.book.arena.slots p) h r))
                (v.sound q).owned))

  pub settle-other :
      (s : Side) (px : ℕ) (e : Engine)
      → resting (settle_level c s px e) (opposite s) ≡ resting e (opposite s)
  unfolding settle_level resting orders_at
  settle-other bid px e = elim (Bool-cases (Level.empty (level_at e bid px))) [
    | inl run_out ↦ rw (settle_level, run_out) refl
    | inr left ↦ rw (settle_level, left) refl
  ]
  settle-other ask px e = elim (Bool-cases (Level.empty (level_at e ask px))) [
    | inl run_out ↦ rw (settle_level, run_out) refl
    | inr left ↦ rw (settle_level, left) refl
  ]

  pub settle-state :
      (s : Side) (px : ℕ) (e : Engine)
      → ((settle_level c s px e).state ≡ e.state) × ((settle_level c s px e).cfg ≡ e.cfg)
  unfolding settle_level
  settle-state s px e = elim (Bool-cases (Level.empty (level_at e s px))) [
    | inl run_out ↦ rw (settle_level, run_out) (refl, refl)
    | inr left ↦ rw (settle_level, left) (refl, refl)
  ]
