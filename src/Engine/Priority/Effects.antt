-- ===== src/Engine/Priority/Effects.antt =====
-- include/lob/engine.hpp: what one round of the inner loop of `match_against_opposite_` writes.
use orderbooks.Prelude.{
  ℕ, ◌-◌, ◌≡◌, ◌≢◌, ◌==◌, if◌then◌else◌, List, [], ◌∷◌, All, All_mono, Distinct, refl, sym, ap,
  subst, ◌∙◌, Bool-cases, true, false, inl, inr, arith,
}
use orderbooks.Prelude.Word.{sub_u64}
use orderbooks.Types.{Ptr, Order, Side, bid, ask, Template}
use orderbooks.Arena.{Slot, order_in, deallocate}
use orderbooks.Level.{pop_front, Level}
use orderbooks.BookSide.Levels.{Rests}
use orderbooks.Engine.{Engine, order_at}
use orderbooks.Engine.Match.{decrement, drop_front, consume, cancel_front, level_at, with_level}
use orderbooks.Engine.Progress.{decrement_fifo, drop_front_fifo, cancel_front_fifo}

abbrev pub orders_in : (ℕ → Slot) → List Ptr → List Order
orders_in slots [] = []
orders_in slots (p ∷ ps) = order_in (slots p) ∷ orders_in slots ps

-- The orders that rest on one side at one price, in order of arrival.
unfoldable pub orders_at : Engine → Side → ℕ → List Order
orders_at e s px = orders_in e.book.arena.slots (level_at e s px).fifo

pub orders_in-same :
    (f g : ℕ → Slot) (ps : List Ptr) → All (λ p. f p ≡ g p) ps → orders_in f ps ≡ orders_in g ps
orders_in-same f g [] same = refl
orders_in-same f g (p ∷ ps) (e, later) = rw (e, orders_in-same f g ps later) refl

-- A write to one order, on one level.
pub record Touches (s : Side) (px : ℕ) (p : Ptr) (e e' : Engine) : Type 0 where
  pub cfg : e'.cfg ≡ e.cfg
  pub seq : e'.state.seq ≡ e.state.seq
  pub slots : (q : Ptr) → q ≢ p → e'.book.arena.slots q ≡ e.book.arena.slots q
  pub levels : (r : ℕ) → r ≢ px → level_at e' s r ≡ level_at e s r

-- What a run over one level leaves: the orders that do not rest there, and the other levels.
pub record Frame (s : Side) (px : ℕ) (e e' : Engine) : Type 0 where
  pub cfg : e'.cfg ≡ e.cfg
  pub slots :
      (q : Ptr) → ¬ Rests s px (e.book.arena.slots q) → e'.book.arena.slots q ≡ e.book.arena.slots q
  pub levels : (r : ℕ) → r ≢ px → level_at e' s r ≡ level_at e s r

pub Frame-refl : (s : Side) (px : ℕ) (e : Engine) → Frame s px e e
Frame-refl s px e = record { cfg = refl; slots = λ q h. refl; levels = λ r h. refl }

pub Frame-trans :
    (s : Side) (px : ℕ) {a b d : Engine} → Frame s px a b → Frame s px b d → Frame s px a d
Frame-trans s px f g = record {
  cfg = g.cfg ∙ f.cfg;
  slots = λ q h. g.slots q (subst (λ x. ¬ Rests s px x) (sym (f.slots q h)) h) ∙ f.slots q h;
  levels = λ r ne. g.levels r ne ∙ f.levels r ne;
}

pub Frame-of_Touches :
    (s : Side) (px : ℕ) (p : Ptr) (e e' : Engine)
    → Rests s px (e.book.arena.slots p)
    → Touches s px p e e'
    → Frame s px e e'
Frame-of_Touches s px p e e' r t = record {
  cfg = t.cfg;
  slots =
      λ q h. t.slots q (λ same. h (subst (λ v. Rests s px (e.book.arena.slots v)) (sym same) r));
  levels = t.levels;
}

pub Touches-trans :
    (s : Side) (px : ℕ) (p : Ptr) {a b d : Engine}
    → Touches s px p a b
    → Touches s px p b d
    → Touches s px p a d
Touches-trans s px p f g = record {
  cfg = g.cfg ∙ f.cfg;
  seq = g.seq ∙ f.seq;
  slots = λ q ne. g.slots q ne ∙ f.slots q ne;
  levels = λ r ne. g.levels r ne ∙ f.levels r ne;
}

module _ (c : Template) where
  decrement-Touches :
      (s : Side) (px : ℕ) (p : Ptr) (q : ℕ) (e : Engine) → Touches s px p e (decrement s px p q e)
  unfolding decrement
  decrement-Touches bid px p q e = record {
    cfg = refl;
    seq = refl;
    slots = λ r ne. ground arith;
    levels = λ r ne. ground arith;
  }
  decrement-Touches ask px p q e = record {
    cfg = refl;
    seq = refl;
    slots = λ r ne. ground arith;
    levels = λ r ne. ground arith;
  }

  drop_front-Touches :
      (s : Side) (px : ℕ) (p : Ptr) (e : Engine) → Touches s px p e (drop_front c s px p e)
  unfolding drop_front deallocate
  drop_front-Touches bid px p e = record {
    cfg = refl;
    seq = refl;
    slots = λ r ne. ground arith;
    levels = λ r ne. ground arith;
  }
  drop_front-Touches ask px p e = record {
    cfg = refl;
    seq = refl;
    slots = λ r ne. ground arith;
    levels = λ r ne. ground arith;
  }

  with_level-Touches :
      (s : Side) (px : ℕ) (p : Ptr) (lvl : Level) (e : Engine)
      → Touches s px p e (with_level s px lvl e)
  with_level-Touches bid px p lvl e = record {
    cfg = refl;
    seq = refl;
    slots = λ r ne. refl;
    levels = λ r ne. ground arith;
  }
  with_level-Touches ask px p lvl e = record {
    cfg = refl;
    seq = refl;
    slots = λ r ne. refl;
    levels = λ r ne. ground arith;
  }

  pub consume-Touches :
      (s : Side) (px : ℕ) (p : Ptr) (q : ℕ) (e : Engine) → Touches s px p e (consume c s px p q e)
  unfolding consume
  consume-Touches s px p q e =
      let e' = decrement s px p q e in
      let first = decrement-Touches s px p q e in
      elim (Bool-cases ((order_at e' p).remaining == 0)) [
        | inl gone ↦ rw gone (Touches-trans s px p first (drop_front-Touches s px p e'))
        | inr left ↦ rw left first
      ]

  pub cancel_front-Touches :
      (s : Side) (px : ℕ) (p : Ptr) (e : Engine) → Touches s px p e (cancel_front c s px p e)
  unfolding cancel_front
  cancel_front-Touches s px p e =
      let lvl = level_at e s px in
      let left = record lvl { aggregate = sub_u64 lvl.aggregate (order_at e p).remaining } in
      let t =
        Touches-trans s px p (with_level-Touches s px p left e)
          (drop_front-Touches s px p (with_level s px left e)) in
      record { cfg = t.cfg; seq = t.seq; slots = t.slots; levels = t.levels }

  -- The orders behind the front are as they were.
  behind_front :
      (s : Side) (px : ℕ) (p : Ptr) (ps : List Ptr) (e e' : Engine)
      → Touches s px p e e'
      → Distinct (p ∷ ps)
      → orders_in e'.book.arena.slots ps ≡ orders_in e.book.arena.slots ps
  behind_front s px p ps e e' t d =
      orders_in-same e'.book.arena.slots e.book.arena.slots ps
        (All_mono (λ q. q ≢ p) (λ q. e'.book.arena.slots q ≡ e.book.arena.slots q) ps t.slots d.0)

  dropped :
      (s : Side) (px : ℕ) (p : Ptr) (ps : List Ptr) (e e' : Engine)
      → Touches s px p e e'
      → (level_at e' s px).fifo ≡ ps
      → Distinct (p ∷ ps)
      → orders_at e' s px ≡ orders_in e.book.arena.slots ps
  unfolding orders_at
  dropped s px p ps e e' t fifo d =
      ap (orders_in e'.book.arena.slots) fifo ∙ behind_front s px p ps e e' t d

  pub orders_at-cancel_front :
      (s : Side) (px : ℕ) (p : Ptr) (ps : List Ptr) (e : Engine)
      → (level_at e s px).fifo ≡ p ∷ ps
      → Distinct (p ∷ ps)
      → orders_at (cancel_front c s px p e) s px ≡ orders_in e.book.arena.slots ps
  orders_at-cancel_front s px p ps e front d =
      dropped s px p ps e (cancel_front c s px p e) (cancel_front-Touches s px p e)
        (cancel_front_fifo c s px p e ∙ ap pop_front front) d

  -- A trade with the front order.
  pub orders_at-consume :
      (s : Side) (px : ℕ) (p : Ptr) (ps : List Ptr) (q : ℕ) (e : Engine)
      → (level_at e s px).fifo ≡ p ∷ ps
      → Distinct (p ∷ ps)
      → let o = order_at e p in
        let os = orders_in e.book.arena.slots ps in
        orders_at (consume c s px p q e) s px
        ≡ (if o.remaining - q == 0 then os else record o { remaining = o.remaining - q } ∷ os)
  unfolding consume orders_at
  orders_at-consume s px p ps q e front d =
      let e' = decrement s px p q e in
      let o = order_at e p in
      let first = decrement-Touches s px p q e in
      let kept = decrement_fifo c s px p q e in
      let emptied : ((order_at e' p).remaining == 0) ≡ (o.remaining - q == 0) =
        ap (λ (o : Order). o.remaining == 0) kept.1 in
      elim (Bool-cases ((order_at e' p).remaining == 0)) [
        | inl gone ↦
            let none_left : (o.remaining - q == 0) ≡ true = sym emptied ∙ gone in
            rw (gone, none_left)
              (dropped s px p ps e (drop_front c s px p e')
                (Touches-trans s px p first (drop_front-Touches s px p e'))
                (drop_front_fifo c s px p e' ∙ ap pop_front (kept.0 ∙ front)) d)
        | inr left ↦
            let some_left : (o.remaining - q == 0) ≡ false = sym emptied ∙ left in
            rw (left, some_left)
              (ap (orders_in e'.book.arena.slots) (kept.0 ∙ front)
                ∙ (rw (kept.1, behind_front s px p ps e e' first d) refl))
      ]
