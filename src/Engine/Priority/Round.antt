-- ===== src/Engine/Priority/Round.antt =====
-- include/lob/engine.hpp: one round of the inner loop of `match_against_opposite_` matches the front order
-- of its level.
use orderbooks.Prelude.{
  ℕ, ◌-◌, ◌≡◌, ◌==◌, leb, min, if◌then◌else◌, List, [], ◌∷◌, ◌++◌, Distinct, refl, sym, ap, ◌∙◌,
  Bool-cases, true, false, inl, inr, append_assoc, append-nil, arith,
}
use orderbooks.Prelude.Word.{add_u64}
use orderbooks.Types.{
  Ptr, Order, Side, opposite, Template, SelfCrossPolicy, cancel_newest, cancel_oldest,
  decrement_trade,
}
use orderbooks.Messages.{SubmitMsg, Event}
use orderbooks.BookSide.Levels.{Rests}
use orderbooks.Engine.{Engine, HotState, order_at}
use orderbooks.Engine.Match.{
  Outcome, crosses, level_at, consume, cancel_front, publish_fill, publish_self_trade,
  self_cross_by, handle_self_cross, fill_front, match_front,
}
use orderbooks.Engine.Traded.{consume-published, cancel_front-published}
use orderbooks.Engine.Priority.{
  Matched, unmatched, after_events, is_own, fill_events, self_trade_events, take_from, meet_own,
  match_orders, match_orders-none,
}
use orderbooks.Engine.Priority.Effects.{
  orders_in, orders_at, Frame, Frame-refl, Frame-of_Touches, consume-Touches, cancel_front-Touches,
  orders_at-consume, orders_at-cancel_front,
}

module _ (c : Template) (policy : SelfCrossPolicy) (m : SubmitMsg) (s : Side) (px : ℕ) where
  -- What is still to be matched at this price.
  abbrev still : Engine → ℕ → Matched
  still e remaining = match_orders policy m s (orders_at e s px) remaining e.state.seq

  -- A round publishes events, and the rest is matched from where it leaves off.
  pub record IsStep (e : Engine) (remaining : ℕ) (p : Ptr) (r : Outcome) : Type 0 where
    pub events : List Event
    pub published : r.engine.published ≡ e.published ++ events
    pub meaning : still e remaining ≡ after_events events (still r.engine r.remaining)
    pub frame : Frame s px e r.engine

  spent :
      (evs : List Event) (os : List Order) (seq : ℕ)
      → after_events evs (match_orders policy m s os 0 seq)
        ≡ record { events = evs; remaining = 0; left = os; seq = seq }
  spent evs os seq = rw (match_orders-none policy m s os seq) (
      ap (λ (es : List Event). record { events = es; remaining = 0; left = os; seq = seq })
        (append-nil evs))

  -- A trade with the front order, in a state that has published it.
  take_from-consume :
      (p : Ptr) (ps : List Ptr) (e : Engine) (remaining seq : ℕ) (evs : ℕ → List Event)
      → (level_at e s px).fifo ≡ p ∷ ps
      → Distinct (p ∷ ps)
      → e.state.seq ≡ add_u64 seq 1
      → let o = order_at e p in
        let os = orders_in e.book.arena.slots ps in
        let q = min remaining o.remaining in
        take_from o os remaining seq evs
          (match_orders policy m s os (remaining - q) (add_u64 seq 1))
        ≡ after_events (evs q) (still (consume c s px p q e) (remaining - q))
  take_from-consume p ps e remaining seq evs front d stamped =
      let o = order_at e p in
      let os = orders_in e.book.arena.slots ps in
      let q = min remaining o.remaining in
      let e' = consume c s px p q e in
      let after = orders_at-consume c s px p ps q e front d in
      let same_seq : e'.state.seq ≡ add_u64 seq 1 = (consume-Touches c s px p q e).seq ∙ stamped in
      elim (Bool-cases (leb o.remaining remaining)) [
        | inl drained ↦
            let none_left : (o.remaining - q == 0) ≡ true = ground arith in
            let now : orders_at e' s px ≡ os = rw none_left at after in
            rw (drained, now, same_seq) refl
        | inr stays ↦
            let some_left : (o.remaining - q == 0) ≡ false = ground arith in
            let none_left : remaining - q ≡ 0 = ground arith in
            let now : orders_at e' s px ≡ record o { remaining = o.remaining - q } ∷ os =
              rw some_left at after in
            rw (stays, now, same_seq, none_left)
              (sym (spent (evs q) (record o { remaining = o.remaining - q } ∷ os) (add_u64 seq 1)))
      ]

  -- The front order of the level, as the reference reads it.
  pub record IsFront (e : Engine) (remaining : ℕ) (p : Ptr) (ps : List Ptr) : Type 0 where
    pub front : (level_at e s px).fifo ≡ p ∷ ps
    pub distinct : Distinct (p ∷ ps)
    pub rests : Rests s px (e.book.arena.slots p)
    pub reached : crosses (opposite s) m.px px ≡ true
    pub some_left : (remaining == 0) ≡ false

  orders_at-front :
      (e : Engine) (p : Ptr) (ps : List Ptr)
      → (level_at e s px).fifo ≡ p ∷ ps
      → orders_at e s px ≡ order_at e p ∷ orders_in e.book.arena.slots ps
  unfolding orders_at
  orders_at-front e p ps front = ap (orders_in e.book.arena.slots) front

  -- The reference on the front order, past its two early ends.
  still-front :
      (e : Engine) (remaining : ℕ) (p : Ptr) (ps : List Ptr)
      → IsFront e remaining p ps
      → let o = order_at e p in
        let os = orders_in e.book.arena.slots ps in
        let seq = e.state.seq in
        let rest =
          match_orders policy m s os (remaining - min remaining o.remaining) (add_u64 seq 1) in
        still e remaining ≡ (
          if is_own m o
          then meet_own policy m s policy o os remaining seq
              (match_orders policy m s os remaining seq)
              rest
          else take_from o os remaining seq (λ q. fill_events m o q (add_u64 seq 1)) rest)
  unfolding match_orders
  still-front e remaining p ps f =
      let reached : crosses (opposite s) m.px (order_at e p).px ≡ true =
        ap (crosses (opposite s) m.px) f.rests.price ∙ f.reached in
      rw (orders_at-front e p ps f.front, match_orders, f.some_left, reached) refl

  -- What has been published, and the engine's own state, are no part of the book.
  unpublished :
      (e : Engine) {state : HotState} {evs : List Event} {e' : Engine}
      → Frame s px (record e { state = state; published = evs }) e'
      → Frame s px e e'
  unpublished e f = record { cfg = f.cfg; slots = f.slots; levels = f.levels }

  fill_front-IsStep :
      (e : Engine) (remaining : ℕ) (p : Ptr) (ps : List Ptr)
      → IsFront e remaining p ps
      → is_own m (order_at e p) ≡ false
      → IsStep e remaining p (fill_front c m s px p e remaining)
  unfolding fill_front
  fill_front-IsStep e remaining p ps f other =
      let o = order_at e p in
      let q = min remaining o.remaining in
      let seq = add_u64 e.state.seq 1 in
      let e' = publish_fill c m o px q e in
      let t = consume-Touches c s px p q e' in
      let evs = λ (v : ℕ). fill_events m (record o { px = v }) q seq in
      record {
        events = fill_events m o q seq;
        published =
            consume-published c s px p q e'
            ∙ append_assoc e.published _ _
            ∙ ap (λ v. e.published ++ evs v) (sym f.rests.price);
        meaning =
            still-front e remaining p ps f
            ∙ (rw other (
                take_from-consume p ps e' remaining e.state.seq (λ q. fill_events m o q seq) f.front
                  f.distinct refl));
        frame = unpublished e (Frame-of_Touches s px p e' (consume c s px p q e') f.rests t);
      }

  -- An aggressor that meets an order of its own account, under each policy.
  still-own :
      (by : SelfCrossPolicy) (e : Engine) (remaining : ℕ) (p : Ptr) (ps : List Ptr)
      → IsFront e remaining p ps
      → is_own m (order_at e p) ≡ true
      → by ≡ policy
      → let o = order_at e p in
        let os = orders_in e.book.arena.slots ps in
        let seq = e.state.seq in
        let rest =
          match_orders policy m s os (remaining - min remaining o.remaining) (add_u64 seq 1) in
        still e remaining
        ≡ meet_own policy m s by o os remaining seq (match_orders policy m s os remaining seq) rest
  still-own by e remaining p ps f own same =
      let o = order_at e p in
      let os = orders_in e.book.arena.slots ps in
      let seq = e.state.seq in
      let rest =
        match_orders policy m s os (remaining - min remaining o.remaining) (add_u64 seq 1) in
      still-front e remaining p ps f
      ∙ (rw own (
          ap
            (λ b.
              meet_own policy m s b o os remaining seq (match_orders policy m s os remaining seq)
                rest)
            (sym same)))

  self_cross_by-IsStep :
      (by : SelfCrossPolicy) (e : Engine) (remaining : ℕ) (p : Ptr) (ps : List Ptr)
      → IsFront e remaining p ps
      → is_own m (order_at e p) ≡ true
      → by ≡ policy
      → IsStep e remaining p (self_cross_by c by m s px p e remaining)
  unfolding self_cross_by
  self_cross_by-IsStep cancel_newest e remaining p ps f own same = record {
    events = [];
    published = sym (append-nil e.published);
    meaning =
        still-own cancel_newest e remaining p ps f own same
        ∙ ap (λ os. unmatched os 0 e.state.seq) (sym (orders_at-front e p ps f.front))
        ∙ sym (match_orders-none policy m s (orders_at e s px) e.state.seq);
    frame = Frame-refl s px e;
  }
  self_cross_by-IsStep cancel_oldest e remaining p ps f own same =
      let e' = cancel_front c s px p e in
      let t = cancel_front-Touches c s px p e in
      let now = orders_at-cancel_front c s px p ps e f.front f.distinct in
      record {
        events = [];
        published = cancel_front-published c s px p e ∙ sym (append-nil e.published);
        meaning =
            still-own cancel_oldest e remaining p ps f own same
            ∙ ap (λ os. match_orders policy m s os remaining e.state.seq) (sym now)
            ∙ ap (match_orders policy m s (orders_at e' s px) remaining) (sym t.seq);
        frame = Frame-of_Touches s px p e e' f.rests t;
      }
  self_cross_by-IsStep decrement_trade e remaining p ps f own same =
      let o = order_at e p in
      let q = min remaining o.remaining in
      let seq = add_u64 e.state.seq 1 in
      let e' = publish_self_trade c m o px q e in
      let t = consume-Touches c s px p q e' in
      let evs = λ (v : ℕ). self_trade_events m (record o { px = v }) q seq in
      record {
        events = self_trade_events m o q seq;
        published =
            consume-published c s px p q e' ∙ ap (λ v. e.published ++ evs v) (sym f.rests.price);
        meaning =
            still-own decrement_trade e remaining p ps f own same
            ∙ take_from-consume p ps e' remaining e.state.seq (λ q. self_trade_events m o q seq)
                f.front f.distinct refl;
        frame = unpublished e (Frame-of_Touches s px p e' (consume c s px p q e') f.rests t);
      }

  pub match_front-IsStep :
      (e : Engine) (remaining : ℕ) (p : Ptr) (ps : List Ptr)
      → IsFront e remaining p ps
      → e.cfg.self_cross ≡ policy
      → IsStep e remaining p (match_front c m s px p e remaining)
  unfolding match_front handle_self_cross
  match_front-IsStep e remaining p ps f same = elim (Bool-cases (is_own m (order_at e p))) [
    | inl own ↦ rw own (self_cross_by-IsStep e.cfg.self_cross e remaining p ps f own same)
    | inr other ↦ rw other (fill_front-IsStep e remaining p ps f other)
  ]
