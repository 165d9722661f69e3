-- ===== src/Engine/Priority/Refine.antt =====
-- include/lob/engine.hpp: the loops of `match_against_opposite_`, on the orders of the opposite side by
-- price and time.
use orderbooks.Prelude.{
  ℕ, zero, suc, ◌+◌, ◌<◌, ◌≤◌, ◌≡◌, ◌≢◌, ◌==◌, ◌⊎◌, ltb, List, [], ◌∷◌, ◌++◌, All_mono, none, some,
  refl, sym, ap, ◌∙◌, Bool-cases, Option-cases, true, false, inl, inr, append_assoc, append-nil,
  subst, arith,
}
use mathlib.Core.Path.{fun_ext}
use orderbooks.Types.{Order, Side, bid, ask, opposite, Template, SelfCrossPolicy, EngineConfig}
use orderbooks.Messages.{SubmitMsg, Event}
use orderbooks.Bitmap.{l3_words}
use orderbooks.BookSide.{side_of, is_better}
use orderbooks.Engine.{Engine, HotState}
use orderbooks.Engine.Match.{
  crosses, level_rounds, match_level, settle_level, match_against_opposite,
}
use orderbooks.Engine.Invariant.{BookInv, start_BookMatching}
use orderbooks.Engine.Matching.{match_level-BookMatching, settle_level-BookInv}
use orderbooks.Engine.Progress.{match_level-IsSettled, match_level-aborted}
use orderbooks.Engine.SameTop.{match_level-SameTop}
use orderbooks.Engine.Termination.{rounds_left, start_rounds, best_on_ladder, settled_rounds}
use orderbooks.Engine.Traded.{settle_level-published}
use orderbooks.Engine.Priority.{
  Matched, unmatched, after_events, go_on, match_orders, match_orders-none, match_orders-append,
}
use orderbooks.Engine.Priority.Ladder.{
  ladder, Split, Split-ladder, orders_on, orders_on-same, orders_on-best, orders_on-nothing,
}
use orderbooks.Engine.Priority.Effects.{orders_at, Frame}
use orderbooks.Engine.Priority.Resting.{settle-other, other_side}
use orderbooks.Engine.Priority.Loop.{match_level-Follows}
use orderbooks.Engine.Priority.Resting.{
  resting, emptied, unmarked, framed, orders_at-AllCross, orders_at-first, settle-orders,
  settle-state,
}

is_better_ne : (s : Side) (px q : ℕ) → is_better s px q ≡ true → q ≢ px
is_better_ne bid px q h = ground arith
is_better_ne ask px q h = ground arith

module _ (c : Template) (policy : SelfCrossPolicy) (m : SubmitMsg) (s : Side) where
  -- What is still to be matched on the side.
  abbrev still : Engine → ℕ → Matched
  still e remaining = match_orders policy m s (resting c e s) remaining e.state.seq

  -- The side, split at its best price.
  module _ (px : ℕ) (e : Engine) (v : BookInv c e.book)
      (best : (side_of s e.book).best ≡ some px) where
    best-Split : Split s c.ticks px
    best-Split = Split-ladder s c.ticks px (best_on_ladder c s px (v.sides s) best)

    behind : List Order
    behind = orders_on (orders_at e s) best-Split.behind

    none_ahead : (q : ℕ) → is_better s q px ≡ true → orders_at e s q ≡ []
    none_ahead q h = unmarked c e s q (v.sides s) ((v.sides s).best_is.none_ahead px q best h)

    resting-best : resting c e s ≡ orders_at e s px ++ behind
    unfolding resting behind
    resting-best = orders_on-best (orders_at e s) s c.ticks px best-Split none_ahead

    -- After the level at the best price was matched.
    resting-after : (e' : Engine) → Frame s px e e' → resting c e' s ≡ orders_at e' s px ++ behind
    unfolding resting behind
    resting-after e' f =
        let same : (q : ℕ) → q ≢ px → orders_at e' s q ≡ orders_at e s q =
          λ q ne. framed c s px q e e' f ne ((v.sides s).sound q).owned in
        orders_on-best (orders_at e' s) s c.ticks px best-Split
          (λ q h. same q (λ eq. is_better_ne s q px h (sym eq)) ∙ none_ahead q h)
        ∙ ap (λ (os : List Order). orders_at e' s px ++ os)
            (orders_on-same (orders_at e' s) (orders_at e s) best-Split.behind (
              All_mono (λ q. is_better s px q ≡ true) (λ q. orders_at e' s q ≡ orders_at e s q)
                best-Split.behind (λ q h. same q (is_better_ne s px q h)) best-Split.worse))

  resting-settle : (px : ℕ) (e : Engine) → resting c (settle_level c s px e) s ≡ resting c e s
  unfolding resting
  resting-settle px e =
      ap (λ (f : ℕ → List Order). orders_on f (ladder s c.ticks))
        (fun_ext λ q. settle-orders c s px e q)

  -- A level that was matched to an end: the aggressor has none left, or the level has.
  finished :
      (r : Matched) (ys : List Order)
      → (r.remaining ≡ 0) ⊎ (r.left ≡ [])
      → go_on policy m s r ys
        ≡ after_events r.events (match_orders policy m s (r.left ++ ys) r.remaining r.seq)
  finished r ys (inl z) =
      rw
        (
          z,
          match_orders-none policy m s ys r.seq,
          match_orders-none policy m s (r.left ++ ys) r.seq,
        )
        refl
  finished r ys (inr e) = rw e refl

  -- A round of the outer loop publishes events, and the rest is matched from where it leaves off.
  record IsRound (e : Engine) (remaining : ℕ) (e' : Engine) (remaining' : ℕ) : Type 0 where
    events : List Event
    published : e'.published ≡ e.published ++ events
    meaning : still e remaining ≡ after_events events (still e' remaining')
    cfg : e'.cfg ≡ e.cfg
    other : resting c e' (opposite s) ≡ resting c e (opposite s)

  level-IsRound :
      (px : ℕ) (e : Engine) (remaining : ℕ)
      → BookInv c e.book
      → (side_of s e.book).best ≡ some px
      → crosses (opposite s) m.px px ≡ true
      → e.cfg.self_cross ≡ policy
      → let r = match_level c (level_rounds c e s px) m s px e remaining in
        IsRound e remaining (settle_level c s px r.engine) r.remaining
  level-IsRound px e remaining v best reached same =
      let n = level_rounds c e s px in
      let r = match_level c n m s px e remaining in
      let e' = settle_level c s px r.engine in
      let matching = start_BookMatching c s px best v in
      let f =
        match_level-Follows c policy m s px n e remaining (inr (omega arith)) matching reached
          same in
      let part = match_orders policy m s (orders_at e s px) remaining e.state.seq in
      let ys = behind px e v best in
      let over : (part.remaining ≡ 0) ⊎ (part.left ≡ []) =
        elim (match_level-IsSettled c n m s px e remaining (omega arith)) [
          | inl z ↦ inl (sym f.some_left ∙ z)
          | inr run_out ↦ inr (sym f.left ∙ emptied c r.engine s px (rw run_out refl))
        ] in
      let now : resting c e' s ≡ part.left ++ ys =
        resting-settle px r.engine
        ∙ resting-after px e v best r.engine f.frame
        ∙ ap (λ (os : List Order). os ++ ys) f.left in
      let stamped : e'.state.seq ≡ part.seq =
        ap (λ (h : HotState). h.seq) ((settle-state c s px r.engine).0) ∙ f.seq in
      record {
        events = part.events;
        published = settle_level-published c s px r.engine ∙ f.published;
        meaning =
            ap (λ os. match_orders policy m s os remaining e.state.seq) (resting-best px e v best)
            ∙ match_orders-append policy m s (orders_at e s px) ys remaining e.state.seq
                (orders_at-AllCross c policy m s px e ((v.sides s).sound px).owned reached)
            ∙ finished part ys over
            ∙ (rw (now, stamped, f.some_left) refl);
        cfg = (settle-state c s px r.engine).1 ∙ f.frame.cfg;
        other =
            settle-other c s px r.engine
            ∙ other_side c s px e r.engine f.frame (match_level-SameTop c n m s px e remaining).2
                (v.sides (opposite s));
      }

  still-spent :
      (e : Engine) (remaining : ℕ)
      → remaining ≡ 0
      → still e remaining ≡ unmatched (resting c e s) remaining e.state.seq
  still-spent e remaining z = rw z (match_orders-none policy m s (resting c e s) e.state.seq)

  still-empty :
      (e : Engine) (remaining : ℕ)
      → BookInv c e.book
      → (side_of s e.book).best ≡ none
      → still e remaining ≡ unmatched (resting c e s) remaining e.state.seq
  unfolding match_orders resting
  still-empty e remaining v e0 =
      let nothing : resting c e s ≡ [] =
        orders_on-nothing (orders_at e s) (ladder s c.ticks)
          (λ q. unmarked c e s q (v.sides s) ((v.sides s).best_is.none_set e0 q)) in
      rw nothing refl

  still-apart :
      (px : ℕ) (e : Engine) (remaining : ℕ)
      → BookInv c e.book
      → (side_of s e.book).best ≡ some px
      → crosses (opposite s) m.px px ≡ false
      → still e remaining ≡ unmatched (resting c e s) remaining e.state.seq
  unfolding match_orders
  still-apart px e remaining v best apart =
      let marked = (v.sides s).best_is.is_set px best in
      let (o, os, first, price) =
        orders_at-first c e s px ((v.sides s).sound px).owned
          (ground (arith, marked, (v.sides s).populated px)) in
      let whole : resting c e s ≡ o ∷ (os ++ behind px e v best) =
        resting-best px e v best ∙ ap (λ (xs : List Order). xs ++ behind px e v best) first in
      let far : crosses (opposite s) m.px o.px ≡ false =
        ap (crosses (opposite s) m.px) price ∙ apart in
      elim (Bool-cases (remaining == 0)) [
        | inl z ↦ rw (whole, match_orders, z) refl
        | inr more ↦ rw (whole, match_orders, more, far) refl
      ]

  -- The engine publishes what the reference says, and leaves what it leaves.
  pub record Refines (e : Engine) (remaining : ℕ) (r : Engine × ℕ) : Type 0 where
    pub published : r.0.published ≡ e.published ++ (still e remaining).events
    pub left : resting c r.0 s ≡ (still e remaining).left
    pub some_left : r.1 ≡ (still e remaining).remaining
    pub seq : r.0.state.seq ≡ (still e remaining).seq
    pub other : resting c r.0 (opposite s) ≡ resting c e (opposite s)

  stops :
      (e : Engine) (remaining : ℕ)
      → still e remaining ≡ unmatched (resting c e s) remaining e.state.seq
      → Refines e remaining (e, remaining)
  stops e remaining h = record {
    published =
        sym (append-nil e.published) ∙ ap (λ (t : Matched). e.published ++ t.events) (sym h);
    left = ap (λ (t : Matched). t.left) (sym h);
    some_left = ap (λ (t : Matched). t.remaining) (sym h);
    seq = ap (λ (t : Matched). t.seq) (sym h);
    other = refl;
  }

  rounds :
      (e e' : Engine) (remaining remaining' : ℕ) (r : Engine × ℕ)
      → IsRound e remaining e' remaining'
      → Refines e' remaining' r
      → Refines e remaining r
  rounds e e' remaining remaining' r st f = record {
    published =
        f.published
        ∙ ap (λ (evs : List Event). evs ++ (still e' remaining').events) st.published
        ∙ append_assoc e.published st.events (still e' remaining').events
        ∙ ap (λ (t : Matched). e.published ++ t.events) (sym st.meaning);
    left = f.left ∙ ap (λ (t : Matched). t.left) (sym st.meaning);
    some_left = f.some_left ∙ ap (λ (t : Matched). t.remaining) (sym st.meaning);
    seq = f.seq ∙ ap (λ (t : Matched). t.seq) (sym st.meaning);
    other = f.other ∙ st.other;
  }

  -- The loop ends at once where nothing is left of the aggressor.
  pub match-spent :
      (n : ℕ) (e : Engine) (remaining : ℕ)
      → remaining ≡ 0
      → match_against_opposite c n m s e remaining ≡ (e, remaining)
  unfolding match_against_opposite
  match-spent zero e remaining z = refl
  match-spent (suc n) e remaining z =
      let done : ltb 0 remaining ≡ false = ground arith in rw (match_against_opposite, done) refl

  match-Refines :
      (n : ℕ) (e : Engine) (remaining : ℕ)
      → l3_words c.ticks ≤ 1
      → BookInv c e.book
      → e.cfg.self_cross ≡ policy
      → rounds_left c s (side_of s e.book).best < n
      → Refines e remaining (match_against_opposite c n m s e remaining)
  unfolding match_against_opposite
  match-Refines zero e remaining fits v same enough = absurd (omega arith)
  match-Refines (suc n) e remaining fits v same enough = elim (Bool-cases (ltb 0 remaining)) [
    | inr done ↦
        rw (match_against_opposite, done)
          (stops e remaining (still-spent e remaining (ground arith)))
    | inl more ↦ elim (Option-cases (side_of s e.book).best) [
      | inl e0 ↦
          rw (match_against_opposite, more, e0) (stops e remaining (still-empty e remaining v e0))
      | inr (px, best) ↦ elim (Bool-cases (crosses (opposite s) m.px px)) [
        | inr apart ↦
            rw (match_against_opposite, more, best, apart)
              (stops e remaining (still-apart px e remaining v best apart))
        | inl reached ↦
            let k = level_rounds c e s px in
            let r = match_level c k m s px e remaining in
            let e' = settle_level c s px r.engine in
            let matching =
              match_level-BookMatching c k m s px e remaining (start_BookMatching c s px best v) in
            let kept = match_level-SameTop c k m s px e remaining in
            let round = level-IsRound px e remaining v best reached same in
            elim (Bool-cases r.aborted) [
              | inl stop ↦
                  rw (more, best, reached, stop, match_against_opposite)
                    (rounds e e' remaining r.remaining (e', r.remaining) round
                      (stops e' r.remaining (
                        still-spent e' r.remaining
                          (match_level-aborted c k m s px e remaining stop))))
              | inr on ↦
                  let later : Refines e' r.remaining
                      (match_against_opposite c n m s e' r.remaining) =
                    elim (match_level-IsSettled c k m s px e remaining (omega arith)) [
                      | inl none_left ↦
                          subst (Refines e' r.remaining)
                            (sym (match-spent n e' r.remaining none_left))
                            (stops e' r.remaining (still-spent e' r.remaining none_left))
                      | inr run_out ↦
                          match-Refines n e' r.remaining fits
                            (settle_level-BookInv c s px r.engine fits matching)
                            (ap (λ (g : EngineConfig). g.self_cross) round.cfg ∙ same)
                            (omega (
                              arith,
                              settled_rounds c s px r.engine fits matching (kept.0 ∙ best)
                                  (best_on_ladder c s px (v.sides s) best) run_out,
                              ap (rounds_left c s) best,
                            ))
                    ] in
                  rw (more, best, reached, on, match_against_opposite)
                    (rounds e e' remaining r.remaining _ round later)
            ]
      ]
    ]
  ]

-- On a sound book with at most four bitmap tiers, matching publishes exactly the events of
-- matching the orders of the opposite side one after the other, best price first and in order of
-- arrival within a price, under the engine's self-cross policy; what it leaves of the aggressor,
-- of those orders and of the sequence numbers is what that leaves, and the orders of the other
-- side are as they were.
pub match_against_opposite_refines :
    (c : Template) (m : SubmitMsg) (s : Side) (e : Engine) (remaining : ℕ)
    → l3_words c.ticks ≤ 1
    → BookInv c e.book
    → let r = match_against_opposite c (c.ticks + 1) m s e remaining in
      let t = match_orders e.cfg.self_cross m s (resting c e s) remaining e.state.seq in
      (r.0.published ≡ e.published ++ t.events)
      × (resting c r.0 s ≡ t.left)
      × (r.1 ≡ t.remaining)
      × (r.0.state.seq ≡ t.seq)
      × (resting c r.0 (opposite s) ≡ resting c e (opposite s))
match_against_opposite_refines c m s e remaining fits v =
    let f =
      match-Refines c e.cfg.self_cross m s (c.ticks + 1) e remaining fits v refl
        (start_rounds c s (v.sides s)) in
    (f.published, f.left, f.some_left, f.seq, f.other)
