-- ===== src/Engine/Fok/Verdict.antt =====
-- include/lob/engine.hpp: `can_fully_fill_` walks the levels of the opposite side from the best on.
use orderbooks.Prelude.{
  ℕ, zero, suc, ◌+◌, ◌<◌, ◌≤◌, ◌≡◌, ◌≢◌, ◌^◌, ◌&&◌, not, leb, Bool, List, [], ◌∷◌, ◌++◌, refl, sym,
  ap, ◌∙◌, Bool-cases, Option, Option-cases, none, some, true, false, inl, inr, arith,
}
use orderbooks.Types.{Side, bid, ask, opposite, Order, Template}
use orderbooks.Messages.{SubmitMsg}
use orderbooks.Bitmap.{l3_words, test}
use orderbooks.Bitmap.Extremes.{test_reads}
use orderbooks.BookSide.{side_of, is_better}
use orderbooks.BookSide.Invariant.{SideInv}
use orderbooks.Engine.{Engine}
use orderbooks.Engine.Match.{crosses}
use orderbooks.Engine.Invariant.{BookInv}
use orderbooks.Engine.Termination.{rounds_left, behind_rounds, best_on_ladder, start_rounds}
use orderbooks.Engine.Fok.{Walk, within, consume_level, next_level, walk_levels, can_fully_fill}
use orderbooks.Engine.Fok.Enough.{volume, is_enough}
use orderbooks.Engine.Fok.Levels.{consume_level-IsWalked}
use orderbooks.Engine.Fok.Ahead.{next_level-test, beyond, orders_on-beyond, ahead_trans}
use orderbooks.Engine.Priority.Ladder.{ladder, orders_on, orders_on-nothing}
use orderbooks.Engine.Priority.Effects.{orders_at}
use orderbooks.Engine.Priority.Resting.{resting, unmarked, orders_at-AllCross, orders_at-first}

volume-append : (xs ys : List Order) → volume (xs ++ ys) ≡ volume xs + volume ys
volume-append [] ys = omega arith
volume-append (x ∷ xs) ys = omega (arith, volume-append xs ys)

within-crosses : (s : Side) (px a : ℕ) → within s px a ≡ crosses (opposite s) a px
within-crosses bid px a = ground arith
within-crosses ask px a = ground arith

ne_of_better : (s : Side) (px k : ℕ) → is_better s px k ≡ true → k ≢ px
ne_of_better bid px k h = ground arith
ne_of_better ask px k h = ground arith

not_better : (s : Side) (px k : ℕ) → is_better s px k ≡ true → is_better s k px ≡ false
not_better bid px k h = ground arith
not_better ask px k h = ground arith

abbrev verdict : ℕ → Walk → Bool
verdict want w = not w.aborted && leb want w.total

module _ (c : Template) (m : SubmitMsg) (s : Side) (e : Engine) (want : ℕ)
    (v : SideInv c.ticks s e.book.arena.slots (side_of s e.book))
    (fits : l3_words c.ticks ≤ 1) where
  abbrev enough : List Order → ℕ → Bool
  enough = is_enough e.cfg.self_cross m s want

  abbrev walk : ℕ → Option ℕ → ℕ → Walk
  walk = walk_levels c e s m.px want m.account_id

  -- What rests behind a price.
  abbrev behind : ℕ → List Order
  behind px = orders_on (beyond (orders_at e s) s px) (ladder s c.ticks)

  -- A level that is out of reach has an order, and ends the walk.
  out_of_reach :
      (px total : ℕ) (ys : List Order)
      → test c.ticks (side_of s e.book).bm px ≡ true
      → crosses (opposite s) m.px px ≡ false
      → enough (orders_at e s px ++ ys) total ≡ leb want total
  unfolding is_enough
  out_of_reach px total ys marked far =
      let (o, os, first, price) =
        orders_at-first c e s px (v.sound px).owned (ground (arith, marked, v.populated px)) in
      let far_order : crosses (opposite s) m.px o.px ≡ false =
        ap (crosses (opposite s) m.px) price ∙ far in
      rw (first, is_enough, far_order) refl

  -- Behind the last marked price there is nothing, and behind another the next one is the best.
  behind_last :
      (px : ℕ)
      → ((q : ℕ) → is_better s px q ≡ true → test c.ticks (side_of s e.book).bm q ≡ false)
      → behind px ≡ []
  behind_last px h = orders_on-nothing (beyond (orders_at e s) s px) (ladder s c.ticks) λ q.
      elim (Bool-cases (is_better s px q)) [
        | inl b ↦ rw b (unmarked c e s q v (h q b))
        | inr nb ↦ rw nb refl
      ]

  behind_next :
      (px k : ℕ)
      → is_better s px k ≡ true
      → k < c.ticks
      → ((q : ℕ)
          → is_better s px q ≡ true
          → is_better s q k ≡ true
          → test c.ticks (side_of s e.book).bm q ≡ false)
      → behind px ≡ orders_at e s k ++ behind k
  behind_next px k worse lt between =
      orders_on-beyond (orders_at e s) s (beyond (orders_at e s) s px) c.ticks k lt
        (λ q h. elim (Bool-cases (is_better s px q)) [
          | inl b ↦ rw b (unmarked c e s q v (between q b h))
          | inr nb ↦ rw nb refl
        ])
        (λ q h. rw (ahead_trans s px k q worse h) refl) (rw worse refl)

  marked_on_ladder : (k : ℕ) → test c.ticks (side_of s e.book).bm k ≡ true → k < c.ticks
  marked_on_ladder k h =
      ground (arith, h, test_reads c.ticks (side_of s e.book).bm k, v.bitmap.in_range k)

  walk-none : (n total : ℕ) → verdict want (walk n none total) ≡ leb want total
  unfolding walk_levels
  walk-none zero total = refl
  walk-none (suc n) total = refl

  enough-none : (total : ℕ) → enough [] total ≡ leb want total
  unfolding is_enough
  enough-none total = refl

  -- The walk goes on to the next level.
  goes_on :
      (n px total : ℕ)
      → within s px m.px ≡ true
      → (consume_level e want m.account_id (side_of s e.book) px total).stop ≡ false
      → let b = side_of s e.book in
        walk (suc n) (some px) total
        ≡ walk n (next_level c.ticks s b px) (consume_level e want m.account_id b px total).total
  unfolding walk_levels
  goes_on n px total inside on = rw (inside, on, walk_levels) refl

  stops_here :
      (n px total : ℕ)
      → within s px m.px ≡ true
      → (consume_level e want m.account_id (side_of s e.book) px total).stop ≡ true
      → walk (suc n) (some px) total ≡ consume_level e want m.account_id (side_of s e.book) px total
  unfolding walk_levels
  stops_here n px total inside stop = rw (inside, stop, walk_levels) refl

  ends_before :
      (n px total : ℕ)
      → within s px m.px ≡ false
      → verdict want (walk (suc n) (some px) total) ≡ leb want total
  unfolding walk_levels
  ends_before n px total past = rw (past, walk_levels) refl

  walk_levels-verdict :
      (n px total : ℕ)
      → total < want
      → test c.ticks (side_of s e.book).bm px ≡ true
      → rounds_left c s (some px) < n
      → total + volume (orders_at e s px ++ behind px) < 2 ^ 64
      → verdict want (walk n (some px) total) ≡ enough (orders_at e s px ++ behind px) total
  unfolding orders_at
  walk_levels-verdict zero px total lt marked rounds few = absurd (omega arith)
  walk_levels-verdict (suc n) px total lt marked rounds few =
      let b = side_of s e.book in
      let here = consume_level e want m.account_id b px total in
      let split = volume-append (orders_at e s px) (behind px) in
      let reach = within-crosses s px m.px in
      elim (Bool-cases (crosses (opposite s) m.px px)) [
        | inr far ↦
            ends_before n px total (reach ∙ far)
            ∙ sym (out_of_reach px total (behind px) marked far)
        | inl near ↦
            let w =
              consume_level-IsWalked m s e want b px (behind px) total (v.sound px).summed
                (orders_at-AllCross c e.cfg.self_cross m s px e (v.sound px).owned near) lt
                (omega (arith, few, split)) in
            elim (Bool-cases here.stop) [
              | inl stop ↦
                  ap (verdict want) (stops_here n px total (reach ∙ near) stop)
                  ∙ sym (rw stop at w.verdict)
              | inr on ↦
                  let (short, _, le) = w.goes_on on in
                  ap (verdict want) (goes_on n px total (reach ∙ near) on)
                  ∙ elim (next_level-test c.ticks s b px v.bitmap fits
                      (marked_on_ladder px marked)) [
                        | inl (e0, nothing) ↦
                            ap (λ k. verdict want (walk n k here.total)) e0
                            ∙ walk-none n here.total
                            ∙ sym (
                                ap (λ ys. enough ys here.total) (behind_last px nothing)
                                ∙ enough-none here.total)
                        | inr (k, e1, worse, marked_k, between) ↦
                            let next =
                              behind_next px k worse (marked_on_ladder k marked_k) between in
                            ap (λ k. verdict want (walk n k here.total)) e1
                            ∙ walk_levels-verdict n k here.total short marked_k
                                (omega (
                                  arith,
                                  behind_rounds c s k px (ne_of_better s px k worse)
                                      (not_better s px k worse) (marked_on_ladder px marked),
                                  rounds,
                                ))
                                (omega (arith, few, split, le, ap volume next))
                            ∙ ap (λ ys. enough ys here.total) (sym next)
                      ]
                  ∙ sym (rw on at w.verdict)
            ]
      ]

-- On a sound book with at most four bitmap tiers, where something is wanted and all that rests on
-- the side that is walked fits 64 bits, can_fully_fill_ answers whether the orders of that side,
-- read one by one, best price first and in order of arrival within a price, supply the quantity
-- under the self-cross policy.
pub can_fully_fill-is_enough :
    (c : Template) (m : SubmitMsg) (s : Side) (e : Engine)
    → l3_words c.ticks ≤ 1
    → BookInv c e.book
    → 0 < m.qty
    → volume (resting c e s) < 2 ^ 64
    → can_fully_fill c e s m.px m.qty m.account_id
      ≡ is_enough e.cfg.self_cross m s m.qty (resting c e s) 0
unfolding can_fully_fill resting
can_fully_fill-is_enough c m s e fits v some_wanted few =
    let side = v.sides s in
    let want = m.qty in
    elim (Option-cases (side_of s e.book).best) [
      | inl e0 ↦
          ap (λ k. verdict want (walk_levels c e s m.px want m.account_id (c.ticks + 1) k 0)) e0
          ∙ walk-none c m s e want side fits (c.ticks + 1) 0
          ∙ sym (
              ap (λ ys. is_enough e.cfg.self_cross m s want ys 0)
                (orders_on-nothing (orders_at e s) (ladder s c.ticks)
                  (λ q. unmarked c e s q side (side.best_is.none_set e0 q)))
              ∙ enough-none c m s e want side fits 0)
      | inr (px, best) ↦
          let all : resting c e s ≡ orders_at e s px ++ behind c m s e want side fits px =
            orders_on-beyond (orders_at e s) s (orders_at e s) c.ticks px
              (best_on_ladder c s px side best)
              (λ q h. unmarked c e s q side (side.best_is.none_ahead px q best h)) (λ q h. refl)
              refl in
          ap (λ k. verdict want (walk_levels c e s m.px want m.account_id (c.ticks + 1) k 0)) best
          ∙ walk_levels-verdict c m s e want side fits (c.ticks + 1) px 0 some_wanted
              (side.best_is.is_set px best)
              (omega (arith, start_rounds c s side, ap (rounds_left c s) best))
              (omega (arith, few, ap volume all))
          ∙ ap (λ ys. is_enough e.cfg.self_cross m s want ys 0) (sym all)
    ]
