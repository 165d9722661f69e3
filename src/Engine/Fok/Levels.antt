-- ===== src/Engine/Fok/Levels.antt =====
-- include/lob/engine.hpp: `consume_level` of `can_fully_fill_` reads the orders of its level one by one.
use orderbooks.Prelude.{
  ℕ, ◌+◌, ◌%◌, ◌<◌, ◌≤◌, ◌≡◌, ◌==◌, ◌^◌, leb, Bool, true, false, ◌&&◌, not, if◌then◌else◌, List, [],
  ◌∷◌, ◌++◌, refl, sym, ap, ◌∙◌, Bool-cases, inl, inr, arith,
}
use orderbooks.Prelude.Word.{add_u64}
use orderbooks.Types.{
  Ptr, Order, Side, opposite, SelfCrossPolicy, cancel_newest, cancel_oldest, decrement_trade,
}
use orderbooks.Messages.{SubmitMsg}
use orderbooks.Arena.{Slot}
use orderbooks.BookSide.{BookSide, aggregate_at}
use orderbooks.BookSide.Levels.{total}
use orderbooks.Engine.{Engine, order_at}
use orderbooks.Engine.Match.{crosses}
use orderbooks.Engine.Fok.{
  Walk, walk_fifo, consume_level, all_consumable, is_cancel_newest, is_decrement_trade,
}
use orderbooks.Engine.Fok.Enough.{volume, is_enough, meet}
use orderbooks.Engine.Priority.{is_own, AllCross}
use orderbooks.Engine.Priority.Effects.{orders_in}

pub volume-total : (slots : ℕ → Slot) (ps : List Ptr) → volume (orders_in slots ps) ≡ total slots ps
volume-total slots [] = refl
volume-total slots (p ∷ ps) = omega (arith, volume-total slots ps)

module _ (m : SubmitMsg) (s : Side) (e : Engine) (want : ℕ) where
  abbrev enough : List Order → ℕ → Bool
  enough = is_enough e.cfg.self_cross m s want

  -- What the walk of one level says of the orders before `ys`.
  pub record IsWalked (os ys : List Order) (start : ℕ) (w : Walk) : Type 0 where
    pub verdict :
        enough (os ++ ys) start
        ≡ (if w.stop then not w.aborted && leb want w.total else enough ys w.total)
    pub goes_on :
        w.stop ≡ false → (w.total < want) × (w.aborted ≡ false) × (w.total ≤ start + volume os)

  -- Every order counts.
  counted_meet :
      (by : SelfCrossPolicy) (skipped counted : Bool)
      → is_decrement_trade by ≡ true
      → meet e.cfg.self_cross m s want by skipped counted ≡ counted
  counted_meet cancel_newest skipped counted h = cc
  counted_meet cancel_oldest skipped counted h = cc
  counted_meet decrement_trade skipped counted h = refl

  enough-counted :
      (o : Order) (os : List Order) (start : ℕ)
      → all_consumable e m.account_id ≡ true
      → crosses (opposite s) m.px o.px ≡ true
      → enough (o ∷ os) start
        ≡ (if leb want (start + o.remaining) then true else enough os (start + o.remaining))
  unfolding is_enough
  enough-counted o os start all near = elim (Bool-cases (is_own m o)) [
    | inr other ↦ rw (is_enough, near, other) refl
    | inl own ↦
        rw (is_enough, near, own) (counted_meet e.cfg.self_cross (enough os start) _ (ground arith))
  ]

  all-IsWalked :
      (os ys : List Order) (start : ℕ)
      → all_consumable e m.account_id ≡ true
      → AllCross e.cfg.self_cross m s os
      → start < want
      → enough (os ++ ys) start
        ≡ (if leb want (start + volume os) then true else enough ys (start + volume os))
  all-IsWalked [] ys start all near lt =
      let same : start + 0 ≡ start = omega arith in
      let short : leb want start ≡ false = ground arith in rw (same, short) refl
  all-IsWalked (o ∷ os) ys start all (near, later) lt =
      let sum : start + o.remaining + volume os ≡ start + (o.remaining + volume os) = omega arith in
      enough-counted o (os ++ ys) start all near
      ∙ elim (Bool-cases (leb want (start + o.remaining))) [
        | inl here ↦
            let still : leb want (start + (o.remaining + volume os)) ≡ true = ground arith in
            rw (here, still) refl
        | inr short ↦ rw short (
            all-IsWalked os ys (start + o.remaining) all later (ground arith)
            ∙ ap (λ v. if leb want v then true else enough ys v) sum)
      ]

  -- An aggressor whose account makes a difference.
  own_account :
      (o : Order)
      → all_consumable e m.account_id ≡ false
      → is_own m o ≡ (o.account_id == m.account_id)
  own_account o some_own = ground arith

  meet_cancel :
      (by : SelfCrossPolicy) (skipped counted : Bool)
      → is_decrement_trade by ≡ false
      → meet e.cfg.self_cross m s want by skipped counted
        ≡ (if is_cancel_newest by then false else skipped)
  meet_cancel cancel_newest skipped counted h = refl
  meet_cancel cancel_oldest skipped counted h = refl
  meet_cancel decrement_trade skipped counted h = cc

  -- An order of the aggressor's account that it does not trade with.
  enough-own :
      (o : Order) (os : List Order) (start : ℕ)
      → all_consumable e m.account_id ≡ false
      → crosses (opposite s) m.px o.px ≡ true
      → o.account_id == m.account_id ≡ true
      → enough (o ∷ os) start
        ≡ (if is_cancel_newest e.cfg.self_cross then false else enough os start)
  unfolding is_enough
  enough-own o os start some_own near own =
      let mine : is_own m o ≡ true = own_account o some_own ∙ own in
      let met =
        meet_cancel e.cfg.self_cross (enough os start)
          (if leb want (start + o.remaining) then true else enough os (start + o.remaining))
          (ground (arith, some_own)) in
      rw (is_enough, near, mine) met

  enough-other :
      (o : Order) (os : List Order) (start : ℕ)
      → all_consumable e m.account_id ≡ false
      → crosses (opposite s) m.px o.px ≡ true
      → o.account_id == m.account_id ≡ false
      → enough (o ∷ os) start
        ≡ (if leb want (start + o.remaining) then true else enough os (start + o.remaining))
  unfolding is_enough
  enough-other o os start some_own near other =
      let not_mine : is_own m o ≡ false = own_account o some_own ∙ other in
      rw (is_enough, near, not_mine) refl

  -- The order at the front is passed by.
  passes :
      (o : Order) (os ys : List Order) (start : ℕ) (w : Walk)
      → enough (o ∷ (os ++ ys)) start ≡ enough (os ++ ys) start
      → IsWalked os ys start w
      → IsWalked (o ∷ os) ys start w
  passes o os ys start w same v = record {
    verdict = same ∙ v.verdict;
    goes_on = λ h. let (short, on, le) = v.goes_on h in (short, on, omega (arith, le));
  }

  -- The order at the front is counted, and does not suffice.
  counts :
      (o : Order) (os ys : List Order) (start : ℕ) (w : Walk)
      → enough (o ∷ (os ++ ys)) start ≡ enough (os ++ ys) (start + o.remaining)
      → IsWalked os ys (start + o.remaining) w
      → IsWalked (o ∷ os) ys start w
  counts o os ys start w same v = record {
    verdict = same ∙ v.verdict;
    goes_on = λ h. let (short, on, le) = v.goes_on h in (short, on, omega (arith, le));
  }

  -- The walk ends with its verdict.
  ends_walk :
      (os ys : List Order) (start n : ℕ) (aborted : Bool)
      → enough (os ++ ys) start ≡ (not aborted && leb want n)
      → IsWalked os ys start (record { total = n; aborted = aborted; stop = true })
  ends_walk os ys start n aborted h = record { verdict = h; goes_on = λ h. cc }

  -- The level's aggregate is added.
  read_whole :
      (os ys : List Order) (start : ℕ)
      → all_consumable e m.account_id ≡ true
      → AllCross e.cfg.self_cross m s os
      → start < want
      → let n = start + volume os in
        IsWalked os ys start (record { total = n; aborted = false; stop = leb want n })
  read_whole os ys start all near lt =
      let n = start + volume os in
      let read = all-IsWalked os ys start all near lt in
      elim (Bool-cases (leb want n)) [
        | inl here ↦ rw here (ends_walk os ys start n false (rw here at read ∙ sym here))
        | inr short ↦ rw short (record {
          verdict = rw short at read;
          goes_on = λ h. (ground (arith, short), refl, omega arith);
        })
      ]

  walk_fifo-IsWalked :
      (ps : List Ptr) (ys : List Order) (start : ℕ)
      → all_consumable e m.account_id ≡ false
      → AllCross e.cfg.self_cross m s (orders_in e.book.arena.slots ps)
      → start < want
      → start + volume (orders_in e.book.arena.slots ps) < 2 ^ 64
      → IsWalked (orders_in e.book.arena.slots ps) ys start (walk_fifo e want m.account_id ps start)
  unfolding walk_fifo
  walk_fifo-IsWalked [] ys start some_own near lt fits = record {
    verdict = refl;
    goes_on = λ _. (lt, refl, omega arith);
  }
  walk_fifo-IsWalked (p ∷ ps) ys start some_own (near, later) lt fits =
      let o = order_at e p in
      let os = orders_in e.book.arena.slots ps in
      let more = start + o.remaining in
      let sum : add_u64 start o.remaining ≡ more = omega (arith, fits) in
      elim (Bool-cases (o.account_id == m.account_id)) [
        | inl own ↦
            let met = enough-own o (os ++ ys) start some_own near own in
            elim (Bool-cases (is_cancel_newest e.cfg.self_cross)) [
              | inl newest ↦
                  rw (own, newest, walk_fifo)
                    (ends_walk (o ∷ os) ys start start true (rw newest at met))
              | inr oldest ↦
                  rw (own, oldest, walk_fifo)
                    (passes o os ys start (walk_fifo e want m.account_id ps start)
                      (rw oldest at met)
                      (walk_fifo-IsWalked ps ys start some_own later lt (omega (arith, fits))))
            ]
        | inr other ↦
            let met = enough-other o (os ++ ys) start some_own near other in
            elim (Bool-cases (leb want more)) [
              | inl here ↦
                  rw (other, sum, here, walk_fifo)
                    (ends_walk (o ∷ os) ys start more false ((rw here at met) ∙ sym here))
              | inr short ↦
                  rw (other, sum, short, walk_fifo)
                    (counts o os ys start (walk_fifo e want m.account_id ps more) (rw short at met)
                      (walk_fifo-IsWalked ps ys more some_own later (ground arith)
                        (omega (arith, fits))))
            ]
      ]

  -- A level whose price is within reach is read whole.
  pub consume_level-IsWalked :
      (b : BookSide) (px : ℕ) (ys : List Order) (start : ℕ)
      → (b.levels px).aggregate ≡ total e.book.arena.slots (b.levels px).fifo % 2 ^ 64
      → AllCross e.cfg.self_cross m s (orders_in e.book.arena.slots (b.levels px).fifo)
      → start < want
      → start + volume (orders_in e.book.arena.slots (b.levels px).fifo) < 2 ^ 64
      → IsWalked
          (orders_in e.book.arena.slots (b.levels px).fifo)
          ys
          start
          (consume_level e want m.account_id b px start)
  unfolding consume_level
  consume_level-IsWalked b px ys start summed near lt fits =
      let ps = (b.levels px).fifo in
      let os = orders_in e.book.arena.slots ps in
      elim (Bool-cases (all_consumable e m.account_id)) [
        | inr some_own ↦
            rw (some_own, consume_level) (walk_fifo-IsWalked ps ys start some_own near lt fits)
        | inl all ↦
            let sum : add_u64 start (aggregate_at b px) ≡ start + volume os =
              omega (arith, summed, fits, volume-total e.book.arena.slots ps) in
            rw (all, sum, consume_level) (read_whole os ys start all near lt)
      ]
