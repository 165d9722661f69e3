-- ===== src/Engine/Fok/Enough.antt =====
-- What `can_fully_fill_` of include/lob/engine.hpp promises: whether the orders that an aggressor reaches,
-- in the order in which it meets them, trade all of its quantity.
use orderbooks.Prelude.{
  ℕ, ◌+◌, ◌-◌, ◌≤◌, ◌≡◌, ◌==◌, leb, min, Bool, true, false, not, if◌then◌else◌, List, [], ◌∷◌, ◌++◌,
  refl, Bool-cases, inl, inr, arith,
}
use orderbooks.Prelude.Word.{add_u64}
use orderbooks.Types.{
  Order, Side, opposite, SelfCrossPolicy, cancel_newest, cancel_oldest, decrement_trade,
}
use orderbooks.Messages.{SubmitMsg, Event}
use orderbooks.Engine.Match.{crosses}
use orderbooks.Engine.Traded.{traded}
use orderbooks.Engine.Priority.{
  Matched, is_own, match_orders, match_orders-none, take_from, meet_own, fill_events,
  self_trade_events,
}

-- The quantity of the orders.
abbrev pub volume : List Order → ℕ
volume [] = 0
volume (o ∷ os) = o.remaining + volume os

pub traded-append_all : (xs ys : List Event) → traded (xs ++ ys) ≡ traded xs + traded ys
traded-append_all [] ys = omega arith
traded-append_all (x ∷ xs) ys = omega (arith, traded-append_all xs ys)

module _ (policy : SelfCrossPolicy) (m : SubmitMsg) (s : Side) (want : ℕ) where
  -- An order of the aggressor's own account.
  abbrev pub meet : SelfCrossPolicy → Bool → Bool → Bool
  meet cancel_newest skipped counted = false
  meet cancel_oldest skipped counted = skipped
  meet decrement_trade skipped counted = counted

  -- Whether the orders supply what is wanted, where `total` has been found before them.
  unfoldable pub is_enough : List Order → ℕ → Bool
  is_enough [] total = leb want total
  is_enough (o ∷ os) total =
      let skipped = is_enough os total in
      let more = is_enough os (total + o.remaining) in
      let counted = if leb want (total + o.remaining) then true else more in
      if not (crosses (opposite s) m.px o.px)
      then leb want total
      else if is_own m o
      then meet policy skipped counted
      else counted

  take_from-traded :
      (o : Order) (os : List Order) (total seq : ℕ) (evs : ℕ → List Event) (rest : Matched)
      → total ≤ want
      → ((q : ℕ) → traded (evs q) ≡ q)
      → (total + o.remaining ≤ want → traded rest.events ≡ want - (total + o.remaining))
      → traded (take_from o os (want - total) seq evs rest).events ≡ want - total
  take_from-traded o os total seq evs rest le q_each later =
      elim (Bool-cases (leb o.remaining (want - total))) [
        | inl drained ↦ rw drained (
            omega (
              arith,
              traded-append_all (evs (min (want - total) o.remaining)) rest.events,
              q_each (min (want - total) o.remaining),
              later (ground arith),
              drained,
            ))
        | inr stays ↦ rw stays (ground (arith, q_each (min (want - total) o.remaining)))
      ]

  -- The orders from one place on supply what is wanted, and trade it.
  abbrev IsTraded : List Order → ℕ → Type 0
  IsTraded os total =
      (seq : ℕ)
      → total ≤ want
      → is_enough os total ≡ true
      → traded (match_orders policy m s os (want - total) seq).events ≡ want - total

  counted-traded :
      (o : Order) (os : List Order) (total seq stamp : ℕ) (evs : ℕ → List Event)
      → total ≤ want
      → ((q : ℕ) → traded (evs q) ≡ q)
      → IsTraded os (total + o.remaining)
      → (if leb want (total + o.remaining) then true else is_enough os (total + o.remaining)) ≡ true
      → let rest =
          match_orders policy m s os (want - total - min (want - total) o.remaining) stamp in
        traded (take_from o os (want - total) seq evs rest).events ≡ want - total
  counted-traded o os total seq stamp evs le q_each ih h =
      take_from-traded o os total seq evs
        (match_orders policy m s os (want - total - min (want - total) o.remaining) stamp) le q_each
        λ fits.
          let left : want - total - min (want - total) o.remaining ≡ want - (total + o.remaining) =
            omega (arith, fits) in
          rw left (elim (Bool-cases (leb want (total + o.remaining))) [
            | inl all ↦
                let z : want - (total + o.remaining) ≡ 0 = ground (arith, all) in
                rw (z, match_orders-none policy m s os stamp) refl
            | inr some_left ↦ ih stamp fits (rw some_left at h)
          ])

  meet-traded :
      (by : SelfCrossPolicy) (o : Order) (os : List Order) (total seq : ℕ)
      → total ≤ want
      → IsTraded os total
      → IsTraded os (total + o.remaining)
      → let more = is_enough os (total + o.remaining) in
        let left = want - total - min (want - total) o.remaining in
        let stamp = add_u64 seq 1 in
        meet by (is_enough os total) (if leb want (total + o.remaining) then true else more) ≡ true
        → traded
            (meet_own policy m s by o os
              (want - total)
              seq
              (match_orders policy m s os (want - total) seq)
              (match_orders policy m s os left stamp)).events
          ≡ want - total
  meet-traded cancel_newest o os total seq le skip ih h = cc
  meet-traded cancel_oldest o os total seq le skip ih h = skip seq le h
  meet-traded decrement_trade o os total seq le skip ih h =
      counted-traded o os total seq (add_u64 seq 1) (λ q. self_trade_events m o q (add_u64 seq 1))
        le (λ q. omega arith) ih h

  -- Orders that supply what is wanted trade it.
  pub is_enough-IsTraded : (os : List Order) (total : ℕ) → IsTraded os total
  unfolding is_enough match_orders
  is_enough-IsTraded [] total seq le enough = ground arith
  is_enough-IsTraded (o ∷ os) total seq le enough =
      let skip = is_enough-IsTraded os total in
      let ih = is_enough-IsTraded os (total + o.remaining) in
      elim (Bool-cases (want - total == 0)) [
        | inl z ↦ rw (match_orders, z) (ground arith)
        | inr more ↦ elim (Bool-cases (crosses (opposite s) m.px o.px)) [
          | inr far ↦
              let reached : leb want total ≡ true = rw (is_enough, far) at enough in
              absurd (ground arith)
          | inl near ↦ elim (Bool-cases (is_own m o)) [
            | inl own ↦
                rw (match_orders, more, near, own)
                  (meet-traded policy o os total seq le skip ih
                    (rw (is_enough, near, own) at enough))
            | inr other ↦
                rw (match_orders, more, near, other)
                  (counted-traded o os total seq (add_u64 seq 1)
                    (λ q. fill_events m o q (add_u64 seq 1)) le (λ q. omega arith) ih
                    (rw (is_enough, near, other) at enough))
          ]
        ]
      ]
