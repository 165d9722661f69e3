-- ===== src/Engine/Priority.antt =====
-- What `match_against_opposite_` of include/lob/engine.hpp promises: the orders of one side, best price
-- first and in order of arrival within a price, are one list, and an aggressor is matched down that list.
pub mod Ladder
pub mod Effects
pub mod Round
pub mod Loop
pub mod Resting
pub mod Refine
pub mod Insert
pub mod Rest
pub mod Without
pub mod Cancel
pub mod Lists
pub mod Tally
pub mod Submit
use orderbooks.Prelude.{
  ℕ, zero, suc, ◌+◌, ◌-◌, ◌==◌, ltb, leb, min, Bool, true, false, ◌&&◌, not, if◌then◌else◌, List,
  [], ◌∷◌, ◌++◌, ◌≡◌, refl, sym, ap, ◌∙◌, ==_iff, All, append_assoc, append-nil, Bool-cases, inl,
  inr, arith,
}
use orderbooks.Prelude.Word.{add_u64}
use orderbooks.Types.{
  Order, Side, opposite, SelfCrossPolicy, cancel_newest, cancel_oldest, decrement_trade,
}
use orderbooks.Messages.{SubmitMsg, Event, fill, trade, self_trade}
use orderbooks.Engine.Match.{crosses}

-- The events, what is left of the aggressor and of the resting orders, and the last sequence number.
pub record Matched : Type 0 where
  pub events : List Event
  pub remaining : ℕ
  pub left : List Order
  pub seq : ℕ

abbrev pub unmatched : List Order → ℕ → ℕ → Matched
unmatched os remaining seq = record { events = []; remaining = remaining; left = os; seq = seq }

abbrev pub after_events : List Event → Matched → Matched
after_events evs r = record r { events = evs ++ r.events }

-- The aggressor and the resting order belong to one account.
abbrev pub is_own : SubmitMsg → Order → Bool
is_own m o = not (m.account_id == 0) && o.account_id == m.account_id

abbrev pub fill_events : SubmitMsg → Order → ℕ → ℕ → List Event
fill_events m o q seq =
    fill (record { maker = o.id; taker = m.id; px = o.px; qty = q; seq = seq })
    ∷ trade (record { px = o.px; qty = q; seq = seq })
    ∷ []

abbrev pub self_trade_events : SubmitMsg → Order → ℕ → ℕ → List Event
self_trade_events m o q seq =
    self_trade (record {
      aggressor = m.id;
      resting = o.id;
      account = m.account_id;
      px = o.px;
      qty = q;
      seq = seq;
    })
    ∷ []

-- The lesser quantity is taken from both. An order with none left makes way for the next one.
abbrev pub take_from : Order → List Order → ℕ → ℕ → (ℕ → List Event) → Matched → Matched
take_from o os remaining seq evs rest =
    let q = min remaining o.remaining in
    if leb o.remaining remaining then after_events (evs q) rest else record {
      events = evs q;
      remaining = 0;
      left = record o { remaining = o.remaining - q } ∷ os;
      seq = add_u64 seq 1;
    }

module _ (policy : SelfCrossPolicy) (m : SubmitMsg) (s : Side) where
  -- An aggressor that meets an order of its own account.
  abbrev pub meet_own : SelfCrossPolicy → Order → List Order → ℕ → ℕ → Matched → Matched → Matched
  meet_own cancel_newest o os remaining seq skipped rest = unmatched (o ∷ os) 0 seq
  meet_own cancel_oldest o os remaining seq skipped rest = skipped
  meet_own decrement_trade o os remaining seq skipped rest =
      take_from o os remaining seq (λ q. self_trade_events m o q (add_u64 seq 1)) rest

  -- `s` is the side of the resting orders.
  unfoldable pub match_orders : List Order → ℕ → ℕ → Matched
  match_orders [] remaining seq = unmatched [] remaining seq
  match_orders (o ∷ os) remaining seq =
      let skipped = match_orders os remaining seq in
      let rest = match_orders os (remaining - min remaining o.remaining) (add_u64 seq 1) in
      if remaining == 0
      then unmatched (o ∷ os) remaining seq
      else if not (crosses (opposite s) m.px o.px)
      then unmatched (o ∷ os) remaining seq
      else if is_own m o
      then meet_own policy o os remaining seq skipped rest
      else take_from o os remaining seq (λ q. fill_events m o q (add_u64 seq 1)) rest

  pub match_orders-none : (os : List Order) (seq : ℕ) → match_orders os 0 seq ≡ unmatched os 0 seq
  unfolding match_orders
  match_orders-none [] seq = refl
  match_orders-none (o ∷ os) seq = refl

  -- `ys` behind a list that has been matched.
  abbrev pub go_on : Matched → List Order → Matched
  go_on r ys =
      let t = match_orders ys r.remaining r.seq in
      record {
        events = r.events ++ t.events;
        remaining = t.remaining;
        left = r.left ++ t.left;
        seq = t.seq;
      }

  after_events-go_on :
      (evs : List Event) (r : Matched) (ys : List Order)
      → go_on (after_events evs r) ys ≡ after_events evs (go_on r ys)
  after_events-go_on evs r ys =
      ap (λ (es : List Event). record (go_on r ys) { events = es })
        (append_assoc evs r.events (match_orders ys r.remaining r.seq).events)

  -- Where nothing is left of the aggressor, what is behind is left.
  spent-go_on :
      (evs : List Event) (xs ys : List Order) (seq : ℕ)
      → go_on (record { events = evs; remaining = 0; left = xs; seq = seq }) ys
        ≡ record { events = evs; remaining = 0; left = xs ++ ys; seq = seq }
  spent-go_on evs xs ys seq = rw (match_orders-none ys seq) (
      ap (λ (es : List Event). record { events = es; remaining = 0; left = xs ++ ys; seq = seq })
        (append-nil evs))

  take_from-append :
      (o : Order) (os ys : List Order) (remaining seq : ℕ) (evs : ℕ → List Event) (r r' : Matched)
      → r' ≡ go_on r ys
      → take_from o (os ++ ys) remaining seq evs r' ≡ go_on (take_from o os remaining seq evs r) ys
  take_from-append o os ys remaining seq evs r r' e =
      elim (Bool-cases (leb o.remaining remaining)) [
        | inl drained ↦
            let q = min remaining o.remaining in
            rw (drained, e) (sym (after_events-go_on (evs q) r ys))
        | inr stays ↦
            let q = min remaining o.remaining in
            rw stays (
              sym (
                spent-go_on (evs q) (record o { remaining = o.remaining - q } ∷ os) ys
                  (add_u64 seq 1)))
      ]

  abbrev pub AllCross : List Order → Type 0
  AllCross = All (λ o. crosses (opposite s) m.px o.px ≡ true)

  meet_own-append :
      (p : SelfCrossPolicy) (o : Order) (os ys : List Order) (remaining seq : ℕ)
      (skipped skipped' rest rest' : Matched)
      → skipped' ≡ go_on skipped ys
      → rest' ≡ go_on rest ys
      → meet_own p o (os ++ ys) remaining seq skipped' rest'
        ≡ go_on (meet_own p o os remaining seq skipped rest) ys
  meet_own-append cancel_newest o os ys remaining seq skipped skipped' rest rest' e e' =
      sym (spent-go_on [] (o ∷ os) ys seq)
  meet_own-append cancel_oldest o os ys remaining seq skipped skipped' rest rest' e e' = e
  meet_own-append decrement_trade o os ys remaining seq skipped skipped' rest rest' e e' =
      take_from-append o os ys remaining seq (λ q. self_trade_events m o q (add_u64 seq 1)) rest
        rest' e'

  -- Orders that the aggressor reaches are matched before those behind them.
  pub match_orders-append :
      (xs ys : List Order) (remaining seq : ℕ)
      → AllCross xs
      → match_orders (xs ++ ys) remaining seq ≡ go_on (match_orders xs remaining seq) ys
  unfolding match_orders
  match_orders-append [] ys remaining seq reached = refl
  match_orders-append (o ∷ os) ys remaining seq (here, later) =
      let skip = match_orders-append os ys remaining seq later in
      let next =
        match_orders-append os ys (remaining - min remaining o.remaining) (add_u64 seq 1) later in
      elim (Bool-cases (remaining == 0)) [
        | inl z ↦
            let none_left : remaining ≡ 0 = (==_iff _ _).0 z in
            rw none_left (sym (spent-go_on [] (o ∷ os) ys seq))
        | inr more ↦ elim (Bool-cases (is_own m o)) [
          | inl own ↦
              rw (match_orders, more, here, own)
                (meet_own-append policy o os ys remaining seq _ _ _ _ skip next)
          | inr other ↦
              rw (match_orders, more, here, other)
                (take_from-append o os ys remaining seq (λ q. fill_events m o q (add_u64 seq 1)) _ _
                  next)
        ]
      ]
