-- ===== src/Engine/Priority/Tally.antt =====
-- What the events of a submit tell, for an order without an account: how much it trades, and what becomes
-- of the rest on the lists of `submit_to_lists`.
use orderbooks.Prelude.{
  ℕ, ◌+◌, ◌-◌, ◌<◌, ◌≤◌, ◌≡◌, ◌==◌, ◌⊎◌, ◌&&◌, ◌||◌, not, ltb, leb, min, Bool, true, false,
  if◌then◌else◌, List, [], ◌∷◌, ◌++◌, All, All-append, refl, Bool-cases, append-nil, inl, inr,
  arith,
}
use orderbooks.Prelude.Word.{add_u64}
use orderbooks.Types.{Order, Side, opposite, Tif, gtc, ioc, fok, Template, SelfCrossPolicy}
use orderbooks.Messages.{RejectMsg, SubmitMsg, Event, fill, top, trade, self_trade, reject}
use orderbooks.Engine.Match.{crosses}
use orderbooks.Engine.Handlers.{is_fok}
use orderbooks.Engine.Traded.{traded}
use orderbooks.Engine.Fok.Enough.{traded-append_all}
use orderbooks.Engine.Priority.{Matched, match_orders, is_own, take_from, fill_events}
use orderbooks.Engine.Priority.Insert.{insert_order}
use orderbooks.Engine.Priority.Lists.{
  Submitted, submit_to_lists, after_match, refused, lists_refuse, lists_take, left_order, may_rest,
}

-- An event of a trade with another account, or a top.
abbrev pub IsPlain : Event → Type 0
IsPlain (fill m) = Unit
IsPlain (top m) = Unit
IsPlain (trade m) = Unit
IsPlain (self_trade m) = ⊥
IsPlain (reject m) = ⊥

-- The events tell of trades only, and what came in is traded or left.
abbrev IsTally : ℕ → Matched → Type 0
IsTally remaining r = All IsPlain r.events × (traded r.events + r.remaining ≡ remaining)

take_from-IsTally :
    (o : Order) (os : List Order) (remaining seq : ℕ) (evs : ℕ → List Event) (rest : Matched)
    → ((q : ℕ) → All IsPlain (evs q))
    → ((q : ℕ) → traded (evs q) ≡ q)
    → IsTally (remaining - min remaining o.remaining) rest
    → IsTally remaining (take_from o os remaining seq evs rest)
take_from-IsTally o os remaining seq evs rest plain q_each (later, sum) =
    let q = min remaining o.remaining in
    elim (Bool-cases (leb o.remaining remaining)) [
      | inl drained ↦ rw drained (
        All-append IsPlain (evs q) rest.events (plain q) later,
        omega (arith, traded-append_all (evs q) rest.events, q_each q, sum, drained),
      )
      | inr stays ↦ rw stays (plain q, ground (arith, q_each q, stays))
    ]

module _ (policy : SelfCrossPolicy) (m : SubmitMsg) (anon : m.account_id ≡ 0) where
  match_orders-IsTally :
      (s : Side) (os : List Order) (remaining seq : ℕ)
      → IsTally remaining (match_orders policy m s os remaining seq)
  unfolding match_orders
  match_orders-IsTally s [] remaining seq = (tt, omega arith)
  match_orders-IsTally s (o ∷ os) remaining seq = elim (Bool-cases (remaining == 0)) [
    | inl z ↦ rw (z, match_orders) (tt, omega arith)
    | inr more ↦ elim (Bool-cases (crosses (opposite s) m.px o.px)) [
      | inr far ↦ rw (more, far, match_orders) (tt, omega arith)
      | inl near ↦
          let other : is_own m o ≡ false = ground (arith, anon) in
          rw (more, near, other, match_orders)
            (take_from-IsTally o os remaining seq (λ q. fill_events m o q (add_u64 seq 1))
              (match_orders policy m s os (remaining - min remaining o.remaining) (add_u64 seq 1))
              (λ q. (tt, (tt, tt))) (λ q. omega arith)
              (match_orders-IsTally s os (remaining - min remaining o.remaining) (add_u64 seq 1)))
    ]
  ]

module _ (c : Template) (m : SubmitMsg) where
  -- What rests on the order's side, where it traded `q`.
  abbrev pub booked : ℕ → List Order → List Order
  booked q here =
      if may_rest m.t && ltb q m.qty then insert_order m.s (left_order m (m.qty - q)) here else here

  -- All that did not trade rests, if it may; or there was no room for it, and it was rejected.
  pub record IsBooked (room : Bool) (here : List Order) (x : Submitted) : Type 0 where
    pub trades : List Event
    pub plain : All IsPlain trades
    pub bounded : traded trades ≤ m.qty
    pub outcome :
        ((x.events ≡ trades) × (x.here ≡ booked (traded trades) here))
        ⊎ ((r : RejectMsg) × (x.events ≡ trades ++ (reject r ∷ []))
            × (x.here ≡ here)
            × (room ≡ false)
            × (may_rest m.t ≡ true)
            × (traded trades < m.qty))

  fok_never : (t : Tif) → is_fok t ≡ true → may_rest t ≡ false
  fok_never gtc h = cc
  fok_never ioc h = cc
  fok_never fok h = refl

  unbooked :
      (q : ℕ) (here : List Order) → (may_rest m.t && ltb q m.qty) ≡ false → here ≡ booked q here
  unbooked q here h = rw h refl

  after_match-IsBooked :
      (room : Bool) (here : List Order) (r : Matched)
      → IsTally m.qty r
      → IsBooked room here (after_match c m room here r)
  after_match-IsBooked room here r (plain, sum) =
      let le : traded r.events ≤ m.qty = omega (arith, sum) in
      elim (Bool-cases (r.remaining == 0 || not (may_rest m.t))) [
        | inl done ↦ rw done (record {
          trades = r.events;
          plain = plain;
          bounded = le;
          outcome = inl (refl, unbooked (traded r.events) here (ground (arith, done, sum)));
        })
        | inr more ↦
            let may : may_rest m.t ≡ true = ground (arith, more) in
            let some_left : ltb (traded r.events) m.qty ≡ true = ground (arith, more, sum) in
            let left : r.remaining ≡ m.qty - traded r.events = omega (arith, sum) in
            elim (Bool-cases room) [
              | inl free ↦
                  rw (more, free)
                    (record {
                      trades = r.events;
                      plain = plain;
                      bounded = le;
                      outcome = inl (append-nil r.events, rw (may, some_left, left) refl);
                    })
              | inr full ↦
                  rw (more, full)
                    (record {
                      trades = r.events;
                      plain = plain;
                      bounded = le;
                      outcome = inr (_, refl, refl, refl, may, ground (arith, some_left));
                    })
            ]
      ]

  pub submit_to_lists-IsBooked :
      (policy : SelfCrossPolicy) (room : Bool) (there here : List Order) (seq : ℕ)
      → m.account_id ≡ 0
      → IsBooked room here (submit_to_lists c m policy room there here seq)
  submit_to_lists-IsBooked policy room there here seq anon =
      elim (Bool-cases (refused c m policy there)) [
        | inl no_use ↦ rw (lists_refuse c m policy room there here seq no_use) (record {
          trades = [];
          plain = tt;
          bounded = omega arith;
          outcome =
              inl (refl, unbooked 0 here (ground (arith, fok_never m.t (ground (arith, no_use)))));
        })
        | inr of_use ↦ rw (lists_take c m policy room there here seq of_use) (
            after_match-IsBooked room here (match_orders policy m (opposite m.s) there m.qty seq)
              (match_orders-IsTally policy m anon (opposite m.s) there m.qty seq))
      ]
