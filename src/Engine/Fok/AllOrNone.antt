-- ===== src/Engine/Fok/AllOrNone.antt =====
-- include/lob/engine.hpp: `on_submit` of a fill-or-kill order.
use orderbooks.Prelude.{
  ℕ, ◌+◌, ◌-◌, ◌<◌, ◌≤◌, ◌≡◌, ◌==◌, ◌^◌, ltb, Bool, if◌then◌else◌, refl, sym, ap, ◌∙◌, Bool-cases,
  true, false, inl, inr, arith,
}
use orderbooks.Types.{Side, opposite, Template, Tif, gtc, ioc, fok}
use orderbooks.Messages.{SubmitMsg}
use orderbooks.Bitmap.{l3_words}
use orderbooks.Engine.{Engine}
use orderbooks.Engine.Match.{match_against_opposite}
use orderbooks.Engine.Handlers.{is_fok, finish_submit, finish_by_tif, handle_submit, on_submit}
use orderbooks.Engine.Invariant.{BookInv}
use orderbooks.Engine.Frame.{publish_top_if_changed-book}
use orderbooks.Engine.Traded.{traded}
use orderbooks.Engine.Account.{publish_top-traded}
use orderbooks.Engine.Fok.{can_fully_fill}
use orderbooks.Engine.Fok.Enough.{volume, is_enough, is_enough-IsTraded, traded-append_all}
use orderbooks.Engine.Fok.Verdict.{can_fully_fill-is_enough}
use orderbooks.Engine.Priority.{match_orders}
use orderbooks.Engine.Priority.Resting.{resting}
use orderbooks.Engine.Priority.Refine.{match-spent, match_against_opposite_refines}

module _ (c : Template) (m : SubmitMsg) where
  -- The side that the order is matched against.
  abbrev opp : Side
  opp = opposite m.s

  abbrev matched : Engine → Engine × ℕ
  matched e = match_against_opposite c (c.ticks + 1) m opp e m.qty

  -- What is left of a fill-or-kill order does not come to rest.
  finish_submit-fok : (r : Engine × ℕ) → m.t ≡ fok → (finish_submit c m m.s r).1 ≡ r.0
  unfolding finish_submit finish_by_tif
  finish_submit-fok (e, remaining) is = elim (Bool-cases (remaining == 0)) [
    | inl done ↦ rw done refl
    | inr left ↦ rw left (by_tif m.t is)
  ]
    where
      by_tif : (t : Tif) → t ≡ fok → (finish_by_tif c t m m.s e remaining).1 ≡ e
      by_tif gtc is = cc
      by_tif ioc is = cc
      by_tif fok is = refl

  fok_goes :
      (e : Engine)
      → m.t ≡ fok
      → can_fully_fill c e opp m.px m.qty m.account_id ≡ true
      → (handle_submit c m m.s e).1 ≡ (matched e).0
  unfolding handle_submit
  fok_goes e is can =
      let go : is_fok m.t ≡ true = ap is_fok is in
      rw (go, can, handle_submit) (finish_submit-fok (matched e) is)

  fok_killed :
      (e : Engine)
      → m.t ≡ fok
      → can_fully_fill c e opp m.px m.qty m.account_id ≡ false
      → (handle_submit c m m.s e).1 ≡ e
  unfolding handle_submit
  fok_killed e is cannot =
      let go : is_fok m.t ≡ true = ap is_fok is in rw (go, cannot, handle_submit) refl

  -- Nothing is wanted, and nothing happens.
  fok_nothing : (e : Engine) → m.t ≡ fok → m.qty ≡ 0 → (handle_submit c m m.s e).1 ≡ e
  fok_nothing e is z = elim (Bool-cases (can_fully_fill c e opp m.px m.qty m.account_id)) [
    | inl can ↦
        fok_goes e is can
        ∙ ap (λ (r : Engine × ℕ). r.0)
            (match-spent c e.cfg.self_cross m opp (c.ticks + 1) e m.qty z)
    | inr cannot ↦ fok_killed e is cannot
  ]

  abbrev pub is_supplied : Engine → Bool
  is_supplied e = is_enough e.cfg.self_cross m opp m.qty (resting c e opp) 0

  matched-traded :
      (e : Engine)
      → l3_words c.ticks ≤ 1
      → BookInv c e.book
      → is_supplied e ≡ true
      → traded (matched e).0.published ≡ traded e.published + m.qty
  matched-traded e fits v h =
      let t = match_orders e.cfg.self_cross m opp (resting c e opp) m.qty e.state.seq in
      let whole : m.qty - 0 ≡ m.qty = omega arith in
      let all : traded t.events ≡ m.qty =
        ap
          (λ q. traded (match_orders e.cfg.self_cross m opp (resting c e opp) q e.state.seq).events)
          (sym whole)
        ∙ is_enough-IsTraded e.cfg.self_cross m opp m.qty (resting c e opp) 0 e.state.seq
            (omega arith) h
        ∙ whole in
      omega (
        arith,
        ap (λ evs. traded evs) (match_against_opposite_refines c m opp e m.qty fits v).0,
        traded-append_all e.published t.events,
        all,
      )

  -- All of the quantity is traded, or nothing happens.
  abbrev pub IsAllOrNone : Engine → Bool → Engine → Type 0
  IsAllOrNone e all e' =
      (traded e'.published ≡ traded e.published + (if all then m.qty else 0))
      × (e'.book ≡ (if all then (matched e).0.book else e.book))

  handle_submit-IsAllOrNone :
      (e : Engine)
      → l3_words c.ticks ≤ 1
      → BookInv c e.book
      → m.t ≡ fok
      → volume (resting c e opp) < 2 ^ 64
      → IsAllOrNone e (is_supplied e) (handle_submit c m m.s e).1
  handle_submit-IsAllOrNone e fits v is few = elim (Bool-cases (ltb 0 m.qty)) [
    | inr nothing ↦
        let z : m.qty ≡ 0 = ground (arith, nothing) in
        let none_done = fok_nothing e is z in
        let spent =
          ap (λ (r : Engine × ℕ). r.0.book)
            (match-spent c e.cfg.self_cross m opp (c.ticks + 1) e m.qty z) in
        elim (Bool-cases (is_supplied e)) [
          | inl supplied ↦ rw (none_done, supplied) (omega (arith, z), sym spent)
          | inr short ↦ rw (none_done, short) (omega arith, refl)
        ]
    | inl more ↦
        let answer = can_fully_fill-is_enough c m opp e fits v (ground (arith, more)) few in
        elim (Bool-cases (is_supplied e)) [
          | inl supplied ↦
              rw (fok_goes e is (answer ∙ supplied), supplied)
                (matched-traded e fits v supplied, refl)
          | inr short ↦ rw (fok_killed e is (answer ∙ short), short) (omega arith, refl)
        ]
  ]

  -- On a sound book with at most four bitmap tiers, of whose opposite side all the quantities
  -- together fit 64 bits, a fill-or-kill submit trades all of its quantity where the orders that
  -- it reaches, in price-time order and under the self-cross policy, supply it, and the book is
  -- then the one that matching leaves; where they do not, it trades nothing and the book is as it
  -- was.
  pub on_submit-IsAllOrNone :
      (e : Engine)
      → l3_words c.ticks ≤ 1
      → BookInv c e.book
      → m.t ≡ fok
      → volume (resting c e opp) < 2 ^ 64
      → IsAllOrNone e (is_supplied e) (on_submit c m e).1
  unfolding on_submit
  on_submit-IsAllOrNone e fits v is few =
      let handled = handle_submit-IsAllOrNone e fits v is few in
      let e' = (handle_submit c m m.s e).1 in
      (publish_top-traded c e' ∙ handled.0, publish_top_if_changed-book e' ∙ handled.1)
