-- ===== src/Gateway/Told.antt =====
-- apps/gateway/wire.hpp: what a submit publishes between two resets, and what it leaves on its side.
use orderbooks.Prelude.{
  ℕ, ◌+◌, ◌-◌, ◌<◌, ◌≤◌, ◌≡◌, ◌==◌, ◌⊎◌, ◌^◌, ◌&&◌, ltb, Bool, true, false, if◌then◌else◌, List, [],
  ◌∷◌, ◌++◌, refl, sym, ap, ◌∙◌, subst, Bool-cases, ==_iff, inl, inr, arith,
}
use orderbooks.Types.{Side, opposite, Template, Order}
use orderbooks.Messages.{SubmitMsg, Event, reject}
use orderbooks.BookSide.{Book}
use orderbooks.Engine.{Engine, publish_top_if_changed}
use orderbooks.Engine.Frame.{publish_top_if_changed-book}
use orderbooks.Engine.Handlers.{on_submit, handle_submit}
use orderbooks.Engine.Match.{match_against_opposite}
use orderbooks.Engine.Invariant.{BookInv}
use orderbooks.Engine.Submit.{IsValidTemplate, IsValidSubmit}
use orderbooks.Engine.Snapshot.{tif_from}
use orderbooks.Engine.Traded.{traded}
use orderbooks.Engine.Fok.Enough.{volume}
use orderbooks.Engine.Priority.Effects.{orders_at}
use orderbooks.Engine.Priority.Resting.{resting}
use orderbooks.Engine.Priority.Insert.{insert_order}
use orderbooks.Engine.Priority.Lists.{left_order, may_rest}
use orderbooks.Engine.Priority.Rest.{has_slot, standing}
use orderbooks.Engine.Priority.Submit.{handle_submit_refines}
use orderbooks.Engine.Priority.Tally.{booked, submit_to_lists-IsBooked}
use orderbooks.Gateway.{WireOrder, wire_submit, reset}
use orderbooks.Gateway.Tally.{
  IsTallied, publish_top_if_changed-AddsTops, trades-IsTallied, reject-IsTallied,
}

module _ (c : Template) (wo : WireOrder) where
  abbrev pub m : SubmitMsg
  m = wire_submit c wo

  -- The side that the order is for.
  abbrev pub own : Side
  own = m.s

  -- Whether the arena has a slot for what is left of the order after matching.
  abbrev pub has_room : Engine → Bool
  has_room e =
      has_slot c (match_against_opposite c (c.ticks + 1) m (opposite own) (reset c e) wo.qty).0

  -- The orders of the side, where `filled` of the order was traded and the rest may have come to rest.
  abbrev pub left_of : ℕ → List Order → List Order
  left_of filled here =
      if wo.tif == 0 && ltb filled wo.qty
      then insert_order own (left_order m (wo.qty - filled)) here
      else here

  tif_may_rest : may_rest (tif_from wo.tif) ≡ (wo.tif == 0)
  tif_may_rest = elim (Bool-cases (wo.tif == 0)) [
    | inl z ↦ rw z refl
    | inr ne ↦ elim (Bool-cases (wo.tif == 1)) [
      | inl one ↦ rw (ne, one) refl
      | inr other ↦ rw (ne, other) refl
    ]
  ]

  publish_top-resting :
      (e : Engine) (t : Side) → resting c (publish_top_if_changed e) t ≡ resting c e t
  unfolding resting orders_at
  publish_top-resting e t = ap (λ (b : Book). standing c b t) (publish_top_if_changed-book e)

  pub reset-resting : (e : Engine) (t : Side) → resting c (reset c e) t ≡ resting c e t
  unfolding resting orders_at
  reset-resting e t = refl

  booked-left_of :
      (e : Engine) (q : ℕ) → booked c m q (resting c (reset c e) own) ≡ left_of q (resting c e own)
  booked-left_of e q =
      let here = resting c (reset c e) own in
      ap
        (λ (may : Bool).
          if may && ltb q wo.qty then insert_order own (left_order m (wo.qty - q)) here else here)
        tif_may_rest
      ∙ ap (left_of q) (reset-resting e own)

  -- The submit's events: its trades, perhaps a reject, and what it left.
  pub record IsTold (e : Engine) (filled : ℕ) (rejected : Bool) (e' : Engine) : Type 0 where
    pub tallied : IsTallied e'.published filled rejected
    pub bounded : filled ≤ wo.qty
    pub outcome :
        ((rejected ≡ false) × (resting c e' own ≡ left_of filled (resting c e own)))
        ⊎ ((rejected ≡ true)
            × (wo.tif ≡ 0)
            × (filled < wo.qty)
            × (has_room e ≡ false)
            × (resting c e' own ≡ resting c e own))

  pub submit-IsTold :
      (e : Engine)
      → IsValidTemplate c
      → IsValidSubmit c m
      → BookInv c e.book
      → volume (resting c e (opposite own)) < 2 ^ 64
      → (filled : ℕ) × (rejected : Bool) × IsTold e filled rejected (on_submit c m (reset c e)).1
  unfolding on_submit
  submit-IsTold e t w v few =
      let e0 = reset c e in
      let e1 = (handle_submit c m m.s e0).1 in
      let d = handle_submit_refines c m e0 t w v (
        subst (λ (os : List Order). volume os < 2 ^ 64) (sym (reset-resting e (opposite own)))
          few) in
      let a = publish_top_if_changed-AddsTops e1 in
      let b =
        submit_to_lists-IsBooked c m e.cfg.self_cross (has_room e) (resting c e0 (opposite own))
          (resting c e0 own) e.state.seq refl in
      let here = publish_top-resting e1 own ∙ d.here in
      let fits : traded b.trades < 2 ^ 64 = omega (arith, b.bounded, w.fits) in
      let all = λ (xs : List Event) (h : e1.published ≡ xs).
        a.published ∙ ap (λ (ys : List Event). ys ++ a.tops) h in
      elim b.outcome [
        | inl (evs, rest) ↦ (
          traded b.trades,
          false,
          record {
            tallied =
                subst (λ (xs : List Event). IsTallied xs (traded b.trades) false)
                  (sym (all b.trades (d.published ∙ evs)))
                  (trades-IsTallied b.trades a.tops b.plain a.plain a.no_trade fits);
            bounded = b.bounded;
            outcome = inl (refl, here ∙ rest ∙ booked-left_of e (traded b.trades));
          },
        )
        | inr (r, evs, same, full, may, some_left) ↦ (
          traded b.trades,
          true,
          record {
            tallied =
                subst (λ (xs : List Event). IsTallied xs (traded b.trades) true)
                  (sym (all (b.trades ++ (reject r ∷ [])) (d.published ∙ evs)))
                  (reject-IsTallied b.trades r a.tops b.plain a.plain a.no_trade fits);
            bounded = b.bounded;
            outcome = inr (
              refl,
              (==_iff wo.tif 0).0 (sym tif_may_rest ∙ may),
              some_left,
              full,
              here ∙ same ∙ reset-resting e own,
            );
          },
        )
      ]
