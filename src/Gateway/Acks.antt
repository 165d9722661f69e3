-- ===== src/Gateway/Acks.antt =====
-- apps/gateway/wire.hpp: the ack of a submit, and what the order left in the book.
use orderbooks.Prelude.{
  ℕ, ◌-◌, ◌<◌, ◌≤◌, ◌≡◌, ◌≢◌, ◌==◌, ◌⊎◌, ◌^◌, ◌&&◌, not, ltb, Bool, true, false, if◌then◌else◌,
  List, refl, sym, ap, ◌∙◌, subst, Bool-cases, ==_iff, inl, inr, arith,
}
use orderbooks.Types.{opposite, Template, Order}
use orderbooks.Engine.{Engine}
use orderbooks.Engine.Handlers.{on_submit, on_cancel, on_modify}
use orderbooks.Gateway.{op_cancel, wire_cancel, wire_modify}
use orderbooks.Engine.Invariant.{BookInv}
use orderbooks.Engine.Submit.{IsValidTemplate}
use orderbooks.Engine.Traded.{traded}
use orderbooks.Engine.Fok.Enough.{volume}
use orderbooks.Engine.Priority.Resting.{resting}
use orderbooks.Engine.Priority.Insert.{insert_order}
use orderbooks.Engine.Priority.Lists.{left_order}
use orderbooks.Gateway.{
  WireOrder, WireAck, AccumPub, no_fills, accumulate, op_submit, ack_accepted, ack_filled,
  ack_killed, ack_rejected, validate_order, wire_submit, reset, dispatch, status_of, apply_order,
}
use orderbooks.Gateway.Safe.{valid_submit}
use orderbooks.Gateway.Told.{own, has_room, left_of, IsTold, submit-IsTold, reset-resting}

module _ (c : Template) (wo : WireOrder) where
  -- What the client may conclude from the ack of its order.
  pub record IsTruthful (e : Engine) (ack : WireAck) (e' : Engine) : Type 0 where
    pub named : ack.id ≡ wo.id
    pub bounded : ack.filled ≤ wo.qty
    pub counted : ack.filled ≡ traded e'.published
    pub outcome :
        ((ack.status ≡ ack_accepted)
          × (ack.filled ≡ 0)
          × (resting c e' (own c wo)
              ≡ insert_order
                  (own c wo)
                  (left_order (wire_submit c wo) wo.qty)
                  (resting c e (own c wo))))
        ⊎ ((ack.status ≡ ack_filled)
            × (0 < ack.filled)
            × (resting c e' (own c wo) ≡ left_of c wo ack.filled (resting c e (own c wo))))
        ⊎ ((ack.status ≡ ack_killed)
            × (ack.filled ≡ 0)
            × (wo.tif ≢ 0)
            × (resting c e' (own c wo) ≡ resting c e (own c wo)))
        ⊎ ((ack.status ≡ ack_rejected)
            × ((validate_order c wo e.cfg.max_order_qty ≡ false)
                ⊎ ((wo.tif ≡ 0) × (ack.filled < wo.qty) × (has_room c wo e ≡ false)))
            × (resting c e' (own c wo) ≡ resting c e (own c wo)))

  -- The tests of the status.
  rejected_status : (a : AccumPub) → a.rejected ≡ true → status_of c wo a ≡ ack_rejected
  unfolding status_of
  rejected_status a h = rw (status_of, h) refl

  filled_status :
      (a : AccumPub)
      → a.rejected ≡ false
      → (wo.op == op_submit) ≡ true
      → ltb 0 a.filled ≡ true
      → status_of c wo a ≡ ack_filled
  unfolding status_of
  filled_status a h sub some_traded = rw (status_of, h, sub, some_traded) refl

  unfilled_status :
      (a : AccumPub)
      → a.rejected ≡ false
      → (wo.op == op_submit) ≡ true
      → ltb 0 a.filled ≡ false
      → status_of c wo a ≡ (if not (wo.tif == 0) then ack_killed else ack_accepted)
  unfolding status_of
  unfilled_status a h sub none_traded = rw (status_of, h, sub, none_traded) refl

  left_whole :
      (here : List Order)
      → (wo.tif == 0) ≡ true
      → ltb 0 wo.qty ≡ true
      → left_of c wo 0 here ≡ insert_order (own c wo) (left_order (wire_submit c wo) wo.qty) here
  left_whole here z some_wanted =
      let all : wo.qty - 0 ≡ wo.qty = omega arith in
      let both : (wo.tif == 0 && ltb 0 wo.qty) ≡ true = ground (arith, z, some_wanted) in
      let rested = λ (q : ℕ). insert_order (own c wo) (left_order (wire_submit c wo) q) here in
      ap (λ (b : Bool). if b then rested (wo.qty - 0) else here) both ∙ ap rested all

  left_nothing : (q : ℕ) (here : List Order) → (wo.tif == 0) ≡ false → left_of c wo q here ≡ here
  left_nothing q here ne = rw ne refl

  -- The status, from what the events came to.
  status_of-IsTruthful :
      (e e' : Engine) (a : AccumPub) (filled : ℕ) (rejected : Bool)
      → (wo.op == op_submit) ≡ true
      → 0 < wo.qty
      → a.filled ≡ filled
      → a.rejected ≡ rejected
      → IsTold c wo e filled rejected e'
      → IsTruthful e
          (record { id = wo.id; filled = a.filled; last_px = a.last_px; status = status_of c wo a })
          e'
  status_of-IsTruthful e e' a filled rejected sub some_wanted f r told =
      let here = resting c e (own c wo) in
      record {
        named = refl;
        bounded = omega (arith, f, told.bounded);
        counted = f ∙ sym told.tallied.2;
        outcome = elim told.outcome [
          | inl (fine, rest) ↦
              let kept : resting c e' (own c wo) ≡ left_of c wo a.filled here =
                rest ∙ ap (λ q. left_of c wo q here) (sym f) in
              let ok : a.rejected ≡ false = r ∙ fine in
              elim (Bool-cases (ltb 0 a.filled)) [
                | inl some_traded ↦
                    inr
                      (inl (filled_status a ok sub some_traded, ground (arith, some_traded), kept))
                | inr none_traded ↦
                    let none_filled : a.filled ≡ 0 = ground (arith, none_traded) in
                    let status = unfilled_status a ok sub none_traded in
                    elim (Bool-cases (wo.tif == 0)) [
                      | inl z ↦ inl (
                        rw z at status,
                        none_filled,
                        kept
                            ∙ ap (λ q. left_of c wo q here) none_filled
                            ∙ left_whole here z (ground (arith, some_wanted)),
                      )
                      | inr ne ↦ inr (
                          inr (
                            inl (
                              rw ne at status,
                              none_filled,
                              (λ z. ground (arith, z, ne)),
                              kept ∙ left_nothing a.filled here ne,
                            )))
                    ]
              ]
          | inr (refused, z, some_left, full, same) ↦ inr (
              inr (
                inr (
                  rejected_status a (r ∙ refused),
                  inr (z, omega (arith, f, some_left), full),
                  same,
                )))
        ];
      }

  valid_qty_positive :
      (max_qty : ℕ) → validate_order c wo max_qty ≡ true → (wo.op == op_submit) ≡ true → 0 < wo.qty
  unfolding validate_order
  valid_qty_positive max_qty valid sub = ground (arith, valid, sub)

  dispatch_submit :
      (e : Engine)
      → (wo.op == op_submit) ≡ true
      → dispatch c wo e ≡ (on_submit c (wire_submit c wo) e).1
  unfolding dispatch
  dispatch_submit e sub =
      ap
        (λ (b : Bool).
          if b
          then (on_submit c (wire_submit c wo) e).1
          else if wo.op == op_cancel
          then on_cancel c (wire_cancel c wo) e
          else (on_modify c (wire_modify c wo) e).1)
        sub

  apply_valid :
      (e : Engine)
      → validate_order c wo e.cfg.max_order_qty ≡ true
      → let e' = dispatch c wo (reset c e) in
        let a = accumulate no_fills e'.published in
        apply_order c wo e ≡ (
          record { id = wo.id; filled = a.filled; last_px = a.last_px; status = status_of c wo a },
          e',
        )
  unfolding apply_order
  apply_valid e valid = rw (valid, apply_order) refl

  -- On a valid template and a sound book, with a quantity cap that fits 64 bits, as all the
  -- quantities of the side opposite to the order together do, the ack of a submit names the order,
  -- and its filled quantity is what the events trade and at most what was asked for; accepted says
  -- that nothing was filled and the whole order stands in the book behind the orders of its price;
  -- filled, that something was, and that what is left stands there if the order may rest; killed,
  -- that nothing was filled of an order that may not rest, and its side is as it was; rejected,
  -- that its side is as it was, and that the order is invalid, or some of it was left to rest and
  -- the arena had no slot.
  pub apply_order-submit_acks :
      (e : Engine)
      → IsValidTemplate c
      → e.cfg.max_order_qty < 2 ^ 64
      → BookInv c e.book
      → volume (resting c e (opposite (own c wo))) < 2 ^ 64
      → wo.op ≡ op_submit
      → IsTruthful e (apply_order c wo e).0 (apply_order c wo e).1
  unfolding apply_order
  apply_order-submit_acks e t capped v few is_submit =
      let max_qty = e.cfg.max_order_qty in
      let sub : (wo.op == op_submit) ≡ true = (==_iff _ _).1 is_submit in
      elim (Bool-cases (validate_order c wo max_qty)) [
        | inr invalid ↦
            rw (invalid, apply_order)
              (record {
                named = refl;
                bounded = omega arith;
                counted = refl;
                outcome = inr (inr (inr (refl, inl invalid, reset-resting c wo e (own c wo))));
              })
        | inl valid ↦
            let w = valid_submit c wo max_qty capped valid sub in
            let (filled, rejected, told) = submit-IsTold c wo e t w v few in
            let e' = dispatch c wo (reset c e) in
            let told' =
              subst (λ (e' : Engine). IsTold c wo e filled rejected e')
                (sym (dispatch_submit (reset c e) sub)) told in
            subst (λ (r : WireAck × Engine). IsTruthful e r.0 r.1) (sym (apply_valid e valid))
              (status_of-IsTruthful e e' (accumulate no_fills e'.published) filled rejected sub
                (valid_qty_positive max_qty valid sub) told'.tallied.0 told'.tallied.1 told')
      ]
