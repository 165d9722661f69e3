-- ===== src/Gateway/Safe.antt =====
-- apps/gateway/wire.hpp: what the engine may rely on for an order that passes `validate_order`.
use orderbooks.Engine.Invariant.{BookInv}
use orderbooks.Engine.OnModify.{on_modify-BookInv, renamed_engine, IsValidModify, FindsAgain}
use orderbooks.Engine.Cancel.{on_cancel-BookInv, IsLiveIfFound}
use orderbooks.Engine.Submit.{on_submit-BookInv, IsValidSubmit, IsValidTemplate}
use orderbooks.Gateway.{
  wire_cancel, wire_modify, wire_submit, op_cancel, op_submit, reset, WireOrder, dispatch,
  validate_order, apply_order,
}
use orderbooks.Prelude.{inr, inl, Bool-cases, ◌==◌, ◌≡◌, ◌^◌, ◌<◌, ℕ, arith, true, false, some}
use orderbooks.Types.{Ptr, Template, empty_handle}
use orderbooks.Engine.{find, Engine}

module _ (c : Template) where
  pub valid_submit :
      (wo : WireOrder) (max_qty : ℕ)
      → max_qty < 2 ^ 64
      → validate_order c wo max_qty ≡ true
      → (wo.op == op_submit) ≡ true
      → IsValidSubmit c (wire_submit c wo)
  unfolding validate_order
  valid_submit wo max_qty capped valid is_submit = record {
    on_ladder = ground (arith, valid, is_submit);
    fits = ground (arith, valid, is_submit, capped);
  }

  valid_modify :
      (wo : WireOrder) (max_qty : ℕ)
      → max_qty < 2 ^ 64
      → validate_order c wo max_qty ≡ true
      → (wo.op == op_submit) ≡ false
      → (wo.op == op_cancel) ≡ false
      → IsValidModify c (wire_modify c wo)
  unfolding validate_order
  valid_modify wo max_qty capped valid not_submit not_cancel = record {
    on_ladder = ground (arith, valid, not_submit, not_cancel);
    positive = ground (arith, valid, not_submit, not_cancel);
    fits = ground (arith, valid, not_submit, not_cancel, capped);
  }

  -- On a valid template whose quantity cap fits 64 bits, whatever order a client sends, the
  -- gateway's step keeps a sound book sound, given that what the engine finds for a cancel or a
  -- modify, and again for the cancel inside a modify, lives in the arena.
  pub apply_order-BookInv :
      (wo : WireOrder) (e : Engine)
      → IsValidTemplate c
      → e.cfg.max_order_qty < 2 ^ 64
      → IsLiveIfFound c (reset c e) (find c (reset c e) wo.id empty_handle true).0
      → IsLiveIfFound c (reset c e) (find c (reset c e) wo.id empty_handle false).0
      → ((p : Ptr)
          → (find c (reset c e) wo.id empty_handle false).0 ≡ some p
          → FindsAgain c (wire_modify c wo) p (renamed_engine c (wire_modify c wo) p (reset c e)))
      → BookInv c e.book
      → BookInv c (apply_order c wo e).1.book
  unfolding apply_order dispatch
  apply_order-BookInv wo e t capped cancels modifies again v =
      elim (Bool-cases (validate_order c wo e.cfg.max_order_qty)) [
        | inr refused ↦ rw refused v
        | inl valid ↦ elim (Bool-cases (wo.op == op_submit)) [
          | inl sub ↦
              rw (valid, sub)
                (on_submit-BookInv c (wire_submit c wo) (reset c e) t
                  (valid_submit wo e.cfg.max_order_qty capped valid sub) v)
          | inr not_sub ↦ elim (Bool-cases (wo.op == op_cancel)) [
            | inl can ↦
                rw (valid, not_sub, can)
                  (on_cancel-BookInv c (wire_cancel c wo) (reset c e) t.shallow cancels v)
            | inr not_can ↦
                rw (valid, not_sub, not_can)
                  (on_modify-BookInv c (wire_modify c wo) (reset c e) t
                    (valid_modify wo e.cfg.max_order_qty capped valid not_sub not_can) modifies
                    again v)
          ]
        ]
      ]
