-- ===== src/Gateway.antt =====
-- apps/gateway/wire.hpp: the wire records of the gateway, and the step that decodes, validates and
-- dispatches one order. The engine's publisher is its list of events; `accum_pub` is the fold of those
-- since its reset.
pub mod Safe
pub mod Tally
pub mod Told
pub mod Acks
use orderbooks.Prelude.{
  ℕ, ◌+◌, ◌%◌, ◌^◌, Bool, true, false, ◌==◌, ◌&&◌, ◌||◌, not, ltb, leb, List, [], ◌∷◌,
  if◌then◌else◌,
}
use orderbooks.Prelude.Word.{all_ones}
use orderbooks.Types.{bid, ask, empty_handle, Template}
use orderbooks.Messages.{
  Event, fill, top, trade, self_trade, reject, FillMsg, SubmitMsg, CancelMsg, ModifyMsg,
}
use orderbooks.Engine.{Engine}
use orderbooks.Engine.Handlers.{on_submit, on_cancel, on_modify}
use orderbooks.Engine.Snapshot.{tif_from}

pub record WireOrder : Type 0 where
  pub id : ℕ
  pub qty : ℕ
  pub px : ℕ
  pub new_px : ℕ
  pub op : ℕ
  pub side : ℕ
  pub tif : ℕ

-- `wire_op`
abbrev pub op_submit : ℕ
op_submit = 0

abbrev pub op_cancel : ℕ
op_cancel = 1

abbrev pub op_modify : ℕ
op_modify = 2

pub record WireAck : Type 0 where
  pub id : ℕ
  pub filled : ℕ
  pub last_px : ℕ
  pub status : ℕ

abbrev pub ack_accepted : ℕ
ack_accepted = 0

abbrev pub ack_filled : ℕ
ack_filled = 1

abbrev pub ack_processed : ℕ
ack_processed = 2

abbrev pub ack_rejected : ℕ
ack_rejected = 3

abbrev pub ack_killed : ℕ
ack_killed = 4

pub record AccumPub : Type 0 where
  pub filled : ℕ
  pub last_px : ℕ
  pub rejected : Bool

-- `accum_pub::reset`
abbrev pub no_fills : AccumPub
no_fills = record { filled = 0; last_px = 0; rejected = false }

-- The overloads of `accum_pub::publish`.
abbrev pub accum_publish : AccumPub → Event → AccumPub
accum_publish a (fill f) = record {
  filled = (a.filled + f.qty) % 2 ^ 64;
  last_px = f.px;
  rejected = a.rejected;
}
accum_publish a (top m) = a
accum_publish a (trade m) = a
accum_publish a (self_trade m) = a
accum_publish a (reject m) = record a { rejected = true }

unfoldable pub accumulate : AccumPub → List Event → AccumPub
accumulate a [] = a
accumulate a (ev ∷ evs) = accumulate (accum_publish a ev) evs

unfoldable pub valid_order_id : ℕ → Bool
valid_order_id id = not (id == 0) && not (id == all_ones)

abbrev pub valid_qty : ℕ → ℕ → Bool
valid_qty qty max_qty = ltb 0 qty && leb qty max_qty

module _ (c : Template) where
  -- The `switch` on the operation.
  abbrev pub valid_fields : WireOrder → ℕ → Bool
  valid_fields wo max_qty =
      if wo.op == op_submit
      then ltb wo.px c.ticks && valid_qty wo.qty max_qty && leb wo.tif 2
      else if wo.op == op_cancel
      then true
      else ltb wo.new_px c.ticks && valid_qty wo.qty max_qty

  unfoldable pub validate_order : WireOrder → ℕ → Bool
  unfolding valid_order_id
  validate_order wo max_qty =
      valid_order_id wo.id && not (ltb op_modify wo.op) && valid_fields wo max_qty

  abbrev pub wire_submit : WireOrder → SubmitMsg
  wire_submit wo = record {
    id = wo.id;
    px = wo.px;
    qty = wo.qty;
    s = if wo.side == 0 then bid else ask;
    t = tif_from wo.tif;
    account_id = 0;
  }

  abbrev pub wire_cancel : WireOrder → CancelMsg
  wire_cancel wo = record { id = wo.id; handle = empty_handle }

  abbrev pub wire_modify : WireOrder → ModifyMsg
  wire_modify wo = record {
    id = wo.id;
    new_px = wo.new_px;
    new_qty = wo.qty;
    new_id = 0;
    handle = empty_handle;
  }

  -- `pub.reset()`
  abbrev pub reset : Engine → Engine
  reset e = record e { published = [] }

  -- The engine after the dispatch of a valid order.
  unfoldable pub dispatch : WireOrder → Engine → Engine
  dispatch wo e =
      if wo.op == op_submit
      then (on_submit c (wire_submit wo) e).1
      else if wo.op == op_cancel
      then on_cancel c (wire_cancel wo) e
      else (on_modify c (wire_modify wo) e).1

  -- The status of a valid order, from what its fills came to.
  unfoldable pub status_of : WireOrder → AccumPub → ℕ
  status_of wo a =
      if a.rejected
      then ack_rejected
      else if wo.op == op_submit
      then (if ltb 0 a.filled
          then ack_filled
          else if not (wo.tif == 0)
          then ack_killed
          else ack_accepted)
      else ack_processed

  unfoldable pub apply_order : WireOrder → Engine → WireAck × Engine
  unfolding dispatch status_of accumulate validate_order
  apply_order wo e =
      let e' = dispatch wo (reset e) in
      let a = accumulate no_fills e'.published in
      if validate_order wo e.cfg.max_order_qty
      then (
        record { id = wo.id; filled = a.filled; last_px = a.last_px; status = status_of wo a },
        e',
      )
      else (record { id = wo.id; filled = 0; last_px = 0; status = ack_rejected }, reset e)
