-- ===== src/Messages.antt =====
-- include/lob/messages.hpp: the commands that reach an engine and the events that it publishes. The
-- tagged unions `command` and `event` are data types, their `make_…` functions the constructors.
use orderbooks.Prelude.{ℕ}
use orderbooks.Types.{OrderHandle, Side, Tif}

pub record SubmitMsg : Type 0 where
  pub id : ℕ
  pub px : ℕ
  pub qty : ℕ
  pub s : Side
  pub t : Tif
  pub account_id : ℕ

pub record CancelMsg : Type 0 where
  pub id : ℕ
  pub handle : OrderHandle

pub record ModifyMsg : Type 0 where
  pub id : ℕ
  pub new_px : ℕ
  pub new_qty : ℕ
  pub new_id : ℕ
  pub handle : OrderHandle

pub record FillMsg : Type 0 where
  pub maker : ℕ
  pub taker : ℕ
  pub px : ℕ
  pub qty : ℕ
  pub seq : ℕ

pub record TopMsg : Type 0 where
  pub bid_px : ℕ
  pub ask_px : ℕ
  pub bid_qty : ℕ
  pub ask_qty : ℕ
  pub seq : ℕ

pub record TradeMsg : Type 0 where
  pub px : ℕ
  pub qty : ℕ
  pub seq : ℕ

pub record SelfTradeMsg : Type 0 where
  pub aggressor : ℕ
  pub resting : ℕ
  pub account : ℕ
  pub px : ℕ
  pub qty : ℕ
  pub seq : ℕ

pub data RejectReason : Type 0 where
  arena_full : RejectReason

pub record RejectMsg : Type 0 where
  pub id : ℕ
  pub account : ℕ
  pub px : ℕ
  pub qty : ℕ
  pub reason : RejectReason
  pub seq : ℕ

pub data Command : Type 0 where
  submit : SubmitMsg → Command
  cancel : CancelMsg → Command
  modify : ModifyMsg → Command

pub data Event : Type 0 where
  fill : FillMsg → Event
  top : TopMsg → Event
  trade : TradeMsg → Event
  self_trade : SelfTradeMsg → Event
  reject : RejectMsg → Event
