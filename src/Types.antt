-- ===== src/Types.antt =====
-- include/lob/types.hpp, include/lob/order.hpp and include/lob/config.hpp: the domain types, the
-- resting-order record, the engine's configuration and its template arguments. The padding fields
-- carry nothing and are left out; `fifo_hook` is the place of the order in its level's `fifo`.
use orderbooks.Prelude.{ℕ, Bool, true, false, ◌^◌}

-- A pointer to an order is the number of its arena slot.
abbrev pub Ptr : Type 0
Ptr = ℕ

pub data OrderLookup : Type 0 where
  by_id by_handle : OrderLookup

pub record OrderHandle : Type 0 where
  pub slot : ℕ
  pub generation : ℕ

-- The value-initialised handle names nothing.
abbrev pub empty_handle : OrderHandle
empty_handle = record { slot = 0; generation = 0 }

pub data Side : Type 0 where
  bid ask : Side

pub data Tif : Type 0 where
  gtc ioc fok : Tif

abbrev pub opposite : Side → Side
opposite bid = ask
opposite ask = bid

pub record Order : Type 0 where
  pub id : ℕ
  pub remaining : ℕ
  pub px : ℕ
  pub s : Side
  pub t : Tif
  pub account_id : ℕ

pub data SelfCrossPolicy : Type 0 where
  cancel_newest cancel_oldest decrement_trade : SelfCrossPolicy

pub record EngineConfig : Type 0 where
  pub max_order_qty : ℕ
  pub self_cross : SelfCrossPolicy
  pub seq_base : ℕ
  pub top_throttle : Bool

-- The member initialisers of `engine_config`.
abbrev pub default_config : EngineConfig
default_config = record {
  max_order_qty = 2 ^ 32;
  self_cross = cancel_newest;
  seq_base = 0;
  top_throttle = true;
}

-- The template arguments of `engine`, less the publisher.
pub record Template : Type 0 where
  pub ticks : ℕ
  pub max_orders : ℕ
  pub lookup : OrderLookup

-- `by_handle_`
abbrev pub is_by_handle : Template → Bool
is_by_handle c = elim c.lookup [ by_id ↦ false | by_handle ↦ true ]
