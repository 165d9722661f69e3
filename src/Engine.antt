-- ===== src/Engine.antt =====
-- include/lob/engine.hpp: `engine<P, Ticks, MaxOrders, Lookup>`. This file has the engine's state and the
-- parts its handlers share; the children have the handlers. The publisher is the list of the events that
-- it was given, oldest first, and the template arguments are the `Template` of the section.
pub mod Match
pub mod Fok
pub mod Handlers
pub mod Linked
pub mod Invariant
pub mod Consume
pub mod Matching
pub mod Frame
pub mod Resting
pub mod Submit
pub mod Cancel
pub mod Initial
pub mod Progress
pub mod SameTop
pub mod Termination
pub mod Modify
pub mod SeenTop
pub mod Top
pub mod OnModify
pub mod Behind
pub mod Uncrossed
pub mod CancelUncrossed
pub mod ModifyUncrossed
pub mod Traded
pub mod Account
pub mod Rename
pub mod Priority
pub mod Snapshot
use orderbooks.Prelude.{
  ◌%◌, ℕ, ◌+◌, ◌-◌, ◌*◌, ◌==◌, ltb, leb, Bool, true, false, ◌&&◌, ◌||◌, not, Option, none, some,
  if◌then◌else◌, List, [], ◌∷◌, ◌++◌, is_some,
}
use orderbooks.Prelude.Word.{add_u64}
use orderbooks.Types.{
  Ptr, Order, OrderHandle, empty_handle, Side, bid, ask, EngineConfig, Template, is_by_handle,
}
use orderbooks.Messages.{Event, top, TopMsg}
use orderbooks.Arena.{Arena, load, store, generation, deallocate}
use orderbooks.IdIndex
use orderbooks.IdIndex.{IdIndex}
use orderbooks.BookSide.{Book, BookSide, new_book, side_of, with_side, aggregate_at}

pub record HotState : Type 0 where
  pub seq : ℕ
  pub last_bid_px : ℕ
  pub last_ask_px : ℕ
  pub last_bid_qty : ℕ
  pub last_ask_qty : ℕ
  pub have_top : Bool
  pub top_dirty : Bool
  pub have_bid_side : Bool
  pub have_ask_side : Bool
  pub suppress_top_depth : ℕ

pub record Engine : Type 0 where
  pub cfg : EngineConfig
  pub book : Book
  pub state : HotState
  pub published : List Event

abbrev pub fresh_state : HotState
fresh_state = record {
  seq = 0;
  last_bid_px = 0;
  last_ask_px = 0;
  last_bid_qty = 0;
  last_ask_qty = 0;
  have_top = false;
  top_dirty = false;
  have_bid_side = false;
  have_ask_side = false;
  suppress_top_depth = 0;
}

unfoldable pub new_engine : Template → EngineConfig → Engine
new_engine c cfg = record {
  cfg = cfg;
  book = new_book c;
  state = record fresh_state { seq = cfg.seq_base };
  published = [];
}

abbrev pub with_state : HotState → Engine → Engine
with_state s e = record e { state = s }

abbrev pub with_book : Book → Engine → Engine
with_book b e = record e { book = b }

-- `pub_.publish(…)`
abbrev pub publish : Event → Engine → Engine
publish ev e = record e { published = e.published ++ (ev ∷ []) }

-- `++state_.seq`
abbrev pub next_seq : Engine → ℕ
next_seq e = add_u64 e.state.seq 1

abbrev pub order_at : Engine → Ptr → Order
order_at e p = load e.book.arena p

abbrev pub write_order : Ptr → Order → Engine → Engine
write_order p o e = with_book (record e.book { arena = store e.book.arena p o }) e

abbrev pub with_side_of : Side → BookSide → Engine → Engine
with_side_of s b e = with_book (with_side s b e.book) e

abbrev pub best_bid : Engine → Option ℕ
best_bid e = e.book.bids.best

abbrev pub best_ask : Engine → Option ℕ
best_ask e = e.book.asks.best

unfoldable pub affects_top : Engine → Side → ℕ → Bool
affects_top e bid px =
    not e.state.have_top || not e.state.have_bid_side || leb e.state.last_bid_px px
affects_top e ask px =
    not e.state.have_top || not e.state.have_ask_side || leb px e.state.last_ask_px

unfoldable pub mark_top : Side → ℕ → Engine → Engine
mark_top s px e =
    if not e.cfg.top_throttle || affects_top e s px
    then with_state (record e.state { top_dirty = true }) e
    else e

-- A price or a quantity of a side with no best is zero.
abbrev pub best_px : Option ℕ → ℕ
best_px none = 0
best_px (some px) = px

abbrev pub best_qty : BookSide → ℕ
best_qty b = elim b.best [ none ↦ 0 | some px ↦ aggregate_at b px ]

-- The top that the book shows, stamped.
abbrev pub current_top : Engine → ℕ → TopMsg
current_top e seq = record {
  bid_px = best_px (best_bid e);
  ask_px = best_px (best_ask e);
  bid_qty = best_qty e.book.bids;
  ask_qty = best_qty e.book.asks;
  seq = seq;
}

-- Whether the last top that was published is the one the book shows.
unfoldable pub top_unchanged : Engine → Bool
top_unchanged e =
    e.state.have_top
    && best_px (best_bid e) == e.state.last_bid_px
    && best_px (best_ask e) == e.state.last_ask_px
    && best_qty e.book.bids == e.state.last_bid_qty
    && best_qty e.book.asks == e.state.last_ask_qty

-- The part of `publish_top_if_changed_` behind its two early returns.
unfoldable pub refresh_top : Engine → Engine
refresh_top e =
    let seen = record e.state {
      top_dirty = false;
      have_bid_side = is_some (best_bid e);
      have_ask_side = is_some (best_ask e);
    } in
    let msg = current_top e (next_seq e) in
    let told = record seen {
      seq = next_seq e;
      last_bid_px = msg.bid_px;
      last_ask_px = msg.ask_px;
      last_bid_qty = msg.bid_qty;
      last_ask_qty = msg.ask_qty;
      have_top = true;
    } in
    if e.cfg.top_throttle && top_unchanged e
    then with_state seen e
    else publish (top msg) (with_state told e)

unfoldable pub publish_top_if_changed : Engine → Engine
unfolding refresh_top
publish_top_if_changed e =
    if not e.state.top_dirty
    then e
    else if not (e.state.suppress_top_depth == 0)
    then e
    else refresh_top e

module _ (c : Template) where
  -- Where the engine keeps an id index, the index without the id.
  abbrev pub unindex_id : ℕ → IdIndex → IdIndex
  unindex_id id x = if is_by_handle c then x else IdIndex.erase x id

  -- `resolve_`
  unfoldable pub resolve : Engine → OrderHandle → ℕ → Option Ptr
  resolve e h id =
      if leb c.max_orders h.slot
        || not (h.generation % 2 == 1)
        || not (generation e.book.arena h.slot == h.generation)
      then none
      else if (order_at e h.slot).id == id
      then some h.slot
      else none

  -- `handle_of_`
  unfoldable pub handle_of : Engine → Ptr → OrderHandle
  handle_of e p = record { slot = p; generation = generation e.book.arena p }

  -- `find_`, with the engine whose index may have given up the entry.
  unfoldable pub find : Engine → ℕ → OrderHandle → Bool → Option Ptr × Engine
  find e id h unindex =
      if is_by_handle c
      then (resolve e h id, e)
      else if unindex
      then (let (p, index) = IdIndex.take e.book.index id in
          (p, with_book (record e.book { index = index }) e))
      else (IdIndex.lookup e.book.index id, e)
