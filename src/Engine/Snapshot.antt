-- ===== src/Engine/Snapshot.antt =====
-- include/lob/snapshot.hpp: the header and the records of a snapshot, and include/lob/engine.hpp:
-- `snapshot`, `restore` and what they call. A sink and a source pass whole headers and records; the bytes
-- that `std::memcpy` makes of them are not modelled.
pub mod Clear
pub mod Empty
pub mod Replay
pub mod Restore
use orderbooks.Prelude.{
  ℕ, zero, suc, ◌+◌, ◌%◌, ◌^◌, Bool, true, false, ◌==◌, ◌&&◌, ◌||◌, not, ltb, leb, Option, none,
  some, List, [], ◌∷◌, ◌++◌, map, if◌then◌else◌, length, is_some,
}
use orderbooks.Prelude.Word.{all_ones, add_u64}
use orderbooks.Prelude.Bytes.{same}
use orderbooks.Types.{
  Ptr, Order, Side, bid, ask, Tif, gtc, ioc, fok, SelfCrossPolicy, cancel_newest, cancel_oldest,
  decrement_trade, Template, is_by_handle,
}
use orderbooks.Level.{order_count}
use orderbooks.Arena.{Arena, allocate, deallocate}
use orderbooks.IdIndex
use orderbooks.BookSide.{BookSide, side_of, remove, add, next_populated_at_or_after}
use orderbooks.Engine.{
  Engine, HotState, fresh_state, with_state, with_book, with_side_of, order_at, write_order,
  unindex_id,
}
use orderbooks.Engine.Match.{level_at}

pub record SnapshotHeader : Type 0 where
  pub magic : List ℕ
  pub version : ℕ
  pub ticks : ℕ
  pub max_orders : ℕ
  pub self_cross : ℕ
  pub top_throttle : ℕ
  pub seq : ℕ
  pub last_bid_px : ℕ
  pub last_ask_px : ℕ
  pub last_bid_qty : ℕ
  pub last_ask_qty : ℕ
  pub have_top : ℕ
  pub num_orders : ℕ

-- "LOBS"
abbrev pub magic_bytes : List ℕ
magic_bytes = b'L' ∷ b'O' ∷ b'B' ∷ b'S' ∷ []

abbrev pub wire_version : ℕ
wire_version = 1

pub record SnapshotOrderRecord : Type 0 where
  pub id : ℕ
  pub remaining : ℕ
  pub px : ℕ
  pub s : ℕ
  pub t : ℕ
  pub account_id : ℕ

-- What a source still has: a header, unless it is short of one, and whole records.
pub record Source : Type 0 where
  pub header : Option SnapshotHeader
  pub records : List SnapshotOrderRecord

-- The casts between the enumerations and their bytes.
abbrev pub side_byte : Side → ℕ
side_byte bid = 0
side_byte ask = 1

abbrev pub tif_byte : Tif → ℕ
tif_byte gtc = 0
tif_byte ioc = 1
tif_byte fok = 2

abbrev pub self_cross_byte : SelfCrossPolicy → ℕ
self_cross_byte cancel_newest = 0
self_cross_byte cancel_oldest = 1
self_cross_byte decrement_trade = 2

abbrev pub flag_byte : Bool → ℕ
flag_byte true = 1
flag_byte false = 0

abbrev pub side_from : ℕ → Side
side_from n = if n == 0 then bid else ask

abbrev pub tif_from : ℕ → Tif
tif_from n = if n == 0 then gtc else if n == 1 then ioc else fok

abbrev pub self_cross_from : ℕ → SelfCrossPolicy
self_cross_from n =
    if n == 0 then cancel_newest else if n == 1 then cancel_oldest else decrement_trade

module _ (c : Template) where
  -- The prices that `for_each_level` visits from `next` on, lowest first.
  unfoldable pub populated_from : ℕ → BookSide → Option ℕ → List ℕ
  populated_from zero b next = []
  populated_from (suc fuel) b next = elim next [
    | none ↦ []
    | some px ↦
        px ∷ populated_from fuel b (next_populated_at_or_after c.ticks b ((px + 1) % 2 ^ 32))
  ]

  unfoldable pub populated_prices : BookSide → List ℕ
  unfolding populated_from
  populated_prices b = populated_from (c.ticks + 1) b (next_populated_at_or_after c.ticks b 0)

  unfoldable pub count_levels : BookSide → ℕ → List ℕ → ℕ
  count_levels b count [] = count
  count_levels b count (px ∷ pxs) = count_levels b (add_u64 count (order_count (b.levels px))) pxs

  unfoldable pub count_resting : Engine → ℕ
  unfolding count_levels populated_prices
  count_resting e =
      count_levels e.book.asks (count_levels e.book.bids 0 (populated_prices e.book.bids))
        (populated_prices e.book.asks)

  abbrev pub record_of : Side → Order → SnapshotOrderRecord
  record_of s o = record {
    id = o.id;
    remaining = o.remaining;
    px = o.px;
    s = side_byte s;
    t = tif_byte o.t;
    account_id = o.account_id;
  }

  unfoldable pub emit_levels : Side → Engine → List ℕ → List SnapshotOrderRecord
  emit_levels s e [] = []
  emit_levels s e (px ∷ pxs) =
      map (λ p. record_of s (order_at e p)) (level_at e s px).fifo ++ emit_levels s e pxs

  unfoldable pub emit_side : Side → Engine → List SnapshotOrderRecord
  unfolding emit_levels
  emit_side s e = emit_levels s e (populated_prices (side_of s e.book))

  unfoldable pub snapshot : Engine → Source
  unfolding count_resting emit_side
  snapshot e = record {
    header = some (record {
      magic = magic_bytes;
      version = wire_version;
      ticks = c.ticks;
      max_orders = c.max_orders;
      self_cross = self_cross_byte e.cfg.self_cross;
      top_throttle = flag_byte e.cfg.top_throttle;
      seq = e.state.seq;
      last_bid_px = e.state.last_bid_px;
      last_ask_px = e.state.last_ask_px;
      last_bid_qty = e.state.last_bid_qty;
      last_ask_qty = e.state.last_ask_qty;
      have_top = flag_byte e.state.have_top;
      num_orders = count_resting e;
    });
    records = emit_side bid e ++ emit_side ask e;
  }

  -- The front order of a level leaves its side, the id index and the arena.
  unfoldable pub drop_resting : Side → Ptr → Engine → Engine
  drop_resting s p e =
      let o = order_at e p in
      let e' = with_side_of s (remove c.ticks s (side_of s e.book) p o) e in
      with_book
        (record e'.book {
          index = unindex_id c o.id e'.book.index;
          arena = deallocate (is_by_handle c) e'.book.arena p;
        })
        e'

  -- The inner loop of `clear_state_`.
  unfoldable pub drain_level : ℕ → Side → ℕ → Engine → Engine
  unfolding drop_resting
  drain_level zero s px e = e
  drain_level (suc fuel) s px e = elim (level_at e s px).fifo [
    | [] ↦ e
    | p ∷ ps ↦ drain_level fuel s px (drop_resting s p e)
  ]

  -- One of its outer loops. A level takes a round for each of its orders.
  unfoldable pub drain_side : ℕ → Side → Engine → Engine
  unfolding drain_level
  drain_side zero s e = e
  drain_side (suc fuel) s e = elim (side_of s e.book).best [
    | none ↦ e
    | some px ↦ drain_side fuel s (drain_level (length (level_at e s px).fifo) s px e)
  ]

  abbrev pub fresh_from : Engine → HotState
  fresh_from e = record fresh_state { seq = e.cfg.seq_base }

  unfoldable pub clear_state : Engine → Engine
  unfolding drain_side
  clear_state e =
      with_state (fresh_from e) (drain_side (c.ticks + 1) ask (drain_side (c.ticks + 1) bid e))

  abbrev pub clear_state_and_fail : Engine → Bool × Engine
  clear_state_and_fail e = (false, clear_state e)

  -- The record has only values that a resting order may have.
  unfoldable pub is_replayable : Engine → SnapshotOrderRecord → Bool
  is_replayable e rec =
      not (rec.id == 0)
      && not (rec.id == all_ones)
      && not (leb c.ticks rec.px)
      && not (ltb (side_byte ask) rec.s)
      && not (ltb (tif_byte fok) rec.t)
      && not (rec.remaining == 0)
      && not (ltb e.cfg.max_order_qty rec.remaining)

  -- The order that the record describes comes to rest in slot `p`.
  unfoldable pub replay_at : SnapshotOrderRecord → Ptr → Engine → Engine
  replay_at rec p e =
      let o : Order = record {
        id = rec.id;
        remaining = rec.remaining;
        px = rec.px;
        s = side_from rec.s;
        t = tif_from rec.t;
        account_id = rec.account_id;
      } in
      let e' = write_order p o e in
      let e'' = with_side_of o.s (add c.ticks o.s (side_of o.s e'.book) p o) e' in
      if is_by_handle c
      then e''
      else with_book (record e''.book { index = IdIndex.insert e''.book.index rec.id p }) e''

  unfoldable pub replay_record : SnapshotOrderRecord → Engine → Bool × Engine
  unfolding replay_at is_replayable
  replay_record rec e =
      let (found, arena) = allocate c.max_orders (is_by_handle c) e.book.arena in
      let e' = with_book (record e.book { arena = arena }) e in
      if is_replayable e rec
      then elim found [ none ↦ (false, e') | some p ↦ (true, replay_at rec p e') ]
      else (false, e)

  -- The loop of `restore` over the records.
  unfoldable pub replay_all : ℕ → List SnapshotOrderRecord → Engine → Bool × Engine
  unfolding replay_record clear_state
  replay_all zero recs e = (true, e)
  replay_all (suc n) [] e = clear_state_and_fail e
  replay_all (suc n) (rec ∷ recs) e =
      let (done, e') = replay_record rec e in
      elim done [ true ↦ replay_all n recs e' | false ↦ clear_state_and_fail e' ]

  unfoldable pub is_for_this_engine : SnapshotHeader → Bool
  is_for_this_engine hdr =
      same hdr.magic magic_bytes
      && hdr.version == wire_version
      && hdr.ticks == c.ticks
      && hdr.max_orders == c.max_orders
      && not (ltb (self_cross_byte decrement_trade) hdr.self_cross)

  -- The configuration and the state that the header carries.
  unfoldable pub adopt_header : SnapshotHeader → Engine → Engine
  adopt_header hdr e = record e {
    cfg = record e.cfg {
      self_cross = self_cross_from hdr.self_cross;
      top_throttle = not (hdr.top_throttle == 0);
    };
    state = record e.state {
      seq = hdr.seq;
      last_bid_px = hdr.last_bid_px;
      last_ask_px = hdr.last_ask_px;
      last_bid_qty = hdr.last_bid_qty;
      last_ask_qty = hdr.last_ask_qty;
      have_top = not (hdr.have_top == 0);
      top_dirty = false;
    };
  }

  unfoldable pub seed_presence : Engine → Engine
  seed_presence e =
      with_state
        (record e.state {
          have_bid_side = is_some e.book.bids.best;
          have_ask_side = is_some e.book.asks.best;
          top_dirty = false;
        })
        e

  -- `restore` behind its checks of the header.
  unfoldable pub restore_from : SnapshotHeader → List SnapshotOrderRecord → Engine → Bool × Engine
  unfolding adopt_header replay_all seed_presence
  restore_from hdr recs e =
      let (done, e') = replay_all hdr.num_orders recs (adopt_header hdr (clear_state e)) in
      if done then (true, seed_presence e') else (false, e')

  unfoldable pub restore : Source → Engine → Bool × Engine
  unfolding restore_from is_for_this_engine
  restore src e = elim src.header [
    | none ↦ clear_state_and_fail e
    | some hdr ↦
        if is_for_this_engine hdr then restore_from hdr src.records e else clear_state_and_fail e
  ]
