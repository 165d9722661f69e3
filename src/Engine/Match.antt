-- ===== src/Engine/Match.antt =====
-- include/lob/engine.hpp: `match_against_opposite_` with its two loops, `handle_self_cross_`,
-- and `rest_`. Each loop takes fuel for its rounds.
use orderbooks.Prelude.{
  ℕ, zero, suc, ◌+◌, ◌-◌, ◌==◌, ltb, Bool, true, false, ◌&&◌, not, none, some, min, if◌then◌else◌,
  [], ◌∷◌, length,
}
use orderbooks.Prelude.Word.{sub_u64}
use orderbooks.Types.{
  SelfCrossPolicy, Ptr, Order, OrderHandle, empty_handle, Side, bid, ask, opposite, cancel_newest,
  cancel_oldest, decrement_trade, Template, is_by_handle,
}
use orderbooks.Messages.{SubmitMsg, fill, trade, self_trade, reject, arena_full}
use orderbooks.Level.{Level, pop_front}
use orderbooks.Level
use orderbooks.Arena.{allocate, deallocate}
use orderbooks.IdIndex
use orderbooks.BookSide.{side_of, set_level, notify_level_emptied, add}
use orderbooks.Engine.{
  Engine, with_state, with_book, publish, next_seq, order_at, write_order, with_side_of, mark_top,
  unindex_id, handle_of,
}

abbrev pub level_at : Engine → Side → ℕ → Level
level_at e s px = (side_of s e.book).levels px

abbrev pub with_level : Side → ℕ → Level → Engine → Engine
with_level s px lvl e = with_side_of s (set_level (side_of s e.book) px lvl) e

abbrev pub set_dirty : Engine → Engine
set_dirty e = with_state (record e.state { top_dirty = true }) e

abbrev pub bump_seq : Engine → Engine
bump_seq e = with_state (record e.state { seq = next_seq e }) e

-- What a handler of one maker leaves: the engine, the aggressor's remaining quantity, and whether the
-- aggressor must abort.
pub record Outcome : Type 0 where
  pub engine : Engine
  pub remaining : ℕ
  pub aborted : Bool

-- `maker.remaining -= q; lvl.aggregate -= q; state_.top_dirty = true`. A trade quantity is at most the
-- maker's, so the first subtraction cannot wrap.
unfoldable pub decrement : Side → ℕ → Ptr → ℕ → Engine → Engine
decrement s px p q e =
    let maker = order_at e p in
    let lvl = level_at e s px in
    set_dirty (
      with_level s px (record lvl { aggregate = sub_u64 lvl.aggregate q })
        (write_order p (record maker { remaining = maker.remaining - q }) e))

-- `opp.best()` is a price that the aggressor reaches.
abbrev pub crosses : Side → ℕ → ℕ → Bool
crosses bid px best = not (ltb px best)
crosses ask px best = not (ltb best px)

module _ (c : Template) where
  -- The front order leaves the level, the id index and the arena.
  unfoldable pub drop_front : Side → ℕ → Ptr → Engine → Engine
  drop_front s px p e =
      let victim_id = (order_at e p).id in
      let lvl = level_at e s px in
      let e' = with_level s px (record lvl { fifo = pop_front lvl.fifo }) e in
      with_book
        (record e'.book {
          index = unindex_id c victim_id e'.book.index;
          arena = deallocate (is_by_handle c) e'.book.arena p;
        })
        e'

  -- The common end of a fill and of a decrement: the maker's quantity falls, and a maker with none left
  -- is dropped.
  unfoldable pub consume : Side → ℕ → Ptr → ℕ → Engine → Engine
  unfolding decrement drop_front
  consume s px p q e =
      let e' = decrement s px p q e in
      if (order_at e' p).remaining == 0 then drop_front s px p e' else e'

  -- The `fill_msg` and the `trade_msg` of one fill, under one sequence number.
  abbrev pub publish_fill : SubmitMsg → Order → ℕ → ℕ → Engine → Engine
  publish_fill m maker px q e = publish (trade (record { px = px; qty = q; seq = next_seq e })) (
      publish (fill (record { maker = maker.id; taker = m.id; px = px; qty = q; seq = next_seq e }))
        (bump_seq e))

  abbrev pub publish_self_trade : SubmitMsg → Order → ℕ → ℕ → Engine → Engine
  publish_self_trade m maker px q e =
      publish
        (self_trade (record {
          aggressor = m.id;
          resting = maker.id;
          account = m.account_id;
          px = px;
          qty = q;
          seq = next_seq e;
        }))
        (bump_seq e)

  -- The level loses the quantity of its front, which is then dropped.
  unfoldable pub cancel_front : Side → ℕ → Ptr → Engine → Engine
  unfolding drop_front
  cancel_front s px p e =
      let lvl = level_at e s px in
      let left = sub_u64 lvl.aggregate (order_at e p).remaining in
      set_dirty (drop_front s px p (with_level s px (record lvl { aggregate = left }) e))

  -- The `switch` on the policy.
  unfoldable pub self_cross_by : SelfCrossPolicy → SubmitMsg → Side → ℕ → Ptr → Engine → ℕ → Outcome
  unfolding consume cancel_front
  self_cross_by cancel_newest m s px p e remaining = record {
    engine = e;
    remaining = 0;
    aborted = true;
  }
  self_cross_by cancel_oldest m s px p e remaining = record {
    engine = cancel_front s px p e;
    remaining = remaining;
    aborted = false;
  }
  self_cross_by decrement_trade m s px p e remaining =
      let maker = order_at e p in
      let q = min remaining maker.remaining in
      record {
        engine = consume s px p q (publish_self_trade m maker px q e);
        remaining = remaining - q;
        aborted = false;
      }

  unfoldable pub handle_self_cross : SubmitMsg → Side → ℕ → Ptr → Engine → ℕ → Outcome
  unfolding self_cross_by
  handle_self_cross m s px p e remaining = self_cross_by e.cfg.self_cross m s px p e remaining

  -- A trade with a maker of another account.
  unfoldable pub fill_front : SubmitMsg → Side → ℕ → Ptr → Engine → ℕ → Outcome
  unfolding consume
  fill_front m s px p e remaining =
      let maker = order_at e p in
      let q = min remaining maker.remaining in
      record {
        engine = consume s px p q (publish_fill m maker px q e);
        remaining = remaining - q;
        aborted = false;
      }

  -- One round of the inner loop, on the level's front order.
  unfoldable pub match_front : SubmitMsg → Side → ℕ → Ptr → Engine → ℕ → Outcome
  unfolding fill_front handle_self_cross
  match_front m s px p e remaining =
      if not (m.account_id == 0) && (order_at e p).account_id == m.account_id
      then handle_self_cross m s px p e remaining
      else fill_front m s px p e remaining

  -- The inner loop, on the level of the opposite side `s` at `px`.
  unfoldable pub match_level : ℕ → SubmitMsg → Side → ℕ → Engine → ℕ → Outcome
  match_level zero m s px e remaining = record {
    engine = e;
    remaining = remaining;
    aborted = false;
  }
  match_level (suc f) m s px e remaining = elim (ltb 0 remaining) [
    | false ↦ record { engine = e; remaining = remaining; aborted = false }
    | true ↦ elim (level_at e s px).fifo [
      | [] ↦ record { engine = e; remaining = remaining; aborted = false }
      | p ∷ ps ↦
          let r = match_front m s px p e remaining in
          elim r.aborted [ true ↦ r | false ↦ match_level f m s px r.engine r.remaining ]
    ]
  ]

  -- `if (lvl.empty()) opp.notify_level_emptied(best_px)`
  unfoldable pub settle_level : Side → ℕ → Engine → Engine
  settle_level s px e =
      if Level.empty (level_at e s px)
      then with_side_of s (notify_level_emptied c.ticks s (side_of s e.book) px) e
      else e

  -- Rounds of the inner loop: each round but the last drops an order.
  abbrev pub level_rounds : Engine → Side → ℕ → ℕ
  level_rounds e s px = length (level_at e s px).fifo + 1

  -- The outer loop. `s` is the opposite side.
  unfoldable pub match_against_opposite : ℕ → SubmitMsg → Side → Engine → ℕ → Engine × ℕ
  unfolding settle_level
  match_against_opposite zero m s e remaining = (e, remaining)
  match_against_opposite (suc f) m s e remaining = elim (ltb 0 remaining) [
    | false ↦ (e, remaining)
    | true ↦ elim (side_of s e.book).best [
      | none ↦ (e, remaining)
      | some px ↦ elim (crosses (opposite s) m.px px) [
        | false ↦ (e, remaining)
        | true ↦
            let r = match_level (level_rounds e s px) m s px e remaining in
            let e' = settle_level s px r.engine in
            elim r.aborted [
              | true ↦ (e', r.remaining)
              | false ↦ match_against_opposite f m s e' r.remaining
            ]
      ]
    ]
  ]

  abbrev pub resting_order : SubmitMsg → Side → ℕ → Order
  resting_order m s remaining = record {
    id = m.id;
    remaining = remaining;
    px = m.px;
    s = s;
    t = m.t;
    account_id = m.account_id;
  }

  -- The order in its slot `p`, on its level, and in the id index where there is one.
  unfoldable pub place : Ptr → Order → Side → Engine → Engine
  place p o s e =
      let e' = write_order p o e in
      let e'' = with_side_of s (add c.ticks s (side_of s e'.book) p o) e' in mark_top s o.px e''

  unfoldable pub rest : SubmitMsg → Side → Engine → ℕ → OrderHandle × Engine
  unfolding place
  rest m s e remaining =
      let (slot, arena) = allocate c.max_orders (is_by_handle c) e.book.arena in
      let e' = with_book (record e.book { arena = arena }) e in
      elim slot [
        | none ↦ (
          empty_handle,
          publish
              (reject (record {
                id = m.id;
                account = m.account_id;
                px = m.px;
                qty = remaining;
                reason = arena_full;
                seq = next_seq e';
              }))
              (bump_seq e'),
        )
        | some p ↦
            let placed = place p (resting_order m s remaining) s e' in
            if is_by_handle c then (handle_of c placed p, placed) else (
              empty_handle,
              with_book (record placed.book { index = IdIndex.insert placed.book.index m.id p })
                  placed,
            )
      ]
