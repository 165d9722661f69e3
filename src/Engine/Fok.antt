-- ===== src/Engine/Fok.antt =====
-- include/lob/engine.hpp: `can_fully_fill_`, the walk over the opposite side before a fill-or-kill order
-- may match. The walk over the levels takes fuel, a round for each.
pub mod Enough
pub mod Levels
pub mod Ahead
pub mod Verdict
pub mod AllOrNone
use orderbooks.Prelude.{
  ◌-◌, ◌&&◌, ◌^◌, ◌||◌, ◌%◌, ◌==◌, if◌then◌else◌, ◌+◌, ℕ, zero, suc, Bool, true, false, Option,
  none, some, List, [], ◌∷◌,
}
use orderbooks.Prelude.Word.{add_u64}
use orderbooks.Types.{
  Ptr, Side, bid, ask, SelfCrossPolicy, cancel_newest, cancel_oldest, decrement_trade, Template,
}
use orderbooks.BookSide.{
  BookSide, side_of, aggregate_at, next_populated_at_or_after, prev_populated_at_or_before,
}
use orderbooks.Prelude.{not, leb}
use orderbooks.Engine.{Engine, order_at}

-- `total`, `aborted`, and whether `consume_level` asks to stop.
pub record Walk : Type 0 where
  pub total : ℕ
  pub aborted : Bool
  pub stop : Bool

abbrev pub is_cancel_newest : SelfCrossPolicy → Bool
is_cancel_newest cancel_newest = true
is_cancel_newest cancel_oldest = false
is_cancel_newest decrement_trade = false

abbrev pub is_decrement_trade : SelfCrossPolicy → Bool
is_decrement_trade cancel_newest = false
is_decrement_trade cancel_oldest = false
is_decrement_trade decrement_trade = true

abbrev pub all_consumable : Engine → ℕ → Bool
all_consumable e acct = acct == 0 || is_decrement_trade e.cfg.self_cross

module _ (e : Engine) (want acct : ℕ) where
  -- The loop over one FIFO.
  unfoldable pub walk_fifo : List Ptr → ℕ → Walk
  walk_fifo [] total = record { total = total; aborted = false; stop = false }
  walk_fifo (p ∷ ps) total =
      let o = order_at e p in
      let skipped = walk_fifo ps total in
      let counted = add_u64 total o.remaining in
      let rest = walk_fifo ps counted in
      if o.account_id == acct
      then (if is_cancel_newest e.cfg.self_cross
          then record { total = total; aborted = true; stop = true }
          else skipped)
      else if leb want counted
      then record { total = counted; aborted = false; stop = true }
      else rest

  unfoldable pub consume_level : BookSide → ℕ → ℕ → Walk
  unfolding walk_fifo
  consume_level b px total =
      let all = add_u64 total (aggregate_at b px) in
      if all_consumable e acct
      then record { total = all; aborted = false; stop = leb want all }
      else walk_fifo (b.levels px).fifo total

-- Whether the walk goes on to a level at `px`, on the side that is walked.
abbrev pub within : Side → ℕ → ℕ → Bool
within ask px aggressor_px = leb px aggressor_px
within bid px aggressor_px = leb aggressor_px px

-- The next level of the walk. `*px + 1` is a `tick_t`; at price 0 the walk down ends.
unfoldable pub next_level : ℕ → Side → BookSide → ℕ → Option ℕ
next_level ticks ask b px = next_populated_at_or_after ticks b ((px + 1) % 2 ^ 32)
next_level ticks bid b px = if px == 0 then none else prev_populated_at_or_before ticks b (px - 1)

module _ (c : Template) (e : Engine) (s : Side) (aggressor_px want acct : ℕ) where
  unfoldable pub walk_levels : ℕ → Option ℕ → ℕ → Walk
  unfolding consume_level next_level
  walk_levels zero px total = record { total = total; aborted = false; stop = false }
  walk_levels (suc f) none total = record { total = total; aborted = false; stop = false }
  walk_levels (suc f) (some px) total =
      let b = side_of s e.book in
      let here = consume_level e want acct b px total in
      let rest = walk_levels f (next_level c.ticks s b px) here.total in
      if within s px aggressor_px
      then (if here.stop then here else rest)
      else record { total = total; aborted = false; stop = false }

  -- `can_fully_fill_<Opp>`. The levels of the walk are distinct prices below `Ticks`.
  unfoldable pub can_fully_fill : Bool
  unfolding walk_levels
  can_fully_fill =
      let w = walk_levels (c.ticks + 1) (side_of s e.book).best 0 in
      not w.aborted && leb want w.total
