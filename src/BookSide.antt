-- ===== src/BookSide.antt =====
-- include/lob/book.hpp: `book_side<Ticks, Side>`, a dense ladder of levels with a bitmap of the populated
-- ones and a cached best price, and `book`. The template arguments are arguments.
pub mod Levels
pub mod Unlink
pub mod Invariant
pub mod Settle
pub mod Change
use orderbooks.Prelude.{ℕ, ◌==◌, ltb, Bool, false, Option, none, some, if◌then◌else◌, update}
use orderbooks.Types.{Ptr, Order, Side, bid, ask, Template}
use orderbooks.Level.{Level, empty_level, push_back, unlink}
use orderbooks.Level
use orderbooks.Bitmap.{Bitmap, empty_bitmap, lowest_set, highest_set}
use orderbooks.Bitmap
use orderbooks.Bitmap.Search.{next_set_at_or_after, prev_set_at_or_before}
use orderbooks.Arena.{Arena, new_arena}
use orderbooks.IdIndex.{IdIndex, new_index}

pub record BookSide : Type 0 where
  pub levels : ℕ → Level
  pub bm : Bitmap
  pub best : Option ℕ

abbrev pub empty_side : BookSide
empty_side = record { levels = λ px. empty_level; bm = empty_bitmap; best = none }

abbrev pub aggregate_at : BookSide → ℕ → ℕ
aggregate_at b px = (b.levels px).aggregate

abbrev pub set_level : BookSide → ℕ → Level → BookSide
set_level b px lvl = record b { levels = update b.levels px lvl }

-- Whether price `px` is ahead of price `q` on a side.
abbrev pub is_better : Side → ℕ → ℕ → Bool
is_better bid px q = ltb q px
is_better ask px q = ltb px q

-- The best after an order came to rest at `px`.
abbrev pub improve : Side → ℕ → Option ℕ → Option ℕ
improve s px none = some px
improve s px (some q) = if is_better s px q then some px else some q

-- `best_ == px`
abbrev pub is_best : Option ℕ → ℕ → Bool
is_best none px = false
is_best (some q) px = q == px

module _ (ticks : ℕ) where
  -- `recompute_best_`
  unfoldable pub best_of : Side → Bitmap → Option ℕ
  best_of bid bm = highest_set ticks bm
  best_of ask bm = lowest_set ticks bm

  -- `o` is what `p` points to.
  unfoldable pub add : Side → BookSide → Ptr → Order → BookSide
  add s b p o =
      let lvl = b.levels o.px in
      record {
        levels = update b.levels o.px (push_back lvl p o);
        bm = if Level.empty lvl then Bitmap.set ticks b.bm o.px else b.bm;
        best = improve s o.px b.best;
      }

  unfoldable pub notify_level_emptied : Side → BookSide → ℕ → BookSide
  notify_level_emptied s b px =
      let bm = Bitmap.clear ticks b.bm px in
      record b { bm = bm; best = if is_best b.best px then best_of s bm else b.best }

  unfoldable pub remove : Side → BookSide → Ptr → Order → BookSide
  unfolding notify_level_emptied
  remove s b p o =
      let lvl = unlink (b.levels o.px) p o in
      let b' = set_level b o.px lvl in
      if Level.empty lvl then notify_level_emptied s b' o.px else b'

  unfoldable pub next_populated_at_or_after : BookSide → ℕ → Option ℕ
  next_populated_at_or_after b px = next_set_at_or_after ticks b.bm px

  unfoldable pub prev_populated_at_or_before : BookSide → ℕ → Option ℕ
  prev_populated_at_or_before b px = prev_set_at_or_before ticks b.bm px

pub record Book : Type 0 where
  pub bids : BookSide
  pub asks : BookSide
  pub arena : Arena
  pub index : IdIndex

unfoldable pub new_book : Template → Book
new_book c = record {
  bids = empty_side;
  asks = empty_side;
  arena = new_arena;
  index = new_index c.max_orders;
}

-- `side_<S>()`, read and written.
abbrev pub side_of : Side → Book → BookSide
side_of bid b = b.bids
side_of ask b = b.asks

abbrev pub with_side : Side → BookSide → Book → Book
with_side bid s b = record b { bids = s }
with_side ask s b = record b { asks = s }
