-- ===== src/Engine/Handlers.antt =====
-- include/lob/engine.hpp: the entry points `on_submit`, `on_cancel` and `on_modify`, and
-- include/lob/shard_worker.hpp: `apply_command` and the commands of `apply_batch` in order. The prefetches
-- write nothing and are left out.
use orderbooks.Prelude.{
  ◌^◌, ◌%◌, ℕ, ◌+◌, ◌-◌, ◌==◌, ltb, Bool, true, false, ◌&&◌, not, none, some, if◌then◌else◌, List,
  [], ◌∷◌,
}
use orderbooks.Prelude.Word.{sub_u64, add_u64}
use orderbooks.Types.{
  Ptr, OrderHandle, empty_handle, Side, bid, ask, opposite, Tif, gtc, ioc, fok, Template,
  is_by_handle,
}
use orderbooks.Messages.{SubmitMsg, CancelMsg, ModifyMsg, Command, submit, cancel, modify}
use orderbooks.Arena.{deallocate}
use orderbooks.IdIndex
use orderbooks.BookSide.{side_of, remove, add}
use orderbooks.Engine.{
  Engine, with_book, with_state, order_at, write_order, with_side_of, best_bid, best_ask, mark_top,
  publish_top_if_changed, find,
}
use orderbooks.Engine.Match.{match_against_opposite, rest, level_at, with_level}
use orderbooks.Engine.Fok.{can_fully_fill}

abbrev pub is_fok : Tif → Bool
is_fok gtc = false
is_fok ioc = false
is_fok fok = true

module _ (c : Template) where
  -- Only a `gtc` order may rest.
  unfoldable pub finish_by_tif : Tif → SubmitMsg → Side → Engine → ℕ → OrderHandle × Engine
  finish_by_tif gtc m s e remaining = rest c m s e remaining
  finish_by_tif ioc m s e remaining = (empty_handle, e)
  finish_by_tif fok m s e remaining = (empty_handle, e)

  -- What becomes of the quantity that matching left.
  unfoldable pub finish_submit : SubmitMsg → Side → Engine × ℕ → OrderHandle × Engine
  unfolding finish_by_tif
  finish_submit m s (e, remaining) =
      if remaining == 0 then (empty_handle, e) else finish_by_tif m.t m s e remaining

  -- `handle_submit_<Side>`. A round of the matching loop that goes on has emptied a level.
  unfoldable pub handle_submit : SubmitMsg → Side → Engine → OrderHandle × Engine
  unfolding finish_submit
  handle_submit m s e =
      let opp = opposite s in
      if is_fok m.t && not (can_fully_fill c e opp m.px m.qty m.account_id)
      then (empty_handle, e)
      else finish_submit m s (match_against_opposite c (c.ticks + 1) m opp e m.qty)

  unfoldable pub on_submit : SubmitMsg → Engine → OrderHandle × Engine
  unfolding handle_submit
  on_submit m e = let (h, e') = handle_submit m m.s e in (h, publish_top_if_changed e')

  -- The order at `p` leaves its side and the arena.
  unfoldable pub remove_order : Ptr → Engine → Engine
  remove_order p e =
      let o = order_at e p in
      let e' = with_side_of o.s (remove c.ticks o.s (side_of o.s e.book) p o) e in
      mark_top o.s o.px
        (with_book (record e'.book { arena = deallocate (is_by_handle c) e'.book.arena p }) e')

  unfoldable pub on_cancel : CancelMsg → Engine → Engine
  unfolding remove_order
  on_cancel m e =
      let (found, e') = find c e m.id m.handle true in
      elim found [ none ↦ e' | some p ↦ publish_top_if_changed (remove_order p e') ]

  -- The rename of the order at `p` to the modify's next id.
  unfoldable pub rename_order : ModifyMsg → Ptr → Engine → Engine
  rename_order m p e =
      let e' = write_order p (record (order_at e p) { id = m.new_id }) e in
      if is_by_handle c
      then e'
      else with_book (record e'.book { index = IdIndex.insert e'.book.index m.new_id p }) e'

  -- A quantity change at the same price keeps the order's place.
  unfoldable pub change_qty : ModifyMsg → Ptr → Engine → Engine
  change_qty m p e =
      let o = order_at e p in
      let lvl = level_at e o.s o.px in
      let aggregate = add_u64 (sub_u64 lvl.aggregate o.remaining) m.new_qty in
      mark_top o.s o.px (
        write_order p (record o { remaining = m.new_qty })
          (with_level o.s o.px (record lvl { aggregate = aggregate }) e))

  -- A price change that still rests takes the same record to the back of its new level.
  unfoldable pub relink : ModifyMsg → Ptr → Engine → Engine
  relink m p e =
      let o = order_at e p in
      let e' = with_side_of o.s (remove c.ticks o.s (side_of o.s e.book) p o) e in
      let o' = record o { px = m.new_px; remaining = m.new_qty } in
      let e'' = write_order p o' e' in
      let e''' = with_side_of o.s (add c.ticks o.s (side_of o.s e''.book) p o') e'' in
      mark_top o.s m.new_px (mark_top o.s o.px e''')

  -- Whether an order of side `s` at `px` rests: the opposite side has no best that it reaches.
  unfoldable pub still_rests : Side → ℕ → Engine → Bool
  still_rests bid px e = elim (best_ask e) [ none ↦ true | some a ↦ ltb px a ]
  still_rests ask px e = elim (best_bid e) [ none ↦ true | some b ↦ ltb b px ]

  abbrev pub suppress : Engine → Engine
  suppress e =
      with_state (record e.state { suppress_top_depth = (e.state.suppress_top_depth + 1) % 2 ^ 8 })
        e

  abbrev pub unsuppress : Engine → Engine
  unsuppress e =
      with_state
        (record e.state { suppress_top_depth = (e.state.suppress_top_depth + 2 ^ 8 - 1) % 2 ^ 8 }) e

  -- A crossing price change: cancel and submit again under one suppressed top.
  unfoldable pub resubmit : ModifyMsg → Ptr → Engine → OrderHandle × Engine
  unfolding on_cancel on_submit
  resubmit m p e =
      let o = order_at e p in
      let cancelled = on_cancel (record { id = o.id; handle = m.handle }) (suppress e) in
      let (h, e') =
        on_submit
          (record {
            id = o.id;
            px = m.new_px;
            qty = m.new_qty;
            s = o.s;
            t = o.t;
            account_id = o.account_id;
          })
          cancelled in
      (h, publish_top_if_changed (unsuppress e'))

  -- The part of `on_modify` behind the rename.
  unfoldable pub modify_order : ModifyMsg → Ptr → Engine → OrderHandle × Engine
  unfolding change_qty relink resubmit still_rests
  modify_order m p e =
      let o = order_at e p in
      if m.new_px == o.px
      then (if m.new_qty == o.remaining
          then (m.handle, e)
          else (m.handle, publish_top_if_changed (change_qty m p e)))
      else if still_rests o.s m.new_px e
      then (m.handle, publish_top_if_changed (relink m p e))
      else resubmit m p e

  abbrev pub renames : ModifyMsg → Bool
  renames m = not (m.new_id == 0) && not (m.new_id == m.id)

  unfoldable pub on_modify : ModifyMsg → Engine → OrderHandle × Engine
  unfolding rename_order modify_order
  on_modify m e =
      let (found, e') = find c e m.id m.handle (renames m) in
      elim found [
        | none ↦ (empty_handle, e')
        | some p ↦ modify_order m p (if renames m then rename_order m p e' else e')
      ]

  unfoldable pub apply_command : Command → Engine → OrderHandle × Engine
  unfolding on_submit on_cancel on_modify
  apply_command (submit m) e = on_submit m e
  apply_command (cancel m) e = (empty_handle, on_cancel m e)
  apply_command (modify m) e = on_modify m e

  -- The engine after the commands of a batch, in order.
  unfoldable pub apply_batch : List Command → Engine → Engine
  unfolding apply_command
  apply_batch [] e = e
  apply_batch (k ∷ ks) e = apply_batch ks (apply_command k e).1
