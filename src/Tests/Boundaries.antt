-- ===== src/Tests/Boundaries.antt =====
-- Snapshots and gateway orders at the engine of `Tests`.
use orderbooks.Hash.{splitmix64}
use orderbooks.Arena.{allocate}
use orderbooks.BookSide.{new_book, add}
use orderbooks.Level.{push_back}
use orderbooks.Engine.Snapshot.Empty.{clear_state-empty}
use orderbooks.Engine.Match.{place, rest, match_against_opposite}
use orderbooks.Engine.OnModify.{renamed_engine, FindsAgain}
use orderbooks.Gateway.Safe.{apply_order-BookInv}
use orderbooks.Engine.{
  top_unchanged, affects_top, mark_top, best_ask, publish_top_if_changed, find, new_engine,
  best_bid,
}
use orderbooks.Gateway.Acks.{apply_order-submit_acks, IsTruthful}
use orderbooks.Engine.Snapshot.Restore.{restore-fails-IsCleared, restore-BookInv, IsCleared}
use orderbooks.Engine.Handlers.{on_submit}
use orderbooks.Engine.Cancel.{IsLiveIfFound}
use orderbooks.Engine.Invariant.{BookInv}
use orderbooks.Prelude.{◌<◌, ◌^◌, arith, refl, [], ◌∷◌, some, none, true, false, ◌≡◌}
use orderbooks.Types.{Ptr, empty_handle}
use orderbooks.IdIndex
use orderbooks.Engine.Snapshot.{
  is_replayable, replay_record, replay_all, fresh_from, restore_from, is_for_this_engine, restore,
  clear_state, Source, magic_bytes,
}
use orderbooks.Gateway.{wire_modify, apply_order, reset, WireOrder}
use orderbooks.Tests.{small, small-IsValid, small-shallow, offered, offered-BookInv, offered_fits}

capped : offered.cfg.max_order_qty < 2 ^ 64
unfolding on_submit new_engine publish_top_if_changed match_against_opposite rest place push_back
    add allocate mark_top find new_book affects_top top_unchanged IdIndex.take IdIndex.insert
    IdIndex.probe IdIndex.ensure_storage IdIndex.new_index IdIndex.bit_ceil IdIndex.home splitmix64
capped = omega arith

-- A header for the template, and a record whose id is the reserved zero.
abbrev damaged : Source
damaged = record {
  header = some (record {
    magic = magic_bytes;
    version = 1;
    ticks = 16;
    max_orders = 4;
    self_cross = 0;
    top_throttle = 1;
    seq = 9;
    last_bid_px = 0;
    last_ask_px = 0;
    last_bid_qty = 0;
    last_ask_qty = 0;
    have_top = 0;
    num_orders = 1;
  });
  records = record { id = 0; remaining = 1; px = 3; s = 0; t = 0; account_id = 0 } ∷ [];
}

restore-BookInv_example : BookInv small (restore small damaged offered).1.book
restore-BookInv_example = restore-BookInv small damaged offered small-IsValid capped offered-BookInv

damaged_fails : (restore small damaged offered).0 ≡ false
unfolding restore is_for_this_engine restore_from replay_all replay_record is_replayable
damaged_fails = refl

restore-fails-IsCleared_example : IsCleared small (restore small damaged offered).1
restore-fails-IsCleared_example =
    restore-fails-IsCleared small damaged offered small-IsValid capped offered-BookInv damaged_fails

clear_state-empty_example :
    let e = clear_state small offered in
    (best_bid e ≡ none) × (best_ask e ≡ none) × (e.state ≡ fresh_from small offered)
clear_state-empty_example = clear_state-empty small offered small-shallow offered-BookInv

-- A purchase off the wire, of an id that no order has yet.
abbrev wire : WireOrder
wire = record { id = 2; qty = 4; px = 6; new_px = 0; op = 0; side = 0; tif = 0 }

wire_lem :
    ((find small (reset small offered) 2 empty_handle true).0 ≡ none)
    × ((find small (reset small offered) 2 empty_handle false).0 ≡ none)
unfolding on_submit new_engine publish_top_if_changed match_against_opposite rest place push_back
    add allocate mark_top find new_book affects_top top_unchanged IdIndex.take IdIndex.insert
    IdIndex.probe IdIndex.ensure_storage IdIndex.new_index IdIndex.bit_ceil IdIndex.home splitmix64
    IdIndex.lookup
wire_lem = (refl, refl)

wire_taken :
    IsLiveIfFound small
      (reset small offered)
      (find small (reset small offered) 2 empty_handle true).0
wire_taken = rw (wire_lem.0) tt

wire_found :
    IsLiveIfFound small
      (reset small offered)
      (find small (reset small offered) 2 empty_handle false).0
wire_found = rw (wire_lem.1) tt

wire_again :
    (p : Ptr)
    → (find small (reset small offered) 2 empty_handle false).0 ≡ some p
    → FindsAgain small
        (wire_modify small wire)
        p
        (renamed_engine small (wire_modify small wire) p (reset small offered))
wire_again p found = absurd (cc (found, wire_lem.1))

apply_order-BookInv_example : BookInv small (apply_order small wire offered).1.book
apply_order-BookInv_example =
    apply_order-BookInv small wire offered small-IsValid capped wire_taken wire_found wire_again
      offered-BookInv

apply_order-submit_acks_example :
    IsTruthful small wire offered
      (apply_order small wire offered).0
      (apply_order small wire offered).1
apply_order-submit_acks_example =
    apply_order-submit_acks small wire offered small-IsValid capped offered-BookInv offered_fits
      refl
