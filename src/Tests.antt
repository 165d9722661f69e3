-- ===== src/Tests.antt =====
-- Runs of the engine on concrete commands, and every theorem at an input where its hypotheses hold.
mod Components
mod Parsing
mod Rings
mod Boundaries
mod Flows
mod Searches
mod Printing
mod Samples
use orderbooks.Types.{fok}
use orderbooks.Prelude.{◌<◌, ◌^◌, ◌++◌}
use orderbooks.Engine.Fok.{can_fully_fill}
use orderbooks.Engine.Fok.Enough.{volume, is_enough}
use orderbooks.Engine.Fok.Verdict.{can_fully_fill-is_enough}
use orderbooks.Engine.Fok.AllOrNone.{on_submit-IsAllOrNone, IsAllOrNone, is_supplied}
use orderbooks.Engine.Priority.{match_orders}
use orderbooks.Engine.Priority.Ladder.{ladder, orders_on}
use orderbooks.Engine.Priority.Effects.{orders_at}
use orderbooks.Engine.Priority.Resting.{resting}
use orderbooks.Engine.Priority.Refine.{match_against_opposite_refines}
use orderbooks.Engine.Priority.Lists.{submit_to_lists}
use orderbooks.Engine.Priority.Rest.{has_slot}
use orderbooks.Engine.Priority.Submit.{handle_submit_refines, IsSubmitted}
use orderbooks.Engine.Priority.Cancel.{on_cancel-IsCancelled, IsCancelled}
use orderbooks.Engine.ModifyUncrossed.{on_modify-IsUncrossed}
use orderbooks.Engine.CancelUncrossed.{on_cancel-IsUncrossed}
use orderbooks.Engine.Uncrossed.{on_submit-IsUncrossed, IsUncrossed}
use orderbooks.Engine.Traded.{
  match_level-no_account, match_against_opposite-IsAccounted, match_level-IsAccounted, IsAccounted,
}
use orderbooks.Engine.SeenTop.{Remembers}
use orderbooks.Engine.Top.{publish_top_if_changed-IsPublished, IsPublished, reader}
use orderbooks.Prelude.{none}
use orderbooks.Engine.OnModify.{FindsAgain, IsValidModify, on_modify-BookInv, renamed_engine}
use orderbooks.Level.{push_back}
use orderbooks.Engine.Match.{rest, place, level_at}
use orderbooks.BookSide.{add, new_book}
use orderbooks.Arena.{allocate, is_live}
use orderbooks.IdIndex
use orderbooks.Hash.{splitmix64}
use orderbooks.Prelude.{subst, ◌∙◌, sym, ◌≤◌}
use orderbooks.Engine.{order_at, affects_top, top_unchanged, mark_top, publish_top_if_changed, find}
use orderbooks.Bitmap.{l3_words, l2_words, l1_words, l0_words}
use orderbooks.Engine.Matching.{match_against_opposite-BookInv}
use orderbooks.Engine.Match.{level_at, match_against_opposite, match_level}
use orderbooks.Engine.Cancel.{on_cancel-BookInv, IsLiveIfFound}
use orderbooks.Engine.Initial.{new_book-BookInv}
use orderbooks.Engine.Invariant.{BookInv}
use orderbooks.Engine.Progress.{match_level-IsSettled, IsSettled}
use orderbooks.Engine.Submit.{on_submit-BookInv, IsValidSubmit, IsValidTemplate}
use orderbooks.Arena.{is_live}
use orderbooks.Engine.Termination.{match_against_opposite-ends, IsMatched}
use orderbooks.Prelude.{[], ◌∷◌, length, ap, some, refl, true, arith, ◌≡◌, ℕ}
use orderbooks.Types.{Ptr, Template, by_id, default_config, Side, bid, ask, gtc, empty_handle}
use orderbooks.Messages.{ModifyMsg, CancelMsg, SubmitMsg}
use orderbooks.Engine.{publish_top_if_changed, find, Engine, new_engine}
use orderbooks.Engine.Handlers.{renames, suppress, handle_submit, on_modify, on_cancel, on_submit}

-- Four orders on a ladder of sixteen prices, found by id.
abbrev small : Template
small = record { ticks = 16; max_orders = 4; lookup = by_id }

small-shallow : l3_words small.ticks ≤ 1
unfolding l3_words l2_words l1_words l0_words
small-shallow = omega arith

small-IsValid : IsValidTemplate small
small-IsValid = record { some_room = omega arith; shallow = small-shallow }

abbrev order_of : ℕ → Side → ℕ → ℕ → SubmitMsg
order_of i s px qty = record { id = i; px = px; qty = qty; s = s; t = gtc; account_id = 0 }

abbrev sale : SubmitMsg
sale = order_of 1 ask 5 10

abbrev purchase : SubmitMsg
purchase = order_of 2 bid 6 4

sale-IsValid : IsValidSubmit small sale
sale-IsValid = record { on_ladder = omega arith; fits = omega arith }

purchase-IsValid : IsValidSubmit small purchase
purchase-IsValid = record { on_ladder = omega arith; fits = omega arith }

abbrev started : Engine
started = new_engine small default_config

started-BookInv : BookInv small started.book
unfolding new_engine new_book
started-BookInv = new_book-BookInv small

-- The engine with the sale at rest.
abbrev offered : Engine
offered = (on_submit small sale started).1

offered-BookInv : BookInv small offered.book
offered-BookInv = on_submit-BookInv small sale started small-IsValid sale-IsValid started-BookInv

on_submit-BookInv_example : BookInv small (on_submit small purchase offered).1.book
on_submit-BookInv_example =
    on_submit-BookInv small purchase offered small-IsValid purchase-IsValid offered-BookInv

offered_lem :
    (is_live (offered.book.arena.slots 0) ≡ true)
    × ((find small offered 1 empty_handle true).0 ≡ some 0)
    × ((level_at offered ask 5).fifo ≡ 0 ∷ [])
unfolding on_submit new_engine publish_top_if_changed match_against_opposite rest place push_back
    add allocate mark_top find new_book affects_top top_unchanged IdIndex.take IdIndex.insert
    IdIndex.probe IdIndex.ensure_storage IdIndex.new_index IdIndex.bit_ceil IdIndex.home splitmix64
offered_lem = (refl, refl, refl)

abbrev withdrawal : CancelMsg
withdrawal = record { id = 1; handle = empty_handle }

withdrawal_finds : IsLiveIfFound small offered (find small offered 1 empty_handle true).0
withdrawal_finds = rw (offered_lem.1) (offered_lem.0)

on_cancel-BookInv_example : BookInv small (on_cancel small withdrawal offered).book
on_cancel-BookInv_example =
    on_cancel-BookInv small withdrawal offered small-shallow withdrawal_finds offered-BookInv

match_against_opposite-ends_example :
    IsMatched small purchase ask (match_against_opposite small 17 purchase ask offered 4)
match_against_opposite-ends_example =
    match_against_opposite-ends small purchase ask offered 4 small-shallow offered-BookInv

-- The sale at rest, before its top is published.
abbrev pending : Engine
pending = (handle_submit small sale ask started).1

-- No top was told yet, and none is remembered.
pending_lem : Remembers pending (reader none pending)
unfolding on_submit new_engine publish_top_if_changed match_against_opposite rest place push_back
    add allocate mark_top find new_book affects_top top_unchanged IdIndex.take IdIndex.insert
    IdIndex.probe IdIndex.ensure_storage IdIndex.new_index IdIndex.bit_ceil IdIndex.home splitmix64
pending_lem = refl

publish_top_if_changed-IsPublished_example :
    IsPublished none pending (publish_top_if_changed pending)
publish_top_if_changed-IsPublished_example =
    publish_top_if_changed-IsPublished none pending pending_lem

-- The sale moves to price 7 with less quantity.
abbrev repricing : ModifyMsg
repricing = record { id = 1; new_px = 7; new_qty = 3; new_id = 0; handle = empty_handle }

repricing-IsValid : IsValidModify small repricing
repricing-IsValid = record { on_ladder = omega arith; positive = omega arith; fits = omega arith }

repricing_lem :
    ((find small offered 1 empty_handle (renames small repricing)).0 ≡ some 0)
    × ((find small
          (suppress small (renamed_engine small repricing 0 offered))
          (order_at (renamed_engine small repricing 0 offered) 0).id
          empty_handle
          true).0
        ≡ some 0)
    × (is_live ((suppress small (renamed_engine small repricing 0 offered)).book.arena.slots 0)
        ≡ true)
unfolding on_submit new_engine publish_top_if_changed match_against_opposite rest place push_back
    add allocate mark_top find new_book affects_top top_unchanged IdIndex.take IdIndex.insert
    IdIndex.probe IdIndex.ensure_storage IdIndex.new_index IdIndex.bit_ceil IdIndex.home splitmix64
    IdIndex.lookup
repricing_lem = (refl, refl, refl)

repricing_found :
    IsLiveIfFound small offered (find small offered 1 empty_handle (renames small repricing)).0
repricing_found = rw (repricing_lem.0) (offered_lem.0)

repricing_again :
    (p : Ptr)
    → (find small offered 1 empty_handle (renames small repricing)).0 ≡ some p
    → FindsAgain small repricing p (renamed_engine small repricing p offered)
repricing_again p found =
    let slot : some p ≡ some 0 = sym found ∙ repricing_lem.0 in
    let same : 0 ≡ p = ground arith in
    subst (λ q. FindsAgain small repricing q (renamed_engine small repricing q offered)) same
      (rw (repricing_lem.1) (repricing_lem.2))

on_modify-BookInv_example : BookInv small (on_modify small repricing offered).1.book
on_modify-BookInv_example =
    on_modify-BookInv small repricing offered small-IsValid repricing-IsValid repricing_found
      repricing_again offered-BookInv

started-IsUncrossed : IsUncrossed started.book
unfolding new_engine new_book
started-IsUncrossed x a bx ba = cc

offered-IsUncrossed : IsUncrossed offered.book
offered-IsUncrossed =
    on_submit-IsUncrossed small sale started small-shallow started-BookInv started-IsUncrossed

on_submit-IsUncrossed_example : IsUncrossed (on_submit small purchase offered).1.book
on_submit-IsUncrossed_example =
    on_submit-IsUncrossed small purchase offered small-shallow offered-BookInv offered-IsUncrossed

match_against_opposite-IsAccounted_example :
    let r = match_against_opposite small 17 purchase ask offered 4 in
    IsAccounted small offered 4 r.0 r.1
match_against_opposite-IsAccounted_example =
    match_against_opposite-IsAccounted small 17 purchase ask offered 4 refl

on_cancel-IsUncrossed_example : IsUncrossed (on_cancel small withdrawal offered).book
on_cancel-IsUncrossed_example =
    on_cancel-IsUncrossed small withdrawal offered small-shallow offered-BookInv offered-IsUncrossed

on_modify-IsUncrossed_example : IsUncrossed (on_modify small repricing offered).1.book
on_modify-IsUncrossed_example =
    on_modify-IsUncrossed small repricing offered small-shallow repricing_found repricing_again
      offered-BookInv offered-IsUncrossed

match_against_opposite_refines_example :
    let r = match_against_opposite small 17 purchase ask offered 4 in
    let t =
      match_orders offered.cfg.self_cross purchase ask
        (resting small offered ask)
        4
        offered.state.seq in
    (r.0.published ≡ offered.published ++ t.events)
    × (resting small r.0 ask ≡ t.left)
    × (r.1 ≡ t.remaining)
    × (r.0.state.seq ≡ t.seq)
    × (resting small r.0 bid ≡ resting small offered bid)
match_against_opposite_refines_example =
    match_against_opposite_refines small purchase ask offered 4 small-shallow offered-BookInv

-- Ten are offered.
offered_volume : volume (resting small offered ask) ≡ 10
unfolding on_submit new_engine publish_top_if_changed match_against_opposite rest place push_back
    add allocate mark_top find new_book affects_top top_unchanged IdIndex.take IdIndex.insert
    IdIndex.probe IdIndex.ensure_storage IdIndex.new_index IdIndex.bit_ceil IdIndex.home splitmix64
    resting orders_on orders_at ladder
offered_volume = refl

-- All or none of the purchase.
abbrev sweep : SubmitMsg
sweep = record purchase { t = fok }

pub offered_fits : volume (resting small offered ask) < 2 ^ 64
offered_fits = rw offered_volume (omega arith)

can_fully_fill-is_enough_example :
    can_fully_fill small offered ask 6 4 0
    ≡ is_enough offered.cfg.self_cross sweep ask 4 (resting small offered ask) 0
can_fully_fill-is_enough_example =
    can_fully_fill-is_enough small sweep ask offered small-shallow offered-BookInv (omega arith)
      offered_fits

on_submit-IsAllOrNone_example :
    IsAllOrNone small sweep offered
      (is_supplied small sweep offered)
      (on_submit small sweep offered).1
on_submit-IsAllOrNone_example =
    on_submit-IsAllOrNone small sweep offered small-shallow offered-BookInv refl offered_fits

handle_submit_refines_example :
    let room = has_slot small (match_against_opposite small 17 purchase ask offered 4).0 in
    IsSubmitted small purchase offered
      (submit_to_lists small purchase offered.cfg.self_cross room
        (resting small offered ask)
        (resting small offered bid)
        offered.state.seq)
      (handle_submit small purchase bid offered).1
handle_submit_refines_example =
    handle_submit_refines small purchase offered small-IsValid purchase-IsValid offered-BookInv
      offered_fits

on_cancel-IsCancelled_example :
    IsCancelled small offered
      (find small offered 1 empty_handle true).0
      (on_cancel small withdrawal offered)
on_cancel-IsCancelled_example =
    on_cancel-IsCancelled small withdrawal offered withdrawal_finds offered-BookInv
