-- ===== src/Tests/Flows.antt =====
-- Commands through a shard, and events through the merger.
use orderbooks.Ring.{claimed, count_published, consume_claim, push_at_head, try_push}
use orderbooks.Shard.Sequences.{shard_seq_base-apart}
use orderbooks.Engine.Handlers.{apply_batch}
use orderbooks.Hash.{shard_seq_base}
use orderbooks.Egress.Merge.{run_egress-delivers, of_shard, IsNumbered}
use orderbooks.Shard.Drain.{drain_ingress-applies, run_turns-is_drained, new_shard}
use orderbooks.Prelude.{
  ℕ, arith, refl, [], ◌∷◌, List, ◌≡◌, ◌<◌, ◌≤◌, ◌^◌, ◌+◌, ◌-◌, true, ◌++◌, length,
}
use orderbooks.Types.{empty_handle}
use orderbooks.Messages.{Command, Event, submit, cancel, top}
use orderbooks.Shard.{
  is_drained, worker_round, drain_ingress, enqueue_command, Turn, enqueue, work, run_turns,
}
use orderbooks.Egress.{EgressTurn, publish_event, merge_round, run_egress, new_egress}
use orderbooks.Tests.{small, started, sale, purchase}

narrow : 1 < 64
narrow = omega arith

abbrev no_command : Command
no_command = cancel (record { id = 0; handle = empty_handle })

-- Two orders fill the ring, a third finds it full, and the worker takes both.
abbrev turns : List Turn
turns = enqueue (submit sale) ∷ enqueue (submit purchase) ∷ enqueue (submit sale) ∷ work ∷ []

turns_drained :
    is_drained small 1 (run_turns small 1 turns (new_shard small 1 narrow no_command started)).1
    ≡ true
unfolding run_turns enqueue_command worker_round try_push push_at_head consume_claim count_published
    claimed
turns_drained = refl

run_turns-is_drained_example :
    let r = run_turns small 1 turns (new_shard small 1 narrow no_command started) in
    r.1.engine ≡ apply_batch small r.0 started
run_turns-is_drained_example =
    run_turns-is_drained small 1 narrow turns no_command started turns_drained

-- The worker is stopped before its first round.
abbrev queued : List Turn
queued = enqueue (submit sale) ∷ enqueue (submit purchase) ∷ []

drain_ingress-applies_example :
    let r = run_turns small 1 queued (new_shard small 1 narrow no_command started) in
    (drain_ingress small 1 (2 ^ 1 + 1) r.1).engine ≡ apply_batch small r.0 started
drain_ingress-applies_example = drain_ingress-applies small 1 narrow queued no_command started

shard_seq_base-apart_example :
    (shard_seq_base 1 (2 ^ 2) + 2 ^ (64 - 2) ≤ shard_seq_base 3 (2 ^ 2))
    × (shard_seq_base 3 (2 ^ 2) + 2 ^ (64 - 2) ≤ 2 ^ 64)
shard_seq_base-apart_example = shard_seq_base-apart 2 1 3 (omega arith) (omega arith) (omega arith)

abbrev some_top : Event
some_top = top (record { bid_px = 1; ask_px = 2; bid_qty = 3; ask_qty = 4; seq = 5 })

abbrev event_turns : List EgressTurn
event_turns =
    publish_event 0 some_top
    ∷ publish_event 1 some_top
    ∷ merge_round
    ∷ publish_event 0 some_top
    ∷ []

run_egress-delivers_example :
    let g = run_egress 1 2 64 event_turns (new_egress some_top) in
    IsNumbered 0 g.sent
    × ((r : ℕ)
        → (rest : List Event) × (g.accepted r ≡ of_shard r g.sent ++ rest) × (length rest ≤ 2 ^ 1))
run_egress-delivers_example = run_egress-delivers 1 narrow 2 64 event_turns some_top
