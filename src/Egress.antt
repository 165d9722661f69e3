-- ===== src/Egress.antt =====
-- include/lob/ring_publisher.hpp, egress_merger.hpp and publisher_sink.hpp: the events of each shard go
-- through its ring to one merger, which numbers them and hands them to one publisher. Threads are the
-- sequence of whole calls that they make.
pub mod Merge
use orderbooks.Prelude.{
  ℕ, zero, suc, ◌+◌, Bool, true, false, ◌==◌, ◌||◌, not, List, [], ◌∷◌, ◌++◌, if◌then◌else◌, update,
  length,
}
use orderbooks.Prelude.Word.{add_u64}
use orderbooks.Messages.{Event}
use orderbooks.Ring.{Ring, new_ring, try_push, consume_claim}

-- What the sink is given: an event and its number in the merged stream. The shard it came from is not
-- passed on.
pub record Forwarded : Type 0 where
  pub shard : ℕ
  pub event : Event
  pub merge_seq : ℕ

-- The rings and drop counters of the shards and the merger, with the events that the rings accepted.
pub record Egress : Type 0 where
  pub rings : ℕ → Ring Event
  pub dropped : ℕ → ℕ
  pub seq : ℕ
  pub merged : ℕ
  pub sent : List Forwarded
  pub accepted : ℕ → List Event

abbrev pub new_egress : Event → Egress
new_egress empty = record {
  rings = λ s. new_ring empty;
  dropped = λ s. 0;
  seq = 0;
  merged = 0;
  sent = [];
  accepted = λ s. [];
}

-- `sink_->on_event(e, seq_); ++seq_` for each event of a claim.
unfoldable pub stamp : ℕ → ℕ → List Event → List Forwarded
stamp s n [] = []
stamp s n (ev ∷ evs) = record { shard = s; event = ev; merge_seq = n } ∷ stamp s (add_u64 n 1) evs

-- The constructor's clamp.
abbrev pub clamp_batch : ℕ → ℕ
clamp_batch n = if n == 0 then 1 else n

-- What a shard's engine and the merger's thread do.
pub data EgressTurn : Type 0 where
  publish_event : ℕ → Event → EgressTurn
  merge_round : EgressTurn

module _ (k : ℕ) where
  -- `push_`: a full ring drops the event.
  unfoldable pub push_event : ℕ → Event → Egress → Egress
  push_event s ev g =
      let (done, ring) = try_push k ev (g.rings s) in
      if done
      then record g {
        rings = update g.rings s ring;
        accepted = update g.accepted s (g.accepted s ++ (ev ∷ []));
      }
      else record g {
        rings = update g.rings s ring;
        dropped = update g.dropped s (add_u64 (g.dropped s) 1);
      }

  -- One shard's turn in a round: `poll_batch` and the calls of the sink.
  unfoldable pub poll_shard : ℕ → ℕ → Egress → Egress
  unfolding stamp
  poll_shard batch_max s g =
      let (evs, ring) = consume_claim k batch_max (g.rings s) in
      record g {
        rings = update g.rings s ring;
        seq = add_u64 g.seq (length evs);
        sent = g.sent ++ stamp s g.seq evs;
      }

  -- The loop over the shards, from shard `s` on; `any` says whether an event was forwarded.
  unfoldable pub poll_shards : ℕ → ℕ → ℕ → Bool → Egress → Bool × Egress
  unfolding poll_shard
  poll_shards zero batch_max s any g = (any, g)
  poll_shards (suc left) batch_max s any g =
      let n = length (consume_claim k batch_max (g.rings s)).0 in
      poll_shards left batch_max (s + 1) (any || not (n == 0)) (poll_shard batch_max s g)

  unfoldable pub drain_round : ℕ → ℕ → Egress → Bool × Egress
  unfolding poll_shards
  drain_round num_shards batch_max g =
      let (any, g') = poll_shards num_shards batch_max 0 false g in
      if any then (true, record g' { merged = g'.seq }) else (false, g')

  unfoldable pub run_egress : ℕ → ℕ → List EgressTurn → Egress → Egress
  unfolding push_event drain_round
  run_egress num_shards batch_max [] g = g
  run_egress num_shards batch_max (publish_event s ev ∷ ts) g =
      run_egress num_shards batch_max ts (push_event s ev g)
  run_egress num_shards batch_max (merge_round ∷ ts) g =
      run_egress num_shards batch_max ts (drain_round num_shards batch_max g).1
