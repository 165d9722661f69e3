-- ===== src/Shard.antt =====
-- include/lob/shard_router.hpp, shard_runtime.hpp, shard_egress_runtime.hpp and shard_worker.hpp: the
-- engines of the shards, the rings of commands in front of them, and the rounds of a worker. Threads are
-- the sequence of whole calls that they make; pinning, names, spinning and yielding are left out.
pub mod Drain
pub mod Sequences
use orderbooks.Prelude.{
  ℕ, zero, suc, ◌+◌, Bool, true, false, ◌==◌, List, [], ◌∷◌, if◌then◌else◌, update, length,
}
use orderbooks.Prelude.Word.{add_u64}
use orderbooks.Types.{EngineConfig, Template}
use orderbooks.Messages.{Command, submit, cancel, modify, SubmitMsg, CancelMsg, ModifyMsg}
use orderbooks.Hash.{shard_index, shard_seq_base}
use orderbooks.Ring.{Ring, try_push, consume_claim}
use orderbooks.Engine.{Engine, new_engine}
use orderbooks.Engine.Handlers.{apply_command, apply_batch}

-- The batch of `drive_shard`.
abbrev pub batch : ℕ
batch = 64

module _ (c : Template) (num_shards : ℕ) where
  -- The engines that the constructors make.
  unfoldable pub new_engines : EngineConfig → ℕ → Engine
  new_engines cfg i = new_engine c (record cfg { seq_base = shard_seq_base i num_shards })

  -- `on_submit`, `on_cancel` and `on_modify` of the router.
  unfoldable pub route : ℕ → Command → (ℕ → Engine) → ℕ → Engine
  route sym k engines =
      let i = shard_index sym num_shards in update engines i (apply_command c k (engines i)).1

-- One shard of a runtime: its ring of commands, its engine, and the two counters of `drain`.
pub record Shard : Type 0 where
  pub ingress : Ring Command
  pub engine : Engine
  pub processed : ℕ
  pub pushed : ℕ

-- What the producer and the worker do of a shard.
pub data Turn : Type 0 where
  enqueue : Command → Turn
  work : Turn

module _ (c : Template) (k : ℕ) where
  -- `enqueue_`, behind the choice of the shard.
  unfoldable pub enqueue_command : Command → Shard → Bool × Shard
  enqueue_command cmd s =
      let (done, ring) = try_push k cmd s.ingress in
      if done
      then (true, record s { ingress = ring; pushed = add_u64 s.pushed 1 })
      else (false, record s { ingress = ring })

  -- One claim of `drive_shard` and its batch.
  unfoldable pub worker_round : Shard → Shard
  worker_round s =
      let (cmds, ring) = consume_claim k batch s.ingress in
      record s {
        ingress = ring;
        engine = apply_batch c cmds s.engine;
        processed = add_u64 s.processed (length cmds);
      }

  -- The loop after a stop request: claims until one is empty.
  unfoldable pub drain_ingress : ℕ → Shard → Shard
  unfolding worker_round
  drain_ingress zero s = s
  drain_ingress (suc fuel) s =
      let s' = worker_round s in
      elim (consume_claim k batch s.ingress).0 [ [] ↦ s' | cmd ∷ cmds ↦ drain_ingress fuel s' ]

  abbrev pub is_drained : Shard → Bool
  is_drained s = s.processed == s.pushed

  -- The commands that a run accepts, and the shard after it.
  unfoldable pub run_turns : List Turn → Shard → List Command × Shard
  unfolding enqueue_command worker_round
  run_turns [] s = ([], s)
  run_turns (work ∷ ts) s = run_turns ts (worker_round s)
  run_turns (enqueue cmd ∷ ts) s =
      let (done, s') = enqueue_command cmd s in
      let (cmds, s'') = run_turns ts s' in if done then (cmd ∷ cmds, s'') else (cmds, s'')
