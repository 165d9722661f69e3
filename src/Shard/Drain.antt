-- ===== src/Shard/Drain.antt =====
-- include/lob/shard_runtime.hpp and shard_worker.hpp: what the counters of `drain` say of the engine.
use orderbooks.Ring.{new_ring, try_push, consume_claim}
use orderbooks.Ring.Refine.{lap_fits, new_ring-IsRing, try_push_refines, IsRing}
use orderbooks.Prelude.Bytes.{length-take, drop}
use orderbooks.Messages.{Command}
use orderbooks.Shard.{
  work, enqueue, is_drained, Turn, run_turns, drain_ingress, batch, Shard, worker_round,
  enqueue_command,
}
use orderbooks.Engine.{Engine}
use orderbooks.Engine.Handlers.{apply_command, apply_batch}
use orderbooks.Types.{Template}
use orderbooks.Prelude.{
  List-cases, ◌-◌, ==_iff, zero, append-nil, ◌+◌, length-append, append_assoc, ◌^◌, sym, ltb,
  Bool-cases, ◌%◌, refl, ap, length, if◌then◌else◌, min, suc, ◌≡◌, ◌++◌, ◌<◌, List, ℕ, arith, [],
  ◌∷◌, ◌∙◌, true, false, inl, inr,
}
use orderbooks.Prelude.Bytes.{drop, take-drop, length-drop}
use orderbooks.Ring.Claim.{consume_claim_refines}

module _ (c : Template) where
  apply_batch-append :
      (xs ys : List Command) (e : Engine)
      → apply_batch c (xs ++ ys) e ≡ apply_batch c ys (apply_batch c xs e)
  unfolding apply_batch
  apply_batch-append [] ys e = refl
  apply_batch-append (x ∷ xs) ys e = apply_batch-append xs ys (apply_command c x e).1

module _ (c : Template) (k : ℕ) (narrow : k < 64) where
  -- Of the commands accepted since the engine was `e`, the worker has applied the first `done`, and the
  -- ring holds the others.
  pub record ShardInv (e : Engine) (accepted : List Command) (s : Shard) : Type 0 where
    pub done : List Command
    pub waiting : List Command
    pub all : accepted ≡ done ++ waiting
    pub applied : s.engine ≡ apply_batch c done e
    pub position : ℕ
    pub ring : IsRing k s.ingress position waiting
    pub counted : s.processed ≡ length done % 2 ^ 64
    pub offered : s.pushed ≡ length accepted % 2 ^ 64

  enqueue_command-ShardInv :
      (e : Engine) (accepted : List Command) (cmd : Command) (s : Shard)
      → ShardInv e accepted s
      → let (taken, s') = enqueue_command c k cmd s in
        ShardInv e (if taken then accepted ++ (cmd ∷ []) else accepted) s'
  unfolding enqueue_command
  enqueue_command-ShardInv e accepted cmd s v =
      let (answer, ring) = try_push_refines k narrow s.ingress v.position v.waiting cmd v.ring in
      elim (Bool-cases (ltb (length v.waiting) (2 ^ k))) [
        | inl room ↦
            let yes : (try_push k cmd s.ingress).0 ≡ true = rw room at answer in
            rw yes (record {
              done = v.done;
              waiting = v.waiting ++ (cmd ∷ []);
              all = ap (λ xs. xs ++ (cmd ∷ [])) v.all ∙ append_assoc v.done v.waiting (cmd ∷ []);
              applied = v.applied;
              position = v.position;
              ring = rw room at ring;
              counted = v.counted;
              offered = omega (arith, v.offered, length-append accepted (cmd ∷ []));
            })
        | inr full ↦
            let no : (try_push k cmd s.ingress).0 ≡ false = rw full at answer in
            rw no (record {
              done = v.done;
              waiting = v.waiting;
              all = v.all;
              applied = v.applied;
              position = v.position;
              ring = rw full at ring;
              counted = v.counted;
              offered = v.offered;
            })
      ]

  worker_round-ShardInv :
      (e : Engine) (accepted : List Command) (s : Shard)
      → (v : ShardInv e accepted s)
      → (v' : ShardInv e accepted (worker_round c k s)) × (v'.waiting
          ≡ drop (min batch (length v.waiting)) v.waiting)
  unfolding worker_round
  worker_round-ShardInv e accepted s v =
      let n = min batch (length v.waiting) in
      let (got, ring) =
        consume_claim_refines k narrow s.ingress v.position v.waiting batch v.ring in
      let cmds = (consume_claim k batch s.ingress).0 in
      (
        record {
          done = v.done ++ cmds;
          waiting = drop n v.waiting;
          all =
              v.all
              ∙ ap (λ xs. v.done ++ xs) (sym (take-drop n v.waiting))
              ∙ ap (λ xs. v.done ++ (xs ++ drop n v.waiting)) (sym got)
              ∙ sym (append_assoc v.done cmds (drop n v.waiting));
          applied = ap (apply_batch c cmds) v.applied ∙ sym (apply_batch-append c v.done cmds e);
          position = v.position + n;
          ring = ring;
          counted = omega (arith, v.counted, length-append v.done cmds);
          offered = v.offered;
        },
        refl,
      )

  run_turns-ShardInv :
      (ts : List Turn) (e : Engine) (accepted : List Command) (s : Shard)
      → ShardInv e accepted s
      → let (more, s') = run_turns c k ts s in ShardInv e (accepted ++ more) s'
  unfolding run_turns
  run_turns-ShardInv [] e accepted s v = rw append-nil v
  run_turns-ShardInv (work ∷ ts) e accepted s v =
      run_turns-ShardInv ts e accepted (worker_round c k s) (worker_round-ShardInv e accepted s v).0
  run_turns-ShardInv (enqueue cmd ∷ ts) e accepted s v =
      let s' = (enqueue_command c k cmd s).1 in
      let v' = enqueue_command-ShardInv e accepted cmd s v in
      elim (Bool-cases (enqueue_command c k cmd s).0) [
        | inl taken ↦
            rw (taken, run_turns)
              (rw (append_assoc accepted (cmd ∷ []) (run_turns c k ts s').0) at
                (run_turns-ShardInv ts e (accepted ++ (cmd ∷ [])) s' (rw taken at v')))
        | inr refused ↦
            rw (refused, run_turns) (run_turns-ShardInv ts e accepted s' (rw refused at v'))
      ]

  -- A shard before its first command.
  abbrev pub new_shard : Command → Engine → Shard
  new_shard empty e = record { ingress = new_ring empty; engine = e; processed = 0; pushed = 0 }

  new_shard-ShardInv : (empty : Command) (e : Engine) → ShardInv e [] (new_shard empty e)
  unfolding apply_batch
  new_shard-ShardInv empty e = record {
    done = [];
    waiting = [];
    all = refl;
    applied = refl;
    position = 0;
    ring = new_ring-IsRing k narrow empty;
    counted = refl;
    offered = refl;
  }

  all_applied :
      (e : Engine) (accepted : List Command) (s : Shard)
      → (v : ShardInv e accepted s) → v.waiting ≡ []
      → s.engine ≡ apply_batch c accepted e
  all_applied e accepted s v gone =
      let same : accepted ≡ v.done = v.all ∙ ap (λ xs. v.done ++ xs) gone ∙ append-nil v.done in
      v.applied ∙ ap (λ xs. apply_batch c xs e) (sym same)

  length-zero : (xs : List Command) → length xs ≡ 0 → xs ≡ []
  length-zero [] h = refl
  length-zero (x ∷ xs) h = absurd (omega (arith, h))

  -- With a ring of at most 2 ^ 63 slots, after any order of pushes and worker rounds on a new
  -- shard, equal counters, although they wrap, mean that its engine is the one that applies every
  -- accepted command in order.
  pub run_turns-is_drained :
      (ts : List Turn) (empty : Command) (e : Engine)
      → let (accepted, s) = run_turns c k ts (new_shard empty e) in
        is_drained c k s ≡ true → s.engine ≡ apply_batch c accepted e
  run_turns-is_drained ts empty e drained =
      let r = run_turns c k ts (new_shard empty e) in
      let v = run_turns-ShardInv ts e [] (new_shard empty e) (new_shard-ShardInv empty e) in
      let equal : r.1.processed ≡ r.1.pushed = (==_iff _ _).0 drained in
      let long : length r.0 ≡ length v.done + length v.waiting =
        ap length v.all ∙ length-append v.done v.waiting in
      all_applied e r.0 r.1 v (
        length-zero v.waiting
          (omega (arith, equal, v.counted, v.offered, long, v.ring.window.room, lap_fits k narrow)))

  drain_ingress-empties :
      (f : ℕ) (e : Engine) (accepted : List Command) (s : Shard)
      → (v : ShardInv e accepted s) → length v.waiting < f
      → (drain_ingress c k f s).engine ≡ apply_batch c accepted e
  unfolding drain_ingress
  drain_ingress-empties zero e accepted s v lt = absurd (omega arith)
  drain_ingress-empties (suc f) e accepted s v lt =
      let n = min batch (length v.waiting) in
      let (v', rest) = worker_round-ShardInv e accepted s v in
      let got = (consume_claim_refines k narrow s.ingress v.position v.waiting batch v.ring).0 in
      let count = ap length got ∙ length-take n v.waiting (omega arith) in
      let left : length v'.waiting ≡ length v.waiting - n =
        ap length rest ∙ length-drop n v.waiting in
      elim (List-cases (consume_claim k batch s.ingress).0) [
        | inl nothing ↦
            rw (nothing, drain_ingress)
              (all_applied e accepted (worker_round c k s) v'
                (length-zero v'.waiting (omega (arith, left, count, ap length nothing))))
        | inr (cmd, cmds, some_there) ↦
            rw (some_there, drain_ingress)
              (drain_ingress-empties f e accepted (worker_round c k s) v'
                (omega (arith, left, count, ap length some_there, lt)))
      ]

  -- With a ring of at most 2 ^ 63 slots, after any order of pushes and worker rounds on a new
  -- shard, a worker that is told to stop has applied every command that was accepted, in order,
  -- once its loop has taken a claim more than the ring has slots.
  pub drain_ingress-applies :
      (ts : List Turn) (empty : Command) (e : Engine)
      → let (accepted, s) = run_turns c k ts (new_shard empty e) in
        (drain_ingress c k (2 ^ k + 1) s).engine ≡ apply_batch c accepted e
  drain_ingress-applies ts empty e =
      let r = run_turns c k ts (new_shard empty e) in
      let v = run_turns-ShardInv ts e [] (new_shard empty e) (new_shard-ShardInv empty e) in
      drain_ingress-empties (2 ^ k + 1) e r.0 r.1 v (omega (arith, v.ring.window.room))
