-- ===== src/Ring/Order.antt =====
-- include/lob/spsc_ring.hpp: what holds after every schedule of the two threads: the order of the elements
-- and the slots that the plain accesses touch.
use orderbooks.Prelude.Word.{add_u64}
use orderbooks.Ring.Window.{pop-IsWindow, IsWindow, Holds}
use orderbooks.Ring.Positions.{next_cursor, apart, index-cursor}
use orderbooks.Ring.Refine.{lap_fits, window_ends}
use orderbooks.Ring.{Slot, is_published, index, store_tail, Ring}
use orderbooks.Prelude.{
  append_assoc, length-append, ap, Bool-cases, sym, inr, ==_iff, inl, ◌+◌, subst, ◌%◌, ◌^◌, ◌≢◌,
  length, refl, ◌⊎◌, ◌++◌, ◌≡◌, ◌≤◌, List, ◌<◌, ℕ, arith, [], ◌∷◌, ◌∙◌, true,
}
use orderbooks.Ring.Refine.{is_published_at}
use orderbooks.Ring.Interleaving.{
  head_index, ConsumerInv, new_machine-MachineInv, Cached, RingInv, producer_step-MachineInv,
  ProducerInv, MachineInv,
}
use orderbooks.Ring.Steps.{
  producer_step, Machine, new_machine, Move, Consumer, consumer_step, schedule, Producer, idle,
  cleared, wrote, published, waiting, ready, copied, consume, produce,
}

module _ {A : Type 0} (k : ℕ) (narrow : k < 64) where
  Cached-pop :
      {r : Ring A} (n : ℕ) {t t' h spare : ℕ}
      → t ≤ t'
      → Cached k r t h spare
      → Cached k (store_tail n r) t' h spare
  Cached-pop n le c = record {
    head_at = c.head_at;
    copy = c.copy;
    behind = omega (arith, c.behind, le);
    copied_at = c.copied_at;
    near = c.near;
  }

  -- The consumer's step on its cursor leaves the producer's part.
  ProducerInv-pop :
      (p : Producer A) (r : Ring A) (n t t' h : ℕ)
      → t ≤ t'
      → ProducerInv k p r t h
      → ProducerInv k p (store_tail n r) t' h
  ProducerInv-pop idle r n t t' h le c = Cached-pop n le c
  ProducerInv-pop (cleared v) r n t t' h le c = Cached-pop n le c
  ProducerInv-pop (wrote v) r n t t' h le (c, e) = (Cached-pop n le c, e)
  ProducerInv-pop published r n t t' h le (p, e, c) = (p, e, Cached-pop n le c)

  consumer_step-MachineInv :
      (c : Consumer A) (m : Machine A)
      → m.consumer ≡ c
      → MachineInv k m
      → MachineInv k (consumer_step k c m)
  unfolding MachineInv consumer_step
  consumer_step-MachineInv waiting m at (xs, history, w) =
      elim (Bool-cases (is_published k m.ring m.ring.tail)) [
        | inr shut ↦ rw shut (xs, history, w)
        | inl there ↦ rw there (
          xs,
          history,
          record {
            window = w.window;
            tail_at = w.tail_at;
            producing = w.producing;
            consuming = nonempty xs w (ap (is_published k m.ring) (sym w.tail_at) ∙ there);
          },
        )
      ]
    where
      nonempty :
          (xs : List A)
          → RingInv k m (length m.popped) xs
          → is_published k m.ring (length m.popped % 2 ^ 64) ≡ true
          → ConsumerInv k ready xs
      nonempty [] w there =
          let t = length m.popped in
          let closed =
            subst (λ p. (m.ring.slots (p % 2 ^ k)).seq ≢ (p + 1) % 2 ^ 64) {x = t + 0} {y = t}
              (omega arith) (window_ends k narrow m.ring.slots t [] w.window) in
          absurd (closed ((==_iff _ _).0 (sym (is_published_at k narrow m.ring t) ∙ there)))
      nonempty (x ∷ xs) w there = (x, xs, refl)
  consumer_step-MachineInv ready m at (xs, history, w) =
      let t = length m.popped in
      let (x, ys, first) = subst (λ c. ConsumerInv k c xs) at w.consuming in
      let held : Holds k m.ring.slots t (x ∷ ys) =
        subst (Holds k m.ring.slots t) first w.window.held in
      let i : index k m.ring.tail ≡ t % 2 ^ k = rw w.tail_at (index-cursor k t (omega arith)) in
      let value : (m.ring.slots (index k m.ring.tail)).value ≡ x =
        ap (λ i. (m.ring.slots i).value) i ∙ ap (λ (s : Slot A). s.value) held.0 in
      (
        xs,
        history,
        record {
          window = w.window;
          tail_at = w.tail_at;
          producing = w.producing;
          consuming = (ys, rw value first);
        },
      )
  consumer_step-MachineInv (copied x) m at (xs, history, w) =
      let t = length m.popped in
      let (ys, first) = subst (λ c. ConsumerInv k c xs) at w.consuming in
      let window = subst (IsWindow k m.ring.slots t) first w.window in
      let popped : length (m.popped ++ (x ∷ [])) ≡ t + 1 = length-append m.popped (x ∷ []) in
      let same : t + length xs ≡ length (m.popped ++ (x ∷ [])) + length ys =
        omega (arith, popped, ap length first) in
      (
        ys,
        history ∙ ap (λ zs. m.popped ++ zs) first ∙ sym (append_assoc m.popped (x ∷ []) ys),
        record {
          window =
              subst (λ p. IsWindow k m.ring.slots p ys) (sym popped)
                (pop-IsWindow k m.ring.slots t x ys (lap_fits k narrow) window);
          tail_at = rw w.tail_at (next_cursor t 1) ∙ ap (λ p. p % 2 ^ 64) (sym popped);
          producing =
              subst
                (ProducerInv k m.producer (store_tail (add_u64 m.ring.tail 1) m.ring)
                  (length (m.popped ++ (x ∷ []))))
                same
                (ProducerInv-pop m.producer m.ring (add_u64 m.ring.tail 1) t
                  (length (m.popped ++ (x ∷ []))) (t + length xs) (omega (arith, popped))
                  w.producing);
          consuming = tt;
        },
      )

  pub schedule-MachineInv :
      (ss : List (Move A)) (m : Machine A) → MachineInv k m → MachineInv k (schedule k ss m)
  unfolding schedule
  schedule-MachineInv [] m v = v
  schedule-MachineInv (produce x ∷ ss) m v =
      schedule-MachineInv ss (producer_step k m.producer x m)
        (producer_step-MachineInv k narrow m.producer x m refl v)
  schedule-MachineInv (consume ∷ ss) m v =
      schedule-MachineInv ss (consumer_step k m.consumer m)
        (consumer_step-MachineInv m.consumer m refl v)

  -- With a capacity of at most 2 ^ 63, after any interleaving of the memory accesses of one
  -- producer and one consumer on a new ring, the elements handed out are the first of those
  -- published, in order, and the rest are at most as many as the ring has slots.
  pub schedule-delivers :
      (ss : List (Move A)) (empty : A)
      → let m = schedule k ss (new_machine empty) in
        (xs : List A) × (m.pushed ≡ m.popped ++ xs) × (length xs ≤ 2 ^ k)
  unfolding MachineInv
  schedule-delivers ss empty =
      let (xs, history, w) =
        schedule-MachineInv ss (new_machine empty) (new_machine-MachineInv k narrow empty) in
      (xs, history, w.window.room)

  -- With a capacity of at most 2 ^ 63, after any interleaving on a new ring, where the producer is
  -- about to write a value, or has yet to publish it, and the consumer is about to read one, they
  -- are at different slots.
  pub schedule-races_nowhere :
      (ss : List (Move A)) (empty : A) (x : A)
      → let m = schedule k ss (new_machine empty) in
        (m.producer ≡ cleared x) ⊎ (m.producer ≡ wrote x)
        → m.consumer ≡ ready
        → index k m.ring.head ≢ index k m.ring.tail
  unfolding MachineInv
  schedule-races_nowhere ss empty x writing reading same =
      let m = schedule k ss (new_machine empty) in
      let (xs, history, w) =
        schedule-MachineInv ss (new_machine empty) (new_machine-MachineInv k narrow empty) in
      let t = length m.popped in
      let (y, ys, first) = subst (λ c. ConsumerInv k c xs) reading w.consuming in
      let c : Cached k m.ring t (t + length xs) 1 = elim writing [
        | inl e ↦ subst (λ p. ProducerInv k p m.ring t (t + length xs)) e w.producing
        | inr e ↦ (subst (λ p. ProducerInv k p m.ring t (t + length xs)) e w.producing).0
      ] in
      let head = head_index k narrow m.ring t (t + length xs) 1 c in
      let tail : index k m.ring.tail ≡ t % 2 ^ k = rw w.tail_at (index-cursor k t (omega arith)) in
      apart (2 ^ k) t (length xs) (omega (arith, ap length first)) (omega (arith, c.near, c.behind))
        (sym head ∙ same ∙ tail)
