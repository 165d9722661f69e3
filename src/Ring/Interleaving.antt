-- ===== src/Ring/Interleaving.antt =====
-- include/lob/spsc_ring.hpp: every interleaving of the accesses of one producer and one consumer.
use orderbooks.Prelude.Word.{add_u64}
use orderbooks.Ring.Positions.{next_cursor, index-cursor}
use orderbooks.Ring.Refine.{looks_full_at, new_ring-IsRing}
use orderbooks.Ring.Window.{publish-IsWindow, write-IsWindow, IsWindow}
use native.Mathlib.Nat.{one-le-pow}
use orderbooks.Prelude.{
  true, false, if◌then◌else◌, refl, Bool, append_assoc, length-append, inl, sym, leb-false,
  update_self, inr, Bool-cases, ◌-◌, ◌+◌, leb, subst, length, ◌^◌, ap, ◌++◌, ◌%◌, ◌≤◌, List, ◌≡◌,
  ◌<◌, ℕ, arith, [], ◌∷◌, ◌∙◌,
}
use orderbooks.Ring.{Slot, reload_tail, looks_full, index, Ring}
use orderbooks.Ring.Steps.{
  idle, cleared, wrote, published, waiting, ready, copied, wrote, waiting, idle, cleared,
  new_machine, guard_push, producer_step, copied, Consumer, Producer, Machine,
}

module _ {A : Type 0} (k : ℕ) where
  -- The producer's position is `h`, and its copy of the tail leaves room for `spare` more.
  pub record Cached (r : Ring A) (t h spare : ℕ) : Type 0 where
    pub head_at : r.head ≡ h % 2 ^ 64
    pub copy : ℕ
    pub behind : copy ≤ t
    pub copied_at : r.tail_cache ≡ copy % 2 ^ 64
    pub near : h + spare ≤ copy + 2 ^ k

  -- `h` is the position behind the window.
  abbrev pub ProducerInv : Producer A → Ring A → ℕ → ℕ → Type 0
  ProducerInv idle r t h = Cached r t h 0
  ProducerInv (cleared v) r t h = Cached r t h 1
  ProducerInv (wrote v) r t h = Cached r t h 1 × ((r.slots (h % 2 ^ k)).value ≡ v)
  ProducerInv published r t h = (p : ℕ) × (p + 1 ≡ h) × Cached r t p 1

  abbrev pub ConsumerInv : Consumer A → List A → Type 0
  ConsumerInv waiting xs = Unit
  ConsumerInv ready xs = (x : A) × (ys : List A) × (xs ≡ x ∷ ys)
  ConsumerInv (copied x) xs = (ys : List A) × (xs ≡ x ∷ ys)

  pub record RingInv (m : Machine A) (t : ℕ) (xs : List A) : Type 0 where
    pub window : IsWindow k m.ring.slots t xs
    pub tail_at : m.ring.tail ≡ t % 2 ^ 64
    pub producing : ProducerInv m.producer m.ring t (t + length xs)
    pub consuming : ConsumerInv m.consumer xs

  -- The elements that were published and not yet handed out are those of the window.
  unfoldable pub MachineInv : Machine A → Type 0
  MachineInv m = (xs : List A) × (m.pushed ≡ m.popped ++ xs) × RingInv m (length m.popped) xs

  pub new_machine-MachineInv : k < 64 → (empty : A) → MachineInv (new_machine empty)
  unfolding MachineInv
  new_machine-MachineInv narrow empty =
      let v = new_ring-IsRing k narrow empty in
      (
        [],
        refl,
        record {
          window = v.window;
          tail_at = refl;
          producing = record {
            head_at = refl;
            copy = 0;
            behind = omega arith;
            copied_at = refl;
            near = omega (arith, one-le-pow k 2);
          };
          consuming = tt;
        },
      )

  -- The consumer's claim on the first element stays when the queue grows.
  ConsumerInv-append :
      (c : Consumer A) (xs ys : List A) → ConsumerInv c xs → ConsumerInv c (xs ++ ys)
  ConsumerInv-append waiting xs ys h = tt
  ConsumerInv-append ready xs ys (x, zs, e) = (x, zs ++ ys, ap (λ w. w ++ ys) e)
  ConsumerInv-append (copied x) xs ys (zs, e) = (zs ++ ys, ap (λ w. w ++ ys) e)

  module _ (narrow : k < 64) where
    looks_full_from :
        (r : Ring A) (t h : ℕ)
        → t ≤ h
        → (c : Cached r t h 0) → looks_full k r ≡ leb (2 ^ k) (h - c.copy)
    looks_full_from r t h le c =
        looks_full_at k narrow r h c.copy c.head_at c.copied_at (omega (arith, c.behind))
          (omega (arith, c.near))

    guard_push-RingInv :
        (v : A) (m : Machine A) (t : ℕ) (xs : List A)
        → m.producer ≡ idle
        → RingInv m t xs
        → RingInv (guard_push k v m) t xs
    unfolding guard_push
    guard_push-RingInv v m t xs at_rest w =
        let h = t + length xs in
        let c : Cached m.ring t h 0 = subst (λ p. ProducerInv p m.ring t h) at_rest w.producing in
        let guess = looks_full_from m.ring t h (omega arith) c in
        let c' : Cached (reload_tail m.ring) t h 0 = record {
          head_at = c.head_at;
          copy = t;
          behind = omega arith;
          copied_at = w.tail_at;
          near = omega (arith, w.window.room);
        } in
        let sure = looks_full_from (reload_tail m.ring) t h (omega arith) c' in
        elim (Bool-cases (looks_full k m.ring)) [
          | inr room ↦ rw room (record {
            window = w.window;
            tail_at = w.tail_at;
            producing = record {
              head_at = c.head_at;
              copy = c.copy;
              behind = c.behind;
              copied_at = c.copied_at;
              near = omega (arith, leb-false (2 ^ k) (h - c.copy) (sym guess ∙ room));
            };
            consuming = w.consuming;
          })
          | inl maybe ↦ elim (Bool-cases (looks_full k (reload_tail m.ring))) [
            | inl full ↦
                rw (maybe, full)
                  (record {
                    window = w.window;
                    tail_at = w.tail_at;
                    producing =
                        subst (λ p. ProducerInv p (reload_tail m.ring) t h) (sym at_rest) c';
                    consuming = w.consuming;
                  })
            | inr room ↦
                rw (maybe, room)
                  (record {
                    window = w.window;
                    tail_at = w.tail_at;
                    producing = record {
                      head_at = c.head_at;
                      copy = t;
                      behind = omega arith;
                      copied_at = w.tail_at;
                      near = omega (arith, leb-false (2 ^ k) (h - t) (sym sure ∙ room));
                    };
                    consuming = w.consuming;
                  })
          ]
        ]

    guard_push_history :
        (v : A) (m : Machine A)
        → ((guard_push k v m).pushed ≡ m.pushed) × ((guard_push k v m).popped ≡ m.popped)
    unfolding guard_push
    guard_push_history v m = by_tests (looks_full k m.ring) (looks_full k (reload_tail m.ring))
      where
        by_tests :
            (maybe full : Bool)
            → let m' : Machine A =
                if maybe
                then (let r = reload_tail m.ring in
                    if full
                    then record m { ring = r }
                    else record m { ring = r; producer = cleared v })
                else record m { producer = cleared v } in
              (m'.pushed ≡ m.pushed) × (m'.popped ≡ m.popped)
        by_tests true true = (refl, refl)
        by_tests true false = (refl, refl)
        by_tests false full = (refl, refl)

    pub head_index : (r : Ring A) (t h spare : ℕ) → Cached r t h spare → index k r.head ≡ h % 2 ^ k
    head_index r t h spare c = rw c.head_at (index-cursor k h (omega arith))

    pub producer_step-MachineInv :
        (p : Producer A) (v : A) (m : Machine A)
        → m.producer ≡ p
        → MachineInv m
        → MachineInv (producer_step k p v m)
    unfolding MachineInv producer_step guard_push
    producer_step-MachineInv idle v m at (xs, history, w) =
        let same = guard_push_history v m in
        (
          xs,
          rw (same.0, same.1) history,
          rw same.1 (guard_push-RingInv v m (length m.popped) xs at w),
        )
    producer_step-MachineInv (cleared x) v m at (xs, history, w) =
        let t = length m.popped in
        let c = subst (λ p. ProducerInv p m.ring t (t + length xs)) at w.producing in
        let i = head_index m.ring t (t + length xs) 1 c in
        (
          xs,
          history,
          record {
            window =
                rw i
                  (write-IsWindow k m.ring.slots t xs x (omega (arith, c.near, c.behind)) w.window);
            tail_at = w.tail_at;
            producing = (
              record {
                head_at = c.head_at;
                copy = c.copy;
                behind = c.behind;
                copied_at = c.copied_at;
                near = c.near;
              },
              rw i (
                  ap (λ (s : Slot A). s.value)
                    (update_self m.ring.slots ((t + length xs) % 2 ^ k) _)),
            );
            consuming = w.consuming;
          },
        )
    producer_step-MachineInv (wrote x) v m at (xs, history, w) =
        let t = length m.popped in
        let (c, written) = subst (λ p. ProducerInv p m.ring t (t + length xs)) at w.producing in
        let i = head_index m.ring t (t + length xs) 1 c in
        let n : add_u64 m.ring.head 1 ≡ (t + length xs + 1) % 2 ^ 64 =
          rw c.head_at (next_cursor (t + length xs) 1) in
        let longer : length (xs ++ (x ∷ [])) ≡ length xs + 1 = length-append xs (x ∷ []) in
        (
          xs ++ (x ∷ []),
          rw history (append_assoc m.popped xs (x ∷ [])),
          record {
            window =
                rw (i, n)
                  (publish-IsWindow k m.ring.slots t xs x (omega (arith, c.near, c.behind)) written
                    w.window);
            tail_at = w.tail_at;
            producing = (
              t + length xs,
              omega (arith, longer),
              record {
                head_at = c.head_at;
                copy = c.copy;
                behind = c.behind;
                copied_at = c.copied_at;
                near = c.near;
              },
            );
            consuming = ConsumerInv-append m.consumer xs (x ∷ []) w.consuming;
          },
        )
    producer_step-MachineInv published v m at (xs, history, w) =
        let t = length m.popped in
        let (p, next, c) = subst (λ p. ProducerInv p m.ring t (t + length xs)) at w.producing in
        (
          xs,
          history,
          record {
            window = w.window;
            tail_at = w.tail_at;
            producing = record {
              head_at = rw c.head_at (next_cursor p 1) ∙ ap (λ q. q % 2 ^ 64) next;
              copy = c.copy;
              behind = c.behind;
              copied_at = c.copied_at;
              near = omega (arith, next, c.near);
            };
            consuming = w.consuming;
          },
        )
