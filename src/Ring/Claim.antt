-- ===== src/Ring/Claim.antt =====
-- include/lob/spsc_ring.hpp: `consume_claim` against the queue, the size of the ring, and runs of whole
-- operations.
use orderbooks.Prelude.Bytes.{length-drop, drop}
use orderbooks.Ring.Positions.{next_cursor, index-cursor}
use orderbooks.Ring.Window.{pop-IsWindow, IsWindow, Holds}
use orderbooks.Prelude.Bytes.{take, drop, length-drop}
use orderbooks.Prelude.{
  refl, inr, true, ==_iff, inl, eq_false, ◌==◌, false, zero, Bool-cases, subst, ap, suc, ◌≢◌, ◌%◌,
  length, ◌+◌, ◌^◌, Option, ◌≤◌, min, ◌≡◌, List, Bool, ◌<◌, ℕ, arith, [], ◌∷◌, ◌∙◌,
}
use orderbooks.Ring.{
  is_published, try_pop, new_ring, try_push, Slot, count_published, consume_claim, claimed, Ring,
}
use orderbooks.Ring.Refine.{
  is_published_at, window_ends, lap_fits, queue_claim, try_pop_refines, queue_pop, new_ring-IsRing,
  try_push_refines, queue_push, IsRing,
}

pub data Op (A : Type 0) : Type 0 where
  push : A → Op A
  pop : Op A
  claim : ℕ → Op A

pub data Answer (A : Type 0) : Type 0 where
  pushed : Bool → Answer A
  popped : Option A → Answer A
  claimed_all : List A → Answer A

module _ {A : Type 0} (k : ℕ) (narrow : k < 64) where
  count_published_at :
      (n : ℕ) (r : Ring A) (t : ℕ) (xs : List A)
      → Holds k r.slots t xs
      → ((r.slots ((t + length xs) % 2 ^ k)).seq ≢ (t + length xs + 1) % 2 ^ 64)
      → count_published k n r (t % 2 ^ 64) ≡ min n (length xs)
  unfolding count_published
  count_published_at zero r t xs h closed = omega arith
  count_published_at (suc n) r t [] h closed =
      let here =
        subst (λ p. (r.slots (p % 2 ^ k)).seq ≢ (p + 1) % 2 ^ 64) {x = t + 0} {y = t} (omega arith)
          closed in
      let no : is_published k r (t % 2 ^ 64) ≡ false =
        is_published_at k narrow r t ∙ eq_false _ _ here in
      rw (no, count_published) (omega arith)
  count_published_at (suc n) r t (x ∷ xs) h closed =
      let yes : is_published k r (t % 2 ^ 64) ≡ true =
        is_published_at k narrow r t ∙ (==_iff _ _).1 (ap (λ (s : Slot A). s.seq) h.0) in
      let behind : t + suc (length xs) ≡ t + 1 + length xs = omega arith in
      let more =
        count_published_at n r (t + 1) xs h.1
          (subst (λ p. (r.slots (p % 2 ^ k)).seq ≢ (p + 1) % 2 ^ 64) behind closed) in
      rw (yes, count_published, next_cursor t 1) (omega (arith, more))

  claimed_at :
      (n : ℕ) (r : Ring A) (t : ℕ) (xs : List A)
      → n ≤ length xs
      → Holds k r.slots t xs
      → claimed k n r (t % 2 ^ 64) ≡ take n xs
  unfolding claimed
  claimed_at zero r t xs le h = refl
  claimed_at (suc n) r t [] le h = absurd (omega arith)
  claimed_at (suc n) r t (x ∷ xs) le h =
      rw (index-cursor k t (omega arith), next_cursor t 1)
        (cc (ap (λ (s : Slot A). s.value) h.0, claimed_at n r (t + 1) xs (omega arith) h.1))

  drop-IsWindow :
      (n : ℕ) (slots : ℕ → Slot A) (t : ℕ) (xs : List A)
      → n ≤ length xs
      → IsWindow k slots t xs
      → IsWindow k slots (t + n) (drop n xs)
  drop-IsWindow zero slots t xs le w =
      subst (λ p. IsWindow k slots p xs) {x = t} {y = t + 0} (omega arith) w
  drop-IsWindow (suc n) slots t [] le w = absurd (omega arith)
  drop-IsWindow (suc n) slots t (x ∷ xs) le w =
      subst (λ p. IsWindow k slots p (drop n xs)) {x = t + 1 + n} {y = t + suc n} (omega arith)
        (drop-IsWindow n slots (t + 1) xs (omega arith)
          (pop-IsWindow k slots t x xs (lap_fits k narrow) w))

  -- `consume_claim` hands over the oldest elements, as many as it may, and removes them.
  pub consume_claim_refines :
      (r : Ring A) (t : ℕ) (xs : List A) (max_n : ℕ)
      → IsRing k r t xs
      → let n = min max_n (length xs) in
        let (got, r') = consume_claim k max_n r in
        (got ≡ take n xs) × IsRing k r' (t + n) (drop n xs)
  unfolding consume_claim
  consume_claim_refines r t xs max_n w =
      let n = min max_n (length xs) in
      let counted : count_published k max_n r r.tail ≡ n =
        ap (count_published k max_n r) w.tail_at
        ∙ count_published_at max_n r t xs w.window.held
            (window_ends k narrow r.slots t xs w.window) in
      let (c, le, cache, near) = w.cached in
      elim (Bool-cases (n == 0)) [
        | inl none_there ↦
            let zero_n : n ≡ 0 = (==_iff _ _).0 none_there in
            rw (counted, none_there)
              (
                rw zero_n refl,
                rw zero_n (subst (λ p. IsRing k r p xs) {x = t} {y = t + 0} (omega arith) w),
              )
        | inr some_there ↦
            let at : claimed k n r r.tail ≡ take n xs =
              ap (claimed k n r) w.tail_at ∙ claimed_at n r t xs (omega arith) w.window.held in
            rw (counted, some_there)
              (
                at,
                record {
                  window = drop-IsWindow n r.slots t xs (omega arith) w.window;
                  tail_at = rw w.tail_at (next_cursor t n);
                  head_at = w.head_at ∙ ap (λ p. p % 2 ^ 64) (omega (arith, length-drop n xs));
                  cached = (c, omega (arith, le), cache, omega (arith, near, length-drop n xs));
                },
              )
      ]

  -- The answers of the ring to calls one after another, and those of the queue.
  pub run : List (Op A) → Ring A → List (Answer A)
  run [] r = []
  run (push v ∷ ops) r = let (done, r') = try_push k v r in pushed done ∷ run ops r'
  run (pop ∷ ops) r = let (got, r') = try_pop k r in popped got ∷ run ops r'
  run (claim n ∷ ops) r = let (got, r') = consume_claim k n r in claimed_all got ∷ run ops r'

  pub run_queue : List (Op A) → List A → List (Answer A)
  run_queue [] xs = []
  run_queue (push v ∷ ops) xs =
      let (done, ys) = queue_push (2 ^ k) v xs in pushed done ∷ run_queue ops ys
  run_queue (pop ∷ ops) xs = let (got, ys) = queue_pop xs in popped got ∷ run_queue ops ys
  run_queue (claim n ∷ ops) xs =
      let (got, ys) = queue_claim (min n (length xs)) xs in claimed_all got ∷ run_queue ops ys

  pub run_refines_from :
      (ops : List (Op A)) (r : Ring A) (t : ℕ) (xs : List A)
      → IsRing k r t xs
      → run ops r ≡ run_queue ops xs
  unfolding run run_queue
  run_refines_from [] r t xs w = refl
  run_refines_from (push v ∷ ops) r t xs w =
      let (done, w') = try_push_refines k narrow r t xs v w in
      cc (done, run_refines_from ops (try_push k v r).1 t (queue_push (2 ^ k) v xs).1 w')
  run_refines_from (pop ∷ ops) r t xs w =
      let (got, w') = try_pop_refines k narrow r t xs w in
      cc (got, run_refines_from ops (try_pop k r).1 _ (queue_pop xs).1 w')
  run_refines_from (claim n ∷ ops) r t xs w =
      let (got, w') = consume_claim_refines r t xs n w in
      cc (got, run_refines_from ops (consume_claim k n r).1 _ (drop (min n (length xs)) xs) w')

  -- With a capacity of at most 2 ^ 63, no sequence of whole pushes, pops and claims tells a new
  -- ring from a bounded first-in first-out queue.
  pub run_refines : (ops : List (Op A)) (empty : A) → run ops (new_ring empty) ≡ run_queue ops []
  run_refines ops empty =
      run_refines_from ops (new_ring empty) 0 [] (new_ring-IsRing k narrow empty)
