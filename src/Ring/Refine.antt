-- ===== src/Ring/Refine.antt =====
-- include/lob/spsc_ring.hpp: the ring against a bounded queue, one whole operation after another.
use orderbooks.Prelude.Word.{add_u64}
use orderbooks.Ring.Positions.{cursor_distance, next_cursor, index-cursor}
use orderbooks.Prelude.Bytes.{take, drop}
use orderbooks.Ring.Window.{pop-IsWindow, publish-IsWindow, write-IsWindow, IsWindow}
use native.Mathlib.Nat.{pow-le-pow_right, one-le-pow, add-mod_right}
use orderbooks.Prelude.{
  ==_iff, eq_false, subst, leb-true, ltb_of_le, ltb_of_lt, update_self, update, ltb-false, inl,
  length-append, sym, ◌-◌, leb-false, refl, ap, suc, false, leb, inr, ◌++◌, Bool-cases, true, ltb,
  ◌≤◌, some, ◌==◌, ◌≢◌, ◌%◌, if◌then◌else◌, length, none, ◌+◌, ◌^◌, Bool, ◌≡◌, Option, ◌<◌, List, ℕ,
  arith, [], ◌∷◌, ◌∙◌,
}
use orderbooks.Ring.{
  store_tail, new_ring, try_pop, index, looks_full, reload_tail, try_push, push_at_head,
  is_published, Slot, Ring,
}

pub lap_fits : (k : ℕ) → k < 64 → 2 ^ k < 2 ^ 64
lap_fits k narrow =
    omega (arith, pow-le-pow_right {n = 2} (omega arith) {i = k} {j = 63} (omega arith))

-- The queue that the ring promises: at most `n` elements, first in, first out.
module _ {A : Type 0} where
  abbrev pub queue_push : ℕ → A → List A → Bool × List A
  queue_push n v xs = if ltb (length xs) n then (true, xs ++ (v ∷ [])) else (false, xs)

  abbrev pub queue_pop : List A → Option A × List A
  queue_pop [] = (none, [])
  queue_pop (x ∷ xs) = (some x, xs)

  abbrev pub queue_claim : ℕ → List A → List A × List A
  queue_claim n xs = (take n xs, drop n xs)

module _ {A : Type 0} (k : ℕ) where
  -- A ring whose consumer is at position `t` and which holds `xs`. The producer's copy of the tail may be
  -- behind, at `c`.
  pub record IsRing (r : Ring A) (t : ℕ) (xs : List A) : Type 0 where
    pub window : IsWindow k r.slots t xs
    pub tail_at : r.tail ≡ t % 2 ^ 64
    pub head_at : r.head ≡ (t + length xs) % 2 ^ 64
    pub cached : (c : ℕ) × (c ≤ t) × (r.tail_cache ≡ c % 2 ^ 64) × (t + length xs ≤ c + 2 ^ k)

  module _ (narrow : k < 64) where
    pub looks_full_at :
        (r : Ring A) (h c : ℕ)
        → r.head ≡ h % 2 ^ 64
        → r.tail_cache ≡ c % 2 ^ 64
        → c ≤ h
        → h ≤ c + 2 ^ k
        → looks_full k r ≡ leb (2 ^ k) (h - c)
    looks_full_at r h c head cache le near =
        rw (head, cache, cursor_distance h c le (omega (arith, near, lap_fits k narrow))) refl

    pub is_published_at :
        (r : Ring A) (p : ℕ)
        → is_published k r (p % 2 ^ 64) ≡ ((r.slots (p % 2 ^ k)).seq == (p + 1) % 2 ^ 64)
    is_published_at r p = rw (index-cursor k p (omega arith), next_cursor p 1) refl

    -- Behind the window comes a slot that is not published.
    pub window_ends :
        (slots : ℕ → Slot A) (t : ℕ) (xs : List A)
        → IsWindow k slots t xs
        → (slots ((t + length xs) % 2 ^ k)).seq ≢ (t + length xs + 1) % 2 ^ 64
    window_ends slots t xs w = elim (Bool-cases (ltb (length xs) (2 ^ k))) [
      | inl room ↦ w.ahead (t + length xs) (omega arith) (ground (arith, room))
      | inr full ↦ around xs w (omega (arith, ltb-false _ _ full, w.room))
    ]
      where
        around :
            (xs : List A)
            → IsWindow k slots t xs
            → length xs ≡ 2 ^ k
            → (slots ((t + length xs) % 2 ^ k)).seq ≢ (t + length xs + 1) % 2 ^ 64
        around [] w full = absurd (omega (arith, full, one-le-pow k 2))
        around (x ∷ xs) w full = λ e.
            let back : (t + suc (length xs)) % 2 ^ k ≡ t % 2 ^ k =
              ap (λ m. (t + m) % 2 ^ k) full ∙ add-mod_right t (2 ^ k) in
            let first = sym (ap (λ (s : Slot A). s.seq) (ap slots back ∙ w.held.0)) ∙ e in
            omega (arith, first, full, lap_fits k narrow)

    pub push_at_head-IsRing :
        (r : Ring A) (t : ℕ) (xs : List A) (v : A)
        → length xs < 2 ^ k
        → ((c : ℕ) × (c ≤ t) × (r.tail_cache ≡ c % 2 ^ 64) × (t + length xs < c + 2 ^ k))
        → IsRing r t xs
        → IsRing (push_at_head k v r) t (xs ++ (v ∷ []))
    unfolding push_at_head
    push_at_head-IsRing r t xs v lt (c, le, cache, near) w =
        let p = t + length xs in
        let i : index k r.head ≡ p % 2 ^ k = rw w.head_at (index-cursor k p (omega arith)) in
        let n : add_u64 r.head 1 ≡ (p + 1) % 2 ^ 64 = rw w.head_at (next_cursor p 1) in
        let longer : length (xs ++ (v ∷ [])) ≡ length xs + 1 = length-append xs (v ∷ []) in
        let written = write-IsWindow k r.slots t xs v lt w.window in
        record {
          window =
              rw (i, n)
                (publish-IsWindow k
                  (update r.slots (p % 2 ^ k) (record (r.slots (p % 2 ^ k)) { value = v })) t xs v
                  lt (ap (λ (s : Slot A). s.value) (update_self r.slots (p % 2 ^ k) _)) written);
          tail_at = w.tail_at;
          head_at = n ∙ ap (λ m. m % 2 ^ 64) (omega (arith, longer));
          cached = (c, le, cache, omega (arith, longer, near));
        }

    -- `try_push` is the push of the bounded queue.
    pub try_push_refines :
        (r : Ring A) (t : ℕ) (xs : List A) (v : A)
        → IsRing r t xs
        → let (done, r') = try_push k v r in
          (done ≡ (queue_push (2 ^ k) v xs).0) × IsRing r' t (queue_push (2 ^ k) v xs).1
    unfolding try_push
    try_push_refines r t xs v w =
        let (c, le, cache, near) = w.cached in
        let h = t + length xs in
        let guess = looks_full_at r h c w.head_at cache (omega arith) near in
        let sure =
          looks_full_at (reload_tail r) h t w.head_at w.tail_at (omega arith)
            (omega (arith, w.window.room)) in
        let reloaded : IsRing (reload_tail r) t xs = record {
          window = w.window;
          tail_at = w.tail_at;
          head_at = w.head_at;
          cached = (t, omega arith, w.tail_at, omega (arith, w.window.room));
        } in
        elim (Bool-cases (looks_full k r)) [
          | inr room ↦
              let gap = leb-false (2 ^ k) (h - c) (sym guess ∙ room) in
              let lt : length xs < 2 ^ k = omega (arith, gap, le) in
              let yes = ltb_of_lt (length xs) (2 ^ k) lt in
              rw (room, yes)
                (refl, push_at_head-IsRing r t xs v lt (c, le, cache, omega (arith, gap, le)) w)
          | inl maybe ↦ elim (Bool-cases (looks_full k (reload_tail r))) [
            | inl full ↦
                let no_room =
                  ltb_of_le (length xs) (2 ^ k)
                    (omega (arith, leb-true (2 ^ k) (h - t) (sym sure ∙ full))) in
                rw (maybe, full, no_room) (refl, reloaded)
            | inr room ↦
                let gap = leb-false (2 ^ k) (h - t) (sym sure ∙ room) in
                let lt : length xs < 2 ^ k = omega (arith, gap) in
                let yes = ltb_of_lt (length xs) (2 ^ k) lt in
                rw (maybe, room, yes)
                  (
                    refl,
                    push_at_head-IsRing (reload_tail r) t xs v lt
                        (t, omega arith, w.tail_at, omega (arith, lt)) reloaded,
                  )
          ]
        ]

    -- `try_pop` is the pop of the queue.
    pub try_pop_refines :
        (r : Ring A) (t : ℕ) (xs : List A)
        → IsRing r t xs
        → let (got, r') = try_pop k r in
          (got ≡ (queue_pop xs).0)
          × IsRing r' (t + length xs - length (queue_pop xs).1) (queue_pop xs).1
    unfolding try_pop
    try_pop_refines r t [] w =
        let behind : t + 0 ≡ t = omega arith in
        let closed =
          subst (λ p. (r.slots (p % 2 ^ k)).seq ≢ (p + 1) % 2 ^ 64) behind
            (window_ends r.slots t [] w.window) in
        let no : is_published k r r.tail ≡ false =
          rw w.tail_at (is_published_at r t ∙ eq_false _ _ closed) in
        rw no (refl, subst (λ p. IsRing r p []) {x = t} {y = t + 0 - 0} (omega arith) w)
    try_pop_refines r t (x ∷ xs) w =
        let first = w.window.held.0 in
        let yes : is_published k r r.tail ≡ true =
          rw w.tail_at (is_published_at r t ∙ (==_iff _ _).1 (ap (λ (s : Slot A). s.seq) first)) in
        let at : index k r.tail ≡ t % 2 ^ k = rw w.tail_at (index-cursor k t (omega arith)) in
        let (c, le, cache, near) = w.cached in
        rw yes (
          ap some (ap (λ i. (r.slots i).value) at ∙ ap (λ (s : Slot A). s.value) first),
          subst (λ p. IsRing (store_tail (add_u64 r.tail 1) r) p xs) {x = t + 1}
              {y = t + suc (length xs) - length xs} (omega arith)
              (record {
                window = pop-IsWindow k r.slots t x xs (lap_fits k narrow) w.window;
                tail_at = rw w.tail_at (next_cursor t 1);
                head_at = w.head_at ∙ ap (λ p. p % 2 ^ 64) (omega arith);
                cached = (c, omega (arith, le), cache, omega (arith, near));
              }),
        )

    pub new_ring-IsRing : (empty : A) → IsRing (new_ring empty) 0 []
    new_ring-IsRing empty = record {
      window = record {
        room = omega arith;
        held = tt;
        ahead = λ q le below e. omega (arith, lap_fits k narrow, e);
      };
      tail_at = refl;
      head_at = refl;
      cached = (0, omega arith, refl, omega (arith, one-le-pow k 2));
    }
