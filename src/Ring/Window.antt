-- ===== src/Ring/Window.antt =====
-- include/lob/spsc_ring.hpp: the elements between the cursors, as the consumer and the producer rely on
-- them. `t` is the position of the consumer, without wrapping.
use orderbooks.Prelude.{
  ltb-false, ltb-true, subst, ltb, ℕ, suc, ◌+◌, ◌-◌, ◌%◌, ◌^◌, ◌≤◌, ◌<◌, ◌≡◌, ◌≢◌, refl, sym, ap,
  ◌∙◌, arith, List, [], ◌∷◌, ◌++◌, length, update, update_self, update_ne, ==_iff, Bool-cases, inl,
  inr, ◌==◌, length-append,
}
use native.Mathlib.Nat.{add-mod_right}
use orderbooks.Ring.{Slot}
use orderbooks.Ring.Positions.{apart}

module _ {A : Type 0} (k : ℕ) where
  -- The slots from position `t` on hold the elements and their sequences.
  abbrev pub Holds : (ℕ → Slot A) → ℕ → List A → Type 0
  Holds slots t [] = Unit
  Holds slots t (x ∷ xs) =
      (slots (t % 2 ^ k) ≡ record { value = x; seq = (t + 1) % 2 ^ 64 }) × Holds slots (t + 1) xs

  -- The slots of the positions from `p` on, up to the lap's end at `t + 2 ^ k`, are not published.
  abbrev pub Unpublished : (ℕ → Slot A) → ℕ → ℕ → Type 0
  Unpublished slots t p =
      (q : ℕ) → p ≤ q → q < t + 2 ^ k → (slots (q % 2 ^ k)).seq ≢ (q + 1) % 2 ^ 64

  pub record IsWindow (slots : ℕ → Slot A) (t : ℕ) (xs : List A) : Type 0 where
    pub room : length xs ≤ 2 ^ k
    pub held : Holds slots t xs
    pub ahead : Unpublished slots t (t + length xs)

  -- A write at a position of the same lap behind the window leaves it.
  Holds-update :
      (slots : ℕ → Slot A) (x : Slot A) (t p : ℕ) (xs : List A)
      → t + length xs ≤ p
      → p < t + 2 ^ k
      → Holds slots t xs
      → Holds (update slots (p % 2 ^ k) x) t xs
  Holds-update slots x t p [] le lt h = tt
  Holds-update slots x t p (y ∷ ys) le lt h =
      let other : p % 2 ^ k ≢ t % 2 ^ k =
        subst (λ q. q % 2 ^ k ≢ t % 2 ^ k) {x = t + (p - t)} {y = p} (omega arith)
          (apart (2 ^ k) t (p - t) (omega arith) (omega arith)) in
      (
        update_ne slots (p % 2 ^ k) (t % 2 ^ k) x other ∙ h.0,
        Holds-update slots x (t + 1) p ys (omega arith) (omega arith) h.1,
      )

  Holds-snoc :
      (slots : ℕ → Slot A) (t : ℕ) (xs : List A) (x : A)
      → Holds slots t xs
      → slots ((t + length xs) % 2 ^ k) ≡ record { value = x; seq = (t + length xs + 1) % 2 ^ 64 }
      → Holds slots t (xs ++ (x ∷ []))
  Holds-snoc slots t [] x h e = (
    subst (λ p. slots (p % 2 ^ k) ≡ record { value = x; seq = (p + 1) % 2 ^ 64 }) {x = t + 0}
        {y = t} (omega arith) e,
    tt,
  )
  Holds-snoc slots t (y ∷ ys) x h e = (
    h.0,
    Holds-snoc slots (t + 1) ys x h.1 (
        subst (λ p. slots (p % 2 ^ k) ≡ record { value = x; seq = (p + 1) % 2 ^ 64 })
          {x = t + suc (length ys)} {y = t + 1 + length ys} (omega arith) e),
  )

  -- A slot of the lap is written, but not yet published.
  pub write-IsWindow :
      (slots : ℕ → Slot A) (t : ℕ) (xs : List A) (v : A)
      → length xs < 2 ^ k
      → IsWindow slots t xs
      → let i = (t + length xs) % 2 ^ k in
        IsWindow (update slots i (record (slots i) { value = v })) t xs
  write-IsWindow slots t xs v lt w = record {
    room = w.room;
    held = Holds-update slots _ t (t + length xs) xs (omega arith) (omega arith) w.held;
    ahead = λ q le below. elim (Bool-cases ((t + length xs) % 2 ^ k == q % 2 ^ k)) [
      | inl same ↦
          let at : (t + length xs) % 2 ^ k ≡ q % 2 ^ k = (==_iff _ _).0 same in
          rw (same, at) (w.ahead q le below)
      | inr other ↦ rw other (w.ahead q le below)
    ];
  }

  -- The slot behind the window is published.
  pub publish-IsWindow :
      (slots : ℕ → Slot A) (t : ℕ) (xs : List A) (x : A)
      → length xs < 2 ^ k
      → (slots ((t + length xs) % 2 ^ k)).value ≡ x
      → IsWindow slots t xs
      → let i = (t + length xs) % 2 ^ k in
        IsWindow
          (update slots i (record (slots i) { seq = (t + length xs + 1) % 2 ^ 64 }))
          t
          (xs ++ (x ∷ []))
  publish-IsWindow slots t xs x lt e w =
      let p = t + length xs in
      let longer : length (xs ++ (x ∷ [])) ≡ length xs + 1 = length-append xs (x ∷ []) in
      record {
        room = omega (arith, longer);
        held =
            Holds-snoc
              (update slots (p % 2 ^ k) (record (slots (p % 2 ^ k)) { seq = (p + 1) % 2 ^ 64 })) t
              xs x (Holds-update slots _ t p xs (omega arith) (omega arith) w.held)
              (update_self slots (p % 2 ^ k) _ ∙ rw e refl);
        ahead = λ q le below.
            let other : p % 2 ^ k ≢ q % 2 ^ k = λ same.
              apart (2 ^ k) p (q - p) (omega (arith, longer)) (omega (arith, longer)) (
                ap (λ r. r % 2 ^ k) {x = p + (q - p)} {y = q} (omega (arith, longer)) ∙ sym same) in
            rw (update_ne slots (p % 2 ^ k) (q % 2 ^ k) _ other)
              (w.ahead q (omega (arith, longer)) below);
      }

  -- The first element leaves the window.
  pub pop-IsWindow :
      (slots : ℕ → Slot A) (t : ℕ) (x : A) (xs : List A)
      → 2 ^ k < 2 ^ 64
      → IsWindow slots t (x ∷ xs)
      → IsWindow slots (t + 1) xs
  pop-IsWindow slots t x xs small w = record {
    room = omega (arith, w.room);
    held = w.held.1;
    ahead = λ q le below. elim (Bool-cases (ltb q (t + 2 ^ k))) [
      | inl lap ↦ w.ahead q (omega arith) (ltb-true _ _ lap)
      | inr next ↦
          let at : q ≡ t + 2 ^ k = omega (arith, ltb-false _ _ next) in
          let slot : slots (q % 2 ^ k) ≡ record { value = x; seq = (t + 1) % 2 ^ 64 } =
            ap slots (ap (λ r. r % 2 ^ k) at ∙ add-mod_right t (2 ^ k)) ∙ w.held.0 in
          λ e. lap_apart t q (2 ^ k) at (w.room) small (sym (ap (λ (s : Slot A). s.seq) slot) ∙ e)
    ];
  }
    where
      lap_apart :
          (t q m : ℕ)
          → q ≡ t + m
          → suc (length xs) ≤ m
          → m < 2 ^ 64
          → (t + 1) % 2 ^ 64 ≢ (q + 1) % 2 ^ 64
      lap_apart t q m at pos small e = omega arith
