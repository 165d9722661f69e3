-- ===== src/Engine/Linked.antt =====
-- include/lob/engine.hpp and arena.hpp: live slots and the FIFOs of their side and price.
use orderbooks.Prelude.{
  arith, false, update_self, subst, ◌∙◌, ap, sym, ==_iff, ◌==◌, Bool-cases, ◌≢◌, update, ◌⊎◌, List,
  ℕ, refl, ◌≡◌, inl, inr, true,
}
use orderbooks.Types.{Ptr, Side, bid, ask, opposite}
use orderbooks.Arena.{Arena, Slot, is_live, order_in}
use orderbooks.Level.{Level}
use orderbooks.BookSide.{Book, side_of}
use orderbooks.BookSide.Unlink.{In}

abbrev pub fifo_of : Book → Side → ℕ → List Ptr
fifo_of b s px = ((side_of s b).levels px).fifo

abbrev pub IsLinked : Book → Ptr → Slot → Type 0
IsLinked b p slot = In p (fifo_of b (order_in slot).s (order_in slot).px)

abbrev pub Linked : Book → Type 0
Linked b = (p : Ptr) → is_live (b.arena.slots p) ≡ true → IsLinked b p (b.arena.slots p)

-- The FIFOs after a write to one level.
fifo_after :
    (s t : Side) (px r : ℕ) (b b' : Book) (lvl : Level)
    → (side_of s b').levels ≡ update (side_of s b).levels px lvl
    → (side_of (opposite s) b').levels ≡ (side_of (opposite s) b).levels
    → ((t ≡ s) × (r ≡ px) × (fifo_of b' t r ≡ lvl.fifo)) ⊎ (fifo_of b' t r ≡ fifo_of b t r)
fifo_after bid bid px r b b' lvl side other = elim (Bool-cases (px == r)) [
  | inl e ↦ inl (refl, sym ((==_iff _ _).0 e), ap (λ (f : ℕ → Level). (f r).fifo) side ∙ rw e refl)
  | inr ne ↦ inr (ap (λ (f : ℕ → Level). (f r).fifo) side ∙ rw ne refl)
]
fifo_after ask ask px r b b' lvl side other = elim (Bool-cases (px == r)) [
  | inl e ↦ inl (refl, sym ((==_iff _ _).0 e), ap (λ (f : ℕ → Level). (f r).fifo) side ∙ rw e refl)
  | inr ne ↦ inr (ap (λ (f : ℕ → Level). (f r).fifo) side ∙ rw ne refl)
]
fifo_after bid ask px r b b' lvl side other = inr (ap (λ (f : ℕ → Level). (f r).fifo) other)
fifo_after ask bid px r b b' lvl side other = inr (ap (λ (f : ℕ → Level). (f r).fifo) other)

other_slot : (p q : Ptr) → q ≡ p → (p == q) ≡ false → ⊥
other_slot p q e ne = ground arith

-- A write to slot `p` and to one level, whose FIFO keeps the other orders.
pub Linked-write :
    (s : Side) (px : ℕ) (b b' : Book) (p : Ptr) (x : Slot) (lvl : Level)
    → b'.arena.slots ≡ update b.arena.slots p x
    → (side_of s b').levels ≡ update (side_of s b).levels px lvl
    → (side_of (opposite s) b').levels ≡ (side_of (opposite s) b).levels
    → ((q : Ptr) → q ≢ p → In q (fifo_of b s px) → In q lvl.fifo)
    → (is_live x ≡ true → ((order_in x).s ≡ s) × ((order_in x).px ≡ px) × In p lvl.fifo)
    → Linked b
    → Linked b'
Linked-write s px b b' p x lvl slots side other keeps placed v q live = elim (Bool-cases (p == q)) [
  | inl e ↦
      let same : p ≡ q = (==_iff _ _).0 e in
      let at_q : b'.arena.slots q ≡ x = ap (λ (f : ℕ → Slot). f q) slots ∙ rw e refl in
      let here = placed (ap is_live (sym at_q) ∙ live) in
      rw (at_q, here.0, here.1)
        (subst (λ (f : List Ptr). In q f)
          (sym (
            ap (λ (f : ℕ → Level). (f px).fifo) side
            ∙ ap (λ (l : Level). l.fifo) (update_self (side_of s b).levels px lvl)))
          (subst (λ (v : Ptr). In v lvl.fifo) same here.2))
  | inr ne ↦
      let at_q : b'.arena.slots q ≡ b.arena.slots q =
        ap (λ (f : ℕ → Slot). f q) slots ∙ rw ne refl in
      let slot = b.arena.slots q in
      let old : IsLinked b q slot = v q (ap is_live (sym at_q) ∙ live) in
      rw at_q (elim (fifo_after s (order_in slot).s px (order_in slot).px b b' lvl side other) [
        | inl (es, ep, ef) ↦ rw ef (keeps q (λ e. other_slot p q e ne) (rw (es, ep) at old))
        | inr ef ↦ rw ef old
      ])
]

pub Linked-same_fifos :
    (b b' : Book)
    → b'.arena ≡ b.arena
    → ((t : Side) (r : ℕ) → fifo_of b' t r ≡ fifo_of b t r)
    → Linked b
    → Linked b'
Linked-same_fifos b b' arena same v q live =
    let at_q : b'.arena.slots q ≡ b.arena.slots q = ap (λ (a : Arena). a.slots q) arena in
    let slot = b.arena.slots q in
    rw at_q (rw (same (order_in slot).s (order_in slot).px) (v q (ap is_live (sym at_q) ∙ live)))
