-- ===== src/BookSide/Unlink.antt =====
-- include/lob/level.hpp: `unlink`, an order taken out of the middle of a FIFO.
use orderbooks.Prelude.{
  Distinct, ==_iff, true, subst, inr, false, inl, ◌==◌, ◌⊎◌, ◌+◌, ◌≢◌, ◌≡◌, update, Bool-cases, ℕ,
  arith, List, [], ◌∷◌, All,
}
use orderbooks.Types.{Ptr, Side}
use orderbooks.Arena.{Slot, order_in}
use orderbooks.Level.{Level, unlink, erase}
use orderbooks.BookSide.Levels.{Rests, total, LevelInv, AllRest-update, total-update}

abbrev pub In : Ptr → List Ptr → Type 0
In p [] = ⊥
In p (q ∷ qs) = (q ≡ p) ⊎ In p qs

module _ (p : Ptr) where
  All-erase {ℓ} : (P : Ptr → Type ℓ) (ps : List Ptr) → All P ps → All P (erase p ps)
  unfolding erase
  All-erase P [] h = tt
  All-erase P (q ∷ ps) h = elim (Bool-cases (q == p)) [
    | inl e ↦ rw e h.1
    | inr ne ↦ rw ne (h.0, All-erase P ps h.1)
  ]

  Distinct-erase : (ps : List Ptr) → Distinct ps → Distinct (erase p ps)
  unfolding erase
  Distinct-erase [] d = tt
  Distinct-erase (q ∷ ps) d = elim (Bool-cases (q == p)) [
    | inl e ↦ rw e d.1
    | inr ne ↦ rw ne (All-erase (λ r. r ≢ q) ps d.0, Distinct-erase ps d.1)
  ]

  pub absent-erase : (ps : List Ptr) → Distinct ps → All (λ q. q ≢ p) (erase p ps)
  unfolding erase
  absent-erase [] d = tt
  absent-erase (q ∷ ps) d = elim (Bool-cases (q == p)) [
    | inl e ↦ rw e (subst (λ v. All (λ r. r ≢ v) ps) ((==_iff _ _).0 e) d.0)
    | inr ne ↦ rw ne ((λ e. absurd_test q e ne), absent-erase ps d.1)
  ]
    where
      absurd_test : (q : Ptr) → q ≡ p → (q == p) ≡ false → ⊥
      absurd_test q e ne = ground arith

  pub total-erase :
      (slots : ℕ → Slot) (ps : List Ptr)
      → In p ps
      → total slots ps ≡ (order_in (slots p)).remaining + total slots (erase p ps)
  unfolding erase
  total-erase slots [] i = elim i [ ]
  total-erase slots (q ∷ ps) (inl e) = let hit : (q == p) ≡ true = (==_iff _ _).1 e in rw (hit, e)
  total-erase slots (q ∷ ps) (inr i) = elim (Bool-cases (q == p)) [
    | inl e ↦ rw (e, (==_iff q p).0 e)
    | inr ne ↦ rw ne (omega (arith, total-erase slots ps i))
  ]

-- The order `p` leaves the level with all that it has; its slot may hold anything after.
pub LevelInv-unlink :
    (s : Side) (px : ℕ) (slots : ℕ → Slot) {lvl : Level} (p : Ptr) (x : Slot)
    → In p lvl.fifo
    → Rests s px (slots p)
    → LevelInv s px slots lvl
    → LevelInv s px (update slots p x) (unlink lvl p (order_in (slots p)))
unfolding unlink
LevelInv-unlink s px slots {lvl} p x i r v =
    let ne = absent-erase p lvl.fifo v.distinct in
    record {
      owned = AllRest-update s px slots p x (erase p lvl.fifo) ne (All-erase p _ lvl.fifo v.owned);
      summed =
          rw (total-update s px slots p x (erase p lvl.fifo) ne)
            (omega (arith, v.summed, r.bounded, total-erase p slots lvl.fifo i));
      distinct = Distinct-erase p lvl.fifo v.distinct;
    }
