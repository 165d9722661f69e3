-- ===== src/BookSide/Invariant.antt =====
-- include/lob/book.hpp: the invariant of `book_side`, and `add`.
use orderbooks.Bitmap.Extremes.{test-set}
use orderbooks.Prelude.{
  [], ◌∷◌, ◌++◌, ==_iff, List, subst, not, ◌==◌, update, Bool-cases, ◌≢◌, ◌<◌, ◌≤◌, if◌then◌else◌,
  ◌≡◌, Option, ℕ, arith, refl, some, none, true, false, inl, inr,
}
use orderbooks.Types.{Order, Ptr, Side, bid, ask}
use orderbooks.Level
use orderbooks.Level.{push_back, Level}
use orderbooks.Bitmap
use orderbooks.Bitmap.{Bitmap, test, l3_words}
use orderbooks.Bitmap.Invariant.{set-IsValid, IsValid}
use orderbooks.Bitmap.Queries.{lowest_set-test, highest_set-test}
use orderbooks.BookSide.{BookSide, is_better, best_of, improve, add}
use orderbooks.BookSide.Levels.{LevelInv-update, LevelInv-push, Rests, LevelInv}
use orderbooks.Arena.{holds, Slot}

module _ (ticks : ℕ) (s : Side) where
  -- `best` is the best position of the bitmap, `none` for an empty one.
  pub record IsBest (bm : Bitmap) (best : Option ℕ) : Type 0 where
    pub none_set : best ≡ none → (i : ℕ) → test ticks bm i ≡ false
    pub is_set : (k : ℕ) → best ≡ some k → test ticks bm k ≡ true
    pub none_ahead : (k j : ℕ) → best ≡ some k → is_better s j k ≡ true → test ticks bm j ≡ false

  pub record SideInv (slots : ℕ → Slot) (b : BookSide) : Type 0 where
    pub sound : (px : ℕ) → LevelInv s px slots (b.levels px)
    pub bitmap : IsValid ticks b.bm
    pub populated : (px : ℕ) → test ticks b.bm px ≡ not (Level.empty (b.levels px))
    pub best_is : IsBest b.bm b.best

  -- The same while the level at `px`, which the bitmap marks, is being matched and may run empty.
  pub record SideMatching (px : ℕ) (slots : ℕ → Slot) (b : BookSide) : Type 0 where
    pub sound : (q : ℕ) → LevelInv s q slots (b.levels q)
    pub bitmap : IsValid ticks b.bm
    pub marked : test ticks b.bm px ≡ true
    pub populated : (q : ℕ) → q ≢ px → test ticks b.bm q ≡ not (Level.empty (b.levels q))
    pub best_is : IsBest b.bm b.best

pub best_of-IsBest :
    (ticks : ℕ) (s : Side) {bm : Bitmap}
    → l3_words ticks ≤ 1
    → IsValid ticks bm
    → IsBest ticks s bm (best_of ticks s bm)
unfolding best_of
best_of-IsBest ticks bid {bm} fits v = elim (highest_set-test ticks v fits) [
  | inl (e, none_set) ↦ record {
    none_set = λ _ i. none_set i;
    is_set = λ k h. cc;
    none_ahead = λ k j h. cc;
  }
  | inr (m, e, here, above) ↦ record {
    none_set = λ h. cc;
    is_set = λ k h. let same : m ≡ k = ground arith in rw (← same) here;
    none_ahead = λ k j h lt. let same : m ≡ k = ground arith in above j (rw same (ground arith));
  }
]
best_of-IsBest ticks ask {bm} fits v = elim (lowest_set-test ticks v fits) [
  | inl (e, none_set) ↦ record {
    none_set = λ _ i. none_set i;
    is_set = λ k h. cc;
    none_ahead = λ k j h. cc;
  }
  | inr (m, e, here, below) ↦ record {
    none_set = λ h. cc;
    is_set = λ k h. let same : m ≡ k = ground arith in rw (← same) here;
    none_ahead = λ k j h lt. let same : m ≡ k = ground arith in below j (rw same (ground arith));
  }
]

-- An order comes to rest: the price it rests at is marked, and the best improves on it.
improve-IsBest :
    (ticks : ℕ) (s : Side) {bm bm' : Bitmap} {best : Option ℕ} (px : ℕ)
    → ((i : ℕ) → test ticks bm' i ≡ (if px == i then true else test ticks bm i))
    → IsBest ticks s bm best
    → IsBest ticks s bm' (improve s px best)
improve-IsBest ticks bid {best = none} px t v = record {
  none_set = λ h. cc;
  is_set = λ k h. ground (arith, t k);
  none_ahead = λ k j h lt. ground (arith, t j, v.none_set refl j);
}
improve-IsBest ticks bid {best = some q} px t v = record {
  none_set = λ h. ground arith;
  is_set = λ k h. ground (arith, t k, v.is_set q refl);
  none_ahead = λ k j h lt. ground (arith, t j, v.none_ahead q j refl);
}
improve-IsBest ticks ask {best = none} px t v = record {
  none_set = λ h. cc;
  is_set = λ k h. ground (arith, t k);
  none_ahead = λ k j h lt. ground (arith, t j, v.none_set refl j);
}
improve-IsBest ticks ask {best = some q} px t v = record {
  none_set = λ h. ground arith;
  is_set = λ k h. ground (arith, t k, v.is_set q refl);
  none_ahead = λ k j h lt. ground (arith, t j, v.none_ahead q j refl);
}

-- A write to one level, and the frame round it.
pub sound-update :
    (s : Side) (px : ℕ) (slots slots' : ℕ → Slot) (levels : ℕ → Level) (lvl : Level)
    → LevelInv s px slots' lvl
    → ((q : ℕ) → q ≢ px → LevelInv s q slots' (levels q))
    → (q : ℕ) → LevelInv s q slots' (update levels px lvl q)
sound-update s px slots slots' levels lvl here other q = elim (Bool-cases (px == q)) [
  | inl e ↦ rw e (subst (λ v. LevelInv s v slots' lvl) ((==_iff _ _).0 e) here)
  | inr ne ↦ rw ne (other q (ground arith))
]

push_back-not-empty : (lvl : Level) (p : Ptr) (o : Order) → Level.empty (push_back lvl p o) ≡ false
unfolding push_back
push_back-not-empty lvl p o = end_not_empty lvl.fifo
  where
    end_not_empty : (ps : List Ptr) → Level.is_empty (ps ++ (p ∷ [])) ≡ false
    end_not_empty [] = refl
    end_not_empty (q ∷ ps) = refl

-- The bitmap of a side after `add` has marked the level at `px`.
abbrev marked_bitmap : ℕ → BookSide → ℕ → Bitmap
marked_bitmap ticks b px = if Level.empty (b.levels px) then Bitmap.set ticks b.bm px else b.bm

module _ (ticks : ℕ) (s : Side) {slots : ℕ → Slot} {b : BookSide} where
  marked-IsValid :
      (px : ℕ) → px < ticks → SideInv ticks s slots b → IsValid ticks (marked_bitmap ticks b px)
  marked-IsValid px lt v = elim (Bool-cases (Level.empty (b.levels px))) [
    | inl e ↦ rw e (set-IsValid ticks b.bm px lt v.bitmap)
    | inr ne ↦ rw ne v.bitmap
  ]

  test-marked :
      (px i : ℕ)
      → SideInv ticks s slots b
      → test ticks (marked_bitmap ticks b px) i ≡ (if px == i then true else test ticks b.bm i)
  test-marked px i v = elim (Bool-cases (Level.empty (b.levels px))) [
    | inl e ↦ rw e (test-set ticks b.bm px i)
    | inr ne ↦ rw ne (ground (arith, v.populated px, v.populated i))
  ]

  -- Adding an order at a price of the ladder, from a slot where no order of the side rested, keeps
  -- the side sound.
  pub add-SideInv :
      (p : Ptr) (o : Order)
      → o.px < ticks
      → ((q : ℕ) → ¬ Rests s q (slots p))
      → Rests s o.px (holds o)
      → SideInv ticks s slots b
      → SideInv ticks s (update slots p (holds o)) (add ticks s b p o)
  unfolding add
  add-SideInv p o lt free r v = record {
    sound =
        sound-update s o.px slots (update slots p (holds o)) b.levels
          (push_back (b.levels o.px) p o)
          (LevelInv-push s o.px slots p o (free o.px) r (v.sound o.px))
          (λ q ne. LevelInv-update s q slots p (holds o) (free q) (v.sound q));
    bitmap = marked-IsValid o.px lt v;
    populated = λ q.
        ground
          (arith, test-marked o.px q v, v.populated q, push_back-not-empty (b.levels o.px) p o);
    best_is = improve-IsBest ticks s o.px (λ i. test-marked o.px i v) v.best_is;
  }
