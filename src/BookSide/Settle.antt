-- ===== src/BookSide/Settle.antt =====
-- include/lob/book.hpp: the invariant of `book_side` through `remove` and `notify_level_emptied`.
use orderbooks.BookSide.Unlink.{LevelInv-unlink, In}
use orderbooks.Prelude.{
  refl, List, [], ◌∷◌, update_self, ◌∙◌, sym, update, ◌∷◌, List, Option, not, subst, inr, ==_iff,
  inl, false, ◌==◌, some, Bool-cases, true, if◌then◌else◌, ◌≤◌, ◌≡◌, ◌≢◌, ℕ, arith,
}
use orderbooks.Types.{Ptr, Side}
use orderbooks.Level
use orderbooks.Level.{Level, unlink}
use orderbooks.Bitmap
use orderbooks.Bitmap.{Bitmap, test, l3_words}
use orderbooks.Bitmap.Invariant.{IsValid, clear-IsValid}
use orderbooks.Bitmap.Extremes.{test-clear}
use orderbooks.BookSide.{remove, BookSide, best_of, is_best, notify_level_emptied, set_level}
use orderbooks.BookSide.Levels.{LevelInv-update, Rests, LevelInv}
use orderbooks.BookSide.Invariant.{IsBest, SideInv, SideMatching, best_of-IsBest, sound-update}
use orderbooks.Arena.{order_in, Slot}

emptied-IsBest :
    (ticks : ℕ) (s : Side) {bm : Bitmap} {best : Option ℕ} (px : ℕ)
    → l3_words ticks ≤ 1
    → IsValid ticks bm
    → IsBest ticks s bm best
    → IsBest ticks s
        (Bitmap.clear ticks bm px)
        (if is_best best px then best_of ticks s (Bitmap.clear ticks bm px) else best)
emptied-IsBest ticks s {bm} {best} px fits valid v = elim (Bool-cases (is_best best px)) [
  | inl e ↦ rw e (best_of-IsBest ticks s fits (clear-IsValid ticks bm px valid))
  | inr ne ↦ rw ne (record {
    none_set = λ h i. ground (arith, test-clear ticks bm px i, v.none_set h i);
    is_set = λ k h.
        let other : (px == k) ≡ false = other_best k h ne in
        ground (arith, test-clear ticks bm px k, v.is_set k h);
    none_ahead = λ k j h lt. ground (arith, test-clear ticks bm px j, v.none_ahead k j h lt);
  })
]
  where
    other_best : (k : ℕ) → best ≡ some k → is_best best px ≡ false → (px == k) ≡ false
    other_best k h ne = ground arith

module _ (ticks : ℕ) (s : Side) {slots : ℕ → Slot} {b : BookSide} where
  pub start_matching :
      (px : ℕ)
      → test ticks b.bm px ≡ true
      → SideInv ticks s slots b
      → SideMatching ticks s px slots b
  start_matching px h v = record {
    sound = v.sound;
    bitmap = v.bitmap;
    marked = h;
    populated = λ q _. v.populated q;
    best_is = v.best_is;
  }

  -- A write to the level that is being matched, with whatever it does to the arena.
  pub SideMatching-write :
      (px : ℕ) (slots' : ℕ → Slot) (lvl : Level)
      → LevelInv s px slots' lvl
      → ((q : ℕ) → q ≢ px → LevelInv s q slots' (b.levels q))
      → SideMatching ticks s px slots b
      → SideMatching ticks s px slots' (set_level b px lvl)
  SideMatching-write px slots' lvl here other v = record {
    sound = sound-update s px slots slots' b.levels lvl here other;
    bitmap = v.bitmap;
    marked = v.marked;
    populated = λ q ne. ground (arith, v.populated q ne);
    best_is = v.best_is;
  }

  pub notify_level_emptied-SideInv :
      (px : ℕ)
      → l3_words ticks ≤ 1
      → Level.empty (b.levels px) ≡ true
      → SideMatching ticks s px slots b
      → SideInv ticks s slots (notify_level_emptied ticks s b px)
  unfolding notify_level_emptied
  notify_level_emptied-SideInv px fits e v = record {
    sound = v.sound;
    bitmap = clear-IsValid ticks b.bm px v.bitmap;
    populated = λ q. elim (Bool-cases (px == q)) [
      | inl here ↦
          let same : px ≡ q = (==_iff _ _).0 here in
          ground
            (arith, test-clear ticks b.bm px q, subst (λ r. Level.empty (b.levels r) ≡ true) same e)
      | inr ne ↦ ground (arith, test-clear ticks b.bm px q, v.populated q (ground arith))
    ];
    best_is = emptied-IsBest ticks s px fits v.bitmap v.best_is;
  }

  -- The level is settled: the bitmap and the best are right again, whether it ran empty or not.
  pub settled-SideInv :
      (px : ℕ)
      → l3_words ticks ≤ 1
      → SideMatching ticks s px slots b
      → SideInv ticks s slots
          (if Level.empty (b.levels px) then notify_level_emptied ticks s b px else b)
  settled-SideInv px fits v = elim (Bool-cases (Level.empty (b.levels px))) [
    | inl e ↦ rw e (notify_level_emptied-SideInv px fits e v)
    | inr ne ↦ rw ne (record {
      sound = v.sound;
      bitmap = v.bitmap;
      populated = λ q. elim (Bool-cases (px == q)) [
        | inl here ↦
            let same : px ≡ q = (==_iff _ _).0 here in
            subst (λ r. test ticks b.bm r ≡ not (Level.empty (b.levels r))) same
              (ground (arith, v.marked))
        | inr other ↦ v.populated q (ground arith)
      ];
      best_is = v.best_is;
    })
  ]

In-not-empty : (p : Ptr) (ps : List Ptr) → In p ps → Level.is_empty ps ≡ false
In-not-empty p [] i = elim i [ ]
In-not-empty p (q ∷ ps) i = refl

module _ (ticks : ℕ) (s : Side) {slots : ℕ → Slot} {b : BookSide} where
  -- With at most four bitmap tiers, removing an order that stands in the FIFO of its level and
  -- rests there keeps the side sound, whatever its slot holds after: level, bitmap and cached
  -- best.
  pub remove-SideInv :
      (p : Ptr) (x : Slot) (px : ℕ)
      → l3_words ticks ≤ 1
      → In p (b.levels px).fifo
      → Rests s px (slots p)
      → SideInv ticks s slots b
      → SideInv ticks s (update slots p x) (remove ticks s b p (order_in (slots p)))
  unfolding remove
  remove-SideInv p x px fits i r v =
      let lvl = unlink (b.levels px) p (order_in (slots p)) in
      let matching =
        SideMatching-write ticks s px (update slots p x) lvl
          (LevelInv-unlink s px slots p x i r (v.sound px))
          (λ q ne. LevelInv-update s q slots p x (λ r'. ne (sym r'.price ∙ r.price)) (v.sound q))
          (start_matching ticks s px
            (ground (arith, v.populated px, In-not-empty p (b.levels px).fifo i)) v) in
      let settled : SideInv ticks s (update slots p x) (
          if Level.empty lvl
          then notify_level_emptied ticks s (set_level b px lvl) px
          else set_level b px lvl) =
        rw (update_self b.levels px lvl) at (settled-SideInv ticks s px fits matching) in
      rw (r.price) settled

-- A write to a slot where no order of this side rests.
pub SideInv-frame :
    (ticks : ℕ) (s : Side) (slots : ℕ → Slot) {b : BookSide} (p : Ptr) (x : Slot)
    → ((q : ℕ) → ¬ Rests s q (slots p))
    → SideInv ticks s slots b
    → SideInv ticks s (update slots p x) b
SideInv-frame ticks s slots p x free v = record {
  sound = λ q. LevelInv-update s q slots p x (free q) (v.sound q);
  bitmap = v.bitmap;
  populated = v.populated;
  best_is = v.best_is;
}
