-- ===== src/BookSide/Change.antt =====
-- include/lob/engine.hpp and book.hpp: an order that stays in its level and changes its quantity, and one
-- that is taken to the back of another level.
use orderbooks.BookSide.Settle.{remove-SideInv}
use orderbooks.Prelude.Word.{sub_u64, add_u64}
use orderbooks.BookSide.Invariant.{add-SideInv, sound-update, SideInv}
use orderbooks.BookSide.Levels.{total-update, LevelInv-update, AllRest, LevelInv, total, Rests}
use orderbooks.Bitmap.{l3_words}
use orderbooks.BookSide.Unlink.{absent-erase, total-erase, In}
use orderbooks.Level.{erase, Level}
use orderbooks.BookSide.{remove, add, set_level, BookSide}
use orderbooks.Arena.{raw, is_live, order_in, holds, Slot}
use orderbooks.Types.{Order, Ptr, Side}
use orderbooks.Prelude.{
  update-update, subst, update_self, ◌∙◌, [], inr, sym, false, inl, ◌==◌, ◌≡◌, arith, Bool-cases,
  ◌+◌, ◌∷◌, update, ◌<◌, Distinct, ◌≤◌, List, ℕ, ap,
}

module _ (s : Side) (px : ℕ) (slots : ℕ → Slot) (p : Ptr) (o : Order) where
  AllRest-change :
      (ps : List Ptr)
      → Rests s px (holds o)
      → AllRest s px slots ps
      → AllRest s px (update slots p (holds o)) ps
  AllRest-change [] r all = tt
  AllRest-change (q ∷ ps) r all = (here, AllRest-change ps r all.1)
    where
      here : Rests s px (update slots p (holds o) q)
      here = elim (Bool-cases (p == q)) [ inl e ↦ rw e r | inr ne ↦ rw ne (all.0) ]

  total-change :
      (ps : List Ptr)
      → In p ps
      → Distinct ps
      → total (update slots p (holds o)) ps + (order_in (slots p)).remaining
        ≡ total slots ps + o.remaining
  total-change ps i d =
      let slots' = update slots p (holds o) in
      let kept = total-update s px slots p (holds o) (erase p ps) (absent-erase p ps d) in
      omega (
        arith,
        total-erase p slots ps i,
        total-erase p slots' ps i,
        kept,
        ap (λ (x : Slot). (order_in x).remaining) (update_self slots p (holds o)),
      )

  -- The quantity of an order of the level changes in place.
  pub LevelInv-change :
      {lvl : Level}
      → In p lvl.fifo
      → Rests s px (slots p)
      → Rests s px (holds o)
      → LevelInv s px slots lvl
      → LevelInv s px (update slots p (holds o)) (record lvl {
        aggregate = add_u64 (sub_u64 lvl.aggregate (order_in (slots p)).remaining) o.remaining;
      })
  LevelInv-change {lvl} i old new v = record {
    owned = AllRest-change lvl.fifo new v.owned;
    summed = omega (
      arith,
      total-change lvl.fifo i v.distinct,
      total-erase p slots lvl.fifo i,
      v.summed,
      old.bounded,
      new.bounded,
    );
    distinct = v.distinct;
  }

module _ (ticks : ℕ) (s : Side) {slots : ℕ → Slot} {b : BookSide} where
  -- So does the side, for a level whose FIFO stays.
  pub change-SideInv :
      (p : Ptr) (o : Order) (px : ℕ)
      → In p (b.levels px).fifo
      → Rests s px (slots p)
      → Rests s px (holds o)
      → SideInv ticks s slots b
      → SideInv ticks s (update slots p (holds o)) (
          set_level b px (record (b.levels px) {
            aggregate =
                add_u64
                  (sub_u64 (b.levels px).aggregate (order_in (slots p)).remaining)
                  o.remaining;
          }))
  change-SideInv p o px i old new v = record {
    sound =
        sound-update s px slots (update slots p (holds o)) b.levels _
          (LevelInv-change s px slots p o i old new (v.sound px))
          (λ q ne.
            LevelInv-update s q slots p (holds o) (λ r. ne (sym r.price ∙ old.price)) (v.sound q));
    bitmap = v.bitmap;
    populated = λ q. ground (arith, v.populated q, v.populated px);
    best_is = v.best_is;
  }

  -- An order that leaves its level and comes to rest at the back of another.
  pub relink-SideInv :
      (p : Ptr) (o : Order) (px : ℕ)
      → l3_words ticks ≤ 1
      → o.px < ticks
      → In p (b.levels px).fifo
      → Rests s px (slots p)
      → Rests s o.px (holds o)
      → SideInv ticks s slots b
      → SideInv ticks s
          (update slots p (holds o))
          (add ticks s (remove ticks s b p (order_in (slots p))) p o)
  relink-SideInv p o px fits lt i old new v =
      let gone : is_live (update slots p raw p) ≡ false = ap is_live (update_self slots p raw) in
      subst (λ f. SideInv ticks s f (add ticks s (remove ticks s b p (order_in (slots p))) p o))
        (update-update slots p raw (holds o))
        (add-SideInv ticks s p o lt (λ q r. let alive = r.live in cc (gone, alive)) new
          (remove-SideInv ticks s p raw px fits i old v))
