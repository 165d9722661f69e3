-- ===== src/Engine/CancelUncrossed.antt =====
-- include/lob/engine.hpp: the best prices of the two sides through `on_cancel`.
use orderbooks.Level.{unlink}
use orderbooks.Engine.Behind.{emptied-IsBehind, IsBehind-refl, IsBehind}
use orderbooks.BookSide.Invariant.{IsBest, SideInv}
use orderbooks.Engine.Cancel.{remove_order_book, find-BookInv}
use orderbooks.Engine.Uncrossed.{still-IsUncrossed, IsUncrossed}
use orderbooks.Engine.Invariant.{BookInv}
use orderbooks.Arena.{Slot}
use orderbooks.Bitmap.{l3_words}
use orderbooks.Messages.{CancelMsg}
use orderbooks.BookSide.{set_level, is_best, side_of, BookSide, notify_level_emptied, remove}
use orderbooks.Engine.Handlers.{remove_order, on_cancel}
use orderbooks.Engine.{order_at, Engine, find}
use orderbooks.Types.{is_by_handle, Order, Ptr, OrderHandle, Side, Template}
use orderbooks.Level
use orderbooks.Engine.Frame.{publish_top_if_changed-book}
use orderbooks.Prelude.{
  none, refl, ==_iff, sym, some, ◌≡◌, subst, Option, Option-cases, Bool-cases, Bool, ◌≤◌, ℕ, true,
  inl, inr, ap,
}

module _ (c : Template) where
  pub remove-IsBehind :
      (s : Side) {slots : ℕ → Slot} (b : BookSide) (p : Ptr) (o : Order)
      → l3_words c.ticks ≤ 1
      → SideInv c.ticks s slots b
      → IsBehind s b.best (remove c.ticks s b p o).best
  unfolding remove notify_level_emptied
  remove-IsBehind s b p o fits v =
      let lvl = unlink (b.levels o.px) p o in
      let b' = set_level b o.px lvl in
      elim (Bool-cases (Level.empty lvl)) [
        | inr left ↦ rw left (IsBehind-refl s b.best)
        | inl run_out ↦ elim (Bool-cases (is_best b.best o.px)) [
          | inr elsewhere ↦ rw (run_out, elsewhere) (IsBehind-refl s b.best)
          | inl at_best ↦
              let here : b.best ≡ some o.px = best_at b.best o.px at_best in
              let back =
                emptied-IsBehind c s o.px b' fits v.bitmap
                  (subst (IsBest c.ticks s b.bm) here v.best_is) here in
              rw run_out (
                subst (λ x. IsBehind s x (notify_level_emptied c.ticks s b' o.px).best) (sym here)
                  back)
        ]
      ]
    where
      best_at : (best : Option ℕ) (px : ℕ) → is_best best px ≡ true → best ≡ some px
      best_at none px h = cc
      best_at (some q) px h = ap some ((==_iff q px).0 h)

  pub found-IsUncrossed :
      (e : Engine) (id : ℕ) (h : OrderHandle) (unindex : Bool)
      → IsUncrossed e.book
      → IsUncrossed (find c e id h unindex).1.book
  unfolding find
  found-IsUncrossed e id h unindex u = elim (Bool-cases (is_by_handle c)) [
    | inl by_hand ↦ rw by_hand u
    | inr indexed ↦ elim (Bool-cases unindex) [
      | inl gives_up ↦ rw (indexed, gives_up) u
      | inr keeps ↦ rw (indexed, keeps) u
    ]
  ]

  -- With at most four bitmap tiers, on a sound book whose best bid is below its best ask wherever
  -- it has both, a cancel leaves a book of which the same holds, whether it finds an order or not.
  pub on_cancel-IsUncrossed :
      (m : CancelMsg) (e : Engine)
      → l3_words c.ticks ≤ 1
      → BookInv c e.book
      → IsUncrossed e.book
      → IsUncrossed (on_cancel c m e).book
  unfolding on_cancel
  on_cancel-IsUncrossed m e fits v u =
      let f = find c e m.id m.handle true in
      let kept = (find-BookInv c e m.id m.handle true v).0 in
      let u' = found-IsUncrossed e m.id m.handle true u in
      elim (Option-cases f.0) [
        | inl missing ↦ rw (missing, on_cancel) u'
        | inr (p, got) ↦
            let o = order_at f.1 p in
            let b = remove_order_book c p o.s f.1 refl in
            let back = remove-IsBehind o.s (side_of o.s f.1.book) p o fits (kept.sides o.s) in
            rw (got, on_cancel)
              (subst IsUncrossed (sym (publish_top_if_changed-book (remove_order c p f.1))) (
                still-IsUncrossed c o.s f.1.book (remove_order c p f.1).book
                  (subst (λ (k : BookSide). IsBehind o.s (side_of o.s f.1.book).best k.best)
                    (sym b.1) back)
                  b.2 u'))
      ]
