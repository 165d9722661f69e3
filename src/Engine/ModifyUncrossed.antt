-- ===== src/Engine/ModifyUncrossed.antt =====
-- include/lob/engine.hpp: the best prices of the two sides through `on_modify`.
use orderbooks.Engine.Matching.{with_side_of_book}
use orderbooks.Engine.CancelUncrossed.{on_cancel-IsUncrossed, remove-IsBehind, found-IsUncrossed}
use orderbooks.Engine.Match.{crosses}
use orderbooks.Engine.Behind.{IsBehind-refl, IsBehind}
use orderbooks.Engine.Modify.{relink_book, change_qty_book}
use orderbooks.Engine.Invariant.{BookInv}
use orderbooks.BookSide.{add, with_side, remove, BookSide, side_of}
use orderbooks.Engine.Cancel.{on_cancel-BookInv, IsLiveIfFound}
use orderbooks.Engine.OnModify.{either, renamed-BookInv, renamed_engine, FindsAgain}
use orderbooks.Engine.Uncrossed.{
  placed-IsUncrossed, on_submit-IsUncrossed, still-IsUncrossed, IsUncrossed,
}
use orderbooks.Bitmap.{l3_words}
use orderbooks.Engine.{find, order_at, publish_top_if_changed, Engine}
use orderbooks.Engine.Handlers.{
  on_submit, unsuppress, suppress, on_cancel, renames, relink, change_qty, modify_order, on_modify,
  resubmit, still_rests, rename_order,
}
use orderbooks.Messages.{SubmitMsg, CancelMsg, ModifyMsg}
use orderbooks.Engine.Frame.{publish_top_if_changed-book}
use orderbooks.Prelude.{
  ◌∙◌, arith, refl, Option-cases, ltb, some, ◌==◌, sym, subst, ◌≡◌, Bool-cases, ◌≤◌, ℕ, true, false,
  inl, inr, ap,
}
use orderbooks.Types.{Order, opposite, is_by_handle, Side, Ptr, Template, bid, ask}

module _ (c : Template) where
  published-IsUncrossed :
      (e : Engine) → IsUncrossed e.book → IsUncrossed (publish_top_if_changed e).book
  published-IsUncrossed e u = subst IsUncrossed (sym (publish_top_if_changed-book e)) u

  change_qty-IsUncrossed :
      (m : ModifyMsg) (p : Ptr) (e : Engine)
      → IsUncrossed e.book
      → IsUncrossed (change_qty c m p e).book
  change_qty-IsUncrossed m p e u =
      let s = (order_at e p).s in
      let b = change_qty_book c m p s e refl in
      let same : (side_of s (change_qty c m p e).book).best ≡ (side_of s e.book).best =
        ap (λ (k : BookSide). k.best) b.1 in
      still-IsUncrossed c s e.book (change_qty c m p e).book
        (subst (IsBehind s (side_of s e.book).best) (sym same)
          (IsBehind-refl s (side_of s e.book).best))
        b.2 u

  -- A price that still rests reaches no best of the other side.
  still_rests-apart :
      (s : Side) (px : ℕ) (e : Engine)
      → still_rests c s px e ≡ true
      → (q : ℕ) → (side_of (opposite s) e.book).best ≡ some q
      → crosses s px q ≡ false
  unfolding still_rests
  still_rests-apart bid px e rests q there =
      let below : ltb px q ≡ true = rw (there, still_rests) at rests in ground arith
  still_rests-apart ask px e rests q there =
      let above : ltb q px ≡ true = rw (there, still_rests) at rests in ground arith

  relink-IsUncrossed :
      (m : ModifyMsg) (p : Ptr) (e : Engine)
      → l3_words c.ticks ≤ 1
      → still_rests c (order_at e p).s m.new_px e ≡ true
      → BookInv c e.book
      → IsUncrossed e.book
      → IsUncrossed (relink c m p e).book
  relink-IsUncrossed m p e fits rests v u =
      let o = order_at e p in
      let o' : Order = record o { px = m.new_px; remaining = m.new_qty } in
      let b' = (relink c m p e).book in
      let b = relink_book c m p o.s e refl in
      let removed = remove c.ticks o.s (side_of o.s e.book) p o in
      let mid = with_side o.s removed e.book in
      let w = with_side_of_book c o.s removed e.book in
      let back = remove-IsBehind c o.s (side_of o.s e.book) p o fits (v.sides o.s) in
      let u' =
        still-IsUncrossed c o.s e.book mid
          (subst (λ (k : BookSide). IsBehind o.s (side_of o.s e.book).best k.best) (sym w.0) back)
          w.1 u in
      placed-IsUncrossed c o.s mid b' p o' (b.1 ∙ ap (λ k. add c.ticks o.s k p o') (sym w.0))
        (b.2 ∙ sym w.1)
        (λ q there.
          still_rests-apart o.s m.new_px e rests q
            (ap (λ (k : BookSide). k.best) (sym w.1) ∙ there))
        u'

  resubmit-IsUncrossed :
      (m : ModifyMsg) (p : Ptr) (e : Engine)
      → l3_words c.ticks ≤ 1
      → FindsAgain c m p e
      → BookInv c e.book
      → IsUncrossed e.book
      → IsUncrossed (resubmit c m p e).1.book
  unfolding resubmit
  resubmit-IsUncrossed m p e fits finds v u =
      let o = order_at e p in
      let msg : CancelMsg = record { id = o.id; handle = m.handle } in
      let again : SubmitMsg = record {
        id = o.id;
        px = m.new_px;
        qty = m.new_qty;
        s = o.s;
        t = o.t;
        account_id = o.account_id;
      } in
      let cancelled = on_cancel c msg (suppress c e) in
      published-IsUncrossed (unsuppress c (on_submit c again cancelled).1) (
        on_submit-IsUncrossed c again cancelled fits
          (on_cancel-BookInv c msg (suppress c e) fits finds v)
          (on_cancel-IsUncrossed c msg (suppress c e) fits v u))

  modify_order-IsUncrossed :
      (m : ModifyMsg) (p : Ptr) (e : Engine)
      → l3_words c.ticks ≤ 1
      → FindsAgain c m p e
      → BookInv c e.book
      → IsUncrossed e.book
      → IsUncrossed (modify_order c m p e).1.book
  unfolding modify_order
  modify_order-IsUncrossed m p e fits finds v u =
      let o = order_at e p in
      elim (Bool-cases (m.new_px == o.px)) [
        | inl same_px ↦ elim (Bool-cases (m.new_qty == o.remaining)) [
          | inl same_qty ↦ rw (same_px, same_qty) u
          | inr other_qty ↦
              rw (same_px, other_qty)
                (published-IsUncrossed (change_qty c m p e) (change_qty-IsUncrossed m p e u))
        ]
        | inr other_px ↦ elim (Bool-cases (still_rests c o.s m.new_px e)) [
          | inl rests ↦
              rw (other_px, rests)
                (published-IsUncrossed (relink c m p e) (relink-IsUncrossed m p e fits rests v u))
          | inr meets ↦ rw (other_px, meets) (resubmit-IsUncrossed m p e fits finds v u)
        ]
      ]

  rename_order-IsUncrossed :
      (m : ModifyMsg) (p : Ptr) (e : Engine)
      → IsUncrossed e.book
      → IsUncrossed (rename_order c m p e).book
  unfolding rename_order
  rename_order-IsUncrossed m p e u = elim (Bool-cases (is_by_handle c)) [
    | inl by_hand ↦ rw by_hand u
    | inr indexed ↦ rw indexed u
  ]

  -- With at most four bitmap tiers, on a sound book whose best bid is below its best ask wherever
  -- it has both, a modify leaves a book of which the same holds, on every branch, given that what
  -- the engine finds for it, and again for the cancel inside, lives in the arena.
  pub on_modify-IsUncrossed :
      (m : ModifyMsg) (e : Engine)
      → l3_words c.ticks ≤ 1
      → IsLiveIfFound c e (find c e m.id m.handle (renames c m)).0
      → ((p : Ptr)
          → (find c e m.id m.handle (renames c m)).0 ≡ some p
          → FindsAgain c m p (renamed_engine c m p e))
      → BookInv c e.book
      → IsUncrossed e.book
      → IsUncrossed (on_modify c m e).1.book
  unfolding on_modify
  on_modify-IsUncrossed m e fits finds again v u =
      let f = find c e m.id m.handle (renames c m) in
      let u' = found-IsUncrossed c e m.id m.handle (renames c m) u in
      elim (Option-cases f.0) [
        | inl missing ↦ rw (missing, on_modify) u'
        | inr (p, got) ↦
            let kept = renamed-BookInv c m p e (subst (IsLiveIfFound c e) got finds) v in
            let u'' =
              either (λ (x : Engine). IsUncrossed x.book) (renames c m) (rename_order c m p f.1) f.1
                (rename_order-IsUncrossed m p f.1 u') u' in
            rw (got, on_modify)
              (modify_order-IsUncrossed m p (renamed_engine c m p e) fits (again p got) kept.0 u'')
      ]
