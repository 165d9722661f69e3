-- ===== src/Engine/OnModify.antt =====
-- include/lob/engine.hpp: the branches of `on_modify`, and `apply_command` of include/lob/shard_worker.hpp.
use orderbooks.Engine.Modify.{relink-BookInv, change_qty-BookInv}
use orderbooks.Engine.Frame.{publish_top_if_changed-book}
use orderbooks.Engine.Rename.{rename_order-BookInv}
use orderbooks.BookSide.{Book}
use orderbooks.Engine.Invariant.{BookInv}
use orderbooks.Arena.{Arena, is_live}
use orderbooks.Engine.Submit.{on_submit-BookInv, IsValidTemplate}
use orderbooks.Engine.Cancel.{on_cancel-BookInv, find-BookInv, IsLiveIfFound}
use orderbooks.Engine.{order_at, find, Engine}
use orderbooks.Messages.{SubmitMsg, ModifyMsg}
use orderbooks.Engine.Handlers.{
  relink, still_rests, on_submit, change_qty, unsuppress, on_modify, rename_order, on_cancel,
  suppress, renames, modify_order, resubmit,
}
use orderbooks.Types.{Ptr, Template}
use orderbooks.Prelude.{
  Option-cases, some, Bool, true, false, sym, subst, inr, inl, ◌∙◌, ◌==◌, Bool-cases, true,
  if◌then◌else◌, ◌≡◌, ◌^◌, ◌<◌, ap,
}

pub either :
    (P : Engine → Type 0) (test : Bool) (a b : Engine) → P a → P b → P (if test then a else b)
either P true a b h k = h
either P false a b h k = k

module _ (c : Template) where
  -- What the engine's caller guarantees of a modify: it fits the template.
  pub record IsValidModify (m : ModifyMsg) : Type 0 where
    pub on_ladder : m.new_px < c.ticks
    pub positive : 0 < m.new_qty
    pub fits : m.new_qty < 2 ^ 64

  -- What the cancel inside `resubmit` finds, for the order at `p`, lives in the arena.
  abbrev pub FindsAgain : ModifyMsg → Ptr → Engine → Type 0
  FindsAgain m p e =
      IsLiveIfFound c (suppress c e) (find c (suppress c e) (order_at e p).id m.handle true).0

  resubmit-BookInv :
      (m : ModifyMsg) (p : Ptr) (e : Engine)
      → IsValidTemplate c
      → IsValidModify m
      → FindsAgain m p e
      → BookInv c e.book
      → BookInv c (resubmit c m p e).1.book
  unfolding resubmit
  resubmit-BookInv m p e t w finds v =
      let o = order_at e p in
      let cancelled = on_cancel c (record { id = o.id; handle = m.handle }) (suppress c e) in
      let again : SubmitMsg = record {
        id = o.id;
        px = m.new_px;
        qty = m.new_qty;
        s = o.s;
        t = o.t;
        account_id = o.account_id;
      } in
      let gone =
        on_cancel-BookInv c (record { id = o.id; handle = m.handle }) (suppress c e) t.shallow finds
          v in
      let back =
        on_submit-BookInv c again cancelled t (record { on_ladder = w.on_ladder; fits = w.fits })
          gone in
      subst (λ (b : Book). BookInv c b)
        (sym (publish_top_if_changed-book (unsuppress c (on_submit c again cancelled).1))) back

  modify_order-BookInv :
      (m : ModifyMsg) (p : Ptr) (e : Engine)
      → IsValidTemplate c
      → IsValidModify m
      → is_live (e.book.arena.slots p) ≡ true
      → FindsAgain m p e
      → BookInv c e.book
      → BookInv c (modify_order c m p e).1.book
  unfolding modify_order
  modify_order-BookInv m p e t w live finds v =
      let o = order_at e p in
      elim (Bool-cases (m.new_px == o.px)) [
        | inl same_px ↦ elim (Bool-cases (m.new_qty == o.remaining)) [
          | inl same_qty ↦ rw (same_px, same_qty) v
          | inr other_qty ↦
              rw (same_px, other_qty)
                (subst (λ (b : Book). BookInv c b)
                  (sym (publish_top_if_changed-book (change_qty c m p e)))
                  (change_qty-BookInv c m p e live w.positive w.fits v))
        ]
        | inr other_px ↦ elim (Bool-cases (still_rests c o.s m.new_px e)) [
          | inl rests ↦
              rw (other_px, rests)
                (subst (λ (b : Book). BookInv c b)
                  (sym (publish_top_if_changed-book (relink c m p e)))
                  (relink-BookInv c m p e t.shallow live w.on_ladder w.positive w.fits v))
          | inr meets ↦ rw (other_px, meets) (resubmit-BookInv m p e t w finds v)
        ]
      ]

  -- The engine behind the rename of `on_modify`, for the order at `p`.
  abbrev pub renamed_engine : ModifyMsg → Ptr → Engine → Engine
  renamed_engine m p e =
      let e' = (find c e m.id m.handle (renames c m)).1 in
      if renames c m then rename_order c m p e' else e'

  pub renamed-BookInv :
      (m : ModifyMsg) (p : Ptr) (e : Engine)
      → is_live (e.book.arena.slots p) ≡ true
      → BookInv c e.book
      → let e' = renamed_engine m p e in
        BookInv c e'.book × (is_live (e'.book.arena.slots p) ≡ true)
  renamed-BookInv m p e live v =
      let e' = (find c e m.id m.handle (renames c m)).1 in
      let kept = find-BookInv c e m.id m.handle (renames c m) v in
      let alive = ap (λ (a : Arena). is_live (a.slots p)) kept.1 ∙ live in
      either (λ (x : Engine). BookInv c x.book × (is_live (x.book.arena.slots p) ≡ true))
        (renames c m) (rename_order c m p e') e' (rename_order-BookInv c m p e' alive kept.0)
        (kept.0, alive)

  -- On a valid template, a modify whose new price is on the ladder and whose new quantity is
  -- positive and fits 64 bits keeps a sound book sound on every branch: not found, no change,
  -- quantity in place, relink at a price that still rests, and cancel and resubmit at one that
  -- crosses; given that what the engine finds for it, and again for the cancel inside, lives in
  -- the arena.
  pub on_modify-BookInv :
      (m : ModifyMsg) (e : Engine)
      → IsValidTemplate c
      → IsValidModify m
      → IsLiveIfFound c e (find c e m.id m.handle (renames c m)).0
      → ((p : Ptr)
          → (find c e m.id m.handle (renames c m)).0 ≡ some p
          → FindsAgain m p (renamed_engine m p e))
      → BookInv c e.book
      → BookInv c (on_modify c m e).1.book
  unfolding on_modify
  on_modify-BookInv m e t w finds again v =
      let f = find c e m.id m.handle (renames c m) in
      elim (Option-cases f.0) [
        | inl missing ↦ rw (missing, on_modify) ((find-BookInv c e m.id m.handle (renames c m) v).0)
        | inr (p, got) ↦
            let kept = renamed-BookInv m p e (subst (IsLiveIfFound c e) got finds) v in
            rw (got, on_modify)
              (modify_order-BookInv m p (renamed_engine m p e) t w kept.1 (again p got) kept.0)
      ]
