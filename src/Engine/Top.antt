-- ===== src/Engine/Top.antt =====
-- include/lob/engine.hpp: `publish_top_if_changed_`, what it tells and what it remembers.
use orderbooks.Engine.{
  next_seq, current_top, top, best_ask, best_bid, refresh_top, Engine, top_unchanged,
  publish_top_if_changed,
}
use orderbooks.Messages.{TopMsg}
use orderbooks.Prelude.{
  Option, some, ◌≢◌, subst, arith, [], ◌∷◌, inr, is_some, sym, inl, Bool-cases, ◌++◌, refl, false,
  ◌⊎◌, ◌==◌, true, ◌≡◌, ◌&&◌,
}
use orderbooks.Engine.SeenTop.{
  IsTold, last_top, last_top-append, Remembers, IsCurrent, PublishedTop, both_true,
  top_unchanged_lem, unchanged-IsCurrent, told_for, flags_kept,
}

-- The two early returns.
publish_nothing :
    (e : Engine)
    → (e.state.top_dirty ≡ false) ⊎ ((e.state.suppress_top_depth == 0) ≡ false)
    → publish_top_if_changed e ≡ e
unfolding publish_top_if_changed
publish_nothing e (inl clean) = simp clean
publish_nothing e (inr hidden) = elim (Bool-cases e.state.top_dirty) [
  | inr clean ↦ simp clean
  | inl dirty ↦ simp (dirty, hidden)
]

publish_refreshed :
    (e : Engine)
    → e.state.top_dirty ≡ true
    → (e.state.suppress_top_depth == 0) ≡ true
    → publish_top_if_changed e ≡ refresh_top e
unfolding publish_top_if_changed
publish_refreshed e dirty shown = simp (dirty, shown)

-- The reader of the published tops, who had `seen` before the first.
module _ (seen : Option TopMsg) where
  abbrev pub reader : Engine → Option TopMsg
  reader e = last_top seen e.published

  -- The reader has the book's top, and the engine remembers that.
  abbrev pub IsShown : Engine → Type 0
  IsShown e = IsTold e × Remembers e (reader e) × IsCurrent e (reader e)

  refresh_top-IsShown :
      (e : Engine)
      → Remembers e (reader e)
      → IsShown (refresh_top e) × PublishedTop (reader e) e (refresh_top e)
  unfolding refresh_top
  refresh_top-IsShown e r = elim (Bool-cases (e.cfg.top_throttle && top_unchanged e)) [
    | inl quiet ↦
        let q = both_true _ _ quiet in
        let u = top_unchanged_lem e q.1 in
        let now = unchanged-IsCurrent e (reader e) r q.1 in
        let kept =
          flags_kept e false (is_some (best_bid e)) (is_some (best_ask e)) (reader e) r now in
        rw (quiet, refresh_top)
          (
            (
              record {
                have_top = u.0;
                bid_px = u.1;
                ask_px = u.2;
                bid_qty = u.3;
                ask_qty = u.4;
                clean = refl;
                bid_side = refl;
                ask_side = refl;
              },
              kept.0,
              kept.1,
            ),
            inl (q.0, now, refl, refl),
          )
    | inr changed ↦
        let why = told_for e (reader e) r changed in
        let msg = current_top e (next_seq e) in
        let after : last_top seen (e.published ++ (top msg ∷ [])) ≡ some msg =
          last_top-append seen e.published (top msg ∷ []) in
        rw (changed, after, refresh_top)
          (
            (
              record {
                have_top = refl;
                bid_px = refl;
                ask_px = refl;
                bid_qty = refl;
                ask_qty = refl;
                clean = refl;
                bid_side = refl;
                ask_side = refl;
              },
              (refl, refl, refl, refl, refl),
              (refl, refl, refl, refl),
            ),
            inr (why, refl, refl),
          )
  ]

  -- Nothing is to be told or may be, and nothing happens; or the reader is brought up to date.
  abbrev pub IsPublished : Engine → Engine → Type 0
  IsPublished e e' =
      (((e.state.top_dirty ≡ false) ⊎ (e.state.suppress_top_depth ≢ 0)) × (e' ≡ e))
      ⊎ (IsShown e' × PublishedTop (reader e) e e')

  -- For an engine that remembers the last top that was told, or that there was none: without a
  -- pending change or under suppression, publishing the top does nothing; else the last top among
  -- the published events then has the best prices and quantities of the book, the engine remembers
  -- it and no change is pending; it tells exactly one top, with the next sequence number, where it
  -- does not throttle or the last one that was told did not have those prices and quantities, and
  -- otherwise none.
  pub publish_top_if_changed-IsPublished :
      (e : Engine) → Remembers e (reader e) → IsPublished e (publish_top_if_changed e)
  publish_top_if_changed-IsPublished e r = elim (Bool-cases e.state.top_dirty) [
    | inr clean ↦ inl (inl clean, publish_nothing e (inl clean))
    | inl dirty ↦ elim (Bool-cases (e.state.suppress_top_depth == 0)) [
      | inr hidden ↦ inl (inr (λ z. ground (arith, z, hidden)), publish_nothing e (inr hidden))
      | inl shown ↦ inr (
          subst (λ (e' : Engine). IsShown e' × PublishedTop (reader e) e e')
            (sym (publish_refreshed e dirty shown)) (refresh_top-IsShown e r))
    ]
  ]
