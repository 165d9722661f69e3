-- ===== src/Engine/SameTop.antt =====
-- include/lob/engine.hpp: what `match_against_opposite_` leaves alone inside a level, and on the other side.
use orderbooks.BookSide.{side_of}
use orderbooks.Messages.{SubmitMsg}
use orderbooks.Engine.{order_at, Engine}
use orderbooks.Engine.Match.{
  publish_fill, fill_front, publish_self_trade, handle_self_cross, match_level, cancel_front,
  self_cross_by, match_front, level_at, drop_front, consume, decrement,
}
use orderbooks.Types.{opposite, ask, SelfCrossPolicy, bid, Ptr, Side, Template}
use orderbooks.Types.{cancel_newest, cancel_oldest, decrement_trade}
use orderbooks.Prelude.{
  zero, List-cases, ltb, ◌&&◌, suc, not, refl, ◌∙◌, inr, inl, ◌==◌, Bool-cases, min, ◌≡◌, ℕ,
}

module _ (c : Template) where
  -- The bitmap and the cached best of a side, and the whole other side.
  abbrev SameTop : Side → Engine → Engine → Type 0
  SameTop s e e' =
      ((side_of s e'.book).best ≡ (side_of s e.book).best)
      × ((side_of s e'.book).bm ≡ (side_of s e.book).bm)
      × (side_of (opposite s) e'.book ≡ side_of (opposite s) e.book)

  decrement-SameTop :
      (s : Side) (px : ℕ) (p : Ptr) (q : ℕ) (e : Engine) → SameTop s e (decrement s px p q e)
  unfolding decrement
  decrement-SameTop bid px p q e = (refl, refl, refl)
  decrement-SameTop ask px p q e = (refl, refl, refl)

  drop_front-SameTop :
      (s : Side) (px : ℕ) (p : Ptr) (e : Engine) → SameTop s e (drop_front c s px p e)
  unfolding drop_front
  drop_front-SameTop bid px p e = (refl, refl, refl)
  drop_front-SameTop ask px p e = (refl, refl, refl)

  cancel_front-SameTop :
      (s : Side) (px : ℕ) (p : Ptr) (e : Engine) → SameTop s e (cancel_front c s px p e)
  unfolding cancel_front drop_front
  cancel_front-SameTop bid px p e = (refl, refl, refl)
  cancel_front-SameTop ask px p e = (refl, refl, refl)

  consume-SameTop :
      (s : Side) (px : ℕ) (p : Ptr) (q : ℕ) (e : Engine) → SameTop s e (consume c s px p q e)
  unfolding consume
  consume-SameTop s px p q e =
      let e' = decrement s px p q e in
      let d = decrement-SameTop s px p q e in
      let dropped = drop_front-SameTop s px p e' in
      elim (Bool-cases ((order_at e' p).remaining == 0)) [
        | inl gone ↦ rw gone (dropped.0 ∙ d.0, dropped.1 ∙ d.1, dropped.2 ∙ d.2)
        | inr left ↦ rw left d
      ]

  self_cross_by-SameTop :
      (policy : SelfCrossPolicy) (m : SubmitMsg) (s : Side) (px : ℕ) (p : Ptr) (e : Engine)
      (remaining : ℕ)
      → SameTop s e (self_cross_by c policy m s px p e remaining).engine
  unfolding self_cross_by
  self_cross_by-SameTop cancel_newest m s px p e remaining = (refl, refl, refl)
  self_cross_by-SameTop cancel_oldest m s px p e remaining = cancel_front-SameTop s px p e
  self_cross_by-SameTop decrement_trade m s px p e remaining =
      let q = min remaining (order_at e p).remaining in
      consume-SameTop s px p q (publish_self_trade c m (order_at e p) px q e)

  match_front-SameTop :
      (m : SubmitMsg) (s : Side) (px : ℕ) (p : Ptr) (e : Engine) (remaining : ℕ)
      → SameTop s e (match_front c m s px p e remaining).engine
  unfolding match_front handle_self_cross fill_front
  match_front-SameTop m s px p e remaining =
      elim (Bool-cases (not (m.account_id == 0) && (order_at e p).account_id == m.account_id)) [
        | inl own ↦ rw own (self_cross_by-SameTop e.cfg.self_cross m s px p e remaining)
        | inr other ↦
            let q = min remaining (order_at e p).remaining in
            rw other (consume-SameTop s px p q (publish_fill c m (order_at e p) px q e))
      ]

  pub match_level-SameTop :
      (f : ℕ) (m : SubmitMsg) (s : Side) (px : ℕ) (e : Engine) (remaining : ℕ)
      → SameTop s e (match_level c f m s px e remaining).engine
  unfolding match_level
  match_level-SameTop zero m s px e remaining = (refl, refl, refl)
  match_level-SameTop (suc f) m s px e remaining = elim (Bool-cases (ltb 0 remaining)) [
    | inr done ↦ rw (done, match_level) (refl, refl, refl)
    | inl more ↦ elim (List-cases (level_at e s px).fifo) [
      | inl e0 ↦ rw (more, e0, match_level) (refl, refl, refl)
      | inr (p, ps, front) ↦
          let r = match_front c m s px p e remaining in
          let here = match_front-SameTop m s px p e remaining in
          elim (Bool-cases r.aborted) [
            | inl halted ↦ rw (more, front, halted, match_level) here
            | inr on ↦
                let later = match_level-SameTop f m s px r.engine r.remaining in
                rw (more, front, on, match_level)
                  (later.0 ∙ here.0, later.1 ∙ here.1, later.2 ∙ here.2)
          ]
    ]
  ]
