-- ===== src/Engine/Submit.antt =====
-- include/lob/engine.hpp: the invariant of the book through `on_submit`.
use orderbooks.Engine.Resting.{rest-BookInv}
use orderbooks.Engine.Fok.{can_fully_fill}
use orderbooks.Engine.Frame.{publish_top_if_changed-book}
use orderbooks.Engine.Matching.{match_against_opposite-BookInv}
use orderbooks.BookSide.{side_of, Book}
use orderbooks.Engine.Invariant.{BookInv}
use orderbooks.Bitmap.{l3_words}
use orderbooks.Engine.{order_at, Engine}
use orderbooks.Engine.Match.{
  settle_level, level_rounds, crosses, level_at, rest, fill_front, handle_self_cross, match_front,
  self_cross_by, match_against_opposite, match_level,
}
use orderbooks.Engine.Handlers.{finish_by_tif, is_fok, on_submit, handle_submit, finish_submit}
use orderbooks.Messages.{SubmitMsg}
use orderbooks.Types.{
  gtc, ioc, fok, decrement_trade, cancel_oldest, opposite, cancel_newest, Tif, Ptr, SelfCrossPolicy,
  Side, Template,
}
use orderbooks.Prelude.{
  zero, Option-cases, List-cases, inl, inr, ◌&&◌, ltb, sym, ◌==◌, not, suc, Bool-cases, ◌+◌, arith,
  subst, ◌≤◌, ◌^◌, ℕ, ◌<◌,
}

module _ (c : Template) where
  self_cross_by-left :
      (policy : SelfCrossPolicy) (m : SubmitMsg) (s : Side) (px : ℕ) (p : Ptr) (e : Engine)
      (remaining : ℕ)
      → (self_cross_by c policy m s px p e remaining).remaining ≤ remaining
  unfolding self_cross_by
  self_cross_by-left cancel_newest m s px p e remaining = omega arith
  self_cross_by-left cancel_oldest m s px p e remaining = omega arith
  self_cross_by-left decrement_trade m s px p e remaining = omega arith

  match_front-left :
      (m : SubmitMsg) (s : Side) (px : ℕ) (p : Ptr) (e : Engine) (remaining : ℕ)
      → (match_front c m s px p e remaining).remaining ≤ remaining
  unfolding match_front handle_self_cross fill_front
  match_front-left m s px p e remaining =
      elim (Bool-cases (not (m.account_id == 0) && (order_at e p).account_id == m.account_id)) [
        | inl own ↦ rw own (self_cross_by-left e.cfg.self_cross m s px p e remaining)
        | inr other ↦ rw other (omega arith)
      ]

  pub match_level-left :
      (f : ℕ) (m : SubmitMsg) (s : Side) (px : ℕ) (e : Engine) (remaining : ℕ)
      → (match_level c f m s px e remaining).remaining ≤ remaining
  unfolding match_level
  match_level-left zero m s px e remaining = omega arith
  match_level-left (suc f) m s px e remaining = elim (Bool-cases (ltb 0 remaining)) [
    | inr done ↦ rw (done, match_level) (omega arith)
    | inl more ↦ elim (List-cases (level_at e s px).fifo) [
      | inl e0 ↦ rw (more, e0, match_level) (omega arith)
      | inr (p, ps, front) ↦
          let r = match_front c m s px p e remaining in
          elim (Bool-cases r.aborted) [
            | inl stop ↦ rw (more, front, stop, match_level) (match_front-left m s px p e remaining)
            | inr on ↦
                rw (more, front, on, match_level)
                  (omega (
                    arith,
                    match_front-left m s px p e remaining,
                    match_level-left f m s px r.engine r.remaining,
                  ))
          ]
    ]
  ]

  pub match_against_opposite-left :
      (f : ℕ) (m : SubmitMsg) (s : Side) (e : Engine) (remaining : ℕ)
      → (match_against_opposite c f m s e remaining).1 ≤ remaining
  unfolding match_against_opposite
  match_against_opposite-left zero m s e remaining = omega arith
  match_against_opposite-left (suc f) m s e remaining = elim (Bool-cases (ltb 0 remaining)) [
    | inr done ↦ rw (done, match_against_opposite) (omega arith)
    | inl more ↦ elim (Option-cases (side_of s e.book).best) [
      | inl e0 ↦ rw (more, e0, match_against_opposite) (omega arith)
      | inr (px, best) ↦ elim (Bool-cases (crosses (opposite s) m.px px)) [
        | inr apart ↦ rw (more, best, apart, match_against_opposite) (omega arith)
        | inl reached ↦
            let r = match_level c (level_rounds c e s px) m s px e remaining in
            let le = match_level-left (level_rounds c e s px) m s px e remaining in
            elim (Bool-cases r.aborted) [
              | inl stop ↦ rw (more, best, reached, stop, match_against_opposite) le
              | inr on ↦
                  rw (more, best, reached, on, match_against_opposite)
                    (omega (
                      arith,
                      le,
                      match_against_opposite-left f m s (settle_level c s px r.engine) r.remaining,
                    ))
            ]
      ]
    ]
  ]

  -- What the engine's caller guarantees of an order: it fits the template.
  pub record IsValidSubmit (m : SubmitMsg) : Type 0 where
    pub on_ladder : m.px < c.ticks
    pub fits : m.qty < 2 ^ 64

  pub record IsValidTemplate : Type 0 where
    pub some_room : 0 < c.max_orders
    pub shallow : l3_words c.ticks ≤ 1

  finish_submit-BookInv :
      (m : SubmitMsg) (s : Side) (e : Engine) (remaining : ℕ)
      → IsValidTemplate
      → IsValidSubmit m
      → remaining ≤ m.qty
      → BookInv c e.book
      → BookInv c (finish_submit c m s (e, remaining)).1.book
  unfolding finish_submit finish_by_tif
  finish_submit-BookInv m s e remaining t w le v = elim (Bool-cases (remaining == 0)) [
    | inl none_left ↦ rw none_left v
    | inr some_left ↦ rw some_left (
        by_tif m.t (
          rest-BookInv c m s e remaining t.some_room w.on_ladder (ground arith)
            (omega (arith, w.fits)) v))
  ]
    where
      by_tif :
          (x : Tif)
          → BookInv c (rest c m s e remaining).1.book
          → BookInv c (finish_by_tif c x m s e remaining).1.book
      by_tif gtc r = r
      by_tif ioc r = v
      by_tif fok r = v

  pub handle_submit-BookInv :
      (m : SubmitMsg) (s : Side) (e : Engine)
      → IsValidTemplate
      → IsValidSubmit m
      → BookInv c e.book
      → BookInv c (handle_submit c m s e).1.book
  unfolding handle_submit
  handle_submit-BookInv m s e t w v =
      let out = match_against_opposite c (c.ticks + 1) m (opposite s) e m.qty in
      let matched =
        match_against_opposite-BookInv c (c.ticks + 1) m (opposite s) e m.qty t.shallow v in
      elim (Bool-cases
        (is_fok m.t && not (can_fully_fill c e (opposite s) m.px m.qty m.account_id))) [
          | inl killed ↦ rw killed v
          | inr taken ↦ rw taken (
              finish_submit-BookInv m s out.0 out.1 t w
                (match_against_opposite-left (c.ticks + 1) m (opposite s) e m.qty) matched)
        ]

  -- On a valid template, a submit whose price is on the ladder and whose quantity fits 64 bits
  -- keeps the book sound, whatever its time in force and the self-cross policy: levels,
  -- aggregates, bitmaps, cached bests, free list and links agree afterwards.
  pub on_submit-BookInv :
      (m : SubmitMsg) (e : Engine)
      → IsValidTemplate
      → IsValidSubmit m
      → BookInv c e.book
      → BookInv c (on_submit c m e).1.book
  unfolding on_submit
  on_submit-BookInv m e t w v =
      subst (λ (b : Book). BookInv c b)
        (sym (publish_top_if_changed-book (handle_submit c m m.s e).1))
        (handle_submit-BookInv m m.s e t w v)
