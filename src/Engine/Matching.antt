-- ===== src/Engine/Matching.antt =====
-- include/lob/engine.hpp: the invariant of the book through `match_against_opposite_`.
use orderbooks.Engine.Linked.{Linked-same_fifos, fifo_of}
use orderbooks.Level
use orderbooks.BookSide.{notify_level_emptied, with_side, side_of, Book, BookSide}
use orderbooks.BookSide.Settle.{settled-SideInv}
use orderbooks.Bitmap.{l3_words}
use orderbooks.Prelude.{
  Option-cases, refl, ◌≤◌, ◌&&◌, ◌==◌, List-cases, min, not, ltb, ◌≡◌, Bool-cases, ℕ, arith, List,
  ◌∷◌, zero, suc, inl, inr,
}
use orderbooks.Types.{
  ask, bid, opposite, Ptr, Side, Template, SelfCrossPolicy, cancel_newest, cancel_oldest,
  decrement_trade,
}
use orderbooks.Messages.{SubmitMsg}
use orderbooks.Engine.{Engine, order_at}
use orderbooks.Engine.Match.{
  level_rounds, crosses, match_against_opposite, settle_level, publish_fill, publish_self_trade,
  level_at, self_cross_by, handle_self_cross, fill_front, match_front, match_level,
}
use orderbooks.Engine.Invariant.{start_BookMatching, BookInv-of_sides, BookInv, BookMatching}
use orderbooks.Engine.Consume.{consume-BookMatching, cancel_front-BookMatching}

module _ (c : Template) where
  self_cross_by-BookMatching :
      (policy : SelfCrossPolicy) (m : SubmitMsg) (s : Side) (px : ℕ) (p : Ptr) (ps : List Ptr)
      (e : Engine) (remaining : ℕ)
      → (level_at e s px).fifo ≡ p ∷ ps
      → BookMatching c s px e.book
      → BookMatching c s px (self_cross_by c policy m s px p e remaining).engine.book
  unfolding self_cross_by
  self_cross_by-BookMatching cancel_newest m s px p ps e remaining front v = v
  self_cross_by-BookMatching cancel_oldest m s px p ps e remaining front v =
      cancel_front-BookMatching c s px p ps e front v
  self_cross_by-BookMatching decrement_trade m s px p ps e remaining front v =
      consume-BookMatching c s px p ps (min remaining (order_at e p).remaining)
        (publish_self_trade c m (order_at e p) px (min remaining (order_at e p).remaining) e) front
        (omega arith) v

  pub match_front-BookMatching :
      (m : SubmitMsg) (s : Side) (px : ℕ) (p : Ptr) (ps : List Ptr) (e : Engine) (remaining : ℕ)
      → (level_at e s px).fifo ≡ p ∷ ps
      → BookMatching c s px e.book
      → BookMatching c s px (match_front c m s px p e remaining).engine.book
  unfolding match_front handle_self_cross fill_front
  match_front-BookMatching m s px p ps e remaining front v =
      elim (Bool-cases (not (m.account_id == 0) && (order_at e p).account_id == m.account_id)) [
        | inl own ↦
            rw own (self_cross_by-BookMatching e.cfg.self_cross m s px p ps e remaining front v)
        | inr other ↦ rw other (
            consume-BookMatching c s px p ps (min remaining (order_at e p).remaining)
              (publish_fill c m (order_at e p) px (min remaining (order_at e p).remaining) e) front
              (omega arith) v)
      ]

  pub match_level-BookMatching :
      (f : ℕ) (m : SubmitMsg) (s : Side) (px : ℕ) (e : Engine) (remaining : ℕ)
      → BookMatching c s px e.book
      → BookMatching c s px (match_level c f m s px e remaining).engine.book
  unfolding match_level
  match_level-BookMatching zero m s px e remaining v = v
  match_level-BookMatching (suc f) m s px e remaining v = elim (Bool-cases (ltb 0 remaining)) [
    | inr done ↦ rw (done, match_level) v
    | inl more ↦ elim (List-cases (level_at e s px).fifo) [
      | inl e0 ↦ rw (more, e0, match_level) v
      | inr (p, ps, front) ↦
          let r = match_front c m s px p e remaining in
          let v' = match_front-BookMatching m s px p ps e remaining front v in
          elim (Bool-cases r.aborted) [
            | inl stop ↦ rw (more, front, stop, match_level) v'
            | inr on ↦
                rw (more, front, on, match_level)
                  (match_level-BookMatching f m s px r.engine r.remaining v')
          ]
    ]
  ]

  pub with_side_of_book :
      (s : Side) (k : BookSide) (b : Book)
      → (side_of s (with_side s k b) ≡ k)
        × (side_of (opposite s) (with_side s k b) ≡ side_of (opposite s) b)
        × ((with_side s k b).arena ≡ b.arena)
  with_side_of_book bid k b = (refl, refl, refl)
  with_side_of_book ask k b = (refl, refl, refl)

  fifos_emptied :
      (s : Side) (px : ℕ) (e : Engine) (t : Side) (r : ℕ)
      → fifo_of (with_side s (notify_level_emptied c.ticks s (side_of s e.book) px) e.book) t r
        ≡ fifo_of e.book t r
  unfolding notify_level_emptied
  fifos_emptied bid px e bid r = refl
  fifos_emptied bid px e ask r = refl
  fifos_emptied ask px e bid r = refl
  fifos_emptied ask px e ask r = refl

  -- The level at `px` is settled.
  pub settle_level-BookInv :
      (s : Side) (px : ℕ) (e : Engine)
      → l3_words c.ticks ≤ 1
      → BookMatching c s px e.book
      → BookInv c (settle_level c s px e).book
  unfolding settle_level
  settle_level-BookInv s px e fits v =
      let settled = settled-SideInv c.ticks s px fits v.here in
      elim (Bool-cases (Level.empty (level_at e s px))) [
        | inl run_out ↦
            let k = notify_level_emptied c.ticks s (side_of s e.book) px in
            let b = with_side_of_book s k e.book in
            rw run_out (
              BookInv-of_sides c s (with_side s k e.book) (rw (b.0, b.2) (simp run_out at settled))
                (rw (b.1, b.2) v.other) (rw b.2 v.arena)
                (Linked-same_fifos e.book (with_side s k e.book) b.2 (fifos_emptied s px e)
                  v.linked))
        | inr left ↦
            rw left (BookInv-of_sides c s e.book (simp left at settled) v.other v.arena v.linked)
      ]

  -- With at most four bitmap tiers, matching an aggressor against a side keeps a sound book sound,
  -- on any fuel.
  pub match_against_opposite-BookInv :
      (f : ℕ) (m : SubmitMsg) (s : Side) (e : Engine) (remaining : ℕ)
      → l3_words c.ticks ≤ 1
      → BookInv c e.book
      → BookInv c (match_against_opposite c f m s e remaining).0.book
  unfolding match_against_opposite
  match_against_opposite-BookInv zero m s e remaining fits v = v
  match_against_opposite-BookInv (suc f) m s e remaining fits v =
      elim (Bool-cases (ltb 0 remaining)) [
        | inr done ↦ rw (done, match_against_opposite) v
        | inl more ↦ elim (Option-cases (side_of s e.book).best) [
          | inl e0 ↦ rw (more, e0, match_against_opposite) v
          | inr (px, best) ↦ elim (Bool-cases (crosses (opposite s) m.px px)) [
            | inr apart ↦ rw (more, best, apart, match_against_opposite) v
            | inl reached ↦
                let r = match_level c (level_rounds c e s px) m s px e remaining in
                let v' = settle_level-BookInv s px r.engine fits (
                  match_level-BookMatching (level_rounds c e s px) m s px e remaining
                    (start_BookMatching c s px best v)) in
                elim (Bool-cases r.aborted) [
                  | inl stop ↦ rw (more, best, reached, stop, match_against_opposite) v'
                  | inr on ↦
                      rw (more, best, reached, on, match_against_opposite)
                        (match_against_opposite-BookInv f m s (settle_level c s px r.engine)
                          r.remaining fits v')
                ]
          ]
        ]
      ]
