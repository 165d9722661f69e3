-- ===== src/Engine/Progress.antt =====
-- include/lob/engine.hpp: the rounds of the inner loop of `match_against_opposite_`.
use orderbooks.Engine.Submit.{match_level-left}
use orderbooks.Prelude.Word.{sub_u64}
use orderbooks.Messages.{SubmitMsg}
use orderbooks.Level.{Level, pop_front}
use orderbooks.Engine.{order_at, Engine}
use orderbooks.Engine.Match.{
  publish_fill, fill_front, publish_self_trade, handle_self_cross, with_level, match_level,
  cancel_front, self_cross_by, match_front, level_at, Outcome, drop_front, consume, decrement,
}
use orderbooks.Types.{ask, SelfCrossPolicy, bid, Ptr, Side, Template}
use orderbooks.Types.{Order, cancel_newest, cancel_oldest, decrement_trade}
use orderbooks.Prelude.{
  false, zero, List-cases, ltb, ◌&&◌, suc, ◌<◌, not, length, refl, ==_iff, arith, ◌∙◌, inr, inl,
  ◌==◌, Bool-cases, [], min, ◌-◌, ◌⊎◌, ◌∷◌, true, ◌≡◌, List, ℕ, ap,
}

module _ (c : Template) where
  -- What the inner loop leaves when it ends by itself.
  abbrev pub IsSettled : Side → ℕ → Outcome → Type 0
  IsSettled s px r = (r.remaining ≡ 0) ⊎ ((level_at r.engine s px).fifo ≡ [])

  pub decrement_fifo :
      (s : Side) (px : ℕ) (p : Ptr) (q : ℕ) (e : Engine)
      → ((level_at (decrement s px p q e) s px).fifo ≡ (level_at e s px).fifo)
        × (order_at (decrement s px p q e) p
            ≡ record (order_at e p) { remaining = (order_at e p).remaining - q })
  unfolding decrement
  decrement_fifo bid px p q e = (rw ((==_iff px px).1 refl), rw ((==_iff p p).1 refl))
  decrement_fifo ask px p q e = (rw ((==_iff px px).1 refl), rw ((==_iff p p).1 refl))

  pub drop_front_fifo :
      (s : Side) (px : ℕ) (p : Ptr) (e : Engine)
      → (level_at (drop_front c s px p e) s px).fifo ≡ pop_front (level_at e s px).fifo
  unfolding drop_front
  drop_front_fifo bid px p e = rw ((==_iff px px).1 refl)
  drop_front_fifo ask px p e = rw ((==_iff px px).1 refl)

  -- A trade of the lesser quantity leaves the aggressor with none or takes the front away.
  consume_front :
      (s : Side) (px : ℕ) (p : Ptr) (ps : List Ptr) (e : Engine) (remaining : ℕ)
      → (level_at e s px).fifo ≡ p ∷ ps
      → let q = min remaining (order_at e p).remaining in
        (remaining - q ≡ 0) ⊎ ((level_at (consume c s px p q e) s px).fifo ≡ ps)
  unfolding consume
  consume_front s px p ps e remaining front =
      let q = min remaining (order_at e p).remaining in
      let e' = decrement s px p q e in
      let d = decrement_fifo s px p q e in
      elim (Bool-cases ((order_at e' p).remaining == 0)) [
        | inl gone ↦ inr (rw gone (drop_front_fifo s px p e' ∙ ap pop_front (d.0 ∙ front)))
        | inr left ↦ inl (ground (arith, ap (λ (o : Order). o.remaining) d.1))
      ]

  with_level_fifo :
      (s : Side) (px : ℕ) (lvl : Level) (e : Engine)
      → (level_at (with_level s px lvl e) s px).fifo ≡ lvl.fifo
  with_level_fifo bid px lvl e = rw ((==_iff px px).1 refl)
  with_level_fifo ask px lvl e = rw ((==_iff px px).1 refl)

  pub cancel_front_fifo :
      (s : Side) (px : ℕ) (p : Ptr) (e : Engine)
      → (level_at (cancel_front c s px p e) s px).fifo ≡ pop_front (level_at e s px).fifo
  unfolding cancel_front
  cancel_front_fifo s px p e =
      let lvl = level_at e s px in
      let left = record lvl { aggregate = sub_u64 lvl.aggregate (order_at e p).remaining } in
      drop_front_fifo s px p (with_level s px left e) ∙ ap pop_front (with_level_fifo s px left e)

  -- What one round leaves: the aggressor has none left, or the front is gone.
  abbrev IsRound : Side → ℕ → List Ptr → Outcome → Type 0
  IsRound s px ps r = (r.remaining ≡ 0) ⊎ ((level_at r.engine s px).fifo ≡ ps)

  self_cross_by-IsRound :
      (policy : SelfCrossPolicy) (m : SubmitMsg) (s : Side) (px : ℕ) (p : Ptr) (ps : List Ptr)
      (e : Engine) (remaining : ℕ)
      → (level_at e s px).fifo ≡ p ∷ ps
      → IsRound s px ps (self_cross_by c policy m s px p e remaining)
  unfolding self_cross_by
  self_cross_by-IsRound cancel_newest m s px p ps e remaining front = inl refl
  self_cross_by-IsRound cancel_oldest m s px p ps e remaining front =
      inr (cancel_front_fifo s px p e ∙ ap pop_front front)
  self_cross_by-IsRound decrement_trade m s px p ps e remaining front =
      consume_front s px p ps
        (publish_self_trade c m (order_at e p) px (min remaining (order_at e p).remaining) e)
        remaining front

  pub match_front-IsRound :
      (m : SubmitMsg) (s : Side) (px : ℕ) (p : Ptr) (ps : List Ptr) (e : Engine) (remaining : ℕ)
      → (level_at e s px).fifo ≡ p ∷ ps
      → IsRound s px ps (match_front c m s px p e remaining)
  unfolding match_front handle_self_cross fill_front
  match_front-IsRound m s px p ps e remaining front =
      elim (Bool-cases (not (m.account_id == 0) && (order_at e p).account_id == m.account_id)) [
        | inl own ↦ rw own (self_cross_by-IsRound e.cfg.self_cross m s px p ps e remaining front)
        | inr other ↦ rw other (
            consume_front s px p ps
              (publish_fill c m (order_at e p) px (min remaining (order_at e p).remaining) e)
              remaining front)
      ]

  self_cross_by-aborted :
      (policy : SelfCrossPolicy) (m : SubmitMsg) (s : Side) (px : ℕ) (p : Ptr) (e : Engine)
      (remaining : ℕ)
      → (self_cross_by c policy m s px p e remaining).aborted ≡ true
      → (self_cross_by c policy m s px p e remaining).remaining ≡ 0
  unfolding self_cross_by
  self_cross_by-aborted cancel_newest m s px p e remaining stop = refl
  self_cross_by-aborted cancel_oldest m s px p e remaining stop = cc
  self_cross_by-aborted decrement_trade m s px p e remaining stop = cc

  -- Only `cancel_newest` aborts, and it leaves the aggressor none.
  pub match_front-aborted :
      (m : SubmitMsg) (s : Side) (px : ℕ) (p : Ptr) (e : Engine) (remaining : ℕ)
      → (match_front c m s px p e remaining).aborted ≡ true
      → (match_front c m s px p e remaining).remaining ≡ 0
  unfolding match_front handle_self_cross fill_front
  match_front-aborted m s px p e remaining stop =
      elim (Bool-cases (not (m.account_id == 0) && (order_at e p).account_id == m.account_id)) [
        | inl own ↦
            rw own (self_cross_by-aborted e.cfg.self_cross m s px p e remaining (rw own at stop))
        | inr other ↦ let halted : false ≡ true = rw other at stop in cc
      ]

  -- With more rounds than the level has orders, the inner matching loop ends with no aggressor
  -- quantity left or with the level empty.
  pub match_level-IsSettled :
      (f : ℕ) (m : SubmitMsg) (s : Side) (px : ℕ) (e : Engine) (remaining : ℕ)
      → length (level_at e s px).fifo < f
      → IsSettled s px (match_level c f m s px e remaining)
  unfolding match_level
  match_level-IsSettled zero m s px e remaining enough = absurd (omega arith)
  match_level-IsSettled (suc f) m s px e remaining enough = elim (Bool-cases (ltb 0 remaining)) [
    | inr done ↦ rw (done, match_level) (inl (ground arith))
    | inl more ↦ elim (List-cases (level_at e s px).fifo) [
      | inl e0 ↦ rw (more, e0, match_level) (inr e0)
      | inr (p, ps, front) ↦
          let r = match_front c m s px p e remaining in
          let shorter : length ps < f = omega (arith, ap length front) in
          let round = match_front-IsRound m s px p ps e remaining front in
          elim (Bool-cases r.aborted) [
            | inl stop ↦
                rw (more, front, stop, match_level)
                  (inl (match_front-aborted m s px p e remaining stop))
            | inr on ↦
                rw (more, front, on, match_level)
                  (elim round [
                    | inl none_left ↦
                        inl (
                          omega
                            (arith, none_left, match_level-left c f m s px r.engine r.remaining))
                    | inr fewer ↦
                        match_level-IsSettled f m s px r.engine r.remaining
                          (omega (arith, ap length fewer, shorter))
                  ])
          ]
    ]
  ]

  pub match_level-aborted :
      (f : ℕ) (m : SubmitMsg) (s : Side) (px : ℕ) (e : Engine) (remaining : ℕ)
      → (match_level c f m s px e remaining).aborted ≡ true
      → (match_level c f m s px e remaining).remaining ≡ 0
  unfolding match_level
  match_level-aborted zero m s px e remaining stop = cc
  match_level-aborted (suc f) m s px e remaining stop = elim (Bool-cases (ltb 0 remaining)) [
    | inr done ↦ rw (done, match_level) (ground arith)
    | inl more ↦ elim (List-cases (level_at e s px).fifo) [
      | inl e0 ↦ let halted : false ≡ true = rw (more, e0, match_level) at stop in cc
      | inr (p, ps, front) ↦
          let r = match_front c m s px p e remaining in
          elim (Bool-cases r.aborted) [
            | inl halted ↦
                rw (more, front, halted, match_level)
                  (match_front-aborted m s px p e remaining halted)
            | inr on ↦
                rw (more, front, on, match_level)
                  (match_level-aborted f m s px r.engine r.remaining
                    (rw (more, front, on, match_level) at stop))
          ]
    ]
  ]
