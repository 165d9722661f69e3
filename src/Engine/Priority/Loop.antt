-- ===== src/Engine/Priority/Loop.antt =====
-- include/lob/engine.hpp: the inner loop of `match_against_opposite_` matches the orders of its level from
-- the front.
use orderbooks.Prelude.{
  ℕ, zero, suc, ◌<◌, ◌≡◌, ◌==◌, ◌⊎◌, ltb, List, [], ◌∷◌, ◌++◌, length, refl, sym, ap, ◌∙◌,
  Bool-cases, List-cases, true, false, inl, inr, append_assoc, append-nil, arith,
}
use orderbooks.Types.{Ptr, Side, EngineConfig, opposite, Template, SelfCrossPolicy}
use orderbooks.Messages.{SubmitMsg, Event}
use orderbooks.BookSide.Levels.{AllRest}
use orderbooks.Engine.{Engine}
use orderbooks.Engine.Match.{Outcome, crosses, level_at, match_front, match_level}
use orderbooks.Engine.Invariant.{BookMatching}
use orderbooks.Engine.Matching.{match_front-BookMatching}
use orderbooks.Engine.Progress.{match_front-IsRound, match_front-aborted}
use orderbooks.Engine.Priority.{Matched, unmatched, match_orders, match_orders-none}
use orderbooks.Engine.Priority.Effects.{orders_at, Frame, Frame-refl, Frame-trans}
use orderbooks.Engine.Priority.Round.{IsStep, IsFront, match_front-IsStep}

module _ (c : Template) (policy : SelfCrossPolicy) (m : SubmitMsg) (s : Side) (px : ℕ) where
  -- What is still to be matched at this price.
  abbrev still : Engine → ℕ → Matched
  still e remaining = match_orders policy m s (orders_at e s px) remaining e.state.seq

  -- The loop publishes what the reference says, and leaves what it leaves.
  pub record Follows (e : Engine) (remaining : ℕ) (r : Outcome) : Type 0 where
    pub published : r.engine.published ≡ e.published ++ (still e remaining).events
    pub left : orders_at r.engine s px ≡ (still e remaining).left
    pub some_left : r.remaining ≡ (still e remaining).remaining
    pub seq : r.engine.state.seq ≡ (still e remaining).seq
    pub frame : Frame s px e r.engine

  stops :
      (r : Outcome)
      → still r.engine r.remaining
        ≡ unmatched (orders_at r.engine s px) r.remaining r.engine.state.seq
      → Follows r.engine r.remaining r
  stops r h = record {
    published =
        sym (append-nil r.engine.published)
        ∙ ap (λ (t : Matched). r.engine.published ++ t.events) (sym h);
    left = ap (λ (t : Matched). t.left) (sym h);
    some_left = ap (λ (t : Matched). t.remaining) (sym h);
    seq = ap (λ (t : Matched). t.seq) (sym h);
    frame = Frame-refl s px r.engine;
  }

  steps :
      (e : Engine) (remaining : ℕ) (p : Ptr) (r r' : Outcome)
      → IsStep c policy m s px e remaining p r
      → Follows r.engine r.remaining r'
      → Follows e remaining r'
  steps e remaining p r r' st f = record {
    published =
        f.published
        ∙ ap (λ (evs : List Event). evs ++ (still r.engine r.remaining).events) st.published
        ∙ append_assoc e.published st.events (still r.engine r.remaining).events
        ∙ ap (λ (t : Matched). e.published ++ t.events) (sym st.meaning);
    left = f.left ∙ ap (λ (t : Matched). t.left) (sym st.meaning);
    some_left = f.some_left ∙ ap (λ (t : Matched). t.remaining) (sym st.meaning);
    seq = f.seq ∙ ap (λ (t : Matched). t.seq) (sym st.meaning);
    frame = Frame-trans s px st.frame f.frame;
  }

  still-spent :
      (e : Engine) (remaining : ℕ)
      → remaining ≡ 0
      → still e remaining ≡ unmatched (orders_at e s px) remaining e.state.seq
  still-spent e remaining z = rw z (match_orders-none policy m s (orders_at e s px) e.state.seq)

  still-empty :
      (e : Engine) (remaining : ℕ)
      → (level_at e s px).fifo ≡ []
      → still e remaining ≡ unmatched (orders_at e s px) remaining e.state.seq
  unfolding match_orders orders_at
  still-empty e remaining e0 = rw (orders_at, e0) refl

  IsFront-of :
      (e : Engine) (remaining : ℕ) (p : Ptr) (ps : List Ptr)
      → (level_at e s px).fifo ≡ p ∷ ps
      → BookMatching c s px e.book
      → crosses (opposite s) m.px px ≡ true
      → (remaining == 0) ≡ false
      → IsFront c policy m s px e remaining p ps
  IsFront-of e remaining p ps front v reached more =
      let all : AllRest s px e.book.arena.slots (p ∷ ps) = rw front at (v.here.sound px).owned in
      record {
        front = front;
        distinct = rw front at (v.here.sound px).distinct;
        rests = all.0;
        reached = reached;
        some_left = more;
      }

  pub match_level-Follows :
      (n : ℕ) (e : Engine) (remaining : ℕ)
      → (remaining ≡ 0) ⊎ (length (level_at e s px).fifo < n)
      → BookMatching c s px e.book
      → crosses (opposite s) m.px px ≡ true
      → e.cfg.self_cross ≡ policy
      → Follows e remaining (match_level c n m s px e remaining)
  unfolding match_level
  match_level-Follows zero e remaining (inl z) v reached same = stops _ (still-spent e remaining z)
  match_level-Follows zero e remaining (inr lt) v reached same = absurd (omega arith)
  match_level-Follows (suc n) e remaining enough v reached same =
      elim (Bool-cases (ltb 0 remaining)) [
        | inr done ↦ rw (done, match_level) (stops _ (still-spent e remaining (ground arith)))
        | inl more ↦ elim (List-cases (level_at e s px).fifo) [
          | inl e0 ↦ rw (more, e0, match_level) (stops _ (still-empty e remaining e0))
          | inr (p, ps, front) ↦
              let r = match_front c m s px p e remaining in
              let f = IsFront-of e remaining p ps front v reached (ground arith) in
              let st = match_front-IsStep c policy m s px e remaining p ps f same in
              elim (Bool-cases r.aborted) [
                | inl stop ↦
                    rw (more, front, stop, match_level)
                      (steps e remaining p r r st (
                        stops r (
                          still-spent r.engine r.remaining
                            (match_front-aborted c m s px p e remaining stop))))
                | inr on ↦
                    let round : (r.remaining ≡ 0) ⊎ (length (level_at r.engine s px).fifo < n) =
                      elim (match_front-IsRound c m s px p ps e remaining front) [
                        | inl none_left ↦ inl none_left
                        | inr fewer ↦ elim enough [
                          | inl z ↦ absurd (ground arith)
                          | inr lt ↦ inr (omega (arith, ap length fewer, ap length front, lt))
                        ]
                      ] in
                    rw (more, front, on, match_level)
                      (steps e remaining p r (match_level c n m s px r.engine r.remaining) st (
                        match_level-Follows n r.engine r.remaining round
                          (match_front-BookMatching c m s px p ps e remaining front v) reached
                          (ap (λ (k : EngineConfig). k.self_cross) st.frame.cfg ∙ same)))
              ]
        ]
      ]
