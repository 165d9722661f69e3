-- ===== src/Engine/Snapshot/Empty.antt =====
-- include/lob/engine.hpp: the loops of `clear_state_` end, and what they leave.
use orderbooks.Engine.Snapshot.Clear.{
  drop_resting-BookInv, drop_resting_sides, drain_side-BookInv, front-Rests, drain_level-BookInv,
}
use orderbooks.Engine.Termination.{
  behind_rounds, some_rounds, start_rounds, best_on_ladder, rounds_left,
}
use orderbooks.Engine.Match.{level_at}
use orderbooks.BookSide.{BookSide, is_better, side_of}
use orderbooks.Engine.Invariant.{BookInv}
use orderbooks.Bitmap.{l3_words}
use orderbooks.Engine.Snapshot.{fresh_from, clear_state, drain_side, drop_resting, drain_level}
use orderbooks.Level.{Level, erase, unlink}
use orderbooks.Prelude.{
  update_ne, sym, ◌==◌, ◌+◌, not, zero, ap, Bool, suc, inr, Option-cases, inl, List-cases, ◌<◌,
  refl, ◌≢◌, ==_iff, length, ◌≡◌, ◌≤◌, List, ℕ, arith, [], ◌∷◌, ◌∙◌, true, false, none, some,
}
use orderbooks.Types.{opposite, Ptr, Side, Template, bid, ask}
use orderbooks.Level
use orderbooks.Engine.{best_ask, best_bid, Engine}

module _ (c : Template) where
  front-erase : (p : Ptr) (ps : List Ptr) → erase p (p ∷ ps) ≡ ps
  unfolding erase
  front-erase p ps = rw ((==_iff p p).1 refl) refl

  -- The level without its first order.
  drop_resting-fifo :
      (s : Side) (px : ℕ) (e : Engine) (p : Ptr) (ps : List Ptr)
      → BookInv c e.book
      → (level_at e s px).fifo ≡ p ∷ ps
      → (level_at (drop_resting c s p e) s px).fifo ≡ ps
  unfolding unlink
  drop_resting-fifo s px e p ps v front =
      let sides = drop_resting_sides c s px p e (front-Rests c s px e p ps v front) in
      let here : (px == px) ≡ true = (==_iff px px).1 refl in
      ap (λ (f : ℕ → Level). (f px).fifo) sides.0 ∙ rw here (ap (erase p) front ∙ front-erase p ps)

  -- The level at `px` is empty; no other level and not the other side has changed.
  record Drained (s : Side) (px : ℕ) (e e' : Engine) : Type 0 where
    gone : (level_at e' s px).fifo ≡ []
    others : (q : ℕ) → q ≢ px → level_at e' s q ≡ level_at e s q
    other_side : side_of (opposite s) e'.book ≡ side_of (opposite s) e.book

  -- A round for each order is enough.
  drain_level-Drained :
      (f : ℕ) (s : Side) (px : ℕ) (e : Engine)
      → l3_words c.ticks ≤ 1
      → BookInv c e.book
      → length (level_at e s px).fifo ≤ f
      → Drained s px e (drain_level c f s px e)
  unfolding drain_level
  drain_level-Drained zero s px e fits v enough = elim (List-cases (level_at e s px).fifo) [
    | inl done ↦ record { gone = done; others = λ q ne. refl; other_side = refl }
    | inr (p, ps, front) ↦ absurd (omega (arith, enough, ap length front))
  ]
  drain_level-Drained (suc f) s px e fits v enough = elim (List-cases (level_at e s px).fifo) [
    | inl done ↦
        rw (done, drain_level) (record { gone = done; others = λ q ne. refl; other_side = refl })
    | inr (p, ps, front) ↦
        let e1 = drop_resting c s p e in
        let r = front-Rests c s px e p ps v front in
        let sides = drop_resting_sides c s px p e r in
        let shorter = drop_resting-fifo s px e p ps v front in
        let ih =
          drain_level-Drained f s px e1 fits (drop_resting-BookInv c s px p e fits r v)
            (omega (arith, enough, ap length front, ap length shorter)) in
        rw (front, drain_level)
          (record {
            gone = ih.gone;
            others = λ q ne.
                ih.others q ne
                ∙ ap (λ (f : ℕ → Level). f q) sides.0
                ∙ update_ne (side_of s e.book).levels px q _ (λ e. ne (sym e));
            other_side = ih.other_side ∙ sides.1;
          })
  ]

  -- The best price that is left is behind the one that was drained.
  drained_rounds :
      (s : Side) (px : ℕ) (e e' : Engine)
      → BookInv c e.book
      → BookInv c e'.book
      → (side_of s e.book).best ≡ some px
      → (level_at e' s px).fifo ≡ []
      → ((q : ℕ) → q ≢ px → level_at e' s q ≡ level_at e s q)
      → rounds_left c s (side_of s e'.book).best < rounds_left c s (some px)
  drained_rounds s px e e' v v' best gone others = elim (Option-cases (side_of s e'.book).best) [
    | inl e0 ↦ rw e0 (some_rounds c s px lt)
    | inr (q, e1) ↦
        let set' = (v'.sides s).best_is.is_set q e1 in
        let full' : Level.empty (level_at e' s q) ≡ false =
          ground (arith, set', (v'.sides s).populated q) in
        let ne : q ≢ px = λ eq. absurd (cc (full', gone, ap (λ k. (level_at e' s k).fifo) eq)) in
        let full : Level.empty (level_at e s q) ≡ false =
          ap (λ (l : Level). Level.empty l) (sym (others q ne)) ∙ full' in
        rw e1 (behind_rounds c s q px ne (not_ahead q (is_better s q px) refl (ap not full)) lt)
  ]
    where
      lt : px < c.ticks
      lt = best_on_ladder c s px (v.sides s) best

      not_ahead :
          (q : ℕ) (b : Bool)
          → is_better s q px ≡ b
          → not (Level.empty (level_at e s q)) ≡ true
          → b ≡ false
      not_ahead q false h full = refl
      not_ahead q true h full =
          absurd (cc ((v.sides s).best_is.none_ahead px q best h, (v.sides s).populated q, full))

  -- With more rounds than the best price allows, the outer loop ends with no price left.
  pub drain_side-empty :
      (f : ℕ) (s : Side) (e : Engine)
      → l3_words c.ticks ≤ 1
      → BookInv c e.book
      → rounds_left c s (side_of s e.book).best < f
      → let e' = drain_side c f s e in
        ((side_of s e'.book).best ≡ none)
        × (side_of (opposite s) e'.book ≡ side_of (opposite s) e.book)
  unfolding drain_side
  drain_side-empty zero s e fits v enough = absurd (omega arith)
  drain_side-empty (suc f) s e fits v enough = elim (Option-cases (side_of s e.book).best) [
    | inl done ↦ rw (done, drain_side) (done, refl)
    | inr (px, best) ↦
        let n = length (level_at e s px).fifo in
        let e' = drain_level c n s px e in
        let v' = drain_level-BookInv c n s px e fits v in
        let drained = drain_level-Drained n s px e fits v (omega arith) in
        let fewer = drained_rounds s px e e' v v' best drained.gone drained.others in
        let ih =
          drain_side-empty f s e' fits v'
            (omega (arith, fewer, enough, ap (rounds_left c s) best)) in
        rw (best, drain_side) (ih.0, ih.1 ∙ drained.other_side)
  ]

  -- With at most four bitmap tiers, clearing a sound book leaves no best price on either side and
  -- the state of a new engine: its loops end.
  pub clear_state-empty :
      (e : Engine)
      → l3_words c.ticks ≤ 1
      → BookInv c e.book
      → let e' = clear_state c e in
        (best_bid e' ≡ none) × (best_ask e' ≡ none) × (e'.state ≡ fresh_from c e)
  unfolding clear_state
  clear_state-empty e fits v =
      let e1 = drain_side c (c.ticks + 1) bid e in
      let v1 = drain_side-BookInv c (c.ticks + 1) bid e fits v in
      let bids = drain_side-empty (c.ticks + 1) bid e fits v (start_rounds c bid (v.sides bid)) in
      let asks =
        drain_side-empty (c.ticks + 1) ask e1 fits v1 (start_rounds c ask (v1.sides ask)) in
      (ap (λ (b : BookSide). b.best) asks.1 ∙ bids.0, asks.0, refl)
