-- ===== src/Engine/Priority/Submit.antt =====
-- include/lob/engine.hpp: `handle_submit_<Side>`, on the orders of the two sides.
use orderbooks.Prelude.{
  ℕ, ◌+◌, ◌<◌, ◌≡◌, ◌==◌, ◌⊎◌, ◌^◌, ◌≤◌, ◌&&◌, not, ltb, Bool, true, false, if◌then◌else◌, List, [],
  ◌∷◌, ◌++◌, refl, sym, ap, ◌∙◌, Bool-cases, inl, inr, append_assoc, append-nil, subst, arith,
}
use orderbooks.Prelude.Word.{add_u64}
use orderbooks.Types.{Side, bid, ask, opposite, Order, Tif, gtc, ioc, fok, Template}
use orderbooks.Messages.{SubmitMsg, Event}
use orderbooks.Bitmap.{l3_words}
use orderbooks.Engine.{Engine}
use orderbooks.Engine.Match.{match_against_opposite, resting_order, rest}
use orderbooks.Engine.Handlers.{is_fok, finish_submit, finish_by_tif, handle_submit}
use orderbooks.Engine.Fok.{can_fully_fill}
use orderbooks.Engine.Invariant.{BookInv}
use orderbooks.Engine.Matching.{match_against_opposite-BookInv}
use orderbooks.Engine.Submit.{IsValidTemplate, IsValidSubmit}
use orderbooks.Engine.Fok.Enough.{volume}
use orderbooks.Engine.Fok.Verdict.{can_fully_fill-is_enough}
use orderbooks.Engine.Priority.{Matched, match_orders}
use orderbooks.Engine.Priority.Resting.{resting}
use orderbooks.Engine.Priority.Insert.{insert_order}
use orderbooks.Engine.Priority.Rest.{has_slot, refusal, IsRested, rest-IsRested}
use orderbooks.Engine.Priority.Refine.{match_against_opposite_refines}
use orderbooks.Engine.Priority.Lists.{
  Submitted, may_rest, turned_away, after_match, submit_to_lists, refused, lists_refuse, lists_take,
  nothing_left, lists_nothing,
}

module _ (c : Template) (m : SubmitMsg) where
  abbrev opp : Side
  opp = opposite m.s

  abbrev matched : Engine → Engine × ℕ
  matched e = match_against_opposite c (c.ticks + 1) m opp e m.qty

  -- The engine publishes what the lists say, and leaves what they leave.
  pub record IsSubmitted (e : Engine) (x : Submitted) (e' : Engine) : Type 0 where
    pub published : e'.published ≡ e.published ++ x.events
    pub there : resting c e' opp ≡ x.there
    pub here : resting c e' m.s ≡ x.here
    pub seq : e'.state.seq ≡ x.seq

  opposite_twice : (s : Side) → opposite (opposite s) ≡ s
  opposite_twice bid = refl
  opposite_twice ask = refl

  turned_away-IsSubmitted :
      (e : Engine)
      → IsSubmitted e (turned_away c m (resting c e opp) (resting c e m.s) e.state.seq) e
  turned_away-IsSubmitted e = record {
    published = sym (append-nil e.published);
    there = refl;
    here = refl;
    seq = refl;
  }

  by_tif :
      (x : Tif) (e : Engine) (remaining : ℕ)
      → ((may_rest x ≡ true) × (finish_by_tif c x m m.s e remaining ≡ rest c m m.s e remaining))
        ⊎ ((may_rest x ≡ false) × ((finish_by_tif c x m m.s e remaining).1 ≡ e))
  unfolding finish_by_tif
  by_tif gtc e remaining = inl (refl, refl)
  by_tif ioc e remaining = inr (refl, refl)
  by_tif fok e remaining = inr (refl, refl)

  -- The engine, after matching.
  record IsMatched (e e' : Engine) (remaining : ℕ) (r : Matched) : Type 0 where
    published : e'.published ≡ e.published ++ r.events
    there : resting c e' opp ≡ r.left
    some_left : remaining ≡ r.remaining
    seq : e'.state.seq ≡ r.seq
    here : resting c e' m.s ≡ resting c e m.s

  -- What is left comes to rest, or is rejected.
  rest-IsSubmitted :
      (e e' e'' : Engine) (remaining : ℕ) (r : Matched) (room : Bool)
      → IsMatched e e' remaining r
      → IsRested c m m.s e' remaining room e''
      → IsSubmitted e
          (record {
            events =
                r.events ++ (if room then [] else refusal c m r.remaining (add_u64 r.seq 1) ∷ []);
            there = r.left;
            here =
                if room
                then insert_order m.s (resting_order c m m.s r.remaining) (resting c e m.s)
                else resting c e m.s;
            seq = if room then r.seq else add_u64 r.seq 1;
          })
          e''
  rest-IsSubmitted e e' e'' remaining r room a b =
      let tail =
        λ (q n : ℕ). if◌then◌else◌ {A = List Event} room [] (refusal c m q (add_u64 n 1) ∷ []) in
      let rested = λ (q : ℕ) (os : List Order).
        if room then insert_order m.s (resting_order c m m.s q) os else os in
      record {
        published =
            b.published
            ∙ ap (λ (evs : List Event). evs ++ tail remaining e'.state.seq) a.published
            ∙ append_assoc e.published r.events (tail remaining e'.state.seq)
            ∙ ap (λ q. e.published ++ (r.events ++ tail q e'.state.seq)) a.some_left
            ∙ ap (λ n. e.published ++ (r.events ++ tail r.remaining n)) a.seq;
        there = b.there ∙ a.there;
        here =
            b.here
            ∙ ap (λ q. rested q (resting c e' m.s)) a.some_left
            ∙ ap (rested r.remaining) a.here;
        seq = b.seq ∙ ap (λ n. if room then n else add_u64 n 1) a.seq;
      }

  finish-IsSubmitted :
      (e e' : Engine) (remaining : ℕ) (r : Matched)
      → IsValidTemplate c
      → IsValidSubmit c m
      → BookInv c e'.book
      → IsMatched e e' remaining r
      → IsSubmitted e
          (after_match c m (has_slot c e') (resting c e m.s) r)
          (finish_submit c m m.s (e', remaining)).1
  unfolding finish_submit
  finish-IsSubmitted e e' remaining r t w v a =
      let room = has_slot c e' in
      let same : (r.remaining == 0) ≡ (remaining == 0) = ap (λ q. q == 0) (sym a.some_left) in
      let kept : IsSubmitted e
          (record { events = r.events; there = r.left; here = resting c e m.s; seq = r.seq }) e' =
        record { published = a.published; there = a.there; here = a.here; seq = a.seq } in
      elim (Bool-cases (remaining == 0)) [
        | inl done ↦
            let none_left : (r.remaining == 0) ≡ true = same ∙ done in
            rw (finish_submit, done, none_left) kept
        | inr more ↦
            let some_left : (r.remaining == 0) ≡ false = same ∙ more in
            elim (by_tif m.t e' remaining) [
              | inr (never, stays) ↦ rw (finish_submit, more, some_left, never, stays) kept
              | inl (may, goes) ↦
                  rw (finish_submit, more, some_left, may, goes)
                    (rest-IsSubmitted e e' (rest c m m.s e' remaining).1 remaining r room a
                      (rest-IsRested c m m.s e' remaining t.some_room w.on_ladder v))
            ]
      ]

  matched-IsMatched :
      (e : Engine)
      → l3_words c.ticks ≤ 1
      → BookInv c e.book
      → IsMatched e
          (matched e).0
          (matched e).1
          (match_orders e.cfg.self_cross m opp (resting c e opp) m.qty e.state.seq)
  matched-IsMatched e fits v =
      let (published, left, some_left, seq, other) =
        match_against_opposite_refines c m opp e m.qty fits v in
      record {
        published = published;
        there = left;
        some_left = some_left;
        seq = seq;
        here =
            subst (λ (s : Side). resting c (matched e).0 s ≡ resting c e s) (opposite_twice m.s)
              other;
      }

  -- Whether the engine kills the order.
  abbrev killed : Engine → Bool
  killed e = is_fok m.t && not (can_fully_fill c e opp m.px m.qty m.account_id)

  handle_taken :
      (e : Engine)
      → killed e ≡ false
      → (handle_submit c m m.s e).1 ≡ (finish_submit c m m.s (matched e)).1
  unfolding handle_submit
  handle_taken e goes = rw (goes, handle_submit) refl

  handle_killed : (e : Engine) → killed e ≡ true → (handle_submit c m m.s e).1 ≡ e
  unfolding handle_submit
  handle_killed e kill = rw (kill, handle_submit) refl

  -- On a valid template and a sound book, of whose opposite side all the quantities together fit
  -- 64 bits, a submit on the ladder, up to the telling of its top of book, does to the orders of
  -- the two sides what a book of two lists does: a fill-or-kill order that the other list cannot
  -- supply is turned away; any other is matched down the list, best price first and in order of
  -- arrival within a price; what is left of one that may rest stands behind the orders of its
  -- price, or is rejected where the arena has no slot; the events, both sides and the sequence
  -- numbers are those of the lists.
  pub handle_submit_refines :
      (e : Engine)
      → IsValidTemplate c
      → IsValidSubmit c m
      → BookInv c e.book
      → volume (resting c e (opposite m.s)) < 2 ^ 64
      → let room = has_slot c (match_against_opposite c (c.ticks + 1) m (opposite m.s) e m.qty).0 in
        IsSubmitted e
          (submit_to_lists c m e.cfg.self_cross room
            (resting c e (opposite m.s))
            (resting c e m.s)
            e.state.seq)
          (handle_submit c m m.s e).1
  handle_submit_refines e t w v few =
      let policy = e.cfg.self_cross in
      let there = resting c e opp in
      let here = resting c e m.s in
      let seq = e.state.seq in
      let room = has_slot c (matched e).0 in
      let r = match_orders policy m opp there m.qty seq in
      let e' = (handle_submit c m m.s e).1 in
      let away = turned_away-IsSubmitted e in
      let finished =
        finish-IsSubmitted e (matched e).0 (matched e).1 r t w
          (match_against_opposite-BookInv c (c.ticks + 1) m opp e m.qty t.shallow v)
          (matched-IsMatched e t.shallow v) in
      elim (Bool-cases (ltb 0 m.qty)) [
        | inr nothing ↦
            let z : m.qty ≡ 0 = ground (arith, nothing) in
            subst (λ x. IsSubmitted e x e') (sym (lists_nothing c m policy room there here seq z))
              (elim (Bool-cases (killed e)) [
                | inl kill ↦
                    subst (IsSubmitted e (turned_away c m there here seq))
                      (sym (handle_killed e kill)) away
                | inr goes ↦
                    subst (IsSubmitted e (turned_away c m there here seq))
                      (sym (handle_taken e goes))
                      (subst (λ x. IsSubmitted e x (finish_submit c m m.s (matched e)).1)
                        (nothing_left c m policy room there here seq z) finished)
              ])
        | inl more ↦
            let same : killed e ≡ refused c m policy there =
              ap (λ b. is_fok m.t && not b)
                (can_fully_fill-is_enough c m opp e t.shallow v (ground (arith, more)) few) in
            elim (Bool-cases (killed e)) [
              | inl kill ↦
                  subst (λ x. IsSubmitted e x e')
                    (sym (lists_refuse c m policy room there here seq (sym same ∙ kill)))
                    (subst (IsSubmitted e (turned_away c m there here seq))
                      (sym (handle_killed e kill)) away)
              | inr goes ↦
                  subst (λ x. IsSubmitted e x e')
                    (sym (lists_take c m policy room there here seq (sym same ∙ goes)))
                    (subst (IsSubmitted e (after_match c m room here r)) (sym (handle_taken e goes))
                      finished)
            ]
      ]
