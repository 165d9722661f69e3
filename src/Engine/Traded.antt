-- ===== src/Engine/Traded.antt =====
-- include/lob/engine.hpp: the quantity that `match_against_opposite_` trades, and what it leaves.
use orderbooks.BookSide.{side_of}
use orderbooks.Level.{Level}
use orderbooks.Engine.{next_seq, order_at, Engine}
use orderbooks.Engine.Match.{
  level_rounds, crosses, match_against_opposite, level_at, publish_self_trade, publish_fill,
  handle_self_cross, drop_front, match_level, decrement, consume, settle_level, cancel_front,
  self_cross_by, fill_front, match_front,
}
use orderbooks.Types.{
  opposite, decrement_trade, cancel_oldest, cancel_newest, Ptr, SelfCrossPolicy, Side, Template,
}
use orderbooks.Level
use orderbooks.Prelude.{
  Option-cases, zero, ◌∙◌, List-cases, ◌&&◌, ltb, ◌==◌, min, not, arith, refl, suc, Bool-cases, [],
  ◌≡◌, ◌∷◌, ◌+◌, ◌++◌, ℕ, List, false, inl, inr, ap,
}
use orderbooks.Messages.{SubmitMsg, Event, fill, top, trade, self_trade, reject}

-- The quantity of an aggressor that one event accounts for. A `trade_msg` doubles its `fill_msg`.
abbrev pub traded_by : Event → ℕ
traded_by (fill f) = f.qty
traded_by (top t) = 0
traded_by (trade t) = 0
traded_by (self_trade t) = t.qty
traded_by (reject r) = 0

abbrev pub traded : List Event → ℕ
traded [] = 0
traded (ev ∷ evs) = traded_by ev + traded evs

pub traded-append :
    (xs : List Event) (ev : Event) → traded (xs ++ (ev ∷ [])) ≡ traded xs + traded_by ev
traded-append [] ev = omega arith
traded-append (x ∷ xs) ev = omega (arith, traded-append xs ev)

module _ (c : Template) where
  pub decrement-published :
      (s : Side) (px : ℕ) (p : Ptr) (q : ℕ) (e : Engine)
      → (decrement s px p q e).published ≡ e.published
  unfolding decrement
  decrement-published s px p q e = refl

  pub drop_front-published :
      (s : Side) (px : ℕ) (p : Ptr) (e : Engine) → (drop_front c s px p e).published ≡ e.published
  unfolding drop_front
  drop_front-published s px p e = refl

  pub cancel_front-published :
      (s : Side) (px : ℕ) (p : Ptr) (e : Engine) → (cancel_front c s px p e).published ≡ e.published
  unfolding cancel_front drop_front
  cancel_front-published s px p e = refl

  pub consume-published :
      (s : Side) (px : ℕ) (p : Ptr) (q : ℕ) (e : Engine)
      → (consume c s px p q e).published ≡ e.published
  unfolding consume
  consume-published s px p q e =
      let e' = decrement s px p q e in
      elim (Bool-cases ((order_at e' p).remaining == 0)) [
        | inl gone ↦ rw gone (drop_front-published s px p e' ∙ decrement-published s px p q e)
        | inr left ↦ rw left (decrement-published s px p q e)
      ]

  pub settle_level-published :
      (s : Side) (px : ℕ) (e : Engine) → (settle_level c s px e).published ≡ e.published
  unfolding settle_level
  settle_level-published s px e = elim (Bool-cases (Level.empty (level_at e s px))) [
    | inl run_out ↦ rw run_out
    | inr left ↦ rw left
  ]

  -- What came in is traded or left.
  abbrev pub IsAccounted : Engine → ℕ → Engine → ℕ → Type 0
  IsAccounted e remaining e' left = traded e'.published + left ≡ traded e.published + remaining

  self_cross_by-IsAccounted :
      (policy : SelfCrossPolicy) (m : SubmitMsg) (s : Side) (px : ℕ) (p : Ptr) (e : Engine)
      (remaining : ℕ)
      → let r = self_cross_by c policy m s px p e remaining in
        r.aborted ≡ false → IsAccounted e remaining r.engine r.remaining
  unfolding self_cross_by
  self_cross_by-IsAccounted cancel_newest m s px p e remaining on = cc
  self_cross_by-IsAccounted cancel_oldest m s px p e remaining on =
      omega (arith, ap traded (cancel_front-published s px p e))
  self_cross_by-IsAccounted decrement_trade m s px p e remaining on =
      let maker = order_at e p in
      let q = min remaining maker.remaining in
      let e' = publish_self_trade c m maker px q e in
      let ev : Event = self_trade (record {
        aggressor = m.id;
        resting = maker.id;
        account = m.account_id;
        px = px;
        qty = q;
        seq = next_seq e;
      }) in
      omega (arith, ap traded (consume-published s px p q e'), traded-append e.published ev)

  fill_front-IsAccounted :
      (m : SubmitMsg) (s : Side) (px : ℕ) (p : Ptr) (e : Engine) (remaining : ℕ)
      → let r = fill_front c m s px p e remaining in IsAccounted e remaining r.engine r.remaining
  unfolding fill_front
  fill_front-IsAccounted m s px p e remaining =
      let maker = order_at e p in
      let q = min remaining maker.remaining in
      let e' = publish_fill c m maker px q e in
      let f : Event =
        fill (record { maker = maker.id; taker = m.id; px = px; qty = q; seq = next_seq e }) in
      let t : Event = trade (record { px = px; qty = q; seq = next_seq e }) in
      omega (
        arith,
        ap traded (consume-published s px p q e'),
        traded-append e.published f,
        traded-append (e.published ++ (f ∷ [])) t,
      )

  match_front-IsAccounted :
      (m : SubmitMsg) (s : Side) (px : ℕ) (p : Ptr) (e : Engine) (remaining : ℕ)
      → let r = match_front c m s px p e remaining in
        r.aborted ≡ false → IsAccounted e remaining r.engine r.remaining
  unfolding match_front handle_self_cross
  match_front-IsAccounted m s px p e remaining on =
      elim (Bool-cases (not (m.account_id == 0) && (order_at e p).account_id == m.account_id)) [
        | inl own ↦
            rw own (self_cross_by-IsAccounted e.cfg.self_cross m s px p e remaining (rw own at on))
        | inr other ↦ rw other (fill_front-IsAccounted m s px p e remaining)
      ]

  -- Unless the self-cross policy aborts the aggressor, the quantity of the fills and self trades
  -- that the inner matching loop publishes, with the quantity that it leaves, is what came in, on
  -- any fuel and under any policy.
  pub match_level-IsAccounted :
      (n : ℕ) (m : SubmitMsg) (s : Side) (px : ℕ) (e : Engine) (remaining : ℕ)
      → let r = match_level c n m s px e remaining in
        r.aborted ≡ false → IsAccounted e remaining r.engine r.remaining
  unfolding match_level
  match_level-IsAccounted zero m s px e remaining on = refl
  match_level-IsAccounted (suc n) m s px e remaining on = elim (Bool-cases (ltb 0 remaining)) [
    | inr done ↦ rw (done, match_level) refl
    | inl more ↦ elim (List-cases (level_at e s px).fifo) [
      | inl e0 ↦ rw (more, e0, match_level) refl
      | inr (p, ps, front) ↦
          let r = match_front c m s px p e remaining in
          elim (Bool-cases r.aborted) [
            | inl halted ↦
                let both : r.aborted ≡ false = rw (more, front, halted, match_level) at on in cc
            | inr goes ↦
                rw (more, front, goes, match_level)
                  (match_level-IsAccounted n m s px r.engine r.remaining
                      (rw (more, front, goes, match_level) at on)
                    ∙ match_front-IsAccounted m s px p e remaining goes)
          ]
    ]
  ]

  -- An aggressor without an account meets no order of its own.
  pub match_level-no_account :
      (n : ℕ) (m : SubmitMsg) (s : Side) (px : ℕ) (e : Engine) (remaining : ℕ)
      → m.account_id ≡ 0
      → (match_level c n m s px e remaining).aborted ≡ false
  unfolding match_level match_front fill_front
  match_level-no_account zero m s px e remaining anon = refl
  match_level-no_account (suc n) m s px e remaining anon = elim (Bool-cases (ltb 0 remaining)) [
    | inr done ↦ rw (done, match_level) refl
    | inl more ↦ elim (List-cases (level_at e s px).fifo) [
      | inl e0 ↦ rw (more, e0, match_level) refl
      | inr (p, ps, front) ↦
          let other : (not (m.account_id == 0) && (order_at e p).account_id == m.account_id)
              ≡ false =
            rw anon in
          let r = match_front c m s px p e remaining in
          let goes : r.aborted ≡ false = rw other in
          rw (more, front, goes, match_level)
            (match_level-no_account n m s px r.engine r.remaining anon)
    ]
  ]

  -- For an aggressor without an account, the quantity of the fills and self trades that matching
  -- publishes, with the quantity that it leaves, is what came in, on any fuel.
  pub match_against_opposite-IsAccounted :
      (n : ℕ) (m : SubmitMsg) (s : Side) (e : Engine) (remaining : ℕ)
      → m.account_id ≡ 0
      → let r = match_against_opposite c n m s e remaining in IsAccounted e remaining r.0 r.1
  unfolding match_against_opposite
  match_against_opposite-IsAccounted zero m s e remaining anon = refl
  match_against_opposite-IsAccounted (suc n) m s e remaining anon =
      elim (Bool-cases (ltb 0 remaining)) [
        | inr done ↦ rw (done, match_against_opposite) refl
        | inl more ↦ elim (Option-cases (side_of s e.book).best) [
          | inl e0 ↦ rw (more, e0, match_against_opposite) refl
          | inr (px, best) ↦ elim (Bool-cases (crosses (opposite s) m.px px)) [
            | inr apart ↦ rw (more, best, apart, match_against_opposite) refl
            | inl reached ↦
                let rounds = level_rounds c e s px in
                let r = match_level c rounds m s px e remaining in
                let e' = settle_level c s px r.engine in
                let on = match_level-no_account rounds m s px e remaining anon in
                rw (more, best, reached, on, match_against_opposite)
                  (match_against_opposite-IsAccounted n m s e' r.remaining anon
                    ∙ ap (λ (evs : List Event). traded evs + r.remaining)
                        (settle_level-published s px r.engine)
                    ∙ match_level-IsAccounted rounds m s px e remaining on)
          ]
        ]
      ]
