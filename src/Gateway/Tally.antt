-- ===== src/Gateway/Tally.antt =====
-- apps/gateway/wire.hpp: what `accum_pub` makes of the events of one submit.
use orderbooks.Prelude.{
  ℕ, ◌+◌, ◌<◌, ◌≡◌, ◌==◌, ◌^◌, ◌&&◌, Bool, true, false, List, [], ◌∷◌, ◌++◌, All, All-append,
  append-nil, refl, sym, ap, ◌∙◌, Bool-cases, inl, inr, arith,
}
use orderbooks.Messages.{Event, fill, top, trade, self_trade, reject, RejectMsg}
use orderbooks.Engine.{Engine, publish_top_if_changed, refresh_top, top_unchanged}
use orderbooks.Engine.Traded.{traded}
use orderbooks.Engine.Fok.Enough.{traded-append_all}
use orderbooks.Engine.Priority.Tally.{IsPlain}
use orderbooks.Gateway.{AccumPub, no_fills, accum_publish, accumulate}

accumulate-append :
    (a : AccumPub) (xs ys : List Event) → accumulate a (xs ++ ys) ≡ accumulate (accumulate a xs) ys
unfolding accumulate
accumulate-append a [] ys = refl
accumulate-append a (x ∷ xs) ys = accumulate-append (accum_publish a x) xs ys

-- Trades are added up, and tops are passed by.
abbrev IsSum : AccumPub → List Event → Type 0
IsSum a evs =
    ((accumulate a evs).filled ≡ a.filled + traded evs) × ((accumulate a evs).rejected ≡ a.rejected)

accumulate-IsSum :
    (a : AccumPub) (evs : List Event)
    → All IsPlain evs
    → a.filled + traded evs < 2 ^ 64
    → IsSum a evs
unfolding accumulate
accumulate-IsSum a [] plain fits = (omega arith, refl)
accumulate-IsSum a (fill m ∷ evs) (_, plain) fits =
    let r = accumulate-IsSum (accum_publish a (fill m)) evs plain (omega (arith, fits)) in
    (omega (arith, r.0, fits), r.1)
accumulate-IsSum a (top m ∷ evs) (_, plain) fits =
    let r = accumulate-IsSum a evs plain (omega (arith, fits)) in (omega (arith, r.0), r.1)
accumulate-IsSum a (trade m ∷ evs) (_, plain) fits =
    let r = accumulate-IsSum a evs plain (omega (arith, fits)) in (omega (arith, r.0), r.1)
accumulate-IsSum a (self_trade m ∷ evs) (no_use, plain) fits = absurd no_use
accumulate-IsSum a (reject m ∷ evs) (no_use, plain) fits = absurd no_use

-- What the telling of the top adds to the events.
pub record AddsTops (e e' : Engine) : Type 0 where
  pub tops : List Event
  pub published : e'.published ≡ e.published ++ tops
  pub plain : All IsPlain tops
  pub no_trade : traded tops ≡ 0

pub publish_top_if_changed-AddsTops : (e : Engine) → AddsTops e (publish_top_if_changed e)
unfolding publish_top_if_changed refresh_top
publish_top_if_changed-AddsTops e = elim (Bool-cases e.state.top_dirty) [
  | inr clean ↦ simp clean (nothing refl)
  | inl dirty ↦ elim (Bool-cases (e.state.suppress_top_depth == 0)) [
    | inr suppressed ↦ simp (dirty, suppressed) (nothing refl)
    | inl open_top ↦ elim (Bool-cases (e.cfg.top_throttle && top_unchanged e)) [
      | inl quiet ↦ simp (dirty, open_top, quiet) (nothing refl)
      | inr changed ↦
          simp (dirty, open_top, changed)
            (record { tops = _; published = refl; plain = (tt, tt); no_trade = refl })
    ]
  ]
]
  where
    nothing : {e' : Engine} → e'.published ≡ e.published → AddsTops e e'
    nothing h = record {
      tops = [];
      published = h ∙ sym (append-nil e.published);
      plain = tt;
      no_trade = refl;
    }

-- What `accum_pub` has after the events, and what they trade.
abbrev pub IsTallied : List Event → ℕ → Bool → Type 0
IsTallied evs n rejected =
    ((accumulate no_fills evs).filled ≡ n)
    × ((accumulate no_fills evs).rejected ≡ rejected)
    × (traded evs ≡ n)

pub trades-IsTallied :
    (trades tops : List Event)
    → All IsPlain trades
    → All IsPlain tops
    → traded tops ≡ 0
    → traded trades < 2 ^ 64
    → IsTallied (trades ++ tops) (traded trades) false
trades-IsTallied trades tops plain plain' none_traded fits =
    let sum = traded-append_all trades tops in
    let r =
      accumulate-IsSum no_fills (trades ++ tops) (All-append IsPlain trades tops plain plain')
        (omega (arith, sum, none_traded, fits)) in
    (omega (arith, r.0, sum, none_traded), r.1, omega (arith, sum, none_traded))

pub reject-IsTallied :
    (trades : List Event) (m : RejectMsg) (tops : List Event)
    → All IsPlain trades
    → All IsPlain tops
    → traded tops ≡ 0
    → traded trades < 2 ^ 64
    → IsTallied ((trades ++ (reject m ∷ [])) ++ tops) (traded trades) true
unfolding accumulate
reject-IsTallied trades m tops plain plain' none_traded fits =
    let first = accumulate-IsSum no_fills trades plain (omega (arith, fits)) in
    let a = accum_publish (accumulate no_fills trades) (reject m) in
    let rest = accumulate-IsSum a tops plain' (omega (arith, first.0, none_traded, fits)) in
    let all : accumulate no_fills ((trades ++ (reject m ∷ [])) ++ tops) ≡ accumulate a tops =
      accumulate-append no_fills (trades ++ (reject m ∷ [])) tops
      ∙ ap (λ b. accumulate b tops) (accumulate-append no_fills trades (reject m ∷ [])) in
    (
      ap (λ b. b.filled) all ∙ omega (arith, rest.0, first.0, none_traded),
      ap (λ b. b.rejected) all ∙ rest.1,
      omega (
        arith,
        traded-append_all (trades ++ (reject m ∷ [])) tops,
        traded-append_all trades (reject m ∷ []),
        none_traded,
      ),
    )
