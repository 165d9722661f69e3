-- ===== src/Engine/SeenTop.antt =====
-- include/lob/engine.hpp: the tops that `publish_top_if_changed_` tells, as one who reads them sees them.
use orderbooks.Engine.{
  next_seq, current_top, best_qty, top, best_ask, best_bid, best_px, Engine, top_unchanged,
}
use orderbooks.Engine.{with_state}
use orderbooks.Messages.{Event, TopMsg, fill, trade, self_trade, reject}
use orderbooks.Prelude.{
  Option, none, some, List, ◌∙◌, arith, [], ◌∷◌, inr, is_some, sym, inl, Bool-cases, ==_iff, ◌++◌,
  refl, false, ◌⊎◌, true, ◌≡◌, ◌&&◌, Bool,
}

-- The top that the engine last told is the one that its book shows, and no change is pending.
pub record IsTold (e : Engine) : Type 0 where
  pub have_top : e.state.have_top ≡ true
  pub bid_px : e.state.last_bid_px ≡ best_px (best_bid e)
  pub ask_px : e.state.last_ask_px ≡ best_px (best_ask e)
  pub bid_qty : e.state.last_bid_qty ≡ best_qty e.book.bids
  pub ask_qty : e.state.last_ask_qty ≡ best_qty e.book.asks
  pub clean : e.state.top_dirty ≡ false
  pub bid_side : e.state.have_bid_side ≡ is_some (best_bid e)
  pub ask_side : e.state.have_ask_side ≡ is_some (best_ask e)

-- The last top among some events, where `seen` was the last one before them.
abbrev pub last_top : Option TopMsg → List Event → Option TopMsg
last_top seen [] = seen
last_top seen (fill m ∷ evs) = last_top seen evs
last_top seen (top m ∷ evs) = last_top (some m) evs
last_top seen (trade m ∷ evs) = last_top seen evs
last_top seen (self_trade m ∷ evs) = last_top seen evs
last_top seen (reject m ∷ evs) = last_top seen evs

pub last_top-append :
    (seen : Option TopMsg) (xs ys : List Event)
    → last_top seen (xs ++ ys) ≡ last_top (last_top seen xs) ys
last_top-append seen [] ys = refl
last_top-append seen (fill m ∷ xs) ys = last_top-append seen xs ys
last_top-append seen (top m ∷ xs) ys = last_top-append (some m) xs ys
last_top-append seen (trade m ∷ xs) ys = last_top-append seen xs ys
last_top-append seen (self_trade m ∷ xs) ys = last_top-append seen xs ys
last_top-append seen (reject m ∷ xs) ys = last_top-append seen xs ys

-- A top has the best prices and quantities of the engine's book.
abbrev pub Shows : Engine → TopMsg → Type 0
Shows e m =
    (m.bid_px ≡ best_px (best_bid e))
    × (m.ask_px ≡ best_px (best_ask e))
    × (m.bid_qty ≡ best_qty e.book.bids)
    × (m.ask_qty ≡ best_qty e.book.asks)

-- The engine remembers the top that was last seen, or that there was none.
abbrev pub Remembers : Engine → Option TopMsg → Type 0
Remembers e none = e.state.have_top ≡ false
Remembers e (some m) =
    (e.state.have_top ≡ true)
    × (e.state.last_bid_px ≡ m.bid_px)
    × (e.state.last_ask_px ≡ m.ask_px)
    × (e.state.last_bid_qty ≡ m.bid_qty)
    × (e.state.last_ask_qty ≡ m.ask_qty)

-- The top that was last seen shows the book.
abbrev pub IsCurrent : Engine → Option TopMsg → Type 0
IsCurrent e none = ⊥
IsCurrent e (some m) = Shows e m

-- Nothing was published: the engine throttles, and who reads its tops has the current one. Or one top
-- was, of the book, with the next number: the engine does not throttle, or the reader's was out of date.
abbrev pub PublishedTop : Option TopMsg → Engine → Engine → Type 0
PublishedTop seen e e' =
    ((e.cfg.top_throttle ≡ true)
      × IsCurrent e seen
      × (e'.published ≡ e.published)
      × (e'.state.seq ≡ e.state.seq))
    ⊎ (((e.cfg.top_throttle ≡ false) ⊎ (¬ IsCurrent e seen))
        × (e'.published ≡ e.published ++ (top (current_top e (next_seq e)) ∷ []))
        × (e'.state.seq ≡ next_seq e))

pub both_true : (a b : Bool) → (a && b) ≡ true → (a ≡ true) × (b ≡ true)
both_true true true h = (refl, refl)
both_true true false h = cc
both_true false b h = cc

-- What the throttle's test compares.
pub top_unchanged_lem :
    (e : Engine)
    → top_unchanged e ≡ true
    → (e.state.have_top ≡ true)
      × (e.state.last_bid_px ≡ best_px (best_bid e))
      × (e.state.last_ask_px ≡ best_px (best_ask e))
      × (e.state.last_bid_qty ≡ best_qty e.book.bids)
      × (e.state.last_ask_qty ≡ best_qty e.book.asks)
unfolding top_unchanged
top_unchanged_lem e h =
    let a = both_true _ _ h in
    let b = both_true _ _ a.0 in
    let d = both_true _ _ b.0 in
    let f = both_true _ _ d.0 in
    (
      f.0,
      sym ((==_iff _ _).0 f.1),
      sym ((==_iff _ _).0 d.1),
      sym ((==_iff _ _).0 b.1),
      sym ((==_iff _ _).0 a.1),
    )

-- The throttle's test finds out whether the reader has the current top.
current_unchanged :
    (e : Engine) (seen : Option TopMsg)
    → Remembers e seen
    → IsCurrent e seen
    → top_unchanged e ≡ true
unfolding top_unchanged
current_unchanged e none r shows = absurd shows
current_unchanged e (some m) (have, r0, r1, r2, r3) (s0, s1, s2, s3) =
    let q0 = (==_iff (best_px (best_bid e)) e.state.last_bid_px).1 (sym (r0 ∙ s0)) in
    let q1 = (==_iff (best_px (best_ask e)) e.state.last_ask_px).1 (sym (r1 ∙ s1)) in
    let q2 = (==_iff (best_qty e.book.bids) e.state.last_bid_qty).1 (sym (r2 ∙ s2)) in
    let q3 = (==_iff (best_qty e.book.asks) e.state.last_ask_qty).1 (sym (r3 ∙ s3)) in
    rw (have, q0, q1, q2, q3) refl

pub unchanged-IsCurrent :
    (e : Engine) (seen : Option TopMsg)
    → Remembers e seen
    → top_unchanged e ≡ true
    → IsCurrent e seen
unchanged-IsCurrent e none r h = let u = top_unchanged_lem e h in cc
unchanged-IsCurrent e (some m) (have, r0, r1, r2, r3) h =
    let (_, u0, u1, u2, u3) = top_unchanged_lem e h in
    (sym r0 ∙ u0, sym r1 ∙ u1, sym r2 ∙ u2, sym r3 ∙ u3)

-- Why the engine tells a top.
pub told_for :
    (e : Engine) (seen : Option TopMsg)
    → Remembers e seen
    → (e.cfg.top_throttle && top_unchanged e) ≡ false
    → (e.cfg.top_throttle ≡ false) ⊎ (¬ IsCurrent e seen)
told_for e seen r h = elim (Bool-cases e.cfg.top_throttle) [
  | inr open_top ↦ inl open_top
  | inl throttled ↦
      inr
        (λ shows. let same = current_unchanged e seen r shows in ground (arith, h, throttled, same))
]

-- The flags that `refresh_top` sets are no part of what is remembered or shown.
pub flags_kept :
    (e : Engine) (dirty bid_side ask_side : Bool) (seen : Option TopMsg)
    → Remembers e seen
    → IsCurrent e seen
    → let h = record e.state {
      top_dirty = dirty;
      have_bid_side = bid_side;
      have_ask_side = ask_side;
    } in
      Remembers (with_state h e) seen × IsCurrent (with_state h e) seen
flags_kept e dirty bid_side ask_side none r shows = absurd shows
flags_kept e dirty bid_side ask_side (some m) r shows = (r, shows)
