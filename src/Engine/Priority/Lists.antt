-- ===== src/Engine/Priority/Lists.antt =====
-- What `handle_submit_<Side>` of include/lob/engine.hpp promises of a book that is two lists of orders, each
-- by price and then by time.
use orderbooks.Prelude.{
  ℕ, ◌≡◌, ◌==◌, ◌&&◌, ◌||◌, not, Bool, true, false, if◌then◌else◌, List, [], ◌∷◌, ◌++◌, refl, ap,
  ◌∙◌, Bool-cases, inl, inr,
}
use orderbooks.Prelude.Word.{add_u64}
use orderbooks.Types.{opposite, Order, Tif, gtc, ioc, fok, Template, SelfCrossPolicy}
use orderbooks.Messages.{SubmitMsg, Event}
use orderbooks.Engine.Handlers.{is_fok}
use orderbooks.Engine.Fok.Enough.{is_enough}
use orderbooks.Engine.Priority.{Matched, match_orders, match_orders-none}
use orderbooks.Engine.Priority.Insert.{insert_order}
use orderbooks.Engine.Priority.Rest.{refusal}

-- The events, what then rests on the other side and on the order's own, and the last sequence number.
pub record Submitted : Type 0 where
  pub events : List Event
  pub there : List Order
  pub here : List Order
  pub seq : ℕ

abbrev pub may_rest : Tif → Bool
may_rest gtc = true
may_rest ioc = false
may_rest fok = false

-- The order, with the quantity that is left of it.
abbrev pub left_order : SubmitMsg → ℕ → Order
left_order m remaining = record {
  id = m.id;
  remaining = remaining;
  px = m.px;
  s = m.s;
  t = m.t;
  account_id = m.account_id;
}

module _ (c : Template) (m : SubmitMsg) where
  -- Nothing of the order is traded, and nothing of it rests.
  abbrev pub turned_away : List Order → List Order → ℕ → Submitted
  turned_away there here seq = record { events = []; there = there; here = here; seq = seq }

  -- What is left of a matched order rests, if it may; without room for it, it is rejected.
  abbrev pub after_match : Bool → List Order → Matched → Submitted
  after_match room here r =
      if r.remaining == 0 || not (may_rest m.t)
      then record { events = r.events; there = r.left; here = here; seq = r.seq }
      else record {
        events = r.events ++ (if room then [] else refusal c m r.remaining (add_u64 r.seq 1) ∷ []);
        there = r.left;
        here = if room then insert_order m.s (left_order m r.remaining) here else here;
        seq = if room then r.seq else add_u64 r.seq 1;
      }

  -- `room` is whether one more order can rest.
  unfoldable pub submit_to_lists : SelfCrossPolicy → Bool → List Order → List Order → ℕ → Submitted
  submit_to_lists policy room there here seq =
      let r = match_orders policy m (opposite m.s) there m.qty seq in
      if is_fok m.t && not (is_enough policy m (opposite m.s) m.qty there 0)
      then turned_away there here seq
      else after_match room here r

  -- Whether the lists turn the order away.
  abbrev pub refused : SelfCrossPolicy → List Order → Bool
  refused policy there = is_fok m.t && not (is_enough policy m (opposite m.s) m.qty there 0)

  pub lists_refuse :
      (policy : SelfCrossPolicy) (room : Bool) (there here : List Order) (seq : ℕ)
      → refused policy there ≡ true
      → submit_to_lists policy room there here seq ≡ turned_away there here seq
  unfolding submit_to_lists
  lists_refuse policy room there here seq h = rw (h, submit_to_lists) refl

  pub lists_take :
      (policy : SelfCrossPolicy) (room : Bool) (there here : List Order) (seq : ℕ)
      → refused policy there ≡ false
      → submit_to_lists policy room there here seq
        ≡ after_match room here (match_orders policy m (opposite m.s) there m.qty seq)
  unfolding submit_to_lists
  lists_take policy room there here seq h = rw (h, submit_to_lists) refl

  -- Nothing is wanted, and nothing is left.
  pub nothing_left :
      (policy : SelfCrossPolicy) (room : Bool) (there here : List Order) (seq : ℕ)
      → m.qty ≡ 0
      → after_match room here (match_orders policy m (opposite m.s) there m.qty seq)
        ≡ turned_away there here seq
  nothing_left policy room there here seq z =
      ap (λ q. after_match room here (match_orders policy m (opposite m.s) there q seq)) z
      ∙ ap (after_match room here) (match_orders-none policy m (opposite m.s) there seq)

  pub lists_nothing :
      (policy : SelfCrossPolicy) (room : Bool) (there here : List Order) (seq : ℕ)
      → m.qty ≡ 0
      → submit_to_lists policy room there here seq ≡ turned_away there here seq
  lists_nothing policy room there here seq z = elim (Bool-cases (refused policy there)) [
    | inl no_use ↦ lists_refuse policy room there here seq no_use
    | inr of_use ↦
        lists_take policy room there here seq of_use ∙ nothing_left policy room there here seq z
  ]
