-- ===== src/Engine/Priority/Without.antt =====
-- include/lob/level.hpp and book.hpp: the orders of a side when one of them is unlinked.
use orderbooks.Prelude.{
  ℕ, ◌<◌, ◌≡◌, ◌≢◌, ◌==◌, List, [], ◌∷◌, ◌++◌, All_mono, Distinct, refl, sym, ap, ◌∙◌, Bool-cases,
  ==_iff, true, false, inl, inr, update, update_ne, append_assoc, arith,
}
use orderbooks.Types.{Ptr, Side, Order}
use orderbooks.Level.{erase, is_empty}
use orderbooks.Arena.{Slot, order_in}
use orderbooks.BookSide.{is_better}
use orderbooks.BookSide.Levels.{Rests, AllRest, absent_of_not-Rests}
use orderbooks.BookSide.Unlink.{In}
use orderbooks.Engine.Priority.Ladder.{ladder, Split-ladder, orders_on, orders_on-same}
use orderbooks.Engine.Priority.Effects.{orders_in, orders_in-same}
use orderbooks.Engine.Priority.Insert.{orders_on-both, not_same}

-- The first list has the order, and the second one is the first without it.
pub record Without (o : Order) (os os' : List Order) : Type 0 where
  pub before : List Order
  pub after : List Order
  pub whole : os ≡ before ++ (o ∷ after)
  pub rest : os' ≡ before ++ after

pub orders_in-erase :
    (slots : ℕ → Slot) (p : Ptr) (x : Slot) (ps : List Ptr)
    → In p ps
    → Distinct ps
    → Without (order_in (slots p)) (orders_in slots ps) (orders_in (update slots p x) (erase p ps))
unfolding erase
orders_in-erase slots p x [] i d = absurd i
orders_in-erase slots p x (q ∷ ps) i d = elim (Bool-cases (q == p)) [
  | inl hit ↦
      let same : q ≡ p = (==_iff _ _).0 hit in
      rw (hit, erase)
        (record {
          before = [];
          after = orders_in slots ps;
          whole = ap (λ v. order_in (slots v) ∷ orders_in slots ps) same;
          rest = orders_in-same (update slots p x) slots ps (
              All_mono (λ r. r ≢ q) (λ r. update slots p x r ≡ slots r) ps
                (λ r ne. update_ne slots p r x (λ e. ne (sym e ∙ sym same))) d.0);
        })
  | inr miss ↦
      let w = orders_in-erase slots p x ps (later miss i) d.1 in
      let kept : update slots p x q ≡ slots q =
        update_ne slots p q x (λ e. ground (arith, e, miss)) in
      rw (miss, erase)
        (record {
          before = order_in (slots q) ∷ w.before;
          after = w.after;
          whole = ap (λ (os : List Order). order_in (slots q) ∷ os) w.whole;
          rest = rw kept (ap (λ (os : List Order). order_in (slots q) ∷ os) w.rest);
        })
]
  where
    later : q == p ≡ false → In p (q ∷ ps) → In p ps
    later miss (inl e) = absurd (ground (arith, e, miss))
    later miss (inr j) = j

-- One price of the ladder loses an order.
pub orders_on-Without :
    (f g : ℕ → List Order) (s : Side) (n px : ℕ) (o : Order)
    → px < n
    → Without o (f px) (g px)
    → ((q : ℕ) → q ≢ px → g q ≡ f q)
    → Without o (orders_on f (ladder s n)) (orders_on g (ladder s n))
unfolding orders_on
orders_on-Without f g s n px o lt w other =
    let r = Split-ladder s n px lt in
    let ahead = orders_on f r.ahead in
    let behind = orders_on f r.behind in
    let parts : (h : ℕ → List Order)
        → orders_on h (ladder s n) ≡ orders_on h r.ahead ++ (h px ++ orders_on h r.behind) =
      λ h. ap (orders_on h) r.whole ∙ orders_on-both h r.ahead (px ∷ r.behind) in
    let same_ahead : orders_on g r.ahead ≡ ahead = orders_on-same g f r.ahead (
      All_mono (λ q. is_better s q px ≡ true) (λ q. g q ≡ f q) r.ahead
        (λ q h. other q (not_same s q px h).0) r.better) in
    let same_behind : orders_on g r.behind ≡ behind = orders_on-same g f r.behind (
      All_mono (λ q. is_better s px q ≡ true) (λ q. g q ≡ f q) r.behind
        (λ q h. other q (not_same s px q h).1) r.worse) in
    record {
      before = ahead ++ w.before;
      after = w.after ++ behind;
      whole =
          parts f
          ∙ ap (λ (os : List Order). ahead ++ (os ++ behind)) w.whole
          ∙ ap (λ (os : List Order). ahead ++ os) (append_assoc w.before (o ∷ w.after) behind)
          ∙ sym (append_assoc ahead w.before (o ∷ (w.after ++ behind)));
      rest =
          parts g
          ∙ (rw (same_ahead, same_behind, w.rest) refl)
          ∙ ap (λ (os : List Order). ahead ++ os) (append_assoc w.before w.after behind)
          ∙ sym (append_assoc ahead w.before (w.after ++ behind));
    }

-- The orders of another level, after a write to a slot where none of them rests.
pub elsewhere :
    (s : Side) (q : ℕ) (slots : ℕ → Slot) (p : Ptr) (x : Slot) (ps : List Ptr)
    → ¬ Rests s q (slots p)
    → AllRest s q slots ps
    → orders_in (update slots p x) ps ≡ orders_in slots ps
elsewhere s q slots p x ps h all = orders_in-same (update slots p x) slots ps (
    All_mono (λ r. r ≢ p) (λ r. update slots p x r ≡ slots r) ps
      (λ r ne. update_ne slots p r x (λ e. ne (sym e))) (absent_of_not-Rests s q slots p ps h all))

pub not_empty : (p : Ptr) (ps : List Ptr) → In p ps → is_empty ps ≡ false
not_empty p [] i = absurd i
not_empty p (q ∷ ps) i = refl
