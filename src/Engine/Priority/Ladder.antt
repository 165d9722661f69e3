-- ===== src/Engine/Priority/Ladder.antt =====
-- The prices of one side in the order in which `match_against_opposite_` of include/lob/engine.hpp comes
-- to them, and what rests on them.
use orderbooks.Prelude.{
  ℕ, zero, suc, ◌<◌, ◌≡◌, ◌==◌, List, [], ◌∷◌, ◌++◌, All, All-append, All_mono, append_assoc, refl,
  sym, ap, ◌∙◌, Bool-cases, ==_iff, true, inl, inr, arith,
}
use orderbooks.Types.{Side, bid, ask}
use orderbooks.BookSide.{is_better}

-- The prices below `n`, the best first.
unfoldable pub ladder : Side → ℕ → List ℕ
ladder s zero = []
ladder bid (suc n) = n ∷ ladder bid n
ladder ask (suc n) = ladder ask n ++ (n ∷ [])

ladder-below : (s : Side) (n : ℕ) → All (λ q. q < n) (ladder s n)
unfolding ladder
ladder-below s zero = tt
ladder-below bid (suc n) = (
  omega arith,
  All_mono (λ q. q < n) (λ q. q < suc n) (ladder bid n) (λ q lt. omega arith) (ladder-below bid n),
)
ladder-below ask (suc n) =
    All-append (λ q. q < suc n) (ladder ask n) (n ∷ [])
      (All_mono (λ q. q < n) (λ q. q < suc n) (ladder ask n) (λ q lt. omega arith)
        (ladder-below ask n))
      (omega arith, tt)

-- The prices ahead of one price of the ladder, and those behind it.
pub record Split (s : Side) (n px : ℕ) : Type 0 where
  pub ahead : List ℕ
  pub behind : List ℕ
  pub whole : ladder s n ≡ ahead ++ (px ∷ behind)
  pub better : All (λ q. is_better s q px ≡ true) ahead
  pub worse : All (λ q. is_better s px q ≡ true) behind

pub Split-ladder : (s : Side) (n px : ℕ) → px < n → Split s n px
unfolding ladder
Split-ladder s zero px lt = absurd (omega arith)
Split-ladder bid (suc n) px lt = elim (Bool-cases (px == n)) [
  | inl e ↦
      let same : n ≡ px = sym ((==_iff _ _).0 e) in
      record {
        ahead = [];
        behind = ladder bid n;
        whole = ap (λ v. v ∷ ladder bid n) same;
        better = tt;
        worse =
            All_mono (λ q. q < n) (λ q. is_better bid px q ≡ true) (ladder bid n)
              (λ q lt. ground (arith, same)) (ladder-below bid n);
      }
  | inr ne ↦
      let r = Split-ladder bid n px (ground arith) in
      record {
        ahead = n ∷ r.ahead;
        behind = r.behind;
        whole = ap (λ (qs : List ℕ). n ∷ qs) r.whole;
        better = (ground arith, r.better);
        worse = r.worse;
      }
]
Split-ladder ask (suc n) px lt = elim (Bool-cases (px == n)) [
  | inl e ↦
      let same : n ≡ px = sym ((==_iff _ _).0 e) in
      record {
        ahead = ladder ask n;
        behind = [];
        whole = ap (λ v. ladder ask n ++ (v ∷ [])) same;
        better =
            All_mono (λ q. q < n) (λ q. is_better ask q px ≡ true) (ladder ask n)
              (λ q lt. ground (arith, same)) (ladder-below ask n);
        worse = tt;
      }
  | inr ne ↦
      let r = Split-ladder ask n px (ground arith) in
      record {
        ahead = r.ahead;
        behind = r.behind ++ (n ∷ []);
        whole =
            ap (λ (qs : List ℕ). qs ++ (n ∷ [])) r.whole
            ∙ append_assoc r.ahead (px ∷ r.behind) (n ∷ []);
        better = r.better;
        worse =
            All-append (λ q. is_better ask px q ≡ true) r.behind (n ∷ []) r.worse
              (ground arith, tt);
      }
]

module _ {ℓ} {A : Type ℓ} where
  -- What rests on a run of prices.
  unfoldable pub orders_on : (ℕ → List A) → List ℕ → List A
  orders_on f [] = []
  orders_on f (q ∷ qs) = f q ++ orders_on f qs

  pub orders_on-same :
      (f g : ℕ → List A) (qs : List ℕ) → All (λ q. f q ≡ g q) qs → orders_on f qs ≡ orders_on g qs
  unfolding orders_on
  orders_on-same f g [] same = refl
  orders_on-same f g (q ∷ qs) (e, later) = rw (e, orders_on-same f g qs later) refl

  orders_on-append :
      (f : ℕ → List A) (ps qs : List ℕ)
      → All (λ q. f q ≡ []) ps
      → orders_on f (ps ++ qs) ≡ orders_on f qs
  unfolding orders_on
  orders_on-append f [] qs none_there = refl
  orders_on-append f (p ∷ ps) qs (e, later) = rw e (orders_on-append f ps qs later)

  pub orders_on-nothing :
      (f : ℕ → List A) (qs : List ℕ) → ((q : ℕ) → f q ≡ []) → orders_on f qs ≡ []
  unfolding orders_on
  orders_on-nothing f [] none_there = refl
  orders_on-nothing f (q ∷ qs) none_there = rw (none_there q) (orders_on-nothing f qs none_there)

  -- With nothing ahead of a price, the orders at it come first.
  pub orders_on-best :
      (f : ℕ → List A) (s : Side) (n px : ℕ) (r : Split s n px)
      → ((q : ℕ) → is_better s q px ≡ true → f q ≡ [])
      → orders_on f (ladder s n) ≡ f px ++ orders_on f r.behind
  unfolding orders_on
  orders_on-best f s n px r none_ahead =
      ap (orders_on f) r.whole
      ∙ orders_on-append f r.ahead (px ∷ r.behind)
          (All_mono (λ q. is_better s q px ≡ true) (λ q. f q ≡ []) r.ahead none_ahead r.better)
