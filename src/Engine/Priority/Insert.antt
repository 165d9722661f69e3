-- ===== src/Engine/Priority/Insert.antt =====
-- An order that comes to rest stands behind the orders of its side at its price, and ahead of those at a
-- worse one: what `rest_` of include/lob/engine.hpp promises.
use orderbooks.Prelude.{
  ℕ, ◌<◌, ◌≡◌, ◌≢◌, if◌then◌else◌, List, [], ◌∷◌, ◌++◌, All, All-append, All_mono, append_assoc,
  refl, sym, ap, ◌∙◌, true, false, arith,
}
use orderbooks.Types.{Side, bid, ask, Order}
use orderbooks.BookSide.{is_better}
use orderbooks.Engine.Priority.Ladder.{ladder, Split-ladder, orders_on, orders_on-same}

unfoldable pub insert_order : Side → Order → List Order → List Order
insert_order s o [] = o ∷ []
insert_order s o (p ∷ ps) =
    let later = insert_order s o ps in if is_better s o.px p.px then o ∷ p ∷ ps else p ∷ later

module _ (s : Side) (o : Order) where
  insert_order-behind :
      (xs ys : List Order)
      → All (λ p. is_better s o.px p.px ≡ false) xs
      → insert_order s o (xs ++ ys) ≡ xs ++ insert_order s o ys
  unfolding insert_order
  insert_order-behind [] ys h = refl
  insert_order-behind (x ∷ xs) ys (h, later) =
      rw (h, insert_order) (ap (λ (zs : List Order). x ∷ zs) (insert_order-behind xs ys later))

  insert_order-ahead :
      (ys : List Order) → All (λ p. is_better s o.px p.px ≡ true) ys → insert_order s o ys ≡ o ∷ ys
  unfolding insert_order
  insert_order-ahead [] h = refl
  insert_order-ahead (y ∷ ys) (h, later) = rw (h, insert_order) refl

orders_on-All :
    (P : Order → Type 0) (f : ℕ → List Order) (qs : List ℕ)
    → All (λ q. All P (f q)) qs
    → All P (orders_on f qs)
unfolding orders_on
orders_on-All P f [] h = tt
orders_on-All P f (q ∷ qs) (h, later) =
    All-append P (f q) (orders_on f qs) h (orders_on-All P f qs later)

pub orders_on-both :
    (f : ℕ → List Order) (ps qs : List ℕ)
    → orders_on f (ps ++ qs) ≡ orders_on f ps ++ orders_on f qs
unfolding orders_on
orders_on-both f [] qs = refl
orders_on-both f (p ∷ ps) qs =
    ap (λ (zs : List Order). f p ++ zs) (orders_on-both f ps qs)
    ∙ sym (append_assoc (f p) (orders_on f ps) (orders_on f qs))

not_ahead : (s : Side) (q px : ℕ) → is_better s q px ≡ true → is_better s px q ≡ false
not_ahead bid q px h = ground arith
not_ahead ask q px h = ground arith

pub not_same : (s : Side) (q px : ℕ) → is_better s q px ≡ true → (q ≢ px) × (px ≢ q)
not_same bid q px h = (ground arith, ground arith)
not_same ask q px h = (ground arith, ground arith)

level_mate : (s : Side) (q : ℕ) → is_better s q q ≡ false
level_mate bid q = ground arith
level_mate ask q = ground arith

-- One price of the ladder gets an order behind those that it has.
pub orders_on-insert :
    (f g : ℕ → List Order) (s : Side) (n : ℕ) (o : Order)
    → o.px < n
    → ((q : ℕ) → All (λ p. p.px ≡ q) (f q))
    → g o.px ≡ f o.px ++ (o ∷ [])
    → ((q : ℕ) → q ≢ o.px → g q ≡ f q)
    → orders_on g (ladder s n) ≡ insert_order s o (orders_on f (ladder s n))
unfolding orders_on
orders_on-insert f g s n o lt priced here other =
    let r = Split-ladder s n o.px lt in
    let ahead = orders_on f r.ahead in
    let level = f o.px in
    let behind = orders_on f r.behind in
    let parts : (h : ℕ → List Order)
        → orders_on h (ladder s n) ≡ orders_on h r.ahead ++ (h o.px ++ orders_on h r.behind) =
      λ h. ap (orders_on h) r.whole ∙ orders_on-both h r.ahead (o.px ∷ r.behind) in
    let same_ahead : orders_on g r.ahead ≡ ahead = orders_on-same g f r.ahead (
      All_mono (λ q. is_better s q o.px ≡ true) (λ q. g q ≡ f q) r.ahead
        (λ q h. other q (not_same s q o.px h).0) r.better) in
    let same_behind : orders_on g r.behind ≡ behind = orders_on-same g f r.behind (
      All_mono (λ q. is_better s o.px q ≡ true) (λ q. g q ≡ f q) r.behind
        (λ q h. other q (not_same s o.px q h).1) r.worse) in
    let ahead_passed : All (λ p. is_better s o.px p.px ≡ false) ahead =
      orders_on-All (λ p. is_better s o.px p.px ≡ false) f r.ahead
        (All_mono (λ q. is_better s q o.px ≡ true)
          (λ q. All (λ p. is_better s o.px p.px ≡ false) (f q)) r.ahead
          (λ q h.
            All_mono (λ p. p.px ≡ q) (λ p. is_better s o.px p.px ≡ false) (f q)
              (λ p e. ap (is_better s o.px) e ∙ not_ahead s q o.px h) (priced q))
          r.better) in
    let level_passed : All (λ p. is_better s o.px p.px ≡ false) level =
      All_mono (λ p. p.px ≡ o.px) (λ p. is_better s o.px p.px ≡ false) level
        (λ p e. ap (is_better s o.px) e ∙ level_mate s o.px) (priced o.px) in
    let behind_led : All (λ p. is_better s o.px p.px ≡ true) behind =
      orders_on-All (λ p. is_better s o.px p.px ≡ true) f r.behind
        (All_mono (λ q. is_better s o.px q ≡ true)
          (λ q. All (λ p. is_better s o.px p.px ≡ true) (f q)) r.behind
          (λ q h.
            All_mono (λ p. p.px ≡ q) (λ p. is_better s o.px p.px ≡ true) (f q)
              (λ p e. ap (is_better s o.px) e ∙ h) (priced q))
          r.worse) in
    parts g
    ∙ (rw (same_ahead, here, same_behind) refl)
    ∙ ap (λ (zs : List Order). ahead ++ zs)
        (append_assoc level (o ∷ []) behind
          ∙ ap (λ (zs : List Order). level ++ zs) (sym (insert_order-ahead s o behind behind_led))
          ∙ sym (insert_order-behind s o level behind level_passed))
    ∙ sym (insert_order-behind s o ahead (level ++ behind) ahead_passed)
    ∙ ap (insert_order s o) (sym (parts f))
