-- ===== src/BookSide/Levels.antt =====
-- include/lob/level.hpp: the invariant of one price level over the arena, and the changes of a level.
use orderbooks.Prelude.Word.{sub_u64}
use orderbooks.Prelude.{
  Distinct, update_self, All-append, arith, ◌++◌, ◌-◌, refl, sym, ◌^◌, ◌<◌, subst, ◌%◌, update_ne,
  true, ◌≢◌, ◌≡◌, ◌+◌, update, ℕ, List, [], ◌∷◌, All,
}
use orderbooks.Types.{Order, Ptr, Side}
use orderbooks.Arena.{is_live, Slot, holds, order_in}
use orderbooks.Level.{push_back, Level}

-- A slot with an order that rests on side `s` at price `px`.
pub record Rests (s : Side) (px : ℕ) (slot : Slot) : Type 0 where
  pub live : is_live slot ≡ true
  pub side : (order_in slot).s ≡ s
  pub price : (order_in slot).px ≡ px
  pub positive : 0 < (order_in slot).remaining
  pub bounded : (order_in slot).remaining < 2 ^ 64

abbrev pub total : (ℕ → Slot) → List Ptr → ℕ
total slots [] = 0
total slots (p ∷ ps) = (order_in (slots p)).remaining + total slots ps

abbrev pub AllRest : Side → ℕ → (ℕ → Slot) → List Ptr → Type 0
AllRest s px slots ps = All (λ p. Rests s px (slots p)) ps

pub record LevelInv (s : Side) (px : ℕ) (slots : ℕ → Slot) (lvl : Level) : Type 0 where
  pub owned : AllRest s px slots lvl.fifo
  pub summed : lvl.aggregate ≡ total slots lvl.fifo % 2 ^ 64
  pub distinct : Distinct lvl.fifo

pub total-append :
    (slots : ℕ → Slot) (ps qs : List Ptr) → total slots (ps ++ qs) ≡ total slots ps + total slots qs
total-append slots [] qs = omega arith
total-append slots (p ∷ ps) qs = omega (arith, total-append slots ps qs)

absent_of_Distinct : (p : Ptr) (ps : List Ptr) → Distinct (p ∷ ps) → All (λ q. q ≢ p) ps
absent_of_Distinct p ps d = d.0

module _ (s : Side) (px : ℕ) (slots : ℕ → Slot) where
  -- A slot where no order of this level rests is none of the FIFO's.
  pub absent_of_not-Rests :
      (p : Ptr) (ps : List Ptr)
      → ¬ Rests s px (slots p)
      → AllRest s px slots ps
      → All (λ q. q ≢ p) ps
  absent_of_not-Rests p [] h r = tt
  absent_of_not-Rests p (q ∷ ps) h r =
      (λ e. h (subst (λ v. Rests s px (slots v)) e r.0), absent_of_not-Rests p ps h r.1)

  -- A write to a slot outside the FIFO leaves it as it was.
  pub AllRest-update :
      (p : Ptr) (x : Slot) (ps : List Ptr)
      → All (λ q. q ≢ p) ps
      → AllRest s px slots ps
      → AllRest s px (update slots p x) ps
  AllRest-update p x [] ne r = tt
  AllRest-update p x (q ∷ ps) ne r =
      (rw (update_ne slots p q x (λ e. ne.0 (sym e))) (r.0), AllRest-update p x ps ne.1 r.1)

  pub total-update :
      (p : Ptr) (x : Slot) (ps : List Ptr)
      → All (λ q. q ≢ p) ps
      → total (update slots p x) ps ≡ total slots ps
  total-update p x [] ne = refl
  total-update p x (q ∷ ps) ne =
      rw (update_ne slots p q x (λ e. ne.0 (sym e)), total-update p x ps ne.1)

  pub LevelInv-update :
      {lvl : Level} (p : Ptr) (x : Slot)
      → ¬ Rests s px (slots p)
      → LevelInv s px slots lvl
      → LevelInv s px (update slots p x) lvl
  LevelInv-update {lvl} p x h v =
      let ne = absent_of_not-Rests p lvl.fifo h v.owned in
      record {
        owned = AllRest-update p x lvl.fifo ne v.owned;
        summed = rw (total-update p x lvl.fifo ne) (v.summed);
        distinct = v.distinct;
      }

  Distinct-append :
      (p : Ptr) (ps : List Ptr) → All (λ q. q ≢ p) ps → Distinct ps → Distinct (ps ++ (p ∷ []))
  Distinct-append p [] ne d = (tt, tt)
  Distinct-append p (q ∷ ps) ne d = (
    All-append (λ r. r ≢ q) ps (p ∷ []) d.0 ((λ e. ne.0 (sym e)), tt),
    Distinct-append p ps ne.1 d.1,
  )

  -- An order comes to rest in a slot that was not on the level.
  pub LevelInv-push :
      {lvl : Level} (p : Ptr) (o : Order)
      → ¬ Rests s px (slots p)
      → Rests s px (holds o)
      → LevelInv s px slots lvl
      → LevelInv s px (update slots p (holds o)) (push_back lvl p o)
  unfolding push_back
  LevelInv-push {lvl} p o h r v =
      let ne = absent_of_not-Rests p lvl.fifo h v.owned in
      record {
        owned =
            All-append (λ q. Rests s px (update slots p (holds o) q)) lvl.fifo (p ∷ [])
              (AllRest-update p (holds o) lvl.fifo ne v.owned)
              (rw (update_self slots p (holds o)) r, tt);
        summed =
            rw
              (
                total-append (update slots p (holds o)) lvl.fifo (p ∷ []),
                total-update p (holds o) lvl.fifo ne,
                update_self slots p (holds o),
              )
              (omega (arith, v.summed));
        distinct = Distinct-append p lvl.fifo ne v.distinct;
      }

  -- The front order gives up less than it has.
  pub LevelInv-shrink :
      {lvl : Level} (p : Ptr) (ps : List Ptr) (q : ℕ)
      → lvl.fifo ≡ p ∷ ps
      → q < (order_in (slots p)).remaining
      → LevelInv s px slots lvl
      → LevelInv s px
          (update slots p (
            holds (record (order_in (slots p)) { remaining = (order_in (slots p)).remaining - q })))
          (record lvl { aggregate = sub_u64 lvl.aggregate q })
  LevelInv-shrink {lvl} p ps q e h v =
      let o = order_in (slots p) in
      let o' : Order = record o { remaining = o.remaining - q } in
      let all : AllRest s px slots (p ∷ ps) = rw e at v.owned in
      let front = all.0 in
      let ne : All (λ r. r ≢ p) ps = absent_of_Distinct p ps (rw e at v.distinct) in
      let sum : lvl.aggregate ≡ (o.remaining + total slots ps) % 2 ^ 64 = rw e at v.summed in
      record {
        owned = rw e (
          rw (update_self slots p (holds o')) (record {
            live = refl;
            side = front.side;
            price = front.price;
            positive = omega arith;
            bounded = omega (arith, front.bounded);
          }),
          AllRest-update p (holds o') ps ne all.1,
        );
        summed =
            rw (e, update_self slots p (holds o'), total-update p (holds o') ps ne)
              (omega (arith, sum, front.bounded));
        distinct = v.distinct;
      }

  -- The front order leaves the level with all that it has; its slot may hold anything after.
  pub LevelInv-drop :
      {lvl : Level} (p : Ptr) (ps : List Ptr) (x : Slot)
      → lvl.fifo ≡ p ∷ ps
      → LevelInv s px slots lvl
      → LevelInv s px
          (update slots p x)
          (record { aggregate = sub_u64 lvl.aggregate (order_in (slots p)).remaining; fifo = ps })
  LevelInv-drop {lvl} p ps x e v =
      let o = order_in (slots p) in
      let all : AllRest s px slots (p ∷ ps) = rw e at v.owned in
      let d : Distinct (p ∷ ps) = rw e at v.distinct in
      let ne : All (λ r. r ≢ p) ps = absent_of_Distinct p ps d in
      let sum : lvl.aggregate ≡ (o.remaining + total slots ps) % 2 ^ 64 = rw e at v.summed in
      record {
        owned = AllRest-update p x ps ne all.1;
        summed = rw (total-update p x ps ne) (omega (arith, sum, all.0.bounded));
        distinct = d.1;
      }
