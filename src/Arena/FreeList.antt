-- ===== src/Arena/FreeList.antt =====
-- include/lob/arena.hpp: the free list of `slab_arena`, a chain of slots.
use orderbooks.Prelude.{
  ◌∙◌, ap, inr, inl, update_self, Bool-cases, Bool, ◌⊎◌, Distinct, ltb, ◌&&◌, sym, subst, update_ne,
  leb, ◌-◌, ◌≢◌, if◌then◌else◌, update, ◌≤◌, Option, All, ◌+◌, ◌≡◌, ◌<◌, ℕ, arith, refl, zero, suc,
  ==_iff, ◌==◌, List, [], ◌∷◌, true, false, none, some,
}
use orderbooks.Types.{Order, Ptr}
use orderbooks.Arena.{
  holds, store, take_free, deallocate, allocate, is_live, Slot, raw, link, Arena, link_slots,
  init_freelist,
}

-- `qs` are the slots of the list from `head` on.
abbrev pub IsChain : (ℕ → Slot) → Option Ptr → List Ptr → Type 0
IsChain slots head [] = head ≡ none
IsChain slots head (q ∷ qs) =
    (head ≡ some q) × ((next : Option Ptr) × (slots q ≡ link next) × IsChain slots next qs)

pub record FreeList (capacity : ℕ) (a : Arena) : Type 0 where
  pub free : List Ptr
  pub chain : IsChain a.slots a.free_head free
  pub distinct : Distinct free
  pub within : All (λ q. q < capacity) free
  pub complete : (q : Ptr) → q < capacity → is_live (a.slots q) ≡ false → ¬ All (λ r. r ≢ q) free

pub record ArenaInv (capacity : ℕ) (a : Arena) : Type 0 where
  pub built : a.freelist_built ≡ true → FreeList capacity a
  pub unbuilt : a.freelist_built ≡ false → (p : Ptr) → a.slots p ≡ raw

module _ (slots : ℕ → Slot) (p : Ptr) where
  IsChain-update :
      (x : Slot) (head : Option Ptr) (qs : List Ptr)
      → All (λ q. q ≢ p) qs
      → IsChain slots head qs
      → IsChain (update slots p x) head qs
  IsChain-update x head [] ne h = h
  IsChain-update x head (q ∷ qs) ne (e, (next, here, rest)) = (
    e,
    (
      next,
      rw (update_ne slots p q x (λ e'. ne.0 (sym e'))) here,
      IsChain-update x next qs ne.1 rest,
    ),
  )

  -- A slot that holds an order is not free.
  absent_of_live :
      (head : Option Ptr) (qs : List Ptr)
      → is_live (slots p) ≡ true
      → IsChain slots head qs
      → All (λ q. q ≢ p) qs
  absent_of_live head [] live h = tt
  absent_of_live head (q ∷ qs) live (e, (next, here, rest)) = (
    (λ same.
        let at_p : slots p ≡ link next = subst (λ v. slots v ≡ link next) same here in
        let dead : is_live (slots p) ≡ false = rw at_p in cc),
    absent_of_live next qs live rest,
  )

-- All the slots from `i` on, in order.
abbrev slots_from : ℕ → ℕ → List Ptr
slots_from i zero = []
slots_from i (suc n) = i ∷ slots_from (i + 1) n

-- What the loop of `init_freelist_` writes.
link_slots_lem :
    (n i : ℕ) (slots : ℕ → Slot) (q : ℕ)
    → link_slots n i slots q ≡ (if leb i q && ltb q (i + n) then link (some (q + 1)) else slots q)
unfolding link_slots
link_slots_lem zero i slots q = ground arith
link_slots_lem (suc n) i slots q =
    ground (arith, link_slots_lem n (i + 1) (update slots i (link (some (i + 1)))) q)

slots_from_above : (i j n : ℕ) → j < i → All (λ q. q ≢ j) (slots_from i n)
slots_from_above i j zero h = tt
slots_from_above i j (suc n) h =
    ((λ e. absurd (omega arith)), slots_from_above (i + 1) j n (omega arith))

slots_from-Distinct : (i n : ℕ) → Distinct (slots_from i n)
slots_from-Distinct i zero = tt
slots_from-Distinct i (suc n) =
    (slots_from_above (i + 1) i n (omega arith), slots_from-Distinct (i + 1) n)

slots_from-within : (i n cap : ℕ) → i + n ≤ cap → All (λ q. q < cap) (slots_from i n)
slots_from-within i zero cap h = tt
slots_from-within i (suc n) cap h = (omega arith, slots_from-within (i + 1) n cap (omega arith))

-- No slot is missing.
slots_from_complete : (i n q : ℕ) → i ≤ q → q < i + n → ¬ All (λ r. r ≢ q) (slots_from i n)
slots_from_complete i zero q le lt h = absurd (omega arith)
slots_from_complete i (suc n) q le lt (ne, h) =
    slots_from_complete (i + 1) n q (ground (arith, ne)) (omega arith) h

-- A slot that is dead after an order was written to `p` is another one, and was dead.
dead_elsewhere :
    (slots : ℕ → Slot) (p : Ptr) (o : Order) (q : Ptr)
    → is_live (update slots p (holds o) q) ≡ false
    → (p ≢ q) × (is_live (slots q) ≡ false)
dead_elsewhere slots p o q dead =
    let ne : p ≢ q = λ e.
      let live : is_live (update slots p (holds o) q) ≡ true =
        subst (λ v. is_live (update slots p (holds o) v) ≡ true) e
          (ap is_live (update_self slots p (holds o))) in
      cc in
    (ne, ap is_live (sym (update_ne slots p q (holds o) ne)) ∙ dead)

slots_from-IsChain :
    (slots : ℕ → Slot) (n i : ℕ)
    → ((q : ℕ) → i ≤ q → q < i + n → slots q ≡ link (some (q + 1)))
    → slots (i + n) ≡ link none
    → IsChain slots (some i) (slots_from i (suc n))
slots_from-IsChain slots zero i linked last =
    let same : i + 0 ≡ i = omega arith in (refl, (none, rw same at last, refl))
slots_from-IsChain slots (suc n) i linked last =
    let same : i + suc n ≡ i + 1 + n = omega arith in
    (
      refl,
      (
        some (i + 1),
        linked i (omega arith) (omega arith),
        slots_from-IsChain slots n (i + 1) (λ q h lt. linked q (omega arith) (omega arith))
            (rw same at last),
      ),
    )

init_freelist-FreeList :
    (capacity : ℕ) (a : Arena) → 0 < capacity → FreeList capacity (init_freelist capacity a)
unfolding init_freelist
init_freelist-FreeList capacity a h =
    let slots = update (link_slots (capacity - 1) 0 a.slots) (capacity - 1) (link none) in
    let all : suc (capacity - 1) ≡ capacity = omega arith in
    record {
      free = slots_from 0 (suc (capacity - 1));
      chain =
          slots_from-IsChain slots (capacity - 1) 0
            (λ q le lt. ground (arith, link_slots_lem (capacity - 1) 0 a.slots q)) (ground arith);
      distinct = slots_from-Distinct 0 (suc (capacity - 1));
      within = slots_from-within 0 (suc (capacity - 1)) capacity (omega arith);
      complete = λ q lt dead.
          slots_from_complete 0 (suc (capacity - 1)) q (omega arith) (omega (arith, lt, all));
    }

-- `allocate` may only have made links of slots that held nothing.
abbrev pub SameOrders : Arena → Arena → Type 0
SameOrders a a' =
    (a'.slots ≡ a.slots)
    ⊎ (((p : Ptr) → a.slots p ≡ raw) × ((p : Ptr) → is_live (a'.slots p) ≡ false))

-- The free list that is built over slots that hold nothing has no order in it.
init_freelist-dead :
    (capacity : ℕ) (a : Arena)
    → ((p : Ptr) → a.slots p ≡ raw)
    → (p : Ptr) → is_live ((init_freelist capacity a).slots p) ≡ false
unfolding init_freelist
init_freelist-dead capacity a empty p =
    ground (arith, link_slots_lem (capacity - 1) 0 a.slots p, empty p)

-- Slot `p` was taken for an order: it holds none yet, and any may be written there.
pub record Took (capacity : ℕ) (a : Arena) (p : Ptr) : Type 0 where
  pub dead : is_live (a.slots p) ≡ false
  pub below : p < capacity
  pub ready : (o : Order) → ArenaInv capacity (store a p o)

-- A slot, or none, and then every slot of the arena holds an order.
abbrev pub Allocated : ℕ → Option Ptr → Arena → Type 0
Allocated capacity none a =
    ArenaInv capacity a × ((q : Ptr) → q < capacity → is_live (a.slots q) ≡ true)
Allocated capacity (some p) a = Took capacity a p

take_free_lem :
    (capacity : ℕ) (keeps : Bool) (a : Arena)
    → a.freelist_built ≡ true
    → (head : Option Ptr) → a.free_head ≡ head
    → (free : List Ptr) → IsChain a.slots head free
    → Distinct free
    → All (λ q. q < capacity) free
    → ((q : Ptr) → q < capacity → is_live (a.slots q) ≡ false → ¬ All (λ r. r ≢ q) free)
    → Allocated capacity ((take_free keeps a).0) ((take_free keeps a).1)
      × ((take_free keeps a).1.slots ≡ a.slots)
unfolding take_free
take_free_lem capacity keeps a b none e [] chain d w all =
    rw (e, take_free)
      (
        (
          record {
            built =
                λ _. record { free = []; chain = e; distinct = tt; within = tt; complete = all };
            unbuilt = λ f. cc;
          },
          λ q lt. elim (Bool-cases (is_live (a.slots q))) [
            | inl live ↦ live
            | inr dead ↦ absurd (all q lt dead tt)
          ],
        ),
        refl,
      )
take_free_lem capacity keeps a b (some p) e [] chain d w all = cc
take_free_lem capacity keeps a b none e (q ∷ qs) (e', rest) d w all = cc
take_free_lem capacity keeps a b (some p) e (q ∷ qs) (e', (next, here, chain)) d w all =
    let same : q ≡ p = ground arith in
    let at_p : a.slots p ≡ link next = subst (λ v. a.slots v ≡ link next) same here in
    let ne : All (λ r. r ≢ p) qs = subst (λ v. All (λ r. r ≢ v) qs) same d.0 in
    rw (e, take_free)
      (
        record {
          dead = rw at_p;
          below = omega (arith, same, w.0);
          ready = λ o. record {
            built = λ _. record {
              free = qs;
              chain = rw at_p (IsChain-update a.slots p (holds o) next qs ne chain);
              distinct = d.1;
              within = w.1;
              complete = λ r lt dead absent.
                  let (other, was_dead) = dead_elsewhere a.slots p o r dead in
                  all r lt was_dead ((λ h. other (sym same ∙ h)), absent);
            };
            unbuilt = λ f. cc;
          };
        },
        refl,
      )

-- On a sound arena of positive capacity, allocate hands out a slot below the capacity that holds
-- no order and may take any, or it hands out none, and then every slot below the capacity holds an
-- order and the arena is still sound; it writes over no order.
pub allocate_lem :
    (capacity : ℕ) (keeps : Bool) (a : Arena)
    → 0 < capacity
    → ArenaInv capacity a
    → Allocated capacity ((allocate capacity keeps a).0) ((allocate capacity keeps a).1)
      × SameOrders a (allocate capacity keeps a).1
unfolding allocate
allocate_lem capacity keeps a h v = elim (Bool-cases a.freelist_built) [
  | inl b ↦
      let l = v.built b in
      let r =
        take_free_lem capacity keeps a b a.free_head refl l.free l.chain l.distinct l.within
          l.complete in
      simp b (r.0, inl r.1)
  | inr nb ↦
      let a' = init_freelist capacity a in
      let l = init_freelist-FreeList capacity a h in
      let r =
        take_free_lem capacity keeps a' refl (some 0) refl l.free l.chain l.distinct l.within
          l.complete in
      simp nb (
        r.0,
        inr (
          v.unbuilt nb,
          λ p.
              ap (λ (f : ℕ → Slot). is_live (f p)) r.1
              ∙ init_freelist-dead capacity a (v.unbuilt nb) p,
        ),
      )
]

-- Giving back a live slot below the capacity keeps the arena sound: the slot heads the free list,
-- which has no slot twice.
pub deallocate-ArenaInv :
    (capacity : ℕ) (keeps : Bool) (a : Arena) (p : Ptr)
    → p < capacity
    → is_live (a.slots p) ≡ true
    → ArenaInv capacity a
    → ArenaInv capacity (deallocate keeps a p)
unfolding deallocate
deallocate-ArenaInv capacity keeps a p lt live v = record {
  built = λ b.
      let l = v.built b in
      let ne = absent_of_live a.slots p a.free_head l.free live l.chain in
      record {
        free = p ∷ l.free;
        chain = (
          refl,
          (
            a.free_head,
            update_self a.slots p (link a.free_head),
            IsChain-update a.slots p (link a.free_head) a.free_head l.free ne l.chain,
          ),
        );
        distinct = (ne, l.distinct);
        within = (lt, l.within);
        complete = λ q small dead absent. elim (Bool-cases (p == q)) [
          | inl hit ↦ absent.0 ((==_iff p q).0 hit)
          | inr miss ↦
              let was_dead : is_live (a.slots q) ≡ false =
                ap is_live
                  (sym (update_ne a.slots p q (link a.free_head) (λ e. ground (arith, e, miss))))
                ∙ dead in
              l.complete q small was_dead absent.1
        ];
      };
  unbuilt = λ nb q. let dead : is_live (a.slots p) ≡ false = rw (v.unbuilt nb p) in cc;
}

-- A write through a pointer to a live order.
pub store-ArenaInv :
    (capacity : ℕ) (a : Arena) (p : Ptr) (o : Order)
    → is_live (a.slots p) ≡ true
    → ArenaInv capacity a
    → ArenaInv capacity (store a p o)
store-ArenaInv capacity a p o live v = record {
  built = λ b.
      let l = v.built b in
      let ne = absent_of_live a.slots p a.free_head l.free live l.chain in
      record {
        free = l.free;
        chain = IsChain-update a.slots p (holds o) a.free_head l.free ne l.chain;
        distinct = l.distinct;
        within = l.within;
        complete = λ q lt dead. l.complete q lt (dead_elsewhere a.slots p o q dead).1;
      };
  unbuilt = λ nb q. let dead : is_live (a.slots p) ≡ false = rw (v.unbuilt nb p) in cc;
}
