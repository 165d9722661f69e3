-- ===== src/Engine/Invariant.antt =====
-- include/lob/engine.hpp: the invariant of the book, at rest and while a level is being matched.
use orderbooks.IdIndex.{IdIndex}
use orderbooks.Engine.Linked.{Linked-same_fifos, fifo_of, Linked}
use orderbooks.Prelude.{refl, ◌<◌, some, ◌∙◌, sym, ◌≡◌, ◌≢◌, ℕ, true}
use orderbooks.Types.{Ptr, Side, bid, ask, opposite, Template}
use orderbooks.Arena.{Slot, Arena, is_live}
use orderbooks.Arena.FreeList.{ArenaInv}
use orderbooks.BookSide.{Book, side_of}
use orderbooks.BookSide.Levels.{Rests}
use orderbooks.BookSide.Invariant.{SideInv, SideMatching}
use orderbooks.BookSide.Settle.{start_matching}

module _ (c : Template) where
  pub record ArenaSound (a : Arena) : Type 0 where
    pub free_list : ArenaInv c.max_orders a
    pub within : (p : Ptr) → is_live (a.slots p) ≡ true → p < c.max_orders

  pub record BookInv (b : Book) : Type 0 where
    pub sides : (s : Side) → SideInv c.ticks s b.arena.slots (side_of s b)
    pub arena : ArenaSound b.arena
    pub linked : Linked b

  pub record BookMatching (s : Side) (px : ℕ) (b : Book) : Type 0 where
    pub here : SideMatching c.ticks s px b.arena.slots (side_of s b)
    pub other : SideInv c.ticks (opposite s) b.arena.slots (side_of (opposite s) b)
    pub arena : ArenaSound b.arena
    pub linked : Linked b

  pub BookInv-of_sides :
      (s : Side) (b : Book)
      → SideInv c.ticks s b.arena.slots (side_of s b)
      → SideInv c.ticks (opposite s) b.arena.slots (side_of (opposite s) b)
      → ArenaSound b.arena
      → Linked b
      → BookInv b
  BookInv-of_sides s b here other arena linked = record {
    sides = both s here other;
    arena = arena;
    linked = linked;
  }
    where
      both :
          (s : Side)
          → SideInv c.ticks s b.arena.slots (side_of s b)
          → SideInv c.ticks (opposite s) b.arena.slots (side_of (opposite s) b)
          → (t : Side) → SideInv c.ticks t b.arena.slots (side_of t b)
      both bid here other bid = here
      both bid here other ask = other
      both ask here other bid = other
      both ask here other ask = here

  -- The id index is no part of the invariant.
  pub with_index-BookInv : {b : Book} (x : IdIndex) → BookInv b → BookInv (record b { index = x })
  with_index-BookInv {b} x v =
      BookInv-of_sides bid (record b { index = x }) (v.sides bid) (v.sides ask) v.arena
        (Linked-same_fifos b (record b { index = x }) refl same v.linked)
    where
      same : (t : Side) (r : ℕ) → fifo_of (record b { index = x }) t r ≡ fifo_of b t r
      same bid r = refl
      same ask r = refl

  pub start_BookMatching :
      (s : Side) (px : ℕ) {b : Book}
      → (side_of s b).best ≡ some px
      → BookInv b
      → BookMatching s px b
  start_BookMatching s px {b} e v = record {
    here = start_matching c.ticks s px ((v.sides s).best_is.is_set px e) (v.sides s);
    other = v.sides (opposite s);
    arena = v.arena;
    linked = v.linked;
  }

pub opposite_ne : (s : Side) → s ≢ opposite s
opposite_ne bid e = cc
opposite_ne ask e = cc

-- An order rests on one side, at one price.
pub Rests-once : (s : Side) (px q : ℕ) (slot : Slot) → Rests s px slot → q ≢ px → ¬ Rests s q slot
Rests-once s px q slot r ne r' = ne (sym r'.price ∙ r.price)

pub Rests-one_side :
    (s : Side) (px q : ℕ) (slot : Slot) → Rests s px slot → ¬ Rests (opposite s) q slot
Rests-one_side s px q slot r r' = opposite_ne s (sym r.side ∙ r'.side)
