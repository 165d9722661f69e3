-- ===== src/Arena.antt =====
-- include/lob/arena.hpp: `slab_arena<order, Capacity, Generations>`. A slot holds an order, or the link
-- of the free list that is overlaid on a free slot; a pointer is the slot's number. The order's fields
-- are written by the caller after `allocate`. Reading an order from a slot that holds none is undefined
-- in C++; here it gives `no_order`, and the book's invariant rules it out.
pub mod FreeList
use orderbooks.Prelude.{
  ℕ, zero, suc, ◌+◌, ◌-◌, ◌%◌, ◌^◌, Bool, true, false, Option, none, some, if◌then◌else◌, update,
}
use orderbooks.Prelude.Word.{sub_u64}
use orderbooks.Types.{Ptr, Order, bid, gtc}

pub data Slot : Type 0 where
  raw : Slot
  link : Option Ptr → Slot
  holds : Order → Slot

abbrev pub is_live : Slot → Bool
is_live raw = false
is_live (link next) = false
is_live (holds o) = true

pub record Arena : Type 0 where
  pub slots : ℕ → Slot
  pub generations : ℕ → ℕ
  pub free_head : Option Ptr
  pub in_use : ℕ
  pub freelist_built : Bool

abbrev pub no_order : Order
no_order = record { id = 0; remaining = 0; px = 0; s = bid; t = gtc; account_id = 0 }

-- The constructor leaves the free list unbuilt.
abbrev pub new_arena : Arena
new_arena = record {
  slots = λ i. raw;
  generations = λ i. 0;
  free_head = none;
  in_use = 0;
  freelist_built = false;
}

-- `load_link_`
abbrev pub load_link : Slot → Option Ptr
load_link raw = none
load_link (link next) = next
load_link (holds o) = none

abbrev pub order_in : Slot → Order
order_in raw = no_order
order_in (link next) = no_order
order_in (holds o) = o

-- `*p`, and a write of the whole order through `p`.
abbrev pub load : Arena → Ptr → Order
load a p = order_in (a.slots p)

abbrev pub store : Arena → Ptr → Order → Arena
store a p o = record a { slots = update a.slots p (holds o) }

-- The loop of `init_freelist_`, `n` rounds from slot `i` on.
unfoldable pub link_slots : ℕ → ℕ → (ℕ → Slot) → ℕ → Slot
link_slots zero i slots = slots
link_slots (suc n) i slots = link_slots n (i + 1) (update slots i (link (some (i + 1))))

unfoldable pub init_freelist : ℕ → Arena → Arena
unfolding link_slots
init_freelist capacity a = record {
  slots = update (link_slots (capacity - 1) 0 a.slots) (capacity - 1) (link none);
  generations = λ i. 0;
  free_head = some 0;
  in_use = a.in_use;
  freelist_built = true;
}

-- `++generations_[s]`, a `std::uint32_t`, where the arena keeps generations.
abbrev pub bump : Bool → (ℕ → ℕ) → ℕ → ℕ → ℕ
bump keeps g s = if keeps then update g s ((g s + 1) % 2 ^ 32) else g

-- The slot taken off a free list that is built.
unfoldable pub take_free : Bool → Arena → Option Ptr × Arena
take_free keeps a = elim a.free_head [
  | none ↦ (none, a)
  | some s ↦ (
    some s,
    record a {
      free_head = load_link (a.slots s);
      in_use = a.in_use + 1;
      generations = bump keeps a.generations s;
    },
  )
]

unfoldable pub allocate : ℕ → Bool → Arena → Option Ptr × Arena
unfolding init_freelist take_free
allocate capacity keeps a =
    take_free keeps (if a.freelist_built then a else init_freelist capacity a)

unfoldable pub deallocate : Bool → Arena → Ptr → Arena
deallocate keeps a p = record a {
  slots = update a.slots p (link a.free_head);
  generations = bump keeps a.generations p;
  free_head = some p;
  in_use = sub_u64 a.in_use 1;
}

unfoldable pub generation : Arena → ℕ → ℕ
generation a i = if a.freelist_built then a.generations i else 0
