-- ===== src/IdIndex.antt =====
-- include/lob/id_index.hpp: the open-addressed table from order ids to orders, with linear probing and
-- backward-shift deletion. The probe loops take fuel, one round for each slot of the table.
use orderbooks.Prelude.{
  ℕ, zero, suc, ◌+◌, ◌-◌, ◌*◌, Bool, true, false, ◌==◌, ltb, Option, none, some, if◌then◌else◌,
  update, bit_and,
}
use orderbooks.Prelude.Word.{all_ones, sub_u64}
use orderbooks.Types.{Ptr}
use orderbooks.Hash.{splitmix64}

-- `std::numeric_limits<order_id_t>::max()`
abbrev pub empty_key : ℕ
empty_key = all_ones

pub record IndexSlot : Type 0 where
  pub key : ℕ
  pub value : Option Ptr

abbrev pub empty_slot : IndexSlot
empty_slot = record { key = empty_key; value = none }

pub record IdIndex : Type 0 where
  pub slots : ℕ → IndexSlot
  pub mask : ℕ
  pub size : ℕ
  pub storage_initialised : Bool

-- `std::bit_ceil`
bit_ceil_from : ℕ → ℕ → ℕ → ℕ
bit_ceil_from zero p n = p
bit_ceil_from (suc f) p n = if ltb p n then bit_ceil_from f (p * 2) n else p

unfoldable pub bit_ceil : ℕ → ℕ
unfolding bit_ceil_from
bit_ceil n = bit_ceil_from 64 1 n

unfoldable pub new_index : ℕ → IdIndex
new_index capacity_hint =
    let want = if capacity_hint == 0 then 256 else capacity_hint in
    record {
      slots = λ i. empty_slot;
      mask = bit_ceil (want * 2) - 1;
      size = 0;
      storage_initialised = false;
    }

-- `init_storage_`, where it has not run.
unfoldable pub ensure_storage : IdIndex → IdIndex
ensure_storage x =
    if x.storage_initialised
    then x
    else record x { slots = λ i. empty_slot; storage_initialised = true }

unfoldable pub home : IdIndex → ℕ → ℕ
home x id = bit_and (splitmix64 id) x.mask

abbrev pub next_slot : IdIndex → ℕ → ℕ
next_slot x i = bit_and (i + 1) x.mask

-- The loop that `insert`, `lookup` and `take` share: from slot `i` to the first slot with the key or
-- with none.
unfoldable pub probe : ℕ → IdIndex → ℕ → ℕ → Option ℕ
probe zero x id i = none
probe (suc f) x id i =
    let rest = probe f x id (next_slot x i) in
    if (x.slots i).key == id then some i else if (x.slots i).key == empty_key then some i else rest

abbrev pub rounds : IdIndex → ℕ
rounds x = x.mask + 1

-- The write at the slot where the probe stops.
unfoldable pub put : IdIndex → ℕ → Ptr → Option ℕ → IdIndex
put x id p none = x
put x id p (some i) =
    let slot : IndexSlot = record { key = id; value = some p } in
    if (x.slots i).key == empty_key
    then record x { slots = update x.slots i slot; size = x.size + 1 }
    else record x { slots = update x.slots i slot }

unfoldable pub insert : IdIndex → ℕ → Ptr → IdIndex
unfolding put
insert x id p = let y = ensure_storage x in put y id p (probe (rounds y) y id (home y id))

-- What the slot holds, if it holds the key.
abbrev pub value_at : IdIndex → ℕ → Option ℕ → Option Ptr
value_at x id none = none
value_at x id (some i) = if (x.slots i).key == id then (x.slots i).value else none

unfoldable pub lookup : IdIndex → ℕ → Option Ptr
lookup x id =
    let found = value_at x id (probe (rounds x) x id (home x id)) in
    if x.storage_initialised then found else none

-- The loop of `shift_back_from_`.
unfoldable pub shift_back : ℕ → ℕ → (ℕ → IndexSlot) → ℕ → ℕ → ℕ → IndexSlot
shift_back zero mask slots hole j = slots
shift_back (suc f) mask slots hole j =
    let k = (slots j).key in
    let home_of = bit_and (splitmix64 k) mask in
    let hole_dist = bit_and (sub_u64 hole home_of) mask in
    let j_dist = bit_and (sub_u64 j home_of) mask in
    let pulled = shift_back f mask (update slots hole (slots j)) j (bit_and (j + 1) mask) in
    let kept = shift_back f mask slots hole (bit_and (j + 1) mask) in
    if k == empty_key
    then update slots hole empty_slot
    else if ltb hole_dist j_dist
    then pulled
    else kept

unfoldable pub remove_at : IdIndex → ℕ → Option ℕ → Option Ptr × IdIndex
remove_at x id none = (none, x)
remove_at x id (some i) =
    if (x.slots i).key == id
    then (
      (x.slots i).value,
      record x {
        slots = shift_back (rounds x) x.mask x.slots i (next_slot x i);
        size = sub_u64 x.size 1;
      },
    )
    else (none, x)

unfoldable pub take : IdIndex → ℕ → Option Ptr × IdIndex
unfolding remove_at
take x id =
    let taken = remove_at x id (probe (rounds x) x id (home x id)) in
    if x.storage_initialised then taken else (none, x)

unfoldable pub erase : IdIndex → ℕ → IdIndex
erase x id = (take x id).1

unfoldable pub clear : IdIndex → IdIndex
clear x =
    if x.storage_initialised
    then record x { slots = λ i. empty_slot; size = 0 }
    else record x { size = 0 }
