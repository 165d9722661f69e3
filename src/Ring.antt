-- ===== src/Ring.antt =====
-- include/lob/spsc_ring.hpp: `spsc_ring<T, Capacity>` with `Capacity` a power of two, 2 ^ k. The cursors
-- and the slots' sequences are 64-bit numbers, whose wrap is written out. Here each operation runs whole;
-- the children have the interleavings of its memory accesses.
pub mod Positions
pub mod Window
pub mod Refine
pub mod Claim
pub mod Steps
pub mod Interleaving
pub mod Order
use orderbooks.Prelude.{
  ℕ, zero, suc, ◌+◌, ◌-◌, ◌^◌, Bool, true, false, ◌==◌, leb, ltb, Option, none, some, List, [], ◌∷◌,
  if◌then◌else◌, update, bit_and,
}
use orderbooks.Prelude.Word.{add_u64, sub_u64}

pub record Slot (A : Type 0) : Type 0 where
  pub value : A
  pub seq : ℕ

pub record Ring (A : Type 0) : Type 0 where
  pub slots : ℕ → Slot A
  pub head : ℕ
  pub tail : ℕ
  pub tail_cache : ℕ

-- `Capacity`
abbrev pub capacity : ℕ → ℕ
capacity k = 2 ^ k

-- `head & mask`
abbrev pub index : ℕ → ℕ → ℕ
index k pos = bit_and pos (capacity k - 1)

module _ {A : Type 0} where
  -- `empty` is the value-initialised `T{}`.
  abbrev pub new_ring : A → Ring A
  new_ring empty = record {
    slots = λ i. record { value = empty; seq = 0 };
    head = 0;
    tail = 0;
    tail_cache = 0;
  }

  -- The stores of `try_push`, in order, and of `try_pop`.
  abbrev pub store_value : ℕ → A → Ring A → Ring A
  store_value i v r = record r { slots = update r.slots i (record (r.slots i) { value = v }) }

  abbrev pub store_seq : ℕ → ℕ → Ring A → Ring A
  store_seq i n r = record r { slots = update r.slots i (record (r.slots i) { seq = n }) }

  abbrev pub store_head : ℕ → Ring A → Ring A
  store_head n r = record r { head = n }

  abbrev pub store_tail : ℕ → Ring A → Ring A
  store_tail n r = record r { tail = n }

  abbrev pub reload_tail : Ring A → Ring A
  reload_tail r = record r { tail_cache = r.tail }

  module _ (k : ℕ) where
    -- `head - tail_cache_ >= Capacity`
    abbrev pub looks_full : Ring A → Bool
    looks_full r = leb (capacity k) (sub_u64 r.head r.tail_cache)

    -- The value, then the sequence that publishes it, then the cursor.
    unfoldable pub push_at_head : A → Ring A → Ring A
    push_at_head v r =
        store_head (add_u64 r.head 1)
          (store_seq (index k r.head) (add_u64 r.head 1) (store_value (index k r.head) v r))

    unfoldable pub try_push : A → Ring A → Bool × Ring A
    unfolding push_at_head
    try_push v r =
        if looks_full r
        then (let r' = reload_tail r in
            if looks_full r' then (false, r') else (true, push_at_head v r'))
        else (true, push_at_head v r)

    -- Whether the slot of position `pos` is published.
    abbrev pub is_published : Ring A → ℕ → Bool
    is_published r pos = (r.slots (index k pos)).seq == add_u64 pos 1

    unfoldable pub try_pop : Ring A → Option A × Ring A
    try_pop r =
        if is_published r r.tail
        then (some (r.slots (index k r.tail)).value, store_tail (add_u64 r.tail 1) r)
        else (none, r)

    -- The count of `consume_claim`: the published slots from `pos` on, `max_n` at most.
    unfoldable pub count_published : ℕ → Ring A → ℕ → ℕ
    count_published zero r pos = 0
    count_published (suc max_n) r pos =
        let more = count_published max_n r (add_u64 pos 1) in
        if is_published r pos then suc more else 0

    -- The elements that the claim hands over, `at(0)` first.
    unfoldable pub claimed : ℕ → Ring A → ℕ → List A
    claimed zero r pos = []
    claimed (suc n) r pos = (r.slots (index k pos)).value ∷ claimed n r (add_u64 pos 1)

    unfoldable pub consume_claim : ℕ → Ring A → List A × Ring A
    unfolding count_published claimed
    consume_claim max_n r =
        let n = count_published max_n r r.tail in
        if n == 0 then ([], r) else (claimed n r r.tail, store_tail (add_u64 r.tail n) r)

    unfoldable pub size : Ring A → ℕ
    size r = sub_u64 r.head r.tail
