-- ===== src/Level.antt =====
-- include/lob/level.hpp: one price level, a FIFO of order pointers and its aggregate quantity. The
-- intrusive list is the list of the linked pointers, front first.
use orderbooks.Prelude.{ℕ, Bool, true, false, List, [], ◌∷◌, ◌++◌, ◌==◌, if◌then◌else◌, length}
use orderbooks.Prelude.Word.{add_u64, sub_u64}
use orderbooks.Types.{Ptr, Order}

pub record Level : Type 0 where
  pub aggregate : ℕ
  pub fifo : List Ptr

abbrev pub empty_level : Level
empty_level = record { aggregate = 0; fifo = [] }

abbrev pub is_empty {ℓ} : {A : Type ℓ} → List A → Bool
is_empty [] = true
is_empty (x ∷ xs) = false

-- `level::empty`
abbrev pub empty : Level → Bool
empty lvl = is_empty lvl.fifo

unfoldable pub order_count : Level → ℕ
order_count lvl = length lvl.fifo

-- `fifo.erase(fifo.iterator_to(o))`
unfoldable pub erase : Ptr → List Ptr → List Ptr
erase p [] = []
erase p (q ∷ qs) = if q == p then qs else q ∷ erase p qs

-- `o` is what `p` points to.
unfoldable pub push_back : Level → Ptr → Order → Level
push_back lvl p o = record {
  aggregate = add_u64 lvl.aggregate o.remaining;
  fifo = lvl.fifo ++ (p ∷ []);
}

unfoldable pub unlink : Level → Ptr → Order → Level
unlink lvl p o = record { aggregate = sub_u64 lvl.aggregate o.remaining; fifo = erase p lvl.fifo }

-- `fifo.pop_front()`
abbrev pub pop_front {ℓ} : {A : Type ℓ} → List A → List A
pop_front [] = []
pop_front (x ∷ xs) = xs

unfoldable pub clear : Level → Level
clear lvl = empty_level
