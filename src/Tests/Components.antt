-- ===== src/Tests/Components.antt =====
-- The theorems of the bitmap, the arena and the book side at inputs where their hypotheses hold.
use orderbooks.Bitmap.Queries.{highest_set-test, lowest_set-test}
use orderbooks.BookSide.Settle.{remove-SideInv}
use orderbooks.Engine.Initial.{empty_side-SideInv}
use orderbooks.BookSide.Unlink.{In}
use orderbooks.Level.{push_back}
use orderbooks.Bitmap.Invariant.{empty_bitmap-IsValid, set-IsValid, IsValid}
use orderbooks.BookSide.{remove, empty_side, add, BookSide}
use orderbooks.Types.{gtc, ask, Order}
use orderbooks.Bitmap.{
  l0_words, empty_bitmap, l1_words, l2_words, set, l3_words, test, Bitmap, lowest_set, highest_set,
}
use orderbooks.BookSide.Levels.{Rests}
use orderbooks.BookSide.Invariant.{add-SideInv, SideInv}
use orderbooks.Arena.{holds, raw, new_arena, allocate, Slot}
use orderbooks.Arena.FreeList.{SameOrders, allocate_lem, Allocated, ArenaInv}
use orderbooks.Prelude.{◌<◌, some, ◌≤◌, ◌⊎◌, inl, refl, update, false, none, arith, true, ◌≡◌, ℕ}

-- The prices 3 and 9 of a ladder of sixteen.
abbrev pub two_prices : Bitmap
two_prices = set 16 (set 16 empty_bitmap 3) 9

pub shallow : l3_words 16 ≤ 1
unfolding l3_words l2_words l1_words l0_words
shallow = omega arith

pub two_prices-IsValid : IsValid 16 two_prices
two_prices-IsValid =
    set-IsValid 16 (set 16 empty_bitmap 3) 9 (omega arith)
      (set-IsValid 16 empty_bitmap 3 (omega arith) (empty_bitmap-IsValid 16))

lowest_set-test_example :
    ((lowest_set 16 two_prices ≡ none) × ((i : ℕ) → test 16 two_prices i ≡ false))
    ⊎ ((k : ℕ) × (lowest_set 16 two_prices ≡ some k)
        × (test 16 two_prices k ≡ true)
        × ((j : ℕ) → j < k → test 16 two_prices j ≡ false))
lowest_set-test_example = lowest_set-test 16 two_prices-IsValid shallow

highest_set-test_example :
    ((highest_set 16 two_prices ≡ none) × ((i : ℕ) → test 16 two_prices i ≡ false))
    ⊎ ((k : ℕ) × (highest_set 16 two_prices ≡ some k)
        × (test 16 two_prices k ≡ true)
        × ((j : ℕ) → k < j → test 16 two_prices j ≡ false))
highest_set-test_example = highest_set-test 16 two_prices-IsValid shallow

new_arena-ArenaInv : ArenaInv 4 new_arena
new_arena-ArenaInv = record { built = λ h. cc; unbuilt = λ _ p. refl }

allocate_lem_example :
    Allocated 4 (allocate 4 true new_arena).0 (allocate 4 true new_arena).1
    × SameOrders new_arena (allocate 4 true new_arena).1
allocate_lem_example = allocate_lem 4 true new_arena (omega arith) new_arena-ArenaInv

abbrev a_sale : Order
a_sale = record { id = 1; remaining = 10; px = 5; s = ask; t = gtc; account_id = 0 }

a_sale-Rests : Rests ask 5 (holds a_sale)
a_sale-Rests = record {
  live = refl;
  side = refl;
  price = refl;
  positive = omega arith;
  bounded = omega arith;
}

nothing-Rests : (q : ℕ) → ¬ Rests ask q raw
nothing-Rests q r = let live : false ≡ true = r.live in cc

abbrev no_slots : ℕ → Slot
no_slots i = raw

abbrev asks_with_sale : BookSide
asks_with_sale = add 16 ask empty_side 0 a_sale

asks_with_sale-SideInv : SideInv 16 ask (update no_slots 0 (holds a_sale)) asks_with_sale
asks_with_sale-SideInv =
    add-SideInv 16 ask 0 a_sale (omega arith) nothing-Rests a_sale-Rests (empty_side-SideInv 16 ask)

sale_stands : In 0 (asks_with_sale.levels 5).fifo
unfolding add push_back
sale_stands = inl refl

remove-SideInv_example :
    SideInv 16 ask
      (update (update no_slots 0 (holds a_sale)) 0 raw)
      (remove 16 ask asks_with_sale 0 a_sale)
remove-SideInv_example =
    remove-SideInv 16 ask 0 raw 5 shallow sale_stands a_sale-Rests asks_with_sale-SideInv
