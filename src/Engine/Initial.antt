-- ===== src/Engine/Initial.antt =====
-- include/lob/book.hpp: the book that its constructor makes.
use orderbooks.Bitmap.Invariant.{empty_bitmap-IsValid}
use orderbooks.Engine.Invariant.{BookInv}
use orderbooks.BookSide.Invariant.{SideInv}
use orderbooks.Types.{ask, bid, Template, Side}
use orderbooks.BookSide.{empty_side, side_of, new_book}
use orderbooks.Bitmap.{empty_bitmap, test}
use orderbooks.Arena.{raw}
use orderbooks.Prelude.Bits.{digit-zero}
use orderbooks.Bitmap.Extremes.{test_reads}
use orderbooks.Prelude.{refl, arith, ◌%◌, false, ◌≡◌, ℕ}

test-empty_bitmap : (ticks i : ℕ) → test ticks empty_bitmap i ≡ false
test-empty_bitmap ticks i = ground (arith, test_reads ticks empty_bitmap i, digit-zero (i % 64))

pub empty_side-SideInv : (ticks : ℕ) (s : Side) → SideInv ticks s (λ i. raw) empty_side
empty_side-SideInv ticks s = record {
  sound = λ px. record { owned = tt; summed = refl; distinct = tt };
  bitmap = empty_bitmap-IsValid ticks;
  populated = λ px. test-empty_bitmap ticks px;
  best_is = record {
    none_set = λ _ i. test-empty_bitmap ticks i;
    is_set = λ k h. cc;
    none_ahead = λ k j h lt. cc;
  };
}

-- The book that the constructor makes is sound, for any template.
pub new_book-BookInv : (c : Template) → BookInv c (new_book c)
unfolding new_book
new_book-BookInv c = record {
  sides = λ (s : Side). by_side s;
  arena = record {
    free_list = record { built = λ h. cc; unbuilt = λ _ p. refl };
    within = λ p live. cc;
  };
  linked = λ p live. cc;
}
  where
    by_side : (s : Side) → SideInv c.ticks s (λ i. raw) (side_of s (new_book c))
    by_side bid = empty_side-SideInv c.ticks bid
    by_side ask = empty_side-SideInv c.ticks ask
