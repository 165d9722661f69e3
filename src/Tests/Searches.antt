-- ===== src/Tests/Searches.antt =====
-- The bitmap's nearest-position searches at inputs where their hypotheses hold.
use orderbooks.Bitmap.Next.{next_set_at_or_after-test}
use orderbooks.Bitmap.Prev.{prev_set_at_or_before-test}
use orderbooks.Bitmap.Search.{next_set_at_or_after, prev_set_at_or_before}
use orderbooks.Bitmap.{test}
use orderbooks.Tests.Components.{two_prices, two_prices-IsValid, shallow}
use orderbooks.Prelude.{◌<◌, some, ◌≤◌, ◌⊎◌, false, none, true, ◌≡◌, ℕ}

next_set_at_or_after-test_example :
    ((next_set_at_or_after 16 two_prices 4 ≡ none)
      × ((i : ℕ) → 4 ≤ i → test 16 two_prices i ≡ false))
    ⊎ ((k : ℕ) × (next_set_at_or_after 16 two_prices 4 ≡ some k)
        × (4 ≤ k)
        × (test 16 two_prices k ≡ true)
        × ((j : ℕ) → 4 ≤ j → j < k → test 16 two_prices j ≡ false))
next_set_at_or_after-test_example = next_set_at_or_after-test 16 4 two_prices-IsValid shallow

prev_set_at_or_before-test_example :
    ((prev_set_at_or_before 16 two_prices 8 ≡ none)
      × ((i : ℕ) → i ≤ 8 → test 16 two_prices i ≡ false))
    ⊎ ((k : ℕ) × (prev_set_at_or_before 16 two_prices 8 ≡ some k)
        × (k ≤ 8)
        × (test 16 two_prices k ≡ true)
        × ((j : ℕ) → k < j → j ≤ 8 → test 16 two_prices j ≡ false))
prev_set_at_or_before-test_example = prev_set_at_or_before-test 16 8 two_prices-IsValid shallow
