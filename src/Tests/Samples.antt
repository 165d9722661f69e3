-- ===== src/Tests/Samples.antt =====
-- The latency histogram over a library that counts the values in its range.
use orderbooks.Prelude.{
  ℕ, ◌+◌, ◌≡◌, ◌%◌, ◌^◌, leb, if◌then◌else◌, [], ◌∷◌, List, length, refl, arith,
}
use orderbooks.Histogram.{
  HdrHistogram, ready, LatencyHistogram, make_histogram, made, count, overflow_count, trackable,
}
use orderbooks.Histogram.Counts.{IsFaithful, record_all, above, record_all-counts}

record Tally : Type 0 where
  range : ℕ
  total : ℕ

abbrev tallying : HdrHistogram Tally ℕ
tallying = record {
  init = λ highest figures. ready (record { range = highest; total = 0 });
  record_value = λ h v. record h { total = if leb v h.range then h.total + 1 else h.total };
  reset = λ h. record h { total = 0 };
  total_count = λ h. h.total;
  min_value = λ h. 0;
  max_value = λ h. h.range;
  highest_trackable_value = λ h. h.range;
  mean = λ h. 0;
  zero_real = 0;
  value_at_percentile = λ h p. h.range;
}

tallying-IsFaithful : IsFaithful tallying
tallying-IsFaithful = record {
  starts_empty = λ c figures h e.
      let same : record { range = c; total = 0 } ≡ h = cc in rw (← same) (refl, refl);
  counts = λ h v le. ground (arith, le);
  keeps_range = λ h v. refl;
}

abbrev up_to_ten : LatencyHistogram Tally
up_to_ten = record { h = record { range = 10; total = 0 }; cap = 10; overflow = 0 }

abbrev samples : List ℕ
samples = 3 ∷ 12 ∷ 10 ∷ []

made_up_to_ten : make_histogram tallying 10 3 ≡ made up_to_ten
unfolding make_histogram
made_up_to_ten = refl

record_all-counts_example :
    (count tallying (record_all tallying up_to_ten samples) ≡ length samples)
    × (overflow_count tallying (record_all tallying up_to_ten samples)
        ≡ above (trackable 10) samples % 2 ^ 64)
record_all-counts_example =
    record_all-counts tallying 10 3 up_to_ten samples tallying-IsFaithful made_up_to_ten
