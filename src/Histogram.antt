-- ===== src/Histogram.antt =====
-- include/lob/latency_histogram.hpp: `latency_histogram` over HdrHistogram_c, which is the parameter
-- `HdrHistogram`: its state and the calls that the class makes of it. A std::int64_t argument is its bit
-- pattern, and a double is a value of the type `Real`.
pub mod Counts
use orderbooks.Prelude.{ℕ, ◌+◌, ◌%◌, ◌^◌, ◌==◌, ltb, if◌then◌else◌, List, [], ◌∷◌}

-- What hdr_init gives: zero and a histogram, ENOMEM, or another code.
pub data Init (H : Type 0) : Type 0 where
  ready : H → Init H
  no_memory refused : Init H

pub record HdrHistogram (H Real : Type 0) : Type 0 where
  -- `hdr_init(1, highest_trackable_value, significant_figures, &h)`
  pub init : ℕ → ℕ → Init H
  pub record_value : H → ℕ → H
  pub reset : H → H
  pub total_count : H → ℕ
  pub min_value : H → ℕ
  pub max_value : H → ℕ
  pub highest_trackable_value : H → ℕ
  pub mean : H → Real
  pub zero_real : Real
  pub value_at_percentile : H → Real → ℕ

pub record LatencyHistogram (H : Type 0) : Type 0 where
  pub h : H
  pub cap : ℕ
  pub overflow : ℕ

-- The object, or the exception that the constructor throws.
pub data Made (H : Type 0) : Type 0 where
  made : LatencyHistogram H → Made H
  bad_alloc invalid_argument : Made H

-- `cap_`
unfoldable pub trackable : ℕ → ℕ
trackable highest = if ltb highest 2 then 2 else highest

module _ {H Real : Type 0} (lib : HdrHistogram H Real) where
  unfoldable pub make_histogram : ℕ → ℕ → Made H
  unfolding trackable
  make_histogram highest figures = elim (lib.init (trackable highest) figures) [
    | ready h ↦ made (record { h = h; cap = trackable highest; overflow = 0 })
    | no_memory ↦ bad_alloc
    | refused ↦ invalid_argument
  ]

  unfoldable pub record_sample : LatencyHistogram H → ℕ → LatencyHistogram H
  record_sample l value =
      if ltb l.cap value
      then record l { h = lib.record_value l.h l.cap; overflow = (l.overflow + 1) % 2 ^ 64 }
      else record l { h = lib.record_value l.h value }

  unfoldable pub reset_samples : LatencyHistogram H → LatencyHistogram H
  reset_samples l = record l { h = lib.reset l.h; overflow = 0 }

  abbrev pub count : LatencyHistogram H → ℕ
  count l = lib.total_count l.h

  abbrev pub overflow_count : LatencyHistogram H → ℕ
  overflow_count l = l.overflow

  unfoldable pub least_sample : LatencyHistogram H → ℕ
  least_sample l = if count l == 0 then 0 else lib.min_value l.h

  abbrev pub greatest_sample : LatencyHistogram H → ℕ
  greatest_sample l = lib.max_value l.h

  unfoldable pub mean_sample : LatencyHistogram H → Real
  mean_sample l = if count l == 0 then lib.zero_real else lib.mean l.h

  unfoldable pub sample_at_percentile : LatencyHistogram H → Real → ℕ
  sample_at_percentile l p = if count l == 0 then 0 else lib.value_at_percentile l.h p
