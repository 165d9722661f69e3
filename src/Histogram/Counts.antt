-- ===== src/Histogram/Counts.antt =====
-- include/lob/latency_histogram.hpp: what `record` counts.
use orderbooks.Prelude.{
  ℕ, ◌+◌, ◌-◌, ◌%◌, ◌^◌, ◌≤◌, ◌≡◌, refl, ◌∙◌, ltb, if◌then◌else◌, List, [], ◌∷◌, length, Bool-cases,
  ◌⊎◌, inl, inr, arith,
}
use orderbooks.Histogram.{
  HdrHistogram, Init, ready, no_memory, refused, LatencyHistogram, Made, made, trackable,
  make_histogram, record_sample, count, overflow_count,
}

-- What HdrHistogram_c documents: a new histogram is empty and has the range that was asked for, and a
-- value in the range is counted.
pub record IsFaithful {H Real : Type 0} (lib : HdrHistogram H Real) : Type 0 where
  pub starts_empty :
      (c figures : ℕ) (h : H)
      → lib.init c figures ≡ ready h
      → (lib.total_count h ≡ 0) × (lib.highest_trackable_value h ≡ c)
  pub counts :
      (h : H) (v : ℕ)
      → v ≤ lib.highest_trackable_value h
      → lib.total_count (lib.record_value h v) ≡ lib.total_count h + 1
  pub keeps_range :
      (h : H) (v : ℕ)
      → lib.highest_trackable_value (lib.record_value h v) ≡ lib.highest_trackable_value h

-- How many samples are above a value.
unfoldable pub above : ℕ → List ℕ → ℕ
above cap [] = 0
above cap (v ∷ vs) = (if ltb cap v then 1 else 0) + above cap vs

module _ {H Real : Type 0} (lib : HdrHistogram H Real) where
  unfoldable pub record_all : LatencyHistogram H → List ℕ → LatencyHistogram H
  record_all l [] = l
  record_all l (v ∷ vs) = record_all (record_sample lib l v) vs

  record IsRanged (l : LatencyHistogram H) : Type 0 where
    range : lib.highest_trackable_value l.h ≡ l.cap
    wraps : l.overflow ≤ 2 ^ 64 - 1

  record Recorded (l r : LatencyHistogram H) (n over : ℕ) : Type 0 where
    counted : lib.total_count r.h ≡ lib.total_count l.h + n
    overflowed : r.overflow ≡ (l.overflow + over) % 2 ^ 64
    same_cap : r.cap ≡ l.cap
    ranged : IsRanged r

  record_sample-Recorded :
      (l : LatencyHistogram H) (v : ℕ)
      → IsFaithful lib
      → IsRanged l
      → Recorded l (record_sample lib l v) 1 (if ltb l.cap v then 1 else 0)
  unfolding record_sample
  record_sample-Recorded l v law ok = elim (Bool-cases (ltb l.cap v)) [
    | inl over ↦ rw over (record {
      counted = law.counts l.h l.cap (omega (arith, ok.range));
      overflowed = refl;
      same_cap = refl;
      ranged = record { range = law.keeps_range l.h l.cap ∙ ok.range; wraps = omega arith };
    })
    | inr fits ↦ rw fits (record {
      counted = law.counts l.h v (ground (arith, ok.range));
      overflowed = omega (arith, ok.wraps);
      same_cap = refl;
      ranged = record { range = law.keeps_range l.h v ∙ ok.range; wraps = ok.wraps };
    })
  ]

  record_all-Recorded :
      (l : LatencyHistogram H) (vs : List ℕ)
      → IsFaithful lib
      → IsRanged l
      → Recorded l (record_all l vs) (length vs) (above l.cap vs)
  unfolding record_all above record_sample
  record_all-Recorded l [] law ok = record {
    counted = omega arith;
    overflowed = omega (arith, ok.wraps);
    same_cap = refl;
    ranged = ok;
  }
  record_all-Recorded l (v ∷ vs) law ok =
      let first = record_sample-Recorded l v law ok in
      let rest = record_all-Recorded (record_sample lib l v) vs law first.ranged in
      record {
        counted = omega (arith, first.counted, rest.counted);
        overflowed = omega (arith, first.overflowed, rw first.same_cap at rest.overflowed);
        same_cap = rest.same_cap ∙ first.same_cap;
        ranged = rest.ranged;
      }

  Init-cases : (r : Init H) → ((h : H) × (r ≡ ready h)) ⊎ (r ≡ no_memory) ⊎ (r ≡ refused)
  Init-cases (ready h) = inl (h, refl)
  Init-cases no_memory = inr (inl refl)
  Init-cases refused = inr (inr refl)

  abbrev fresh : ℕ → H → LatencyHistogram H
  fresh highest h = record { h = h; cap = trackable highest; overflow = 0 }

  -- What the constructor makes, where it throws nothing.
  make_histogram-ready :
      (highest figures : ℕ) {l : LatencyHistogram H}
      → make_histogram lib highest figures ≡ made l
      → (h : H) × (lib.init (trackable highest) figures ≡ ready h) × (fresh highest h ≡ l)
  unfolding make_histogram
  make_histogram-ready highest figures {l} e =
      elim (Init-cases (lib.init (trackable highest) figures)) [
        | inl (h, got) ↦
            let same : ◌≡◌ {A = Made H} (made (fresh highest h)) (made l) =
              rw (make_histogram, got) at e in
            (h, got, cc)
        | inr (inl got) ↦ absurd (cc (rw (make_histogram, got) at e))
        | inr (inr got) ↦ absurd (cc (rw (make_histogram, got) at e))
      ]

-- Where the library counts every value in the range that it was made for, a new histogram counts
-- every sample, the ones above its cap too, and its overflow counter has their number modulo 2 ^
-- 64.
pub record_all-counts :
    {H Real : Type 0} (lib : HdrHistogram H Real) (highest figures : ℕ) (l : LatencyHistogram H)
    (vs : List ℕ)
    → IsFaithful lib
    → make_histogram lib highest figures ≡ made l
    → (count lib (record_all lib l vs) ≡ length vs)
      × (overflow_count lib (record_all lib l vs) ≡ above (trackable highest) vs % 2 ^ 64)
record_all-counts lib highest figures l vs law e =
    let (h, got, same) = make_histogram-ready lib highest figures e in
    let (none_yet, range) = law.starts_empty (trackable highest) figures h got in
    let all =
      record_all-Recorded lib (fresh lib highest h) vs law
        (record { range = range; wraps = omega arith }) in
    rw (← same) (omega (arith, all.counted, none_yet), omega (arith, all.overflowed))
