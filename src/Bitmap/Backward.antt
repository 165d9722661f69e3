-- ===== src/Bitmap/Backward.antt =====
-- include/lob/bitmap.hpp: the last position of a tier up to a given one, and the word scan for it.
use orderbooks.Prelude.{
  ℕ, ◌+◌, ◌-◌, ◌*◌, ◌/◌, ◌%◌, ◌≤◌, ◌<◌, ◌≡◌, ◌≢◌, ◌==◌, ◌⊎◌, inl, inr, ==_iff, Bool-cases, Option,
  none, some, leb, if◌then◌else◌, bit_and, arith,
}
use orderbooks.Prelude.Bits.{digit, digit-zero, digit-bit_and, digit-le-one}
use orderbooks.Prelude.Word.{countl_zero, countl_zero-IsHighest}
use orderbooks.Bitmap.{low_mask_inclusive, descend_high}
use orderbooks.Bitmap.Words.{bit_at, AreWords, digit-low_mask, bit_and-lt}
use orderbooks.Bitmap.Invariant.{Summary}
use orderbooks.Bitmap.Forward.{NoneIn, NoneIn-below, word_reads}

-- The last position that is set before a position.
pub record IsLast (words : ℕ → ℕ) (to k : ℕ) : Type 0 where
  pub reached : k < to
  pub here : bit_at words k ≡ 1
  pub between : NoneIn words (k + 1) to

abbrev pub Prev : (ℕ → ℕ) → ℕ → Option ℕ → Type 0
Prev words to r = ((r ≡ none) × NoneIn words 0 to) ⊎ ((k : ℕ) × (r ≡ some k) × IsLast words to k)

pub IsLast-below :
    (up lo : ℕ → ℕ) (to i : ℕ)
    → AreWords lo
    → Summary up lo
    → IsLast up to i
    → IsLast lo (to * 64) (descend_high lo i)
IsLast-below up lo to i w s v =
    let high = countl_zero-IsHighest (lo i) (ground (arith, s i, v.here)) (w i) in
    record {
      reached = omega (arith, v.reached, high.1);
      here = ground (arith, word_reads lo i (63 - countl_zero (lo i)) high.1, high.0.here);
      between = λ j le lt. elim (Bool-cases (j / 64 == i)) [
        | inl e ↦
            let same : j / 64 ≡ i = (==_iff _ _).0 e in
            rw same (high.0.above (j % 64) (omega (arith, high.1)))
        | inr ne ↦ NoneIn-below up lo (i + 1) to s v.between j (ground (arith, high.1)) lt
      ];
    }

pub Prev-before :
    (words : ℕ → ℕ) (from to : ℕ) (r : Option ℕ)
    → from ≤ to
    → NoneIn words from to
    → Prev words from r
    → Prev words to r
Prev-before words from to r le none_set (inl (e, z)) = inl (
  e,
  λ j h lt. elim (Bool-cases (leb from j)) [
    | inl past ↦ none_set j (ground arith) lt
    | inr short ↦ z j h (ground arith)
  ],
)
Prev-before words from to r le none_set (inr (k, e, v)) = inr (
  k,
  e,
  record {
    reached = omega (arith, v.reached);
    here = v.here;
    between = λ j h lt. elim (Bool-cases (leb from j)) [
      | inl past ↦ none_set j (ground arith) lt
      | inr short ↦ v.between j h (ground arith)
    ];
  },
)

-- The word of a position, less the bits after it.
abbrev pub start_of : (ℕ → ℕ) → ℕ → ℕ
start_of words pos = bit_and (words (pos / 64)) (low_mask_inclusive (pos % 64))

digit-start_of :
    (words : ℕ → ℕ) (pos k : ℕ)
    → digit (start_of words pos) k ≡ (if leb k (pos % 64) then digit (words (pos / 64)) k else 0)
digit-start_of words pos k = ground (
  arith,
  digit-bit_and (words (pos / 64)) (low_mask_inclusive (pos % 64)) k,
  digit-low_mask (pos % 64) k (omega arith),
  digit-le-one (words (pos / 64)) k,
)

pub start_of-NoneIn :
    (words : ℕ → ℕ) (pos : ℕ) → start_of words pos ≡ 0 → NoneIn words (pos / 64 * 64) (pos + 1)
start_of-NoneIn words pos e j le lt =
    let same : j / 64 ≡ pos / 64 = omega arith in
    let read : digit (start_of words pos) (j % 64) ≡ 0 = rw e (digit-zero (j % 64)) in
    rw same (ground (arith, digit-start_of words pos (j % 64)))

pub start_of-IsLast :
    (words : ℕ → ℕ) (pos : ℕ)
    → AreWords words
    → start_of words pos ≢ 0
    → IsLast words (pos + 1) (pos / 64 * 64 + (63 - countl_zero (start_of words pos)))
start_of-IsLast words pos w ne =
    let high =
      countl_zero-IsHighest (start_of words pos) ne
        (bit_and-lt 64 (words (pos / 64)) (low_mask_inclusive (pos % 64)) (w (pos / 64))) in
    let read = digit-start_of words pos (63 - countl_zero (start_of words pos)) in
    record {
      reached = ground (arith, read, high.0.here);
      here = ground (
        arith,
        word_reads words (pos / 64) (63 - countl_zero (start_of words pos)) high.1,
        read,
        high.0.here,
      );
      between = λ j le lt.
          let same : j / 64 ≡ pos / 64 = omega (arith, high.1) in
          rw same (
            ground (
              arith,
              digit-start_of words pos (j % 64),
              high.0.above (j % 64) (omega (arith, high.1)),
            ));
    }
