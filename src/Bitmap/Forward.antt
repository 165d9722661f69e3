-- ===== src/Bitmap/Forward.antt =====
-- include/lob/bitmap.hpp: the first position of a tier from a given one on, and the word scan for it.
use orderbooks.Prelude.{
  ℕ, ◌+◌, ◌*◌, ◌/◌, ◌%◌, ◌≤◌, ◌<◌, ◌≡◌, ◌≢◌, ◌==◌, ◌⊎◌, inl, inr, ==_iff, Bool-cases, Option, none,
  some, leb, if◌then◌else◌, bit_and, arith,
}
use orderbooks.Prelude.Bits.{digit, digit-zero, digit-bit_and, digit-le-one}
use orderbooks.Prelude.Word.{countr_zero, countr_zero-IsLowest}
use orderbooks.Bitmap.{high_mask, descend_low}
use orderbooks.Bitmap.Words.{bit_at, AreWords, digit-high_mask, bit_and-lt}
use orderbooks.Bitmap.Invariant.{Summary}

-- No position of `[from, to)` is set, and the first that is set from a position on.
abbrev pub NoneIn : (ℕ → ℕ) → ℕ → ℕ → Type 0
NoneIn words from to = (j : ℕ) → from ≤ j → j < to → bit_at words j ≡ 0

pub record IsFirst (words : ℕ → ℕ) (from k : ℕ) : Type 0 where
  pub reached : from ≤ k
  pub here : bit_at words k ≡ 1
  pub between : NoneIn words from k

abbrev pub Next : (ℕ → ℕ) → ℕ → Option ℕ → Type 0
Next words from r =
    ((r ≡ none) × ((j : ℕ) → from ≤ j → bit_at words j ≡ 0))
    ⊎ ((k : ℕ) × (r ≡ some k) × IsFirst words from k)

pub word_reads : (words : ℕ → ℕ) (q k : ℕ) → k < 64 → bit_at words (q * 64 + k) ≡ digit (words q) k
word_reads words q k lt =
    let word : (q * 64 + k) / 64 ≡ q = omega arith in
    let off : (q * 64 + k) % 64 ≡ k = omega arith in rw (word, off)

pub NoneIn-below :
    (up lo : ℕ → ℕ) (from to : ℕ)
    → Summary up lo
    → NoneIn up from to
    → NoneIn lo (from * 64) (to * 64)
NoneIn-below up lo from to s none_up j le lt =
    ground (arith, s (j / 64), none_up (j / 64) (omega arith) (omega arith), digit-zero (j % 64))

pub IsFirst-below :
    (up lo : ℕ → ℕ) (from i : ℕ)
    → AreWords lo
    → Summary up lo
    → IsFirst up from i
    → IsFirst lo (from * 64) (descend_low lo i)
IsFirst-below up lo from i w s v =
    let low = countr_zero-IsLowest (lo i) (ground (arith, s i, v.here)) (w i) in
    record {
      reached = omega (arith, v.reached);
      here = ground (arith, word_reads lo i (countr_zero (lo i)) low.1, low.0.here);
      between = λ j le lt. elim (Bool-cases (j / 64 == i)) [
        | inl e ↦
            let same : j / 64 ≡ i = (==_iff _ _).0 e in
            rw same (low.0.below (j % 64) (omega (arith, low.1)))
        | inr ne ↦ NoneIn-below up lo from i s v.between j le (ground (arith, low.1))
      ];
    }

pub Next-after :
    (words : ℕ → ℕ) (from to : ℕ) (r : Option ℕ)
    → from ≤ to
    → NoneIn words from to
    → Next words to r
    → Next words from r
Next-after words from to r le none_set (inl (e, z)) = inl (
  e,
  λ j h. elim (Bool-cases (leb to j)) [
    | inl past ↦ z j (ground arith)
    | inr short ↦ none_set j h (ground arith)
  ],
)
Next-after words from to r le none_set (inr (k, e, v)) = inr (
  k,
  e,
  record {
    reached = omega (arith, v.reached);
    here = v.here;
    between = λ j h lt. elim (Bool-cases (leb to j)) [
      | inl past ↦ v.between j (ground arith) lt
      | inr short ↦ none_set j h (ground arith)
    ];
  },
)

-- The word of a position, less the bits before it.
abbrev pub rest_of : (ℕ → ℕ) → ℕ → ℕ
rest_of words pos = bit_and (words (pos / 64)) (high_mask (pos % 64))

digit-rest_of :
    (words : ℕ → ℕ) (pos k : ℕ)
    → k < 64
    → digit (rest_of words pos) k ≡ (if leb (pos % 64) k then digit (words (pos / 64)) k else 0)
digit-rest_of words pos k lt = ground (
  arith,
  digit-bit_and (words (pos / 64)) (high_mask (pos % 64)) k,
  digit-high_mask (pos % 64) k (omega arith) lt,
  digit-le-one (words (pos / 64)) k,
)

pub rest_of-NoneIn :
    (words : ℕ → ℕ) (pos : ℕ) → rest_of words pos ≡ 0 → NoneIn words pos ((pos / 64 + 1) * 64)
rest_of-NoneIn words pos e j le lt =
    let same : j / 64 ≡ pos / 64 = omega arith in
    let read : digit (rest_of words pos) (j % 64) ≡ 0 = rw e (digit-zero (j % 64)) in
    rw same (ground (arith, digit-rest_of words pos (j % 64) (omega arith)))

pub rest_of-IsFirst :
    (words : ℕ → ℕ) (pos : ℕ)
    → AreWords words
    → rest_of words pos ≢ 0
    → IsFirst words pos (pos / 64 * 64 + countr_zero (rest_of words pos))
rest_of-IsFirst words pos w ne =
    let low =
      countr_zero-IsLowest (rest_of words pos) ne
        (bit_and-lt 64 (words (pos / 64)) (high_mask (pos % 64)) (w (pos / 64))) in
    let read = digit-rest_of words pos (countr_zero (rest_of words pos)) low.1 in
    record {
      reached = ground (arith, read, low.0.here);
      here = ground (
        arith,
        word_reads words (pos / 64) (countr_zero (rest_of words pos)) low.1,
        read,
        low.0.here,
      );
      between = λ j le lt.
          let same : j / 64 ≡ pos / 64 = omega (arith, low.1) in
          rw same (
            ground (
              arith,
              digit-rest_of words pos (j % 64) (omega arith),
              low.0.below (j % 64) (omega (arith, low.1)),
            ));
    }
