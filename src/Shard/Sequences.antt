-- ===== src/Shard/Sequences.antt =====
-- include/lob/hash.hpp: the shard of a symbol, and the sequence numbers that the shards start from. The
-- number of shards is a power of two, as the classes assert.
use orderbooks.Ring.Refine.{lap_fits}
use native.Mathlib.Nat.{
  suc-mul, pow-suc, mul_assoc, mul-le-mul_right, mul-lt-mul_of_pos_right, one-le-pow, add-suc,
  add-zero, mod-lt,
}
use orderbooks.Prelude.{
  inr, leb-true, inl, ap, leb, ◌∙◌, Bool-cases, sym, refl, ℕ, zero, suc, ◌+◌, ◌-◌, ◌*◌, ◌^◌, ◌≤◌,
  ◌<◌, ◌≡◌, arith,
}
use orderbooks.Prelude.Word.{countr_zero, countr_zero-IsLowest}
use orderbooks.Prelude.Bits.{digit-pow}
use orderbooks.Ring.Positions.{bit_and-mod}
use orderbooks.Hash.{splitmix64, shard_index, shard_seq_base}

-- The shard of a symbol is one of the shards.
pub shard_index-bounded : (j sym : ℕ) → shard_index sym (2 ^ j) < 2 ^ j
unfolding shard_index
shard_index-bounded j sym =
    rw bit_and-mod (mod-lt (splitmix64 sym) {m = 2 ^ j} (omega (arith, one-le-pow j 2)))

pow-add : (a b : ℕ) → 2 ^ (a + b) ≡ 2 ^ a * 2 ^ b
pow-add a zero = rw add-zero (omega arith)
pow-add a (suc b) = let ih = pow-add a b in rw (add-suc, pow-suc, pow-suc, ih, mul_assoc) refl

log2_shards : (j : ℕ) → j < 64 → countr_zero (2 ^ j) ≡ j
log2_shards j small =
    let low =
      countr_zero-IsLowest (2 ^ j) (λ e. omega (arith, e, one-le-pow j 2)) (lap_fits j small) in
    ground (arith, low.0.here, digit-pow j (countr_zero (2 ^ j)))

-- The first sequence number of a shard is its number times the length of a range.
shard_seq_base_at : (j i : ℕ) → j < 64 → i < 2 ^ j → shard_seq_base i (2 ^ j) ≡ i * 2 ^ (64 - j)
unfolding shard_seq_base
shard_seq_base_at j i small lt = elim (Bool-cases (leb (2 ^ j) 1)) [
  | inl one_shard ↦
      let first : i ≡ 0 = omega (arith, leb-true (2 ^ j) 1 one_shard, lt) in
      rw (one_shard, first) (omega arith)
  | inr more ↦
      let whole : 2 ^ j * 2 ^ (64 - j) ≡ 2 ^ 64 =
        sym (pow-add j (64 - j)) ∙ ap (λ n. 2 ^ n) {x = j + (64 - j)} {y = 64} (omega arith) in
      let fits =
        mul-lt-mul_of_pos_right {m = i} {n = 2 ^ j} {k = 2 ^ (64 - j)} lt
          (omega (arith, one-le-pow (64 - j) 2)) in
      rw (more, log2_shards j small) (omega (arith, whole, fits))
]

-- With 2 ^ j shards, j below 64, the sequence ranges of two shards, 2 ^ (64 - j) long, follow one
-- another without overlap and end within 64 bits.
pub shard_seq_base-apart :
    (j i i' : ℕ)
    → j < 64
    → i < i'
    → i' < 2 ^ j
    → (shard_seq_base i (2 ^ j) + 2 ^ (64 - j) ≤ shard_seq_base i' (2 ^ j))
      × (shard_seq_base i' (2 ^ j) + 2 ^ (64 - j) ≤ 2 ^ 64)
shard_seq_base-apart j i i' small lt bound =
    let w = 2 ^ (64 - j) in
    let whole : 2 ^ j * w ≡ 2 ^ 64 =
      sym (pow-add j (64 - j)) ∙ ap (λ n. 2 ^ n) {x = j + (64 - j)} {y = 64} (omega arith) in
    let below = mul-le-mul_right {m = suc i} {n = i'} w (omega (arith, lt)) in
    let above = mul-le-mul_right {m = suc i'} {n = 2 ^ j} w (omega (arith, bound)) in
    rw (shard_seq_base_at j i small (omega (arith, lt, bound)), shard_seq_base_at j i' small bound)
      (omega (arith, below, suc-mul i w), omega (arith, above, suc-mul i' w, whole))
