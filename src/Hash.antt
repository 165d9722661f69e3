-- ===== src/Hash.antt =====
-- include/lob/hash.hpp: SplitMix64, the shard of a symbol, and the first sequence number of a shard.
use orderbooks.Prelude.{ℕ, ◌-◌, ◌*◌, ◌%◌, ◌^◌, bit_and, bit_xor, if◌then◌else◌, leb}
use orderbooks.Prelude.Word.{shift_left, shift_right, countr_zero}

abbrev pub mix13_multiplier_1 : ℕ
mix13_multiplier_1 = 0xBF58476D1CE4E5B9

abbrev pub mix13_multiplier_2 : ℕ
mix13_multiplier_2 = 0x94D049BB133111EB

-- One xor-shift and multiply round.
unfoldable pub mix_round : ℕ → ℕ → ℕ → ℕ
mix_round x shift multiplier = bit_xor x (shift_right x shift) * multiplier % 2 ^ 64

unfoldable pub splitmix64 : ℕ → ℕ
unfolding mix_round
splitmix64 x =
    let y = mix_round (mix_round x 30 mix13_multiplier_1) 27 mix13_multiplier_2 in
    bit_xor y (shift_right y 31)

unfoldable pub shard_index : ℕ → ℕ → ℕ
shard_index sym num_shards = bit_and (splitmix64 sym) (num_shards - 1)

unfoldable pub shard_seq_base : ℕ → ℕ → ℕ
shard_seq_base shard_idx num_shards =
    if leb num_shards 1 then 0 else shift_left shard_idx (64 - countr_zero num_shards)
