-- ===== src/Ring/Positions.antt =====
-- include/lob/spsc_ring.hpp: positions of the ring as unbounded numbers, and the cursors and indices that
-- stand for them.
use native.Mathlib.Nat.{
  mod-lt, mod-add-div, add-mul-mod_self_left, mod-eq_of_lt, pow-suc, one-le-pow, mod-mod_of_dvd,
  mul_assoc, lt_of_mul-lt-mul_left, mul-suc, mul-le-mul_left,
}
use native.Mathlib.Nat.{dvd_refl, dvd-mul_right_of_dvd, add-zero, add-suc}
use Prim.Native.Nat.{◌∣◌}
use orderbooks.Ring.{index}
use orderbooks.Prelude.Word.{add_u64, sub_u64}
use orderbooks.Prelude.{
  subst, ℕ, zero, suc, ◌+◌, ◌-◌, ◌*◌, ◌/◌, ◌%◌, ◌^◌, ◌≤◌, ◌<◌, ◌≡◌, ◌≢◌, sym, ap, ◌∙◌, arith,
  bit_and, min,
}
use orderbooks.Prelude.Bits.{unroll-bit_and, bit_and-zero}

-- The last binary digit of a remainder, and the others.
half_mod : (a m : ℕ) → 0 < m → a % (2 * m) ≡ a % 2 + 2 * (a / 2 % m)
half_mod a m pos =
    let q = a / 2 / m in
    let low = a % 2 + 2 * (a / 2 % m) in
    let split : a ≡ low + 2 * m * q = omega (arith, mod-add-div (a / 2) m, mul_assoc 2 m q) in
    let small : low < 2 * m = omega (arith, mod-lt (a / 2) {m = m} pos) in
    ap (λ x. x % (2 * m)) split ∙ add-mul-mod_self_left low (2 * m) q ∙ mod-eq_of_lt small

pub bit_and-mod : (k a : ℕ) → bit_and a (2 ^ k - 1) ≡ a % 2 ^ k
bit_and-mod zero a = rw bit_and-zero (omega arith)
bit_and-mod (suc k) a =
    let half : (2 ^ suc k - 1) / 2 ≡ 2 ^ k - 1 = omega (arith, pow-suc 2 k) in
    let step : bit_and a (2 ^ suc k - 1)
        ≡ bit_and (a / 2) (2 ^ k - 1) * 2 + min (a % 2) ((2 ^ suc k - 1) % 2) =
      sym (unroll-bit_and a (2 ^ suc k - 1)) ∙ (rw half) in
    let pow : 2 ^ suc k ≡ 2 * 2 ^ k = omega (arith, pow-suc 2 k) in
    let rest : a % 2 ^ suc k ≡ a % 2 + 2 * (a / 2 % 2 ^ k) =
      rw pow (half_mod a (2 ^ k) (omega (arith, one-le-pow k 2))) in
    omega (arith, step, bit_and-mod k (a / 2), pow, one-le-pow k 2, rest)

-- Two positions less than a lap apart have different indices.
pub apart : (m p d : ℕ) → 0 < d → d < m → (p + d) % m ≢ p % m
apart m p d pos lt e =
    let x = (p + d) / m in
    let y = p / m in
    let far : m * x ≡ m * y + d = omega (arith, mod-add-div (p + d) m, mod-add-div p m, e) in
    let more : y < x = lt_of_mul-lt-mul_left m {m = y} {n = x} (omega (arith, far)) in
    omega (arith, far, mul-suc m y, mul-le-mul_left {m = suc y} {n = x} m (omega (arith, more)))

pow-dvd : (k j : ℕ) → 2 ^ k ∣ 2 ^ (k + j)
pow-dvd k zero = rw add-zero (dvd_refl (2 ^ k))
pow-dvd k (suc j) = rw (add-suc, pow-suc) (dvd-mul_right_of_dvd (2 ^ k) (pow-dvd k j) 2)

-- A cursor has the index of the position it stands for.
pub index-cursor : (k pos : ℕ) → k ≤ 64 → index k (pos % 2 ^ 64) ≡ pos % 2 ^ k
index-cursor k pos le =
    let divides : 2 ^ k ∣ 2 ^ 64 =
      subst (λ n. 2 ^ k ∣ 2 ^ n) {x = k + (64 - k)} {y = 64} (omega arith) (pow-dvd k (64 - k)) in
    bit_and-mod k (pos % 2 ^ 64) ∙ mod-mod_of_dvd (2 ^ k) pos divides

pub next_cursor : (pos n : ℕ) → add_u64 (pos % 2 ^ 64) n ≡ (pos + n) % 2 ^ 64
next_cursor pos n = omega arith

-- The distance of two cursors is that of their positions.
pub cursor_distance : (p q : ℕ) → q ≤ p → p < q + 2 ^ 64 → sub_u64 (p % 2 ^ 64) (q % 2 ^ 64) ≡ p - q
cursor_distance p q le lt = omega arith
