-- ===== src/Fix/Framing.antt =====
-- include/lob/fix_parser.hpp: the frame of a message that `parse` accepts, and when it waits for bytes.
use orderbooks.Fix.Streaming.{frame_end-ok}
use orderbooks.Fix.Results.{number-ok, require-ok, ok-injective, bind-ok}
use orderbooks.Prelude.Bytes.{take, byte_at, substr, same}
use orderbooks.Messages.{Command}
use orderbooks.Fix.Parse.{
  parse_body, text, frame_end, checksum_tag, read_body_length, read_begin_string, check_checksum,
  parse, sum_bytes,
}
use orderbooks.Prelude.{
  sym, ◌∙◌, ==_iff, some, ap, refl, ◌-◌, false, true, ◌^◌, [], length, ◌≡◌, ◌%◌, ◌+◌, ◌∷◌, ◌≤◌,
  ◌&&◌, List, Bool, ℕ, arith,
}
use orderbooks.Fix.{number, malformed, to_uint, soh, require, ok}

-- The sum of the bytes, without wrapping.
abbrev pub total : List ℕ → ℕ
total [] = 0
total (b ∷ bs) = b + total bs

sum_bytes-mod : (acc : ℕ) (bs : List ℕ) → sum_bytes acc bs % 2 ^ 8 ≡ (acc + total bs) % 2 ^ 8
unfolding sum_bytes
sum_bytes-mod acc [] = omega arith
sum_bytes-mod acc (b ∷ bs) = omega (arith, sum_bytes-mod ((acc + b) % 2 ^ 32) bs)

pub sum_bytes-total : (bs : List ℕ) → sum_bytes 0 bs % 2 ^ 8 ≡ total bs % 2 ^ 8
sum_bytes-total bs = omega (arith, sum_bytes-mod 0 bs)

-- The first `n` bytes of a buffer are a closed frame whose CheckSum field states their sum.
pub record IsFramed (buf : List ℕ) (n : ℕ) : Type 0 where
  pub width : 7 ≤ n
  pub within : n ≤ length buf
  pub tagged : same (substr buf (n - 7) 3) checksum_tag ≡ true
  pub closed : same (byte_at buf (n - 1)) (text soh) ≡ true
  pub stated : to_uint 32 (substr buf (n - 4) 3) ≡ some (total (take (n - 7) buf) % 2 ^ 8)

and_true : (a b : Bool) → a && b ≡ true → (a ≡ true) × (b ≡ true)
and_true true b h = (refl, h)
and_true false b h = cc

check_checksum-IsFramed :
    (buf : List ℕ) (cs_start : ℕ)
    → cs_start + 7 ≤ length buf
    → check_checksum buf cs_start ≡ ok tt
    → IsFramed buf (cs_start + 7)
unfolding check_checksum
check_checksum-IsFramed buf cs_start le h =
    let (u, shaped, h') =
      bind-ok
        (require
          (same (substr buf cs_start 3) checksum_tag
            && same (byte_at buf (cs_start + 7 - 1)) (text soh))
          malformed)
        _ h in
    let (stated, read, h'') = bind-ok (number 32 (substr buf (cs_start + 3) 3) malformed) _ h' in
    let both = and_true _ _ (require-ok _ _ shaped) in
    let sums : sum_bytes 0 (take cs_start buf) % 2 ^ 8 ≡ stated =
      (==_iff _ _).0 (require-ok _ _ h'') in
    let start : cs_start + 7 - 7 ≡ cs_start = omega arith in
    let digits : cs_start + 7 - 4 ≡ cs_start + 3 = omega arith in
    record {
      width = omega arith;
      within = le;
      tagged = rw start (both.0);
      closed = both.1;
      stated =
          rw (start, digits)
            (number-ok 32 (substr buf (cs_start + 3) 3) malformed read
              ∙ ap some (sym sums ∙ sum_bytes-total (take cs_start buf)));
    }

-- An accepted FIX message lies in the buffer, has its CheckSum field last, closed by SOH, and
-- states there the sum of its bytes before that field modulo 256.
pub parse-IsFramed : (buf : List ℕ) (k : Command) (n : ℕ) → parse buf ≡ ok (k, n) → IsFramed buf n
unfolding parse
parse-IsFramed buf k n h =
    let (pos, begun, h') = bind-ok (read_begin_string buf) _ h in
    let (len, measured, h'') = bind-ok (read_body_length buf pos) _ h' in
    let (cs_start, framed, h''') = bind-ok (frame_end buf len) _ h'' in
    let (u, checked, h'''') = bind-ok (check_checksum buf cs_start) _ h''' in
    let (k', parsed, last) = bind-ok (parse_body (take cs_start buf) len.1) _ h'''' in
    let at : cs_start + 7 ≡ n = ap (λ x. x.1) (ok-injective last) in
    rw (← at) (check_checksum-IsFramed buf cs_start (frame_end-ok buf len.0 len.1 framed).1 checked)
