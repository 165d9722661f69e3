-- ===== src/Fix/Streaming.antt =====
-- include/lob/fix_parser.hpp: the parser on a buffer that grows, as a caller that drains a stream uses
-- it.
use orderbooks.Messages.{Command}
use orderbooks.Fix.Results.{require-ok, ok-injective, bind-ok, bind-Agrees, Agrees-refl, Agrees}
use orderbooks.Prelude.{
  leb-true, ◌-◌, ℕ, ◌+◌, ◌≤◌, ◌≡◌, ◌≢◌, refl, arith, ◌⊎◌, inl, inr, Bool-cases, Option-cases, true,
  false, List, [], ◌∷◌, ◌++◌, length, length-append, some, ltb, leb, ◌==◌, ◌||◌,
}
use orderbooks.Prelude.Bytes.{take-append, take, substr-append, drop, drop-append}
use orderbooks.Fix.{
  require, Result, Scan, need_more, read_field, scan_tag, finish_field, scan_value, soh,
  max_tag_digits, decimal_radix, digit_of,
}
use orderbooks.Fix.Parse.{
  parse_body, read_body_length, header_field, frame_end, read_begin_string, check_checksum, parse,
}
use orderbooks.Fix.{◌>>=◌, ok, err, incomplete, Tag}
use orderbooks.Prelude.{Bool, true, false}

-- A scan that saw its whole field sees the same one with more bytes behind.
ScanAgrees : Scan → Scan → Type 0
ScanAgrees m m' = (m ≡ need_more) ⊎ (m' ≡ m)

scan_value-append :
    (xs more : List ℕ) {v : List ℕ} → scan_value xs ≡ some v → scan_value (xs ++ more) ≡ some v
unfolding scan_value
scan_value-append [] more e = cc
scan_value-append (ch ∷ xs) more {v} e = elim (Bool-cases (ch == soh)) [
  | inl stop ↦ rw stop (rw stop at e)
  | inr go ↦ elim (Option-cases (scan_value xs)) [
    | inl missing ↦ absurd (cc (rw (go, missing) at e))
    | inr (w, found) ↦ rw (go, scan_value-append xs more found) (rw (go, found) at e)
  ]
]

finish_field-append :
    (pos width tag : ℕ) (xs more : List ℕ)
    → ScanAgrees (finish_field pos width tag xs) (finish_field pos width tag (xs ++ more))
unfolding ScanAgrees finish_field
finish_field-append pos width tag xs more = elim (Option-cases (scan_value xs)) [
  | inl missing ↦ elim (Bool-cases (width == 0 || ltb max_tag_digits width)) [
    | inl b ↦ inr (rw b refl)
    | inr b ↦ inl (rw (b, missing) refl)
  ]
  | inr (v, found) ↦ inr (rw (found, scan_value-append xs more found) refl)
]

scan_tag-append :
    (pos width tag : ℕ) (xs more : List ℕ)
    → ScanAgrees (scan_tag pos width tag xs) (scan_tag pos width tag (xs ++ more))
unfolding ScanAgrees scan_tag
scan_tag-append pos width tag [] more = inl refl
scan_tag-append pos width tag (ch ∷ xs) more = elim (Bool-cases (ch == b'=')) [
  | inl stop ↦ rw stop (finish_field-append pos width tag xs more)
  | inr go ↦ elim (Bool-cases (leb decimal_radix (digit_of ch))) [
    | inl missing ↦ rw (go, missing) (inr refl)
    | inr is_digit ↦ rw (go, is_digit) (scan_tag-append pos (width + 1) _ xs more)
  ]
]

pub read_field-append :
    (buf more : List ℕ) (pos : ℕ)
    → (read_field buf pos ≡ need_more) ⊎ (read_field (buf ++ more) pos ≡ read_field buf pos)
unfolding read_field ScanAgrees
read_field-append buf more pos = elim (Bool-cases (leb (length buf) pos)) [
  | inl past ↦ inl (rw past refl)
  | inr inside ↦
      let longer : leb (length (buf ++ more)) pos ≡ false =
        ground (arith, inside, length-append buf more) in
      rw (inside, longer, drop-append pos buf more (ground (arith, inside)))
        (scan_tag-append pos 0 0 (drop pos buf) more)
]

header_field-Agrees :
    (buf more : List ℕ) (pos : ℕ) (t : Tag)
    → Agrees (header_field buf pos t) (header_field (buf ++ more) pos t)
unfolding header_field
header_field-Agrees buf more pos t = elim (read_field-append buf more pos) [
  | inl short ↦ inl (rw (short, header_field) refl)
  | inr same_scan ↦ inr (rw (same_scan, header_field) refl)
]

pub read_begin_string-Agrees :
    (buf more : List ℕ) → Agrees (read_begin_string buf) (read_begin_string (buf ++ more))
unfolding read_begin_string
read_begin_string-Agrees buf more =
    bind-Agrees _ _ _ _ (header_field-Agrees buf more 0 Tag.begin_string) (λ f e. Agrees-refl _)

pub read_body_length-Agrees :
    (buf more : List ℕ) (pos : ℕ)
    → Agrees (read_body_length buf pos) (read_body_length (buf ++ more) pos)
unfolding read_body_length
read_body_length-Agrees buf more pos =
    bind-Agrees _ _ _ _ (header_field-Agrees buf more pos Tag.body_length) (λ f e. Agrees-refl _)

require_incomplete-Agrees :
    {A : Type 0} (b b' : Bool) (m m' : Result A)
    → (b ≡ true → b' ≡ true)
    → Agrees m m'
    → Agrees (require b incomplete >>= λ u. m) (require b' incomplete >>= λ u. m')
require_incomplete-Agrees true b' m m' keeps h = rw (keeps refl) h
require_incomplete-Agrees false b' m m' keeps h = inl refl

frame_end-Agrees :
    (buf more : List ℕ) (n : ℕ × ℕ) → Agrees (frame_end buf n) (frame_end (buf ++ more) n)
unfolding frame_end
frame_end-Agrees buf more (body_len, body_start) =
    require_incomplete-Agrees (leb body_len (length buf)) (leb body_len (length (buf ++ more))) _ _
      (λ h. ground (arith, h, length-append buf more))
      (require_incomplete-Agrees (leb (body_start + body_len + 7) (length buf))
        (leb (body_start + body_len + 7) (length (buf ++ more))) _ _
        (λ h. ground (arith, h, length-append buf more)) (Agrees-refl _))

-- The frame of an ok lies in the buffer.
pub frame_end-ok :
    (buf : List ℕ) (body_len body_start : ℕ) {cs_start : ℕ}
    → frame_end buf (body_len, body_start) ≡ ok cs_start
    → (cs_start ≡ body_start + body_len) × (cs_start + 7 ≤ length buf)
unfolding frame_end
frame_end-ok buf body_len body_start {cs_start} h =
    let (u, near, h') = bind-ok (require (leb body_len (length buf)) incomplete) _ h in
    let (v, far, h'') =
      bind-ok (require (leb (body_start + body_len + 7) (length buf)) incomplete) _ h' in
    let at : body_start + body_len ≡ cs_start = ok-injective h'' in
    omega (arith, at, leb-true _ _ (require-ok _ _ far))

check_checksum-append :
    (buf more : List ℕ) (cs_start : ℕ)
    → cs_start + 7 ≤ length buf
    → check_checksum (buf ++ more) cs_start ≡ check_checksum buf cs_start
unfolding check_checksum
check_checksum-append buf more cs_start le =
    rw
      (
        substr-append buf more cs_start 3 (omega arith),
        substr-append buf more (cs_start + 7 - 1) 1 (omega arith),
        substr-append buf more (cs_start + 3) 3 (omega arith),
        take-append cs_start buf more (omega arith),
      )
      refl

pub parse-append : (buf more : List ℕ) → Agrees (parse buf) (parse (buf ++ more))
unfolding parse
parse-append buf more = bind-Agrees _ _ _ _ (read_begin_string-Agrees buf more) λ pos e.
    bind-Agrees _ _ _ _ (read_body_length-Agrees buf more pos) λ n e'.
      bind-Agrees _ _ _ _ (frame_end-Agrees buf more n)
        λ cs_start framed. inr (behind_frame cs_start n.1 (frame_end-ok buf n.0 n.1 framed).1)
  where
    behind_frame :
        (cs_start body_start : ℕ)
        → cs_start + 7 ≤ length buf
        → (check_checksum (buf ++ more) cs_start >>= λ u.
            ◌>>=◌ {B = Command × ℕ}
              (parse_body (take cs_start (buf ++ more)) body_start)
              (λ k. ok (k, cs_start + 7)))
          ≡ (check_checksum buf cs_start >>= λ u.
              ◌>>=◌ {B = Command × ℕ}
                (parse_body (take cs_start buf) body_start)
                (λ k. ok (k, cs_start + 7)))
    behind_frame cs_start body_start le =
        rw (check_checksum-append buf more cs_start le, take-append cs_start buf more (omega arith))
          refl

-- A result of parse other than incomplete is final: more bytes behind the buffer do not change it.
pub parse_is_final :
    (buf more : List ℕ) → parse buf ≢ err incomplete → parse (buf ++ more) ≡ parse buf
parse_is_final buf more ready = elim (parse-append buf more) [
  | inl waits ↦ absurd (ready waits)
  | inr final ↦ final
]
