-- ===== src/Fix/Waiting.antt =====
-- include/lob/fix_parser.hpp: once the header and the longest body fit the buffer, no step of `parse`
-- waits for more bytes.
use orderbooks.Prelude.{◌||◌}
use orderbooks.Types.{ask, gtc, ioc, fok}
use orderbooks.Prelude.Word.{all_ones}
use orderbooks.Prelude.Bytes.{byte_at, take, substr, same}
use orderbooks.Fix.Parse.{
  text, checksum_tag, no_fields, header_field, checksum_field_width, Fields, read_msg_type,
  read_begin_string, tif_value, make_command, check_checksum, read_body_length, side_value,
  read_fields, order_id, parse_body, apply_field, body_field, frame_end, parse,
}
use orderbooks.Fix.{
  read_field, need_more, bad, scanned, malformed, err, ok, missing_field, bad_field_value,
  unsupported_msg_type, bad_checksum,
}
use orderbooks.Prelude.{
  ap, not, leb-true, ◌-◌, zero, inr, inl, leb, ltb, ◌&&◌, Bool-cases, Option-cases, false, length,
  ◌==◌, true, suc, ◌+◌, ◌≡◌, ◌≢◌, if◌then◌else◌, ◌≤◌, Bool, List, ℕ, arith,
}
use orderbooks.Fix.{
  bad_checksum, soh, bad_body_length, to_uint, Tag, malformed, max_message_size, err, missing_field,
  bad_field_value, incomplete, Field, number, Error, Scan, ◌>>=◌, require, Result, ok,
}
use orderbooks.Fix.Results.{require-ok, ok-injective, err-injective, bind-ok}

abbrev IsFinal : {A : Type 0} → Result A → Type 0
IsFinal m = m ≢ err incomplete

module _ {A B : Type 0} where
  bind-IsFinal :
      (m : Result A) (f : A → Result B) → IsFinal m → ((a : A) → IsFinal (f a)) → IsFinal (m >>= f)
  bind-IsFinal (ok a) f h k = k a
  bind-IsFinal (err e) f h k = λ w. h (ap err (err-injective w))

ok-IsFinal : {A : Type 0} (a : A) → IsFinal (ok a)
ok-IsFinal a w = cc

err-IsFinal : {A : Type 0} (e : Error) → e ≢ incomplete → IsFinal {A = A} (err e)
err-IsFinal e ne w = ne (err-injective w)

require-IsFinal : (b : Bool) (e : Error) → e ≢ incomplete → IsFinal (require b e)
require-IsFinal true e ne w = cc
require-IsFinal false e ne w = ne (err-injective w)

number-IsFinal : (bits : ℕ) (v : List ℕ) (e : Error) → e ≢ incomplete → IsFinal (number bits v e)
number-IsFinal bits v e ne w = elim (Option-cases (to_uint bits v)) [
  | inl missing ↦ ne (err-injective (rw (missing, number) at w))
  | inr (n, found) ↦ cc (rw (found, number) at w)
]

if-IsFinal :
    {A : Type 0} (b : Bool) (m m' : Result A)
    → IsFinal m
    → IsFinal m'
    → IsFinal (if b then m else m')
if-IsFinal true m m' h h' = h
if-IsFinal false m m' h h' = h'

order_id-IsFinal : (v : List ℕ) → IsFinal (order_id v)
unfolding order_id
order_id-IsFinal v =
    bind-IsFinal (number 64 v bad_field_value) _ (number-IsFinal 64 v bad_field_value (λ e. cc))
      λ n.
        bind-IsFinal (require (not (n == 0) && not (n == all_ones)) bad_field_value) _
          (require-IsFinal _ bad_field_value (λ e. cc)) λ u. ok-IsFinal n

side_value-IsFinal : (v : List ℕ) → IsFinal (side_value v)
unfolding side_value
side_value-IsFinal v =
    if-IsFinal (same v (text b'1')) _ _ (ok-IsFinal _)
      (if-IsFinal (same v (text b'2')) _ _ (ok-IsFinal ask) (err-IsFinal bad_field_value (λ e. cc)))

tif_value-IsFinal : (v : List ℕ) → IsFinal (tif_value v)
unfolding tif_value
tif_value-IsFinal v = if-IsFinal (same v (text b'0') || same v (text b'1')) _ _ (ok-IsFinal gtc) (
    if-IsFinal (same v (text b'3')) _ _ (ok-IsFinal ioc) (
      if-IsFinal (same v (text b'4')) _ _ (ok-IsFinal fok) (err-IsFinal bad_field_value (λ e. cc))))

-- A step whose result is stored.
stored-IsFinal :
    {A B : Type 0} (m : Result A) (f : A → B) → IsFinal m → IsFinal (m >>= λ a. ok (f a))
stored-IsFinal m f h = bind-IsFinal m (λ a. ok (f a)) h (λ a. ok-IsFinal (f a))

apply_field-IsFinal : (f : Field) (s : Fields) → IsFinal (apply_field f s)
unfolding apply_field
apply_field-IsFinal f s =
    if-IsFinal (f.tag == 1) _ _
      (stored-IsFinal (number 32 f.value bad_field_value) (λ n. record s { account_id = n })
        (digits 32))
      (if-IsFinal (f.tag == 11) _ _
        (stored-IsFinal (order_id f.value) (λ n. record s { clordid = n; has_clordid = true })
          (order_id-IsFinal f.value))
        (if-IsFinal (f.tag == 41) _ _
          (stored-IsFinal (order_id f.value) (λ n. record s { orig_id = n; has_orig = true })
            (order_id-IsFinal f.value))
          (if-IsFinal (f.tag == 38) _ _
            (stored-IsFinal (number 64 f.value bad_field_value)
              (λ n. record s { qty = n; has_qty = true }) (digits 64))
            (if-IsFinal (f.tag == 44) _ _
              (stored-IsFinal (number 32 f.value bad_field_value)
                (λ n. record s { px = n; has_px = true }) (digits 32))
              (if-IsFinal (f.tag == 54) _ _
                (stored-IsFinal (side_value f.value) (λ sd. record s { sd = sd; has_side = true })
                  (side_value-IsFinal f.value))
                (if-IsFinal (f.tag == 59) _ _
                  (stored-IsFinal (tif_value f.value) (λ tf. record s { tf = tf })
                    (tif_value-IsFinal f.value))
                  (ok-IsFinal s)))))))
  where
    digits : (bits : ℕ) → IsFinal (number bits f.value bad_field_value)
    digits bits = number-IsFinal bits f.value bad_field_value (λ e. cc)

body_field-IsFinal : (body : List ℕ) (pos : ℕ) → IsFinal (body_field body pos)
unfolding body_field
body_field-IsFinal body pos = by_scan (read_field body pos)
  where
    by_scan :
        (r : Scan)
        → IsFinal (elim r as (λ x. Result (Field × ℕ)) [
          | need_more ↦ err malformed
          | bad ↦ err malformed
          | scanned f next ↦ ok (f, next)
        ])
    by_scan need_more e = cc
    by_scan bad e = cc
    by_scan (scanned f next) e = cc

read_fields-IsFinal :
    (fuel : ℕ) (body : List ℕ) (pos : ℕ) (s : Fields) → IsFinal (read_fields fuel body pos s)
unfolding read_fields
read_fields-IsFinal zero body pos s = ok-IsFinal (s, pos)
read_fields-IsFinal (suc fuel) body pos s = elim (Bool-cases (ltb pos (length body))) [
  | inr stop ↦ rw (stop, read_fields) (ok-IsFinal (s, pos))
  | inl go ↦
      rw (go, read_fields)
        (bind-IsFinal (body_field body pos) _ (body_field-IsFinal body pos) λ f.
          bind-IsFinal (apply_field f.0 s) _ (apply_field-IsFinal f.0 s)
            λ t. read_fields-IsFinal fuel body f.1 t)
]

-- A command that is given once its fields are there.
given-IsFinal : {A : Type 0} (b : Bool) (a : A) → IsFinal (require b missing_field >>= λ u. ok a)
given-IsFinal b a =
    stored-IsFinal (require b missing_field) (λ u. a) (require-IsFinal b missing_field (λ e. cc))

make_command-IsFinal : (t : List ℕ) (s : Fields) → IsFinal (make_command t s)
unfolding make_command
make_command-IsFinal t s = elim (Bool-cases (same t (text b'D'))) [
  | inl d ↦ rw d (given-IsFinal (s.has_clordid && s.has_side && s.has_qty && s.has_px) _)
  | inr not_d ↦ elim (Bool-cases (same t (text b'F'))) [
    | inl f ↦ rw (not_d, f) (given-IsFinal s.has_orig _)
    | inr not_f ↦ elim (Bool-cases (same t (text b'G'))) [
      | inl g ↦
          rw (not_d, not_f, g)
            (given-IsFinal (s.has_clordid && s.has_orig && s.has_qty && s.has_px) _)
      | inr not_g ↦ rw (not_d, not_f, not_g) (err-IsFinal unsupported_msg_type (λ e. cc))
    ]
  ]
]

parse_body-IsFinal : (body : List ℕ) (start : ℕ) → IsFinal (parse_body body start)
unfolding parse_body read_msg_type
parse_body-IsFinal body start =
    bind-IsFinal (read_msg_type body start) _
      (bind-IsFinal (body_field body start) _ (body_field-IsFinal body start) λ f.
        bind-IsFinal (require (f.0.tag == 35) malformed) _ (require-IsFinal _ malformed (λ e. cc))
          λ u. ok-IsFinal (f.0.value, f.1))
      λ t.
        bind-IsFinal (read_fields (length body) body t.1 no_fields) _
          (read_fields-IsFinal (length body) body t.1 no_fields) λ s. make_command-IsFinal t.0 s.0

check_checksum-IsFinal : (buf : List ℕ) (cs_start : ℕ) → IsFinal (check_checksum buf cs_start)
unfolding check_checksum
check_checksum-IsFinal buf cs_start =
    bind-IsFinal
      (require
        (same (substr buf cs_start 3) checksum_tag
          && same (byte_at buf (cs_start + 7 - 1)) (text soh))
        malformed)
      _ (require-IsFinal _ malformed (λ e. cc))
      λ u.
        bind-IsFinal (number 32 (substr buf (cs_start + 3) 3) malformed) _
          (number-IsFinal 32 (substr buf (cs_start + 3) 3) malformed (λ e. cc))
          λ stated. require-IsFinal _ bad_checksum (λ e. cc)

-- A body length that was accepted is within the bound.
body_length_bounded :
    (buf : List ℕ) (pos : ℕ) (len : ℕ × ℕ)
    → read_body_length buf pos ≡ ok len
    → len.0 ≤ max_message_size
unfolding read_body_length
body_length_bounded buf pos len h =
    let (f, read, h') = bind-ok (header_field buf pos Tag.body_length) _ h in
    let (n, counted, h'') = bind-ok (number 64 f.0 bad_body_length) _ h' in
    let (u, small, last) = bind-ok (require (leb n max_message_size) bad_body_length) _ h'' in
    let at : n ≡ len.0 = ap (λ x. x.0) (ok-injective last) in
    rw (← at) (leb-true n max_message_size (require-ok _ _ small))

frame_end-IsFinal :
    (buf : List ℕ) (len : ℕ × ℕ)
    → len.0 ≤ max_message_size
    → len.1 + max_message_size + 7 ≤ length buf
    → IsFinal (frame_end buf len)
unfolding frame_end
frame_end-IsFinal buf (body_len, body_start) small long =
    let first : leb body_len (length buf) ≡ true = ground (arith, small, long) in
    let second : leb (body_start + body_len + 7) (length buf) ≡ true =
      ground (arith, small, long) in
    rw (first, second) (ok-IsFinal (body_start + body_len))

-- A buffer that holds a header with a legal body length, and room for the longest body and the
-- CheckSum field behind it, is decided: parse does not ask for more bytes.
pub parse_decides :
    (buf : List ℕ) (pos : ℕ) (len : ℕ × ℕ)
    → read_begin_string buf ≡ ok pos
    → read_body_length buf pos ≡ ok len
    → len.1 + max_message_size + checksum_field_width ≤ length buf
    → parse buf ≢ err incomplete
unfolding parse
parse_decides buf pos len begun measured long =
    rw (begun, measured, parse)
      (bind-IsFinal (frame_end buf len) _
        (frame_end-IsFinal buf len (body_length_bounded buf pos len measured) long)
        λ cs_start.
          bind-IsFinal (check_checksum buf cs_start) _ (check_checksum-IsFinal buf cs_start) λ u.
            bind-IsFinal (parse_body (take cs_start buf) len.1) _
              (parse_body-IsFinal (take cs_start buf) len.1) λ k. ok-IsFinal (k, cs_start + 7))
