-- ===== src/Fix/Printing.antt =====
-- include/lob/fix_parser.hpp: `parse` reads back a message printed as FIX 4.4 lays it out.
use orderbooks.Prelude.{
  ◌==◌, ℕ, ◌+◌, ◌-◌, ◌^◌, ◌%◌, ◌<◌, ◌≤◌, ◌≡◌, refl, ap, ◌∙◌, sym, true, leb, List, [], ◌++◌, length,
  append_assoc, length-append, arith,
}
use orderbooks.Prelude.Bytes.{take, substr, byte_at, drop-length, drop-length-add, take-length}
use orderbooks.Fix.{bad_body_length, malformed, ok, ◌>>=◌, Tag, soh, max_message_size}
use orderbooks.Fix.Parse.{
  read_fields, read_begin_string, read_body_length, frame_end, sum_bytes, check_checksum,
  read_msg_type, parse_body, parse, make_command, no_fields, fix_4_4, checksum_tag,
  checksum_field_width, checksum_digits, text,
}
use orderbooks.Fix.Framing.{total, sum_bytes-total}
use orderbooks.Fix.RoundTrip.{
  print_digits, print_field, number-print, is_value, is_value-print_digits,
}
use orderbooks.Fix.Messages.{
  Printed, print_fields, ArePrintable, apply_all, header_field-print, body_field-print,
  read_fields-print, length-print_fields, bind_assoc,
}
use orderbooks.Fix.Layout.{
  begin_string, length_text, type_text, body_text, header_text, frame_text, checksum_text,
  print_message, IsMessage, meaning,
}

read_begin_string-print :
    (rest : List ℕ) → read_begin_string (begin_string ++ rest) ≡ ok (length begin_string)
unfolding read_begin_string is_value print_field print_digits
read_begin_string-print rest =
    let field = header_field-print [] rest 1 Tag.begin_string fix_4_4 (record {
      wide = omega arith;
      narrow = omega arith;
      tag_fits = omega arith;
      value_fits = refl;
    }) in
    rw (read_begin_string, field) refl

read_body_length-print :
    (rest : List ℕ) (wl n : ℕ)
    → 1 ≤ wl
    → n < 10 ^ wl
    → n ≤ max_message_size
    → read_body_length (begin_string ++ (length_text wl n ++ rest)) (length begin_string)
      ≡ ok (n, length (header_text wl n))
unfolding read_body_length
read_body_length-print rest wl n some_digit lt le =
    let field = header_field-print begin_string rest 1 Tag.body_length (print_digits wl n) (record {
      wide = omega arith;
      narrow = omega arith;
      tag_fits = omega arith;
      value_fits = is_value-print_digits wl n;
    }) in
    let stated = number-print 64 wl n bad_body_length some_digit lt (omega arith) in
    let small : leb n max_message_size ≡ true = ground arith in
    rw
      (
        read_body_length,
        field,
        ◌>>=◌,
        stated,
        ◌>>=◌,
        small,
        length-append begin_string (length_text wl n),
      )
      refl

frame_end-print :
    (buf : List ℕ) (n start : ℕ)
    → start + n + checksum_field_width ≤ length buf
    → frame_end buf (n, start) ≡ ok (start + n)
unfolding frame_end
frame_end-print buf n start le =
    let short : leb n (length buf) ≡ true = ground arith in
    let whole : leb (start + n + checksum_field_width) (length buf) ≡ true = ground arith in
    rw (frame_end, short, whole) refl

check_checksum-print :
    (frame more : List ℕ)
    → check_checksum (frame ++ (checksum_text (total frame % 2 ^ 8) ++ more)) (length frame) ≡ ok tt
unfolding check_checksum checksum_text print_digits
check_checksum-print frame more =
    let sum = total frame % 2 ^ 8 in
    let tail = checksum_text sum ++ more in
    let buf = frame ++ tail in
    let tag : substr buf (length frame) 3 ≡ checksum_tag = ap (take 3) (drop-length frame tail) in
    let last : byte_at buf (length frame + checksum_field_width - 1) ≡ text soh =
      ap (byte_at buf) {y = length frame + 6} (omega arith)
      ∙ ap (take 1) (drop-length-add 6 frame tail) in
    let digits : substr buf (length frame + 3) checksum_digits ≡ print_digits 3 sum =
      ap (take 3) (drop-length-add 3 frame tail) in
    let stated = number-print 32 3 sum malformed (omega arith) (omega arith) (omega arith) in
    let sums : (sum_bytes 0 (take (length frame) buf) % 2 ^ 8 == sum) ≡ true =
      rw (take-length frame tail) (ground (arith, sum_bytes-total frame)) in
    rw (check_checksum, tag, last, digits, stated, ◌>>=◌, sums) refl

parse_body-print :
    (before kind : List ℕ) (xs : List Printed)
    → is_value kind ≡ true
    → ArePrintable xs
    → parse_body (before ++ body_text kind xs) (length before) ≡ meaning kind xs
unfolding parse_body read_msg_type meaning
parse_body-print before kind xs value fit =
    let body = before ++ body_text kind xs in
    let field =
      body_field-print before (print_fields xs) 2 (record { tag = 35; value = kind })
        (record {
          wide = omega arith;
          narrow = omega arith;
          tag_fits = omega arith;
          value_fits = value;
        }) in
    let room : length xs ≤ length body = omega (
      arith,
      length-append before (body_text kind xs),
      length-append (type_text kind) (print_fields xs),
      length-print_fields xs,
    ) in
    let fields : read_fields (length body) body (length before + length (type_text kind)) no_fields
        ≡ (apply_all xs no_fields >>= λ s. ok (s, length body)) =
      rw
        (
          ← append_assoc before (type_text kind) (print_fields xs),
          ← length-append before (type_text kind),
        )
        (read_fields-print _ (before ++ type_text kind) xs no_fields
          (omega (
            arith,
            room,
            length-append (before ++ type_text kind) (print_fields xs),
            length-append before (type_text kind),
            length-append before (body_text kind xs),
            length-append (type_text kind) (print_fields xs),
          ))
          fit) in
    rw (parse_body, read_msg_type, field, ◌>>=◌, fields)
      (sym (
        bind_assoc (apply_all xs no_fields) (make_command kind) (λ s. ok (s, length body))
          (λ s. make_command kind s.0) (λ s. refl)))

length-checksum_text : (sum : ℕ) → length (checksum_text sum) ≡ checksum_field_width
unfolding checksum_text print_digits
length-checksum_text sum = refl

-- The frame of a buffer is found, and the command is what its body says.
parse_steps :
    (buf : List ℕ) (pos n start cs_start : ℕ)
    → read_begin_string buf ≡ ok pos
    → read_body_length buf pos ≡ ok (n, start)
    → frame_end buf (n, start) ≡ ok cs_start
    → check_checksum buf cs_start ≡ ok tt
    → parse buf
      ≡ (parse_body (take cs_start buf) start >>= λ k. ok (k, cs_start + checksum_field_width))
unfolding parse
parse_steps buf pos n start cs_start e1 e2 e3 e4 =
    rw (parse, e1, ◌>>=◌, e2, ◌>>=◌, e3, ◌>>=◌, e4) refl

module _ (wl : ℕ) (kind : List ℕ) (xs : List Printed) (rest : List ℕ) where
  frame_text-split :
      frame_text wl kind xs ++ rest
      ≡ begin_string ++ (length_text wl (length (body_text kind xs)) ++ (body_text kind xs ++ rest))
  unfolding frame_text
  frame_text-split =
      append_assoc (header_text wl (length (body_text kind xs))) (body_text kind xs) rest
      ∙ append_assoc begin_string (length_text wl (length (body_text kind xs)))
          (body_text kind xs ++ rest)

  frame_end-frame_text :
      checksum_field_width ≤ length rest
      → frame_end
          (frame_text wl kind xs ++ rest)
          (length (body_text kind xs), length (header_text wl (length (body_text kind xs))))
        ≡ ok (length (frame_text wl kind xs))
  unfolding frame_text
  frame_end-frame_text le =
      let n = length (body_text kind xs) in
      let whole = length-append (header_text wl n) (body_text kind xs) in
      frame_end-print (frame_text wl kind xs ++ rest) n (length (header_text wl n))
        (omega (arith, whole, length-append (frame_text wl kind xs) rest))
      ∙ ap ok (sym whole)

-- A message laid out as FIX 4.4 says, of fields whose tags have at most nine digits and whose
-- values hold no delimiter, with a body that is not too long, is parsed into what its fields ask
-- for one after the other, and all of it is consumed, whatever bytes follow it.
pub parse-print_message :
    (wl : ℕ) (kind : List ℕ) (xs : List Printed) (more : List ℕ)
    → IsMessage wl kind xs
    → parse (print_message wl kind xs ++ more)
      ≡ (meaning kind xs >>= λ k. ok (k, length (print_message wl kind xs)))
unfolding print_message frame_text
parse-print_message wl kind xs more m =
    let frame = frame_text wl kind xs in
    let tail = checksum_text (total frame % 2 ^ 8) ++ more in
    let n = length (body_text kind xs) in
    let joined : (frame ++ checksum_text (total frame % 2 ^ 8)) ++ more ≡ frame ++ tail =
      append_assoc frame (checksum_text (total frame % 2 ^ 8)) more in
    let begin =
      ap read_begin_string (frame_text-split wl kind xs tail)
      ∙ read_begin_string-print (length_text wl n ++ (body_text kind xs ++ tail)) in
    let stated =
      ap (λ b. read_body_length b (length begin_string)) (frame_text-split wl kind xs tail)
      ∙ read_body_length-print (body_text kind xs ++ tail) wl n m.some_digit m.digits_fit
          m.size_fits in
    let room : checksum_field_width ≤ length tail = omega (
      arith,
      length-append (checksum_text (total frame % 2 ^ 8)) more,
      length-checksum_text (total frame % 2 ^ 8),
    ) in
    let command : parse_body (take (length frame) (frame ++ tail)) (length (header_text wl n))
        ≡ meaning kind xs =
      ap (λ b. parse_body b (length (header_text wl n))) (take-length frame tail)
      ∙ parse_body-print (header_text wl n) kind xs m.kind_fits m.fields_fit in
    let size : length frame + checksum_field_width ≡ length (print_message wl kind xs) = omega (
      arith,
      length-append frame (checksum_text (total frame % 2 ^ 8)),
      length-checksum_text (total frame % 2 ^ 8),
    ) in
    ap parse joined
    ∙ parse_steps (frame ++ tail) _ n _ (length frame) begin stated
        (frame_end-frame_text wl kind xs tail room) (check_checksum-print frame more)
    ∙ (rw (command, size) refl)
