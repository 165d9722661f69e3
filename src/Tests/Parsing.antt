-- ===== src/Tests/Parsing.antt =====
-- Runs of the FIX parser at a cancel request.
use orderbooks.Fix.Results.{Agrees}
use orderbooks.Fix.Ids.{parse-IsValid, IsValidCommand}
use orderbooks.Fix.Framing.{parse-IsFramed, IsFramed}
use orderbooks.Fix.Waiting.{parse_decides}
use orderbooks.Fix.Bounds.{read_fields_at_end}
use orderbooks.Prelude.{
  true, ◌∙◌, ℕ, arith, ◌≡◌, ◌≢◌, refl, [], ◌∷◌, ◌++◌, List, suc, zero, length, length-append, inl,
  inr, ap,
}
use orderbooks.Prelude.Bytes.{take}
use orderbooks.Types.{empty_handle}
use orderbooks.Messages.{cancel}
use orderbooks.Fix.{to_uint, read_field, Result, soh, ok, err, incomplete}
use orderbooks.Fix.Parse.{
  make_command, read_msg_type, parse_body, check_checksum, apply_field, frame_end, no_fields,
  read_body_length, read_begin_string, Fields, read_fields, parse,
}
use orderbooks.Fix.Streaming.{read_body_length-Agrees, read_begin_string-Agrees, parse_is_final}

-- BeginString, BodyLength, MsgType, OrigClOrdID and CheckSum.
abbrev request : List ℕ
request =
    b'8' ∷ b'=' ∷ b'F' ∷ b'I' ∷ b'X' ∷ b'.' ∷ b'4' ∷ b'.' ∷ b'4' ∷ soh ∷ b'9' ∷ b'=' ∷ b'1' ∷ b'0'
    ∷ soh ∷ b'3' ∷ b'5' ∷ b'=' ∷ b'F' ∷ soh ∷ b'4' ∷ b'1' ∷ b'=' ∷ b'7' ∷ soh ∷ b'1' ∷ b'0' ∷ b'='
    ∷ b'1' ∷ b'9' ∷ b'1' ∷ soh ∷ []

request_lem : parse request ≡ ok (cancel (record { id = 7; handle = empty_handle }), 32)
unfolding parse read_begin_string read_body_length frame_end check_checksum parse_body read_field
    to_uint read_msg_type read_fields apply_field make_command
request_lem = refl

parse-IsFramed_example : IsFramed request 32
parse-IsFramed_example =
    parse-IsFramed request (cancel (record { id = 7; handle = empty_handle })) 32 request_lem

parse-IsValid_example : IsValidCommand (cancel (record { id = 7; handle = empty_handle }))
parse-IsValid_example =
    parse-IsValid request (cancel (record { id = 7; handle = empty_handle })) 32 request_lem

request_ready : parse request ≢ err incomplete
request_ready w = cc (request_lem, w)

-- The first byte of the next message is behind it.
parse_is_final_example : parse (request ++ (b'8' ∷ [])) ≡ parse request
parse_is_final_example = parse_is_final request (b'8' ∷ []) request_ready

abbrev request_body : List ℕ
request_body = take 25 request

abbrev request_fields : Fields
request_fields = record no_fields { orig_id = 7; has_orig = true }

request_fields_lem : read_fields 25 request_body 20 no_fields ≡ ok (request_fields, 25)
unfolding read_fields read_field apply_field to_uint
request_fields_lem = refl

read_fields_at_end_example : 25 ≡ length request_body
read_fields_at_end_example =
    read_fields_at_end 25 request_body 20 no_fields request_fields 25 (omega arith) (omega arith)
      request_fields_lem

-- Zero bytes up to the longest body.
zeros : ℕ → List ℕ
zeros zero = []
zeros (suc n) = 0 ∷ zeros n

length-zeros : (n : ℕ) → length (zeros n) ≡ n
unfolding zeros
length-zeros zero = refl
length-zeros (suc n) = ap suc (length-zeros n)

settled : {A : Type 0} {m m' : Result A} {a : A} → Agrees m m' → m ≡ ok a → m' ≡ ok a
settled (inl e) h = absurd (cc (e, h))
settled (inr e) h = e ∙ h

begun : read_begin_string (request ++ zeros 4096) ≡ ok 10
unfolding read_begin_string read_field
begun = settled (read_begin_string-Agrees request (zeros 4096)) refl

measured : read_body_length (request ++ zeros 4096) 10 ≡ ok (10, 15)
unfolding read_body_length read_field to_uint
measured = settled (read_body_length-Agrees request (zeros 4096) 10) refl

parse_decides_example : parse (request ++ zeros 4096) ≢ err incomplete
parse_decides_example =
    parse_decides (request ++ zeros 4096) 10 (10, 15) begun measured
      (omega (arith, length-append request (zeros 4096), length-zeros 4096))
