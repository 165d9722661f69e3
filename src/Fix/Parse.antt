-- ===== src/Fix/Parse.antt =====
-- include/lob/fix_parser.hpp: `parse`, in the order of its code. Each early return is an `err`; the
-- command and the byte count of a result that is not ok keep their initial values and are left out.
use orderbooks.Prelude.{
  ℕ, zero, suc, ◌+◌, ◌-◌, ◌%◌, ◌^◌, Bool, true, false, ◌==◌, ◌&&◌, ◌||◌, not, ltb, leb, List, [],
  ◌∷◌, if◌then◌else◌, length,
}
use orderbooks.Prelude.Word.{all_ones}
use orderbooks.Prelude.Bytes.{take, substr, byte_at, same}
use orderbooks.Types.{Side, bid, ask, Tif, gtc, ioc, fok, empty_handle}
use orderbooks.Messages.{Command, submit, cancel, modify}
use orderbooks.Fix.{
  incomplete, malformed, bad_begin_string, bad_body_length, bad_checksum, unsupported_msg_type,
  missing_field, bad_field_value, Result, ok, err, ◌>>=◌, require, Tag, tag_number,
  max_message_size, soh, Field, scanned, need_more, bad, read_field, number,
}

-- "FIX.4.4", "10=" and SOH.
abbrev pub fix_4_4 : List ℕ
fix_4_4 = b'F' ∷ b'I' ∷ b'X' ∷ b'.' ∷ b'4' ∷ b'.' ∷ b'4' ∷ []

abbrev pub checksum_tag : List ℕ
checksum_tag = b'1' ∷ b'0' ∷ b'=' ∷ []

abbrev pub checksum_digits : ℕ
checksum_digits = 3

abbrev pub checksum_field_width : ℕ
checksum_field_width = 7

abbrev pub text : ℕ → List ℕ
text ch = ch ∷ []

-- One field of the header, which must have the tag.
unfoldable pub header_field : List ℕ → ℕ → Tag → Result (List ℕ × ℕ)
header_field buf pos t = elim (read_field buf pos) [
  | need_more ↦ err incomplete
  | bad ↦ err malformed
  | scanned f next ↦ if f.tag == tag_number t then ok (f.value, next) else err malformed
]

-- BeginString(8): the position behind it.
unfoldable pub read_begin_string : List ℕ → Result ℕ
unfolding header_field
read_begin_string buf = do
  f ← header_field buf 0 Tag.begin_string
  _ ← require (same f.0 fix_4_4) bad_begin_string
  ok f.1

-- BodyLength(9): the length and the position behind it.
unfoldable pub read_body_length : List ℕ → ℕ → Result (ℕ × ℕ)
unfolding header_field
read_body_length buf pos = do
  f ← header_field buf pos Tag.body_length
  n ← number 64 f.0 bad_body_length
  _ ← require (leb n max_message_size) bad_body_length
  ok (n, f.1)

-- Where the CheckSum field of the frame starts: the body and that field are in the buffer.
unfoldable pub frame_end : List ℕ → ℕ × ℕ → Result ℕ
frame_end buf (body_len, body_start) = do
  _ ← require (leb body_len (length buf)) incomplete
  _ ← require (leb (body_start + body_len + checksum_field_width) (length buf)) incomplete
  ok (body_start + body_len)

-- `sum += static_cast<unsigned char>(buf[i])`
unfoldable pub sum_bytes : ℕ → List ℕ → ℕ
sum_bytes acc [] = acc
sum_bytes acc (b ∷ bs) = sum_bytes ((acc + b) % 2 ^ 32) bs

-- CheckSum(10).
unfoldable pub check_checksum : List ℕ → ℕ → Result Unit
unfolding sum_bytes
check_checksum buf cs_start = do
  _ ←
      require
        (same (substr buf cs_start 3) checksum_tag
          && same (byte_at buf (cs_start + checksum_field_width - 1)) (text soh))
        malformed
  stated ← number 32 (substr buf (cs_start + 3) checksum_digits) malformed
  require (sum_bytes 0 (take cs_start buf) % 2 ^ 8 == stated) bad_checksum

-- A field of the body, which must be whole.
unfoldable pub body_field : List ℕ → ℕ → Result (Field × ℕ)
body_field body pos = elim (read_field body pos) [
  | need_more ↦ err malformed
  | bad ↦ err malformed
  | scanned f next ↦ ok (f, next)
]

-- MsgType(35) leads the body.
unfoldable pub read_msg_type : List ℕ → ℕ → Result (List ℕ × ℕ)
unfolding body_field
read_msg_type body pos = do
  f ← body_field body pos
  _ ← require (f.0.tag == tag_number Tag.msg_type) malformed
  ok (f.0.value, f.1)

-- The locals that the loop over the body fills in.
pub record Fields : Type 0 where
  pub clordid : ℕ
  pub orig_id : ℕ
  pub qty : ℕ
  pub px : ℕ
  pub sd : Side
  pub tf : Tif
  pub account_id : ℕ
  pub has_clordid : Bool
  pub has_orig : Bool
  pub has_qty : Bool
  pub has_px : Bool
  pub has_side : Bool

abbrev pub no_fields : Fields
no_fields = record {
  clordid = 0;
  orig_id = 0;
  qty = 0;
  px = 0;
  sd = bid;
  tf = gtc;
  account_id = 0;
  has_clordid = false;
  has_orig = false;
  has_qty = false;
  has_px = false;
  has_side = false;
}

-- An order id, which is neither reserved value.
unfoldable pub order_id : List ℕ → Result ℕ
order_id v = do
  n ← number 64 v bad_field_value
  _ ← require (not (n == 0) && not (n == all_ones)) bad_field_value
  ok n

unfoldable pub side_value : List ℕ → Result Side
side_value v =
    if same v (text b'1')
    then ok bid
    else if same v (text b'2')
    then ok ask
    else err bad_field_value

unfoldable pub tif_value : List ℕ → Result Tif
tif_value v =
    if same v (text b'0') || same v (text b'1')
    then ok gtc
    else if same v (text b'3')
    then ok ioc
    else if same v (text b'4')
    then ok fok
    else err bad_field_value

-- The `switch` on the tag.
unfoldable pub apply_field : Field → Fields → Result Fields
unfolding order_id side_value tif_value
apply_field f s =
    if f.tag == tag_number Tag.account
    then (do n ← number 32 f.value bad_field_value; ok (record s { account_id = n }))
    else if f.tag == tag_number Tag.cl_ord_id
    then (do n ← order_id f.value; ok (record s { clordid = n; has_clordid = true }))
    else if f.tag == tag_number Tag.orig_cl_ord_id
    then (do n ← order_id f.value; ok (record s { orig_id = n; has_orig = true }))
    else if f.tag == tag_number Tag.order_qty
    then (do n ← number 64 f.value bad_field_value; ok (record s { qty = n; has_qty = true }))
    else if f.tag == tag_number Tag.price
    then (do n ← number 32 f.value bad_field_value; ok (record s { px = n; has_px = true }))
    else if f.tag == tag_number Tag.side
    then (do sd ← side_value f.value; ok (record s { sd = sd; has_side = true }))
    else if f.tag == tag_number Tag.time_in_force
    then (do tf ← tif_value f.value; ok (record s { tf = tf }))
    else ok s

-- The loop over the body's fields, which ends with the fields and the position it stopped at.
unfoldable pub read_fields : ℕ → List ℕ → ℕ → Fields → Result (Fields × ℕ)
unfolding body_field apply_field
read_fields zero body pos s = ok (s, pos)
read_fields (suc fuel) body pos s = elim (ltb pos (length body)) [
  | false ↦ ok (s, pos)
  | true ↦ do f ← body_field body pos; s' ← apply_field f.0 s; read_fields fuel body f.1 s'
]

-- The command that the message type asks for.
unfoldable pub make_command : List ℕ → Fields → Result Command
make_command msg_type s =
    if same msg_type (text b'D')
    then (do
      _ ← require (s.has_clordid && s.has_side && s.has_qty && s.has_px) missing_field
      ok (
          submit (record {
            id = s.clordid;
            px = s.px;
            qty = s.qty;
            s = s.sd;
            t = s.tf;
            account_id = s.account_id;
          })))
    else if same msg_type (text b'F')
    then (do
      _ ← require s.has_orig missing_field
      ok (cancel (record { id = s.orig_id; handle = empty_handle })))
    else if same msg_type (text b'G')
    then (do
      _ ← require (s.has_clordid && s.has_orig && s.has_qty && s.has_px) missing_field
      ok (
          modify (record {
            id = s.orig_id;
            new_px = s.px;
            new_qty = s.qty;
            new_id = s.clordid;
            handle = empty_handle;
          })))
    else err unsupported_msg_type

-- The command of a body whose frame is known. Each round of the loop reads at least one byte.
unfoldable pub parse_body : List ℕ → ℕ → Result Command
unfolding read_msg_type read_fields make_command
parse_body body body_start = do
  t ← read_msg_type body body_start
  s ← read_fields (length body) body t.1 no_fields
  make_command t.0 s.0

-- The command and the number of bytes consumed.
unfoldable pub parse : List ℕ → Result (Command × ℕ)
unfolding read_begin_string read_body_length frame_end check_checksum parse_body
parse buf = do
  pos ← read_begin_string buf
  n ← read_body_length buf pos
  cs_start ← frame_end buf n
  _ ← check_checksum buf cs_start
  k ← parse_body (take cs_start buf) n.1
  ok (k, cs_start + checksum_field_width)
