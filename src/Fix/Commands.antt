-- ===== src/Fix/Commands.antt =====
-- include/lob/fix_parser.hpp: `parse` on a whole command printed as a FIX 4.4 message.
use orderbooks.Prelude.{
  ◌==◌, ℕ, ◌^◌, ◌<◌, ◌≤◌, ◌≡◌, refl, ◌∙◌, true, ◌&&◌, not, List, [], ◌∷◌, ◌++◌, length, arith, ltb,
  if◌then◌else◌,
}
use orderbooks.Types.{Side, bid, ask, Tif, gtc, ioc, fok, empty_handle}
use orderbooks.Messages.{Command, submit, cancel, modify}
use orderbooks.Prelude.Word.{all_ones}
use orderbooks.Fix.{ok, ◌>>=◌, bad_field_value}
use orderbooks.Fix.Parse.{
  Fields, no_fields, order_id, side_value, tif_value, apply_field, make_command, parse, text,
}
use orderbooks.Fix.Ids.{IsOrderId, IsValidCommand}
use orderbooks.Fix.RoundTrip.{
  print_digits, is_value, print_field, IsPrintable, number-print, is_value-print_digits,
}
use orderbooks.Fix.Messages.{Printed, print_fields, ArePrintable, apply_all}
use orderbooks.Fix.Layout.{print_message, IsMessage, meaning, body_text}
use orderbooks.Fix.Printing.{parse-print_message}

abbrev pub side_code : Side → ℕ
side_code bid = b'1'
side_code ask = b'2'

abbrev pub tif_code : Tif → ℕ
tif_code gtc = b'1'
tif_code ioc = b'3'
tif_code fok = b'4'

-- A field, its tag without leading zeros, and a number in the decimals that its type may need.
abbrev pub printed : ℕ → List ℕ → Printed
printed tag v = record {
  width = if ltb tag 10 then 1 else 2;
  field = record { tag = tag; value = v };
}

abbrev pub print_u64 : ℕ → List ℕ
print_u64 n = print_digits 20 n

abbrev pub print_u32 : ℕ → List ℕ
print_u32 n = print_digits 10 n

unfoldable pub command_fields : Command → List Printed
command_fields (submit m) =
    printed 11 (print_u64 m.id)
    ∷ printed 54 (text (side_code m.s))
    ∷ printed 38 (print_u64 m.qty)
    ∷ printed 44 (print_u32 m.px)
    ∷ printed 59 (text (tif_code m.t))
    ∷ printed 1 (print_u32 m.account_id)
    ∷ []
command_fields (cancel m) = printed 41 (print_u64 m.id) ∷ []
command_fields (modify m) =
    printed 11 (print_u64 m.new_id)
    ∷ printed 41 (print_u64 m.id)
    ∷ printed 38 (print_u64 m.new_qty)
    ∷ printed 44 (print_u32 m.new_px)
    ∷ []

abbrev pub command_type : Command → List ℕ
command_type (submit m) = text b'D'
command_type (cancel m) = text b'F'
command_type (modify m) = text b'G'

unfoldable pub print_command : Command → List ℕ
print_command k = print_message 3 (command_type k) (command_fields k)

-- FIX carries no order handle.
abbrev pub without_handle : Command → Command
without_handle (submit m) = submit m
without_handle (cancel m) = cancel (record m { handle = empty_handle })
without_handle (modify m) = modify (record m { handle = empty_handle })

order_id-print : (n : ℕ) → IsOrderId n → order_id (print_u64 n) ≡ ok n
unfolding order_id
order_id-print n v =
    let stated =
      number-print 64 20 n bad_field_value (omega arith) (omega (arith, v.below))
        (omega (arith, v.below)) in
    let allowed : (not (n == 0) && not (n == all_ones)) ≡ true = ground (arith, v.named, v.below) in
    rw (order_id, stated, ◌>>=◌, allowed) refl

module _ (s : Fields) where
  take_cl_ord_id :
      (n : ℕ)
      → IsOrderId n
      → apply_field (record { tag = 11; value = print_u64 n }) s
        ≡ ok (record s { clordid = n; has_clordid = true })
  unfolding apply_field
  take_cl_ord_id n v = rw (apply_field, order_id-print n v) refl

  take_orig_cl_ord_id :
      (n : ℕ)
      → IsOrderId n
      → apply_field (record { tag = 41; value = print_u64 n }) s
        ≡ ok (record s { orig_id = n; has_orig = true })
  unfolding apply_field
  take_orig_cl_ord_id n v = rw (apply_field, order_id-print n v) refl

  take_order_qty :
      (n : ℕ)
      → n < 2 ^ 64
      → apply_field (record { tag = 38; value = print_u64 n }) s
        ≡ ok (record s { qty = n; has_qty = true })
  unfolding apply_field
  take_order_qty n lt =
      rw (apply_field, number-print 64 20 n bad_field_value (omega arith) (omega arith) lt) refl

  take_price :
      (n : ℕ)
      → n < 2 ^ 32
      → apply_field (record { tag = 44; value = print_u32 n }) s
        ≡ ok (record s { px = n; has_px = true })
  unfolding apply_field
  take_price n lt =
      rw (apply_field, number-print 32 10 n bad_field_value (omega arith) (omega arith) lt) refl

  take_account :
      (n : ℕ)
      → n < 2 ^ 32
      → apply_field (record { tag = 1; value = print_u32 n }) s ≡ ok (record s { account_id = n })
  unfolding apply_field
  take_account n lt =
      rw (apply_field, number-print 32 10 n bad_field_value (omega arith) (omega arith) lt) refl

  take_side :
      (sd : Side)
      → apply_field (record { tag = 54; value = text (side_code sd) }) s
        ≡ ok (record s { sd = sd; has_side = true })
  unfolding apply_field side_value
  take_side bid = refl
  take_side ask = refl

  take_tif :
      (tf : Tif)
      → apply_field (record { tag = 59; value = text (tif_code tf) }) s ≡ ok (record s { tf = tf })
  unfolding apply_field tif_value
  take_tif gtc = refl
  take_tif ioc = refl
  take_tif fok = refl

-- The fields of a command ask for that command.
meaning-command :
    (k : Command)
    → IsValidCommand k
    → meaning (command_type k) (command_fields k) ≡ ok (without_handle k)
unfolding meaning command_fields apply_all make_command
meaning-command (submit m) (id, px, qty, account) =
    rw
      (
        take_cl_ord_id no_fields m.id id,
        ◌>>=◌,
        take_side _ m.s,
        ◌>>=◌,
        take_order_qty _ m.qty qty,
        ◌>>=◌,
        take_price _ m.px px,
        ◌>>=◌,
        take_tif _ m.t,
        ◌>>=◌,
        take_account _ m.account_id account,
      )
      refl
meaning-command (cancel m) id = rw (take_orig_cl_ord_id no_fields m.id id) refl
meaning-command (modify m) (id, new_id, px, qty) =
    rw
      (
        meaning,
        take_cl_ord_id no_fields m.new_id new_id,
        ◌>>=◌,
        take_orig_cl_ord_id _ m.id id,
        ◌>>=◌,
        take_order_qty _ m.new_qty qty,
        ◌>>=◌,
        take_price _ m.new_px px,
      )
      refl

field-IsPrintable :
    (tag : ℕ) (v : List ℕ)
    → tag < 100
    → is_value v ≡ true
    → IsPrintable (if ltb tag 10 then 1 else 2) (record { tag = tag; value = v })
field-IsPrintable tag v lt e = record {
  wide = ground arith;
  narrow = ground arith;
  tag_fits = ground arith;
  value_fits = e;
}

number_field-IsPrintable :
    (tag w n : ℕ)
    → tag < 100
    → IsPrintable (if ltb tag 10 then 1 else 2) (record { tag = tag; value = print_digits w n })
number_field-IsPrintable tag w n lt =
    field-IsPrintable tag (print_digits w n) lt (is_value-print_digits w n)

is_value-side_code : (s : Side) → is_value (text (side_code s)) ≡ true
unfolding is_value
is_value-side_code bid = refl
is_value-side_code ask = refl

is_value-tif_code : (t : Tif) → is_value (text (tif_code t)) ≡ true
unfolding is_value
is_value-tif_code gtc = refl
is_value-tif_code ioc = refl
is_value-tif_code fok = refl

command_fields-ArePrintable : (k : Command) → ArePrintable (command_fields k)
unfolding command_fields
command_fields-ArePrintable (submit m) =
    let side = field-IsPrintable 54 (text (side_code m.s)) (omega arith) (is_value-side_code m.s) in
    let tif = field-IsPrintable 59 (text (tif_code m.t)) (omega arith) (is_value-tif_code m.t) in
    let account = number_field-IsPrintable 1 10 m.account_id (omega arith) in
    let px = number_field-IsPrintable 44 10 m.px (omega arith) in
    let qty = number_field-IsPrintable 38 20 m.qty (omega arith) in
    (number_field-IsPrintable 11 20 m.id (omega arith), (side, (qty, (px, (tif, (account, tt))))))
command_fields-ArePrintable (cancel m) = (number_field-IsPrintable 41 20 m.id (omega arith), tt)
command_fields-ArePrintable (modify m) =
    let orig = number_field-IsPrintable 41 20 m.id (omega arith) in
    let px = number_field-IsPrintable 44 10 m.new_px (omega arith) in
    let qty = number_field-IsPrintable 38 20 m.new_qty (omega arith) in
    (number_field-IsPrintable 11 20 m.new_id (omega arith), (orig, (qty, (px, tt))))

command_size : (k : Command) → length (body_text (command_type k) (command_fields k)) ≤ 91
unfolding command_fields print_fields print_field print_digits
command_size (submit m) = omega arith
command_size (cancel m) = omega arith
command_size (modify m) = omega arith

is_value-command_type : (k : Command) → is_value (command_type k) ≡ true
unfolding is_value
is_value-command_type (submit m) = refl
is_value-command_type (cancel m) = refl
is_value-command_type (modify m) = refl

command-IsMessage : (k : Command) → IsMessage 3 (command_type k) (command_fields k)
command-IsMessage k = record {
  kind_fits = is_value-command_type k;
  fields_fit = command_fields-ArePrintable k;
  size_fits = omega (arith, command_size k);
  some_digit = omega arith;
  digits_fit = omega (arith, command_size k);
}

-- A command whose ids are order ids and whose numbers fit their types, printed as a FIX 4.4
-- message, is parsed back, with the empty handle, and exactly its message is consumed, whatever
-- bytes follow.
pub parse-print_command :
    (k : Command) (more : List ℕ)
    → IsValidCommand k
    → parse (print_command k ++ more) ≡ ok (without_handle k, length (print_command k))
unfolding print_command
parse-print_command k more v =
    parse-print_message 3 (command_type k) (command_fields k) more (command-IsMessage k)
    ∙ (rw (meaning-command k v) refl)
