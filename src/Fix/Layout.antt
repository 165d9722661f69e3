-- ===== src/Fix/Layout.antt =====
-- include/lob/fix_parser.hpp: how FIX 4.4 lays out the messages that `parse` reads.
use orderbooks.Prelude.{ℕ, ◌^◌, ◌%◌, ◌<◌, ◌≤◌, ◌≡◌, true, List, [], ◌∷◌, ◌++◌, length}
use orderbooks.Messages.{Command}
use orderbooks.Fix.{Result, ◌>>=◌, Tag, tag_number, soh, max_message_size}
use orderbooks.Fix.Parse.{make_command, no_fields, fix_4_4, checksum_tag}
use orderbooks.Fix.Framing.{total}
use orderbooks.Fix.RoundTrip.{print_digits, print_field, is_value}
use orderbooks.Fix.Messages.{Printed, print_fields, ArePrintable, apply_all}

abbrev pub begin_string : List ℕ
begin_string = print_field 1 (record { tag = tag_number Tag.begin_string; value = fix_4_4 })

-- The text of BodyLength(9), in `wl` digits.
abbrev pub length_text : ℕ → ℕ → List ℕ
length_text wl n =
    print_field 1 (record { tag = tag_number Tag.body_length; value = print_digits wl n })

abbrev pub type_text : List ℕ → List ℕ
type_text kind = print_field 2 (record { tag = tag_number Tag.msg_type; value = kind })

abbrev pub body_text : List ℕ → List Printed → List ℕ
body_text kind xs = type_text kind ++ print_fields xs

abbrev pub header_text : ℕ → ℕ → List ℕ
header_text wl n = begin_string ++ length_text wl n

unfoldable pub frame_text : ℕ → List ℕ → List Printed → List ℕ
frame_text wl kind xs = header_text wl (length (body_text kind xs)) ++ body_text kind xs

unfoldable pub checksum_text : ℕ → List ℕ
checksum_text sum = checksum_tag ++ (print_digits 3 sum ++ (soh ∷ []))

-- The message: header, body, and the sum of the bytes before the last field modulo 256.
unfoldable pub print_message : ℕ → List ℕ → List Printed → List ℕ
print_message wl kind xs =
    frame_text wl kind xs ++ checksum_text (total (frame_text wl kind xs) % 2 ^ 8)

-- What a sender may print as a whole message.
pub record IsMessage (wl : ℕ) (kind : List ℕ) (xs : List Printed) : Type 0 where
  pub kind_fits : is_value kind ≡ true
  pub fields_fit : ArePrintable xs
  pub size_fits : length (body_text kind xs) ≤ max_message_size
  pub some_digit : 1 ≤ wl
  pub digits_fit : length (body_text kind xs) < 10 ^ wl

-- What the fields of a message ask for.
unfoldable pub meaning : List ℕ → List Printed → Result Command
meaning kind xs = apply_all xs no_fields >>= make_command kind
