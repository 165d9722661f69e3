-- ===== src/Fix.antt =====
-- include/lob/fix_parser.hpp: the results and the tags of the FIX 4.4 parser, and `detail::read_field`
-- and `detail::to_uint`. A buffer is the list of its bytes. Each loop walks the bytes from its position
-- on, so it is recursion on that suffix.
pub mod Parse
pub mod Results
pub mod Streaming
pub mod Bounds
pub mod Ids
pub mod Framing
pub mod Waiting
pub mod RoundTrip
pub mod Messages
pub mod Layout
pub mod Printing
pub mod Commands
use orderbooks.Prelude.{
  ℕ, ◌+◌, ◌-◌, ◌*◌, ◌%◌, ◌^◌, Bool, true, false, ◌==◌, ◌||◌, ltb, leb, Option, none, some, List, [],
  ◌∷◌, if◌then◌else◌, length,
}
use orderbooks.Prelude.Bytes.{drop}

-- `error`, less `ok`.
pub data Error : Type 0 where
  incomplete malformed bad_begin_string bad_body_length bad_checksum : Error
  unsupported_msg_type missing_field bad_field_value : Error

-- Either `error::ok` with what was computed, or the error with which `parse` returns.
pub data Result (A : Type 0) : Type 0 where
  ok : A → Result A
  err : Error → Result A

infixl 5 ◌>>=◌
abbrev pub ◌>>=◌ : {A B : Type 0} → Result A → (A → Result B) → Result B
err why >>= later = err why
ok x >>= later = later x

-- Return with the error unless the test passes.
abbrev pub require : Bool → Error → Result Unit
require true e = ok tt
require false e = err e

pub data Tag : Type 0 where
  account begin_string body_length check_sum cl_ord_id msg_type : Tag
  order_qty orig_cl_ord_id price side time_in_force : Tag

abbrev pub tag_number : Tag → ℕ
tag_number Tag.account = 1
tag_number Tag.begin_string = 8
tag_number Tag.body_length = 9
tag_number Tag.check_sum = 10
tag_number Tag.cl_ord_id = 11
tag_number Tag.msg_type = 35
tag_number Tag.order_qty = 38
tag_number Tag.orig_cl_ord_id = 41
tag_number Tag.price = 44
tag_number Tag.side = 54
tag_number Tag.time_in_force = 59

abbrev pub max_message_size : ℕ
max_message_size = 4096

abbrev pub soh : ℕ
soh = 1

abbrev pub decimal_radix : ℕ
decimal_radix = 10

-- `std::numeric_limits<int>::digits10`
abbrev pub max_tag_digits : ℕ
max_tag_digits = 9

pub record Field : Type 0 where
  pub tag : ℕ
  pub value : List ℕ

-- `scan::ok` comes with the field and the position behind it.
pub data Scan : Type 0 where
  scanned : Field → ℕ → Scan
  need_more bad : Scan

-- `static_cast<unsigned>(ch) - '0'`
abbrev pub digit_of : ℕ → ℕ
digit_of ch = (ch + 2 ^ 32 - b'0') % 2 ^ 32

-- The bytes before the first SOH, if there is one.
unfoldable pub scan_value : List ℕ → Option (List ℕ)
scan_value [] = none
scan_value (ch ∷ rest) =
    if ch == soh then some [] else elim (scan_value rest) [ none ↦ none | some v ↦ some (ch ∷ v) ]

-- The field whose tag of `width` digits ends at the `=` before `rest`.
unfoldable pub finish_field : ℕ → ℕ → ℕ → List ℕ → Scan
unfolding scan_value
finish_field pos width tag rest =
    if width == 0 || ltb max_tag_digits width then bad else elim (scan_value rest) [
      | none ↦ need_more
      | some v ↦ scanned (record { tag = tag; value = v }) (pos + width + 1 + length v + 1)
    ]

-- The loop over the tag's digits; `width` is `i - pos`.
unfoldable pub scan_tag : ℕ → ℕ → ℕ → List ℕ → Scan
unfolding finish_field
scan_tag pos width tag [] = need_more
scan_tag pos width tag (ch ∷ rest) =
    if ch == b'='
    then finish_field pos width tag rest
    else if leb decimal_radix (digit_of ch)
    then bad
    else scan_tag pos (width + 1) ((tag * decimal_radix + digit_of ch) % 2 ^ 32) rest

unfoldable pub read_field : List ℕ → ℕ → Scan
unfolding scan_tag
read_field buf pos = if leb (length buf) pos then need_more else scan_tag pos 0 0 (drop pos buf)

-- The digits that `std::from_chars` folds, and whether they reach the end of the text.
unfoldable pub fold_digits : ℕ → List ℕ → Option ℕ
fold_digits n [] = some n
fold_digits n (ch ∷ rest) =
    if leb decimal_radix (digit_of ch)
    then none
    else fold_digits (n * decimal_radix + digit_of ch) rest

-- `to_uint` into an unsigned type of `bits` bits: a text of digits only, whose value the type holds.
unfoldable pub to_uint : ℕ → List ℕ → Option ℕ
unfolding fold_digits
to_uint bits [] = none
to_uint bits (ch ∷ rest) = elim (fold_digits 0 (ch ∷ rest)) [
  | none ↦ none
  | some n ↦ if ltb n (2 ^ bits) then some n else none
]

-- A number of `bits` bits, or the error.
abbrev pub number : ℕ → List ℕ → Error → Result ℕ
number bits v e = elim (to_uint bits v) [ none ↦ err e | some n ↦ ok n ]
