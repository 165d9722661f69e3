-- ===== src/Fix/RoundTrip.antt =====
-- include/lob/fix_parser.hpp: `detail::read_field` and `detail::to_uint` read back what is printed as
-- FIX prints it: a decimal of a given width, and `tag=value<SOH>` anywhere in a buffer.
use orderbooks.Prelude.{
  ℕ, zero, suc, ◌+◌, ◌*◌, ◌/◌, ◌%◌, ◌^◌, ◌<◌, ◌≤◌, ◌≡◌, refl, ap, ◌∙◌, Bool, true, false, ◌==◌,
  ◌&&◌, ◌||◌, not, ltb, leb, none, some, List, [], ◌∷◌, ◌++◌, length, if◌then◌else◌, arith, inl,
  inr, Bool-cases, append_assoc, length-append, some-injective,
}
use native.Mathlib.Nat.{pow-suc, pow-le-pow_right}
use orderbooks.Prelude.Bytes.{drop-length}
use orderbooks.Fix.{
  Field, Error, number, ok, decimal_radix, scanned, soh, digit_of, max_tag_digits, scan_value,
  finish_field, scan_tag, read_field, fold_digits, to_uint,
}

-- The last `width` decimal digits of a number.
unfoldable pub print_digits : ℕ → ℕ → List ℕ
print_digits zero n = []
print_digits (suc w) n = print_digits w (n / 10) ++ ((b'0' + n % 10) ∷ [])

-- A field as the sender writes it, its tag in `width` digits.
unfoldable pub print_field : ℕ → Field → List ℕ
print_field width f = print_digits width f.tag ++ (b'=' ∷ (f.value ++ (soh ∷ [])))

-- A value that does not hold the delimiter.
unfoldable pub is_value : List ℕ → Bool
is_value [] = true
is_value (ch ∷ rest) = not (ch == soh) && is_value rest

fold_digits-append :
    (n : ℕ) (xs ys : List ℕ) {m : ℕ}
    → fold_digits n xs ≡ some m
    → fold_digits n (xs ++ ys) ≡ fold_digits m ys
unfolding fold_digits
fold_digits-append n [] ys e = ap (λ v. fold_digits v ys) (some-injective e)
fold_digits-append n (x ∷ xs) ys {m} e = elim (Bool-cases (leb decimal_radix (digit_of x))) [
  | inl stop ↦ absurd (cc (rw stop at e))
  | inr go ↦ rw go (fold_digits-append (n * decimal_radix + digit_of x) xs ys (rw go at e))
]

fold_digits-print : (w n : ℕ) → n < 10 ^ w → fold_digits 0 (print_digits w n) ≡ some n
unfolding print_digits fold_digits
fold_digits-print zero n lt = ap some (omega arith)
fold_digits-print (suc w) n lt =
    fold_digits-append 0 (print_digits w (n / 10)) _
      (fold_digits-print w (n / 10) (omega (arith, pow-suc 10 w)))
    ∙ ground arith

-- The tag's loop over a printed tag.
scan_tag-print :
    (pos w n : ℕ) (tail : List ℕ)
    → n < 10 ^ w
    → w ≤ max_tag_digits
    → scan_tag pos 0 0 (print_digits w n ++ tail) ≡ scan_tag pos w n tail
unfolding print_digits scan_tag
scan_tag-print pos zero n tail lt le = ap (λ v. scan_tag pos 0 v tail) (omega arith)
scan_tag-print pos (suc w) n tail lt le =
    let other : ((b'0' + n % 10) == b'=') ≡ false = ground arith in
    let is_digit : leb decimal_radix (digit_of (b'0' + n % 10)) ≡ false = ground arith in
    let whole : (n / 10 * decimal_radix + digit_of (b'0' + n % 10)) % 2 ^ 32 ≡ n =
      ground
        (arith, pow-le-pow_right {n = 10} (omega arith) {i = suc w} {j = 9} le, pow-suc 10 w) in
    ap (scan_tag pos 0 0) (append_assoc (print_digits w (n / 10)) ((b'0' + n % 10) ∷ []) tail)
    ∙ scan_tag-print pos w (n / 10) ((b'0' + n % 10) ∷ tail) (omega (arith, pow-suc 10 w))
        (omega arith)
    ∙ (rw (other, is_digit, whole) (ap (λ v. scan_tag pos v n tail) (omega arith)))

scan_value-print : (v rest : List ℕ) → is_value v ≡ true → scan_value (v ++ (soh ∷ rest)) ≡ some v
unfolding is_value scan_value
scan_value-print [] rest e = refl
scan_value-print (ch ∷ v) rest e = ground (arith, scan_value-print v rest)

pub length-print_digits : (w n : ℕ) → length (print_digits w n) ≡ w
unfolding print_digits
length-print_digits zero n = refl
length-print_digits (suc w) n = omega (
  arith,
  length-append (print_digits w (n / 10)) ((b'0' + n % 10) ∷ []),
  length-print_digits w (n / 10),
)

pub length-print_field : (w : ℕ) (f : Field) → length (print_field w f) ≡ w + 1 + length f.value + 1
unfolding print_field
length-print_field w f = omega (
  arith,
  length-append (print_digits w f.tag) (b'=' ∷ (f.value ++ (soh ∷ []))),
  length-print_digits w f.tag,
  length-append f.value (soh ∷ []),
)

is_value-append :
    (xs ys : List ℕ) → is_value xs ≡ true → is_value ys ≡ true → is_value (xs ++ ys) ≡ true
unfolding is_value
is_value-append [] ys e e' = e'
is_value-append (x ∷ xs) ys e e' = ground (arith, is_value-append xs ys)

pub is_value-print_digits : (w n : ℕ) → is_value (print_digits w n) ≡ true
unfolding print_digits is_value
is_value-print_digits zero n = refl
is_value-print_digits (suc w) n =
    is_value-append (print_digits w (n / 10)) ((b'0' + n % 10) ∷ [])
      (is_value-print_digits w (n / 10)) (ground arith)

-- What a sender may print: one to nine digits of tag, and no delimiter in the value.
pub record IsPrintable (w : ℕ) (f : Field) : Type 0 where
  pub wide : 1 ≤ w
  pub narrow : w ≤ max_tag_digits
  pub tag_fits : f.tag < 10 ^ w
  pub value_fits : is_value f.value ≡ true

scan_field-print :
    (pos w : ℕ) (f : Field) (rest : List ℕ)
    → IsPrintable w f
    → scan_tag pos 0 0 (print_field w f ++ rest) ≡ scanned f (pos + length (print_field w f))
unfolding print_field scan_tag finish_field
scan_field-print pos w f rest p =
    let value : scan_value ((f.value ++ (soh ∷ [])) ++ rest) ≡ some f.value =
      ap scan_value (append_assoc f.value (soh ∷ []) rest)
      ∙ scan_value-print f.value rest p.value_fits in
    let width : ((w == 0) || ltb max_tag_digits w) ≡ false = ground (arith, p.wide, p.narrow) in
    ap (scan_tag pos 0 0)
      (append_assoc (print_digits w f.tag) (b'=' ∷ (f.value ++ (soh ∷ []))) rest)
    ∙ scan_tag-print pos w f.tag (b'=' ∷ ((f.value ++ (soh ∷ [])) ++ rest)) p.tag_fits p.narrow
    ∙ (rw (width, value) (ap (scanned f) (omega (arith, length-print_field w f))))

-- A printed field, wherever it stands in the buffer, is read back with the position behind it.
pub read_field-print :
    (before rest : List ℕ) (w : ℕ) (f : Field)
    → IsPrintable w f
    → read_field (before ++ (print_field w f ++ rest)) (length before)
      ≡ scanned f (length before + length (print_field w f))
unfolding read_field
read_field-print before rest w f p =
    let inside : leb (length (before ++ (print_field w f ++ rest))) (length before) ≡ false =
      ground (
        arith,
        length-append before (print_field w f ++ rest),
        length-append (print_field w f) rest,
        length-print_field w f,
      ) in
    rw (inside, drop-length before (print_field w f ++ rest))
      (scan_field-print (length before) w f rest p)

to_uint_of_fold :
    (bits n : ℕ) (xs : List ℕ)
    → 1 ≤ length xs
    → fold_digits 0 xs ≡ some n
    → to_uint bits xs ≡ (if ltb n (2 ^ bits) then some n else none)
unfolding to_uint
to_uint_of_fold bits n [] long e = absurd (omega arith)
to_uint_of_fold bits n (ch ∷ xs) long e = rw (to_uint, e) refl

-- A number is read back from its decimal text, of any width that holds it, unless it does not fit
-- the type.
pub to_uint-print :
    (bits w n : ℕ)
    → 1 ≤ w
    → n < 10 ^ w
    → to_uint bits (print_digits w n) ≡ (if ltb n (2 ^ bits) then some n else none)
to_uint-print bits w n some_digit lt =
    to_uint_of_fold bits n (print_digits w n) (omega (arith, length-print_digits w n))
      (fold_digits-print w n lt)

pub number-print :
    (bits w n : ℕ) (e : Error)
    → 1 ≤ w
    → n < 10 ^ w
    → n < 2 ^ bits
    → number bits (print_digits w n) e ≡ ok n
number-print bits w n e some_digit lt fits =
    let inside : ltb n (2 ^ bits) ≡ true = ground arith in
    rw (number, to_uint-print bits w n some_digit lt, inside) refl
