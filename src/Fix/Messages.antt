-- ===== src/Fix/Messages.antt =====
-- include/lob/fix_parser.hpp: the loop over the body and `parse` on a message that was printed.
use orderbooks.Prelude.{
  ◌==◌, ℕ, zero, suc, ◌+◌, ◌≤◌, ◌≡◌, refl, ap, ◌∙◌, sym, true, false, ltb, List, [], ◌∷◌, ◌++◌,
  length, append_assoc, length-append, arith, All,
}
use orderbooks.Fix.{Field, Result, ok, err, ◌>>=◌, Tag, tag_number}
use orderbooks.Fix.Parse.{Fields, apply_field, body_field, read_fields, header_field}
use orderbooks.Fix.RoundTrip.{print_field, IsPrintable, read_field-print, length-print_field}

-- A field with the number of digits of its tag.
pub record Printed : Type 0 where
  pub width : ℕ
  pub field : Field

unfoldable pub print_fields : List Printed → List ℕ
print_fields [] = []
print_fields (x ∷ xs) = print_field x.width x.field ++ print_fields xs

abbrev pub ArePrintable : List Printed → Type 0
ArePrintable = All (λ x. IsPrintable x.width x.field)

-- The fields one after the other.
unfoldable pub apply_all : List Printed → Fields → Result Fields
apply_all [] s = ok s
apply_all (x ∷ xs) s = apply_field x.field s >>= apply_all xs

pub body_field-print :
    (before rest : List ℕ) (w : ℕ) (f : Field)
    → IsPrintable w f
    → body_field (before ++ (print_field w f ++ rest)) (length before)
      ≡ ok (f, length before + length (print_field w f))
unfolding body_field
body_field-print before rest w f p = rw (body_field, read_field-print before rest w f p) refl

pub header_field-print :
    (before rest : List ℕ) (w : ℕ) (t : Tag) (v : List ℕ)
    → IsPrintable w (record { tag = tag_number t; value = v })
    → header_field
        (before ++ (print_field w (record { tag = tag_number t; value = v }) ++ rest))
        (length before)
        t
      ≡ ok (v, length before + length (print_field w (record { tag = tag_number t; value = v })))
unfolding header_field
header_field-print before rest w t v p =
    let same_tag : (tag_number t == tag_number t) ≡ true = ground arith in
    rw
      (
        header_field,
        read_field-print before rest w (record { tag = tag_number t; value = v }) p,
        same_tag,
      )
      refl

-- One round of the loop.
read_fields-step :
    (fuel pos next : ℕ) (body : List ℕ) (f : Field) (s : Fields)
    → ltb pos (length body) ≡ true
    → body_field body pos ≡ ok (f, next)
    → read_fields (suc fuel) body pos s ≡ (apply_field f s >>= λ s'. read_fields fuel body next s')
unfolding read_fields
read_fields-step fuel pos next body f s inside e = rw (read_fields, inside, e) refl

read_fields-end :
    (fuel pos : ℕ) (body : List ℕ) (s : Fields)
    → length body ≡ pos
    → read_fields fuel body pos s ≡ ok (s, length body)
unfolding read_fields
read_fields-end zero pos body s e = ap (λ v. ok (s, v)) (sym e)
read_fields-end (suc fuel) pos body s e =
    let past : ltb pos (length body) ≡ false = ground arith in
    rw (read_fields, past) (ap (λ v. ok (s, v)) (sym e))

pub bind_assoc :
    {A B C : Type 0} (m : Result A) (k : A → Result C) (k' : A → Result B) (h : B → Result C)
    → ((a : A) → k a ≡ (k' a >>= h))
    → (m >>= k) ≡ ((m >>= k') >>= h)
bind_assoc (ok a) k k' h e = e a
bind_assoc (err why) k k' h e = refl

-- The loop over the body reads each printed field in turn, up to the end.
pub read_fields-print :
    (fuel : ℕ) (before : List ℕ) (xs : List Printed) (s : Fields)
    → length xs ≤ fuel
    → ArePrintable xs
    → read_fields fuel (before ++ print_fields xs) (length before) s
      ≡ (apply_all xs s >>= λ s'. ok (s', length (before ++ print_fields xs)))
unfolding print_fields apply_all
read_fields-print fuel before [] s le p =
    read_fields-end fuel (length before) (before ++ []) s (omega (arith, length-append before []))
read_fields-print zero before (x ∷ xs) s le p = absurd (omega arith)
read_fields-print (suc fuel) before (x ∷ xs) s le (p, ps) =
    let body = before ++ (print_field x.width x.field ++ print_fields xs) in
    let next = length before + length (print_field x.width x.field) in
    let inside : ltb (length before) (length body) ≡ true = ground (
      arith,
      length-append before (print_field x.width x.field ++ print_fields xs),
      length-append (print_field x.width x.field) (print_fields xs),
      length-print_field x.width x.field,
    ) in
    let later : (s' : Fields)
        → read_fields fuel body next s' ≡ (apply_all xs s' >>= λ s''. ok (s'', length body)) =
      λ s'.
        rw
          (
            ← append_assoc before (print_field x.width x.field) (print_fields xs),
            ← length-append before (print_field x.width x.field),
          )
          (read_fields-print fuel (before ++ print_field x.width x.field) xs s' (omega arith) ps) in
    read_fields-step fuel (length before) next body x.field s inside
      (body_field-print before (print_fields xs) x.width x.field p)
    ∙ bind_assoc (apply_field x.field s) (λ s'. read_fields fuel body next s') (apply_all xs)
        (λ s''. ok (s'', length body)) later

-- A printed field is no shorter than one byte, so a body has room for a round per field.
pub length-print_fields : (xs : List Printed) → length xs ≤ length (print_fields xs)
unfolding print_fields
length-print_fields [] = omega arith
length-print_fields (x ∷ xs) = omega (
  arith,
  length-append (print_field x.width x.field) (print_fields xs),
  length-print_field x.width x.field,
  length-print_fields xs,
)
