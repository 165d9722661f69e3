-- ===== src/Fix/Bounds.antt =====
-- include/lob/fix_parser.hpp: how far `read_field`, the loop over the body and `parse` read.
use orderbooks.Prelude.Bytes.{length-drop, drop}
use orderbooks.Fix.Parse.{apply_field, Fields, body_field, read_fields}
use orderbooks.Fix.{
  digit_of, max_tag_digits, decimal_radix, soh, Scan, ok, scanned, read_field, finish_field, Field,
  scan_tag, scan_value,
}
use orderbooks.Prelude.{
  refl, leb-false, zero, Option-cases, ltb-false, some-injective, ltb, inr, [], inl, ◌||◌, suc, ap,
  leb, ◌==◌, ◌∷◌, Bool-cases, length, ◌<◌, ◌+◌, ◌≤◌, some, ◌≡◌, List, ℕ, arith,
}
use orderbooks.Fix.{need_more, bad, err, malformed}
use orderbooks.Fix.Results.{ok-injective, bind-ok}

scanned-injective : {f g : Field} {p q : ℕ} → scanned f p ≡ scanned g q → p ≡ q
scanned-injective e = cc

scan_value-shorter : (xs : List ℕ) {v : List ℕ} → scan_value xs ≡ some v → length v < length xs
unfolding scan_value
scan_value-shorter [] e = cc
scan_value-shorter (ch ∷ xs) {v} e = elim (Bool-cases (ch == soh)) [
  | inl stop ↦ let empty : [] ≡ v = some-injective (rw stop at e) in rw (← empty) (omega arith)
  | inr go ↦ elim (Option-cases (scan_value xs)) [
    | inl missing ↦ absurd (cc (rw (go, missing) at e))
    | inr (w, found) ↦
        let longer : ch ∷ w ≡ v = some-injective (rw (go, found) at e) in
        rw (← longer) (omega (arith, scan_value-shorter xs found))
  ]
]

finish_field-bounds :
    (pos width tag : ℕ) (xs : List ℕ) {f : Field} {next : ℕ}
    → finish_field pos width tag xs ≡ scanned f next
    → (pos + width + 1 < next) × (next ≤ pos + width + 1 + length xs)
unfolding finish_field
finish_field-bounds pos width tag xs {f} {next} e =
    elim (Bool-cases (width == 0 || ltb max_tag_digits width)) [
      | inl wide ↦ absurd (cc (rw wide at e))
      | inr fits ↦ elim (Option-cases (scan_value xs)) [
        | inl missing ↦ absurd (cc (rw (fits, missing) at e))
        | inr (v, found) ↦
            let at : pos + width + 1 + length v + 1 ≡ next =
              scanned-injective (rw (fits, found) at e) in
            omega (arith, at, scan_value-shorter xs found)
      ]
    ]

scan_tag-bounds :
    (pos width tag : ℕ) (xs : List ℕ) {f : Field} {next : ℕ}
    → scan_tag pos width tag xs ≡ scanned f next
    → (pos + width + 1 < next) × (next ≤ pos + width + length xs)
unfolding scan_tag
scan_tag-bounds pos width tag [] e = cc
scan_tag-bounds pos width tag (ch ∷ xs) e = elim (Bool-cases (ch == b'=')) [
  | inl stop ↦ omega (arith, finish_field-bounds pos width tag xs (rw stop at e))
  | inr go ↦ elim (Bool-cases (leb decimal_radix (digit_of ch))) [
    | inl missing ↦ absurd (cc (rw (go, missing) at e))
    | inr is_digit ↦ omega (arith, scan_tag-bounds pos (width + 1) _ xs (rw (go, is_digit) at e))
  ]
]

-- A field that was read lies behind the position and inside the buffer.
pub read_field-bounds :
    (buf : List ℕ) (pos : ℕ) {f : Field} {next : ℕ}
    → read_field buf pos ≡ scanned f next
    → (pos < next) × (next ≤ length buf)
unfolding read_field
read_field-bounds buf pos e = elim (Bool-cases (leb (length buf) pos)) [
  | inl past ↦ absurd (cc (rw past at e))
  | inr inside ↦ omega (
    arith,
    scan_tag-bounds pos 0 0 (drop pos buf) (rw inside at e),
    length-drop pos buf,
    leb-false (length buf) pos inside,
  )
]

pub body_field-bounds :
    (body : List ℕ) (pos : ℕ) {f : Field × ℕ}
    → body_field body pos ≡ ok f
    → (pos < f.1) × (f.1 ≤ length body)
unfolding body_field
body_field-bounds body pos {f} e = by_scan (read_field body pos) refl e
  where
    by_scan :
        (r : Scan)
        → read_field body pos ≡ r
        → (elim r [
          | need_more ↦ err malformed
          | bad ↦ err malformed
          | scanned f next ↦ ok (f, next)
        ])
          ≡ ok f
        → (pos < f.1) × (f.1 ≤ length body)
    by_scan (scanned g next) r e =
        let at : (g, next) ≡ f = ok-injective e in rw (← at) (read_field-bounds body pos r)
    by_scan need_more r e = cc
    by_scan bad r e = cc

-- From a position inside the body, with as many rounds as there are bytes left or more, the loop
-- over the body's fields, where it succeeds, stops exactly at the body's end.
pub read_fields_at_end :
    (fuel : ℕ) (body : List ℕ) (pos : ℕ) (s s' : Fields) (p : ℕ)
    → pos ≤ length body
    → length body ≤ fuel + pos
    → read_fields fuel body pos s ≡ ok (s', p)
    → p ≡ length body
unfolding read_fields
read_fields_at_end zero body pos s s' p le enough e =
    let at : (s, pos) ≡ (s', p) = ok-injective e in omega (arith, ap (λ x. x.1) at)
read_fields_at_end (suc fuel) body pos s s' p le enough e =
    elim (Bool-cases (ltb pos (length body))) [
      | inr stop ↦
          let at : (s, pos) ≡ (s', p) = ok-injective (rw (stop, read_fields) at e) in
          omega (arith, ap (λ x. x.1) at, ltb-false pos (length body) stop)
      | inl go ↦
          let (f, read, e') = bind-ok (body_field body pos) _ (rw (go, read_fields) at e) in
          let (t, applied, e'') = bind-ok (apply_field f.0 s) _ e' in
          let moved = body_field-bounds body pos read in
          read_fields_at_end fuel body f.1 t s' p moved.1 (omega (arith, moved.0)) e''
    ]
