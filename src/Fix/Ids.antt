-- ===== src/Fix/Ids.antt =====
-- include/lob/fix_parser.hpp: the ranges of the numbers in the commands that `parse` makes.
use orderbooks.Prelude.Bytes.{take, same}
use orderbooks.Prelude.Word.{all_ones}
use orderbooks.Messages.{modify, cancel, submit, Command}
use orderbooks.Fix.Parse.{
  read_msg_type, body_field, tif_value, check_checksum, text, side_value, frame_end,
  read_body_length, read_begin_string, parse_body, make_command, apply_field, order_id, parse,
  read_fields, Fields, no_fields,
}
use orderbooks.Prelude.{
  zero, ltb-true, some-injective, inr, length, ltb, inl, ◌&&◌, Option-cases, suc, refl, false, ◌==◌,
  ◌∷◌, ap, not, subst, ◌^◌, if◌then◌else◌, Bool-cases, true, ◌≡◌, ◌<◌, Bool, List, ◌≢◌, ℕ, arith,
  some, [],
}
use orderbooks.Fix.{
  fold_digits, number, missing_field, ◌>>=◌, Error, require, to_uint, Result, Field, ok,
  bad_field_value,
}
use orderbooks.Fix.Results.{require-ok, number-ok, ok-injective, bind-ok}

-- Neither the keep-the-id sentinel nor the empty-slot sentinel.
pub record IsOrderId (n : ℕ) : Type 0 where
  pub named : n ≢ 0
  pub below : n < all_ones

-- A command whose ids are order ids and whose numbers fit their types.
abbrev pub IsValidCommand : Command → Type 0
IsValidCommand (submit m) =
    IsOrderId m.id × (m.px < 2 ^ 32) × (m.qty < 2 ^ 64) × (m.account_id < 2 ^ 32)
IsValidCommand (cancel m) = IsOrderId m.id
IsValidCommand (modify m) =
    IsOrderId m.id × IsOrderId m.new_id × (m.new_px < 2 ^ 32) × (m.new_qty < 2 ^ 64)

record FieldsInv (s : Fields) : Type 0 where
  clordid : s.has_clordid ≡ true → IsOrderId s.clordid
  orig_id : s.has_orig ≡ true → IsOrderId s.orig_id
  px : s.px < 2 ^ 32
  qty : s.qty < 2 ^ 64
  account_id : s.account_id < 2 ^ 32

no_fields-FieldsInv : FieldsInv no_fields
no_fields-FieldsInv = record {
  clordid = λ h. cc;
  orig_id = λ h. cc;
  px = omega arith;
  qty = omega arith;
  account_id = omega arith;
}

to_uint-bounded : (bits : ℕ) (v : List ℕ) {n : ℕ} → to_uint bits v ≡ some n → n < 2 ^ bits
unfolding to_uint
to_uint-bounded bits [] h = cc
to_uint-bounded bits (ch ∷ v) {n} h = elim (Option-cases (fold_digits 0 (ch ∷ v))) [
  | inl missing ↦ absurd (cc (rw (missing, to_uint) at h))
  | inr (m, found) ↦ elim (Bool-cases (ltb m (2 ^ bits))) [
    | inl fits ↦
        let at : m ≡ n = some-injective (rw (found, fits, to_uint) at h) in
        rw (← at) (ltb-true m (2 ^ bits) fits)
    | inr wide ↦ absurd (cc (rw (found, wide, to_uint) at h))
  ]
]

number-bounded : (bits : ℕ) (v : List ℕ) (e : Error) {n : ℕ} → number bits v e ≡ ok n → n < 2 ^ bits
number-bounded bits v e h = to_uint-bounded bits v (number-ok bits v e h)

order_id-IsOrderId : (v : List ℕ) {n : ℕ} → order_id v ≡ ok n → IsOrderId n
unfolding order_id
order_id-IsOrderId v h =
    let (n, counted, h') = bind-ok (number 64 v bad_field_value) _ h in
    let (u, named, last) =
      bind-ok (require (not (n == 0) && not (n == all_ones)) bad_field_value) _ h' in
    let at = ok-injective last in
    let tests = require-ok _ _ named in
    let small = number-bounded 64 v bad_field_value counted in
    rw (← at) (record { named = ground (arith, tests); below = ground (arith, tests, small) })

-- A value that was read is stored.
stored :
    {A B : Type 0} (m : Result A) (g : A → B) {b : B}
    → (m >>= λ a. ok (g a)) ≡ ok b
    → (a : A) × (m ≡ ok a) × (g a ≡ b)
stored m g h = let (a, read, last) = bind-ok m _ h in (a, read, ok-injective last)

apply_field-FieldsInv :
    (f : Field) (s : Fields) {t : Fields} → FieldsInv s → apply_field f s ≡ ok t → FieldsInv t
unfolding apply_field
apply_field-FieldsInv f s {t} v h = elim (Bool-cases (f.tag == 1)) [
  | inl a ↦
      let (n, read, at) =
        stored (number 32 f.value bad_field_value) (λ n. record s { account_id = n }) (rw a at h) in
      subst FieldsInv at (record {
        clordid = v.clordid;
        orig_id = v.orig_id;
        px = v.px;
        qty = v.qty;
        account_id = number-bounded 32 f.value _ read;
      })
  | inr not_a ↦ elim (Bool-cases (f.tag == 11)) [
    | inl b ↦
        let (n, read, at) =
          stored (order_id f.value) (λ n. record s { clordid = n; has_clordid = true })
            (rw (not_a, b) at h) in
        subst FieldsInv at (record {
          clordid = λ u. order_id-IsOrderId f.value read;
          orig_id = v.orig_id;
          px = v.px;
          qty = v.qty;
          account_id = v.account_id;
        })
    | inr not_b ↦ elim (Bool-cases (f.tag == 41)) [
      | inl c ↦
          let (n, read, at) =
            stored (order_id f.value) (λ n. record s { orig_id = n; has_orig = true })
              (rw (not_a, not_b, c) at h) in
          subst FieldsInv at (record {
            clordid = v.clordid;
            orig_id = λ u. order_id-IsOrderId f.value read;
            px = v.px;
            qty = v.qty;
            account_id = v.account_id;
          })
      | inr not_c ↦ elim (Bool-cases (f.tag == 38)) [
        | inl d ↦
            let (n, read, at) =
              stored (number 64 f.value bad_field_value) (λ n. record s { qty = n; has_qty = true })
                (rw (not_a, not_b, not_c, d) at h) in
            subst FieldsInv at (record {
              clordid = v.clordid;
              orig_id = v.orig_id;
              px = v.px;
              qty = number-bounded 64 f.value _ read;
              account_id = v.account_id;
            })
        | inr not_d ↦ elim (Bool-cases (f.tag == 44)) [
          | inl e ↦
              let (n, read, at) =
                stored (number 32 f.value bad_field_value) (λ n. record s { px = n; has_px = true })
                  (rw (not_a, not_b, not_c, not_d, e) at h) in
              subst FieldsInv at (record {
                clordid = v.clordid;
                orig_id = v.orig_id;
                px = number-bounded 32 f.value _ read;
                qty = v.qty;
                account_id = v.account_id;
              })
          | inr not_e ↦ others (rw (not_a, not_b, not_c, not_d, not_e) at h)
        ]
      ]
    ]
  ]
]
  where
    others :
        (if f.tag == 54
            then (side_value f.value >>= λ sd. ok (record s { sd = sd; has_side = true }))
            else if f.tag == 59
            then (tif_value f.value >>= λ tf. ok (record s { tf = tf }))
            else ok s)
          ≡ ok t
        → FieldsInv t
    others h = elim (Bool-cases (f.tag == 54)) [
      | inl a ↦
          let (sd, read, at) =
            stored (side_value f.value) (λ sd. record s { sd = sd; has_side = true }) (rw a at h) in
          subst FieldsInv at (record {
            clordid = v.clordid;
            orig_id = v.orig_id;
            px = v.px;
            qty = v.qty;
            account_id = v.account_id;
          })
      | inr not_a ↦ elim (Bool-cases (f.tag == 59)) [
        | inl b ↦
            let (tf, read, at) =
              stored (tif_value f.value) (λ tf. record s { tf = tf }) (rw (not_a, b) at h) in
            subst FieldsInv at (record {
              clordid = v.clordid;
              orig_id = v.orig_id;
              px = v.px;
              qty = v.qty;
              account_id = v.account_id;
            })
        | inr not_b ↦ subst FieldsInv (ok-injective (rw (not_a, not_b) at h)) v
      ]
    ]

read_fields-FieldsInv :
    (fuel : ℕ) (body : List ℕ) (pos : ℕ) (s : Fields) (r : Fields × ℕ)
    → FieldsInv s
    → read_fields fuel body pos s ≡ ok r
    → FieldsInv r.0
unfolding read_fields
read_fields-FieldsInv zero body pos s r v e = subst FieldsInv (ap (λ x. x.0) (ok-injective e)) v
read_fields-FieldsInv (suc fuel) body pos s r v e = elim (Bool-cases (ltb pos (length body))) [
  | inr stop ↦ subst FieldsInv (ap (λ x. x.0) (ok-injective (rw (stop, read_fields) at e))) v
  | inl go ↦
      let (f, read, e') = bind-ok (body_field body pos) _ (rw (go, read_fields) at e) in
      let (t, applied, e'') = bind-ok (apply_field f.0 s) _ e' in
      read_fields-FieldsInv fuel body f.1 t r (apply_field-FieldsInv f.0 s v applied) e''
]

given :
    {A : Type 0} (b : Bool) {a a' : A}
    → (require b missing_field >>= λ u. ok a) ≡ ok a'
    → (b ≡ true) × (a ≡ a')
given true h = (refl, ok-injective h)
given false h = cc

make_command-IsValid :
    (msg_type : List ℕ) (s : Fields) {k : Command}
    → FieldsInv s
    → make_command msg_type s ≡ ok k
    → IsValidCommand k
unfolding make_command
make_command-IsValid t s {k} v h = elim (Bool-cases (same t (text b'D'))) [
  | inl d ↦
      let (all, at) = given (s.has_clordid && s.has_side && s.has_qty && s.has_px) (rw d at h) in
      subst IsValidCommand at (v.clordid (ground (arith, all)), v.px, v.qty, v.account_id)
  | inr not_d ↦ elim (Bool-cases (same t (text b'F'))) [
    | inl f ↦
        let (orig, at) = given s.has_orig (rw (not_d, f) at h) in
        subst IsValidCommand at (v.orig_id orig)
    | inr not_f ↦ elim (Bool-cases (same t (text b'G'))) [
      | inl g ↦
          let (all, at) =
            given (s.has_clordid && s.has_orig && s.has_qty && s.has_px)
              (rw (not_d, not_f, g) at h) in
          subst IsValidCommand at
            (v.orig_id (ground (arith, all)), v.clordid (ground (arith, all)), v.px, v.qty)
      | inr not_g ↦ absurd (cc (rw (not_d, not_f, not_g) at h))
    ]
  ]
]

-- The command of an accepted FIX message names its orders by ids other than the two reserved
-- values, and its numbers fit their types.
pub parse-IsValid : (buf : List ℕ) (k : Command) (n : ℕ) → parse buf ≡ ok (k, n) → IsValidCommand k
unfolding parse parse_body
parse-IsValid buf k n h =
    let (pos, begun, h') = bind-ok (read_begin_string buf) _ h in
    let (len, measured, h'') = bind-ok (read_body_length buf pos) _ h' in
    let (cs_start, framed, h''') = bind-ok (frame_end buf len) _ h'' in
    let (u, checked, h'''') = bind-ok (check_checksum buf cs_start) _ h''' in
    let body = take cs_start buf in
    let (k', parsed, last) = bind-ok (parse_body body len.1) _ h'''' in
    let (t, typed, more) = bind-ok (read_msg_type body len.1) _ parsed in
    let (s, read, made) = bind-ok (read_fields (length body) body t.1 no_fields) _ more in
    subst IsValidCommand (ap (λ x. x.0) (ok-injective last)) (
      make_command-IsValid t.0 s.0
        (read_fields-FieldsInv (length body) body t.1 no_fields s no_fields-FieldsInv read) made)
