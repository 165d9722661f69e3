-- ===== src/Fix/Results.antt =====
-- include/lob/fix_parser.hpp: chains of steps that may return early, an error that more bytes may lift,
-- and what an ok of a chain says of its steps.
use orderbooks.Prelude.{
  ◌≡◌, refl, ◌⊎◌, inl, inr, Bool, true, false, ℕ, some, Option-cases, List, ◌∙◌, ap,
}
use orderbooks.Fix.{Error, incomplete, Result, ok, err, ◌>>=◌, require, number, to_uint}

module _ {A : Type 0} where
  -- `m'` is `m`, unless `m` waits for more bytes.
  abbrev pub Agrees : Result A → Result A → Type 0
  Agrees m m' = (m ≡ err incomplete) ⊎ (m' ≡ m)

module _ {A B : Type 0} where
  pub bind-Agrees :
      (m m' : Result A) (f f' : A → Result B)
      → Agrees m m'
      → ((a : A) → m ≡ ok a → Agrees (f a) (f' a))
      → Agrees (m >>= f) (m' >>= f')
  bind-Agrees m m' f f' (inl e) h = inl (rw e refl)
  bind-Agrees (ok a) m' f f' (inr e) h = rw e (h a refl)
  bind-Agrees (err x) m' f f' (inr e) h = inr (rw e refl)

  -- A step gave a value, with which the rest gave `y`.
  abbrev pub Passes : Result A → (A → Result B) → B → Type 0
  Passes m later y = (x : A) × (m ≡ ok x) × (later x ≡ ok y)

  pub bind-ok :
      (m : Result A) (later : A → Result B) {y : B} → m >>= later ≡ ok y → Passes m later y
  bind-ok (err why) later e = cc
  bind-ok (ok x) later e = (x, refl, e)

pub err-injective : {A : Type 0} {e e' : Error} → ◌≡◌ {A = Result A} (err e) (err e') → e ≡ e'
err-injective h = cc

pub ok-injective : {A : Type 0} {a b : A} → ok a ≡ ok b → a ≡ b
ok-injective e = cc

pub require-ok : (b : Bool) (e : Error) → require b e ≡ ok tt → b ≡ true
require-ok true e h = refl
require-ok false e h = cc

pub number-ok :
    (bits : ℕ) (v : List ℕ) (e : Error) {n : ℕ} → number bits v e ≡ ok n → to_uint bits v ≡ some n
number-ok bits v e {n} h = elim (Option-cases (to_uint bits v)) [
  | inl missing ↦ absurd (cc (h, missing))
  | inr (m, found) ↦ found ∙ ap some (ok-injective (rw (found, number) at h))
]

pub Agrees-refl : {A : Type 0} (m : Result A) → Agrees m m
Agrees-refl m = inr refl
