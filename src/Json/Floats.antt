-- ===== src/Json/Floats.antt =====
-- Proofs on the errors of `canonical_json` of src/ident.rs.
use tally_vcs.Prelude.{Bool, true, false, ◌||◌, ◌≡◌, refl, arith, Result, ok, err, invalid, ◌>>=◌}
use tally_vcs.Json.{
  Number, natural, negative, float, Value, null, bool, number, string, array, object, Values, end,
  item, Members, stop, member,
}
use tally_vcs.Json.Canonical.{canonical_number, canonical_json, canonical_items, canonical_members}

-- The value holds a float at some depth.
mutual
  pub has_float : Value → Bool
  has_float (number float) = true
  has_float (array vs) = any_float vs
  has_float (object ms) = member_float ms
  has_float _ = false

  pub any_float : Values → Bool
  any_float end = false
  any_float (item v vs) = has_float v || any_float vs

  pub member_float : Members → Bool
  member_float stop = false
  member_float (member k v ms) = has_float v || member_float ms

-- `ok` if the test fails, and the error `invalid` if it holds.
abbrev pub OkUnless : {A : Type 0} → Bool → Result A → Type 0
OkUnless b (ok a) = b ≡ false
OkUnless b (err e) = (b ≡ true) × (e ≡ invalid)

OkUnless-number : (n : Number) → OkUnless (has_float (number n)) (canonical_number n)
unfolding has_float canonical_number
OkUnless-number (natural n) = refl
OkUnless-number (negative n) = refl
OkUnless-number float = (refl, refl)

-- A text that is built from another one.
OkUnless-wrap :
    {A B : Type 0} (b : Bool) (r : Result A) (f : A → B)
    → OkUnless b r
    → OkUnless b (r >>= λ a. ok (f a))
OkUnless-wrap b (ok a) f h = h
OkUnless-wrap b (err e) f h = h

OkUnless-both :
    {A B C : Type 0} (b c : Bool) (r : Result A) (s : Result B) (f : A → B → C)
    → OkUnless b r
    → OkUnless c s
    → OkUnless (b || c) (r >>= λ x. s >>= λ y. ok (f x y))
OkUnless-both b c (err e) s f h k = (ground arith, h.1)
OkUnless-both b c (ok x) (ok y) f h k = ground arith
OkUnless-both b c (ok x) (err e) f h k = (ground arith, k.1)

mutual
  unfolding has_float canonical_json

  float-value : (v : Value) → OkUnless (has_float v) (canonical_json v)
  float-value null = refl
  float-value (bool true) = refl
  float-value (bool false) = refl
  float-value (number n) = OkUnless-number n
  float-value (string s) = refl
  float-value (array vs) = OkUnless-wrap (any_float vs) (canonical_items vs) _ (float-items vs)
  float-value (object ms) =
      OkUnless-wrap (member_float ms) (canonical_members ms) _ (float-members ms)

  float-items : (vs : Values) → OkUnless (any_float vs) (canonical_items vs)
  float-items end = refl
  float-items (item v vs) =
      OkUnless-both (has_float v) (any_float vs) (canonical_json v) (canonical_items vs) _
        (float-value v) (float-items vs)

  float-members : (ms : Members) → OkUnless (member_float ms) (canonical_members ms)
  float-members stop = refl
  float-members (member k v ms) =
      OkUnless-both (has_float v) (member_float ms) (canonical_json v) (canonical_members ms) _
        (float-value v) (float-members ms)

-- A value has a canonical text exactly when it holds no float at any depth, and the error is
-- Invalid otherwise.
pub canonical_json-OkUnless : (v : Value) → OkUnless (has_float v) (canonical_json v)
canonical_json-OkUnless v = float-value v
