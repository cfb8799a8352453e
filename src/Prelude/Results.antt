-- ===== src/Prelude/Results.antt =====
-- `Error` and `Result` of src/lib.rs. The text that an error carries is not modelled.
use mathlib.Core.Path.{◌≡◌, refl}
use mathlib.Core.Logic.{◌⊎◌, inl, inr}
use mathlib.Core.Bool.{Bool, true, false}
use mathlib.Core.Option.{Option, none, some}

pub data Error : Type 0 where
  io corrupt invalid precondition needs_reenactment json : Error

pub data Result {ℓ} (V : Type ℓ) : Type ℓ where
  ok : V → Result V
  err : Error → Result V

-- `Option::ok_or_else`
abbrev pub ok_or {ℓ} : {V : Type ℓ} → Option V → Error → Result V
ok_or none error = err error
ok_or (some v) error = ok v

-- `if !test { return Err(error) }`
abbrev pub require : Bool → Error → Result (Unit {0})
require false error = err error
require true error = ok tt

infixl 5 ◌>>=◌ ◌>>◌
-- `?`
abbrev pub ◌>>=◌ {ℓ κ} : {V : Type ℓ} {W : Type κ} → Result V → (V → Result W) → Result W
err error >>= next = err error
ok v >>= next = next v

-- `first?; second`
abbrev pub ◌>>◌ {κ} : {W : Type κ} → Result (Unit {0}) → Result W → Result W
first >> second = first >>= λ done. second

-- A `?` that is passed was given a value.
pub >>=-eq-ok {ℓ κ} :
    {V : Type ℓ} {W : Type κ} (first : Result V) (next : V → Result W) {w : W}
    → (first >>= next) ≡ ok w
    → (v : V) × (first ≡ ok v) × (next v ≡ ok w)
>>=-eq-ok (err error) next e = cc
>>=-eq-ok (ok v) next e = (v, refl, e)

pub require-eq-ok : (b : Bool) (e : Error) {u : Unit {0}} → require b e ≡ ok u → b ≡ true
require-eq-ok true e h = refl
require-eq-ok false e h = cc

pub ok_or-eq-ok {ℓ} :
    {A : Type ℓ} (o : Option A) (e : Error) {a : A} → ok_or o e ≡ ok a → o ≡ some a
ok_or-eq-ok none e h = cc
ok_or-eq-ok (some x) e h = cc

pub Result-cases {ℓ} :
    {A : Type ℓ} (r : Result A) → ((a : A) × (r ≡ ok a)) ⊎ ((e : Error) × (r ≡ err e))
Result-cases (ok a) = inl (a, refl)
Result-cases (err e) = inr (e, refl)

pub >>=-assoc {ℓ} :
    {A B C : Type ℓ} (m : Result A) (f : A → Result B) (g : B → Result C)
    → ((m >>= f) >>= g) ≡ (m >>= λ a. f a >>= g)
>>=-assoc (ok a) f g = refl
>>=-assoc (err e) f g = refl

pub ok_injective {ℓ} : {A : Type ℓ} {a b : A} → ok a ≡ ok b → a ≡ b
ok_injective h = cc

pub err-ne-ok {ℓ} : {A : Type ℓ} {a : A} {e : Error} → ¬ (err e ≡ ok a)
err-ne-ok h = cc
