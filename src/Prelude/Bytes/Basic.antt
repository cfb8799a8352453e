-- ===== src/Prelude/Bytes/Basic.antt =====
-- Byte strings: their equality and their order.
use Prim.Native.Nat.{ℕ, ◌<◌}
use Prim.Native.Char.{code}
use Prim.Native.String.{String}
use mathlib.Core.Path.{◌≡◌, refl}
use mathlib.Core.Logic.{◌↔◌, inl, inr}
use mathlib.Core.Bool.{Bool, true, false, ◌&&◌}
use mathlib.Core.List.{List, [], ◌∷◌}
use native.Mathlib.Omega.{arith}
use tally_vcs.Prelude.Tests.{ltb, ◌==◌, if◌then◌else◌, Bool-cases}

abbrev pub Bytes : Type 0
Bytes = List ℕ

abbrev pub IsByte : ℕ → Type 0
IsByte b = b < 256

-- The bytes of an ASCII literal.
abbrev pub bytes : String → Bytes
bytes String.[] = []
bytes (String.◌∷◌ c s) = code c ∷ bytes s

-- `a == b`
unfoldable pub str_eq : Bytes → Bytes → Bool
str_eq [] [] = true
str_eq (x ∷ xs) (y ∷ ys) = x == y && str_eq xs ys
str_eq _ _ = false

pub str_eq→eq : (a b : Bytes) → str_eq a b ≡ true → a ≡ b
unfolding str_eq
str_eq→eq [] [] h = refl
str_eq→eq [] (y ∷ ys) h = cc
str_eq→eq (x ∷ xs) [] h = cc
str_eq→eq (x ∷ xs) (y ∷ ys) h = ground (arith, str_eq→eq xs ys)

pub str_eq_refl : (a : Bytes) → str_eq a a ≡ true
unfolding str_eq
str_eq_refl [] = refl
str_eq_refl (x ∷ xs) = ground (arith, str_eq_refl xs)

pub str_eq_iff : (a b : Bytes) → (str_eq a b ≡ true) ↔ (a ≡ b)
str_eq_iff a b = (str_eq→eq a b, λ e. rw e (str_eq_refl b))

-- `a < b`, the order of slices.
unfoldable pub str_lt : Bytes → Bytes → Bool
str_lt [] [] = false
str_lt [] (y ∷ ys) = true
str_lt (x ∷ xs) [] = false
str_lt (x ∷ xs) (y ∷ ys) = if x == y then str_lt xs ys else ltb x y

pub str_lt_irrefl : (a : Bytes) → str_lt a a ≡ false
unfolding str_lt
str_lt_irrefl [] = refl
str_lt_irrefl (x ∷ xs) = ground (arith, str_lt_irrefl xs)

pub str_lt_trans : (a b c : Bytes) → str_lt a b ≡ true → str_lt b c ≡ true → str_lt a c ≡ true
unfolding str_lt
str_lt_trans [] [] c h k = cc
str_lt_trans [] (y ∷ ys) [] h k = cc
str_lt_trans [] (y ∷ ys) (z ∷ zs) h k = refl
str_lt_trans (x ∷ xs) [] c h k = cc
str_lt_trans (x ∷ xs) (y ∷ ys) [] h k = cc
str_lt_trans (x ∷ xs) (y ∷ ys) (z ∷ zs) h k = ground (arith, str_lt_trans xs ys zs)

pub str_lt_total : (a b : Bytes) → str_eq a b ≡ false → str_lt a b ≡ false → str_lt b a ≡ true
unfolding str_eq str_lt
str_lt_total [] [] h k = cc
str_lt_total [] (y ∷ ys) h k = cc
str_lt_total (x ∷ xs) [] h k = refl
str_lt_total (x ∷ xs) (y ∷ ys) h k = ground (arith, str_lt_total xs ys)

pub str_lt→ne : (a b : Bytes) → str_lt a b ≡ true → str_eq a b ≡ false
str_lt→ne a b h = elim (Bool-cases (str_eq a b)) [
  | inl e ↦ let q : str_lt b b ≡ true = rw (str_eq→eq a b e) at h in let r = str_lt_irrefl b in cc
  | inr n ↦ n
]
