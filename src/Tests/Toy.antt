-- ===== src/Tests/Toy.antt =====
-- The parameters of the model at their smallest: a setsum with two elements, which holds the parity
-- of the bytes, and a digest that repeats the length of its input.
use tally_vcs.Prelude.{
  ℕ, zero, suc, ◌%◌, Bool, true, false, not, [], ◌∷◌, Option, none, some, ◌≡◌, refl, ◌↔◌, length,
  All, arith, if◌then◌else◌, ◌==◌,
}
use tally_vcs.Prelude.Bytes.{Bytes, IsByte, str_eq}
use tally_vcs.Ident.Hex.{Sha3, is_hex64, is_hex_char}
use tally_vcs.Setsum.{Setsum}

abbrev pub xor : Bool → Bool → Bool
xor false b = b
xor true b = not b

unfoldable pub parity : Bytes → Bool
parity [] = false
parity (b ∷ bs) = xor (b % 2 == 1) (parity bs)

unfoldable pub repeat : ℕ → ℕ → Bytes
repeat zero c = []
repeat (suc n) c = c ∷ repeat n c

unfoldable pub show : Bool → Bytes
unfolding repeat
show false = repeat 64 b'0'
show true = repeat 64 b'1'

unfoldable pub read : Bytes → Option Bool
unfolding show str_eq
read s =
    if str_eq s (show false) then some false else if str_eq s (show true) then some true else none

pub show-is_hex64 : (a : Bool) → is_hex64 (show a) ≡ true
unfolding show is_hex64 is_hex_char
show-is_hex64 true = refl
show-is_hex64 false = refl

pub read-show : (a : Bool) → read (show a) ≡ some a
unfolding read
read-show true = refl
read-show false = refl

pub xor_comm : (a b : Bool) → xor a b ≡ xor b a
xor_comm a b = ground arith

pub xor_assoc : (a b c : Bool) → xor (xor a b) c ≡ xor a (xor b c)
xor_assoc a b c = ground arith

pub xor-false : (a : Bool) → xor a false ≡ a
xor-false a = ground arith

pub xor_twice : (a b : Bool) → xor (xor a b) b ≡ a
xor_twice a b = ground arith

pub xor_eq_iff : (a b : Bool) → (not (xor a b) ≡ true) ↔ (a ≡ b)
xor_eq_iff a b = ground arith

pub add_parity : (a : Bool) (x : Bytes) → xor a (parity x) ≡ xor a (xor false (parity x))
add_parity a x = refl

instance abbrev pub toy_setsum : Setsum
toy_setsum = record {
  Carrier = Bool;
  default = false;
  insert = λ s x. xor s (parity x);
  remove = λ s x. xor s (parity x);
  add = xor;
  sub = xor;
  hexdigest = show;
  from_hexdigest = read;
  eq = λ a b. not (xor a b);
  eq_iff = xor_eq_iff;
  add_comm = xor_comm;
  add_assoc = xor_assoc;
  add-default = xor-false;
  sub-add = xor_twice;
  add-sub = xor_twice;
  insert_lem = add_parity;
  remove_lem = add_parity;
  hexdigest-is_hex64 = show-is_hex64;
  from_hexdigest-hexdigest = read-show;
}

unfoldable pub toy_digest : Bytes → Bytes
unfolding repeat
toy_digest b = repeat 32 (length b % 256)

length-repeat : (n c : ℕ) → length (repeat n c) ≡ n
unfolding repeat
length-repeat zero c = refl
length-repeat (suc n) c = omega (arith, length-repeat n c)

repeat-IsByte : (n c : ℕ) → IsByte c → All IsByte (repeat n c)
unfolding repeat
repeat-IsByte zero c h = tt
repeat-IsByte (suc n) c h = (h, repeat-IsByte n c h)

pub length-toy_digest : (b : Bytes) → length (toy_digest b) ≡ 32
unfolding toy_digest
length-toy_digest b = length-repeat 32 (length b % 256)

pub toy_digest-IsByte : (b : Bytes) → All IsByte (toy_digest b)
unfolding toy_digest
toy_digest-IsByte b = repeat-IsByte 32 (length b % 256) (omega arith)

instance abbrev pub toy_sha3 : Sha3
toy_sha3 = record {
  digest = toy_digest;
  length-digest = length-toy_digest;
  digest-IsByte = toy_digest-IsByte;
}
