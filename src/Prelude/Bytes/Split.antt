-- ===== src/Prelude/Bytes/Split.antt =====
-- Searching and splitting byte strings, as the methods of `str` do.
use Prim.Native.Nat.{ℕ}
use mathlib.Core.Path.{◌≡◌, refl, ap, ◌∙◌}
use mathlib.Core.Logic.{inl, inr}
use mathlib.Core.Bool.{Bool, true, false, ◌&&◌, ◌||◌}
use mathlib.Core.Option.{Option, none, some}
use mathlib.Core.List.{List, [], ◌∷◌, ◌++◌, map}
use native.Mathlib.Omega.{arith}
use tally_vcs.Prelude.Tests.{◌==◌, if◌then◌else◌, ==_iff, Bool-cases}
use tally_vcs.Prelude.Lists.{all}
use tally_vcs.Prelude.Bytes.Basic.{Bytes}

-- `s.contains(c)` for a byte.
unfoldable pub contains : ℕ → Bytes → Bool
contains c [] = false
contains c (x ∷ xs) = x == c || contains c xs

-- `s.strip_prefix(p)`
unfoldable pub strip_prefix : Bytes → Bytes → Option Bytes
strip_prefix [] s = some s
strip_prefix (c ∷ p) [] = none
strip_prefix (c ∷ p) (x ∷ s) = if x == c then strip_prefix p s else none

-- `s.split(c)`: the piece that is being read comes first.
unfoldable pub split : ℕ → Bytes → Bytes × List Bytes
split c [] = ([], [])
split c (x ∷ xs) =
    let (piece, pieces) = split c xs in if x == c then ([], piece ∷ pieces) else (x ∷ piece, pieces)

-- `s.strip_suffix(c).unwrap_or(s)`, for one byte.
unfoldable pub trim_one : ℕ → Bytes → Bytes
trim_one c [] = []
trim_one c (x ∷ []) = if x == c then [] else x ∷ []
trim_one c (x ∷ y ∷ xs) = x ∷ trim_one c (y ∷ xs)

pub contains-append : (c : ℕ) (a b : Bytes) → contains c (a ++ b) ≡ (contains c a || contains c b)
unfolding contains
contains-append c [] b = refl
contains-append c (x ∷ xs) b = ground (arith, contains-append c xs b)

pub strip_prefix-append : (p s : Bytes) → strip_prefix p (p ++ s) ≡ some s
unfolding strip_prefix
strip_prefix-append [] s = refl
strip_prefix-append (c ∷ p) s = ground (arith, strip_prefix-append p s)

pub strip_prefix-eq-some : (p s r : Bytes) → strip_prefix p s ≡ some r → s ≡ p ++ r
unfolding strip_prefix
strip_prefix-eq-some [] s r h = ground arith
strip_prefix-eq-some (c ∷ p) [] r h = cc
strip_prefix-eq-some (c ∷ p) (x ∷ s) r h = ground (arith, strip_prefix-eq-some p s r)

-- A piece without the separator is read whole.
pub split-append :
    (c : ℕ) (a b : Bytes)
    → contains c a ≡ false
    → split c (a ++ (c ∷ b)) ≡ (a, (split c b).0 ∷ (split c b).1)
unfolding split contains
split-append c [] b h = ground arith
split-append c (x ∷ xs) b h = ground (arith, split-append c xs b)

pub split_whole : (c : ℕ) (a : Bytes) → contains c a ≡ false → split c a ≡ (a, [])
unfolding split contains
split_whole c [] h = refl
split_whole c (x ∷ xs) h = ground (arith, split_whole c xs)

pub trim_one-append : (c : ℕ) (a : Bytes) → trim_one c (a ++ (c ∷ [])) ≡ a
unfolding trim_one
trim_one-append c [] = ground arith
trim_one-append c (x ∷ []) = ground arith
trim_one-append c (x ∷ y ∷ xs) = ap (λ (t : Bytes). x ∷ t) (trim_one-append c (y ∷ xs))

pub trim_one_other : (c : ℕ) (a : Bytes) → contains c a ≡ false → trim_one c a ≡ a
unfolding trim_one contains
trim_one_other c [] h = refl
trim_one_other c (x ∷ []) h = ground arith
trim_one_other c (x ∷ y ∷ xs) h =
    ap (λ (t : Bytes). x ∷ t) (trim_one_other c (y ∷ xs) (ground arith))

-- The pieces of a split, with the separator between them, are the text.
unfoldable pub join : ℕ → Bytes → List Bytes → Bytes
join c piece [] = piece
join c piece (p ∷ pieces) = piece ++ (c ∷ join c p pieces)

pub join-split : (c : ℕ) (s : Bytes) → join c (split c s).0 (split c s).1 ≡ s
unfolding join split
join-split c [] = refl
join-split c (x ∷ xs) = elim (Bool-cases (x == c)) [
  | inl e ↦ rw (e, if◌then◌else◌) (rw (join-split c xs) (ground arith))
  | inr n ↦
      rw (n, if◌then◌else◌)
        (join_head x (split c xs).0 (split c xs).1 ∙ ap (λ (t : Bytes). x ∷ t) (join-split c xs))
]
  where
    join_head : (y : ℕ) (p : Bytes) (ps : List Bytes) → join c (y ∷ p) ps ≡ y ∷ join c p ps
    join_head y p [] = refl
    join_head y p (q ∷ qs) = refl

-- Bytes that all pass a test do not contain one that fails it.
pub not_contains :
    (p : ℕ → Bool) (c : ℕ) (s : Bytes) → all p s ≡ true → p c ≡ false → contains c s ≡ false
unfolding contains
not_contains p c [] h k = refl
not_contains p c (x ∷ xs) h k = elim (Bool-cases (x == c)) [
  | inl e ↦ let q : x ≡ c = (==_iff x c).0 e in ground (arith, ap p q)
  | inr n ↦ ground (arith, not_contains p c xs)
]

-- `s.split_inclusive(c)`
abbrev onto_first : ℕ → List Bytes → List Bytes
onto_first x [] = (x ∷ []) ∷ []
onto_first x (p ∷ ps) = (x ∷ p) ∷ ps

unfoldable pub split_inclusive : ℕ → Bytes → List Bytes
split_inclusive c [] = []
split_inclusive c (x ∷ xs) =
    let pieces = split_inclusive c xs in if x == c then (x ∷ []) ∷ pieces else onto_first x pieces

unfoldable pub concat : List Bytes → Bytes
concat [] = []
concat (p ∷ ps) = p ++ concat ps

pub split_inclusive-append :
    (c : ℕ) (a b : Bytes)
    → contains c a ≡ false
    → split_inclusive c (a ++ (c ∷ b)) ≡ (a ++ (c ∷ [])) ∷ split_inclusive c b
unfolding split_inclusive contains
split_inclusive-append c [] b h = ground arith
split_inclusive-append c (x ∷ xs) b h = ground (arith, split_inclusive-append c xs b)

pub concat-split_inclusive : (c : ℕ) (s : Bytes) → concat (split_inclusive c s) ≡ s
unfolding split_inclusive concat
concat-split_inclusive c [] = refl
concat-split_inclusive c (x ∷ xs) = elim (Bool-cases (x == c)) [
  | inl e ↦ rw (e, if◌then◌else◌) (ap (λ (t : Bytes). x ∷ t) (concat-split_inclusive c xs))
  | inr n ↦
      rw (n, if◌then◌else◌)
        (concat-onto_first (split_inclusive c xs)
          ∙ ap (λ (t : Bytes). x ∷ t) (concat-split_inclusive c xs))
]
  where
    concat-onto_first : (ps : List Bytes) → concat (onto_first x ps) ≡ x ∷ concat ps
    concat-onto_first [] = refl
    concat-onto_first (p ∷ ps) = refl

-- `s.starts_with(p)`
unfoldable pub starts_with : Bytes → Bytes → Bool
starts_with [] s = true
starts_with (c ∷ p) [] = false
starts_with (c ∷ p) (x ∷ s) = x == c && starts_with p s

-- The line ending that `lines` drops: LF, or CR LF.
unfoldable pub chomp : Bytes → Bytes
chomp [] = []
chomp (x ∷ []) = if x == 10 then [] else x ∷ []
chomp (x ∷ y ∷ []) = if y == 10 then (if x == 13 then [] else x ∷ []) else x ∷ y ∷ []
chomp (x ∷ y ∷ z ∷ s) = x ∷ chomp (y ∷ z ∷ s)

-- `s.lines()`
unfoldable pub lines : Bytes → List Bytes
lines s = map chomp (split_inclusive 10 s)

pub chomp-append : (a : Bytes) → contains 13 a ≡ false → chomp (a ++ (10 ∷ [])) ≡ a
unfolding chomp contains
chomp-append [] h = refl
chomp-append (x ∷ []) h = ground arith
chomp-append (x ∷ y ∷ []) h = ap (λ (t : Bytes). x ∷ t) (chomp-append (y ∷ []) (ground arith))
chomp-append (x ∷ y ∷ z ∷ s) h = ap (λ (t : Bytes). x ∷ t) (chomp-append (y ∷ z ∷ s) (ground arith))

-- A line without an ending of its own is read whole.
pub lines-append :
    (a b : Bytes)
    → contains 10 a ≡ false
    → contains 13 a ≡ false
    → lines (a ++ (10 ∷ b)) ≡ a ∷ lines b
unfolding lines
lines-append a b h k = rw (split_inclusive-append 10 a b h) (rw (chomp-append a k) refl)
