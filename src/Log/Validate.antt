-- ===== src/Log/Validate.antt =====
-- Proofs on `validate` and `last_state_position` of src/log.rs.
use tally_vcs.Prelude.{
  ℕ, zero, suc, Bool, true, false, not, ◌&&◌, List, [], ◌∷◌, Option, none, some, ◌≡◌, ◌≢◌, ◌↔◌,
  refl, inl, inr, arith, if◌then◌else◌, Bool-cases, ok, invalid, require, >>=-eq-ok, require-eq-ok,
  &&-eq-true,
}
use tally_vcs.Prelude.Bytes.{Bytes, str_eq, str_eq→eq, str_eq_iff}
use tally_vcs.BTreeMap.{is_some}
use tally_vcs.Log.{
  LogLine, Fuse, Provenance, agent, andon, union, fuse, is_empty, is_blank, validate,
  validate_provenance, validate_fuse, last_state_position,
}

-- The option holds a value with this property.
abbrev pub Holds {ℓ} : {A : Type ℓ} → (A → Type 0) → Option A → Type 0
Holds P none = ⊥
Holds P (some a) = P a

-- The rules of the format: a line with a fuse realizes nothing; a fuse line has a fuse with a name
-- and no operations; an andon line has a reason that is not empty and a signature; a union line has
-- an origin.
abbrev pub RequiredOf : Provenance → LogLine → Type 0
RequiredOf agent line = Unit
RequiredOf andon line =
    Holds (λ reason. reason ≢ []) line.annotation.reason × Holds (λ sig. Unit) line.annotation.sig
RequiredOf union line = Holds (λ origin. Unit) line.annotation.origin
RequiredOf fuse line = Holds (λ f. f.name ≢ []) line.annotation.fuse_span × (line.intent.ops ≡ [])

pub record IsLegal (line : LogLine) : Type 0 where
  pub inert : Holds (λ f. Unit {0}) line.annotation.fuse_span → line.realized ≡ []
  pub required : RequiredOf line.annotation.provenance line

empty→eq {ℓ} : {A : Type ℓ} (xs : List A) → is_empty xs ≡ true → xs ≡ []
empty→eq [] h = refl
empty→eq (x ∷ xs) h = cc

nonempty→ne {ℓ} : {A : Type ℓ} (xs : List A) → not (is_empty xs) ≡ true → xs ≢ []
nonempty→ne [] h e = cc
nonempty→ne (x ∷ xs) h e = cc

ne→nonempty {ℓ} : {A : Type ℓ} (xs : List A) → xs ≢ [] → not (is_empty xs) ≡ true
ne→nonempty [] h = absurd (h refl)
ne→nonempty (x ∷ xs) h = refl

Holds-is_some {ℓ} : {A : Type ℓ} (o : Option A) → is_some o ≡ true → Holds (λ a. Unit {0}) o
Holds-is_some none h = absurd (cc)
Holds-is_some (some a) h = tt

is_some-Holds {ℓ} : {A : Type ℓ} (o : Option A) → Holds (λ a. Unit {0}) o → is_some o ≡ true
is_some-Holds none h = absurd h
is_some-Holds (some a) h = refl

Holds-not_blank : (o : Option Bytes) → not (is_blank o) ≡ true → Holds (λ s. s ≢ []) o
Holds-not_blank none h = absurd (cc)
Holds-not_blank (some s) h = nonempty→ne s h

not_blank-Holds : (o : Option Bytes) → Holds (λ s. s ≢ []) o → not (is_blank o) ≡ true
not_blank-Holds none h = absurd h
not_blank-Holds (some s) h = ne→nonempty s h

module _ (line : LogLine) where
  required_of_fuse :
      (o : Option Fuse)
      → validate_fuse o line ≡ ok tt
      → Holds (λ f. f.name ≢ []) o × (line.intent.ops ≡ [])
  required_of_fuse none h = absurd (cc)
  required_of_fuse (some f) h =
      let (u, h₀, k₀) = >>=-eq-ok (require (not (is_empty f.name)) invalid) _ h in
      (nonempty→ne f.name (require-eq-ok _ _ h₀), empty→eq line.intent.ops (require-eq-ok _ _ k₀))

  fuse_of_required :
      (o : Option Fuse)
      → Holds (λ f. f.name ≢ []) o
      → line.intent.ops ≡ []
      → validate_fuse o line ≡ ok tt
  fuse_of_required none h k = absurd h
  fuse_of_required (some f) h k = rw (ne→nonempty f.name h) (rw k refl)

  RequiredOf-ok : (p : Provenance) → validate_provenance p line ≡ ok tt → RequiredOf p line
  RequiredOf-ok agent h = tt
  RequiredOf-ok andon h =
      let (u, h₀, k₀) = >>=-eq-ok (require (not (is_blank line.annotation.reason)) invalid) _ h in
      (
        Holds-not_blank line.annotation.reason (require-eq-ok _ _ h₀),
        Holds-is_some line.annotation.sig (require-eq-ok _ _ k₀),
      )
  RequiredOf-ok union h = Holds-is_some line.annotation.origin (require-eq-ok _ _ h)
  RequiredOf-ok fuse h = required_of_fuse line.annotation.fuse_span h

  ok_of_required : (p : Provenance) → RequiredOf p line → validate_provenance p line ≡ ok tt
  ok_of_required agent h = refl
  ok_of_required andon h =
      rw (not_blank-Holds line.annotation.reason h.0)
        (rw (is_some-Holds line.annotation.sig h.1) refl)
  ok_of_required union h = rw (is_some-Holds line.annotation.origin h) refl
  ok_of_required fuse h = fuse_of_required line.annotation.fuse_span h.0 h.1

  abbrev moves : Bool
  moves = is_some line.annotation.fuse_span && not (is_empty line.realized)

  IsLegal-ok : validate line ≡ ok tt → IsLegal line
  unfolding validate
  IsLegal-ok h = elim (Bool-cases moves) [
    | inl e ↦ absurd (ground arith)
    | inr e ↦ record {
      inert = λ f.
          let s = is_some-Holds line.annotation.fuse_span f in
          empty→eq line.realized (ground arith);
      required = RequiredOf-ok line.annotation.provenance (rw (e, if◌then◌else◌) at h);
    }
  ]

  ok_of_legal : IsLegal line → validate line ≡ ok tt
  unfolding validate
  ok_of_legal l = elim (Bool-cases moves) [
    | inl e ↦
        let (s, n) = &&-eq-true _ _ e in
        absurd (nonempty→ne line.realized n (l.inert (Holds-is_some line.annotation.fuse_span s)))
    | inr e ↦ rw e (ok_of_required line.annotation.provenance l.required)
  ]

-- `validate` accepts a line exactly when it obeys the rules of the format.
pub validate_iff : (line : LogLine) → (validate line ≡ ok tt) ↔ IsLegal line
validate_iff line = (IsLegal-ok line, ok_of_legal line)

-- No line from `i` on states this sum.
abbrev pub Absent : Bytes → List LogLine → Type 0
Absent sum_hex [] = Unit
Absent sum_hex (line ∷ lines) = (line.sum_after ≢ sum_hex) × Absent sum_hex lines

-- The answer of a search for the last line that states a sum.
abbrev pub IsLast : Bytes → List LogLine → Option ℕ → Type 0
IsLast sum_hex lines none = Absent sum_hex lines
IsLast sum_hex [] (some i) = ⊥
IsLast sum_hex (line ∷ lines) (some zero) = (line.sum_after ≡ sum_hex) × Absent sum_hex lines
IsLast sum_hex (line ∷ lines) (some (suc i)) = IsLast sum_hex lines (some i)

str_eq→ne : (a b : Bytes) → str_eq a b ≡ false → a ≢ b
str_eq→ne a b h e = let k = (str_eq_iff a b).1 e in cc

-- last_state_position gives the last line that states a sum, and none exactly when no line states
-- it.
pub last_state_position-IsLast :
    (lines : List LogLine) (sum_hex : Bytes)
    → IsLast sum_hex lines (last_state_position lines sum_hex)
unfolding last_state_position
last_state_position-IsLast [] sum_hex = tt
last_state_position-IsLast (line ∷ lines) sum_hex =
    go (last_state_position lines sum_hex) (last_state_position-IsLast lines sum_hex)
  where
    go :
        (o : Option ℕ)
        → IsLast sum_hex lines o
        → IsLast sum_hex (line ∷ lines) (elim o [
          | some i ↦ some (suc i)
          | none ↦ if str_eq line.sum_after sum_hex then some 0 else none
        ])
    go (some i) h = h
    go none h = elim (Bool-cases (str_eq line.sum_after sum_hex)) [
      | inl e ↦ rw e (str_eq→eq _ _ e, h)
      | inr n ↦ rw n (str_eq→ne _ _ n, h)
    ]
