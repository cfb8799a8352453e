-- ===== src/Revision/Lineage.antt =====
-- Proofs on `split_suffixes` and `apply_suffixes` of src/revision.rs.
use tally_vcs.Prelude.{
  ℕ, zero, suc, ◌≤◌, ◌<◌, Bool, true, false, List, [], ◌∷◌, ◌++◌, Option, none, some, ◌≡◌, refl,
  sym, ap, ◌∙◌, arith, length, get_elem?, ok, >>=-eq-ok, Option-cases, inl, inr, ok_injective,
}
use tally_vcs.Prelude.Bytes.{Bytes, bytes, str_eq, concat}
use tally_vcs.Revision.Suffixes.{
  StatePoint, Resolved, split_base, span_digits, span_brace, span_count, next_suffix, suffixes_fuel,
  split_suffixes, step_back, back_from_head, back_by, apply_suffix, apply_all, resolved_at,
  apply_suffixes, parse_usize, strip_tilde, inside_braces, char_rest,
}

split_base-append : (f : Bool) (s : Bytes) → (split_base f s).0 ++ (split_base f s).1 ≡ s
unfolding split_base
split_base-append f [] = refl
split_base-append f (c ∷ s) = ground (arith, split_base-append false s)

-- A piece and what follows it are the text, and nothing grows.
abbrev IsSplit : Bytes → Bytes × Bytes → Type 0
IsSplit s r = (r.0 ++ r.1 ≡ s) × (length r.1 ≤ length s)

span_digits-IsSplit : (s : Bytes) → IsSplit s (span_digits s)
unfolding span_digits
span_digits-IsSplit [] = (refl, omega arith)
span_digits-IsSplit (c ∷ s) = ground (arith, span_digits-IsSplit s)

span_brace-IsSplit : (s : Bytes) → IsSplit s (span_brace s)
unfolding span_brace
span_brace-IsSplit [] = (refl, omega arith)
span_brace-IsSplit (c ∷ s) = ground (arith, span_brace-IsSplit s)

span_count-IsSplit : (n : ℕ) (s : Bytes) → IsSplit s (span_count n s)
unfolding span_count
span_count-IsSplit zero s = (refl, omega arith)
span_count-IsSplit (suc n) [] = (refl, omega arith)
span_count-IsSplit (suc n) (c ∷ s) = ground (arith, span_count-IsSplit n s)

next_suffix-IsSplit : (c : ℕ) (s : Bytes) → IsSplit s (next_suffix c s)
unfolding next_suffix
next_suffix-IsSplit c s =
    ground (arith, span_digits-IsSplit s, span_brace-IsSplit s, span_count-IsSplit (char_rest c) s)

concat-suffixes_fuel : (n : ℕ) (s : Bytes) → length s ≤ n → concat (suffixes_fuel n s) ≡ s
unfolding suffixes_fuel concat
concat-suffixes_fuel n [] h = refl
concat-suffixes_fuel zero (c ∷ s) h = absurd (omega arith)
concat-suffixes_fuel (suc n) (c ∷ s) h =
    let (e, l) = next_suffix-IsSplit c s in
    ap (λ (t : Bytes). c ∷ t) (rw (concat-suffixes_fuel n (next_suffix c s).1 (omega arith)) e)

-- The base and the suffixes that a revision is split into, joined, are the revision.
pub concat-split_suffixes :
    (spec : Bytes) → (split_suffixes spec).0 ++ concat (split_suffixes spec).1 ≡ spec
unfolding split_suffixes
concat-split_suffixes spec =
    rw
      (concat-suffixes_fuel (length (split_base true spec).1) (split_base true spec).1
        (omega arith))
      (split_base-append true spec)

back_from_head-lt : (count : ℕ) (o : Option ℕ) (j : ℕ) → back_from_head count o ≡ ok j → j < count
unfolding back_from_head
back_from_head-lt count none j h = cc
back_from_head-lt count (some n) j h = ground arith

back_by-le : (i : ℕ) (o : Option ℕ) (j : ℕ) → back_by i o ≡ ok j → j ≤ i
unfolding back_by step_back
back_by-le i none j h = cc
back_by-le i (some n) j h = ground arith

apply_suffix-lt :
    (count i : ℕ) (s : Bytes) (j : ℕ) → i < count → apply_suffix count i s ≡ ok j → j < count
unfolding apply_suffix step_back
apply_suffix-lt count i s j l h = elim (Option-cases (strip_tilde s)) [
  | inr (digits, e) ↦ let k = back_by-le i (parse_usize digits) j in ground arith
  | inl e ↦ elim (Option-cases (inside_braces s)) [
    | inr (inner, f) ↦ let k = back_from_head-lt count (parse_usize inner) j in ground arith
    | inl f ↦ ground arith
  ]
]

apply_all-lt :
    (count i : ℕ) (ss : List Bytes) (j : ℕ) → i < count → apply_all count i ss ≡ ok j → j < count
unfolding apply_all
apply_all-lt count i [] j l h = rw (sym (ok_injective h)) l
apply_all-lt count i (s ∷ ss) j l h =
    let (k, e, f) = >>=-eq-ok (apply_suffix count i s) _ h in
    apply_all-lt count k ss j (apply_suffix-lt count i s k l e) f

get_elem?-lt {ℓ} :
    {A : Type ℓ} (xs : List A) (i : ℕ) → i < length xs → (x : A) × (get_elem? xs i ≡ some x)
get_elem?-lt [] i h = absurd (omega arith)
get_elem?-lt (x ∷ xs) zero h = (x, refl)
get_elem?-lt (x ∷ xs) (suc i) h = get_elem?-lt xs i (omega arith)

-- From a point of the lineage, the suffixes that are accepted lead to a point of the lineage, and
-- what is resolved is the state there: the index is never out of range.
pub apply_suffixes-point :
    (fork : Bytes) (index : ℕ) (points : List StatePoint) (suffixes : List Bytes)
    (o : Option Resolved)
    → index < length points
    → apply_suffixes fork index points suffixes ≡ ok o
    → (i : ℕ) × (p : StatePoint) × (get_elem? points i ≡ some p)
      × (o ≡ some (record { fork = fork; sum = p.sum; line = p.line }))
unfolding apply_suffixes
apply_suffixes-point fork index points suffixes o l h =
    let (i, e, f) = >>=-eq-ok (apply_all (length points) index suffixes) _ h in
    let (p, g) = get_elem?-lt points i (apply_all-lt (length points) index suffixes i l e) in
    (i, p, g, sym (ok_injective f) ∙ ap (resolved_at fork) g)

-- `n` carets.
abbrev carets : ℕ → List Bytes
carets zero = []
carets (suc n) = bytes "^" ∷ carets n

-- `n` carets step back as far as `~n` does, and are refused where it is.
pub apply_all-carets : (count index n : ℕ) → apply_all count index (carets n) ≡ step_back index n
unfolding apply_all apply_suffix step_back str_eq
apply_all-carets count index zero = ground arith
apply_all-carets count zero (suc n) = ground arith
apply_all-carets count (suc index) (suc n) =
    let one : step_back (suc index) 1 ≡ ok index = ground arith in
    rw (one, apply_all-carets count index n) (ground arith)
