-- ===== src/Ignore/Matching.antt =====
-- Proofs on `match_segments` and `Rule::matches` of src/ignore.rs.
use tally_vcs.Prelude.{Bool, true, List, [], ◌∷◌, ◌++◌, ◌≡◌, refl, arith}
use tally_vcs.Prelude.Bytes.{Bytes}
use tally_vcs.Ignore.Rules.{Rule, any_suffix, any_start, match_segments, rule_matches}

-- A search of the suffixes of a list that succeeds does so on every longer list, where its test
-- does.
any_suffix-append {ℓ} :
    {A : Type ℓ} (f : List A → Bool) (xs more : List A)
    → ((s : List A) → f s ≡ true → f (s ++ more) ≡ true)
    → any_suffix f xs ≡ true
    → any_suffix f (xs ++ more) ≡ true
unfolding any_suffix
any_suffix-append f [] [] k h = h
any_suffix-append f [] (y ∷ more) k h = rw (k [] h) refl
any_suffix-append f (x ∷ xs) more k h = ground (arith, k (x ∷ xs), any_suffix-append f xs more k)

any_start-append {ℓ} :
    {A : Type ℓ} (f : List A → Bool) (xs more : List A)
    → ((s : List A) → f s ≡ true → f (s ++ more) ≡ true)
    → any_start f xs ≡ true
    → any_start f (xs ++ more) ≡ true
unfolding any_start
any_start-append f [] more k h = cc
any_start-append f (x ∷ xs) more k h = ground (arith, k (x ∷ xs), any_start-append f xs more k)

match_segments-append :
    (pats segs more : List Bytes)
    → match_segments pats segs ≡ true
    → match_segments pats (segs ++ more) ≡ true
unfolding match_segments
match_segments-append [] segs more h = refl
match_segments-append (pat ∷ rest) [] [] h = h
match_segments-append (pat ∷ rest) [] (m ∷ more) h = ground (
  arith,
  any_suffix-append (match_segments rest) [] (m ∷ more)
      (λ s k. match_segments-append rest s (m ∷ more) k),
)
match_segments-append (pat ∷ rest) (seg ∷ segs) more h = ground (
  arith,
  match_segments-append rest segs more,
  any_suffix-append (match_segments rest) (seg ∷ segs) more
      (λ s k. match_segments-append rest s more k),
)

-- A rule that matches a path matches every path below it.
pub rule_matches-append :
    (rule : Rule) (segs more : List Bytes)
    → rule_matches rule segs ≡ true
    → rule_matches rule (segs ++ more) ≡ true
unfolding rule_matches
rule_matches-append rule segs more h = ground (
  arith,
  match_segments-append rule.segments segs more,
  any_start-append (match_segments rule.segments) segs more
      (λ s k. match_segments-append rule.segments s more k),
)
