-- ===== src/Ignore/Verdict.antt =====
-- Proofs on `Ignore::is_ignored` of src/ignore.rs.
use tally_vcs.Prelude.{
  Bool, true, false, not, List, [], ◌∷◌, ◌≡◌, ◌↔◌, refl, arith, ◌⊎◌, inl, inr, Bool-cases, All,
  if◌then◌else◌,
}
use tally_vcs.Prelude.Bytes.{Bytes}
use tally_vcs.Ignore.Rules.{Rule, Ignore, applies, verdict, is_ignored, pieces}

-- A rule that speaks of the path, behind which none does.
pub data Decides (is_dir : Bool) (segs : List Bytes) (rule : Rule) : List Rule → Type 0 where
  here :
      {rules : List Rule}
      → applies is_dir segs rule ≡ true
      → All (λ r. applies is_dir segs r ≡ false) rules
      → Decides is_dir segs rule (rule ∷ rules)
  later :
      {other : Rule} {rules : List Rule}
      → Decides is_dir segs rule rules
      → Decides is_dir segs rule (other ∷ rules)

module _ (is_dir : Bool) (segs : List Bytes) where
  verdict_silent :
      (ignored : Bool) (rules : List Rule)
      → All (λ r. applies is_dir segs r ≡ false) rules
      → verdict is_dir segs ignored rules ≡ ignored
  unfolding verdict
  verdict_silent ignored [] h = refl
  verdict_silent ignored (r ∷ rules) h = rw (h.0, if◌then◌else◌) (verdict_silent ignored rules h.1)

  verdict-Decides :
      {rule : Rule} {rules : List Rule} (ignored : Bool)
      → Decides is_dir segs rule rules
      → verdict is_dir segs ignored rules ≡ not rule.negated
  unfolding verdict
  verdict-Decides {rule} ignored (here {rules = rules} a h) =
      rw (a, if◌then◌else◌) (verdict_silent (not rule.negated) rules h)
  verdict-Decides ignored (later d) = verdict-Decides _ d

  Decides-cases :
      (rules : List Rule)
      → All (λ r. applies is_dir segs r ≡ false) rules
        ⊎ ((rule : Rule) × Decides is_dir segs rule rules)
  Decides-cases [] = inl tt
  Decides-cases (r ∷ rules) = elim (Decides-cases rules) [
    | inr (rule, d) ↦ inr (rule, later d)
    | inl h ↦ elim (Bool-cases (applies is_dir segs r)) [
      | inl a ↦ inr (r, here a h)
      | inr n ↦ inl (n, h)
    ]
  ]

-- A path is ignored exactly when some rule applies to it and the last rule that does is not
-- negated.
pub is_ignored_iff :
    (ignore : Ignore) (path : Bytes) (is_dir : Bool)
    → (is_ignored ignore path is_dir ≡ true) ↔ (
        (rule : Rule) × Decides is_dir (pieces b'/' path) rule ignore.rules
        × (rule.negated ≡ false))
unfolding is_ignored
is_ignored_iff ignore path is_dir =
    let segs = pieces b'/' path in
    (
      λ h. elim (Decides-cases is_dir segs ignore.rules) [
        | inl silent ↦ let e = verdict_silent is_dir segs false ignore.rules silent in cc
        | inr (rule, d) ↦ let e = verdict-Decides is_dir segs false d in (rule, d, ground arith)
      ],
      λ (rule, d, n). let e = verdict-Decides is_dir segs false d in ground arith,
    )
