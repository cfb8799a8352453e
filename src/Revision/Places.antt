-- ===== src/Revision/Places.antt =====
-- Proofs on `resolve` of src/revision.rs and the places that it reads.
use tally_vcs.Prelude.{
  ℕ, ◌<◌, Bool, List, [], ◌∷◌, some, ◌≡◌, arith, length, Option-cases, inl, inr,
}
use tally_vcs.Prelude.Bytes.{Bytes}
use tally_vcs.BTreeMap.{BTreeMap}
use tally_vcs.Revision.Suffixes.{StatePoint}
use tally_vcs.Revision.Resolve.{Repository, Place, rposition}
use tally_vcs.Setsum.{Setsum}

module _ ⦃S : Setsum⦄ (repo : Repository) where
  -- A place on a lineage: the index is one of its points.
  IsPlace : Place → Type 0
  IsPlace (fork, i, points) = i < length points

  pub rposition-lt :
      (f : StatePoint → Bool) (ps : List StatePoint) (i : ℕ)
      → rposition f ps ≡ some i
      → i < length ps
  unfolding rposition
  rposition-lt f [] i h = cc
  rposition-lt f (p ∷ ps) i h = elim (Option-cases (rposition f ps)) [
    | inl e ↦ ground arith
    | inr (j, e) ↦ let k = rposition-lt f ps j e in ground arith
  ]
