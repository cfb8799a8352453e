-- ===== src/Revision/Base.antt =====
-- Proofs on `lineage_states` of src/revision.rs.
use tally_vcs.Prelude.{List, [], ◌∷◌, none, ◌≡◌, refl, sym, ok}
use tally_vcs.Prelude.Bytes.{Bytes}
use tally_vcs.Log.{LogLine, verify_chain}
use tally_vcs.Log.Chain.{Chain, done, link, verify_chain_iff}
use tally_vcs.Patch.Invert.{apply_realized-invert}
use tally_vcs.Revision.Resolve.{Repository, points_of, lines_of, base_sum, lineage_states}
use tally_vcs.Setsum.{Setsum, Sum, hexdigest, from_hexdigest-hexdigest}

module _ ⦃S : Setsum⦄ (repo : Repository) where
  Chain-base_sum :
      (fork : Bytes) (anchor last : Sum) (lines : List LogLine) (prev : Bytes)
      → repo.current_sum fork ≡ ok last
      → Chain last anchor prev lines
      → base_sum repo fork lines ≡ ok (hexdigest anchor)
  unfolding base_sum
  Chain-base_sum fork anchor last [] _ h (done prev) = rw h refl
  Chain-base_sum fork anchor last (line ∷ lines) _ h (link {sum₁ = sum₁} p a s c) =
      rw (sym s, from_hexdigest-hexdigest sum₁)
        (rw (apply_realized-invert line.realized anchor sum₁ a) refl)

  -- If the continuity log of a fork can be read, the fork has a current sum, and the log verifies
  -- from an anchor to that sum, the lineage of the fork is the state of the anchor followed by the
  -- state after each line.
  pub lineage_states-verify_chain :
      (fork : Bytes) (history : List (Bytes × LogLine)) (anchor last : Sum)
      → repo.continuity_log fork ≡ ok history
      → repo.current_sum fork ≡ ok last
      → verify_chain anchor (lines_of history) ≡ ok last
      → lineage_states repo fork
        ≡ ok (record { sum = hexdigest anchor; line = none } ∷ points_of (lines_of history))
  unfolding lineage_states
  lineage_states-verify_chain fork history anchor last h k v = rw h (
      rw
        (Chain-base_sum fork anchor last (lines_of history) [] k
          ((verify_chain_iff anchor last (lines_of history)).0 v))
        refl)
