-- ===== src/Union/Landed.antt =====
-- Proofs on `union` of src/union.rs: what lands extends the target's log.
use tally_vcs.Prelude.{
  ℕ, subst, Bool, true, false, List, [], ◌∷◌, Option, ◌≡◌, refl, sym, ap, ◌∙◌, Result, ok,
  true≢false,
}
use tally_vcs.Prelude.Bytes.{Bytes}
use tally_vcs.Ident.Hex.{Sha3}
use tally_vcs.Log.{LogLine}
use tally_vcs.Log.Chain
use tally_vcs.Log.Chain.{at_end}
use tally_vcs.Log.Stored.{Serde}
use tally_vcs.Manifest.{Manifest, IsWellFormed}
use tally_vcs.Manifest
use tally_vcs.Repo.{Repo}
use tally_vcs.Repo.Apply.{append_sealed_locked}
use tally_vcs.Repo.Effects.{bind-eq-ok, IsSettled, current_state-Stays, same_repo}
use tally_vcs.Repo.Replay.{ForkState}
use tally_vcs.Repo.Run.{lock_fork, current_state}
use tally_vcs.Repo.States.{current_state-sum}
use tally_vcs.Setsum.{Setsum}
use tally_vcs.Union.Chained.{replay_source-IsOnward, ok_pair}
use tally_vcs.Union.Commit.{
  staged_lines, commit_clean, finish, replay_and_commit, union_forks, start_replay, carried_of,
}
use tally_vcs.Union.Landing.{Replay, Replayed, whole, gate}
use tally_vcs.Union.Outcome.{SemanticConflict, UnionOutcome, complete}

module _ ⦃S : Setsum⦄ ⦃h : Sha3⦄ (target : Bytes) (identical : Bool) (o : UnionOutcome)
    (done : complete o ≡ true) where
  incomplete :
      {P : Type 0} (p : UnionOutcome) (r r₁ : Repo)
      → complete p ≡ false
      → ◌≡◌ {A = Result UnionOutcome × Repo} (ok p, r) (ok o, r₁)
      → P
  incomplete p r r₁ f e =
      absurd (true≢false (sym done ∙ sym (ap complete (ok_pair p o r r₁ e)) ∙ f))

  commit_clean-landed :
      (s : Replay) (cs : List SemanticConflict) (r r₁ : Repo)
      → commit_clean target identical s cs r ≡ (ok o, r₁)
      → o.landed ≡ s.staged
  unfolding commit_clean complete
  commit_clean-landed s [] r r₁ e =
      let (u, r₂, e₁, k₁) =
        bind-eq-ok (append_sealed_locked target (staged_lines s.staged) s.bytes) _ r r₁ o e in
      ap (λ (p : UnionOutcome). p.landed) (sym (ok_pair _ o r₂ r₁ k₁))
  commit_clean-landed s (c ∷ cs) r r₁ e = incomplete _ r r₁ refl e

  finish-landed :
      (before : Manifest) (lines : List LogLine) (p : Replayed) (r r₁ : Repo)
      → finish target identical before lines p r ≡ (ok o, r₁)
      → (s : Replay) × (p ≡ whole s) × (o.landed ≡ s.staged)
  unfolding finish complete
  finish-landed before lines (gate id conflicts) r r₁ e = incomplete _ r r₁ refl e
  finish-landed before lines (whole s) r r₁ e =
      let (stranded, r₂, e₁, k₁) = bind-eq-ok _ _ r r₁ o e in
      (s, refl, commit_clean-landed s _ r₂ r₁ k₁)

module _ ⦃S : Setsum⦄ ⦃h : Sha3⦄ ⦃d : Serde⦄ where
  -- A step that leaves this repository as it is hands on the same repository.
  -- What landed was written on from this state.
  abbrev pub LandsOn : UnionOutcome → ForkState → Type 0
  LandsOn o state =
      (m : Manifest) × Chain.Replay state.manifest state.head_id (staged_lines o.landed) m

  replay_and_commit-Replay :
      (clock : ℕ → Option ℕ) (source target author anchor : Bytes) (source_state state : ForkState)
      (r after : Repo) (o : UnionOutcome)
      → state.sum ≡ Manifest.sum state.manifest
      → IsWellFormed state.manifest
      → replay_and_commit clock source target author anchor source_state state r ≡ (ok o, after)
      → complete o ≡ true
      → LandsOn o state
  unfolding replay_and_commit
  replay_and_commit-Replay clock source target author anchor source_state state r after o q w e c =
      let (concurrent, r₁, e₁, k₁) = bind-eq-ok _ _ r after o e in
      let (replayed, r₂, e₂, k₂) = bind-eq-ok _ _ r₁ after o k₁ in
      let (s, p, landed) = finish-landed target _ o c _ _ replayed r₂ after k₂ in
      let onward =
        replay_source-IsOnward source author concurrent state.manifest state.head_id clock _ _ _
          (start_replay (carried_of source state) state) s r₁ r₂ (rw p at e₂)
          (record { well_formed = w; summed = q; named = refl; written = at_end _ _ }) in
      (s.scratch, rw landed onward.written)

  -- If a union is complete, the lines that it landed were written on from the target's state: the
  -- first names the target's last line and each next one the line before, their deltas apply in
  -- turn to the target's manifest, and each states the sum of the manifest that it leads to. This
  -- is for logs without a torn tail and a target whose manifest is well formed.
  pub union_forks-Replay :
      (clock : ℕ → Option ℕ) (source target author : Bytes) (r after : Repo) (o : UnionOutcome)
      (state : ForkState)
      → IsSettled source r
      → IsSettled target r
      → current_state target r ≡ (ok state, r)
      → IsWellFormed state.manifest
      → union_forks clock source target author r ≡ (ok o, after)
      → complete o ≡ true
      → LandsOn o state
  unfolding union_forks lock_fork
  union_forks-Replay clock source target author r after o state s t f w e c =
      let (u, r₁, e₁, k₁) = bind-eq-ok (lock_fork target) _ r after o e in
      let k₁' = rw (same_repo (lock_fork target) r r₁ u refl e₁) at k₁ in
      let (source_state, r₂, e₂, k₂) = bind-eq-ok (current_state source) _ r after o k₁' in
      let k₂' =
        rw (same_repo (current_state source) r r₂ source_state (current_state-Stays source r s) e₂)
          at k₂ in
      let (target_state, r₃, e₃, k₃) = bind-eq-ok (current_state target) _ r after o k₂' in
      let same : target_state ≡ state = ok_pair target_state state r₃ r (sym e₃ ∙ f) in
      let (file, r₄, e₄, k₄) = bind-eq-ok _ _ r₃ after o k₃ in
      subst (LandsOn o) same (
        replay_and_commit-Replay clock source target author file.anchor source_state target_state r₄
          after o (current_state-sum target r r₃ target_state e₃)
          (subst (λ (t : ForkState). IsWellFormed t.manifest) (sym same) w) k₄ c)
