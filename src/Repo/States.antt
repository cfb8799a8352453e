-- ===== src/Repo/States.antt =====
-- Proofs on `current_state` of src/repo.rs: what it returns.
use tally_vcs.Prelude.{
  ℕ, subst, List, [], ◌≡◌, refl, sym, ap, ◌∙◌, Result, ok, err, corrupt, require, drop, >>=-eq-ok,
  ok_injective, require-eq-ok,
}
use tally_vcs.Prelude
use tally_vcs.Prelude.Bytes.{Bytes}
use tally_vcs.Ident.Hex.{Sha3}
use tally_vcs.Log.{LogLine}
use tally_vcs.Log.Stored.{Serde}
use tally_vcs.Manifest.{Manifest}
use tally_vcs.Manifest
use tally_vcs.Repo.{Repo}
use tally_vcs.Repo.Effects.{bind-eq-ok}
use tally_vcs.Repo.Replay.{
  ForkState, replay_log, replay_lines, check_lines, check_first, check_last, last_line, start_of,
}
use tally_vcs.Repo.Run.{current_state}
use tally_vcs.Setsum.{Setsum}

module _ ⦃S : Setsum⦄ where
  replay_log-sum :
      (anchor : Bytes) (m : Manifest) (lines : List LogLine) (s : ForkState)
      → replay_log anchor m lines ≡ ok s
      → s.sum ≡ Manifest.sum s.manifest
  unfolding replay_log
  replay_log-sum anchor m lines s e =
      let (u, e₁, k₁) = >>=-eq-ok (check_lines Prelude.none [] lines) _ e in
      let (v, e₂, k₂) = >>=-eq-ok (check_first (start_of anchor lines) anchor lines) _ k₁ in
      let (n, e₃, k₃) = >>=-eq-ok (replay_lines m (drop (start_of anchor lines) lines)) _ k₂ in
      let (w, e₄, k₄) = >>=-eq-ok (check_last (last_line lines) (Manifest.sum n)) _ k₃ in
      subst (λ (t : ForkState). t.sum ≡ Manifest.sum t.manifest) (ok_injective k₄) refl

module _ ⦃S : Setsum⦄ ⦃h : Sha3⦄ ⦃d : Serde⦄ where
  -- The sum of the state that a fork is in is the sum of its manifest.
  pub current_state-sum :
      (fork : Bytes) (r after : Repo) (s : ForkState)
      → current_state fork r ≡ (ok s, after)
      → s.sum ≡ Manifest.sum s.manifest
  unfolding current_state
  current_state-sum fork r after s e =
      let (file, r₁, e₁, k₁) = bind-eq-ok _ _ r after s e in
      let (m, r₂, e₂, k₂) = bind-eq-ok _ _ r₁ after s k₁ in
      let (u, r₃, e₃, k₃) = bind-eq-ok _ _ r₂ after s k₂ in
      let (lines, r₄, e₄, k₄) = bind-eq-ok _ _ r₃ after s k₃ in
      replay_log-sum file.anchor m lines s (ap (λ (p : Result ForkState × Repo). p.0) k₄)
