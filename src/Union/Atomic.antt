-- ===== src/Union/Atomic.antt =====
-- Proofs on `union` of src/union.rs: it lands in full or not at all.
use tally_vcs.Prelude.{
  ℕ, Bool, false, List, [], ◌∷◌, Option, none, ◌≡◌, refl, inl, inr, Result, ok, err, if◌then◌else◌,
  Bool-cases, length, io, corrupt, invalid, precondition, needs_reenactment, json,
}
use tally_vcs.Prelude.Bytes.{Bytes}
use tally_vcs.Ident.Hex.{Sha3}
use tally_vcs.Log.{LogLine}
use tally_vcs.Log.Stored.{Serde}
use tally_vcs.Manifest.{Manifest}
use tally_vcs.Patch.{RealizedEntry, Realization, apply_realized_to_manifest}
use tally_vcs.Repo.{Repo}
use tally_vcs.Repo.Apply.{append_sealed_locked}
use tally_vcs.Repo.Batches.{append_sealed-Aborts, succeeded}
use tally_vcs.Repo.Effects.{
  Keeps, Aborts, IsSettled, Keeps-bind, Aborts-keep, Aborts-stay, seal_line-Keeps, put_all-Keeps,
  current_state-Stays,
}
use tally_vcs.Repo.Run.{◌>>=◌, after_run, return, lock_fork}
use tally_vcs.Setsum.{Setsum}
use tally_vcs.Union.{BTreeSet}
use tally_vcs.Union.Commit.{
  outcome, staged_lines, commit_clean, finish, replay_and_commit, union_forks, carried_of,
}
use tally_vcs.Union.Landing.{
  Replay, Replayed, whole, gate, Trial, lands, dead, try_line, trial_of, intent_trial, land_line,
  land_trial, replay_source, is_skipped,
}
use tally_vcs.Union.Outcome.{SemanticConflict, Stratum, UnionOutcome, Writes, complete}

-- A union that is done: it returned an outcome that is complete.
abbrev pub is_done : Result UnionOutcome → Bool
is_done (ok o) = complete o
is_done (err e) = false

module _ ⦃h : Sha3⦄ where
  intent_trial-Keeps : (p : Result Realization × Manifest) → Keeps (intent_trial p)
  intent_trial-Keeps (ok realization, trial) =
      Keeps-bind _ _ (put_all-Keeps realization.new_blobs) (λ u r. refl)
  intent_trial-Keeps (err precondition, trial) = λ r. refl
  intent_trial-Keeps (err io, trial) = λ r. refl
  intent_trial-Keeps (err corrupt, trial) = λ r. refl
  intent_trial-Keeps (err invalid, trial) = λ r. refl
  intent_trial-Keeps (err needs_reenactment, trial) = λ r. refl
  intent_trial-Keeps (err json, trial) = λ r. refl

  try_line-Keeps : (line : LogLine) (scratch : Manifest) → Keeps (try_line line scratch)
  unfolding try_line
  try_line-Keeps line scratch = go (apply_realized_to_manifest scratch line.realized)
    where
      go : (p : Result Manifest) → Keeps (trial_of line scratch p)
      go (ok trial) = λ r. refl
      go (err e) = Keeps-bind _ _ (λ r. refl) intent_trial-Keeps

module _ ⦃S : Setsum⦄ ⦃h : Sha3⦄ (source author : Bytes) (concurrent : List Writes) where
  land_line-Keeps :
      (now : Option ℕ) (line : LogLine) (realized : List RealizedEntry) (trial : Manifest)
      (stratum : Stratum) (s : Replay)
      → Keeps (land_line source author concurrent now line realized trial stratum s)
  unfolding land_line
  land_line-Keeps now line realized trial stratum s =
      Keeps-bind _ _ (λ r. refl)
        (λ stale.
          Keeps-bind _ _ (λ r. refl)
            (λ sum.
              Keeps-bind _ _ (seal_line-Keeps _ _)
                (λ sealed. Keeps-bind _ _ (λ r. refl) (λ written r. refl))))

  -- The replay writes to no fork.
  replay_source-Keeps :
      (clock : ℕ → Option ℕ) (identical : Bool) (ids : BTreeSet) (lines : List LogLine) (s : Replay)
      → Keeps (replay_source source author concurrent clock identical ids lines s)
  unfolding replay_source
  replay_source-Keeps clock identical ids [] s = λ r. refl
  replay_source-Keeps clock identical ids (line ∷ lines) s =
      elim (Bool-cases (is_skipped identical ids line)) [
        | inl e ↦ rw (e, if◌then◌else◌) (replay_source-Keeps clock identical ids lines s)
        | inr e ↦
            rw (e, if◌then◌else◌)
              (Keeps-bind _ _ (try_line-Keeps line s.scratch)
                (go (replay_source-Keeps clock identical ids lines)))
      ]
    where
      go :
          ((u : Replay)
            → Keeps (replay_source source author concurrent clock identical ids lines u))
          → (t : Trial)
          → Keeps (
              land_trial source author concurrent
                (clock (length lines))
                line
                s
                (λ u. replay_source source author concurrent clock identical ids lines u)
                t)
      go rest dead = λ r. refl
      go rest (lands realized m stratum) =
          Keeps-bind _ _ (land_line-Keeps (clock (length lines)) line realized m stratum s) rest

module _ ⦃S : Setsum⦄ ⦃h : Sha3⦄ where
  commit_clean-Aborts :
      (target : Bytes) (identical : Bool) (s : Replay) (cs : List SemanticConflict) (r : Repo)
      → Aborts is_done (commit_clean target identical s cs) r
  unfolding commit_clean complete ◌>>=◌
  commit_clean-Aborts target identical s [] r =
      go (append_sealed_locked target (staged_lines s.staged) s.bytes r)
        (append_sealed-Aborts target (staged_lines s.staged) s.bytes r)
    where
      go :
          (p : Result (Unit {0}) × Repo)
          → (succeeded p.0 ≡ false → p.1.forks ≡ r.forks)
          → is_done (after_run p (λ u. return (outcome identical s.staged none []))).0 ≡ false
          → (after_run p (λ u. return (outcome identical s.staged none []))).1.forks ≡ r.forks
      go (ok u, r₁) k f = absurd (cc)
      go (err c, r₁) k f = k refl
  commit_clean-Aborts target identical s (c ∷ cs) r = λ f. refl

  finish-Aborts :
      (target : Bytes) (identical : Bool) (before : Manifest) (lines : List LogLine) (p : Replayed)
      (r : Repo)
      → Aborts is_done (finish target identical before lines p) r
  unfolding finish
  finish-Aborts target identical before lines (gate id conflicts) r = λ f. refl
  finish-Aborts target identical before lines (whole s) r =
      Aborts-keep is_done _ _ r (λ r. refl)
        (λ stranded r₁. commit_clean-Aborts target identical s _ r₁)

  union_forks-Aborts :
      ⦃d : Serde⦄ (clock : ℕ → Option ℕ) (source target author : Bytes) (r : Repo)
      → IsSettled source r
      → IsSettled target r
      → Aborts is_done (union_forks clock source target author) r
  unfolding union_forks lock_fork replay_and_commit
  union_forks-Aborts clock source target author r s t = Aborts-stay is_done _ _ r refl (λ u.
      Aborts-stay is_done _ _ r (current_state-Stays source r s) (λ source_state.
        Aborts-stay is_done _ _ r (current_state-Stays target r t) (λ target_state.
          Aborts-stay is_done _ _ r refl (λ file. Aborts-stay is_done _ _ r refl (λ concurrent.
            Aborts-keep is_done _ _ r
              (replay_source-Keeps source author concurrent clock
                (S.eq source_state.sum target_state.sum) (carried_of source target_state).ids
                source_state.lines _)
              (λ replayed r₁. finish-Aborts target _ _ _ replayed r₁))))))

  -- A union is atomic. If the logs of both forks have no torn tail and the union fails, or ends
  -- with a line that needs re-enactment or with a semantic conflict, the files of all forks stay
  -- as they are.
  pub union_forks_atomic :
      ⦃d : Serde⦄ (clock : ℕ → Option ℕ) (source target author : Bytes) (r : Repo)
      → IsSettled source r
      → IsSettled target r
      → is_done (union_forks clock source target author r).0 ≡ false
      → (union_forks clock source target author r).1.forks ≡ r.forks
  union_forks_atomic clock source target author r s t =
      union_forks-Aborts clock source target author r s t
