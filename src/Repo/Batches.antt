-- ===== src/Repo/Batches.antt =====
-- Proofs on `append_realized_batch` of src/repo.rs: all of a batch lands, or none.
use tally_vcs.Prelude.{ℕ, Bool, true, false, List, [], ◌∷◌, Option, ◌≡◌, refl, Result, ok, err}
use tally_vcs.Prelude.Bytes.{Bytes}
use tally_vcs.Ident.Hex.{Sha3}
use tally_vcs.Log.{LogLine}
use tally_vcs.Log.Stored.{Serde}
use tally_vcs.Manifest.{Manifest}
use tally_vcs.Repo.{Repo}
use tally_vcs.Repo.Apply.{append_realized_batch, append_sealed_locked, seal_batch, Entry}
use tally_vcs.Repo.Effects.{
  Keeps, Aborts, IsSettled, Keeps-bind, Aborts-keep, Aborts-stay, seal_line-Keeps,
  check_blobs-Keeps, current_state-Stays,
}
use tally_vcs.Repo.Run.{Run, ◌>>=◌, after_run, return, lock_fork, append_log}
use tally_vcs.Setsum.{Setsum, Sum}

abbrev pub succeeded : {A : Type 0} → Result A → Bool
succeeded (ok a) = true
succeeded (err e) = false

Aborts-return :
    {A B : Type 0} (a : Run A) (g : A → B) (r : Repo)
    → Aborts succeeded a r
    → Aborts succeeded (a >>= λ x. return (g x)) r
unfolding ◌>>=◌
Aborts-return {A} {B} a g r = go (a r)
  where
    go :
        (p : Result A × Repo)
        → (succeeded p.0 ≡ false → p.1.forks ≡ r.forks)
        → succeeded (after_run p (λ x. return (g x))).0 ≡ false
        → (after_run p (λ x. return (g x))).1.forks ≡ r.forks
    go (ok x, r₁) k f = absurd (cc)
    go (err c, r₁) k f = k refl

module _ (fork : Bytes) where
  -- An append that fails leaves the forks as they are.
  pub append_log-Aborts : (text : Bytes) (r : Repo) → Aborts succeeded (append_log fork text) r
  unfolding append_log
  append_log-Aborts text r = Aborts-keep succeeded _ _ r (λ r. refl) (λ dir r₁ f. absurd (cc))

  pub append_sealed-Aborts :
      (ls : List LogLine) (text : Bytes) (r : Repo)
      → Aborts succeeded (append_sealed_locked fork ls text) r
  unfolding append_sealed_locked
  append_sealed-Aborts [] text r = λ f. refl
  append_sealed-Aborts (l ∷ ls) text r = append_log-Aborts text r

module _ ⦃S : Setsum⦄ ⦃h : Sha3⦄ ⦃d : Serde⦄ (clock : ℕ → Option ℕ) where
  seal_batch-Keeps :
      (es : List Entry) (m : Manifest) (s : Sum) (prev : Bytes)
      → Keeps (seal_batch clock m s prev es)
  unfolding seal_batch
  seal_batch-Keeps [] m s prev = λ r. refl
  seal_batch-Keeps (e ∷ es) m s prev =
      Keeps-bind _ _ (λ r. refl)
        (λ n. Keeps-bind _ _ (check_blobs-Keeps e.realized) (λ u.
          Keeps-bind _ _ (λ r. refl)
            (λ t. Keeps-bind _ _ (seal_line-Keeps _ _) (λ sealed.
              Keeps-bind _ _ (seal_batch-Keeps es n t sealed.line.id) (λ rest r. refl)))))

  batch-Aborts :
      (fork : Bytes) (batch : List Entry) (r : Repo)
      → IsSettled fork r
      → Aborts succeeded (append_realized_batch clock fork batch) r
  unfolding append_realized_batch lock_fork
  batch-Aborts fork batch r s = Aborts-stay succeeded _ _ r refl (λ u.
      Aborts-stay succeeded _ _ r (current_state-Stays fork r s) (λ state.
        Aborts-keep succeeded _ _ r (seal_batch-Keeps batch state.manifest state.sum state.head_id)
          (λ sealed r₁.
            Aborts-return (append_sealed_locked fork sealed.lines sealed.bytes) _ r₁
              (append_sealed-Aborts fork sealed.lines sealed.bytes r₁))))

  -- If the log of the fork has no torn tail and a batch is refused, wherever in it the fault lies,
  -- the files of all forks stay as they are.
  pub append_realized_batch_atomic :
      (fork : Bytes) (batch : List Entry) (r : Repo)
      → IsSettled fork r
      → succeeded (append_realized_batch clock fork batch r).0 ≡ false
      → (append_realized_batch clock fork batch r).1.forks ≡ r.forks
  append_realized_batch_atomic fork batch r s = batch-Aborts fork batch r s
