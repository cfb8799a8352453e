-- ===== src/Repo/Effects.antt =====
-- What the operations of src/repo.rs leave alone: lemmas on runs.
use tally_vcs.Prelude.{
  ℕ, Bool, false, List, [], ◌∷◌, Option, ◌≡◌, refl, ap, ◌∙◌, sym, subst, Result, ok, err, err-ne-ok,
}
use tally_vcs.Prelude.Bytes.{Bytes}
use tally_vcs.Blobs
use tally_vcs.Ident.Hex.{Sha3}
use tally_vcs.Log.{LogLine}
use tally_vcs.Log.Seal.{Sealed, seal}
use tally_vcs.Log.Stored.{Serde}
use tally_vcs.Patch.{RealizedEntry}
use tally_vcs.Repo.{Repo}
use tally_vcs.Repo.Apply.{check_blobs, put_all}
use tally_vcs.Repo.Run.{
  Run, ◌>>=◌, after_run, put_blob, put_result, seal_line, sealed_result, read_log, current_state,
}
use tally_vcs.Setsum.{Setsum}

module _ {A : Type 0} where
  -- The run leaves the files of the forks as they are.
  abbrev pub Keeps : Run A → Type 0
  Keeps run = (r : Repo) → (run r).1.forks ≡ r.forks

  -- The run leaves this repository as it is.
  abbrev pub Stays : Run A → Repo → Type 0
  Stays run r = (run r).1 ≡ r

  -- Unless the result passes the test, the files of the forks are as they were.
  abbrev pub Aborts : (Result A → Bool) → Run A → Repo → Type 0
  Aborts done run r = done (run r).0 ≡ false → (run r).1.forks ≡ r.forks

-- A run that leaves the repository as it is, and the one that it gives.
pub same_repo :
    {A : Type 0} (a : Run A) (r r₁ : Repo) (x : A) → (a r).1 ≡ r → a r ≡ (ok x, r₁) → r₁ ≡ r
same_repo {A} a r r₁ x s e = sym (ap (λ (p : Result A × Repo). p.1) e) ∙ s

module _ {A B : Type 0} where
  pub Keeps-bind : (a : Run A) (f : A → Run B) → Keeps a → ((x : A) → Keeps (f x)) → Keeps (a >>= f)
  unfolding ◌>>=◌
  Keeps-bind a f k g r = go (a r) (k r)
    where
      go : (p : Result A × Repo) → p.1.forks ≡ r.forks → (after_run p f).1.forks ≡ r.forks
      go (ok x, r₁) e = g x r₁ ∙ e
      go (err c, r₁) e = e

  pub Stays-bind :
      (a : Run A) (f : A → Run B) (r : Repo)
      → Stays a r
      → ((x : A) → Stays (f x) r)
      → Stays (a >>= f) r
  unfolding ◌>>=◌
  Stays-bind a f r s g = go (a r) s
    where
      go : (p : Result A × Repo) → p.1 ≡ r → (after_run p f).1 ≡ r
      go (ok x, r₁) e = rw e (g x)
      go (err c, r₁) e = e

  -- A `?` that is passed was given a value.
  pub bind-eq-ok :
      (a : Run A) (f : A → Run B) (r after : Repo) (b : B)
      → (a >>= f) r ≡ (ok b, after)
      → (x : A) × (r₁ : Repo) × (a r ≡ (ok x, r₁)) × (f x r₁ ≡ (ok b, after))
  unfolding ◌>>=◌
  bind-eq-ok a f r after b e = go (a r) refl e
    where
      go :
          (p : Result A × Repo)
          → a r ≡ p
          → after_run p f ≡ (ok b, after)
          → (x : A) × (r₁ : Repo) × (a r ≡ (ok x, r₁)) × (f x r₁ ≡ (ok b, after))
      go (ok x, r₁) q k = (x, r₁, q, k)
      go (err c, r₁) q k = absurd (err-ne-ok (ap (λ (p : Result B × Repo). p.0) k))

module _ {A B : Type 0} where
  -- A first step that leaves the repository as it is, and passes.
  pub Stays-eq-ok :
      (a : Run A) (f : A → Run B) (r after : Repo) (b : B)
      → Stays a r
      → (a >>= f) r ≡ (ok b, after)
      → (x : A) × (a r ≡ (ok x, r)) × (f x r ≡ (ok b, after))
  Stays-eq-ok a f r after b s e =
      let (x, r₁, q, k) = bind-eq-ok a f r after b e in
      let same = same_repo a r r₁ x s q in
      (
        x,
        subst (λ (t : Repo). a r ≡ (ok x, t)) same q,
        subst (λ (t : Repo). f x t ≡ (ok b, after)) same k,
      )

module _ {A B : Type 0} (done : Result B → Bool) where
  pub Aborts-keep :
      (a : Run A) (f : A → Run B) (r : Repo)
      → Keeps a
      → ((x : A) (r₁ : Repo) → Aborts done (f x) r₁)
      → Aborts done (a >>= f) r
  unfolding ◌>>=◌
  Aborts-keep a f r k g = go (a r) (k r)
    where
      go :
          (p : Result A × Repo)
          → p.1.forks ≡ r.forks
          → done (after_run p f).0 ≡ false
          → (after_run p f).1.forks ≡ r.forks
      go (ok x, r₁) e d = g x r₁ d ∙ e
      go (err c, r₁) e d = e

  pub Aborts-stay :
      (a : Run A) (f : A → Run B) (r : Repo)
      → Stays a r
      → ((x : A) → Aborts done (f x) r)
      → Aborts done (a >>= f) r
  unfolding ◌>>=◌
  Aborts-stay a f r s g = go (a r) s
    where
      go :
          (p : Result A × Repo)
          → p.1 ≡ r
          → done (after_run p f).0 ≡ false
          → (after_run p f).1.forks ≡ r.forks
      go (ok x, r₁) e d = rw e (g x (rw e at d))
      go (err c, r₁) e d = ap (λ (q : Repo). q.forks) e

module _ ⦃h : Sha3⦄ where
  pub put_blob-Keeps : (content : Bytes) → Keeps (put_blob content)
  unfolding put_blob
  put_blob-Keeps content r = go (Blobs.put r.blobs content)
    where
      go : (p : Result (Bytes × Blobs.BlobStore)) → (put_result r p).1.forks ≡ r.forks
      go (ok p) = refl
      go (err e) = refl

  pub seal_line-Keeps : (now : Option ℕ) (l : LogLine) → Keeps (seal_line now l)
  unfolding seal_line
  seal_line-Keeps now l r = go (seal now r.blobs l)
    where
      go : (p : Result Sealed) → (sealed_result r p).1.forks ≡ r.forks
      go (ok s) = refl
      go (err e) = refl

  pub put_all-Keeps : (new_blobs : List (Bytes × Bytes)) → Keeps (put_all new_blobs)
  unfolding put_all
  put_all-Keeps [] = λ r. refl
  put_all-Keeps ((hash, content) ∷ new_blobs) =
      Keeps-bind _ _ (put_blob-Keeps content) (λ key. put_all-Keeps new_blobs)

  -- A line that was sealed, and the pool with it.
  pub seal_line-eq-ok :
      (now : Option ℕ) (l : LogLine) (r after : Repo) (s : Sealed)
      → seal_line now l r ≡ (ok s, after)
      → seal now r.blobs l ≡ ok s
  unfolding seal_line
  seal_line-eq-ok now l r after s = go (seal now r.blobs l)
    where
      go : (p : Result Sealed) → sealed_result r p ≡ (ok s, after) → p ≡ ok s
      go (ok t) e = ap (λ (q : Result Sealed × Repo). q.0) e
      go (err c) e = ap (λ (q : Result Sealed × Repo). q.0) e

pub check_blobs-Keeps : (es : List RealizedEntry) → Keeps (check_blobs es)
unfolding check_blobs
check_blobs-Keeps [] = λ r. refl
check_blobs-Keeps (e ∷ es) =
    Keeps-bind _ _ (λ r. refl)
      (λ x.
        Keeps-bind _ _ (λ r. refl)
          (λ known. Keeps-bind _ _ (λ r. refl) (λ u. check_blobs-Keeps es)))

module _ ⦃S : Setsum⦄ ⦃h : Sha3⦄ ⦃d : Serde⦄ where
  -- The log of the fork has no torn tail, so that reading it changes nothing.
  abbrev pub IsSettled : Bytes → Repo → Type 0
  IsSettled fork r = Stays (read_log fork) r

  pub current_state-Stays :
      (fork : Bytes) (r : Repo) → IsSettled fork r → Stays (current_state fork) r
  unfolding current_state
  current_state-Stays fork r s = Stays-bind _ _ r refl (λ file.
      Stays-bind _ _ r refl (λ m. Stays-bind _ _ r refl (λ u. Stays-bind _ _ r s (λ lines. refl))))
