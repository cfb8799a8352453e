-- ===== src/Repo/Known.antt =====
-- Proofs on src/repo.rs: reading states makes no fork and removes none.
use tally_vcs.Prelude.{
  Bool, true, false, List, [], ◌∷◌, Option, none, some, ◌≡◌, refl, ◌∙◌, inl, inr, Bool-cases,
  Option-cases, Result, ok, err, if◌then◌else◌, length, take, ◌==◌, >>=-eq-ok, err-ne-ok,
}
use tally_vcs.Prelude.Bytes.{Bytes, str_eq, str_eq→eq}
use tally_vcs.Blobs
use tally_vcs.BTreeMap
use tally_vcs.BTreeMap.{contains_key, is_some}
use tally_vcs.BTreeMap.Laws.{get-insert}
use tally_vcs.Fork.{ForkFile, validate_fork_name}
use tally_vcs.Ident.Hex.{Sha3}
use tally_vcs.Log.Stored.{Serde, ParsedLog, parse_log_lenient}
use tally_vcs.Repo.{Repo, ForkDir, read_fork, read_dir, log_file}
use tally_vcs.Repo.Lineage.{candidates, parent_fork, next_fork, is_root}
use tally_vcs.Repo.Run.{
  Run, ◌>>=◌, after_run, rewrite_log, truncated, read_bytes, read_log, current_state,
}
use tally_vcs.Setsum.{Setsum}

-- The same forks exist.
abbrev pub SameForks : Repo → Repo → Type 0
SameForks a b = (key : Bytes) → contains_key key a.forks ≡ contains_key key b.forks

abbrev pub KeepsNames : {A : Type 0} → Run A → Type 0
KeepsNames run = (r : Repo) → SameForks (run r).1 r

pub KeepsNames-bind :
    {A B : Type 0} (a : Run A) (f : A → Run B)
    → KeepsNames a
    → ((x : A) → KeepsNames (f x))
    → KeepsNames (a >>= f)
unfolding ◌>>=◌
KeepsNames-bind {A} {B} a f k g r = go (a r) (k r)
  where
    go : (p : Result A × Repo) → SameForks p.1 r → SameForks (after_run p f).1 r
    go (ok x, r₁) e key = g x r₁ key ∙ e key
    go (err c, r₁) e key = e key

rewrite_log-SameForks : (fork log : Bytes) (r : Repo) → SameForks (rewrite_log fork log r) r
unfolding rewrite_log
rewrite_log-SameForks fork log r key = elim (Option-cases (BTreeMap.get fork r.forks)) [
  | inl n ↦ rw n refl
  | inr (dir, e) ↦ rw e (
      rw (get-insert fork key (record dir { log = log }) r.forks)
        (elim (Bool-cases (str_eq key fork)) [
          | inl q ↦ rw (q, if◌then◌else◌) (rw (str_eq→eq _ _ q, e) refl)
          | inr q ↦ rw (q, if◌then◌else◌) refl
        ]))
]

-- A fork that can be read exists.
pub read_fork-exists :
    (fork : Bytes) (r : Repo) (file : ForkFile)
    → read_fork fork r ≡ ok file
    → contains_key fork r.forks ≡ true
unfolding read_fork
read_fork-exists fork r file e =
    let (u, e₁, k₁) = >>=-eq-ok (validate_fork_name fork) _ e in go (BTreeMap.get fork r.forks) k₁
  where
    go : (o : Option ForkDir) → read_dir o ≡ ok file → is_some o ≡ true
    go none k = absurd (err-ne-ok k)
    go (some dir) k = refl

module _ ⦃h : Sha3⦄ ⦃d : Serde⦄ where
  read_log-KeepsNames : (fork : Bytes) → KeepsNames (read_log fork)
  unfolding read_log
  read_log-KeepsNames fork r = go (log_file fork r)
    where
      go_if :
          (log : Bytes) (parsed : ParsedLog) (b : Bool)
          → SameForks (if b then r else rewrite_log fork (take parsed.valid_prefix log) r) r
      go_if log parsed true key = refl
      go_if log parsed false key = rewrite_log-SameForks fork _ r key

      go_log : (log : Bytes) (p : Result ParsedLog) → SameForks (truncated fork log r p).1 r
      go_log log (err e) key = refl
      go_log log (ok parsed) key = go_if log parsed (parsed.valid_prefix == length log) key

      go : (p : Result Bytes) → SameForks (read_bytes fork r p).1 r
      go (err e) key = refl
      go (ok log) key = go_log log (parse_log_lenient (Blobs.get r.blobs) log) key

  module _ ⦃S : Setsum⦄ where
    pub current_state-KeepsNames : (fork : Bytes) → KeepsNames (current_state fork)
    unfolding current_state
    current_state-KeepsNames fork =
        KeepsNames-bind _ _ (λ r key. refl)
          (λ file.
            KeepsNames-bind _ _ (λ r key. refl)
              (λ m.
                KeepsNames-bind _ _ (λ r key. refl)
                  (λ u. KeepsNames-bind _ _ (read_log-KeepsNames fork) (λ lines r key. refl))))

    candidates-KeepsNames :
        (child anchor : Bytes) (names : List Bytes) → KeepsNames (candidates child anchor names)
    unfolding candidates
    candidates-KeepsNames child anchor [] = λ r key. refl
    candidates-KeepsNames child anchor (name ∷ names) = elim (Bool-cases (str_eq name child)) [
      | inl e ↦ rw (e, if◌then◌else◌) (candidates-KeepsNames child anchor names)
      | inr e ↦
          rw (e, if◌then◌else◌)
            (KeepsNames-bind _ _ (λ r key. refl)
              (λ file. KeepsNames-bind _ _ (current_state-KeepsNames name) (λ state.
                KeepsNames-bind _ _ (candidates-KeepsNames child anchor names)
                  (λ more r key. refl))))
    ]

    pub next_fork-KeepsNames :
        (current : Bytes) (file : ForkFile) → KeepsNames (next_fork current file)
    unfolding next_fork parent_fork
    next_fork-KeepsNames current file = elim (Bool-cases (is_root file)) [
      | inl e ↦ rw (e, if◌then◌else◌) (λ r key. refl)
      | inr e ↦
          rw (e, if◌then◌else◌)
            (KeepsNames-bind _ _ (λ r key. refl)
              (λ names.
                KeepsNames-bind _ _ (candidates-KeepsNames current file.anchor names)
                  (λ found r key. refl)))
    ]
