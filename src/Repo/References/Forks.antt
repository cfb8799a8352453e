-- ===== src/Repo/References/Forks.antt =====
-- `referenced_blobs` of src/repo.rs gives what the forks refer to.
use tally_vcs.Prelude.{
  true, List, [], ◌∷◌, ◌≡◌, ◌↔◌, refl, sym, ap, ◌∙◌, inl, inr, All, Result, ok, ok_injective, subst,
}
use tally_vcs.Prelude.Bytes.{Bytes, split}
use tally_vcs.BTreeMap
use tally_vcs.BTreeMap.{contains_key, is_some}
use tally_vcs.Fork.{ForkFile}
use tally_vcs.Ident.Hex.{Sha3}
use tally_vcs.Ident.Record.{ElementRecord}
use tally_vcs.Log.Stored.{Serde, StoredLine, blob_ref, scan_pieces, line_blob_refs}
use tally_vcs.Manifest.{Manifest, records}
use tally_vcs.Repo.{Repo, read_fork, fork_names, read_anchor_manifest, log_bytes}
use tally_vcs.Repo.Collect.{add_records, extend, refs_of_lines, refs_of_forks, referenced_blobs}
use tally_vcs.Repo.Effects.{Stays-eq-ok, IsSettled, current_state-Stays}
use tally_vcs.Repo.Replay.{ForkState}
use tally_vcs.Repo.Run.{lift, reading, current_state}
use tally_vcs.Setsum.{Setsum}
use tally_vcs.Union.{BTreeSet}
use tally_vcs.Repo.References.{
  AnyOf, LineRefers, ForkRefers, by_anchor, by_overflow, by_line, Refers,
}
use tally_vcs.Repo.References.Sets.{
  Adds, Adds-nothing, Adds-then, Adds-same, Adds-add_records, Adds-extend, Adds-add_refs,
  Adds-refs_of_lines,
}

module _ ⦃S : Setsum⦄ ⦃h : Sha3⦄ ⦃d : Serde⦄ (r : Repo) (key : Bytes) where
  -- What is read of a fork is what it refers to.
  of_fork :
      (fork : Bytes) (file : ForkFile) (m : Manifest) (log : Bytes) (state : ForkState)
      (s t : BTreeSet)
      → read_fork fork r ≡ ok file
      → read_anchor_manifest file.manifest r ≡ ok m
      → log_bytes fork r ≡ ok log
      → current_state fork r ≡ (ok state, r)
      → refs_of_lines state.lines (extend (line_blob_refs log) (add_records (records m) s)) ≡ ok t
      → Adds key (ForkRefers r key fork) s t
  unfolding line_blob_refs BTreeMap.get
  of_fork fork file m log state s t ef em el es e =
      let stored = (scan_pieces (split 10 log).0 (split 10 log).1).stored in
      let anchors = Adds-add_records key (records m) s in
      let overflowed : Adds key (AnyOf (λ (p : StoredLine). p ≡ blob_ref key) stored)
          (add_records (records m) s) (extend (line_blob_refs log) (add_records (records m) s)) =
        Adds-same key (in_set (Adds-add_refs key stored []))
          (λ x. (Adds-add_refs key stored []).both (inl x))
          (Adds-extend key (line_blob_refs log) (add_records (records m) s)) in
      let lines = Adds-refs_of_lines key state.lines _ t e in
      Adds-same key
        (λ c. elim c [
          | inl a ↦ by_anchor file m ef em a
          | inr b ↦ elim b [ inl o ↦ by_overflow log el o | inr l ↦ by_line state r es l ]
        ])
        (λ c. elim c [
          | by_anchor file' m' ef' em' a ↦ inl (
              subst (λ (n : Manifest). AnyOf (λ (x : ElementRecord). x.blob ≡ key) (records n))
                (same_manifest file' m' ef' em') a)
          | by_overflow log' el' o ↦ inr (
              inl (
                subst
                  (λ (n : Bytes).
                    AnyOf (λ (p : StoredLine). p ≡ blob_ref key)
                      (scan_pieces (split 10 n).0 (split 10 n).1).stored)
                  (ok_injective (sym el' ∙ el)) o))
          | by_line state' after es' l ↦ inr (
              inr (
                subst (λ (n : ForkState). AnyOf (LineRefers key) n.lines)
                  (ok_injective (ap (λ (p : Result ForkState × Repo). p.0) (sym es' ∙ es))) l))
        ])
        (Adds-then key anchors (Adds-then key overflowed lines))
    where
      in_set : {P : Type 0} {t : BTreeSet} → Adds key P [] t → contains_key key t ≡ true → P
      in_set a k = elim (a.only k) [ inl p ↦ p | inr m ↦ absurd (cc) ]

      same_manifest :
          (file' : ForkFile) (m' : Manifest)
          → read_fork fork r ≡ ok file'
          → read_anchor_manifest file'.manifest r ≡ ok m'
          → m' ≡ m
      same_manifest file' m' ef' em' =
          let f : file' ≡ file = ok_injective (sym ef' ∙ ef) in
          ok_injective (sym em' ∙ ap (λ (g : ForkFile). read_anchor_manifest g.manifest r) f ∙ em)

  Adds-refs_of_forks :
      (forks : List Bytes) (s t : BTreeSet) (after : Repo)
      → All (λ (fork : Bytes). IsSettled fork r) forks
      → refs_of_forks forks s r ≡ (ok t, after)
      → (after ≡ r) × Adds key (AnyOf (ForkRefers r key) forks) s t
  unfolding refs_of_forks
  Adds-refs_of_forks [] s t after w e = (
    ap (λ (p : Result BTreeSet × Repo). p.1) (sym e),
    subst (Adds key ⊥ s) (ok_injective (ap (λ (p : Result BTreeSet × Repo). p.0) e))
        (Adds-nothing key s (λ x. x)),
  )
  Adds-refs_of_forks (fork ∷ forks) s t after w e =
      let (file, e₁, k₁) = Stays-eq-ok (reading (read_fork fork)) _ r after t refl e in
      let (m, e₂, k₂) =
        Stays-eq-ok (reading (read_anchor_manifest file.manifest)) _ r after t refl k₁ in
      let (log, e₃, k₃) = Stays-eq-ok (reading (log_bytes fork)) _ r after t refl k₂ in
      let (state, e₄, k₄) =
        Stays-eq-ok (current_state fork) _ r after t (current_state-Stays fork r w.0) k₃ in
      let (more, e₅, k₅) =
        Stays-eq-ok
          (lift
            (refs_of_lines state.lines (extend (line_blob_refs log) (add_records (records m) s))))
          _ r after t refl k₄ in
      let (same, onward) = Adds-refs_of_forks forks more t after w.1 k₅ in
      (
        same,
        Adds-then key
            (of_fork fork file m log state s more (ap (λ (p : Result ForkFile × Repo). p.0) e₁)
              (ap (λ (p : Result Manifest × Repo). p.0) e₂)
              (ap (λ (p : Result Bytes × Repo). p.0) e₃) e₄
              (ap (λ (p : Result BTreeSet × Repo). p.0) e₅))
            onward,
      )

-- `referenced_blobs` gives exactly what the forks refer to, when no log has a torn tail.
pub referenced_blobs-Refers :
    ⦃S : Setsum⦄ ⦃h : Sha3⦄ ⦃d : Serde⦄ (r after : Repo) (referenced : BTreeSet)
    → All (λ (fork : Bytes). IsSettled fork r) (fork_names r)
    → referenced_blobs r ≡ (ok referenced, after)
    → (after ≡ r) × ((key : Bytes) → (contains_key key referenced ≡ true) ↔ Refers r key)
unfolding referenced_blobs BTreeMap.get
referenced_blobs-Refers r after referenced w e =
    let (names, e₁, l₁) =
      Stays-eq-ok (reading (λ q. ok (fork_names q))) _ r after referenced refl e in
    let named : names ≡ fork_names r =
      ok_injective (ap (λ (p : Result (List Bytes) × Repo). p.0) (sym e₁)) in
    let l₂ = rw named at l₁ in
    (
      (Adds-refs_of_forks r [] (fork_names r) [] referenced after w l₂).0,
      λ key.
          let a = (Adds-refs_of_forks r key (fork_names r) [] referenced after w l₂).1 in
          (λ k. elim (a.only k) [ inl p ↦ p | inr m ↦ absurd (cc) ], λ p. a.both (inl p)),
    )
