-- ===== src/Repo/Continuity.antt =====
-- Proofs on `continuity_log` of src/repo.rs: the walk ends.
use tally_vcs.Prelude.{
  ℕ, zero, suc, ◌≤◌, ◌<◌, true, false, List, [], ◌∷◌, Option, none, some, ◌≡◌, refl, sym, ap, ◌∙◌,
  inl, inr, arith, Bool-cases, Result, ok, if◌then◌else◌, length, map, ok_injective,
}
use tally_vcs.Prelude.Bytes.{Bytes, str_eq, str_eq→eq, str_eq_refl}
use tally_vcs.BTreeMap
use tally_vcs.BTreeMap.{BTreeMap, contains_key, is_some}
use tally_vcs.BTreeMap.Laws.{get-insert}
use tally_vcs.Ident.Hex.{Sha3}
use tally_vcs.Log.Stored.{Serde}
use tally_vcs.Fork.{ForkFile}
use tally_vcs.Repo.{Repo, ForkDir, fork_names, read_fork}
use tally_vcs.Repo.Effects.{bind-eq-ok}
use tally_vcs.Repo.Known.{
  SameForks, KeepsNames, read_fork-exists, current_state-KeepsNames, next_fork-KeepsNames,
}
use tally_vcs.Repo.Lineage.{
  Segment, continuity_walk, walk_on, onto_segments, up_to, next_fork, fork_fuel,
}
use tally_vcs.Repo.Run.{Run, reading, current_state}
use tally_vcs.Setsum.{Setsum}
use tally_vcs.Union.{BTreeSet, set_insert}

-- The forks that the walk has not come to.
abbrev unvisited : BTreeSet → BTreeMap ForkDir → ℕ
unvisited visited [] = 0
unvisited visited ((name, dir) ∷ forks) =
    if contains_key name visited then unvisited visited forks else suc (unvisited visited forks)

contains-set_insert :
    (key new : Bytes) (visited : BTreeSet)
    → contains_key key (set_insert new visited)
      ≡ (if str_eq key new then true else contains_key key visited)
contains-set_insert key new visited =
    rw (get-insert new key tt visited)
      (elim (Bool-cases (str_eq key new)) [ inl e ↦ rw e refl | inr e ↦ rw e refl ])

unvisited_mono :
    (new : Bytes) (visited : BTreeSet) (forks : BTreeMap ForkDir)
    → unvisited (set_insert new visited) forks ≤ unvisited visited forks
unvisited_mono new visited [] = omega arith
unvisited_mono new visited ((name, dir) ∷ forks) =
    ground (arith, contains-set_insert name new visited, unvisited_mono new visited forks)

-- Visiting a fork that exists and was not visited leaves fewer.
unvisited_less :
    (new : Bytes) (visited : BTreeSet) (forks : BTreeMap ForkDir)
    → contains_key new forks ≡ true
    → contains_key new visited ≡ false
    → unvisited (set_insert new visited) forks < unvisited visited forks
unfolding BTreeMap.get
unvisited_less new visited [] c n = cc
unvisited_less new visited ((name, dir) ∷ forks) c n = elim (Bool-cases (str_eq new name)) [
  | inl e ↦
      let same = str_eq→eq new name e in
      let known : contains_key name visited ≡ false = rw same at n in
      let now : contains_key name (set_insert new visited) ≡ true =
        rw (contains-set_insert name new visited) (rw same (rw (str_eq_refl name) refl)) in
      rw (known, now) (ground (arith, unvisited_mono new visited forks))
  | inr e ↦
      ground (
        arith,
        contains-set_insert name new visited,
        unvisited_less new visited forks (rw e at c) n,
      )
]

unvisited_all : (forks : BTreeMap ForkDir) → unvisited [] forks ≡ length (map (λ e. e.0) forks)
unfolding BTreeMap.get
unvisited_all [] = refl
unvisited_all ((name, dir) ∷ forks) = ground (arith, unvisited_all forks)

module _ ⦃S : Setsum⦄ ⦃h : Sha3⦄ ⦃d : Serde⦄ where
  state_after :
      {A : Type 0} (a : Run A) (r r₁ : Repo) (x : A)
      → KeepsNames a
      → a r ≡ (ok x, r₁)
      → SameForks r₁ r
  state_after {A} a r r₁ x k e key =
      ap (λ (p : Result A × Repo). contains_key key p.1.forks) (sym e) ∙ k r key

  returned :
      {A : Type 0} (a b : A) (r r₁ : Repo) → ◌≡◌ {A = Result A × Repo} (ok a, r) (ok b, r₁) → a ≡ b
  returned {A} a b r r₁ e = ok_injective (ap (λ (p : Result A × Repo). p.0) e)

  walk_on-some :
      (walk : Bytes → Run (Option (List Segment))) (parent : Option Bytes) (r r₁ : Repo)
      (segments : Option (List Segment))
      → ((p : Bytes) → walk p r ≡ (ok segments, r₁) → is_some segments ≡ true)
      → walk_on walk parent r ≡ (ok segments, r₁)
      → is_some segments ≡ true
  walk_on-some walk none r r₁ segments k e = ap is_some (sym (returned (some []) segments r r₁ e))
  walk_on-some walk (some p) r r₁ segments k e = k p e

  is_some-onto_segments :
      (s : Segment) (o : Option (List Segment)) → is_some (onto_segments s o) ≡ is_some o
  is_some-onto_segments s none = refl
  is_some-onto_segments s (some segments) = refl

  walk_has_fuel :
      (forks : Repo) (fuel : ℕ) (current : Bytes) (boundary : Option Bytes) (visited : BTreeSet)
      (r after : Repo) (found : Option (List Segment))
      → SameForks r forks
      → unvisited visited forks.forks < fuel
      → continuity_walk fuel current boundary visited r ≡ (ok found, after)
      → is_some found ≡ true
  unfolding continuity_walk
  walk_has_fuel forks zero current boundary visited r after found same less e = absurd (omega arith)
  walk_has_fuel forks (suc fuel) current boundary visited r after found same less e =
      elim (Bool-cases (contains_key current visited)) [
        | inl c ↦ ap is_some (sym (returned (some []) found r after (rw (c, if◌then◌else◌) at e)))
        | inr c ↦
            let (file, r₁, e₁, k₁) = bind-eq-ok _ _ r after found (rw (c, if◌then◌else◌) at e) in
            let (state, r₂, e₂, k₂) = bind-eq-ok (current_state current) _ r₁ after found k₁ in
            let (parent, r₃, e₃, k₃) = bind-eq-ok (next_fork current file) _ r₂ after found k₂ in
            let (segments, r₄, e₄, k₄) = bind-eq-ok (walk_on _ parent) _ r₃ after found k₃ in
            let exists =
              read_fork-exists current r file (ap (λ (p : Result ForkFile × Repo). p.0) e₁) in
            let same₁ : SameForks r₁ r =
              λ key. state_after (reading (read_fork current)) r r₁ file (λ s k. refl) e₁ key in
            let same₂ : SameForks r₂ r₁ = λ key.
              state_after (current_state current) r₁ r₂ state (current_state-KeepsNames current) e₂
                key in
            let same₃ : SameForks r₃ forks = λ key.
              state_after (next_fork current file) r₂ r₃ parent (next_fork-KeepsNames current file)
                e₃ key
              ∙ same₂ key
              ∙ same₁ key
              ∙ same key in
            let fewer =
              unvisited_less current visited forks.forks (sym (same current) ∙ exists) c in
            let walked =
              walk_on-some _ parent r₃ r₄ segments
                (λ p.
                  walk_has_fuel forks fuel p (some file.anchor) (set_insert current visited) r₃ r₄
                    segments same₃ (omega (arith, fewer, less)))
                e₄ in
            ap is_some (sym (returned _ found r₄ after k₄))
            ∙ is_some-onto_segments (current, up_to boundary state.lines) segments
            ∙ walked
      ]

  -- The walk of `continuity_log` ends: with one round more than there are forks it never spends
  -- its fuel, whatever the anchors of the forks are, cycles included.
  pub continuity_walk_total :
      (fork : Bytes) (r after : Repo) (found : Option (List Segment))
      → continuity_walk (fork_fuel r) fork none [] r ≡ (ok found, after)
      → is_some found ≡ true
  unfolding fork_names
  continuity_walk_total fork r after found e =
      walk_has_fuel r (fork_fuel r) fork none [] r after found (λ key. refl)
        (omega (arith, unvisited_all r.forks)) e
