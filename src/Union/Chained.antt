-- ===== src/Union/Chained.antt =====
-- Proofs on `union` of src/union.rs: the lines that land go on from the target's head.
use tally_vcs.Prelude.{
  ℕ, subst, Bool, List, [], ◌∷◌, ◌++◌, Option, ◌≡◌, refl, sym, ap, ◌∙◌, inl, inr, Error, Result, ok,
  err, if◌then◌else◌, Bool-cases, length, io, corrupt, invalid, precondition, needs_reenactment,
  json, err-ne-ok, ok_injective,
}
use tally_vcs.Prelude.Bytes.{Bytes}
use tally_vcs.Ident.Hex.{Sha3}
use tally_vcs.Log.{LogLine}
use tally_vcs.Log.Chain
use tally_vcs.Log.Chain.{at_end, step, last_id}
use tally_vcs.Log.Core.{core-seal}
use tally_vcs.Manifest.{Manifest, IsWellFormed}
use tally_vcs.Manifest
use tally_vcs.Patch.{
  RealizedEntry, Realization, apply_realized_to_manifest, apply_realized_to_sum, apply_intent,
}
use tally_vcs.Patch.Arithmetic.{sum-apply_realized, apply_realized-IsWellFormed}
use tally_vcs.Patch.Replay.{apply_intent-replay}
use tally_vcs.Blobs.{BlobStore}
use tally_vcs.Repo.{Repo}
use tally_vcs.Repo.Apply.{put_all}
use tally_vcs.Repo.Effects.{bind-eq-ok, seal_line-eq-ok}
use tally_vcs.Setsum.{Setsum, Sum, hexdigest}
use tally_vcs.Union.{BTreeSet}
use tally_vcs.Union.Commit.{staged_lines}
use tally_vcs.Union.Landing.{
  Replay, whole, gate, Trial, lands, dead, try_line, trial_of, intent_trial, land_line, land_trial,
  replay_source, is_skipped,
}
use tally_vcs.Union.Outcome.{Landed, SemanticConflict, Stratum, Writes}

staged_lines-append :
    (ls : List Landed) (l : Landed)
    → staged_lines (ls ++ (l ∷ [])) ≡ staged_lines ls ++ (l.line ∷ [])
staged_lines-append [] l = refl
staged_lines-append (m ∷ ls) l = rw (staged_lines-append ls l) refl

last_id-append :
    ⦃S : Setsum⦄ (prev : Bytes) (ls : List LogLine) (l : LogLine)
    → last_id prev (ls ++ (l ∷ [])) ≡ l.id
last_id-append prev [] l = refl
last_id-append prev (m ∷ ls) l = last_id-append m.id ls l

-- A trial that lands applies its delta.
abbrev Applies : Manifest → Trial → Type 0
Applies scratch dead = Unit
Applies scratch (lands realized m stratum) = apply_realized_to_manifest scratch realized ≡ ok m

pub ok_pair :
    {A : Type 0} (t u : A) (r r₁ : Repo) → ◌≡◌ {A = Result A × Repo} (ok t, r) (ok u, r₁) → t ≡ u
ok_pair {A} t u r r₁ e = ok_injective (ap (λ (p : Result A × Repo). p.0) e)

err_pair :
    {A : Type 0} (P : A → Type 0) (c : Error) (u : A) (r r₁ : Repo)
    → ◌≡◌ {A = Result A × Repo} (err c, r) (ok u, r₁)
    → P u
err_pair {A} P c u r r₁ e = absurd (err-ne-ok (ap (λ (p : Result A × Repo). p.0) e))

module _ ⦃h : Sha3⦄ (line : LogLine) (scratch : Manifest) (w : IsWellFormed scratch) where
  intent_trial-Applies :
      (blobs : BlobStore) (p : Result Realization × Manifest) (r r₁ : Repo) (t : Trial)
      → apply_intent line.intent scratch blobs ≡ p
      → intent_trial p r ≡ (ok t, r₁)
      → Applies scratch t
  intent_trial-Applies blobs (ok z, n) r r₁ t q e =
      let (u, r₂, e₁, k₁) = bind-eq-ok (put_all z.new_blobs) _ r r₁ t e in
      subst (Applies scratch) (ok_pair _ t r₂ r₁ k₁)
        (apply_intent-replay line.intent scratch n blobs z w q)
  intent_trial-Applies blobs (err precondition, n) r r₁ t q e =
      subst (Applies scratch) (ok_pair _ t r r₁ e) tt
  intent_trial-Applies blobs (err io, n) r r₁ t q e = err_pair (Applies scratch) io t r r₁ e
  intent_trial-Applies blobs (err corrupt, n) r r₁ t q e =
      err_pair (Applies scratch) corrupt t r r₁ e
  intent_trial-Applies blobs (err invalid, n) r r₁ t q e =
      err_pair (Applies scratch) invalid t r r₁ e
  intent_trial-Applies blobs (err needs_reenactment, n) r r₁ t q e =
      err_pair (Applies scratch) needs_reenactment t r r₁ e
  intent_trial-Applies blobs (err json, n) r r₁ t q e = err_pair (Applies scratch) json t r r₁ e

  trial_of-Applies :
      (p : Result Manifest) (r r₁ : Repo) (t : Trial)
      → apply_realized_to_manifest scratch line.realized ≡ p
      → trial_of line scratch p r ≡ (ok t, r₁)
      → Applies scratch t
  trial_of-Applies (ok trial) r r₁ t q e = subst (Applies scratch) (ok_pair _ t r r₁ e) q
  trial_of-Applies (err c) r r₁ t q e =
      let (x, r₂, e₁, k₁) = bind-eq-ok _ intent_trial r r₁ t e in
      intent_trial-Applies r.blobs x r₂ r₁ t (ok_pair _ x r r₂ e₁) k₁

  try_line-Applies :
      (r r₁ : Repo) (t : Trial) → try_line line scratch r ≡ (ok t, r₁) → Applies scratch t
  unfolding try_line
  try_line-Applies r r₁ t e =
      trial_of-Applies (apply_realized_to_manifest scratch line.realized) r r₁ t refl e

module _ ⦃S : Setsum⦄ where
  -- Lines that were written from the head of a state on, up to a manifest, and one more line.
  Replay-append :
      {m n last : Manifest} {prev : Bytes} {lines : List LogLine} (line : LogLine)
      → Chain.Replay m prev lines n
      → line.prev ≡ last_id prev lines
      → apply_realized_to_manifest n line.realized ≡ ok last
      → hexdigest (Manifest.sum last) ≡ line.sum_after
      → Chain.Replay m prev (lines ++ (line ∷ [])) last
  Replay-append line (at_end m prev) p a s = step p a s (at_end _ _)
  Replay-append line (step q b t c) p a s = step q b t (Replay-append line c p a s)

  -- The staged lines go on from a manifest and the id of a line, to the scratch manifest, whose sum
  -- is the running sum; the next line is to name the last of them.
  pub record IsOnward (m : Manifest) (head : Bytes) (s : Replay) : Type 0 where
    pub well_formed : IsWellFormed s.scratch
    pub summed : s.sum ≡ Manifest.sum s.scratch
    pub named : s.prev ≡ last_id head (staged_lines s.staged)
    pub written : Chain.Replay m head (staged_lines s.staged) s.scratch

  whole_injective : {s t : Replay} → whole s ≡ whole t → s ≡ t
  whole_injective e = cc

  gate-ne-whole : {id : Bytes} {cs : List SemanticConflict} {t : Replay} → ¬ (gate id cs ≡ whole t)
  gate-ne-whole e = cc

module _ ⦃S : Setsum⦄ ⦃h : Sha3⦄ (source author : Bytes) (concurrent : List Writes) where
  land_line-IsOnward :
      (m : Manifest) (head : Bytes) (now : Option ℕ) (line : LogLine)
      (realized : List RealizedEntry) (trial : Manifest) (stratum : Stratum) (s t : Replay)
      (r r₁ : Repo)
      → apply_realized_to_manifest s.scratch realized ≡ ok trial
      → land_line source author concurrent now line realized trial stratum s r ≡ (ok t, r₁)
      → IsOnward m head s
      → IsOnward m head t
  unfolding land_line
  land_line-IsOnward m head now line realized trial stratum s t r r₁ a e o =
      let (stale, r₂, e₁, k₁) = bind-eq-ok _ _ r r₁ t e in
      let (sum, r₃, e₂, k₂) = bind-eq-ok _ _ r₂ r₁ t k₁ in
      let (sealed, r₄, e₃, k₃) = bind-eq-ok _ _ r₃ r₁ t k₂ in
      let (written, r₅, e₄, k₄) = bind-eq-ok _ _ r₄ r₁ t k₃ in
      let folded : apply_realized_to_sum s.sum realized ≡ ok sum =
        ap (λ (p : Result Sum × Repo). p.0) e₂ in
      let summed : sum ≡ Manifest.sum trial =
        ok_injective (sym folded ∙ (rw o.summed (sum-apply_realized realized s.scratch trial a))) in
      let kept = core-seal now r₃.blobs _ sealed (seal_line-eq-ok now _ r₃ r₄ sealed e₃) in
      let landed : Landed = record { line = sealed.line; origin_id = line.id; stratum = stratum } in
      subst (IsOnward m head) (ok_pair _ t r₅ r₁ k₄) (record {
        well_formed = apply_realized-IsWellFormed realized s.scratch trial o.well_formed a;
        summed = summed;
        named =
            rw (staged_lines-append s.staged landed)
              (sym (last_id-append head (staged_lines s.staged) sealed.line));
        written = rw (staged_lines-append s.staged landed) (
            Replay-append sealed.line o.written
              (ap (λ (c : Bytes × (List RealizedEntry × Bytes)). c.0) kept ∙ o.named)
              (rw (ap (λ (c : Bytes × (List RealizedEntry × Bytes)). c.1.0) kept) a)
              (ap hexdigest (sym summed)
                ∙ sym (ap (λ (c : Bytes × (List RealizedEntry × Bytes)). c.1.1) kept)));
      })

  -- If the replay of the source's lines ends, what it has staged goes on as its start did.
  pub replay_source-IsOnward :
      (m : Manifest) (head : Bytes) (clock : ℕ → Option ℕ) (identical : Bool) (ids : BTreeSet)
      (lines : List LogLine) (s t : Replay) (r r₁ : Repo)
      → replay_source source author concurrent clock identical ids lines s r ≡ (ok (whole t), r₁)
      → IsOnward m head s
      → IsOnward m head t
  unfolding replay_source
  replay_source-IsOnward m head clock identical ids [] s t r r₁ e o =
      subst (IsOnward m head) (whole_injective (ok_pair _ _ r r₁ e)) o
  replay_source-IsOnward m head clock identical ids (line ∷ lines) s t r r₁ e o =
      elim (Bool-cases (is_skipped identical ids line)) [
        | inl k ↦
            replay_source-IsOnward m head clock identical ids lines s t r r₁
              (rw (k, if◌then◌else◌) at e) o
        | inr k ↦
            let (trial, r₂, e₁, e₂) =
              bind-eq-ok (try_line line s.scratch) _ r r₁ (whole t) (rw (k, if◌then◌else◌) at e) in
            go (replay_source-IsOnward m head clock identical ids lines) trial r₂
              (try_line-Applies line s.scratch o.well_formed r r₂ trial e₁) e₂
      ]
    where
      go :
          ((u v : Replay) (r₂ r₃ : Repo)
            → replay_source source author concurrent clock identical ids lines u r₂
              ≡ (ok (whole v), r₃)
            → IsOnward m head u
            → IsOnward m head v)
          → (trial : Trial) (r₂ : Repo) → Applies s.scratch trial
          → land_trial source author concurrent
              (clock (length lines))
              line
              s
              (λ u. replay_source source author concurrent clock identical ids lines u)
              trial
              r₂
            ≡ (ok (whole t), r₁)
          → IsOnward m head t
      go rest dead r₂ a k = absurd (gate-ne-whole (ok_pair _ _ r₂ r₁ k))
      go rest (lands realized n stratum) r₂ a k =
          let (u, r₃, k₁, k₂) = bind-eq-ok _ _ r₂ r₁ (whole t) k in
          rest u t r₃ r₁ k₂ (
            land_line-IsOnward m head (clock (length lines)) line realized n stratum s u r₂ r₃ a k₁
              o)
