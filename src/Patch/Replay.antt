-- ===== src/Patch/Replay.antt =====
-- Proofs on `apply_intent` of src/patch.rs.
use tally_vcs.Prelude.{
  not, List, [], ◌∷◌, ◌++◌, Option, none, some, ◌≡◌, refl, sym, ap, ◌∙◌, All, All-append, Result,
  ok, err, Error, >>=-eq-ok, ok_or-eq-ok, ok_injective, err-ne-ok, require, ok_or, precondition,
  Result-cases, inl, inr, subst,
}
use tally_vcs.Prelude.Bytes.{Bytes, str_eq}
use tally_vcs.Base64.{decode}
use tally_vcs.Blobs.{BlobStore}
use tally_vcs.Ident.Hex.{Sha3, sha3_hex}
use tally_vcs.Ident.Record.{ElementRecord, new, validate_path, validate_mode}
use tally_vcs.Ident.RoundTrip.{IsValid, IsValid-new}
use tally_vcs.Manifest.{Manifest, sum, IsWellFormed}
use tally_vcs.Manifest
use tally_vcs.Manifest.Invariant.{get-IsEntry}
use tally_vcs.Patch.{
  Op, edit, create, delete, chmod, Intent, RealizedEntry, Realization, Scratch, start, exchange,
  Call, apply_op, apply_ops, apply_intent, apply_entry, apply_realized_to_manifest,
  apply_realized_to_sum, read_blob, is_known, create_content, commit,
}
use tally_vcs.Patch.Span.{replaced, replace_unique}
use tally_vcs.Patch.Arithmetic.{apply_realized-append, sum-apply_realized, apply_entry-IsWellFormed}
use tally_vcs.Setsum.{Setsum}
use tally_vcs.Patch.Entries.{both, apply_entry-both, apply_entry-added, apply_entry-removed}

-- A blob stands under the hash of its content.
abbrev pub IsNamed : ⦃h : Sha3⦄ → Bytes × Bytes → Type 0
IsNamed b = b.0 ≡ sha3_hex b.1

-- What the loop keeps: the entries realized so far lead from the first manifest to the scratch
-- manifest, which is well formed, and the new blobs have their names.
record Tracks ⦃h : Sha3⦄ (m : Manifest) (s : Scratch) : Type 0 where
  well_formed : IsWellFormed s.scratch
  replays : apply_realized_to_manifest m s.realization.realized ≡ ok s.scratch
  named : All IsNamed s.realization.new_blobs

-- The three orders in which an `ElementRecord::new` can be reached all give a valid record.
new-IsValid : (mode path blob : Bytes) {r : ElementRecord} → new mode path blob ≡ ok r → IsValid r
new-IsValid mode path blob {r} h = (IsValid-new mode path blob r h).1

module _ ⦃h : Sha3⦄ where
  pushed :
      (m : Manifest) (s : Scratch) (e : RealizedEntry) (n : Manifest)
      (new_blobs : List (Bytes × Bytes))
      → Tracks m s
      → All IsNamed new_blobs
      → apply_entry s.scratch e ≡ ok n
      → Tracks m (record {
        scratch = n;
        realization = record { realized = s.realization.realized ++ e ∷ []; new_blobs = new_blobs };
      })
  unfolding apply_realized_to_manifest
  pushed m s e n new_blobs t b k = record {
    well_formed = apply_entry-IsWellFormed s.scratch e n t.well_formed k;
    replays = apply_realized-append s.realization.realized (e ∷ []) m ∙ rw t.replays (rw k refl);
    named = b;
  }

  exchange-Tracks :
      (m : Manifest) (s : Scratch) (element r : ElementRecord) (new_blobs : List (Bytes × Bytes))
      (s' : Scratch)
      → Tracks m s
      → All IsNamed new_blobs
      → IsValid element
      → IsValid r
      → exchange s element r new_blobs ≡ ok s'
      → Tracks m s'
  unfolding exchange
  exchange-Tracks m s element r new_blobs s' t b v w e =
      let (m₁, h₁, k₁) = >>=-eq-ok (Manifest.remove s.scratch element) _ e in
      let (m₂, h₂, k₂) = >>=-eq-ok (Manifest.insert m₁ r) _ k₁ in
      subst (Tracks m) (ok_injective k₂) (
        pushed m s (both element r) m₂ new_blobs t b
          (apply_entry-both s.scratch m₁ m₂ element r v w h₁ h₂))

  create_content-IsNamed :
      (blobs : BlobStore) (bs : List (Bytes × Bytes)) (blob content_b64 : Option Bytes)
      (hash : Bytes) (bs' : List (Bytes × Bytes))
      → All IsNamed bs
      → create_content blobs bs blob content_b64 ≡ ok (hash, bs')
      → All IsNamed bs'
  unfolding create_content
  create_content-IsNamed blobs bs (some x) none hash bs' a e =
      let (known, h₁, k₁) = >>=-eq-ok (is_known blobs bs x) _ e in
      let (u, h₂, k₂) = >>=-eq-ok (require known precondition) _ k₁ in
      let q : bs ≡ bs' = ap (λ (t : Bytes × List (Bytes × Bytes)). t.1) (ok_injective k₂) in
      subst (All IsNamed) q a
  create_content-IsNamed blobs bs none (some c) hash bs' a e =
      let (content, h₁, k₁) = >>=-eq-ok (decode c) _ e in
      let q = ap (λ (t : Bytes × List (Bytes × Bytes)). t.1) (ok_injective k₁) in
      subst (All IsNamed) q (All-append IsNamed bs ((sha3_hex content, content) ∷ []) a (refl, tt))
  create_content-IsNamed blobs bs (some x) (some c) hash bs' a e = absurd (cc)
  create_content-IsNamed blobs bs none none hash bs' a e = absurd (cc)

  apply_op-Tracks :
      (blobs : BlobStore) (m : Manifest) (s : Scratch) (op : Op) (s' : Scratch)
      → Tracks m s
      → apply_op blobs s op ≡ ok s'
      → Tracks m s'
  unfolding apply_op
  apply_op-Tracks blobs m s (edit path old_str new_str) s' t e =
      let (u, h₀, k₀) = >>=-eq-ok (validate_path path) _ e in
      let (element, h₁, k₁) = >>=-eq-ok (ok_or (Manifest.get s.scratch path) precondition) _ k₀ in
      let (content, h₂, k₂) =
        >>=-eq-ok (read_blob blobs s.realization.new_blobs element.blob) _ k₁ in
      let (new_content, h₃, k₃) =
        >>=-eq-ok (replaced (replace_unique content old_str new_str)) _ k₂ in
      let (r, h₄, k₄) = >>=-eq-ok (new element.mode path (sha3_hex new_content)) _ k₃ in
      exchange-Tracks m s element r _ s' t
        (All-append IsNamed s.realization.new_blobs ((sha3_hex new_content, new_content) ∷ [])
          t.named (refl, tt))
        (get-IsEntry s.scratch path t.well_formed (ok_or-eq-ok _ _ h₁)).1 (new-IsValid _ _ _ h₄) k₄
  apply_op-Tracks blobs m s (create path mode blob content_b64) s' t e =
      let (u₀, h₀, k₀) = >>=-eq-ok (validate_path path) _ e in
      let (u₁, h₁, k₁) = >>=-eq-ok (validate_mode mode) _ k₀ in
      let (u₂, h₂, k₂) =
        >>=-eq-ok (require (not (Manifest.is_present s.scratch path)) precondition) _ k₁ in
      let ((hash, bs), h₃, k₃) =
        >>=-eq-ok (create_content blobs s.realization.new_blobs blob content_b64) _ k₂ in
      let (r, h₄, k₄) = >>=-eq-ok (new mode path hash) _ k₃ in
      let (n, h₅, k₅) = >>=-eq-ok (Manifest.insert s.scratch r) _ k₄ in
      subst (Tracks m) (ok_injective k₅) (
        pushed m s _ n bs t
          (create_content-IsNamed blobs s.realization.new_blobs blob content_b64 hash bs t.named h₃)
          (apply_entry-added s.scratch n r (new-IsValid _ _ _ h₄) h₅))
  apply_op-Tracks blobs m s (delete path blob) s' t e =
      let (u₀, h₀, k₀) = >>=-eq-ok (validate_path path) _ e in
      let (element, h₁, k₁) = >>=-eq-ok (ok_or (Manifest.get s.scratch path) precondition) _ k₀ in
      let (u₂, h₂, k₂) = >>=-eq-ok (require (str_eq element.blob blob) precondition) _ k₁ in
      let (n, h₃, k₃) = >>=-eq-ok (Manifest.remove s.scratch element) _ k₂ in
      subst (Tracks m) (ok_injective k₃) (
        pushed m s _ n s.realization.new_blobs t t.named (
          apply_entry-removed s.scratch n element
            (get-IsEntry s.scratch path t.well_formed (ok_or-eq-ok _ _ h₁)).1 h₃))
  apply_op-Tracks blobs m s (chmod path old_mode new_mode) s' t e =
      let (u₀, h₀, k₀) = >>=-eq-ok (validate_path path) _ e in
      let (u₁, h₁, k₁) = >>=-eq-ok (validate_mode new_mode) _ k₀ in
      let (element, h₂, k₂) = >>=-eq-ok (ok_or (Manifest.get s.scratch path) precondition) _ k₁ in
      let (u₃, h₃, k₃) = >>=-eq-ok (require (str_eq element.mode old_mode) precondition) _ k₂ in
      let (r, h₄, k₄) = >>=-eq-ok (new new_mode path element.blob) _ k₃ in
      exchange-Tracks m s element r s.realization.new_blobs s' t t.named
        (get-IsEntry s.scratch path t.well_formed (ok_or-eq-ok _ _ h₂)).1 (new-IsValid _ _ _ h₄) k₄

  apply_ops-Tracks :
      (blobs : BlobStore) (m : Manifest) (ops : List Op) (c c' : Call)
      → Tracks m c.work
      → apply_ops blobs c ops ≡ (ok tt, c')
      → Tracks m c'.work
  unfolding apply_ops
  apply_ops-Tracks blobs m [] c c' t e = subst (λ k. Tracks m k.work) (ap (λ p. p.1) e) t
  apply_ops-Tracks blobs m (op ∷ ops) c c' t e = elim (Result-cases (apply_op blobs c.work op)) [
    | inl (s, q) ↦
        apply_ops-Tracks blobs m ops (record c { work = s }) c'
          (apply_op-Tracks blobs m c.work op s t q) (rw q at e)
    | inr (x, q) ↦ absurd (err-ne-ok (ap (λ (p : Result (Unit {0}) × Call). p.0) (rw q at e)))
  ]

  -- No round writes through `manifest`.
  apply_ops-manifest :
      (blobs : BlobStore) (ops : List Op) (c : Call)
      → (apply_ops blobs c ops).1.manifest ≡ c.manifest
  unfolding apply_ops
  apply_ops-manifest blobs [] c = refl
  apply_ops-manifest blobs (op ∷ ops) c = elim (Result-cases (apply_op blobs c.work op)) [
    | inl (s, q) ↦ rw q (apply_ops-manifest blobs ops (record c { work = s }))
    | inr (x, q) ↦ rw q refl
  ]

  abbrev begun : Manifest → Call
  begun m = record { manifest = m; work = start m }

  start-Tracks : (m : Manifest) → IsWellFormed m → Tracks m (start m)
  unfolding apply_realized_to_manifest
  start-Tracks m w = record { well_formed = w; replays = refl; named = tt }

  commit-Tracks :
      (m n : Manifest) (z : Realization) (r : Result (Unit {0}) × Call)
      → ((c : Call) → r ≡ (ok tt, c) → Tracks m c.work)
      → commit r ≡ (ok z, n)
      → Tracks m (record { scratch = n; realization = z })
  commit-Tracks m n z (ok done, c) t e =
      subst (Tracks m) (λ i. record { scratch = (e i).1; realization = realization_of i })
        (t c refl)
    where
      realization_of : c.work.realization ≡ z
      realization_of = ok_injective (ap (λ (p : Result Realization × Manifest). p.0) e)
  commit-Tracks m n z (err x, c) t e =
      absurd (err-ne-ok (ap (λ (p : Result Realization × Manifest). p.0) e))

  module _ (intent : Intent) (m n : Manifest) (blobs : BlobStore) (z : Realization)
      (w : IsWellFormed m) (applied : apply_intent intent m blobs ≡ (ok z, n)) where
    intent-Tracks : Tracks m (record { scratch = n; realization = z })
    unfolding apply_intent
    intent-Tracks =
        commit-Tracks m n z (apply_ops blobs (begun m) intent.ops)
          (λ c e. apply_ops-Tracks blobs m intent.ops (begun m) c (start-Tracks m w) e) applied

    -- If an intent applies to a well-formed manifest, replaying the realized delta that it returns
    -- against that manifest gives the manifest that the application left.
    pub apply_intent-replay : apply_realized_to_manifest m z.realized ≡ ok n
    apply_intent-replay = intent-Tracks.replays

    -- An intent that applies to a well-formed manifest leaves a well-formed manifest.
    pub apply_intent-IsWellFormed : IsWellFormed n
    apply_intent-IsWellFormed = intent-Tracks.well_formed

    -- Each new blob that it hands over is named by the hash of its content.
    pub apply_intent-IsNamed : All IsNamed z.new_blobs
    apply_intent-IsNamed = intent-Tracks.named

    -- The sum follows with no second look at the content.
    pub apply_intent-sum : ⦃S : Setsum⦄ → apply_realized_to_sum (sum m) z.realized ≡ ok (sum n)
    apply_intent-sum = sum-apply_realized z.realized m n apply_intent-replay

  -- An intent that fails leaves the manifest of the caller as it was: no round of the loop writes
  -- to it.
  pub apply_intent_failed :
      (intent : Intent) (m n : Manifest) (blobs : BlobStore) (e : Error)
      → apply_intent intent m blobs ≡ (err e, n)
      → n ≡ m
  unfolding apply_intent
  apply_intent_failed intent m n blobs e h =
      go (apply_ops blobs (begun m) intent.ops) (apply_ops-manifest blobs intent.ops (begun m)) h
    where
      go : (r : Result (Unit {0}) × Call) → r.1.manifest ≡ m → commit r ≡ (err e, n) → n ≡ m
      go (ok done, c) q k =
          absurd (err-ne-ok (sym (ap (λ (p : Result Realization × Manifest). p.0) k)))
      go (err x, c) q k = sym (ap (λ (p : Result Realization × Manifest). p.1) k) ∙ q
