-- ===== src/Log/Growth.antt =====
-- Proofs on `seal` of src/log.rs: the pool only grows.
use tally_vcs.Prelude.{
  ℕ, subst, Bool, true, false, Option, none, some, ◌≡◌, inl, inr, if◌then◌else◌, Bool-cases, length,
  ltb, Result, ok, >>=-eq-ok, ok_injective,
}
use tally_vcs.Prelude.Bytes.{Bytes}
use tally_vcs.Blobs.{BlobStore, put, get}
use tally_vcs.Blobs.Kept.{get-put}
use tally_vcs.Ident.Hex.{Sha3}
use tally_vcs.Json.{Value, null, bool, number, string, array, object}
use tally_vcs.Json.Canonical.{canonical_json}
use tally_vcs.Log.{LogLine, validate}
use tally_vcs.Log.Seal.{
  Sealed, seal, stamp, compute_id, spill_reads_if_needed, spill_if, spill_value, overflow,
  line_blob_value, spill_threshold,
}
use tally_vcs.Log.Serialize.{to_value}

module _ ⦃h : Sha3⦄ where
  -- What one pool gives, the other gives too.
  abbrev pub Extends : BlobStore → BlobStore → Type 0
  Extends blobs after = (blob found : Bytes) → get blobs blob ≡ ok found → get after blob ≡ ok found

  put-Extends :
      (blobs : BlobStore) (content : Bytes) (p : Bytes × BlobStore)
      → put blobs content ≡ ok p
      → Extends blobs p.1
  put-Extends blobs content p e blob found g = get-put blobs p.1 content p.0 blob found e g

  refl-Extends :
      (blobs : BlobStore) (l : LogLine) (p : LogLine × BlobStore)
      → ◌≡◌ {A = Result (LogLine × BlobStore)} (ok (l, blobs)) (ok p)
      → Extends blobs p.1
  refl-Extends blobs l p e =
      subst (λ (q : LogLine × BlobStore). Extends blobs q.1) (ok_injective e) (λ b f g. g)

  spill_value-Extends :
      (blobs : BlobStore) (l : LogLine) (o : Option Value) (p : LogLine × BlobStore)
      → spill_value blobs l o ≡ ok p
      → Extends blobs p.1
  spill_value-Extends blobs l none p e = refl-Extends blobs l p e
  spill_value-Extends blobs l (some null) p e = refl-Extends blobs l p e
  spill_value-Extends blobs l (some (bool b)) p e = refl-Extends blobs l p e
  spill_value-Extends blobs l (some (number n)) p e = refl-Extends blobs l p e
  spill_value-Extends blobs l (some (string s)) p e = refl-Extends blobs l p e
  spill_value-Extends blobs l (some (object ms)) p e = refl-Extends blobs l p e
  spill_value-Extends blobs l (some (array vs)) p e =
      let (spilled, e₁, k₁) = >>=-eq-ok (canonical_json (array vs)) _ e in
      let (q, e₂, k₂) = >>=-eq-ok (put blobs spilled) _ k₁ in
      subst (λ (q : LogLine × BlobStore). Extends blobs q.1) (ok_injective k₂)
        (put-Extends blobs spilled q e₂)

  spill-Extends :
      (blobs : BlobStore) (l : LogLine) (p : LogLine × BlobStore)
      → spill_reads_if_needed blobs l ≡ ok p
      → Extends blobs p.1
  unfolding spill_reads_if_needed
  spill-Extends blobs l p e =
      let (text, e₁, k₁) = >>=-eq-ok (canonical_json (to_value l)) _ e in go _ k₁
    where
      go : (b : Bool) → spill_if b blobs l ≡ ok p → Extends blobs p.1
      go true k = refl-Extends blobs l p k
      go false k = spill_value-Extends blobs l l.annotation.reads p k

  overflow-Extends :
      (blobs : BlobStore) (text : Bytes) (p : Bytes × BlobStore)
      → overflow blobs text ≡ ok p
      → Extends blobs p.1
  unfolding overflow
  overflow-Extends blobs text p e = elim (Bool-cases (ltb spill_threshold (length text))) [
    | inr n ↦
        subst (λ (q : Bytes × BlobStore). Extends blobs q.1)
          (ok_injective (rw (n, if◌then◌else◌) at e)) (λ b f g. g)
    | inl n ↦
        let (q, e₁, k₁) = >>=-eq-ok (put blobs text) _ (rw (n, if◌then◌else◌) at e) in
        let (t, e₂, k₂) = >>=-eq-ok (canonical_json (line_blob_value q.0)) _ k₁ in
        subst (λ (q : Bytes × BlobStore). Extends blobs q.1) (ok_injective k₂)
          (put-Extends blobs text q e₁)
  ]

  -- Sealing a line keeps every content of the pool.
  pub seal-Extends :
      (now : Option ℕ) (blobs : BlobStore) (l : LogLine) (s : Sealed)
      → seal now blobs l ≡ ok s
      → Extends blobs s.blobs
  unfolding seal
  seal-Extends now blobs l s e =
      let (u, e₀, k₀) = >>=-eq-ok (validate l) _ e in
      let (m, e₁, k₁) = >>=-eq-ok (spill_reads_if_needed blobs (stamp now l)) _ k₀ in
      let (id, e₂, k₂) = >>=-eq-ok (compute_id m.0) _ k₁ in
      let (text, e₃, k₃) = >>=-eq-ok (canonical_json (to_value (record m.0 { id = id }))) _ k₂ in
      let (p, e₄, k₄) = >>=-eq-ok (overflow m.1 text) _ k₃ in
      subst (λ (s : Sealed). Extends blobs s.blobs) (ok_injective k₄)
        (λ b f g. overflow-Extends m.1 text p e₄ b f (spill-Extends blobs (stamp now l) m e₁ b f g))
