-- ===== src/Log/Core.antt =====
-- Proofs on `seal` of src/log.rs: the link, the delta and the stated sum of a line stay as they are.
use tally_vcs.Prelude.{
  ℕ, Bool, true, false, List, Option, none, some, ◌≡◌, refl, sym, ap, ◌∙◌, inl, inr, if◌then◌else◌,
  Bool-cases, Result, ok, >>=-eq-ok, ok_injective, ◌==◌,
}
use tally_vcs.Prelude.Bytes.{Bytes}
use tally_vcs.Blobs.{BlobStore, put}
use tally_vcs.Ident.Hex.{Sha3}
use tally_vcs.Json.{Value, null, bool, number, string, array, object}
use tally_vcs.Json.Canonical.{canonical_json}
use tally_vcs.Log.{LogLine, validate}
use tally_vcs.Log.Seal.{
  Sealed, seal, stamp, compute_id, spill_reads_if_needed, spill_if, spill_value, overflow,
}
use tally_vcs.Log.Serialize.{to_value}
use tally_vcs.Patch.{RealizedEntry}

-- What verification reads of a line.
abbrev pub core : LogLine → Bytes × (List RealizedEntry × Bytes)
core l = (l.prev, (l.realized, l.sum_after))

core-stamp : (now : Option ℕ) (l : LogLine) → core (stamp now l) ≡ core l
unfolding stamp
core-stamp now l = elim (Bool-cases (l.committed_ms == 0)) [
  | inl e ↦ rw (e, if◌then◌else◌) refl
  | inr e ↦ rw (e, if◌then◌else◌) refl
]

core_same :
    (blobs : BlobStore) (l : LogLine) (p : LogLine × BlobStore)
    → ◌≡◌ {A = Result (LogLine × BlobStore)} (ok (l, blobs)) (ok p)
    → core p.0 ≡ core l
core_same blobs l p e = ap (λ (q : LogLine × BlobStore). core q.0) (sym (ok_injective e))

module _ ⦃h : Sha3⦄ where
  core-spill_value :
      (blobs : BlobStore) (l : LogLine) (o : Option Value) (p : LogLine × BlobStore)
      → spill_value blobs l o ≡ ok p
      → core p.0 ≡ core l
  core-spill_value blobs l none p e = core_same blobs l p e
  core-spill_value blobs l (some null) p e = core_same blobs l p e
  core-spill_value blobs l (some (bool b)) p e = core_same blobs l p e
  core-spill_value blobs l (some (number n)) p e = core_same blobs l p e
  core-spill_value blobs l (some (string s)) p e = core_same blobs l p e
  core-spill_value blobs l (some (object ms)) p e = core_same blobs l p e
  core-spill_value blobs l (some (array vs)) p e =
      let (spilled, e₁, k₁) = >>=-eq-ok (canonical_json (array vs)) _ e in
      let (q, e₂, k₂) = >>=-eq-ok (put blobs spilled) _ k₁ in
      ap (λ (q : LogLine × BlobStore). core q.0) (sym (ok_injective k₂))

  core-spill :
      (blobs : BlobStore) (l : LogLine) (p : LogLine × BlobStore)
      → spill_reads_if_needed blobs l ≡ ok p
      → core p.0 ≡ core l
  unfolding spill_reads_if_needed
  core-spill blobs l p e =
      let (text, e₁, k₁) = >>=-eq-ok (canonical_json (to_value l)) _ e in go _ k₁
    where
      go : (b : Bool) → spill_if b blobs l ≡ ok p → core p.0 ≡ core l
      go true k = core_same blobs l p k
      go false k = core-spill_value blobs l l.annotation.reads p k

  -- Sealing keeps the link, the delta and the stated sum of a line.
  pub core-seal :
      (now : Option ℕ) (blobs : BlobStore) (l : LogLine) (s : Sealed)
      → seal now blobs l ≡ ok s
      → core s.line ≡ core l
  unfolding seal
  core-seal now blobs l s e =
      let (u, e₀, k₀) = >>=-eq-ok (validate l) _ e in
      let (m, e₁, k₁) = >>=-eq-ok (spill_reads_if_needed blobs (stamp now l)) _ k₀ in
      let (id, e₂, k₂) = >>=-eq-ok (compute_id m.0) _ k₁ in
      let (text, e₃, k₃) = >>=-eq-ok (canonical_json (to_value (record m.0 { id = id }))) _ k₂ in
      let (p, e₄, k₄) = >>=-eq-ok (overflow m.1 text) _ k₃ in
      ap (λ (s : Sealed). core s.line) (sym (ok_injective k₄))
      ∙ core-spill blobs (stamp now l) m e₁
      ∙ core-stamp now l
