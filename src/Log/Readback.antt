-- ===== src/Log/Readback.antt =====
-- Proofs on `LogLine::seal` and `LogLine::parse_with` of src/log.rs: what is sealed is read back.
use tally_vcs.Prelude.{
  ℕ, subst, true, [], ◌∷◌, ◌++◌, Option, ◌≡◌, refl, ap, ◌∙◌, inl, inr, if◌then◌else◌, Bool-cases,
  length, ltb, Result, ok, >>=-eq-ok, ok_injective,
}
use tally_vcs.Prelude.Bytes.{Bytes, is_utf8}
use tally_vcs.Blobs.{BlobStore, put, get}
use tally_vcs.Blobs.Kept.{put-get}
use tally_vcs.Ident.Hex.{Sha3, sha3_hex, sha3_hex-is_hex64}
use tally_vcs.Json.{Value}
use tally_vcs.Json.Canonical.{canonical_json}
use tally_vcs.Json.OneLine.{IsOneLine, canonical_json-IsOneLine}
use tally_vcs.Json.RecordId.{verify_record_id}
use tally_vcs.Log.{LogLine, validate}
use tally_vcs.Log.Seal.{
  Sealed, seal, stamp, compute_id, spill_reads_if_needed, overflow, line_blob_value,
  spill_threshold,
}
use tally_vcs.Log.Serialize.{to_value}
use tally_vcs.Log.Stored.{
  Serde, StoredLine, line, blob_ref, read_piece, parse_stored, resolve_stored, verified,
}
use tally_vcs.Log.Readable.{
  reference_utf8, line_blob_ref_value, line_blob_ref_line, compute_id-verify, validate-stamp,
  validate-id, spill-validate,
}
use tally_vcs.Blobs.Kept.{put-key}

module _ ⦃h : Sha3⦄ ⦃d : Serde⦄ where
  -- serde_json reads the canonical text of this value as the value.
  abbrev pub Reads : Value → Type 0
  Reads v = (text : Bytes) → canonical_json v ≡ ok text → d.from_str text ≡ ok v

  -- What the line needs of serde_json and of the pool: the strings of the line are UTF-8, its text,
  -- and the reference to a blob that holds it, are read as what they were written for, its value is
  -- read as the line, and no other content of the pool has the hash of its text.
  pub record IsReadable (blobs : BlobStore) (l : LogLine) : Type 0 where
    pub encoded : (text : Bytes) → canonical_json (to_value l) ≡ ok text → is_utf8 text ≡ true
    pub from_text : Reads (to_value l)
    pub from_reference :
        (text : Bytes)
        → canonical_json (to_value l) ≡ ok text
        → Reads (line_blob_value (sha3_hex text))
    pub from_value : d.from_value (to_value l) ≡ ok l
    pub only :
        (text found : Bytes)
        → canonical_json (to_value l) ≡ ok text
        → get blobs (sha3_hex text) ≡ ok found
        → found ≡ text

  -- The text is one line, and is read as this line.
  pub record IsStored (fetch : Bytes → Result Bytes) (text : Bytes) (l : LogLine) : Type 0 where
    pub one_line : IsOneLine text
    pub piece : StoredLine
    pub read : read_piece text ≡ ok piece
    pub resolved : resolve_stored fetch piece ≡ ok l

  -- The value of a line that was sealed is read as that line.
  sealed-verified :
      (l : LogLine)
      → verify_record_id (to_value l) ≡ ok tt
      → d.from_value (to_value l) ≡ ok l
      → validate l ≡ ok tt
      → verified (to_value l) ≡ ok l
  unfolding verified
  sealed-verified l i f v = rw i (rw f (rw v refl))

  inline-IsStored :
      (blobs : BlobStore) (l : LogLine) (text : Bytes)
      → canonical_json (to_value l) ≡ ok text
      → verified (to_value l) ≡ ok l
      → IsReadable blobs l
      → IsStored (get blobs) text l
  unfolding parse_stored resolve_stored
  inline-IsStored blobs l text c v r = record {
    one_line = canonical_json-IsOneLine (to_value l) text c;
    piece = line l;
    read = rw (r.encoded text c) (rw (r.from_text text c) (rw (line_blob_ref_line l) (rw v refl)));
    resolved = refl;
  }

  referenced-IsStored :
      (blobs : BlobStore) (l : LogLine) (text found reference : Bytes)
      → canonical_json (to_value l) ≡ ok text
      → verified (to_value l) ≡ ok l
      → IsReadable blobs l
      → get blobs (sha3_hex text) ≡ ok found
      → canonical_json (line_blob_value (sha3_hex text)) ≡ ok reference
      → IsStored (get blobs) reference l
  unfolding parse_stored resolve_stored
  referenced-IsStored blobs l text found reference c v r g e =
      let is_hash = sha3_hex-is_hex64 text in
      let fetched : get blobs (sha3_hex text) ≡ ok text = g ∙ ap ok (r.only text found c g) in
      record {
        one_line = canonical_json-IsOneLine _ reference e;
        piece = blob_ref (sha3_hex text);
        read = rw (reference_utf8 (sha3_hex text) reference is_hash e) (
            rw (r.from_reference text c reference e)
              (rw (line_blob_ref_value (sha3_hex text) is_hash) refl));
        resolved = rw fetched (rw (r.encoded text c) (rw (r.from_text text c) v));
      }

  -- What `overflow` leaves in the place of the text of a line is read as that line.
  overflow-IsStored :
      (blobs : BlobStore) (l : LogLine) (text : Bytes) (stored : Bytes × BlobStore)
      → canonical_json (to_value l) ≡ ok text
      → verified (to_value l) ≡ ok l
      → IsReadable stored.1 l
      → overflow blobs text ≡ ok stored
      → IsStored (get stored.1) stored.0 l
  unfolding overflow
  overflow-IsStored blobs l text stored c v r e =
      elim (Bool-cases (ltb spill_threshold (length text))) [
        | inr n ↦
            let k = ok_injective (rw (n, if◌then◌else◌) at e) in
            subst (λ (s : Bytes × BlobStore). IsStored (get s.1) s.0 l) k
              (inline-IsStored blobs l text c v (rw (ap (λ (s : Bytes × BlobStore). s.1) k) r))
        | inl n ↦
            let (p, e₁, k₁) = >>=-eq-ok (put blobs text) _ (rw (n, if◌then◌else◌) at e) in
            let (t, e₂, k₂) = >>=-eq-ok (canonical_json (line_blob_value p.0)) _ k₁ in
            let q = ok_injective k₂ in
            let (found, g) = put-get blobs p.1 text p.0 e₁ in
            subst (λ (s : Bytes × BlobStore). IsStored (get s.1) s.0 l) q
              (referenced-IsStored p.1 l text found t c v
                (rw (ap (λ (s : Bytes × BlobStore). s.1) q) r) g
                (rw (put-key blobs p.1 text p.0 e₁) at e₂))
      ]

  -- What sealing a line is to give.
  abbrev SealsTo : Sealed → Type 0
  SealsTo s =
      IsReadable s.blobs s.line
      → (text : Bytes) × (s.appended ≡ text ++ (10 ∷ [])) × IsStored (get s.blobs) text s.line

  -- Sealing a line gives one line of text and an LF. If the strings of the sealed line are UTF-8,
  -- serde_json reads back what was written for it, and no other content of the pool has its hash,
  -- that text is read as the sealed line, inline or through the blob that it overflowed into.
  pub seal-IsStored :
      (now : Option ℕ) (blobs : BlobStore) (l : LogLine) (s : Sealed)
      → seal now blobs l ≡ ok s
      → IsReadable s.blobs s.line
      → (text : Bytes) × (s.appended ≡ text ++ (10 ∷ [])) × IsStored (get s.blobs) text s.line
  unfolding seal
  seal-IsStored now blobs l s e r =
      let (u, e₀, k₀) = >>=-eq-ok (validate l) _ e in
      let (m, e₁, k₁) = >>=-eq-ok (spill_reads_if_needed blobs (stamp now l)) _ k₀ in
      let (id, e₂, k₂) = >>=-eq-ok (compute_id m.0) _ k₁ in
      let sealed = record m.0 { id = id } in
      let (text, e₃, k₃) = >>=-eq-ok (canonical_json (to_value sealed)) _ k₂ in
      let (p, e₄, k₄) = >>=-eq-ok (overflow m.1 text) _ k₃ in
      subst SealsTo (ok_injective k₄)
        (λ readable. (
          p.0,
          refl,
          overflow-IsStored m.1 sealed text p e₃
              (sealed-verified sealed (compute_id-verify m.0 id e₂) readable.from_value (
                validate-id m.0 id
                ∙ spill-validate blobs m.1 (stamp now l) m.0 e₁
                ∙ validate-stamp now l
                ∙ e₀))
              readable e₄,
        ))
        r
