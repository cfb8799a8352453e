-- ===== src/Blobs/Addressed.antt =====
-- Proofs on `put`, `get` and `remove` of src/blobs.rs.
use tally_vcs.Prelude.{
  ◌≡◌, refl, sym, inl, inr, arith, if◌then◌else◌, ok, io, ok_or-eq-ok, Bool-cases, Option-cases,
}
use tally_vcs.Prelude.Bytes.{Bytes, str_eq_refl}
use tally_vcs.BTreeMap
use tally_vcs.BTreeMap.{contains_key, is_some}
use tally_vcs.BTreeMap.Laws.{get-insert, insert-All, get-All}
use tally_vcs.BTreeMap.Order.{insert-IsSorted}
use tally_vcs.Blobs.{BlobStore, path_for, get, put, IsAddressed}
use tally_vcs.Ident.Hex.{Sha3, is_hex64, sha3_hex, sha3_hex-is_hex64}

module _ ⦃h : Sha3⦄ where
  -- If the files of a pool are named by their hashes, the bytes that get reads have the hash asked
  -- for.
  pub get-sha3_hex :
      (s : BlobStore) (blob content : Bytes)
      → IsAddressed s
      → get s blob ≡ ok content
      → sha3_hex content ≡ blob
  unfolding get path_for
  get-sha3_hex s blob content v e = elim (Bool-cases (is_hex64 blob)) [
    | inr n ↦ absurd (ground arith)
    | inl t ↦
        let k = rw (t, if◌then◌else◌) at e in
        sym (get-All (λ f. f.0 ≡ sha3_hex f.1) blob s.files v.named (ok_or-eq-ok _ io k))
  ]

  -- If the files of a pool are named by their hashes, putting a content succeeds, keeps that
  -- property, returns the hash of the content, and leaves under it a content of that hash.
  pub put_total :
      (s : BlobStore) (content : Bytes)
      → IsAddressed s
      → (after : BlobStore) × (put s content ≡ ok (sha3_hex content, after))
        × IsAddressed after
        × ((found : Bytes) × (get after (sha3_hex content) ≡ ok found)
            × (sha3_hex found ≡ sha3_hex content))
  unfolding put get path_for
  put_total s content v = elim (Option-cases (BTreeMap.get (sha3_hex content) s.files)) [
    | inr (found, e) ↦ (
      s,
      rw (sha3_hex-is_hex64 content, e, if◌then◌else◌) refl,
      v,
      (
        found,
        rw (sha3_hex-is_hex64 content, e, if◌then◌else◌) refl,
        sym (get-All (λ f. f.0 ≡ sha3_hex f.1) (sha3_hex content) s.files v.named e),
      ),
    )
    | inl e ↦
        let files = BTreeMap.insert (sha3_hex content) content s.files in
        (
          record { files = files },
          rw (sha3_hex-is_hex64 content, e, if◌then◌else◌) refl,
          record {
            sorted = insert-IsSorted (sha3_hex content) content s.files v.sorted;
            named =
                insert-All (λ f. f.0 ≡ sha3_hex f.1) (sha3_hex content) content s.files refl
                  v.named;
          },
          (
            content,
            rw
                (
                  sha3_hex-is_hex64 content,
                  if◌then◌else◌,
                  get-insert (sha3_hex content) (sha3_hex content) content s.files,
                  str_eq_refl (sha3_hex content),
                )
                refl,
            refl,
          ),
        )
  ]
