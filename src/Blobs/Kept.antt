-- ===== src/Blobs/Kept.antt =====
-- Proofs on `put` and `get` of src/blobs.rs: what is put is found, and stays.
use tally_vcs.Prelude.{
  ◌≡◌, refl, sym, ap, inl, inr, arith, if◌then◌else◌, ok, io, ok_injective, ok_or-eq-ok, Bool-cases,
  Option-cases,
}
use tally_vcs.Prelude.Bytes.{Bytes, str_eq, str_eq_refl, str_eq→eq}
use tally_vcs.BTreeMap
use tally_vcs.BTreeMap.{contains_key, is_some}
use tally_vcs.BTreeMap.Laws.{get-insert}
use tally_vcs.Blobs.{BlobStore, path_for, get, put}
use tally_vcs.Ident.Hex.{Sha3, is_hex64, sha3_hex, sha3_hex-is_hex64}

module _ ⦃h : Sha3⦄ where
  -- The pool after a put.
  abbrev put_files : BlobStore → Bytes → BTreeMap.BTreeMap Bytes
  put_files s content =
      if contains_key (sha3_hex content) s.files
      then s.files
      else BTreeMap.insert (sha3_hex content) content s.files

  put_eq :
      (s after : BlobStore) (content key : Bytes)
      → put s content ≡ ok (key, after)
      → (key ≡ sha3_hex content) × (after.files ≡ put_files s content)
  unfolding put path_for
  put_eq s after content key e = elim (Bool-cases (contains_key (sha3_hex content) s.files)) [
    | inl t ↦
        let k = ok_injective (rw (sha3_hex-is_hex64 content, t, if◌then◌else◌) at e) in
        (
          sym (ap (λ (p : Bytes × BlobStore). p.0) k),
          rw (t, if◌then◌else◌) (sym (ap (λ (p : Bytes × BlobStore). p.1.files) k)),
        )
    | inr t ↦
        let k = ok_injective (rw (sha3_hex-is_hex64 content, t, if◌then◌else◌) at e) in
        (
          sym (ap (λ (p : Bytes × BlobStore). p.0) k),
          rw (t, if◌then◌else◌) (sym (ap (λ (p : Bytes × BlobStore). p.1.files) k)),
        )
  ]

  pub put-key :
      (s after : BlobStore) (content key : Bytes)
      → put s content ≡ ok (key, after)
      → key ≡ sha3_hex content
  put-key s after content key e = (put_eq s after content key e).0

  -- What is put can be read under its hash.
  pub put-get :
      (s after : BlobStore) (content key : Bytes)
      → put s content ≡ ok (key, after)
      → (found : Bytes) × (get after (sha3_hex content) ≡ ok found)
  unfolding get path_for
  put-get s after content key e = elim (Option-cases (BTreeMap.get (sha3_hex content) s.files)) [
    | inr (found, g) ↦ (
      found,
      rw (sha3_hex-is_hex64 content, if◌then◌else◌)
          (rw ((put_eq s after content key e).1, g, if◌then◌else◌, g) refl),
    )
    | inl g ↦ (
      content,
      rw (sha3_hex-is_hex64 content, if◌then◌else◌)
          (rw ((put_eq s after content key e).1, g, if◌then◌else◌)
            (rw
              (
                get-insert (sha3_hex content) (sha3_hex content) content s.files,
                str_eq_refl (sha3_hex content),
              )
              refl)),
    )
  ]

  -- What could be read before can be read after.
  pub get-put :
      (s after : BlobStore) (content key blob found : Bytes)
      → put s content ≡ ok (key, after)
      → get s blob ≡ ok found
      → get after blob ≡ ok found
  unfolding get path_for
  get-put s after content key blob found e g = elim (Bool-cases (is_hex64 blob)) [
    | inr n ↦ absurd (ground arith)
    | inl t ↦
        let k = ok_or-eq-ok (BTreeMap.get blob s.files) io (rw (t, if◌then◌else◌) at g) in
        rw (t, if◌then◌else◌)
          (rw (put_eq s after content key e).1
            (elim (Option-cases (BTreeMap.get (sha3_hex content) s.files)) [
              | inr (old, f) ↦ rw (f, if◌then◌else◌) (rw k refl)
              | inl f ↦
                  rw (f, if◌then◌else◌)
                    (rw (get-insert (sha3_hex content) blob content s.files)
                      (elim (Bool-cases (str_eq blob (sha3_hex content))) [
                        | inl q ↦ let r = rw (str_eq→eq _ _ q, f) at k in absurd (cc)
                        | inr q ↦ rw (q, if◌then◌else◌) (rw k refl)
                      ]))
            ]))
  ]
