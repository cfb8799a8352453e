-- ===== src/Repo/Reclaim.antt =====
-- Proofs on `gc_blobs` of src/repo.rs: what it removes, and what it keeps.
use tally_vcs.Prelude.{
  Bool, true, false, List, [], ◌∷◌, ◌≡◌, refl, sym, ap, ◌∙◌, inl, inr, Bool-cases, Result, ok, err,
  >>=-eq-ok, ok_injective, err-ne-ok, true≢false, if◌then◌else◌, subst, All, ◌↔◌,
}
use tally_vcs.Prelude.Bytes.{Bytes, str_eq, str_eq→eq}
use tally_vcs.Blobs
use tally_vcs.Blobs.{BlobStore, path_for}
use tally_vcs.BTreeMap
use tally_vcs.BTreeMap.{contains_key, IsSorted}
use tally_vcs.BTreeMap.Laws.{get-remove}
use tally_vcs.BTreeMap.Order.{remove-IsSorted}
use tally_vcs.Ident.Hex.{Sha3, is_hex64}
use tally_vcs.Log.Stored.{Serde}
use tally_vcs.Repo.{Repo, fork_names}
use tally_vcs.Repo.Collect.{
  collect, collected, remove_unless, gc_blobs, list_blobs, referenced_blobs,
}
use tally_vcs.Repo.Effects.{bind-eq-ok, IsSettled}
use tally_vcs.Repo.References.{Refers}
use tally_vcs.Repo.References.Forks.{referenced_blobs-Refers}
use tally_vcs.Setsum.{Setsum}
use tally_vcs.Union.{BTreeSet}

-- The hashes that nothing refers to.
abbrev pub unreferenced : BTreeSet → List Bytes → List Bytes
unreferenced referenced [] = []
unreferenced referenced (hash ∷ hashes) =
    if contains_key hash referenced
    then unreferenced referenced hashes
    else hash ∷ unreferenced referenced hashes

-- Two pools give the same contents for the names in a set.
abbrev pub AgreeOn : BTreeSet → BlobStore → BlobStore → Type 0
AgreeOn referenced a b =
    (key : Bytes) → contains_key key referenced ≡ true → Blobs.get b key ≡ Blobs.get a key

remove_blob-IsSorted :
    (s t : BlobStore) (hash : Bytes)
    → Blobs.remove s hash ≡ ok t
    → IsSorted s.files
    → IsSorted t.files
unfolding Blobs.remove path_for
remove_blob-IsSorted s t hash e sorted = elim (Bool-cases (is_hex64 hash)) [
  | inr n ↦ absurd (err-ne-ok (rw (n, if◌then◌else◌) at e))
  | inl y ↦
      subst (λ (u : BlobStore). IsSorted u.files) (ok_injective (rw (y, if◌then◌else◌) at e))
        (remove-IsSorted hash s.files sorted)
]

-- Removing a blob keeps the others.
get_after_remove :
    (s t : BlobStore) (hash key : Bytes)
    → Blobs.remove s hash ≡ ok t
    → IsSorted s.files
    → str_eq key hash ≡ false
    → Blobs.get t key ≡ Blobs.get s key
unfolding Blobs.remove path_for Blobs.get
get_after_remove s t hash key e sorted n = elim (Bool-cases (is_hex64 hash)) [
  | inr f ↦ absurd (err-ne-ok (rw (f, if◌then◌else◌) at e))
  | inl y ↦
      let q = ok_injective (rw (y, if◌then◌else◌) at e) in
      rw (← q) (elim (Bool-cases (is_hex64 key)) [
        | inr f ↦ rw (f, if◌then◌else◌) refl
        | inl g ↦
            rw (g, if◌then◌else◌)
              (rw (get-remove hash key s.files sorted) (rw (n, if◌then◌else◌) refl))
      ])
]

unless-IsSorted :
    (dry_run : Bool) (s t : BlobStore) (hash : Bytes)
    → remove_unless dry_run s hash ≡ ok t
    → IsSorted s.files
    → IsSorted t.files
unless-IsSorted true s t hash e sorted =
    subst (λ (u : BlobStore). IsSorted u.files) (ok_injective e) sorted
unless-IsSorted false s t hash e sorted = remove_blob-IsSorted s t hash e sorted

unless_get :
    (dry_run : Bool) (s t : BlobStore) (hash key : Bytes)
    → remove_unless dry_run s hash ≡ ok t
    → IsSorted s.files
    → str_eq key hash ≡ false
    → Blobs.get t key ≡ Blobs.get s key
unless_get true s t hash key e sorted n =
    ap (λ (u : BlobStore). Blobs.get u key) (sym (ok_injective e))
unless_get false s t hash key e sorted n = get_after_remove s t hash key e sorted n

-- A name in the set is not one that is not.
other_name :
    (referenced : BTreeSet) (key hash : Bytes)
    → contains_key key referenced ≡ true
    → contains_key hash referenced ≡ false
    → str_eq key hash ≡ false
other_name referenced key hash c n = elim (Bool-cases (str_eq key hash)) [
  | inr f ↦ f
  | inl e ↦
      absurd
        (true≢false (sym c ∙ ap (λ (k : Bytes). contains_key k referenced) (str_eq→eq _ _ e) ∙ n))
]

-- A pool without these files.
abbrev pub without : List Bytes → BlobStore → BlobStore
without [] s = s
without (hash ∷ hashes) s = without hashes (record { files = BTreeMap.remove hash s.files })

-- The pool that is left: a dry run leaves it as it is.
abbrev pub left_of : Bool → List Bytes → BlobStore → BlobStore
left_of true out s = s
left_of false out s = without out s

left_of-next :
    (dry_run : Bool) (s t : BlobStore) (hash : Bytes) (out : List Bytes)
    → remove_unless dry_run s hash ≡ ok t
    → left_of dry_run out t ≡ left_of dry_run (hash ∷ out) s
unfolding Blobs.remove path_for
left_of-next true s t hash out e = sym (ok_injective e)
left_of-next false s t hash out e = elim (Bool-cases (is_hex64 hash)) [
  | inr n ↦ absurd (err-ne-ok (rw (n, if◌then◌else◌) at e))
  | inl y ↦ ap (without out) (sym (ok_injective (rw (y, if◌then◌else◌) at e)))
]

left_of_none : (dry_run : Bool) (s : BlobStore) → left_of dry_run [] s ≡ s
left_of_none true s = refl
left_of_none false s = refl

module _ (dry_run : Bool) (referenced : BTreeSet) where
  collect_kept :
      (hashes : List Bytes) (s : BlobStore) (p : List Bytes × BlobStore)
      → collect dry_run referenced hashes s ≡ ok p
      → IsSorted s.files
      → (p.0 ≡ unreferenced referenced hashes) × AgreeOn referenced s p.1
  unfolding collect
  collect_kept [] s p e sorted = (
    ap (λ (q : List Bytes × BlobStore). q.0) (sym (ok_injective e)),
    λ key c. ap (λ (q : List Bytes × BlobStore). Blobs.get q.1 key) (sym (ok_injective e)),
  )
  collect_kept (hash ∷ hashes) s p e sorted = elim (Bool-cases (contains_key hash referenced)) [
    | inl y ↦ rw (y, if◌then◌else◌) (collect_kept hashes s p (rw (y, if◌then◌else◌) at e) sorted)
    | inr n ↦
        let (t, e₁, k₁) = >>=-eq-ok (remove_unless dry_run s hash) _ (rw (n, if◌then◌else◌) at e) in
        let (q, e₂, k₂) = >>=-eq-ok (collect dry_run referenced hashes t) _ k₁ in
        let (out, kept) = collect_kept hashes t q e₂ (unless-IsSorted dry_run s t hash e₁ sorted) in
        rw (n, if◌then◌else◌)
          (rw (← ok_injective k₂) (
            ap (λ (l : List Bytes). hash ∷ l) out,
            λ key c.
                kept key c
                ∙ unless_get dry_run s t hash key e₁ sorted (other_name referenced key hash c n),
          ))
  ]

  collect-left_of :
      (hashes : List Bytes) (s : BlobStore) (p : List Bytes × BlobStore)
      → collect dry_run referenced hashes s ≡ ok p
      → p.1 ≡ left_of dry_run p.0 s
  unfolding collect
  collect-left_of [] s p e =
      subst (λ (q : List Bytes × BlobStore). q.1 ≡ left_of dry_run q.0 s) (ok_injective e)
        (sym (left_of_none dry_run s))
  collect-left_of (hash ∷ hashes) s p e = elim (Bool-cases (contains_key hash referenced)) [
    | inl y ↦ collect-left_of hashes s p (rw (y, if◌then◌else◌) at e)
    | inr n ↦
        let (t, e₁, k₁) = >>=-eq-ok (remove_unless dry_run s hash) _ (rw (n, if◌then◌else◌) at e) in
        let (q, e₂, k₂) = >>=-eq-ok (collect dry_run referenced hashes t) _ k₁ in
        subst (λ (x : List Bytes × BlobStore). x.1 ≡ left_of dry_run x.0 s) (ok_injective k₂)
          (collect-left_of hashes t q e₂ ∙ left_of-next dry_run s t hash q.0 e₁)
  ]

module _ ⦃S : Setsum⦄ ⦃h : Sha3⦄ ⦃d : Serde⦄ where
  -- What is collected, given the references.
  collected_kept :
      (dry_run : Bool) (found after : Repo) (referenced : BTreeSet) (out : List Bytes)
      (p : Result (List Bytes × BlobStore))
      → IsSorted found.blobs.files
      → collect dry_run referenced (list_blobs found.blobs) found.blobs ≡ p
      → collected found p ≡ (ok out, after)
      → (out ≡ unreferenced referenced (list_blobs found.blobs))
        × (after.forks ≡ found.forks)
        × (after.blobs ≡ left_of dry_run out found.blobs)
        × AgreeOn referenced found.blobs after.blobs
  collected_kept dry_run found after referenced out (err c) sorted q k =
      absurd (err-ne-ok (ap (λ (t : Result (List Bytes) × Repo). t.0) k))
  collected_kept dry_run found after referenced out (ok p) sorted q k =
      let (listed, kept) =
        collect_kept dry_run referenced (list_blobs found.blobs) found.blobs p q sorted in
      let left : record found { blobs = p.1 } ≡ after =
        ap (λ (t : Result (List Bytes) × Repo). t.1) k in
      let named : out ≡ p.0 = ok_injective (ap (λ (t : Result (List Bytes) × Repo). t.0) (sym k)) in
      let removed = collect-left_of dry_run referenced (list_blobs found.blobs) found.blobs p q in
      (
        named ∙ listed,
        ap (λ (t : Repo). t.forks) (sym left),
        ap (λ (t : Repo). t.blobs) (sym left)
            ∙ (removed ∙ ap (λ (o : List Bytes). left_of dry_run o found.blobs) (sym named)),
        subst (λ (t : Repo). AgreeOn referenced found.blobs t.blobs) left kept,
      )

  -- If blobs are collected from a repository in which no log has a torn tail and the pool is in
  -- the order of its names, there is a set that holds exactly the names to which some fork refers
  -- (by a record of its anchor manifest, by an overflowed line of its log, or by what a line adds,
  -- its signature or its spilled reads); the hashes returned are those of the pool that are not in
  -- this set, in the order of the pool; the files of the forks stay as they are; the pool loses
  -- the files of these hashes and no other, and none in a dry run; and each name in the set reads
  -- as before.
  pub gc_blobs_kept :
      (dry_run : Bool) (r after : Repo) (out : List Bytes)
      → All (λ (fork : Bytes). IsSettled fork r) (fork_names r)
      → IsSorted r.blobs.files
      → gc_blobs dry_run r ≡ (ok out, after)
      → (referenced : BTreeSet) × ((key : Bytes)
          → (contains_key key referenced ≡ true) ↔ Refers r key)
        × (out ≡ unreferenced referenced (list_blobs r.blobs))
        × (after.forks ≡ r.forks)
        × (after.blobs ≡ left_of dry_run out r.blobs)
        × AgreeOn referenced r.blobs after.blobs
  unfolding gc_blobs
  gc_blobs_kept dry_run r after out w sorted e =
      let (referenced, found, e₁, k₁) = bind-eq-ok referenced_blobs _ r after out e in
      let (same, refers) = referenced_blobs-Refers r found referenced w e₁ in
      let k₂ = rw same at k₁ in
      let (listed, forks, removed, kept) =
        collected_kept dry_run r after referenced out
          (collect dry_run referenced (list_blobs r.blobs) r.blobs) sorted refl k₂ in
      (referenced, refers, listed, forks, removed, kept)
