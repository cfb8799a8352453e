-- ===== src/Manifest/Arithmetic.antt =====
-- Proofs on `Manifest::sum` of src/manifest.rs.
use tally_vcs.Prelude.{List, [], ◌∷◌, none, some, ◌≡◌, refl, sym, ◌∙◌, arith, ok}
use tally_vcs.Prelude.Bytes.{Bytes}
use tally_vcs.BTreeMap
use tally_vcs.BTreeMap.{BTreeMap, values}
use tally_vcs.Ident.Record.{ElementRecord, to_bytes}
use tally_vcs.Manifest.{Manifest, get, insert, remove, records, add_records, sum_of_records, sum}
use tally_vcs.Manifest.Invariant.{insert-eq-ok, remove-eq-ok}
use tally_vcs.Setsum.{Setsum, Sum, zero_sum, insert_comm, remove-insert}

module _ ⦃S : Setsum⦄ where
  -- A record that is added before the others may as well be added after them.
  pub add_records_shift :
      (s : Sum) (x : Bytes) (rs : List ElementRecord)
      → add_records (S.insert s x) rs ≡ S.insert (add_records s rs) x
  unfolding add_records
  add_records_shift s x [] = refl
  add_records_shift s x (r ∷ rs) =
      rw (insert_comm s x (to_bytes r)) (add_records_shift (S.insert s (to_bytes r)) x rs)

  add_records-insert :
      (s : Sum) (k : Bytes) (r : ElementRecord) (m : BTreeMap ElementRecord)
      → BTreeMap.get k m ≡ none
      → add_records s (values (BTreeMap.insert k r m))
        ≡ add_records (S.insert s (to_bytes r)) (values m)
  unfolding add_records values BTreeMap.insert BTreeMap.get
  add_records-insert s k r [] h = refl
  add_records-insert s k r ((j, w) ∷ m) h = ground (
    arith,
    add_records-insert (S.insert s (to_bytes w)) k r m,
    insert_comm s (to_bytes w) (to_bytes r),
  )

  add_records-remove :
      (s : Sum) (k : Bytes) (r : ElementRecord) (m : BTreeMap ElementRecord)
      → BTreeMap.get k m ≡ some r
      → add_records s (values m)
        ≡ add_records (S.insert s (to_bytes r)) (values (BTreeMap.remove k m))
  unfolding add_records values BTreeMap.remove BTreeMap.get
  add_records-remove s k r [] h = absurd (cc)
  add_records-remove s k r ((j, w) ∷ m) h = ground (
    arith,
    add_records-remove (S.insert s (to_bytes w)) k r m,
    insert_comm s (to_bytes w) (to_bytes r),
  )

  -- A successful insertion adds the record's bytes to the sum.
  pub sum-insert :
      (m : Manifest) (r : ElementRecord) (n : Manifest)
      → insert m r ≡ ok n
      → sum n ≡ S.insert (sum m) (to_bytes r)
  unfolding sum sum_of_records records get
  sum-insert m r n h =
      let (absent, e) = insert-eq-ok m r n h in
      rw e (
        add_records-insert zero_sum r.path r m.elements absent
        ∙ add_records_shift zero_sum (to_bytes r) (values m.elements))

  -- A successful removal takes them away.
  pub sum-remove :
      (m : Manifest) (r : ElementRecord) (n : Manifest)
      → remove m r ≡ ok n
      → sum n ≡ S.remove (sum m) (to_bytes r)
  unfolding sum sum_of_records records get
  sum-remove m r n h =
      let (present, e) = remove-eq-ok m r n h in
      let whole =
        add_records-remove zero_sum r.path r m.elements present
        ∙ add_records_shift zero_sum (to_bytes r) (values (BTreeMap.remove r.path m.elements)) in
      rw (e, whole) (sym (remove-insert _ (to_bytes r)))
