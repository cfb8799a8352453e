-- ===== src/Patch/Frame.antt =====
-- Proofs on `apply_realized_to_manifest` of src/patch.rs and the paths that a delta names.
use tally_vcs.Prelude.{
  Bool, true, false, ◌||◌, List, [], ◌∷◌, Option, none, some, ◌≡◌, refl, sym, ap, ◌∙◌, arith,
  if◌then◌else◌, Result, ok, err, ok_injective,
}
use tally_vcs.Prelude.Bytes.{Bytes, str_eq, str_eq_refl}
use tally_vcs.Ident.Record.{ElementRecord}
use tally_vcs.Manifest.{Manifest, IsWellFormed}
use tally_vcs.Manifest
use tally_vcs.BTreeMap
use tally_vcs.Manifest.Invariant.{
  insert-eq-ok, insert_absent, remove-eq-ok, remove_present, get-insert_ok, get-remove_ok,
}
use tally_vcs.Patch.{RealizedEntry, removed, added, remove_side, add_side, apply_entry}
use tally_vcs.Patch.Arithmetic.{Applied, apply_entry-Applied}

-- The side names this path.
abbrev pub names : Bytes → Option ElementRecord → Bool
names path none = false
names path (some r) = str_eq path r.path

abbrev pub side_names : Bytes → Result (Option ElementRecord) → Bool
side_names path (ok o) = names path o
side_names path (err e) = false

-- The entry removes or adds a record with this path.
unfoldable pub touches_entry : Bytes → RealizedEntry → Bool
touches_entry path e = side_names path (removed e) || side_names path (added e)

unfoldable pub touches : Bytes → List RealizedEntry → Bool
touches path [] = false
touches path (e ∷ es) = touches_entry path e || touches path es

-- What stands at a path after an entry, from what stood there before.
abbrev outcome :
    Bytes
    → Option ElementRecord
    → Option ElementRecord
    → Option ElementRecord
    → Option ElementRecord
outcome path r a before = if names path a then a else if names path r then none else before

get-remove_side :
    (o : Option ElementRecord) (m n : Manifest) (path : Bytes)
    → IsWellFormed m
    → remove_side o m ≡ ok n
    → Manifest.get n path ≡ (if names path o then none else Manifest.get m path)
get-remove_side none m n path w h =
    ap (λ (t : Manifest). Manifest.get t path) (sym (ok_injective h))
get-remove_side (some r) m n path w h = get-remove_ok m r n path w h

get-add_side :
    (o : Option ElementRecord) (m n : Manifest) (path : Bytes)
    → add_side o m ≡ ok n
    → Manifest.get n path ≡ (if names path o then o else Manifest.get m path)
get-add_side none m n path h = ap (λ (t : Manifest). Manifest.get t path) (sym (ok_injective h))
get-add_side (some r) m n path h = get-insert_ok m r n path h

get-apply_entry :
    (m : Manifest) (e : RealizedEntry) (n : Manifest) (w : IsWellFormed m) (d : Applied m e n)
    (path : Bytes)
    → Manifest.get n path ≡ outcome path d.r d.a (Manifest.get m path)
get-apply_entry m e n w d path =
    rw (get-add_side d.a d.between n path d.add_ok)
      (rw (get-remove_side d.r m d.between path w d.remove_ok) refl)

remove_side-agrees :
    (o : Option ElementRecord) (m n m' : Manifest)
    → ((path : Bytes) → names path o ≡ true → Manifest.get m' path ≡ Manifest.get m path)
    → remove_side o m ≡ ok n
    → (n' : Manifest) × (remove_side o m' ≡ ok n')
remove_side-agrees none m n m' agrees h = (m', refl)
remove_side-agrees (some r) m n m' agrees h =
    let (present, e) = remove-eq-ok m r n h in
    (
      record { elements = BTreeMap.remove r.path m'.elements },
      remove_present m' r (agrees r.path (str_eq_refl r.path) ∙ present),
    )

add_side-agrees :
    (o : Option ElementRecord) (m n m' : Manifest)
    → ((path : Bytes) → names path o ≡ true → Manifest.get m' path ≡ Manifest.get m path)
    → add_side o m ≡ ok n
    → (n' : Manifest) × (add_side o m' ≡ ok n')
add_side-agrees none m n m' agrees h = (m', refl)
add_side-agrees (some r) m n m' agrees h =
    let (absent, e) = insert-eq-ok m r n h in
    (
      record { elements = BTreeMap.insert r.path r m'.elements },
      insert_absent m' r (agrees r.path (str_eq_refl r.path) ∙ absent),
    )

-- The entry was applied to `m` with result `n`, and `m'` agrees with `m` where the entry touches.
module _ (m : Manifest) (e : RealizedEntry) (n m' : Manifest) (w : IsWellFormed m)
    (w' : IsWellFormed m') (h : apply_entry m e ≡ ok n)
    (agrees : (path : Bytes)
      → touches_entry path e ≡ true
      → Manifest.get m' path ≡ Manifest.get m path) where
  applied : Applied m e n
  applied = apply_entry-Applied m e n h

  touched_by_remove : (path : Bytes) → names path applied.r ≡ true → touches_entry path e ≡ true
  unfolding touches_entry
  touched_by_remove path k = rw applied.removed_ok (ground arith)

  touched_by_add : (path : Bytes) → names path applied.a ≡ true → touches_entry path e ≡ true
  unfolding touches_entry
  touched_by_add path k = rw applied.added_ok (ground arith)

  between' : (b : Manifest) × (remove_side applied.r m' ≡ ok b)
  between' =
      remove_side-agrees applied.r m applied.between m'
        (λ path k. agrees path (touched_by_remove path k)) applied.remove_ok

  between_agrees :
      (path : Bytes)
      → names path applied.a ≡ true
      → Manifest.get between'.0 path ≡ Manifest.get applied.between path
  between_agrees path k = rw (get-remove_side applied.r m' between'.0 path w' between'.1) (
      rw (get-remove_side applied.r m applied.between path w applied.remove_ok)
        (rw (agrees path (touched_by_add path k)) refl))

  after' : (n' : Manifest) × (add_side applied.a between'.0 ≡ ok n')
  after' = add_side-agrees applied.a applied.between n between'.0 between_agrees applied.add_ok

  -- The entry applies to `m'` too.
  pub apply_entry-agrees : (n' : Manifest) × (apply_entry m' e ≡ ok n')
  unfolding apply_entry
  apply_entry-agrees =
      (after'.0, rw applied.removed_ok (rw between'.1 (rw applied.added_ok after'.1)))

-- Where two manifests hold the same element, they do so after the entry.
pub get-apply_entry_same :
    (m : Manifest) (e : RealizedEntry) (n m' n' : Manifest) (path : Bytes)
    → IsWellFormed m
    → IsWellFormed m'
    → apply_entry m e ≡ ok n
    → apply_entry m' e ≡ ok n'
    → Manifest.get m' path ≡ Manifest.get m path
    → Manifest.get n' path ≡ Manifest.get n path
get-apply_entry_same m e n m' n' path w w' h h' same =
    let d = apply_entry-Applied m e n h in
    let d' = apply_entry-Applied m' e n' h' in
    get-apply_entry m' e n' w' d' path
    ∙ cc (
      ok_injective (sym d'.removed_ok ∙ d.removed_ok),
      ok_injective (sym d'.added_ok ∙ d.added_ok),
      same,
    )
    ∙ sym (get-apply_entry m e n w d path)

-- A path that the entry does not touch keeps its element.
pub get-apply_entry_other :
    (m : Manifest) (e : RealizedEntry) (n : Manifest) (path : Bytes)
    → IsWellFormed m
    → apply_entry m e ≡ ok n
    → touches_entry path e ≡ false
    → Manifest.get n path ≡ Manifest.get m path
unfolding touches_entry
get-apply_entry_other m e n path w h k =
    let d = apply_entry-Applied m e n h in
    let k' : (names path d.r || names path d.a) ≡ false = rw (d.removed_ok, d.added_ok) at k in
    get-apply_entry m e n w d path ∙ ground arith
