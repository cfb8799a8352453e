-- ===== src/Patch/Commute.antt =====
-- Proofs on `apply_realized_to_manifest` of src/patch.rs and deltas of other paths.
use tally_vcs.Prelude.{
  true, false, List, [], ◌∷◌, ◌++◌, ◌≡◌, refl, sym, ap, ◌∙◌, inl, inr, arith, Bool-cases, ok,
  >>=-eq-ok, ok_injective,
}
use tally_vcs.Prelude.Bytes.{Bytes}
use tally_vcs.Manifest.{Manifest, IsWellFormed}
use tally_vcs.Manifest
use tally_vcs.Manifest.Invariant.{manifest_ext}
use tally_vcs.Patch.{RealizedEntry, apply_entry, apply_realized_to_manifest}
use tally_vcs.Patch.Arithmetic.{
  apply_entry-IsWellFormed, apply_realized-IsWellFormed, apply_realized-append,
}
use tally_vcs.Patch.Frame.{touches, apply_entry-agrees, get-apply_entry_same, get-apply_entry_other}

-- Where two manifests hold the same element, they do so after a delta.
pub get-apply_realized_same :
    (es : List RealizedEntry) (m n m' n' : Manifest) (path : Bytes)
    → IsWellFormed m
    → IsWellFormed m'
    → apply_realized_to_manifest m es ≡ ok n
    → apply_realized_to_manifest m' es ≡ ok n'
    → Manifest.get m' path ≡ Manifest.get m path
    → Manifest.get n' path ≡ Manifest.get n path
unfolding apply_realized_to_manifest
get-apply_realized_same [] m n m' n' path w w' h h' same =
    cc (ok_injective h, ok_injective h', same)
get-apply_realized_same (e ∷ es) m n m' n' path w w' h h' same =
    let (x, hx, k) = >>=-eq-ok (apply_entry m e) _ h in
    let (x', hx', k') = >>=-eq-ok (apply_entry m' e) _ h' in
    get-apply_realized_same es x n x' n' path (apply_entry-IsWellFormed m e x w hx)
      (apply_entry-IsWellFormed m' e x' w' hx') k k'
      (get-apply_entry_same m e x m' x' path w w' hx hx' same)

-- A path that a delta does not touch keeps its element.
pub get-apply_realized_other :
    (es : List RealizedEntry) (m n : Manifest) (path : Bytes)
    → IsWellFormed m
    → apply_realized_to_manifest m es ≡ ok n
    → touches path es ≡ false
    → Manifest.get n path ≡ Manifest.get m path
unfolding apply_realized_to_manifest touches
get-apply_realized_other [] m n path w h k = cc (ok_injective h)
get-apply_realized_other (e ∷ es) m n path w h k =
    let (x, hx, kx) = >>=-eq-ok (apply_entry m e) _ h in
    get-apply_realized_other es x n path (apply_entry-IsWellFormed m e x w hx) kx (ground arith)
    ∙ get-apply_entry_other m e x path w hx (ground arith)

-- A delta that applies to a manifest applies to every other one that agrees with it on the paths
-- that the delta touches.
pub apply_realized-agrees :
    (es : List RealizedEntry) (m n m' : Manifest)
    → IsWellFormed m
    → IsWellFormed m'
    → apply_realized_to_manifest m es ≡ ok n
    → ((path : Bytes) → touches path es ≡ true → Manifest.get m' path ≡ Manifest.get m path)
    → (n' : Manifest) × (apply_realized_to_manifest m' es ≡ ok n')
unfolding apply_realized_to_manifest touches
apply_realized-agrees [] m n m' w w' h agrees = (m', refl)
apply_realized-agrees (e ∷ es) m n m' w w' h agrees =
    let (x, hx, k) = >>=-eq-ok (apply_entry m e) _ h in
    let (x', hx') = apply_entry-agrees m e x m' w w' hx (λ path t. agrees path (rw t refl)) in
    let (n', hn') =
      apply_realized-agrees es x n x' (apply_entry-IsWellFormed m e x w hx)
        (apply_entry-IsWellFormed m' e x' w' hx') k
        (λ path t.
          get-apply_entry_same m e x m' x' path w w' hx hx' (agrees path (ground arith))) in
    (n', rw hx' hn')

abbrev pub IsDisjoint : List RealizedEntry → List RealizedEntry → Type 0
IsDisjoint es fs = (path : Bytes) → touches path es ≡ true → touches path fs ≡ false

module _ (es fs : List RealizedEntry) (m x n : Manifest) (w : IsWellFormed m)
    (disjoint : IsDisjoint es fs) (first : apply_realized_to_manifest m es ≡ ok x)
    (second : apply_realized_to_manifest x fs ≡ ok n) where
  wx : IsWellFormed x
  wx = apply_realized-IsWellFormed es m x w first

  other : (path : Bytes) → touches path fs ≡ true → touches path es ≡ false
  other path t = elim (Bool-cases (touches path es)) [
    | inl s ↦ let u = disjoint path s in cc
    | inr s ↦ s
  ]

  early : (y : Manifest) × (apply_realized_to_manifest m fs ≡ ok y)
  early =
      apply_realized-agrees fs x n m wx w second
        (λ path t. sym (get-apply_realized_other es m x path w first (other path t)))

  wy : IsWellFormed early.0
  wy = apply_realized-IsWellFormed fs m early.0 w early.1

  late : (z : Manifest) × (apply_realized_to_manifest early.0 es ≡ ok z)
  late =
      apply_realized-agrees es m x early.0 w wy first
        (λ path t. get-apply_realized_other fs m early.0 path w early.1 (disjoint path t))

  same_get : (path : Bytes) → Manifest.get late.0 path ≡ Manifest.get n path
  same_get path = elim (Bool-cases (touches path es)) [
    | inl t ↦
        get-apply_realized_same es m x early.0 late.0 path w wy first late.1
          (get-apply_realized_other fs m early.0 path w early.1 (disjoint path t))
        ∙ sym (get-apply_realized_other fs x n path wx second (disjoint path t))
    | inr t ↦
        get-apply_realized_other es early.0 late.0 path wy late.1 t
        ∙ get-apply_realized_same fs x n m early.0 path wx w second early.1
            (sym (get-apply_realized_other es m x path w first t))
  ]

  -- The deltas apply in the other order too, and lead to the same manifest.
  pub apply_realized_swap : apply_realized_to_manifest m (fs ++ es) ≡ ok n
  apply_realized_swap =
      apply_realized-append fs es m
      ∙ rw early.1 (
          late.1
          ∙ ap ok (
              manifest_ext late.0 n (apply_realized-IsWellFormed es early.0 late.0 wy late.1)
                (apply_realized-IsWellFormed fs x n wx second) same_get))
