-- ===== src/Patch/Arithmetic.antt =====
-- Proofs on `apply_realized_to_sum` and `apply_realized_to_manifest` of src/patch.rs.
use tally_vcs.Prelude.{
  List, [], ◌∷◌, ◌++◌, Option, none, some, ◌≡◌, refl, sym, ap, ◌∙◌, Result, ok, ◌>>=◌, >>=-eq-ok,
  >>=-assoc, fun_ext,
}
use tally_vcs.Prelude.Bytes.{Bytes}
use tally_vcs.Ident.Record.{ElementRecord}
use tally_vcs.Ident.RoundTrip.{IsValid, to_line-parse}
use tally_vcs.Manifest.{Manifest, sum, IsWellFormed}
use tally_vcs.Manifest.Invariant.{insert-IsWellFormed, remove-IsWellFormed}
use tally_vcs.Manifest.Arithmetic.{sum-insert, sum-remove}
use tally_vcs.Patch.{
  RealizedEntry, parse_side, removed, added, remove_sum, add_sum, apply_realized_to_sum,
  remove_side, add_side, apply_entry, apply_realized_to_manifest,
}
use tally_vcs.Setsum.{Setsum, Sum}

-- What a successful round did.
pub record Applied (m : Manifest) (e : RealizedEntry) (n : Manifest) : Type 0 where
  pub r : Option ElementRecord
  pub between : Manifest
  pub a : Option ElementRecord
  pub removed_ok : removed e ≡ ok r
  pub remove_ok : remove_side r m ≡ ok between
  pub added_ok : added e ≡ ok a
  pub add_ok : add_side a between ≡ ok n

pub apply_entry-Applied :
    (m : Manifest) (e : RealizedEntry) (n : Manifest) → apply_entry m e ≡ ok n → Applied m e n
unfolding apply_entry
apply_entry-Applied m e n h =
    let (r, hr, h₁) = >>=-eq-ok (removed e) _ h in
    let (m₁, hm, h₂) = >>=-eq-ok (remove_side r m) _ h₁ in
    let (a, ha, h₃) = >>=-eq-ok (added e) _ h₂ in
    record {
      r = r;
      between = m₁;
      a = a;
      removed_ok = hr;
      remove_ok = hm;
      added_ok = ha;
      add_ok = h₃;
    }

abbrev pub IsValidSide : Option ElementRecord → Type 0
IsValidSide none = Unit
IsValidSide (some r) = IsValid r

pub parse_side-IsValidSide :
    (side : Option Bytes) (o : Option ElementRecord) → parse_side side ≡ ok o → IsValidSide o
unfolding parse_side
parse_side-IsValidSide none none h = tt
parse_side-IsValidSide none (some r) h = cc
parse_side-IsValidSide (some line) none h = tt
parse_side-IsValidSide (some line) (some r) h =
    let (s, hs, e) = >>=-eq-ok _ _ h in (to_line-parse line r (hs ∙ cc)).1

add_side-IsWellFormed :
    (o : Option ElementRecord) (m n : Manifest)
    → IsWellFormed m
    → IsValidSide o
    → add_side o m ≡ ok n
    → IsWellFormed n
add_side-IsWellFormed none m n w v h = let e : m ≡ n = cc in rw (← e) w
add_side-IsWellFormed (some r) m n w v h = insert-IsWellFormed m r n w v h

pub remove_side-IsWellFormed :
    (o : Option ElementRecord) (m n : Manifest)
    → IsWellFormed m
    → remove_side o m ≡ ok n
    → IsWellFormed n
remove_side-IsWellFormed none m n w h = let e : m ≡ n = cc in rw (← e) w
remove_side-IsWellFormed (some r) m n w h = remove-IsWellFormed m r n w h

pub apply_entry-IsWellFormed :
    (m : Manifest) (e : RealizedEntry) (n : Manifest)
    → IsWellFormed m
    → apply_entry m e ≡ ok n
    → IsWellFormed n
unfolding added
apply_entry-IsWellFormed m e n w h =
    let d = apply_entry-Applied m e n h in
    add_side-IsWellFormed d.a d.between n (remove_side-IsWellFormed d.r m d.between w d.remove_ok)
      (parse_side-IsValidSide e.add d.a d.added_ok) d.add_ok

-- A delta that applies to a well-formed manifest leaves a well-formed manifest.
pub apply_realized-IsWellFormed :
    (es : List RealizedEntry) (m n : Manifest)
    → IsWellFormed m
    → apply_realized_to_manifest m es ≡ ok n
    → IsWellFormed n
unfolding apply_realized_to_manifest
apply_realized-IsWellFormed [] m n w h = let e : m ≡ n = cc in rw (← e) w
apply_realized-IsWellFormed (e ∷ es) m n w h =
    let (m₁, h₁, h₂) = >>=-eq-ok (apply_entry m e) _ h in
    apply_realized-IsWellFormed es m₁ n (apply_entry-IsWellFormed m e m₁ w h₁) h₂

-- Deltas applied one after the other are one delta.
pub apply_realized-append :
    (es fs : List RealizedEntry) (m : Manifest)
    → apply_realized_to_manifest m (es ++ fs)
      ≡ (apply_realized_to_manifest m es >>= λ n. apply_realized_to_manifest n fs)
unfolding apply_realized_to_manifest
apply_realized-append [] fs m = refl
apply_realized-append (e ∷ es) fs m =
    ap (λ (k : Manifest → Result Manifest). apply_entry m e >>= k)
      (fun_ext (λ n. apply_realized-append es fs n))
    ∙ sym (>>=-assoc (apply_entry m e) _ _)

module _ ⦃S : Setsum⦄ where
  sum-remove_side :
      (o : Option ElementRecord) (m n : Manifest)
      → remove_side o m ≡ ok n
      → sum n ≡ remove_sum o (sum m)
  sum-remove_side none m n h = ap sum (cc)
  sum-remove_side (some r) m n h = sum-remove m r n h

  sum-add_side :
      (o : Option ElementRecord) (m n : Manifest) → add_side o m ≡ ok n → sum n ≡ add_sum o (sum m)
  sum-add_side none m n h = ap sum (cc)
  sum-add_side (some r) m n h = sum-insert m r n h

  -- If a realized delta applies to a manifest, folding it into the sum of that manifest succeeds
  -- and gives the sum of the manifest that results.
  pub sum-apply_realized :
      (es : List RealizedEntry) (m n : Manifest)
      → apply_realized_to_manifest m es ≡ ok n
      → apply_realized_to_sum (sum m) es ≡ ok (sum n)
  unfolding apply_realized_to_manifest apply_realized_to_sum
  sum-apply_realized [] m n h = ap (λ (t : Manifest). ok (sum t)) (cc)
  sum-apply_realized (e ∷ es) m n h =
      let (m₁, h₁, h₂) = >>=-eq-ok (apply_entry m e) _ h in
      let d = apply_entry-Applied m e m₁ h₁ in
      rw (d.removed_ok, d.added_ok)
        (ap (λ (t : Sum). apply_realized_to_sum t es)
            (sym (
              sum-add_side d.a d.between m₁ d.add_ok
              ∙ ap (add_sum d.a) (sum-remove_side d.r m d.between d.remove_ok)))
          ∙ sum-apply_realized es m₁ n h₂)
