-- ===== src/Union/Commutes.antt =====
-- Proofs on `write_paths`, `read_paths` and `commutes` of src/union.rs.
use tally_vcs.Prelude.{
  Bool, true, false, ◌||◌, List, [], ◌∷◌, ◌++◌, Option, none, some, ◌≡◌, refl, sym, ap, ◌∙◌, inl,
  inr, arith, if◌then◌else◌, Bool-cases, ok, >>=-eq-ok, ok_injective, true≢false,
}
use tally_vcs.Prelude.Bytes.{Bytes, str_eq, str_eq→eq}
use tally_vcs.BTreeMap
use tally_vcs.BTreeMap.{BTreeMap, contains_key, is_some}
use tally_vcs.BTreeMap.Laws.{get-insert}
use tally_vcs.Ident.Record.{ElementRecord}
use tally_vcs.Log.{LogLine}
use tally_vcs.Manifest.{Manifest, get, IsWellFormed}
use tally_vcs.Patch.{RealizedEntry, removed, added, apply_realized_to_manifest}
use tally_vcs.Patch.Arithmetic.{apply_realized-append}
use tally_vcs.Patch.Frame.{names, touches, touches_entry}
use tally_vcs.Patch.Commute.{IsDisjoint, apply_realized_swap, get-apply_realized_other}
use tally_vcs.Union.{
  BTreeSet, set_insert, insert_path, collect_writes, write_paths, read_paths, intersects,
  reads_clear, commutes,
}

pub contains-set_insert :
    (p q : Bytes) (s : BTreeSet)
    → contains_key q (set_insert p s) ≡ (str_eq q p || contains_key q s)
contains-set_insert p q s = rw (get-insert p q tt s) (go (str_eq q p))
  where
    go : (b : Bool) → is_some (if b then some tt else BTreeMap.get q s) ≡ (b || contains_key q s)
    go true = refl
    go false = refl

contains-insert_path :
    (o : Option ElementRecord) (q : Bytes) (s : BTreeSet)
    → contains_key q (insert_path o s) ≡ (names q o || contains_key q s)
contains-insert_path none q s = refl
contains-insert_path (some r) q s = contains-set_insert r.path q s

-- The set holds exactly the paths that the entries touch, and those that it held before.
collect_writes-touches :
    (es : List RealizedEntry) (s t : BTreeSet) (q : Bytes)
    → collect_writes s es ≡ ok t
    → contains_key q t ≡ (touches q es || contains_key q s)
unfolding collect_writes touches touches_entry
collect_writes-touches [] s t q h = ap (λ (u : BTreeSet). contains_key q u) (sym (ok_injective h))
collect_writes-touches (e ∷ es) s t q h =
    let (r, hr, k₁) = >>=-eq-ok (removed e) _ h in
    let (a, ha, k₂) = >>=-eq-ok (added e) _ k₁ in
    collect_writes-touches es (insert_path a (insert_path r s)) t q k₂
    ∙ rw (hr, ha, contains-insert_path a q (insert_path r s), contains-insert_path r q s)
        (or_rotate (touches q es) (names q a) (names q r) (contains_key q s))
  where
    or_rotate : (w x y z : Bool) → (w || (x || (y || z))) ≡ (((y || x) || w) || z)
    or_rotate w x y z = ground arith

-- `write_paths` gives exactly the paths that the realized delta of the line touches.
pub write_paths-touches :
    (line : LogLine) (paths : BTreeSet) (q : Bytes)
    → write_paths line ≡ ok paths
    → contains_key q paths ≡ touches q line.realized
unfolding write_paths BTreeMap.get
write_paths-touches line paths q h =
    collect_writes-touches line.realized [] paths q h ∙ ground arith

intersects-disjoint :
    (a b : BTreeSet) (q : Bytes)
    → intersects a b ≡ false
    → contains_key q a ≡ true
    → contains_key q b ≡ false
unfolding intersects BTreeMap.get
intersects-disjoint [] b q h k = absurd (cc)
intersects-disjoint ((p, u) ∷ a) b q h k = elim (Bool-cases (str_eq q p)) [
  | inl e ↦ let same = str_eq→eq q p e in ground arith
  | inr n ↦ intersects-disjoint a b q (ground arith) (rw (n, if◌then◌else◌) at k)
]

-- What a certificate says of the four sets.
record Certified (a b : LogLine) : Type 0 where
  wa : BTreeSet
  wb : BTreeSet
  writes_a : write_paths a ≡ ok wa
  writes_b : write_paths b ≡ ok wb
  apart : intersects wa wb ≡ false
  clear : reads_clear wa wb (read_paths a) (read_paths b) ≡ true

commutes-Certified : (a b : LogLine) → commutes a b ≡ ok true → Certified a b
unfolding commutes
commutes-Certified a b h =
    let (wa, ha, k₁) = >>=-eq-ok (write_paths a) _ h in
    let (wb, hb, k₂) = >>=-eq-ok (write_paths b) _ k₁ in
    record {
      wa = wa;
      wb = wb;
      writes_a = ha;
      writes_b = hb;
      apart = ground arith;
      clear = ground arith;
    }

clear_reads :
    (wa wb : BTreeSet) (oa ob : Option BTreeSet) (rb : BTreeSet)
    → reads_clear wa wb oa ob ≡ true
    → ob ≡ some rb
    → intersects wa rb ≡ false
clear_reads wa wb (some ra) (some x) rb h e = ground arith
clear_reads wa wb (some ra) none rb h e = absurd (cc)
clear_reads wa wb none ob rb h e = absurd (cc)

module _ (a b : LogLine) (certified : commutes a b ≡ ok true) where
  certificate : Certified a b
  certificate = commutes-Certified a b certified

  -- The certificate, in terms of what the two deltas touch.
  commutes-IsDisjoint : IsDisjoint a.realized b.realized
  commutes-IsDisjoint path t =
      let c = certificate in
      sym (write_paths-touches b c.wb path c.writes_b)
      ∙ intersects-disjoint c.wa c.wb path c.apart (write_paths-touches a c.wa path c.writes_a ∙ t)

  -- If commutes certifies two lines and the manifest is well formed, then where the realized delta
  -- of the first followed by that of the second applies to the manifest, the two apply in the
  -- other order too and give the same manifest.
  pub commutes-swap :
      (m n : Manifest)
      → IsWellFormed m
      → apply_realized_to_manifest m (a.realized ++ b.realized) ≡ ok n
      → apply_realized_to_manifest m (b.realized ++ a.realized) ≡ ok n
  commutes-swap m n w h =
      let (x, first, second) =
        >>=-eq-ok (apply_realized_to_manifest m a.realized) _
          (sym (apply_realized-append a.realized b.realized m) ∙ h) in
      apply_realized_swap a.realized b.realized m x n w commutes-IsDisjoint first second

  -- If commutes certifies two lines, the manifest is well formed, the read set of the second is
  -- known and holds a path, and the delta of the first applies, then the element at that path is
  -- the same before and after.
  pub commutes_reads :
      (m x : Manifest) (reads : BTreeSet) (path : Bytes)
      → IsWellFormed m
      → read_paths b ≡ some reads
      → contains_key path reads ≡ true
      → apply_realized_to_manifest m a.realized ≡ ok x
      → get x path ≡ get m path
  commutes_reads m x reads path w r k h =
      let c = certificate in
      let free = clear_reads c.wa c.wb (read_paths a) (read_paths b) reads c.clear r in
      get-apply_realized_other a.realized m x path w h
        (elim (Bool-cases (touches path a.realized)) [
          | inl t ↦
              let absent =
                intersects-disjoint c.wa reads path free
                  (write_paths-touches a c.wa path c.writes_a ∙ t) in
              absurd (true≢false (sym k ∙ absent))
          | inr t ↦ t
        ])
