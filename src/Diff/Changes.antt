-- ===== src/Diff/Changes.antt =====
-- Proofs on `diff_manifests` of src/diff.rs.
use tally_vcs.Prelude.{true, List, [], ◌∷◌, Option, none, some, ◌≡◌, refl, ap, if◌then◌else◌}
use tally_vcs.Prelude.Bytes.{Bytes, str_eq}
use tally_vcs.BTreeMap
use tally_vcs.BTreeMap.{BTreeMap}
use tally_vcs.Ident.Record.{ElementRecord}
use tally_vcs.Manifest
use tally_vcs.Manifest.{Manifest, record_eq}
use tally_vcs.Manifest.Invariant.{record_eq→eq}
use tally_vcs.Diff.States.{PathChange, option_eq}

-- The first change at a path.
unfoldable pub find_change : Bytes → List PathChange → Option PathChange
find_change path [] = none
find_change path (c ∷ cs) = if str_eq path c.path then some c else find_change path cs

option_eq→eq : (a b : Option ElementRecord) → option_eq a b ≡ true → a ≡ b
option_eq→eq none none h = refl
option_eq→eq none (some b) h = cc
option_eq→eq (some a) none h = cc
option_eq→eq (some a) (some b) h = ap some (record_eq→eq a b h)

module _ (before after : Manifest) (path : Bytes) where
  -- What is reported of a path: the records on both sides, where they differ.
  abbrev pub change_at : Option PathChange
  change_at =
      if option_eq (Manifest.get after path) (Manifest.get before path)
      then none
      else some (record {
        path = path;
        before = Manifest.get before path;
        after = Manifest.get after path;
      })
