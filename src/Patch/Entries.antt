-- ===== src/Patch/Entries.antt =====
-- Proofs on the three kinds of entries that `apply_intent` of src/patch.rs records.
use tally_vcs.Prelude.{none, some, ◌≡◌, refl, ok}
use tally_vcs.Ident.Record.{ElementRecord, to_line}
use tally_vcs.Ident.RoundTrip.{IsValid, parse-to_line}
use tally_vcs.Manifest.{Manifest, sum, IsWellFormed}
use tally_vcs.Manifest
use tally_vcs.Patch.{RealizedEntry, removed, added, parse_side, apply_entry}

abbrev pub both : ElementRecord → ElementRecord → RealizedEntry
both element r = record { remove = some (to_line element); add = some (to_line r) }

pub apply_entry-both :
    (m m₁ m₂ : Manifest) (element r : ElementRecord)
    → IsValid element
    → IsValid r
    → Manifest.remove m element ≡ ok m₁
    → Manifest.insert m₁ r ≡ ok m₂
    → apply_entry m (both element r) ≡ ok m₂
unfolding apply_entry removed added parse_side
apply_entry-both m m₁ m₂ element r v w h k = rw (parse-to_line v) (rw h (rw (parse-to_line w) k))

pub apply_entry-added :
    (m n : Manifest) (r : ElementRecord)
    → IsValid r
    → Manifest.insert m r ≡ ok n
    → apply_entry m (record { remove = none; add = some (to_line r) }) ≡ ok n
unfolding apply_entry removed added parse_side
apply_entry-added m n r w k = rw (parse-to_line w) k

pub apply_entry-removed :
    (m n : Manifest) (element : ElementRecord)
    → IsValid element
    → Manifest.remove m element ≡ ok n
    → apply_entry m (record { remove = some (to_line element); add = none }) ≡ ok n
unfolding apply_entry removed added parse_side
apply_entry-removed m n element v h = rw (parse-to_line v) (rw h refl)
