-- ===== src/Repo/Blaming.antt =====
-- `Repository::blame` of src/repo.rs.
use tally_vcs.Prelude.{List, Option, map}
use tally_vcs.Prelude.Bytes.{Bytes}
use tally_vcs.Blame.{BlamedLine, blame_path}
use tally_vcs.Ident.Hex.{Sha3}
use tally_vcs.Log.Stored.{Serde}
use tally_vcs.Repo.Lineage.{continuity_log}
use tally_vcs.Repo.Run.{Run, ◌>>=◌, reading}
use tally_vcs.Setsum.{Setsum}

module _ ⦃S : Setsum⦄ ⦃h : Sha3⦄ ⦃d : Serde⦄ where
  unfoldable pub blame : (Bytes → Bytes) → Bytes → Bytes → Run (Option (List BlamedLine))
  blame lossy fork path = do
    history ← continuity_log fork
    reading (λ r. blame_path lossy path (map (λ l. l.1) history) r.blobs)
