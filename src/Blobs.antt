-- ===== src/Blobs.antt =====
-- src/blobs.rs: the content-addressed pool. The directory `blobs/` is a map from names to contents;
-- temporary files, fsync and failures of the device are not modelled. A name that no file has reads
-- as an I/O error.
pub mod Addressed
pub mod Kept
use tally_vcs.Prelude.{
  All, Bool, some, ◌≡◌, if◌then◌else◌, Result, ok, err, io, invalid, ◌>>=◌, ok_or,
}
use tally_vcs.Prelude.Bytes.{Bytes}
use tally_vcs.BTreeMap
use tally_vcs.BTreeMap.{BTreeMap, contains_key, IsSorted}
use tally_vcs.Ident.Hex.{Sha3, is_hex64, sha3_hex}

pub record BlobStore : Type 0 where
  pub files : BTreeMap Bytes

-- The check that `path_for` makes of a name.
unfoldable pub path_for : Bytes → Result Bytes
path_for blob = if is_hex64 blob then ok blob else err invalid

unfoldable pub has : BlobStore → Bytes → Result Bool
has s blob = do path ← path_for blob; ok (contains_key path s.files)

unfoldable pub get : BlobStore → Bytes → Result Bytes
get s blob = do path ← path_for blob; ok_or (BTreeMap.get path s.files) io

-- `fs::rename(&tmp, &dst)`
abbrev write : BlobStore → Bytes → Bytes → BlobStore
write s dst content = record { files = BTreeMap.insert dst content s.files }

-- `put` and `put_unsynced`, which differ in when the file becomes durable.
unfoldable pub put : ⦃h : Sha3⦄ → BlobStore → Bytes → Result (Bytes × BlobStore)
put s content = do
  dst ← path_for (sha3_hex content)
  ok (sha3_hex content, if contains_key dst s.files then s else write s dst content)

unfoldable pub remove : BlobStore → Bytes → Result BlobStore
remove s blob = do path ← path_for blob; ok (record { files = BTreeMap.remove path s.files })

-- Each file of the pool is named by the hash of its content.
pub record IsAddressed ⦃h : Sha3⦄ (s : BlobStore) : Type 0 where
  pub sorted : IsSorted s.files
  pub named : All (λ e. e.0 ≡ sha3_hex e.1) s.files
