-- ===== src/Tests/Blaming.antt =====
-- Blame at a concrete history.
use tally_vcs.Prelude.{List, [], ◌∷◌, none, some, ◌≡◌, refl, ok, invalid, err}
use tally_vcs.Prelude.Bytes.{Bytes, bytes, starts_with, str_eq}
use tally_vcs.Base64.{decode, decode_chunks, decode_chunk, unpack, padding, value_of}
use tally_vcs.Blame.{
  BlamedLine, blame_path, replay_history, replay_ops, replay_op, find_unique, overwrite, roll_up,
}
use tally_vcs.Blame.Owned.{Blamed, blame_path-Blamed}
use tally_vcs.Blobs.{BlobStore}
use tally_vcs.Log.{LogLine}
use tally_vcs.Patch.{Op, create, edit, op_path}
use tally_vcs.Patch.Span.{hits}
use tally_vcs.Tests.Patches.{edit_line}

abbrev no_blobs : BlobStore
no_blobs = record { files = [] }

abbrev line_of : Bytes → Op → LogLine
line_of id op = record edit_line { id = id; intent = record { ops = op ∷ [] } }

-- The first line writes "a\nb\n", the second one makes "c" of "b".
abbrev blamed_log : List LogLine
blamed_log =
    line_of (bytes "first") (create (bytes "/x") (bytes "100644") none (some (bytes "YQpiCg==")))
    ∷ line_of (bytes "second") (edit (bytes "/x") (bytes "b") (bytes "c"))
    ∷ []

abbrev as_is : Bytes → Bytes
as_is text = text

abbrev blamed_lines : List BlamedLine
blamed_lines =
    record { owner = bytes "first"; text = bytes "a" }
    ∷ record { owner = bytes "second"; text = bytes "c" }
    ∷ []

blames : blame_path as_is (bytes "/x") blamed_log no_blobs ≡ ok (some blamed_lines)
unfolding blame_path replay_history replay_ops replay_op op_path str_eq find_unique hits starts_with
    overwrite roll_up decode decode_chunks decode_chunk unpack padding value_of
blames = refl

blames_nothing : blame_path as_is (bytes "/y") blamed_log no_blobs ≡ err invalid
unfolding blame_path replay_history replay_ops replay_op op_path str_eq
blames_nothing = refl

blame_path-Blamed_example : Blamed blamed_log (some blamed_lines)
blame_path-Blamed_example =
    blame_path-Blamed as_is (bytes "/x") blamed_log no_blobs (some blamed_lines) blames
