-- ===== src/Tests/Intents.antt =====
-- Intents at concrete inputs.
use tally_vcs.Prelude.{ℕ, [], ◌∷◌, ◌++◌, some, ◌≡◌, refl, ok, err, precondition}
use tally_vcs.Prelude.Bytes.{Bytes, bytes, str_eq, contains, split, starts_with}
use tally_vcs.Blobs
use tally_vcs.Blobs.Addressed.{put_total, get-sha3_hex}
use tally_vcs.Blobs.{BlobStore, path_for, IsAddressed}
use tally_vcs.BTreeMap
use tally_vcs.Ident.Hex.{is_hex64, is_hex_char, hex, hex_digit, sha3_hex}
use tally_vcs.Ident.Record.{ElementRecord, validate_mode, validate_path, has_dots, new, to_line}
use tally_vcs.Ident.RoundTrip.{IsValid}
use tally_vcs.Manifest
use tally_vcs.Manifest.{Manifest, IsWellFormed, sum, record_eq}
use tally_vcs.Patch.{
  Intent, edit, delete, Realization, apply_intent, apply_ops, apply_op, read_blob, exchange,
  apply_realized_to_manifest, apply_realized_to_sum,
}
use tally_vcs.Patch.Replay.{
  apply_intent-replay, apply_intent-sum, apply_intent-IsWellFormed, apply_intent_failed,
}
use tally_vcs.Patch.Span.{found, replace_unique, find_unique, unique_hit, hits}
use tally_vcs.Patch.Unique.{replace_unique-splice, replace_unique_at}
use tally_vcs.Tests.Toy.{toy_setsum, toy_sha3, toy_digest, repeat}

abbrev digest_of : ℕ → Bytes
digest_of n = hex (repeat 32 n)

abbrev note : ElementRecord
note = record { mode = bytes "100644"; path = bytes "/note"; blob = digest_of 3 }

abbrev notes : Manifest
notes = record { elements = (note.path, note) ∷ [] }

abbrev pool : BlobStore
pool = record { files = (note.blob, bytes "abc") ∷ [] }

note-IsValid : IsValid note
unfolding validate_mode validate_path has_dots is_hex64 is_hex_char str_eq contains split repeat hex
    hex_digit
note-IsValid = record { mode_valid = refl; path_valid = refl; blob_valid = refl }

notes-IsWellFormed : IsWellFormed notes
notes-IsWellFormed = record { sorted = (tt, tt); entries = ((refl, note-IsValid), tt) }

abbrev edits_note : Intent
edits_note = record { ops = edit (bytes "/note") (bytes "b") (bytes "xy") ∷ [] }

abbrev edited : ElementRecord
edited = record { mode = bytes "100644"; path = bytes "/note"; blob = digest_of 4 }

abbrev notes_edited : Manifest
notes_edited = record { elements = (edited.path, edited) ∷ [] }

abbrev realization : Realization
realization = record {
  realized = record { remove = some (to_line note); add = some (to_line edited) } ∷ [];
  new_blobs = (digest_of 4, bytes "axyc") ∷ [];
}

intent_applies : apply_intent edits_note notes pool ≡ (ok realization, notes_edited)
unfolding apply_intent apply_ops apply_op validate_path has_dots contains split Manifest.get
    read_blob Blobs.get path_for is_hex64 is_hex_char str_eq BTreeMap.get replace_unique find_unique
    unique_hit hits starts_with sha3_hex toy_digest hex hex_digit repeat new validate_mode exchange
    Manifest.remove Manifest.insert Manifest.contains record_eq BTreeMap.remove BTreeMap.insert
    to_line
intent_applies = refl

apply_intent-replay_example :
    apply_realized_to_manifest notes realization.realized ≡ ok notes_edited
apply_intent-replay_example =
    apply_intent-replay edits_note notes notes_edited pool realization notes-IsWellFormed
      intent_applies

apply_intent-sum_example :
    apply_realized_to_sum (sum notes) realization.realized ≡ ok (sum notes_edited)
apply_intent-sum_example =
    apply_intent-sum edits_note notes notes_edited pool realization notes-IsWellFormed
      intent_applies

apply_intent-IsWellFormed_example : IsWellFormed notes_edited
apply_intent-IsWellFormed_example =
    apply_intent-IsWellFormed edits_note notes notes_edited pool realization notes-IsWellFormed
      intent_applies

-- The second operation fails: the first one is not kept.
abbrev half_fails : Intent
half_fails = record {
  ops = edit (bytes "/note") (bytes "b") (bytes "xy") ∷ delete (bytes "/gone") [] ∷ [];
}

intent_fails : apply_intent half_fails notes pool ≡ (err precondition, notes)
unfolding apply_intent apply_ops apply_op validate_path has_dots contains split Manifest.get
    read_blob Blobs.get path_for is_hex64 is_hex_char str_eq BTreeMap.get replace_unique find_unique
    unique_hit hits starts_with sha3_hex toy_digest hex hex_digit repeat new validate_mode exchange
    Manifest.remove Manifest.insert Manifest.contains record_eq BTreeMap.remove BTreeMap.insert
    to_line
intent_fails = refl

apply_intent_failed_example : notes ≡ notes
apply_intent_failed_example =
    apply_intent_failed half_fails notes notes pool precondition intent_fails

span_replaced : replace_unique (bytes "abc") (bytes "b") (bytes "xy") ≡ found (bytes "axyc")
unfolding replace_unique find_unique unique_hit hits starts_with
span_replaced = refl

replace_unique-splice_example :
    (before : Bytes) × (behind : Bytes) × (bytes "abc" ≡ before ++ (bytes "b" ++ behind))
    × (bytes "axyc" ≡ before ++ (bytes "xy" ++ behind))
replace_unique-splice_example =
    replace_unique-splice (bytes "abc") (bytes "b") (bytes "xy") (bytes "axyc") span_replaced

replace_unique_at_example : bytes "axyc" ≡ bytes "a" ++ (bytes "xy" ++ bytes "c")
replace_unique_at_example =
    replace_unique_at (bytes "abc") (bytes "b") (bytes "xy") (bytes "axyc") (bytes "a") (bytes "c")
      span_replaced refl

pool-IsAddressed : IsAddressed pool
unfolding sha3_hex toy_digest
pool-IsAddressed = record { sorted = (tt, tt); named = (refl, tt) }

put_total_example :
    (after : BlobStore) × (Blobs.put pool (bytes "hello") ≡ ok (sha3_hex (bytes "hello"), after))
    × IsAddressed after
    × ((content : Bytes) × (Blobs.get after (sha3_hex (bytes "hello")) ≡ ok content)
        × (sha3_hex content ≡ sha3_hex (bytes "hello")))
put_total_example = put_total pool (bytes "hello") pool-IsAddressed

pool_holds : Blobs.get pool (digest_of 3) ≡ ok (bytes "abc")
unfolding Blobs.get path_for is_hex64 is_hex_char hex hex_digit repeat BTreeMap.get str_eq
pool_holds = refl

abc_is_addressed : sha3_hex (bytes "abc") ≡ digest_of 3
abc_is_addressed = get-sha3_hex pool (digest_of 3) (bytes "abc") pool-IsAddressed pool_holds
