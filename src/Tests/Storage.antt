-- ===== src/Tests/Storage.antt =====
-- The writing and reading of logs at concrete inputs.
use tally_vcs.Prelude.{
  ℕ, List, [], ◌∷◌, ◌++◌, Option, some, none, ◌≡◌, refl, sym, ap, ◌∙◌, Result, ok, err, json, io,
  true, arith, err-ne-ok, if◌then◌else◌, ok_injective, length, take, ltb,
}
use tally_vcs.Prelude.Bytes.{
  Bytes, bytes, str_eq, is_utf8, utf8_run, utf8_step, utf8_lead, contains,
}
use tally_vcs.Blobs.{BlobStore, get, path_for}
use tally_vcs.Json.{Value}
use tally_vcs.Json.Canonical.{
  canonical_json, canonical_number, canonical_items, canonical_members, insert_text, join_members,
  join_items, member_text, decimal_onto,
}
use tally_vcs.Json.Strings.{canonical_string, escape, escape_char}
use tally_vcs.Ident.Hex.{sha3_hex, hex_digit, is_hex64, is_hex_char, hex}
use tally_vcs.Log.{LogLine, validate}
use tally_vcs.Log.Recovery.{
  Written, fresh, appended, parse_log_strict-Written, parse_log_lenient-torn,
}
use tally_vcs.Log.Readback.{IsReadable}
use tally_vcs.Log.Seal.{
  Sealed, seal, stamp, compute_id, spill_reads_if_needed, overflow, line_blob_value,
}
use tally_vcs.Log.Serialize.{to_value, to_members, annotation_value, provenance_value, intent_value}
use tally_vcs.Log.Stored.{Serde, parse_log_lenient, parse_log_strict}
use tally_vcs.Tests.Toy.{toy_sha3, toy_digest, repeat}
use tally_vcs.Tests.Patches.{quiet}

abbrev pool : BlobStore
pool = record { files = [] }

-- A line before it is sealed.
abbrev draft : LogLine
draft = record {
  id = [];
  prev = [];
  intent = record { ops = [] };
  realized = [];
  sum_after = [];
  committed_ms = 0;
  annotation = quiet;
}

abbrev sealed_id : Bytes
sealed_id = bytes "d0d0d0d0d0d0d0d0d0d0d0d0d0d0d0d0d0d0d0d0d0d0d0d0d0d0d0d0d0d0d0d0"

abbrev sealed_line : LogLine
sealed_line = record draft { id = sealed_id; committed_ms = 7 }

abbrev sealed_text : Bytes
sealed_text =
    bytes "{\"annotation\":{\"author\":\"agent\",\"origin\":null,\"prose\":null,"
    ++ bytes "\"provenance\":\"agent\",\"reads\":[],\"reason\":null,\"session\":null,"
    ++ bytes
        "\"sig\":null},\"committed_ms\":7,\"id\":\"d0d0d0d0d0d0d0d0d0d0d0d0d0d0d0d0d0d0d0d0d0d0d0d0d0d0d0d0d0d0d0d0\","
    ++ bytes "\"intent\":{\"ops\":[]},\"prev\":\"\",\"realized\":[],\"sum_after\":\"\"}"

abbrev blob_hash : Bytes
blob_hash = bytes "1818181818181818181818181818181818181818181818181818181818181818"

abbrev reference_text : Bytes
reference_text = bytes "{\"line_blob\":\"" ++ (blob_hash ++ bytes "\"}")

-- A reader that knows two texts and one line.
instance abbrev toy_serde : Serde
unfolding str_eq
toy_serde = record {
  from_str = λ text.
      if str_eq text sealed_text
      then ok (to_value sealed_line)
      else if str_eq text reference_text
      then ok (line_blob_value blob_hash)
      else err json;
  from_value = λ value. ok sealed_line;
}

abbrev sealed : Sealed
sealed = record { appended = sealed_text ++ (10 ∷ []); line = sealed_line; blobs = pool }

seals : seal (some 7) pool draft ≡ ok sealed
unfolding seal stamp validate compute_id spill_reads_if_needed overflow canonical_json
    canonical_number canonical_members canonical_items insert_text join_items join_members
    member_text canonical_string escape escape_char hex_digit decimal_onto to_value to_members
    annotation_value provenance_value intent_value sha3_hex hex toy_digest repeat
    tally_vcs.Json.RecordId.record_id tally_vcs.Json.RecordId.remove_member str_eq
    tally_vcs.Prelude.Bytes.str_lt
seals = refl

text_of_line : canonical_json (to_value sealed_line) ≡ ok sealed_text
unfolding seal stamp validate compute_id spill_reads_if_needed overflow canonical_json
    canonical_number canonical_members canonical_items insert_text join_items join_members
    member_text canonical_string escape escape_char hex_digit decimal_onto to_value to_members
    annotation_value provenance_value intent_value sha3_hex hex toy_digest repeat
    tally_vcs.Json.RecordId.record_id tally_vcs.Json.RecordId.remove_member str_eq
    tally_vcs.Prelude.Bytes.str_lt
text_of_line = refl

hash_of_line : sha3_hex sealed_text ≡ blob_hash
unfolding seal stamp validate compute_id spill_reads_if_needed overflow canonical_json
    canonical_number canonical_members canonical_items insert_text join_items join_members
    member_text canonical_string escape escape_char hex_digit decimal_onto to_value to_members
    annotation_value provenance_value intent_value sha3_hex hex toy_digest repeat
    tally_vcs.Json.RecordId.record_id tally_vcs.Json.RecordId.remove_member str_eq
    tally_vcs.Prelude.Bytes.str_lt
hash_of_line = refl

text_of_reference : canonical_json (line_blob_value blob_hash) ≡ ok reference_text
unfolding seal stamp validate compute_id spill_reads_if_needed overflow canonical_json
    canonical_number canonical_members canonical_items insert_text join_items join_members
    member_text canonical_string escape escape_char hex_digit decimal_onto to_value to_members
    annotation_value provenance_value intent_value sha3_hex hex toy_digest repeat
    tally_vcs.Json.RecordId.record_id tally_vcs.Json.RecordId.remove_member str_eq
    tally_vcs.Prelude.Bytes.str_lt
text_of_reference = refl

sealed_utf8 : is_utf8 sealed_text ≡ true
unfolding is_utf8 utf8_run utf8_step utf8_lead
sealed_utf8 = refl

is_text : (text : Bytes) → canonical_json (to_value sealed_line) ≡ ok text → sealed_text ≡ text
is_text text e = ok_injective (sym text_of_line ∙ e)

reads_line : toy_serde.from_str sealed_text ≡ ok (to_value sealed_line)
unfolding str_eq
reads_line = refl

reads_reference : toy_serde.from_str reference_text ≡ ok (line_blob_value blob_hash)
unfolding str_eq
reads_reference = refl

pool_is_empty : get pool blob_hash ≡ err io
unfolding get path_for tally_vcs.BTreeMap.get is_hex64 is_hex_char
pool_is_empty = refl

readable : IsReadable pool sealed_line
unfolding toy_serde
readable = record {
  encoded = λ text e. rw (← is_text text e) sealed_utf8;
  from_text = λ text e. rw (← is_text text e) reads_line;
  from_reference = λ text e t f.
      let hash : sha3_hex text ≡ blob_hash = rw (← is_text text e) hash_of_line in
      let same = ok_injective (sym text_of_reference ∙ (rw hash at f)) in
      rw hash (rw (← same) reads_reference);
  from_value = refl;
  only = λ text found e g.
      let hash : sha3_hex text ≡ blob_hash = rw (← is_text text e) hash_of_line in
      absurd (err-ne-ok (sym pool_is_empty ∙ (rw hash at g)));
}

one_line_log : Written pool sealed.appended (sealed_line ∷ [])
one_line_log = appended (some 7) draft sealed (fresh pool) seals readable

parse_log_strict-Written_example :
    parse_log_strict (get pool) sealed.appended ≡ ok (sealed_line ∷ [])
parse_log_strict-Written_example =
    parse_log_strict-Written pool sealed.appended (sealed_line ∷ []) one_line_log

parse_log_lenient-torn_example :
    parse_log_lenient (get pool) (sealed.appended ++ take 20 sealed.appended)
    ≡ ok (record { lines = sealed_line ∷ []; valid_prefix = length sealed.appended })
parse_log_lenient-torn_example =
    parse_log_lenient-torn (some 7) pool sealed.appended (sealed_line ∷ []) draft sealed 20
      one_line_log seals readable (omega arith)
