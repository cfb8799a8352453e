-- ===== src/Tests/Texts.antt =====
-- Fork files and canonical JSON at concrete inputs.
use tally_vcs.Prelude.{◌++◌, some, ◌≡◌, refl, ok}
use tally_vcs.Prelude.Bytes.{Bytes, bytes, str_eq, str_lt}
use tally_vcs.Fork.{
  ForkFile, IsForkFile, fork_bytes, parse_fork, parse_fork-fork_bytes, parse_fork-IsForkFile,
}
use tally_vcs.Ident.Hex.{is_hex64, is_hex_char, sha3_hex}
use tally_vcs.Json.{Value, Members, object, string, number, float, array, item, end, stop, member}
use tally_vcs.Json.Strings.{
  escape, escape_char, read_string, read_string-canonical_string, canonical_string,
}
use tally_vcs.Json.Canonical.{
  canonical_json, canonical_members, canonical_items, insert_text, join_members, member_text,
}
use tally_vcs.Json.Floats.{OkUnless, has_float, canonical_json-OkUnless}
use tally_vcs.Json.KeyOrder.{Reordered, same, swap, canonical_json-Reordered}
use tally_vcs.Json.RecordId.{
  record_id, verify_record_id, with_id, verify_sealed, verify_record_id-eq-ok, remove_member,
  get_member, id_key,
}
use tally_vcs.Tests.Toy.{toy_sha3, repeat}

abbrev fork_file : ForkFile
fork_file = record { anchor = repeat 64 b'0'; manifest = repeat 64 b'1' }

fork_file-IsForkFile : IsForkFile fork_file
unfolding is_hex64 is_hex_char repeat
fork_file-IsForkFile = (refl, refl)

parse_fork-fork_bytes_example : parse_fork (fork_bytes fork_file) ≡ ok fork_file
parse_fork-fork_bytes_example = parse_fork-fork_bytes fork_file fork_file-IsForkFile

fork_file_parses : IsForkFile fork_file
fork_file_parses =
    parse_fork-IsForkFile (fork_bytes fork_file) fork_file
      (parse_fork-fork_bytes fork_file fork_file-IsForkFile)

read_string-canonical_string_example :
    read_string (canonical_string (bytes "a\"\n") ++ bytes ",") ≡ some (bytes "a\"\n", bytes ",")
read_string-canonical_string_example = read_string-canonical_string (bytes "a\"\n") (bytes ",")

abbrev doc : Value
doc = object (member (bytes "a") (array (item (number float) end)) stop)

canonical_json-OkUnless_example : OkUnless (has_float doc) (canonical_json doc)
canonical_json-OkUnless_example = canonical_json-OkUnless doc

abbrev ab : Members
ab = member (bytes "a") (string (bytes "1")) (member (bytes "b") (string (bytes "2")) stop)

abbrev ba : Members
ba = member (bytes "b") (string (bytes "2")) (member (bytes "a") (string (bytes "1")) stop)

ab-Reordered : Reordered ab ba
unfolding str_eq
ab-Reordered =
    swap (bytes "a") (bytes "b") (string (bytes "1")) (string (bytes "2")) refl (same stop)

canonical_json-Reordered_example : canonical_json (object ab) ≡ canonical_json (object ba)
canonical_json-Reordered_example = canonical_json-Reordered ab-Reordered

abbrev ab_text : Bytes
ab_text = bytes "{\"a\":\"1\",\"b\":\"2\"}"

record_id_of_ab : record_id (object ab) ≡ ok (sha3_hex ab_text)
unfolding record_id remove_member str_eq canonical_json canonical_members canonical_items
    insert_text str_lt join_members member_text canonical_string escape escape_char
record_id_of_ab = refl

ab_verifies : verify_record_id (with_id (sha3_hex ab_text) ab) ≡ ok tt
ab_verifies = verify_sealed ab (sha3_hex ab_text) record_id_of_ab

abbrev sealed : Members
sealed = member id_key (string (sha3_hex ab_text)) (remove_member id_key ab)

verify_record_id-eq-ok_example :
    (content : Bytes) × (canonical_json (object (remove_member id_key sealed)) ≡ ok content)
    × (get_member id_key sealed ≡ some (string (sha3_hex content)))
verify_record_id-eq-ok_example = verify_record_id-eq-ok sealed ab_verifies
