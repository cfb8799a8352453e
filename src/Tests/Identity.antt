-- ===== src/Tests/Identity.antt =====
-- The identity layer at concrete inputs.
use tally_vcs.Prelude.{◌≡◌, refl, ok, err, invalid, arith}
use tally_vcs.Prelude.Bytes.{bytes, str_eq, contains, split, trim_one}
use tally_vcs.Base64.{encode, decode, letter, value_of, decode_chunk}
use tally_vcs.Base64.RoundTrip.{decode-encode}
use tally_vcs.Ident.Hex.{is_hex64, is_hex_char}
use tally_vcs.Ident.Record.{ElementRecord, validate_mode, validate_path, has_dots, to_line, parse}
use tally_vcs.Ident.RoundTrip.{IsValid, parse-to_line, to_line-parse}
use tally_vcs.Tests.Toy.{repeat}

encode_foob : encode (bytes "foob") ≡ bytes "Zm9vYg=="
unfolding encode letter
encode_foob = refl

decode_rejects : decode (bytes "ab=c") ≡ err invalid
unfolding decode decode_chunk value_of
decode_rejects = refl

decode-encode_example : decode (encode (bytes "fooba")) ≡ ok (bytes "fooba")
decode-encode_example = decode-encode (bytes "fooba") (omega arith)

abbrev pub readme : ElementRecord
readme = record { mode = bytes "100644"; path = bytes "/README.md"; blob = repeat 64 b'a' }

pub readme-IsValid : IsValid readme
unfolding validate_mode validate_path has_dots is_hex64 is_hex_char str_eq contains split repeat
readme-IsValid = record { mode_valid = refl; path_valid = refl; blob_valid = refl }

parse-to_line_example : parse (to_line readme) ≡ ok readme
parse-to_line_example = parse-to_line readme-IsValid

to_line-parse_example : (trim_one 10 (to_line readme) ≡ to_line readme) × IsValid readme
to_line-parse_example = to_line-parse (to_line readme) readme (parse-to_line readme-IsValid)
