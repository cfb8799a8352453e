-- ===== src/Log/Readable.antt =====
-- Proofs on `LogLine::seal` of src/log.rs: the id verifies, the rules stay kept, references are text.
use tally_vcs.Prelude.{
  ℕ, suc, Bool, true, false, [], ◌∷◌, ◌++◌, Option, none, some, ◌≡◌, refl, sym, ap, arith, inl, inr,
  if◌then◌else◌, Bool-cases, length, ltb, leb, ◌==◌, Result, ok, err, invalid, not, ◌&&◌, >>=-eq-ok,
  ok_injective, all, all-append, &&-eq-true,
}
use tally_vcs.Prelude.Bytes.{Bytes, bytes, is_utf8, is_utf8_ascii, str_eq, str_eq_refl}
use tally_vcs.Blobs.{BlobStore, put}
use tally_vcs.Ident.Hex.{Sha3, is_hex64, is_hex_char}
use tally_vcs.Json.{Value, null, bool, number, string, array, object}
use tally_vcs.Json.Canonical.{
  canonical_json, canonical_members, insert_text, join_members, member_text,
}
use tally_vcs.Json.RecordId.{
  record_id, verify_record_id, get_value, get_member, remove_member, as_str,
}
use tally_vcs.Json.Strings.{escape, escape_char, canonical_string}
use tally_vcs.BTreeMap.{is_some}
use tally_vcs.Log.{
  LogLine, Fuse, Provenance, agent, andon, union, fuse, is_empty, validate, validate_provenance,
  validate_fuse,
}
use tally_vcs.Log.Seal.{
  stamp, clock_ms, compute_id, spill_reads_if_needed, spill_if, spill_value, spill_array,
  with_reads, reads_blob_value, line_blob_value, spill_threshold,
}
use tally_vcs.Log.Serialize.{to_value, to_members}
use tally_vcs.Log.Stored.{line_blob_ref}

abbrev IsAscii : Bytes → Type 0
IsAscii s = all (λ b. ltb b 0x80) s ≡ true

IsAscii-append : (a b : Bytes) → IsAscii a → IsAscii b → IsAscii (a ++ b)
IsAscii-append a b h k = ground (arith, all-append (λ (x : ℕ). ltb x 0x80) a b)

escape_char-IsAscii : (c : ℕ) → is_hex_char c ≡ true → IsAscii (escape_char c)
unfolding escape_char is_hex_char
escape_char-IsAscii c h = ground arith

escape-IsAscii : (s : Bytes) → all is_hex_char s ≡ true → IsAscii (escape s)
unfolding escape
escape-IsAscii [] h = refl
escape-IsAscii (c ∷ cs) h =
    let (p, q) = &&-eq-true _ _ h in
    IsAscii-append (escape_char c) (escape cs) (escape_char-IsAscii c p) (escape-IsAscii cs q)

-- The text of a reference to a blob is ASCII.
pub reference_utf8 :
    (hash text : Bytes)
    → is_hex64 hash ≡ true
    → canonical_json (line_blob_value hash) ≡ ok text
    → is_utf8 text ≡ true
unfolding canonical_json canonical_members insert_text join_members member_text canonical_string
    is_hex64 escape escape_char
reference_utf8 hash text h e = rw (← ok_injective e) (
    is_utf8_ascii (bytes "{\"line_blob\":\"" ++ ((escape hash ++ bytes "\"") ++ bytes "}")) (
      IsAscii-append (escape hash ++ bytes "\"") (bytes "}")
        (IsAscii-append (escape hash) (bytes "\"") (escape-IsAscii hash (&&-eq-true _ _ h).1) refl)
        refl))

pub line_blob_ref_value :
    (hash : Bytes) → is_hex64 hash ≡ true → line_blob_ref (line_blob_value hash) ≡ some hash
unfolding line_blob_ref get_member as_str str_eq
line_blob_ref_value hash h = rw (h, if◌then◌else◌) refl

pub line_blob_ref_line : (l : LogLine) → line_blob_ref (to_value l) ≡ none
unfolding line_blob_ref to_value to_members
line_blob_ref_line l = refl

module _ ⦃h : Sha3⦄ where
  -- The id that is computed for a line verifies once it is put in.
  pub compute_id-verify :
      (l : LogLine) (id : Bytes)
      → compute_id l ≡ ok id
      → verify_record_id (to_value (record l { id = id })) ≡ ok tt
  unfolding compute_id verify_record_id record_id get_value get_member as_str remove_member to_value
      to_members str_eq
  compute_id-verify l id e = rw e (rw (str_eq_refl id) refl)

  -- The rules of the format do not read the id, the time and the reads of a line.
  abbrev changed : LogLine → Bytes → ℕ → Option Value → LogLine
  changed l id ms reads = record l {
    id = id;
    committed_ms = ms;
    annotation = record l.annotation { reads = reads };
  }

  validate-changed :
      (l : LogLine) (id : Bytes) (ms : ℕ) (reads : Option Value)
      → validate (changed l id ms reads) ≡ validate l
  unfolding validate
  validate-changed l id ms reads =
      ap (if_moves (is_some l.annotation.fuse_span && not (is_empty l.realized)))
        (go l.annotation.provenance)
    where
      if_moves : Bool → Result (Unit {0}) → Result (Unit {0})
      if_moves b r = if b then err invalid else r

      go_fuse : (o : Option Fuse) → validate_fuse o (changed l id ms reads) ≡ validate_fuse o l
      go_fuse none = refl
      go_fuse (some f) = refl

      go :
          (p : Provenance) → validate_provenance p (changed l id ms reads) ≡ validate_provenance p l
      go agent = refl
      go andon = refl
      go union = refl
      go fuse = go_fuse l.annotation.fuse_span

  pub validate-stamp : (now : Option ℕ) (l : LogLine) → validate (stamp now l) ≡ validate l
  unfolding stamp
  validate-stamp now l = elim (Bool-cases (l.committed_ms == 0)) [
    | inl e ↦ rw (e, if◌then◌else◌) (validate-changed l l.id (clock_ms now) l.annotation.reads)
    | inr e ↦ rw e refl
  ]

  validate-with_reads : (l : LogLine) (v : Value) → validate (with_reads l v) ≡ validate l
  validate-with_reads l v = validate-changed l l.id l.committed_ms (some v)

  pub validate-id : (l : LogLine) (id : Bytes) → validate (record l { id = id }) ≡ validate l
  validate-id l id = validate-changed l id l.committed_ms l.annotation.reads

  spill_array-validate :
      (blobs after : BlobStore) (l m : LogLine) (v : Value)
      → spill_array blobs l v ≡ ok (m, after)
      → validate m ≡ validate l
  spill_array-validate blobs after l m v e =
      let (spilled, e₁, k₁) = >>=-eq-ok (canonical_json v) _ e in
      let (stored, e₂, k₂) = >>=-eq-ok (put blobs spilled) _ k₁ in
      rw (← ap (λ (p : LogLine × BlobStore). p.0) (ok_injective k₂))
        (validate-with_reads l (reads_blob_value stored.0))

  same_line :
      (blobs after : BlobStore) (l m : LogLine)
      → ◌≡◌ {A = Result (LogLine × BlobStore)} (ok (l, blobs)) (ok (m, after))
      → validate m ≡ validate l
  same_line blobs after l m e =
      ap (λ (p : LogLine × BlobStore). validate p.0) (sym (ok_injective e))

  spill_value-validate :
      (blobs after : BlobStore) (l m : LogLine) (o : Option Value)
      → spill_value blobs l o ≡ ok (m, after)
      → validate m ≡ validate l
  spill_value-validate blobs after l m none e = same_line blobs after l m e
  spill_value-validate blobs after l m (some null) e = same_line blobs after l m e
  spill_value-validate blobs after l m (some (bool b)) e = same_line blobs after l m e
  spill_value-validate blobs after l m (some (number n)) e = same_line blobs after l m e
  spill_value-validate blobs after l m (some (string s)) e = same_line blobs after l m e
  spill_value-validate blobs after l m (some (array vs)) e =
      spill_array-validate blobs after l m (array vs) e
  spill_value-validate blobs after l m (some (object ms)) e = same_line blobs after l m e

  pub spill-validate :
      (blobs after : BlobStore) (l m : LogLine)
      → spill_reads_if_needed blobs l ≡ ok (m, after)
      → validate m ≡ validate l
  unfolding spill_reads_if_needed
  spill-validate blobs after l m e =
      let (text, e₁, k₁) = >>=-eq-ok (canonical_json (to_value l)) _ e in
      go (leb (suc (length text)) spill_threshold) k₁
    where
      go : (b : Bool) → spill_if b blobs l ≡ ok (m, after) → validate m ≡ validate l
      go true k = same_line blobs after l m k
      go false k = spill_value-validate blobs after l m l.annotation.reads k
