-- ===== src/Log/Recovery.antt =====
-- Proofs on `seal`, `parse_log_lenient` and `parse_log_strict` of src/log.rs: a log of sealed lines
-- is read back whole, and after a crash in the middle of an append without the line that was torn.
use tally_vcs.Prelude.{
  ℕ, zero, suc, ◌<◌, List, [], ◌∷◌, ◌++◌, Option, ◌≡◌, refl, sym, arith, inl, inr, length, take,
  append_assoc, Result, ok, Result-cases,
}
use tally_vcs.Prelude.Bytes.{Bytes, contains}
use tally_vcs.Blobs.{BlobStore, get}
use tally_vcs.Ident.Hex.{Sha3}
use tally_vcs.Json.OneLine.{IsOneLine}
use tally_vcs.Log.{LogLine}
use tally_vcs.Log.Readback.{IsStored, IsReadable, seal-IsStored}
use tally_vcs.Log.Scanning.{
  Entries, frames, entry_lines, AllStored, parse_log_lenient-frames, parse_log_strict-frames,
}
use tally_vcs.Log.Seal.{Sealed, seal}
use tally_vcs.Log.Stored.{
  Serde, StoredLine, line, blob_ref, resolve_stored, parse_log_lenient, parse_log_strict,
}
use tally_vcs.Log.Growth.{Extends, seal-Extends}

frames-append :
    (es : Entries) (text : Bytes) (l : LogLine)
    → frames (es ++ ((text, l) ∷ [])) ≡ frames es ++ (text ++ (10 ∷ []))
frames-append [] text l = refl
frames-append ((t, m) ∷ es) text l =
    rw (frames-append es text l) (sym (append_assoc t (10 ∷ frames es) (text ++ (10 ∷ []))))

entry_lines-append :
    (es : Entries) (text : Bytes) (l : LogLine)
    → entry_lines (es ++ ((text, l) ∷ [])) ≡ entry_lines es ++ (l ∷ [])
entry_lines-append [] text l = refl
entry_lines-append ((t, m) ∷ es) text l = rw (entry_lines-append es text l) refl

-- A part of a line and its LF that lacks at least the last byte has no LF.
take-IsOneLine :
    (k : ℕ) (text : Bytes)
    → IsOneLine text
    → k < length (text ++ (10 ∷ []))
    → IsOneLine (take k (text ++ (10 ∷ [])))
unfolding contains
take-IsOneLine zero text o l = refl
take-IsOneLine (suc k) [] o l = absurd (omega arith)
take-IsOneLine (suc k) (x ∷ xs) o l = ground (arith, take-IsOneLine k xs)

module _ ⦃h : Sha3⦄ ⦃d : Serde⦄ where
  -- A log that sealing lines and appending what it returned has written, with its pool.
  pub data Written : BlobStore → Bytes → List LogLine → Type 0 where
    fresh : (blobs : BlobStore) → Written blobs [] []
    appended :
        {blobs : BlobStore} {log : Bytes} {lines : List LogLine} (now : Option ℕ) (l : LogLine)
        (s : Sealed)
        → Written blobs log lines
        → seal now blobs l ≡ ok s
        → IsReadable s.blobs s.line
        → Written s.blobs (log ++ s.appended) (lines ++ (s.line ∷ []))

  resolve-Extends :
      (blobs after : BlobStore) (p : StoredLine) (l : LogLine)
      → Extends blobs after
      → resolve_stored (get blobs) p ≡ ok l
      → resolve_stored (get after) p ≡ ok l
  unfolding resolve_stored
  resolve-Extends blobs after (line m) l g e = e
  resolve-Extends blobs after (blob_ref hash) l g e = elim (Result-cases (get blobs hash)) [
    | inl (text, f) ↦ rw (g hash text f) (rw f at e)
    | inr (c, f) ↦ let k = rw f at e in absurd (cc)
  ]

  AllStored-Extends :
      (blobs after : BlobStore) (es : Entries)
      → Extends blobs after
      → AllStored (get blobs) es
      → AllStored (get after) es
  AllStored-Extends blobs after [] g a = tt
  AllStored-Extends blobs after ((text, l) ∷ es) g a = (
    record {
      one_line = a.0.one_line;
      piece = a.0.piece;
      read = a.0.read;
      resolved = resolve-Extends blobs after a.0.piece l g a.0.resolved;
    },
    AllStored-Extends blobs after es g a.1,
  )

  AllStored-append :
      (fetch : Bytes → Result Bytes) (es : Entries) (text : Bytes) (l : LogLine)
      → AllStored fetch es
      → IsStored fetch text l
      → AllStored fetch (es ++ ((text, l) ∷ []))
  AllStored-append fetch [] text l a s = (s, tt)
  AllStored-append fetch ((t, m) ∷ es) text l a s = (a.0, AllStored-append fetch es text l a.1 s)

  -- A log that was written consists of texts that are read as its lines.
  Written-entries :
      {blobs : BlobStore} {log : Bytes} {lines : List LogLine}
      → Written blobs log lines
      → (es : Entries) × (log ≡ frames es) × (lines ≡ entry_lines es) × AllStored (get blobs) es
  Written-entries (fresh blobs) = ([], refl, refl, tt)
  Written-entries (appended {blobs = blobs} now l s w e r) =
      let (es, f, g, a) = Written-entries w in
      let (text, t, q) = seal-IsStored now blobs l s e r in
      (
        es ++ ((text, s.line) ∷ []),
        rw (f, t) (sym (frames-append es text s.line)),
        rw g (sym (entry_lines-append es text s.line)),
        AllStored-append (get s.blobs) es text s.line
            (AllStored-Extends blobs s.blobs es (seal-Extends now blobs l s e) a) q,
      )

  -- A log that sealing has written, of lines that can be read back, is read strictly as the lines
  -- that were sealed.
  pub parse_log_strict-Written :
      (blobs : BlobStore) (log : Bytes) (lines : List LogLine)
      → Written blobs log lines
      → parse_log_strict (get blobs) log ≡ ok lines
  parse_log_strict-Written blobs log lines w =
      let (es, f, g, a) = Written-entries w in rw (f, g) (parse_log_strict-frames (get blobs) es a)

  -- Crash recovery: if an append of a sealed line to a log that sealing has written stops before
  -- its last byte, and the line can be read back, the log is read as the lines before it, with a
  -- valid prefix that ends where they end.
  pub parse_log_lenient-torn :
      (now : Option ℕ) (blobs : BlobStore) (log : Bytes) (lines : List LogLine) (l : LogLine)
      (s : Sealed) (k : ℕ)
      → Written blobs log lines
      → seal now blobs l ≡ ok s
      → IsReadable s.blobs s.line
      → k < length s.appended
      → parse_log_lenient (get s.blobs) (log ++ take k s.appended)
        ≡ ok (record { lines = lines; valid_prefix = length log })
  parse_log_lenient-torn now blobs log lines l s k w e r b =
      let (es, f, g, a) = Written-entries w in
      let (text, t, q) = seal-IsStored now blobs l s e r in
      rw (f, g)
        (parse_log_lenient-frames (get s.blobs) es (take k s.appended)
          (AllStored-Extends blobs s.blobs es (seal-Extends now blobs l s e) a)
          (rw t (take-IsOneLine k text q.one_line (rw t at b))))
