-- ===== src/Log/Scanning.antt =====
-- Proofs on `parse_log_lenient` and `parse_log_strict` of src/log.rs: lines, a torn tail, and damage
-- before a line.
use tally_vcs.Prelude.{
  Bool, true, List, [], ◌∷◌, ◌++◌, ◌≡◌, refl, arith, length, length-append, drop, any, append_assoc,
  append-nil, ==_iff, Result, Error, ok, err, corrupt,
}
use tally_vcs.Prelude.Bytes.{Bytes, contains, split, split-append, split_whole}
use tally_vcs.Ident.Hex.{Sha3}
use tally_vcs.Json.OneLine.{IsOneLine}
use tally_vcs.Log.{LogLine}
use tally_vcs.Log.Readback.{IsStored}
use tally_vcs.Log.Stored.{
  Serde, StoredLine, read_piece, resolve_all, scan_pieces, Scan, is_ok, resumes, parse_log_lenient,
  parse_log_strict,
}

-- Lines with their texts, and the log that they make.
abbrev pub Entries : Type 0
Entries = List (Bytes × LogLine)

abbrev pub frames : Entries → Bytes
frames [] = []
frames ((text, l) ∷ es) = text ++ (10 ∷ frames es)

abbrev pub entry_lines : Entries → List LogLine
entry_lines [] = []
entry_lines ((text, l) ∷ es) = l ∷ entry_lines es

drop-append : (a b : Bytes) → drop (length a) (a ++ b) ≡ b
drop-append [] b = refl
drop-append (x ∷ xs) b = drop-append xs b

-- A test that holds of a piece of the rest holds of a piece behind the first separator.
any_later :
    (q : Bytes → Bool) (a b : Bytes)
    → any q ((split 10 b).0 ∷ (split 10 b).1) ≡ true
    → any q (split 10 (a ++ (10 ∷ b))).1 ≡ true
unfolding split
any_later q [] b h = ground arith
any_later q (x ∷ xs) b h = ground (arith, any_later q xs b)

-- A text stands between line feeds: at the start, behind a line feed, or up to the end.
pub data StandsIn (good : Bytes) : Bytes → Type 0 where
  last : StandsIn good good
  here : (rest : Bytes) → StandsIn good (good ++ (10 ∷ rest))
  later : (before after : Bytes) → StandsIn good after → StandsIn good (before ++ (10 ∷ after))

any_piece :
    (q : Bytes → Bool) (good : Bytes)
    → IsOneLine good
    → q good ≡ true
    → (after : Bytes) → StandsIn good after
    → any q ((split 10 after).0 ∷ (split 10 after).1) ≡ true
any_piece q good o g after last = rw (split_whole 10 good o) (rw g refl)
any_piece q good o g after (here rest) = rw (split-append 10 good rest o) (rw g refl)
any_piece q good o g after (later before behind s) =
    let k = any_later q before behind (any_piece q good o g behind s) in ground (arith, k)

module _ ⦃h : Sha3⦄ ⦃d : Serde⦄ where
  -- Each text of the entries is read as its line.
  abbrev pub AllStored : (Bytes → Result Bytes) → Entries → Type 0
  AllStored fetch [] = Unit
  AllStored fetch ((text, l) ∷ es) = IsStored fetch text l × AllStored fetch es

  abbrev pieces_of :
      (fetch : Bytes → Result Bytes) (es : Entries) → AllStored fetch es → List StoredLine
  pieces_of fetch [] a = []
  pieces_of fetch ((text, l) ∷ es) a = a.0.piece ∷ pieces_of fetch es a.1

  abbrev scan_of : Bytes → Scan
  scan_of log = scan_pieces (split 10 log).0 (split 10 log).1

  -- The scan of a log reads its lines, and then what a scan of the rest reads.
  scan-frames :
      (fetch : Bytes → Result Bytes) (es : Entries) (a : AllStored fetch es) (tail : Bytes)
      → scan_of tail ≡ record { stored = []; valid_prefix = 0 }
      → scan_of (frames es ++ tail)
        ≡ record { stored = pieces_of fetch es a; valid_prefix = length (frames es) }
  unfolding scan_pieces
  scan-frames fetch [] a tail t = t
  scan-frames fetch ((text, l) ∷ es) a tail t = rw (append_assoc text (10 ∷ frames es) tail) (
      rw (split-append 10 text (frames es ++ tail) a.0.one_line) (
        rw (scan-frames fetch es a.1 tail t)
          (rw a.0.read (rw (length-append text (10 ∷ frames es)) (ground arith)))))

  resolve_all-pieces :
      (fetch : Bytes → Result Bytes) (es : Entries) (a : AllStored fetch es)
      → resolve_all fetch (pieces_of fetch es a) ≡ ok (entry_lines es)
  unfolding resolve_all
  resolve_all-pieces fetch [] a = refl
  resolve_all-pieces fetch ((text, l) ∷ es) a =
      rw (a.0.resolved) (rw (resolve_all-pieces fetch es a.1) refl)

  scan_torn :
      (torn : Bytes) → IsOneLine torn → scan_of torn ≡ record { stored = []; valid_prefix = 0 }
  unfolding scan_pieces
  scan_torn torn o = rw (split_whole 10 torn o) refl

  -- Lines and a tail without LF are read as the lines; the tail lies past the valid prefix.
  pub parse_log_lenient-frames :
      (fetch : Bytes → Result Bytes) (es : Entries) (torn : Bytes)
      → AllStored fetch es
      → IsOneLine torn
      → parse_log_lenient fetch (frames es ++ torn)
        ≡ ok (record { lines = entry_lines es; valid_prefix = length (frames es) })
  unfolding parse_log_lenient resumes
  parse_log_lenient-frames fetch es torn a o = rw (scan-frames fetch es a torn (scan_torn torn o)) (
      rw (drop-append (frames es) torn)
        (rw (split_whole 10 torn o) (rw (resolve_all-pieces fetch es a) refl)))

  pub parse_log_strict-frames :
      (fetch : Bytes → Result Bytes) (es : Entries)
      → AllStored fetch es
      → parse_log_strict fetch (frames es) ≡ ok (entry_lines es)
  unfolding parse_log_strict contains
  parse_log_strict-frames fetch es a = rw (← append-nil (frames es)) (
      rw (parse_log_lenient-frames fetch es [] a refl)
        (rw (append-nil (frames es), (==_iff _ _).1 refl) refl))

  scan_bad :
      (bad after : Bytes) (e : Error)
      → IsOneLine bad
      → read_piece bad ≡ err e
      → scan_of (bad ++ (10 ∷ after)) ≡ record { stored = []; valid_prefix = 0 }
  unfolding scan_pieces
  scan_bad bad after e o b = rw (split-append 10 bad after o) (rw b refl)

  -- If a log starts with lines that are read, goes on with one that cannot be read, and a line
  -- that can be read stands behind it, directly, later, or at the end without a line feed, the log
  -- is refused as corrupt: no line is dropped as a torn tail.
  pub parse_log_lenient-corrupt :
      (fetch : Bytes → Result Bytes) (es : Entries) (bad after good : Bytes) (e : Error)
      (piece : StoredLine)
      → AllStored fetch es
      → IsOneLine bad
      → read_piece bad ≡ err e
      → IsOneLine good
      → read_piece good ≡ ok piece
      → StandsIn good after
      → parse_log_lenient fetch (frames es ++ (bad ++ (10 ∷ after))) ≡ err corrupt
  unfolding parse_log_lenient resumes
  parse_log_lenient-corrupt fetch es bad after good e piece a o b p g stands =
      let q = λ (x : Bytes). is_ok (read_piece x) in
      let later = any_piece q good p (rw g refl) after stands in
      let resumed : resumes (bad ++ (10 ∷ after)) ≡ true = rw (split-append 10 bad after o) later in
      rw (scan-frames fetch es a (bad ++ (10 ∷ after)) (scan_bad bad after e o b))
        (rw (drop-append (frames es) (bad ++ (10 ∷ after))) (rw resumed refl))
