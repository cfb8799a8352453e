-- ===== src/Base64/RoundTrip.antt =====
-- Proofs on `encode` and `decode` of src/b64.rs.
use tally_vcs.Prelude.{
  ℕ, ◌/◌, ◌%◌, ◌<◌, Bool, true, false, ◌&&◌, [], ◌∷◌, ◌≡◌, refl, length, ◌==◌, Result, ok, err, All,
  arith, not, all_below→at,
}
use tally_vcs.Prelude.Tests.{all_below}
use tally_vcs.Prelude.Bytes.{Bytes, IsByte}
use tally_vcs.Base64.{letter, pack, encode, value_of, decode_chunk, decode_chunks, decode}

-- A letter that is read back, and is no padding.
reads_back : ℕ → ℕ → Result ℕ → Bool
reads_back i c (ok v) = v == i && not (c == b'=')
reads_back i c (err e) = false

reads_back→ :
    (i c : ℕ) (r : Result ℕ) → reads_back i c r ≡ true → (r ≡ ok i) × ((c == b'=') ≡ false)
unfolding reads_back
reads_back→ i c (ok v) h = (ground arith, ground arith)
reads_back→ i c (err e) h = cc

letters_table : all_below 64 (λ i. reads_back i (letter i) (value_of (letter i))) ≡ true
unfolding reads_back letter value_of all_below
letters_table = refl

letter_lem : (i : ℕ) → i < 64 → (value_of (letter i) ≡ ok i) × ((letter i == b'=') ≡ false)
letter_lem i h =
    reads_back→ i _ _
      (all_below→at 64 (λ k. reads_back k (letter k) (value_of (letter k))) i letters_table h)

chunk_three :
    (last : Bool) (a b c : ℕ)
    → IsByte a
    → IsByte b
    → IsByte c
    → let n = pack a b c in
      decode_chunk last
        (letter (n / 262144 % 64))
        (letter (n / 4096 % 64))
        (letter (n / 64 % 64))
        (letter (n % 64))
      ≡ ok (a ∷ b ∷ c ∷ [])
unfolding decode_chunk
chunk_three last a b c ha hb hc =
    let n = pack a b c in
    ground (
      arith,
      letter_lem (n / 262144 % 64),
      letter_lem (n / 4096 % 64),
      letter_lem (n / 64 % 64),
      letter_lem (n % 64),
    )

chunk_two :
    (a b : ℕ)
    → IsByte a
    → IsByte b
    → let n = pack a b 0 in
      decode_chunk true
        (letter (n / 262144 % 64))
        (letter (n / 4096 % 64))
        (letter (n / 64 % 64))
        b'='
      ≡ ok (a ∷ b ∷ [])
unfolding decode_chunk
chunk_two a b ha hb =
    let n = pack a b 0 in
    ground
      (arith, letter_lem (n / 262144 % 64), letter_lem (n / 4096 % 64), letter_lem (n / 64 % 64))

chunk_one :
    (a : ℕ)
    → IsByte a
    → let n = pack a 0 0 in
      decode_chunk true (letter (n / 262144 % 64)) (letter (n / 4096 % 64)) b'=' b'=' ≡ ok (a ∷ [])
unfolding decode_chunk
chunk_one a ha =
    let n = pack a 0 0 in ground (arith, letter_lem (n / 262144 % 64), letter_lem (n / 4096 % 64))

length-encode : (bs : Bytes) → length (encode bs) % 4 ≡ 0
unfolding encode
length-encode [] = refl
length-encode (a ∷ []) = refl
length-encode (a ∷ b ∷ []) = refl
length-encode (a ∷ b ∷ c ∷ rest) = omega (arith, length-encode rest)

decode_chunks-encode : (bs : Bytes) → All IsByte bs → decode_chunks (encode bs) ≡ ok bs
unfolding encode decode_chunks
decode_chunks-encode [] h = refl
decode_chunks-encode (a ∷ []) h = rw (chunk_one a h.0)
decode_chunks-encode (a ∷ b ∷ []) h = rw (chunk_two a b h.0 h.1.0)
decode_chunks-encode (a ∷ b ∷ c ∷ rest) h =
    rw (chunk_three _ a b c h.0 h.1.0 h.1.1.0) (rw (decode_chunks-encode rest h.1.1.1))

-- decode gives back the bytes that encode was given, for every list of bytes.
pub decode-encode : (bs : Bytes) → All IsByte bs → decode (encode bs) ≡ ok bs
unfolding decode
decode-encode bs h = rw (length-encode bs) (decode_chunks-encode bs h)
