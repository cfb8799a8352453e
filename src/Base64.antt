-- ===== src/Base64.antt =====
-- src/b64.rs: RFC 4648 base64 with padding. A byte is a number below 256; a `u32` is written with
-- arithmetic, since no shift here reaches bit 32: `(a << 16) | (b << 8) | c` of bytes is
-- `a * 65536 + b * 256 + c`, `(n >> k) & 63` is `n / 2 ^ k % 64`.
pub mod RoundTrip
use tally_vcs.Prelude.{
  ℕ, zero, suc, ◌+◌, ◌-◌, ◌*◌, ◌/◌, ◌%◌, Bool, true, false, ◌&&◌, ◌||◌, not, List, [], ◌∷◌, ◌++◌,
  Option, none, some, length, get_elem?, ltb, leb, ◌==◌, if◌then◌else◌, Result, ok, err, Error,
  invalid, ◌>>=◌, ◌>>◌, require,
}
use tally_vcs.Prelude.Bytes.{Bytes, bytes}

abbrev pub alphabet : Bytes
alphabet = bytes "ABCDEFGHIJKLMNOPQRSTUVWXYZabcdefghijklmnopqrstuvwxyz0123456789+/"

-- `ALPHABET[i]`; every index that the code makes is below 64.
unfoldable pub letter : ℕ → ℕ
letter i = elim (get_elem? alphabet i) [ some c ↦ c | none ↦ 0 ]

-- `n`, the 24 bits of a chunk that is filled up with zeros.
abbrev pub pack : ℕ → ℕ → ℕ → ℕ
pack a b c = a * 65536 + b * 256 + c

-- The loop over `input.chunks(3)`.
unfoldable pub encode : Bytes → Bytes
encode [] = []
encode (a ∷ []) =
    let n = pack a 0 0 in letter (n / 262144 % 64) ∷ letter (n / 4096 % 64) ∷ b'=' ∷ b'=' ∷ []
encode (a ∷ b ∷ []) =
    let n = pack a b 0 in
    letter (n / 262144 % 64) ∷ letter (n / 4096 % 64) ∷ letter (n / 64 % 64) ∷ b'=' ∷ []
encode (a ∷ b ∷ c ∷ rest) =
    let n = pack a b c in
    letter (n / 262144 % 64)
    ∷ letter (n / 4096 % 64)
    ∷ letter (n / 64 % 64)
    ∷ letter (n % 64)
    ∷ encode rest

unfoldable pub value_of : ℕ → Result ℕ
value_of c =
    if leb b'A' c && leb c b'Z'
    then ok (c - b'A')
    else if leb b'a' c && leb c b'z'
    then ok (c - b'a' + 26)
    else if leb b'0' c && leb c b'9'
    then ok (c - b'0' + 52)
    else if c == b'+'
    then ok 62
    else if c == b'/'
    then ok 63
    else err invalid

-- `chunk.iter().rev().take_while(|&&c| c == b'=').count()` of a chunk of four.
unfoldable pub padding : ℕ → ℕ → ℕ → ℕ → ℕ
padding c₀ c₁ c₂ c₃ =
    if c₃ == b'='
    then (if c₂ == b'=' then (if c₁ == b'=' then (if c₀ == b'=' then 4 else 3) else 2) else 1)
    else 0

-- `out.push((n >> 16) as u8)` and the two that follow it.
unfoldable pub unpack : ℕ → ℕ → Bytes
unpack pad n =
    (n / 65536 % 256 ∷ [])
    ++ ((if ltb pad 2 then n / 256 % 256 ∷ [] else []) ++ (if ltb pad 1 then n % 256 ∷ [] else []))

-- One round of the loop over `bytes.chunks(4)`; `last` says that the chunk is the last one.
unfoldable pub decode_chunk : Bool → ℕ → ℕ → ℕ → ℕ → Result Bytes
unfolding padding unpack
decode_chunk last c₀ c₁ c₂ c₃ =
    let pad = padding c₀ c₁ c₂ c₃ in
    if ltb 2 pad || (ltb 0 pad && not last) then err invalid else do
      v₀ ← value_of c₀
      v₁ ← value_of c₁
      v₂ ← if leb 2 pad then ok 0 else value_of c₂
      v₃ ← if leb 1 pad then ok 0 else value_of c₃
      ok (unpack pad (v₀ * 262144 + v₁ * 4096 + v₂ * 64 + v₃))

abbrev is_nil : Bytes → Bool
is_nil [] = true
is_nil (x ∷ xs) = false

-- A tail of fewer than four bytes is excluded by the test on the length in `decode`.
unfoldable pub decode_chunks : Bytes → Result Bytes
decode_chunks (c₀ ∷ c₁ ∷ c₂ ∷ c₃ ∷ rest) = do
  out ← decode_chunk (is_nil rest) c₀ c₁ c₂ c₃
  more ← decode_chunks rest
  ok (out ++ more)
decode_chunks _ = ok []

unfoldable pub decode : Bytes → Result Bytes
unfolding decode_chunks
decode input = if length input % 4 == 0 then decode_chunks input else err invalid
