-- ===== src/Ident/Hex.antt =====
-- `hex`, `is_hex64` and `sha3_hex` of src/ident.rs. SHA3-256 is a parameter.
use tally_vcs.Prelude.{
  ℕ, ◌+◌, ◌-◌, ◌/◌, ◌%◌, Bool, true, ◌&&◌, ◌||◌, [], ◌∷◌, ◌≡◌, refl, arith, length, all, All, ltb,
  leb, ◌==◌, if◌then◌else◌,
}
use tally_vcs.Prelude.Bytes.{Bytes, IsByte}

-- The `sha3` crate: a digest of 32 bytes.
pub record Sha3 : Type 0 where
  pub digest : Bytes → Bytes
  pub length-digest : (b : Bytes) → length (digest b) ≡ 32
  pub digest-IsByte : (b : Bytes) → All IsByte (digest b)

unfoldable pub hex_digit : ℕ → ℕ
hex_digit d = if ltb d 10 then b'0' + d else b'a' + (d - 10)

-- `format!("{b:02x}")` of each byte.
unfoldable pub hex : Bytes → Bytes
hex [] = []
hex (b ∷ bs) = hex_digit (b / 16) ∷ hex_digit (b % 16) ∷ hex bs

unfoldable pub is_hex_char : ℕ → Bool
is_hex_char b = (leb b'0' b && leb b b'9') || (leb b'a' b && leb b b'f')

unfoldable pub is_hex64 : Bytes → Bool
is_hex64 s = length s == 64 && all is_hex_char s

unfoldable pub sha3_hex : ⦃h : Sha3⦄ → Bytes → Bytes
sha3_hex ⦃h⦄ b = hex (h.digest b)

length-hex : (bs : Bytes) → length (hex bs) ≡ length bs + length bs
unfolding hex
length-hex [] = refl
length-hex (b ∷ bs) = omega (arith, length-hex bs)

all-hex : (bs : Bytes) → All IsByte bs → all is_hex_char (hex bs) ≡ true
unfolding hex hex_digit is_hex_char
all-hex [] h = refl
all-hex (b ∷ bs) h = ground (arith, all-hex bs)

-- The rendering of a digest is always a valid 64-character name.
pub sha3_hex-is_hex64 : ⦃h : Sha3⦄ (b : Bytes) → is_hex64 (sha3_hex b) ≡ true
unfolding sha3_hex is_hex64
sha3_hex-is_hex64 ⦃h⦄ b =
    ground
      (arith, length-hex (h.digest b), h.length-digest b, all-hex (h.digest b) (h.digest-IsByte b))
