-- ===== src/Prelude/Bytes/Utf8.antt =====
-- The test for UTF-8 of the standard library.
use Prim.Native.Nat.{ℕ, zero, suc}
use mathlib.Core.Path.{◌≡◌, refl}
use mathlib.Core.Bool.{Bool, true, false, ◌||◌}
use mathlib.Core.List.{[], ◌∷◌, ◌++◌}
use tally_vcs.Prelude.Tests.{ltb, ◌==◌, if◌then◌else◌, &&-eq-true}
use tally_vcs.Prelude.Lists.{all}
use tally_vcs.Prelude.Bytes.Basic.{Bytes}

-- `std::str::from_utf8(s).is_ok()`: the bytes that are still wanted, and the range of the next one.
pub data Utf8 : Type 0 where
  start : Utf8
  wants : ℕ → ℕ → ℕ → Utf8
  bad : Utf8

unfoldable pub utf8_lead : ℕ → Utf8
utf8_lead b =
    if ltb b 0x80
    then start
    else if ltb b 0xc2
    then bad
    else if ltb b 0xe0
    then wants 0 0x80 0xbf
    else if b == 0xe0
    then wants 1 0xa0 0xbf
    else if b == 0xed
    then wants 1 0x80 0x9f
    else if ltb b 0xf0
    then wants 1 0x80 0xbf
    else if b == 0xf0
    then wants 2 0x90 0xbf
    else if ltb b 0xf4
    then wants 2 0x80 0xbf
    else if b == 0xf4
    then wants 2 0x80 0x8f
    else bad

unfoldable pub utf8_step : Utf8 → ℕ → Utf8
utf8_step start b = utf8_lead b
utf8_step (wants n lo hi) b =
    if ltb b lo || ltb hi b then bad else elim n [ zero ↦ start | suc k ↦ wants k 0x80 0xbf ]
utf8_step bad b = bad

unfoldable pub utf8_run : Utf8 → Bytes → Utf8
utf8_run s [] = s
utf8_run s (b ∷ bs) = utf8_run (utf8_step s b) bs

abbrev pub is_start : Utf8 → Bool
is_start start = true
is_start _ = false

unfoldable pub is_utf8 : Bytes → Bool
is_utf8 s = is_start (utf8_run start s)

utf8_run-append : (s : Utf8) (a b : Bytes) → utf8_run s (a ++ b) ≡ utf8_run (utf8_run s a) b
unfolding utf8_run
utf8_run-append s [] b = refl
utf8_run-append s (x ∷ xs) b = utf8_run-append (utf8_step s x) xs b

is_start→ : (s : Utf8) → is_start s ≡ true → s ≡ start
is_start→ start h = refl
is_start→ (wants n lo hi) h = cc
is_start→ bad h = cc

-- Text joined to text is text.
pub is_utf8-append : (a b : Bytes) → is_utf8 a ≡ true → is_utf8 b ≡ true → is_utf8 (a ++ b) ≡ true
unfolding is_utf8
is_utf8-append a b h k = rw (utf8_run-append start a b, is_start→ _ h) k

-- ASCII is text.
pub is_utf8_ascii : (s : Bytes) → all (λ b. ltb b 0x80) s ≡ true → is_utf8 s ≡ true
unfolding is_utf8 utf8_run utf8_step utf8_lead
is_utf8_ascii [] h = refl
is_utf8_ascii (b ∷ bs) h =
    let (p, q) = &&-eq-true (ltb b 0x80) (all (λ x. ltb x 0x80) bs) h in
    rw (p, if◌then◌else◌) (is_utf8_ascii bs q)
