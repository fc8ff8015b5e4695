-- ===== src/Base/Text.antt =====
-- Rust strings as their UTF-8 bytes: what the sources use of `String`, `char` and `str`.
use Prim.Native.Nat.{ℕ, zero, suc, ◌+◌, ◌-◌, ◌/◌, ◌%◌, ◌<◌}
use Prim.Native.Char.{code}
use Prim.Native.String.{String}
use mathlib.Core.Path.{◌≡◌, refl, ap}
use mathlib.Core.Bool.{Bool, ◌&&◌}
use mathlib.Core.Option.{Option, none, some}
use mathlib.Core.List.{List, [], ◌∷◌, ◌++◌}
use native.Mathlib.Omega.{arith}
use cmangos_tbc.Base.Tests.{ltb, leb, ◌==◌, if◌then◌else◌, All}
use cmangos_tbc.Base.Lists.{length, drop}

-- A Rust string: its bytes, `s.as_bytes()`.
abbrev pub Text : Type 0
Text = List ℕ

-- An ASCII literal.
abbrev pub text : String → Text
text String.[] = []
text (String.◌∷◌ c s) = code c ∷ text s

abbrev pub is_between : ℕ → ℕ → ℕ → Bool
is_between lo hi b = leb lo b && leb b hi

-- The first bytes of `bs` that lie in the ranges, one range for each byte: how many there are.
abbrev matched : List (ℕ × ℕ) → List ℕ → ℕ
matched [] bs = 0
matched (r ∷ rs) [] = 0
matched (r ∷ rs) (b ∷ bs) =
    let rest = suc (matched rs bs) in if is_between r.0 r.1 b then rest else 0

-- The ranges of the bytes that may follow a first byte in UTF-8; `none` if it starts no character.
abbrev followers : ℕ → Option (List (ℕ × ℕ))
followers b =
    if ltb b 0x80
    then some []
    else if is_between 0xC2 0xDF b
    then some ((0x80, 0xBF) ∷ [])
    else if b == 0xE0
    then some ((0xA0, 0xBF) ∷ (0x80, 0xBF) ∷ [])
    else if b == 0xED
    then some ((0x80, 0x9F) ∷ (0x80, 0xBF) ∷ [])
    else if is_between 0xE1 0xEF b
    then some ((0x80, 0xBF) ∷ (0x80, 0xBF) ∷ [])
    else if b == 0xF0
    then some ((0x90, 0xBF) ∷ (0x80, 0xBF) ∷ (0x80, 0xBF) ∷ [])
    else if b == 0xF4
    then some ((0x80, 0x8F) ∷ (0x80, 0xBF) ∷ (0x80, 0xBF) ∷ [])
    else if is_between 0xF1 0xF3 b
    then some ((0x80, 0xBF) ∷ (0x80, 0xBF) ∷ (0x80, 0xBF) ∷ [])
    else none

-- U+FFFD, which stands for each maximal part of an ill-formed sequence.
abbrev replacement : Text
replacement = 0xEF ∷ 0xBF ∷ 0xBD ∷ []

abbrev prefix_of : ℕ → List ℕ → List ℕ
prefix_of zero bs = []
prefix_of (suc n) [] = []
prefix_of (suc n) (b ∷ bs) = b ∷ prefix_of n bs

-- One character or one ill-formed part after the first byte `b`: what is put out, and the rest.
lossy_step : ℕ → List ℕ → Text × List ℕ
lossy_step b bs = elim (followers b) [
  | none ↦ (replacement, bs)
  | some rs ↦
      let n = matched rs bs in
      if n == length rs then (b ∷ prefix_of n bs, drop n bs) else (replacement, drop n bs)
]

lossy_loop : ℕ → List ℕ → Text
lossy_loop zero bs = []
lossy_loop (suc fuel) [] = []
lossy_loop (suc fuel) (b ∷ bs) = let (out, rest) = lossy_step b bs in out ++ lossy_loop fuel rest

-- `String::from_utf8_lossy`. Each round takes a byte at least, so the length is fuel enough.
unfoldable pub from_utf8_lossy : List ℕ → Text
unfolding lossy_loop lossy_step
from_utf8_lossy bs = lossy_loop (length bs) bs

-- A valid string: decoding its bytes changes nothing.
abbrev pub IsUtf8 : Text → Type 0
IsUtf8 s = from_utf8_lossy s ≡ s

abbrev pub IsAscii : Text → Type 0
IsAscii = All (λ b. b < 128)

lossy_step-ascii : (b : ℕ) (bs : List ℕ) → b < 128 → lossy_step b bs ≡ (b ∷ [], bs)
unfolding lossy_step
lossy_step-ascii b bs h = ground arith

lossy_loop-ascii : (s : Text) → IsAscii s → lossy_loop (length s) s ≡ s
unfolding lossy_loop
lossy_loop-ascii [] h = refl
lossy_loop-ascii (b ∷ bs) h =
    rw (lossy_step-ascii b bs h.0) (ap (λ t. b ∷ t) (lossy_loop-ascii bs h.1))

-- ASCII bytes are a valid string.
pub IsAscii-IsUtf8 : (s : Text) → IsAscii s → IsUtf8 s
unfolding from_utf8_lossy
IsAscii-IsUtf8 s h = lossy_loop-ascii s h

-- The UTF-8 bytes of the character `b as char`, for a byte `b`.
unfoldable pub latin1 : ℕ → Text
latin1 b = if ltb b 0x80 then b ∷ [] else (0xC0 + b / 64) ∷ (0x80 + b % 64) ∷ []

-- The string of a list of bytes, each read `as char`.
unfoldable pub from_chars : List ℕ → Text
unfolding latin1
from_chars [] = []
from_chars (b ∷ bs) = latin1 b ++ from_chars bs

-- `u8::to_ascii_uppercase`, which `char::to_ascii_uppercase` agrees with.
unfoldable pub to_ascii_uppercase : ℕ → ℕ
to_ascii_uppercase b = if is_between b'a' b'z' b then b - 32 else b
