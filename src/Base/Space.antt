-- ===== src/Base/Space.antt =====
-- Characters and white space of a Rust string: `chars`, `trim`, `split_whitespace`, `parse::<u32>`.
use cmangos_tbc.Base.Text.{Text, is_between}
use cmangos_tbc.Base.Tests.{ltb, leb, ◌==◌, if◌then◌else◌}
use cmangos_tbc.Base.Lists.{length, drop, take}
use Prim.Native.Nat.{ℕ, zero, suc, ◌+◌, ◌-◌, ◌*◌, ◌^◌}
use mathlib.Core.Bool.{Bool, false, ◌&&◌, ◌||◌}
use mathlib.Core.Option.{Option, none, some}
use mathlib.Core.List.{List, [], ◌∷◌, ◌++◌, reverse}

-- How many bytes a character takes, by its first byte.
abbrev char_width : ℕ → ℕ
char_width b = if ltb b 0x80 then 1 else if ltb b 0xE0 then 2 else if ltb b 0xF0 then 3 else 4

chars_loop : ℕ → Text → List Text
chars_loop zero s = []
chars_loop (suc fuel) [] = []
chars_loop (suc fuel) (b ∷ bs) =
    let n = char_width b in take n (b ∷ bs) ∷ chars_loop fuel (drop n (b ∷ bs))

-- `str::chars`, each character as its bytes. A character has a byte at least: the fuel is enough.
unfoldable pub chars : Text → List Text
unfolding chars_loop
chars s = chars_loop (length s) s

-- The string of a list of characters.
unfoldable pub concat : List Text → Text
concat [] = []
concat (c ∷ cs) = c ++ concat cs

-- `char::is_whitespace`: the property White_Space of Unicode.
unfoldable pub is_whitespace : Text → Bool
is_whitespace (a ∷ []) = is_between 0x09 0x0D a || a == 0x20
is_whitespace (a ∷ b ∷ []) = a == 0xC2 && (b == 0x85 || b == 0xA0)
is_whitespace (a ∷ b ∷ c ∷ []) =
    (a == 0xE1 && (b == 0x9A && c == 0x80))
    || (a == 0xE2
        && ((b == 0x80 && (is_between 0x80 0x8A c || (c == 0xA8 || (c == 0xA9 || c == 0xAF))))
            || (b == 0x81 && c == 0x9F)))
    || (a == 0xE3 && (b == 0x80 && c == 0x80))
is_whitespace _ = false

skip_space : List Text → List Text
skip_space [] = []
skip_space (c ∷ cs) = if is_whitespace c then skip_space cs else c ∷ cs

-- `str::trim`
unfoldable pub trim : Text → Text
unfolding skip_space is_whitespace chars concat
trim s = concat (reverse (skip_space (reverse (skip_space (chars s)))))

split_loop : Text → List Text → List Text
split_loop [] [] = []
split_loop (b ∷ w) [] = (b ∷ w) ∷ []
split_loop w (c ∷ cs) =
    let next = split_loop [] cs in
    let more = split_loop (w ++ c) cs in
    if is_whitespace c then (if leb 1 (length w) then w ∷ next else next) else more

-- `str::split_whitespace`: the words between runs of white space.
unfoldable pub split_whitespace : Text → List Text
unfolding split_loop is_whitespace chars
split_whitespace s = split_loop [] (chars s)

digits_value : ℕ → Text → Option ℕ
digits_value acc [] = some acc
digits_value acc (b ∷ bs) =
    let rest = digits_value (acc * 10 + (b - b'0')) bs in
    if is_between b'0' b'9' b && ltb (acc * 10 + (b - b'0')) (2 ^ 32) then rest else none

-- `str::parse::<u32>`: an optional `+`, then digits, and no overflow at any digit.
unfoldable pub parse_u32 : Text → Option ℕ
unfolding digits_value
parse_u32 [] = none
parse_u32 (b ∷ []) = digits_value 0 (b ∷ [])
parse_u32 (b ∷ c ∷ bs) = if b == b'+' then digits_value 0 (c ∷ bs) else digits_value 0 (b ∷ c ∷ bs)
