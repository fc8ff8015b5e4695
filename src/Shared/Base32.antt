-- ===== src/Shared/Base32.antt =====
-- crates/shared/src/auth/base32.rs: what is done to a key before data_encoding::BASE32 decodes it.
use cmangos_tbc.Base.{
  ℕ, ◌+◌, ◌-◌, ◌%◌, ◌≡◌, refl, ap, Option, none, some, List, [], ◌∷◌, ◌++◌, if◌then◌else◌, ◌==◌,
  ◌&&◌, ◌||◌, not, Bool, true, false, length, take, drop, min, replicate, bytes_eq, arith,
  length-append, All-append, append_assoc, ◌<◌, ◌≤◌, length-replicate,
}
use cmangos_tbc.Base.Text.{Text, IsAscii, is_between, to_ascii_uppercase}
use cmangos_tbc.Base.Space.{chars, is_whitespace}
use cmangos_tbc.Base.Int.{ℤ, pos, negsuc}

-- The `filter`: white space and hyphens go.
unfoldable pub is_kept : Text → Bool
is_kept c = not (is_whitespace c) && not (bytes_eq c (b'-' ∷ []))

-- The `map`: common typos, then upper case for ASCII.
unfoldable pub fix_typo : Text → Text
fix_typo [] = []
fix_typo (b ∷ []) =
    (if b == b'0'
      then b'O'
      else if b == b'1'
      then b'L'
      else if b == b'8'
      then b'B'
      else to_ascii_uppercase b)
    ∷ []
fix_typo c = c

unfoldable pub clean : List Text → Text
unfolding is_kept fix_typo
clean [] = []
clean (c ∷ cs) = (if is_kept c then fix_typo c else []) ++ clean cs

-- Padding to a multiple of 8.
unfoldable pub pad : Text → Text
pad cleaned =
    if length cleaned % 8 == 0 then cleaned else cleaned ++ replicate (8 - length cleaned % 8) b'='

-- `decode` stands for `data_encoding::BASE32.decode`; `none` is its error.
module _ (decode : List ℕ → Option (List ℕ)) where
  unfoldable pub base32_decode : Text → Option (List ℕ)
  unfolding chars clean pad
  base32_decode input = decode (pad (clean (chars input)))

  -- The bytes written and the result: their number, or -1 on an error.
  unfoldable pub base32_decode_into : Text → List ℕ → List ℕ × ℤ
  base32_decode_into input output = elim (base32_decode input) [
    | none ↦ (output, negsuc 0)
    | some decoded ↦
        let copy_len = min (length decoded) (length output) in
        (take copy_len decoded ++ drop copy_len output, pos copy_len)
  ]

-- The decoder is only handed texts whose length is a multiple of 8, at most seven `=` longer than
-- what was cleaned.
pub length-pad :
    (cleaned : Text) → (length (pad cleaned) % 8 ≡ 0) × (length (pad cleaned) ≤ length cleaned + 7)
unfolding pad
length-pad cleaned = ground (
  arith,
  length-append {0} cleaned (replicate (8 - length cleaned % 8) b'='),
  length-replicate {0} (8 - length cleaned % 8) (let c : ℕ = b'=' in c),
)

singles : List ℕ → List Text
singles [] = []
singles (b ∷ bs) = (b ∷ []) ∷ singles bs

chars-ascii : (s : Text) → IsAscii s → chars s ≡ singles s
unfolding chars singles
chars-ascii [] h = refl
chars-ascii (b ∷ bs) h = ground (arith, chars-ascii bs h.1)

singles-append : (xs ys : List ℕ) → singles (xs ++ ys) ≡ singles xs ++ singles ys
unfolding singles
singles-append [] ys = refl
singles-append (x ∷ xs) ys = ap (λ t. (x ∷ []) ∷ t) (singles-append xs ys)

clean-append : (xs ys : List Text) → clean (xs ++ ys) ≡ clean xs ++ clean ys
unfolding clean
clean-append [] ys = refl
clean-append (x ∷ xs) ys = simp (clean-append xs ys, append_assoc)

is_kept_separator :
    (sep : ℕ)
    → (is_between 0x09 0x0D sep || (sep == 0x20 || sep == b'-')) ≡ true
    → is_kept (sep ∷ []) ≡ false
unfolding is_kept is_whitespace bytes_eq
is_kept_separator sep h = ground arith

clean-dropped : (c : Text) (cs : List Text) → is_kept c ≡ false → clean (c ∷ cs) ≡ clean cs
unfolding clean
clean-dropped c cs h = rw h

singles-cons : (b : ℕ) (bs : Text) → singles (b ∷ bs) ≡ (b ∷ []) ∷ singles bs
unfolding singles
singles-cons b bs = refl

-- A blank, a tab, a line end or a hyphen anywhere in an ASCII key does not change what is decoded.
pub base32_decode_separator :
    (decode : List ℕ → Option (List ℕ)) (s t : Text) (sep : ℕ)
    → IsAscii s
    → IsAscii t
    → (is_between 0x09 0x0D sep || (sep == 0x20 || sep == b'-')) ≡ true
    → base32_decode decode (s ++ (sep ∷ t)) ≡ base32_decode decode (s ++ t)
unfolding base32_decode
base32_decode_separator decode s t sep hs ht h =
    let dropped : is_kept (sep ∷ []) ≡ false = is_kept_separator sep h in
    let low : sep < 128 = ground arith in
    rw (
      chars-ascii (s ++ (sep ∷ t)) (All-append (λ b. b < 128) s (sep ∷ t) hs (low, ht)),
      chars-ascii (s ++ t) (All-append (λ b. b < 128) s t hs ht),
      singles-append,
      singles-append,
      clean-append,
      clean-append,
      singles-cons sep t,
      clean-dropped (sep ∷ []) (singles t) dropped,
    )
