-- ===== src/Shared/Database/Escape.antt =====
-- `escape_string` against MySQL's string literals: what is escaped is read back, and the literal
-- ends where the statement's text says.
use cmangos_tbc.Base.{
  ℕ, ◌≡◌, ◌≢◌, refl, Option, none, some, [], ◌∷◌, ◌++◌, if◌then◌else◌, ◌==◌, arith, append_assoc,
}
use cmangos_tbc.Base.Text.{Text}
use cmangos_tbc.Shared.Database.{escape_string}

-- One character of the input, escaped.
abbrev pub escape_char : ℕ → Text
escape_char b =
    if b == b'\\'
    then b'\\' ∷ b'\\' ∷ []
    else if b == 39
    then b'\\' ∷ 39 ∷ []
    else if b == b'"'
    then b'\\' ∷ b'"' ∷ []
    else if b == 0
    then b'\\' ∷ b'0' ∷ []
    else if b == 10
    then b'\\' ∷ b'n' ∷ []
    else if b == 13
    then b'\\' ∷ b'r' ∷ []
    else if b == 26
    then b'\\' ∷ b'Z' ∷ []
    else b ∷ []

-- The character that `\c` stands for in a literal; `\%` and `\_` keep the backslash.
abbrev pub unescape : ℕ → Text
unescape c =
    if c == b'0'
    then 0 ∷ []
    else if c == b'b'
    then 8 ∷ []
    else if c == b'n'
    then 10 ∷ []
    else if c == b'r'
    then 13 ∷ []
    else if c == b't'
    then 9 ∷ []
    else if c == b'Z'
    then 26 ∷ []
    else if c == b'%'
    then b'\\' ∷ b'%' ∷ []
    else if c == b'_'
    then b'\\' ∷ b'_' ∷ []
    else c ∷ []

abbrev prepend : Text → Option (Text × Text) → Option (Text × Text)
prepend out none = none
prepend out (some (s, rest)) = some (out ++ s, rest)

-- A literal in single quotes, as MySQL reads it where backslashes escape (not in the SQL mode
-- NO_BACKSLASH_ESCAPES, and not as PostgreSQL and SQLite do), read from behind its first quote: its value and the text behind it.
pub read_mysql_literal : Text → Option (Text × Text)
read_mysql_literal [] = none
read_mysql_literal (b ∷ []) = if b == 39 then some ([], []) else none
read_mysql_literal (b ∷ c ∷ bs) =
    let rest = read_mysql_literal bs in
    let rest' = read_mysql_literal (c ∷ bs) in
    if b == b'\\'
    then prepend (unescape c) rest
    else if b == 39
    then (if c == 39 then prepend (39 ∷ []) rest else some ([], c ∷ bs))
    else prepend (b ∷ []) rest'

-- The seven replacements one after the other escape each character once.
escape_string-cons :
    (b : ℕ) (bs : Text) → escape_string (b ∷ bs) ≡ escape_char b ++ escape_string bs
unfolding escape_string
escape_string-cons b bs = ground arith

-- What may follow a literal: the end or anything but another quote.
abbrev pub NoQuote : Text → Type 0
NoQuote [] = Unit
NoQuote (c ∷ _) = c ≢ 39

read_escaped :
    (b : ℕ) (rest : Text) {s after : Text}
    → read_mysql_literal rest ≡ some (s, after)
    → read_mysql_literal (escape_char b ++ rest) ≡ some (b ∷ s, after)
unfolding read_mysql_literal
read_escaped b [] h = cc
read_escaped b (c ∷ rest) h = ground arith

-- For a MySQL server on which a backslash escapes, with UTF-8 as the character set: a literal made of an escaped string has that string
-- for its value and ends at the quote that the statement puts behind it, so that no input can break
-- out, unless another quote follows there.
pub read_mysql_literal-escape_string :
    (input rest : Text)
    → NoQuote rest
    → read_mysql_literal (escape_string input ++ (39 ∷ rest)) ≡ some (input, rest)
read_mysql_literal-escape_string [] [] h = unfold escape_string read_mysql_literal in refl
read_mysql_literal-escape_string [] (c ∷ rest) h =
    unfold escape_string read_mysql_literal in ground arith
read_mysql_literal-escape_string (b ∷ bs) rest h =
    rw (escape_string-cons, append_assoc)
      (read_escaped b _ (read_mysql_literal-escape_string bs rest h))
