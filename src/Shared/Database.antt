-- ===== src/Shared/Database.antt =====
-- crates/shared/src/database/mod.rs: `escape_string`, the connection string, and the extraction of
-- column values. What sqlx's `try_get` answers at each type is a parameter, a `Row`.
pub mod Escape
use cmangos_tbc.Base.{
  ℕ, Option, none, some, List, [], ◌∷◌, ◌++◌, if◌then◌else◌, ◌==◌, ◌^◌, Bool, true, false, length,
  ltb, get_or,
}
use cmangos_tbc.Base.Text.{Text, text, from_utf8_lossy}
use cmangos_tbc.Base.Int.{ℤ, pos, as_unsigned, int_eq}

-- `str::replace` of one ASCII character by a string.
unfoldable pub replace : ℕ → Text → Text → Text
replace c out [] = []
replace c out (b ∷ bs) = if b == c then out ++ replace c out bs else b ∷ replace c out bs

unfoldable pub escape_string : Text → Text
unfolding replace
escape_string input = replace 26 (b'\\' ∷ b'Z' ∷ []) (
    replace 13 (b'\\' ∷ b'r' ∷ []) (
      replace 10 (b'\\' ∷ b'n' ∷ []) (
        replace 0 (b'\\' ∷ b'0' ∷ []) (
          replace b'"' (b'\\' ∷ b'"' ∷ [])
            (replace 39 (b'\\' ∷ 39 ∷ []) (replace b'\\' (b'\\' ∷ b'\\' ∷ []) input))))))

-- `str::split` at a character: always one part at least.
unfoldable pub split : ℕ → Text → Text → List Text
split c part [] = part ∷ []
split c part (b ∷ bs) =
    let next = split c [] bs in
    let same = split c (part ++ (b ∷ [])) bs in if b == c then part ∷ next else same

-- "host;port;user;password;database" as a MySQL URL; `none` if a part is missing.
unfoldable pub convert_legacy_connection_string : Text → Option Text
unfolding split
convert_legacy_connection_string conn =
    let parts = split b';' [] conn in
    if ltb (length parts) 5
    then none
    else some (
        text "mysql://"
        ++ (get_or parts 2 []
            ++ (text ":"
                ++ (get_or parts 3 []
                    ++ (text "@"
                        ++ (get_or parts 0 []
                            ++ (text ":"
                                ++ (get_or parts 1 [] ++ (text "/" ++ get_or parts 4 [])))))))))

-- A column's value at each type that the code asks for, by its index.
pub record Row : Type 0 where
  pub try_string : ℕ → Option Text
  pub try_str : ℕ → Option Text
  pub try_bytes : ℕ → Option (List ℕ)
  pub try_i32 : ℕ → Option ℤ
  pub try_i64 : ℕ → Option ℤ
  pub try_f32 : ℕ → Option ℕ
  pub try_f64_as_f32 : ℕ → Option ℕ
  pub try_bool : ℕ → Option Bool

abbrev pub or_else {ℓ} : {A : Type ℓ} → Option A → Option A → Option A
or_else (some a) o = some a
or_else none o = o

abbrev pub unwrap_or {ℓ} : {A : Type ℓ} → Option A → A → A
unwrap_or (some a) d = a
unwrap_or none d = d

abbrev pub map_opt {ℓ κ} : {A : Type ℓ} {B : Type κ} → (A → B) → Option A → Option B
map_opt f none = none
map_opt f (some a) = some (f a)

unfoldable pub get_string : Row → ℕ → Text
get_string row i =
    unwrap_or
      (or_else (row.try_string i)
        (or_else (row.try_str i) (map_opt from_utf8_lossy (row.try_bytes i))))
      []

unfoldable pub get_u8 : Row → ℕ → ℕ
get_u8 row i = unwrap_or (map_opt (as_unsigned (2 ^ 8)) (row.try_i32 i)) 0

unfoldable pub get_u16 : Row → ℕ → ℕ
get_u16 row i = unwrap_or (map_opt (as_unsigned (2 ^ 16)) (row.try_i32 i)) 0

unfoldable pub get_u32 : Row → ℕ → ℕ
get_u32 row i =
    unwrap_or
      (or_else (map_opt (as_unsigned (2 ^ 32)) (row.try_i64 i))
        (map_opt (as_unsigned (2 ^ 32)) (row.try_i32 i)))
      0

unfoldable pub get_u64 : Row → ℕ → ℕ
get_u64 row i = unwrap_or (map_opt (as_unsigned (2 ^ 64)) (row.try_i64 i)) 0

unfoldable pub get_i32 : Row → ℕ → ℤ
get_i32 row i = unwrap_or (row.try_i32 i) (pos 0)

unfoldable pub get_i64 : Row → ℕ → ℤ
get_i64 row i = unwrap_or (row.try_i64 i) (pos 0)

-- An f32 is its bit pattern; the conversion of an f64 belongs to the parameter.
unfoldable pub get_f32 : Row → ℕ → ℕ
get_f32 row i = unwrap_or (or_else (row.try_f32 i) (row.try_f64_as_f32 i)) 0

unfoldable pub get_bool : Row → ℕ → Bool
unfolding int_eq
get_bool row i =
    unwrap_or
      (or_else (row.try_bool i)
        (map_opt (λ v. if int_eq v (pos 0) then false else true) (row.try_i32 i)))
      false
