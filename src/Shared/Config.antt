-- ===== src/Shared/Config.antt =====
-- crates/shared/src/config/mod.rs: the INI file, its overrides by the environment, and the getters.
-- The file system and the environment are arguments.
use cmangos_tbc.Base.{
  ℕ, ◌+◌, ◌-◌, Option, none, some, List, [], ◌∷◌, ◌++◌, if◌then◌else◌, ◌==◌, ◌&&◌, ◌||◌, Bool, true,
  false, length, take, drop, bytes_eq, map, reverse, leb,
}
use cmangos_tbc.Base.Text.{Text, text, is_between}
use cmangos_tbc.Base.Space.{trim}
use cmangos_tbc.Base.Int.{ℤ, parse_i32}

pub record Config : Type 0 where
  pub values : List (Text × Text)
  pub filename : Text
  pub env_prefix : Text

unfoldable pub new : Config
new = record { values = []; filename = []; env_prefix = [] }

-- `HashMap::insert` and `get`.
unfoldable pub insert : Text → Text → List (Text × Text) → List (Text × Text)
insert key value [] = (key, value) ∷ []
insert key value ((k, v) ∷ m) =
    if bytes_eq k key then (key, value) ∷ m else (k, v) ∷ insert key value m

unfoldable pub get : Text → List (Text × Text) → Option Text
get key [] = none
get key ((k, v) ∷ m) = if bytes_eq k key then some v else get key m

-- `str::lines` before the removal of a carriage return: the parts between line feeds, without an
-- empty last one.
lines_loop : Text → Text → List Text
lines_loop [] [] = []
lines_loop (c ∷ line) [] = (c ∷ line) ∷ []
lines_loop line (b ∷ bs) =
    let next = lines_loop [] bs in
    let same = lines_loop (line ++ (b ∷ [])) bs in if b == 10 then line ∷ next else same

-- `trimmed.find('=')`: the parts around the first one.
unfoldable pub split_at_eq : Text → Option (Text × Text)
split_at_eq [] = none
split_at_eq (b ∷ bs) =
    if b == b'='
    then some ([], bs)
    else elim (split_at_eq bs) [ none ↦ none | some (l, r) ↦ some (b ∷ l, r) ]

starts_with : ℕ → Text → Bool
starts_with c [] = false
starts_with c (b ∷ bs) = b == c

-- A value in double quotes loses them. A lone quote is both first and last: the slice from 1 to 0
-- panics, which is `none`.
unfoldable pub strip_quotes : Text → Option Text
unfolding starts_with
strip_quotes value =
    if starts_with b'"' value && starts_with b'"' (reverse value)
    then (if leb 2 (length value) then some (take (length value - 2) (drop 1 value)) else none)
    else some value

-- One line: the values after it; `none` is a panic.
unfoldable pub read_line : Text → List (Text × Text) → Option (List (Text × Text))
unfolding starts_with split_at_eq strip_quotes insert
read_line line values =
    let trimmed = trim line in
    if length trimmed == 0 || (starts_with b'#' trimmed || starts_with b';' trimmed)
    then some values
    else if starts_with b'[' trimmed
    then some values
    else elim (split_at_eq trimmed) [
      | none ↦ some values
      | some (l, r) ↦ elim (strip_quotes (trim r)) [
        | none ↦ none
        | some value ↦ some (insert (trim l) value values)
      ]
    ]

read_lines : List Text → List (Text × Text) → Option (List (Text × Text))
read_lines [] values = some values
read_lines (line ∷ rest) values = elim (read_line line values) [
  | none ↦ none
  | some values' ↦ read_lines rest values'
]

-- The file's content, or `none` where it cannot be read; the flag is the result.
unfoldable pub reload : (Text → Option Text) → Config → Option (Config × Bool)
unfolding read_lines lines_loop
reload files config = elim (files config.filename) [
  | none ↦ some (record config { values = [] }, false)
  | some content ↦ elim (read_lines (lines_loop [] content) []) [
    | none ↦ none
    | some values ↦ some (record config { values = values }, true)
  ]
]

unfoldable pub set_source : (Text → Option Text) → Text → Text → Config → Option (Config × Bool)
unfolding reload
set_source files filename env_prefix config =
    reload files (record config { filename = filename; env_prefix = env_prefix })

-- `key.replace('.', "_")`
dots_to_underscores : Text → Text
dots_to_underscores = map (λ b. if b == b'.' then b'_' else b)

-- `env` is `std::env::var`.
module _ (env : Text → Option Text) (config : Config) where
  unfoldable pub get_env_or_config : Text → Option Text
  unfolding dots_to_underscores
  get_env_or_config key =
      if length config.env_prefix == 0
      then get key config.values
      else elim (env (config.env_prefix ++ dots_to_underscores key)) [
        | some val ↦ some val
        | none ↦ get key config.values
      ]

  unfoldable pub is_set : Text → Bool
  is_set key = elim (get_env_or_config key) [ none ↦ false | some _ ↦ true ]

  unfoldable pub get_string_default : Text → Text → Text
  get_string_default key default = elim (get_env_or_config key) [ none ↦ default | some val ↦ val ]

  unfoldable pub get_string : Text → Text
  unfolding get_string_default
  get_string key = get_string_default key []

  -- `to_lowercase` reaches one of the three words only from ASCII letters.
  unfoldable pub get_bool_default : Text → Bool → Bool
  get_bool_default key default = elim (get_env_or_config key) [
    | none ↦ default
    | some val ↦
        let lower = map (λ b. if is_between b'A' b'Z' b then b + 32 else b) val in
        bytes_eq lower (text "1") || (bytes_eq lower (text "true") || bytes_eq lower (text "yes"))
  ]

  unfoldable pub get_int_default : Text → ℤ → ℤ
  get_int_default key default = elim (get_env_or_config key) [
    | none ↦ default
    | some val ↦ elim (parse_i32 val) [ none ↦ default | some z ↦ z ]
  ]
