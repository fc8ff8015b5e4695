-- ===== src/Realmd/ConnectionTracker.antt =====
-- crates/realmd/src/main.rs: `ConnectionTracker`, the limits on connections.
-- An address is its text. The HashMap is an association list with each key once.
pub mod Active
use cmangos_tbc.Base.{
  ℕ, ◌+◌, ◌-◌, ◌%◌, ◌^◌, Bool, true, false, ◌&&◌, Option, none, some, List, [], ◌∷◌, if◌then◌else◌,
  ltb, leb, bytes_eq,
}
use cmangos_tbc.Base.Text.{Text}

pub record ConnectionTracker : Type 0 where
  pub per_ip : List (Text × ℕ)
  pub total : ℕ
  pub max_per_ip : ℕ
  pub max_total : ℕ

unfoldable pub new : (max_per_ip max_total : ℕ) → ConnectionTracker
new max_per_ip max_total = record {
  per_ip = [];
  total = 0;
  max_per_ip = max_per_ip;
  max_total = max_total;
}

-- The entry of an address; 0 is what `or_insert(0)` gives a new one.
unfoldable pub count_of : Text → List (Text × ℕ) → ℕ
count_of ip [] = 0
count_of ip ((k, n) ∷ m) = if bytes_eq ip k then n else count_of ip m

unfoldable pub set_count : Text → ℕ → List (Text × ℕ) → List (Text × ℕ)
set_count ip n [] = (ip, n) ∷ []
set_count ip n ((k, n') ∷ m) = if bytes_eq ip k then (k, n) ∷ m else (k, n') ∷ set_count ip n m

unfoldable pub erase : Text → List (Text × ℕ) → List (Text × ℕ)
erase ip [] = []
erase ip ((k, n) ∷ m) = if bytes_eq ip k then erase ip m else (k, n) ∷ erase ip m

unfoldable pub is_counted : Text → List (Text × ℕ) → Bool
is_counted ip [] = false
is_counted ip ((k, n) ∷ m) = if bytes_eq ip k then true else is_counted ip m

-- The part of `try_add` for a limit per address.
unfoldable pub add_limited : Text → ConnectionTracker → ConnectionTracker × Bool
unfolding count_of set_count
add_limited ip t =
    if leb t.max_per_ip (count_of ip t.per_ip)
    then (record t { per_ip = set_count ip (count_of ip t.per_ip) t.per_ip }, false)
    else (
      record t {
        per_ip = set_count ip (count_of ip t.per_ip + 1) t.per_ip;
        total = (t.total + 1) % 2 ^ 32;
      },
      true,
    )

-- The tracker, and whether the connection is registered.
unfoldable pub try_add : Text → ConnectionTracker → ConnectionTracker × Bool
unfolding add_limited
try_add ip t =
    if ltb 0 t.max_total && leb t.max_total t.total
    then (t, false)
    else if ltb 0 t.max_per_ip
    then add_limited ip t
    else (record t { total = (t.total + 1) % 2 ^ 32 }, true)

unfoldable pub remove : Text → ConnectionTracker → ConnectionTracker
unfolding count_of set_count erase is_counted
remove ip t =
    let per_ip' =
      if is_counted ip t.per_ip
      then (if leb (count_of ip t.per_ip) 1
          then erase ip t.per_ip
          else set_count ip (count_of ip t.per_ip - 1) t.per_ip)
      else t.per_ip in
    record t { per_ip = per_ip'; total = t.total - 1 }
