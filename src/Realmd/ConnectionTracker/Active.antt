-- ===== src/Realmd/ConnectionTracker/Active.antt =====
-- The tracker counts the connections that are active.
use cmangos_tbc.Base.{
  ℕ, suc, ◌+◌, ◌-◌, ◌^◌, ◌&&◌, ltb, leb, ◌<◌, ◌≡◌, ◌↔◌, ◌⊎◌, inl, inr, refl, true, false, List, [],
  ◌∷◌, if◌then◌else◌, length, arith, Bool-cases, bytes_eq, bytes_eq→eq, bytes_eq_refl,
}
use cmangos_tbc.Base.Text.{Text}
use cmangos_tbc.Realmd.ConnectionTracker.{
  ConnectionTracker, new, count_of, set_count, erase, is_counted, add_limited, try_add, remove,
}

-- How many of the connections come from an address.
unfoldable pub occurrences : Text → List Text → ℕ
occurrences ip [] = 0
occurrences ip (a ∷ active) =
    if bytes_eq ip a then suc (occurrences ip active) else occurrences ip active

-- One connection from the address is closed.
unfoldable pub close : Text → List Text → List Text
close ip [] = []
close ip (a ∷ active) = if bytes_eq ip a then active else a ∷ close ip active

count_of-set_count :
    (j i : Text) (n : ℕ) (m : List (Text × ℕ))
    → count_of j (set_count i n m) ≡ (if bytes_eq j i then n else count_of j m)
unfolding count_of set_count
count_of-set_count j i n [] = refl
count_of-set_count j i n ((k, n') ∷ m) = ground (
  arith,
  bytes_eq→eq i k,
  bytes_eq→eq j i,
  bytes_eq→eq j k,
  bytes_eq_refl i,
  count_of-set_count j i n m,
)

count_of-erase :
    (j i : Text) (m : List (Text × ℕ))
    → count_of j (erase i m) ≡ (if bytes_eq j i then 0 else count_of j m)
unfolding count_of erase
count_of-erase j i [] = ground arith
count_of-erase j i ((k, n) ∷ m) = ground (
  arith,
  bytes_eq→eq i k,
  bytes_eq→eq j i,
  bytes_eq→eq j k,
  bytes_eq_refl i,
  count_of-erase j i m,
)

count_of_absent : (i : Text) (m : List (Text × ℕ)) → is_counted i m ≡ false → count_of i m ≡ 0
unfolding count_of is_counted
count_of_absent i [] h = refl
count_of_absent i ((k, n) ∷ m) h = ground (arith, count_of_absent i m)

occurrences-close :
    (j i : Text) (active : List Text)
    → 0 < occurrences i active
    → (occurrences j (close i active)
        ≡ (if bytes_eq j i then occurrences j active - 1 else occurrences j active))
      × (length (close i active) + 1 ≡ length active)
unfolding occurrences close
occurrences-close j i [] h = absurd (omega arith)
occurrences-close j i (a ∷ active) h = ground (
  arith,
  bytes_eq→eq i a,
  bytes_eq→eq j i,
  bytes_eq→eq j a,
  bytes_eq_refl i,
  bytes_eq_refl j,
  occurrences-close j i active,
)

-- The total is the number of the active connections, and where there is a limit per address, the
-- count of each address is the number of its connections.
pub record Represents (t : ConnectionTracker) (active : List Text) : Type 0 where
  pub total_counts : t.total ≡ length active
  pub per_ip_counts : 0 < t.max_per_ip → (ip : Text) → count_of ip t.per_ip ≡ occurrences ip active

pub new-Represents : (max_per_ip max_total : ℕ) → Represents (new max_per_ip max_total) []
unfolding new count_of occurrences
new-Represents max_per_ip max_total = record { total_counts = refl; per_ip_counts = λ h ip. refl }

-- Whether the limits leave room; 0 is no limit.
abbrev pub HasRoom : ConnectionTracker → Text → List Text → Type 0
HasRoom t ip active =
    ((t.max_total ≡ 0) ⊎ (length active < t.max_total))
    × ((t.max_per_ip ≡ 0) ⊎ (occurrences ip active < t.max_per_ip))

limited_exact :
    (t : ConnectionTracker) (ip : Text) (active : List Text)
    → Represents t active
    → length active + 1 < 2 ^ 32
    → (t.max_total ≡ 0) ⊎ (length active < t.max_total)
    → 0 < t.max_per_ip
    → let (t', added) = add_limited ip t in
      ((added ≡ true) ↔ HasRoom t ip active) × Represents t' (if added then ip ∷ active else active)
unfolding add_limited occurrences
limited_exact t ip active r small free limited =
    elim (Bool-cases (leb t.max_per_ip (count_of ip t.per_ip))) [
      | inl full ↦ rw full (
        (λ h. cc, λ room. absurd (ground (arith, r.per_ip_counts limited ip, room.1))),
        record {
          total_counts = r.total_counts;
          per_ip_counts = λ h j. ground (
            arith,
            count_of-set_count j ip (count_of ip t.per_ip) t.per_ip,
            r.per_ip_counts limited j,
            bytes_eq→eq j ip,
          );
        },
      )
      | inr room ↦ rw room (
        (λ h. (free, ground (arith, r.per_ip_counts limited ip)), λ h. refl),
        record {
          total_counts = omega (arith, r.total_counts);
          per_ip_counts = λ h j. ground (
            arith,
            count_of-set_count j ip (count_of ip t.per_ip + 1) t.per_ip,
            r.per_ip_counts limited j,
            bytes_eq→eq j ip,
          );
        },
      )
    ]

-- On a tracker that counts the active connections, of which there are fewer than 2^32 - 1, a
-- connection is registered exactly if the limits leave room for it, and the tracker then counts it
-- as well; otherwise it counts what it did.
pub try_add_exact :
    (t : ConnectionTracker) (ip : Text) (active : List Text)
    → Represents t active
    → length active + 1 < 2 ^ 32
    → let (t', added) = try_add ip t in
      ((added ≡ true) ↔ HasRoom t ip active) × Represents t' (if added then ip ∷ active else active)
unfolding try_add
try_add_exact t ip active r small =
    elim (Bool-cases (ltb 0 t.max_total && leb t.max_total t.total)) [
      | inl full ↦ rw full ((λ h. cc, λ room. absurd (ground (arith, r.total_counts, room.0))), r)
      | inr free ↦ rw free (elim (Bool-cases (ltb 0 t.max_per_ip)) [
        | inl limited ↦
            rw limited
              (limited_exact t ip active r small (ground (arith, r.total_counts)) (ground arith))
        | inr unlimited ↦ rw unlimited (
          (λ h. (ground (arith, r.total_counts), ground arith), λ room. refl),
          record {
            total_counts = omega (arith, r.total_counts);
            per_ip_counts = λ h j. absurd (ground arith);
          },
        )
      ])
    ]

-- When a connection that is counted closes, the tracker counts the others.
pub remove_exact :
    (t : ConnectionTracker) (ip : Text) (active : List Text)
    → Represents t active
    → 0 < occurrences ip active
    → Represents (remove ip t) (close ip active)
unfolding remove
remove_exact t ip active r h = record {
  total_counts = omega (arith, r.total_counts, (occurrences-close ip ip active h).1);
  per_ip_counts = λ limited j. ground (
    arith,
    r.per_ip_counts limited ip,
    r.per_ip_counts limited j,
    (occurrences-close j ip active h).0,
    count_of-erase j ip t.per_ip,
    count_of-set_count j ip (count_of ip t.per_ip - 1) t.per_ip,
    count_of_absent ip t.per_ip,
    bytes_eq→eq j ip,
  );
}
