-- ===== src/Realmd/Protocol/Layout.antt =====
-- The layout of the packets: what a conforming client sends is parsed to its fields.
use cmangos_tbc.Base.{
  ℕ, ◌+◌, ◌^◌, ◌<◌, ◌≤◌, ◌≡◌, none, some, List, [], ◌∷◌, ◌++◌, arith, length, length-append, take,
  drop, take-append, length-take, length-drop, get_or, ◌-◌,
}
use cmangos_tbc.Base.Bytes.{to_le, from_le-to_le}
use cmangos_tbc.Realmd.Protocol.{AuthLogonChallengeBody, parse_body, body_fields, slice}

-- A body as the client lays it out.
abbrev pub encode_body : AuthLogonChallengeBody → List ℕ
encode_body body =
    body.gamename
    ++ (body.version1
        ∷ body.version2
        ∷ body.version3
        ∷ (to_le 2 body.build
            ++ (body.platform
                ++ (body.os
                    ++ (body.country
                        ++ (to_le 4 body.timezone_bias
                            ++ (to_le 4 body.ip ++ (body.username_len ∷ body.username))))))))

-- The sizes and ranges of a body's fields.
pub record IsBody (body : AuthLogonChallengeBody) : Type 0 where
  pub gamename_size : length body.gamename ≡ 4
  pub platform_size : length body.platform ≡ 4
  pub os_size : length body.os ≡ 4
  pub country_size : length body.country ≡ 4
  pub build_range : body.build < 2 ^ 16
  pub timezone_range : body.timezone_bias < 2 ^ 32
  pub ip_range : body.ip < 2 ^ 32
  pub username_size : length body.username ≡ body.username_len

four_elim :
    (P : List ℕ → Type 0)
    → ((a b c d : ℕ) → P (a ∷ b ∷ c ∷ d ∷ []))
    → (xs : List ℕ) → length xs ≡ 4
    → P xs
four_elim P f (a ∷ b ∷ c ∷ d ∷ []) h = f a b c d
four_elim P f [] h = absurd (omega arith)
four_elim P f (a ∷ []) h = absurd (omega arith)
four_elim P f (a ∷ b ∷ []) h = absurd (omega arith)
four_elim P f (a ∷ b ∷ c ∷ []) h = absurd (omega arith)
four_elim P f (a ∷ b ∷ c ∷ d ∷ e ∷ r) h = absurd (omega arith)

take_user :
    (n : ℕ) (user rest : List ℕ) → length user ≡ n → take (30 + n - 30) (user ++ rest) ≡ user
take_user n user rest h =
    rw (← h, let e : 30 + length user - 30 ≡ length user = omega arith in e) (take-append user rest)

module _ (body : AuthLogonChallengeBody) (rest : List ℕ) (h : IsBody body) where
  -- The statement with other tags in the body.
  abbrev Parses : List ℕ → List ℕ → List ℕ → List ℕ → Type 0
  Parses g p o c =
      let body' : AuthLogonChallengeBody = record body {
        gamename = g;
        platform = p;
        os = o;
        country = c;
      } in
      parse_body (encode_body body' ++ rest) ≡ some body'

  Parses-tags :
      (g0 g1 g2 g3 p0 p1 p2 p3 o0 o1 o2 o3 c0 c1 c2 c3 : ℕ)
      → Parses
          (g0 ∷ g1 ∷ g2 ∷ g3 ∷ [])
          (p0 ∷ p1 ∷ p2 ∷ p3 ∷ [])
          (o0 ∷ o1 ∷ o2 ∷ o3 ∷ [])
          (c0 ∷ c1 ∷ c2 ∷ c3 ∷ [])
  unfolding parse_body to_le
  Parses-tags g0 g1 g2 g3 p0 p1 p2 p3 o0 o1 o2 o3 c0 c1 c2 c3 =
      rw
        (
          from_le-to_le 2 body.build h.build_range,
          from_le-to_le 4 body.timezone_bias h.timezone_range,
          from_le-to_le 4 body.ip h.ip_range,
          take_user body.username_len body.username rest h.username_size,
        )
        (ground (arith, length-append {0} body.username rest))

  -- A body that a client laid out is parsed to the same fields, whatever follows it.
  pub parse_body-encode_body : parse_body (encode_body body ++ rest) ≡ some body
  parse_body-encode_body =
      four_elim (λ g. Parses g body.platform body.os body.country)
        (λ g0 g1 g2 g3.
          let g = g0 ∷ g1 ∷ g2 ∷ g3 ∷ [] in
          four_elim (λ p. Parses g p body.os body.country)
            (λ p0 p1 p2 p3.
              let p = p0 ∷ p1 ∷ p2 ∷ p3 ∷ [] in
              four_elim (λ o. Parses g p o body.country)
                (λ o0 o1 o2 o3.
                  four_elim (Parses g p (o0 ∷ o1 ∷ o2 ∷ o3 ∷ []))
                    (Parses-tags g0 g1 g2 g3 p0 p1 p2 p3 o0 o1 o2 o3) body.country h.country_size)
                body.os h.os_size)
            body.platform h.platform_size)
        body.gamename h.gamename_size

-- Parsing succeeds exactly on 30 bytes and as many more as byte 29 says, and the name has that
-- length.
pub parse_body_total :
    (bytes : List ℕ)
    → ((30 ≤ length bytes) × (30 + get_or bytes 29 0 ≤ length bytes)
        → (body : AuthLogonChallengeBody) × (parse_body bytes ≡ some body)
          × (length body.username ≡ get_or bytes 29 0))
      × (¬ ((30 ≤ length bytes) × (30 + get_or bytes 29 0 ≤ length bytes))
          → parse_body bytes ≡ none)
unfolding parse_body
parse_body_total bytes =
    let n = get_or bytes 29 0 in
    let name = slice 30 (30 + n) bytes in
    let size = length-take {0} (30 + n - 30) (drop 30 bytes) in
    let rest = length-drop {0} 30 bytes in
    (λ h. (body_fields bytes, ground arith, omega (arith, h.0, h.1, size, rest)), λ h. ground arith)
