-- ===== src/Realmd/RealmPacket/Count.antt =====
-- The realm list packet: what it lists, and when its count is the number of the entries.
use cmangos_tbc.Base.{
  ℕ, suc, ◌%◌, ◌^◌, ◌<◌, ◌≤◌, ◌≡◌, ◌∙◌, ◌↔◌, ◌⊎◌, inl, inr, sym, ap, refl, Bool, true, false, List,
  [], ◌∷◌, ◌++◌, if◌then◌else◌, arith, All, length, append-nil, append_assoc, Bool-cases, ◌==◌,
}
use cmangos_tbc.Base.Bytes.{to_le}
use cmangos_tbc.Base.Text.{Text}
use cmangos_tbc.Shared.ByteBuffer
use cmangos_tbc.Shared.ByteBuffer.{ByteBuffer}
use cmangos_tbc.Realmd.Builds.{RealmBuildInfo}
use cmangos_tbc.Realmd.RealmList.{Realm, Realms}
use cmangos_tbc.Realmd.Env.{Env}
use Prim.Native.Nat.{bit_and}
use cmangos_tbc.Shared.Types.{realm_flag_specifybuild}
use cmangos_tbc.Realmd.RealmPacket.{
  modern_fields, modern_flags, info_or, accepted_build_info, eligible_count, is_listed, is_legacy,
  legacy_entry, write_version, modern_entry, entry, get_char_count, write_entries, load_realm_list,
}

-- The realms that get an entry.
pub listed : ℕ → Realms → Realms
listed security_level [] = []
listed security_level ((name, realm) ∷ realms) =
    if is_listed security_level realm
    then (name, realm) ∷ listed security_level realms
    else listed security_level realms

eligible-le-listed :
    (sl : ℕ) (realms : Realms) → eligible_count sl realms ≤ length (listed sl realms)
unfolding eligible_count listed is_listed
eligible-le-listed sl [] = omega arith
eligible-le-listed sl ((name, realm) ∷ realms) = ground (arith, eligible-le-listed sl realms)

count_forth :
    (sl : ℕ) (realms : Realms)
    → 0 < sl
    → eligible_count sl realms ≡ length (listed sl realms)
    → All (λ e. e.1.allowed_security_level ≤ sl) realms
unfolding eligible_count listed is_listed
count_forth sl [] hs h = tt
count_forth sl ((name, realm) ∷ realms) hs h =
    ground (arith, eligible-le-listed sl realms, count_forth sl realms hs)

count_back_player :
    (sl : ℕ) (realms : Realms) → sl ≡ 0 → eligible_count sl realms ≡ length (listed sl realms)
unfolding eligible_count listed is_listed
count_back_player sl [] hs = refl
count_back_player sl ((name, realm) ∷ realms) hs = ground (arith, count_back_player sl realms hs)

count_back :
    (sl : ℕ) (realms : Realms)
    → All (λ e. e.1.allowed_security_level ≤ sl) realms
    → eligible_count sl realms ≡ length (listed sl realms)
unfolding eligible_count listed is_listed
count_back sl [] h = refl
count_back sl ((name, realm) ∷ realms) h = ground (arith, count_back sl realms h.1)

-- The count is at most the number of entries, and it is that number exactly if the account is a
-- player's or no realm wants a level above the account's. Otherwise the packet holds more entries
-- than it announces.
pub eligible_count_exact :
    (sl : ℕ) (realms : Realms)
    → (eligible_count sl realms ≤ length (listed sl realms))
      × ((eligible_count sl realms ≡ length (listed sl realms))
          ↔ ((sl ≡ 0) ⊎ All (λ e. e.1.allowed_security_level ≤ sl) realms))
eligible_count_exact sl realms = (
  eligible-le-listed sl realms,
  (
    λ h. elim (Bool-cases (sl == 0)) [
      | inl player ↦ inl (ground arith)
      | inr staff ↦ inr (count_forth sl realms (ground arith) h)
    ],
    elim [ inl player ↦ count_back_player sl realms player | inr all ↦ count_back sl realms all ],
  ),
)

-- Each write only appends.
abbrev Appends : (ByteBuffer → ByteBuffer) → Type 0
Appends f = (pkt : ByteBuffer) → (f pkt).bytes ≡ pkt.bytes ++ (f ByteBuffer.new).bytes

module _ (build asl : ℕ) where
  write_version-Appends :
      (absent : Bool) (info : RealmBuildInfo) → Appends (write_version build asl absent info)
  unfolding write_version ByteBuffer.write_u8 ByteBuffer.write_u16 ByteBuffer.new
  write_version-Appends true info pkt = sym (append-nil pkt.bytes)
  write_version-Appends false info pkt = simp append_assoc

  legacy_entry-Appends :
      (name : Text) (realm : Realm) (count : ℕ) → Appends (legacy_entry build asl name realm count)
  unfolding legacy_entry ByteBuffer.write_u8 ByteBuffer.write_u32 ByteBuffer.write_f32
      ByteBuffer.write_string ByteBuffer.new
  legacy_entry-Appends name realm count pkt = simp append_assoc

  modern_fields-Appends :
      (name : Text) (realm : Realm) (count : ℕ) → Appends (modern_fields build asl name realm count)
  unfolding modern_fields ByteBuffer.write_u8 ByteBuffer.write_f32 ByteBuffer.write_string
      ByteBuffer.new
  modern_fields-Appends name realm count pkt = simp append_assoc

  compose-Appends : (f g : ByteBuffer → ByteBuffer) → Appends f → Appends g → Appends (λ p. g (f p))
  compose-Appends f g hf hg pkt =
      hg (f pkt)
      ∙ ap (λ t. t ++ (g ByteBuffer.new).bytes) (hf pkt)
      ∙ append_assoc pkt.bytes (f ByteBuffer.new).bytes (g ByteBuffer.new).bytes
      ∙ ap (λ t. pkt.bytes ++ t) (sym (hg (f ByteBuffer.new)))

  modern_entry-Appends :
      (name : Text) (realm : Realm) (count : ℕ) → Appends (modern_entry build asl name realm count)
  modern_entry-Appends name realm count =
      let absent = bit_and (modern_flags build asl realm) realm_flag_specifybuild == 0 in
      let info = info_or (accepted_build_info build realm) realm.realm_build_info in
      unfold modern_entry in
      compose-Appends (modern_fields build asl name realm count)
        (write_version build asl absent info) (modern_fields-Appends name realm count)
        (write_version-Appends absent info)

  entry-Appends :
      (name : Text) (realm : Realm) (count : ℕ) → Appends (entry build asl name realm count)
  unfolding entry
  entry-Appends name realm count pkt = elim (Bool-cases (is_legacy build)) [
    | inl old ↦ rw old (legacy_entry-Appends name realm count pkt)
    | inr recent ↦ rw recent (modern_entry-Appends name realm count pkt)
  ]

-- Byte strings one after the other.
abbrev pub join : List (List ℕ) → List ℕ
join [] = []
join (x ∷ xs) = x ++ join xs

module _ (env : Env) (account_id sl build asl : ℕ) where
  -- The bytes of each entry, in the order of the list.
  pub entries : (moment : ℕ) → Realms → List (List ℕ)
  entries moment [] = []
  entries moment ((name, realm) ∷ realms) =
      (entry build asl name realm (get_char_count env moment realm.id account_id)
        ByteBuffer.new).bytes
      ∷ entries (suc moment) realms

  entries_size : (moment : ℕ) (realms : Realms) → length (entries moment realms) ≡ length realms
  unfolding entries
  entries_size moment [] = refl
  entries_size moment ((name, realm) ∷ realms) = ap suc (entries_size (suc moment) realms)

  write_entries-bytes :
      (moment : ℕ) (realms : Realms) (pkt : ByteBuffer)
      → (write_entries env account_id sl build asl moment realms pkt).0.bytes
        ≡ pkt.bytes ++ join (entries moment (listed sl realms))
  unfolding write_entries entries listed
  write_entries-bytes moment [] pkt = sym (append-nil pkt.bytes)
  write_entries-bytes moment ((name, realm) ∷ realms) pkt =
      let count = get_char_count env moment realm.id account_id in
      let first = entry build asl name realm count in
      let more = join (entries (suc moment) (listed sl realms)) in
      let skip = write_entries-bytes moment realms pkt in
      let take_it =
        write_entries-bytes (suc moment) realms (first pkt)
        ∙ ap (λ t. t ++ more) (entry-Appends build asl name realm count pkt)
        ∙ append_assoc pkt.bytes (first ByteBuffer.new).bytes more in
      elim (Bool-cases (is_listed sl realm)) [
        | inl shown ↦ rw shown take_it
        | inr hidden ↦ rw hidden skip
      ]

  -- The packet is four zero bytes, the count in one byte for 1.12 clients and two for the others,
  -- one entry for each realm that is listed, in the order of the names, and the footer.
  pub load_realm_list_layout :
      (moment : ℕ) (realms : Realms)
      → let count = eligible_count sl realms in
        let counts = if is_legacy build then (count % 2 ^ 8) ∷ [] else to_le 2 (count % 2 ^ 16) in
        let footer = to_le 2 (if is_legacy build then 0x0002 else 0x0010) in
        ((load_realm_list env account_id sl build asl moment realms).0.bytes
          ≡ 0 ∷ 0 ∷ 0 ∷ 0 ∷ (counts ++ (join (entries moment (listed sl realms)) ++ footer)))
        × (length (entries moment (listed sl realms)) ≡ length (listed sl realms))
  unfolding load_realm_list ByteBuffer.write_u8 ByteBuffer.write_u16 ByteBuffer.write_u32
      ByteBuffer.new to_le
  load_realm_list_layout moment realms =
      let size = entries_size moment (listed sl realms) in
      elim (Bool-cases (is_legacy build)) [
        | inl old ↦ rw old (rw (write_entries-bytes moment realms) (rw append_assoc refl), size)
        | inr recent ↦
            rw recent (rw (write_entries-bytes moment realms) (rw append_assoc refl), size)
      ]
