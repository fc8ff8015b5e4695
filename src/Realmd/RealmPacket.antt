-- ===== src/Realmd/RealmPacket.antt =====
-- crates/realmd/src/auth_socket.rs: the realm list packet, and the handler of the request.
pub mod Count
use Prim.Native.Nat.{bit_and, bit_or}
use cmangos_tbc.Base.{
  ℕ, zero, suc, ◌+◌, ◌%◌, ◌^◌, Bool, true, false, not, ◌&&◌, ◌||◌, Option, none, some, List, [],
  ◌∷◌, ◌++◌, if◌then◌else◌, ltb, leb, ◌==◌, length,
}
use cmangos_tbc.Base.Text.{Text, text}
use cmangos_tbc.Shared.Types.{realm_flag_offline, realm_flag_specifybuild}
use cmangos_tbc.Shared.ByteBuffer
use cmangos_tbc.Shared.ByteBuffer.{ByteBuffer}
use cmangos_tbc.Shared.Database.{get_u8, get_u32}
use cmangos_tbc.Realmd.AuthCodes.{AuthCmd, cmd_byte}
use cmangos_tbc.Realmd.Builds.{RealmBuildInfo, find_build_info, get_realm_category_id}
use cmangos_tbc.Realmd.RealmList.{Realm, Realms, RealmList, show_number, update_if_needed}
use cmangos_tbc.Realmd.Env.{Env, Query, Reply}
use cmangos_tbc.Realmd.Session.{
  Session, Step, Done, ok, err, panicked, ◌>>=◌, tick, read_with_timeout, write_with_timeout,
  query_one,
}

-- `values().filter(|r| r.allowed_security_level <= security_level).count()`
unfoldable pub eligible_count : (security_level : ℕ) → Realms → ℕ
eligible_count security_level [] = 0
eligible_count security_level ((name, realm) ∷ realms) =
    (if leb realm.allowed_security_level security_level then 1 else 0)
    + eligible_count security_level realms

-- The realms that the loops do not skip.
unfoldable pub is_listed : (security_level : ℕ) → Realm → Bool
is_listed security_level realm = not ((security_level == 0) && ltb 0 realm.allowed_security_level)

-- `match build { 5875 | 6005 | 6141 => … }`
unfoldable pub is_legacy : ℕ → Bool
is_legacy build = (build == 5875) || ((build == 6005) || (build == 6141))

unfoldable pub contains : ℕ → List ℕ → Bool
contains b [] = false
contains b (c ∷ cs) = (b == c) || contains b cs

-- The build info of the client, if the realm accepts its build.
unfoldable pub accepted_build_info : (build : ℕ) → Realm → Option RealmBuildInfo
unfolding contains find_build_info
accepted_build_info build realm =
    if contains build realm.realm_builds then find_build_info build else none

abbrev pub info_or : Option RealmBuildInfo → RealmBuildInfo → RealmBuildInfo
info_or none d = d
info_or (some info) d = info

module _ (build account_security_level : ℕ) where
  -- One realm for a 1.12 client, which is told the realm's version in its name.
  unfoldable pub legacy_entry : (name : Text) → Realm → (char_count : ℕ) → ByteBuffer → ByteBuffer
  unfolding contains accepted_build_info get_realm_category_id
  legacy_entry name realm char_count pkt =
      let info = info_or (accepted_build_info build realm) realm.realm_build_info in
      let display_name =
        if bit_and realm.realm_flags realm_flag_specifybuild == 0
        then name
        else name
          ++ (text " ("
              ++ (show_number info.major_version
                  ++ (text ","
                      ++ (show_number info.minor_version
                          ++ (text "," ++ (show_number info.bugfix_version ++ text ")")))))) in
      let realm_flags =
        if not (contains build realm.realm_builds)
          || ltb account_security_level realm.allowed_security_level
        then bit_or realm.realm_flags realm_flag_offline
        else realm.realm_flags in
      let pkt1 = ByteBuffer.write_u8 realm_flags (ByteBuffer.write_u32 realm.icon pkt) in
      let pkt2 =
        ByteBuffer.write_string realm.address (ByteBuffer.write_string display_name pkt1) in
      let pkt3 =
        ByteBuffer.write_u8 char_count (ByteBuffer.write_f32 realm.population_level pkt2) in
      ByteBuffer.write_u8 0x00
        (ByteBuffer.write_u8 (get_realm_category_id build realm.timezone) pkt3)

  -- The version, unless the flag for it is absent.
  unfoldable pub write_version : (absent : Bool) → RealmBuildInfo → ByteBuffer → ByteBuffer
  write_version true info pkt = pkt
  write_version false info pkt =
      let pkt1 =
        ByteBuffer.write_u8 info.minor_version (ByteBuffer.write_u8 info.major_version pkt) in
      ByteBuffer.write_u16 build (ByteBuffer.write_u8 info.bugfix_version pkt1)

  -- The flags for a client of 2.x or later; `!SPECIFYBUILD` is 0xFB.
  unfoldable pub modern_flags : Realm → ℕ
  unfolding contains accepted_build_info
  modern_flags realm =
      let flags =
        if contains build realm.realm_builds
        then realm.realm_flags
        else bit_or realm.realm_flags realm_flag_offline in
      elim (accepted_build_info build realm) [ none ↦ bit_and flags 0xFB | some _ ↦ flags ]

  -- The fields before the version.
  unfoldable pub modern_fields : (name : Text) → Realm → (char_count : ℕ) → ByteBuffer → ByteBuffer
  unfolding get_realm_category_id modern_flags
  modern_fields name realm char_count pkt =
      let lock : ℕ = if ltb account_security_level realm.allowed_security_level then 1 else 0 in
      let pkt1 = ByteBuffer.write_u8 lock (ByteBuffer.write_u8 realm.icon pkt) in
      let pkt2 = ByteBuffer.write_string name (ByteBuffer.write_u8 (modern_flags realm) pkt1) in
      let pkt3 =
        ByteBuffer.write_f32 realm.population_level (ByteBuffer.write_string realm.address pkt2) in
      let pkt4 =
        ByteBuffer.write_u8 (get_realm_category_id build realm.timezone)
          (ByteBuffer.write_u8 char_count pkt3) in
      ByteBuffer.write_u8 0x2C pkt4

  -- One realm for a client of 2.x or later.
  unfoldable pub modern_entry : (name : Text) → Realm → (char_count : ℕ) → ByteBuffer → ByteBuffer
  unfolding modern_fields write_version
  modern_entry name realm char_count pkt =
      write_version (bit_and (modern_flags realm) realm_flag_specifybuild == 0)
        (info_or (accepted_build_info build realm) realm.realm_build_info)
        (modern_fields name realm char_count pkt)

  unfoldable pub entry : (name : Text) → Realm → (char_count : ℕ) → ByteBuffer → ByteBuffer
  unfolding is_legacy legacy_entry modern_entry
  entry name realm char_count pkt =
      if is_legacy build
      then legacy_entry name realm char_count pkt
      else modern_entry name realm char_count pkt

module _ (env : Env) where
  -- The number of the account's characters on a realm, asked at a moment; 0 if that fails.
  unfoldable pub get_char_count : (moment realm_id account_id : ℕ) → ℕ
  get_char_count moment realm_id account_id =
      elim (env.query_one moment (Query.char_count realm_id account_id)) [
        | Reply.row row ↦ get_u8 row 0
        | _ ↦ 0
      ]

  module _ (account_id security_level build account_security_level : ℕ) where
    -- The loop: one query for each realm that is listed. The packet and the next moment.
    unfoldable pub write_entries : (moment : ℕ) → Realms → ByteBuffer → ByteBuffer × ℕ
    unfolding is_listed entry
    write_entries moment [] pkt = (pkt, moment)
    write_entries moment ((name, realm) ∷ realms) pkt =
        let count = get_char_count moment realm.id account_id in
        let skipped = write_entries moment realms pkt in
        let listed =
          write_entries (suc moment) realms
            (entry build account_security_level name realm count pkt) in
        if is_listed security_level realm then listed else skipped

    -- The count has one byte for 1.12 clients, and two for the others.
    unfoldable pub load_realm_list : (moment : ℕ) → Realms → ByteBuffer × ℕ
    unfolding is_legacy eligible_count write_entries
    load_realm_list moment realms =
        let head = ByteBuffer.write_u32 0 ByteBuffer.new in
        let count = eligible_count security_level realms in
        let counted =
          if is_legacy build
          then ByteBuffer.write_u8 (count % 2 ^ 8) head
          else ByteBuffer.write_u16 (count % 2 ^ 16) head in
        let (pkt, moment') = write_entries moment realms counted in
        (ByteBuffer.write_u16 (if is_legacy build then 0x0002 else 0x0010) pkt, moment')

  -- `handle_realm_list`
  unfoldable pub handle_realm_list : Session → Done
  unfolding read_with_timeout write_with_timeout load_realm_list update_if_needed
  handle_realm_list s0 = do
    (_, s) ← read_with_timeout 4 s0
    elim (query_one env (Query.account_level s.safe_login) s) [
      | Reply.failed ↦ (err, tick s)
      | Reply.no_row ↦ (err, tick s)
      | Reply.row row ↦
          let m = suc s.moment in
          let list =
            update_if_needed (env.now m) (env.now (suc m)) (env.query_realms (suc m))
              s.realm_list in
          let (pkt, m') =
            load_realm_list (get_u32 row 0) (get_u8 row 1) s.build s.account_security_level
              (suc (suc m)) list.realms in
          let hdr = ByteBuffer.write_u8 (cmd_byte AuthCmd.realm_list) ByteBuffer.new in
          let hdr' =
            ByteBuffer.append (ByteBuffer.contents pkt)
              (ByteBuffer.write_u16 (ByteBuffer.size pkt % 2 ^ 16) hdr) in
          write_with_timeout env (ByteBuffer.contents hdr')
            (record s { realm_list = list; moment = m' })
    ]
