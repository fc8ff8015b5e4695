-- ===== src/Realmd/Builds.antt =====
-- crates/realmd/src/realm_list.rs: the client builds that are supported, and the realm categories.
use cmangos_tbc.Base.{
  ℕ, Option, none, some, List, [], ◌∷◌, if◌then◌else◌, leb, ◌==◌, get_or, replicate,
}
use cmangos_tbc.Shared.Types.{max_realm_zones}

pub record RealmBuildInfo : Type 0 where
  pub build : ℕ
  pub major_version : ℕ
  pub minor_version : ℕ
  pub bugfix_version : ℕ
  pub hotfix_version : ℕ
  pub windows_hash : List ℕ
  pub mac_hash : List ℕ

abbrev pub zeros : List ℕ
zeros = replicate 20 0

abbrev build_13930 : RealmBuildInfo
build_13930 = record {
  build = 13930;
  major_version = 3;
  minor_version = 3;
  bugfix_version = 5;
  hotfix_version = b'a';
  windows_hash = zeros;
  mac_hash = zeros;
}

abbrev build_12340 : RealmBuildInfo
build_12340 = record {
  build = 12340;
  major_version = 3;
  minor_version = 3;
  bugfix_version = 5;
  hotfix_version = b'a';
  windows_hash =
      0xCD ∷ 0xCB ∷ 0xBD ∷ 0x51 ∷ 0x88 ∷ 0x31 ∷ 0x5E ∷ 0x6B ∷ 0x4D ∷ 0x19 ∷ 0x44 ∷ 0x9D ∷ 0x49
      ∷ 0x2D ∷ 0xBC ∷ 0xFA ∷ 0xF1 ∷ 0x56 ∷ 0xA3 ∷ 0x47 ∷ [];
  mac_hash =
      0xB7 ∷ 0x06 ∷ 0xD1 ∷ 0x3F ∷ 0xF2 ∷ 0xF4 ∷ 0x01 ∷ 0x88 ∷ 0x39 ∷ 0x72 ∷ 0x94 ∷ 0x61 ∷ 0xE3
      ∷ 0xF8 ∷ 0xA0 ∷ 0xE2 ∷ 0xB5 ∷ 0xFD ∷ 0xC0 ∷ 0x34 ∷ [];
}

abbrev build_11723 : RealmBuildInfo
build_11723 = record {
  build = 11723;
  major_version = 3;
  minor_version = 3;
  bugfix_version = 3;
  hotfix_version = b'a';
  windows_hash = zeros;
  mac_hash = zeros;
}

abbrev build_11403 : RealmBuildInfo
build_11403 = record {
  build = 11403;
  major_version = 3;
  minor_version = 3;
  bugfix_version = 2;
  hotfix_version = b' ';
  windows_hash = zeros;
  mac_hash = zeros;
}

abbrev build_11159 : RealmBuildInfo
build_11159 = record {
  build = 11159;
  major_version = 3;
  minor_version = 3;
  bugfix_version = 0;
  hotfix_version = b'a';
  windows_hash = zeros;
  mac_hash = zeros;
}

abbrev build_10505 : RealmBuildInfo
build_10505 = record {
  build = 10505;
  major_version = 3;
  minor_version = 2;
  bugfix_version = 2;
  hotfix_version = b'a';
  windows_hash = zeros;
  mac_hash = zeros;
}

abbrev build_9947 : RealmBuildInfo
build_9947 = record {
  build = 9947;
  major_version = 3;
  minor_version = 1;
  bugfix_version = 3;
  hotfix_version = b' ';
  windows_hash = zeros;
  mac_hash = zeros;
}

abbrev build_8606 : RealmBuildInfo
build_8606 = record {
  build = 8606;
  major_version = 2;
  minor_version = 4;
  bugfix_version = 3;
  hotfix_version = b' ';
  windows_hash =
      0x31 ∷ 0x9A ∷ 0xFA ∷ 0xA3 ∷ 0xF2 ∷ 0x55 ∷ 0x96 ∷ 0x82 ∷ 0xF9 ∷ 0xFF ∷ 0x65 ∷ 0x8B ∷ 0xE0
      ∷ 0x14 ∷ 0x56 ∷ 0x25 ∷ 0x5F ∷ 0x45 ∷ 0x6F ∷ 0xB1 ∷ [];
  mac_hash =
      0xD8 ∷ 0xB0 ∷ 0xEC ∷ 0xFE ∷ 0x53 ∷ 0x4B ∷ 0xC1 ∷ 0x13 ∷ 0x1E ∷ 0x19 ∷ 0xBA ∷ 0xD1 ∷ 0xD4
      ∷ 0xC0 ∷ 0xE8 ∷ 0x13 ∷ 0xEE ∷ 0xE4 ∷ 0x99 ∷ 0x4F ∷ [];
}

abbrev build_6141 : RealmBuildInfo
build_6141 = record {
  build = 6141;
  major_version = 1;
  minor_version = 12;
  bugfix_version = 3;
  hotfix_version = b' ';
  windows_hash =
      0xEB ∷ 0x88 ∷ 0x24 ∷ 0x3E ∷ 0x94 ∷ 0x26 ∷ 0xC9 ∷ 0xD6 ∷ 0x8C ∷ 0x81 ∷ 0x87 ∷ 0xF7 ∷ 0xDA
      ∷ 0xE2 ∷ 0x25 ∷ 0xEA ∷ 0xF3 ∷ 0x88 ∷ 0xD8 ∷ 0xAF ∷ [];
  mac_hash = zeros;
}

abbrev build_6005 : RealmBuildInfo
build_6005 = record {
  build = 6005;
  major_version = 1;
  minor_version = 12;
  bugfix_version = 2;
  hotfix_version = b' ';
  windows_hash =
      0x06 ∷ 0x97 ∷ 0x32 ∷ 0x38 ∷ 0x76 ∷ 0x56 ∷ 0x96 ∷ 0x41 ∷ 0x48 ∷ 0x79 ∷ 0x28 ∷ 0xFD ∷ 0xC7
      ∷ 0xC9 ∷ 0xE3 ∷ 0x3B ∷ 0x44 ∷ 0x70 ∷ 0xC8 ∷ 0x80 ∷ [];
  mac_hash = zeros;
}

abbrev build_5875 : RealmBuildInfo
build_5875 = record {
  build = 5875;
  major_version = 1;
  minor_version = 12;
  bugfix_version = 1;
  hotfix_version = b' ';
  windows_hash =
      0x95 ∷ 0xED ∷ 0xB2 ∷ 0x7C ∷ 0x78 ∷ 0x23 ∷ 0xB3 ∷ 0x63 ∷ 0xCB ∷ 0xDD ∷ 0xAB ∷ 0x56 ∷ 0xA3
      ∷ 0x92 ∷ 0xE7 ∷ 0xCB ∷ 0x73 ∷ 0xFC ∷ 0xCA ∷ 0x20 ∷ [];
  mac_hash =
      0x8D ∷ 0x17 ∷ 0x3C ∷ 0xC3 ∷ 0x81 ∷ 0x96 ∷ 0x1E ∷ 0xEB ∷ 0xAB ∷ 0xF3 ∷ 0x36 ∷ 0xF5 ∷ 0xE6
      ∷ 0x67 ∷ 0x5B ∷ 0x10 ∷ 0x1B ∷ 0xB5 ∷ 0x13 ∷ 0xE5 ∷ [];
}

-- `EXPECTED_BUILDS[0]`, the low bound of the range that is always accepted.
abbrev pub newest_build : RealmBuildInfo
newest_build = build_13930

-- `EXPECTED_BUILDS.iter().skip(1)`
abbrev pub older_builds : List RealmBuildInfo
older_builds =
    build_12340 ∷ build_11723 ∷ build_11403 ∷ build_11159 ∷ build_10505 ∷ build_9947 ∷ build_8606
    ∷ build_6141 ∷ build_6005 ∷ build_5875 ∷ []

-- `iter().find(|b| b.build == build)`
unfoldable pub find_build : ℕ → List RealmBuildInfo → Option RealmBuildInfo
find_build build [] = none
find_build build (info ∷ infos) = if info.build == build then some info else find_build build infos

unfoldable pub find_build_info : ℕ → Option RealmBuildInfo
find_build_info build =
    if leb newest_build.build build then some newest_build else find_build build older_builds

abbrev alpha_categories : List ℕ
alpha_categories =
    0 ∷ 1 ∷ 1 ∷ 1 ∷ 1 ∷ 1 ∷ 1 ∷ 1 ∷ 1 ∷ 1 ∷ 1 ∷ 1 ∷ 1 ∷ 1 ∷ 1 ∷ 1 ∷ 1 ∷ 1 ∷ 1 ∷ 1 ∷ 1 ∷ 1 ∷ 1 ∷ 1
    ∷ 1 ∷ 1 ∷ 1 ∷ 1 ∷ 1 ∷ 1 ∷ 1 ∷ 1 ∷ 1 ∷ 1 ∷ 1 ∷ 1 ∷ 1 ∷ 1 ∷ []

abbrev classic_categories : List ℕ
classic_categories =
    0 ∷ 1 ∷ 1 ∷ 5 ∷ 1 ∷ 1 ∷ 1 ∷ 1 ∷ 1 ∷ 2 ∷ 3 ∷ 5 ∷ 1 ∷ 1 ∷ 1 ∷ 1 ∷ 1 ∷ 1 ∷ 1 ∷ 2 ∷ 1 ∷ 1 ∷ 1 ∷ 3
    ∷ 1 ∷ 1 ∷ 1 ∷ 1 ∷ 1 ∷ 1 ∷ 1 ∷ 1 ∷ 1 ∷ 1 ∷ 1 ∷ 1 ∷ 1 ∷ 1 ∷ []

abbrev tbc_categories : List ℕ
tbc_categories =
    0 ∷ 1 ∷ 2 ∷ 3 ∷ 4 ∷ 5 ∷ 6 ∷ 7 ∷ 8 ∷ 9 ∷ 10 ∷ 11 ∷ 12 ∷ 13 ∷ 14 ∷ 15 ∷ 16 ∷ 17 ∷ 18 ∷ 19 ∷ 20
    ∷ 21 ∷ 22 ∷ 23 ∷ 24 ∷ 25 ∷ 26 ∷ 27 ∷ 28 ∷ 29 ∷ 30 ∷ 0 ∷ 0 ∷ 0 ∷ 0 ∷ 0 ∷ 0 ∷ 0 ∷ []

abbrev wotlk_categories : List ℕ
wotlk_categories =
    0 ∷ 1 ∷ 2 ∷ 3 ∷ 4 ∷ 5 ∷ 6 ∷ 7 ∷ 8 ∷ 9 ∷ 10 ∷ 11 ∷ 12 ∷ 13 ∷ 14 ∷ 15 ∷ 16 ∷ 17 ∷ 18 ∷ 19 ∷ 20
    ∷ 21 ∷ 22 ∷ 23 ∷ 24 ∷ 25 ∷ 26 ∷ 27 ∷ 28 ∷ 29 ∷ 30 ∷ 31 ∷ 32 ∷ 33 ∷ 34 ∷ 35 ∷ 36 ∷ 37 ∷ []

abbrev pub realm_category_ids : List (List ℕ)
realm_category_ids = alpha_categories ∷ classic_categories ∷ tbc_categories ∷ wotlk_categories ∷ []

-- A zone that is out of range is taken for 1.
unfoldable pub get_realm_category_id : ℕ → ℕ → ℕ
unfolding find_build_info
get_realm_category_id build timezone =
    let zone = if leb max_realm_zones timezone then 1 else timezone in
    elim (find_build_info build) [
      | some info ↦ get_or (get_or realm_category_ids info.major_version []) zone 0
      | none ↦ zone
    ]
