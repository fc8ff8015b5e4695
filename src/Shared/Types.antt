-- ===== src/Shared/Types.antt =====
-- crates/shared/src/lib.rs: the constants that the crates share.
use cmangos_tbc.Base.{ℕ}

-- `AccountTypes`
abbrev pub sec_player : ℕ
sec_player = 0

abbrev pub sec_administrator : ℕ
sec_administrator = 3

abbrev pub login_type_realmd : ℕ
login_type_realmd = 0

abbrev pub realm_flag_offline : ℕ
realm_flag_offline = 0x02

abbrev pub realm_flag_specifybuild : ℕ
realm_flag_specifybuild = 0x04

abbrev pub realm_flag_new_players : ℕ
realm_flag_new_players = 0x20

abbrev pub realm_flag_recommended : ℕ
realm_flag_recommended = 0x40

abbrev pub max_realm_zones : ℕ
max_realm_zones = 38

abbrev pub minute : ℕ
minute = 60
