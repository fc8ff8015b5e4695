-- ===== src/Realmd/AuthCodes.antt =====
-- crates/realmd/src/auth_codes.rs: commands, result codes and flags.
use cmangos_tbc.Base.{ℕ, ◌≡◌, ◌↔◌, Option, none, some, List, [], ◌∷◌, if◌then◌else◌, ◌==◌, arith}

pub data AuthCmd : Type 0 where
  logon_challenge logon_proof reconnect_challenge reconnect_proof realm_list : AuthCmd
  xfer_initiate xfer_data xfer_accept xfer_resume xfer_cancel : AuthCmd

-- `cmd as u8`
abbrev pub cmd_byte : AuthCmd → ℕ
cmd_byte AuthCmd.logon_challenge = 0x00
cmd_byte AuthCmd.logon_proof = 0x01
cmd_byte AuthCmd.reconnect_challenge = 0x02
cmd_byte AuthCmd.reconnect_proof = 0x03
cmd_byte AuthCmd.realm_list = 0x10
cmd_byte AuthCmd.xfer_initiate = 0x30
cmd_byte AuthCmd.xfer_data = 0x31
cmd_byte AuthCmd.xfer_accept = 0x32
cmd_byte AuthCmd.xfer_resume = 0x33
cmd_byte AuthCmd.xfer_cancel = 0x34

unfoldable pub from_u8 : ℕ → Option AuthCmd
from_u8 val =
    if val == 0x00
    then some AuthCmd.logon_challenge
    else if val == 0x01
    then some AuthCmd.logon_proof
    else if val == 0x02
    then some AuthCmd.reconnect_challenge
    else if val == 0x03
    then some AuthCmd.reconnect_proof
    else if val == 0x10
    then some AuthCmd.realm_list
    else if val == 0x30
    then some AuthCmd.xfer_initiate
    else if val == 0x31
    then some AuthCmd.xfer_data
    else if val == 0x32
    then some AuthCmd.xfer_accept
    else if val == 0x33
    then some AuthCmd.xfer_resume
    else if val == 0x34
    then some AuthCmd.xfer_cancel
    else none

-- `AuthLogonResult`, the codes that the server sends.
pub data AuthLogonResult : Type 0 where
  success failed_banned failed_unknown_account failed_version_invalid : AuthLogonResult
  failed_suspended failed_fail_noaccess : AuthLogonResult

-- `result as u8`
abbrev pub result_byte : AuthLogonResult → ℕ
result_byte AuthLogonResult.success = 0x00
result_byte AuthLogonResult.failed_banned = 0x03
result_byte AuthLogonResult.failed_unknown_account = 0x04
result_byte AuthLogonResult.failed_version_invalid = 0x09
result_byte AuthLogonResult.failed_suspended = 0x0C
result_byte AuthLogonResult.failed_fail_noaccess = 0x0D

-- `AccountFlags::ProPass`
abbrev pub account_flag_pro_pass : ℕ
account_flag_pro_pass = 0x00800000

-- `SecurityFlags`
abbrev pub security_flag_pin : ℕ
security_flag_pin = 0x01

abbrev pub security_flag_unk : ℕ
security_flag_unk = 0x02

abbrev pub security_flag_authenticator : ℕ
security_flag_authenticator = 0x04

abbrev pub version_challenge : List ℕ
version_challenge =
    0xBA ∷ 0xA3 ∷ 0x1E ∷ 0x99 ∷ 0xA0 ∷ 0x0B ∷ 0x21 ∷ 0x57 ∷ 0xFC ∷ 0x37 ∷ 0x3F ∷ 0xB3 ∷ 0x69 ∷ 0xCD
    ∷ 0xD2 ∷ 0xF1 ∷ []

abbrev pub auth_logon_max_name : ℕ
auth_logon_max_name = 16

-- A byte is decoded to a command exactly if it is that command's code.
pub from_u8_exact : (val : ℕ) (cmd : AuthCmd) → (from_u8 val ≡ some cmd) ↔ (val ≡ cmd_byte cmd)
unfolding from_u8
from_u8_exact val AuthCmd.logon_challenge = ground arith
from_u8_exact val cmd = ground arith
