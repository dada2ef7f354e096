-- ===== src/Gui/Windows.antt =====
-- The windows of tools/rcdiscover-gui that send commands to devices. A window is its input fields,
-- the buttons that it switches, and whether it is shown; the answers to the questions that it asks
-- are arguments of its handlers.
pub mod Subnet
pub mod SetTmpIp
pub mod ChangeIpConfig
pub mod Reconnect
pub mod Reset
pub mod Sending
pub mod Asking
pub mod Repeating
use rcdiscover.Base.{
  ℕ, ◌*◌, ◌/◌, ◌%◌, ◌^◌, Bool, true, false, not, ◌&&◌, Bytes, codes, ◌==◌, if◌then◌else◌, Option,
  none, some, Exn,
}
use rcdiscover.Words.{and_bits, set_bit, test_bit, shr, u8}
use rcdiscover.Gui.Inputs.{get_ip, is_valid_ip, set_ip}

-- The three address fields that two of the windows share.
pub record Addresses : Type 0 where
  pub ip : Bytes
  pub subnet_mask : Bytes
  pub default_gateway : Bytes

abbrev pub all_valid : Addresses → Bool
all_valid a = is_valid_ip a.ip && is_valid_ip a.subnet_mask && is_valid_ip a.default_gateway

-- `ip & mask`.
abbrev pub network : Addresses → ℕ
network a = and_bits 32 (get_ip a.ip) (get_ip a.subnet_mask)

abbrev pub gateway_network : Addresses → ℕ
gateway_network a = and_bits 32 (get_ip a.default_gateway) (get_ip a.subnet_mask)

-- The tests that suggest a subnet mask for the address `v`, each of which may replace the text.
unfoldable pub suggest_mask : ℕ → Bytes → Bytes
suggest_mask v s =
    let s = if shr v 24 == 10 then codes "255.0.0.0" else s in
    let s = if shr v 24 == 172 && test_bit (u8 (shr v 16)) 4 then codes "255.240.0.0" else s in
    let s = if shr v 24 == 192 && u8 (shr v 16) == 168 then codes "255.255.0.0" else s in
    if shr v 24 == 169 && u8 (shr v 16) == 254 then codes "255.255.0.0" else s

-- What `doSubnetMask` does to the fields.
unfoldable pub suggest_gateway : Addresses → Addresses
unfolding set_bit
suggest_gateway a =
    if is_valid_ip a.ip && is_valid_ip a.subnet_mask
    then record a { default_gateway = set_ip (set_bit (network a) 0) }
    else a

-- What `doIP` does to the fields before it calls `doSubnetMask`.
unfoldable pub suggest_subnet : Addresses → Addresses
unfolding suggest_mask
suggest_subnet a =
    if is_valid_ip a.ip && not (is_valid_ip a.subnet_mask)
    then record a { subnet_mask = suggest_mask (get_ip a.ip) a.subnet_mask }
    else a

-- What a handler of a window asks the world to do ends with an alert or without.
abbrev pub Alert : Type 0
Alert = Option Exn
