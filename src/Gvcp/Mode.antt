-- ===== src/Gvcp/Mode.antt =====
-- The mode register that `writeConfig` of rcdiscover/gvcp_ip_config.cc writes.
use rcdiscover.Base.{ℕ, ◌+◌, ◌*◌, ◌/◌, ◌^◌, ◌<◌, ◌≡◌, Bool, true, false, if◌then◌else◌, arith}
use rcdiscover.Words.{test_bit, clear_bit, set_bit}
use rcdiscover.Gvcp.{IpConfig, new_mode}

clear_bits-eq : (mode : ℕ) → clear_bit (clear_bit (clear_bit mode 0) 1) 2 ≡ mode / 8 * 8
unfolding clear_bit test_bit
clear_bits-eq mode = ground arith

-- The weight of a flag.
abbrev weight : Bool → ℕ → ℕ
weight b n = if b then n else 0

set_bits-eq :
    (q : ℕ) (p h : Bool)
    → (let m = if p then set_bit (q * 8) 0 else q * 8 in
        let n = if h then set_bit m 1 else m in set_bit n 2)
      ≡ q * 8 + weight p 1 + weight h 2 + 4
unfolding set_bit test_bit
set_bits-eq q true true = ground arith
set_bits-eq q true false = ground arith
set_bits-eq q false true = ground arith
set_bits-eq q false false = ground arith

new_mode-eq :
    (config : IpConfig) (mode : ℕ)
    → new_mode config mode
      ≡ mode / 8 * 8 + weight config.persistent_ip_enabled 1 + weight config.dhcp_enabled 2 + 4
unfolding new_mode
new_mode-eq config mode =
    rw (clear_bits-eq mode)
      (set_bits-eq (mode / 8) config.persistent_ip_enabled config.dhcp_enabled)

bits_of_sum :
    (q : ℕ) (p h : Bool)
    → (test_bit (q * 8 + weight p 1 + weight h 2 + 4) 0 ≡ p)
      × (test_bit (q * 8 + weight p 1 + weight h 2 + 4) 1 ≡ h)
      × (test_bit (q * 8 + weight p 1 + weight h 2 + 4) 2 ≡ true)
      × ((q * 8 + weight p 1 + weight h 2 + 4) / 8 ≡ q)
unfolding test_bit
bits_of_sum q true true = ground arith
bits_of_sum q true false = ground arith
bits_of_sum q false true = ground arith
bits_of_sum q false false = ground arith

-- The mode register that is written: the three low bits are those of the configuration, with
-- link-local addressing always on, and all other bits keep their value.
pub new_mode_lem :
    (config : IpConfig) (mode : ℕ)
    → (test_bit (new_mode config mode) 0 ≡ config.persistent_ip_enabled)
      × (test_bit (new_mode config mode) 1 ≡ config.dhcp_enabled)
      × (test_bit (new_mode config mode) 2 ≡ true)
      × (new_mode config mode / 8 ≡ mode / 8)
new_mode_lem config mode =
    rw (new_mode-eq config mode)
      (bits_of_sum (mode / 8) config.persistent_ip_enabled config.dhcp_enabled)

pub new_mode-fits : (config : IpConfig) (mode : ℕ) → mode < 2 ^ 32 → new_mode config mode < 2 ^ 32
new_mode-fits config mode h = omega (arith, (new_mode_lem config mode).3)
