-- ===== src/Examples.antt =====
-- The theorems applied to concrete devices, messages and texts.
mod Device
mod Gui
mod Windows
mod Threads
mod Network
mod Tools
mod Worker
use native.Mathlib.Decide.{ℕ_discrete}
use rcdiscover.Base.{
  ℕ, ◌+◌, ◌*◌, ◌%◌, ◌/◌, ◌^◌, ◌<◌, ◌≡◌, ◌≢◌, refl, ap, inl, inr, ◌⊎◌, ◌↔◌, Bool, true, false, List,
  [], ◌∷◌, ◌++◌, map, Option, none, some, Bytes, codes, length, take, drop, text_eq, All, Holds,
  arith, Exn, runtime_error, Result, ok, err, bind_result,
}
use rcdiscover.Words.{append_uint32, extract_uint32, to_byte_array, byte_array_to_int, test_bit}
use rcdiscover.Words.RoundTrip.{extract_uint32-append_uint32, byte_array_to_int-to_byte_array6}
use rcdiscover.RequestCounter.{next_value, get_next}
use rcdiscover.RequestCounter.Cycle.{nth_id, nth_id-distinct, nth_id-period}
use rcdiscover.RequestCounter.Concurrent.{
  System, Pc, idle, head, loaded, update, Reach, here, next, call, load, exchange, start, values,
  sequential, issued_sequential,
}
use rcdiscover.Gvcp.{
  IpConfig, World, Reply, silent, packet, readreg_cmd, readreg_ack, gev_ccp,
  gev_persistent_ip_address, gev_persistent_subnet_mask, gev_persistent_default_gateway, new_mode,
  write_register, read_config, update_config, send_and_receive, write_config, attempts, on_reply,
}
use rcdiscover.Gvcp.Device.{write_register-Device}
use rcdiscover.Gvcp.Mode.{new_mode_lem}
use rcdiscover.Gvcp.Config.{FitsRegisters, written, write_config-written, read_config-write_config}
use rcdiscover.Gvcp.Release.{
  Repeats, LastWrite, send_and_receive-Repeats, write_config-releases, write_config-refused,
}
use rcdiscover.Examples.Device.{Registers, net, device}

abbrev all_zero : Registers
all_zero a = 0

abbrev fresh : World Registers
fresh = record { env = all_zero; counter = 65534; sent = [] }

-- 10.0.2.99/24 with the gateway 10.0.2.1.
abbrev persistent : IpConfig
persistent = record {
  persistent_ip_enabled = true;
  dhcp_enabled = false;
  persistent_ip = 0x0a000263;
  persistent_subnet = 0xffffff00;
  persistent_gateway = 0x0a000201;
}

persistent-Fits : FitsRegisters persistent
persistent-Fits = record {
  ip_fits = omega arith;
  subnet_fits = omega arith;
  gateway_fits = omega arith;
}

write_config-written_example :
    ((write_config net persistent fresh).1 ≡ ok tt)
    × ((a : ℕ)
        → device.regs (write_config net persistent fresh).0.env a
          ≡ written persistent (device.regs fresh.env) a)
write_config-written_example = write_config-written net device persistent fresh persistent-Fits

read_config-write_config_example :
    (read_config net (write_config net persistent fresh).0).1 ≡ ok persistent
read_config-write_config_example =
    read_config-write_config net device persistent fresh persistent-Fits

claimed : (write_register net gev_ccp 1 fresh).1 ≡ ok tt
claimed =
    ap (λ r. r.1)
      (write_register-Device net device gev_ccp 1 fresh (omega arith) (omega arith) (inl refl))

write_config-releases_example :
    LastWrite net gev_ccp 0 (write_config net persistent fresh).0.sent
    × ((write_config net persistent fresh).1
        ≡ (update_config net persistent (write_register net gev_ccp 1 fresh).0).1)
write_config-releases_example = write_config-releases net persistent fresh claimed

-- A network that never answers.
abbrev deaf : Registers → Bytes → Registers × Reply
deaf s p = (s, silent)

refused : (write_register deaf gev_ccp 1 fresh).1 ≡ err runtime_error
unfolding write_register send_and_receive attempts on_reply
refused = refl

send_and_receive-Repeats_example :
    Repeats deaf 3
      (packet readreg_cmd (get_next 65534).1 (append_uint32 [] 20))
      []
      (send_and_receive deaf readreg_cmd readreg_ack (append_uint32 [] 20) fresh).0.sent
send_and_receive-Repeats_example =
    send_and_receive-Repeats deaf readreg_cmd readreg_ack (append_uint32 [] 20) fresh

nth_id-distinct_example : (nth_id 3 ≢ nth_id (3 + 65534)) × (nth_id 3 ≢ (0, 0))
nth_id-distinct_example = nth_id-distinct 3 65534 (omega arith) (omega arith)

-- Thread 0 has made one call, while thread 1 has entered one.
abbrev one_call : System
one_call = record {
  counter = next_value 0;
  pc = update (update (update (update (λ _. idle) 0 head) 1 head) 0 (loaded 0)) 0 idle;
  issued = (0, next_value 0) ∷ [];
}

Reach-one_call : Reach one_call
unfolding ℕ_discrete
Reach-one_call =
    next (next (next (next here (call 0 refl)) (call 1 refl)) (load 0 refl)) (exchange 0 refl refl)

issued_sequential_example : values ((0, next_value 0) ∷ []) ≡ sequential 1
issued_sequential_example = issued_sequential Reach-one_call
