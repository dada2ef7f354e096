-- ===== src/Examples/Network.antt =====
-- The theorems on discovery, sockets and broadcasts, applied to a small network.
use rcdiscover.Base.{
  if◌then◌else◌, ◌≡◌, refl, true, List, [], ◌∷◌, ◌++◌, Option, none, some, Bytes, codes, length,
  replicate, text_eq, All, arith,
}
use rcdiscover.Words.{to_byte_array}
use rcdiscover.DeviceInfo
use rcdiscover.DeviceInfo.{DeviceInfo, make}
use rcdiscover.DeviceInfo.Bounds.{Returns}
use rcdiscover.DeviceInfo.Layout.{IsSendable, message, set-message}
use rcdiscover.Socket.{enetunreach, Socket, Ifaddr, Os, af_inet, send}
use rcdiscover.Socket.Interfaces.{limited}
use rcdiscover.Discover.{
  Shared, datagram, Event, receive, respond, broadcast_request, listen_round, run, has_id,
  get_response,
}
use rcdiscover.Discover.Acknowledge.{ack_header, packet, listen_round-packet}
use rcdiscover.Discover.Broadcast.{
  OnlyUnreachable, start, ids_from, sent_from, broadcast_request_lem,
}
use rcdiscover.Discover.Listening.{run-Returns}
use rcdiscover.Discover.Interleaving.{found_in, run-found}
use rcdiscover.ForceIp.{force_ip_command, with_id, send_command}
use rcdiscover.ForceIp.Layout.{field, field-force_ip_command}
use rcdiscover.ForceIp.Broadcast.{traffic, commands_from, send_command_lem}
use rcdiscover.Wol.{Wol, send_impl}
use rcdiscover.Wol.Packet.{IsMagic, send_impl-IsMagic}

-- A device with the addresses 00:14:2d:12:34:56 and 10.0.2.99/24.
abbrev pub visard : DeviceInfo
visard = record {
  iface_name = [];
  major = 1;
  minor = 2;
  mac = 0x00142d_123456;
  ip = 0x0a000263;
  subnet = 0xffffff00;
  gateway = 0;
  manufacturer_name = codes "Roboception";
  model_name = codes "rc_visard 65";
  device_version = codes "v1.6.0";
  manufacturer_info = [];
  serial_number = codes "02912345";
  user_name = codes "left";
}

visard-IsSendable : IsSendable visard
visard-IsSendable = record {
  major_fits = omega arith;
  minor_fits = omega arith;
  mac_fits = omega arith;
  ip_fits = omega arith;
  subnet_fits = omega arith;
  gateway_fits = omega arith;
  manufacturer_name_fits = omega arith;
  model_name_fits = omega arith;
  device_version_fits = omega arith;
  manufacturer_info_fits = omega arith;
  serial_number_fits = omega arith;
  user_name_fits = omega arith;
}

set-message_example :
    DeviceInfo.set (message (ack_header 248 (0, 7)) visard 0 []) 8 248 (make (codes "eth0"))
    ≡ some (record visard { iface_name = (make (codes "eth0")).iface_name })
set-message_example =
    set-message (ack_header 248 (0, 7)) visard (make (codes "eth0")) 248 0 [] refl (omega arith)
      visard-IsSendable

-- The listeners wait for the answers to the requests 6 and 7.
abbrev waiting : Shared
waiting = record { req_nums = (0, 6) ∷ (0, 7) ∷ []; pending = [] }

id-known : has_id (0, 7) waiting.req_nums ≡ true
unfolding has_id
id-known = refl

listen_round-packet_example :
    listen_round
      (codes "eth0")
      (datagram 256 (packet (codes "eth0") 256 248 0 0 7 visard [] waiting))
      waiting
    ≡ some (record waiting { pending = record visard { iface_name = codes "eth0" } ∷ [] })
listen_round-packet_example =
    listen_round-packet (codes "eth0") 256 248 0 0 7 visard [] waiting visard-IsSendable
      (omega arith) (omega arith) (omega arith) id-known

-- The receive buffer behind the device's answer.
abbrev answer : Bytes
answer = packet (codes "eth0") 256 248 0 0 7 visard (replicate 343 0) waiting

-- A datagram that is too short, the answer of the device, and a call of `getResponse`.
abbrev traffic_in : List Event
traffic_in =
    receive (codes "eth0") (datagram 3 (replicate 600 0))
    ∷ receive (codes "eth0") (datagram 256 answer)
    ∷ respond
    ∷ []

abbrev seen : DeviceInfo
seen = record visard { iface_name = codes "eth0" }

run-Returns_example : Returns (run traffic_in waiting [])
unfolding to_byte_array
run-Returns_example = run-Returns traffic_in waiting [] (omega arith)

heard :
    listen_round (codes "eth0") (datagram 256 answer) waiting
    ≡ some (record waiting { pending = seen ∷ [] })
heard =
    listen_round-packet (codes "eth0") 256 248 0 0 7 visard (replicate 343 0) waiting
      visard-IsSendable (omega arith) (omega arith) (omega arith) id-known

too_short : listen_round (codes "eth0") (datagram 3 (replicate 600 0)) waiting ≡ some waiting
unfolding listen_round
too_short = refl

ran : run traffic_in waiting [] ≡ some (waiting, seen ∷ [])
unfolding run get_response
ran = rw (too_short, heard) refl

run-found_example : (seen ∷ []) ++ [] ≡ ([] ++ []) ++ found_in waiting.req_nums traffic_in
run-found_example = run-found traffic_in waiting waiting [] (seen ∷ []) ran

-- An operating system on which everything works.
abbrev pub linux : Os
linux = record {
  socket = λ name ip. none;
  setsockopt = λ s. none;
  bind = λ s ip port. none;
  local_port = λ s. 45123;
  fcntl = λ s. none;
  sendto = λ s b. none;
}

abbrev pub eth0 : Ifaddr
eth0 = record {
  is_up = true;
  name = some (codes "eth0");
  addr = some (af_inet, 0x0a000201);
  broadaddr = some 0x0a0002ff;
}

abbrev two_sockets : List Socket
two_sockets =
    limited linux 3956 (codes "eth0") 0x0a000201 0x0a0002ff
    ∷ limited linux 3956 (codes "eth1") 0xc0a80001 0xc0a800ff
    ∷ []

-- The network of the second interface cannot be reached.
abbrev partly : Os
partly = record linux {
  sendto = λ s b. if text_eq s.iface_name (codes "eth1") then some enetunreach else none;
}

partly-OnlyUnreachable : OnlyUnreachable partly two_sockets
unfolding send text_eq
partly-OnlyUnreachable b = (λ e h. cc, (λ e h. cc, tt))

linux-OnlyUnreachable : OnlyUnreachable linux two_sockets
unfolding send
linux-OnlyUnreachable b = (λ e h. cc, (λ e h. cc, tt))

broadcast_request_lem_example :
    ((broadcast_request partly [] two_sockets (start 65534 [] [])).1 ≡ none)
    × ((broadcast_request partly [] two_sockets (start 65534 [] [])).0.req_nums
        ≡ ids_from [] 65534 two_sockets)
    × ((broadcast_request partly [] two_sockets (start 65534 [] [])).0.wire
        ≡ sent_from partly [] 65534 two_sockets)
broadcast_request_lem_example =
    broadcast_request_lem partly [] two_sockets 65534 [] [] partly-OnlyUnreachable

field-force_ip_command_example :
    (length (with_id (force_ip_command 0x00142d_123456 0x0a000263 0xffffff00 0) (1, 2)) ≡ 64)
    × (field 2 2 (with_id (force_ip_command 0x00142d_123456 0x0a000263 0xffffff00 0) (1, 2)) ≡ 4)
    × (field 4 2 (with_id (force_ip_command 0x00142d_123456 0x0a000263 0xffffff00 0) (1, 2)) ≡ 56)
    × (field 10 6 (with_id (force_ip_command 0x00142d_123456 0x0a000263 0xffffff00 0) (1, 2))
        ≡ 0x00142d_123456)
    × (field 28 4 (with_id (force_ip_command 0x00142d_123456 0x0a000263 0xffffff00 0) (1, 2))
        ≡ 0x0a000263)
    × (field 44 4 (with_id (force_ip_command 0x00142d_123456 0x0a000263 0xffffff00 0) (1, 2))
        ≡ 0xffffff00)
    × (field 60 4 (with_id (force_ip_command 0x00142d_123456 0x0a000263 0xffffff00 0) (1, 2)) ≡ 0)
field-force_ip_command_example =
    field-force_ip_command 0x00142d_123456 0x0a000263 0xffffff00 0 (1, 2) (omega arith)
      (omega arith) (omega arith) (omega arith)

send_command_lem_example :
    ((send_command linux two_sockets 0x00142d_123456 0 0 0 (traffic 3 [])).1 ≡ none)
    × ((send_command linux two_sockets 0x00142d_123456 0 0 0 (traffic 3 [])).0.wire
        ≡ commands_from linux 0x00142d_123456 0 0 0 3 two_sockets)
send_command_lem_example =
    send_command_lem linux 0x00142d_123456 0 0 0 two_sockets 3 [] linux-OnlyUnreachable

abbrev sleeper : Wol
sleeper = record { hardware_addr = 0 ∷ 0x14 ∷ 0x2d ∷ 0x12 ∷ 0x34 ∷ 0x56 ∷ []; port = 9 }

abbrev reset_all : Option Bytes
reset_all = some (0xee ∷ 0xee ∷ 0xee ∷ 0xff ∷ [])

send_impl-IsMagic_example :
    All (IsMagic sleeper reset_all) (send_impl linux (eth0 ∷ []) sleeper reset_all []).0
send_impl-IsMagic_example = send_impl-IsMagic linux sleeper reset_all (eth0 ∷ []) [] tt
