-- ===== src/Examples/Windows.antt =====
-- The theorems on the windows of the graphical tool, applied to forms and a network.
use rcdiscover.Base.{
  ℕ, ◌%◌, ◌≡◌, ◌≢◌, refl, ◌∙◌, sym, ap, true, false, ◌||◌, ◌==◌, List, [], ◌∷◌, ◌++◌, none, some,
  Bytes, codes, arith, ok, text_eq,
}
use rcdiscover.Words.{and_bits}
use rcdiscover.Text.{
  mac2string, ip2string, hex_byte, hex_digit, decimal, skip_space, is_space, digit_value,
}
use rcdiscover.Socket.{
  Socket, create, bind_impl, create_and_bind_for_all_interfaces, entry_sockets, fields_sockets,
  interface_sockets, enable_all, send,
}
use rcdiscover.RequestCounter.{get_next, next_value}
use rcdiscover.ForceIp
use rcdiscover.ForceIp.{Traffic, force_ip, send_command}
use rcdiscover.Gvcp.{IpConfig, World, write_config}
use rcdiscover.Wol
use rcdiscover.Wol.{send_impl}
use rcdiscover.Gui.Inputs.{
  DeviceChoice, is_valid_ip, get_ip, without_ip, get_address, extract_fields, extract_number,
  extract, signed_number, number_value, number_digits, extract_char, skip_hex,
}
use rcdiscover.Gui.Inputs.Choice.{last_with_mac}
use rcdiscover.Gui.Windows.{Addresses, network, gateway_network}
use rcdiscover.Gui.Windows.SetTmpIp
use rcdiscover.Gui.Windows.SetTmpIp.{SetTmpIpWindow, is_complete}
use rcdiscover.Gui.Windows.Reconnect.{ReconnectWindow}
use rcdiscover.Gui.Windows.ChangeIpConfig
use rcdiscover.Gui.Windows.ChangeIpConfig.{
  ChangeIpConfigWindow, show_config, is_allowed, gvcp_ip_config,
}
use rcdiscover.Gui.Windows.Reset.{ResetWindow, reset_all, func_id, is_request}
use rcdiscover.Gui.Windows.Repeating.{rounds, is_request-rounds}
use rcdiscover.Gui.Windows.Sending.{shown_addresses, is_set-sends, is_set-writes}
use rcdiscover.Gui.Windows.Asking.{is_set-asks}
use rcdiscover.Examples.Device.{Registers, net}
use rcdiscover.Examples.Network.{linux, eth0}

abbrev device_mac : ℕ
device_mac = 0x00142d_123456

abbrev no_choice : DeviceChoice
no_choice = record { labels = codes "<CUSTOM>" ∷ []; value = 0; ip_list = [] ∷ [] }

abbrev typed : Addresses
typed = record { ip = codes "10.0.2.99"; subnet_mask = codes "255.255.255.0"; default_gateway = [] }

typed-valid : is_valid_ip (codes "10.0.2.99") ≡ true
unfolding get_ip get_address extract_fields extract_number extract skip_space is_space signed_number
    number_value number_digits extract_char digit_value skip_hex
typed-valid = refl

typed-mask_valid : is_valid_ip (codes "255.255.255.0") ≡ true
unfolding get_ip get_address extract_fields extract_number extract skip_space is_space signed_number
    number_value number_digits extract_char digit_value skip_hex
typed-mask_valid = refl

typed-mask_even : get_ip (codes "255.255.255.0") % 2 ≡ 0
unfolding get_ip get_address extract_fields extract_number extract skip_space is_space signed_number
    number_value number_digits extract_char digit_value skip_hex
typed-mask_even = refl

abbrev form : SetTmpIpWindow
form = record {
  device = no_choice;
  mac = mac2string device_mac;
  addresses = shown_addresses 0x0a000263 0xffffff00 0x0a000201;
  mac_active = true;
  set_ip_active = true;
  shown = true;
}

abbrev quiet : Traffic
quiet = record { counter = 0; wire = [] }

abbrev socket_to : ℕ → ℕ → ℕ → Socket
socket_to dst ip port = record {
  iface_name = codes "eth0";
  dst_ip = dst;
  dst_port = 3956;
  bound = some (ip, port);
}

abbrev sockets : List Socket
sockets =
    socket_to 0xffff_ffff 0x0a000201 0 ∷ socket_to 0 0 45123 ∷ socket_to 0x0a0002ff 0 45123 ∷ []

created : force_ip linux (eth0 ∷ []) ≡ ok sockets
unfolding force_ip create_and_bind_for_all_interfaces entry_sockets fields_sockets interface_sockets
    create bind_impl enable_all text_eq
created = refl

same_network :
    (and_bits 32 0x0a000263 0xffffff00 == and_bits 32 0x0a000201 0xffffff00 || false) ≡ true
unfolding and_bits
same_network = refl

is_set-sends_example :
    (SetTmpIp.is_set linux
      (eth0 ∷ [])
      false
      true
      (record form {
        mac = mac2string device_mac;
        addresses = shown_addresses 0x0a000263 0xffffff00 0x0a000201;
      })
      quiet).traffic
    ≡ (send_command linux sockets device_mac 0x0a000263 0xffffff00 0x0a000201 quiet).0
is_set-sends_example =
    is_set-sends linux (eth0 ∷ []) sockets form quiet device_mac 0x0a000263 0xffffff00 0x0a000201
      false (omega arith, omega arith) (omega arith, omega arith) (omega arith, omega arith)
      (omega arith, omega arith) created same_network

-- Two of the three sockets send, and all three requests are counted.
counted :
    (send_command linux sockets device_mac 0x0a000263 0xffffff00 0x0a000201 quiet).0.counter ≡ 3
unfolding send_command ForceIp.send_all get_next next_value send
counted = refl

sends : (SetTmpIp.is_set linux (eth0 ∷ []) false true form quiet).traffic ≢ quiet
sends e = absurd (omega (arith, counted, ap (λ t. t.counter) (sym is_set-sends_again ∙ e)))
  where
    is_set-sends_again :
        (SetTmpIp.is_set linux (eth0 ∷ []) false true form quiet).traffic
        ≡ (send_command linux sockets device_mac 0x0a000263 0xffffff00 0x0a000201 quiet).0
    is_set-sends_again =
        is_set-sends linux (eth0 ∷ []) sockets form quiet device_mac 0x0a000263 0xffffff00
          0x0a000201 false (omega arith, omega arith) (omega arith, omega arith)
          (omega arith, omega arith) (omega arith, omega arith) created same_network

is_set-asks_example :
    (is_complete form ≡ true)
    × (true ≡ true)
    × ((network form.addresses == gateway_network form.addresses || false) ≡ true)
is_set-asks_example = is_set-asks linux (eth0 ∷ []) false true form quiet sends

abbrev reconnect_window : ReconnectWindow
reconnect_window = record {
  device = no_choice;
  mac = [];
  mac_active = true;
  reconnect_active = false;
  shown = true;
}

abbrev devices : List (Bytes × Bytes)
devices = (codes "left", mac2string device_mac) ∷ (codes "right", codes "00:14:2d:00:00:02") ∷ []

chosen :
    last_with_mac (mac2string device_mac) (without_ip devices)
    ≡ some (codes "left", mac2string device_mac, [])
unfolding text_eq mac2string hex_byte hex_digit
chosen = refl

abbrev config : IpConfig
config = record {
  persistent_ip_enabled = true;
  dhcp_enabled = false;
  persistent_ip = 0x0a000263;
  persistent_subnet = 0xffffff00;
  persistent_gateway = 0x0a000201;
}

abbrev config_form : ChangeIpConfigWindow
config_form = record {
  device = no_choice;
  mac = [];
  current_ip = codes "10.0.2.99";
  persistent_ip_enabled = false;
  dhcp_enabled = false;
  addresses = typed;
  mac_active = true;
  current_ip_active = true;
  addresses_active = false;
  set_config_active = true;
  shown = true;
}

abbrev world : World Registers
world = record { env = λ a. 0; counter = 7; sent = [] }

abbrev gvcp_socket : Socket
gvcp_socket = record { iface_name = []; dst_ip = 0x0a000263; dst_port = 3956; bound = none }

config-allowed : is_allowed false (show_config config config_form) ≡ true
unfolding and_bits is_allowed show_config ip2string decimal get_ip get_address extract_fields
    extract_number extract skip_space is_space signed_number number_value number_digits extract_char
    digit_value skip_hex
config-allowed = refl

gvcp-created : gvcp_ip_config linux (get_ip (codes "10.0.2.99")) ≡ ok gvcp_socket
unfolding gvcp_ip_config create get_ip get_address extract_fields extract_number extract skip_space
    is_space signed_number number_value number_digits extract_char digit_value skip_hex
gvcp-created = refl

is_set-writes_example :
    (ChangeIpConfig.is_set linux (λ s. net) false true (show_config config config_form) world).world
    ≡ (write_config net config world).0
is_set-writes_example =
    is_set-writes linux (λ s. net) gvcp_socket config config_form world false
      (omega arith, omega arith, omega arith) config-allowed gvcp-created

abbrev reset_window : ResetWindow
reset_window = record {
  device = no_choice;
  mac = [];
  mac_active = true;
  buttons_active = false;
  shown = true;
}

-- The user agrees twice.
is_request-rounds_example :
    is_request linux
      (eth0 ∷ [])
      reset_all
      (true ∷ true ∷ false ∷ [])
      (record reset_window { mac = mac2string device_mac })
      []
    ≡ (let sent =
          rounds
            (send_impl linux
              (eth0 ∷ [])
              (Wol.make device_mac 9)
              (some (0xEE ∷ 0xEE ∷ 0xEE ∷ func_id reset_all ∷ []))
              [])
            (true ∷ true ∷ false ∷ []) in
        record {
          window = record reset_window { mac = mac2string device_mac; shown = false };
          wire = [] ++ sent.0;
          alert = sent.1;
        })
is_request-rounds_example =
    is_request-rounds linux (eth0 ∷ []) reset_all (true ∷ true ∷ false ∷ []) reset_window []
      device_mac (omega arith) (omega arith)
