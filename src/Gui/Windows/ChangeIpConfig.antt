-- ===== src/Gui/Windows/ChangeIpConfig.antt =====
-- `ChangeIPConfigWindow` of tools/rcdiscover-gui/change_ip_config_window.cc, with the constructor of
-- `GvcpIPConfig` (rcdiscover/gvcp_ip_config.cc) that it calls. The state of the network is `S`, and
-- `net` says what happens to a packet that is sent to a socket.
use rcdiscover.Base.{
  ℕ, Bool, false, not, ◌&&◌, ◌||◌, List, [], Bytes, ◌==◌, if◌then◌else◌, is_empty, none, some,
  Result, ok, err,
}
use rcdiscover.Socket.{Socket, Os, create, check, ◌>>=◌}
use rcdiscover.Gvcp.{IpConfig, World, Reply, read_config, write_config}
use rcdiscover.Gui.Inputs.{
  DeviceChoice, choice_mac, choice_ip, update_choice, get_ip, set_ip, is_valid_ip,
}
use rcdiscover.Gui.Windows.{
  Addresses, all_valid, network, gateway_network, suggest_gateway, suggest_subnet, Alert,
}

pub record ChangeIpConfigWindow : Type 0 where
  pub device : DeviceChoice
  pub mac : Bytes
  pub current_ip : Bytes
  pub persistent_ip_enabled : Bool
  pub dhcp_enabled : Bool
  pub addresses : Addresses
  pub mac_active : Bool
  pub current_ip_active : Bool
  pub addresses_active : Bool
  pub set_config_active : Bool
  pub shown : Bool

-- `current_ip->isValid() && persistent_ok`.
abbrev pub is_complete : ChangeIpConfigWindow → Bool
is_complete w = is_valid_ip w.current_ip && (not w.persistent_ip_enabled || all_valid w.addresses)

unfoldable pub update : ChangeIpConfigWindow → ChangeIpConfigWindow
update w = record w {
  mac_active = is_empty (choice_mac w.device);
  current_ip_active = is_empty (choice_mac w.device);
  addresses_active = w.persistent_ip_enabled;
  set_config_active = is_complete w;
}

unfoldable pub do_subnet_mask : ChangeIpConfigWindow → ChangeIpConfigWindow
unfolding update
do_subnet_mask w = update (record w { addresses = suggest_gateway w.addresses })

unfoldable pub do_ip : ChangeIpConfigWindow → ChangeIpConfigWindow
unfolding do_subnet_mask
do_ip w = do_subnet_mask (record w { addresses = suggest_subnet w.addresses })

unfoldable pub is_clear : ChangeIpConfigWindow → ChangeIpConfigWindow
unfolding update
is_clear w =
    update (record w { addresses = record { ip = []; subnet_mask = []; default_gateway = [] } })

-- The constructor of `GvcpIPConfig` for an address.
unfoldable pub gvcp_ip_config : Os → ℕ → Result Socket
gvcp_ip_config os ip = do s ← create os ip 3956 []; check (os.fcntl s) s

-- The fields as `readCurrentConfigFromDevice` sets them for a configuration.
unfoldable pub show_config : IpConfig → ChangeIpConfigWindow → ChangeIpConfigWindow
show_config c w = record w {
  persistent_ip_enabled = c.persistent_ip_enabled;
  dhcp_enabled = c.dhcp_enabled;
  addresses = record {
    ip = set_ip c.persistent_ip;
    subnet_mask = set_ip c.persistent_subnet;
    default_gateway = set_ip c.persistent_gateway;
  };
}

-- The configuration that `isSet` makes of the fields.
unfoldable pub config_of : ChangeIpConfigWindow → IpConfig
config_of w = record {
  persistent_ip_enabled = w.persistent_ip_enabled;
  dhcp_enabled = w.dhcp_enabled;
  persistent_ip = get_ip w.addresses.ip;
  persistent_subnet = get_ip w.addresses.subnet_mask;
  persistent_gateway = get_ip w.addresses.default_gateway;
}

-- `isSet` asks no more than the last question.
unfoldable pub is_allowed : Bool → ChangeIpConfigWindow → Bool
is_allowed proceed w =
    is_complete w
    && (not w.persistent_ip_enabled
        || network w.addresses == gateway_network w.addresses
        || proceed)

module _ {S : Type 0} (os : Os) (net : Socket → S → Bytes → S × Reply) where
  abbrev shown_config :
      ChangeIpConfigWindow → World S × Result IpConfig → ChangeIpConfigWindow × World S
  shown_config w (world, ok c) = (show_config c w, world)
  shown_config w (world, err e) = (w, world)

  abbrev read_from : ChangeIpConfigWindow → World S → Result Socket → ChangeIpConfigWindow × World S
  read_from w world (err e) = (w, world)
  read_from w world (ok s) = shown_config w (read_config (net s) world)

  unfoldable pub read_current_config_from_device :
      ChangeIpConfigWindow → World S → ChangeIpConfigWindow × World S
  read_current_config_from_device w world =
      if is_valid_ip w.current_ip
      then read_from w world (gvcp_ip_config os (get_ip w.current_ip))
      else (w, world)

  unfoldable pub is_changing_current_ip :
      ChangeIpConfigWindow → World S → ChangeIpConfigWindow × World S
  unfolding read_current_config_from_device update
  is_changing_current_ip w world =
      let r = read_current_config_from_device w world in (update r.0, r.1)

  unfoldable pub is_changing_device :
      ChangeIpConfigWindow → World S → ChangeIpConfigWindow × World S
  unfolding read_current_config_from_device update
  is_changing_device w world =
      let r =
        read_current_config_from_device
          (record w { mac = choice_mac w.device; current_ip = choice_ip w.device }) world in
      (update r.0, r.1)

  unfoldable pub update_devices :
      List (Bytes × Bytes × Bytes)
      → Bytes
      → ChangeIpConfigWindow
      → World S
      → ChangeIpConfigWindow × World S
  unfolding is_changing_device update
  update_devices list sel_mac w world =
      let r = is_changing_device (record w { device = update_choice list sel_mac }) world in
      (update r.0, r.1)

  -- The window after `isSet`, the world, and the alert.
  pub record Outcome : Type 0 where
    pub window : ChangeIpConfigWindow
    pub world : World S
    pub alert : Alert

  abbrev pub written : ChangeIpConfigWindow → World S × Result (Unit {0}) → Outcome
  written w (world, ok _) = record {
    window = record w { shown = false };
    world = world;
    alert = none;
  }
  written w (world, err e) = record { window = w; world = world; alert = some e }

  -- `isSet` behind the constructor of `GvcpIPConfig`.
  unfoldable pub set_confirmed : Bool → ChangeIpConfigWindow → World S → Result Socket → Outcome
  set_confirmed sure w world (err e) = record { window = w; world = world; alert = some e }
  set_confirmed sure w world (ok s) =
      if sure
      then written w (write_config (net s) (config_of w) world)
      else record { window = w; world = world; alert = none }

  -- `isSet`; `proceed` and `sure` are the answers to its questions.
  unfoldable pub is_set : Bool → Bool → ChangeIpConfigWindow → World S → Outcome
  unfolding set_confirmed
  is_set proceed sure w world =
      if is_allowed proceed w
      then set_confirmed sure w world (gvcp_ip_config os (get_ip w.current_ip))
      else record { window = w; world = world; alert = none }
