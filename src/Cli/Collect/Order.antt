-- ===== src/Cli/Collect/Order.antt =====
-- `operator<` of `DeviceInfo` is a linear order on MAC address and interface name.
use rcdiscover.Base.{text_lt_asym, text_le_trans, text_tri, ◌≡◌, true, false, arith}
use rcdiscover.DeviceInfo.{DeviceInfo, info_lt}
use rcdiscover.Cli.Collect.{same_key}

pub info_lt_asym : (a b : DeviceInfo) → info_lt a b ≡ true → info_lt b a ≡ false
unfolding info_lt
info_lt_asym a b h = ground (arith, text_lt_asym a.iface_name b.iface_name)

pub info_le_trans :
    (a b c : DeviceInfo) → info_lt b a ≡ false → info_lt c b ≡ false → info_lt c a ≡ false
unfolding info_lt
info_le_trans a b c h k = ground (arith, text_le_trans a.iface_name b.iface_name c.iface_name)

pub info_tri : (a b : DeviceInfo) → info_lt a b ≡ false → info_lt b a ≡ false → same_key a b ≡ true
unfolding info_lt same_key
info_tri a b h k = ground (arith, text_tri a.iface_name b.iface_name)
