-- ===== src/Gui/DiscoverWindow/Listed.antt =====
-- The table of the graphical tool shows every device that answered, and no other.
use rcdiscover.Base.{
  ◌==◌, not, ℕ, ◌≡◌, refl, sym, ◌∙◌, ap, subst, Bool, true, false, ◌&&◌, ◌||◌, Bool-cases,
  Option-cases, inl, inr, List, [], ◌∷◌, ◌++◌, Option, none, some, Bytes, length, get_elem?,
  get_elem?_total, text_eq, if◌then◌else◌, arith,
}
use rcdiscover.Text.{ip2string, mac2string}
use rcdiscover.DeviceInfo.{DeviceInfo, is_valid}
use rcdiscover.Gui.DeviceList.{
  DeviceListData, DeviceList, has_member, is_visible, insert_index, add_device_index, clear,
  find_mac, add_interface, new_device, push_device, add,
}
use rcdiscover.Gui.DeviceList.Valid.{
  IsValid, macs, macs-append, macs-set, add_interface-mac, find_mac-none, find_mac-within,
  add-Succeeds,
}
use rcdiscover.Gui.Inputs.Choice.{text_eq-eq}
use rcdiscover.Gui.DiscoverWindow.{
  add_info, add_infos, add_rounds, discover_thread, check_reachability_of_sensor, add_checked,
  Shell, ping_command,
}

-- The index does not change the devices.
add_device_index-device :
    (s : DeviceList) (i : ℕ) (t : DeviceList) → add_device_index s i ≡ some t → t.device ≡ s.device
unfolding add_device_index
add_device_index-device s i t h = elim (Option-cases (get_elem? s.device i)) [
  | inl e ↦ cc (rw (e) at h)
  | inr (d, e) ↦ elim (Bool-cases (is_visible s.filter_rc s.filter_value d)) [
    | inr f ↦ ap device_of (sym (rw (e, f) at h))
    | inl f ↦ elim (Option-cases (insert_index s i s.index)) [
      | inl g ↦ cc (rw (e, f, g) at h)
      | inr (is, g) ↦ ap device_of (sym (rw (e, f, g) at h))
    ]
  ]
]
  where
    device_of : Option DeviceList → List DeviceListData
    device_of none = []
    device_of (some u) = u.device

-- The addresses in the table after `add`.
abbrev with_mac : Bytes → List Bytes → List Bytes
with_mac mac xs = if has_member mac xs then xs else xs ++ mac ∷ []

find_mac-member :
    (ds : List DeviceListData) (mac : Bytes) (k : ℕ)
    → find_mac ds mac ≡ some k
    → has_member mac (macs ds) ≡ true
unfolding find_mac
find_mac-member [] mac k h = cc
find_mac-member (d ∷ ds) mac k h = elim (Bool-cases (text_eq d.mac mac)) [
  | inl e ↦ ground (arith, e)
  | inr e ↦ elim (Option-cases (find_mac ds mac)) [
    | inl f ↦ cc (rw (find_mac, e, f) at h)
    | inr (j, f) ↦ let there = find_mac-member ds mac j f in ground (arith, there)
  ]
]

push_device-macs :
    (s : DeviceList) (d : DeviceListData) (t : DeviceList)
    → push_device s d ≡ some t
    → macs t.device ≡ macs s.device ++ d.mac ∷ []
unfolding push_device
push_device-macs s d t h =
    ap macs (
      add_device_index-device
        (record s {
          new_discovery = s.new_discovery || d.new_discovery;
          device = s.device ++ d ∷ [];
        })
        (length s.device) t h)
    ∙ macs-append s.device d

device_of : DeviceList → Option DeviceList → List DeviceListData
device_of s none = s.device
device_of s (some t) = t.device

add-macs :
    (s : DeviceList) (name manufacturer model sn ip mac interface : Bytes) (reachable : Bool)
    (t : DeviceList)
    → add s name manufacturer model sn ip mac interface reachable ≡ some t
    → macs t.device ≡ with_mac mac (macs s.device)
unfolding add device_of new_device
add-macs s name manufacturer model sn ip mac interface reachable t h =
    elim (Option-cases (find_mac s.device mac)) [
      | inl e ↦
          push_device-macs s
            (new_device s.previous_mac_list name manufacturer model sn ip mac interface reachable) t
            (rw (add, e) at h)
          ∙ (rw (find_mac-none s.device mac e) refl)
      | inr (k, e) ↦
          let (d, f) = get_elem?_total s.device k (find_mac-within s.device mac k e) in
          ap macs (ap (device_of s) (sym (rw (add, e, f) at h)))
          ∙ macs-set s.device k d (add_interface d interface reachable) f
              (add_interface-mac d interface reachable)
          ∙ (rw (find_mac-member s.device mac k e) refl)
    ]

has_member-append :
    (m x : Bytes) (xs : List Bytes) → has_member m (xs ++ x ∷ []) ≡ (has_member m xs || text_eq x m)
has_member-append m x [] = ground arith
has_member-append m x (y ∷ xs) = ground (arith, has_member-append m x xs)

with_mac-member :
    (m x : Bytes) (xs : List Bytes)
    → has_member m (with_mac x xs) ≡ (has_member m xs || text_eq x m)
with_mac-member m x xs = elim (Bool-cases (has_member x xs)) [
  | inr e ↦ rw (e) (has_member-append m x xs)
  | inl e ↦ elim (Bool-cases (text_eq x m)) [
    | inr f ↦ rw (e, f) (ground arith)
    | inl f ↦
        let there : has_member m xs ≡ true =
          subst (λ y. has_member y xs ≡ true) (text_eq-eq x m f) e in
        rw (e, f, there) refl
  ]
]

-- An answer of a device with the MAC address that prints as `m` is among the answers.
abbrev pub has_answer : Bytes → List DeviceInfo → Bool
has_answer m [] = false
has_answer m (info ∷ infos) =
    (is_valid info && text_eq (mac2string info.mac) m) || has_answer m infos

abbrev pub has_answer_in : Bytes → List (List DeviceInfo) → Bool
has_answer_in m [] = false
has_answer_in m (infos ∷ rounds) = has_answer m infos || has_answer_in m rounds

abbrev is_some : {A : Type 0} → Option A → Bool
is_some none = false
is_some (some a) = true

-- The reachability of the device is to be checked, and its check cannot be run.
abbrev pub fails : Shell → DeviceInfo → Bool
fails shell info = is_valid info && not (is_some (shell (ping_command info)))

-- The answers before the first one whose check cannot be run, and whether there is such a one.
abbrev pub until_failure : Shell → List DeviceInfo → List DeviceInfo × Bool
until_failure shell [] = ([], false)
until_failure shell (info ∷ infos) =
    let rest = until_failure shell infos in
    if fails shell info then ([], true) else (info ∷ rest.0, rest.1)

abbrev pub rounds_until_failure : Shell → List (List DeviceInfo) → List (List DeviceInfo) × Bool
rounds_until_failure shell [] = ([], false)
rounds_until_failure shell (infos ∷ rounds) =
    let this = until_failure shell infos in
    let rest = rounds_until_failure shell rounds in
    if this.1 then (this.0 ∷ [], true) else (this.0 ∷ rest.0, rest.1)

-- The answers were entered into the table: `answered` is asked for a MAC address.
record Entered (s : DeviceList) (answered : Bytes → Bool) (stop : Bool)
    (o : Option (DeviceList × Bool)) : Type 0 where
  t : DeviceList
  returns : o ≡ some (t, stop)
  valid : IsValid t
  listed : (m : Bytes) → has_member m (macs t.device) ≡ (has_member m (macs s.device) || answered m)

or_assoc : (a b c : Bool) → ((a || b) || c) ≡ (a || (b || c))
or_assoc a b c = ground arith

or_false_right : (a b : Bool) → (a || b) ≡ (a || (b || false))
or_false_right a b = ground arith

Entered-none :
    (s : DeviceList) (stop : Bool) → IsValid s → Entered s (λ m. false) stop (some (s, stop))
Entered-none s stop v = record { t = s; returns = refl; valid = v; listed = λ m. ground arith }

add_checked-Entered :
    (s : DeviceList) (reachable : Bool) (info : DeviceInfo)
    → IsValid s
    → Entered s (λ m. text_eq (mac2string info.mac) m) false (add_checked (some reachable) s info)
unfolding add_checked
add_checked-Entered s reachable info v =
    let (t, f, w) =
      add-Succeeds s info.user_name info.manufacturer_name info.model_name info.serial_number
        (ip2string info.ip) (mac2string info.mac) info.iface_name reachable v in
    record {
      t = t;
      returns = rw (f) refl;
      valid = w;
      listed = λ m.
          ap (has_member m) (
            add-macs s info.user_name info.manufacturer_name info.model_name info.serial_number
              (ip2string info.ip) (mac2string info.mac) info.iface_name reachable t f)
          ∙ with_mac-member m (mac2string info.mac) (macs s.device);
    }

add_info-Entered :
    (shell : Shell) (s : DeviceList) (info : DeviceInfo)
    → IsValid s
    → fails shell info ≡ false
    → Entered s
        (λ m. is_valid info && text_eq (mac2string info.mac) m)
        false
        (add_info shell s info)
unfolding add_info check_reachability_of_sensor
add_info-Entered shell s info v f = elim (Bool-cases (is_valid info)) [
  | inr e ↦ record {
    t = s;
    returns = rw (add_info, e) refl;
    valid = v;
    listed = λ m. rw (e) (ground arith);
  }
  | inl e ↦ elim (Option-cases (shell (ping_command info))) [
    | inl n ↦ cc (rw (e, n) at f)
    | inr (code, n) ↦
        let en = add_checked-Entered s (code == 0) info v in
        record {
          t = en.t;
          returns = rw (add_info, e, check_reachability_of_sensor, n) en.returns;
          valid = en.valid;
          listed = λ m. en.listed m ∙ (rw (e) refl);
        }
  ]
]

add_info-fails :
    (shell : Shell) (s : DeviceList) (info : DeviceInfo)
    → fails shell info ≡ true
    → add_info shell s info ≡ some (s, true)
unfolding add_info check_reachability_of_sensor add_checked
add_info-fails shell s info f = elim (Bool-cases (is_valid info)) [
  | inr e ↦ cc (rw (e) at f)
  | inl e ↦ elim (Option-cases (shell (ping_command info))) [
    | inl n ↦ rw (add_info, e, check_reachability_of_sensor, n) refl
    | inr (code, n) ↦ cc (rw (e, n) at f)
  ]
]

add_infos-Entered :
    (shell : Shell) (s : DeviceList) (infos : List DeviceInfo)
    → IsValid s
    → Entered s
        (λ m. has_answer m (until_failure shell infos).0)
        (until_failure shell infos).1
        (add_infos shell s infos)
unfolding add_infos
add_infos-Entered shell s [] v = Entered-none s false v
add_infos-Entered shell s (info ∷ infos) v = elim (Bool-cases (fails shell info)) [
  | inl f ↦ record {
    t = s;
    returns = rw (add_infos, add_info-fails shell s info f, f) refl;
    valid = v;
    listed = λ m. rw (f) (ground arith);
  }
  | inr f ↦
      let a = add_info-Entered shell s info v f in
      let b = add_infos-Entered shell a.t infos a.valid in
      record {
        t = b.t;
        returns = rw (add_infos, a.returns, f) b.returns;
        valid = b.valid;
        listed = λ m. rw (f) (
            b.listed m
            ∙ ap (λ x. x || has_answer m (until_failure shell infos).0) (a.listed m)
            ∙ or_assoc (has_member m (macs s.device))
                (is_valid info && text_eq (mac2string info.mac) m)
                (has_answer m (until_failure shell infos).0));
      }
]

add_rounds-Entered :
    (shell : Shell) (s : DeviceList) (rounds : List (List DeviceInfo))
    → IsValid s
    → Entered s
        (λ m. has_answer_in m (rounds_until_failure shell rounds).0)
        (rounds_until_failure shell rounds).1
        (add_rounds shell s rounds)
unfolding add_rounds
add_rounds-Entered shell s [] v = Entered-none s false v
add_rounds-Entered shell s (infos ∷ rounds) v =
    let a = add_infos-Entered shell s infos v in
    elim (Bool-cases (until_failure shell infos).1) [
      | inl f ↦ record {
        t = a.t;
        returns = rw (add_rounds, a.returns, f) refl;
        valid = a.valid;
        listed = λ m. rw (f) (
            a.listed m
            ∙ or_false_right (has_member m (macs s.device))
                (has_answer m (until_failure shell infos).0));
      }
      | inr f ↦
          let b = add_rounds-Entered shell a.t rounds a.valid in
          record {
            t = b.t;
            returns = rw (add_rounds, a.returns, f) b.returns;
            valid = b.valid;
            listed = λ m. rw (f) (
                b.listed m
                ∙ ap (λ x. x || has_answer_in m (rounds_until_failure shell rounds).0) (a.listed m)
                ∙ or_assoc (has_member m (macs s.device))
                    (has_answer m (until_failure shell infos).0)
                    (has_answer_in m (rounds_until_failure shell rounds).0));
          }
    ]

-- For a valid list, the discovery thread returns a valid list, in which no MAC address stands twice,
-- and a MAC address stands in it exactly if a valid answer with this address arrived in some round,
-- before the first valid answer whose ping command cannot be run; if there is such an answer, the
-- exception of `checkReachabilityOfSensor` has ended the loop.
pub discover_thread-listed :
    (shell : Shell) (s : DeviceList) (rounds : List (List DeviceInfo))
    → IsValid s
    → (t : DeviceList) × (discover_thread shell s rounds
        ≡ some (t, (rounds_until_failure shell rounds).1))
      × IsValid t
      × ((m : Bytes)
          → has_member m (macs t.device) ≡ has_answer_in m (rounds_until_failure shell rounds).0)
unfolding discover_thread clear
discover_thread-listed shell s rounds v =
    let a =
      add_rounds-Entered shell (clear s) rounds
        (record { column = v.column; within = tt; distinct = tt }) in
    (a.t, a.returns, a.valid, a.listed)
