-- ===== src/Cli/Table.antt =====
-- `printTable` and `printDeviceTable` of tools/rcdiscover-cli/cli_utils.cc, which return what they
-- print.
pub mod Aligned
use rcdiscover.Base.{
  ℕ, ◌-◌, max, Bool, true, false, not, ◌&&◌, List, [], ◌∷◌, ◌++◌, Option, none, some, Bytes, codes,
  length, replicate, ltb, ◌==◌, if◌then◌else◌,
}
use rcdiscover.DeviceInfo.{DeviceInfo}
use rcdiscover.Text.{ip2string, mac2string}
use rcdiscover.Cli.Filter.{shown_name}

unfoldable pub max_columns : List (List Bytes) → ℕ → ℕ
max_columns [] n = n
max_columns (row ∷ rows) n = max_columns rows (max n (length row))

-- `column_width[col] = max(column_width[col], row[col].size())` for the cells of a row.
unfoldable pub widen : List ℕ → List Bytes → List ℕ
widen ws [] = ws
widen [] (c ∷ cs) = []
widen (w ∷ ws) (c ∷ cs) = max w (length c) ∷ widen ws cs

unfoldable pub column_width : List (List Bytes) → List ℕ → List ℕ
column_width [] ws = ws
column_width (row ∷ rows) ws = column_width rows (widen ws row)

abbrev pub prepend : Bytes → Option Bytes → Option Bytes
prepend s none = none
prepend s (some t) = some (s ++ t)

-- A row; `none` is a read outside `column_width`, or a number of blanks that is negative.
unfoldable pub print_row : List ℕ → List Bytes → Option Bytes
print_row ws [] = some []
print_row ws (c ∷ []) = some c
print_row [] (c ∷ d ∷ cs) = none
print_row (w ∷ ws) (c ∷ d ∷ cs) = elim (ltb w (length c)) [
  | true ↦ none
  | false ↦ prepend ((c ++ replicate (w - length c) b' ') ++ 9 ∷ []) (print_row ws (d ∷ cs))
]

unfoldable pub print_rows : List ℕ → List (List Bytes) → Option Bytes
print_rows ws [] = some []
print_rows ws (row ∷ rows) = elim (print_row ws row) [
  | none ↦ none
  | some s ↦ prepend (s ++ 10 ∷ []) (print_rows ws rows)
]

unfoldable pub print_table : List (List Bytes) → Option Bytes
print_table rows = print_rows (column_width rows (replicate (max_columns rows 0) 0)) rows

-- `to_be_printed.back().back() += "," + iface`.
unfoldable pub append_last : List Bytes → Bytes → List Bytes
append_last [] s = []
append_last (c ∷ []) s = (c ++ s) ∷ []
append_last (c ∷ d ∷ cs) s = c ∷ append_last (d ∷ cs) s

abbrev pub device_row : Bool → Bool → DeviceInfo → List Bytes
device_row true serialonly d = ip2string d.ip ∷ []
device_row false true d = d.serial_number ∷ []
device_row false false d =
    shown_name d
    ∷ d.serial_number
    ∷ ip2string d.ip
    ∷ mac2string d.mac
    ∷ d.model_name
    ∷ d.iface_name
    ∷ []

-- The loop behind the device `last`, with the row that was printed last.
unfoldable pub rows_after :
    Bool → Bool → DeviceInfo → List Bytes → List DeviceInfo → List (List Bytes)
rows_after iponly serialonly last row [] = row ∷ []
rows_after iponly serialonly last row (d ∷ ds) =
    elim (d.mac == last.mac && not iponly && not serialonly) [
      | true ↦ rows_after iponly serialonly last (append_last row (codes "," ++ d.iface_name)) ds
      | false ↦ row ∷ rows_after iponly serialonly d (device_row iponly serialonly d) ds
    ]

unfoldable pub device_rows : Bool → Bool → List DeviceInfo → List (List Bytes)
device_rows iponly serialonly [] = []
device_rows iponly serialonly (d ∷ ds) =
    rows_after iponly serialonly d (device_row iponly serialonly d) ds

abbrev pub header : Bool → List (List Bytes)
header false = []
header true =
    (codes "Name"
      ∷ codes "Serial Number"
      ∷ codes "IP"
      ∷ codes "MAC"
      ∷ codes "Model"
      ∷ codes "Interface(s)"
      ∷ [])
    ∷ []

unfoldable pub print_device_table : List DeviceInfo → Bool → Bool → Bool → Option Bytes
print_device_table devices print_header iponly serialonly =
    print_table (header print_header ++ device_rows iponly serialonly devices)
