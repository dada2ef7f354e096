-- ===== src/Gui/Worker/Backup.antt =====
-- The backup files of tools/rcdiscover-gui/worker.cc: `storeBackupWorker` writes the calibration, a
-- line of '=' and the license; `resetFromFileWorker` splits the file again and reads the serial
-- numbers from the data of the license.
pub mod Scan
pub mod RoundTrip
use rcdiscover.Base.{
  ℕ, zero, suc, ◌+◌, ◌-◌, Bool, true, false, not, ◌&&◌, ltb, List, [], ◌∷◌, ◌++◌, Option, none,
  some, Bytes, codes, is_empty, length, take, drop, text_eq, ◌==◌, if◌then◌else◌,
}
use rcdiscover.Text.{last_or}
use rcdiscover.Gui.DeviceList.{is_prefix}

abbrev pub newline : Bytes
newline = codes "\n"

abbrev pub separator : Bytes
separator = codes "===================="

-- What `storeBackupWorker` writes into the file.
unfoldable pub backup_text : Bytes → Bytes → Bytes
backup_text calib license =
    let ended =
      if not (is_empty calib) && not (last_or 0 calib == b'\n') then calib ++ newline else calib in
    ended ++ (separator ++ newline ++ license)

-- The next character is '='; behind the text stands the terminating zero.
unfoldable pub starts_rule : Bytes → Bool
starts_rule [] = false
starts_rule (c ∷ s) = c == b'='

-- The loop over the characters from number `i` on: `i1`, where `none` is -1, and `i2`.
unfoldable pub scan : ℕ → Option ℕ → Bytes → Option ℕ × ℕ
unfolding starts_rule
scan i i1 [] = (i1, 0)
scan i (some k) (c ∷ s) =
    let other = scan (suc i) none s in
    let same = scan (suc i) (some k) s in
    if c == b'\n' then (some k, i) else (if not (c == b'=') then other else same)
scan i none (c ∷ s) =
    let found = scan (suc i) (some i) s in
    let skipped = scan (suc i) none s in if c == b'\n' && starts_rule s then found else skipped

-- `all.substr(0, i1)`, where -1 is `npos`.
abbrev pub up_to : Option ℕ → Bytes → Bytes
up_to none all = all
up_to (some k) all = take k all

-- The calibration and the license, or none if the file is invalid.
unfoldable pub split_backup : Bytes → Option (Bytes × Bytes)
unfolding scan
split_backup all =
    let marks = scan 0 (some 0) all in
    if marks.1 == 0 then none else some (up_to marks.0 all, drop (marks.1 + 1) all)

-- `s.compare(s.size()-n, n, suffix) == 0` for a suffix of `n` characters.
abbrev pub is_suffix : Bytes → Bytes → Bool
is_suffix suffix s = text_eq (drop (length s - length suffix) s) suffix

-- The text between the first six and the last `n` characters.
abbrev pub serial_of : ℕ → Bytes → Bytes
serial_of n line = take (length line - 6 - n) (drop 6 line)

-- `snleft` and `snright` after one more line of the data.
unfoldable pub read_serial : Bytes → Bytes × Bytes → Bytes × Bytes
unfolding text_eq
read_serial line (snleft, snright) =
    if is_prefix (codes "extra=") line && ltb 16 (length line)
    then (if is_suffix (codes ",type=left") line
        then (serial_of 10 line, snright)
        else (if is_suffix (codes ",type=right") line
            then (snleft, serial_of 11 line)
            else (snleft, snright)))
    else (snleft, snright)

-- The lines that `std::getline` reads, from the characters `read` of the line on.
unfoldable pub lines_from : Bytes → Bytes → List Bytes
lines_from read [] = read ∷ []
lines_from read (c ∷ s) =
    let ended = lines_from [] s in
    let longer = lines_from (read ++ c ∷ []) s in if c == b'\n' then read ∷ ended else longer

-- The loop over the lines.
unfoldable pub read_serials : List Bytes → Bytes × Bytes → Bytes × Bytes
unfolding read_serial
read_serials [] sns = sns
read_serials (line ∷ lines) sns = read_serials lines (read_serial line sns)

-- `snleft` and `snright` from the data of the license.
unfoldable pub license_serials : Bytes → Bytes × Bytes
unfolding lines_from read_serials
license_serials licdata = read_serials (lines_from [] licdata) ([], [])
