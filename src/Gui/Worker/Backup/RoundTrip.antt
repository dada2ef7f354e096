-- ===== src/Gui/Worker/Backup/RoundTrip.antt =====
-- A backup that was stored is split into the calibration and the license.
use rcdiscover.Base.{
  ℕ, ◌+◌, ◌≡◌, refl, sym, ◌∙◌, ap, ap₂, false, List, [], ◌∷◌, ◌++◌, append_assoc, none, some, Bytes,
  is_empty, length, length-append, take, drop, ◌==◌, All, if◌then◌else◌, arith,
}
use rcdiscover.Text.{last_or}
use rcdiscover.Text.Splitting.{last_or-append}
use rcdiscover.Gui.Worker.Backup.{newline, separator, backup_text, scan, split_backup, up_to}
use rcdiscover.Gui.Worker.Backup.Scan.{IsData, IsFirst, more, scan-data, scan-more, scan-separator}

-- The text of the first line and the further lines.
abbrev pub text_of : Bytes → List Bytes → Bytes
text_of first lines = first ++ more lines

take-front : (s t : Bytes) → take (length s) (s ++ t) ≡ s
take-front [] t = refl
take-front (c ∷ s) t = ap (λ r. c ∷ r) (take-front s t)

drop-front : (s t : Bytes) → drop (length s) (s ++ t) ≡ t
drop-front [] t = refl
drop-front (c ∷ s) t = drop-front s t

scan-backup :
    (first : Bytes) (lines : List Bytes) (license : Bytes)
    → IsFirst first
    → All IsData lines
    → scan 0 (some 0) (text_of first lines ++ (newline ++ separator ++ newline ++ license))
      ≡ (some (length (text_of first lines)), length (text_of first lines) + 21)
scan-backup first lines license (h, r) hs =
    ap (scan 0 (some 0))
      (append_assoc first (more lines) (newline ++ separator ++ newline ++ license))
    ∙ scan-data 0 0 first (more lines ++ (newline ++ separator ++ newline ++ license)) h r
    ∙ scan-more (0 + length first) lines (separator ++ newline ++ license) hs
    ∙ scan-separator (0 + length first + length (more lines)) license
    ∙ ap (λ n. (some n, n + 21)) (omega (arith, length-append first (more lines)))

plus_ne : (n : ℕ) → (n + 21 == 0) ≡ false
plus_ne n = ground arith

split_backup-text :
    (r license all : Bytes)
    → all ≡ r ++ (newline ++ separator ++ newline ++ license)
    → scan 0 (some 0) all ≡ (some (length r), length r + 21)
    → split_backup all ≡ some (r, license)
unfolding split_backup
split_backup-text r license all e h =
    let middle = newline ++ separator ++ newline in
    let behind : drop (length r + 21 + 1) all ≡ license =
      ap (drop (length r + 21 + 1)) (e ∙ sym (append_assoc r middle license))
      ∙ ap (λ n. drop n ((r ++ middle) ++ license)) (omega (arith, length-append r middle))
      ∙ drop-front (r ++ middle) license in
    let front : take (length r) all ≡ r =
      ap (take (length r)) e ∙ take-front r (middle ++ license) in
    ap (λ m. if m.1 == 0 then none else some (up_to m.0 all, drop (m.1 + 1) all)) h
    ∙ ap (λ b. if b then none else some (take (length r) all, drop (length r + 21 + 1) all))
        (plus_ne (length r))
    ∙ ap (λ x. some x) (ap₂ (λ x y. (x, y)) front behind)

first-nonempty :
    (first : Bytes) (lines : List Bytes) → IsFirst first → is_empty (text_of first lines) ≡ false
first-nonempty [] lines (h, r) = cc
first-nonempty (c ∷ first) lines h = refl

append-nonempty : (s t : Bytes) → is_empty s ≡ false → is_empty (s ++ t) ≡ false
append-nonempty [] t h = cc
append-nonempty (c ∷ s) t h = refl

-- The file of a calibration that does not end in a newline, and of one that does.
backup_text-open :
    (r license : Bytes)
    → is_empty r ≡ false
    → (last_or 0 r == b'\n') ≡ false
    → backup_text r license ≡ r ++ (newline ++ separator ++ newline ++ license)
unfolding backup_text
backup_text-open r license h e =
    rw (h, e) (append_assoc r newline (separator ++ newline ++ license))

backup_text-closed :
    (r license : Bytes)
    → is_empty r ≡ false
    → backup_text (r ++ newline) license ≡ r ++ (newline ++ separator ++ newline ++ license)
unfolding backup_text last_or
backup_text-closed r license h =
    rw (append-nonempty r newline h, last_or-append 0 b'\n' r [])
      (append_assoc r newline (separator ++ newline ++ license))

-- If the first line of a calibration is not empty and no line of it consists of '=' only, the reset
-- from a backup file that was stored gets the license and the calibration without its final newline:
-- whether the calibration that was stored ended in a newline or not.
pub split_backup-backup_text :
    (first : Bytes) (lines : List Bytes) (license : Bytes)
    → IsFirst first
    → All IsData lines
    → (last_or 0 (text_of first lines) == b'\n') ≡ false
    → (split_backup (backup_text (text_of first lines) license)
        ≡ some (text_of first lines, license))
      × (split_backup (backup_text (text_of first lines ++ newline) license)
          ≡ some (text_of first lines, license))
split_backup-backup_text first lines license h hs e =
    let r = text_of first lines in
    let marks = scan-backup first lines license h hs in
    let full = first-nonempty first lines h in
    let whole =
      split_backup-text r license (r ++ (newline ++ separator ++ newline ++ license)) refl marks in
    (
      ap split_backup (backup_text-open r license full e) ∙ whole,
      ap split_backup (backup_text-closed r license full) ∙ whole,
    )
