-- ===== src/Gui/Worker/Backup/Scan.antt =====
-- How the loop of `resetFromFileWorker` goes over the lines of a backup.
use rcdiscover.Base.{
  ℕ, suc, ◌+◌, ◌≡◌, refl, ◌∙◌, ap, Bool, true, false, not, ◌&&◌, ◌⊎◌, inl, inr, List, [], ◌∷◌, ◌++◌,
  append_assoc, none, some, Bytes, is_empty, length, length-append, ◌==◌, All, if◌then◌else◌,
  if-elim, arith,
}
use rcdiscover.Gui.Worker.Backup.{newline, separator, starts_rule, scan}

-- No newline stands in the text.
abbrev pub IsLine : Bytes → Type 0
IsLine = All (λ c. (c == b'\n') ≡ false)

abbrev pub is_line : Bytes → Bool
is_line [] = true
is_line (c ∷ s) = not (c == b'\n') && is_line s

line_test : (a b : Bool) → (not a && b) ≡ true → (a ≡ false) × (b ≡ true)
line_test a b h = ground arith

pub is_line-IsLine : (s : Bytes) → is_line s ≡ true → IsLine s
is_line-IsLine [] h = tt
is_line-IsLine (c ∷ s) h =
    let (a, b) = line_test (c == b'\n') (is_line s) h in (a, is_line-IsLine s b)

-- Every character is '='.
abbrev pub is_rule : Bytes → Bool
is_rule [] = true
is_rule (c ∷ s) = c == b'=' && is_rule s

-- A line that may stand in a calibration: it is empty, or not every character is '='.
abbrev pub IsData : Bytes → Type 0
IsData line = IsLine line × (not (is_empty line) && is_rule line ≡ false)

-- The first line is not empty.
abbrev pub IsFirst : Bytes → Type 0
IsFirst line = IsLine line × (is_rule line ≡ false)

abbrev pub more : List Bytes → Bytes
more [] = []
more (line ∷ lines) = newline ++ line ++ more lines

-- In no line of '=': a line without newline is skipped.
scan-line :
    (i : ℕ) (line rest : Bytes)
    → IsLine line
    → scan i none (line ++ rest) ≡ scan (i + length line) none rest
unfolding scan
scan-line i [] rest h = ap (λ n. scan n none rest) (omega arith)
scan-line i (c ∷ line) rest (h, hs) =
    rw (h) (scan-line (suc i) line rest hs ∙ ap (λ n. scan n none rest) (omega arith))

rule_test : (a b : Bool) → (a && b) ≡ false → (a ≡ false) ⊎ ((a ≡ true) × (b ≡ false))
rule_test true b h = inr (refl, h)
rule_test false b h = inl refl

-- In a line that begins with '=': it is skipped if another character follows.
pub scan-data :
    (i k : ℕ) (line rest : Bytes)
    → IsLine line
    → is_rule line ≡ false
    → scan i (some k) (line ++ rest) ≡ scan (i + length line) none rest
unfolding scan
scan-data i k [] rest h r = cc
scan-data i k (c ∷ line) rest (h, hs) r = elim (rule_test (c == b'=') (is_rule line) r) [
  | inl f ↦ rw (h, f) (scan-line (suc i) line rest hs ∙ ap (λ n. scan n none rest) (omega arith))
  | inr (t, f) ↦
      rw (h, t) (scan-data (suc i) k line rest hs f ∙ ap (λ n. scan n none rest) (omega arith))
]

scan-newline :
    (i : ℕ) (s : Bytes)
    → scan i none (newline ++ s)
      ≡ (if starts_rule s then scan (suc i) (some i) s else scan (suc i) none s)
unfolding scan
scan-newline i s = refl

scan-rule_line :
    (i c : ℕ) (line rest : Bytes)
    → IsLine (c ∷ line)
    → is_rule (c ∷ line) ≡ false
    → (if c == b'='
        then scan (suc i) (some i) (c ∷ (line ++ rest))
        else scan (suc i) none (c ∷ (line ++ rest)))
      ≡ scan (suc i + length (c ∷ line)) none rest
scan-rule_line i c line rest h r =
    if-elim (λ x. x ≡ scan (suc i + length (c ∷ line)) none rest) (c == b'=') _ _
      (λ _. scan-data (suc i) i (c ∷ line) rest h r) (λ _. scan-line (suc i) (c ∷ line) rest h)

scan-next :
    (i : ℕ) (line rest : Bytes)
    → IsData line
    → starts_rule rest ≡ false
    → scan i none (newline ++ (line ++ rest)) ≡ scan (suc i + length line) none rest
unfolding starts_rule
scan-next i [] rest h e =
    scan-newline i rest
    ∙ ap (λ b. if b then scan (suc i) (some i) rest else scan (suc i) none rest) e
    ∙ ap (λ n. scan n none rest) (omega arith)
scan-next i (c ∷ line) rest (h, r) e =
    scan-newline i (c ∷ (line ++ rest)) ∙ scan-rule_line i c line rest h r

starts_rule-more :
    (lines : List Bytes) (rest : Bytes) → starts_rule (more lines ++ (newline ++ rest)) ≡ false
unfolding starts_rule
starts_rule-more [] rest = refl
starts_rule-more (line ∷ lines) rest = refl

pub scan-more :
    (i : ℕ) (lines : List Bytes) (rest : Bytes)
    → All IsData lines
    → scan i none (more lines ++ (newline ++ rest))
      ≡ scan (i + length (more lines)) none (newline ++ rest)
scan-more i [] rest h = ap (λ n. scan n none (newline ++ rest)) (omega arith)
scan-more i (line ∷ lines) rest (h, hs) =
    ap (λ s. scan i none (newline ++ s)) (append_assoc line (more lines) (newline ++ rest))
    ∙ scan-next i line (more lines ++ (newline ++ rest)) h (starts_rule-more lines rest)
    ∙ scan-more (suc i + length line) lines rest hs
    ∙ ap (λ n. scan n none (newline ++ rest)) (omega (arith, length-append line (more lines)))

pub scan-separator :
    (i : ℕ) (license : Bytes)
    → scan i none (newline ++ separator ++ newline ++ license) ≡ (some i, i + 21)
unfolding scan starts_rule
scan-separator i license = ap (λ n. (some i, n)) (omega arith)
