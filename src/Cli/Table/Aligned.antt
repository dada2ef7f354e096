-- ===== src/Cli/Table/Aligned.antt =====
-- The columns that `printTable` of tools/rcdiscover-cli/cli_utils.cc prints.
use rcdiscover.Base.{
  ℕ, ◌+◌, ◌-◌, ◌≤◌, max, ◌≡◌, refl, sym, subst, false, List, [], ◌∷◌, ◌++◌, some, Bytes, length,
  length-replicate, replicate, ltb, All, arith,
}
use rcdiscover.Cli.Table.{max_columns, widen, column_width, print_row, print_rows, print_table}

-- Each cell of the row is as wide as its column at most.
abbrev pub Covers : List ℕ → List Bytes → Type 0
Covers ws [] = Unit
Covers [] (c ∷ cs) = ⊥
Covers (w ∷ ws) (c ∷ cs) = (length c ≤ w) × Covers ws cs

-- The text of a row: each cell but the last is filled up with blanks to its column's width, and a
-- tab follows.
abbrev pub IsLaid : List ℕ → List Bytes → Bytes → Type 0
IsLaid ws [] text = text ≡ []
IsLaid ws (c ∷ []) text = text ≡ c
IsLaid [] (c ∷ d ∷ cs) text = ⊥
IsLaid (w ∷ ws) (c ∷ d ∷ cs) text =
    (blanks : ℕ) × (rest : Bytes) × (length c + blanks ≡ w)
    × (text ≡ ((c ++ replicate blanks b' ') ++ 9 ∷ []) ++ rest)
    × IsLaid ws (d ∷ cs) rest

-- The text of a table: the rows in order, each ended by a line break.
abbrev pub AreLaid : List ℕ → List (List Bytes) → Bytes → Type 0
AreLaid ws [] text = text ≡ []
AreLaid ws (row ∷ rows) text =
    (line : Bytes) × (rest : Bytes) × IsLaid ws row line
    × (text ≡ (line ++ 10 ∷ []) ++ rest)
    × AreLaid ws rows rest

length-widen : (ws : List ℕ) (row : List Bytes) → length (widen ws row) ≡ length ws
unfolding widen
length-widen [] [] = refl
length-widen (w ∷ ws) [] = refl
length-widen [] (c ∷ cs) = refl
length-widen (w ∷ ws) (c ∷ cs) = omega (arith, length-widen ws cs)

widen-Covers : (ws : List ℕ) (row : List Bytes) → length row ≤ length ws → Covers (widen ws row) row
unfolding widen
widen-Covers ws [] h = tt
widen-Covers [] (c ∷ cs) h = absurd (omega arith)
widen-Covers (w ∷ ws) (c ∷ cs) h = (omega arith, widen-Covers ws cs (omega arith))

Covers-widen : (ws : List ℕ) (other row : List Bytes) → Covers ws row → Covers (widen ws other) row
unfolding widen
Covers-widen ws other [] h = tt
Covers-widen [] other (c ∷ cs) h = absurd h
Covers-widen (w ∷ ws) [] (c ∷ cs) h = h
Covers-widen (w ∷ ws) (o ∷ other) (c ∷ cs) (h, hs) = (omega arith, Covers-widen ws other cs hs)

Covers-column_width :
    (ws : List ℕ) (rows : List (List Bytes)) (row : List Bytes)
    → Covers ws row
    → Covers (column_width rows ws) row
unfolding column_width
Covers-column_width ws [] row h = h
Covers-column_width ws (r ∷ rows) row h =
    Covers-column_width (widen ws r) rows row (Covers-widen ws r row h)

column_width-Covers :
    (ws : List ℕ) (rows : List (List Bytes))
    → All (λ row. length row ≤ length ws) rows
    → All (Covers (column_width rows ws)) rows
unfolding column_width
column_width-Covers ws [] h = tt
column_width-Covers ws (row ∷ rows) (h, hs) = (
  Covers-column_width (widen ws row) rows row (widen-Covers ws row h),
  column_width-Covers (widen ws row) rows
      (subst (λ n. All (λ r. length r ≤ n) rows) (sym (length-widen ws row)) hs),
)

print_row-IsLaid :
    (ws : List ℕ) (row : List Bytes)
    → Covers ws row
    → (text : Bytes) × (print_row ws row ≡ some text) × IsLaid ws row text
unfolding print_row
print_row-IsLaid ws [] h = ([], refl, refl)
print_row-IsLaid ws (c ∷ []) h = (c, refl, refl)
print_row-IsLaid [] (c ∷ d ∷ cs) h = absurd h
print_row-IsLaid (w ∷ ws) (c ∷ d ∷ cs) (h, hs) =
    let (rest, e, laid) = print_row-IsLaid ws (d ∷ cs) hs in
    let fits : ltb w (length c) ≡ false = ground arith in
    (
      ((c ++ replicate (w - length c) b' ') ++ 9 ∷ []) ++ rest,
      rw (fits, e, print_row) refl,
      (w - length c, rest, omega arith, refl, laid),
    )

print_rows-AreLaid :
    (ws : List ℕ) (rows : List (List Bytes))
    → All (Covers ws) rows
    → (text : Bytes) × (print_rows ws rows ≡ some text) × AreLaid ws rows text
unfolding print_rows
print_rows-AreLaid ws [] h = ([], refl, refl)
print_rows-AreLaid ws (row ∷ rows) (h, hs) =
    let (line, e, laid) = print_row-IsLaid ws row h in
    let (rest, f, more) = print_rows-AreLaid ws rows hs in
    ((line ++ 10 ∷ []) ++ rest, rw (e, f, print_rows) refl, (line, rest, laid, refl, more))

max_columns-at_least : (rows : List (List Bytes)) (n : ℕ) → n ≤ max_columns rows n
unfolding max_columns
max_columns-at_least [] n = omega arith
max_columns-at_least (row ∷ rows) n = omega (arith, max_columns-at_least rows (max n (length row)))

All-max_columns :
    (rows : List (List Bytes)) (n : ℕ) → All (λ row. length row ≤ max_columns rows n) rows
unfolding max_columns
All-max_columns [] n = tt
All-max_columns (row ∷ rows) n = (
  omega (arith, max_columns-at_least rows (max n (length row))),
  All-max_columns rows (max n (length row)),
)

-- `printTable` never reads outside its column widths and never computes a negative number of
-- blanks; it prints a line for each row in order, in which each cell but the last is filled up
-- with blanks to the width of its column, which is as wide as its widest cell at least.
pub print_table_lem :
    (rows : List (List Bytes))
    → (ws : List ℕ) × (text : Bytes) × (print_table rows ≡ some text)
      × AreLaid ws rows text
      × All (Covers ws) rows
unfolding print_table
print_table_lem rows =
    let n = max_columns rows 0 in
    let ws = column_width rows (replicate n 0) in
    let covers : All (Covers ws) rows = column_width-Covers (replicate n 0) rows (
      subst (λ k. All (λ r. length r ≤ k) rows) (sym (length-replicate n 0))
        (All-max_columns rows 0)) in
    let (text, e, laid) = print_rows-AreLaid ws rows covers in (ws, text, e, laid, covers)
