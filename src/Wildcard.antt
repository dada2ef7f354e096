-- ===== src/Wildcard.antt =====
-- `wildcardMatch` of rcdiscover/utils.h. The text is what lies between `str_first` and `str_last`;
-- `*str_last` is the zero byte behind a `std::string`, and `none` is a read behind that byte.
pub mod Meaning
pub mod Correct
use rcdiscover.Base.{
  ℕ, ◌+◌, Bool, true, false, ◌&&◌, ◌||◌, [], ◌∷◌, Option, none, some, Bytes, leb, ◌==◌,
  if◌then◌else◌, is_empty,
}

-- `std::tolower` in the "C" locale.
unfoldable pub to_lower : ℕ → ℕ
to_lower c = if leb b'A' c && leb c b'Z' then c + 32 else c

-- The call with `str_first` one or more behind `str_last`, which is never equal to it again.
unfoldable pub past : Bytes → Option Bool
past [] = some false
past (p ∷ ps) = if p == b'?' then past ps else none

-- `a || b`, where `b` is evaluated only if `a` is false.
abbrev pub or_else : Option Bool → Option Bool → Option Bool
or_else none b = none
or_else (some true) b = some true
or_else (some false) b = b

unfoldable pub matches_one : ℕ → ℕ → Bool
matches_one p c = p == b'?' || to_lower p == to_lower c

unfoldable pub wildcard_match : Bytes → Bytes → Option Bool
wildcard_match [] [] = some true
wildcard_match [] (p ∷ ps) =
    if p == b'*' then some (is_empty ps) else if matches_one p 0 then past ps else some false
wildcard_match (c ∷ s) [] = some false
wildcard_match (c ∷ s) (p ∷ ps) = elim (matches_one p c) [
  | true ↦ wildcard_match s ps
  | false ↦ elim (p == b'*') [
    | true ↦ or_else (wildcard_match s (p ∷ ps)) (wildcard_match (c ∷ s) ps)
    | false ↦ some false
  ]
]
