-- ===== src/Gui/Layout/Constructors.antt =====
-- Where the constructors of the windows of tools/rcdiscover-gui put their widgets. The callbacks of
-- the widgets are left out.
use rcdiscover.Base.{ℕ, ◌+◌, ◌-◌, ◌*◌, ◌≡◌, refl, true, List, [], ◌∷◌, ◌++◌, All}
use rcdiscover.Gui.Layout.{
  gap_size, Place, right_of, below_of, beside, first_at, place_all, place_one, check_group_size,
  add_right, add_below, add_right_x, add_right_y, add_below_x, add_below_y, below_all, widen_edges,
}
use rcdiscover.Gui.Layout.Apart.{AllApart, fits, place_all-AllApart}
use rcdiscover.Gui.Layout.Inside.{IsInside, check_group_size-IsInside}

-- A label of the width `lw` and an input field behind it.
abbrev pub labelled : ℕ → ℕ → List Place
labelled width lw = below_of 0 lw 28 ∷ right_of 0 (width - gap_size - lw) 28 ∷ []

-- `ReconnectWindow`, 400 x 124.
unfoldable pub reconnect_places : List Place
reconnect_places =
    let width = 400 - 2 * gap_size in
    labelled width 120
    ++ labelled width 120
    ++ below_of 0 160 28 ∷ beside (width + gap_size - 28) 28 28 ∷ []

-- `ResetWindow`, 628 x 124.
unfoldable pub reset_places : List Place
reset_places =
    let width = 628 - 2 * gap_size in
    labelled width 120
    ++ labelled width 120
    ++ below_of 0 160 28
      ∷ right_of 0 140 28
      ∷ right_of 0 100 28
      ∷ right_of 0 140 28
      ∷ right_of 0 28 28
      ∷ []

-- `SetTmpIPWindow`, 480 x 238.
unfoldable pub set_tmp_ip_places : List Place
set_tmp_ip_places =
    let width = 480 - 2 * gap_size in
    labelled width 120
    ++ labelled width 120
    ++ labelled width 120
    ++ labelled width 120
    ++ labelled width 120
    ++ below_of 0 200 28 ∷ right_of 0 100 28 ∷ beside (width + gap_size - 28) 28 28 ∷ []

-- `ChangeIPConfigWindow`, 500 x 314.
unfoldable pub change_ip_config_places : List Place
change_ip_config_places =
    let width = 500 - 2 * gap_size in
    labelled width 140
    ++ labelled width 140
    ++ labelled width 140
    ++ (below_of 0 140 28 ∷ right_of 0 110 28 ∷ right_of 0 90 28 ∷ right_of 0 110 28 ∷ [])
    ++ labelled width 140
    ++ labelled width 140
    ++ labelled width 140
    ++ below_of 0 200 28 ∷ right_of 0 100 28 ∷ beside (width + gap_size - 28) 28 28 ∷ []

-- `AboutDialog`, 600 x 238.
unfoldable pub about_places : List Place
about_places =
    let width = 600 - 2 * gap_size in
    right_of 0 100 180 ∷ right_of 0 (width - 110) 180 ∷ below_of 0 width 28 ∷ []

-- `HelpWindow`, 640 x 480.
unfoldable pub help_places : List Place
help_places = right_of 0 (640 - 2 * gap_size) (480 - 2 * gap_size) ∷ []

-- The row of buttons of `DiscoverWindow` above the table and the one below it, in groups at `x`, `y`.
unfoldable pub top_row : ℕ → ℕ → ℕ → List Place
top_row width x y =
    first_at x y 160 28
    ∷ right_of 20 25 28
    ∷ right_of 0 150 28
    ∷ right_of 40 150 28
    ∷ right_of 0 (width - 5 * gap_size - (160 + 45 + 150 + 190 + 28)) 28
    ∷ right_of 0 28 28
    ∷ []

unfoldable pub bottom_row : ℕ → ℕ → ℕ → List Place
bottom_row width x y =
    first_at x y 180 28
    ∷ right_of 0 200 28
    ∷ right_of 0 220 28
    ∷ right_of 0 180 28
    ∷ right_of 0 (width - 5 * gap_size - (180 + 200 + 220 + 180 + 30)) 28
    ∷ right_of 0 28 28
    ∷ []

-- The widgets of a window of this size fit: `checkGroupSize` has nothing to warn of, no two widgets
-- overlap, and all lie inside.
abbrev pub IsNeat : ℕ → ℕ → List Place → Type 0
IsNeat w h places =
    (check_group_size w h (place_all places []) ≡ true)
    × AllApart (place_all places [])
    × All (IsInside w h) (place_all places [])

neat :
    (w h : ℕ) (places : List Place)
    → fits places [] ≡ true
    → check_group_size w h (place_all places []) ≡ true
    → IsNeat w h places
neat w h places f c = let (a, i) = check_group_size-IsInside w h places f c in (c, a, i)

reset_places-IsNeat : IsNeat 628 124 reset_places
unfolding fits place_all place_one check_group_size add_right add_below add_right_x add_right_y
    add_below_x add_below_y below_all widen_edges reset_places
reset_places-IsNeat = neat 628 124 reset_places refl refl

reconnect_places-IsNeat : IsNeat 400 124 reconnect_places
unfolding fits place_all place_one check_group_size add_right add_below add_right_x add_right_y
    add_below_x add_below_y below_all widen_edges reconnect_places
reconnect_places-IsNeat = neat 400 124 reconnect_places refl refl

set_tmp_ip_places-IsNeat : IsNeat 480 238 set_tmp_ip_places
unfolding fits place_all place_one check_group_size add_right add_below add_right_x add_right_y
    add_below_x add_below_y below_all widen_edges set_tmp_ip_places
set_tmp_ip_places-IsNeat = neat 480 238 set_tmp_ip_places refl refl

change_ip_config_places-IsNeat : IsNeat 500 314 change_ip_config_places
unfolding fits place_all place_one check_group_size add_right add_below add_right_x add_right_y
    add_below_x add_below_y below_all widen_edges change_ip_config_places
change_ip_config_places-IsNeat = neat 500 314 change_ip_config_places refl refl

about_places-IsNeat : IsNeat 600 238 about_places
unfolding fits place_all place_one check_group_size add_right add_below add_right_x add_right_y
    add_below_x add_below_y below_all widen_edges about_places
about_places-IsNeat = neat 600 238 about_places refl refl

help_places-IsNeat : IsNeat 640 480 help_places
unfolding fits place_all place_one check_group_size add_right add_below add_right_x add_right_y
    add_below_x add_below_y below_all widen_edges help_places
help_places-IsNeat = neat 640 480 help_places refl refl

rows-AllApart :
    (x y : ℕ)
    → AllApart (place_all (top_row 1160 x y) []) × AllApart (place_all (bottom_row 1160 x y) [])
unfolding fits place_all place_one check_group_size add_right add_below add_right_x add_right_y
    add_below_x add_below_y below_all widen_edges top_row bottom_row
rows-AllApart x y =
    (place_all-AllApart (top_row 1160 x y) refl, place_all-AllApart (bottom_row 1160 x y) refl)
