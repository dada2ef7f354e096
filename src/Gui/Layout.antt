-- ===== src/Gui/Layout.antt =====
-- The placing of widgets of tools/rcdiscover-gui/layout.h.
pub mod Apart
pub mod Inside
pub mod Constructors
use rcdiscover.Base.{
  ℕ, ◌+◌, max, min, Bool, true, false, not, ◌&&◌, ◌||◌, List, [], ◌∷◌, ◌++◌, ◌==◌,
}

-- What is read of an `Fl_Widget`.
pub record Widget : Type 0 where
  pub x : ℕ
  pub y : ℕ
  pub w : ℕ
  pub h : ℕ

abbrev pub gap_size : ℕ
gap_size = 10

abbrev pub last_child : Widget → List Widget → Widget
last_child c [] = c
last_child c (d ∷ children) = last_child d children

-- The children of the current group are listed in the order in which they were added.
unfoldable pub add_right_x : ℕ → List Widget → ℕ
add_right_x gap [] = gap
add_right_x gap (c ∷ children) = let last = last_child c children in last.x + last.w + gap

unfoldable pub add_right_y : ℕ → List Widget → ℕ
add_right_y gap [] = gap
add_right_y gap (c ∷ children) = (last_child c children).y

unfoldable pub add_below_x : ℕ → List Widget → ℕ
add_below_x gap children = gap

-- The loop of `addBelowY`, where `ret` is the greatest value so far.
unfoldable pub below_all : ℕ → ℕ → List Widget → ℕ
below_all gap ret [] = ret
below_all gap ret (c ∷ children) = below_all gap (max ret (c.y + c.h + gap)) children

unfoldable pub add_below_y : ℕ → List Widget → ℕ
unfolding below_all
add_below_y gap children = below_all gap gap children

-- A new widget at `ADD_RIGHT_XY` or at `ADD_BELOW_XY`, or moved from there to the right by `dx` or
-- down by `dy`.
unfoldable pub add_right : ℕ → ℕ → ℕ → ℕ → List Widget → List Widget
unfolding add_right_x add_right_y
add_right gap dx w h children =
    children
    ++ (record { x = add_right_x gap children + dx; y = add_right_y gap children; w = w; h = h })
      ∷ []

unfoldable pub add_below : ℕ → ℕ → ℕ → ℕ → List Widget → List Widget
unfolding add_below_x add_below_y
add_below gap dy w h children =
    children
    ++ (record { x = add_below_x gap children; y = add_below_y gap children + dy; w = w; h = h })
      ∷ []

-- The edges that `checkGroupSize` computes.
pub record Edges : Type 0 where
  pub xmin : ℕ
  pub xmax : ℕ
  pub ymin : ℕ
  pub ymax : ℕ

abbrev pub edges_of : Widget → Edges
edges_of c = record { xmin = c.x; xmax = c.x + c.w; ymin = c.y; ymax = c.y + c.h }

abbrev pub widen_edge : Widget → Edges → Edges
widen_edge c e = record {
  xmin = min e.xmin c.x;
  xmax = max e.xmax (c.x + c.w);
  ymin = min e.ymin c.y;
  ymax = max e.ymax (c.y + c.h);
}

unfoldable pub widen_edges : List Widget → Edges → Edges
widen_edges [] e = e
widen_edges (c ∷ children) e = widen_edges children (widen_edge c e)

abbrev pub is_size : ℕ → ℕ → Bool
is_size size expected = size == expected || size == expected + gap_size

-- `checkGroupSize` prints no warning for a group of this width and height.
unfoldable pub check_group_size : ℕ → ℕ → List Widget → Bool
unfolding widen_edges
check_group_size w h [] = true
check_group_size w h (c ∷ children) =
    let e = widen_edges children (edges_of c) in
    is_size w (e.xmax + e.xmin) && is_size h (e.ymax + e.ymin)

-- Where a constructor puts a widget of a width and height: at `ADD_RIGHT_XY`, moved by `dx`; at
-- `ADD_BELOW_XY`, moved by `dy`; at a given x and `addRightY()`; or, the first one, anywhere.
pub data Place : Type 0 where
  right_of below_of : (offset w h : ℕ) → Place
  beside : (x w h : ℕ) → Place
  first_at : (x y w h : ℕ) → Place

unfoldable pub place_one : Place → List Widget → List Widget
unfolding add_right add_below add_right_y
place_one (right_of dx w h) children = add_right gap_size dx w h children
place_one (below_of dy w h) children = add_below gap_size dy w h children
place_one (beside x w h) children =
    children ++ (record { x = x; y = add_right_y gap_size children; w = w; h = h }) ∷ []
place_one (first_at x y w h) children = children ++ (record { x = x; y = y; w = w; h = h }) ∷ []

-- The widgets of a constructor, behind those that were added before.
unfoldable pub place_all : List Place → List Widget → List Widget
unfolding place_one
place_all [] children = children
place_all (p ∷ places) children = place_all places (place_one p children)
