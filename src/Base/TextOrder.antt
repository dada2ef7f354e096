-- ===== src/Base/TextOrder.antt =====
-- `operator<` and `operator==` of texts: a linear order.
use mathlib.Core.Path.{◌≡◌, refl}
use mathlib.Core.Bool.{true, false}
use mathlib.Core.List.{[], ◌∷◌}
use native.Mathlib.Omega.{arith}
use rcdiscover.Base.Tests.{==_iff}
use rcdiscover.Base.Lists.{Bytes, text_eq, text_lt}

pub text_lt_asym : (s t : Bytes) → text_lt s t ≡ true → text_lt t s ≡ false
unfolding text_lt
text_lt_asym [] [] h = refl
text_lt_asym [] (b ∷ t) h = refl
text_lt_asym (a ∷ s) [] h = cc
text_lt_asym (a ∷ s) (b ∷ t) h = ground (arith, text_lt_asym s t)

pub text_le_trans :
    (s t u : Bytes) → text_lt t s ≡ false → text_lt u t ≡ false → text_lt u s ≡ false
unfolding text_lt
text_le_trans [] t [] h k = refl
text_le_trans [] [] (c ∷ u) h k = refl
text_le_trans [] (b ∷ t) (c ∷ u) h k = refl
text_le_trans (a ∷ s) [] u h k = cc
text_le_trans (a ∷ s) (b ∷ t) [] h k = cc
text_le_trans (a ∷ s) (b ∷ t) (c ∷ u) h k = ground (arith, text_le_trans s t u)

pub text_tri : (s t : Bytes) → text_lt s t ≡ false → text_lt t s ≡ false → text_eq s t ≡ true
unfolding text_lt text_eq
text_tri [] [] h k = refl
text_tri [] (b ∷ t) h k = cc
text_tri (a ∷ s) [] h k = cc
text_tri (a ∷ s) (b ∷ t) h k = ground (arith, text_tri s t)

pub text_eq_trans : (s t u : Bytes) → text_eq s t ≡ true → text_eq u t ≡ true → text_eq s u ≡ true
unfolding text_eq
text_eq_trans [] [] [] h k = refl
text_eq_trans [] [] (c ∷ u) h k = k
text_eq_trans [] (b ∷ t) u h k = cc
text_eq_trans (a ∷ s) [] u h k = cc
text_eq_trans (a ∷ s) (b ∷ t) [] h k = k
text_eq_trans (a ∷ s) (b ∷ t) (c ∷ u) h k = ground (arith, text_eq_trans s t u)

pub text_eq_refl : (s : Bytes) → text_eq s s ≡ true
unfolding text_eq
text_eq_refl [] = refl
text_eq_refl (c ∷ s) = grind (arith, text_eq_refl s, (==_iff c c).1 refl)
