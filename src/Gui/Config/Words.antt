-- ===== src/Gui/Config/Words.antt =====
-- The words of lines that were written one after the other.
use rcdiscover.Base.{
  ℕ, ◌≡◌, refl, ◌∙◌, ap, true, false, [], ◌∷◌, ◌++◌, append_assoc, append-nil, sym, Bytes, All,
  is_empty,
}
use rcdiscover.Text.{is_space}
use rcdiscover.Gui.Config.{words_from, line}
use rcdiscover.Gui.Config.Decimal.{IsWord}

nonempty-append : (s t : Bytes) → is_empty t ≡ false → is_empty (s ++ t) ≡ false
nonempty-append [] t h = h
nonempty-append (c ∷ s) t h = refl

-- A word that has been read up to `word` and goes on with `w` ends at a space.
words_from-word :
    (word w s : Bytes) (c : ℕ)
    → All (λ d. is_space d ≡ false) w
    → is_empty (word ++ w) ≡ false
    → is_space c ≡ true
    → words_from word (w ++ c ∷ s) ≡ (word ++ w) ∷ words_from [] s
unfolding words_from
words_from-word word [] s c h e k =
    rw (words_from, k, ap is_empty (sym (append-nil word)) ∙ e)
      (ap (λ v. v ∷ words_from [] s) (sym (append-nil word)))
words_from-word word (d ∷ w) s c (h, hs) e k =
    rw (words_from, h)
      (words_from-word (word ++ d ∷ []) w s c hs (ap is_empty (append_assoc word (d ∷ []) w) ∙ e) k
        ∙ ap (λ v. v ∷ words_from [] s) (append_assoc word (d ∷ []) w))

-- A line is its key and its value.
pub words_from-line :
    (key value rest : Bytes)
    → IsWord key
    → IsWord value
    → words_from [] (line key value rest) ≡ key ∷ value ∷ words_from [] rest
unfolding is_space
words_from-line key value rest k v =
    words_from-word [] key (value ++ b'\n' ∷ rest) b' ' k.no_space k.nonempty refl
    ∙ ap (λ l. key ∷ l) (words_from-word [] value rest b'\n' v.no_space v.nonempty refl)
