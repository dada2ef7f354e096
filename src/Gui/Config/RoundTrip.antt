-- ===== src/Gui/Config/RoundTrip.antt =====
-- The configuration that was stored is the one that is loaded.
use rcdiscover.Base.{
  and_true, ◌≡◌, refl, ◌∙◌, ap, Bool, true, false, not, ◌&&◌, List, [], ◌∷◌, Bytes, codes, All,
  text_eq, ok, bind_result, arith, is_empty,
}
use rcdiscover.Text.{is_space, skip_space, digits_value, digit_value}
use rcdiscover.Gui.Config.{
  ℤ, pos, Config, default_config, stoi, signed_int, stoi_digits, print_int, print_bool, words_from,
  set_key, set_keys, line, filter_line, load_config, store_config, is_set,
}
use rcdiscover.Gui.Config.Decimal.{IsInt, IsWord, stoi-print_int, print_int-IsWord}
use rcdiscover.Gui.Config.Words.{words_from-line}

abbrev pub no_spaces : Bytes → Bool
no_spaces [] = true
no_spaces (c ∷ s) = not (is_space c) && no_spaces s

not-false : (b : Bool) → not b ≡ true → b ≡ false
not-false b h = ground arith

pub no_spaces-All : (s : Bytes) → no_spaces s ≡ true → All (λ c. is_space c ≡ false) s
no_spaces-All [] h = tt
no_spaces-All (c ∷ s) h =
    let (a, b) = and_true (not (is_space c)) (no_spaces s) h in
    (not-false (is_space c) a, no_spaces-All s b)

no_spaces-IsWord : (s : Bytes) → no_spaces s ≡ true → is_empty s ≡ false → IsWord s
no_spaces-IsWord s h e = record { no_space = no_spaces-All s h; nonempty = e }

-- The words of the file.
abbrev filter_words : Bytes → List Bytes → List Bytes
filter_words [] rest = rest
filter_words (c ∷ s) rest = codes "filter" ∷ (c ∷ s) ∷ rest

print_bool-IsWord : (b : Bool) → IsWord (print_bool b)
unfolding is_space
print_bool-IsWord true = record { no_space = (refl, tt); nonempty = refl }
print_bool-IsWord false = record { no_space = (refl, tt); nonempty = refl }

words_from-filter_line :
    (filter rest : Bytes)
    → All (λ c. is_space c ≡ false) filter
    → words_from [] (filter_line filter rest) ≡ filter_words filter (words_from [] rest)
unfolding is_space
words_from-filter_line [] rest h = refl
words_from-filter_line (c ∷ s) rest h =
    words_from-line (codes "filter") (c ∷ s) rest (no_spaces-IsWord (codes "filter") refl refl)
      (record { no_space = h; nonempty = refl })

-- A line whose value is an integer.
words_from-int_line :
    (key : Bytes) (z : ℤ) (rest : Bytes)
    → IsWord key
    → words_from [] (line key (print_int z) rest) ≡ key ∷ print_int z ∷ words_from [] rest
words_from-int_line key z rest k = words_from-line key (print_int z) rest k (print_int-IsWord z)

-- A text with its words.
record Read : Type 0 where
  text : Bytes
  words : List Bytes
  reads : words_from [] text ≡ words

int_line : (key : Bytes) (z : ℤ) → no_spaces key ≡ true → is_empty key ≡ false → Read → Read
int_line key z k n r = record {
  text = line key (print_int z) r.text;
  words = key ∷ print_int z ∷ r.words;
  reads =
      words_from-int_line key z r.text (no_spaces-IsWord key k n)
      ∙ ap (λ l. key ∷ print_int z ∷ l) r.reads;
}

last_line : Bool → Read
unfolding is_space words_from
last_line b = record {
  text = line (codes "sort_down") (print_bool b) [];
  words = codes "sort_down" ∷ print_bool b ∷ [];
  reads =
      words_from-line (codes "sort_down") (print_bool b) []
        (no_spaces-IsWord (codes "sort_down") refl refl) (print_bool-IsWord b);
}

filtered : (filter : Bytes) → All (λ c. is_space c ≡ false) filter → Read → Read
filtered filter h r = record {
  text = filter_line filter r.text;
  words = filter_words filter r.words;
  reads = words_from-filter_line filter r.text h ∙ ap (filter_words filter) r.reads;
}

stored_words :
    (c : Config) (filter : Bytes)
    → All (λ x. is_space x ≡ false) filter
    → words_from [] (store_config c filter)
      ≡ codes "width"
        ∷ print_int c.width
        ∷ codes "height"
        ∷ print_int c.height
        ∷ codes "only_rc"
        ∷ print_int c.only_rc
        ∷ filter_words filter (
            codes "sort_col"
            ∷ print_int c.sort_col
            ∷ codes "sort_down"
            ∷ print_bool c.sort_down
            ∷ [])
unfolding store_config is_space int_line filtered last_line
stored_words c filter h =
    (int_line (codes "width") c.width refl refl (
      int_line (codes "height") c.height refl refl (
        int_line (codes "only_rc") c.only_rc refl refl (
          filtered filter h
            (int_line (codes "sort_col") c.sort_col refl refl (last_line c.sort_down)))))).reads

-- The numbers of the configuration are integers of 32 bits.
abbrev pub IsStored : Config → Type 0
IsStored c = IsInt c.width × IsInt c.height × IsInt c.only_rc × IsInt c.sort_col

print_bool-stoi : (b : Bool) → (z : ℤ) × (stoi (print_bool b) ≡ ok z) × (is_set z ≡ b)
unfolding stoi signed_int stoi_digits skip_space is_space digits_value digit_value
print_bool-stoi true = (pos 1, refl, refl)
print_bool-stoi false = (pos 0, refl, refl)

set_keys-next :
    (key value : Bytes) (rest : List Bytes) (c d : Config)
    → set_key key value c ≡ ok d
    → set_keys (key ∷ value ∷ rest) c ≡ set_keys rest d
unfolding set_keys
set_keys-next key value rest c d h = rw (set_keys, h) refl

-- A key that is known sets its variable.
bind-stoi :
    (f : ℤ → Config) (value : Bytes) (z : ℤ)
    → stoi value ≡ ok z
    → bind_result (stoi value) (λ n. ok (f n)) ≡ ok (f z)
bind-stoi f value z h = ap (λ r. bind_result r (λ n. ok (f n))) h

module _ (c : Config) (value : Bytes) (z : ℤ) (h : stoi value ≡ ok z) where
  set_key-width : set_key (codes "width") value c ≡ ok (record c { width = z })
  unfolding set_key text_eq
  set_key-width = bind-stoi (λ n. record c { width = n }) value z h

  set_key-height : set_key (codes "height") value c ≡ ok (record c { height = z })
  unfolding set_key text_eq
  set_key-height = bind-stoi (λ n. record c { height = n }) value z h

  set_key-only_rc : set_key (codes "only_rc") value c ≡ ok (record c { only_rc = z })
  unfolding set_key text_eq
  set_key-only_rc = bind-stoi (λ n. record c { only_rc = n }) value z h

  set_key-sort_col : set_key (codes "sort_col") value c ≡ ok (record c { sort_col = z })
  unfolding set_key text_eq
  set_key-sort_col = bind-stoi (λ n. record c { sort_col = n }) value z h

  set_key-sort_down : set_key (codes "sort_down") value c ≡ ok (record c { sort_down = is_set z })
  unfolding set_key text_eq
  set_key-sort_down = bind-stoi (λ n. record c { sort_down = is_set n }) value z h

set_keys-filter :
    (filter : Bytes) (rest : List Bytes) (c : Config)
    → set_keys (filter_words filter rest) c ≡ set_keys rest c
unfolding set_keys set_key text_eq
set_keys-filter [] rest c = refl
set_keys-filter (x ∷ s) rest c = refl

-- The width, the height, the switch `only_rc` and the sorting that are stored are what is loaded, if
-- the numbers are integers of 32 bits and the filter text, which is stored as well but not loaded
-- again, holds no space.
pub load_config-store_config :
    (c : Config) (filter : Bytes)
    → IsStored c
    → All (λ x. is_space x ≡ false) filter
    → load_config (store_config c filter) ≡ c
unfolding load_config set_keys
load_config-store_config c filter (hw, hh, ho, hs) h =
    let (z, k, e) = print_bool-stoi c.sort_down in
    let width = print_int c.width in
    let height = print_int c.height in
    let only_rc = print_int c.only_rc in
    let down = codes "sort_down" ∷ print_bool c.sort_down ∷ [] in
    let sorting = codes "sort_col" ∷ print_int c.sort_col ∷ down in
    let after_height = codes "only_rc" ∷ only_rc ∷ filter_words filter sorting in
    let after_width = codes "height" ∷ height ∷ after_height in
    let c1 = record default_config { width = c.width } in
    let c2 = record c1 { height = c.height } in
    let c3 = record c2 { only_rc = c.only_rc } in
    let c4 = record c3 { sort_col = c.sort_col } in
    ap (λ l. set_keys l default_config) (stored_words c filter h)
    ∙ (set_keys-next (codes "width") width after_width default_config c1
          (set_key-width default_config width c.width (stoi-print_int c.width hw))
        ∙ (set_keys-next (codes "height") height after_height c1 c2
              (set_key-height c1 height c.height (stoi-print_int c.height hh))
            ∙ (set_keys-next (codes "only_rc") only_rc (filter_words filter sorting) c2 c3
                  (set_key-only_rc c2 only_rc c.only_rc (stoi-print_int c.only_rc ho))
                ∙ (set_keys-filter filter sorting c3
                    ∙ (set_keys-next (codes "sort_col") (print_int c.sort_col) down c3 c4 (
                          set_key-sort_col c3 (print_int c.sort_col) c.sort_col
                            (stoi-print_int c.sort_col hs))
                        ∙ (set_keys-next (codes "sort_down") (print_bool c.sort_down) [] c4 _
                              (set_key-sort_down c4 (print_bool c.sort_down) z k)
                            ∙ ap (λ b. record c4 { sort_down = b }) e))))))
