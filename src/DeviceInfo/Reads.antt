-- ===== src/DeviceInfo/Reads.antt =====
-- The reading functions on a buffer that is a sequence of segments.
use mathlib.Core.Path.{fun_ext}
use rcdiscover.Base.{
  ℕ, zero, suc, ◌+◌, ◌^◌, ◌≤◌, ◌<◌, ◌≡◌, ◌≢◌, refl, ◌∙◌, ap, List, [], ◌∷◌, ◌++◌, some, Bytes,
  length, length-append, get_elem?, take, drop, All, arith, bind_option,
}
use rcdiscover.Words.{to_byte_array}
use rcdiscover.DeviceInfo.{extract, read_number}

get_elem?-append :
    (pre buf : Bytes) (p q : ℕ) → p ≡ length pre + q → get_elem? (pre ++ buf) p ≡ get_elem? buf q
get_elem?-append [] buf p q e = ap (get_elem? buf) (omega arith)
get_elem?-append (c ∷ pre) buf zero q e = absurd (omega arith)
get_elem?-append (c ∷ pre) buf (suc p) q e = get_elem?-append pre buf p q (omega arith)

extract-append :
    (pre buf : Bytes) (n p q : ℕ) → p ≡ length pre + q → extract (pre ++ buf) p n ≡ extract buf q n
unfolding extract
extract-append pre buf zero p q e = rw (get_elem?-append pre buf p q e)
extract-append pre buf (suc n) p q e =
    rw (get_elem?-append pre buf p q e, extract-append pre buf n (p + 1) (q + 1) (omega arith))

read_number-append :
    (pre buf : Bytes) (w n x p q : ℕ)
    → p ≡ length pre + q
    → read_number w (pre ++ buf) p n x ≡ read_number w buf q n x
unfolding read_number
read_number-append pre buf w zero x p q e = refl
read_number-append pre buf w (suc n) x p q e = rw (get_elem?-append pre buf p q e) (
    ap (bind_option (get_elem? buf q))
      (fun_ext λ b. read_number-append pre buf w n _ (p + 1) (q + 1) (omega arith)))

abbrev pub flatten : List Bytes → Bytes
flatten [] = []
flatten (s ∷ segs) = s ++ flatten segs

abbrev pub sizes : List Bytes → ℕ
sizes [] = 0
sizes (s ∷ segs) = length s + sizes segs

pub extract-flatten :
    (j : ℕ) (segs : List Bytes) (p n : ℕ)
    → p ≡ sizes (take j segs)
    → extract (flatten segs) p n ≡ extract (flatten (drop j segs)) 0 n
extract-flatten zero segs p n e = ap (λ i. extract (flatten segs) i n) e
extract-flatten (suc j) [] p n e = ap (λ i. extract [] i n) e
extract-flatten (suc j) (s ∷ segs) p n e =
    extract-append s (flatten segs) n p (sizes (take j segs)) e
    ∙ extract-flatten j segs (sizes (take j segs)) n refl

pub read_number-flatten :
    (j : ℕ) (segs : List Bytes) (p w n : ℕ)
    → p ≡ sizes (take j segs)
    → read_number w (flatten segs) p n 0 ≡ read_number w (flatten (drop j segs)) 0 n 0
read_number-flatten zero segs p w n e = ap (λ i. read_number w (flatten segs) i n 0) e
read_number-flatten (suc j) [] p w n e = ap (λ i. read_number w [] i n 0) e
read_number-flatten (suc j) (s ∷ segs) p w n e =
    read_number-append s (flatten segs) w n 0 p (sizes (take j segs)) e
    ∙ read_number-flatten j segs (sizes (take j segs)) w n refl

-- A text in a field of `k` bytes, filled up with zeros.
abbrev pub pad : ℕ → Bytes → Bytes
pad zero s = s
pad (suc k) [] = 0 ∷ pad k []
pad (suc k) (c ∷ s) = c ∷ pad k s

abbrev pub FitsField : ℕ → Bytes → Type 0
FitsField k s = (length s ≤ k) × All (λ c. c ≢ 0) s

pub length-pad : (k : ℕ) (s : Bytes) → length s ≤ k → length (pad k s) ≡ k
length-pad zero s h = omega arith
length-pad (suc k) [] h = omega (arith, length-pad k [] (omega arith))
length-pad (suc k) (c ∷ s) h = omega (arith, length-pad k s (omega arith))

extract-pad_cons :
    (s : Bytes) (k : ℕ) (t : ℕ) (rest : Bytes)
    → FitsField k s
    → extract (pad k s ++ t ∷ rest) 0 k ≡ some s
unfolding extract
extract-pad_cons [] zero t rest h = refl
extract-pad_cons [] (suc k) t rest h = refl
extract-pad_cons (c ∷ s) zero t rest h = absurd (omega arith)
extract-pad_cons (c ∷ s) (suc k) t rest (h, (hc, hs)) =
    let tail = extract-append (c ∷ []) (pad k s ++ t ∷ rest) k 1 0 (omega arith) in
    let read = extract-pad_cons s k t rest (omega arith, hs) in ground (arith, tail, read)

pub extract-pad :
    (s : Bytes) (k : ℕ) (rest : Bytes)
    → FitsField k s
    → 0 < length rest
    → extract (pad k s ++ rest) 0 k ≡ some s
extract-pad s k [] h pos = absurd (omega arith)
extract-pad s k (t ∷ rest) h pos = extract-pad_cons s k t rest h

pub length-pad-append :
    (k : ℕ) (s rest : Bytes) → length s ≤ k → 0 < k → 0 < length (pad k s ++ rest)
length-pad-append k s rest h pos = omega (arith, length-append (pad k s) rest, length-pad k s h)

pub read_number-2 :
    (x : ℕ) (rest : Bytes) → x < 2 ^ 16 → read_number 32 (to_byte_array 2 x ++ rest) 0 2 0 ≡ some x
unfolding read_number to_byte_array
read_number-2 x rest h = ap some (omega arith)

pub read_number-4 :
    (x : ℕ) (rest : Bytes) → x < 2 ^ 32 → read_number 32 (to_byte_array 4 x ++ rest) 0 4 0 ≡ some x
unfolding read_number to_byte_array
read_number-4 x rest h = ap some (omega arith)

pub read_number-6 :
    (x : ℕ) (rest : Bytes) → x < 2 ^ 48 → read_number 64 (to_byte_array 6 x ++ rest) 0 6 0 ≡ some x
unfolding read_number to_byte_array
read_number-6 x rest h = ap some (omega arith)
