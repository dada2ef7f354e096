-- ===== src/DeviceInfo/Bounds.antt =====
-- Reading a message stays inside the receive buffer, and depends on its own bytes only.
use rcdiscover.Base.{
  ℕ, zero, suc, ◌+◌, ◌≤◌, ◌<◌, ◌≡◌, refl, [], ◌∷◌, Option, none, some, Bytes, length,
  get_elem?_total, leb, arith, Bool-cases, leb→le, inl, inr, bind_option, ◌==◌,
}
use rcdiscover.DeviceInfo.{DeviceInfo, extract, read_number, when_long, set}

abbrev pub Returns {ℓ} : {A : Type ℓ} → Option A → Type ℓ
Returns {A} o = (a : A) × (o ≡ some a)

extract-Returns : (buf : Bytes) (p len : ℕ) → p + len < length buf → Returns (extract buf p len)
unfolding extract
extract-Returns buf p zero h = let (c, e) = get_elem?_total buf p (omega arith) in ([], rw e refl)
extract-Returns buf p (suc len) h =
    let (c, e) = get_elem?_total buf p (omega arith) in
    let (out, rest) = extract-Returns buf (p + 1) len (omega arith) in
    elim (Bool-cases (c == 0)) [ inl z ↦ ([], rw (e, z)) | inr z ↦ (c ∷ out, rw (e, z, rest)) ]

read_number-Returns :
    (width : ℕ) (buf : Bytes) (at n x : ℕ)
    → at + n ≤ length buf
    → Returns (read_number width buf at n x)
unfolding read_number
read_number-Returns width buf at zero x h = (x, refl)
read_number-Returns width buf at (suc n) x h =
    let (b, e) = get_elem?_total buf at (omega arith) in
    rw e (read_number-Returns width buf (at + 1) n _ (omega arith))

when_long-Returns {ℓ} :
    {A : Type ℓ} (need len : ℕ) (read : Option A) (old : A)
    → (need ≤ len → Returns read)
    → Returns (when_long need len read old)
unfolding when_long
when_long-Returns need len read old h = elim (Bool-cases (leb need len)) [
  | inl e ↦ rw e (h (leb→le need len e))
  | inr e ↦ rw e (old, refl)
]

pub Returns-bind {ℓ κ} :
    {A : Type ℓ} {B : Type κ} {o : Option A} (f : A → Option B)
    → Returns o
    → ((a : A) → Returns (f a))
    → Returns (bind_option o f)
Returns-bind f (a, e) h = rw e (h a)

-- When the message and one byte behind it lie in the buffer, nothing outside of the buffer is
-- read, whatever the buffer holds. The extra byte is needed: `extract` reads before it counts.
pub set-Returns :
    (buf : Bytes) (raw len : ℕ) (old : DeviceInfo)
    → raw + len ≤ length buf
    → raw + 248 < length buf
    → Returns (set buf raw len old)
unfolding set
set-Returns buf raw len old fits h =
    Returns-bind _
      (when_long-Returns 4 len _ _ (λ l. read_number-Returns 32 buf raw 2 0 (omega arith)))
      λ _.
        Returns-bind _
          (when_long-Returns 4 len _ _
            (λ l. read_number-Returns 32 buf (raw + 2) 2 0 (omega arith)))
          λ _.
            Returns-bind _
              (when_long-Returns 16 len _ _
                (λ l. read_number-Returns 64 buf (raw + 10) 6 0 (omega arith)))
              λ _.
                Returns-bind _
                  (when_long-Returns 40 len _ _
                    (λ l. read_number-Returns 32 buf (raw + 36) 4 0 (omega arith)))
                  λ _.
                    Returns-bind _
                      (when_long-Returns 56 len _ _
                        (λ l. read_number-Returns 32 buf (raw + 52) 4 0 (omega arith)))
                      λ _.
                        Returns-bind _
                          (when_long-Returns 72 len _ _
                            (λ l. read_number-Returns 32 buf (raw + 68) 4 0 (omega arith)))
                          λ _.
                            Returns-bind _
                              (when_long-Returns 104 len _ _
                                (λ l. extract-Returns buf (raw + 72) 32 (omega arith)))
                              λ _.
                                Returns-bind _
                                  (when_long-Returns 136 len _ _
                                    (λ l. extract-Returns buf (raw + 104) 32 (omega arith)))
                                  λ _.
                                    Returns-bind _
                                      (when_long-Returns 168 len _ _
                                        (λ l. extract-Returns buf (raw + 136) 32 (omega arith)))
                                      λ _.
                                        Returns-bind _
                                          (when_long-Returns 216 len _ _
                                            (λ l. extract-Returns buf (raw + 168) 48 (omega arith)))
                                          λ _.
                                            Returns-bind _
                                              (when_long-Returns 232 len _ _ (λ l.
                                                extract-Returns buf (raw + 216) 16 (omega arith)))
                                              λ _.
                                                Returns-bind _
                                                  (when_long-Returns 248 len _ _ (λ l.
                                                    extract-Returns buf (raw + 232) 16
                                                      (omega arith)))
                                                  λ _. (_, refl)

Ensures {ℓ κ} : {A : Type ℓ} → (A → Type κ) → Option A → Type (ℓ ⊔ κ)
Ensures {A} P o = (a : A) → o ≡ some a → P a

Ensures-bind {ℓ κ μ} :
    {A : Type ℓ} {B : Type κ} (P : B → Type μ) (o : Option A) (f : A → Option B)
    → ((a : A) → Ensures P (f a))
    → Ensures P (bind_option o f)
unfolding Ensures
Ensures-bind P none f h b e = cc
Ensures-bind P (some a) f h b e = h a b e
