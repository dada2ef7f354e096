-- ===== src/Examples/Device.antt =====
-- A device that follows the protocol of rcdiscover/gvcp_ip_config.cc.
use rcdiscover.Base.{
  ℕ, ◌+◌, ◌*◌, ◌%◌, ◌^◌, ◌<◌, ◌≡◌, ap, ap₂, [], ◌∷◌, Bytes, ◌==◌, if◌then◌else◌, arith, inl, inr,
  ◌||◌, ◌∙◌, ==_iff, true,
}
use rcdiscover.Words.{u8, shr, append_uint32}
use rcdiscover.Gvcp.{Reply, silent, datagram, ReqId, packet, readreg_ack, writereg_ack, gev_ccp}
use rcdiscover.Gvcp.Device.{ack, Device, MayWrite}

abbrev pub Registers : Type 0
Registers = ℕ → ℕ

abbrev number : ℕ → ℕ → ℕ → ℕ → ℕ
number a b c d = ((a * 256 + b) * 256 + c) * 256 + d

abbrev pub put : Registers → ℕ → ℕ → Registers
put s a v b = if a == b then v else s b

-- Whether control access is claimed is checked for every other register; a request that is denied is
-- answered with the status 0x8006.
abbrev write : Registers → ReqId → ℕ → ℕ → Registers × Reply
write s id a v =
    if a == gev_ccp || s gev_ccp % 2 ^ 32 == 1
    then (put s a v, datagram (ack writereg_ack id (0 ∷ 0 ∷ 0 ∷ 1 ∷ [])))
    else (s, datagram (0x80 ∷ 0x06 ∷ 0 ∷ writereg_ack ∷ 0 ∷ 0 ∷ id.0 ∷ id.1 ∷ []))

-- A request with one word in its body reads a register, and one with two words writes one.
abbrev pub net : Registers → Bytes → Registers × Reply
net s (k0 ∷ k1 ∷ k2 ∷ k3 ∷ l0 ∷ l1 ∷ hi ∷ lo ∷ a0 ∷ a1 ∷ a2 ∷ a3 ∷ []) =
    (s, datagram (ack readreg_ack (hi, lo) (append_uint32 [] (s (number a0 a1 a2 a3) % 2 ^ 32))))
net s (k0 ∷ k1 ∷ k2 ∷ k3 ∷ l0 ∷ l1 ∷ hi ∷ lo ∷ a0 ∷ a1 ∷ a2 ∷ a3 ∷ v0 ∷ v1 ∷ v2 ∷ v3 ∷ []) =
    write s (hi, lo) (number a0 a1 a2 a3) (number v0 v1 v2 v3)
net s _ = (s, silent)

number-bytes :
    (x : ℕ) → x < 2 ^ 32 → number (u8 (shr x 24)) (u8 (shr x 16)) (u8 (shr x 8)) (u8 x) ≡ x
number-bytes x h = omega arith

net-read :
    (s : Registers) (id : ReqId) (a : ℕ)
    → a < 2 ^ 32
    → net s (packet 0x80 id (append_uint32 [] a))
      ≡ (s, datagram (ack readreg_ack id (append_uint32 [] (s a % 2 ^ 32))))
unfolding packet append_uint32
net-read s (hi, lo) a h =
    ap (λ x. (s, datagram (ack readreg_ack (hi, lo) (append_uint32 [] (s x % 2 ^ 32)))))
      (number-bytes a h)

may_write :
    (s : Registers) (a : ℕ)
    → MayWrite (λ b. s b % 2 ^ 32) a
    → (a == gev_ccp || s gev_ccp % 2 ^ 32 == 1) ≡ true
may_write s a (inl e) = ap (λ b. b || s gev_ccp % 2 ^ 32 == 1) ((==_iff a gev_ccp).1 e)
may_write s a (inr e) = ground (arith, e)

net-write :
    (s : Registers) (id : ReqId) (a v : ℕ)
    → a < 2 ^ 32
    → v < 2 ^ 32
    → MayWrite (λ b. s b % 2 ^ 32) a
    → net s (packet 0x82 id (append_uint32 (append_uint32 [] a) v))
      ≡ (put s a v, datagram (ack writereg_ack id (0 ∷ 0 ∷ 0 ∷ 1 ∷ [])))
unfolding packet append_uint32
net-write s (hi, lo) a v h k may =
    ap₂ (λ x y. write s (hi, lo) x y) (number-bytes a h) (number-bytes v k)
    ∙ ap
        (λ b.
          if b
          then (put s a v, datagram (ack writereg_ack (hi, lo) (0 ∷ 0 ∷ 0 ∷ 1 ∷ [])))
          else (s, datagram (0x80 ∷ 0x06 ∷ 0 ∷ writereg_ack ∷ 0 ∷ 0 ∷ hi ∷ lo ∷ [])))
        (may_write s a may)

pub device : Device net
device = record {
  regs = λ s a. s a % 2 ^ 32;
  store = put;
  regs_fit = λ s a. ground arith;
  store_regs = λ s a v b h. ground arith;
  reads = net-read;
  writes = net-write;
}
