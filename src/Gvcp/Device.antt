-- ===== src/Gvcp/Device.antt =====
-- What a device that follows the protocol answers, and register access to such a device.
use rcdiscover.Base.{
  ℕ, suc, ◌^◌, ◌<◌, ◌≡◌, [], ◌∷◌, some, Bytes, take, ◌==◌, if◌then◌else◌, ok, arith, ap, ◌⊎◌,
}
use rcdiscover.Words.{append_uint32}
use rcdiscover.Words.RoundTrip.{extract_uint32-append_uint32}
use rcdiscover.RequestCounter.{get_next}
use rcdiscover.Gvcp.{
  World, Reply, datagram, ReqId, packet, check_reply, on_checked, on_reply, attempts,
  send_and_receive, first_uint32, read_register, write_register, readreg_cmd, readreg_ack,
  writereg_cmd, writereg_ack, gev_ccp,
}

-- The acknowledgement `cmd` of request `id`, with status 0 and a body of four bytes.
abbrev pub ack : ℕ → ReqId → Bytes → Bytes
ack cmd (hi, lo) body = 0 ∷ 0 ∷ 0 ∷ cmd ∷ 0 ∷ 4 ∷ hi ∷ lo ∷ body

-- The control register may be written at any time, another register only while control access is
-- claimed, with the value 1 in the control register.
abbrev pub MayWrite : (ℕ → ℕ) → ℕ → Type 0
MayWrite regs a = (a ≡ gev_ccp) ⊎ (regs gev_ccp ≡ 1)

-- A reachable device with 32-bit registers: READREG returns a register; WRITEREG, where it is
-- allowed, stores one and is acknowledged with the index of the last register written. Nothing is
-- said of a WRITEREG that is not allowed.
pub record Device {S : Type 0} (net : S → Bytes → S × Reply) : Type 0 where
  pub regs : S → ℕ → ℕ
  pub store : S → ℕ → ℕ → S
  pub regs_fit : (s : S) (a : ℕ) → regs s a < 2 ^ 32
  pub store_regs :
      (s : S) (a v b : ℕ) → v < 2 ^ 32 → regs (store s a v) b ≡ (if a == b then v else regs s b)
  pub reads :
      (s : S) (id : ReqId) (a : ℕ)
      → a < 2 ^ 32
      → net s (packet readreg_cmd id (append_uint32 [] a))
        ≡ (s, datagram (ack readreg_ack id (append_uint32 [] (regs s a))))
  pub writes :
      (s : S) (id : ReqId) (a v : ℕ)
      → a < 2 ^ 32
      → v < 2 ^ 32
      → MayWrite (regs s) a
      → net s (packet writereg_cmd id (append_uint32 (append_uint32 [] a) v))
        ≡ (store s a v, datagram (ack writereg_ack id (0 ∷ 0 ∷ 0 ∷ 1 ∷ [])))

module _ {S : Type 0} where
  -- The state after one request that was answered at the first attempt.
  abbrev pub after : World S → ℕ → Bytes → S → World S
  after w cmd payload env' = record {
    env = env';
    counter = (get_next w.counter).0;
    sent = packet cmd (get_next w.counter).1 payload ∷ w.sent;
  }

module _ {S : Type 0} (net : S → Bytes → S × Reply) (d : Device net) where
  check_reply-ack :
      (cmd : ℕ) (id : ReqId) (a b c e : ℕ)
      → cmd < 256
      → check_reply cmd id (take 600 (ack cmd id (a ∷ b ∷ c ∷ e ∷ [])))
        ≡ some (ok (a ∷ b ∷ c ∷ e ∷ []))
  unfolding check_reply
  check_reply-ack cmd (hi, lo) a b c e h = ground arith

  attempts-first :
      (k expected : ℕ) (id : ReqId) (pkt b body : Bytes) (w : World S) (env' : S)
      → net w.env pkt ≡ (env', datagram b)
      → check_reply expected id (take 600 b) ≡ some (ok body)
      → attempts net (suc k) expected id pkt w
        ≡ (record w { env = env'; sent = pkt ∷ w.sent }, ok body)
  unfolding attempts on_reply on_checked
  attempts-first k expected id pkt b body w env' e c =
      rw (e, on_reply, on_checked, c)
        (ap (λ p. (record w { env = p.0; sent = pkt ∷ w.sent }, ok body)) e)

  check_reply-uint32 :
      (cmd : ℕ) (id : ReqId) (v : ℕ)
      → cmd < 256
      → check_reply cmd id (take 600 (ack cmd id (append_uint32 [] v)))
        ≡ some (ok (append_uint32 [] v))
  unfolding append_uint32
  check_reply-uint32 cmd id v h = check_reply-ack cmd id _ _ _ _ h

  first_uint32-append_uint32 :
      (v : ℕ) (w : World S) → v < 2 ^ 32 → first_uint32 net (append_uint32 [] v) w ≡ (w, ok v)
  unfolding first_uint32 append_uint32
  first_uint32-append_uint32 v w h = rw (extract_uint32-append_uint32 v [] h)

  pub read_register-Device :
      (a : ℕ) (w : World S)
      → a < 2 ^ 32
      → read_register net a w
        ≡ (after w readreg_cmd (append_uint32 [] a) w.env, ok (d.regs w.env a))
  unfolding read_register send_and_receive
  read_register-Device a w h =
      rw
        (attempts-first 2 readreg_ack (get_next w.counter).1 _ _ _
          (record w { counter = (get_next w.counter).0 }) w.env
          (d.reads w.env (get_next w.counter).1 a h)
          (check_reply-uint32 readreg_ack (get_next w.counter).1 _ (omega arith)))
        (first_uint32-append_uint32 (d.regs w.env a) _ (d.regs_fit w.env a))

  pub write_register-Device :
      (a v : ℕ) (w : World S)
      → a < 2 ^ 32
      → v < 2 ^ 32
      → MayWrite (d.regs w.env) a
      → write_register net a v w
        ≡ (after w writereg_cmd (append_uint32 (append_uint32 [] a) v) (d.store w.env a v), ok tt)
  unfolding write_register send_and_receive
  write_register-Device a v w h k may = rw (
      attempts-first 2 writereg_ack (get_next w.counter).1 _ _ _
        (record w { counter = (get_next w.counter).0 }) (d.store w.env a v)
        (d.writes w.env (get_next w.counter).1 a v h k may)
        (check_reply-ack writereg_ack (get_next w.counter).1 0 0 0 1 (omega arith)))
