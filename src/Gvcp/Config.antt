-- ===== src/Gvcp/Config.antt =====
-- Writing and reading the IP configuration of a device that follows the protocol.
use rcdiscover.Base.{
  ℕ, ◌^◌, ◌<◌, ◌≡◌, refl, ap, subst, sym, ◌∙◌, inl, inr, Bool, true, false, ◌&&◌, Bytes, ◌==◌,
  if◌then◌else◌, Exn, Result, ok, err, arith,
}
use rcdiscover.Gvcp.{
  World, Reply, IpConfig, M, ◌>>=◌, ◌>>◌, catch, throw, return, resume, recover, gev_ccp,
  gev_current_ip_configuration, gev_persistent_ip_address, gev_persistent_subnet_mask,
  gev_persistent_default_gateway, new_mode, read_register, write_register, read_config,
  decode_config, write_persistent, update_config, release, write_config,
}
use rcdiscover.Gvcp.Mode.{new_mode_lem, new_mode-fits}
use rcdiscover.Gvcp.Device.{Device, MayWrite, read_register-Device, write_register-Device}

pub record FitsRegisters (config : IpConfig) : Type 0 where
  pub ip_fits : config.persistent_ip < 2 ^ 32
  pub subnet_fits : config.persistent_subnet < 2 ^ 32
  pub gateway_fits : config.persistent_gateway < 2 ^ 32

-- What the registers hold afterwards, as a function of what they held before.
abbrev pub written : IpConfig → (ℕ → ℕ) → ℕ → ℕ
written config regs a =
    if a == gev_ccp
    then 0
    else if a == gev_current_ip_configuration
    then new_mode config (regs gev_current_ip_configuration)
    else if config.persistent_ip_enabled && a == gev_persistent_ip_address
    then config.persistent_ip
    else if config.persistent_ip_enabled && a == gev_persistent_subnet_mask
    then config.persistent_subnet
    else if config.persistent_ip_enabled && a == gev_persistent_default_gateway
    then config.persistent_gateway
    else regs a

ok_injective : {A : Type 0} (x y : A) → ok x ≡ ok y → x ≡ y
ok_injective x y e = cc

resume_lem :
    {S A B : Type 0} (f : A → M S B) (out : World S × Result A) {s s' : S} {a : A} {b : B}
    → (out.0.env ≡ s) × (out.1 ≡ ok a)
    → ((w : World S) → w.env ≡ s → ((f a w).0.env ≡ s') × ((f a w).1 ≡ ok b))
    → ((resume f out).0.env ≡ s') × ((resume f out).1 ≡ ok b)
resume_lem f (w, ok x) {a} (e, r) q = rw (ok_injective x a r) (q w e)
resume_lem f (w, err x) (e, r) q = cc

recover_lem :
    {S A : Type 0} (h : Exn → M S A) (out : World S × Result A) {s : S} {a : A}
    → (out.0.env ≡ s) × (out.1 ≡ ok a)
    → ((recover h out).0.env ≡ s) × ((recover h out).1 ≡ ok a)
recover_lem h (w, ok x) p = p
recover_lem h (w, err x) (e, r) = cc

module _ {S : Type 0} (net : S → Bytes → S × Reply) (d : Device net) where
  -- From the environment `s`, `m` returns `a` and leaves the environment `s'`.
  record Runs {A : Type 0} (m : M S A) (s s' : S) (a : A) : Type 0 where
    runs : (w : World S) → w.env ≡ s → ((m w).0.env ≡ s') × ((m w).1 ≡ ok a)

  Runs-bind :
      {A B : Type 0} (m : M S A) (f : A → M S B) {s s' s'' : S} {a : A} {b : B}
      → Runs m s s' a
      → Runs (f a) s' s'' b
      → Runs (m >>= f) s s'' b
  Runs-bind m f p q = record { runs = λ w e. resume_lem f (m w) (p.runs w e) q.runs }

  Runs-then :
      {B : Type 0} (m : M S (Unit {0})) (k : M S B) {s s' s'' : S} {a : Unit {0}} {b : B}
      → Runs m s s' a
      → Runs k s' s'' b
      → Runs (m >> k) s s'' b
  Runs-then m k p q = record { runs = λ w e. resume_lem (λ _. k) (m w) (p.runs w e) q.runs }

  Runs-return : {A : Type 0} (s : S) (a : A) → Runs (return a) s s a
  Runs-return s a = record { runs = λ w e. (e, refl) }

  Runs-write :
      (a v : ℕ) (s : S)
      → a < 2 ^ 32
      → v < 2 ^ 32
      → MayWrite (d.regs s) a
      → Runs (write_register net a v) s (d.store s a v) tt
  Runs-write a v s h k may = record {
    runs = λ w e.
        rw (write_register-Device net d a v w h k (subst (λ t. MayWrite (d.regs t) a) (sym e) may))
          (ap (λ x. d.store x a v) e, refl);
  }

  Runs-read : (a : ℕ) (s : S) → a < 2 ^ 32 → Runs (read_register net a) s s (d.regs s a)
  Runs-read a s h = record {
    runs = λ w e. rw (read_register-Device net d a w h) (e, ap (λ x. ok (d.regs x a)) e);
  }

  Runs-catch :
      {A : Type 0} (m : M S A) (h : Exn → M S A) {s s' : S} {a : A}
      → Runs m s s' a
      → Runs (catch m h) s s' a
  Runs-catch m h p = record { runs = λ w e. recover_lem h (m w) (p.runs w e) }

  -- Control access is claimed, and stays so when another register is written.
  abbrev IsClaimed : S → Type 0
  IsClaimed s = d.regs s gev_ccp ≡ 1

  store-IsClaimed :
      (s : S) (a v : ℕ)
      → v < 2 ^ 32
      → (a == gev_ccp) ≡ false
      → IsClaimed s
      → IsClaimed (d.store s a v)
  store-IsClaimed s a v k n c = d.store_regs s a v gev_ccp k ∙ (rw (n) c)

  persistent_stored : IpConfig → S → S
  persistent_stored config s =
      d.store
        (d.store (d.store s gev_persistent_ip_address config.persistent_ip)
          gev_persistent_subnet_mask config.persistent_subnet)
        gev_persistent_default_gateway config.persistent_gateway

  mode_stored : IpConfig → S → S
  mode_stored config s =
      d.store s gev_current_ip_configuration
        (new_mode config (d.regs s gev_current_ip_configuration))

  write_persistent-Runs :
      (config : IpConfig) (s : S)
      → FitsRegisters config
      → IsClaimed s
      → Runs (write_persistent net config) s (persistent_stored config s) tt
  unfolding write_persistent persistent_stored
  write_persistent-Runs config s fits claimed =
      let c₁ = store-IsClaimed s gev_persistent_ip_address _ fits.ip_fits refl claimed in
      let c₂ = store-IsClaimed _ gev_persistent_subnet_mask _ fits.subnet_fits refl c₁ in
      Runs-then _ _
        (Runs-write gev_persistent_ip_address config.persistent_ip s (omega arith) fits.ip_fits
          (inr claimed))
        (Runs-then _ _
          (Runs-write gev_persistent_subnet_mask config.persistent_subnet _ (omega arith)
            fits.subnet_fits (inr c₁))
          (Runs-write gev_persistent_default_gateway config.persistent_gateway _ (omega arith)
            fits.gateway_fits (inr c₂)))

  persistent_stored-IsClaimed :
      (config : IpConfig) (s : S)
      → FitsRegisters config
      → IsClaimed s
      → IsClaimed (persistent_stored config s)
  unfolding persistent_stored
  persistent_stored-IsClaimed config s fits claimed =
      store-IsClaimed _ gev_persistent_default_gateway _ fits.gateway_fits refl (
        store-IsClaimed _ gev_persistent_subnet_mask _ fits.subnet_fits refl
          (store-IsClaimed s gev_persistent_ip_address _ fits.ip_fits refl claimed))

  optional-IsClaimed :
      (b : Bool) (config : IpConfig) (s : S)
      → FitsRegisters config
      → IsClaimed s
      → IsClaimed (if b then persistent_stored config s else s)
  optional-IsClaimed true config s fits claimed = persistent_stored-IsClaimed config s fits claimed
  optional-IsClaimed false config s fits claimed = claimed

  optional-Runs :
      (b : Bool) (config : IpConfig) (s : S)
      → FitsRegisters config
      → IsClaimed s
      → Runs
          (if b then write_persistent net config else return tt)
          s
          (if b then persistent_stored config s else s)
          tt
  optional-Runs true config s fits claimed = write_persistent-Runs config s fits claimed
  optional-Runs false config s fits claimed = Runs-return s tt

  update_config-Runs :
      (config : IpConfig) (s : S)
      → FitsRegisters config
      → IsClaimed s
      → Runs
          (update_config net config)
          s
          (mode_stored config
            (if config.persistent_ip_enabled then persistent_stored config s else s))
          tt
  unfolding update_config mode_stored
  update_config-Runs config s fits claimed =
      Runs-then _ _ (optional-Runs config.persistent_ip_enabled config s fits claimed) (
        Runs-bind (read_register net gev_current_ip_configuration)
          (λ mode. write_register net gev_current_ip_configuration (new_mode config mode))
          (Runs-read gev_current_ip_configuration _ (omega arith))
          (Runs-write gev_current_ip_configuration _ _ (omega arith)
            (new_mode-fits config _ (d.regs_fit _ _))
            (inr (optional-IsClaimed config.persistent_ip_enabled config s fits claimed))))

  final : IpConfig → S → S
  final config s =
      let claimed = d.store s gev_ccp 1 in
      d.store
        (mode_stored config
          (if config.persistent_ip_enabled then persistent_stored config claimed else claimed))
        gev_ccp 0

  write_config-Runs :
      (config : IpConfig) (s : S)
      → FitsRegisters config
      → Runs (write_config net config) s (final config s) tt
  unfolding write_config release final
  write_config-Runs config s fits =
      Runs-then _ _ (Runs-write gev_ccp 1 s (omega arith) (omega arith) (inl refl)) (
        Runs-then _ _
          (Runs-catch _ (λ e. release net >> throw e)
            (update_config-Runs config _ fits (d.store_regs s gev_ccp 1 gev_ccp (omega arith))))
          (Runs-catch _ (λ _. return tt)
            (Runs-write gev_ccp 0 _ (omega arith) (omega arith) (inl refl))))

  persistent_stored-regs :
      (config : IpConfig) (s : S) (a : ℕ)
      → FitsRegisters config
      → d.regs (persistent_stored config s) a ≡ (
          if a == gev_persistent_default_gateway
          then config.persistent_gateway
          else if a == gev_persistent_subnet_mask
          then config.persistent_subnet
          else if a == gev_persistent_ip_address
          then config.persistent_ip
          else d.regs s a)
  unfolding persistent_stored
  persistent_stored-regs config s a fits =
      rw
        (
          d.store_regs _ gev_persistent_default_gateway config.persistent_gateway a
              fits.gateway_fits,
          d.store_regs _ gev_persistent_subnet_mask config.persistent_subnet a fits.subnet_fits,
          d.store_regs _ gev_persistent_ip_address config.persistent_ip a fits.ip_fits,
        )
        (ground arith)

  mode_stored-regs :
      (config : IpConfig) (s : S) (a : ℕ)
      → d.regs (mode_stored config s) a ≡ (
          if a == gev_current_ip_configuration
          then new_mode config (d.regs s gev_current_ip_configuration)
          else d.regs s a)
  unfolding mode_stored
  mode_stored-regs config s a =
      rw
        (d.store_regs s gev_current_ip_configuration _ a
          (new_mode-fits config _ (d.regs_fit s gev_current_ip_configuration)))
        (ground arith)

  optional-regs :
      (b : Bool) (config : IpConfig) (s : S) (a : ℕ)
      → FitsRegisters config
      → d.regs (if b then persistent_stored config s else s) a ≡ (
          if b && a == gev_persistent_ip_address
          then config.persistent_ip
          else if b && a == gev_persistent_subnet_mask
          then config.persistent_subnet
          else if b && a == gev_persistent_default_gateway
          then config.persistent_gateway
          else d.regs s a)
  optional-regs true config s a fits = ground (arith, persistent_stored-regs config s a fits)
  optional-regs false config s a fits = refl

  final-regs :
      (config : IpConfig) (s : S) (a : ℕ)
      → FitsRegisters config
      → d.regs (final config s) a ≡ written config (d.regs s) a
  unfolding final
  final-regs config s a fits =
      let claimed = d.store s gev_ccp 1 in
      let base : S =
        if config.persistent_ip_enabled then persistent_stored config claimed else claimed in
      ground (
        arith,
        d.store_regs (mode_stored config base) gev_ccp 0 a (omega arith),
        mode_stored-regs config base a,
        optional-regs config.persistent_ip_enabled config claimed a fits,
        optional-regs config.persistent_ip_enabled config claimed gev_current_ip_configuration fits,
        d.store_regs s gev_ccp 1 a (omega arith),
        d.store_regs s gev_ccp 1 gev_current_ip_configuration (omega arith),
      )

  read_config-Runs :
      (s : S)
      → Runs (read_config net) s s (
          decode_config
            (d.regs s gev_current_ip_configuration)
            (d.regs s gev_persistent_ip_address)
            (d.regs s gev_persistent_subnet_mask)
            (d.regs s gev_persistent_default_gateway))
  unfolding read_config
  read_config-Runs s =
      Runs-bind _
        (λ mode. (do
          ip ← read_register net gev_persistent_ip_address
          subnet ← read_register net gev_persistent_subnet_mask
          gateway ← read_register net gev_persistent_default_gateway
          return (decode_config mode ip subnet gateway)))
        (Runs-read gev_current_ip_configuration s (omega arith))
        (Runs-bind _
          (λ ip. (do
            subnet ← read_register net gev_persistent_subnet_mask
            gateway ← read_register net gev_persistent_default_gateway
            return (decode_config (d.regs s gev_current_ip_configuration) ip subnet gateway)))
          (Runs-read gev_persistent_ip_address s (omega arith))
          (Runs-bind _
            (λ subnet. (do
              gateway ← read_register net gev_persistent_default_gateway
              return (
                  decode_config (d.regs s gev_current_ip_configuration)
                    (d.regs s gev_persistent_ip_address) subnet gateway)))
            (Runs-read gev_persistent_subnet_mask s (omega arith))
            (Runs-bind _
              (λ gateway. return (
                decode_config (d.regs s gev_current_ip_configuration)
                  (d.regs s gev_persistent_ip_address) (d.regs s gev_persistent_subnet_mask)
                  gateway))
              (Runs-read gev_persistent_default_gateway s (omega arith)) (Runs-return s _))))

  -- On a reachable device that follows the protocol, which needs to accept the writing of another
  -- register than the control register only while control access is claimed, with addresses of 32 bits in the
  -- configuration, `writeConfig` returns, and every register of the device holds what `written`
  -- says: the control register is released, the mode register has its new value, the persistent
  -- addresses are set if they are enabled, and no other register is touched.
  pub write_config-written :
      (config : IpConfig) (w : World S)
      → FitsRegisters config
      → ((write_config net config w).1 ≡ ok tt)
        × ((a : ℕ) → d.regs (write_config net config w).0.env a ≡ written config (d.regs w.env) a)
  write_config-written config w fits =
      let (env, value) = (write_config-Runs config w.env fits).runs w refl in
      (value, λ a. rw env (final-regs config w.env a fits))

  -- On a reachable device that follows the protocol, which needs to accept the writing of another
  -- register than the control register only while control access is claimed, with addresses of 32 bits in the
  -- configuration, `readConfig` after `writeConfig` returns the configuration that was written;
  -- the addresses are the old ones where no persistent address is enabled.
  pub read_config-write_config :
      (config : IpConfig) (w : World S)
      → FitsRegisters config
      → (read_config net (write_config net config w).0).1
        ≡ ok (record {
          persistent_ip_enabled = config.persistent_ip_enabled;
          dhcp_enabled = config.dhcp_enabled;
          persistent_ip = written config (d.regs w.env) gev_persistent_ip_address;
          persistent_subnet = written config (d.regs w.env) gev_persistent_subnet_mask;
          persistent_gateway = written config (d.regs w.env) gev_persistent_default_gateway;
        })
  unfolding decode_config
  read_config-write_config config w fits =
      let (env, value) = (write_config-Runs config w.env fits).runs w refl in
      let (same, result) =
        (read_config-Runs (final config w.env)).runs (write_config net config w).0 env in
      let (p, h, _, _) = new_mode_lem config (d.regs w.env gev_current_ip_configuration) in
      rw (
        result,
        final-regs config w.env gev_current_ip_configuration fits,
        final-regs config w.env gev_persistent_ip_address fits,
        final-regs config w.env gev_persistent_subnet_mask fits,
        final-regs config w.env gev_persistent_default_gateway fits,
        p,
        h,
      )
