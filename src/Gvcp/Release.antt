-- ===== src/Gvcp/Release.antt =====
-- Requests and control access on any network: what is sent, and when.
use rcdiscover.Base.{
  ℕ, zero, suc, ◌≤◌, ◌≡◌, refl, ◌∙◌, ap, List, [], ◌∷◌, ◌++◌, Option, none, some, Bytes, replicate,
  take, Exn, Result, ok, err, arith, min, ◌<◌,
}
use rcdiscover.Words.{append_uint32}
use rcdiscover.RequestCounter.{get_next}
use rcdiscover.Gvcp.{
  World, Reply, send_failed, silent, datagram, ReqId, IpConfig, M, ◌>>◌, catch, throw, return,
  resume, recover, packet, check_reply, on_checked, on_reply, attempts, send_and_receive,
  write_register, update_config, release, write_config, writereg_cmd, writereg_ack, gev_ccp,
}

replicate-middle :
    {A : Type 0} (j : ℕ) (x : A) (l : List A) → replicate j x ++ x ∷ l ≡ x ∷ (replicate j x ++ l)
replicate-middle zero x l = refl
replicate-middle (suc j) x l = ap (λ t. x ∷ t) (replicate-middle j x l)

module _ {S : Type 0} (net : S → Bytes → S × Reply) where
  -- The log grew by `pkt`, at most `n` times, and at least once if `n` is positive.
  abbrev pub Repeats : ℕ → Bytes → List Bytes → List Bytes → Type 0
  Repeats n pkt old new = (j : ℕ) × (min 1 n ≤ j) × (j ≤ n) × (new ≡ replicate j pkt ++ old)

  Repeats-now :
      (n : ℕ) (pkt : Bytes) (old new : List Bytes) → new ≡ pkt ∷ old → Repeats (suc n) pkt old new
  Repeats-now n pkt old new e = (1, omega arith, omega arith, e)

  Repeats-later :
      (n : ℕ) (pkt : Bytes) (old now new : List Bytes)
      → now ≡ pkt ∷ old
      → Repeats n pkt now new
      → Repeats (suc n) pkt old new
  Repeats-later n pkt old now new e (j, _, h, f) = (
    suc j,
    omega arith,
    omega arith,
    f ∙ ap (λ t. replicate j pkt ++ t) e ∙ replicate-middle j pkt old,
  )

  on_checked-Repeats :
      (n : ℕ) (retry : M S Bytes) (pkt : Bytes) (w : World S) (old : List Bytes)
      (o : Option (Result Bytes))
      → w.sent ≡ pkt ∷ old
      → Repeats n pkt w.sent (retry w).0.sent
      → Repeats (suc n) pkt old (on_checked retry w o).0.sent
  unfolding on_checked
  on_checked-Repeats n retry pkt w old (some r) e h = Repeats-now n pkt old _ e
  on_checked-Repeats n retry pkt w old none e h = Repeats-later n pkt old _ _ e h

  on_reply-Repeats :
      (n expected : ℕ) (id : ReqId) (retry : M S Bytes) (pkt : Bytes) (w : World S)
      (old : List Bytes) (reply : Reply)
      → w.sent ≡ pkt ∷ old
      → Repeats n pkt w.sent (retry w).0.sent
      → Repeats (suc n) pkt old (on_reply retry expected id w reply).0.sent
  unfolding on_reply
  on_reply-Repeats n expected id retry pkt w old (send_failed x) e h = Repeats-now n pkt old _ e
  on_reply-Repeats n expected id retry pkt w old silent e h = Repeats-later n pkt old _ _ e h
  on_reply-Repeats n expected id retry pkt w old (datagram b) e h =
      on_checked-Repeats n retry pkt w old (check_reply expected id (take 600 b)) e h

  attempts-Repeats :
      (n expected : ℕ) (id : ReqId) (pkt : Bytes) (w : World S)
      → Repeats n pkt w.sent (attempts net n expected id pkt w).0.sent
  unfolding attempts
  attempts-Repeats zero expected id pkt w = (0, omega arith, omega arith, refl)
  attempts-Repeats (suc n) expected id pkt w =
      on_reply-Repeats n expected id (attempts net n expected id pkt) pkt _ w.sent (net w.env pkt).1
        refl (attempts-Repeats n expected id pkt _)

  -- A request is sent at least once and at most three times, always as the same packet, which
  -- carries the next id of the request counter.
  pub send_and_receive-Repeats :
      (cmd expected : ℕ) (payload : Bytes) (w : World S)
      → Repeats 3
          (packet cmd (get_next w.counter).1 payload)
          w.sent
          (send_and_receive net cmd expected payload w).0.sent
  unfolding send_and_receive
  send_and_receive-Repeats cmd expected payload w =
      attempts-Repeats 3 expected (get_next w.counter).1 _ _

  -- The latest entry of the log is the write of `value` to the register `address`.
  abbrev pub LastWrite : ℕ → ℕ → List Bytes → Type 0
  LastWrite address value log =
      (id : ReqId) × (rest : List Bytes) × (log
        ≡ packet writereg_cmd id (append_uint32 (append_uint32 [] address) value) ∷ rest)

  Repeats-head :
      (n : ℕ) (pkt : Bytes) (old new : List Bytes)
      → 0 < n
      → Repeats n pkt old new
      → (rest : List Bytes) × (new ≡ pkt ∷ rest)
  Repeats-head n pkt old new pos (zero, l, h, e) = absurd (omega arith)
  Repeats-head n pkt old new pos (suc j, l, h, e) = (replicate j pkt ++ old, e)

  resume-keeps :
      {A B : Type 0} (b : B) (out : World S × Result A) → (resume (λ _. return b) out).0 ≡ out.0
  resume-keeps b (w, ok a) = refl
  resume-keeps b (w, err e) = refl

  write_register-Last :
      (address value : ℕ) (w : World S)
      → LastWrite address value (write_register net address value w).0.sent
  unfolding write_register
  write_register-Last address value w =
      let (rest, e) = Repeats-head 3 _ w.sent _ (omega arith) (
        send_and_receive-Repeats writereg_cmd writereg_ack
          (append_uint32 (append_uint32 [] address) value) w) in
      (
        (get_next w.counter).1,
        rest,
        ap (λ x. x.sent)
              (resume-keeps tt (
                send_and_receive net writereg_cmd writereg_ack
                  (append_uint32 (append_uint32 [] address) value) w))
            ∙ e,
      )

  recover-keeps :
      {A : Type 0} (a : A) (out : World S × Result A) → (recover (λ _. return a) out).0 ≡ out.0
  recover-keeps a (w, ok x) = refl
  recover-keeps a (w, err e) = refl

  recover-ok : (out : World S × Result (Unit {0})) → (recover (λ _. return tt) out).1 ≡ ok tt
  recover-ok (w, ok x) = refl
  recover-ok (w, err e) = refl

  release-Last : (w : World S) → LastWrite gev_ccp 0 (release net w).0.sent
  unfolding release
  release-Last w =
      let (id, rest, e) = write_register-Last gev_ccp 0 w in
      (id, rest, ap (λ x. x.sent) (recover-keeps tt (write_register net gev_ccp 0 w)) ∙ e)

  release-ok : (w : World S) → (release net w).1 ≡ ok tt
  unfolding release
  release-ok w = recover-ok (write_register net gev_ccp 0 w)

  -- After the claim: the update, then the release on both paths.
  abbrev finish : World S × Result (Unit {0}) → World S × Result (Unit {0})
  finish out = resume (λ _. release net) (recover (λ e. (do release net; throw e)) out)

  rethrow-keeps :
      (e : Exn) (out : World S × Result (Unit {0}))
      → out.1 ≡ ok tt
      → (resume (λ _. release net) (resume (λ _. throw {A = Unit {0}} e) out)) ≡ (out.0, err e)
  rethrow-keeps e (w, ok x) h = refl
  rethrow-keeps e (w, err x) h = cc

  finish-Last :
      (out : World S × Result (Unit {0}))
      → LastWrite gev_ccp 0 (finish out).0.sent × ((finish out).1 ≡ out.1)
  finish-Last (w, ok x) = (release-Last w, release-ok w)
  finish-Last (w, err e) =
      rw (rethrow-keeps e (release net w) (release-ok w)) (release-Last w, refl)

  resume-ok :
      {A B : Type 0} (f : A → M S B) (out : World S × Result A) (a : A)
      → out.1 ≡ ok a
      → resume f out ≡ f a out.0
  resume-ok f (w, ok x) a h = cc
  resume-ok f (w, err x) a h = cc

  resume-err :
      {A B : Type 0} (f : A → M S B) (out : World S × Result A) (e : Exn)
      → out.1 ≡ err e
      → resume f out ≡ (out.0, err e)
  resume-err f (w, ok x) e h = cc
  resume-err f (w, err x) e h = cc

  -- Once control access is claimed, the last packet that `writeConfig` sends is the one that
  -- releases it, whether the update succeeds or throws, and the outcome is that of the update: its
  -- exception is thrown again, and a failure of the release is not seen.
  pub write_config-releases :
      (config : IpConfig) (w : World S)
      → (write_register net gev_ccp 1 w).1 ≡ ok tt
      → LastWrite gev_ccp 0 (write_config net config w).0.sent
        × ((write_config net config w).1
            ≡ (update_config net config (write_register net gev_ccp 1 w).0).1)
  unfolding write_config
  write_config-releases config w claimed =
      rw
        (resume-ok
          (λ (_ : Unit {0}). (do
            catch (update_config net config) (λ e. (do release net; throw e))
            release net))
          (write_register net gev_ccp 1 w) tt claimed)
        (finish-Last (update_config net config (write_register net gev_ccp 1 w).0))

  -- If the claim fails, nothing else is sent, and its exception is thrown.
  pub write_config-refused :
      (config : IpConfig) (w : World S) (e : Exn)
      → (write_register net gev_ccp 1 w).1 ≡ err e
      → ((write_config net config w).0 ≡ (write_register net gev_ccp 1 w).0)
        × ((write_config net config w).1 ≡ err e)
  unfolding write_config
  write_config-refused config w e refused =
      rw
        (resume-err
          (λ (_ : Unit {0}). (do
            catch (update_config net config) (λ e. (do release net; throw e))
            release net))
          (write_register net gev_ccp 1 w) e refused)
        (refl, refl)
