-- ===== src/ForceIp/Broadcast.antt =====
-- Which FORCEIP commands are sent.
use rcdiscover.Base.{
  ℕ, suc, ◌≡◌, refl, sym, ◌∙◌, ap, List, [], ◌∷◌, ◌++◌, append-nil, append_assoc, Option, none,
  Bytes, Exn, ok, err, Result-cases, inl, inr,
}
use rcdiscover.RequestCounter.Cycle.{after_calls, nth_id}
use rcdiscover.Socket.{Socket, Os, send}
use rcdiscover.Discover.Broadcast.{OnlyUnreachable}
use rcdiscover.ForceIp.{force_ip_command, with_id, Traffic, send_all, send_command}
use rcdiscover.Words.{to_byte_array}
use rcdiscover.ForceIp.Layout.{layout, force_ip_command-layout}

-- One command for each socket whose send succeeds, with the ids of the calls `k`, `k + 1`, ….
abbrev pub commands_from : Os → ℕ → ℕ → ℕ → ℕ → ℕ → List Socket → List (Socket × Bytes)
commands_from os mac ip subnet gateway k [] = []
commands_from os mac ip subnet gateway k (s ∷ sockets) =
    elim (send os s (layout mac ip subnet gateway (nth_id k))) [
      | ok sent ↦ sent ++ commands_from os mac ip subnet gateway (suc k) sockets
      | err e ↦ commands_from os mac ip subnet gateway (suc k) sockets
    ]

abbrev pub traffic : ℕ → List (Socket × Bytes) → Traffic
traffic k wire = record { counter = after_calls k; wire = wire }

abbrev Prepared : ℕ → ℕ → ℕ → ℕ → Bytes → Type 0
Prepared mac ip subnet gateway command =
    (id : ℕ × ℕ) → with_id command id ≡ layout mac ip subnet gateway id

with_id-layout :
    (mac ip subnet gateway : ℕ) (id id' : ℕ × ℕ)
    → with_id (layout mac ip subnet gateway id) id' ≡ layout mac ip subnet gateway id'
unfolding to_byte_array
with_id-layout mac ip subnet gateway id id' = refl

-- The buffer stays prepared, whatever id a round leaves in it.
Prepared-with_id :
    (mac ip subnet gateway : ℕ) (command : Bytes) (id : ℕ × ℕ)
    → Prepared mac ip subnet gateway command
    → Prepared mac ip subnet gateway (with_id command id)
Prepared-with_id mac ip subnet gateway command id p id' =
    ap (λ c. with_id c id') (p id) ∙ with_id-layout mac ip subnet gateway id id'

abbrev Sent : Traffic × Option Exn → List (Socket × Bytes) → Type 0
Sent out wire = (out.1 ≡ none) × (out.0.wire ≡ wire)

module _ (os : Os) (mac ip subnet gateway : ℕ) where
  send_all-Sent :
      (sockets : List Socket) (k : ℕ) (wire : List (Socket × Bytes)) (command : Bytes)
      → OnlyUnreachable os sockets
      → Prepared mac ip subnet gateway command
      → Sent
          (send_all os sockets command (traffic k wire))
          (wire ++ commands_from os mac ip subnet gateway k sockets)
  unfolding send_all after_calls nth_id
  send_all-Sent [] k wire command only p = (refl, sym (append-nil wire))
  send_all-Sent (s ∷ sockets) k wire command only p =
      elim (Result-cases (send os s (layout mac ip subnet gateway (nth_id k)))) [
        | inl (sent, e) ↦
            let (t, f) =
              send_all-Sent sockets (suc k) (wire ++ sent) (with_id command (nth_id k))
                (λ b. (only b).1) (Prepared-with_id mac ip subnet gateway command (nth_id k) p) in
            rw (ap (send os s) (p (nth_id k)) ∙ e, e, send_all, commands_from)
              (t, f ∙ append_assoc wire sent _)
        | inr (x, e) ↦
            let (t, f) =
              send_all-Sent sockets (suc k) wire (with_id command (nth_id k)) (λ b. (only b).1)
                (Prepared-with_id mac ip subnet gateway command (nth_id k) p) in
            rw
              (
                ap (send os s) (p (nth_id k)) ∙ e,
                e,
                (only (layout mac ip subnet gateway (nth_id k))).0 x e,
                send_all,
                commands_from,
              )
              (t, f)
      ]

-- A command sent as request number `k` of the program, when a send can only fail because the
-- network is unreachable: no exception leaves it, and each socket whose network is reachable sends
-- one FORCEIP command with the given addresses and an id of its own.
pub send_command_lem :
    (os : Os) (mac ip subnet gateway : ℕ) (sockets : List Socket) (k : ℕ)
    (wire : List (Socket × Bytes))
    → OnlyUnreachable os sockets
    → ((send_command os sockets mac ip subnet gateway (traffic k wire)).1 ≡ none)
      × ((send_command os sockets mac ip subnet gateway (traffic k wire)).0.wire
          ≡ wire ++ commands_from os mac ip subnet gateway k sockets)
unfolding send_command
send_command_lem os mac ip subnet gateway sockets k wire only =
    send_all-Sent os mac ip subnet gateway sockets k wire (force_ip_command mac ip subnet gateway)
      only (force_ip_command-layout mac ip subnet gateway)
