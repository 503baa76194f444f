-- ===== src/Gateway/Refines.antt =====
-- src/lib/packet_handler.c and `clean_expired_session` implement the gateway.
use benker_vpn.Base.{
  ℕ, ◌+◌, ◌≡◌, refl, ap, sym, ◌∙◌, true, arith, Returns, returns, Returns-bind, some, Bool-cases,
  inl, inr, List, [], ◌∷◌,
}
use benker_vpn.Packet.{Buffer, IsBytes}
use benker_vpn.Session.{Memory, Clock, Table}
use benker_vpn.Session.Valid.{IsValid, listed}
use benker_vpn.Session.Clean.{expired, CleanedTable, clean_expired_session-Cleaned}
use benker_vpn.Handler.{Reply, segment_of, world_flags}
use benker_vpn.Handler.World
use benker_vpn.Handler.World.{
  WorldOutcome, delivered, world_flags-SameKeys, handle_world_packet-Outcome,
}
use benker_vpn.Gateway.{
  set, unexpired, Request, client_packet, world_packet, clean_up, Answer, answer_of, Step,
  malformed_world, no_owner, world_late, world_known, cleaned, perform, perform_all, Trace, done,
  step,
}
use benker_vpn.Gateway.View.{view, view-listed, view-free, view-later, view-written, view-cases}
use benker_vpn.Gateway.Client.{handle_client_packet-Step}

-- The packets of a request hold bytes.
abbrev pub IsRequest : Request → Type 0
IsRequest (client_packet b len count) = IsBytes b
IsRequest (world_packet b len ip) = IsBytes b
IsRequest clean_up = Unit

abbrev pub AllRequests : List (ℕ × Request) → Type 0
AllRequests [] = Unit
AllRequests ((now, r) ∷ rest) = IsRequest r × AllRequests rest

module _ (clock : Clock) (now : ℕ) (still : (n : ℕ) → clock n ≡ now) (server_ip : ℕ) where
  module _ (m : Memory) (t : Table) (v : IsValid m t) where
    WorldStep : (b : Buffer) (len ip : ℕ) → Reply × ℕ × Memory → Type 0
    WorldStep b len ip (reply, ip', m') =
        Step now server_ip (view m t) (world_packet b len ip) (answer_of reply) (view m' t)

    outcome-Step :
        (b : Buffer) (len ip : ℕ) (x : Reply × ℕ × Memory)
        → WorldOutcome clock m t b len ip x
        → WorldStep b len ip x
    unfolding WorldStep
    outcome-Step b len ip x (World.bad_packet bad reset) = malformed_world bad (λ k. refl)
    outcome-Step b len ip x (World.no_session good unused reset) =
        no_owner good (view-free _ v unused) (λ k. refl)
    outcome-Step b len ip x (World.too_late p good s late reset) =
        world_late (m.cell p) good (view-listed p _ v s.in_table s.same_port)
          (rw (still m.calls) at late) (view-later (m.calls + 1) v)
    outcome-Step b len ip x (delivered p good s early) =
        let s' = world_flags (m.cell p) (segment_of b) in
        let changed =
          view-written m t p s' (m.calls + 1) (world_flags-SameKeys (m.cell p) b) v s.in_table in
        world_known (m.cell p) good (view-listed p _ v s.in_table s.same_port)
          (rw (still m.calls) at early)
          (λ k. changed k ∙ ap (λ n. set (view m t) n s' k) s.same_port)

    cleaned-unexpired :
        (r : Memory × Table)
        → CleanedTable clock now still m t r
        → (n : ℕ) → view r.0 r.1 n ≡ unexpired now (view m t n)
    cleaned-unexpired r c n = elim (view-cases n v) [
      | inl (unused, e) ↦
          rw e (
            view-free n c.valid
              (λ p l'. rw c.same_cells (unused p (ground (arith, c.remaining p)))))
      | inr (p, l, at, e) ↦ rw e (elim (Bool-cases (expired m now p)) [
        | inl dead ↦ rw dead (
            view-free n c.valid (λ q l' at'.
              let lq : listed m t q ≡ true = ground (arith, c.remaining q) in
              let is : q ≡ p =
                v.server_key q p lq l
                  (ap (λ f. (f q).server_port) (sym c.same_cells) ∙ at' ∙ sym at) in
              absurd (ground (arith, c.remaining q))))
        | inr alive ↦ rw alive (
            view-listed p n c.valid (ground (arith, c.remaining p))
              (ap (λ f. (f p).server_port) c.same_cells ∙ at)
            ∙ ap (λ f. some (f p)) c.same_cells)
      ])
    ]

    -- What one request leaves.
    Stepped : Request → Answer × Memory × Table → Type 0
    Stepped r (answer, m', t') = IsValid m' t' × Step now server_ip (view m t) r answer (view m' t')

    perform-Stepped :
        (r : Request) → IsRequest r → Returns (Stepped r) (perform clock server_ip m t r)
    unfolding perform Stepped WorldStep
    perform-Stepped (client_packet b len count) h =
        Returns-bind (handle_client_packet-Step clock now still count m t b len server_ip v)
          (λ x s. returns s)
    perform-Stepped (world_packet b len ip) h =
        Returns-bind (handle_world_packet-Outcome clock m t b len ip v h)
          (λ x s. returns (s.0, outcome-Step b len ip x s.1))
    perform-Stepped clean_up h =
        Returns-bind (clean_expired_session-Cleaned clock now still m t v)
          (λ x c. returns (c.valid, cleaned (cleaned-unexpired x c)))

-- Where `time(NULL)` returns one value during each request, the code on a well formed table serves every
-- sequence of requests whose packets hold bytes without a fault, whatever the time of each one; the
-- answers, and the owners of the ports before and after, are a trace of the gateway, and the table stays
-- well formed.
pub perform_all-Trace :
    (server_ip : ℕ) (m : Memory) (t : Table) (rs : List (ℕ × Request))
    → IsValid m t
    → AllRequests rs
    → Returns
        (λ x. IsValid x.1 x.2 × Trace server_ip (view m t) rs x.0 (view x.1 x.2))
        (perform_all server_ip m t rs)
unfolding perform_all Stepped
perform_all-Trace server_ip m t [] v h = returns (v, done)
perform_all-Trace server_ip m t ((now, r) ∷ rest) v h =
    Returns-bind (perform-Stepped (λ n. now) now (λ n. refl) server_ip m t v r h.0) (λ x s.
      Returns-bind (perform_all-Trace server_ip x.1 x.2 rest s.0 h.1)
        (λ y more. returns (more.0, step s.1 more.1)))
