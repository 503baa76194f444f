-- ===== src/Server/Outgoing/Rounds.antt =====
-- All rounds of src/server/main.c.
use benker_vpn.Base.{
  ℕ, ◌^◌, ◌<◌, ◌≡◌, refl, true, arith, List, [], ◌∷◌, ◌++◌, some, Run, Returns, returns,
  Returns-bind, Returns-both, Returns-mono, subst,
}
use benker_vpn.Packet.{IsBytes}
use benker_vpn.Session.{Memory, Clock, Ptr}
use benker_vpn.Net.{
  Descriptor, no_socket, unbound, bound, get_udp_socket_server, get_vpn_raw_socket,
}
use benker_vpn.Server.{
  Server, Answers, Result, running, exited, serve_round, serve, continue_with, init_vpn_server,
  fill_in,
}
use benker_vpn.Server.Safe.{
  IsServing, AreSane, AllSane, serve_client-Safe, serve_world-Safe, init_vpn_server-IsServing,
}
use benker_vpn.Server.Outgoing.{
  Input, Selected, none_left, Selected-append, Selected-extend, Fixed, Sends,
}
use benker_vpn.Server.Outgoing.Reads.{client_inputs, world_inputs, AllHeaded}
use benker_vpn.Server.Outgoing.Round.{serve_client-Sends, serve_world-Sends}

-- What there is to read, in the order of the reads.
abbrev pub inputs : (packet_host : ℕ) → List Answers → List Input
inputs packet_host [] = []
inputs packet_host (a ∷ rest) =
    (client_inputs a.udp ++ world_inputs packet_host a.frames) ++ inputs packet_host rest

-- The headers of what is read in each round.
abbrev pub RoundsHeaded : (packet_host : ℕ) → List Answers → Type 0
RoundsHeaded packet_host [] = Unit
RoundsHeaded packet_host (a ∷ rest) =
    AllHeaded (client_inputs a.udp)
    × AllHeaded (world_inputs packet_host a.frames)
    × RoundsHeaded packet_host rest

module _ (eagain ewouldblock packet_host : ℕ) (clock : Clock) where
  module _ (ip rawfd udpfd : ℕ) (fits : ip < 2 ^ 32) where
    abbrev Does : List Input → Result → Type 0
    Does xs r = IsServing r.2 × Sends ip rawfd udpfd xs r

    -- With the address and the sockets that stay.
    renamed :
        (s : Server) {xs : List Input} {m : Run Result}
        → Fixed ip rawfd udpfd s
        → Returns (Sends s.local_ip s.rawfd s.udpfd xs) m
        → Returns (Sends ip rawfd udpfd xs) m
    renamed s (e, e', e'') h = rw (← e, ← e', ← e'') h

    continue_with-Does :
        (xs xs' : List Input) (r : Result) (next : Server → Run Result)
        → Does xs r
        → ((s : Server) → IsServing s → Fixed ip rawfd udpfd s → Returns (Does xs') (next s))
        → Returns (Does (xs ++ xs')) (continue_with r next)
    unfolding continue_with
    continue_with-Does xs xs' (exited, sent, s) next (serving, (fixed, selected)) h =
        returns (serving, (fixed, Selected-extend xs' selected))
    continue_with-Does xs xs' (running, sent, s) next (serving, (fixed, selected)) h =
        Returns-bind (h s serving fixed)
          (λ x d. returns (d.0, (d.1.0, Selected-append selected d.1.1)))

    serve_round-Does :
        (s : Server) (a : Answers)
        → IsServing s
        → Fixed ip rawfd udpfd s
        → AreSane packet_host a
        → AllHeaded (client_inputs a.udp)
        → AllHeaded (world_inputs packet_host a.frames)
        → Returns
            (Does (client_inputs a.udp ++ world_inputs packet_host a.frames))
            (serve_round eagain ewouldblock packet_host clock s a)
    unfolding serve_round
    serve_round-Does s a serving fixed sane headed headed' =
        Returns-bind
          (Returns-both (serve_client-Safe eagain ewouldblock packet_host clock s a serving sane) (
            renamed s fixed (
              serve_client-Sends eagain ewouldblock packet_host clock s a serving sane
                (rw fixed.0 fits) headed)))
          (λ r d. continue_with-Does _ _ r _ d (λ s' serving' fixed'.
            Returns-both (serve_world-Safe eagain ewouldblock packet_host clock s' a serving' sane)
              (renamed s' fixed' (
                serve_world-Sends eagain ewouldblock packet_host clock s' a serving' sane
                  (rw fixed'.0 fits) headed'))))

    serve-Does :
        (s : Server) (rounds : List Answers)
        → IsServing s
        → Fixed ip rawfd udpfd s
        → AllSane packet_host rounds
        → RoundsHeaded packet_host rounds
        → Returns
            (Does (inputs packet_host rounds))
            (serve eagain ewouldblock packet_host clock s rounds)
    unfolding serve
    serve-Does s [] serving fixed sane headed = returns (serving, (fixed, none_left))
    serve-Does s (a ∷ rest) serving fixed sane (headed, headed', more) =
        Returns-bind (serve_round-Does s a serving fixed sane.0 headed headed') (λ r d.
          continue_with-Does _ _ r _ d
            (λ s' serving' fixed'. serve-Does s' rest serving' fixed' sane.1 more))

fill_in_ip : (s : Server) (m : Memory) → (fill_in s m).local_ip ≡ 3232266986
unfolding fill_in
fill_in_ip s m = refl

init_vpn_server_ip :
    (s : Server) (m : Memory) (udp raw : Descriptor) (s' : Server)
    → (init_vpn_server s m udp raw).0 ≡ some s'
    → s'.local_ip ≡ 3232266986
unfolding init_vpn_server get_udp_socket_server get_vpn_raw_socket
init_vpn_server_ip s m no_socket raw s' e = absurd (cc)
init_vpn_server_ip s m (unbound fd) raw s' e = absurd (cc)
init_vpn_server_ip s m (bound fd) no_socket s' e = absurd (cc)
init_vpn_server_ip s m (bound fd) (unbound fd') s' e = absurd (cc)
init_vpn_server_ip s m (bound fd) (bound fd') s' e =
    let same : record (fill_in s m) { udpfd = fd; rawfd = fd' } ≡ s' = cc in
    subst (λ (x : Server). x.local_ip ≡ 3232266986) same (fill_in_ip s m)

-- Once `init_vpn_server` has set the server up, all that it sends over any number of rounds are some of
-- the packets that it reads, each one once and in order, if the buffer starts with bytes, every
-- allocated address of the heap lies below the next, in each round the kernel's messages hold bytes
-- and its answers end the loop that reads the raw socket, and what is read has headers no shorter than
-- their fixed parts. A packet of the UDP socket leaves through the raw socket with 192.168.122.234 and
-- some port for its source; the first frame of a round for this host leaves through the UDP socket
-- with some address and port for its destination. Each leaves with the size that was read, with both
-- checksums right, and with no other byte of the buffer changed, which starts with what was read.
pub serve-Selected :
    (eagain ewouldblock packet_host : ℕ) (clock : Clock) (s : Server) (m : Memory)
    (udp raw : Descriptor) (s' : Server) (rounds : List Answers)
    → IsBytes s.buf
    → ((p : Ptr) → m.live p ≡ true → p < m.next)
    → (init_vpn_server s m udp raw).0 ≡ some s'
    → AllSane packet_host rounds
    → RoundsHeaded packet_host rounds
    → Returns
        (λ r. Selected 3232266986 s'.rawfd s'.udpfd (inputs packet_host rounds) r.1)
        (serve eagain ewouldblock packet_host clock s' rounds)
serve-Selected eagain ewouldblock packet_host clock s m udp raw s' rounds h fresh start sane
      headed =
    let serving = init_vpn_server-IsServing s m udp raw s' h fresh start in
    let ip = init_vpn_server_ip s m udp raw s' start in
    Returns-mono
      (serve-Does eagain ewouldblock packet_host clock 3232266986 s'.rawfd s'.udpfd (omega arith) s'
        rounds serving (ip, refl, refl) sane headed)
      (λ r d. d.1.1)
