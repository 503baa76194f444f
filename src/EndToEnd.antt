-- ===== src/EndToEnd.antt =====
-- The client of src/client/main.c and the server of src/server/main.c joined by the network between
-- them: a packet from the tunnel to the world, and the answer back into the tunnel. A datagram that is
-- delivered arrives as it was sent.
use benker_vpn.Base.{ℕ, suc, ◌<◌, ◌^◌, ◌≡◌, true, List, [], ◌∷◌, Run, ok, Returns}
use benker_vpn.Packet.{Buffer, IsBytes, saddr, source, ip_header_len}
use benker_vpn.Validate.{validate_ip_tcp}
use benker_vpn.Rewrite.Both.{IsLong, IsForwarded}
use benker_vpn.Net.{
  Received, message, SockaddrIn, SockaddrLl, Const, Call, call_sendto_in, call_sendto_ll, Frame,
  Frame.frame, fill,
}
use benker_vpn.Net.Laws.{fill-IsBytes}
use benker_vpn.Session.{Clock}
use benker_vpn.Handler.Served.{CanPass}
use benker_vpn.Client
use benker_vpn.Client.{packet, to_server, to_tun, relay_up, relay_down}
use benker_vpn.Server
use benker_vpn.Server.{Server, running, serve_client}
use benker_vpn.Server.Safe.{IsServing}
use benker_vpn.Server.Relays.{IsRelayed, serve_client-IsRelayed}

-- What the server reads once the client has sent: the datagram, or `other`.
abbrev delivered_up : List Client.Sent → SockaddrIn → Received → Received
delivered_up (to_server b size ∷ []) from other = message b size from
delivered_up _ from other = other

-- What the client reads once the server has sent.
abbrev delivered_down : List Call → SockaddrIn → Received → Received
delivered_down (call_sendto_in fd b size flags dst ∷ []) from other = message b size from
delivered_down _ from other = other

-- Where a packet of the tunnel lies once the server has read it.
abbrev pub arrived : Buffer → (size : ℕ) → (client_buf server_buf : Buffer) → Buffer
arrived tun size client_buf server_buf = fill (fill tun size client_buf) size server_buf

module _ (eagain ewouldblock packet_host : ℕ) (clock : Clock) where
  -- The client's half of a round that reads the tunnel, and the server's that reads the datagram.
  -- `from` is the client's address.
  unfoldable pub uplink :
      Buffer → Client.Answers → (from : SockaddrIn) → Server → Server.Answers → Run Server.Result
  uplink b a from s sa =
      let (status, sent, b') = relay_up eagain ewouldblock b a in
      serve_client eagain ewouldblock packet_host clock s
        (record sa { udp = delivered_up sent from sa.udp })

-- The client's half of a round that reads what the server has sent. `from` is the server's address.
unfoldable pub downlink :
    (eagain ewouldblock : ℕ)
    → List Call
    → (from : SockaddrIn) → Buffer
    → Client.Answers
    → Client.Result
downlink eagain ewouldblock calls from b a =
    relay_down eagain ewouldblock b (record a { udp = delivered_down calls from a.udp })

module _ (eagain ewouldblock packet_host : ℕ) (clock : Clock) (now : ℕ)
    (still : (n : ℕ) → clock n ≡ now) (s : Server) (sa : Server.Answers) (b : Buffer)
    (a : Client.Answers) (msg : Buffer) (n : ℕ) (from : SockaddrIn) (serving : IsServing s)
    (client_bytes : IsBytes b) (bytes : IsBytes msg) (fits : s.local_ip < 2 ^ 32)
    (long : IsLong (arrived msg (suc n) b s.buf)) where
  -- While `time(NULL)` returns one value, on a well formed table and with a server address of 32
  -- bits: a packet of bytes that the client reads from its tunnel, whose headers are no shorter than
  -- their fixed parts and that is valid in the server's buffer leaves the server for the world, where
  -- the kernels take it and its sender can pass: it has a session that has not expired, or the packet
  -- is a `SYN` of a sender without a session, some port of the table's range is free, the `count` of
  -- `add_tcp_session`, which the source does not initialise, is 0 or less on entry, and `next_num`
  -- does not wrap in the search for a port. The packet leaves by one call, with the size that was
  -- read, the server's address and a port of the table's range for its source, both checksums right
  -- and no other byte changed.
  pub uplink-IsRelayed :
      validate_ip_tcp (arrived msg (suc n) b s.buf) s.buf_len ≡ true
      → CanPass now sa.count s.memory s.table (arrived msg (suc n) b s.buf)
      → Returns (IsRelayed s (arrived msg (suc n) b s.buf) (suc n)) (
          uplink eagain ewouldblock packet_host clock b
            (record a { tun = packet msg (suc n); server_accepts = true })
            from
            s
            (record sa { world_accepts = true }))
  unfolding uplink relay_up
  uplink-IsRelayed good can =
      serve_client-IsRelayed eagain ewouldblock packet_host clock now still s sa
        (fill msg (suc n) b) n from serving (fill-IsBytes msg (suc n) b bytes client_bytes) long
        fits good can

  module _ (fd size : ℕ) (r : Buffer) (flags : Const) (ll : SockaddrLl) (s' : Server)
      (run : uplink eagain ewouldblock packet_host clock b
          (record a { tun = packet msg (suc n); server_accepts = true })
          from
          s
          sa
        ≡ ok (running, call_sendto_ll fd r size flags ll ∷ [], s')) where
    -- The client is handed the answer `w`: a packet for the address and the port from which the packet
    -- of the tunnel came, with both checksums right and no other byte changed, goes into the tunnel.
    abbrev pub IsHandedBack :
        (w : Buffer) (count : ℕ) → SockaddrIn → Buffer → Client.Answers → Server.Result → Type 0
    IsHandedBack w count server b' a' (status, calls, s'') =
        (out : Buffer) × (status ≡ running)
        × IsForwarded 16 (saddr (arrived msg (suc n) b s.buf)) 2
            (source (arrived msg (suc n) b s.buf) (ip_header_len (arrived msg (suc n) b s.buf))) w
            out
        × (downlink eagain ewouldblock calls server b' a'
            ≡ (Client.running, to_tun (fill out count b') count ∷ [], fill out count b'))
