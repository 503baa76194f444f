-- ===== src/Handler/RoundTrip.antt =====
-- A packet of a client and the answer to it, through both handlers of src/lib/packet_handler.c.
use benker_vpn.Base.{
  ℕ, ◌+◌, ◌-◌, ◌^◌, ◌≤◌, ◌<◌, ◌≡◌, refl, sym, ◌∙◌, true, arith, ok, Returns, Returns-mono,
  Returns-at,
}
use benker_vpn.Packet.{Buffer, IsBytes, saddr, source, dest, ip_header_len}
use benker_vpn.Validate.{validate_ip_tcp}
use benker_vpn.Rewrite.{replace_src_ip_port, replace_dst_ip_port}
use benker_vpn.Rewrite.Both.{IsLong, IsForwarded, replace_src_ip_port-IsForwarded}
use benker_vpn.Session.{Ptr, Memory, Clock, Table}
use benker_vpn.Session.Valid.{IsValid, server_home}
use benker_vpn.Session.Add.{IsClient}
use benker_vpn.Handler.{Reply, valid_session, handle_client_packet, handle_world_packet}
use benker_vpn.Handler.Client.{
  ClientOutcome, bad_packet, no_session, too_late, forwarded, handle_client_packet-Outcome,
}
use benker_vpn.Handler.World.{WorldOutcome, IsServer, delivered, handle_world_packet-Outcome}
use benker_vpn.Handler.World
use benker_vpn.Handler.Store.{later-IsValid}
use benker_vpn.Session.Clean.{later}

-- An answer that reaches the client `ip` at `port`.
abbrev pub Reaches : Buffer → ℕ → ℕ → Reply × ℕ × Memory → Type 0
Reaches w ip port (reply, client_ip, m) =
    (reply ≡ valid_session (replace_dst_ip_port w ip port)) × (client_ip ≡ ip)

module _ (clock : Clock) (now : ℕ) (still : (n : ℕ) → clock n ≡ now) where
  reaches :
      (m : Memory) (t : Table) (w : Buffer) (len client_ip ip port : ℕ) (p : Ptr)
      → IsValid m t
      → IsClient m t ip port p
      → now ≤ (m.cell p).expire
      → validate_ip_tcp w len ≡ true
      → dest w (ip_header_len w) ≡ (m.cell p).server_port
      → (r : Reply × ℕ × Memory) → WorldOutcome clock m t w len client_ip r
      → Reaches w ip port r
  reaches m t w len client_ip ip port p v c early good to r (World.bad_packet bad reset) = cc
  reaches m t w len client_ip ip port p v c early good to r (World.no_session ok' unused reset) =
      absurd (unused p c.in_table (sym to))
  reaches m t w len client_ip ip port p v c early good to r (World.too_late q ok' s late reset) =
      let e : q ≡ p = v.server_key q p s.in_table c.in_table (s.same_port ∙ to) in
      absurd (ground (arith, still m.calls))
  reaches m t w len client_ip ip port p v c early good to r (delivered q ok' s in_time) =
      let e : q ≡ p = v.server_key q p s.in_table c.in_table (s.same_port ∙ to) in
      rw (e, c.same_ip, c.same_port) (refl, refl)

  -- The session behind a packet that was forwarded.
  abbrev Forwarder : Memory → Table → Buffer → ℕ → Buffer → Type 0
  Forwarder m t b vpn_server_ip r =
      (p : Ptr) × IsValid m t
      × IsClient m t (saddr b) (source b (ip_header_len b)) p
      × (now ≤ (m.cell p).expire)
      × (r ≡ replace_src_ip_port b vpn_server_ip (m.cell p).server_port)

  forwarder :
      (m : Memory) (t : Table) (b : Buffer) (len vpn_server_ip : ℕ) (x : Reply × Memory × Table)
      → IsValid x.1 x.2
      → ClientOutcome clock m t b len vpn_server_ip x
      → (r : Buffer) → x.0 ≡ valid_session r
      → Forwarder x.1 x.2 b vpn_server_ip r
  forwarder m t b len vpn_server_ip x v (bad_packet bad reset) r e = cc
  forwarder m t b len vpn_server_ip x v (no_session good n reset) r e = cc
  forwarder m t b len vpn_server_ip x v (too_late p good c late reset) r e = cc
  forwarder m t b len vpn_server_ip x v (forwarded {r = r'} {m'} {t'} p good c early is) r e =
      let re : r' ≡ r = cc in (p, v, c, ground (arith, still (m'.calls - 1)), sym re ∙ is)

  module _ (count : ℕ) (m : Memory) (t : Table) (b : Buffer) (len vpn_server_ip : ℕ)
      (v : IsValid m t) (h : IsBytes b) (long : IsLong b) (fits : vpn_server_ip < 2 ^ 32)
      (r : Buffer) (m' : Memory) (t' : Table)
      (run : handle_client_packet clock count m t b len vpn_server_ip
        ≡ ok (valid_session r, m', t')) where
    sent : Forwarder m' t' b vpn_server_ip r
    sent =
        let (valid, outcome) =
          Returns-at (handle_client_packet-Outcome clock count m t b len vpn_server_ip h v) run in
        forwarder m t b len vpn_server_ip (valid_session r, m', t') valid outcome r refl

    sent_port :
        source r (ip_header_len b) ≡ (m'.cell sent.0).server_port
        × IsForwarded 12 vpn_server_ip 0 (m'.cell sent.0).server_port b r
    sent_port =
        let (p, v', c, early, same) = sent in
        let port = (m'.cell p).server_port in
        let (home, other, alive, low, high) = v'.servers (server_home m' t' p) p c.in_table in
        let range = v'.ports_fit in
        let out = replace_src_ip_port b vpn_server_ip port in
        let f = replace_src_ip_port-IsForwarded b vpn_server_ip port h long fits (omega arith) in
        let offset : ip_header_len b + 0 ≡ ip_header_len b = omega arith in
        let sp : source out (ip_header_len b) ≡ port = rw offset at f.stored in rw same (sp, f)

    -- While `time(NULL)` returns one value, in a well formed table and with a server address of 32
    -- bits: a packet of bytes whose headers are no shorter than their fixed parts and that
    -- `handle_client_packet` forwards leaves with the server's address and a port of the table's
    -- range for its source and with both checksums right; no other byte of it is changed.
    pub handle_client_packet-IsForwarded :
        IsForwarded 12 vpn_server_ip 0 (source r (ip_header_len b)) b r
        × (t'.min_port ≤ source r (ip_header_len b))
        × (source r (ip_header_len b) < t'.min_port + t'.mod_num)
    handle_client_packet-IsForwarded =
        let (p, v', c, early, same) = sent in
        let (home, other, alive, low, high) = v'.servers (server_home m' t' p) p c.in_table in
        let (port, f) = sent_port in rw port (f, low, high)

    -- The answer, whatever `calls` of `time(NULL)` have been made.
    pub handle_world_packet-Reaches-later :
        (calls : ℕ) (w : Buffer) (w_len client_ip : ℕ)
        → IsBytes w
        → validate_ip_tcp w w_len ≡ true
        → dest w (ip_header_len w) ≡ source r (ip_header_len b)
        → Returns
            (Reaches w (saddr b) (source b (ip_header_len b)))
            (handle_world_packet clock (later m' calls) t' w w_len client_ip)
    handle_world_packet-Reaches-later calls w w_len client_ip w_bytes w_good to =
        let (p, v', c, early, same) = sent in
        let (port, f) = sent_port in
        Returns-mono
          (handle_world_packet-Outcome clock (later m' calls) t' w w_len client_ip
            (later-IsValid calls v') w_bytes)
          (λ y o.
            reaches (later m' calls) t' w w_len client_ip (saddr b) (source b (ip_header_len b)) p
              (later-IsValid calls v')
              (record { in_table = c.in_table; same_ip = c.same_ip; same_port = c.same_port }) early
              w_good (to ∙ port) y o.1)

    -- While `time(NULL)` returns one value, in a well formed table and with a server address of 32
    -- bits: once `handle_client_packet` has forwarded a packet of bytes whose headers are no
    -- shorter than their fixed parts, `handle_world_packet` rewrites a valid packet of bytes that
    -- is sent to the source port of the forwarded packet to the address and the port of the client,
    -- and reports the client's address.
    pub handle_world_packet-Reaches :
        (w : Buffer) (w_len client_ip : ℕ)
        → IsBytes w
        → validate_ip_tcp w w_len ≡ true
        → dest w (ip_header_len w) ≡ source r (ip_header_len b)
        → Returns
            (Reaches w (saddr b) (source b (ip_header_len b)))
            (handle_world_packet clock m' t' w w_len client_ip)
    handle_world_packet-Reaches w w_len client_ip w_bytes w_good to =
        handle_world_packet-Reaches-later m'.calls w w_len client_ip w_bytes w_good to
