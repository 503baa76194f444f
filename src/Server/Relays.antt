-- ===== src/Server/Relays.antt =====
-- Which packets of a client src/server/main.c is bound to send to the world.
use benker_vpn.Base.{
  ℕ, suc, ◌+◌, ◌^◌, ◌≤◌, ◌<◌, ◌≡◌, refl, true, [], ◌∷◌, arith, Returns, returns, Returns-bind,
  Returns-at, Returns-value,
}
use benker_vpn.Packet.{Buffer, IsBytes, source, ip_header_len}
use benker_vpn.Validate.{validate_ip_tcp}
use benker_vpn.Rewrite.{replace_src_ip_port}
use benker_vpn.Rewrite.Both.{IsLong, IsForwarded, replace_src_ip_port-IsForwarded}
use benker_vpn.Session.{Memory, Table, Clock}
use benker_vpn.Session.Valid.{IsValid}
use benker_vpn.Session.Print.{print_session_hash_table-OnlyCalls}
use benker_vpn.Net.{
  message, SockaddrIn, call_sendto_ll, no_flags, fill, read_msg_udp, send_ip_packet,
}
use benker_vpn.Net.Laws.{SaneReceived, fill-IsBytes}
use benker_vpn.Handler.{Reply}
use benker_vpn.Handler.Client.{handle_client_packet-Outcome}
use benker_vpn.Handler.Served.{CanPass, IsPassed, handle_client_packet-IsPassed}
use benker_vpn.Server.{
  Server, Answers, Result, running, client_reply, client_read, after_send, serve_client,
}
use benker_vpn.Server.Safe.{IsServing}

-- One call: the packet `b`, `size` bytes of it, goes to the world with the server's address and a port
-- of the table's range for its source, both checksums right and no other byte changed.
abbrev pub IsRelayed : Server → Buffer → (size : ℕ) → Result → Type 0
IsRelayed s b size (status, calls, s') =
    (r : Buffer) × (status ≡ running)
    × (calls
        ≡ call_sendto_ll s.rawfd r size no_flags (record s.ll { sll_hatype = 0; sll_pkttype = 0 })
          ∷ [])
    × IsForwarded 12 s.local_ip 0 (source r (ip_header_len b)) b r
    × (s.table.min_port ≤ source r (ip_header_len b))
    × (source r (ip_header_len b) < s.table.min_port + s.table.mod_num)

-- A packet of bytes, rewritten to come from a port of 16 bits.
source-IsForwarded :
    (b : Buffer) (ip n : ℕ) (h : IsBytes b) (long : IsLong b) (fits : ip < 2 ^ 32)
    (small : n < 2 ^ 16)
    → (source (replace_src_ip_port b ip n) (ip_header_len b) ≡ n)
      × IsForwarded 12 ip 0 n b (replace_src_ip_port b ip n)
source-IsForwarded b ip n h long fits small =
    let f = replace_src_ip_port-IsForwarded b ip n h long fits small in
    let offset : ip_header_len b + 0 ≡ ip_header_len b = omega arith in (rw offset at f.stored, f)

module _ (clock : Clock) (s : Server) (a : Answers) (serving : IsServing s) (long : IsLong s.buf)
    (fits : s.local_ip < 2 ^ 32) where
  client_reply-IsRelayed :
      (size : ℕ) (x : Reply × Memory × Table)
      → IsValid x.1 x.2
      → IsPassed s.table s.local_ip s.buf x
      → Returns
          (IsRelayed s s.buf size)
          (client_reply clock s (record a { world_accepts = true }) size x)
  unfolding client_reply send_ip_packet after_send
  client_reply-IsRelayed size (reply, m, t) v (n, is, low, high) =
      let range = serving.valid.ports_fit in
      let r = replace_src_ip_port s.buf s.local_ip n in
      let (port, f) = source-IsForwarded s.buf s.local_ip n serving.bytes long fits (omega arith) in
      rw is (
        Returns-bind (print_session_hash_table-OnlyCalls clock m t v)
          (λ y p. returns (r, refl, refl, rw port f, omega arith, omega arith)))

-- While `time(NULL)` returns one value, on a well formed table and with a server address of 32 bits: a
-- packet of the client that the server reads, whose headers are no shorter than their fixed parts,
-- that is valid in its buffer, and whose client has a session which has not expired or gets one, is
-- sent to the world, where the kernel takes it, by one call, with the size that was read, the server's
-- address, a port of the table's range and right checksums, and the loop goes on.
pub serve_client-IsRelayed :
    (eagain ewouldblock packet_host : ℕ) (clock : Clock) (now : ℕ) (still : (n : ℕ) → clock n ≡ now)
    (s : Server) (a : Answers) (msg : Buffer) (n : ℕ) (from : SockaddrIn)
    → IsServing s
    → SaneReceived (message msg (suc n) from)
    → IsLong (fill msg (suc n) s.buf)
    → s.local_ip < 2 ^ 32
    → validate_ip_tcp (fill msg (suc n) s.buf) s.buf_len ≡ true
    → CanPass now a.count s.memory s.table (fill msg (suc n) s.buf)
    → Returns (IsRelayed s (fill msg (suc n) s.buf) (suc n)) (
        serve_client eagain ewouldblock packet_host clock s
          (record a { udp = message msg (suc n) from; world_accepts = true }))
unfolding serve_client client_read read_msg_udp
serve_client-IsRelayed eagain ewouldblock packet_host clock now still s a msg n from serving sane
      long fits good can =
    let b = fill msg (suc n) s.buf in
    let s₁ : Server = record s { buf = b; raddr = from } in
    let bytes = fill-IsBytes msg (suc n) s.buf sane serving.bytes in
    let (x, run, (v, o)) = Returns-value (
      handle_client_packet-Outcome clock a.count s.memory s.table b s.buf_len s.local_ip bytes
        serving.valid) in
    let passed =
      Returns-at
        (handle_client_packet-IsPassed clock now still a.count s.memory s.table b s.buf_len
          s.local_ip serving.valid good can)
        run in
    let serving₁ : IsServing s₁ = record { valid = serving.valid; bytes = bytes } in
    rw run (client_reply-IsRelayed clock s₁ a serving₁ long fits (suc n) x v passed)
