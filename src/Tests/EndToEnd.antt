-- ===== src/Tests/EndToEnd.antt =====
-- A `SYN` from the tunnel to the world, and its answer back.
use benker_vpn.Base.{◌≡◌, refl, true, arith, [], Returns, int_zero}
use benker_vpn.Packet.{Buffer}
use benker_vpn.Validate.{validate_ip_tcp}
use benker_vpn.Rewrite.{replace_src_ip_port}
use benker_vpn.Rewrite.Both.{IsLong}
use benker_vpn.Session.{init_hash_table}
use benker_vpn.Net.{SockaddrLl, cleared_ll, fill}
use benker_vpn.Handler.Served.{CanPass, can_open}
use benker_vpn.Client.{no_addr, packet}
use benker_vpn.Server
use benker_vpn.Server.{Server, running, fill_in}
use benker_vpn.Server.Relays.{IsRelayed}
use benker_vpn.EndToEnd.{arrived, uplink, uplink-IsRelayed}
use benker_vpn.Tests.Data.{syn, syn-IsBytes, answer, answer-IsBytes, frozen, value}
use benker_vpn.Tests.Sockets.{
  ready_server, ready_server-IsServing, ready_server_ip, first_round, client_round,
}

abbrev asked : Buffer
asked = arrived syn 40 answer ready_server.buf

asked-IsLong : IsLong asked
unfolding fill fill_in
asked-IsLong = omega arith

asked_good : validate_ip_tcp asked ready_server.buf_len ≡ true
unfolding validate_ip_tcp fill fill_in
asked_good = refl

asked-CanPass : CanPass 100 int_zero ready_server.memory ready_server.table asked
unfolding fill fill_in init_hash_table
asked-CanPass =
    can_open 40000 refl (λ p h. cc) (λ p h. cc) (omega arith) (omega arith) (omega arith)
      (omega arith)

uplink-IsRelayed_example : Returns (IsRelayed ready_server asked 40) (
    uplink 11 11 0 frozen answer
      (record client_round { tun = packet syn 40; server_accepts = true })
      no_addr
      ready_server
      (record first_round { world_accepts = true }))
uplink-IsRelayed_example =
    uplink-IsRelayed 11 11 0 frozen 100 (λ n. refl) ready_server first_round answer client_round syn
      39 no_addr ready_server-IsServing answer-IsBytes syn-IsBytes ready_server_ip asked-IsLong
      asked_good asked-CanPass

abbrev sent : Buffer
sent = replace_src_ip_port asked ready_server.local_ip 40000

abbrev sent_result : Server.Result
sent_result =
    value (running, [], ready_server)
      (uplink 11 11 0 frozen answer
        (record client_round { tun = packet syn 40; server_accepts = true }) no_addr ready_server
        first_round)

abbrev answered : Buffer
answered = fill answer 40 (fill syn 40 sent_result.2.buf)

-- A frame of another host, which is read first, and the frame for this host.
abbrev other_frame : SockaddrLl
other_frame = record cleared_ll { sll_pkttype = 3; sll_halen = 6 }

abbrev host_frame : SockaddrLl
host_frame = record cleared_ll { sll_halen = 6 }
