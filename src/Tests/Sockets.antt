-- ===== src/Tests/Sockets.antt =====
-- The sockets, the loops of the server and the client, and the tunnel at concrete answers.
use benker_vpn.Base.{
  ℕ, ◌≡◌, ◌<◌, ◌^◌, refl, arith, true, false, none, some, Returns, List, [], ◌∷◌, if◌then◌else◌,
  int_zero, leb, ltb, ◌&&◌, ◌+◌,
}
use benker_vpn.Packet.{IsBytes}
use benker_vpn.Net.{
  Frame, frame, message, get_ip_packet, bound, cleared_ll, read_msg_udp, fill,
  get_udp_socket_server, get_vpn_raw_socket,
}
use benker_vpn.Net.Laws.{Picked, get_ip_packet-Picked}
use benker_vpn.Rewrite.Both.{IsLong}
use benker_vpn.Server
use benker_vpn.Server.{Server, serve, serve_client, init_vpn_server, fill_in}
use benker_vpn.Server.Safe.{IsServing, AreSane, serve-IsServing}
use benker_vpn.Server.Outgoing.{Selected}
use benker_vpn.Server.Outgoing.Reads.{world_inputs}
use benker_vpn.Server.Outgoing.Rounds
use benker_vpn.Server.Outgoing.Rounds.{RoundsHeaded, serve-Selected}
use benker_vpn.Client
use benker_vpn.Client.{relay, packet, no_addr, running}
use benker_vpn.Client.InOrder.{InOrder, inputs, AllSmooth, relay-PassedOn}
use benker_vpn.Tunnel.{SetupAnswers, Flags, setup_tun, opens, closes}
use benker_vpn.Tunnel.Descriptors.{Leaves, still_open, setup_tun-Leaves}
use benker_vpn.Hex.{load_packet, print_bytes}
use benker_vpn.Hex.Laws.{load_packet-print_bytes}
use benker_vpn.Tests.Data.{
  syn, syn-IsBytes, answer, answer-IsBytes, no_memory, first_table, first_table-IsValid, frozen,
}

-- `EAGAIN` and `EWOULDBLOCK` are 11 and `PACKET_HOST` is 0 on Linux; 4 is a frame that is sent out.
abbrev pub frames : List Frame
frames =
    frame answer 40 (record cleared_ll { sll_pkttype = 4; sll_halen = 6 })
    ∷ frame answer 40 (record cleared_ll { sll_halen = 6 })
    ∷ []

abbrev wait : ℕ
wait = 11

get_ip_packet-Picked_example :
    Returns
      (λ r. IsBytes r.1 × Picked 11 11 0 frames r.0 r.3)
      (get_ip_packet 11 11 0 syn cleared_ll frames)
get_ip_packet-Picked_example =
    get_ip_packet-Picked 11 11 0 syn cleared_ll frames syn-IsBytes
      (answer-IsBytes, (answer-IsBytes, omega arith)) refl

abbrev pub raw_server : Server
raw_server = record {
  local_ip = 0;
  mac_addr = [];
  net_dev_ind = 0;
  client_ip = 0;
  buf = answer;
  buf_len = 0;
  raddr = no_addr;
  udpfd = 0;
  ll = cleared_ll;
  rawfd = 0;
  memory = no_memory;
  table = first_table;
}

abbrev pub ready_server : Server
ready_server = record (fill_in raw_server no_memory) { udpfd = 3; rawfd = 4 }

starts : (init_vpn_server raw_server no_memory (bound 3) (bound 4)).0 ≡ some ready_server
unfolding init_vpn_server get_udp_socket_server get_vpn_raw_socket
starts = refl

-- A round in which a client opens a connection and the world answers.
abbrev pub first_round : Server.Answers
first_round = record {
  udp = message syn 40 no_addr;
  world_accepts = true;
  frames = frames;
  client_accepts = true;
  count = int_zero;
  other_ll = cleared_ll;
}

first_round-AreSane : AreSane 0 first_round
first_round-AreSane = record {
  udp = syn-IsBytes;
  frames = (answer-IsBytes, (answer-IsBytes, tt));
  end = refl;
}

serve-IsServing_example :
    Returns (λ r. IsServing r.2) (serve 11 11 0 frozen ready_server (first_round ∷ []))
serve-IsServing_example =
    serve-IsServing 11 11 0 frozen raw_server no_memory (bound 3) (bound 4) ready_server
      (first_round ∷ []) answer-IsBytes (λ p h. cc) starts (first_round-AreSane, tt)

first_round-RoundsHeaded : RoundsHeaded 0 (first_round ∷ [])
unfolding world_inputs
first_round-RoundsHeaded =
    let syn_long : IsLong syn = record { ip_long = omega arith; tcp_long = omega arith } in
    let answer_long : IsLong answer = record { ip_long = omega arith; tcp_long = omega arith } in
    (((syn_long, omega arith), tt), ((answer_long, omega arith), tt), tt)

serve-Selected_example :
    Returns
      (λ r. Selected 3232266986 4 3 (Rounds.inputs 0 (first_round ∷ [])) r.1)
      (serve 11 11 0 frozen ready_server (first_round ∷ []))
serve-Selected_example =
    serve-Selected 11 11 0 frozen raw_server no_memory (bound 3) (bound 4) ready_server
      (first_round ∷ []) answer-IsBytes (λ p h. cc) starts (first_round-AreSane, tt)
      first_round-RoundsHeaded

pub ready_server-IsServing : IsServing ready_server
unfolding fill_in
ready_server-IsServing = record { valid = first_table-IsValid; bytes = answer-IsBytes }

first_read-IsLong :
    IsLong (read_msg_udp 11 11 ready_server.buf ready_server.raddr first_round.udp).1
unfolding read_msg_udp fill fill_in
first_read-IsLong = omega arith

pub ready_server_ip : ready_server.local_ip < 2 ^ 32
unfolding fill_in
ready_server_ip = omega arith

abbrev pub client_round : Client.Answers
client_round = record {
  tun = packet syn 40;
  server_accepts = true;
  udp = message answer 40 no_addr;
  tun_accepts = true;
}

relay-PassedOn_example :
    let r = relay 11 11 answer (client_round ∷ []) in
    InOrder (inputs (client_round ∷ [])) r.0 r.1
    × (AllSmooth 11 11 (client_round ∷ []) → r.0 ≡ running)
relay-PassedOn_example = relay-PassedOn 11 11 answer (client_round ∷ [])

abbrev no_flags : Flags
no_flags i = false

-- The flags of the interface cannot be read: the control socket 5 stays open.
abbrev no_interface : SetupAnswers
no_interface = record {
  tun = bound 4;
  control = record { inet = some 5; packet = none; inet6 = none; get_flags = none; accepts = true };
  index = 0;
  addr = none;
  route = none;
}

leaked_socket : setup_tun no_interface ≡ (none, opens 4 ∷ opens 5 ∷ closes 4 ∷ [], [])
unfolding setup_tun
leaked_socket = refl

-- The route is refused: the tunnel 4 and each handle of netlink are closed.
abbrev no_route : SetupAnswers
no_route = record {
  tun = bound 4;
  control = record {
    inet = some 5;
    packet = none;
    inet6 = none;
    get_flags = some no_flags;
    accepts = true;
  };
  index = 7;
  addr = some (record { fd = 5; talked = true });
  route = some (record { fd = 5; talked = false });
}

nothing_left : still_open [] (setup_tun no_route).1 ≡ []
unfolding setup_tun still_open
nothing_left = refl

setup_tun-Leaves_example : Leaves no_route (setup_tun no_route)
setup_tun-Leaves_example = setup_tun-Leaves no_route

load_packet-print_bytes_example :
    load_packet syn 0 (print_bytes answer 0 40) 12
    ≡ (if leb 0 12 && ltb 12 (0 + 40) then answer 12 else syn 12)
load_packet-print_bytes_example = load_packet-print_bytes answer answer-IsBytes syn 0 40 12
