-- ===== src/Server.antt =====
-- src/server/main.c. The answers of the kernel to one round of the loop are an input; of what is
-- printed, `print_session_hash_table` is run for its calls of `time(NULL)`.
pub mod Safe
pub mod Relays
pub mod Replies
pub mod Outgoing
use benker_vpn.Base.{
  ℕ, zero, suc, Bool, true, false, Option, none, some, List, [], ◌∷◌, ◌++◌, if◌then◌else◌, Run, ok,
  ◌>>=◌,
}
use benker_vpn.Packet.{Buffer}
use benker_vpn.Net.{
  Received, Frame, Call, SockaddrIn, SockaddrLl, cleared_ll, af_packet, ipproto_egp, Descriptor,
  get_udp_socket_server, get_vpn_raw_socket, read_msg_udp, get_ip_packet, send_ip_packet,
  send_msg_udp,
}
use benker_vpn.Session.{Memory, Table, Clock, init_hash_table}
use benker_vpn.Session.Print.{print_session_hash_table}
use benker_vpn.Handler.{
  Reply, valid_session, invalid_session, handle_client_packet, handle_world_packet,
}

-- `struct vpn_server`, with the memory that its table points into.
pub record Server : Type 0 where
  pub local_ip : ℕ
  pub mac_addr : List ℕ
  pub net_dev_ind : ℕ
  pub client_ip : ℕ
  pub buf : Buffer
  pub buf_len : ℕ
  pub raddr : SockaddrIn
  pub udpfd : ℕ
  pub ll : SockaddrLl
  pub rawfd : ℕ
  pub memory : Memory
  pub table : Table

abbrev pub max_buf : ℕ
max_buf = 9000

abbrev pub local_port : ℕ
local_port = 8080

abbrev pub mac : List ℕ
mac = 82 ∷ 84 ∷ 0 ∷ 72 ∷ 28 ∷ 32 ∷ []

-- The stores of `init_vpn_server` before it opens sockets. `s` holds what is on the stack, `m` what is
-- on the heap.
unfoldable pub fill_in : Server → Memory → Server
fill_in s m = record s {
  local_ip = 3232266986;
  mac_addr = mac;
  net_dev_ind = 2;
  ll = record cleared_ll {
    sll_family = af_packet;
    sll_ifindex = 2;
    sll_protocol = ipproto_egp;
    sll_halen = 6;
    sll_addr = mac ++ (0 ∷ 0 ∷ []);
  };
  memory = m;
  table = init_hash_table 200 40000 41000;
  buf_len = max_buf;
}

-- The server, or `none` for `exit(-1)`; and the calls that it makes. `udp` and `raw` are what the
-- two sockets give.
unfoldable pub init_vpn_server :
    Server → Memory → (udp raw : Descriptor) → Option Server × List Call
unfolding fill_in
init_vpn_server s m udp raw =
    let (udpfd, calls) = get_udp_socket_server local_port udp in
    elim udpfd [
      | none ↦ (none, calls)
      | some fd ↦
          let (rawfd, calls') = get_vpn_raw_socket raw in
          elim rawfd [
            | none ↦ (none, calls ++ calls')
            | some fd' ↦ (some (record (fill_in s m) { udpfd = fd; rawfd = fd' }), calls ++ calls')
          ]
    ]

-- The kernel's answers to one round: a read of the UDP socket, whether the packet could be sent to
-- the world, reads of the raw socket, whether the packet could be sent to the client; and what
-- `count` of `add_tcp_session` holds on entry. `other_ll` is what the stack holds in `get_ip_packet`.
pub record Answers : Type 0 where
  pub udp : Received
  pub world_accepts : Bool
  pub frames : List Frame
  pub client_accepts : Bool
  pub count : ℕ
  pub other_ll : SockaddrLl

-- `exited` is `exit(-1)`.
pub data Status : Type 0 where
  running exited : Status

-- With the packets that were sent.
abbrev pub Result : Type 0
Result = Status × List Call × Server

-- `exited` when the packet that was last in the list could not be sent.
after_send : Bool → Call → Server → Result
after_send true packet s = (running, packet ∷ [], s)
after_send false packet s = (exited, [], s)

-- What follows `handle_client_packet`; `read_len` bytes had been read.
client_reply : Clock → Server → Answers → (read_len : ℕ) → Reply × Memory × Table → Run Result
unfolding after_send
client_reply clock s a read_len (invalid_session r size, m, t) =
    ok (running, [], record s { buf = r; memory = m; table = t })
client_reply clock s a read_len (valid_session r, m, t) = do
  (lines, m') ← print_session_hash_table clock m t
  let (packet, ll) = send_ip_packet s.rawfd r read_len s.ll
  ok (after_send a.world_accepts packet (record s { buf = r; memory = m'; table = t; ll = ll }))

-- What follows `handle_world_packet`.
world_reply : Server → Answers → (read_len : ℕ) → Reply × ℕ × Memory → Result
unfolding after_send
world_reply s a read_len (invalid_session r size, client_ip, m) =
    (running, [], record s { buf = r; client_ip = client_ip; memory = m })
world_reply s a read_len (valid_session r, client_ip, m) =
    after_send a.client_accepts (send_msg_udp s.udpfd r read_len s.raddr)
      (record s { buf = r; client_ip = client_ip; memory = m })

-- What follows `read_msg_udp`, by its result.
client_read : Clock → Server → Answers → Option ℕ → Run Result
unfolding client_reply
client_read clock s a none = ok (exited, [], s)
client_read clock s a (some zero) = ok (running, [], s)
client_read clock s a (some (suc n)) = do
  x ← handle_client_packet clock a.count s.memory s.table s.buf s.buf_len s.local_ip
  client_reply clock s a (suc n) x

-- What follows `get_ip_packet`, by its result.
world_read : Clock → Server → Answers → Option ℕ → Run Result
unfolding world_reply
world_read clock s a none = ok (exited, [], s)
world_read clock s a (some zero) = ok (running, [], s)
world_read clock s a (some (suc n)) = do
  x ← handle_world_packet clock s.memory s.table s.buf s.buf_len s.client_ip
  ok (world_reply s a (suc n) x)

-- Nothing follows an `exit(-1)`.
continue_with : Result → (Server → Run Result) → Run Result
continue_with (exited, sent, s) next = ok (exited, sent, s)
continue_with (running, sent, s) next = do
  (status, sent', s') ← next s
  ok (status, sent ++ sent', s')

module _ (eagain ewouldblock packet_host : ℕ) where
  -- From the top of the loop to `NEXT`.
  unfoldable pub serve_client : Clock → Server → Answers → Run Result
  unfolding client_read
  serve_client clock s a =
      let (ret, b, raddr) = read_msg_udp eagain ewouldblock s.buf s.raddr a.udp in
      client_read clock (record s { buf = b; raddr = raddr }) a ret

  -- From `NEXT` to the end of the loop.
  unfoldable pub serve_world : Clock → Server → Answers → Run Result
  unfolding world_read
  serve_world clock s a = do
    (ret, b, ll, rest) ← get_ip_packet eagain ewouldblock packet_host s.buf a.other_ll a.frames
    world_read clock (record s { buf = b }) a ret

  unfoldable pub serve_round : Clock → Server → Answers → Run Result
  unfolding serve_client serve_world continue_with
  serve_round clock s a = do
    r ← serve_client clock s a
    continue_with r (λ s'. serve_world clock s' a)

  -- The `while` loop, for as many rounds as there are answers.
  unfoldable pub serve : Clock → Server → List Answers → Run Result
  unfolding serve_round continue_with
  serve clock s [] = ok (running, [], s)
  serve clock s (a ∷ rest) = do
    r ← serve_round clock s a
    continue_with r (λ s'. serve clock s' rest)
