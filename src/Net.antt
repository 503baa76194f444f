-- ===== src/Net.antt =====
-- The sockets: src/lib/udp.c and src/lib/vpn_raw_sock.c. What the kernel and libc answer is an input,
-- and what the code asks of the kernel comes back as a list of calls. `none` is a result of -1.
pub mod Laws
pub mod Open
use benker_vpn.Base.{
  ℕ, ◌+◌, ◌*◌, ◌/◌, ◌%◌, Bool, true, false, not, ◌||◌, Option, none, some, List, [], ◌∷◌, ltb, ◌==◌,
  if◌then◌else◌, Run, ok, fault, out_of_fuel,
}
use benker_vpn.Packet.{Buffer}

-- Constants of the system's headers that are only passed on.
pub data Const : Type 0 where
  unset af_inet af_packet sock_dgram sock_raw eth_p_ip eth_p_ip_host ipproto_ip ipproto_egp
        msg_confirm no_flags :
      Const

pub data Address : Type 0 where
  inaddr_any : Address
  address : ℕ → Address

-- `htons` on a little-endian host.
abbrev pub htons : ℕ → ℕ
htons n = n % 256 * 256 + n / 256 % 256

-- `struct sockaddr_in`.
pub record SockaddrIn : Type 0 where
  pub sin_family : Const
  pub sin_port : ℕ
  pub sin_addr : Address

-- `struct sockaddr_ll`.
pub record SockaddrLl : Type 0 where
  pub sll_family : Const
  pub sll_protocol : Const
  pub sll_ifindex : ℕ
  pub sll_hatype : ℕ
  pub sll_pkttype : ℕ
  pub sll_halen : ℕ
  pub sll_addr : List ℕ

-- After `memset(ll, 0, sizeof(struct sockaddr_ll))`.
abbrev pub cleared_ll : SockaddrLl
cleared_ll = record {
  sll_family = unset;
  sll_protocol = unset;
  sll_ifindex = 0;
  sll_hatype = 0;
  sll_pkttype = 0;
  sll_halen = 0;
  sll_addr = 0 ∷ 0 ∷ 0 ∷ 0 ∷ 0 ∷ 0 ∷ 0 ∷ 0 ∷ [];
}

pub data Call : Type 0 where
  call_socket : (family type protocol : Const) → Call
  call_bind_in : (fd : ℕ) → SockaddrIn → Call
  call_bind_ll : (fd : ℕ) → SockaddrLl → Call
  call_close : (fd : ℕ) → Call
  call_sendto_in : (fd : ℕ) → Buffer → (size : ℕ) → (flags : Const) → SockaddrIn → Call
  call_sendto_ll : (fd : ℕ) → Buffer → (size : ℕ) → (flags : Const) → SockaddrLl → Call

-- What `recvfrom` answers on a UDP socket: an error number, or a message with its size and sender.
pub data Received : Type 0 where
  failed : ℕ → Received
  message : Buffer → (size : ℕ) → (from : SockaddrIn) → Received

-- What it answers on the packet socket: an error number, or a packet, its size and link address.
pub data Frame : Type 0 where
  failed : ℕ → Frame
  frame : Buffer → (size : ℕ) → (from : SockaddrLl) → Frame

-- What `socket` gives, and `bind` on it.
pub data Descriptor : Type 0 where
  no_socket : Descriptor
  unbound : ℕ → Descriptor
  bound : ℕ → Descriptor

-- `recvfrom` stores the first `size` bytes.
unfoldable pub fill : Buffer → ℕ → Buffer → Buffer
fill msg size b i = if ltb i size then msg i else b i

-- `fd` is what `socket` returns.
unfoldable pub get_udp_socket_client : Option ℕ → Option ℕ × List Call
get_udp_socket_client fd = (fd, call_socket af_inet sock_dgram unset ∷ [])

abbrev laddr : (port : ℕ) → SockaddrIn
laddr port = record { sin_family = af_inet; sin_port = htons port; sin_addr = inaddr_any }

unfoldable pub get_udp_socket_server : (port : ℕ) → Descriptor → Option ℕ × List Call
get_udp_socket_server port no_socket = (none, call_socket af_inet sock_dgram unset ∷ [])
get_udp_socket_server port (unbound fd) =
    (none, call_socket af_inet sock_dgram unset ∷ call_bind_in fd (laddr port) ∷ [])
get_udp_socket_server port (bound fd) =
    (some fd, call_socket af_inet sock_dgram unset ∷ call_bind_in fd (laddr port) ∷ [])

unfoldable pub send_msg_udp : (fd : ℕ) → Buffer → (size : ℕ) → SockaddrIn → Call
send_msg_udp fd b size dst = call_sendto_in fd b size msg_confirm dst

-- `parsed` is the address that `inet_aton` reads from the string, if it can; it returns 1 then, and 0
-- without a store where it cannot.
unfoldable pub fill_port_ip : SockaddrIn → (port : ℕ) → (parsed : Option ℕ) → ℕ × SockaddrIn
fill_port_ip addr port none = (0, record addr { sin_family = af_inet; sin_port = htons port })
fill_port_ip addr port (some ip) =
    (1, record addr { sin_family = af_inet; sin_port = htons port; sin_addr = address ip })

abbrev any_ip_packet : SockaddrLl
any_ip_packet = record cleared_ll { sll_family = af_packet; sll_protocol = ipproto_ip }

unfoldable pub get_vpn_raw_socket : Descriptor → Option ℕ × List Call
get_vpn_raw_socket no_socket = (none, call_socket af_packet sock_dgram eth_p_ip ∷ [])
get_vpn_raw_socket (unbound fd) = (
  none,
  call_socket af_packet sock_dgram eth_p_ip ∷ call_bind_ll fd any_ip_packet ∷ call_close fd ∷ [],
)
get_vpn_raw_socket (bound fd) =
    (some fd, call_socket af_packet sock_dgram eth_p_ip ∷ call_bind_ll fd any_ip_packet ∷ [])

-- The call, and the link address that the caller is left with.
unfoldable pub send_ip_packet : (fd : ℕ) → Buffer → (len : ℕ) → SockaddrLl → Call × SockaddrLl
send_ip_packet fd b len ll =
    let ll' = record ll { sll_hatype = 0; sll_pkttype = 0 } in
    (call_sendto_ll fd b len no_flags ll', ll')

module _ (eagain ewouldblock : ℕ) where
  -- `errno != EAGAIN || errno != EWOULDBLOCK`, for a call that failed.
  unfoldable pub poll_error : ℕ → Option ℕ
  poll_error errno = if not (errno == eagain) || not (errno == ewouldblock) then none else some 0

  -- The result, the buffer and the sender's address.
  unfoldable pub read_msg_udp :
      Buffer → (raddr : SockaddrIn) → Received → Option ℕ × Buffer × SockaddrIn
  unfolding poll_error fill
  read_msg_udp b raddr (failed errno) = (poll_error errno, b, raddr)
  read_msg_udp b raddr (message msg size from) = (some size, fill msg size b, from)

  module _ (packet_host : ℕ) where
    -- The `do` loop, on the answers that the calls of `recvfrom` get one after the other. The result,
    -- the buffer, the link address, and the answers that are left over. An answer list that is too
    -- short is no behaviour.
    unfoldable pub get_ip_packet :
        Buffer → SockaddrLl → List Frame → Run (Option ℕ × Buffer × SockaddrLl × List Frame)
    unfolding poll_error fill
    get_ip_packet b ll [] = fault out_of_fuel
    get_ip_packet b ll (failed errno ∷ rest) = ok (poll_error errno, b, ll, rest)
    get_ip_packet b ll (frame msg size from ∷ rest) =
        let b' = fill msg size b in
        let next = get_ip_packet b' from rest in
        if not (from.sll_pkttype == packet_host) || from.sll_halen == 0
        then next
        else ok (some size, b', record from { sll_hatype = 0; sll_pkttype = 0 }, rest)
