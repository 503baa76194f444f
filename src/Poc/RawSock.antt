-- ===== src/Poc/RawSock.antt =====
-- POC/RAWSOCK/main.c: a frame with a TCP segment is put together by hand and sent. The buffer is read
-- through three pointers: the frame, the IP packet at 14 in it, and the TCP segment at 20 in that.
pub mod Fields
pub mod Laws
use benker_vpn.Base.{
  ℕ, ◌+◌, ◌-◌, ◌*◌, ◌/◌, ◌%◌, Option, none, some, List, [], ◌∷◌, ltb, if◌then◌else◌,
}
use benker_vpn.Packet.{Buffer, put8, put16, put32, memcpy}
use benker_vpn.Checksum
use benker_vpn.Reset.{set_flag}
use benker_vpn.Net.{
  Call, SockaddrLl, cleared_ll, call_socket, call_sendto_ll, af_packet, sock_raw, eth_p_ip,
  eth_p_ip_host, no_flags,
}

-- The three checksum functions are those of src/lib/protocol_headers.c, but for a line that is printed.
unfoldable pub summing : Buffer → (i bytes sum : ℕ) → ℕ
summing b i bytes sum = Checksum.summing b i bytes sum

unfoldable pub ip_csum : Buffer → ℕ
ip_csum b = Checksum.ip_csum b

unfoldable pub tcp_csum : Buffer → (tcp tcp_data : ℕ) → ℕ
tcp_csum b tcp tcp_data = Checksum.tcp_csum b tcp tcp_data

-- `sizeof(struct ethhdr)`.
abbrev pub sizeof_ethhdr : ℕ
sizeof_ethhdr = 14

-- The bytes behind a pointer into the buffer, and the buffer after stores to these.
abbrev pub behind : Buffer → ℕ → Buffer
behind b n i = b (n + i)

abbrev pub with_behind : Buffer → ℕ → Buffer → Buffer
with_behind b n p i = if ltb i n then b i else p (i - n)

-- `test_frame`: `h_proto`, and the two addresses that `ether_aton_r` gives.
unfoldable pub test_frame : Buffer → (src dst : Buffer) → Buffer
unfolding put16 memcpy
test_frame b src dst = memcpy (memcpy (put16 b 12 0x800) 6 src 0 6) 0 dst 0 6

-- The stores to `test_packet` up to `ip_csum`; `version` and `ihl` share a byte. `saddr` and `daddr`
-- are what `inet_addr` gives.
unfoldable pub test_packet_fields : Buffer → (saddr daddr : ℕ) → Buffer
unfolding put8 put16 put32
test_packet_fields b saddr daddr =
    let b₁ = put8 b 0 (0x4 * 16 + b 0 % 16) in
    let b₂ = put8 b₁ 0 (b₁ 0 / 16 * 16 + 0x5) in
    let b₃ = put16 (put16 (put8 b₂ 1 0) 2 41) 4 0x65dc in
    let b₄ = put16 (put8 (put8 (put16 b₃ 6 0x4000) 8 64) 9 6) 10 0 in
    put32 (put32 b₄ 12 saddr) 16 daddr

-- The stores to `test_segment` up to `tcp_csum`; `doff` and `res1` share a byte, and so do the flags.
unfoldable pub test_segment_fields : Buffer → (tcp : ℕ) → Buffer
unfolding put8 put16 put32 set_flag
test_segment_fields b tcp =
    let b₁ = put16 (put16 b tcp 8080) (tcp + 2) 80 in
    let b₂ = put32 (put32 b₁ (tcp + 4) 123) (tcp + 8) 0 in
    let b₃ = put8 b₂ (tcp + 12) (5 * 16 + b₂ (tcp + 12) % 16) in
    let b₄ = set_flag (set_flag (set_flag (set_flag b₃ tcp 128 0) tcp 64 0) tcp 32 0) tcp 16 0 in
    let b₅ = set_flag (set_flag (set_flag (set_flag b₄ tcp 8 0) tcp 4 0) tcp 2 0) tcp 1 0 in
    let b₆ = put8 b₅ (tcp + 12) (b₅ (tcp + 12) / 16 * 16 + 0) in
    put16 (put16 (put16 b₆ (tcp + 14) 24754) (tcp + 16) 0) (tcp + 18) 0

-- The packet as it is sent. The data of the segment is taken to start at `buffer + 40`, which is 26 in
-- the packet.
unfoldable pub test_packet : Buffer → (saddr daddr : ℕ) → Buffer
unfolding ip_csum tcp_csum
test_packet b saddr daddr =
    let named = test_packet_fields b saddr daddr in
    let summed = put16 named 10 (ip_csum named) in
    let tcp = summed 0 % 16 * 4 in
    let segment = test_segment_fields summed tcp in
    put16 segment (tcp + 16) (tcp_csum segment tcp (40 - sizeof_ethhdr))

-- The address of the link.
unfoldable pub ll_addr : Buffer → SockaddrLl
ll_addr b = record cleared_ll {
  sll_family = af_packet;
  sll_addr = b 0 ∷ b 1 ∷ b 2 ∷ b 3 ∷ b 4 ∷ b 5 ∷ 0 ∷ 0 ∷ [];
  sll_halen = 6;
  sll_ifindex = 2;
  sll_protocol = eth_p_ip_host;
}

-- What is sent, by the two addresses that `ether_aton_r` reads.
unfoldable pub send_test :
    Buffer → (sock saddr daddr : ℕ) → (src dst : Option Buffer) → ℕ × List Call
unfolding test_frame test_packet ll_addr put8
send_test b sock saddr daddr none dst = (1, [])
send_test b sock saddr daddr (some src) none = (1, [])
send_test b sock saddr daddr (some src) (some dst) =
    let frame = test_frame b src dst in
    let packet = test_packet (behind frame sizeof_ethhdr) saddr daddr in
    let whole = with_behind frame sizeof_ethhdr packet in
    (0, call_sendto_ll sock whole 57 no_flags (ll_addr whole) ∷ [])

-- The program, up to its `return 0`: the exit code and the calls. `sock` is what `socket` returns.
unfoldable pub main :
    Buffer → (sock : Option ℕ) → (saddr daddr : ℕ) → (src dst : Option Buffer) → ℕ × List Call
unfolding send_test put8
main b none saddr daddr src dst = (1, call_socket af_packet sock_raw eth_p_ip ∷ [])
main b (some sock) saddr daddr src dst =
    let (code, calls) = send_test (put8 b 40 65) sock saddr daddr src dst in
    (code, call_socket af_packet sock_raw eth_p_ip ∷ calls)
