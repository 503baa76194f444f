-- ===== src/Reset.antt =====
-- `fillin_reset` of src/lib/protocol_headers.c: a received packet is turned into a reset packet.
pub mod Fields
pub mod Laws
use benker_vpn.Base.{ℕ, ◌+◌, ◌-◌, ◌*◌, ◌/◌, ◌%◌, u16, u32}
use benker_vpn.Packet.{
  Buffer, get16, put8, put16, get32, put32, ip_header_len, tot_len, saddr, daddr, source, dest, seq,
  ack_seq,
}
use benker_vpn.Checksum.{ip_csum, tcp_csum}

-- A store to the flag with the given weight in the byte at 13 of the TCP header.
unfoldable pub set_flag : Buffer → ℕ → ℕ → ℕ → Buffer
unfolding put8
set_flag b tcp weight v =
    let old = b (tcp + 13) in put8 b (tcp + 13) (old - old / weight % 2 * weight + v * weight)

-- `ip_header->id += 1` on the field as a little-endian host reads it.
unfoldable pub bump_id : Buffer → Buffer
unfolding put8
bump_id b = let id = u16 (b 4 + b 5 * 256 + 1) in put8 (put8 b 4 (id % 256)) 5 (id / 256)

-- The stores to the IP header up to `ip_csum`.
unfoldable pub reset_ip_fields : Buffer → Buffer
unfolding put8 put16 put32 bump_id
reset_ip_fields b =
    let b₁ = put8 b 0 (b 0 / 16 * 16 + 5) in
    let b₂ = bump_id (put16 b₁ 2 (20 + 20)) in
    let b₃ = put16 (put8 (put16 b₂ 6 0) 8 60) 10 0 in
    let temp32 = saddr b₃ in let b₄ = put32 b₃ 12 (daddr b₃) in put32 b₄ 16 temp32

-- The ports, the sequence numbers and the header length of the TCP header.
unfoldable pub reset_tcp_numbers : Buffer → ℕ → Buffer
unfolding put8 put16 put32
reset_tcp_numbers b tcp =
    let temp16 = source b tcp in
    let b₁ = put16 (put16 b tcp (dest b tcp)) (tcp + 2) temp16 in
    let temp32 = seq b₁ tcp in
    let b₂ = put32 b₁ (tcp + 4) (ack_seq b₁ tcp) in
    let b₃ = put32 b₂ (tcp + 8) (u32 (temp32 + 1)) in
    put8 b₃ (tcp + 12) (5 * 16 + b₃ (tcp + 12) % 16)

-- `fin`, `syn`, `rst`, `psh`, `ack`, `urg`, `ece`, `cwr`, and `check = 0`.
unfoldable pub reset_tcp_flags : Buffer → ℕ → Buffer
unfolding put16 set_flag
reset_tcp_flags b tcp =
    let b₁ = set_flag (set_flag (set_flag (set_flag b tcp 1 0) tcp 2 0) tcp 4 1) tcp 8 0 in
    let b₂ = set_flag (set_flag (set_flag (set_flag b₁ tcp 16 1) tcp 32 0) tcp 64 0) tcp 128 0 in
    put16 b₂ (tcp + 16) 0

-- The stores to the TCP header up to `tcp_csum`.
unfoldable pub reset_tcp_fields : Buffer → ℕ → Buffer
reset_tcp_fields b tcp = reset_tcp_flags (reset_tcp_numbers b tcp) tcp

-- The buffer, and the length of the packet in it.
unfoldable pub fillin_reset : Buffer → Buffer × ℕ
fillin_reset b =
    let named = reset_ip_fields b in
    let summed = put16 named 10 (ip_csum named) in
    let tcp = ip_header_len summed in
    let cleared = reset_tcp_fields summed tcp in
    let r = put16 cleared (tcp + 16) (tcp_csum cleared tcp 0) in (r, tot_len r)
