-- ===== src/Rewrite/Both.antt =====
-- `replace_src_ip_port` and `replace_dst_ip_port` of src/lib/protocol_headers.c.
use benker_vpn.Base.{ℕ, ◌+◌, ◌*◌, ◌^◌, ◌≤◌, ◌<◌, ◌≡◌, arith, sym, ◌⊎◌, ◌∙◌}
use benker_vpn.Packet.{Buffer, IsBytes, get16, get32, ihl, ip_header_len, doff}
use benker_vpn.Checksum.{ip_csum, tcp_csum}
use benker_vpn.Checksum.Ip.{ip_csum-congr}
use benker_vpn.Rewrite.{replace_src_ip_port, replace_dst_ip_port, replace_src_ip, replace_dst_ip}
use benker_vpn.Rewrite.Ip.{
  IsReaddressed, replace_src_ip-IsReaddressed, replace_dst_ip-IsReaddressed,
}
use benker_vpn.Rewrite.Port.{IsReported, replace_src_port-IsReported, replace_dst_port-IsReported}

-- `r` is the packet `b` with the address `ip` at the offset `ip_at`, the port `port` at the offset
-- `port_at` of the TCP header, and both checksums right.
pub record IsForwarded (ip_at ip port_at port : ℕ) (b r : Buffer) : Type 0 where
  pub bytes : IsBytes r
  pub address : get32 r ip_at ≡ ip
  pub stored : get16 r (ip_header_len b + port_at) ≡ port
  pub outside :
      (j : ℕ)
      → (j < 10) ⊎ (12 ≤ j)
      → (j < ip_at) ⊎ (ip_at + 4 ≤ j)
      → (j < ip_header_len b + port_at) ⊎ (ip_header_len b + port_at + 2 ≤ j)
      → (j < ip_header_len b + 16) ⊎ (ip_header_len b + 18 ≤ j)
      → r j ≡ b j
  pub ip_checksum : ip_csum r ≡ 0
  pub tcp_checksum :
      tcp_csum r (ip_header_len b) (ip_header_len b + doff b (ip_header_len b) * 4) ≡ 0

-- What a packet needs for its headers to be rewritten: no header is shorter than its fixed part.
pub record IsLong (b : Buffer) : Type 0 where
  pub ip_long : 5 ≤ ihl b
  pub tcp_long : 5 ≤ doff b (ip_header_len b)

-- A new address, and then a new port.
forward :
    (b mid r : Buffer) (ip_at ip port_at port : ℕ)
    → IsLong b
    → 12 ≤ ip_at
    → ip_at ≤ 16
    → IsReaddressed ip_at ip b mid
    → IsReported port_at port mid r
    → IsForwarded ip_at ip port_at port b r
forward b mid r ip_at ip port_at port long high low h k =
    let first : mid 0 ≡ b 0 = h.outside 0 (omega arith) (omega arith) in
    let kept = λ (j : ℕ) (p : 20 ≤ j). h.outside j (omega arith) (omega arith) in
    let ip_long = long.ip_long in
    let tcp_at : ip_header_len mid ≡ ip_header_len b = omega arith in
    let offset : mid (ip_header_len b + 12) ≡ b (ip_header_len b + 12) =
      kept (ip_header_len b + 12) (omega arith) in
    let untouched = λ (j : ℕ) (p : j < ip_header_len b). k.outside j (omega arith) (omega arith) in
    let same = λ (j : ℕ) (p : (ip_at ≤ j) × (j < ip_at + 4)). untouched j (omega arith) in
    record {
      bytes = k.bytes;
      address = omega (
        arith,
        h.address,
        untouched ip_at (omega arith),
        untouched (ip_at + 1) (omega arith),
        untouched (ip_at + 2) (omega arith),
        untouched (ip_at + 2 + 1) (omega arith),
      );
      stored = rw tcp_at at k.stored;
      outside = λ j p q u v. k.outside j (omega arith) (omega arith) ∙ h.outside j p q;
      ip_checksum =
          sym (
            ip_csum-congr mid r h.bytes k.bytes (λ j p. sym (untouched j (omega arith)))
              (sym (untouched 0 (omega arith))))
          ∙ h.checksum;
      tcp_checksum = rw (tcp_at, offset) at k.checksum;
    }

readdressed-IsLong :
    (b mid : Buffer) (ip_at ip : ℕ)
    → IsLong b
    → 12 ≤ ip_at
    → ip_at ≤ 16
    → IsReaddressed ip_at ip b mid
    → IsLong mid
readdressed-IsLong b mid ip_at ip long high low h =
    let first : mid 0 ≡ b 0 = h.outside 0 (omega arith) (omega arith) in
    let ip_long = long.ip_long in
    let tcp_long = long.tcp_long in
    let offset : mid (ip_header_len b + 12) ≡ b (ip_header_len b + 12) =
      h.outside (ip_header_len b + 12) (omega arith) (omega arith) in
    record { ip_long = omega arith; tcp_long = rw (first, offset) tcp_long }

module _ (b : Buffer) (ip port : ℕ) (h : IsBytes b) (long : IsLong b) (ip_fits : ip < 2 ^ 32)
    (port_fits : port < 2 ^ 16) where
  -- On a packet of bytes whose headers are no shorter than their fixed parts, `replace_src_ip_port`
  -- stores the source address of 32 bits and port of 16 bits, leaves both checksums right, and
  -- changes no other byte.
  pub replace_src_ip_port-IsForwarded : IsForwarded 12 ip 0 port b (replace_src_ip_port b ip port)
  unfolding replace_src_ip_port
  replace_src_ip_port-IsForwarded =
      let mid = replace_src_ip b ip in
      let there = replace_src_ip-IsReaddressed b ip h long.ip_long ip_fits in
      let long' = readdressed-IsLong b mid 12 ip long (omega arith) (omega arith) there in
      forward b mid _ 12 ip 0 port long (omega arith) (omega arith) there
        (replace_src_port-IsReported mid port there.bytes long'.ip_long long'.tcp_long port_fits)

  -- On a packet of bytes whose headers are no shorter than their fixed parts, `replace_dst_ip_port`
  -- stores the destination address of 32 bits and port of 16 bits, leaves both checksums right, and
  -- changes no other byte.
  pub replace_dst_ip_port-IsForwarded : IsForwarded 16 ip 2 port b (replace_dst_ip_port b ip port)
  unfolding replace_dst_ip_port
  replace_dst_ip_port-IsForwarded =
      let mid = replace_dst_ip b ip in
      let there = replace_dst_ip-IsReaddressed b ip h long.ip_long ip_fits in
      let long' = readdressed-IsLong b mid 16 ip long (omega arith) (omega arith) there in
      forward b mid _ 16 ip 2 port long (omega arith) (omega arith) there
        (replace_dst_port-IsReported mid port there.bytes long'.ip_long long'.tcp_long port_fits)
