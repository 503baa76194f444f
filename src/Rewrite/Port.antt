-- ===== src/Rewrite/Port.antt =====
-- `replace_src_port` and `replace_dst_port` of src/lib/protocol_headers.c.
use benker_vpn.Base.{ℕ, ◌+◌, ◌*◌, ◌^◌, ◌≤◌, ◌<◌, ◌≡◌, arith, refl, ◌⊎◌, ◌∙◌}
use benker_vpn.Packet.{Buffer, IsBytes, get16, put16, ihl, ip_header_len, doff}
use benker_vpn.Packet.Bytes.{get16-put16, put16_outside, put16-IsBytes}
use benker_vpn.Checksum.{tcp_csum}
use benker_vpn.Checksum.Tcp.{tcp_csum_stored}
use benker_vpn.Rewrite.{replace_src_port, replace_dst_port}

-- `r` is `b` with `port` at the offset `at` of the TCP header and a checksum that is right.
pub record IsReported (at port : ℕ) (b r : Buffer) : Type 0 where
  pub bytes : IsBytes r
  pub stored : get16 r (ip_header_len b + at) ≡ port
  pub outside :
      (j : ℕ)
      → (j < ip_header_len b + at) ⊎ (ip_header_len b + at + 2 ≤ j)
      → (j < ip_header_len b + 16) ⊎ (ip_header_len b + 18 ≤ j)
      → r j ≡ b j
  pub checksum : tcp_csum r (ip_header_len b) (ip_header_len b + doff b (ip_header_len b) * 4) ≡ 0

report-IsReported :
    (b : Buffer) (at tcp port field : ℕ)
    → IsBytes b
    → 5 ≤ ihl b
    → 5 ≤ doff b tcp
    → port < 2 ^ 16
    → at ≤ 2
    → tcp ≡ ip_header_len b
    → field ≡ tcp + at
    → let cleared = put16 (put16 b field port) (tcp + 16) 0 in
      IsReported at port b (put16 cleared (tcp + 16) (tcp_csum cleared tcp (tcp + doff b tcp * 4)))
report-IsReported b at tcp port field h long tcp_long fits early tcp_at field_at =
    let named = put16 b field port in
    let cleared = put16 named (tcp + 16) 0 in
    let tcp_data = tcp + doff b tcp * 4 in
    let c = tcp_csum cleared tcp tcp_data in
    let r = put16 cleared (tcp + 16) c in
    let h' : IsBytes cleared = put16-IsBytes (tcp + 16) 0 (put16-IsBytes field port h) in
    let later = λ (j : ℕ) (p : (j < tcp + 16) ⊎ (tcp + 16 + 2 ≤ j)).
      put16_outside cleared (tcp + 16) c j p ∙ put16_outside named (tcp + 16) 0 j p in
    let offset : cleared (tcp + 12) ≡ b (tcp + 12) =
      put16_outside named (tcp + 16) 0 (tcp + 12) (omega arith)
      ∙ put16_outside b field port (tcp + 12) (omega arith) in
    let right : tcp_csum r tcp tcp_data ≡ 0 =
      tcp_csum_stored cleared tcp tcp_data h' (omega (arith, get16-put16 named (tcp + 16) 0))
        (omega arith) (omega arith) (omega arith) in
    record {
      bytes = put16-IsBytes (tcp + 16) c h';
      stored =
          rw (← tcp_at, ← field_at)
            (omega (
              arith,
              get16-put16 b field port,
              later field (omega arith),
              later (field + 1) (omega arith),
            ));
      outside = λ j p q. later j (omega arith) ∙ put16_outside b field port j (omega arith);
      checksum = rw (← tcp_at) right;
    }

module _ (b : Buffer) (port : ℕ) (h : IsBytes b) (long : 5 ≤ ihl b)
    (tcp_long : 5 ≤ doff b (ip_header_len b)) (fits : port < 2 ^ 16) where
  -- The source port is replaced, the segment's checksum comes out right, and no other byte changes.
  pub replace_src_port-IsReported : IsReported 0 port b (replace_src_port b port)
  unfolding replace_src_port
  replace_src_port-IsReported =
      report-IsReported b 0 (ip_header_len b) port (ip_header_len b) h long tcp_long fits
        (omega arith) refl (omega arith)

  -- The same for the destination port.
  pub replace_dst_port-IsReported : IsReported 2 port b (replace_dst_port b port)
  unfolding replace_dst_port
  replace_dst_port-IsReported =
      report-IsReported b 2 (ip_header_len b) port (ip_header_len b + 2) h long tcp_long fits
        (omega arith) refl refl
