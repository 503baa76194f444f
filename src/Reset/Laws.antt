-- ===== src/Reset/Laws.antt =====
-- What `fillin_reset` of src/lib/protocol_headers.c makes of a packet.
use benker_vpn.Base.{ℕ, ◌+◌, ◌-◌, ◌*◌, ◌≤◌, ◌<◌, ◌≡◌, arith, u32, ◌⊎◌, inr, ◌∙◌}
use benker_vpn.Packet.{
  Buffer, IsBytes, put16, ihl, ip_header_len, tot_len, saddr, daddr, source, dest, seq, ack_seq,
  doff,
}
use benker_vpn.Packet.Bytes.{put16_outside, put16-IsBytes}
use benker_vpn.Checksum.{ip_csum, tcp_csum}
use benker_vpn.Checksum.Ip.{ip_csum_stored, ip_csum-congr}
use benker_vpn.Checksum.Tcp.{tcp_csum_stored}
use benker_vpn.Reset.{reset_ip_fields, reset_tcp_fields, fillin_reset}
use benker_vpn.Reset.Fields.{
  reset_ip_fields-IsBytes, reset_tcp_fields-IsBytes, ResetIp, reset_ip_fields_lem,
  reset_ip_fields-check, reset_tcp_fields_lem, reset_tcp_fields-check,
}

-- `r` is a reset packet of 40 bytes that answers `b`, read with a TCP header at 20.
pub record IsReset (b r : Buffer) : Type 0 where
  pub bytes : IsBytes r
  pub header_len : ihl r ≡ 5
  pub length : tot_len r ≡ 40
  pub from : saddr r ≡ daddr b
  pub to : daddr r ≡ saddr b
  pub from_port : source r 20 ≡ dest b 20
  pub to_port : dest r 20 ≡ source b 20
  pub seq_number : seq r 20 ≡ ack_seq b 20
  pub ack_number : ack_seq r 20 ≡ u32 (seq b 20 + 1)
  pub tcp_header_len : doff r 20 ≡ 5
  pub flags : r 33 ≡ 4 + 16
  pub ip_checksum : ip_csum r ≡ 0
  pub tcp_checksum : tcp_csum r 20 0 ≡ 0

module _ (b summed : Buffer) (h : IsBytes summed) (ip : ResetIp b summed)
    (right : ip_csum summed ≡ 0) where
  reset_tcp_lem :
      let cleared = reset_tcp_fields summed 20 in
      IsReset b (put16 cleared 36 (tcp_csum cleared 20 0))
  reset_tcp_lem =
      let cleared = reset_tcp_fields summed 20 in
      let c = tcp_csum cleared 20 0 in
      let r = put16 cleared 36 c in
      let tcp = reset_tcp_fields_lem summed h in
      let h' : IsBytes cleared = reset_tcp_fields-IsBytes h in
      let keep = λ (j : ℕ) (p : (j < 36) ⊎ (38 ≤ j)). put16_outside cleared 36 c j p in
      let kept = λ (j : ℕ) (p : j < 20). keep j (omega arith) ∙ tcp.rest j p in
      let version = ip.version in
      let long : 5 ≤ doff cleared 20 = omega (arith, tcp.header_len) in
      let ip_lens : (ip_header_len cleared ≡ 20) × (tot_len cleared ≡ 40) = omega (
        arith,
        ip.length,
        tcp.rest 0 (omega arith),
        tcp.rest 2 (omega arith),
        tcp.rest 3 (omega arith),
      ) in
      let empty : tot_len cleared - ip_header_len cleared - doff cleared 20 * 4 ≡ 0 =
        omega (arith, ip_lens, tcp.header_len) in
      record {
        bytes = put16-IsBytes 36 c h';
        header_len = omega (arith, kept 0 (omega arith));
        length = omega (arith, ip.length, kept 2 (omega arith), kept 3 (omega arith));
        from = omega (
          arith,
          ip.from,
          kept 12 (omega arith),
          kept 13 (omega arith),
          kept 14 (omega arith),
          kept 15 (omega arith),
        );
        to = omega (
          arith,
          ip.to,
          kept 16 (omega arith),
          kept 17 (omega arith),
          kept 18 (omega arith),
          kept 19 (omega arith),
        );
        from_port = omega (
          arith,
          tcp.from_port,
          keep 20 (omega arith),
          keep 21 (omega arith),
          ip.rest 22 (omega arith),
          ip.rest 23 (omega arith),
        );
        to_port = omega (
          arith,
          tcp.to_port,
          keep 22 (omega arith),
          keep 23 (omega arith),
          ip.rest 20 (omega arith),
          ip.rest 21 (omega arith),
        );
        seq_number = omega (
          arith,
          tcp.seq_number,
          keep 24 (omega arith),
          keep 25 (omega arith),
          keep 26 (omega arith),
          keep 27 (omega arith),
          ip.rest 28 (omega arith),
          ip.rest 29 (omega arith),
          ip.rest 30 (omega arith),
          ip.rest 31 (omega arith),
        );
        ack_number = omega (
          arith,
          tcp.ack_number,
          keep 28 (omega arith),
          keep 29 (omega arith),
          keep 30 (omega arith),
          keep 31 (omega arith),
          ip.rest 24 (omega arith),
          ip.rest 25 (omega arith),
          ip.rest 26 (omega arith),
          ip.rest 27 (omega arith),
        );
        tcp_header_len = omega (arith, tcp.header_len, keep 32 (omega arith));
        flags = keep 33 (omega arith) ∙ tcp.flags;
        ip_checksum =
            ip_csum-congr r summed (put16-IsBytes 36 c h') h
              (λ j p. kept j (omega (arith, kept 0 (omega arith)))) (kept 0 (omega arith))
            ∙ right;
        tcp_checksum =
            tcp_csum_stored cleared 20 0 h' (reset_tcp_fields-check summed) (omega arith) long
              (inr empty);
      }

summed-ResetIp : (b named : Buffer) (c : ℕ) → ResetIp b named → ResetIp b (put16 named 10 c)
summed-ResetIp b named c ip =
    let keep = λ (j : ℕ) (p : (j < 10) ⊎ (12 ≤ j)). put16_outside named 10 c j p in
    record {
      version = keep 0 (omega arith) ∙ ip.version;
      length = omega (arith, ip.length, keep 2 (omega arith), keep 3 (omega arith));
      ttl = keep 8 (omega arith) ∙ ip.ttl;
      protocol = keep 9 (omega arith) ∙ ip.protocol;
      fragment = omega (arith, ip.fragment, keep 6 (omega arith), keep 7 (omega arith));
      from = omega (
        arith,
        ip.from,
        keep 12 (omega arith),
        keep 13 (omega arith),
        keep 14 (omega arith),
        keep 15 (omega arith),
      );
      to = omega (
        arith,
        ip.to,
        keep 16 (omega arith),
        keep 17 (omega arith),
        keep 18 (omega arith),
        keep 19 (omega arith),
      );
      rest = λ j p. keep j (omega arith) ∙ ip.rest j p;
    }

-- `fillin_reset` makes any buffer of bytes a reset packet of 40 bytes: addresses and the ports at
-- 20 and 22 are exchanged, the number sent is the one that was acknowledged, the acknowledged
-- number is one above the one that was sent, only the flags `rst` and `ack` are set, both checksums
-- are right, and the length returned is 40.
pub fillin_reset-IsReset :
    (b : Buffer) → IsBytes b → IsReset b (fillin_reset b).0 × ((fillin_reset b).1 ≡ 40)
unfolding fillin_reset
fillin_reset-IsReset b h =
    let named = reset_ip_fields b in
    let c = ip_csum named in
    let summed = put16 named 10 c in
    let named_bytes : IsBytes named = reset_ip_fields-IsBytes h in
    let bytes : IsBytes summed = put16-IsBytes 10 c named_bytes in
    let before = reset_ip_fields_lem b h in
    let version = before.version in
    let ip = summed-ResetIp b named c before in
    let summed_version = ip.version in
    let tcp_at : ip_header_len summed ≡ 20 = omega arith in
    let right = ip_csum_stored named named_bytes (reset_ip_fields-check b) (omega arith) in
    let done = reset_tcp_lem b summed bytes ip right in rw tcp_at (done, done.length)
