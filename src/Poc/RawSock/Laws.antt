-- ===== src/Poc/RawSock/Laws.antt =====
-- The frame of POC/RAWSOCK/main.c and its checksums.
use benker_vpn.Base.{
  ℕ, ◌+◌, ◌-◌, ◌*◌, ◌^◌, ◌≤◌, ◌<◌, ◌≡◌, ◌↔◌, ◌⊎◌, arith, refl, sym, ◌∙◌, some, [], ◌∷◌, fun_ext,
  ◌%◌,
}
use benker_vpn.Packet.{
  Buffer, IsBytes, get16, tot_len, seq, saddr, daddr, put8, source, dest, put16, protocol, ack_seq,
  doff,
}
use benker_vpn.Packet.Bytes.{memcpy-IsBytes, put8-IsBytes, put16-IsBytes, put16_outside}
use benker_vpn.Checksum.{tcp_data_bytes}
use benker_vpn.Checksum.Ip.{ip_csum_stored, ip_csum-congr}
use benker_vpn.Checksum.Sum.{ones_sum, ones_sum-le}
use benker_vpn.Checksum.Tcp.{
  segment_sum, segment_sum-put16, segment_sum_moved, tcp_csum-ones_sum, tcp_csum-le,
}
use benker_vpn.Net.{call_socket, call_sendto_ll, af_packet, sock_raw, eth_p_ip, no_flags}
use benker_vpn.Poc.RawSock.{
  behind, with_behind, main, send_test, ll_addr, test_frame, test_packet_fields,
  test_segment_fields, test_packet, ip_csum, tcp_csum,
}
use benker_vpn.Poc.RawSock.Fields.{
  TestIp, test_packet_fields-IsBytes, test_segment_fields-IsBytes, test_packet_fields_lem,
  test_segment_fields_lem, test_segment_fields-Keeps,
}

-- A sum with its complement and one more high byte.
ones_sum_off :
    (s x : ℕ) → x < 256 → (ones_sum (s + x * 256 + (65535 - ones_sum s)) ≡ 65535) ↔ (x ≡ 0)
unfolding ones_sum
ones_sum_off s x h = ground arith

-- The packet of the trial: every field of the two headers is that of the source, no flag is set, the
-- checksum of the IP header is right, and `x` is the byte behind the headers. The TCP checksum is right
-- exactly if that byte is 0.
pub record IsTest (x : ℕ) (r : Buffer) (s d : ℕ) : Type 0 where
  pub bytes : IsBytes r
  pub version_ihl : r 0 ≡ 69
  pub tos : r 1 ≡ 0
  pub length : tot_len r ≡ 41
  pub id : get16 r 4 ≡ 0x65dc
  pub frag_off : get16 r 6 ≡ 0x4000
  pub ttl : r 8 ≡ 64
  pub protocol_tcp : protocol r ≡ 6
  pub from : saddr r ≡ s
  pub to : daddr r ≡ d
  pub from_port : source r 20 ≡ 8080
  pub to_port : dest r 20 ≡ 80
  pub seq_number : seq r 20 ≡ 123
  pub ack_number : ack_seq r 20 ≡ 0
  pub header_len : doff r 20 ≡ 5
  pub flags : r 33 ≡ 0
  pub window : get16 r 34 ≡ 24754
  pub urg_ptr : get16 r 38 ≡ 0
  pub payload : r 40 ≡ x
  pub ip_checksum : ip_csum r ≡ 0
  pub tcp_checksum : (tcp_csum r 20 40 ≡ 0) ↔ (x ≡ 0)

module _ (b : Buffer) (s d : ℕ) (h : IsBytes b) (s_fits : s < 2 ^ 32) (d_fits : d < 2 ^ 32) where
  abbrev named : Buffer
  named = test_packet_fields b s d

  abbrev summed : Buffer
  summed = put16 named 10 (ip_csum named)

  abbrev segment : Buffer
  segment = test_segment_fields summed 20

  named-IsBytes : IsBytes named
  named-IsBytes = test_packet_fields-IsBytes s d h

  summed-IsBytes : IsBytes summed
  summed-IsBytes = put16-IsBytes 10 _ named-IsBytes

  segment-IsBytes : IsBytes segment
  segment-IsBytes = test_segment_fields-IsBytes summed-IsBytes

  named_lem : TestIp b named s d
  named_lem = test_packet_fields_lem b s d h s_fits d_fits

  -- Up to the TCP header, and behind it, the segment is the packet with its first checksum.
  below : (j : ℕ) → (j < 10) ⊎ ((12 ≤ j) × (j < 20)) ⊎ (40 ≤ j) → segment j ≡ named j
  below j p =
      test_segment_fields-Keeps summed j (omega arith)
      ∙ put16_outside named 10 (ip_csum named) j (omega arith)

  abbrev checksum : ℕ
  checksum = tcp_csum segment 20 26

  abbrev whole : Buffer
  whole = put16 segment 36 checksum

  whole_below : (j : ℕ) → (j < 36) ⊎ (38 ≤ j) → whole j ≡ segment j
  whole_below j p = put16_outside segment 36 checksum j p

  -- The program looks for the byte of data in the sequence number, where it finds 0.
  checksum_lem : (tcp_csum whole 20 40 ≡ 0) ↔ (b 40 ≡ 0)
  unfolding tcp_csum
  checksum_lem =
      let ip = named_lem in
      let tcp = test_segment_fields_lem summed summed-IsBytes in
      let first = below 0 (omega arith) in
      let size = below 2 (omega arith) in
      let size' = below 3 (omega arith) in
      let version = ip.version in
      let length = ip.length in
      let long = tcp.header_len in
      let one : tcp_data_bytes segment 20 ≡ 1 = omega arith in
      let moved = segment_sum_moved segment 20 26 40 one tcp.third in
      let sums =
        segment_sum-put16 segment 20 40 checksum (omega arith) (omega arith) (omega arith)
          (tcp_csum-le segment 20 26) in
      let c = tcp_csum-ones_sum segment 20 26 segment-IsBytes in
      let final = tcp_csum-ones_sum whole 20 40 (put16-IsBytes 36 checksum segment-IsBytes) in
      let data_same : segment 40 ≡ b 40 = below 40 (omega arith) ∙ ip.rest 40 (omega arith) in
      let cleared = tcp.cleared in
      let total : segment_sum whole 20 40
          ≡ segment_sum segment 20 26
            + b 40 * 256
            + (65535 - ones_sum (segment_sum segment 20 26)) =
        omega arith in
      ground (
        arith,
        final,
        ones_sum_off (segment_sum segment 20 26) (b 40) (h 40),
        ones_sum-le (segment_sum whole 20 40),
        total,
      )

  ip_checksum_lem : ip_csum whole ≡ 0
  unfolding ip_csum
  ip_checksum_lem =
      let ip = named_lem in
      let version = ip.version in
      let first : summed 0 ≡ named 0 = put16_outside named 10 (ip_csum named) 0 (omega arith) in
      let same = λ (j : ℕ) (p : j < 20).
        whole_below j (omega arith) ∙ test_segment_fields-Keeps summed j (omega arith) in
      sym (
        ip_csum-congr summed whole summed-IsBytes (put16-IsBytes 36 checksum segment-IsBytes)
          (λ j p. sym (same j (omega arith))) (sym (same 0 (omega arith))))
      ∙ ip_csum_stored named named-IsBytes ip.cleared (omega arith)

  test_packet-IsTest : IsTest (b 40) (test_packet b s d) s d
  unfolding test_packet
  test_packet-IsTest =
      let ip = named_lem in
      let tcp = test_segment_fields_lem summed summed-IsBytes in
      let version = ip.version in
      let first : summed 0 ≡ named 0 = put16_outside named 10 (ip_csum named) 0 (omega arith) in
      let at : summed 0 % 16 * 4 ≡ 20 = omega arith in
      let kept = λ (j : ℕ) (p : ((12 ≤ j) × (j < 20)) ⊎ (j < 10)).
        whole_below j (omega arith) ∙ below j (omega arith) in
      let ports = λ (j : ℕ) (p : j < 36). whole_below j (omega arith) in
      rw at (record {
        bytes = put16-IsBytes 36 checksum segment-IsBytes;
        version_ihl = kept 0 (omega arith) ∙ version;
        tos = kept 1 (omega arith) ∙ ip.tos;
        id = omega (arith, ip.id, kept 4 (omega arith), kept 5 (omega arith));
        frag_off = omega (arith, ip.frag_off, kept 6 (omega arith), kept 7 (omega arith));
        ttl = kept 8 (omega arith) ∙ ip.ttl;
        protocol_tcp = omega (arith, ip.protocol_tcp, kept 9 (omega arith));
        length = omega (arith, ip.length, kept 2 (omega arith), kept 3 (omega arith));
        from = omega (
          arith,
          ip.from,
          kept 12 (omega arith),
          kept 13 (omega arith),
          kept 14 (omega arith),
          kept 15 (omega arith),
        );
        to = omega (
          arith,
          ip.to,
          kept 16 (omega arith),
          kept 17 (omega arith),
          kept 18 (omega arith),
          kept 19 (omega arith),
        );
        from_port = omega (arith, tcp.from_port, ports 20 (omega arith), ports 21 (omega arith));
        to_port = omega (arith, tcp.to_port, ports 22 (omega arith), ports 23 (omega arith));
        seq_number = omega (
          arith,
          tcp.seq_number,
          ports 24 (omega arith),
          ports 25 (omega arith),
          ports 26 (omega arith),
          ports 27 (omega arith),
        );
        ack_number = omega (
          arith,
          tcp.ack_number,
          ports 28 (omega arith),
          ports 29 (omega arith),
          ports 30 (omega arith),
          ports 31 (omega arith),
        );
        header_len = omega (arith, tcp.header_len, ports 32 (omega arith));
        window = omega (arith, tcp.window, ports 34 (omega arith), ports 35 (omega arith));
        urg_ptr =
            omega (arith, tcp.urg_ptr, whole_below 38 (omega arith), whole_below 39 (omega arith));
        flags = ports 33 (omega arith) ∙ tcp.flags;
        payload = whole_below 40 (omega arith) ∙ below 40 (omega arith) ∙ ip.rest 40 (omega arith);
        ip_checksum = ip_checksum_lem;
        tcp_checksum = checksum_lem;
      })

-- The frame around the packet.
record IsFrame (b src dst r : Buffer) : Type 0 where
  to : (i : ℕ) → i < 6 → r i ≡ dst i
  from : (i : ℕ) → i < 6 → r (6 + i) ≡ src i
  type : get16 r 12 ≡ 0x800
  rest : (j : ℕ) → 14 ≤ j → r j ≡ b j

test_frame_lem :
    (b src dst : Buffer) → IsBytes src → IsBytes dst → IsFrame b src dst (test_frame b src dst)
unfolding test_frame
test_frame_lem b src dst hs hd = record {
  to = λ i p. ground (arith, hd i);
  from = λ i p. ground (arith, hs i);
  type = omega arith;
  rest = λ j p. ground arith;
}

test_frame-IsBytes : (b src dst : Buffer) → IsBytes b → IsBytes (test_frame b src dst)
unfolding test_frame
test_frame-IsBytes b src dst h =
    memcpy-IsBytes _ 0 dst 0 6 (memcpy-IsBytes _ 6 src 0 6 (put16-IsBytes 12 0x800 h))

put8_other : (b : Buffer) → put8 b 40 65 54 ≡ b 54
unfolding put8
put8_other b = refl

-- What the program sends: an Ethernet frame with the two addresses, to the link address of the
-- destination, around the packet of the trial.
pub record IsTestFrame (b src dst frame : Buffer) (s d : ℕ) : Type 0 where
  pub to : (i : ℕ) → i < 6 → frame i ≡ dst i
  pub from : (i : ℕ) → i < 6 → frame (6 + i) ≡ src i
  pub type : get16 frame 12 ≡ 0x800
  pub packet : IsTest (b 54) (behind frame 14) s d

with_behind_self : (b p : Buffer) (n : ℕ) → behind (with_behind b n p) n ≡ p
with_behind_self b p n = fun_ext (λ j. let e : n + j - n ≡ j = omega arith in ground (arith, e))

-- The program sends, with the code 0, one frame of 57 bytes that it makes from any buffer of bytes, from
-- hardware addresses that `ether_aton_r` reads, and from addresses of 32 bits: to and from these
-- hardware addresses, of the type IPv4. Its IP header has the version 4, 5 words, the type of service 0,
-- the length 41, the id 0x65dc, "don't fragment" and no offset, the ttl 64, the protocol 6, the two
-- addresses, and a right checksum. Its TCP header has the ports 8080 and 80, the numbers 123 and 0, 5
-- words, no flag, the window 24754 and no urgent data. The checksum of the TCP segment is right exactly
-- if the byte at 54 of the buffer, which is sent as its data, was 0 from the start.
pub main-IsTestFrame :
    (b : Buffer) (sock s d : ℕ) (src dst : Buffer)
    → IsBytes b
    → IsBytes src
    → IsBytes dst
    → s < 2 ^ 32
    → d < 2 ^ 32
    → (frame : Buffer) × (main b (some sock) s d (some src) (some dst) ≡ (
      0,
      call_socket af_packet sock_raw eth_p_ip
          ∷ call_sendto_ll sock frame 57 no_flags (ll_addr frame)
          ∷ [],
    ))
      × IsTestFrame b src dst frame s d
unfolding main send_test
main-IsTestFrame b sock s d src dst h hs hd s_fits d_fits =
    let b' = put8 b 40 65 in
    let tf = test_frame b' src dst in
    let f = test_frame_lem b' src dst hs hd in
    let packet = test_packet (behind tf 14) s d in
    let held : tf 54 ≡ b 54 = f.rest 54 (omega arith) ∙ put8_other b in
    let whole = with_behind tf 14 packet in
    (
      whole,
      refl,
      record {
        to = λ i p. ground (arith, f.to i);
        from = λ i p. ground (arith, f.from i);
        type = f.type;
        packet = rw (with_behind_self tf packet 14) (
            rw held at (
              test_packet-IsTest (behind tf 14) s d
                (λ j. test_frame-IsBytes b' src dst (put8-IsBytes 40 65 h) (14 + j)) s_fits
                d_fits));
      },
    )
