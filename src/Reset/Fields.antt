-- ===== src/Reset/Fields.antt =====
-- The stores of `fillin_reset` (src/lib/protocol_headers.c) before the checksums.
use benker_vpn.Base.{ℕ, ◌+◌, ◌*◌, ◌/◌, ◌≤◌, ◌<◌, ◌≡◌, arith, u32, ◌⊎◌, inl, ◌∙◌}
use benker_vpn.Packet.{
  Buffer, IsBytes, get16, tot_len, saddr, daddr, source, dest, seq, ack_seq, doff,
}
use benker_vpn.Reset.{reset_ip_fields, reset_tcp_numbers, reset_tcp_flags, reset_tcp_fields}

pub reset_ip_fields-IsBytes : {b : Buffer} → IsBytes b → IsBytes (reset_ip_fields b)
unfolding reset_ip_fields
reset_ip_fields-IsBytes h j = ground (arith, h j)

reset_tcp_numbers-IsBytes : {b : Buffer} → IsBytes b → IsBytes (reset_tcp_numbers b 20)
unfolding reset_tcp_numbers
reset_tcp_numbers-IsBytes h j = ground (arith, h j)

reset_tcp_flags-IsBytes : {b : Buffer} → IsBytes b → IsBytes (reset_tcp_flags b 20)
unfolding reset_tcp_flags
reset_tcp_flags-IsBytes h j = ground (arith, h j)

pub reset_tcp_fields-IsBytes : {b : Buffer} → IsBytes b → IsBytes (reset_tcp_fields b 20)
unfolding reset_tcp_fields
reset_tcp_fields-IsBytes h = reset_tcp_flags-IsBytes (reset_tcp_numbers-IsBytes h)

-- The IP header of a reset packet, but for its checksum.
pub record ResetIp (b r : Buffer) : Type 0 where
  pub version : r 0 ≡ b 0 / 16 * 16 + 5
  pub length : tot_len r ≡ 40
  pub ttl : r 8 ≡ 60
  pub protocol : r 9 ≡ b 9
  pub fragment : get16 r 6 ≡ 0
  pub from : saddr r ≡ daddr b
  pub to : daddr r ≡ saddr b
  pub rest : (j : ℕ) → 20 ≤ j → r j ≡ b j

pub reset_ip_fields_lem : (b : Buffer) → IsBytes b → ResetIp b (reset_ip_fields b)
unfolding reset_ip_fields
reset_ip_fields_lem b h = record {
  version = omega (arith, h 0);
  length = omega arith;
  ttl = omega arith;
  protocol = omega (arith, h 9);
  fragment = omega arith;
  from = omega (arith, h 16, h 17, h 18, h 19);
  to = omega (arith, h 12, h 13, h 14, h 15);
  rest = λ j p. ground arith;
}

pub reset_ip_fields-check : (b : Buffer) → get16 (reset_ip_fields b) 10 ≡ 0
unfolding reset_ip_fields
reset_ip_fields-check b = omega arith

reset_tcp_flags_outside :
    (b : Buffer) (j : ℕ) → (j < 33) ⊎ ((33 < j) × (j < 36)) → reset_tcp_flags b 20 j ≡ b j
unfolding reset_tcp_flags
reset_tcp_flags_outside b j h = ground arith

reset_tcp_flags-value : (b : Buffer) → b 33 < 256 → reset_tcp_flags b 20 33 ≡ 4 + 16
unfolding reset_tcp_flags
reset_tcp_flags-value b h = omega arith

-- The TCP header of a reset packet at 20, but for its checksum.
pub record ResetTcp (b r : Buffer) : Type 0 where
  pub from_port : source r 20 ≡ dest b 20
  pub to_port : dest r 20 ≡ source b 20
  pub seq_number : seq r 20 ≡ ack_seq b 20
  pub ack_number : ack_seq r 20 ≡ u32 (seq b 20 + 1)
  pub header_len : doff r 20 ≡ 5
  pub flags : r 33 ≡ 4 + 16
  pub rest : (j : ℕ) → j < 20 → r j ≡ b j

reset_tcp_numbers_lem :
    (b : Buffer)
    → IsBytes b
    → let r = reset_tcp_numbers b 20 in
      (source r 20 ≡ dest b 20)
      × (dest r 20 ≡ source b 20)
      × (seq r 20 ≡ ack_seq b 20)
      × (ack_seq r 20 ≡ u32 (seq b 20 + 1))
      × (doff r 20 ≡ 5)
unfolding reset_tcp_numbers
reset_tcp_numbers_lem b h = (
  omega (arith, h 22, h 23),
  omega (arith, h 20, h 21),
  omega (arith, h 28, h 29, h 30, h 31),
  omega (arith, h 24, h 25, h 26, h 27),
  omega (arith, h 32),
)

reset_tcp_numbers_outside : (b : Buffer) (j : ℕ) → j < 20 → reset_tcp_numbers b 20 j ≡ b j
unfolding reset_tcp_numbers
reset_tcp_numbers_outside b j h = ground arith

pub reset_tcp_fields_lem : (b : Buffer) → IsBytes b → ResetTcp b (reset_tcp_fields b 20)
unfolding reset_tcp_fields
reset_tcp_fields_lem b h =
    let n = reset_tcp_numbers b 20 in
    let (from, to, number, acked, long) = reset_tcp_numbers_lem b h in
    let keep = λ (j : ℕ) (p : j < 33). reset_tcp_flags_outside n j (inl p) in
    record {
      from_port = omega (arith, from, keep 20 (omega arith), keep 21 (omega arith));
      to_port = omega (arith, to, keep 22 (omega arith), keep 23 (omega arith));
      seq_number = omega (
        arith,
        number,
        keep 24 (omega arith),
        keep 25 (omega arith),
        keep 26 (omega arith),
        keep 27 (omega arith),
      );
      ack_number = omega (
        arith,
        acked,
        keep 28 (omega arith),
        keep 29 (omega arith),
        keep 30 (omega arith),
        keep 31 (omega arith),
      );
      header_len = omega (arith, long, keep 32 (omega arith));
      flags = reset_tcp_flags-value n (reset_tcp_numbers-IsBytes h 33);
      rest = λ j p. keep j (omega arith) ∙ reset_tcp_numbers_outside b j p;
    }

pub reset_tcp_fields-check : (b : Buffer) → get16 (reset_tcp_fields b 20) 36 ≡ 0
unfolding reset_tcp_fields reset_tcp_flags
reset_tcp_fields-check b = omega arith
