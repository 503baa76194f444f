-- ===== src/Poc/RawSock/Fields.antt =====
-- The stores of POC/RAWSOCK/main.c before the checksums.
use benker_vpn.Base.{ℕ, ◌^◌, ◌≤◌, ◌<◌, ◌≡◌, ◌⊎◌, arith, refl, ◌∙◌}
use benker_vpn.Packet.{
  Buffer, IsBytes, get16, protocol, seq, ack_seq, saddr, daddr, put8, put32, source, dest, doff,
  put16,
}
use benker_vpn.Packet.Bytes.{
  put8-IsBytes, put32-IsBytes, put16-IsBytes, put16_outside, put32_outside,
}
use benker_vpn.Reset.{set_flag}
use benker_vpn.Poc.RawSock.{test_packet_fields, test_segment_fields}

pub test_packet_fields-IsBytes :
    {b : Buffer} (s d : ℕ) → IsBytes b → IsBytes (test_packet_fields b s d)
unfolding test_packet_fields
test_packet_fields-IsBytes s d h j = ground (arith, h j)

set_flag-IsBytes : {b : Buffer} (tcp weight v : ℕ) → IsBytes b → IsBytes (set_flag b tcp weight v)
unfolding set_flag
set_flag-IsBytes tcp weight v h = put8-IsBytes _ _ h

pub test_segment_fields-IsBytes : {b : Buffer} → IsBytes b → IsBytes (test_segment_fields b 20)
unfolding test_segment_fields
test_segment_fields-IsBytes {b} h =
    let h₁ = put16-IsBytes 22 80 (put16-IsBytes 20 8080 h) in
    let h₃ = put8-IsBytes 32 _ (put32-IsBytes 28 0 (put32-IsBytes 24 123 h₁)) in
    let h₄ =
      set_flag-IsBytes 20 16 0
        (set_flag-IsBytes 20 32 0 (set_flag-IsBytes 20 64 0 (set_flag-IsBytes 20 128 0 h₃))) in
    let h₅ =
      set_flag-IsBytes 20 1 0
        (set_flag-IsBytes 20 2 0 (set_flag-IsBytes 20 4 0 (set_flag-IsBytes 20 8 0 h₄))) in
    put16-IsBytes 38 0 (put16-IsBytes 36 0 (put16-IsBytes 34 24754 (put8-IsBytes 32 _ h₅)))

-- The IP header, but for its checksum.
pub record TestIp (b r : Buffer) (s d : ℕ) : Type 0 where
  pub version : r 0 ≡ 69
  pub length : get16 r 2 ≡ 41
  pub tos : r 1 ≡ 0
  pub id : get16 r 4 ≡ 0x65dc
  pub frag_off : get16 r 6 ≡ 0x4000
  pub ttl : r 8 ≡ 64
  pub protocol_tcp : protocol r ≡ 6
  pub cleared : get16 r 10 ≡ 0
  pub from : saddr r ≡ s
  pub to : daddr r ≡ d
  pub rest : (j : ℕ) → 20 ≤ j → r j ≡ b j

pub test_packet_fields_lem :
    (b : Buffer) (s d : ℕ)
    → IsBytes b
    → s < 2 ^ 32
    → d < 2 ^ 32
    → TestIp b (test_packet_fields b s d) s d
unfolding test_packet_fields
test_packet_fields_lem b s d h s_fits d_fits = record {
  version = omega (arith, h 0);
  length = omega arith;
  tos = omega arith;
  id = omega arith;
  frag_off = omega arith;
  ttl = omega arith;
  protocol_tcp = omega arith;
  cleared = omega arith;
  from = omega arith;
  to = omega arith;
  rest = λ j p. ground arith;
}

-- Only bytes of the TCP header have been written.
abbrev pub Keeps : Buffer → Buffer → Type 0
Keeps b c = (j : ℕ) → (j < 20) ⊎ (40 ≤ j) → c j ≡ b j

put8-Keeps : {b c : Buffer} (i v : ℕ) → 20 ≤ i → i < 40 → Keeps b c → Keeps b (put8 c i v)
unfolding put8
put8-Keeps i v low high k j h = ground (arith, k j h)

put16-Keeps : {b c : Buffer} (i v : ℕ) → 20 ≤ i → i < 39 → Keeps b c → Keeps b (put16 c i v)
put16-Keeps {c} i v low high k j h = put16_outside c i v j (omega arith) ∙ k j h

put32-Keeps : {b c : Buffer} (i v : ℕ) → 20 ≤ i → i < 37 → Keeps b c → Keeps b (put32 c i v)
put32-Keeps {c} i v low high k j h = put32_outside c i v j (omega arith) ∙ k j h

set_flag-Keeps : {b c : Buffer} (weight v : ℕ) → Keeps b c → Keeps b (set_flag c 20 weight v)
unfolding set_flag
set_flag-Keeps weight v k = put8-Keeps 33 _ (omega arith) (omega arith) k

pub test_segment_fields-Keeps : (b : Buffer) → Keeps b (test_segment_fields b 20)
unfolding test_segment_fields
test_segment_fields-Keeps b =
    let start : Keeps b b = λ j h. refl in
    let k₁ =
      put16-Keeps 22 80 (omega arith) (omega arith)
        (put16-Keeps 20 8080 (omega arith) (omega arith) start) in
    let k₂ =
      put32-Keeps 28 0 (omega arith) (omega arith)
        (put32-Keeps 24 123 (omega arith) (omega arith) k₁) in
    let k₃ : Keeps b _ = put8-Keeps 32 _ (omega arith) (omega arith) k₂ in
    let k₄ =
      set_flag-Keeps 16 0 (set_flag-Keeps 32 0 (set_flag-Keeps 64 0 (set_flag-Keeps 128 0 k₃))) in
    let k₅ = set_flag-Keeps 1 0 (set_flag-Keeps 2 0 (set_flag-Keeps 4 0 (set_flag-Keeps 8 0 k₄))) in
    let k₆ = put8-Keeps 32 _ (omega arith) (omega arith) k₅ in
    put16-Keeps 38 0 (omega arith) (omega arith) (
      put16-Keeps 36 0 (omega arith) (omega arith)
        (put16-Keeps 34 24754 (omega arith) (omega arith) k₆))

-- The TCP header, but for its checksum.
pub record TestTcp (b r : Buffer) : Type 0 where
  pub from_port : source r 20 ≡ 8080
  pub to_port : dest r 20 ≡ 80
  pub seq_number : seq r 20 ≡ 123
  pub third : r 26 ≡ 0
  pub ack_number : ack_seq r 20 ≡ 0
  pub header_len : doff r 20 ≡ 5
  pub flags : r 33 ≡ 0
  pub window : get16 r 34 ≡ 24754
  pub urg_ptr : get16 r 38 ≡ 0
  pub cleared : get16 r 36 ≡ 0
  pub rest : Keeps b r

pub test_segment_fields_lem : (b : Buffer) → IsBytes b → TestTcp b (test_segment_fields b 20)
unfolding test_segment_fields
test_segment_fields_lem b h = record {
  from_port = omega arith;
  to_port = omega arith;
  seq_number = omega arith;
  third = omega arith;
  ack_number = omega arith;
  header_len = omega (arith, h 32);
  flags = omega (arith, h 33);
  window = omega arith;
  urg_ptr = omega arith;
  cleared = omega arith;
  rest = test_segment_fields-Keeps b;
}
