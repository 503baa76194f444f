-- ===== src/Rewrite/Ip.antt =====
-- `replace_src_ip` and `replace_dst_ip` of src/lib/protocol_headers.c.
use benker_vpn.Base.{ℕ, ◌+◌, ◌^◌, ◌≤◌, ◌<◌, ◌≡◌, arith, inr, ◌⊎◌, ◌∙◌}
use benker_vpn.Packet.{Buffer, IsBytes, get32, put16, put32, ihl}
use benker_vpn.Packet.Bytes.{
  get16-put16, put16_outside, get32-put32, put32_outside, put16-IsBytes, put32-IsBytes,
}
use benker_vpn.Checksum.{ip_csum}
use benker_vpn.Checksum.Ip.{ip_csum_stored}
use benker_vpn.Rewrite.{replace_src_ip, replace_dst_ip}

-- `r` is `b` with the address `ip` at the offset `at` and a checksum that is right.
pub record IsReaddressed (at ip : ℕ) (b r : Buffer) : Type 0 where
  pub bytes : IsBytes r
  pub address : get32 r at ≡ ip
  pub outside : (j : ℕ) → (j < 10) ⊎ (12 ≤ j) → (j < at) ⊎ (at + 4 ≤ j) → r j ≡ b j
  pub checksum : ip_csum r ≡ 0

readdress-IsReaddressed :
    (b : Buffer) (at ip : ℕ)
    → IsBytes b
    → 5 ≤ ihl b
    → 12 ≤ at
    → ip < 2 ^ 32
    → let named = put32 (put16 b 10 0) at ip in
      IsReaddressed at ip b (put16 named 10 (ip_csum named))
readdress-IsReaddressed b at ip h long high fits =
    let cleared = put16 b 10 0 in
    let named = put32 cleared at ip in
    let h' : IsBytes named = put32-IsBytes at ip (put16-IsBytes 10 0 h) in
    let r = put16 named 10 (ip_csum named) in
    let kept = λ (j : ℕ) (p : (j < 10) ⊎ (12 ≤ j)) (q : (j < at) ⊎ (at + 4 ≤ j)).
      put16_outside named 10 (ip_csum named) j p
      ∙ (put32_outside cleared at ip j q ∙ put16_outside b 10 0 j p) in
    let later = λ (j : ℕ) (p : (j < 10) ⊎ (12 ≤ j)). put16_outside named 10 (ip_csum named) j p in
    record {
      bytes = put16-IsBytes 10 (ip_csum named) h';
      address = omega (
        arith,
        get32-put32 cleared at ip,
        later at (inr high),
        later (at + 1) (omega arith),
        later (at + 2) (omega arith),
        later (at + 2 + 1) (omega arith),
      );
      outside = kept;
      checksum =
          ip_csum_stored named h'
            (omega (
              arith,
              get16-put16 b 10 0,
              put32_outside cleared at ip 10 (omega arith),
              put32_outside cleared at ip 11 (omega arith),
            ))
            (omega (
              arith,
              put32_outside cleared at ip 0 (omega arith),
              put16_outside b 10 0 0 (omega arith),
            ));
    }

module _ (b : Buffer) (ip : ℕ) (h : IsBytes b) (long : 5 ≤ ihl b) (fits : ip < 2 ^ 32) where
  -- On a header of 5 words at least, the source address is replaced, the header's checksum comes
  -- out right, and no byte but those of the two fields changes.
  pub replace_src_ip-IsReaddressed : IsReaddressed 12 ip b (replace_src_ip b ip)
  unfolding replace_src_ip
  replace_src_ip-IsReaddressed = readdress-IsReaddressed b 12 ip h long (omega arith) fits

  -- On a header of 5 words at least, the destination address is replaced, the header's checksum
  -- comes out right, and no byte but those of the two fields changes.
  pub replace_dst_ip-IsReaddressed : IsReaddressed 16 ip b (replace_dst_ip b ip)
  unfolding replace_dst_ip
  replace_dst_ip-IsReaddressed = readdress-IsReaddressed b 16 ip h long (omega arith) fits
