-- ===== src/Checksum/Ip.antt =====
-- The checksum of the IP header, of src/lib/protocol_headers.c.
use benker_vpn.Base.{ℕ, ◌+◌, ◌-◌, ◌≤◌, ◌<◌, ◌≡◌, arith, refl, inl}
use benker_vpn.Packet.{Buffer, IsBytes, get16, put16, ihl, ip_header_len}
use benker_vpn.Packet.Bytes.{put16_outside, put16-IsBytes}
use benker_vpn.Checksum.{ip_csum}
use benker_vpn.Checksum.Sum.{
  word_sum, ones_sum, word_sum-le, summing-ones_sum, word_sum-congr, word_sum-put16,
  ones_sum-complement,
}

pub ip_csum-ones_sum :
    (b : Buffer) → IsBytes b → ip_csum b ≡ 65535 - ones_sum (word_sum b 0 (ip_header_len b))
unfolding ip_csum
ip_csum-ones_sum b h = ground (
  arith,
  summing-ones_sum b 0 (ip_header_len b) 0 (omega (arith, word_sum-le b 0 (ip_header_len b) h)),
)

pub ip_csum-le : (b : Buffer) → ip_csum b ≤ 65535
unfolding ip_csum
ip_csum-le b = omega arith

-- Only the header is read.
pub ip_csum-congr :
    (f g : Buffer)
    → IsBytes f
    → IsBytes g
    → ((j : ℕ) → j < ip_header_len f → f j ≡ g j)
    → f 0 ≡ g 0
    → ip_csum f ≡ ip_csum g
ip_csum-congr f g hf hg same first =
    rw
      (
        ip_csum-ones_sum f hf,
        ip_csum-ones_sum g hg,
        word_sum-congr f g 0 (ip_header_len f) (λ j lo hi. same j (omega arith)),
        first,
      )
      refl

-- `check = 0` has been stored; storing the checksum makes the sum of the header come out right.
pub ip_csum_stored :
    (b : Buffer) → IsBytes b → get16 b 10 ≡ 0 → 5 ≤ ihl b → ip_csum (put16 b 10 (ip_csum b)) ≡ 0
ip_csum_stored b h cleared long =
    let c = ip_csum b in
    let n = ip_header_len b in
    let first : put16 b 10 c 0 ≡ b 0 = put16_outside b 10 c 0 (inl (omega arith)) in
    let stored = ip_csum-ones_sum (put16 b 10 c) (put16-IsBytes 10 c h) in
    let sums = word_sum-put16 b c 5 0 10 n refl (omega (arith, ip_csum-le b)) (omega arith) in
    let total : word_sum (put16 b 10 c) 0 n ≡ word_sum b 0 n + (65535 - ones_sum (word_sum b 0 n)) =
      omega (arith, sums, ip_csum-ones_sum b h) in
    rw (stored, first, total, ones_sum-complement (word_sum b 0 n))
