-- ===== src/Checksum/Tcp.antt =====
-- The checksum of the TCP segment, of src/lib/protocol_headers.c.
use benker_vpn.Base.{
  ℕ, ◌+◌, ◌-◌, ◌*◌, ◌≤◌, ◌<◌, ◌≡◌, arith, refl, ap, ◌∙◌, if◌then◌else◌, ltb, zero, suc, inl, ◌⊎◌,
}
use benker_vpn.Packet.{Buffer, IsBytes, get16, put16, doff}
use benker_vpn.Packet.Bytes.{put16_outside, put16-IsBytes}
use benker_vpn.Checksum.{tcp_csum, summing, pseudo_header, segment_len, tcp_data_bytes}
use benker_vpn.Checksum.Sum.{
  word_sum, ones_sum, word_sum-le, summing-ones_sum, word_sum-congr, word_sum-put16, ones_sum-add,
  ones_sum-complement, ones_sum-le,
}

-- The words of the pseudo header: the addresses, the protocol and the length of the segment.
pub pseudo_sum : Buffer → ℕ
pseudo_sum b = get16 b 12 + get16 b 14 + (get16 b 16 + get16 b 18) + (6 + segment_len b)

word_sum-pseudo_header : (b : Buffer) → IsBytes b → word_sum (pseudo_header b) 0 12 ≡ pseudo_sum b
unfolding word_sum pseudo_header pseudo_sum
word_sum-pseudo_header b h = omega (arith, h 12, h 13, h 14, h 15, h 16, h 17, h 18, h 19)

-- The exact sum of all words that the checksum covers.
pub segment_sum : Buffer → ℕ → ℕ → ℕ
segment_sum b tcp tcp_data =
    pseudo_sum b + word_sum b tcp (doff b tcp * 4) + word_sum b tcp_data (tcp_data_bytes b tcp)

pseudo_sum-lt : (b : Buffer) → IsBytes b → pseudo_sum b < 1000000
unfolding pseudo_sum
pseudo_sum-lt b h = omega (arith, h 12, h 13, h 14, h 15, h 16, h 17, h 18, h 19)

summing_pseudo :
    (b : Buffer) → IsBytes b → summing (pseudo_header b) 0 12 0 ≡ ones_sum (pseudo_sum b)
summing_pseudo b h =
    let e = word_sum-pseudo_header b h in
    ground (arith, summing-ones_sum (pseudo_header b) 0 12 0, pseudo_sum-lt b h)

-- A stage of the sum that starts from the result of the stage before it.
summing_next :
    (b : Buffer) (i n s : ℕ)
    → IsBytes b
    → n ≤ 65535
    → summing b i n (ones_sum s) ≡ ones_sum (s + word_sum b i n)
summing_next b i n s h small =
    summing-ones_sum b i n (ones_sum s) (omega (arith, ones_sum-le s, word_sum-le b i n h))
    ∙ ones_sum-add s (word_sum b i n)

summing_rest :
    (b : Buffer) (i n s : ℕ)
    → IsBytes b
    → n ≤ 65535
    → (if ltb 0 n then summing b i n (ones_sum s) else ones_sum s) ≡ ones_sum (s + word_sum b i n)
unfolding word_sum
summing_rest b i zero s h small = ap ones_sum (omega arith)
summing_rest b i (suc n) s h small = ground (arith, summing_next b i (suc n) s h small)

pub tcp_csum-ones_sum :
    (b : Buffer) (tcp tcp_data : ℕ)
    → IsBytes b
    → tcp_csum b tcp tcp_data ≡ 65535 - ones_sum (segment_sum b tcp tcp_data)
unfolding tcp_csum segment_sum
tcp_csum-ones_sum b tcp tcp_data h =
    let n = doff b tcp * 4 in
    let m = tcp_data_bytes b tcp in
    rw
      (
        summing_pseudo b h,
        summing_next b tcp n (pseudo_sum b) h (omega (arith, h (tcp + 12))),
        summing_rest b tcp_data m (pseudo_sum b + word_sum b tcp n) h (omega (arith, h 2, h 3)),
      )
      refl

pub tcp_csum-le : (b : Buffer) (tcp tcp_data : ℕ) → tcp_csum b tcp tcp_data ≤ 65535
unfolding tcp_csum
tcp_csum-le b tcp tcp_data = omega arith

pub pseudo_sum-congr :
    (f g : Buffer)
    → ((j : ℕ) → j < 20 → (j < 4) ⊎ (12 ≤ j) → f j ≡ g j)
    → pseudo_sum f ≡ pseudo_sum g
unfolding pseudo_sum
pseudo_sum-congr f g o = omega (
  arith,
  o 0 (omega arith) (omega arith),
  o 2 (omega arith) (omega arith),
  o 3 (omega arith) (omega arith),
  o 12 (omega arith) (omega arith),
  o 13 (omega arith) (omega arith),
  o 14 (omega arith) (omega arith),
  o 15 (omega arith) (omega arith),
  o 16 (omega arith) (omega arith),
  o 17 (omega arith) (omega arith),
  o 18 (omega arith) (omega arith),
  o 19 (omega arith) (omega arith),
)

pub segment_sum-put16 :
    (b : Buffer) (tcp tcp_data c : ℕ)
    → 20 ≤ tcp
    → 5 ≤ doff b tcp
    → (tcp + 18 ≤ tcp_data) ⊎ (tcp_data_bytes b tcp ≡ 0)
    → c ≤ 65535
    → segment_sum (put16 b (tcp + 16) c) tcp tcp_data + get16 b (tcp + 16)
      ≡ segment_sum b tcp tcp_data + c
unfolding segment_sum
segment_sum-put16 b tcp tcp_data c low long apart small =
    let b' = put16 b (tcp + 16) c in
    let n = doff b tcp * 4 in
    let m = tcp_data_bytes b tcp in
    let below = λ (j : ℕ) (h : j < tcp + 16). put16_outside b (tcp + 16) c j (inl h) in
    let first = below 0 (omega arith) in
    let high = below 2 (omega arith) in
    let low' = below 3 (omega arith) in
    let offset = below (tcp + 12) (omega arith) in
    let same_n : doff b' tcp * 4 ≡ n = omega arith in
    let same_m : tcp_data_bytes b' tcp ≡ m = omega arith in
    let pseudo = pseudo_sum-congr b' b (λ j h _. below j (omega arith)) in
    let header = word_sum-put16 b c 8 tcp (tcp + 16) n refl (omega arith) (omega arith) in
    let body : word_sum b' tcp_data m ≡ word_sum b tcp_data m =
      word_sum-congr b' b tcp_data m (λ j lo hi. put16_outside b (tcp + 16) c j (omega arith)) in
    rw (same_m, same_n) (omega arith)

-- `check = 0` has been stored; storing the checksum makes the sum of the segment come out right.
pub tcp_csum_stored :
    (b : Buffer) (tcp tcp_data : ℕ)
    → IsBytes b
    → get16 b (tcp + 16) ≡ 0
    → 20 ≤ tcp
    → 5 ≤ doff b tcp
    → (tcp + 18 ≤ tcp_data) ⊎ (tcp_data_bytes b tcp ≡ 0)
    → tcp_csum (put16 b (tcp + 16) (tcp_csum b tcp tcp_data)) tcp tcp_data ≡ 0
tcp_csum_stored b tcp tcp_data h cleared low long apart =
    let c = tcp_csum b tcp tcp_data in
    let s = segment_sum b tcp tcp_data in
    let b' = put16 b (tcp + 16) c in
    let value = tcp_csum-ones_sum b tcp tcp_data h in
    let sums = segment_sum-put16 b tcp tcp_data c low long apart (tcp_csum-le b tcp tcp_data) in
    let total : segment_sum b' tcp tcp_data ≡ s + (65535 - ones_sum s) = omega arith in
    tcp_csum-ones_sum b' tcp tcp_data (put16-IsBytes (tcp + 16) c h)
    ∙ rw (total, ones_sum-complement s)

-- A segment with one byte of data: what is summed where the data is looked for at `tcp_data`, and holds
-- 0 there, and at `place`.
pub segment_sum_moved :
    (b : Buffer) (tcp tcp_data place : ℕ)
    → tcp_data_bytes b tcp ≡ 1
    → b tcp_data ≡ 0
    → segment_sum b tcp place ≡ segment_sum b tcp tcp_data + b place * 256
unfolding segment_sum word_sum
segment_sum_moved b tcp tcp_data place one empty = rw one (omega arith)
