-- ===== src/Checksum.antt =====
-- The Internet checksum: `summing`, `ip_csum` and `tcp_csum` of src/lib/protocol_headers.c.
pub mod Sum
pub mod Ip
pub mod Tcp
use benker_vpn.Base.{ℕ, zero, suc, ◌+◌, ◌-◌, ◌*◌, ◌/◌, ◌^◌, ltb, if◌then◌else◌, u16, u32, leb}
use benker_vpn.Packet.{Buffer, put8, put16, memcpy, ip_header_len, tot_len, doff}

-- `while (bytes > 1)` and the odd byte after it: `buffer` is read from `i` on. The sum is a
-- `uint32_t`, which wraps. A negative `bytes` is 0 here, since no loop runs on it.
sum_words : Buffer → ℕ → ℕ → ℕ → ℕ
sum_words b i zero sum = sum
sum_words b i (suc zero) sum = u32 (sum + b i * 256)
sum_words b i (suc (suc bytes)) sum =
    sum_words b (i + 2) bytes (u32 (u32 (sum + b i * 256) + b (i + 1)))

-- `while (1)`: the carries are added in until the sum fits 16 bits.
fold_carries : ℕ → ℕ → ℕ
fold_carries zero sum = sum
fold_carries (suc fuel) sum =
    let rest = fold_carries fuel (u32 (sum / 2 ^ 16 + u16 sum)) in
    if leb sum 0xffff then sum else rest

-- A 32-bit sum takes two rounds at most.
abbrev fold_fuel : ℕ
fold_fuel = 2

unfoldable pub summing : Buffer → ℕ → ℕ → ℕ → ℕ
unfolding sum_words fold_carries
summing b i bytes sum = u16 (fold_carries fold_fuel (sum_words b i bytes sum))

-- `~sum` as a `uint16_t`.
unfoldable pub ip_csum : Buffer → ℕ
ip_csum b = 65535 - summing b 0 (ip_header_len b) 0

-- `htons(tcp_header->doff*4 + tcp_data_bytes)`: the difference wraps in 16 bits.
abbrev pub segment_len : Buffer → ℕ
segment_len b = u16 (tot_len b + 2 ^ 16 - ip_header_len b)

-- `memset`, two `memcpy`, the protocol number and the length of the segment.
unfoldable pub pseudo_header : Buffer → Buffer
unfolding memcpy put16
pseudo_header b =
    let zeroed : Buffer = λ _. 0 in
    let addresses = memcpy (memcpy zeroed 0 b 12 4) 4 b 16 4 in
    put16 (put8 addresses 9 6) 10 (segment_len b)

-- `tcp_data_bytes`; a negative value is 0 here, and then `tcp_data_bytes > 0` is false as well.
abbrev pub tcp_data_bytes : Buffer → ℕ → ℕ
tcp_data_bytes b tcp = tot_len b - ip_header_len b - doff b tcp * 4

unfoldable pub tcp_csum : Buffer → ℕ → ℕ → ℕ
tcp_csum b tcp tcp_data =
    let pseudo = summing (pseudo_header b) 0 12 0 in
    let header = summing b tcp (doff b tcp * 4) pseudo in
    let bytes = tcp_data_bytes b tcp in
    65535 - (if ltb 0 bytes then summing b tcp_data bytes header else header)
