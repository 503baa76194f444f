-- ===== src/Packet.antt =====
-- A packet buffer and the header fields that the code reaches through `struct iphdr*` and
-- `struct tcphdr*`: src/lib/protocol_headers.c. A pointer into the buffer is an offset.
pub mod Bytes
use benker_vpn.Base.{ℕ, zero, suc, ◌+◌, ◌-◌, ◌*◌, ◌/◌, ◌%◌, ◌<◌, Bool, ◌==◌, if◌then◌else◌}

-- The bytes at the offsets of a buffer. The program's buffers have 9000 bytes.
abbrev pub Buffer : Type 0
Buffer = ℕ → ℕ

abbrev pub IsBytes : Buffer → Type 0
IsBytes b = (i : ℕ) → b i < 256

-- `b[i] = v` for a `uint8_t` array.
unfoldable pub put8 : Buffer → ℕ → ℕ → Buffer
put8 b i v = λ j. if i == j then v % 256 else b j

-- A 16-bit field in network order: `ntohs(field)` and `field = htons(v)`.
abbrev pub get16 : Buffer → ℕ → ℕ
get16 b i = b i * 256 + b (i + 1)

unfoldable pub put16 : Buffer → ℕ → ℕ → Buffer
unfolding put8
put16 b i v = put8 (put8 b i (v / 256)) (i + 1) v

-- A 32-bit field in network order: `ntohl(field)` and `field = htonl(v)`.
abbrev pub get32 : Buffer → ℕ → ℕ
get32 b i = get16 b i * 65536 + get16 b (i + 2)

unfoldable pub put32 : Buffer → ℕ → ℕ → Buffer
unfolding put16
put32 b i v = put16 (put16 b i (v / 65536)) (i + 2) v

-- `memcpy(dst + d, src + s, n)` for arrays that do not overlap.
unfoldable pub memcpy : Buffer → ℕ → Buffer → ℕ → ℕ → Buffer
unfolding put8
memcpy dst d src s zero = dst
memcpy dst d src s (suc n) = memcpy (put8 dst d (src s)) (d + 1) src (s + 1) n

-- `struct iphdr`: the low four bits of the first byte are the header length in words.
abbrev pub ihl : Buffer → ℕ
ihl b = b 0 % 16

abbrev pub ip_header_len : Buffer → ℕ
ip_header_len b = ihl b * 4

abbrev pub tot_len : Buffer → ℕ
tot_len b = get16 b 2

abbrev pub protocol : Buffer → ℕ
protocol b = b 9

abbrev pub saddr : Buffer → ℕ
saddr b = get32 b 12

abbrev pub daddr : Buffer → ℕ
daddr b = get32 b 16

-- `struct tcphdr`, at the offset `tcp`.
abbrev pub source : Buffer → ℕ → ℕ
source b tcp = get16 b tcp

abbrev pub dest : Buffer → ℕ → ℕ
dest b tcp = get16 b (tcp + 2)

abbrev pub seq : Buffer → ℕ → ℕ
seq b tcp = get32 b (tcp + 4)

abbrev pub ack_seq : Buffer → ℕ → ℕ
ack_seq b tcp = get32 b (tcp + 8)

-- The header length in words: the high four bits of the byte at 12.
abbrev pub doff : Buffer → ℕ → ℕ
doff b tcp = b (tcp + 12) / 16

-- The flag at bit `k` of the byte at 13: 0 is `fin`, 1 `syn`, 2 `rst`, 3 `psh`, 4 `ack`, 5 `urg`,
-- 6 `ece`, 7 `cwr`.
abbrev pub flag : Buffer → ℕ → ℕ → Bool
flag b tcp weight = (b (tcp + 13) / weight % 2) == 1

abbrev pub fin_bit : ℕ
fin_bit = 1

abbrev pub syn_bit : ℕ
syn_bit = 2

abbrev pub rst_bit : ℕ
rst_bit = 4

abbrev pub ack_bit : ℕ
ack_bit = 16
