-- ===== src/Hex/Laws.antt =====
-- Printing a packet and loading it again.
use benker_vpn.Base.{
  ℕ, zero, suc, ◌+◌, ◌/◌, ◌%◌, ◌≤◌, ◌<◌, ◌≡◌, refl, arith, ltb, leb, ◌&&◌, if◌then◌else◌,
}
use benker_vpn.Packet.{Buffer, IsBytes, put8}
use benker_vpn.Hex.{hex_value, decode_to_bytes, hex_digit, load_packet, print_bytes, print_chars}

-- `decode_to_bytes` reads back the two hexadecimal digits of every number below 256.
pub decode_to_bytes-hex_digit :
    (n : ℕ) → n < 256 → decode_to_bytes (hex_digit (n / 16)) (hex_digit (n % 16)) ≡ n
unfolding decode_to_bytes hex_value hex_digit
decode_to_bytes-hex_digit n h = ground arith

-- From a buffer of bytes: loading what `printf` has printed of `n` bytes from `i` on stores these bytes
-- there, in any other buffer, and changes no other byte of this.
pub load_packet-print_bytes :
    (b : Buffer)
    → IsBytes b
    → (into : Buffer) (i n j : ℕ)
    → load_packet into i (print_bytes b i n) j ≡ (if leb i j && ltb j (i + n) then b j else into j)
unfolding load_packet print_bytes
load_packet-print_bytes b h into i zero j = ground arith
load_packet-print_bytes b h into i (suc n) j =
    let e = decode_to_bytes-hex_digit (b i) (h i) in
    ground (
      arith,
      e,
      h i,
      load_packet-print_bytes b h
          (put8 into i (decode_to_bytes (hex_digit (b i / 16)) (hex_digit (b i % 16)))) (i + 1) n j,
    )

-- The text of `char buf[]` is that of `uint8_t buf[]` if none of the
-- bytes is 128 or more.
pub print_chars_lem :
    (b : Buffer) (i n : ℕ)
    → ((j : ℕ) → i ≤ j → j < i + n → b j < 128)
    → print_chars b i n ≡ print_bytes b i n
unfolding print_chars print_bytes
print_chars_lem b i zero h = refl
print_chars_lem b i (suc n) h =
    ground (arith, h i, print_chars_lem b (i + 1) n (λ j p q. h j (omega arith) (omega arith)))
