-- ===== src/Hex.antt =====
-- Packets as hexadecimal digits: `decode_to_bytes` of src/server/main_trial.c, on the codes of two
-- characters, the loops of its `main5` that load such a text, and the loops that print a packet.
pub mod Laws
use benker_vpn.Base.{
  ℕ, zero, suc, ◌+◌, ◌-◌, ◌*◌, ◌/◌, ◌%◌, List, [], ◌∷◌, leb, ltb, ◌&&◌, if◌then◌else◌, u8,
}
use benker_vpn.Packet.{Buffer, put8}

-- The `switch`: '0' to '9', 'a' to 'f', and nothing for any other character.
unfoldable pub hex_value : ℕ → ℕ
hex_value c = if leb 48 c && leb c 57 then c - 48 else if leb 97 c && leb c 102 then c - 87 else 0

unfoldable pub decode_to_bytes : ℕ → ℕ → ℕ
unfolding hex_value
decode_to_bytes high low = u8 (u8 (u8 (hex_value high) * 16) + hex_value low)

-- `for (i=0; i<strlen(packet)/2; i++) { buffer[i] = decode_to_bytes(pos); pos += 2; }`, from `i` on; the
-- text is the codes of its characters.
unfoldable pub load_packet : Buffer → (i : ℕ) → List ℕ → Buffer
unfolding decode_to_bytes put8
load_packet b i [] = b
load_packet b i (c ∷ []) = b
load_packet b i (c ∷ c' ∷ text) = load_packet (put8 b i (decode_to_bytes c c')) (i + 1) text

-- The digit that `%02x` prints for a number below 16.
unfoldable pub hex_digit : ℕ → ℕ
hex_digit n = if ltb n 10 then n + 48 else n + 87

-- `for (i=0; i<n; ++i) printf("%02x", buf[i]);` for `uint8_t buf[]`, from `i` on.
unfoldable pub print_bytes : Buffer → (i n : ℕ) → List ℕ
unfolding hex_digit
print_bytes b i zero = []
print_bytes b i (suc n) = hex_digit (b i / 16) ∷ hex_digit (b i % 16) ∷ print_bytes b (i + 1) n

-- The same for `char buf[]`: a byte of 128 or more is printed as a negative `int`, with six digits 'f'
-- in front. `char` is signed on the hosts for which the program is built.
unfoldable pub print_chars : Buffer → (i n : ℕ) → List ℕ
unfolding hex_digit
print_chars b i zero = []
print_chars b i (suc n) =
    let digits = hex_digit (b i / 16) ∷ hex_digit (b i % 16) ∷ print_chars b (i + 1) n in
    if ltb (b i) 128 then digits else 102 ∷ 102 ∷ 102 ∷ 102 ∷ 102 ∷ 102 ∷ digits
