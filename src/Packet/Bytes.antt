-- ===== src/Packet/Bytes.antt =====
-- Reading what was written to a buffer of src/lib/protocol_headers.c.
use benker_vpn.Base.{ℕ, zero, suc, ◌+◌, ◌^◌, ◌/◌, ◌%◌, ◌≤◌, ◌<◌, ◌≡◌, ◌⊎◌, arith}
use benker_vpn.Packet.{Buffer, IsBytes, put8, get16, put16, get32, put32, memcpy}

pub put8-IsBytes : {b : Buffer} (i v : ℕ) → IsBytes b → IsBytes (put8 b i v)
unfolding put8
put8-IsBytes i v h j = ground (arith, h j)

pub put16-IsBytes : {b : Buffer} (i v : ℕ) → IsBytes b → IsBytes (put16 b i v)
unfolding put16
put16-IsBytes i v h = put8-IsBytes (i + 1) v (put8-IsBytes i (v / 256) h)

pub put32-IsBytes : {b : Buffer} (i v : ℕ) → IsBytes b → IsBytes (put32 b i v)
unfolding put32
put32-IsBytes i v h = put16-IsBytes (i + 2) v (put16-IsBytes i (v / 65536) h)

pub memcpy-IsBytes :
    (b : Buffer) (d : ℕ) (src : Buffer) (s n : ℕ) → IsBytes b → IsBytes (memcpy b d src s n)
unfolding memcpy
memcpy-IsBytes b d src s zero h = h
memcpy-IsBytes b d src s (suc n) h =
    memcpy-IsBytes (put8 b d (src s)) (d + 1) src (s + 1) n (put8-IsBytes d (src s) h)

module _ (b : Buffer) (i v : ℕ) where
  pub get16-put16 : get16 (put16 b i v) i ≡ v % 65536
  unfolding put16
  get16-put16 = ground arith

  pub put16_outside : (j : ℕ) → (j < i) ⊎ (i + 2 ≤ j) → put16 b i v j ≡ b j
  unfolding put16
  put16_outside j h = ground arith

  pub get32-put32 : get32 (put32 b i v) i ≡ v % 4294967296
  unfolding put32
  get32-put32 = ground arith

  pub put32_outside : (j : ℕ) → (j < i) ⊎ (i + 4 ≤ j) → put32 b i v j ≡ b j
  unfolding put32
  put32_outside j h = ground arith

-- The numbers in a packet of bytes.
pub get32-lt : (b : Buffer) → IsBytes b → (i : ℕ) → get32 b i < 2 ^ 32
get32-lt b h i = omega (arith, h i, h (i + 1), h (i + 2), h (i + 2 + 1))

pub get16-lt : (b : Buffer) → IsBytes b → (i : ℕ) → get16 b i < 2 ^ 16
get16-lt b h i = omega (arith, h i, h (i + 1))
