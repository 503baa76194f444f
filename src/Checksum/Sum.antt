-- ===== src/Checksum/Sum.antt =====
-- What `summing` of src/lib/protocol_headers.c computes: a one's complement sum of 16-bit words.
use benker_vpn.Base.{
  ℕ, zero, suc, ◌+◌, ◌-◌, ◌*◌, ◌%◌, ◌^◌, ◌≤◌, ◌<◌, ◌≡◌, inl, inr, refl, arith, u32, ◌==◌,
  if◌then◌else◌,
}
use benker_vpn.Packet.{Buffer, IsBytes, get16, put16}
use benker_vpn.Packet.Bytes.{get16-put16, put16_outside}
use benker_vpn.Checksum.{sum_words, fold_carries, fold_fuel, summing}

-- The exact sum of the words of `bytes` bytes from `i` on; an odd last byte is a high byte.
unfoldable pub word_sum : Buffer → ℕ → ℕ → ℕ
word_sum b i zero = 0
word_sum b i (suc zero) = b i * 256
word_sum b i (suc (suc bytes)) = get16 b i + word_sum b (i + 2) bytes

-- The one's complement representative of a sum: 0 for 0 only, else within 1 .. 65535.
unfoldable pub ones_sum : ℕ → ℕ
ones_sum s = if s == 0 then 0 else (s - 1) % 65535 + 1

pub word_sum-le : (b : Buffer) (i n : ℕ) → IsBytes b → 2 * word_sum b i n ≤ (n + 1) * 65535
unfolding word_sum
word_sum-le b i zero h = omega arith
word_sum-le b i (suc zero) h = omega (arith, h i)
word_sum-le b i (suc (suc n)) h = omega (arith, h i, h (i + 1), word_sum-le b (i + 2) n h)

sum_words-word_sum :
    (b : Buffer) (i n s : ℕ) → s + word_sum b i n < 2 ^ 32 → sum_words b i n s ≡ s + word_sum b i n
unfolding sum_words word_sum
sum_words-word_sum b i zero s h = omega arith
sum_words-word_sum b i (suc zero) s h = omega arith
sum_words-word_sum b i (suc (suc n)) s h =
    let e : u32 (u32 (s + b i * 256) + b (i + 1)) ≡ s + get16 b i = omega arith in
    rw e (omega (arith, sum_words-word_sum b (i + 2) n (s + get16 b i) (omega arith)))

fold_carries-ones_sum : (s : ℕ) → s < 2 ^ 32 → fold_carries fold_fuel s ≡ ones_sum s
unfolding fold_carries ones_sum
fold_carries-ones_sum s h = ground arith

-- Where the 32-bit sum does not overflow, `summing` is the one's complement sum of `sum` and of the
-- big-endian words in the bytes: 0 for the sum 0, else the value in 1 .. 65535 modulo 65535.
pub summing-ones_sum :
    (b : Buffer) (i n s : ℕ)
    → s + word_sum b i n < 2 ^ 32
    → summing b i n s ≡ ones_sum (s + word_sum b i n)
unfolding summing ones_sum
summing-ones_sum b i n s h =
    rw (sum_words-word_sum b i n s h, fold_carries-ones_sum (s + word_sum b i n) h) (ground arith)

pub ones_sum-add : (s t : ℕ) → ones_sum (ones_sum s + t) ≡ ones_sum (s + t)
unfolding ones_sum
ones_sum-add s t = ground arith

pub ones_sum-le : (s : ℕ) → ones_sum s ≤ 65535
unfolding ones_sum
ones_sum-le s = ground arith

-- A sum that gets its own complement added has all bits set.
pub ones_sum-complement : (s : ℕ) → ones_sum (s + (65535 - ones_sum s)) ≡ 65535
unfolding ones_sum
ones_sum-complement s = ground arith

pub word_sum-congr :
    (f g : Buffer) (i n : ℕ)
    → ((j : ℕ) → i ≤ j → j < i + n → f j ≡ g j)
    → word_sum f i n ≡ word_sum g i n
unfolding word_sum
word_sum-congr f g i zero h = refl
word_sum-congr f g i (suc zero) h = omega (arith, h i (omega arith) (omega arith))
word_sum-congr f g i (suc (suc n)) h = omega (
  arith,
  h i (omega arith) (omega arith),
  h (i + 1) (omega arith) (omega arith),
  word_sum-congr f g (i + 2) n (λ j lo hi. h j (omega arith) (omega arith)),
)

-- A 16-bit store at an even distance changes the sum by what it changes the word.
pub word_sum-put16 :
    (b : Buffer) (v k i c n : ℕ)
    → c ≡ i + (k + k)
    → v < 65536
    → k + k + 2 ≤ n
    → word_sum (put16 b c v) i n + get16 b c ≡ word_sum b i n + v
unfolding word_sum
word_sum-put16 b v k i c zero at hv h = absurd (omega arith)
word_sum-put16 b v k i c (suc zero) at hv h = absurd (omega arith)
word_sum-put16 b v zero i c (suc (suc n)) at hv h =
    let e : i ≡ c = omega arith in
    rw e (
      omega (
        arith,
        get16-put16 b c v,
        word_sum-congr (put16 b c v) b (c + 2) n (λ j lo hi. put16_outside b c v j (inr lo)),
      ))
word_sum-put16 b v (suc k) i c (suc (suc n)) at hv h = omega (
  arith,
  put16_outside b c v i (inl (omega arith)),
  put16_outside b c v (i + 1) (inl (omega arith)),
  word_sum-put16 b v k (i + 2) c n (omega arith) hv (omega arith),
)
