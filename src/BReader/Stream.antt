-- ===== src/BReader/Stream.antt =====
-- The bit stream that a reader stands for, and what makes a reader's state consistent with it.
use actf.Common.{ℕ, ◌+◌, ◌-◌, ◌*◌, ◌/◌, ◌%◌, ◌≤◌, ◌<◌, ◌≡◌, ap, List, [], ◌∷◌, arith}
use actf.Common.Lists.{length, get_or}
use actf.Common.Bits.{u64_mod, bit, of_bits, bit-le, bit-zero}
use actf.BReader.{ByteOrder, lil_endian, big_endian, BReader}

abbrev pub AreBytes : List ℕ → Type 0
AreBytes [] = Unit {0}
AreBytes (b ∷ bs) = (b < 256) × AreBytes bs

-- Bit i of a byte sequence: from the lowest digit of a byte in little endian, from the highest in
-- big endian. Past the end it is 0.
abbrev pub stream_bit : ByteOrder → List ℕ → ℕ → ℕ
stream_bit lil_endian bytes i = bit (i % 8) (get_or bytes (i / 8) 0)
stream_bit big_endian bytes i = bit (7 - i % 8) (get_or bytes (i / 8) 0)

pub stream_bit-le : (bo : ByteOrder) (bytes : List ℕ) (i : ℕ) → stream_bit bo bytes i ≤ 1
stream_bit-le lil_endian bytes i = bit-le _ _
stream_bit-le big_endian bytes i = bit-le _ _

-- The number that `cnt` bits from bit `i` on stand for: in little endian the first bit is the
-- lowest digit, in big endian it is the highest.
abbrev pub stream_value : ByteOrder → List ℕ → ℕ → ℕ → ℕ
stream_value lil_endian bytes i cnt = of_bits cnt (λ k. stream_bit lil_endian bytes (i + k))
stream_value big_endian bytes i cnt =
    of_bits cnt (λ k. stream_bit big_endian bytes (i + (cnt - 1 - k)))

-- Bit k of the lookahead, in reading order.
abbrev pub ahead_bit : ByteOrder → ℕ → ℕ → ℕ
ahead_bit lil_endian k x = bit k x
ahead_bit big_endian k x = bit (63 - k) x

-- The first lookahead_bit_cnt bits of the lookahead are the stream's next ones. What stands behind
-- them, a rest of the last 64-bit read, has no 1 where the stream has a 0, so that the next refill
-- may OR the same bits in again.
pub record IsValid (br : BReader) : Type 0 where
  pub are_bytes : AreBytes br.bytes
  pub fits : 8 * length br.bytes < u64_mod
  pub inside : br.read_ptr ≤ length br.bytes
  pub counted : br.tot_bit_cnt + br.lookahead_bit_cnt ≡ 8 * br.read_ptr
  pub short : br.lookahead_bit_cnt < 64
  pub word : br.lookahead < u64_mod
  pub exact :
      (k : ℕ)
      → k < br.lookahead_bit_cnt
      → ahead_bit br.bo k br.lookahead ≡ stream_bit br.bo br.bytes (br.tot_bit_cnt + k)
  pub spare :
      (k : ℕ)
      → k < 64
      → ahead_bit br.bo k br.lookahead ≤ stream_bit br.bo br.bytes (br.tot_bit_cnt + k)

ahead_bit-zero : (bo : ByteOrder) (k : ℕ) → ahead_bit bo k 0 ≡ 0
ahead_bit-zero lil_endian k = bit-zero k
ahead_bit-zero big_endian k = bit-zero (63 - k)

-- An empty lookahead is consistent with any position on a byte boundary.
pub empty-IsValid :
    (br : BReader)
    → AreBytes br.bytes
    → 8 * length br.bytes < u64_mod
    → br.read_ptr ≤ length br.bytes
    → br.lookahead ≡ 0
    → br.lookahead_bit_cnt ≡ 0
    → br.tot_bit_cnt ≡ 8 * br.read_ptr
    → IsValid br
empty-IsValid br b f i z c t = record {
  are_bytes = b;
  fits = f;
  inside = i;
  counted = omega arith;
  short = omega arith;
  word = omega arith;
  exact = λ k l. absurd (omega arith);
  spare = λ k l. omega (arith, ap (ahead_bit br.bo k) z, ahead_bit-zero br.bo k);
}
