-- ===== src/BReader/Consume.antt =====
-- breader_peek and breader_consume: the next bits of the stream, and the step past them.
use actf.Common.{
  ℕ, ◌+◌, ◌-◌, ◌^◌, ◌≤◌, ◌<◌, bit_and, ◌≡◌, refl, ap, ◌∙◌, inl, inr, List, arith, ltb,
  if◌then◌else◌, true, false, Bool-cases,
}
use actf.Common.Bits.{
  u64_mod, bit, bit-le, bit-and, bit-shl64, bit-shr, bit-ones, bit_high, shl64, shr, sub64, add64,
  eq-of_bits, pow_pos, pow-lt-u64_mod, bit_and-lt_right, shr-lt,
}
use native.Mathlib.Nat.{div-le_self}
use actf.BReader.{
  ByteOrder, lil_endian, big_endian, BReader, by_bo, peek, consumem, consume_le, consume_be,
  consume,
}
use actf.BReader.Stream.{stream_bit, stream_bit-le, stream_value, ahead_bit, IsValid}

-- A move towards the end at which reading begins.
abbrev pub ahead : ByteOrder → ℕ → ℕ → ℕ
ahead lil_endian = shr
ahead big_endian = shl64

ahead_bit-ahead :
    (bo : ByteOrder) (k x n : ℕ)
    → k < 64
    → x < u64_mod
    → ahead_bit bo k (ahead bo x n) ≡ (if ltb (n + k) 64 then ahead_bit bo (n + k) x else 0)
ahead_bit-ahead lil_endian k x n h p = ground (arith, bit-shr k x n, bit_high 64 x (n + k) p)
ahead_bit-ahead big_endian k x n h p = elim (Bool-cases (ltb (n + k) 64)) [
  | inl inside ↦
      let low : ltb (63 - k) n ≡ false = ground arith in
      let moved : 63 - k - n ≡ 63 - (n + k) = omega arith in
      rw inside (bit-shl64 (63 - k) x n (omega arith) ∙ rw (low, moved))
  | inr outside ↦
      let low : ltb (63 - k) n ≡ true = ground arith in
      rw outside (bit-shl64 (63 - k) x n (omega arith) ∙ rw low)
]

ahead-lt : (bo : ByteOrder) (x n : ℕ) → x < u64_mod → ahead bo x n < u64_mod
ahead-lt lil_endian x n h = omega (arith, div-le_self x (2 ^ n))
ahead-lt big_endian x n h = omega arith

-- `br'` is `br` after `cnt` more bits, all of which were in the lookahead.
pub record Consumed (br : BReader) (cnt : ℕ) (br' : BReader) : Type 0 where
  pub valid : IsValid br'
  pub bo : br'.bo ≡ br.bo
  pub bytes : br'.bytes ≡ br.bytes
  pub place : br'.tot_bit_cnt ≡ br.tot_bit_cnt + cnt
  pub left : br'.lookahead_bit_cnt + cnt ≡ br.lookahead_bit_cnt
  pub ptr : br'.read_ptr ≡ br.read_ptr

module _ (br : BReader) (cnt : ℕ) (v : IsValid br) (h : cnt ≤ br.lookahead_bit_cnt) where
  step-left : sub64 br.lookahead_bit_cnt cnt ≡ br.lookahead_bit_cnt - cnt
  step-left = omega (arith, v.short)

  step-place : add64 br.tot_bit_cnt cnt ≡ br.tot_bit_cnt + cnt
  step-place = omega (arith, v.counted, v.inside, v.fits)

  stepped-bit :
      (k : ℕ)
      → k < 64
      → ahead_bit br.bo k (ahead br.bo br.lookahead cnt)
        ≡ (if ltb (cnt + k) 64 then ahead_bit br.bo (cnt + k) br.lookahead else 0)
  stepped-bit k l = ahead_bit-ahead br.bo k br.lookahead cnt l v.word

  stream_bit-moved :
      (k : ℕ)
      → stream_bit br.bo br.bytes (br.tot_bit_cnt + (cnt + k))
        ≡ stream_bit br.bo br.bytes (br.tot_bit_cnt + cnt + k)
  stream_bit-moved k = ap (stream_bit br.bo br.bytes) (omega arith)

  pub consumem-Consumed : Consumed br cnt (consumem (ahead br.bo) br cnt)
  unfolding consumem
  consumem-Consumed =
      rw (step-left, step-place)
        (record {
          valid = record {
            are_bytes = v.are_bytes;
            fits = v.fits;
            inside = v.inside;
            counted = omega (arith, v.counted);
            short = omega (arith, v.short);
            word = ahead-lt br.bo br.lookahead cnt v.word;
            exact = λ k l.
                ground (arith, v.short, stepped-bit k, stream_bit-moved k, v.exact (cnt + k));
            spare = λ k l. ground (arith, stepped-bit k, stream_bit-moved k, v.spare (cnt + k));
          };
          bo = refl;
          bytes = refl;
          place = refl;
          left = omega arith;
          ptr = refl;
        })

pub consume_by_bo :
    (bo : ByteOrder) (br : BReader) (cnt : ℕ)
    → by_bo bo (consume_le br cnt) (consume_be br cnt) ≡ consumem (ahead bo) br cnt
unfolding consume_le consume_be
consume_by_bo lil_endian br cnt = refl
consume_by_bo big_endian br cnt = refl

-- Bits that are in the lookahead are consumed: the reader stays valid, that many bits on.
pub consume-Consumed :
    (br : BReader) (cnt : ℕ)
    → IsValid br
    → cnt ≤ br.lookahead_bit_cnt
    → Consumed br cnt (consume br cnt)
unfolding consume
consume-Consumed br cnt v h = rw (consume_by_bo br.bo br cnt) (consumem-Consumed br cnt v h)

mask-ones : (cnt : ℕ) → cnt < 64 → sub64 (shl64 1 cnt) 1 ≡ 2 ^ cnt - 1
mask-ones cnt h = omega (arith, pow-lt-u64_mod cnt h, pow_pos cnt)

-- The arithmetic of a peek, on a lookahead `x` whose first `cnt` bits are the stream's from `i` on.
peeked :
    (bo : ByteOrder) (x cnt i : ℕ) (bytes : List ℕ)
    → x < u64_mod
    → 0 < cnt
    → cnt < 64
    → ((k : ℕ) → k < cnt → ahead_bit bo k x ≡ stream_bit bo bytes (i + k))
    → by_bo bo (bit_and x (sub64 (shl64 1 cnt) 1)) (shr x (64 - cnt)) ≡ stream_value bo bytes i cnt
peeked lil_endian x cnt i bytes p z l h =
    let mask-lt : sub64 (shl64 1 cnt) 1 < 2 ^ cnt = omega (arith, mask-ones cnt l, pow_pos cnt) in
    eq-of_bits cnt _ _ (λ k. stream_bit-le lil_endian bytes (i + k))
      (bit_and-lt_right cnt x _ mask-lt)
      (λ k q.
        bit-and k x (sub64 (shl64 1 cnt) 1)
        ∙ rw (mask-ones cnt l) (omega (arith, bit-ones cnt k q, bit-le k x, h k q)))
peeked big_endian x cnt i bytes p z l h =
    let all : cnt + (64 - cnt) ≡ 64 = omega arith in
    eq-of_bits cnt _ _ (λ k. stream_bit-le big_endian bytes (i + (cnt - 1 - k)))
      (shr-lt cnt (64 - cnt) x (rw all p))
      (λ k q.
        let at : 64 - cnt + k ≡ 63 - (cnt - 1 - k) = omega arith in
        bit-shr k x (64 - cnt) ∙ ap (λ (m : ℕ). bit m x) at ∙ h (cnt - 1 - k) (omega arith))

-- A peek reads the next bits of the stream as one number. (Of no bits at all, it shifts by 64 in
-- big endian.)
pub peek-stream_value :
    (br : BReader) (cnt : ℕ)
    → IsValid br
    → 0 < cnt
    → cnt ≤ br.lookahead_bit_cnt
    → peek br cnt ≡ stream_value br.bo br.bytes br.tot_bit_cnt cnt
unfolding peek
peek-stream_value br cnt v z h =
    peeked br.bo br.lookahead cnt br.tot_bit_cnt br.bytes v.word z (omega (arith, v.short))
      (λ k l. v.exact k (omega arith))
