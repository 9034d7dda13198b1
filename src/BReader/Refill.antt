-- ===== src/BReader/Refill.antt =====
-- breader_refill: it loads the next bits of the stream into the lookahead, and reads no bit twice.
use actf.Common.{
  ℕ, ◌+◌, ◌-◌, ◌*◌, ◌^◌, ◌≤◌, ◌<◌, max, bit_or, ◌≡◌, refl, ap, ◌∙◌, ◌⊎◌, inl, inr, arith, ltb, leb,
  if◌then◌else◌, Bool-cases,
}
use actf.Common.Lists.{length, drop, length-drop}
use actf.Common.Bits.{
  u64_mod, bit, bit-or, bit-shl64, bit-shr, bit_high, bit_or-lt, shl64, shr, agree_below, eq_below,
}
use native.Mathlib.Nat.{div-le_self}
use actf.BReader.{
  ByteOrder, lil_endian, big_endian, BReader, max_read_bits, by_bo, word, refillm, refill_le,
  refill_be, refill,
}
use actf.BReader.Stream.{AreBytes, stream_bit, ahead_bit, IsValid}
use actf.BReader.Word.{
  host_to, host_to-lt, ahead_bit-word, stream_bit-drop, word_all, drop-AreBytes, word-lt,
}

-- A move away from the end at which reading begins.
abbrev pub behind : ByteOrder → ℕ → ℕ → ℕ
behind lil_endian = shl64
behind big_endian = shr

ahead_bit-behind :
    (bo : ByteOrder) (k x n : ℕ)
    → k < 64
    → n < 64
    → x < u64_mod
    → ahead_bit bo k (behind bo x n) ≡ (if ltb k n then 0 else ahead_bit bo (k - n) x)
ahead_bit-behind lil_endian k x n h l p = bit-shl64 k x n h
ahead_bit-behind big_endian k x n h l p = elim (Bool-cases (ltb k n)) [
  | inl low ↦ rw low (bit-shr (63 - k) x n ∙ bit_high 64 x (n + (63 - k)) p (ground arith))
  | inr high ↦
      let moved : n + (63 - k) ≡ 63 - (k - n) = ground arith in
      rw high (bit-shr (63 - k) x n ∙ ap (λ (m : ℕ). bit m x) moved)
]

ahead_bit-or :
    (bo : ByteOrder) (k x y : ℕ)
    → ahead_bit bo k (bit_or x y) ≡ max (ahead_bit bo k x) (ahead_bit bo k y)
ahead_bit-or lil_endian k x y = bit-or k x y
ahead_bit-or big_endian k x y = bit-or (63 - k) x y

behind-lt : (bo : ByteOrder) (x n : ℕ) → x < u64_mod → behind bo x n < u64_mod
behind-lt lil_endian x n h = omega arith
behind-lt big_endian x n h = omega (arith, div-le_self x (2 ^ n))

-- The lookahead that both branches of the refill compute.
abbrev loaded : BReader → ℕ
loaded br =
    bit_or br.lookahead
      (behind br.bo (host_to br.bo (word 8 (drop br.read_ptr br.bytes))) br.lookahead_bit_cnt)

module _ {br : BReader} (v : IsValid br) where
  rest-AreBytes : AreBytes (drop br.read_ptr br.bytes)
  rest-AreBytes = drop-AreBytes br.read_ptr br.bytes v.are_bytes

  next-lt : host_to br.bo (word 8 (drop br.read_ptr br.bytes)) < u64_mod
  next-lt = host_to-lt br.bo _ (word-lt 8 _ rest-AreBytes)

  -- What the 64-bit read puts at bit k is the stream's bit there.
  ahead_bit-next :
      (k : ℕ)
      → k < 64
      → br.lookahead_bit_cnt ≤ k
      → ahead_bit br.bo
          (k - br.lookahead_bit_cnt)
          (host_to br.bo (word 8 (drop br.read_ptr br.bytes)))
        ≡ stream_bit br.bo br.bytes (br.tot_bit_cnt + k)
  ahead_bit-next k h l =
      let at : 8 * br.read_ptr + (k - br.lookahead_bit_cnt) ≡ br.tot_bit_cnt + k =
        omega (arith, v.counted) in
      ahead_bit-word br.bo _ (k - br.lookahead_bit_cnt) rest-AreBytes (omega arith)
      ∙ stream_bit-drop br.bo br.bytes br.read_ptr (k - br.lookahead_bit_cnt)
      ∙ ap (stream_bit br.bo br.bytes) at

  -- All 64 bits of the new lookahead are the stream's.
  ahead_bit-loaded :
      (k : ℕ)
      → k < 64
      → ahead_bit br.bo k (loaded br) ≡ stream_bit br.bo br.bytes (br.tot_bit_cnt + k)
  ahead_bit-loaded k h =
      let next = host_to br.bo (word 8 (drop br.read_ptr br.bytes)) in
      let joined = ahead_bit-or br.bo k br.lookahead (behind br.bo next br.lookahead_bit_cnt) in
      let moved = ahead_bit-behind br.bo k next br.lookahead_bit_cnt h v.short next-lt in
      elim (Bool-cases (ltb k br.lookahead_bit_cnt)) [
        | inl low ↦ joined ∙ omega (arith, rw low at moved, v.exact k (ground arith))
        | inr high ↦
            joined ∙ omega (arith, rw high at moved, v.spare k h, ahead_bit-next k h (ground arith))
      ]

  loaded-lt : loaded br < u64_mod
  loaded-lt = bit_or-lt 64 _ _ v.word (behind-lt br.bo _ _ next-lt)

or_56 : (cnt : ℕ) → cnt < 64 → bit_or cnt 56 ≡ cnt + shr (63 - cnt) 3 * 8
unfolding agree_below
or_56 cnt = eq_below (λ c. bit_or c 56) (λ c. c + shr (63 - c) 3 * 8) 64 cnt refl

-- `br'` is what a refill makes of `br`.
pub record Refilled (br br' : BReader) : Type 0 where
  pub valid : IsValid br'
  pub bo : br'.bo ≡ br.bo
  pub bytes : br'.bytes ≡ br.bytes
  pub same_place : br'.tot_bit_cnt ≡ br.tot_bit_cnt
  pub grown : br.lookahead_bit_cnt ≤ br'.lookahead_bit_cnt
  pub enough : (max_read_bits ≤ br'.lookahead_bit_cnt) ⊎ (br'.read_ptr ≡ length br.bytes)

loaded-Refilled :
    (br : BReader) (n : ℕ)
    → IsValid br
    → br.read_ptr + n ≤ length br.bytes
    → br.lookahead_bit_cnt + n * 8 < 64
    → (56 ≤ br.lookahead_bit_cnt + n * 8) ⊎ (br.read_ptr + n ≡ length br.bytes)
    → Refilled br (record br {
      lookahead = loaded br;
      read_ptr = br.read_ptr + n;
      lookahead_bit_cnt = br.lookahead_bit_cnt + n * 8;
    })
loaded-Refilled br n v h l e = record {
  valid = record {
    are_bytes = v.are_bytes;
    fits = v.fits;
    inside = h;
    counted = omega (arith, v.counted);
    short = l;
    word = loaded-lt v;
    exact = λ k p. ahead_bit-loaded v k (omega arith);
    spare = λ k p. omega (arith, ahead_bit-loaded v k p);
  };
  bo = refl;
  bytes = refl;
  same_place = refl;
  grown = omega arith;
  enough = e;
}

module _ (br : BReader) (v : IsValid br) where
  rest-length : length (drop br.read_ptr br.bytes) ≡ length br.bytes - br.read_ptr
  rest-length = length-drop br.read_ptr br.bytes

  pub refillm-Refilled : Refilled br (refillm (behind br.bo) (host_to br.bo) br)
  unfolding refillm
  refillm-Refilled =
      let n_bytes = length br.bytes - br.read_ptr in
      let used = shr (63 - br.lookahead_bit_cnt) 3 in
      elim (Bool-cases (leb 8 n_bytes)) [
        | inl fast ↦
            rw (fast, or_56 br.lookahead_bit_cnt v.short)
              (loaded-Refilled br used v (ground arith) (omega (arith, v.short))
                (inl (omega arith)))
        | inr slow ↦
            let whole : word n_bytes (drop br.read_ptr br.bytes)
                ≡ word 8 (drop br.read_ptr br.bytes) =
              word_all n_bytes 8 _ (omega (arith, rest-length)) (ground (arith, rest-length)) in
            rw (slow, whole)
              (elim (Bool-cases (ltb n_bytes used)) [
                | inl few ↦ rw few (
                    loaded-Refilled br n_bytes v (omega (arith, v.inside)) (ground (arith, v.short))
                      (inr (omega (arith, v.inside))))
                | inr many ↦ rw many (
                    loaded-Refilled br used v (ground (arith, v.inside)) (omega (arith, v.short))
                      (inl (omega arith)))
              ])
      ]

-- The two versions of the macro are one function of the byte order.
pub refill_by_bo :
    (bo : ByteOrder) (br : BReader)
    → by_bo bo (refill_le br) (refill_be br) ≡ refillm (behind bo) (host_to bo) br
unfolding refill_le refill_be
refill_by_bo lil_endian br = refl
refill_by_bo big_endian br = refl

-- A refill keeps the reader valid and its place in the stream, and makes 56 bits ready, or all that
-- are left.
pub refill-Refilled : (br : BReader) → IsValid br → Refilled br (refill br)
unfolding refill
refill-Refilled br v = rw (refill_by_bo br.bo br) (refillm-Refilled br v)
