-- ===== src/BReader/Read.antt =====
-- The rest of breader.c: a change of byte order, reads, seeks and what is left.
use actf.Common.{
  ℕ, ◌+◌, ◌-◌, ◌*◌, ◌/◌, ◌%◌, ◌≤◌, ◌<◌, ◌≡◌, refl, sym, ap, ◌∙◌, inl, inr, List, arith, ltb, leb,
  if◌then◌else◌, true, false, Bool-cases,
}
use mathlib.Core.Path.{ap₂}
use actf.Common.Lists.{length, get_or}
use actf.Common.Bits.{u64_mod, bit}
use actf.Crust.{bswap64}
use actf.Crust.Swap.{bit-bswap64, bswap64-lt}
use actf.BReader.{
  ByteOrder, lil_endian, big_endian, BReader, init, same_bo, set_bo, refill, peek, consume,
  read_bits,
}
use actf.BReader.Stream.{AreBytes, stream_bit, stream_value, ahead_bit, IsValid, empty-IsValid}
use actf.BReader.Refill.{refill-Refilled}
use actf.BReader.Consume.{consume-Consumed, peek-stream_value}

-- A new reader stands at bit 0 of its bytes.
pub init-IsValid :
    (bytes : List ℕ) (bo : ByteOrder)
    → AreBytes bytes
    → 8 * length bytes < u64_mod
    → IsValid (init bytes bo)
unfolding init
init-IsValid bytes bo b f = empty-IsValid _ b f (omega arith) refl refl refl

abbrev other : ByteOrder → ByteOrder
other lil_endian = big_endian
other big_endian = lil_endian

-- Bit k read the other way round within its byte.
abbrev mirror : ℕ → ℕ
mirror k = 8 * (k / 8) + (7 - k % 8)

ahead_bit-bswap64 :
    (bo : ByteOrder) (k x : ℕ)
    → k < 64
    → ahead_bit (other bo) k (bswap64 x) ≡ ahead_bit bo (mirror k) x
ahead_bit-bswap64 lil_endian k x h =
    let split : 63 - k ≡ 8 * (7 - k / 8) + (7 - k % 8) = omega arith in
    let back : 8 * (7 - (7 - k / 8)) + (7 - k % 8) ≡ mirror k = omega arith in
    ap (λ (m : ℕ). bit m (bswap64 x)) split
    ∙ bit-bswap64 (7 - k / 8) (7 - k % 8) x (omega arith) (omega arith)
    ∙ ap (λ (m : ℕ). bit m x) back
ahead_bit-bswap64 big_endian k x h =
    let split : k ≡ 8 * (k / 8) + k % 8 = omega arith in
    let back : 8 * (7 - k / 8) + k % 8 ≡ 63 - mirror k = omega arith in
    ap (λ (m : ℕ). bit m (bswap64 x)) split
    ∙ bit-bswap64 (k / 8) (k % 8) x (omega arith) (omega arith)
    ∙ ap (λ (m : ℕ). bit m x) back

stream_bit-mirror :
    (bo : ByteOrder) (bytes : List ℕ) (i k : ℕ)
    → i % 8 ≡ 0
    → stream_bit (other bo) bytes (i + k) ≡ stream_bit bo bytes (i + mirror k)
stream_bit-mirror lil_endian bytes i k e =
    ap₂ (λ (d q : ℕ). bit d (get_or bytes q 0)) (omega arith) (omega arith)
stream_bit-mirror big_endian bytes i k e =
    ap₂ (λ (d q : ℕ). bit d (get_or bytes q 0)) (omega arith) (omega arith)

swapped-IsValid :
    (br : BReader) (bo : ByteOrder)
    → bo ≡ other br.bo
    → IsValid br
    → br.lookahead_bit_cnt % 8 ≡ 0
    → IsValid (record br { lookahead = bswap64 br.lookahead; bo = bo })
swapped-IsValid br bo o v e = rw o (record {
  are_bytes = v.are_bytes;
  fits = v.fits;
  inside = v.inside;
  counted = v.counted;
  short = v.short;
  word = bswap64-lt br.lookahead v.word;
  exact = λ k l. omega (
    arith,
    ahead_bit-bswap64 br.bo k br.lookahead (omega (arith, v.short)),
    v.exact (mirror k) (omega arith),
    stream_bit-mirror br.bo br.bytes br.tot_bit_cnt k (omega (arith, v.counted)),
  );
  spare = λ k l. omega (
    arith,
    ahead_bit-bswap64 br.bo k br.lookahead l,
    v.spare (mirror k) (omega arith),
    stream_bit-mirror br.bo br.bytes br.tot_bit_cnt k (omega (arith, v.counted)),
  );
})

same_bo-eq : (a b : ByteOrder) → same_bo a b ≡ true → b ≡ a
unfolding same_bo
same_bo-eq lil_endian lil_endian h = refl
same_bo-eq big_endian big_endian h = refl
same_bo-eq _ _ h = cc

same_bo-other : (a b : ByteOrder) → same_bo a b ≡ false → b ≡ other a
unfolding same_bo
same_bo-other lil_endian big_endian h = refl
same_bo-other big_endian lil_endian h = refl
same_bo-other lil_endian lil_endian h = cc
same_bo-other big_endian big_endian h = cc

-- At a byte boundary the byte order can change: the reader is then valid for the same bytes at the
-- same place in the new order, also where the lookahead holds part of a further byte.
pub set_bo-IsValid :
    (br : BReader) (bo : ByteOrder)
    → IsValid br
    → br.lookahead_bit_cnt % 8 ≡ 0
    → IsValid (set_bo br bo)
      × ((set_bo br bo).bo ≡ bo)
      × ((set_bo br bo).bytes ≡ br.bytes)
      × ((set_bo br bo).tot_bit_cnt ≡ br.tot_bit_cnt)
unfolding set_bo
set_bo-IsValid br bo v e = elim (Bool-cases (same_bo br.bo bo)) [
  | inl same ↦ rw same (v, sym (same_bo-eq br.bo bo same), refl, refl)
  | inr differ ↦
      rw differ (swapped-IsValid br bo (same_bo-other br.bo bo differ) v e, refl, refl, refl)
]

same_bo_refl : (bo : ByteOrder) → same_bo bo bo ≡ true
unfolding same_bo
same_bo_refl lil_endian = refl
same_bo_refl big_endian = refl

pub set_bo_self : (br : BReader) (bo : ByteOrder) → br.bo ≡ bo → set_bo br bo ≡ br
unfolding set_bo
set_bo_self br bo e = rw (← e, same_bo_refl br.bo)

-- What a read of `cnt` bits gives: their value and the place behind them, or UINT64_MAX and the
-- old place where the stream is too short.
pub record ReadOf (br : BReader) (cnt : ℕ) (r : ℕ × BReader) : Type 0 where
  pub valid : IsValid r.1
  pub bo : r.1.bo ≡ br.bo
  pub bytes : r.1.bytes ≡ br.bytes
  pub value : r.0 ≡ (
      if leb (br.tot_bit_cnt + cnt) (8 * length br.bytes)
      then stream_value br.bo br.bytes br.tot_bit_cnt cnt
      else u64_mod - 1)
  pub place : r.1.tot_bit_cnt ≡ (
      if leb (br.tot_bit_cnt + cnt) (8 * length br.bytes)
      then br.tot_bit_cnt + cnt
      else br.tot_bit_cnt)

-- A read of bits that are in the lookahead of `br'`, which stands where `br` does.
ready-ReadOf :
    (br br' : BReader) (cnt : ℕ)
    → IsValid br'
    → br'.bo ≡ br.bo
    → br'.bytes ≡ br.bytes
    → br'.tot_bit_cnt ≡ br.tot_bit_cnt
    → 0 < cnt
    → cnt ≤ br'.lookahead_bit_cnt
    → ReadOf br cnt (peek br' cnt, consume br' cnt)
ready-ReadOf br br' cnt v o b p z h =
    let c = consume-Consumed br' cnt v h in
    let size = ap length b in
    let there : leb (br.tot_bit_cnt + cnt) (8 * length br.bytes) ≡ true =
      ground (arith, v.counted, v.inside, size) in
    let value = peek-stream_value br' cnt v z h in
    record {
      valid = c.valid;
      bo = c.bo ∙ o;
      bytes = c.bytes ∙ b;
      value = rw there (value ∙ same_value o b p);
      place = rw there (omega (arith, c.place));
    }
  where
    same_value :
        br'.bo ≡ br.bo
        → br'.bytes ≡ br.bytes
        → br'.tot_bit_cnt ≡ br.tot_bit_cnt
        → stream_value br'.bo br'.bytes br'.tot_bit_cnt cnt
          ≡ stream_value br.bo br.bytes br.tot_bit_cnt cnt
    same_value e f g = λ i. stream_value (e i) (f i) (g i) cnt

-- A read of 1 to 56 bits gives the stream's next bits as one number and stands behind them. Where
-- fewer are left it gives UINT64_MAX and stays.
pub read_bits-ReadOf :
    (br : BReader) (cnt : ℕ) → IsValid br → 0 < cnt → cnt ≤ 56 → ReadOf br cnt (read_bits br cnt)
unfolding read_bits
read_bits-ReadOf br cnt v z h = elim (Bool-cases (ltb br.lookahead_bit_cnt cnt)) [
  | inr ready ↦ rw ready (ready-ReadOf br br cnt v refl refl refl z (ground arith))
  | inl low ↦
      let r = refill-Refilled br v in
      let size = ap length r.bytes in
      elim (Bool-cases (ltb (refill br).lookahead_bit_cnt cnt)) [
        | inr loaded ↦
            rw (low, loaded)
              (ready-ReadOf br (refill br) cnt r.valid r.bo r.bytes r.same_place z (ground arith))
        | inl few ↦
            let out : leb (br.tot_bit_cnt + cnt) (8 * length br.bytes) ≡ false =
              ground (arith, r.valid.counted, r.same_place, r.enough) in
            rw (low, few)
              (record {
                valid = r.valid;
                bo = r.bo;
                bytes = r.bytes;
                value = rw out;
                place = rw out r.same_place;
              })
      ]
]
