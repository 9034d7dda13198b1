-- ===== src/BReader/Skip.antt =====
-- breader_consume_checked and breader_align: the reader moves on, and stops at the end.
use actf.Common.{
  ℕ, ◌+◌, ◌-◌, ◌*◌, ◌/◌, ◌%◌, ◌^◌, ◌≤◌, ◌<◌, min, bit_and, ◌≡◌, refl, ◌∙◌, inl, inr, arith, leb,
  Bool-cases,
}
use actf.Common.Lists.{length}
use actf.Common.Bits.{
  u64_mod, sub64, add64, shr, bit_and-ones, bit_and-negated, pow_pos, pow-lt-u64_mod,
}
use native.Mathlib.Nat.{div-mul-le_self, lt-div-mul-add}
use actf.BReader.{
  ByteOrder, lil_endian, big_endian, BReader, by_bo, consumem, consume, refillm, consume_checkedm,
  consume_checked_le, consume_checked_be, consume_checked, align_le, align_be, alignm, align,
}
use actf.BReader.Stream.{IsValid, empty-IsValid}
use actf.BReader.Word.{host_to}
use actf.BReader.Refill.{behind, refillm-Refilled}
use actf.BReader.Consume.{ahead, Consumed, consumem-Consumed, consume-Consumed}

-- `br'` is `br` moved on by `cnt` bits, but not past the end.
pub record Skipped (br : BReader) (cnt : ℕ) (br' : BReader) : Type 0 where
  pub valid : IsValid br'
  pub bo : br'.bo ≡ br.bo
  pub bytes : br'.bytes ≡ br.bytes
  pub place : br'.tot_bit_cnt ≡ min (br.tot_bit_cnt + cnt) (8 * length br.bytes)

module _ (br : BReader) (cnt : ℕ) (v : IsValid br) where
  within-Skipped :
      {br' : BReader} → cnt ≤ br.lookahead_bit_cnt → Consumed br cnt br' → Skipped br cnt br'
  within-Skipped h c = record {
    valid = c.valid;
    bo = c.bo;
    bytes = c.bytes;
    place = omega (arith, c.place, v.counted, v.inside);
  }

  module _ (short : br.lookahead_bit_cnt < cnt) where
    abbrev to_consume : ℕ
    to_consume = cnt - br.lookahead_bit_cnt

    -- The reader that has dropped its lookahead and skipped `n` bytes.
    abbrev hopped : ℕ → BReader
    hopped n = record br {
      lookahead = 0;
      lookahead_bit_cnt = sub64 br.lookahead_bit_cnt br.lookahead_bit_cnt;
      read_ptr = br.read_ptr + n;
      tot_bit_cnt = add64 (add64 br.tot_bit_cnt br.lookahead_bit_cnt) (n * 8);
    }

    hopped-place :
        (n : ℕ) → br.read_ptr + n ≤ length br.bytes → (hopped n).tot_bit_cnt ≡ 8 * (br.read_ptr + n)
    hopped-place n h = omega (arith, v.counted, v.fits)

    hopped-IsValid : (n : ℕ) → br.read_ptr + n ≤ length br.bytes → IsValid (hopped n)
    hopped-IsValid n h =
        empty-IsValid (hopped n) v.are_bytes v.fits h refl (omega (arith, v.short))
          (hopped-place n h)

    to_end-Skipped :
        length br.bytes - br.read_ptr ≤ shr to_consume 3
        → Skipped br cnt (hopped (length br.bytes - br.read_ptr))
    to_end-Skipped h =
        let n = length br.bytes - br.read_ptr in
        let inside : br.read_ptr + n ≤ length br.bytes = omega (arith, v.inside) in
        record {
          valid = hopped-IsValid n inside;
          bo = refl;
          bytes = refl;
          place = omega (arith, hopped-place n inside, v.counted, v.inside);
        }

    into_byte-Skipped :
        shr to_consume 3 < length br.bytes - br.read_ptr
        → Skipped br cnt (
            consume
              (refillm (behind br.bo) (host_to br.bo) (hopped (shr to_consume 3)))
              (bit_and to_consume 7))
    into_byte-Skipped h =
        let n = shr to_consume 3 in
        let inside : br.read_ptr + n < length br.bytes = omega arith in
        let r = refillm-Refilled (hopped n) (hopped-IsValid n (omega arith)) in
        let bits : bit_and to_consume 7 ≡ to_consume % 8 = bit_and-ones 3 to_consume in
        let place = hopped-place n (omega arith) in
        let c =
          consume-Consumed _ (bit_and to_consume 7) r.valid
            (omega (arith, bits, r.enough, r.valid.counted, r.same_place, place)) in
        record {
          valid = c.valid;
          bo = c.bo ∙ r.bo;
          bytes = c.bytes ∙ r.bytes;
          place = omega (arith, c.place, bits, r.same_place, place, v.counted);
        }

  skipm-Skipped :
      Skipped br cnt
        (consume_checkedm (consumem (ahead br.bo)) (refillm (behind br.bo) (host_to br.bo)) br cnt)
  unfolding consume_checkedm consumem
  skipm-Skipped = elim (Bool-cases (leb cnt br.lookahead_bit_cnt)) [
    | inl within ↦
        rw within (within-Skipped (ground arith) (consumem-Consumed br cnt v (ground arith)))
    | inr short ↦
        rw short
          (elim (Bool-cases
            (leb (length br.bytes - br.read_ptr) (shr (cnt - br.lookahead_bit_cnt) 3))) [
              | inl far ↦ rw far (to_end-Skipped (ground arith) (ground arith))
              | inr near ↦ rw near (into_byte-Skipped (ground arith) (ground arith))
            ])
  ]

skip_by_bo :
    (bo : ByteOrder) (br : BReader) (cnt : ℕ)
    → by_bo bo (consume_checked_le br cnt) (consume_checked_be br cnt)
      ≡ consume_checkedm (consumem (ahead bo)) (refillm (behind bo) (host_to bo)) br cnt
unfolding consume_checked_le consume_checked_be
skip_by_bo lil_endian br cnt = refl
skip_by_bo big_endian br cnt = refl

-- A hop of any length keeps the reader valid, and ends that many bits on or at the end of the
-- stream, whichever comes first.
pub consume_checked-Skipped :
    (br : BReader) (cnt : ℕ) → IsValid br → Skipped br cnt (consume_checked br cnt)
unfolding consume_checked
consume_checked-Skipped br cnt v = rw (skip_by_bo br.bo br cnt) (skipm-Skipped br cnt v)

abbrev pub align_up : ℕ → ℕ → ℕ
align_up i n = (i + n - 1) / n * n

-- The hop that breader_alignm computes.
abbrev hop : BReader → ℕ → ℕ
hop br n = sub64 (bit_and (sub64 (add64 br.tot_bit_cnt n) 1) (sub64 0 n)) br.tot_bit_cnt

align_by_bo :
    (bo : ByteOrder) (br : BReader) (n : ℕ)
    → by_bo bo (align_le br n) (align_be br n)
      ≡ by_bo bo (consume_checked_le br (hop br n)) (consume_checked_be br (hop br n))
unfolding align_le align_be alignm
align_by_bo lil_endian br n = refl
align_by_bo big_endian br n = refl

hop-align_up :
    (br : BReader) (a : ℕ)
    → a < 64
    → br.tot_bit_cnt + 2 ^ a ≤ u64_mod
    → hop br (2 ^ a) ≡ align_up br.tot_bit_cnt (2 ^ a) - br.tot_bit_cnt
hop-align_up br a h fits =
    let i = br.tot_bit_cnt + 2 ^ a - 1 in
    let wrapped : sub64 (add64 br.tot_bit_cnt (2 ^ a)) 1 ≡ i =
      omega (arith, pow_pos a, pow-lt-u64_mod a h) in
    rw (wrapped, bit_and-negated a i h (omega (arith, pow_pos a)))
      (omega (arith, pow_pos a, div-mul-le_self i (2 ^ a), lt-div-mul-add {a = i} (pow_pos a)))

-- Aligning to a power of two moves on to the next multiple of it, or to the end of the stream.
pub align-Skipped :
    (br : BReader) (a : ℕ)
    → IsValid br
    → a < 64
    → br.tot_bit_cnt + 2 ^ a ≤ u64_mod
    → Skipped br (align_up br.tot_bit_cnt (2 ^ a) - br.tot_bit_cnt) (align br (2 ^ a))
unfolding align
align-Skipped br a v h fits =
    rw (align_by_bo br.bo br (2 ^ a), skip_by_bo br.bo br _, hop-align_up br a h fits)
      (skipm-Skipped br _ v)
