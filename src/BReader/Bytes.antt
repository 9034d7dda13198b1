-- ===== src/BReader/Bytes.antt =====
-- Whole bytes, seeks and what is left of the stream.
use actf.Common.{
  ℕ, ◌+◌, ◌-◌, ◌*◌, ◌/◌, ◌%◌, ◌≤◌, ◌<◌, min, ◌≡◌, refl, ap, inl, inr, ◌↔◌, arith, ltb, leb,
  if◌then◌else◌, true, false, Bool-cases, Option, none, some,
}
use actf.Common.Lists.{length}
use actf.Common.Bits.{u64_mod}
use actf.BReader.{
  BReader, bits_remaining, has_bits_remaining, bytes_remaining, read_bytes, SeekOp, seek_set,
  seek_cur, seek_end, seek_ptr, seek,
}
use actf.BReader.Stream.{IsValid, empty-IsValid}
use actf.BReader.Skip.{consume_checked-Skipped}

-- The three ways to ask for what is left agree with the place in the stream.
pub remaining_lem :
    (br : BReader)
    → IsValid br
    → (bits_remaining br ≡ 8 * length br.bytes - br.tot_bit_cnt)
      × (bytes_remaining br ≡ (8 * length br.bytes - br.tot_bit_cnt) / 8)
      × ((has_bits_remaining br ≡ true) ↔ (br.tot_bit_cnt < 8 * length br.bytes))
unfolding bits_remaining bytes_remaining has_bits_remaining
remaining_lem br v = (
  omega (arith, v.counted, v.inside, v.fits, v.short),
  omega (arith, v.counted, v.inside),
  (λ h. ground (arith, v.counted, v.inside), λ h. ground (arith, v.counted, v.inside)),
)

-- What a read of `cnt` bytes gives at a byte boundary: the offset of the next byte, and the place
-- behind the last; or NULL and no change where fewer are left.
pub record BytesOf (br : BReader) (cnt : ℕ) (r : Option ℕ × BReader) : Type 0 where
  pub valid : IsValid r.1
  pub bo : r.1.bo ≡ br.bo
  pub bytes : r.1.bytes ≡ br.bytes
  pub offset : r.0 ≡ (
      if leb (br.tot_bit_cnt + 8 * cnt) (8 * length br.bytes)
      then some (br.tot_bit_cnt / 8)
      else none)
  pub place : r.1.tot_bit_cnt ≡ (
      if leb (br.tot_bit_cnt + 8 * cnt) (8 * length br.bytes)
      then br.tot_bit_cnt + 8 * cnt
      else br.tot_bit_cnt)

-- A read of bytes at a byte boundary gives the offset of the next byte in the stream and stands
-- behind the last one. Where fewer are left it gives NULL and stays.
pub read_bytes-BytesOf :
    (br : BReader) (cnt : ℕ)
    → IsValid br
    → br.lookahead_bit_cnt % 8 ≡ 0
    → BytesOf br cnt (read_bytes br cnt)
unfolding read_bytes
read_bytes-BytesOf br cnt v e = elim (Bool-cases (ltb (bytes_remaining br) cnt)) [
  | inl few ↦
      let out : leb (br.tot_bit_cnt + 8 * cnt) (8 * length br.bytes) ≡ false =
        ground (arith, (remaining_lem br v).1, v.counted) in
      rw few (record { valid = v; bo = refl; bytes = refl; offset = rw out; place = rw out })
  | inr enough ↦
      let there : leb (br.tot_bit_cnt + 8 * cnt) (8 * length br.bytes) ≡ true =
        ground (arith, (remaining_lem br v).1, v.counted, v.inside) in
      let bits : cnt * 8 % u64_mod ≡ 8 * cnt = ground (arith, v.fits) in
      let c = consume_checked-Skipped br (cnt * 8 % u64_mod) v in
      rw enough (record {
        valid = c.valid;
        bo = c.bo;
        bytes = c.bytes;
        offset = rw there (ap some (omega (arith, v.counted)));
        place = rw there (ground (arith, c.place, bits));
      })
]

-- The byte that a seek goes to.
abbrev pub target : BReader → ℕ → SeekOp → ℕ
target br off seek_set = min off (length br.bytes)
target br off seek_cur = min (br.read_ptr + off) (length br.bytes)
target br off seek_end = length br.bytes

-- A seek stays inside the bytes, and makes the reader valid at the byte that it goes to. A seek
-- from the current place counts from the read pointer, which is ahead of tot_bit_cnt by the
-- lookahead.
pub seek-IsValid :
    (br : BReader) (off : ℕ) (whence : SeekOp)
    → IsValid br
    → IsValid (seek br off whence) × ((seek br off whence).tot_bit_cnt ≡ 8 * target br off whence)
unfolding seek
seek-IsValid br off whence v = (
  empty-IsValid _ v.are_bytes v.fits (seek_ptr-le whence) refl refl
      (omega (arith, seek_ptr-le whence, v.fits)),
  omega (arith, seek_ptr-target whence, seek_ptr-le whence, v.fits),
)
  where
    seek_ptr-target : (w : SeekOp) → seek_ptr br off w ≡ target br off w
    seek_ptr-target seek_set = ground arith
    seek_ptr-target seek_cur = ground (arith, v.inside)
    seek_ptr-target seek_end = refl

    seek_ptr-le : (w : SeekOp) → seek_ptr br off w ≤ length br.bytes
    seek_ptr-le seek_set = omega (arith, seek_ptr-target seek_set)
    seek_ptr-le seek_cur = omega (arith, seek_ptr-target seek_cur)
    seek_ptr-le seek_end = omega arith
