-- ===== src/Decoder/BitArr/Parts.antt =====
-- The reader's operations as the macro of decoder.c calls them, by the byte order of the field.
use actf.Common.{ℕ, ◌%◌, ◌≤◌, ◌<◌, ◌≡◌, refl, ◌∙◌, ◌⊎◌, inl, inr, Bool, not, ltb}
use actf.BReader.{
  ByteOrder, lil_endian, big_endian, BReader, by_bo, set_bo, align_le, align_be, align, refill,
  refill_le, refill_be, peek, peek_le, peek_be, consume, consume_le, consume_be,
}
use actf.BReader.Stream.{IsValid, stream_value}
use actf.BReader.Refill.{Refilled, refill-Refilled}
use actf.BReader.Consume.{Consumed, consume-Consumed, peek-stream_value}
use actf.BReader.Read.{set_bo-IsValid, set_bo_self}
use actf.Decoder.{
  Suffix, suffix_le, suffix_be, do_alignm, do_align_le, do_align_be, PktState, pkt_place,
}

abbrev pub suffix : ByteOrder → Suffix
suffix bo = by_bo bo suffix_le suffix_be

refill_bo-eq :
    (o : ByteOrder) (br : BReader) → (suffix o).refill_bo br ≡ by_bo o (refill_le br) (refill_be br)
refill_bo-eq lil_endian br = refl
refill_bo-eq big_endian br = refl

consume_bo-eq :
    (o : ByteOrder) (br : BReader) (n : ℕ)
    → (suffix o).consume_bo br n ≡ by_bo o (consume_le br n) (consume_be br n)
consume_bo-eq lil_endian br n = refl
consume_bo-eq big_endian br n = refl

peek_bo-eq :
    (o : ByteOrder) (br : BReader) (n : ℕ)
    → (suffix o).peek_bo br n ≡ by_bo o (peek_le br n) (peek_be br n)
peek_bo-eq lil_endian br n = refl
peek_bo-eq big_endian br n = refl

-- The place is compared with the content length after the reader has been aligned.
abbrev pub aligned : PktState → BReader → Bool × BReader
aligned pkt_s br = (not (ltb pkt_s.content_len (pkt_place pkt_s br)), br)

do_align_bo-eq :
    (o : ByteOrder) (br : BReader) (n : ℕ) (pkt_s : PktState)
    → (suffix o).do_align_bo br n pkt_s ≡ aligned pkt_s (by_bo o (align_le br n) (align_be br n))
unfolding do_align_le do_align_be do_alignm
do_align_bo-eq lil_endian br n pkt_s = refl
do_align_bo-eq big_endian br n pkt_s = refl

module _ (bo : ByteOrder) (br : BReader) (same : br.bo ≡ bo) where
  pub refill_bo-Refilled : IsValid br → Refilled br ((suffix bo).refill_bo br)
  unfolding refill
  refill_bo-Refilled v = rw (← same, refill_bo-eq br.bo br) (refill-Refilled br v)

  pub consume_bo-Consumed :
      (n : ℕ) → IsValid br → n ≤ br.lookahead_bit_cnt → Consumed br n ((suffix bo).consume_bo br n)
  unfolding consume
  consume_bo-Consumed n v h = rw (← same, consume_bo-eq br.bo br n) (consume-Consumed br n v h)

  pub peek_bo-stream_value :
      (n : ℕ)
      → IsValid br
      → 0 < n
      → n ≤ br.lookahead_bit_cnt
      → (suffix bo).peek_bo br n ≡ stream_value bo br.bytes br.tot_bit_cnt n
  unfolding peek
  peek_bo-stream_value n v z h = rw (← same) (peek_bo-eq br.bo br n ∙ peek-stream_value br n v z h)

  pub do_align_bo-align :
      (n : ℕ) (pkt_s : PktState) → (suffix bo).do_align_bo br n pkt_s ≡ aligned pkt_s (align br n)
  unfolding align
  do_align_bo-align n pkt_s = rw (← same) (do_align_bo-eq br.bo br n pkt_s)

-- Before a field the byte order is set. That is sound at a byte boundary, or if it stays the same.
abbrev pub Ready : BReader → ByteOrder → Type 0
Ready br bo = (br.bo ≡ bo) ⊎ (br.lookahead_bit_cnt % 8 ≡ 0)

pub record Set (br : BReader) (bo : ByteOrder) (br' : BReader) : Type 0 where
  pub valid : IsValid br'
  pub bo' : br'.bo ≡ bo
  pub bytes : br'.bytes ≡ br.bytes
  pub place : br'.tot_bit_cnt ≡ br.tot_bit_cnt

pub set_bo-Set :
    (br : BReader) (bo : ByteOrder) → IsValid br → Ready br bo → Set br bo (set_bo br bo)
set_bo-Set br bo v (inl e) =
    rw (set_bo_self br bo e) (record { valid = v; bo' = e; bytes = refl; place = refl })
set_bo-Set br bo v (inr e) =
    let s = set_bo-IsValid br bo v e in record { valid = s.0; bo' = s.1; bytes = s.2; place = s.3 }
