-- ===== src/Decoder/Str/Run.antt =====
-- The bytes of a string or blob of known length, read from the stream.
use actf.Common.{
  ℕ, ◌+◌, ◌-◌, ◌*◌, ◌/◌, ◌%◌, ◌≤◌, ◌<◌, min, ◌≡◌, refl, ap, ◌∙◌, inl, inr, Bool, Bool-cases, true,
  false, not, ltb, leb, ◌&&◌, if◌then◌else◌, Option, some, none, arith,
}
use actf.Common.Lists.{length}
use actf.Common.Bits.{u64_mod}
use actf.Types.{Result, ok, err, not_enough_bits}
use actf.BReader.{
  ByteOrder, lil_endian, big_endian, BReader, by_bo, align, align_le, align_be, read_bytes,
}
use actf.BReader.Stream.{IsValid}
use actf.BReader.Skip.{Skipped, align-Skipped, align_up}
use actf.BReader.Bytes.{BytesOf, read_bytes-BytesOf}
use actf.Decoder.{
  Decoder, PktState, pkt_place, pkt_bits_remaining, do_alignm, do_align_le, do_align_be, do_align,
}
use actf.Decoder.Str.{got, read_run}

abbrev aligned : PktState → BReader → Bool × BReader
aligned pkt_s br = (not (ltb pkt_s.content_len (pkt_place pkt_s br)), br)

do_align-align :
    (br : BReader) (n : ℕ) (pkt_s : PktState) → do_align br n pkt_s ≡ aligned pkt_s (align br n)
unfolding do_align do_align_le do_align_be do_alignm align
do_align-align br n pkt_s = go br.bo
  where
    go :
        (bo : ByteOrder)
        → by_bo bo (aligned pkt_s (align_le br n)) (aligned pkt_s (align_be br n))
          ≡ aligned pkt_s (by_bo bo (align_le br n) (align_be br n))
    go lil_endian = refl
    go big_endian = refl

abbrev get_or_zero : Option ℕ → ℕ
get_or_zero none = 0
get_or_zero (some x) = x

-- The next byte boundary, if the stream goes so far.
abbrev pub run_start : Decoder → ℕ
run_start dec = min (align_up dec.br.tot_bit_cnt 8) (8 * length dec.br.bytes)

-- Whether `len` bytes from there on lie in the content of the packet and in the stream.
abbrev pub run_fits : Decoder → ℕ → Bool
run_fits dec len =
    leb (run_start dec - dec.pkt_s.bit_off + 8 * len) dec.pkt_s.content_len
    && leb (run_start dec + 8 * len) (8 * length dec.br.bytes)

pub record RunOf (dec : Decoder) (len : ℕ) (r : Result ℕ × Decoder) : Type 0 where
  pub valid : IsValid r.1.br
  pub bytes : r.1.br.bytes ≡ dec.br.bytes
  pub pkt_s : r.1.pkt_s ≡ dec.pkt_s
  pub result : r.0 ≡ (if run_fits dec len then ok (run_start dec / 8) else err not_enough_bits)
  pub place :
      r.1.br.tot_bit_cnt ≡ (if run_fits dec len then run_start dec + 8 * len else run_start dec)

module _ (dec : Decoder) (len : ℕ) (v : IsValid dec.br) (room : dec.br.tot_bit_cnt + 8 ≤ u64_mod)
    (begun : dec.pkt_s.bit_off ≤ dec.br.tot_bit_cnt) (small : 8 * len < u64_mod) where
  abbrev at_run : BReader
  at_run = align dec.br 8

  at_run-Skipped : Skipped dec.br (align_up dec.br.tot_bit_cnt 8 - dec.br.tot_bit_cnt) at_run
  at_run-Skipped = align-Skipped dec.br 3 v (omega arith) (omega arith)

  at_run-place : at_run.tot_bit_cnt ≡ run_start dec
  at_run-place = omega (arith, at_run-Skipped.place)

  in_packet : pkt_place dec.pkt_s at_run ≡ run_start dec - dec.pkt_s.bit_off
  in_packet = omega (arith, at_run-place, v.counted, v.inside, v.fits)

  at_boundary : at_run.lookahead_bit_cnt % 8 ≡ 0
  at_boundary = omega (arith, at_run-Skipped.valid.counted, at_run-place)

  refused :
      run_fits dec len ≡ false
      → RunOf dec len (err not_enough_bits, record { br = at_run; pkt_s = dec.pkt_s })
  refused e = record {
    valid = at_run-Skipped.valid;
    bytes = at_run-Skipped.bytes;
    pkt_s = refl;
    result = rw e refl;
    place = rw e at_run-place;
  }

  abbrev there : Bool
  there = leb (run_start dec + 8 * len) (8 * length dec.br.bytes)

  there-eq : leb (at_run.tot_bit_cnt + 8 * len) (8 * length at_run.bytes) ≡ there
  there-eq = λ i. leb (at_run-place i + 8 * len) (8 * length (at_run-Skipped.bytes i))

  abbrev in_content : Bool
  in_content = leb (run_start dec - dec.pkt_s.bit_off + 8 * len) dec.pkt_s.content_len

  got-RunOf :
      (p : Option ℕ × BReader)
      → in_content ≡ true
      → BytesOf at_run len p
      → RunOf dec len (got len dec.pkt_s p)
  got-RunOf (none, br) h b = elim (Bool-cases there) [
    | inl inside ↦
        absurd
          (let c : none ≡ some (at_run.tot_bit_cnt / 8) = rw (there-eq ∙ inside) at b.offset in cc)
    | inr out ↦ record {
      valid = b.valid;
      bytes = b.bytes ∙ at_run-Skipped.bytes;
      pkt_s = refl;
      result = rw (h, out) refl;
      place = rw (h, out) ((rw (there-eq ∙ out) at b.place) ∙ at_run-place);
    }
  ]
  got-RunOf (some ptr, br) h b = elim (Bool-cases there) [
    | inl inside ↦
        let c : some ptr ≡ some (at_run.tot_bit_cnt / 8) = rw (there-eq ∙ inside) at b.offset in
        record {
          valid = b.valid;
          bytes = b.bytes ∙ at_run-Skipped.bytes;
          pkt_s = refl;
          result =
              rw (h, inside)
                (ap (λ t. ok (get_or_zero t)) c ∙ ap (λ (t : ℕ). ok (t / 8)) at_run-place);
          place =
              rw (h, inside)
                ((rw (there-eq ∙ inside) at b.place) ∙ ap (λ (t : ℕ). t + 8 * len) at_run-place);
        }
    | inr out ↦ absurd (let c : some ptr ≡ none = rw (there-eq ∙ out) at b.offset in cc)
  ]

  -- A run of bytes is given as the offset of its first byte, at the next byte boundary, if it lies in the content of the packet and in the stream, and the reader stands behind it; else the code is not_enough_bits and the reader is at that boundary.
  pub read_run-RunOf : RunOf dec len (read_run dec len)
  unfolding read_run pkt_bits_remaining
  read_run-RunOf =
      rw (do_align-align dec.br 8 dec.pkt_s)
        (elim (Bool-cases (ltb dec.pkt_s.content_len (pkt_place dec.pkt_s at_run))) [
          | inl over ↦ rw over (refused (ground (arith, in_packet)))
          | inr within ↦
              rw within
                (elim (Bool-cases (ltb (pkt_bits_remaining dec.pkt_s at_run) (len * 8 % u64_mod))) [
                  | inl few ↦ rw few (refused (ground (arith, in_packet)))
                  | inr enough ↦ rw enough (
                      got-RunOf (read_bytes at_run len) (ground (arith, in_packet))
                        (read_bytes-BytesOf at_run len at_run-Skipped.valid at_boundary))
                ])
        ])
