-- ===== src/Decoder/BitArr/Field.antt =====
-- fxd_len_bit_arr_decode of decoder.c: the field's value, the errors, and the place afterwards.
use actf.Common.{
  ℕ, ◌+◌, ◌-◌, ◌*◌, ◌%◌, ◌^◌, ◌≤◌, ◌<◌, min, bit_and, ◌≡◌, refl, sym, ap, ◌∙◌, inl, inr, arith,
  List, Bool, true, false, Bool-cases, not, ltb, leb, ◌==◌, ◌&&◌, if◌then◌else◌,
}
use native.Mathlib.Nat.{lt-div-mul-add}
use actf.Common.Lists.{length}
use actf.Common.Bits.{u64_mod, pow_pos}
use actf.Types.{Rc, Result, ok, err, not_enough_bits, mid_byte_endian_swap}
use actf.BReader.{
  ByteOrder, lil_endian, big_endian, BReader, by_bo, same_bo, set_bo, align, byte_aligned,
}
use actf.BReader.Stream.{IsValid}
use actf.BReader.Skip.{Skipped, align-Skipped, align_up}
use actf.Decoder.{
  pkt_last_bo, pkt_place, pkt_bits_remaining, Decoder, FxdLenBitArrFldCls, suffix_le, suffix_be,
  read_bit_arr, fxd_len_bit_arr_decodem, fxd_len_bit_arr_decode,
}
use actf.Decoder.BitArr.Parts.{suffix, do_align_bo-align, Ready, Set, set_bo-Set}
use actf.Decoder.BitArr.Value.{field_value}
use actf.Decoder.BitArr.Decode.{noted, read_bit_arr-BitsOf}

-- Where the field begins: at the next multiple of its alignment, if the stream goes so far.
abbrev pub field_start : Decoder → FxdLenBitArrFldCls → ℕ
field_start dec cls = min (align_up dec.br.tot_bit_cnt cls.align) (8 * length dec.br.bytes)

-- A change of byte order since the last field, inside a byte.
abbrev pub swaps_mid_byte : Decoder → FxdLenBitArrFldCls → Bool
swaps_mid_byte dec cls =
    not (bit_and dec.pkt_s.opt_flags pkt_last_bo == 0)
    && not (same_bo dec.pkt_s.last_bo cls.bo)
    && not (field_start dec cls % 8 == 0)

-- What the field decodes to, by the bits of the stream alone.
abbrev pub field_result : Decoder → FxdLenBitArrFldCls → Result ℕ
field_result dec cls =
    let i = field_start dec cls in
    if ltb dec.pkt_s.content_len (i - dec.pkt_s.bit_off + cls.len)
    then err not_enough_bits
    else if swaps_mid_byte dec cls
    then err mid_byte_endian_swap
    else if leb (i + cls.len) (8 * length dec.br.bytes)
    then ok (field_value cls.bo cls.bito dec.br.bytes i cls.len)
    else err not_enough_bits

pub record DecodesField (dec : Decoder) (cls : FxdLenBitArrFldCls) (r : Result ℕ × Decoder)
    : Type 0 where
  pub valid : IsValid r.1.br
  pub bo : r.1.br.bo ≡ cls.bo
  pub bytes : r.1.br.bytes ≡ dec.br.bytes
  pub result : r.0 ≡ field_result dec cls
  pub place : (x : ℕ) → r.0 ≡ ok x → r.1.br.tot_bit_cnt ≡ field_start dec cls + cls.len
  pub pkt_s : (x : ℕ) → r.0 ≡ ok x → r.1.pkt_s ≡ noted dec.pkt_s cls.bo

module _ (dec : Decoder) (cls : FxdLenBitArrFldCls) (a : ℕ) (v : IsValid dec.br)
    (ready : Ready dec.br cls.bo) (aligned_to : cls.align ≡ 2 ^ a) (a-lt : a < 64)
    (room : dec.br.tot_bit_cnt + cls.align ≤ u64_mod)
    (begun : dec.pkt_s.bit_off ≤ dec.br.tot_bit_cnt) (some_bits : 0 < cls.len)
    (small : cls.len ≤ 64) where
  abbrev at_field : BReader
  at_field = align (set_bo dec.br cls.bo) cls.align

  set-Set : Set dec.br cls.bo (set_bo dec.br cls.bo)
  set-Set = set_bo-Set dec.br cls.bo v ready

  at_field-Skipped :
      Skipped
        (set_bo dec.br cls.bo)
        (align_up (set_bo dec.br cls.bo).tot_bit_cnt (2 ^ a) - (set_bo dec.br cls.bo).tot_bit_cnt)
        at_field
  at_field-Skipped = rw aligned_to (
      align-Skipped (set_bo dec.br cls.bo) a set-Set.valid a-lt
        (omega (arith, set-Set.place, aligned_to)))

  at_field-bo : at_field.bo ≡ cls.bo
  at_field-bo = at_field-Skipped.bo ∙ set-Set.bo'

  at_field-bytes : at_field.bytes ≡ dec.br.bytes
  at_field-bytes = at_field-Skipped.bytes ∙ set-Set.bytes

  align_up-ge : dec.br.tot_bit_cnt ≤ align_up dec.br.tot_bit_cnt cls.align
  align_up-ge =
      let i = dec.br.tot_bit_cnt + cls.align - 1 in
      omega (
        arith,
        aligned_to,
        pow_pos a,
        lt-div-mul-add {a = i} {b = cls.align} (omega (arith, pow_pos a)),
      )

  at_field-place : at_field.tot_bit_cnt ≡ field_start dec cls
  at_field-place = omega (
    arith,
    at_field-Skipped.place,
    ap length set-Set.bytes,
    set-Set.place,
    align_up-ge,
    ap (λ (i : ℕ). align_up i (2 ^ a)) set-Set.place,
    ap (align_up dec.br.tot_bit_cnt) aligned_to,
  )

  in_packet : pkt_place dec.pkt_s at_field ≡ field_start dec cls - dec.pkt_s.bit_off
  in_packet = omega (arith, at_field-place, align_up-ge, v.counted, v.inside, v.fits)

  abbrev at_end : Decoder
  at_end = record { br = at_field; pkt_s = dec.pkt_s }

  -- An error before the reader is touched again.
  refused : (rc : Rc) → field_result dec cls ≡ err rc → DecodesField dec cls (err rc, at_end)
  refused rc e = record {
    valid = at_field-Skipped.valid;
    bo = at_field-bo;
    bytes = at_field-bytes;
    result = sym e;
    place = λ x h. cc;
    pkt_s = λ x h. cc;
  }

  -- What is left to do once the packet has room and the byte order may change.
  abbrev outcome : List ℕ → ℕ → Result ℕ
  outcome bytes i =
      if leb (i + cls.len) (8 * length bytes)
      then ok (field_value cls.bo cls.bito bytes i cls.len)
      else err not_enough_bits

  read :
      field_result dec cls ≡ outcome dec.br.bytes (field_start dec cls)
      → DecodesField dec cls (read_bit_arr (suffix cls.bo) cls dec.pkt_s at_field)
  read e =
      let b =
        read_bit_arr-BitsOf cls dec.pkt_s at_field small at_field-Skipped.valid at_field-bo
          some_bits in
      let there = leb (at_field.tot_bit_cnt + cls.len) (8 * length at_field.bytes) in
      record {
        valid = b.valid;
        bo = b.bo;
        bytes = b.bytes ∙ at_field-bytes;
        result = b.result ∙ (λ i. outcome (at_field-bytes i) (at_field-place i)) ∙ sym e;
        place = λ x h. elim (Bool-cases there) [
          | inl inside ↦ b.place inside ∙ ap (λ (i : ℕ). i + cls.len) at_field-place
          | inr out ↦ cc (rw out at b.result)
        ];
        pkt_s = λ x h. elim (Bool-cases there) [
          | inl inside ↦ rw inside at b.pkt_s'
          | inr out ↦ cc (rw out at b.result)
        ];
      }

  byte_aligned-eq : byte_aligned at_field ≡ (field_start dec cls % 8 == 0)
  unfolding byte_aligned
  byte_aligned-eq = ground (arith, at_field-Skipped.valid.counted, at_field-place)

  -- With room in the packet.
  roomy :
      ltb dec.pkt_s.content_len (field_start dec cls - dec.pkt_s.bit_off + cls.len) ≡ false
      → DecodesField dec cls (
          if not (bit_and dec.pkt_s.opt_flags pkt_last_bo == 0)
            && not (same_bo dec.pkt_s.last_bo cls.bo)
            && not (byte_aligned at_field)
          then (err mid_byte_endian_swap, at_end)
          else read_bit_arr (suffix cls.bo) cls dec.pkt_s at_field)
  roomy h = rw byte_aligned-eq (elim (Bool-cases (swaps_mid_byte dec cls)) [
    | inl swaps ↦ rw swaps (refused mid_byte_endian_swap (rw (h, swaps)))
    | inr keeps ↦ rw keeps (read (rw (h, keeps)))
  ])

  decodem-DecodesField : DecodesField dec cls (fxd_len_bit_arr_decodem (suffix cls.bo) dec cls)
  unfolding fxd_len_bit_arr_decodem pkt_bits_remaining
  decodem-DecodesField =
      let long = ltb dec.pkt_s.content_len (field_start dec cls - dec.pkt_s.bit_off + cls.len) in
      rw (do_align_bo-align cls.bo (set_bo dec.br cls.bo) set-Set.bo' cls.align dec.pkt_s)
        (elim (Bool-cases (ltb dec.pkt_s.content_len (pkt_place dec.pkt_s at_field))) [
          | inl over ↦
              let too_long : long ≡ true = ground (arith, in_packet) in
              rw over (refused not_enough_bits (rw too_long))
          | inr within ↦
              rw within (elim (Bool-cases (ltb (pkt_bits_remaining dec.pkt_s at_field) cls.len)) [
                | inl few ↦
                    let too_long : long ≡ true = ground (arith, in_packet) in
                    rw few (refused not_enough_bits (rw too_long))
                | inr enough ↦
                    let fits : long ≡ false = ground (arith, in_packet) in rw enough (roomy fits)
              ])
        ])

decode_by_bo :
    (bo : ByteOrder) (dec : Decoder) (cls : FxdLenBitArrFldCls)
    → by_bo bo
        (fxd_len_bit_arr_decodem suffix_le dec cls)
        (fxd_len_bit_arr_decodem suffix_be dec cls)
      ≡ fxd_len_bit_arr_decodem (suffix bo) dec cls
decode_by_bo lil_endian dec cls = refl
decode_by_bo big_endian dec cls = refl

-- A fixed-length bit array of 1 to 64 bits is decoded as the bits of the stream say: from the next
-- multiple of its alignment on, in its bit order, and only within the content of the packet and
-- the bytes of the stream. On success the reader stands behind it and the byte order is noted. The
-- reader must be at a byte boundary before the alignment, or keep its byte order.
pub fxd_len_bit_arr_decode-DecodesField :
    (dec : Decoder) (cls : FxdLenBitArrFldCls) (a : ℕ)
    → IsValid dec.br
    → Ready dec.br cls.bo
    → cls.align ≡ 2 ^ a
    → a < 64
    → dec.br.tot_bit_cnt + cls.align ≤ u64_mod
    → dec.pkt_s.bit_off ≤ dec.br.tot_bit_cnt
    → 0 < cls.len
    → cls.len ≤ 64
    → DecodesField dec cls (fxd_len_bit_arr_decode dec cls)
fxd_len_bit_arr_decode-DecodesField dec cls a v ready e l room begun z small =
    rw (decode-eq) (decodem-DecodesField dec cls a v ready e l room begun z small)
  where
    decode-eq : fxd_len_bit_arr_decode dec cls ≡ fxd_len_bit_arr_decodem (suffix cls.bo) dec cls
    decode-eq = unfold fxd_len_bit_arr_decode in decode_by_bo cls.bo dec cls
