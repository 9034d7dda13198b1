-- ===== src/Decoder/Scalar/Decoded.antt =====
-- What the fields of one bit array decode to, by the bits of the stream alone.
use actf.Common.{
  ℕ, ◌+◌, ◌-◌, ◌*◌, ◌^◌, ◌≤◌, ◌<◌, not, ltb, leb, ◌==◌, ◌≡◌, refl, ap, ◌∙◌, if◌then◌else◌,
  Bool-cases, inl, inr, none,
}
use actf.Common.Lists.{length}
use actf.Common.Bits.{u64_mod}
use actf.Types.{Result, ok, err, unsupported_length}
use actf.BReader.Stream.{IsValid}
use actf.Decoder.{Decoder, FxdLenBitArrFldCls, fxd_len_bit_arr_decode}
use actf.Decoder.BitArr.Parts.{Ready}
use actf.Decoder.BitArr.Value.{field_value-lt}
use actf.Decoder.BitArr.Field.{
  field_start, swaps_mid_byte, field_result, fxd_len_bit_arr_decode-DecodesField,
}
use actf.Decoder.Scalar.{
  Fld, sint, uint, bool_, bit_map, real_f32, real_f64, to_int64, sext, with_bit_arr,
  fxd_len_bit_map_decode, fxd_len_sint_decode, fxd_len_uint_decode, fxd_len_bool_decode,
  fxd_len_float_decode,
}
use actf.Decoder.Scalar.Sign.{twos_complement, sext-twos_complement}

-- The field's value is written where there is one; an error stays.
abbrev pub written : (ℕ → Result Fld) → Result ℕ → Result Fld
written f (ok x) = f x
written f (err rc) = err rc

pub with_bit_arr-written :
    (dec : Decoder) (cls : FxdLenBitArrFldCls) (f : ℕ → Result Fld)
    → (with_bit_arr dec cls f).0 ≡ written f (fxd_len_bit_arr_decode dec cls).0
with_bit_arr-written dec cls f = go (fxd_len_bit_arr_decode dec cls)
  where
    go :
        (r : Result ℕ × Decoder)
        → (elim r.0 as (λ t. Result Fld × Decoder) [
          | ok bit_arr ↦ (f bit_arr, r.1)
          | err rc ↦ (err rc, r.1)
        ]).0
          ≡ written f r.0
    go (ok x, d) = refl
    go (err rc, d) = refl

-- Writers that agree on every value of the field's length write the same.
written-ext :
    (dec : Decoder) (cls : FxdLenBitArrFldCls) (f g : ℕ → Result Fld)
    → ((x : ℕ) → x < 2 ^ cls.len → f x ≡ g x)
    → written f (field_result dec cls) ≡ written g (field_result dec cls)
written-ext dec cls f g h =
    let i = field_start dec cls in
    elim (Bool-cases (ltb dec.pkt_s.content_len (i - dec.pkt_s.bit_off + cls.len))) [
      | inl over ↦ rw over refl
      | inr within ↦ rw within (elim (Bool-cases (swaps_mid_byte dec cls)) [
        | inl swaps ↦ rw swaps refl
        | inr keeps ↦ rw keeps (elim (Bool-cases (leb (i + cls.len) (8 * length dec.br.bytes))) [
          | inl there ↦ rw there (h _ (field_value-lt cls.bo dec.br.bytes i cls.bito cls.len))
          | inr out ↦ rw out refl
        ])
      ])
    ]

module _ (dec : Decoder) (cls : FxdLenBitArrFldCls) (a : ℕ) (v : IsValid dec.br)
    (ready : Ready dec.br cls.bo) (aligned_to : cls.align ≡ 2 ^ a) (a-lt : a < 64)
    (room : dec.br.tot_bit_cnt + cls.align ≤ u64_mod)
    (begun : dec.pkt_s.bit_off ≤ dec.br.tot_bit_cnt) (some_bits : 0 < cls.len)
    (small : cls.len ≤ 64) where
  of_field : (f : ℕ → Result Fld) → (with_bit_arr dec cls f).0 ≡ written f (field_result dec cls)
  of_field f =
      let d =
        fxd_len_bit_arr_decode-DecodesField dec cls a v ready aligned_to a-lt room begun some_bits
          small in
      with_bit_arr-written dec cls f ∙ ap (written f) d.result

  -- A signed integer field of 1 to 64 bits decodes to the two's complement value of its bits in the stream, or fails as the bit array does, under the conditions of a fixed-length bit array.
  pub fxd_len_sint_decode-twos_complement :
      (fxd_len_sint_decode dec cls).0
      ≡ written (λ x. ok (sint (twos_complement cls.len x))) (field_result dec cls)
  unfolding fxd_len_sint_decode
  fxd_len_sint_decode-twos_complement =
      of_field (λ x. ok (sint (to_int64 (sext x cls.len))))
      ∙ written-ext dec cls _ _
          (λ x h. ap (λ t. ok (sint t)) (sext-twos_complement cls.len x some_bits small h))

  -- The other fields of one bit array hold its value in the stream: a bit map and an unsigned integer as it is, a Boolean whether it is not 0, a float as the word of its 32 or 64 bits, and other lengths of a float are refused; or they fail as the bit array does, under its conditions.
  pub scalars_decode-written :
      ((fxd_len_bit_map_decode dec cls).0 ≡ written (λ x. ok (bit_map x)) (field_result dec cls))
      × ((fxd_len_uint_decode dec cls).0 ≡ written (λ x. ok (uint x none)) (field_result dec cls))
      × ((fxd_len_bool_decode dec cls).0
          ≡ written (λ x. ok (bool_ (not (x == 0)))) (field_result dec cls))
      × ((fxd_len_float_decode dec cls).0
          ≡ written
              (λ x.
                if cls.len == 32
                then ok (real_f32 x)
                else if cls.len == 64
                then ok (real_f64 x)
                else err unsupported_length)
              (field_result dec cls))
  unfolding fxd_len_bit_map_decode fxd_len_uint_decode fxd_len_bool_decode fxd_len_float_decode
  scalars_decode-written = (
    of_field (λ x. ok (bit_map x)),
    of_field (λ x. ok (uint x none)),
    of_field (λ x. ok (bool_ (not (x == 0)))),
    of_field (λ x.
        if cls.len == 32
        then ok (real_f32 x)
        else if cls.len == 64
        then ok (real_f64 x)
        else err unsupported_length),
  )
