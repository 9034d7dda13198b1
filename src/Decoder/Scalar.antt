-- ===== src/Decoder/Scalar.antt =====
-- decoder.c and fld_int.h: the fields that are decoded from one fixed-length bit array.
-- A real number is the word that the union converts; the length that the union of an unsigned
-- value leaves unwritten is `none`.
pub mod Sign
pub mod Decoded
mod Tests
use actf.Common.{
  ℕ, ◌+◌, ◌-◌, ◌*◌, ◌^◌, bit_or, Bool, not, ltb, ◌==◌, ◌&&◌, if◌then◌else◌, Option, none, some,
}
use actf.Common.Int.{ℤ, pos, negsuc}
use actf.Common.Bits.{u64_mod, shl64, shr, sub64}
use actf.Types.{Rc, Result, ok, err, unsupported_length}
use actf.Decoder.{Decoder, FxdLenBitArrFldCls, fxd_len_bit_arr_decode}

-- struct actf_fld with its type and its union, without the members for containers. A string
-- or a blob is the offset of its first byte in the stream, and its length.
pub data Fld : Type 0 where
  nil : Fld
  bool_ : Bool → Fld
  sint : ℤ → Fld
  uint : ℕ → Option ℕ → Fld
  bit_map : ℕ → Fld
  real_f32 real_f64 : ℕ → Fld
  str blob : ℕ → ℕ → Fld

-- The conversion of a uint64_t to an int64_t.
abbrev pub to_int64 : ℕ → ℤ
to_int64 x = if ltb x (2 ^ 63) then pos x else negsuc (u64_mod - 1 - x)

unfoldable pub sext : ℕ → ℕ → ℕ
sext val n_bits =
    let sign_bit = shr val (n_bits - 1) in
    let sign_mask = sub64 (shl64 1 (64 - n_bits)) 1 in
    if ltb n_bits 64 && not (sign_bit == 0) then bit_or val (shl64 sign_mask n_bits) else val

-- What the decoders of this kind share: the bit array, or its error, and then the value.
abbrev pub with_bit_arr : Decoder → FxdLenBitArrFldCls → (ℕ → Result Fld) → Result Fld × Decoder
with_bit_arr dec cls write =
    let (r, dec) = fxd_len_bit_arr_decode dec cls in
    elim r [ ok bit_arr ↦ (write bit_arr, dec) | err rc ↦ (err rc, dec) ]

unfoldable pub fxd_len_bit_map_decode : Decoder → FxdLenBitArrFldCls → Result Fld × Decoder
unfolding fxd_len_bit_arr_decode
fxd_len_bit_map_decode dec cls = with_bit_arr dec cls (λ bit_arr. ok (bit_map bit_arr))

unfoldable pub fxd_len_sint_decode : Decoder → FxdLenBitArrFldCls → Result Fld × Decoder
unfolding fxd_len_bit_arr_decode sext
fxd_len_sint_decode dec cls =
    with_bit_arr dec cls (λ bit_arr. ok (sint (to_int64 (sext bit_arr cls.len))))

unfoldable pub fxd_len_uint_decode : Decoder → FxdLenBitArrFldCls → Result Fld × Decoder
unfolding fxd_len_bit_arr_decode
fxd_len_uint_decode dec cls = with_bit_arr dec cls (λ bit_arr. ok (uint bit_arr none))

unfoldable pub fxd_len_bool_decode : Decoder → FxdLenBitArrFldCls → Result Fld × Decoder
unfolding fxd_len_bit_arr_decode
fxd_len_bool_decode dec cls = with_bit_arr dec cls (λ bit_arr. ok (bool_ (not (bit_arr == 0))))

unfoldable pub fxd_len_float_decode : Decoder → FxdLenBitArrFldCls → Result Fld × Decoder
unfolding fxd_len_bit_arr_decode
fxd_len_float_decode dec cls = with_bit_arr dec cls (λ bit_arr.
    if cls.len == 32
    then ok (real_f32 bit_arr)
    else if cls.len == 64
    then ok (real_f64 bit_arr)
    else err unsupported_length)
