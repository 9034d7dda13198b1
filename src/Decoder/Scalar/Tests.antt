-- ===== src/Decoder/Scalar/Tests.antt =====
-- Scalar fields at concrete inputs.
use actf.Common.{ℕ, ◌%◌, ◌≡◌, refl, List, [], ◌∷◌, inr, not, ◌==◌, none, arith}
use actf.Common.Int.{negsuc}
use actf.Crust.{bswap64}
use actf.Types.{ok, err, unsupported_length}
use actf.BReader.{lil_endian, big_endian, init}
use actf.BReader.Stream.{IsValid}
use actf.BReader.Read.{init-IsValid}
use actf.Decoder.{last_to_first, PktState, Decoder, FxdLenBitArrFldCls}
use actf.Decoder.BitArr.Field.{field_result}
use actf.Decoder.Scalar.{
  sint, uint, bool_, bit_map, to_int64, sext, fxd_len_bit_map_decode, fxd_len_sint_decode,
  fxd_len_uint_decode, fxd_len_bool_decode, fxd_len_float_decode,
}
use actf.Decoder.Scalar.Sign.{twos_complement, sext-twos_complement}
use actf.Decoder.Scalar.Decoded.{
  written, fxd_len_sint_decode-twos_complement, scalars_decode-written,
}

abbrev pkt : PktState
pkt = record {
  bit_off = 0;
  def_clk_val = 0;
  begin_def_clk_val = 0;
  disc_er_snap = 0;
  dsc_id = 0;
  ds_id = 0;
  last_bo = lil_endian;
  content_len = 0xffff_ffff_ffff_ffff;
  end_def_clk_val = 0;
  seq_num = 0;
  tot_len = 0xffff_ffff_ffff_ffff;
  opt_flags = 0;
}

abbrev bytes : List ℕ
bytes = 0xfd ∷ 0x81 ∷ 0x32 ∷ 0x47 ∷ []

abbrev start : Decoder
start = record { br = init bytes lil_endian; pkt_s = pkt }

abbrev twelve : FxdLenBitArrFldCls
twelve = record { len = 12; bo = big_endian; bito = last_to_first; align = 8 }

start-IsValid : IsValid start.br
start-IsValid = init-IsValid bytes lil_endian (omega arith) (omega arith)

empty : start.br.lookahead_bit_cnt % 8 ≡ 0
empty = unfold init in refl

place : start.br.tot_bit_cnt ≡ 0
place = unfold init in refl

-- 0xfd8 of 12 bits is -40.
minus_forty : (fxd_len_sint_decode start twelve).0 ≡ ok (sint (negsuc 39))
unfolding fxd_len_sint_decode init bswap64
minus_forty = refl

sext-twos_complement_example : to_int64 (sext 0xfd8 12) ≡ twos_complement 12 0xfd8
sext-twos_complement_example =
    sext-twos_complement 12 0xfd8 (omega arith) (omega arith) (omega arith)

fxd_len_sint_decode-twos_complement_example :
    (fxd_len_sint_decode start twelve).0
    ≡ written (λ x. ok (sint (twos_complement 12 x))) (field_result start twelve)
fxd_len_sint_decode-twos_complement_example =
    fxd_len_sint_decode-twos_complement start twelve 3 start-IsValid (inr empty) refl (omega arith)
      (omega (arith, place)) (omega arith) (omega arith) (omega arith)

scalars_decode-written_example :
    ((fxd_len_bit_map_decode start twelve).0
      ≡ written (λ x. ok (bit_map x)) (field_result start twelve))
    × ((fxd_len_uint_decode start twelve).0
        ≡ written (λ x. ok (uint x none)) (field_result start twelve))
    × ((fxd_len_bool_decode start twelve).0
        ≡ written (λ x. ok (bool_ (not (x == 0)))) (field_result start twelve))
    × ((fxd_len_float_decode start twelve).0
        ≡ written (λ x. err unsupported_length) (field_result start twelve))
scalars_decode-written_example =
    scalars_decode-written start twelve 3 start-IsValid (inr empty) refl (omega arith)
      (omega (arith, place)) (omega arith) (omega arith) (omega arith)
