-- ===== src/Decoder/Tests.antt =====
-- Runs of the decoder, and the theorems at concrete inputs.
use actf.Common.{ℕ, ◌≡◌, refl, inr, List, [], ◌∷◌, arith, ◌%◌, ◌-◌}
use actf.Common.Bits.{bit, of_bits}
use actf.Crust.{bswap64}
use actf.Types.{ok}
use actf.BReader.{lil_endian, big_endian, init}
use actf.BReader.Stream.{IsValid}
use actf.BReader.Read.{init-IsValid}
use actf.Decoder.{
  first_to_last, last_to_first, PktState, Decoder, FxdLenBitArrFldCls, reverse_bits,
  fxd_len_bit_arr_decode,
}
use actf.Decoder.Reverse.{reverse_bits-of_bits}
use actf.Decoder.BitArr.Field.{field_result, DecodesField, fxd_len_bit_arr_decode-DecodesField}

abbrev blank : PktState
blank = record {
  bit_off = 0;
  def_clk_val = 0;
  begin_def_clk_val = 0;
  disc_er_snap = 0;
  dsc_id = 0;
  ds_id = 0;
  last_bo = lil_endian;
  content_len = 0xffff_ffff_ffff_ffff;
  end_def_clk_val = 0;
  seq_num = 0;
  tot_len = 0xffff_ffff_ffff_ffff;
  opt_flags = 0;
}

abbrev bytes : List ℕ
bytes = 0xe5 ∷ 0x81 ∷ 0x32 ∷ 0x47 ∷ 0x58 ∷ 0x69 ∷ 0x7a ∷ 0x8b ∷ 0x9c ∷ 0xad ∷ []

abbrev start : Decoder
start = record { br = init bytes lil_endian; pkt_s = blank }

abbrev five : FxdLenBitArrFldCls
five = record { len = 5; bo = lil_endian; bito = first_to_last; align = 1 }

abbrev byte_be : FxdLenBitArrFldCls
byte_be = record { len = 8; bo = big_endian; bito = last_to_first; align = 8 }

abbrev long_le : FxdLenBitArrFldCls
long_le = record { len = 64; bo = lil_endian; bito = first_to_last; align = 1 }

start-IsValid : IsValid start.br
start-IsValid = init-IsValid bytes lil_endian (omega arith) (omega arith)

-- Five bits, then 64 that need two peeks.
abbrev after_five : Decoder
after_five = (fxd_len_bit_arr_decode start five).1

five_bits : (fxd_len_bit_arr_decode start five).0 ≡ ok 5
unfolding fxd_len_bit_arr_decode init
five_bits = refl

long_bits : (fxd_len_bit_arr_decode after_five long_le).0 ≡ ok 16454977981567833103
unfolding fxd_len_bit_arr_decode init
long_bits = refl

-- A big-endian byte on the next byte boundary, after five little-endian bits, is 0x81 in the
-- stream. The byte order is changed before the alignment, while the lookahead begins inside a
-- byte, and 0x7c comes out.
byte_after_five : (fxd_len_bit_arr_decode after_five byte_be).0 ≡ ok 0x7c
unfolding fxd_len_bit_arr_decode init bswap64
byte_after_five = refl

byte_in_stream : field_result after_five byte_be ≡ ok 0x81
unfolding fxd_len_bit_arr_decode init bit of_bits
byte_in_stream = refl

fxd_len_bit_arr_decode-DecodesField_example :
    DecodesField start byte_be (fxd_len_bit_arr_decode start byte_be)
fxd_len_bit_arr_decode-DecodesField_example =
    fxd_len_bit_arr_decode-DecodesField start byte_be 3 start-IsValid (inr empty) refl (omega arith)
      (omega (arith, place)) (omega arith) (omega arith) (omega arith)
  where
    empty : start.br.lookahead_bit_cnt % 8 ≡ 0
    empty = unfold init in refl

    place : start.br.tot_bit_cnt ≡ 0
    place = unfold init in refl

reverse_bits-of_bits_example : reverse_bits 6 5 ≡ of_bits 5 (λ k. bit (5 - 1 - k) 6)
reverse_bits-of_bits_example = reverse_bits-of_bits 6 5 (omega arith) (omega arith)
