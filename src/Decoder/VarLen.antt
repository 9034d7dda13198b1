-- ===== src/Decoder/VarLen.antt =====
-- decoder.c: variable-length integers, 7 bits in each byte and the highest bit set if more follow.
use actf.Common.{
  ℕ, zero, suc, ◌+◌, ◌/◌, min, bit_or, Bool, false, not, ltb, ◌==◌, ◌&&◌, ◌||◌, if◌then◌else◌, some,
}
use actf.Common.Lists.{length}
use actf.Common.Bits.{shl64}
use actf.Types.{Result, ok, err, not_enough_bits}
use actf.BReader.{BReader, lil_endian, set_bo, refill, peek, consume}
use actf.Decoder.{Decoder, PktState, pkt_place, pkt_bits_remaining, do_align, fail}
use actf.Decoder.Scalar.{Fld, sint, uint, sext, to_int64}

-- The loops' variables.
pub record VarLen : Type 0 where
  pub br : BReader
  pub result : ℕ
  pub shift : ℕ
  pub fin : Bool

-- The inner loop over the bytes of the lookahead. A shift by 64 or more, which C leaves undefined,
-- adds nothing here.
unfoldable pub var_len_bytes : ℕ → VarLen → VarLen
unfolding peek consume
var_len_bytes zero v = v
var_len_bytes (suc avail_bytes) v =
    let result = bit_or v.result (shl64 (peek v.br 7) v.shift) in
    let br = consume v.br 7 in
    let fin = peek br 1 == 0 in
    let v' : VarLen = record {
      br = consume br 1;
      result = result;
      shift = v.shift + 7;
      fin = fin;
    } in
    let rest = var_len_bytes avail_bytes v' in if v.fin then v else rest

-- The outer loop, on fuel.
unfoldable pub var_len_loop : ℕ → PktState → VarLen → Result (ℕ × ℕ) × BReader
unfolding refill pkt_bits_remaining var_len_bytes
var_len_loop zero pkt_s v = (err not_enough_bits, v.br)
var_len_loop (suc fuel) pkt_s v =
    let br = refill v.br in
    let w = var_len_bytes (br.lookahead_bit_cnt / 8) (record v { br = br }) in
    let rest = var_len_loop fuel pkt_s w in
    if br.lookahead_bit_cnt == 0
    then (err not_enough_bits, br)
    else if not w.fin && ltb (pkt_bits_remaining pkt_s w.br) 8
        || w.fin && ltb pkt_s.content_len (pkt_place pkt_s w.br)
    then (err not_enough_bits, w.br)
    else if w.fin
    then (ok (w.result, min w.shift 64), w.br)
    else rest

abbrev in_pkt : PktState → Result (ℕ × ℕ) × BReader → Result (ℕ × ℕ) × Decoder
in_pkt pkt_s (r, br) = (r, record { br = br; pkt_s = pkt_s })

-- The value and the number of its bits. Each round reads a byte, so that there is a round for each
-- byte of the stream and one more.
unfoldable pub var_len_int_decode : Decoder → Result (ℕ × ℕ) × Decoder
unfolding set_bo do_align pkt_bits_remaining var_len_loop
var_len_int_decode dec =
    let pkt_s = dec.pkt_s in
    let (within, br) = do_align (set_bo dec.br lil_endian) 8 pkt_s in
    if not within
    then fail not_enough_bits (record { br = br; pkt_s = pkt_s })
    else if ltb (pkt_bits_remaining pkt_s br) 8
    then fail not_enough_bits (record { br = br; pkt_s = pkt_s })
    else in_pkt pkt_s (
        var_len_loop (length br.bytes + 1) pkt_s
          (record { br = br; result = 0; shift = 0; fin = false }))

abbrev pub as_uint : Result (ℕ × ℕ) × Decoder → Result Fld × Decoder
as_uint (ok (uval, n_bits), dec) = (ok (uint uval (some n_bits)), dec)
as_uint (err rc, dec) = (err rc, dec)

abbrev pub as_sint : Result (ℕ × ℕ) × Decoder → Result Fld × Decoder
as_sint (ok (uval, n_bits), dec) = (ok (sint (to_int64 (sext uval n_bits))), dec)
as_sint (err rc, dec) = (err rc, dec)

unfoldable pub var_len_uint_decode : Decoder → Result Fld × Decoder
unfolding var_len_int_decode
var_len_uint_decode dec = as_uint (var_len_int_decode dec)

unfoldable pub var_len_sint_decode : Decoder → Result Fld × Decoder
unfolding var_len_int_decode sext
var_len_sint_decode dec = as_sint (var_len_int_decode dec)
