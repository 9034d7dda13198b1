-- ===== src/Decoder.antt =====
-- decoder.c and pkt_state.h: the state of a decoder while it reads fields.
-- The texts that eprintf and eprependf write are left out: a failing call is its return code.
pub mod Reverse
pub mod BitArr
pub mod Scalar
pub mod Clock
pub mod Str
pub mod FldCls
pub mod VarLen
pub mod Field
pub mod Packets
mod Tests
use actf.Common.{
  ℕ, zero, suc, ◌+◌, ◌-◌, ◌*◌, ◌/◌, ◌%◌, ◌^◌, min, bit_and, bit_or, Bool, true, false, not, ◌&&◌,
  ◌||◌, ltb, leb, ◌==◌, if◌then◌else◌,
}
use actf.Common.Bits.{u64_mod, shl64, shr, add64, sub64}
use actf.Types.{Rc, Result, ok, err, not_enough_bits, mid_byte_endian_swap}
use actf.BReader.{
  ByteOrder, lil_endian, big_endian, BReader, by_bo, same_bo, set_bo, align_le, align_be, refill_le,
  refill_be, peek_le, peek_be, consume_le, consume_be, byte_aligned,
}

pub data BitOrder : Type 0 where
  first_to_last last_to_first : BitOrder

-- The bits of opt_flags.
abbrev pub pkt_last_bo : ℕ
pkt_last_bo = 8

abbrev pub pkt_end_def_clk_val : ℕ
pkt_end_def_clk_val = 16

abbrev pub pkt_seq_num : ℕ
pkt_seq_num = 32

-- The pointer to the data stream class is left out.
pub record PktState : Type 0 where
  pub bit_off : ℕ
  pub def_clk_val : ℕ
  pub begin_def_clk_val : ℕ
  pub disc_er_snap : ℕ
  pub dsc_id : ℕ
  pub ds_id : ℕ
  pub last_bo : ByteOrder
  pub content_len : ℕ
  pub end_def_clk_val : ℕ
  pub seq_num : ℕ
  pub tot_len : ℕ
  pub opt_flags : ℕ

-- The fields that the routine leaves alone keep what they hold.
unfoldable pub pkt_state_init : PktState → PktState
pkt_state_init pkt = record pkt {
  bit_off = 0;
  def_clk_val = 0;
  begin_def_clk_val = 0;
  dsc_id = 0;
  content_len = u64_mod - 1;
  tot_len = u64_mod - 1;
  opt_flags = 0;
}

pub record Decoder : Type 0 where
  pub br : BReader
  pub pkt_s : PktState

-- The place from the beginning of the packet: br->tot_bit_cnt - pkt_s->bit_off.
abbrev pub pkt_place : PktState → BReader → ℕ
pkt_place pkt_s br = sub64 br.tot_bit_cnt pkt_s.bit_off

unfoldable pub pkt_bits_remaining : PktState → BReader → ℕ
pkt_bits_remaining pkt_s br =
    if ltb (pkt_place pkt_s br) pkt_s.content_len then pkt_s.content_len - pkt_place pkt_s br else 0

-- Whether the place is still within the content, and the aligned reader.
unfoldable pub do_alignm : (BReader → ℕ → BReader) → BReader → ℕ → PktState → Bool × BReader
do_alignm align_bo br n pkt_s =
    let br = align_bo br n in (not (ltb pkt_s.content_len (pkt_place pkt_s br)), br)

unfoldable pub do_align_le : BReader → ℕ → PktState → Bool × BReader
unfolding do_alignm align_le
do_align_le = do_alignm align_le

unfoldable pub do_align_be : BReader → ℕ → PktState → Bool × BReader
unfolding do_alignm align_be
do_align_be = do_alignm align_be

unfoldable pub do_align : BReader → ℕ → PktState → Bool × BReader
unfolding do_align_le do_align_be
do_align br n pkt_s = by_bo br.bo (do_align_le br n pkt_s) (do_align_be br n pkt_s)

-- The loop `for (v >>= 1; v; v >>= 1)`, on fuel; `v` is already shifted. It ends with r and s.
unfoldable pub reverse_loop : ℕ → ℕ → ℕ → ℕ → ℕ × ℕ
reverse_loop zero v r s = (r, s)
reverse_loop (suc fuel) v r s =
    let more = reverse_loop fuel (shr v 1) (bit_or (shl64 r 1) (bit_and v 1)) (s - 1) in
    if v == 0 then (r, s) else more

-- `v` has 64 digits, so 64 rounds are enough.
unfoldable pub reverse_bits : ℕ → ℕ → ℕ
unfolding reverse_loop
reverse_bits v len = let (r, s) = reverse_loop 64 (shr v 1) v 63 in shr (shl64 r s) (64 - len)

pub record FxdLenBitArrFldCls : Type 0 where
  pub len : ℕ
  pub bo : ByteOrder
  pub bito : BitOrder
  pub align : ℕ

unfoldable pub needs_reverse_bits_le : BitOrder → Bool
needs_reverse_bits_le last_to_first = true
needs_reverse_bits_le first_to_last = false

unfoldable pub needs_reverse_bits_be : BitOrder → Bool
needs_reverse_bits_be first_to_last = true
needs_reverse_bits_be last_to_first = false

unfoldable pub read_upper_bits_le : BReader → ℕ → ℕ → ℕ → ℕ
read_upper_bits_le br result remain_bits first_bits =
    bit_or result (shl64 (peek_le br remain_bits) first_bits)

unfoldable pub read_upper_bits_be : BReader → ℕ → ℕ → ℕ → ℕ
read_upper_bits_be br result remain_bits first_bits =
    bit_or (shl64 result remain_bits) (peek_be br remain_bits)

-- What the macro fxd_len_bit_arr_decodem is given by its suffix.
pub record Suffix : Type 0 where
  pub do_align_bo : BReader → ℕ → PktState → Bool × BReader
  pub refill_bo : BReader → BReader
  pub peek_bo : BReader → ℕ → ℕ
  pub consume_bo : BReader → ℕ → BReader
  pub read_upper_bits_bo : BReader → ℕ → ℕ → ℕ → ℕ
  pub needs_reverse_bits_bo : BitOrder → Bool

abbrev pub suffix_le : Suffix
suffix_le = record {
  do_align_bo = do_align_le;
  refill_bo = refill_le;
  peek_bo = peek_le;
  consume_bo = consume_le;
  read_upper_bits_bo = read_upper_bits_le;
  needs_reverse_bits_bo = needs_reverse_bits_le;
}

abbrev pub suffix_be : Suffix
suffix_be = record {
  do_align_bo = do_align_be;
  refill_bo = refill_be;
  peek_bo = peek_be;
  consume_bo = consume_be;
  read_upper_bits_bo = read_upper_bits_be;
  needs_reverse_bits_bo = needs_reverse_bits_be;
}

abbrev pub fail {ℓ} : {A : Type ℓ} → Rc → Decoder → Result A × Decoder
fail rc dec = (err rc, dec)

-- The end of the macro: the order of the digits, and the byte order for the next field.
unfoldable pub finish_bit_arr :
    Suffix → FxdLenBitArrFldCls → PktState → BReader → ℕ → Result ℕ × Decoder
unfolding reverse_bits needs_reverse_bits_le needs_reverse_bits_be
finish_bit_arr m cls pkt_s br result =
    let val = if m.needs_reverse_bits_bo cls.bito then reverse_bits result cls.len else result in
    (
      ok val,
      record {
        br = br;
        pkt_s = record pkt_s { last_bo = cls.bo; opt_flags = bit_or pkt_s.opt_flags pkt_last_bo };
      },
    )

-- The middle: up to two peeks, since the lookahead may hold fewer bits than the field.
unfoldable pub read_bit_arr : Suffix → FxdLenBitArrFldCls → PktState → BReader → Result ℕ × Decoder
unfolding finish_bit_arr refill_le refill_be peek_le peek_be consume_le consume_be
    read_upper_bits_le read_upper_bits_be
read_bit_arr m cls pkt_s br =
    let br = m.refill_bo br in
    let avail_bits = br.lookahead_bit_cnt in
    let first_bits = min avail_bits cls.len in
    let result = m.peek_bo br first_bits in
    let br_first = m.consume_bo br first_bits in
    let remain_bits = cls.len - first_bits in
    let br_second = m.refill_bo br_first in
    if avail_bits == 0
    then fail not_enough_bits (record { br = br; pkt_s = pkt_s })
    else if remain_bits == 0
    then finish_bit_arr m cls pkt_s br_first result
    else if ltb br_second.lookahead_bit_cnt remain_bits
    then fail not_enough_bits (record { br = br_second; pkt_s = pkt_s })
    else finish_bit_arr m cls pkt_s (m.consume_bo br_second remain_bits)
        (m.read_upper_bits_bo br_second result remain_bits first_bits)

unfoldable pub fxd_len_bit_arr_decodem : Suffix → Decoder → FxdLenBitArrFldCls → Result ℕ × Decoder
fxd_len_bit_arr_decodem m dec cls =
    let pkt_s = dec.pkt_s in
    let (within, br) = m.do_align_bo (set_bo dec.br cls.bo) cls.align pkt_s in
    let dec' : Decoder = record { br = br; pkt_s = pkt_s } in
    if not within
    then fail not_enough_bits dec'
    else if ltb (pkt_bits_remaining pkt_s br) cls.len
    then fail not_enough_bits dec'
    else if not (bit_and pkt_s.opt_flags pkt_last_bo == 0)
        && not (same_bo pkt_s.last_bo cls.bo)
        && not (byte_aligned br)
    then fail mid_byte_endian_swap dec'
    else read_bit_arr m cls pkt_s br

unfoldable pub fxd_len_bit_arr_decode : Decoder → FxdLenBitArrFldCls → Result ℕ × Decoder
unfolding fxd_len_bit_arr_decodem set_bo do_align_le do_align_be pkt_bits_remaining same_bo
    byte_aligned read_bit_arr
fxd_len_bit_arr_decode dec cls =
    by_bo cls.bo (fxd_len_bit_arr_decodem suffix_le dec cls)
      (fxd_len_bit_arr_decodem suffix_be dec cls)
