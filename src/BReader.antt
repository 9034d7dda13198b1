-- ===== src/BReader.antt =====
-- breader.h and breader.c: the bit reader, over the bytes from start_ptr to end_ptr.
-- Pointers are offsets from start_ptr, so end_ptr is the number of bytes. A macro that takes a
-- shift, a byte swap or a suffix le/be is a function that takes these. The host is little endian
-- (WORDS_BIGENDIAN is not defined). An assert is a hypothesis of the theorems.
pub mod Stream
pub mod Word
pub mod Refill
pub mod Consume
pub mod Skip
pub mod Read
pub mod Bytes
mod Tests
use actf.Common.{
  ℕ, zero, suc, ◌+◌, ◌-◌, ◌*◌, ◌/◌, ◌%◌, ◌^◌, bit_and, bit_or, Bool, true, false, not, ◌||◌, Option,
  none, some, List, [], ◌∷◌, ltb, leb, ◌==◌, if◌then◌else◌,
}
use actf.Common.Lists.{length, drop}
use actf.Common.Bits.{u64_mod, shl64, shr, add64, sub64}
use actf.Crust.{bswap64}

pub data ByteOrder : Type 0 where
  lil_endian big_endian : ByteOrder

abbrev pub max_read_bits : ℕ
max_read_bits = 56

pub record BReader : Type 0 where
  pub bo : ByteOrder
  pub bytes : List ℕ
  pub read_ptr : ℕ
  pub lookahead : ℕ
  pub lookahead_bit_cnt : ℕ
  pub tot_bit_cnt : ℕ

unfoldable pub init : List ℕ → ByteOrder → BReader
init bytes bo = record {
  bo = bo;
  bytes = bytes;
  read_ptr = 0;
  lookahead = 0;
  lookahead_bit_cnt = 0;
  tot_bit_cnt = 0;
}

unfoldable pub same_bo : ByteOrder → ByteOrder → Bool
same_bo lil_endian lil_endian = true
same_bo big_endian big_endian = true
same_bo _ _ = false

unfoldable pub set_bo : BReader → ByteOrder → BReader
unfolding same_bo
set_bo br bo =
    if same_bo br.bo bo then br else record br { lookahead = bswap64 br.lookahead; bo = bo }

-- `if (br->bo == ACTF_LIL_ENDIAN)`, the choice between a function's two versions.
abbrev pub by_bo {ℓ} : {A : Type ℓ} → ByteOrder → A → A → A
by_bo lil_endian le be = le
by_bo big_endian le be = be

unfoldable pub peek_le : BReader → ℕ → ℕ
peek_le br cnt = bit_and br.lookahead (sub64 (shl64 1 cnt) 1)

unfoldable pub peek_be : BReader → ℕ → ℕ
peek_be br cnt = shr br.lookahead (64 - cnt)

unfoldable pub peek : BReader → ℕ → ℕ
unfolding peek_le peek_be
peek br cnt = by_bo br.bo (peek_le br cnt) (peek_be br cnt)

unfoldable pub consumem : (ℕ → ℕ → ℕ) → BReader → ℕ → BReader
consumem shft br cnt = record br {
  lookahead = shft br.lookahead cnt;
  lookahead_bit_cnt = sub64 br.lookahead_bit_cnt cnt;
  tot_bit_cnt = add64 br.tot_bit_cnt cnt;
}

unfoldable pub consume_le : BReader → ℕ → BReader
unfolding consumem
consume_le = consumem shr

unfoldable pub consume_be : BReader → ℕ → BReader
unfolding consumem
consume_be = consumem shl64

unfoldable pub consume : BReader → ℕ → BReader
unfolding consume_le consume_be
consume br cnt = by_bo br.bo (consume_le br cnt) (consume_be br cnt)

-- memcpy of the first `n` bytes into a zeroed uint64_t.
unfoldable pub word : ℕ → List ℕ → ℕ
word zero bs = 0
word (suc n) [] = 0
word (suc n) (b ∷ bs) = b + 256 * word n bs

unfoldable pub read_unalign_64 : List ℕ → ℕ
unfolding word
read_unalign_64 = word 8

abbrev pub htole64 : ℕ → ℕ
htole64 x = x

abbrev pub htobe64 : ℕ → ℕ
htobe64 x = bswap64 x

unfoldable pub refillm : (ℕ → ℕ → ℕ) → (ℕ → ℕ) → BReader → BReader
unfolding read_unalign_64
refillm shft htobo64 br =
    let n_bytes = length br.bytes - br.read_ptr in
    let cnt = br.lookahead_bit_cnt in
    let n_used_bytes = shr (63 - cnt) 3 in
    let rest = drop br.read_ptr br.bytes in
    if leb 8 n_bytes
    then record br {
      lookahead = bit_or br.lookahead (shft (htobo64 (read_unalign_64 rest)) cnt);
      read_ptr = br.read_ptr + n_used_bytes;
      lookahead_bit_cnt = bit_or cnt max_read_bits;
    }
    else (let n_used_bytes = if ltb n_bytes n_used_bytes then n_bytes else n_used_bytes in
        record br {
          lookahead = bit_or br.lookahead (shft (htobo64 (word n_bytes rest)) cnt);
          read_ptr = br.read_ptr + n_used_bytes;
          lookahead_bit_cnt = cnt + n_used_bytes * 8;
        })

-- The number that the function returns is the new lookahead_bit_cnt.
unfoldable pub refill_le : BReader → BReader
unfolding refillm
refill_le = refillm shl64 htole64

unfoldable pub refill_be : BReader → BReader
unfolding refillm
refill_be = refillm shr htobe64

unfoldable pub refill : BReader → BReader
unfolding refill_le refill_be
refill br = by_bo br.bo (refill_le br) (refill_be br)

unfoldable pub byte_aligned : BReader → Bool
byte_aligned br = br.lookahead_bit_cnt % 8 == 0

unfoldable pub consume_checkedm :
    (BReader → ℕ → BReader) → (BReader → BReader) → BReader → ℕ → BReader
consume_checkedm consume_bo refill_bo br cnt =
    if leb cnt br.lookahead_bit_cnt
    then consume_bo br cnt
    else (let to_consume = cnt - br.lookahead_bit_cnt in
        let br = record (consume_bo br br.lookahead_bit_cnt) { lookahead = 0 } in
        let bytes_to_consume = shr to_consume 3 in
        let avail_bytes_to_consume = length br.bytes - br.read_ptr in
        if leb avail_bytes_to_consume bytes_to_consume
        then record br {
          read_ptr = br.read_ptr + avail_bytes_to_consume;
          tot_bit_cnt = add64 br.tot_bit_cnt (avail_bytes_to_consume * 8);
        }
        else (let br = record br {
          read_ptr = br.read_ptr + bytes_to_consume;
          tot_bit_cnt = add64 br.tot_bit_cnt (bytes_to_consume * 8);
        } in
            let bits_to_consume = bit_and to_consume 7 in consume (refill_bo br) bits_to_consume))

unfoldable pub consume_checked_le : BReader → ℕ → BReader
unfolding consume_checkedm consume_le refill_le consume
consume_checked_le = consume_checkedm consume_le refill_le

unfoldable pub consume_checked_be : BReader → ℕ → BReader
unfolding consume_checkedm consume_be refill_be consume
consume_checked_be = consume_checkedm consume_be refill_be

unfoldable pub consume_checked : BReader → ℕ → BReader
unfolding consume_checked_le consume_checked_be
consume_checked br cnt = by_bo br.bo (consume_checked_le br cnt) (consume_checked_be br cnt)

-- `-align` is 2 ^ 64 - align.
unfoldable pub alignm : (BReader → ℕ → BReader) → BReader → ℕ → BReader
alignm consume_checked_bo br align =
    let new_tot_bit_cnt = bit_and (sub64 (add64 br.tot_bit_cnt align) 1) (sub64 0 align) in
    let to_be_consumed = sub64 new_tot_bit_cnt br.tot_bit_cnt in
    consume_checked_bo br to_be_consumed

unfoldable pub align_le : BReader → ℕ → BReader
unfolding alignm consume_checked_le
align_le = alignm consume_checked_le

unfoldable pub align_be : BReader → ℕ → BReader
unfolding alignm consume_checked_be
align_be = alignm consume_checked_be

unfoldable pub align : BReader → ℕ → BReader
unfolding align_le align_be
align br n = by_bo br.bo (align_le br n) (align_be br n)

unfoldable pub bits_remaining : BReader → ℕ
bits_remaining br = add64 ((length br.bytes - br.read_ptr) * 8 % u64_mod) br.lookahead_bit_cnt

unfoldable pub has_bits_remaining : BReader → Bool
has_bits_remaining br = not (br.lookahead_bit_cnt == 0) || ltb br.read_ptr (length br.bytes)

unfoldable pub bytes_remaining : BReader → ℕ
bytes_remaining br = length br.bytes - br.read_ptr + shr br.lookahead_bit_cnt 3

unfoldable pub peek_bytes : BReader → ℕ
peek_bytes br = br.read_ptr - shr br.lookahead_bit_cnt 3

-- Short input gives UINT64_MAX, and then only the refill has happened.
unfoldable pub read_bits : BReader → ℕ → ℕ × BReader
unfolding refill peek consume
read_bits br cnt =
    let refilled = refill br in
    if ltb br.lookahead_bit_cnt cnt
    then (if ltb refilled.lookahead_bit_cnt cnt
        then (u64_mod - 1, refilled)
        else (peek refilled cnt, consume refilled cnt))
    else (peek br cnt, consume br cnt)

-- The uint8_t return value is cut to 8 bits.
unfoldable pub read_bit : BReader → ℕ × BReader
unfolding read_bits
read_bit br = let (res, br') = read_bits br 1 in (res % 256, br')

-- `none` is NULL; otherwise the offset of the bytes.
unfoldable pub read_bytes : BReader → ℕ → Option ℕ × BReader
unfolding bytes_remaining consume_checked
read_bytes br cnt =
    if ltb (bytes_remaining br) cnt
    then (none, br)
    else (some (br.read_ptr - shr br.lookahead_bit_cnt 3), consume_checked br (cnt * 8 % u64_mod))

pub data SeekOp : Type 0 where
  seek_set seek_cur seek_end : SeekOp

seek_ptr : BReader → ℕ → SeekOp → ℕ
seek_ptr br off seek_set = if ltb off (length br.bytes) then off else length br.bytes
seek_ptr br off seek_cur =
    if ltb off (length br.bytes - br.read_ptr) then br.read_ptr + off else length br.bytes
seek_ptr br off seek_end = length br.bytes

unfoldable pub seek : BReader → ℕ → SeekOp → BReader
unfolding seek_ptr
seek br off whence =
    let read_ptr = seek_ptr br off whence in
    record br {
      read_ptr = read_ptr;
      tot_bit_cnt = read_ptr * 8 % u64_mod;
      lookahead = 0;
      lookahead_bit_cnt = 0;
    }
