-- ===== src/BReader/Tests.antt =====
-- Runs of the bit reader, and the theorems at concrete inputs.
use actf.Common.{ℕ, ◌-◌, ◌*◌, ◌/◌, ◌^◌, ◌≡◌, refl, List, [], ◌∷◌, arith}
use actf.Common.{◌↔◌, true, ◌<◌}
use actf.Common.Lists.{length}
use actf.BReader.{
  lil_endian, big_endian, BReader, init, set_bo, peek, consume, refill, consume_checked, align,
  bits_remaining, bytes_remaining, has_bits_remaining, read_bits, read_bytes, seek, seek_cur,
}
use actf.Crust.{bswap64}
use actf.BReader.Stream.{IsValid, stream_value}
use actf.BReader.Refill.{Refilled, refill-Refilled}
use actf.BReader.Consume.{Consumed, consume-Consumed, peek-stream_value}
use actf.BReader.Skip.{Skipped, consume_checked-Skipped, align_up, align-Skipped}
use actf.BReader.Read.{init-IsValid, set_bo-IsValid, ReadOf, read_bits-ReadOf}
use actf.BReader.Bytes.{remaining_lem, BytesOf, read_bytes-BytesOf, target, seek-IsValid}

abbrev bytes : List ℕ
bytes = 0xe5 ∷ 0x81 ∷ 0x32 ∷ 0x47 ∷ 0x58 ∷ 0x69 ∷ 0x7a ∷ 0x8b ∷ 0x9c ∷ []

abbrev fresh : BReader
fresh = init bytes big_endian

fresh-IsValid : IsValid fresh
fresh-IsValid = init-IsValid bytes big_endian (omega arith) (omega arith)

-- A reader with a loaded lookahead.
abbrev loaded : BReader
loaded = refill fresh

loaded-IsValid : IsValid loaded
loaded-IsValid = (refill-Refilled fresh fresh-IsValid).valid

loaded_bits : loaded.lookahead_bit_cnt ≡ 56
unfolding refill init
loaded_bits = refl

-- 12 bits in either byte order.
twelve_be : (read_bits fresh 12).0 ≡ 0xe58
unfolding read_bits init bswap64
twelve_be = refl

twelve_le : (read_bits (init bytes lil_endian) 12).0 ≡ 0x1e5
unfolding read_bits init
twelve_le = refl

refill-Refilled_example : Refilled fresh (refill fresh)
refill-Refilled_example = refill-Refilled fresh fresh-IsValid

consume-Consumed_example : Consumed loaded 12 (consume loaded 12)
consume-Consumed_example = consume-Consumed loaded 12 loaded-IsValid (omega (arith, loaded_bits))

peek-stream_value_example :
    peek loaded 12 ≡ stream_value loaded.bo loaded.bytes loaded.tot_bit_cnt 12
peek-stream_value_example =
    peek-stream_value loaded 12 loaded-IsValid (omega arith) (omega (arith, loaded_bits))

consume_checked-Skipped_example : Skipped loaded 67 (consume_checked loaded 67)
consume_checked-Skipped_example = consume_checked-Skipped loaded 67 loaded-IsValid

loaded_place : loaded.tot_bit_cnt ≡ 0
unfolding refill init
loaded_place = refl

align-Skipped_example :
    Skipped loaded (align_up loaded.tot_bit_cnt (2 ^ 5) - loaded.tot_bit_cnt) (align loaded (2 ^ 5))
align-Skipped_example =
    align-Skipped loaded 5 loaded-IsValid (omega arith) (omega (arith, loaded_place))

set_bo-IsValid_example :
    IsValid (set_bo loaded lil_endian)
    × ((set_bo loaded lil_endian).bo ≡ lil_endian)
    × ((set_bo loaded lil_endian).bytes ≡ loaded.bytes)
    × ((set_bo loaded lil_endian).tot_bit_cnt ≡ loaded.tot_bit_cnt)
set_bo-IsValid_example =
    set_bo-IsValid loaded lil_endian loaded-IsValid (omega (arith, loaded_bits))

read_bits-ReadOf_example : ReadOf fresh 12 (read_bits fresh 12)
read_bits-ReadOf_example = read_bits-ReadOf fresh 12 fresh-IsValid (omega arith) (omega arith)

remaining_lem_example :
    (bits_remaining loaded ≡ 8 * length loaded.bytes - loaded.tot_bit_cnt)
    × (bytes_remaining loaded ≡ (8 * length loaded.bytes - loaded.tot_bit_cnt) / 8)
    × ((has_bits_remaining loaded ≡ true) ↔ (loaded.tot_bit_cnt < 8 * length loaded.bytes))
remaining_lem_example = remaining_lem loaded loaded-IsValid

read_bytes-BytesOf_example : BytesOf loaded 8 (read_bytes loaded 8)
read_bytes-BytesOf_example = read_bytes-BytesOf loaded 8 loaded-IsValid (omega (arith, loaded_bits))

seek-IsValid_example :
    IsValid (seek loaded 1 seek_cur)
    × ((seek loaded 1 seek_cur).tot_bit_cnt ≡ 8 * target loaded 1 seek_cur)
seek-IsValid_example = seek-IsValid loaded 1 seek_cur loaded-IsValid
