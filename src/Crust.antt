-- ===== src/Crust.antt =====
-- crust/common.h: byte swapping and saturating addition.
pub mod Swap
mod Tests
use actf.Common.{ℕ, ◌-◌, bit_and, bit_or, ltb, if◌then◌else◌}
use actf.Common.Bits.{shl64, shr, add64, u64_mod}

unfoldable pub bswap64 : ℕ → ℕ
bswap64 x =
    let out = bit_or 0 (shr (bit_and x 0xff00_0000_0000_0000) 56) in
    let out = bit_or out (shr (bit_and x 0x00ff_0000_0000_0000) 40) in
    let out = bit_or out (shr (bit_and x 0x0000_ff00_0000_0000) 24) in
    let out = bit_or out (shr (bit_and x 0x0000_00ff_0000_0000) 8) in
    let out = bit_or out (shl64 (bit_and x 0x0000_0000_ff00_0000) 8) in
    let out = bit_or out (shl64 (bit_and x 0x0000_0000_00ff_0000) 24) in
    let out = bit_or out (shl64 (bit_and x 0x0000_0000_0000_ff00) 40) in
    let out = bit_or out (shl64 (bit_and x 0x0000_0000_0000_00ff) 56) in out

unfoldable pub sataddu64 : ℕ → ℕ → ℕ
sataddu64 a b = let r = add64 a b in if ltb r b then u64_mod - 1 else r
