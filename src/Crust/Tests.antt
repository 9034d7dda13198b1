-- ===== src/Crust/Tests.antt =====
-- The byte swap and the saturating addition at concrete inputs.
use actf.Common.{◌≡◌, refl, ◌-◌}
use actf.Common.Bits.{u64_mod}
use actf.Crust.{bswap64, sataddu64}

swapped : bswap64 0x0102_0304_0506_0708 ≡ 0x0807_0605_0403_0201
unfolding bswap64
swapped = refl

saturated : sataddu64 0xffff_ffff_ffff_fff0 0x20 ≡ u64_mod - 1
unfolding sataddu64
saturated = refl
