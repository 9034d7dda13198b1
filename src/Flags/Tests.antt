-- ===== src/Flags/Tests.antt =====
-- Flags at concrete inputs.
use actf.Common.{◌≡◌, refl, suc, List, [], ◌∷◌, some, if◌then◌else◌, arith}
use actf.Common.Lists.{length}
use actf.Common.Bits.{bit}
use actf.Rng.{Urng, urng_set_intersect}
use actf.Flags.{UMapping, make_bit_mask, flags_init, flags_find_first_match}
use actf.Flags.Masks.{bit-make_bit_mask}
use actf.Flags.Find.{find_all, names_hit, find_all-names_hit}

-- Bits 0 and 4 to 7 are named "a", bits 2 to 3 "b", bits 60 to 99 "c".
abbrev low_and_high : List Urng
low_and_high = record { lower = 0; upper = 0 } ∷ record { lower = 4; upper = 7 } ∷ []

abbrev three_flags : List UMapping
three_flags =
    record { rng_set = low_and_high; name = 97 ∷ [] }
    ∷ record { rng_set = record { lower = 2; upper = 3 } ∷ []; name = 98 ∷ [] }
    ∷ record { rng_set = record { lower = 60; upper = 99 } ∷ []; name = 99 ∷ [] }
    ∷ []

low_mask : make_bit_mask low_and_high ≡ 0xf1
unfolding make_bit_mask
low_mask = refl

first_match : flags_find_first_match (flags_init three_flags) 0x8000_0000_0000_0004 ≡ some (98 ∷ [])
unfolding flags_find_first_match flags_init
first_match = refl

bit-make_bit_mask_example :
    bit 5 (make_bit_mask low_and_high) ≡ (if urng_set_intersect low_and_high 5 then 1 else 0)
bit-make_bit_mask_example = bit-make_bit_mask low_and_high 5 (omega arith)

find_all-names_hit_example :
    find_all (suc (length three_flags)) (flags_init three_flags) 0x8000_0000_0000_0004 0
    ≡ names_hit three_flags 0x8000_0000_0000_0004
find_all-names_hit_example = find_all-names_hit three_flags 0x8000_0000_0000_0004 (omega arith)
