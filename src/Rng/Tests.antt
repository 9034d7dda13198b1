-- ===== src/Rng/Tests.antt =====
-- Sets of ranges at concrete inputs.
use actf.Common.{◌≡◌, refl, true, false, [], ◌∷◌, ◌↔◌, arith}
use actf.Common.Int.{ℤ, pos, negsuc}
use actf.Rng.{
  RngSet, sint, uint, rng_set_len, rng_set_intersect_rng_set, rng_set_intersect_sint,
  rng_set_intersect_uint, urng_intersect_srng,
}
use actf.Rng.Member.{In, rng_set_intersect_sint_iff, rng_set_intersect_uint_iff}
use actf.Rng.Overlap.{rng_set_intersect_rng_set_iff}

-- [-5, -2] and [3, 9]
abbrev signed_ranges : RngSet
signed_ranges =
    sint
      (record { lower = negsuc 4; upper = negsuc 1 } ∷ record { lower = pos 3; upper = pos 9 } ∷ [])

-- [0, 1] and [9, 12]
abbrev unsigned_ranges : RngSet
unsigned_ranges = uint (record { lower = 0; upper = 1 } ∷ record { lower = 9; upper = 12 } ∷ [])

two_ranges : rng_set_len signed_ranges ≡ 2
unfolding rng_set_len
two_ranges = refl

-- [0, 1] and [-5, 0]
across_zero :
    urng_intersect_srng
      (record { lower = 0; upper = 1 })
      (record { lower = negsuc 4; upper = pos 0 })
    ≡ true
unfolding urng_intersect_srng
across_zero = refl

below_zero :
    urng_intersect_srng
      (record { lower = 0; upper = 1 })
      (record { lower = negsuc 4; upper = negsuc 0 })
    ≡ false
unfolding urng_intersect_srng
below_zero = refl

rng_set_intersect_rng_set_iff_example :
    (rng_set_intersect_rng_set signed_ranges unsigned_ranges ≡ true)
    ↔ ((x : ℤ) × In x signed_ranges × In x unsigned_ranges)
rng_set_intersect_rng_set_iff_example =
    rng_set_intersect_rng_set_iff signed_ranges unsigned_ranges (ground arith) (ground arith)

rng_set_intersect_sint_iff_example :
    (rng_set_intersect_sint signed_ranges (negsuc 2) ≡ true) ↔ In (negsuc 2) signed_ranges
rng_set_intersect_sint_iff_example = rng_set_intersect_sint_iff signed_ranges (negsuc 2)

rng_set_intersect_uint_iff_example :
    (rng_set_intersect_uint signed_ranges 4 ≡ true) ↔ In (pos 4) signed_ranges
rng_set_intersect_uint_iff_example = rng_set_intersect_uint_iff signed_ranges 4 (ground arith)
