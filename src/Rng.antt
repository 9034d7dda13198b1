-- ===== src/Rng.antt =====
-- rng.h, rng_int.h and rng.c: sets of integer ranges, over int64_t or over uint64_t.
-- The tag and the union of actf_rng_set are one data type; the arrays are lists.
pub mod Member
pub mod Overlap
mod Tests
use actf.Common.{ℕ, Bool, true, false, not, ◌&&◌, ◌||◌, List, ltb, leb, if◌then◌else◌}
use actf.Common.Lists.{length, any}
use actf.Common.Int.{ℤ, pos, negsuc, pos_part, ltb_ℤ, leb_ℤ}

pub record Srng : Type 0 where
  pub lower : ℤ
  pub upper : ℤ

pub record Urng : Type 0 where
  pub lower : ℕ
  pub upper : ℕ

pub data RngSet : Type 0 where
  sint : List Srng → RngSet
  uint : List Urng → RngSet

unfoldable pub rng_set_len : RngSet → ℕ
rng_set_len (sint rngs) = length rngs
rng_set_len (uint rngs) = length rngs

unfoldable pub urng_intersect_urng : Urng → Urng → Bool
urng_intersect_urng a b = not (ltb a.upper b.lower || ltb b.upper a.lower)

unfoldable pub srng_intersect_srng : Srng → Srng → Bool
srng_intersect_srng a b = not (ltb_ℤ a.upper b.lower || ltb_ℤ b.upper a.lower)

-- The urng of MAX(0, lower) and of upper, which is not negative here.
abbrev pub to_urng : Srng → Urng
to_urng rng = record { lower = pos_part rng.lower; upper = pos_part rng.upper }

unfoldable pub urng_intersect_srng : Urng → Srng → Bool
unfolding urng_intersect_urng
urng_intersect_srng a b = if ltb_ℤ b.upper (pos 0) then false else urng_intersect_urng a (to_urng b)

unfoldable pub urng_set_intersect_urng : List Urng → Urng → Bool
unfolding urng_intersect_urng
urng_set_intersect_urng rngs rng = any (λ r. urng_intersect_urng r rng) rngs

unfoldable pub srng_set_intersect_srng : List Srng → Srng → Bool
unfolding srng_intersect_srng
srng_set_intersect_srng rngs rng = any (λ r. srng_intersect_srng r rng) rngs

unfoldable pub urng_set_intersect_srng : List Urng → Srng → Bool
unfolding urng_set_intersect_urng
urng_set_intersect_srng rngs rng =
    if ltb_ℤ rng.upper (pos 0) then false else urng_set_intersect_urng rngs (to_urng rng)

unfoldable pub rng_set_intersect_rng_set : RngSet → RngSet → Bool
unfolding srng_set_intersect_srng urng_set_intersect_urng urng_set_intersect_srng
rng_set_intersect_rng_set (sint a) (sint b) = any (λ r. srng_set_intersect_srng b r) a
rng_set_intersect_rng_set (uint a) (uint b) = any (λ r. urng_set_intersect_urng b r) a
rng_set_intersect_rng_set (uint a) (sint b) = any (λ r. urng_set_intersect_srng a r) b
rng_set_intersect_rng_set (sint a) (uint b) = any (λ r. urng_set_intersect_srng b r) a

unfoldable pub urng_set_intersect : List Urng → ℕ → Bool
urng_set_intersect rngs pt = any (λ r. leb r.lower pt && leb pt r.upper) rngs

unfoldable pub srng_set_intersect : List Srng → ℤ → Bool
srng_set_intersect rngs pt = any (λ r. leb_ℤ r.lower pt && leb_ℤ pt r.upper) rngs

unfoldable pub rng_set_intersect_sint : RngSet → ℤ → Bool
unfolding urng_set_intersect srng_set_intersect
rng_set_intersect_sint (sint rngs) pt = srng_set_intersect rngs pt
rng_set_intersect_sint (uint rngs) pt =
    if ltb_ℤ pt (pos 0) then false else urng_set_intersect rngs (pos_part pt)

unfoldable pub rng_set_intersect_uint : RngSet → ℕ → Bool
unfolding urng_set_intersect srng_set_intersect
rng_set_intersect_uint (sint rngs) pt =
    if ltb 0x7fff_ffff_ffff_ffff pt then false else srng_set_intersect rngs (pos pt)
rng_set_intersect_uint (uint rngs) pt = urng_set_intersect rngs pt
