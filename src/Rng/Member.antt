-- ===== src/Rng/Member.antt =====
-- Whether a point lies in a range set, against the set of integers that it stands for.
use actf.Common.{
  ℕ, suc, ◌+◌, ◌<◌, ◌≡◌, ◌↔◌, inl, inr, true, false, Bool-cases, List, [], ◌∷◌, arith, ltb,
}
use actf.Common.Lists.{Any, All, any→Any, Any→any}
use actf.Common.Int.{ℤ, pos, negsuc, ◌≤ℤ◌, int64_max}
use actf.Rng.{
  Srng, Urng, RngSet, sint, uint, urng_set_intersect, srng_set_intersect, rng_set_intersect_sint,
  rng_set_intersect_uint,
}

abbrev pub InSrng : ℤ → Srng → Type 0
InSrng x r = (r.lower ≤ℤ x) × (x ≤ℤ r.upper)

abbrev pub InUrng : ℤ → Urng → Type 0
InUrng x r = (pos r.lower ≤ℤ x) × (x ≤ℤ pos r.upper)

-- The integer `x` lies in some range of the set, whichever type the set is over.
abbrev pub In : ℤ → RngSet → Type 0
In x (sint rngs) = Any (InSrng x) rngs
In x (uint rngs) = Any (InUrng x) rngs

-- The bounds of signed ranges are values of int64_t.
abbrev pub Fits : RngSet → Type 0
Fits (sint rngs) = All (λ r. r.upper ≤ℤ int64_max) rngs
Fits (uint rngs) = Unit {0}

srng_set_intersect_iff :
    (rngs : List Srng) (x : ℤ) → (srng_set_intersect rngs x ≡ true) ↔ Any (InSrng x) rngs
unfolding srng_set_intersect
srng_set_intersect_iff rngs x =
    (any→Any _ _ (λ r h. ground arith) rngs, Any→any _ _ (λ r h. ground arith) rngs)

urng_set_intersect_iff :
    (rngs : List Urng) (x : ℕ) → (urng_set_intersect rngs x ≡ true) ↔ Any (InUrng (pos x)) rngs
unfolding urng_set_intersect
urng_set_intersect_iff rngs x =
    (any→Any _ _ (λ r h. ground arith) rngs, Any→any _ _ (λ r h. ground arith) rngs)

none_negative : (rngs : List Urng) (n : ℕ) → ¬ (Any (InUrng (negsuc n)) rngs)
none_negative [] n h = h
none_negative (r ∷ rngs) n (inl h) = omega arith
none_negative (r ∷ rngs) n (inr h) = none_negative rngs n h

none_above :
    (x : ℕ) (rngs : List Srng)
    → 0x7fff_ffff_ffff_ffff < x
    → All (λ r. r.upper ≤ℤ int64_max) rngs
    → ¬ Any (InSrng (pos x)) rngs
none_above x [] l f h = h
none_above x (r ∷ rngs) l (f, fs) (inl h) = omega arith
none_above x (r ∷ rngs) l (f, fs) (inr h) = none_above x rngs l fs h

-- A signed point is found exactly if it lies in the set.
pub rng_set_intersect_sint_iff :
    (rs : RngSet) (x : ℤ) → (rng_set_intersect_sint rs x ≡ true) ↔ In x rs
unfolding rng_set_intersect_sint
rng_set_intersect_sint_iff (sint rngs) x = srng_set_intersect_iff rngs x
rng_set_intersect_sint_iff (uint rngs) (pos n) =
    let nonneg : ltb (n + 0) 0 ≡ false = ground arith in rw nonneg (urng_set_intersect_iff rngs n)
rng_set_intersect_sint_iff (uint rngs) (negsuc n) =
    let negative : ltb 0 (0 + suc n) ≡ true = ground arith in
    rw negative (λ h. cc, λ h. absurd (none_negative rngs n h))

-- An unsigned point is found exactly if it lies in the set, whose signed bounds fit int64_t, also above INT64_MAX, where no signed range reaches.
pub rng_set_intersect_uint_iff :
    (rs : RngSet) (x : ℕ) → Fits rs → (rng_set_intersect_uint rs x ≡ true) ↔ In (pos x) rs
unfolding rng_set_intersect_uint
rng_set_intersect_uint_iff (sint rngs) x f = elim (Bool-cases (ltb 0x7fff_ffff_ffff_ffff x)) [
  | inl high ↦ rw high (λ h. cc, λ h. absurd (none_above x rngs (ground arith) f h))
  | inr low ↦ rw low (srng_set_intersect_iff rngs (pos x))
]
rng_set_intersect_uint_iff (uint rngs) x f = urng_set_intersect_iff rngs x
