-- ===== src/Flags/Masks.antt =====
-- The bits of a mask are the bits that its ranges hold.
use actf.Common.{
  ℕ, ◌+◌, ◌-◌, ◌^◌, ◌<◌, max, ◌≡◌, bit_and, bit_or, List, [], ◌∷◌, Bool-cases, inl, inr, leb, ltb,
  ◌&&◌, if◌then◌else◌, arith,
}
use actf.Common.Lists.{any}
use actf.Common.Bits.{
  bit, bit-le, bit-zero, bit-or, bit-and, bit-not64, bit_high, bit-ones, shl64, sub64,
  pow-lt-u64_mod, pow_pos,
}
use actf.Rng.{Urng, urng_set_intersect}
use actf.Flags.{upper_mask, lower_mask, mask_loop, make_bit_mask}

ones : (n : ℕ) → n < 64 → sub64 (shl64 1 n) 1 ≡ 2 ^ n - 1
ones n h = omega (arith, pow_pos n, pow-lt-u64_mod n h)

bit-ones_below : (n k : ℕ) → bit k (2 ^ n - 1) ≡ (if ltb k n then 1 else 0)
bit-ones_below n k = ground (arith, bit-ones n k, bit_high n (2 ^ n - 1) k, pow_pos n)

bit-all_ones : (k : ℕ) → k < 64 → bit k 0xffff_ffff_ffff_ffff ≡ 1
bit-all_ones k h = bit-ones 64 k h

bit-upper_mask :
    (r : Urng) (k : ℕ) → k < 64 → bit k (upper_mask r) ≡ (if leb k r.upper then 1 else 0)
bit-upper_mask r k h = elim (Bool-cases (ltb r.upper 63)) [
  | inl l ↦
      rw (l, ones (r.upper + 1) (ground arith)) (ground (arith, bit-ones_below (r.upper + 1) k))
  | inr g ↦ rw g (ground (arith, bit-all_ones k h))
]

bit-lower_mask :
    (r : Urng) (k : ℕ) → k < 64 → bit k (lower_mask r) ≡ (if leb r.lower k then 1 else 0)
bit-lower_mask r k h = elim (Bool-cases (ltb r.lower 64)) [
  | inl l ↦
      rw (l, ones r.lower (ground arith))
        (ground (
          arith,
          bit-not64 k (2 ^ r.lower - 1) h,
          bit-ones_below r.lower k,
          pow-lt-u64_mod r.lower,
        ))
  | inr g ↦ rw g (ground (arith, bit-zero k))
]

bit-mask_loop :
    (rngs : List Urng) (mask k : ℕ)
    → k < 64
    → bit k (mask_loop rngs mask)
      ≡ max (bit k mask) (if any (λ r. leb r.lower k && leb k r.upper) rngs then 1 else 0)
unfolding mask_loop
bit-mask_loop [] mask k h = omega arith
bit-mask_loop (r ∷ rngs) mask k h = ground (
  arith,
  bit-mask_loop rngs (bit_or mask (bit_and (upper_mask r) (lower_mask r))) k h,
  bit-or k mask (bit_and (upper_mask r) (lower_mask r)),
  bit-and k (upper_mask r) (lower_mask r),
  bit-upper_mask r k h,
  bit-lower_mask r k h,
  bit-le k mask,
)

-- Bit k of the mask of a range set is set exactly if k is in the set, for each of the 64 bits.
pub bit-make_bit_mask :
    (rngs : List Urng) (k : ℕ)
    → k < 64
    → bit k (make_bit_mask rngs) ≡ (if urng_set_intersect rngs k then 1 else 0)
unfolding make_bit_mask urng_set_intersect
bit-make_bit_mask rngs k h = ground (arith, bit-mask_loop rngs 0 k h, bit-zero k)
