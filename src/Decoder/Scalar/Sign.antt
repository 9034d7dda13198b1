-- ===== src/Decoder/Scalar/Sign.antt =====
-- sext of decoder.c gives the two's complement value of a field.
use actf.Common.{
  ℕ, zero, suc, ◌+◌, ◌-◌, ◌*◌, ◌/◌, ◌^◌, ◌≤◌, ◌<◌, ◌≡◌, refl, ap, ◌∙◌, bit_or, ltb, ◌==◌, not,
  if◌then◌else◌, true, false, Bool-cases, inl, inr, arith,
}
use native.Mathlib.Nat.{pow-suc}
use actf.Common.Int.{ℤ, pos, negsuc}
use actf.Common.Bits.{u64_mod, shl64, sub64, pow_pos}
use actf.Common.Disjoint.{bit_or-add, ones-eq, shr-eq_zero, shr_pos, upper_ones, pow-le-u64_mod}
use actf.Decoder.Scalar.{to_int64, sext}

-- The value of an n-bit field in two's complement.
abbrev pub twos_complement : ℕ → ℕ → ℤ
twos_complement n x = if ltb x (2 ^ (n - 1)) then pos x else negsuc (2 ^ n - 1 - x)

sext-keeps : (n x : ℕ) → 0 < n → n ≤ 64 → x < 2 ^ (n - 1) → sext x n ≡ x
unfolding sext
sext-keeps n x z l h = let none : x / 2 ^ (n - 1) ≡ 0 = shr-eq_zero (n - 1) x h in ground arith

halves : (n : ℕ) → 0 < n → 2 ^ n ≡ 2 * 2 ^ (n - 1)
halves zero z = absurd (omega arith)
halves (suc n) z = let e : suc n - 1 ≡ n = omega arith in rw e (omega (arith, pow-suc 2 n))

sign_mask_shifted :
    (n : ℕ) → 0 < n → n < 64 → shl64 (sub64 (shl64 1 (64 - n)) 1) n ≡ (2 ^ (64 - n) - 1) * 2 ^ n
sign_mask_shifted n z h =
    rw (ones-eq (64 - n) (omega arith)) (omega (arith, upper_ones n (omega arith), pow_pos n))

-- Ones are written from digit n to digit 63, above the field.
sext-fills :
    (n x : ℕ) → 0 < n → n < 64 → x < 2 ^ n → 2 ^ (n - 1) ≤ x → sext x n ≡ x + (u64_mod - 2 ^ n)
unfolding sext
sext-fills n x z l h g =
    let set : not (x / 2 ^ (n - 1) == 0) ≡ true = ground (arith, shr_pos (n - 1) x g) in
    let short : ltb n 64 ≡ true = ground arith in
    rw (short, set)
      (ap (bit_or x) (sign_mask_shifted n z l)
        ∙ bit_or-add n x _ h
        ∙ ap (λ (t : ℕ). x + t) (upper_ones n (omega arith)))

sext-whole : (x : ℕ) → sext x 64 ≡ x
unfolding sext
sext-whole x = refl

-- A field of 1 to 64 bits, extended to 64, is as an int64_t the value that the field has in two's complement.
pub sext-twos_complement :
    (n x : ℕ) → 0 < n → n ≤ 64 → x < 2 ^ n → to_int64 (sext x n) ≡ twos_complement n x
sext-twos_complement n x z l h = elim (Bool-cases (ltb x (2 ^ (n - 1)))) [
  | inl small ↦
      let half : 2 ^ n ≡ 2 * 2 ^ (n - 1) = halves n z in
      rw (small, sext-keeps n x z l (ground arith))
        (let e : ltb x (2 ^ 63) ≡ true = ground (arith, half, pow-le-u64_mod n l) in rw e refl)
  | inr large ↦ rw large (elim (Bool-cases (ltb n 64)) [
    | inl short ↦
        let half : 2 ^ n ≡ 2 * 2 ^ (n - 1) = halves n z in
        rw (sext-fills n x z (ground arith) h (ground arith)) (
          let e : ltb (x + (u64_mod - 2 ^ n)) (2 ^ 63) ≡ false =
            ground (arith, half, pow-le-u64_mod n l) in
          rw e (ap negsuc (omega (arith, pow-le-u64_mod n l))))
    | inr whole ↦
        let all : n ≡ 64 = ground arith in
        let half : 2 ^ (n - 1) ≡ 2 ^ 63 = ap (λ (t : ℕ). 2 ^ (t - 1)) all in
        let e : ltb x (2 ^ 63) ≡ false = ground arith in rw (all, sext-whole x, e) refl
  ])
]
