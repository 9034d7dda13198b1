-- ===== src/Common/Disjoint.antt =====
-- Numbers whose digits do not overlap: their bitwise or is their sum.
use actf.Common.{
  ℕ, zero, suc, ◌+◌, ◌-◌, ◌*◌, ◌/◌, ◌^◌, ◌≤◌, ◌<◌, ◌≡◌, sym, ap, ◌∙◌, bit_or, ltb, if◌then◌else◌,
  arith,
}
use native.Mathlib.Nat.{pow-suc, pow-zero, pow-le-pow_right, div-eq_of_lt, le-div_iff_mul-le}
use actf.Common.Bits.{
  u64_mod, shl64, sub64, bit, bit-le, bit-or, bit_ext, bit-shl, bit_high, lt-pow, pow_pos, pow-add,
  pow-lt-u64_mod,
}

doubled : (y n : ℕ) → y * 2 ^ suc n ≡ 2 * (y * 2 ^ n)
doubled y n = omega (arith, ap (λ (t : ℕ). y * t) (pow-suc 2 n))

bit-above :
    (n k x y : ℕ) → x < 2 ^ n → bit k (x + y * 2 ^ n) ≡ (if ltb k n then bit k x else bit (k - n) y)
unfolding bit
bit-above zero k x y h =
    let same : x + y * 2 ^ zero ≡ y =
      omega (arith, pow-zero 2, ap (λ (t : ℕ). y * t) (pow-zero 2)) in
    rw same (ground arith)
bit-above (suc n) zero x y h = ground (arith, doubled y n)
bit-above (suc n) (suc k) x y h =
    let halved : (x + y * 2 ^ suc n) / 2 ≡ x / 2 + y * 2 ^ n = omega (arith, doubled y n) in
    rw halved (bit-above n k (x / 2) y (omega (arith, pow-suc 2 n)) ∙ ground arith)

pub bit_or-add : (n x y : ℕ) → x < 2 ^ n → bit_or x (y * 2 ^ n) ≡ x + y * 2 ^ n
bit_or-add n x y h =
    let a = bit_or x (y * 2 ^ n) in
    let b = x + y * 2 ^ n in
    bit_ext (a + b) a b (omega (arith, lt-pow (a + b))) (omega (arith, lt-pow (a + b))) (λ k l.
      ground (
        arith,
        bit-or k x (y * 2 ^ n),
        bit-shl k y n,
        bit-above n k x y h,
        bit_high n x k h,
        bit-le k x,
        bit-le (k - n) y,
      ))

-- 2 ^ n - 1 as it is written in C.
pub ones-eq : (n : ℕ) → n < 64 → sub64 (shl64 1 n) 1 ≡ 2 ^ n - 1
ones-eq n h = omega (arith, pow_pos n, pow-lt-u64_mod n h)

-- A number is below 2 ^ n exactly if nothing is left of it when it is shifted right by n.
pub shr-eq_zero : (n x : ℕ) → x < 2 ^ n → x / 2 ^ n ≡ 0
shr-eq_zero n x h = div-eq_of_lt h

pub shr_pos : (n x : ℕ) → 2 ^ n ≤ x → 1 ≤ x / 2 ^ n
shr_pos n x h = (le-div_iff_mul-le {k = 2 ^ n} {x = 1} {y = x} (pow_pos n)).1 (omega arith)

pred_times : (x p : ℕ) → (x - 1) * p ≡ x * p - p
pred_times zero p = omega arith
pred_times (suc x) p = let e : suc x - 1 ≡ x = omega arith in rw e (omega arith)

-- The 64 - n ones above the lowest n digits.
pub upper_ones : (n : ℕ) → n ≤ 64 → (2 ^ (64 - n) - 1) * 2 ^ n ≡ u64_mod - 2 ^ n
upper_ones n h =
    let all : 64 - n + n ≡ 64 = omega arith in
    let whole : 2 ^ 64 ≡ 2 ^ (64 - n) * 2 ^ n =
      ap (λ (t : ℕ). 2 ^ t) (sym all) ∙ pow-add (64 - n) n in
    omega (arith, whole, pred_times (2 ^ (64 - n)) (2 ^ n))

pub pow-le-u64_mod : (n : ℕ) → n ≤ 64 → 2 ^ n ≤ u64_mod
pow-le-u64_mod n h = pow-le-pow_right (omega arith) {i = n} {j = 64} h
