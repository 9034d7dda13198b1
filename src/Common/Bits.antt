-- ===== src/Common/Bits.antt =====
-- Binary digits of native numbers, and the operations of uint64_t on them.
use Prim.Native.Nat.{ℕ, zero, suc, ◌+◌, ◌-◌, ◌*◌, ◌/◌, ◌%◌, ◌^◌, ◌≤◌, ◌<◌, min, max}
use Prim.Native.Nat.{bit_and, bit_or, digits, bit_and-bitwise, bit_or-bitwise}
use mathlib.Core.Path.{◌≡◌, refl, sym, ap, ◌∙◌}
use mathlib.Core.Bool.{Bool, true, ◌&&◌}
use native.Mathlib.Omega.{arith}
use native.Mathlib.Nat.{
  pow-le-pow_right, pow-suc, pow-zero, mod-lt, add-zero, add-suc, div-mul-le_self, div-add-mod,
  zero-add, suc-add, mul-one, mod-one, mul_comm, div-div-eq-div-mul,
}
use actf.Common.Tests.{ltb, ◌==◌, if◌then◌else◌}

-- The digit of weight 2 ^ k.
unfoldable pub bit : ℕ → ℕ → ℕ
bit zero x = x % 2
bit (suc k) x = bit k (x / 2)

pub bit-le : (k x : ℕ) → bit k x ≤ 1
unfolding bit
bit-le zero x = omega arith
bit-le (suc k) x = bit-le k (x / 2)

pub bit-zero : (k : ℕ) → bit k 0 ≡ 0
unfolding bit
bit-zero zero = refl
bit-zero (suc k) = bit-zero k

pub pow_pos : (n : ℕ) → 0 < 2 ^ n
pow_pos zero = omega (arith, pow-zero 2)
pow_pos (suc n) = omega (arith, pow_pos n, pow-suc 2 n)

div-pow-suc : (x n : ℕ) → x / 2 ^ suc n ≡ x / 2 / 2 ^ n
div-pow-suc x n = rw (pow-suc, mul_comm) (sym (div-div-eq-div-mul x 2 (2 ^ n)))

mod-pow-suc : (x n : ℕ) → x % 2 ^ suc n ≡ x % 2 + 2 * (x / 2 % 2 ^ n)
mod-pow-suc x n = omega (
  arith,
  div-add-mod x (2 ^ suc n),
  div-add-mod (x / 2) (2 ^ n),
  ap (λ (t : ℕ). 2 ^ suc n * t) (div-pow-suc x n),
  ap (λ (t : ℕ). t * (x / 2 / 2 ^ n)) (pow-suc 2 n),
)

half_mod : (x n : ℕ) → x % 2 ^ suc n / 2 ≡ x / 2 % 2 ^ n
half_mod x n = omega (arith, mod-pow-suc x n)

double : (x n : ℕ) → x * 2 ^ suc n ≡ 2 * (x * 2 ^ n)
double x n = omega (arith, ap (λ (t : ℕ). x * t) (pow-suc 2 n))

half_double : (x n : ℕ) → x * 2 ^ suc n / 2 ≡ x * 2 ^ n
half_double x n = omega (arith, double x n)

-- x >> n
pub bit-shr : (k x n : ℕ) → bit k (x / 2 ^ n) ≡ bit (n + k) x
bit-shr k x zero = rw (zero-add) (ap (bit k) (omega arith))
bit-shr k x (suc n) = rw div-pow-suc (bit-shr k (x / 2) n ∙ unfold bit in rw suc-add)

-- x << n, before the cut to 64 bits
pub bit-shl : (k x n : ℕ) → bit k (x * 2 ^ n) ≡ (if ltb k n then 0 else bit (k - n) x)
unfolding bit
bit-shl k x zero = ground (arith, mul-one x)
bit-shl zero x (suc n) = ground (arith, double x n)
bit-shl (suc k) x (suc n) = ground (arith, half_double x n, bit-shl k x n)

pub bit-mod : (k x n : ℕ) → bit k (x % 2 ^ n) ≡ (if ltb k n then bit k x else 0)
unfolding bit
bit-mod k x zero = ground (arith, mod-one x, bit-zero k)
bit-mod zero x (suc n) = ground (arith, mod-pow-suc x n)
bit-mod (suc k) x (suc n) = ground (arith, half_mod x n, bit-mod k (x / 2) n)

-- Two numbers below 2 ^ n with the same n digits are equal.
pub bit_ext : (n x y : ℕ) → x < 2 ^ n → y < 2 ^ n → ((k : ℕ) → k < n → bit k x ≡ bit k y) → x ≡ y
unfolding bit
bit_ext zero x y p q h = omega (arith, pow-zero 2)
bit_ext (suc n) x y p q h = omega (
  arith,
  pow-suc 2 n,
  h 0 (omega arith),
  bit_ext n (x / 2) (y / 2) (omega (arith, pow-suc 2 n)) (omega (arith, pow-suc 2 n))
      (λ k l. h (suc k) (omega arith)),
)

-- The digits of a bitwise operation are the operation on the digits.
module _ (z : ℕ → ℕ) (f : ℕ → ℕ → ℕ) (rest : (k b : ℕ) → bit k (z b) ≡ f 0 (bit k b))
    (small : (x y : ℕ) → x ≤ 1 → y ≤ 1 → f x y ≤ 1) where
  bit-digits : (n a b : ℕ) → a ≤ n → (k : ℕ) → bit k (digits z f n a b) ≡ f (bit k a) (bit k b)
  unfolding bit
  bit-digits zero zero b h k = rw (bit-zero k) (rest k b)
  bit-digits zero (suc a) b h k = absurd (omega arith)
  bit-digits (suc n) zero b h k = rw (bit-zero k) (rest k b)
  bit-digits (suc n) (suc a) b h zero =
      let s = small (suc a % 2) (b % 2) (omega arith) (omega arith) in omega arith
  bit-digits (suc n) (suc a) b h (suc k) =
      let s = small (suc a % 2) (b % 2) (omega arith) (omega arith) in
      let halved : (digits z f n (suc a / 2) (b / 2) * 2 + f (suc a % 2) (b % 2)) / 2
          ≡ digits z f n (suc a / 2) (b / 2) =
        omega arith in
      rw halved (bit-digits n (suc a / 2) (b / 2) (omega arith) k)

pub bit-or : (k x y : ℕ) → bit k (bit_or x y) ≡ max (bit k x) (bit k y)
bit-or k x y =
    rw (bit_or-bitwise x y)
      (bit-digits (λ b. b) max (λ k b. omega arith) (λ x y p q. omega arith) x x y (omega arith) k)

pub bit-and : (k x y : ℕ) → bit k (bit_and x y) ≡ min (bit k x) (bit k y)
bit-and k x y = rw (bit_and-bitwise x y) (
    bit-digits (λ b. 0) min (λ k b. omega (arith, bit-zero k)) (λ x y p q. omega arith) x x y
      (omega arith) k)

-- A number below 2 ^ n has no digit from n on, and the other way round.
pub bit_high : (n x k : ℕ) → x < 2 ^ n → n ≤ k → bit k x ≡ 0
unfolding bit
bit_high zero x k h l = let e : x ≡ 0 = omega (arith, pow-zero 2) in rw e (bit-zero k)
bit_high (suc n) x zero h l = absurd (omega arith)
bit_high (suc n) x (suc k) h l = bit_high n (x / 2) k (omega (arith, pow-suc 2 n)) (omega arith)

-- For a number all of whose digits from n on are 0; `m` bounds it.
pub lt_of_bits : (n m x : ℕ) → x < 2 ^ m → ((k : ℕ) → n ≤ k → bit k x ≡ 0) → x < 2 ^ n
unfolding bit
lt_of_bits zero zero x p h = p
lt_of_bits zero (suc m) x p h = omega (
  arith,
  h 0 (omega arith),
  pow-zero 2,
  lt_of_bits zero m (x / 2) (omega (arith, pow-suc 2 m)) (λ k l. h (suc k) (omega arith)),
)
lt_of_bits (suc n) zero x p h = omega (arith, pow_pos (suc n), pow-zero 2)
lt_of_bits (suc n) (suc m) x p h = omega (
  arith,
  pow-suc 2 n,
  lt_of_bits n m (x / 2) (omega (arith, pow-suc 2 m)) (λ k l. h (suc k) (omega arith)),
)

pub lt-pow : (x : ℕ) → x < 2 ^ x
lt-pow zero = omega (arith, pow-zero 2)
lt-pow (suc x) = omega (arith, lt-pow x, pow-suc 2 x)

-- The number whose n digits are `f 0`, `f 1`, …, lowest first.
unfoldable pub of_bits : ℕ → (ℕ → ℕ) → ℕ
of_bits zero f = 0
of_bits (suc n) f = f 0 + 2 * of_bits n (λ k. f (suc k))

pub of_bits-lt : (n : ℕ) (f : ℕ → ℕ) → ((k : ℕ) → f k ≤ 1) → of_bits n f < 2 ^ n
unfolding of_bits
of_bits-lt zero f h = omega (arith, pow-zero 2)
of_bits-lt (suc n) f h =
    omega (arith, h 0, pow-suc 2 n, of_bits-lt n (λ k. f (suc k)) (λ k. h (suc k)))

pub bit-of_bits :
    (n : ℕ) (f : ℕ → ℕ) → ((k : ℕ) → f k ≤ 1) → (k : ℕ) → k < n → bit k (of_bits n f) ≡ f k
unfolding of_bits bit
bit-of_bits zero f h k l = absurd (omega arith)
bit-of_bits (suc n) f h zero l = omega (arith, h 0)
bit-of_bits (suc n) f h (suc k) l =
    let halved : (f 0 + 2 * of_bits n (λ k. f (suc k))) / 2 ≡ of_bits n (λ k. f (suc k)) =
      omega (arith, h 0) in
    rw halved (bit-of_bits n (λ k. f (suc k)) (λ k. h (suc k)) k (omega arith))

-- `x` is the number with the digits `f`.
pub eq-of_bits :
    (n x : ℕ) (f : ℕ → ℕ)
    → ((k : ℕ) → f k ≤ 1)
    → x < 2 ^ n
    → ((k : ℕ) → k < n → bit k x ≡ f k)
    → x ≡ of_bits n f
eq-of_bits n x f small lt h =
    bit_ext n x (of_bits n f) lt (of_bits-lt n f small)
      (λ k l. h k l ∙ sym (bit-of_bits n f small k l))

-- 2 ^ n - 1 is n ones.
pub bit-ones : (n k : ℕ) → k < n → bit k (2 ^ n - 1) ≡ 1
unfolding bit
bit-ones zero k h = absurd (omega arith)
bit-ones (suc n) zero h = omega (arith, pow-suc 2 n, pow_pos n)
bit-ones (suc n) (suc k) h =
    let halved : (2 ^ suc n - 1) / 2 ≡ 2 ^ n - 1 = omega (arith, pow-suc 2 n, pow_pos n) in
    rw halved (bit-ones n k (omega arith))

-- Two functions agree below `n`, checked by evaluation.
unfoldable pub agree_below : (ℕ → ℕ) → (ℕ → ℕ) → ℕ → Bool
agree_below f g zero = true
agree_below f g (suc n) = f n == g n && agree_below f g n

pub eq_below : (f g : ℕ → ℕ) (n x : ℕ) → agree_below f g n ≡ true → x < n → f x ≡ g x
unfolding agree_below
eq_below f g zero x e h = absurd (omega arith)
eq_below f g (suc n) x e h = ground (arith, eq_below f g n x)

-- The operators of uint64_t; a shift by 64 or more is undefined in C and is not made.
abbrev pub u64_mod : ℕ
u64_mod = 2 ^ 64

abbrev pub shl64 : ℕ → ℕ → ℕ
shl64 x n = x * 2 ^ n % u64_mod

abbrev pub shr : ℕ → ℕ → ℕ
shr x n = x / 2 ^ n

-- ~x
abbrev pub not64 : ℕ → ℕ
not64 x = u64_mod - 1 - x

pub bit-shl64 : (k x n : ℕ) → k < 64 → bit k (shl64 x n) ≡ (if ltb k n then 0 else bit (k - n) x)
bit-shl64 k x n h = ground (arith, bit-mod k (x * 2 ^ n) 64, bit-shl k x n)

bit-complement : (n k x : ℕ) → k < n → x < 2 ^ n → bit k (2 ^ n - 1 - x) ≡ 1 - bit k x
unfolding bit
bit-complement zero k x h p = absurd (omega arith)
bit-complement (suc n) zero x h p = omega (arith, pow-suc 2 n, pow_pos n)
bit-complement (suc n) (suc k) x h p =
    let halved : (2 ^ suc n - 1 - x) / 2 ≡ 2 ^ n - 1 - x / 2 =
      omega (arith, pow-suc 2 n, pow_pos n) in
    rw halved (bit-complement n k (x / 2) (omega arith) (omega (arith, pow-suc 2 n)))

pub bit-not64 : (k x : ℕ) → k < 64 → x < u64_mod → bit k (not64 x) ≡ 1 - bit k x
bit-not64 k x h p = bit-complement 64 k x h p

pub bit_or-lt : (n x y : ℕ) → x < 2 ^ n → y < 2 ^ n → bit_or x y < 2 ^ n
bit_or-lt n x y p q =
    lt_of_bits n (bit_or x y) (bit_or x y) (lt-pow (bit_or x y))
      (λ k l. omega (arith, bit-or k x y, bit_high n x k p l, bit_high n y k q l))

pub bit_and-lt : (n x y : ℕ) → x < 2 ^ n → bit_and x y < 2 ^ n
bit_and-lt n x y p =
    lt_of_bits n (bit_and x y) (bit_and x y) (lt-pow (bit_and x y))
      (λ k l. omega (arith, bit-and k x y, bit_high n x k p l))

pub bit_and-lt_right : (n x y : ℕ) → y < 2 ^ n → bit_and x y < 2 ^ n
bit_and-lt_right n x y p =
    lt_of_bits n (bit_and x y) (bit_and x y) (lt-pow (bit_and x y))
      (λ k l. omega (arith, bit-and k x y, bit_high n y k p l))

pub shr-lt : (n m x : ℕ) → x < 2 ^ (n + m) → shr x m < 2 ^ n
shr-lt n m x h =
    lt_of_bits n (shr x m) (shr x m) (lt-pow (shr x m))
      (λ k l. bit-shr k x m ∙ bit_high (n + m) x (m + k) h (omega arith))

pub pow-lt-u64_mod : (n : ℕ) → n < 64 → 2 ^ n < u64_mod
pow-lt-u64_mod n h =
    let below : 2 ^ n ≤ 2 ^ 63 = pow-le-pow_right (omega arith) {i = n} {j = 63} (omega arith) in
    omega arith

-- x & (2 ^ n - 1)
pub bit_and-ones : (n x : ℕ) → bit_and x (2 ^ n - 1) ≡ x % 2 ^ n
bit_and-ones n x =
    bit_ext n _ _ (bit_and-lt_right n x _ (omega (arith, pow_pos n))) (mod-lt x (pow_pos n))
      (λ k h. ground (arith, bit-and k x (2 ^ n - 1), bit-ones n k h, bit-mod k x n, bit-le k x))

-- Sums and differences wrap around.
abbrev pub add64 : ℕ → ℕ → ℕ
add64 a b = (a + b) % u64_mod

abbrev pub sub64 : ℕ → ℕ → ℕ
sub64 a b = (a + u64_mod - b) % u64_mod

pub pow-add : (m n : ℕ) → 2 ^ (m + n) ≡ 2 ^ m * 2 ^ n
pow-add m zero = ground (arith, pow-zero 2, ap (λ (t : ℕ). 2 ^ t) (add-zero m))
pow-add m (suc n) =
    let next : 2 ^ (m + suc n) ≡ 2 ^ (m + n) * 2 =
      ap (λ (t : ℕ). 2 ^ t) (add-suc m n) ∙ pow-suc 2 (m + n) in
    omega (arith, next, pow-add m n, ap (λ (t : ℕ). 2 ^ m * t) (pow-suc 2 n))

pred_mul : (x p : ℕ) → (x - 1) * p ≡ x * p - p
pred_mul zero p = omega arith
pred_mul (suc x) p = let e : suc x - 1 ≡ x = omega arith in rw e (omega arith)

-- -2 ^ a has ones from digit a on.
negated : (a : ℕ) → a < 64 → sub64 0 (2 ^ a) ≡ (2 ^ (64 - a) - 1) * 2 ^ a
negated a h =
    let all : 64 - a + a ≡ 64 = omega arith in
    let whole : 2 ^ 64 ≡ 2 ^ (64 - a) * 2 ^ a =
      ap (λ (t : ℕ). 2 ^ t) (sym all) ∙ pow-add (64 - a) a in
    omega (arith, pow_pos a, pow-lt-u64_mod a h, whole, pred_mul (2 ^ (64 - a)) (2 ^ a))

-- x & -2 ^ a rounds down to a multiple of 2 ^ a.
pub bit_and-negated :
    (a x : ℕ) → a < 64 → x < u64_mod → bit_and x (sub64 0 (2 ^ a)) ≡ x / 2 ^ a * 2 ^ a
bit_and-negated a x h p = rw (negated a h) (
    bit_ext 64 _ _ (bit_and-lt 64 x _ p) (le_lt_trans (div-mul-le_self x (2 ^ a)) p) (λ k l.
      ground (
        arith,
        bit-and k x ((2 ^ (64 - a) - 1) * 2 ^ a),
        bit-shl k (2 ^ (64 - a) - 1) a,
        bit-ones (64 - a) (k - a),
        bit-shl k (x / 2 ^ a) a,
        bit-shr (k - a) x a,
        bit-le k x,
        ap (λ (t : ℕ). bit t x) (back k),
      )))
  where
    le_lt_trans : {l m n : ℕ} → l ≤ m → m < n → l < n
    le_lt_trans s t = omega arith

    back : (k : ℕ) → a + (k - a) ≡ max a k
    back k = omega arith
