-- ===== src/Crust/Swap.antt =====
-- bswap64 and sataddu64 of crust/common.h, digit by digit.
use actf.Common.{
  ℕ, suc, ◌+◌, ◌-◌, ◌*◌, ◌/◌, ◌%◌, ◌^◌, ◌<◌, min, max, bit_and, bit_or, ◌≡◌, ap, ◌∙◌, arith, ltb,
  if◌then◌else◌,
}
use actf.Common.Bits.{
  u64_mod, bit, bit-le, bit-and, bit-or, bit-shl, bit-shr, bit-shl64, bit-zero, bit_high,
  bit_and-lt, bit_or-lt, shl64, shr, bit-ones, bit_ext,
}
use native.Mathlib.Nat.{div-le_self}
use actf.Crust.{bswap64, sataddu64}

-- The mask of the byte at digit `m`.
bit-byte_mask :
    (m k x : ℕ)
    → bit k (bit_and x (255 * 2 ^ m))
      ≡ (if ltb k m then 0 else if ltb (k - m) 8 then bit k x else 0)
bit-byte_mask m k x = ground (
  arith,
  bit-and k x (255 * 2 ^ m),
  bit-shl k 255 m,
  bit-ones 8 (k - m),
  bit_high 8 255 (k - m),
  bit-le k x,
)

-- A byte moved down from digit m + n to digit m, or up from m to m + n.
bit-byte_down :
    (m n k x : ℕ)
    → bit k (shr (bit_and x (255 * 2 ^ (m + n))) n)
      ≡ (if ltb k m then 0 else if ltb (k - m) 8 then bit (n + k) x else 0)
bit-byte_down m n k x =
    ground (arith, bit-shr k (bit_and x (255 * 2 ^ (m + n))) n, bit-byte_mask (m + n) (n + k) x)

bit-byte_up :
    (m n k x : ℕ)
    → k < 64
    → bit k (shl64 (bit_and x (255 * 2 ^ m)) n)
      ≡ (if ltb k (m + n) then 0 else if ltb (k - (m + n)) 8 then bit (k - n) x else 0)
bit-byte_up m n k x h =
    ground (arith, bit-shl64 k (bit_and x (255 * 2 ^ m)) n h, bit-byte_mask m (k - n) x)

abbrev byte_at : ℕ → ℕ → ℕ → ℕ → ℕ
byte_at m s k x = if ltb k m then 0 else if ltb (k - m) 8 then bit s x else 0

-- The eight bytes that the eight lines move.
bit-bswap64_terms :
    (k x : ℕ)
    → k < 64
    → bit k (bswap64 x)
      ≡ max
          (max
            (max
              (max
                (max
                  (max
                    (max (max 0 (byte_at 0 (56 + k) k x)) (byte_at 8 (40 + k) k x))
                    (byte_at 16 (24 + k) k x))
                  (byte_at 24 (8 + k) k x))
                (byte_at 32 (k - 8) k x))
              (byte_at 40 (k - 24) k x))
            (byte_at 48 (k - 40) k x))
          (byte_at 56 (k - 56) k x)
unfolding bswap64
bit-bswap64_terms k x h = rw (
  bit-or,
  bit-or,
  bit-or,
  bit-or,
  bit-or,
  bit-or,
  bit-or,
  bit-or,
  bit-zero,
  bit-byte_down 0 56 k x,
  bit-byte_down 8 40 k x,
  bit-byte_down 16 24 k x,
  bit-byte_down 24 8 k x,
  bit-byte_up 24 8 k x h,
  bit-byte_up 16 24 k x h,
  bit-byte_up 8 40 k x h,
  bit-byte_up 0 56 k x h,
)

-- bswap64 puts byte q in the place of byte 7 - q.
pub bit-bswap64 :
    (q r x : ℕ) → q < 8 → r < 8 → bit (8 * q + r) (bswap64 x) ≡ bit (8 * (7 - q) + r) x
bit-bswap64 (suc (suc (suc (suc (suc (suc (suc (suc q)))))))) r x hq hr = absurd (omega arith)
bit-bswap64 q r x hq hr = ground (arith, bit-bswap64_terms (8 * q + r) x (omega arith))

shr-lt : (a n : ℕ) → a < u64_mod → shr a n < u64_mod
shr-lt a n h = omega (arith, div-le_self a (2 ^ n))

moved_down-lt : (x m n : ℕ) → x < u64_mod → shr (bit_and x m) n < u64_mod
moved_down-lt x m n h = shr-lt (bit_and x m) n (bit_and-lt 64 x m h)

shl64-lt : (a n : ℕ) → shl64 a n < u64_mod
shl64-lt a n = omega arith

joined-lt : (x y : ℕ) → x < u64_mod → y < u64_mod → bit_or x y < u64_mod
joined-lt = bit_or-lt 64

pub bswap64-lt : (x : ℕ) → x < u64_mod → bswap64 x < u64_mod
unfolding bswap64
bswap64-lt x h =
    let zero-lt : 0 < u64_mod = omega arith in
    search (joined-lt, moved_down-lt, shl64-lt, zero-lt) depth 12

-- Swapping twice gives the value back.
bswap64-bswap64 : (x : ℕ) → x < u64_mod → bswap64 (bswap64 x) ≡ x
bswap64-bswap64 x h = bit_ext 64 _ _ (bswap64-lt _ (bswap64-lt x h)) h λ k l.
    let split : k ≡ 8 * (k / 8) + k % 8 = omega arith in
    rw split (
      bit-bswap64 (k / 8) (k % 8) (bswap64 x) (omega arith) (omega arith)
      ∙ bit-bswap64 (7 - k / 8) (k % 8) x (omega arith) (omega arith)
      ∙ ap (λ (m : ℕ). bit (8 * m + k % 8) x) (omega arith))

-- sataddu64 adds, and stops at UINT64_MAX.
sataddu64-eq-min : (a b : ℕ) → a < u64_mod → b < u64_mod → sataddu64 a b ≡ min (a + b) (u64_mod - 1)
unfolding sataddu64
sataddu64-eq-min a b p q = ground arith
