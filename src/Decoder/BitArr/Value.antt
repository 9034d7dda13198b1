-- ===== src/Decoder/BitArr/Value.antt =====
-- The value of a fixed-length bit array: which bit of the stream becomes which digit.
use actf.Common.{
  ℕ, suc, ◌+◌, ◌-◌, ◌*◌, ◌^◌, ◌≤◌, ◌<◌, max, bit_or, ◌≡◌, refl, ap, ◌∙◌, inl, inr, arith, List,
  Bool-cases, ltb, if◌then◌else◌,
}
use actf.Common.Bits.{
  u64_mod, bit, bit-le, bit-or, bit_or-lt, bit_high, bit-shl64, shl64, of_bits, of_bits-lt,
  bit-of_bits, eq-of_bits, pow_pos, pow-add,
}
use native.Mathlib.Nat.{pow-le-pow_right, mul-le-mul_right, mod-le}
use actf.BReader.{ByteOrder, lil_endian, big_endian, BReader}
use actf.BReader.Stream.{stream_bit, stream_bit-le, stream_value}
use actf.Decoder.{
  BitOrder, first_to_last, last_to_first, read_upper_bits_le, read_upper_bits_be, reverse_bits,
  needs_reverse_bits_le, needs_reverse_bits_be,
}
use actf.Decoder.Reverse.{reverse_bits-of_bits}
use actf.Decoder.BitArr.Parts.{suffix}

-- The place, among the `len` bits of a field, of the bit of weight 2 ^ k.
abbrev pub bit_place : BitOrder → ℕ → ℕ → ℕ
bit_place first_to_last len k = k
bit_place last_to_first len k = len - 1 - k

-- The value of a field of `len` bits from bit `i` of the stream on.
abbrev pub field_value : ByteOrder → BitOrder → List ℕ → ℕ → ℕ → ℕ
field_value bo bito bytes i len = of_bits len (λ k. stream_bit bo bytes (i + bit_place bito len k))

-- A peek gives the value of one of the two bit orders.
abbrev read_order : ByteOrder → BitOrder
read_order lil_endian = first_to_last
read_order big_endian = last_to_first

stream_value-eq-field_value :
    (bo : ByteOrder) (bytes : List ℕ) (i len : ℕ)
    → stream_value bo bytes i len ≡ field_value bo (read_order bo) bytes i len
stream_value-eq-field_value lil_endian bytes i len = refl
stream_value-eq-field_value big_endian bytes i len = refl

module _ (bo : ByteOrder) (bytes : List ℕ) (i : ℕ) where
  bit-field_value :
      (bito : BitOrder) (len k : ℕ)
      → k < len
      → bit k (field_value bo bito bytes i len) ≡ stream_bit bo bytes (i + bit_place bito len k)
  bit-field_value bito len k h = bit-of_bits len _ (λ j. stream_bit-le bo bytes _) k h

  pub field_value-lt : (bito : BitOrder) (len : ℕ) → field_value bo bito bytes i len < 2 ^ len
  field_value-lt bito len = of_bits-lt len _ (λ j. stream_bit-le bo bytes _)

  -- `x` is the value of the field if its digits are the right bits of the stream.
  eq-field_value :
      (bito : BitOrder) (len x : ℕ)
      → x < 2 ^ len
      → ((k : ℕ) → k < len → bit k x ≡ stream_bit bo bytes (i + bit_place bito len k))
      → x ≡ field_value bo bito bytes i len
  eq-field_value bito len x lt h = eq-of_bits len x _ (λ j. stream_bit-le bo bytes _) lt h

  field_value-lt-u64_mod :
      (bito : BitOrder) (len : ℕ) → len ≤ 64 → field_value bo bito bytes i len < u64_mod
  field_value-lt-u64_mod bito len h =
      omega (
        arith,
        field_value-lt bito len,
        pow-le-pow_right {n = 2} (omega arith) {i = len} {j = 64} h,
      )

-- The digits of `x`, of which there are `n`, with those of `y` above them.
module _ (n m x y : ℕ) (low : x < 2 ^ n) (high : y < 2 ^ m) where
  above-lt : shl64 y n < 2 ^ (n + m)
  above-lt =
      let scaled : suc y * 2 ^ n ≤ 2 ^ m * 2 ^ n = mul-le-mul_right (2 ^ n) high in
      omega (arith, pow-add n m, scaled, pow_pos n, mod-le (y * 2 ^ n) u64_mod)

  below-lt : x < 2 ^ (n + m)
  below-lt =
      let grown : 2 ^ n ≤ 2 ^ (n + m) = pow-le-pow_right (omega arith) (omega arith) in omega arith

  bit-above :
      (k : ℕ)
      → k < 64
      → max (bit k x) (bit k (shl64 y n)) ≡ (if ltb k n then bit k x else bit (k - n) y)
  bit-above k h = ground (arith, bit-shl64 k y n h, bit_high n x k low, bit-le k x)

-- The two peeks of a long field, put together.
upper_le :
    (bytes : List ℕ) (i first remain : ℕ)
    → first + remain ≤ 64
    → bit_or
        (field_value lil_endian first_to_last bytes i first)
        (shl64 (field_value lil_endian first_to_last bytes (i + first) remain) first)
      ≡ field_value lil_endian first_to_last bytes i (first + remain)
upper_le bytes i first remain l =
    let x = field_value lil_endian first_to_last bytes i first in
    let y = field_value lil_endian first_to_last bytes (i + first) remain in
    let low = field_value-lt lil_endian bytes i first_to_last first in
    let high = field_value-lt lil_endian bytes (i + first) first_to_last remain in
    eq-field_value lil_endian bytes i first_to_last (first + remain) _
      (bit_or-lt (first + remain) _ _ (below-lt first remain x y low high)
        (above-lt first remain x y low high))
      (λ k h.
        bit-or k x (shl64 y first)
        ∙ bit-above first remain x y low high k (omega arith)
        ∙ elim (Bool-cases (ltb k first)) [
          | inl below ↦
              rw below (bit-field_value lil_endian bytes i first_to_last first k (ground arith))
          | inr above ↦
              let at : i + first + (k - first) ≡ i + k = ground arith in
              rw above (
                bit-field_value lil_endian bytes (i + first) first_to_last remain (k - first)
                  (ground arith)
                ∙ ap (stream_bit lil_endian bytes) at)
        ])

upper_be :
    (bytes : List ℕ) (i first remain : ℕ)
    → first + remain ≤ 64
    → bit_or
        (shl64 (field_value big_endian last_to_first bytes i first) remain)
        (field_value big_endian last_to_first bytes (i + first) remain)
      ≡ field_value big_endian last_to_first bytes i (first + remain)
upper_be bytes i first remain l =
    let y = field_value big_endian last_to_first bytes i first in
    let x = field_value big_endian last_to_first bytes (i + first) remain in
    let high = field_value-lt big_endian bytes i last_to_first first in
    let low = field_value-lt big_endian bytes (i + first) last_to_first remain in
    let total : remain + first ≡ first + remain = omega arith in
    let fits = ap (λ (t : ℕ). 2 ^ t) total in
    eq-field_value big_endian bytes i last_to_first (first + remain) _
      (bit_or-lt (first + remain) _ _ (omega (arith, fits, above-lt remain first x y low high))
        (omega (arith, fits, below-lt remain first x y low high)))
      (λ k h.
        bit-or k (shl64 y remain) x
        ∙ max_comm (bit k (shl64 y remain)) (bit k x)
        ∙ bit-above remain first x y low high k (omega arith)
        ∙ elim (Bool-cases (ltb k remain)) [
          | inl below ↦
              let at : i + first + (remain - 1 - k) ≡ i + (first + remain - 1 - k) = ground arith in
              rw below (
                bit-field_value big_endian bytes (i + first) last_to_first remain k (ground arith)
                ∙ ap (stream_bit big_endian bytes) at)
          | inr above ↦
              let at : i + (first - 1 - (k - remain)) ≡ i + (first + remain - 1 - k) =
                ground arith in
              rw above (
                bit-field_value big_endian bytes i last_to_first first (k - remain) (ground arith)
                ∙ ap (stream_bit big_endian bytes) at)
        ])
  where
    max_comm : (a b : ℕ) → max a b ≡ max b a
    max_comm a b = omega arith

-- Reversing the digits turns the value of one bit order into that of the other.
abbrev opposite : BitOrder → BitOrder
opposite first_to_last = last_to_first
opposite last_to_first = first_to_last

reversed :
    (bo : ByteOrder) (bito : BitOrder) (bytes : List ℕ) (i len : ℕ)
    → len ≤ 64
    → reverse_bits (field_value bo bito bytes i len) len
      ≡ field_value bo (opposite bito) bytes i len
reversed bo bito bytes i len h =
    eq-field_value bo bytes i (opposite bito) len _ (rw spec (of_bits-lt len _ (λ k. bit-le _ _)))
      (λ k l.
        ap (bit k) spec
        ∙ bit-of_bits len _ (λ j. bit-le (len - 1 - j) _) k l
        ∙ bit-field_value bo bytes i bito len (len - 1 - k) (omega arith)
        ∙ ap (λ (p : ℕ). stream_bit bo bytes (i + p)) (mirrored bito k l))
  where
    spec :
        reverse_bits (field_value bo bito bytes i len) len
        ≡ of_bits len (λ k. bit (len - 1 - k) (field_value bo bito bytes i len))
    spec = reverse_bits-of_bits _ len (field_value-lt-u64_mod bo bytes i bito len h) h

    mirrored :
        (b : BitOrder) (k : ℕ)
        → k < len
        → bit_place b len (len - 1 - k) ≡ bit_place (opposite b) len k
    mirrored first_to_last k l = refl
    mirrored last_to_first k l = omega arith

-- The last step of the macro gives the digits the order that the field class asks for.
pub ordered :
    (bo : ByteOrder) (bito : BitOrder) (bytes : List ℕ) (i len : ℕ)
    → len ≤ 64
    → (if (suffix bo).needs_reverse_bits_bo bito
        then reverse_bits (stream_value bo bytes i len) len
        else stream_value bo bytes i len)
      ≡ field_value bo bito bytes i len
unfolding needs_reverse_bits_le needs_reverse_bits_be
ordered lil_endian first_to_last bytes i len h = refl
ordered lil_endian last_to_first bytes i len h = reversed lil_endian first_to_last bytes i len h
ordered big_endian first_to_last bytes i len h = reversed big_endian last_to_first bytes i len h
ordered big_endian last_to_first bytes i len h = refl

-- What read_upper_bits makes of the first bits and of a peek of the others.
pub read_upper_bits-stream_value :
    (bo : ByteOrder) (bytes : List ℕ) (i first remain : ℕ) (br : BReader)
    → (suffix bo).peek_bo br remain ≡ stream_value bo bytes (i + first) remain
    → first + remain ≤ 64
    → (suffix bo).read_upper_bits_bo br (stream_value bo bytes i first) remain first
      ≡ stream_value bo bytes i (first + remain)
unfolding read_upper_bits_le read_upper_bits_be
read_upper_bits-stream_value lil_endian bytes i first remain br e h =
    rw e (upper_le bytes i first remain h)
read_upper_bits-stream_value big_endian bytes i first remain br e h =
    rw e (upper_be bytes i first remain h)
