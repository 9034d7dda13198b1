-- ===== src/Decoder/Reverse.antt =====
-- reverse_bits of decoder.c gives the digits of a number in the opposite order.
use actf.Common.{
  ℕ, zero, suc, ◌+◌, ◌-◌, ◌/◌, ◌^◌, ◌≤◌, ◌<◌, bit_and, bit_or, ◌≡◌, refl, sym, ap, ◌∙◌, inl, inr,
  arith, ◌==◌, if◌then◌else◌, Bool-cases,
}
use actf.Common.Bits.{
  u64_mod, bit, bit-le, bit-zero, bit_high, bit-or, bit-and, bit-shl64, bit-shr, shl64, shr,
  of_bits, eq-of_bits, shr-lt,
}
use native.Mathlib.Nat.{div-eq_of_lt, pow-suc, div-div-eq-div-mul}
use actf.Decoder.{reverse_loop, reverse_bits}

-- After j rounds on `v₀`: what is left of it, and its lowest digits in r.
record Reversing (v₀ j v r : ℕ) : Type 0 where
  rest : v ≡ shr v₀ (suc j)
  digits : (i : ℕ) → i ≤ j → bit i r ≡ bit (j - i) v₀

bit-low : (k v : ℕ) → bit k (bit_and v 1) ≡ (if k == 0 then bit 0 v else 0)
bit-low k v = ground (arith, bit-and k v 1, bit_high 1 1 k, low_one, bit-le 0 v)
  where
    low_one : bit 0 1 ≡ 1
    low_one = unfold bit in refl

Reversing-step :
    (v₀ j v r : ℕ)
    → suc j < 64
    → Reversing v₀ j v r
    → Reversing v₀ (suc j) (shr v 1) (bit_or (shl64 r 1) (bit_and v 1))
Reversing-step v₀ j v r h inv = record {
  rest =
      ap (λ (t : ℕ). shr t 1) inv.rest
      ∙ div-div-eq-div-mul v₀ (2 ^ suc j) 2
      ∙ ap (λ (t : ℕ). v₀ / t) (sym (pow-suc 2 (suc j)));
  digits = λ i l. ground (
    arith,
    bit-or i (shl64 r 1) (bit_and v 1),
    bit-shl64 i r 1,
    bit-low i v,
    inv.digits (i - 1),
    ap (bit 0) inv.rest ∙ bit-shr 0 v₀ (suc j),
    bit-le (suc j) v₀,
    bit-le (suc j - i) v₀,
  );
}

module _ (v₀ : ℕ) (small : v₀ < u64_mod) where
  abbrev AllReversed : ℕ × ℕ → Type 0
  AllReversed (r, s) = (k : ℕ) → k < 64 → bit k (shl64 r s) ≡ bit (63 - k) v₀

  Reversing-end : (j v r : ℕ) → j < 64 → v ≡ 0 → Reversing v₀ j v r → AllReversed (r, 63 - j)
  Reversing-end j v r h z inv k l =
      let none_left = sym (bit-shr (63 - k - suc j) v₀ (suc j)) ∙ ap (bit _) (sym inv.rest ∙ z) in
      ground (
        arith,
        bit-shl64 k r (63 - j) l,
        inv.digits (k - (63 - j)),
        none_left,
        bit-zero (63 - k - suc j),
      )

  reverse_loop-AllReversed :
      (fuel j v r s : ℕ)
      → fuel + j ≡ 64
      → j < 64
      → s ≡ 63 - j
      → Reversing v₀ j v r
      → AllReversed (reverse_loop fuel v r s)
  unfolding reverse_loop
  reverse_loop-AllReversed zero j v r s e h q inv = absurd (omega arith)
  reverse_loop-AllReversed (suc fuel) j v r s e h q inv = elim (Bool-cases (v == 0)) [
    | inl done ↦ rw (done, q) (Reversing-end j v r h (ground arith) inv)
    | inr more ↦
        let room : suc j < 64 = ground (arith, exhausted) in
        rw more (
          reverse_loop-AllReversed fuel (suc j) _ _ (s - 1) (omega arith) room (omega arith)
            (Reversing-step v₀ j v r room inv))
  ]
    where
      exhausted : j ≡ 63 → v ≡ 0
      exhausted z = inv.rest ∙ ap (λ (t : ℕ). shr v₀ (suc t)) z ∙ div-eq_of_lt small

-- For a number of at most 64 digits, the first `len` digits in the opposite order.
pub reverse_bits-of_bits :
    (v len : ℕ)
    → v < u64_mod
    → len ≤ 64
    → reverse_bits v len ≡ of_bits len (λ k. bit (len - 1 - k) v)
unfolding reverse_bits
reverse_bits-of_bits v len small h =
    let r = reverse_loop 64 (shr v 1) v 63 in
    let whole =
      reverse_loop-AllReversed v small 64 0 (shr v 1) v 63 (omega arith) (omega arith) (omega arith)
        (record { rest = refl; digits = λ i l. ground arith }) in
    let all : len + (64 - len) ≡ 64 = omega arith in
    eq-of_bits len _ _ (λ k. bit-le (len - 1 - k) v)
      (shr-lt len (64 - len) (shl64 r.0 r.1) (rw all (omega arith)))
      (λ k l.
        let at : 63 - (64 - len + k) ≡ len - 1 - k = omega arith in
        bit-shr k (shl64 r.0 r.1) (64 - len)
        ∙ whole (64 - len + k) (omega arith)
        ∙ ap (λ (m : ℕ). bit m v) at)
