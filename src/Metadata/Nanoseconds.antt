-- ===== src/Metadata/Nanoseconds.antt =====
-- The time of a clock value in nanoseconds, against the exact quotient.
use actf.Common.{ℕ, suc, ◌+◌, ◌*◌, ◌/◌, ◌%◌, ◌≤◌, ◌<◌, ◌≡◌, sym, ap, ◌∙◌, arith}
use native.Mathlib.Nat.{div-add-mod, mul-add-div, mod-lt, div-le_self}
use actf.Common.Int.{
  ℤ_ext, ℤ, pos, negsuc, pos_part, neg_part, sub_ℕ, ◌+ℤ◌, ◌≤ℤ◌, int64_min, int64_max,
}
use actf.Common.Bits.{u64_mod, add64}
use actf.Decoder.Scalar.{to_int64}
use actf.Metadata.{ClkCls, times, to_uint64, clk_cls_cc_to_ns_from_origin}

-- The offset, and the nanoseconds of all the cycles, rounded down.
abbrev pub exact_ns : ClkCls → ℕ → ℤ
exact_ns clkc t =
    times clkc.off_seconds 1000000000 +ℤ pos ((t + clkc.off_cycles) * 1000000000 / clkc.freq)

split_quotient :
    (all_cycles f k : ℕ)
    → 0 < f
    → all_cycles * k / f ≡ all_cycles / f * k + (all_cycles % f) * k / f
split_quotient all_cycles f k z =
    ap (λ (t : ℕ). t / f) (omega (arith, ap (λ (t : ℕ). t * k) (div-add-mod all_cycles f)))
    ∙ mul-add-div z (all_cycles / f * k) ((all_cycles % f) * k)

parts : (m n : ℕ) → pos_part (sub_ℕ m n) + n ≡ m + neg_part (sub_ℕ m n)
parts m n = ground arith

sum_parts :
    (a b : ℤ)
    → pos_part (a +ℤ b) + (neg_part a + neg_part b) ≡ (pos_part a + pos_part b) + neg_part (a +ℤ b)
sum_parts a b = parts (pos_part a + pos_part b) (neg_part a + neg_part b)

product_parts :
    (a : ℤ) (k : ℕ) → pos_part (times a k) + neg_part a * k ≡ pos_part a * k + neg_part (times a k)
product_parts (pos n) k = omega arith
product_parts (negsuc n) k = parts 0 (suc n * k) ∙ omega arith

-- A sum in 64 bits is exact where the result fits.
wrapped_sum :
    (a : ℤ) (x : ℕ)
    → int64_min ≤ℤ a
    → a ≤ℤ int64_max
    → x < u64_mod
    → a +ℤ pos x ≤ℤ int64_max
    → to_int64 (add64 (to_uint64 a) x) ≡ a +ℤ pos x
wrapped_sum (pos n) x l h s f = ℤ_ext _ _ (ground (arith, sum_parts (pos n) (pos x)))
wrapped_sum (negsuc n) x l h s f = ℤ_ext _ _ (ground (arith, sum_parts (negsuc n) (pos x)))

times-add : (a : ℤ) (x k : ℕ) → times (a +ℤ pos x) k ≡ times a k +ℤ pos (x * k)
times-add a x k = ℤ_ext _ _ (
    omega (
      arith,
      product_parts (a +ℤ pos x) k,
      product_parts a k,
      sum_parts a (pos x),
      sum_parts (times a k) (pos (x * k)),
      ap (λ (t : ℕ). t * k) (sum_parts a (pos x)),
    ))

sum_assoc : (a : ℤ) (x y : ℕ) → (a +ℤ pos x) +ℤ pos y ≡ a +ℤ pos (x + y)
sum_assoc a x y =
    ℤ_ext _ _ (
      omega (arith, sum_parts a (pos x), sum_parts (a +ℤ pos x) (pos y), sum_parts a (pos (x + y))))

module _ (clkc : ClkCls) (t : ℕ) (some_freq : 0 < clkc.freq) (slow : clkc.freq ≤ 18446744073)
    (cycles : t + clkc.off_cycles < u64_mod) (low : int64_min ≤ℤ times clkc.off_seconds 1000000000)
    (high : exact_ns clkc t ≤ℤ int64_max) where
  abbrev all_cycles : ℕ
  all_cycles = t + clkc.off_cycles

  abbrev whole : ℕ
  whole = all_cycles / clkc.freq * 1000000000

  abbrev fraction : ℕ
  fraction = (all_cycles % clkc.freq) * 1000000000 / clkc.freq

  abbrev offset : ℤ
  offset = times clkc.off_seconds 1000000000

  abbrev seconds : ℤ
  seconds = times (clkc.off_seconds +ℤ pos (all_cycles / clkc.freq)) 1000000000

  no_wrap : (all_cycles % clkc.freq) * 1000000000 % u64_mod ≡ (all_cycles % clkc.freq) * 1000000000
  no_wrap = omega (arith, mod-lt all_cycles some_freq)

  fraction-lt : fraction < u64_mod
  fraction-lt = omega (
    arith,
    mod-lt all_cycles some_freq,
    div-le_self ((all_cycles % clkc.freq) * 1000000000) clkc.freq,
  )

  exact-eq : exact_ns clkc t ≡ offset +ℤ pos (whole + fraction)
  exact-eq =
      ap (λ (q : ℕ). offset +ℤ pos q) (split_quotient all_cycles clkc.freq 1000000000 some_freq)

  seconds-eq : seconds ≡ offset +ℤ pos whole
  seconds-eq = times-add clkc.off_seconds (all_cycles / clkc.freq) 1000000000

  sum-eq : seconds +ℤ pos fraction ≡ exact_ns clkc t
  sum-eq = ap (λ a. a +ℤ pos fraction) seconds-eq ∙ sum_assoc offset whole fraction ∙ sym exact-eq

  seconds-low : int64_min ≤ℤ seconds
  seconds-low = rw seconds-eq (omega (arith, sum_parts offset (pos whole)))

  below : (a : ℤ) (x : ℕ) → a +ℤ pos x ≤ℤ int64_max → a ≤ℤ int64_max
  below a x h = omega (arith, sum_parts a (pos x))

  sum-high : seconds +ℤ pos fraction ≤ℤ int64_max
  sum-high = rw sum-eq high

  -- A clock value is converted to the nanoseconds of the offset and of all its cycles, rounded down, without a wrap in any step, if the frequency is at most 18446744073, the cycles with the offset fit uint64_t, and the offset's nanoseconds and the result fit int64_t.
  pub clk_cls_cc_to_ns_from_origin-exact_ns : clk_cls_cc_to_ns_from_origin clkc t ≡ exact_ns clkc t
  unfolding clk_cls_cc_to_ns_from_origin
  clk_cls_cc_to_ns_from_origin-exact_ns =
      let counted : add64 t clkc.off_cycles ≡ all_cycles = omega arith in
      rw (counted, no_wrap)
        (wrapped_sum seconds fraction seconds-low (below seconds fraction sum-high) fraction-lt
            sum-high
          ∙ sum-eq)
