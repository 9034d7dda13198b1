-- ===== src/Decoder/Clock/Update.antt =====
-- The new value of the default clock.
use actf.Common.{
  ℕ, zero, suc, ◌+◌, ◌-◌, ◌*◌, ◌/◌, ◌%◌, ◌^◌, ◌≤◌, ◌<◌, ◌≡◌, refl, sym, ap, ◌∙◌, bit_and, leb, ltb,
  if◌then◌else◌, Bool-cases, ◌⊎◌, inl, inr, arith, some, none,
}
use native.Mathlib.Nat.{
  div-add-mod, mod-lt, pow-suc, pow-zero, mod-eq_of_lt, mul-add-mod_self_left, div-eq_of_lt,
  div-lt_iff_lt-mul, mul-le-mul_left, mul_comm,
}
use actf.Common.Bits.{
  u64_mod, shl64, not64, sub64, add64, pow_pos, pow-lt-u64_mod, bit_and-ones, bit_and-negated,
  bit_and-lt_right, pow-add,
}
use actf.Common.Disjoint.{pow-le-u64_mod}
use actf.Decoder.Scalar.{Fld}
use actf.Decoder.Clock.{ClkFldCls, clk_len, clk_from_len, calc_new_def_clk_val, fld_uint64}

-- The clock moves to the next value whose lowest l bits are those of `v`, if it is not there yet.
pub record Updated (l v old new : ℕ) : Type 0 where
  pub no_less : old ≤ new
  pub near : new < old + 2 ^ l
  pub low_bits : new % 2 ^ l ≡ v

mask-eq : (l : ℕ) → 0 < l → l ≤ 64 → sub64 (shl64 2 (l - 1)) 1 ≡ 2 ^ l - 1
mask-eq zero z h = absurd (omega arith)
mask-eq (suc l) z h =
    let e : suc l - 1 ≡ l = omega arith in
    rw e (omega (arith, pow-suc 2 l, pow_pos l, pow-le-u64_mod (suc l) h))

and_zero : (x : ℕ) → bit_and x 0 ≡ 0
and_zero x = omega (arith, bit_and-lt_right 0 x 0 (pow_pos 0), pow-zero 2)

high-eq : (l x : ℕ) → l ≤ 64 → x < u64_mod → bit_and x (not64 (2 ^ l - 1)) ≡ x / 2 ^ l * 2 ^ l
high-eq l x h p = elim (Bool-cases (ltb l 64)) [
  | inl short ↦
      let e : not64 (2 ^ l - 1) ≡ sub64 0 (2 ^ l) = ground (arith, pow_pos l, pow-lt-u64_mod l) in
      rw e (bit_and-negated l x (ground arith) p)
  | inr whole ↦
      let all : l ≡ 64 = ground arith in
      rw all (let none : x / 2 ^ 64 ≡ 0 = div-eq_of_lt p in omega (arith, and_zero x, none))
]

-- The lowest bits do not turn, or there is room for one more turn of them.
abbrev pub HasRoom : ℕ → ℕ → ℕ → Type 0
HasRoom l v old = (old % 2 ^ l ≤ v) × (old < u64_mod) ⊎ (old + 2 ^ l ≤ u64_mod)

-- A whole number of turns below 2^64 leaves room for one more.
turns-le : (l old : ℕ) → l ≤ 64 → old < u64_mod → 2 ^ l * (old / 2 ^ l) + 2 ^ l ≤ u64_mod
turns-le l old h p =
    let rest = 64 - l in
    let sum : l + rest ≡ 64 = omega arith in
    let whole : 2 ^ l * 2 ^ rest ≡ u64_mod = sym (pow-add l rest) ∙ ap (λ n. 2 ^ n) sum in
    let all : old < 2 ^ rest * 2 ^ l = omega (arith, whole, mul_comm (2 ^ l) (2 ^ rest)) in
    let below : old / 2 ^ l < 2 ^ rest = (div-lt_iff_lt-mul (pow_pos l)).1 all in
    let next = mul-le-mul_left {m = old / 2 ^ l + 1} {n = 2 ^ rest} (2 ^ l) (omega arith) in
    omega (arith, next, whole)

module _ (l v old : ℕ) (z : 0 < l) (h : l ≤ 64) (short : v < 2 ^ l) (room : HasRoom l v old) where
  fits : old < u64_mod
  fits = elim room [ inl (a, p) ↦ p | inr p ↦ omega (arith, pow_pos l) ]

  split : 2 ^ l * (old / 2 ^ l) + old % 2 ^ l ≡ old
  split = div-add-mod old (2 ^ l)

  cur-lt : old % 2 ^ l < 2 ^ l
  cur-lt = mod-lt old (pow_pos l)

  low : (q : ℕ) → (2 ^ l * q + v) % 2 ^ l ≡ v
  low q = mul-add-mod_self_left (2 ^ l) q v ∙ mod-eq_of_lt short

  abbrev chosen : ℕ
  chosen =
      let high = old / 2 ^ l * 2 ^ l in
      if leb (old % 2 ^ l) v then add64 high v else add64 (add64 (add64 high (2 ^ l - 1)) 1) v

  clk_from_len-chosen : clk_from_len l v old ≡ chosen
  unfolding clk_from_len
  clk_from_len-chosen = rw (mask-eq l z h, bit_and-ones l old, high-eq l old h fits) refl

  chosen-Updated : Updated l v old chosen
  chosen-Updated = elim (Bool-cases (leb (old % 2 ^ l) v)) [
    | inl ahead ↦
        let e : add64 (old / 2 ^ l * 2 ^ l) v ≡ 2 ^ l * (old / 2 ^ l) + v =
          ground (arith, split, cur-lt, turns-le l old h fits) in
        rw (ahead, e)
          (record {
            no_less = ground (arith, split);
            near = ground (arith, split);
            low_bits = low (old / 2 ^ l);
          })
    | inr behind ↦
        let e : add64 (add64 (add64 (old / 2 ^ l * 2 ^ l) (2 ^ l - 1)) 1) v
            ≡ 2 ^ l * (old / 2 ^ l + 1) + v =
          ground (arith, split, cur-lt, pow_pos l, room) in
        rw (behind, e)
          (record {
            no_less = ground (arith, split, cur-lt);
            near = ground (arith, split);
            low_bits = low (old / 2 ^ l + 1);
          })
  ]

taken :
    (cls : ClkFldCls) (val : Fld) (l old : ℕ)
    → clk_len cls val ≡ some l
    → calc_new_def_clk_val cls val old ≡ clk_from_len l (fld_uint64 val) old
unfolding calc_new_def_clk_val
taken cls val l old e =
    ap (λ r. elim r [ some l ↦ clk_from_len l (fld_uint64 val) old | none ↦ old ]) e

-- The same where the lowest bits of the clock need not turn.
pub calc_new_def_clk_val-IsUpdated :
    (cls : ClkFldCls) (val : Fld) (l old : ℕ)
    → clk_len cls val ≡ some l
    → 0 < l
    → l ≤ 64
    → fld_uint64 val < 2 ^ l
    → HasRoom l (fld_uint64 val) old
    → Updated l (fld_uint64 val) old (calc_new_def_clk_val cls val old)
calc_new_def_clk_val-IsUpdated cls val l old e z h short room =
    rw (taken cls val l old e ∙ clk_from_len-chosen l (fld_uint64 val) old z h short room)
      (chosen-Updated l (fld_uint64 val) old z h short room)

-- With the length that the code takes for the class, from 1 to 64, and a value of that length, the clock moves to the least value that is not less than the old one and has the field's value in its lowest bits. The clock must have room for one more turn of them.
pub calc_new_def_clk_val-Updated :
    (cls : ClkFldCls) (val : Fld) (l old : ℕ)
    → clk_len cls val ≡ some l
    → 0 < l
    → l ≤ 64
    → fld_uint64 val < 2 ^ l
    → old + 2 ^ l ≤ u64_mod
    → Updated l (fld_uint64 val) old (calc_new_def_clk_val cls val old)
calc_new_def_clk_val-Updated cls val l old e z h short room =
    calc_new_def_clk_val-IsUpdated cls val l old e z h short (inr room)
