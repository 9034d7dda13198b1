-- ===== src/Metadata.antt =====
-- metadata.c: clock classes, and the time of a clock value.
pub mod Nanoseconds
mod Tests
use actf.Common.{ℕ, suc, ◌+◌, ◌-◌, ◌*◌, ◌/◌, ◌%◌}
use actf.Common.Int.{ℤ, pos, negsuc, sub_ℕ, ◌+ℤ◌}
use actf.Common.Bits.{u64_mod, add64}
use actf.Decoder.Scalar.{to_int64}

-- The members that the conversion reads.
pub record ClkCls : Type 0 where
  pub freq : ℕ
  pub off_seconds : ℤ
  pub off_cycles : ℕ

-- The product with a number; an int64_t that does not hold it is undefined in C.
abbrev pub times : ℤ → ℕ → ℤ
times (pos n) k = pos (n * k)
times (negsuc n) k = sub_ℕ 0 (suc n * k)

-- The conversion of an int64_t to a uint64_t.
abbrev pub to_uint64 : ℤ → ℕ
to_uint64 (pos n) = n
to_uint64 (negsuc n) = u64_mod - suc n

unfoldable pub clk_cls_cc_to_ns_from_origin : ClkCls → ℕ → ℤ
clk_cls_cc_to_ns_from_origin clkc tstamp_cc =
    let cc = add64 tstamp_cc clkc.off_cycles in
    let s = clkc.off_seconds +ℤ pos (cc / clkc.freq) in
    to_int64
      (add64 (to_uint64 (times s 1000000000)) ((cc % clkc.freq) * 1000000000 % u64_mod / clkc.freq))
