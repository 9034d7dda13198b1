-- ===== src/Metadata/Tests.antt =====
-- Clock values at concrete inputs.
use actf.Common.{◌≡◌, refl, arith}
use actf.Common.Int.{pos, negsuc}
use actf.Metadata.{ClkCls, clk_cls_cc_to_ns_from_origin}
use actf.Metadata.Nanoseconds.{exact_ns, clk_cls_cc_to_ns_from_origin-exact_ns}

-- 24 MHz, two seconds before the origin.
abbrev clock : ClkCls
clock = record { freq = 24000000; off_seconds = negsuc 1; off_cycles = 12 }

-- 100 cycles are 4166 nanoseconds.
before_origin : clk_cls_cc_to_ns_from_origin clock 88 ≡ negsuc 1999995833
unfolding clk_cls_cc_to_ns_from_origin
before_origin = refl

-- A clock of picoseconds: 20 ms are 20000000 ns, but the product wraps around.
picoseconds :
    clk_cls_cc_to_ns_from_origin
      (record { freq = 1000000000000; off_seconds = pos 0; off_cycles = 0 })
      20000000000
    ≡ pos 1553255
unfolding clk_cls_cc_to_ns_from_origin
picoseconds = refl

clk_cls_cc_to_ns_from_origin-exact_ns_example :
    clk_cls_cc_to_ns_from_origin clock 88 ≡ exact_ns clock 88
clk_cls_cc_to_ns_from_origin-exact_ns_example =
    clk_cls_cc_to_ns_from_origin-exact_ns clock 88 (omega arith) (omega arith) (omega arith)
      (omega arith) (omega arith)
