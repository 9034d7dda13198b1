-- ===== src/Decoder/Clock/Tests.antt =====
-- Roles and the clock at concrete inputs.
use actf.Common.{◌%◌, ◌^◌, ◌≤◌, ◌<◌, ◌≡◌, refl, [], some, none, inl, inr, arith}
use actf.Common.Bits.{u64_mod}
use actf.BReader.{lil_endian}
use actf.Decoder.{first_to_last, PktState, FxdLenBitArrFldCls}
use actf.Decoder.Scalar.{uint}
use actf.Decoder.Clock.{
  pkt_ctx, event_header, when, fxd_len_uint, var_len_uint, clk_len, fld_uint64,
  calc_new_def_clk_val, RoleState, event_state_init, role_def_clk_tstamp, handle_fld_roles,
}
use actf.Decoder.Clock.Update.{Updated, calc_new_def_clk_val-Updated}
use actf.Decoder.Clock.Monotone.{Handled, start, field, Later, IsOrdered, Handled-Later}

abbrev pkt : PktState
pkt = record {
  bit_off = 64;
  def_clk_val = 1000;
  begin_def_clk_val = 900;
  disc_er_snap = 0;
  dsc_id = 0;
  ds_id = 0;
  last_bo = lil_endian;
  content_len = 0xffff_ffff_ffff_ffff;
  end_def_clk_val = 0;
  seq_num = 0;
  tot_len = 0xffff_ffff_ffff_ffff;
  opt_flags = 0;
}

abbrev before : RoleState
before = record { pkt_s = pkt; ev_s = event_state_init; bytes = []; uuid = [] }

abbrev byte : FxdLenBitArrFldCls
byte = record { len = 8; bo = lil_endian; bito = first_to_last; align = 8 }

-- 1000 is 3 * 256 + 232, so 5 in the lowest byte is next at 4 * 256 + 5.
turned : calc_new_def_clk_val (fxd_len_uint byte) (uint 5 none) 1000 ≡ 1029
unfolding calc_new_def_clk_val
turned = refl

-- The length that is taken for a variable-length field of 14 bits is the number of its bytes, 2:
-- the clock at 1000 jumps to 2001 for the time stamp 1001.
two_bytes : calc_new_def_clk_val var_len_uint (uint 1001 (some 14)) 1000 ≡ 2001
unfolding calc_new_def_clk_val
two_bytes = refl

calc_new_def_clk_val-Updated_example :
    Updated 8 5 1000 (calc_new_def_clk_val (fxd_len_uint byte) (uint 5 none) 1000)
unfolding fld_uint64
calc_new_def_clk_val-Updated_example =
    calc_new_def_clk_val-Updated (fxd_len_uint byte) (uint 5 none) 8 1000 (unfold clk_len in refl)
      (omega arith) (omega arith) (omega arith) (omega arith)

abbrev whole : FxdLenBitArrFldCls
whole = record { len = 64; bo = lil_endian; bito = first_to_last; align = 8 }

-- The time stamps of a packet context and of an event.
abbrev turned_once : RoleState
turned_once =
    (handle_fld_roles pkt_ctx role_def_clk_tstamp (fxd_len_uint byte) (uint 5 none) before).1

abbrev after : RoleState
after =
    (handle_fld_roles event_header role_def_clk_tstamp (fxd_len_uint whole) (uint 5000 none)
      turned_once).1

-- The second stamp is ahead of the clock at 1029.
at_1029 :
    (turned_once.pkt_s.def_clk_val % 2 ^ 64 ≤ fld_uint64 (uint 5000 none))
    × (turned_once.pkt_s.def_clk_val < u64_mod)
unfolding handle_fld_roles when calc_new_def_clk_val fld_uint64
at_1029 = (omega arith, omega arith)

-- A stamp of 8 bits that makes them turn, and one of 64 bits that is ahead.
stamped : Handled before after
stamped =
    field turned_once event_header role_def_clk_tstamp (fxd_len_uint whole) (uint 5000 none)
      (λ h. record {
        len = 64;
        taken = unfold clk_len in refl;
        some_bits = omega arith;
        small = omega arith;
        value = unfold fld_uint64 in omega arith;
        room = inl at_1029;
      })
      (field before pkt_ctx role_def_clk_tstamp (fxd_len_uint byte) (uint 5 none)
        (λ h. record {
          len = 8;
          taken = unfold clk_len in refl;
          some_bits = omega arith;
          small = omega arith;
          value = unfold fld_uint64 in omega arith;
          room = inr (omega arith);
        })
        start)

ordered : IsOrdered before
ordered = record { begun = omega arith; event = omega arith }

Handled-Later_example : Later before after
Handled-Later_example = Handled-Later before after ordered stamped
