-- ===== src/Decoder/Field/Tests.antt =====
-- Structures, arrays and options of a short stream.
use actf.Common.{ℕ, ◌≡◌, refl, arith, [], ◌∷◌, Option, none, some}
use actf.Types.{ok}
use actf.BReader.{lil_endian, init}
use actf.Decoder.{PktState, FxdLenBitArrFldCls, first_to_last}
use actf.Decoder.Scalar.{uint}
use actf.Decoder.Clock.{DecCtx, event_state_init}
use actf.Decoder.FldCls.{
  FldCls, FldLocOrigin, no_more, member, uint_cls, struct_cls, dyn_len_arr_cls, var_uint_cls,
}
use actf.Decoder.Field.{Value, leaf, arr, zeroed, DecState, Done, ended}
use actf.Decoder.Field.Decode.{fld_cls_decode}
use actf.Decoder.Field.Decode.Built.{Ends, Other}
use actf.Decoder.Field.Decode.Elements.{Built}
use actf.Decoder.Field.Decode.Conforming.{fld_cls_decode-Built}

abbrev pkt : PktState
pkt = record {
  bit_off = 0;
  def_clk_val = 0;
  begin_def_clk_val = 0;
  disc_er_snap = 0;
  dsc_id = 0;
  ds_id = 0;
  last_bo = lil_endian;
  content_len = 0xffff;
  end_def_clk_val = 0;
  seq_num = 0;
  tot_len = 0xffff;
  opt_flags = 0;
}

abbrev byte : FxdLenBitArrFldCls
byte = record { len = 8; bo = lil_endian; bito = first_to_last; align = 8 }

-- A structure at address 0 over five bytes.
abbrev start : DecState
start = record {
  dec = record { br = init (2 ∷ 7 ∷ 9 ∷ 0x81 ∷ 1 ∷ []) lil_endian; pkt_s = pkt };
  store = λ a. zeroed;
  top = 1;
  ctx = DecCtx.event_payload;
  pkt_header = 0;
  pkt_ctx = 0;
  ev = none;
  ev_s = event_state_init;
  uuid = [];
}

-- A length, an array of that length, and a variable-length integer.
abbrev counted : FldCls
counted = struct_cls 8 (
    member (1 ∷ []) (uint_cls byte 0) (
      member (2 ∷ [])
        (dyn_len_arr_cls 1 (record { origin = FldLocOrigin.none; path = some (1 ∷ []) ∷ [] })
          (uint_cls byte 0))
        (member (3 ∷ []) (var_uint_cls 0) no_more)))

abbrev value_at : Done → ℕ → Option Value
value_at (ended (ok u, s)) a = some (s.store a).value
value_at d a = none

length_field : value_at (fld_cls_decode counted 0 start) 1 ≡ some (leaf (uint 2 none))
unfolding fld_cls_decode init
length_field = refl

array_field : value_at (fld_cls_decode counted 0 start) 2 ≡ some (arr 4 2)
unfolding fld_cls_decode init
array_field = refl

second_element : value_at (fld_cls_decode counted 0 start) 5 ≡ some (leaf (uint 9 none))
unfolding fld_cls_decode init
second_element = refl

-- 0x81 0x01 is 1 + 128.
var_len_field : value_at (fld_cls_decode counted 0 start) 3 ≡ some (leaf (uint 129 (some 14)))
unfolding fld_cls_decode init
var_len_field = refl

fld_cls_decode-Built_example :
    Ends (Other 0) (Built counted 0 start) start (fld_cls_decode counted 0 start)
fld_cls_decode-Built_example = fld_cls_decode-Built counted 0 start (omega arith) refl
