-- ===== src/Decoder/FldCls.antt =====
-- fld_cls_int.h, fld_loc_int.h and fld_cls.c: field classes as far as the decoder reads them.
use actf.Common.{ℕ, suc, max, List, Option}
use actf.Flags.{Name}
use actf.Rng.{RngSet}
use actf.Decoder.{FxdLenBitArrFldCls}
use actf.Decoder.Clock.{ClkFldCls, fxd_len_uint, var_len_uint, no_clk}
use actf.Decoder.Str.{Encoding}

pub data FldLocOrigin : Type 0 where
  none pkt_header pkt_ctx event_header : FldLocOrigin
  event_common_ctx event_specific_ctx event_payload : FldLocOrigin

-- A name leads to a member, NULL to the containing structure.
pub record FldLoc : Type 0 where
  pub origin : FldLocOrigin
  pub path : List (Option Name)

-- The tag and the union of struct actf_fld_cls. Display bases, mappings, flags, media types, aliases,
-- attributes and extensions are left out.
mutual
  pub data FldCls : Type 0 where
    nil_cls : FldCls
    bit_arr_cls bit_map_cls sint_cls bool_cls float_cls : FxdLenBitArrFldCls → FldCls
    uint_cls : FxdLenBitArrFldCls → (roles : ℕ) → FldCls
    var_uint_cls : (roles : ℕ) → FldCls
    var_sint_cls : FldCls
    null_term_str_cls : Encoding → FldCls
    static_len_str_cls : (len : ℕ) → Encoding → FldCls
    dyn_len_str_cls : FldLoc → Encoding → FldCls
    static_len_blob_cls : (len roles : ℕ) → FldCls
    dyn_len_blob_cls : FldLoc → FldCls
    struct_cls : (align : ℕ) → MemberClses → FldCls
    static_len_arr_cls : (min_align len : ℕ) → (ele_fld_cls : FldCls) → FldCls
    dyn_len_arr_cls : (min_align : ℕ) → FldLoc → (ele_fld_cls : FldCls) → FldCls
    optional_cls : FldLoc → RngSet → FldCls → FldCls
    variant_cls : FldLoc → Opts → FldCls

  pub data MemberClses : Type 0 where
    no_more : MemberClses
    member : Name → FldCls → MemberClses → MemberClses

  pub data Opts : Type 0 where
    no_opt : Opts
    opt : RngSet → FldCls → Opts → Opts

abbrev pub n_members : MemberClses → ℕ
n_members no_more = 0
n_members (member name cls rest) = suc (n_members rest)

unfoldable pub fld_cls_roles : FldCls → ℕ
fld_cls_roles (uint_cls bit_arr roles) = roles
fld_cls_roles (var_uint_cls roles) = roles
fld_cls_roles (static_len_blob_cls len roles) = roles
fld_cls_roles cls = 0

unfoldable pub get_align_req : FldCls → ℕ
get_align_req nil_cls = 1
get_align_req (bit_arr_cls bit_arr) = bit_arr.align
get_align_req (bit_map_cls bit_arr) = bit_arr.align
get_align_req (uint_cls bit_arr roles) = bit_arr.align
get_align_req (sint_cls bit_arr) = bit_arr.align
get_align_req (bool_cls bit_arr) = bit_arr.align
get_align_req (float_cls bit_arr) = bit_arr.align
get_align_req (var_uint_cls roles) = 8
get_align_req var_sint_cls = 8
get_align_req (null_term_str_cls enc) = 8
get_align_req (static_len_str_cls len enc) = 8
get_align_req (dyn_len_str_cls loc enc) = 8
get_align_req (static_len_blob_cls len roles) = 8
get_align_req (dyn_len_blob_cls loc) = 8
get_align_req (struct_cls align members) = align
get_align_req (static_len_arr_cls min_align len ele) = max min_align (get_align_req ele)
get_align_req (dyn_len_arr_cls min_align loc ele) = max min_align (get_align_req ele)
get_align_req (optional_cls loc rngs cls) = 1
get_align_req (variant_cls loc opts) = 1

-- The class as the clock update sees it.
abbrev pub clk_cls : FldCls → ClkFldCls
clk_cls (uint_cls bit_arr roles) = fxd_len_uint bit_arr
clk_cls (var_uint_cls roles) = var_len_uint
clk_cls cls = no_clk
