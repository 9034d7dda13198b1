-- ===== src/Decoder/Field/Decode.antt =====
-- decoder.c: fld_cls_decode, by the class.
pub mod Kinds
pub mod Frame
pub mod Built
pub mod Elements
pub mod Conforming
use actf.Common.{
  ℕ, zero, suc, ◌+◌, Bool, true, false, not, ◌==◌, List, Option, none, some, if◌then◌else◌,
}
use actf.Types.{
  Rc, Result, ok, err, unsupported_length, internal, missing_fld_loc, wrong_fld_type,
  no_selector_fld, not_enough_bits,
}
use actf.Common.Int.{ℤ}
use actf.Rng.{RngSet, rng_set_len, rng_set_intersect_sint, rng_set_intersect_uint}
use actf.Decoder.{Decoder, FxdLenBitArrFldCls, fxd_len_bit_arr_decode, do_align}
use actf.Decoder.Scalar.{
  Fld, nil, real_f32, bool_, sint, uint, fxd_len_bit_map_decode, fxd_len_sint_decode,
  fxd_len_uint_decode, fxd_len_bool_decode, fxd_len_float_decode, with_bit_arr,
}
use actf.Decoder.Clock.{RoleState, handle_fld_roles}
use actf.Decoder.Str.{
  Ran, static_len_blob_decode, static_len_str_decode, dyn_len_blob_decode, dyn_len_str_decode,
  null_term_str_decode,
}
use actf.Decoder.Str as Str
use actf.Decoder.VarLen.{var_len_uint_decode, var_len_sint_decode}
use actf.Decoder.FldCls.{
  FldCls, FldLoc, MemberClses, no_more, member, Opts, no_opt, opt, nil_cls, bit_arr_cls,
  bit_map_cls, sint_cls, bool_cls, float_cls, uint_cls, var_uint_cls, var_sint_cls,
  null_term_str_cls, static_len_str_cls, dyn_len_str_cls, static_len_blob_cls, dyn_len_blob_cls,
  struct_cls, static_len_arr_cls, dyn_len_arr_cls, optional_cls, variant_cls, fld_cls_roles,
  get_align_req, clk_cls, n_members,
}
use actf.Decoder.Field.{
  Value, leaf, struct_, arr, Field, DecState, Done, ended, overrun, endless, then_done, done,
  failing, allocn, set_value, set_cls, set_parent,
}
use actf.Decoder.Field.Locate.{
  Found, at, null, circle, fld_loc_locate, Len, len, no_len, get_arr_cls_len,
}

-- A field without parts: its value, or the error.
abbrev pub write_leaf : ℕ → DecState → Result Fld × Decoder → Done
write_leaf a s (ok fld, dec) = done (set_value a (leaf fld) (record s { dec = dec }))
write_leaf a s (err rc, dec) = failing rc (record s { dec = dec })

abbrev pub is_unsupported : Rc → Bool
is_unsupported unsupported_length = true
is_unsupported rc = false

-- The type is set ahead of the check of the length. The rest of a field that memset has cleared stays.
abbrev pub write_real : ℕ → DecState → Result Fld × Decoder → Done
write_real a s (ok fld, dec) = done (set_value a (leaf fld) (record s { dec = dec }))
write_real a s (err rc, dec) =
    let s = record s { dec = dec } in
    failing rc (if is_unsupported rc then set_value a (leaf (real_f32 0)) s else s)

abbrev pub write_ran : ℕ → DecState → Ran → Done
write_ran a s (Str.ended p) = write_leaf a s p
write_ran a s Str.overrun = overrun

unfoldable pub fld_cls_fxd_len_bit_arr_decode : Decoder → FxdLenBitArrFldCls → Result Fld × Decoder
unfolding fxd_len_bit_arr_decode
fld_cls_fxd_len_bit_arr_decode dec cls = with_bit_arr dec cls (λ bit_arr. ok (uint bit_arr none))

abbrev pub fld_of : Value → Fld
fld_of (leaf fld) = fld
fld_of (struct_ vals) = nil
fld_of (arr vals n_vals) = nil

-- The field that a location leads to.
abbrev pub with_located : DecState → Found → (Option Fld → Done) → Done
with_located s (at a) next = next (some (fld_of (s.store a).value))
with_located s null next = next none
with_located s circle next = endless

abbrev pub role_state : DecState → RoleState
role_state s = record { pkt_s = s.dec.pkt_s; ev_s = s.ev_s; bytes = s.dec.br.bytes; uuid = s.uuid }

abbrev pub after_roles : DecState → Result (Unit {0}) × RoleState → Done
after_roles s (r, roles) =
    ended (r, record s { dec = record s.dec { pkt_s = roles.pkt_s }; ev_s = roles.ev_s })

-- The roles of a field that has been decoded, where it has any.
unfoldable pub with_roles : FldCls → ℕ → DecState → Done
unfolding fld_cls_roles handle_fld_roles
with_roles cls a s =
    if fld_cls_roles cls == 0
    then done s
    else after_roles s (
        handle_fld_roles s.ctx (fld_cls_roles cls) (clk_cls cls) (fld_of (s.store a).value)
          (role_state s))

-- Whether an optional field is there.
unfoldable pub is_enabled : RngSet → Fld → Result Bool
unfolding rng_set_len rng_set_intersect_sint rng_set_intersect_uint
is_enabled rngs (bool_ b) = ok b
is_enabled rngs (sint n) =
    if rng_set_len rngs == 0 then err no_selector_fld else ok (rng_set_intersect_sint rngs n)
is_enabled rngs (uint n noted) =
    if rng_set_len rngs == 0 then err no_selector_fld else ok (rng_set_intersect_uint rngs n)
is_enabled rngs fld = if rng_set_len rngs == 0 then err no_selector_fld else err wrong_fld_type

abbrev pub if_enabled : ℕ → DecState → (DecState → Done) → Result Bool → Done
if_enabled a s decode (ok true) = decode s
if_enabled a s decode (ok false) = done (set_value a (leaf nil) s)
if_enabled a s decode (err rc) = failing rc s

abbrev pub optional_decode : ℕ → DecState → (DecState → Done) → RngSet → Option Fld → Done
optional_decode a s decode rngs none = failing missing_fld_loc s
optional_decode a s decode rngs (some fld) = if_enabled a s decode (is_enabled rngs fld)

-- The test of the selector field, if it is an integer.
abbrev pub selects : Fld → Option (RngSet → Bool)
selects (sint n) = some (λ rngs. rng_set_intersect_sint rngs n)
selects (uint n noted) = some (λ rngs. rng_set_intersect_uint rngs n)
selects fld = none

abbrev pub chosen : DecState → Option (DecState → Done) → Done
chosen s none = failing no_selector_fld s
chosen s (some decode) = decode s

abbrev pub if_integer :
    DecState → ((RngSet → Bool) → Option (DecState → Done)) → Option (RngSet → Bool) → Done
if_integer s choose none = failing wrong_fld_type s
if_integer s choose (some test) = chosen s (choose test)

abbrev pub variant_decode :
    DecState → ((RngSet → Bool) → Option (DecState → Done)) → Option Fld → Done
variant_decode s choose none = failing missing_fld_loc s
variant_decode s choose (some fld) = if_integer s choose (selects fld)

-- The later option where both match.
abbrev pub last_of : {A : Type 0} → Bool → A → Option A → Option A
last_of b x (some y) = some y
last_of b x none = if b then some x else none

-- Alignment inside the packet.
unfoldable pub aligned : ℕ → DecState → (DecState → Done) → Done
unfolding do_align
aligned align s next =
    let (within, br) = do_align s.dec.br align s.dec.pkt_s in
    let s = record s { dec = record s.dec { br = br } } in
    if not within then failing not_enough_bits s else next s

-- An element more of the array.
abbrev pub count_up : ℕ → DecState → DecState
count_up a s = set_value a (counted (s.store a).value) s
  where
    counted : Value → Value
    counted (arr vals n_vals) = arr vals (suc n_vals)
    counted v = v

-- The loop over the elements from `b` on.
unfoldable pub arr_loop : (ℕ → DecState → Done) → Option ℕ → ℕ → ℕ → ℕ → DecState → Done
arr_loop decode parent a zero b s = done s
arr_loop decode parent a (suc n) b s =
    then_done (decode b (set_parent b parent s))
      (λ s. arr_loop decode parent a n (suc b) (count_up a s))

-- The number of elements that the union holds already; the loop counts on from it.
abbrev pub n_vals_of : Value → ℕ
n_vals_of (arr vals n_vals) = n_vals
n_vals_of v = 0

-- The array with new elements, and the loop.
abbrev pub arr_vals : (ℕ → DecState → Done) → ℕ → ℕ → DecState → Done
arr_vals decode arr_len a s =
    let vals = s.top in
    let s = allocn arr_len s in
    let s = set_value a (arr vals (n_vals_of (s.store a).value)) s in
    arr_loop decode (s.store a).parent a arr_len vals s

unfoldable pub arr_decode : (ℕ → DecState → Done) → ℕ → ℕ → ℕ → DecState → Done
unfolding aligned allocn arr_loop
arr_decode decode align arr_len a s = aligned align s (arr_vals decode arr_len a)

-- The structure with new members.
abbrev pub struct_vals : ℕ → ℕ → DecState → DecState
struct_vals n a s = set_value a (struct_ s.top) (allocn n s)

abbrev pub with_len : DecState → Len → (ℕ → Done) → Done
with_len s (len (ok n)) next = next n
with_len s (len (err rc)) next = failing rc s
with_len s no_len next = endless

unfoldable mutual
  unfolding fld_cls_fxd_len_bit_arr_decode fxd_len_bit_map_decode fxd_len_uint_decode
      fxd_len_sint_decode fxd_len_bool_decode fxd_len_float_decode var_len_uint_decode
      var_len_sint_decode null_term_str_decode static_len_str_decode dyn_len_str_decode
      static_len_blob_decode dyn_len_blob_decode fld_loc_locate get_arr_cls_len get_align_req
      aligned allocn arr_decode is_enabled with_roles

  -- The class has been noted in the field.
  pub decode_as : FldCls → ℕ → DecState → Done
  decode_as nil_cls a s = failing internal s
  decode_as (bit_arr_cls cls) a s = write_leaf a s (fld_cls_fxd_len_bit_arr_decode s.dec cls)
  decode_as (bit_map_cls cls) a s = write_leaf a s (fxd_len_bit_map_decode s.dec cls)
  decode_as (uint_cls cls roles) a s = write_leaf a s (fxd_len_uint_decode s.dec cls)
  decode_as (sint_cls cls) a s = write_leaf a s (fxd_len_sint_decode s.dec cls)
  decode_as (bool_cls cls) a s = write_leaf a s (fxd_len_bool_decode s.dec cls)
  decode_as (float_cls cls) a s = write_real a s (fxd_len_float_decode s.dec cls)
  decode_as (var_uint_cls roles) a s = write_leaf a s (var_len_uint_decode s.dec)
  decode_as var_sint_cls a s = write_leaf a s (var_len_sint_decode s.dec)
  decode_as (null_term_str_cls enc) a s = write_ran a s (null_term_str_decode s.dec enc)
  decode_as (static_len_str_cls n enc) a s = write_ran a s (static_len_str_decode s.dec n enc)
  decode_as (dyn_len_str_cls loc enc) a s =
      with_located s (fld_loc_locate s loc a) (λ f. write_ran a s (dyn_len_str_decode s.dec f enc))
  decode_as (static_len_blob_cls n roles) a s = write_leaf a s (static_len_blob_decode s.dec n)
  decode_as (dyn_len_blob_cls loc) a s =
      with_located s (fld_loc_locate s loc a) (λ f. write_leaf a s (dyn_len_blob_decode s.dec f))
  decode_as (struct_cls align members) a s =
      aligned align s (λ s. members_decode members a s.top (struct_vals (n_members members) a s))
  decode_as (static_len_arr_cls min_align n ele) a s = with_len s (get_arr_cls_len s a) (λ m.
      arr_decode (λ b s. decode_as ele b (set_cls b ele s))
        (get_align_req (static_len_arr_cls min_align n ele)) n a s)
  decode_as (dyn_len_arr_cls min_align loc ele) a s = with_len s (get_arr_cls_len s a) (λ m.
      arr_decode (λ b s. decode_as ele b (set_cls b ele s))
        (get_align_req (dyn_len_arr_cls min_align loc ele)) m a s)
  decode_as (optional_cls loc rngs cls) a s = with_located s (fld_loc_locate s loc a) (
      optional_decode a s (λ s. then_done (decode_as cls a (set_cls a cls s)) (with_roles cls a))
        rngs)
  decode_as (variant_cls loc opts) a s =
      with_located s (fld_loc_locate s loc a) (variant_decode s (opts_decode opts a))

  -- The loop over the members from `b` on.
  pub members_decode : MemberClses → ℕ → ℕ → DecState → Done
  members_decode no_more a b s = done s
  members_decode (member name cls rest) a b s =
      then_done (decode_as cls b (set_cls b cls (set_parent b (some a) s)))
        (λ s. then_done (with_roles cls b s) (λ s. members_decode rest a (suc b) s))

  -- What decodes the last option that the selector field selects.
  pub opts_decode : Opts → ℕ → (RngSet → Bool) → Option (DecState → Done)
  opts_decode no_opt a test = none
  opts_decode (opt rngs cls rest) a test =
      last_of (test rngs) (λ s. then_done (decode_as cls a (set_cls a cls s)) (with_roles cls a))
        (opts_decode rest a test)

unfoldable pub fld_cls_decode : FldCls → ℕ → DecState → Done
unfolding decode_as
fld_cls_decode cls a s = decode_as cls a (set_cls a cls s)
