-- ===== src/Decoder/Clock.antt =====
-- decoder.c, event_state.h and fld.c: what a field with a role does to the state of the packet and
-- of the event, and the update of the default clock.
pub mod Update
pub mod Monotone
mod Tests
use actf.Common.{
  ℕ, zero, suc, ◌+◌, ◌-◌, ◌/◌, ◌%◌, ◌^◌, bit_and, bit_or, Bool, true, false, not, ltb, leb, ◌==◌,
  ◌&&◌, if◌then◌else◌, Option, none, some, List, [], ◌∷◌,
}
use actf.Common.Int.{ℤ, pos, negsuc}
use actf.Common.Lists.{drop}
use actf.Common.Bits.{u64_mod, shl64, not64, add64, sub64}
use actf.Types.{Rc, Result, ok, err, magic_mismatch, uuid_mismatch}
use actf.Decoder.{PktState, FxdLenBitArrFldCls, pkt_end_def_clk_val, pkt_seq_num}
use actf.Decoder.Scalar.{Fld, nil, bool_, sint, uint, bit_map, real_f32, real_f64, blob, str}

pub data DecCtx : Type 0 where
  pkt_header pkt_ctx event_header : DecCtx
  event_common_ctx event_specific_ctx event_payload : DecCtx

-- The bits of enum actf_role.
abbrev pub role_dstream_cls_id : ℕ
role_dstream_cls_id = 1

abbrev pub role_dstream_id : ℕ
role_dstream_id = 2

abbrev pub role_pkt_magic_num : ℕ
role_pkt_magic_num = 4

abbrev pub role_metadata_stream_uuid : ℕ
role_metadata_stream_uuid = 8

abbrev pub role_def_clk_tstamp : ℕ
role_def_clk_tstamp = 16

abbrev pub role_disc_event_cnt_snapshot : ℕ
role_disc_event_cnt_snapshot = 32

abbrev pub role_pkt_content_len : ℕ
role_pkt_content_len = 64

abbrev pub role_pkt_end_def_clk_tstamp : ℕ
role_pkt_end_def_clk_tstamp = 128

abbrev pub role_pkt_seq_num : ℕ
role_pkt_seq_num = 256

abbrev pub role_pkt_tot_len : ℕ
role_pkt_tot_len = 512

abbrev pub role_event_cls_id : ℕ
role_event_cls_id = 1024

abbrev pub packet_magic_number : ℕ
packet_magic_number = 0xc1fc_1fc1

-- PKT_DISC_ER_SNAP and PKT_DSTREAM_ID of enum pkt_state_opt.
abbrev pub pkt_disc_er_snap : ℕ
pkt_disc_er_snap = 1

abbrev pub pkt_dstream_id : ℕ
pkt_dstream_id = 4

-- The pointer to the event class is left out.
pub record EventState : Type 0 where
  pub id : ℕ
  pub def_clk_val : ℕ

abbrev pub event_state_init : EventState
event_state_init = record { id = 0; def_clk_val = 0 }

-- actf_fld_uint64
unfoldable pub fld_uint64 : Fld → ℕ
fld_uint64 (bool_ b) = if b then 1 else 0
fld_uint64 (sint (pos n)) = n
fld_uint64 (sint (negsuc n)) = 0
fld_uint64 (uint n len) = n
fld_uint64 (bit_map n) = n
fld_uint64 nil = u64_mod - 1
fld_uint64 (real_f32 x) = u64_mod - 1
fld_uint64 (real_f64 x) = u64_mod - 1
fld_uint64 (blob ptr len) = u64_mod - 1
fld_uint64 (str ptr len) = u64_mod - 1

-- The classes that the update tells apart.
pub data ClkFldCls : Type 0 where
  fxd_len_uint : FxdLenBitArrFldCls → ClkFldCls
  var_len_uint : ClkFldCls
  no_clk : ClkFldCls

-- The length that a field of a variable-length class has noted.
abbrev pub noted_len : Fld → ℕ
noted_len (uint n (some len)) = len
noted_len fld = 0

unfoldable pub clk_len : ClkFldCls → Fld → Option ℕ
clk_len (fxd_len_uint cls) val = some cls.len
clk_len var_len_uint val = some (noted_len val / 7 + (if noted_len val % 7 == 0 then 0 else 1))
clk_len no_clk val = none

unfoldable pub clk_from_len : ℕ → ℕ → ℕ → ℕ
clk_from_len l v def_clk_val =
    let mask = sub64 (shl64 2 (l - 1)) 1 in
    let h = bit_and def_clk_val (not64 mask) in
    let cur = bit_and def_clk_val mask in
    if leb cur v then add64 h v else add64 (add64 (add64 h mask) 1) v

unfoldable pub calc_new_def_clk_val : ClkFldCls → Fld → ℕ → ℕ
unfolding clk_len clk_from_len fld_uint64
calc_new_def_clk_val cls val def_clk_val = elim (clk_len cls val) [
  | some l ↦ clk_from_len l (fld_uint64 val) def_clk_val
  | none ↦ def_clk_val
]

-- The states that the roles change, with the bytes of the stream and the UUID of the metadata.
pub record RoleState : Type 0 where
  pub pkt_s : PktState
  pub ev_s : EventState
  pub bytes : List ℕ
  pub uuid : List ℕ

abbrev pub has_role : ℕ → ℕ → Bool
has_role roles role = not (bit_and roles role == 0)

unfoldable pub when {ℓ} : {A : Type ℓ} → Bool → (A → A) → A → A
when b f x = if b then f x else x

-- memcmp of `n` bytes finds no difference.
abbrev pub same_bytes : ℕ → List ℕ → List ℕ → Bool
same_bytes zero a b = true
same_bytes (suc n) (x ∷ a) (y ∷ b) = (x == y) && same_bytes n a b
same_bytes (suc n) [] b = false
same_bytes (suc n) (x ∷ a) [] = false

abbrev pub has_uuid : RoleState → Fld → Bool
has_uuid s (blob ptr len) = same_bytes 16 s.uuid (drop ptr s.bytes)
has_uuid s fld = false

abbrev pub header_roles : ℕ → Fld → PktState → PktState
header_roles roles val p =
    let p =
      when (has_role roles role_dstream_cls_id) (λ p. record p { dsc_id = fld_uint64 val }) p in
    when (has_role roles role_dstream_id)
      (λ p. record p { ds_id = fld_uint64 val; opt_flags = bit_or p.opt_flags pkt_dstream_id }) p

abbrev pub clk_update : ClkFldCls → Fld → PktState → PktState
clk_update cls val p = record p { def_clk_val = calc_new_def_clk_val cls val p.def_clk_val }

abbrev pub ctx_roles : ℕ → ClkFldCls → Fld → PktState → PktState
ctx_roles roles cls val p =
    let p =
      when (has_role roles role_def_clk_tstamp)
        (λ p. let q = clk_update cls val p in record q { begin_def_clk_val = q.def_clk_val }) p in
    let p =
      when (has_role roles role_disc_event_cnt_snapshot)
        (λ p. record p {
          disc_er_snap = fld_uint64 val;
          opt_flags = bit_or p.opt_flags pkt_disc_er_snap;
        })
        p in
    let p =
      when (has_role roles role_pkt_content_len) (λ p. record p { content_len = fld_uint64 val })
        p in
    let p =
      when (has_role roles role_pkt_end_def_clk_tstamp)
        (λ p. record p {
          end_def_clk_val = fld_uint64 val;
          opt_flags = bit_or p.opt_flags pkt_end_def_clk_val;
        })
        p in
    let p =
      when (has_role roles role_pkt_seq_num)
        (λ p. record p { seq_num = fld_uint64 val; opt_flags = bit_or p.opt_flags pkt_seq_num })
        p in
    when (has_role roles role_pkt_tot_len) (λ p. record p { tot_len = fld_uint64 val }) p

abbrev pub event_roles : ℕ → ClkFldCls → Fld → RoleState → RoleState
event_roles roles cls val s =
    let s =
      when (has_role roles role_event_cls_id)
        (λ s. record s { ev_s = record s.ev_s { id = fld_uint64 val } }) s in
    when (has_role roles role_def_clk_tstamp)
      (λ s.
        let p = clk_update cls val s.pkt_s in
        record s { pkt_s = p; ev_s = record s.ev_s { def_clk_val = p.def_clk_val } })
      s

unfoldable pub handle_fld_roles :
    DecCtx → ℕ → ClkFldCls → Fld → RoleState → Result (Unit {0}) × RoleState
unfolding calc_new_def_clk_val fld_uint64
handle_fld_roles pkt_header roles cls val s =
    let s = record s { pkt_s = header_roles roles val s.pkt_s } in
    if has_role roles role_pkt_magic_num && not (fld_uint64 val == packet_magic_number)
    then (err magic_mismatch, s)
    else if has_role roles role_metadata_stream_uuid && not (has_uuid s val)
    then (err uuid_mismatch, s)
    else (ok tt, s)
handle_fld_roles pkt_ctx roles cls val s =
    (ok tt, record s { pkt_s = ctx_roles roles cls val s.pkt_s })
handle_fld_roles event_header roles cls val s = (ok tt, event_roles roles cls val s)
handle_fld_roles event_common_ctx roles cls val s = (ok tt, s)
handle_fld_roles event_specific_ctx roles cls val s = (ok tt, s)
handle_fld_roles event_payload roles cls val s = (ok tt, s)
