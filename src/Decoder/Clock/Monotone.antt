-- ===== src/Decoder/Clock/Monotone.antt =====
-- The default clock over all the fields with roles of a packet and its events.
use actf.Common.{
  ℕ, ◌^◌, ◌≤◌, ◌<◌, ◌≡◌, refl, Bool, true, false, Bool-cases, not, ◌&&◌, ◌==◌, arith, ◌∙◌, some,
  inl, inr,
}
use actf.Decoder.{PktState}
use actf.Decoder.Scalar.{Fld}
use actf.Decoder.Clock.{
  DecCtx, pkt_header, pkt_ctx, event_header, event_common_ctx, event_specific_ctx, event_payload,
  ClkFldCls, clk_len, fld_uint64, calc_new_def_clk_val, RoleState, has_role, has_uuid,
  role_def_clk_tstamp, role_pkt_magic_num, role_metadata_stream_uuid, role_event_cls_id,
  packet_magic_number, handle_fld_roles, when, header_roles, ctx_roles, clk_update,
}
use actf.Decoder.Clock.Update.{calc_new_def_clk_val-IsUpdated, HasRoom}

-- The field holds a time stamp of the length that the code takes for its class, and the clock does
-- not turn over: the stamp is not behind the lowest bits of the clock, or there is room for one more
-- turn of them.
pub record IsStamp (cls : ClkFldCls) (val : Fld) (s : RoleState) : Type 0 where
  pub len : ℕ
  pub taken : clk_len cls val ≡ some len
  pub some_bits : 0 < len
  pub small : len ≤ 64
  pub value : fld_uint64 val < 2 ^ len
  pub room : HasRoom len (fld_uint64 val) s.pkt_s.def_clk_val

-- The states that handle_fld_roles takes a state to, field by field, in any order of contexts. Only
-- fields with the role of a time stamp are held to a condition.
pub data Handled (s : RoleState) : RoleState → Type 0 where
  start : Handled s s
  field :
      (t : RoleState) (ctx : DecCtx) (roles : ℕ) (cls : ClkFldCls) (val : Fld)
      → (has_role roles role_def_clk_tstamp ≡ true → IsStamp cls val t)
      → Handled s t
      → Handled s (handle_fld_roles ctx roles cls val t).1

-- What holds between two states of a packet.
pub record Later (s t : RoleState) : Type 0 where
  pub clock : s.pkt_s.def_clk_val ≤ t.pkt_s.def_clk_val
  pub begin : s.pkt_s.begin_def_clk_val ≤ t.pkt_s.begin_def_clk_val
  pub begun : t.pkt_s.begin_def_clk_val ≤ t.pkt_s.def_clk_val
  pub event : t.ev_s.def_clk_val ≤ t.pkt_s.def_clk_val
  pub bit_off : t.pkt_s.bit_off ≡ s.pkt_s.bit_off

pub record IsOrdered (s : RoleState) : Type 0 where
  pub begun : s.pkt_s.begin_def_clk_val ≤ s.pkt_s.def_clk_val
  pub event : s.ev_s.def_clk_val ≤ s.pkt_s.def_clk_val

-- The roles that do not touch the clock.
record SameClock (p q : PktState) : Type 0 where
  pub clock : q.def_clk_val ≡ p.def_clk_val
  pub begin : q.begin_def_clk_val ≡ p.begin_def_clk_val
  pub bit_off : q.bit_off ≡ p.bit_off

when-SameClock :
    (b : Bool) (f : PktState → PktState) (p q : PktState)
    → ((y : PktState) → SameClock y (f y))
    → SameClock p q
    → SameClock p (when b f q)
unfolding when
when-SameClock true f p q h e =
    let g = h q in
    record {
      clock = omega (arith, g.clock, e.clock);
      begin = omega (arith, g.begin, e.begin);
      bit_off = omega (arith, g.bit_off, e.bit_off);
    }
when-SameClock false f p q h e = e

same : (p : PktState) → SameClock p p
same p = record { clock = refl; begin = refl; bit_off = refl }

header-SameClock : (roles : ℕ) (val : Fld) (p : PktState) → SameClock p (header_roles roles val p)
header-SameClock roles val p =
    when-SameClock _ _ p _ (λ y. record { clock = refl; begin = refl; bit_off = refl })
      (when-SameClock _ _ p _ (λ y. record { clock = refl; begin = refl; bit_off = refl }) (same p))

-- The first role of a packet context.
abbrev ctx_clock : ℕ → ClkFldCls → Fld → PktState → PktState
ctx_clock roles cls val p =
    when (has_role roles role_def_clk_tstamp)
      (λ p. let q = clk_update cls val p in record q { begin_def_clk_val = q.def_clk_val }) p

ctx-SameClock :
    (roles : ℕ) (cls : ClkFldCls) (val : Fld) (p : PktState)
    → SameClock (ctx_clock roles cls val p) (ctx_roles roles cls val p)
ctx-SameClock roles cls val p =
    let q = ctx_clock roles cls val p in
    when-SameClock _ _ q _ (λ y. record { clock = refl; begin = refl; bit_off = refl })
      (when-SameClock _ _ q _ (λ y. record { clock = refl; begin = refl; bit_off = refl })
        (when-SameClock _ _ q _ (λ y. record { clock = refl; begin = refl; bit_off = refl })
          (when-SameClock _ _ q _ (λ y. record { clock = refl; begin = refl; bit_off = refl })
            (when-SameClock _ _ q _ (λ y. record { clock = refl; begin = refl; bit_off = refl })
              (same q)))))

module _ (roles : ℕ) (cls : ClkFldCls) (val : Fld) (s : RoleState)
    (k : has_role roles role_def_clk_tstamp ≡ true → IsStamp cls val s) (o : IsOrdered s) where
  forward :
      has_role roles role_def_clk_tstamp ≡ true
      → s.pkt_s.def_clk_val ≤ calc_new_def_clk_val cls val s.pkt_s.def_clk_val
  forward h =
      let g = k h in
      (calc_new_def_clk_val-IsUpdated cls val g.len s.pkt_s.def_clk_val g.taken g.some_bits g.small
        g.value g.room).no_less

  kept : Later s s
  kept = record {
    clock = omega arith;
    begin = omega arith;
    begun = o.begun;
    event = o.event;
    bit_off = refl;
  }

  header-Later : Later s (handle_fld_roles pkt_header roles cls val s).1
  unfolding handle_fld_roles
  header-Later =
      let c = header-SameClock roles val s.pkt_s in
      let s' : RoleState = record s { pkt_s = header_roles roles val s.pkt_s } in
      let l : Later s s' = record {
        clock = omega (arith, c.clock);
        begin = omega (arith, c.begin);
        begun = omega (arith, c.clock, c.begin, o.begun);
        event = omega (arith, c.clock, o.event);
        bit_off = c.bit_off;
      } in
      elim (Bool-cases
        (has_role roles role_pkt_magic_num && not (fld_uint64 val == packet_magic_number))) [
          | inl magic ↦ rw magic l
          | inr no_magic ↦
              rw no_magic
                (elim (Bool-cases
                  (has_role roles role_metadata_stream_uuid && not (has_uuid s' val))) [
                    | inl uuid ↦ rw uuid l
                    | inr no_uuid ↦ rw no_uuid l
                  ])
        ]

  clock-Later : Later s (record s { pkt_s = ctx_clock roles cls val s.pkt_s })
  unfolding when
  clock-Later = elim (Bool-cases (has_role roles role_def_clk_tstamp)) [
    | inl stamp ↦ rw stamp (record {
      clock = forward stamp;
      begin = omega (arith, forward stamp, o.begun);
      begun = omega arith;
      event = omega (arith, forward stamp, o.event);
      bit_off = refl;
    })
    | inr unstamped ↦ rw unstamped kept
  ]

  ctx-Later : Later s (handle_fld_roles pkt_ctx roles cls val s).1
  unfolding handle_fld_roles
  ctx-Later =
      let c = ctx-SameClock roles cls val s.pkt_s in
      let l = clock-Later in
      record {
        clock = omega (arith, c.clock, l.clock);
        begin = omega (arith, c.begin, l.begin);
        begun = omega (arith, c.clock, c.begin, l.begun);
        event = omega (arith, c.clock, l.event);
        bit_off = c.bit_off ∙ l.bit_off;
      }

  event-Later : Later s (handle_fld_roles event_header roles cls val s).1
  unfolding handle_fld_roles when
  event-Later = elim (Bool-cases (has_role roles role_event_cls_id)) [
    | inl with_id ↦ rw with_id (elim (Bool-cases (has_role roles role_def_clk_tstamp)) [
      | inl stamp ↦ rw stamp (stamped stamp)
      | inr unstamped ↦ rw unstamped kept'
    ])
    | inr no_id ↦ rw no_id (elim (Bool-cases (has_role roles role_def_clk_tstamp)) [
      | inl stamp ↦ rw stamp (stamped stamp)
      | inr unstamped ↦ rw unstamped kept
    ])
  ]
    where
      stamped :
          {id : ℕ}
          → has_role roles role_def_clk_tstamp ≡ true
          → Later s (record s {
            pkt_s = clk_update cls val s.pkt_s;
            ev_s = record { id = id; def_clk_val = (clk_update cls val s.pkt_s).def_clk_val };
          })
      stamped h = record {
        clock = forward h;
        begin = omega arith;
        begun = omega (arith, forward h, o.begun);
        event = omega arith;
        bit_off = refl;
      }

      kept' : Later s (record s { ev_s = record s.ev_s { id = fld_uint64 val } })
      kept' = record {
        clock = omega arith;
        begin = omega arith;
        begun = o.begun;
        event = o.event;
        bit_off = refl;
      }

  handled-Later : (ctx : DecCtx) → Later s (handle_fld_roles ctx roles cls val s).1
  handled-Later pkt_header = header-Later
  handled-Later pkt_ctx = ctx-Later
  handled-Later event_header = event-Later
  handled-Later event_common_ctx = unfold handle_fld_roles in kept
  handled-Later event_specific_ctx = unfold handle_fld_roles in kept
  handled-Later event_payload = unfold handle_fld_roles in kept

-- Over any sequence of fields with roles, of any classes and in any contexts, also where a check of the header fails, the default clock and its value at the begin of the packet never go back, the begin and the event's time stamp are never ahead of the clock, and the packet's bit offset stays, if begin and event were not ahead at first. Each field with the time stamp role must have a value of the 1 to 64 bits that the code takes for its class, and must not make the 64-bit clock turn over: the value is not behind the lowest bits of the clock (for a 64-bit stamp, behind the clock), where the clock is below 2^64, or the clock plus one turn of these bits is at most 2^64.
pub Handled-Later : (s t : RoleState) → IsOrdered s → Handled s t → Later s t
Handled-Later s t o start = record {
  clock = omega arith;
  begin = omega arith;
  begun = o.begun;
  event = o.event;
  bit_off = refl;
}
Handled-Later s _ o (field t ctx roles cls val k h) =
    let before = Handled-Later s t o h in
    let step =
      handled-Later roles cls val t k (record { begun = before.begun; event = before.event }) ctx in
    record {
      clock = omega (arith, before.clock, step.clock);
      begin = omega (arith, before.begin, step.begin);
      begun = step.begun;
      event = step.event;
      bit_off = step.bit_off ∙ before.bit_off;
    }
