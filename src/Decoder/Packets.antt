-- ===== src/Decoder/Packets.antt =====
-- decoder.c: packets, events, and the calls of a decoder.
pub mod Lens
pub mod Read
pub mod Sticky
mod Tests
use actf.Common.{
  ℕ, zero, suc, ◌+◌, ◌-◌, ◌≡◌, Bool, true, false, not, ltb, ◌==◌, ◌&&◌, bit_or, bit_and, List, [],
  ◌∷◌, Option, none, some, if◌then◌else◌,
}
use actf.Common.Lists.{length}
use actf.Common.Bits.{u64_mod, sub64, add64}
use actf.Types.{Rc, Result, ok, err, no_such_id, invalid_content_len}
use actf.BReader.{BReader, has_bits_remaining, consume_checked}
use actf.Decoder.{Decoder, PktState, pkt_state_init, pkt_bits_remaining}
use actf.Decoder.Clock.{DecCtx, EventState, event_state_init}
use actf.Decoder.FldCls.{FldCls, nil_cls}
use actf.Decoder.Field.{
  DecState, EventProps, Done, ended, overrun, endless, then_done, done, failing, allocn,
}
use actf.Decoder.Field.Decode.{fld_cls_decode}

pub record EventCls : Type 0 where
  pub spec_ctx : FldCls
  pub payload : FldCls

-- The maps from an id to a class are association lists.
pub record DstreamCls : Type 0 where
  pub pkt_ctx : FldCls
  pub event_hdr : FldCls
  pub event_common_ctx : FldCls
  pub idtoevc : List (ℕ × EventCls)

pub record Metadata : Type 0 where
  pub pkt_hdr : FldCls
  pub idtodsc : List (ℕ × DstreamCls)

abbrev pub find : {A : Type 0} → ℕ → List (ℕ × A) → Option A
find id [] = none
find id ((k, x) ∷ rest) = if k == id then some x else find id rest

-- An event: where its properties stand, and its state.
pub record Event : Type 0 where
  pub props : EventProps
  pub ev_s : EventState

-- PKT_DSTREAM_CLS
abbrev pub pkt_dstream_cls : ℕ
pkt_dstream_cls = 2

abbrev pub with_pkt_s : PktState → DecState → DecState
with_pkt_s p s = record s { dec = record s.dec { pkt_s = p } }

-- A new packet with its two properties. The arenas are not given back: fields of earlier packets and
-- events stay in the store, and nothing refers to them.
unfoldable pub dec_state_init : ℕ → DecState → DecState
unfolding pkt_state_init allocn
dec_state_init pkt_bit_off s =
    let p = pkt_state_init s.dec.pkt_s in
    record (allocn 2 (with_pkt_s (record p { bit_off = pkt_bit_off }) s)) {
      pkt_header = s.top;
      pkt_ctx = s.top + 1;
      ev = none;
    }

-- A property, unless it has no class.
unfoldable pub decode_prop : DecCtx → FldCls → ℕ → DecState → Done
unfolding fld_cls_decode
decode_prop ctx nil_cls a s = done s
decode_prop ctx cls a s = fld_cls_decode cls a (record s { ctx = ctx })

abbrev pub or_no_such_id : {A : Type 0} → Option A → DecState → (A → Done) → Done
or_no_such_id none s next = failing no_such_id s
or_no_such_id (some x) s next = next x

abbrev pub props_at : ℕ → EventProps
props_at a = record { header = a; common_ctx = a + 1; specific_ctx = a + 2; payload = a + 3 }

-- actf_event_init
abbrev pub event_init : DecState → DecState
event_init s = record (allocn 4 s) { ev = some (props_at s.top); ev_s = event_state_init }

unfoldable pub ev_decode : DstreamCls → DecState → Done
unfolding decode_prop allocn
ev_decode dsc s =
    let props = props_at s.top in
    then_done (decode_prop DecCtx.event_header dsc.event_hdr props.header (event_init s)) (λ s.
      or_no_such_id (find s.ev_s.id dsc.idtoevc) s (λ evc.
        then_done (decode_prop DecCtx.event_common_ctx dsc.event_common_ctx props.common_ctx s)
          (λ s.
            then_done (decode_prop DecCtx.event_specific_ctx evc.spec_ctx props.specific_ctx s)
              (λ s. decode_prop DecCtx.event_payload evc.payload props.payload s))))

abbrev pub no_len : ℕ
no_len = u64_mod - 1

-- A length that is not given is the other one.
abbrev pub fill_lens : PktState → PktState
fill_lens p =
    let p =
      if p.tot_len == no_len && not (p.content_len == no_len)
      then record p { tot_len = p.content_len }
      else p in
    if p.content_len == no_len && not (p.tot_len == no_len)
    then record p { content_len = p.tot_len }
    else p

unfoldable pub check_lens : DecState → Done
check_lens s =
    let p = fill_lens s.dec.pkt_s in
    if ltb p.tot_len p.content_len
    then failing invalid_content_len (with_pkt_s p s)
    else done (with_pkt_s p s)

-- The context of the packet, and the lengths that it may give.
unfoldable pub decode_pkt_ctx : FldCls → DecState → Done
unfolding fld_cls_decode check_lens
decode_pkt_ctx nil_cls s = done s
decode_pkt_ctx cls s =
    then_done (fld_cls_decode cls s.pkt_ctx (record s { ctx = DecCtx.pkt_ctx })) check_lens

abbrev pub set_dstream_cls : PktState → PktState
set_dstream_cls p = record p { opt_flags = bit_or p.opt_flags pkt_dstream_cls }

unfoldable pub pkt_hdrctx_decode : Metadata → DecState → Done
unfolding dec_state_init decode_prop decode_pkt_ctx
pkt_hdrctx_decode metadata s =
    let s = dec_state_init s.dec.br.tot_bit_cnt s in
    then_done (decode_prop DecCtx.pkt_header metadata.pkt_hdr s.pkt_header s) (λ s.
      or_no_such_id (find s.dec.pkt_s.dsc_id metadata.idtodsc) s
        (λ dsc. decode_pkt_ctx dsc.pkt_ctx (with_pkt_s (set_dstream_cls s.dec.pkt_s) s)))

-- Why the loop over the events of a packet stops. `lost` stands for a call that reads a string behind
-- the stream, or follows a location in a circle.
pub data PktEnd : Type 0 where
  full finished lost : PktEnd
  failed : Rc → PktEnd

pub record Pkt : Type 0 where
  pub evs : List Event
  pub stop : PktEnd
  pub s : DecState

-- The event that is decoded from `t` and ends at `s`.
abbrev pub event_of : DecState → DecState → Event
event_of t s = record { props = props_at t.top; ev_s = s.ev_s }

-- What the decoding of an event means for the loop.
abbrev pub after_event : DecState → Done → (DecState → Pkt) → Pkt
after_event t (ended (ok u, s)) next = let p = next s in record p { evs = event_of t s ∷ p.evs }
after_event t (ended (err rc, s)) next = record { evs = []; stop = failed rc; s = s }
after_event t overrun next = record { evs = []; stop = lost; s = t }
after_event t endless next = record { evs = []; stop = lost; s = t }

abbrev pub has_more : DecState → Bool
has_more s = has_bits_remaining s.dec.br && not (pkt_bits_remaining s.dec.pkt_s s.dec.br == 0)

-- The loop over the events, with room for `n` of them in the buffer.
unfoldable pub pkt_loop : ℕ → DstreamCls → DecState → Pkt
unfolding ev_decode has_bits_remaining pkt_bits_remaining
pkt_loop zero dsc s = record { evs = []; stop = if has_more s then full else finished; s = s }
pkt_loop (suc n) dsc s =
    let p = after_event s (ev_decode dsc s) (λ s. pkt_loop n dsc s) in
    if has_more s then p else record { evs = []; stop = finished; s = s }

-- The way from the content to the end of the packet.
unfoldable pub skip_padding : DecState → DecState
unfolding consume_checked
skip_padding s =
    let p = s.dec.pkt_s in
    let skip_cnt = sub64 (add64 p.bit_off p.tot_len) s.dec.br.tot_bit_cnt in
    if not (p.tot_len == no_len) && not (p.content_len == no_len)
    then record s { dec = record s.dec { br = consume_checked s.dec.br skip_cnt } }
    else s

-- The states that can hold at the same time, the buffer behind a seek, and the rest.
pub record StreamDecoder : Type 0 where
  pub s : DecState
  pub metadata : Metadata
  pub resume_pkt : Bool
  pub resume_seek : Bool
  pub in_error : Bool
  pub err_rc : Rc
  pub seek_evs : List Event
  pub evs_cap : ℕ

-- The events of the packet with the given state. The class that has been found before is found by the
-- same id, which only the packet's header sets.
unfoldable pub pkt_events : Metadata → ℕ → DecState → Pkt
unfolding pkt_loop
pkt_events metadata evs_cap s = by_cls (find s.dec.pkt_s.dsc_id metadata.idtodsc)
  where
    by_cls : Option DstreamCls → Pkt
    by_cls none = record { evs = []; stop = lost; s = s }
    by_cls (some dsc) = pkt_loop evs_cap dsc s

abbrev pub skipped : Pkt → Pkt
skipped p = at_end p.stop
  where
    at_end : PktEnd → Pkt
    at_end finished = record p { s = skip_padding p.s }
    at_end stop = p

abbrev pub begun : DecState → Done → (DecState → Pkt) → Pkt
begun t (ended (ok u, s)) next = next s
begun t (ended (err rc, s)) next = record { evs = []; stop = failed rc; s = s }
begun t overrun next = record { evs = []; stop = lost; s = t }
begun t endless next = record { evs = []; stop = lost; s = t }

unfoldable pub pkt_decode : Bool → Metadata → ℕ → DecState → Pkt
unfolding pkt_hdrctx_decode pkt_events skip_padding
pkt_decode resume metadata evs_cap s =
    let anew =
      begun s (pkt_hdrctx_decode metadata s) (λ s. skipped (pkt_events metadata evs_cap s)) in
    if resume then skipped (pkt_events metadata evs_cap s) else anew

-- The end of a call: what it returns, and the decoder after it.
pub data Called : Type 0 where
  returns : Result (List Event) × StreamDecoder → Called
  lost : Called

-- What the packet means for the decoder. RESUME_PKT has been taken back.
abbrev pub after_pkt : StreamDecoder → List Event → PktEnd → Called
after_pkt d evs finished = returns (ok evs, d)
after_pkt d evs full = returns (ok evs, record d { resume_pkt = true })
after_pkt d evs PktEnd.lost = lost
after_pkt d [] (failed rc) = returns (err rc, record d { in_error = true; err_rc = rc })
after_pkt d (ev ∷ evs) (failed rc) =
    returns (ok (ev ∷ evs), record d { in_error = true; err_rc = rc })

unfoldable pub decode_next : StreamDecoder → Called
unfolding pkt_decode has_bits_remaining
decode_next d =
    let p = pkt_decode d.resume_pkt d.metadata d.evs_cap d.s in
    if has_bits_remaining d.s.dec.br
    then after_pkt (record d { s = p.s; resume_pkt = false }) p.evs p.stop
    else returns (ok [], d)

-- actf_decoder_decode
unfoldable pub decode : StreamDecoder → Called
unfolding decode_next
decode d =
    if d.resume_seek
    then returns (ok d.seek_evs, record d { resume_seek = false })
    else if d.in_error
    then returns (err d.err_rc, d)
    else decode_next d
