-- ===== src/Decoder/Packets/Tests.antt =====
-- A decoder over short streams of two packets, and the theorems at this input.
use actf.Common.{
  ℕ, ◌≡◌, ◌==◌, refl, ap, ◌∙◌, if◌then◌else◌, Bool, true, false, List, [], ◌∷◌, Option, none, some,
  map,
}
use actf.Types.{Rc, Result, ok, err}
use actf.BReader.{lil_endian, init}
use actf.Decoder.{PktState, FxdLenBitArrFldCls, first_to_last}
use actf.Decoder.Clock.{DecCtx, event_state_init, when}
use actf.Decoder.FldCls.{FldCls, no_more, member, nil_cls, uint_cls, struct_cls}
use actf.Decoder.Field.{zeroed, Done, ended}
use actf.Decoder.Packets.{
  DstreamCls, Metadata, StreamDecoder, Called, returns, lost, decode, pkt_hdrctx_decode,
}
use actf.Decoder.Packets.Lens.{Sized, HasPktCtxs, pkt_hdrctx_decode-Sized}
use actf.Decoder.Packets.Sticky.{Reports, decode-Reports}

abbrev byte : FxdLenBitArrFldCls
byte = record { len = 8; bo = lil_endian; bito = first_to_last; align = 8 }

-- A structure of one byte with roles.
abbrev one : ℕ → FldCls
one roles = struct_cls 8 (member (1 ∷ []) (uint_cls byte roles) no_more)

-- The context of a packet is the length of its content in bits, an event is its id.
abbrev only_cls : DstreamCls
only_cls = record {
  pkt_ctx = one 64;
  event_hdr = one 1024;
  event_common_ctx = nil_cls;
  idtoevc = (7, record { spec_ctx = nil_cls; payload = nil_cls }) ∷ [];
}

abbrev metadata : Metadata
metadata = record { pkt_hdr = nil_cls; idtodsc = (0, only_cls) ∷ [] }

abbrev pkt : PktState
pkt = record {
  bit_off = 0;
  def_clk_val = 0;
  begin_def_clk_val = 0;
  disc_er_snap = 0;
  dsc_id = 0;
  ds_id = 0;
  last_bo = lil_endian;
  content_len = 0;
  end_def_clk_val = 0;
  seq_num = 0;
  tot_len = 0;
  opt_flags = 0;
}

abbrev over : List ℕ → StreamDecoder
over bytes = record {
  s = record {
    dec = record { br = init bytes lil_endian; pkt_s = pkt };
    store = λ a. zeroed;
    top = 0;
    ctx = DecCtx.event_payload;
    pkt_header = 0;
    pkt_ctx = 0;
    ev = none;
    ev_s = event_state_init;
    uuid = [];
  };
  metadata = metadata;
  resume_pkt = false;
  resume_seek = false;
  in_error = false;
  err_rc = Rc.error;
  seek_evs = [];
  evs_cap = 4;
}

-- The ids of the events of a call, or its error.
abbrev ids : Called → Option (Result (List ℕ))
ids (returns (ok evs, d)) = some (ok (map (λ ev. ev.ev_s.id) evs))
ids (returns (err rc, d)) = some (err rc)
ids lost = none

abbrev second : Called → Called
second (returns (r, d)) = decode d
second lost = lost

-- Two packets, of two events and of one.
abbrev two_packets : StreamDecoder
two_packets = over (24 ∷ 7 ∷ 7 ∷ 16 ∷ 7 ∷ [])

first_packet : ids (decode two_packets) ≡ some (ok (7 ∷ 7 ∷ []))
unfolding decode init when
first_packet = refl

second_packet : ids (second (decode two_packets)) ≡ some (ok (7 ∷ []))
unfolding decode init when
second_packet = refl

-- The second event has no class: the first one is returned, and then the error.
abbrev unknown_event : StreamDecoder
unknown_event = over (24 ∷ 7 ∷ 9 ∷ [])

valid_event : ids (decode unknown_event) ≡ some (ok (7 ∷ []))
unfolding decode init when
valid_event = refl

then_error : ids (second (decode unknown_event)) ≡ some (err Rc.no_such_id)
unfolding decode init when
then_error = refl

-- A packet without events ahead of one with an event: the first call gives no event.
abbrev empty_packet : StreamDecoder
empty_packet = over (8 ∷ 16 ∷ 7 ∷ [])

no_event : ids (decode empty_packet) ≡ some (ok [])
unfolding decode init when
no_event = refl

event_behind : ids (second (decode empty_packet)) ≡ some (ok (7 ∷ []))
unfolding decode init when
event_behind = refl

decode-Reports_example : Reports unknown_event (decode unknown_event)
decode-Reports_example = decode-Reports unknown_event refl

-- The context gives the length of the content; the total length is the same.
abbrev lens : Done → Option (ℕ × ℕ)
lens (ended (ok u, s)) = some (s.dec.pkt_s.content_len, s.dec.pkt_s.tot_len)
lens t = none

same_lens : lens (pkt_hdrctx_decode metadata two_packets.s) ≡ some (24, 24)
unfolding pkt_hdrctx_decode init when
same_lens = refl

struct≢nil : (roles : ℕ) → ¬ (one roles ≡ nil_cls)
struct≢nil roles h = absurd cc

abbrev ctx_of : Option DstreamCls → FldCls
ctx_of none = one 64
ctx_of (some dsc) = dsc.pkt_ctx

only-HasPktCtx :
    (b : Bool) (dsc : DstreamCls)
    → (if b then some only_cls else none) ≡ some dsc
    → ¬ (dsc.pkt_ctx ≡ nil_cls)
only-HasPktCtx true dsc h n = struct≢nil 64 (ap ctx_of h ∙ n)
only-HasPktCtx false dsc h n = struct≢nil 64 (ap ctx_of h ∙ n)

metadata-HasPktCtxs : HasPktCtxs metadata
metadata-HasPktCtxs id = only-HasPktCtx (0 == id)

pkt_hdrctx_decode-Sized_example : Sized (pkt_hdrctx_decode metadata two_packets.s)
pkt_hdrctx_decode-Sized_example = pkt_hdrctx_decode-Sized metadata two_packets.s metadata-HasPktCtxs
