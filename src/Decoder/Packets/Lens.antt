-- ===== src/Decoder/Packets/Lens.antt =====
-- The lengths of a packet, once its header and context have been read.
use actf.Common.{
  ℕ, ◌≤◌, ◌≡◌, refl, Bool, true, false, ltb, Option, none, some, if◌then◌else◌, arith,
}
use actf.Types.{ok, err, invalid_content_len}
use actf.Decoder.{PktState}
use actf.Decoder.FldCls.{FldCls, nil_cls}
use actf.Decoder.Field.{DecState, Done, ended, overrun, endless, then_done, done, failing}
use actf.Decoder.Clock.{DecCtx}
use actf.Decoder.Field.Decode.{fld_cls_decode}
use actf.Decoder.Packets.{
  DstreamCls, Metadata, no_len, find, fill_lens, check_lens, decode_pkt_ctx, or_no_such_id,
  pkt_hdrctx_decode, with_pkt_s, set_dstream_cls, dec_state_init, decode_prop,
}

-- The content is within the packet, and either both lengths are known or none is.
pub record AreLens (p : PktState) : Type 0 where
  pub within : p.content_len ≤ p.tot_len
  pub known : p.content_len ≡ no_len → p.tot_len ≡ no_len
  pub known_tot : p.tot_len ≡ no_len → p.content_len ≡ no_len

-- A call that succeeds leaves such lengths.
abbrev pub Sized : Done → Type 0
Sized (ended (ok u, s)) = AreLens s.dec.pkt_s
Sized (ended (err rc, s)) = Unit {0}
Sized overrun = Unit {0}
Sized endless = Unit {0}

fill_lens-known :
    (p : PktState) → (fill_lens p).content_len ≡ no_len → (fill_lens p).tot_len ≡ no_len
fill_lens-known p h = ground arith

fill_lens-known_tot :
    (p : PktState) → (fill_lens p).tot_len ≡ no_len → (fill_lens p).content_len ≡ no_len
fill_lens-known_tot p h = ground arith

not_ltb : (a b : ℕ) → ltb a b ≡ false → b ≤ a
not_ltb a b e = ground arith

-- The end of check_lens, by its test.
tested-Sized :
    (p : PktState) (s : DecState) (larger : Bool)
    → ltb p.tot_len p.content_len ≡ larger
    → (p.content_len ≡ no_len → p.tot_len ≡ no_len)
    → (p.tot_len ≡ no_len → p.content_len ≡ no_len)
    → Sized (if larger then failing invalid_content_len (with_pkt_s p s) else done (with_pkt_s p s))
tested-Sized p s true e known known_tot = tt
tested-Sized p s false e known known_tot = record {
  within = not_ltb p.tot_len p.content_len e;
  known = known;
  known_tot = known_tot;
}

check_lens-Sized : (s : DecState) → Sized (check_lens s)
unfolding check_lens
check_lens-Sized s =
    let p = fill_lens s.dec.pkt_s in
    tested-Sized p s (ltb p.tot_len p.content_len) refl (fill_lens-known s.dec.pkt_s)
      (fill_lens-known_tot s.dec.pkt_s)

then_done-Sized : (t : Done) → Sized (then_done t check_lens)
then_done-Sized (ended (ok u, s)) = check_lens-Sized s
then_done-Sized (ended (err rc, s)) = tt
then_done-Sized overrun = tt
then_done-Sized endless = tt

decode_pkt_ctx-Sized :
    (cls : FldCls) (s : DecState) → ¬ (cls ≡ nil_cls) → Sized (decode_pkt_ctx cls s)
unfolding decode_pkt_ctx
decode_pkt_ctx-Sized nil_cls s ne = absurd (ne refl)
decode_pkt_ctx-Sized cls s ne =
    then_done-Sized (fld_cls_decode cls s.pkt_ctx (record s { ctx = DecCtx.pkt_ctx }))

-- The classes of a stream say what the context of a packet is.
abbrev pub HasPktCtxs : Metadata → Type 0
HasPktCtxs metadata =
    (id : ℕ) (dsc : DstreamCls) → find id metadata.idtodsc ≡ some dsc → ¬ (dsc.pkt_ctx ≡ nil_cls)

with_cls-Sized :
    (found : Option DstreamCls) (s : DecState)
    → ((dsc : DstreamCls) → found ≡ some dsc → ¬ (dsc.pkt_ctx ≡ nil_cls))
    → Sized (
        or_no_such_id found s
          (λ dsc. decode_pkt_ctx dsc.pkt_ctx (with_pkt_s (set_dstream_cls s.dec.pkt_s) s)))
with_cls-Sized none s ne = tt
with_cls-Sized (some dsc) s ne =
    decode_pkt_ctx-Sized dsc.pkt_ctx (with_pkt_s (set_dstream_cls s.dec.pkt_s) s) (ne dsc refl)

hdr-Sized :
    (metadata : Metadata) (t : Done)
    → HasPktCtxs metadata
    → Sized (
        then_done t (λ s.
          or_no_such_id
            (find s.dec.pkt_s.dsc_id metadata.idtodsc)
            s
            (λ dsc. decode_pkt_ctx dsc.pkt_ctx (with_pkt_s (set_dstream_cls s.dec.pkt_s) s))))
hdr-Sized metadata (ended (ok u, s)) has =
    with_cls-Sized (find s.dec.pkt_s.dsc_id metadata.idtodsc) s (has s.dec.pkt_s.dsc_id)
hdr-Sized metadata (ended (err rc, s)) has = tt
hdr-Sized metadata overrun has = tt
hdr-Sized metadata endless has = tt

-- Where every class of the stream has a packet context, the beginning of a packet that is read
-- without an error leaves a content length that is at most the total length; where one of the lengths is
-- unknown, so is the other.
pub pkt_hdrctx_decode-Sized :
    (metadata : Metadata) (s : DecState)
    → HasPktCtxs metadata
    → Sized (pkt_hdrctx_decode metadata s)
unfolding pkt_hdrctx_decode
pkt_hdrctx_decode-Sized metadata s has =
    let t = dec_state_init s.dec.br.tot_bit_cnt s in
    hdr-Sized metadata (decode_prop DecCtx.pkt_header metadata.pkt_hdr t.pkt_header t) has
