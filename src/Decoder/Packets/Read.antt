-- ===== src/Decoder/Packets/Read.antt =====
-- What reading a packet means: a relation between the state before, the events, the end, and the state
-- after, without the buffers and the flags of a call.
use actf.Common.{
  ℕ, zero, suc, ◌≡◌, refl, Bool, Bool-cases, true, false, inl, inr, ◌⊎◌, List, [], ◌∷◌, Option,
  none, some,
}
use actf.Types.{Rc, ok, err}
use actf.Decoder.Field.{DecState, Done, ended, overrun, endless, done}
use actf.Decoder.Packets.{
  DstreamCls, Metadata, Event, PktEnd, full, finished, failed, Pkt, find, ev_decode, event_of,
  after_event, has_more, pkt_loop, skip_padding, pkt_hdrctx_decode, pkt_events, skipped, begun,
  pkt_decode,
}

-- The call does not end in a defined state.
abbrev pub IsLost : Done → Type 0
IsLost t = (t ≡ overrun) ⊎ (t ≡ endless)

-- The events of a packet, with room for `n`: one after the other for as long as there are bits in the
-- packet, until one fails.
pub data Events (dsc : DstreamCls) : ℕ → DecState → List Event → PktEnd → DecState → Type 0 where
  no_more : {n : ℕ} {s : DecState} → has_more s ≡ false → Events dsc n s [] finished s
  no_room : {s : DecState} → has_more s ≡ true → Events dsc zero s [] full s
  bad :
      {n : ℕ} {s t : DecState} {rc : Rc}
      → has_more s ≡ true
      → ev_decode dsc s ≡ ended (err rc, t)
      → Events dsc (suc n) s [] (failed rc) t
  gone :
      {n : ℕ} {s : DecState}
      → has_more s ≡ true
      → IsLost (ev_decode dsc s)
      → Events dsc (suc n) s [] PktEnd.lost s
  good :
      {n : ℕ} {s t u : DecState} {evs : List Event} {stop : PktEnd}
      → has_more s ≡ true
      → ev_decode dsc s ≡ ended (ok tt, t)
      → Events dsc n t evs stop u
      → Events dsc (suc n) s (event_of s t ∷ evs) stop u

-- A packet that is gone on with has been begun before.
abbrev pub beginning : Bool → Metadata → DecState → Done
beginning true metadata s = done s
beginning false metadata s = pkt_hdrctx_decode metadata s

-- Behind the last event the padding is skipped.
abbrev pub passed : PktEnd → DecState → DecState
passed finished s = skip_padding s
passed stop s = s

-- A packet, or the rest of one, with room for `n` events.
pub data Read (resume : Bool) (metadata : Metadata) (n : ℕ) (s : DecState)
    : List Event → PktEnd → DecState → Type 0 where
  begin_failed :
      {rc : Rc} {t : DecState}
      → beginning resume metadata s ≡ ended (err rc, t)
      → Read resume metadata n s [] (failed rc) t
  begin_lost : IsLost (beginning resume metadata s) → Read resume metadata n s [] PktEnd.lost s
  no_cls :
      {t : DecState}
      → beginning resume metadata s ≡ ended (ok tt, t)
      → find t.dec.pkt_s.dsc_id metadata.idtodsc ≡ none
      → Read resume metadata n s [] PktEnd.lost t
  events :
      {t u : DecState} {dsc : DstreamCls} {evs : List Event} {stop : PktEnd}
      → beginning resume metadata s ≡ ended (ok tt, t)
      → find t.dec.pkt_s.dsc_id metadata.idtodsc ≡ some dsc
      → Events dsc n t evs stop u
      → Read resume metadata n s evs stop (passed stop u)

after_event-Events :
    (n : ℕ) (dsc : DstreamCls) (s : DecState) (t : Done) (next : DecState → Pkt)
    → ((s : DecState) → Events dsc n s (next s).evs (next s).stop (next s).s)
    → has_more s ≡ true
    → ev_decode dsc s ≡ t
    → let p = after_event s t next in Events dsc (suc n) s p.evs p.stop p.s
after_event-Events n dsc s (ended (ok u, t)) next all more e = good more e (all t)
after_event-Events n dsc s (ended (err rc, t)) next all more e = bad more e
after_event-Events n dsc s overrun next all more e = gone more (inl e)
after_event-Events n dsc s endless next all more e = gone more (inr e)

pkt_loop-Events :
    (n : ℕ) (dsc : DstreamCls) (s : DecState)
    → let p = pkt_loop n dsc s in Events dsc n s p.evs p.stop p.s
unfolding pkt_loop
pkt_loop-Events zero dsc s = elim (Bool-cases (has_more s)) [
  | inl more ↦ rw more (no_room more)
  | inr over ↦ rw over (no_more over)
]
pkt_loop-Events (suc n) dsc s = elim (Bool-cases (has_more s)) [
  | inl more ↦ rw more (
      after_event-Events n dsc s (ev_decode dsc s) (λ s. pkt_loop n dsc s) (pkt_loop-Events n dsc)
        more refl)
  | inr over ↦ rw over (no_more over)
]

-- The end of the loop, and the padding behind it.
skipped-Read :
    (resume : Bool) (metadata : Metadata) (n : ℕ) (s t u : DecState) (dsc : DstreamCls)
    (evs : List Event) (stop : PktEnd)
    → beginning resume metadata s ≡ ended (ok tt, t)
    → find t.dec.pkt_s.dsc_id metadata.idtodsc ≡ some dsc
    → Events dsc n t evs stop u
    → let q = skipped (record { evs = evs; stop = stop; s = u }) in
      Read resume metadata n s q.evs q.stop q.s
skipped-Read resume metadata n s t u dsc evs full b f es = events b f es
skipped-Read resume metadata n s t u dsc evs finished b f es = events b f es
skipped-Read resume metadata n s t u dsc evs PktEnd.lost b f es = events b f es
skipped-Read resume metadata n s t u dsc evs (failed rc) b f es = events b f es

by_cls : ℕ → DecState → Option DstreamCls → Pkt
by_cls n t none = record { evs = []; stop = PktEnd.lost; s = t }
by_cls n t (some dsc) = pkt_loop n dsc t

with_cls-Read :
    (resume : Bool) (metadata : Metadata) (n : ℕ) (s t : DecState) (found : Option DstreamCls)
    → beginning resume metadata s ≡ ended (ok tt, t)
    → find t.dec.pkt_s.dsc_id metadata.idtodsc ≡ found
    → let q = skipped (by_cls n t found) in Read resume metadata n s q.evs q.stop q.s
unfolding by_cls
with_cls-Read resume metadata n s t none b f = no_cls b f
with_cls-Read resume metadata n s t (some dsc) b f =
    let p = pkt_loop n dsc t in
    skipped-Read resume metadata n s t p.s dsc p.evs p.stop b f (pkt_loop-Events n dsc t)

pkt_events-Read :
    (resume : Bool) (metadata : Metadata) (n : ℕ) (s t : DecState)
    → beginning resume metadata s ≡ ended (ok tt, t)
    → let q = skipped (pkt_events metadata n t) in Read resume metadata n s q.evs q.stop q.s
unfolding pkt_events by_cls
pkt_events-Read resume metadata n s t b =
    with_cls-Read resume metadata n s t (find t.dec.pkt_s.dsc_id metadata.idtodsc) b refl

begun-Read :
    (metadata : Metadata) (n : ℕ) (s : DecState) (t : Done)
    → beginning false metadata s ≡ t
    → let q = begun s t (λ s. skipped (pkt_events metadata n s)) in
      Read false metadata n s q.evs q.stop q.s
begun-Read metadata n s (ended (ok u, t)) b = pkt_events-Read false metadata n s t b
begun-Read metadata n s (ended (err rc, t)) b = begin_failed b
begun-Read metadata n s overrun b = begin_lost (inl b)
begun-Read metadata n s endless b = begin_lost (inr b)

-- A call of pkt_decode reads the packet.
pub pkt_decode-Read :
    (resume : Bool) (metadata : Metadata) (n : ℕ) (s : DecState)
    → let p = pkt_decode resume metadata n s in Read resume metadata n s p.evs p.stop p.s
unfolding pkt_decode
pkt_decode-Read true metadata n s = pkt_events-Read true metadata n s s refl
pkt_decode-Read false metadata n s = begun-Read metadata n s (pkt_hdrctx_decode metadata s) refl
