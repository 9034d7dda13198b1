-- ===== src/Decoder/Packets/Sticky.antt =====
-- Errors of a decoder: valid events come first, and an error stays.
use mathlib.Core.List.{cons≢nil}
use actf.Common.{◌≡◌, refl, Bool, true, false, List, [], ◌∷◌, if◌then◌else◌, sym, ◌⊎◌, inl, inr}
use mathlib.Core.Path.{subst}
use actf.Types.{Rc, ok, err}
use actf.BReader.{has_bits_remaining}
use actf.Decoder.Field.{DecState}
use actf.Decoder.Packets.Read.{Read, pkt_decode-Read}
use actf.Decoder.Packets.{
  Event, Pkt, StreamDecoder, PktEnd, full, finished, failed, Called, returns, lost, after_pkt,
  pkt_decode, decode_next, decode,
}

-- The decoder fails with the code on every call, and nothing changes.
pub record IsStuck (rc : Rc) (d : StreamDecoder) : Type 0 where
  pub in_error : d.in_error ≡ true
  pub again : decode d ≡ returns (err rc, d)

-- The decoder reads these events of the packet that it stands in or before, with this end, and is then `d'`
-- but for its flags and its error.
pub record Meets (d : StreamDecoder) (evs : List Event) (stop : PktEnd) (d' : StreamDecoder)
    : Type 0 where
  pub live : d.in_error ≡ false
  pub bits : has_bits_remaining d.s.dec.br ≡ true
  pub read : Read d.resume_pkt d.metadata d.evs_cap d.s evs stop d'.s
  pub metadata : d'.metadata ≡ d.metadata
  pub evs_cap : d'.evs_cap ≡ d.evs_cap

-- What the decoder does next, after a call that gave the events.
abbrev pub GoesOn : List Event → PktEnd → StreamDecoder → Type 0
GoesOn evs full d = (d.in_error ≡ false) × (d.resume_seek ≡ false) × (d.resume_pkt ≡ true)
GoesOn evs finished d = (d.in_error ≡ false) × (d.resume_seek ≡ false) × (d.resume_pkt ≡ false)
GoesOn evs PktEnd.lost d = ⊥
GoesOn evs (failed rc) d = ¬ (evs ≡ []) × IsStuck rc d

-- A call with an error leaves a decoder that fails with it: it did so before, or nothing could be read
-- before the error. A call without one is at the end of the stream, or gives all events that are read.
abbrev pub Reports : StreamDecoder → Called → Type 0
Reports d (returns (err rc, d')) =
    IsStuck rc d' × ((d' ≡ d) × (d.in_error ≡ true) × (rc ≡ d.err_rc) ⊎ Meets d [] (failed rc) d')
Reports d (returns (ok evs, d')) =
    (d.in_error ≡ false) × (has_bits_remaining d.s.dec.br ≡ false) × (evs ≡ []) × (d' ≡ d)
    ⊎ (stop : PktEnd) × Meets d evs stop d' × GoesOn evs stop d'
Reports d lost = (evs : List Event) × (d' : StreamDecoder) × Meets d evs PktEnd.lost d'

failed-IsStuck :
    (d : StreamDecoder) → d.resume_seek ≡ false → d.in_error ≡ true → IsStuck d.err_rc d
unfolding decode
failed-IsStuck d r e = record { in_error = e; again = rw (r, e) refl }

abbrev after : StreamDecoder → DecState → StreamDecoder
after d s = record d { s = s; resume_pkt = false }

after_pkt-Reports :
    (d : StreamDecoder) (s : DecState) (evs : List Event) (stop : PktEnd)
    → d.resume_seek ≡ false
    → d.in_error ≡ false
    → has_bits_remaining d.s.dec.br ≡ true
    → Read d.resume_pkt d.metadata d.evs_cap d.s evs stop s
    → Reports d (after_pkt (after d s) evs stop)
after_pkt-Reports d s evs finished r e b read = inr (
  finished,
  record { live = e; bits = b; read = read; metadata = refl; evs_cap = refl },
  (e, r, refl),
)
after_pkt-Reports d s evs full r e b read = inr (
  full,
  record { live = e; bits = b; read = read; metadata = refl; evs_cap = refl },
  (e, r, refl),
)
after_pkt-Reports d s evs PktEnd.lost r e b read =
    (evs, after d s, record { live = e; bits = b; read = read; metadata = refl; evs_cap = refl })
after_pkt-Reports d s [] (failed rc) r e b read = (
  failed-IsStuck (record (after d s) { in_error = true; err_rc = rc }) r refl,
  inr (record { live = e; bits = b; read = read; metadata = refl; evs_cap = refl }),
)
after_pkt-Reports d s (ev ∷ evs) (failed rc) r e b read = inr (
  failed rc,
  record { live = e; bits = b; read = read; metadata = refl; evs_cap = refl },
  (cons≢nil, failed-IsStuck (record (after d s) { in_error = true; err_rc = rc }) r refl),
)

-- The call outside a seek, by the two tests it makes.
tested-Reports :
    (d : StreamDecoder) (in_error more : Bool)
    → d.resume_seek ≡ false
    → d.in_error ≡ in_error
    → has_bits_remaining d.s.dec.br ≡ more
    → (p : Pkt) → Read d.resume_pkt d.metadata d.evs_cap d.s p.evs p.stop p.s
    → Reports d (
        if in_error
        then returns (err d.err_rc, d)
        else if more
        then after_pkt (after d p.s) p.evs p.stop
        else returns (ok [], d))
tested-Reports d true more r e b p read = (failed-IsStuck d r e, inl (refl, e, refl))
tested-Reports d false true r e b p read = after_pkt-Reports d p.s p.evs p.stop r e b read
tested-Reports d false false r e b p read = inl (e, b, refl, refl)

-- Every call outside a seek ends in one of these ways. At the end of the stream, if no error has been met, it gives no events and changes nothing. A decoder that has failed fails with its error and changes nothing. Otherwise it reads the packet that the decoder stands in or before: it gives exactly the events that decode one after the other, all of them, until the packet is finished, the buffer is full, or an error is met, and the reader is where this leaves it. After a finished packet the decoder begins a new one, after a full buffer it goes on with the same one. Where an error is met behind at least one event, the call gives these events, and every later call fails with that error; where none is before it, this call and every later one fail with it. The only call that returns nothing is one whose reading is itself lost: in a string behind the stream, in a circle of locations, or in a packet whose class is not found again.
pub decode-Reports : (d : StreamDecoder) → d.resume_seek ≡ false → Reports d (decode d)
unfolding decode decode_next
decode-Reports d r =
    let p = pkt_decode d.resume_pkt d.metadata d.evs_cap d.s in
    let rest =
      tested-Reports d d.in_error (has_bits_remaining d.s.dec.br) r refl refl p
        (pkt_decode-Read d.resume_pkt d.metadata d.evs_cap d.s) in
    subst
      (λ b.
        Reports d
          (if b then returns (ok d.seek_evs, record d { resume_seek = false }) else outside p))
      (sym r) rest
  where
    outside : Pkt → Called
    outside p =
        if d.in_error
        then returns (err d.err_rc, d)
        else if has_bits_remaining d.s.dec.br
        then after_pkt (after d p.s) p.evs p.stop
        else returns (ok [], d)
