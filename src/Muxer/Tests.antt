-- ===== src/Muxer/Tests.antt =====
-- A muxer over two lists of events, and the theorems at this input.
use mathlib.Core.List.{Perm}
use actf.Common.{ℕ, zero, suc, ◌<◌, ◌≡◌, refl, ap, List, [], ◌∷◌, arith}
use actf.Common.Int.{ℤ, pos, negsuc}
use actf.Types.{Rc, Result, ok, err, error}
use actf.EventGenerator.{EventGenerator, from, InOrder, Generated, Gives}
use actf.EventGenerator.Collect.{IsOk, NeverFails, collect}
use actf.Filter.Events.{keep-InOrder}
use actf.PrioQueue.{push_unchecked, pop_unchecked}
use actf.Muxer.{Muxer, failed, init, mux, seek_ns_from_origin, to_generator, push_fresh_evs_to_pq}
use actf.Muxer.Merge.{Merges, flat}
use actf.Muxer.Refines.{IsLiveMuxer, Muxed, mux-Muxed}
use actf.Muxer.Seek.{SoughtAll, seek-SoughtAll, init-IsLiveMuxer}
use actf.Muxer.Whole.{read-merged}
use actf.Muxer.Failed.{EndsFailed, FreshOrFailed, mux-failed}

-- An event is its time stamp and the number of its source.
record Ev : Type 0 where
  stamp : ℤ
  source : ℕ

abbrev tstamp : Ev → ℤ
tstamp ev = ev.stamp

abbrev at : ℤ → ℕ → Ev
at t i = record { stamp = t; source = i }

abbrev events : ℕ → List Ev
events zero = at (negsuc 4) 0 ∷ at (pos 3) 0 ∷ at (pos 8) 0 ∷ []
events (suc i) = at (pos 3) 1 ∷ at (pos 20) 1 ∷ []

-- All events of a source, and those that are left.
record Source : Type 0 where
  every : List Ev
  coming : List Ev

abbrev whole : ℕ → Source
whole i = record { every = events i; coming = events i }

-- Events one at a time.
abbrev next_piece : Source → List Ev → Result (List Ev) × Source
next_piece s [] = (ok [], s)
next_piece s (ev ∷ evs) = (ok (ev ∷ []), record s { coming = evs })

abbrev sources : EventGenerator Ev Source
sources = record {
  generate = λ s. next_piece s s.coming;
  seek_ns_from_origin = λ s t. (ok tt, record s { coming = from tstamp t s.every });
}

events-InOrder : (i : ℕ) → InOrder tstamp (events i)
unfolding InOrder
events-InOrder zero = ground arith
events-InOrder (suc i) = ground arith

abbrev IsSource : ℕ → Source → Type 0
IsSource i s = (s.every ≡ events i) × InOrder tstamp s.coming

abbrev coming : ℕ → Source → List Ev
coming i s = s.coming

piece-Generated :
    (i : ℕ) (s : Source) (evs : List Ev)
    → s.coming ≡ evs
    → s.every ≡ events i
    → InOrder tstamp evs
    → Generated tstamp (IsSource i) (coming i) evs (next_piece s evs)
unfolding InOrder
piece-Generated i s [] c e o = ((e, rw c tt), (refl, c))
piece-Generated i s (ev ∷ evs) c e (m, a, o) = ((e, o), refl)

gives : (i : ℕ) → Gives tstamp sources (events i) (IsSource i) (coming i)
gives i = record {
  generates = λ s o. piece-Generated i s s.coming refl o.0 o.1;
  seeks = λ s t o.
      let goal : from tstamp t s.every ≡ from tstamp t (events i) = ap (from tstamp t) o.0 in
      ((o.0, rw goal (keep-InOrder tstamp _ (events i) (events-InOrder i))), goal);
  in_order = λ s o. o.1;
}

piece-IsOk : (s : Source) (evs : List Ev) → IsOk (next_piece s evs).0
piece-IsOk s [] = tt
piece-IsOk s (ev ∷ evs) = tt

safe : (i : ℕ) → NeverFails sources (IsSource i)
safe i = record { generate_ok = λ s o. piece-IsOk s s.coming; seek_ok = λ s t o. tt }

live : (i : ℕ) → i < 2 → IsSource i (whole i)
live i l = (refl, events-InOrder i)

abbrev new : Muxer Ev Source
new = init whole 2 4

new-IsLiveMuxer : IsLiveMuxer tstamp sources IsSource coming 2 new
new-IsLiveMuxer = init-IsLiveMuxer tstamp sources IsSource coming 2 events gives whole 4 live

-- Five events of both sources, in order.
five_events :
    collect (to_generator tstamp sources) 6 new
    ≡ at (negsuc 4) 0 ∷ at (pos 3) 1 ∷ at (pos 3) 0 ∷ at (pos 8) 0 ∷ at (pos 20) 1 ∷ []
unfolding collect to_generator init push_unchecked pop_unchecked push_fresh_evs_to_pq
five_events = refl

mux-Muxed_example : Muxed tstamp sources IsSource coming 2 new (mux tstamp sources new)
mux-Muxed_example = mux-Muxed tstamp sources IsSource coming 2 events gives new new-IsLiveMuxer

seek-SoughtAll_example :
    SoughtAll tstamp sources IsSource coming 2 events gives
      (pos 5)
      (seek_ns_from_origin tstamp sources new (pos 5))
seek-SoughtAll_example =
    seek-SoughtAll tstamp sources IsSource coming 2 events gives new (pos 5) new-IsLiveMuxer

read-merged_example :
    Merges tstamp 2 events (collect (to_generator tstamp sources) 6 new) (λ i. [])
    × InOrder tstamp (collect (to_generator tstamp sources) 6 new)
    × Perm (flat events 2) (collect (to_generator tstamp sources) 6 new)
read-merged_example =
    read-merged tstamp sources IsSource coming 2 events gives safe whole 4 6 live
      (unfold flat in omega arith)

-- A source that is broken.
abbrev broken : EventGenerator Ev Source
broken = record {
  generate = λ s. (err Rc.not_enough_bits, s);
  seek_ns_from_origin = λ s t. (ok tt, s);
}

broken_state : (mux tstamp broken new).1.state ≡ failed
unfolding mux init push_fresh_evs_to_pq
broken_state = refl

mux-failed_example :
    EndsFailed tstamp broken (mux tstamp broken new)
    × (new.state ≡ failed → mux tstamp broken new ≡ (err error, new))
    × FreshOrFailed tstamp broken (seek_ns_from_origin tstamp broken new (pos 5))
mux-failed_example = mux-failed tstamp broken new (pos 5)
