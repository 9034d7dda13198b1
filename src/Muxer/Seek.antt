-- ===== src/Muxer/Seek.antt =====
-- A seek of a muxer, and a new one.
use mathlib.Core.List.Perm
use actf.Common.{
  ℕ, zero, suc, ◌+◌, ◌≤◌, ◌<◌, ◌≡◌, refl, inl, inr, Bool, Bool-cases, ◌==◌, List, [], arith,
}
use actf.Common.Int.{ℤ}
use actf.Common.Writes.{write}
use actf.Types.{Rc, Result, ok, err, then_ok}
use actf.EventGenerator.{EventGenerator, from, Sought, Gives}
use actf.PrioQueue.{PrioQueue}
use actf.PrioQueue.Order.{IsValid}
use actf.Muxer.{
  Muxer, MuxerState, fresh, ongoing, done, failed, init, buffered, muxer_reset, sought, seek_loop,
  seek_ns_from_origin,
}
use actf.Muxer.Queued.{queued, queued_none}
use actf.Muxer.Loop.{IsRunning}
use actf.Muxer.Refines.{muxer_rest, IsLiveMuxer, InState}

module _ {Ev G : Type 0} (tstamp : Ev → ℤ) (gen : EventGenerator Ev G) (IsLive : ℕ → G → Type 0)
    (rest : ℕ → G → List Ev) (n : ℕ) where
  -- The sizes fit and the generators are live, whatever the buffers hold.
  record IsSized (m : Muxer Ev G) : Type 0 where
    size : m.gens_len ≡ n
    room : 0 < m.evs_cap
    cap : m.pq.cap ≡ n
    live : (i : ℕ) → i < n → IsLive i (m.gens i)

  abbrev LiveIn : MuxerState → Muxer Ev G → Type 0
  LiveIn s m = InState tstamp gen IsLive rest n s m

  running-IsSized :
      (w : ℕ → Bool) (m : Muxer Ev G) → IsRunning tstamp gen IsLive rest n w m → IsSized m
  running-IsSized w m r = record { size = r.size; room = r.room; cap = r.holds.cap; live = r.live }

  live-IsSized : (s : MuxerState) (m : Muxer Ev G) → LiveIn s m → IsSized m
  live-IsSized fresh m (r, h) = running-IsSized _ m r
  live-IsSized ongoing m r = running-IsSized _ m r
  live-IsSized done m (r, e) = running-IsSized _ m r
  live-IsSized failed m r = absurd r

  module _ (events : ℕ → List Ev)
      (gives : (i : ℕ) → Gives tstamp gen (events i) (IsLive i) (rest i)) where
    empty_queue : (pq : PrioQueue) → pq.cap ≡ n → IsValid (record pq { nodes = [] })
    empty_queue pq e = record { heap = λ c p q. absurd (omega arith); fits = omega arith }

    -- Empty buffers and an empty queue before the first call.
    fresh-live :
        (m : Muxer Ev G)
        → IsSized m
        → ((i : ℕ) → i < n → buffered m i ≡ [])
        → m.pq.nodes ≡ []
        → n ≤ m.pending_gen_i
        → LiveIn fresh m
    fresh-live m s e z idle =
        let q = empty_queue m.pq s.cap in
        let none : queued tstamp (buffered m) n ≡ [] = queued_none tstamp (buffered m) n e in
        (
          record {
            size = s.size;
            room = s.room;
            live = s.live;
            holds = record {
              valid = record { heap = rw z q.heap; fits = rw z q.fits };
              cap = s.cap;
              contents = rw (z, none) Perm.rfl;
            };
            drained = λ i l d. absurd (ground arith);
            empty = λ i l d. e i l;
            in_order = λ i l. rw (e i l) ((gives i).in_order (m.gens i) (s.live i l));
          },
          idle,
        )

    -- A new muxer is live, with all that its generators have to come.
    pub init-IsLiveMuxer :
        (gens : ℕ → G) (evs_cap : ℕ)
        → ((i : ℕ) → i < n → IsLive i (gens i))
        → IsLiveMuxer tstamp gen IsLive rest n (init gens n evs_cap)
    unfolding init
    init-IsLiveMuxer gens evs_cap live =
        let m = init {Ev = Ev} gens n evs_cap in
        let s : IsSized m = record { size = refl; room = ground arith; cap = refl; live = live } in
        fresh-live m s (λ i l. refl) refl (omega arith)

    -- The generators below `i` have been moved.
    abbrev Moved : ℕ → ℤ → Muxer Ev G → Type 0
    Moved i t m =
        IsSized m × ((j : ℕ) → j < i → j < n → rest j (m.gens j) ≡ from tstamp t (events j))

    -- The muxer has failed with the code of a generator's seek.
    abbrev pub SeekFails : ℤ → Rc → Muxer Ev G → Type 0
    SeekFails t rc m =
        (m.state ≡ failed)
        × ((i : ℕ) × (g : G) × (i < n) × IsLive i g × ((gen.seek_ns_from_origin g t).0 ≡ err rc))

    abbrev MovedAll : ℤ → Result (Unit {0}) × Muxer Ev G → Type 0
    MovedAll t (ok u, m) = Moved n t m
    MovedAll t (err rc, m) = SeekFails t rc m

    -- A generator's seek, and the loop behind it.
    sought-Moved :
        (i : ℕ) (t : ℤ) (m : Muxer Ev G) (p : Result (Unit {0}) × G)
        (f : Muxer Ev G → Result (Unit {0}) × Muxer Ev G)
        → i < n
        → Moved i t m
        → (gen.seek_ns_from_origin (m.gens i) t).0 ≡ p.0
        → Sought tstamp (IsLive i) (rest i) (from tstamp t (events i)) p
        → ((m' : Muxer Ev G) → Moved (suc i) t m' → MovedAll t (f m'))
        → MovedAll t (then_ok (sought tstamp gen m i p) f)
    sought-Moved i t m (err rc, g) f l v c h k = (refl, (i, m.gens i, l, v.0.live i l, c))
    sought-Moved i t m (ok u, g) f l (s, moved) c (live, e) k =
        k (record m { gens = write m.gens i g })
          (
            record {
              size = s.size;
              room = s.room;
              cap = s.cap;
              live = λ j a. elim (Bool-cases (i == j)) [
                | inl d ↦ let here : j ≡ i = ground arith in rw (d, here) live
                | inr d ↦ rw d (s.live j a)
              ];
            },
            λ j a b. elim (Bool-cases (i == j)) [
              | inl d ↦ let here : j ≡ i = ground arith in rw (d, here) e
              | inr d ↦ rw d (moved j (ground arith) b)
            ],
          )

    seek_loop-MovedAll :
        (k i : ℕ) (t : ℤ) (m : Muxer Ev G)
        → i + k ≡ n
        → Moved i t m
        → MovedAll t (seek_loop tstamp gen k i t m)
    unfolding seek_loop
    seek_loop-MovedAll zero i t m e (s, moved) = (s, λ j a b. moved j (omega arith) b)
    seek_loop-MovedAll (suc k) i t m e v =
        sought-Moved i t m (gen.seek_ns_from_origin (m.gens i) t) _ (omega arith) v refl
          ((gives i).seeks (m.gens i) t (v.0.live i (omega arith)))
          (λ m' v'. seek_loop-MovedAll k (suc i) t m' (omega arith) v')

    abbrev pub SoughtAll : ℤ → Result (Unit {0}) × Muxer Ev G → Type 0
    SoughtAll t (ok u, m) =
        IsLiveMuxer tstamp gen IsLive rest n m
        × ((i : ℕ) → i < n → muxer_rest tstamp gen IsLive rest n m i ≡ from tstamp t (events i))
    SoughtAll t (err rc, m) = SeekFails t rc m

    reset-SoughtAll :
        (t : ℤ) (p : Result (Unit {0}) × Muxer Ev G)
        → MovedAll t p
        → SoughtAll t (then_ok p (λ m. (ok tt, muxer_reset m)))
    unfolding muxer_reset
    reset-SoughtAll t (err rc, m) h = h
    reset-SoughtAll t (ok u, m) (s, moved) =
        let m' = muxer_reset m in
        let s' : IsSized m' = record { size = s.size; room = s.room; cap = s.cap; live = s.live } in
        (fresh-live m' s' (λ i l. refl) refl (omega (arith, s.size)), λ i l. moved i l l)

    -- After a seek of a live muxer that succeeds, the muxer is live and each generator has the
    -- events to come that are not before the time stamp. A seek fails
    -- only where that of a generator does, with its code.
    pub seek-SoughtAll :
        (m : Muxer Ev G) (t : ℤ)
        → IsLiveMuxer tstamp gen IsLive rest n m
        → SoughtAll t (seek_ns_from_origin tstamp gen m t)
    unfolding seek_ns_from_origin
    seek-SoughtAll m t l =
        let s = live-IsSized m.state m l in
        reset-SoughtAll t (seek_loop tstamp gen m.gens_len 0 t m) (
          seek_loop-MovedAll m.gens_len 0 t m (omega (arith, s.size))
            (s, λ j a b. absurd (omega arith)))
