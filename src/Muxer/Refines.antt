-- ===== src/Muxer/Refines.antt =====
-- A muxer at work merges what its generators promise.
use mathlib.Core.Path.{subst}
use mathlib.Core.List.{cons≢nil}
use actf.Common.{ℕ, ◌≤◌, ◌<◌, ◌≡◌, refl, sym, ◌∙◌, Bool, true, leb, ltb, List, [], ◌∷◌, arith}
use actf.Common.Int.{ℤ}
use actf.Types.{Result, ok, err, then_ok}
use actf.EventGenerator.{EventGenerator, Gives}
use actf.Muxer.{
  Muxer, MuxerState, fresh, ongoing, done, failed, delivered, mux_loop, push_pending, mux_ongoing,
  mux_fresh, mux_switch, mux,
}
use actf.Muxer.Merge.{Same, Merges, Merges-from, Merges-none}
use actf.Muxer.Loop.{left, IsRunning, none_waits, pending, idle_pending, Looped, mux_loop-Looped}
use actf.Muxer.Start.{Fails, Started, bootstrap-Started, Ready, push_pending-Ready}

module _ {Ev G : Type 0} (tstamp : Ev → ℤ) (gen : EventGenerator Ev G) (IsLive : ℕ → G → Type 0)
    (rest : ℕ → G → List Ev) (n : ℕ) where
  abbrev Running : (ℕ → Bool) → Muxer Ev G → Type 0
  Running w m = IsRunning tstamp gen IsLive rest n w m

  -- What is still to come from each generator.
  abbrev pub muxer_rest : Muxer Ev G → ℕ → List Ev
  muxer_rest m = left tstamp gen IsLive rest n m

  abbrev pub InState : MuxerState → Muxer Ev G → Type 0
  InState fresh m = Running (λ j. leb 0 j) m × (n ≤ m.pending_gen_i)
  InState ongoing m = Running (pending m) m
  InState done m = Running (pending m) m × ((i : ℕ) → i < n → muxer_rest m i ≡ [])
  InState failed m = ⊥

  -- No call has failed since the last seek.
  abbrev pub IsLiveMuxer : Muxer Ev G → Type 0
  IsLiveMuxer m = InState m.state m

  -- The events of a call are merged from what is to come; none are the end.
  abbrev pub Muxed : Muxer Ev G → Result (List Ev) × Muxer Ev G → Type 0
  Muxed m (ok evs, m') =
      IsLiveMuxer m'
      × Merges tstamp n (muxer_rest m) evs (muxer_rest m')
      × (evs ≡ [] → (i : ℕ) → i < n → muxer_rest m i ≡ [])
  Muxed m (err rc, m') = Fails tstamp gen IsLive rest n rc m'

  IsRunning-in :
      (w : ℕ → Bool) (m : Muxer Ev G) (s : MuxerState)
      → Running w m
      → Running w (record m { state = s })
  IsRunning-in w m s r = record {
    size = r.size;
    room = r.room;
    live = r.live;
    holds = r.holds;
    drained = r.drained;
    empty = r.empty;
    in_order = r.in_order;
  }

  delivered-Muxed :
      (m m' : Muxer Ev G) (p : List Ev × Muxer Ev G)
      → Same tstamp n (muxer_rest m') (muxer_rest m)
      → 0 < m'.evs_cap
      → m'.state ≡ ongoing
      → Looped tstamp gen IsLive rest n m'.evs_cap m' p
      → Muxed m (delivered tstamp gen p)
  delivered-Muxed m m' ([], q) same room st l =
      let ended = l.ends refl room in
      let over : (i : ℕ) → i < n → muxer_rest m i ≡ [] = λ i k. sym (same i k) ∙ ended i k in
      let stopped = Merges-none tstamp n l.merges refl in
      let capped : ltb 0 q.evs_cap ≡ true = ground (arith, l.running.room) in
      rw capped (
        (IsRunning-in (pending q) q done l.running, λ i k. sym (stopped i k) ∙ ended i k),
        Merges-from tstamp n (λ i k. sym (same i k)) l.merges,
        λ e. over,
      )
  delivered-Muxed m m' (ev ∷ evs, q) same room st l = (
    subst (λ s. InState s q) (sym (l.same_state ∙ st)) l.running,
    Merges-from tstamp n (λ i k. sym (same i k)) l.merges,
    λ e. absurd (cons≢nil e),
  )

  module _ (events : ℕ → List Ev)
      (gives : (i : ℕ) → Gives tstamp gen (events i) (IsLive i) (rest i)) where
    Ready-Muxed :
        (m : Muxer Ev G) (p : Result (Unit {0}) × Muxer Ev G)
        → m.state ≡ ongoing
        → Ready tstamp gen IsLive rest n events gives m p
        → Muxed m (then_ok p (λ m. delivered tstamp gen (mux_loop tstamp gen m.evs_cap m)))
    Ready-Muxed m (err rc, m') st s = s
    Ready-Muxed m (ok u, m') st (r, same, idle, st') =
        delivered-Muxed m m' (mux_loop tstamp gen m'.evs_cap m') same r.room (st' ∙ st)
          (mux_loop-Looped tstamp gen IsLive rest n m'.evs_cap m' r idle)

    mux_ongoing-Muxed :
        (m : Muxer Ev G)
        → m.state ≡ ongoing
        → Running (pending m) m
        → Muxed m (mux_ongoing tstamp gen m)
    unfolding mux_ongoing
    mux_ongoing-Muxed m st r =
        Ready-Muxed m (push_pending tstamp gen m) st
          (push_pending-Ready tstamp gen IsLive rest n events gives m r)

    Muxed-from :
        (m m' : Muxer Ev G) (p : Result (List Ev) × Muxer Ev G)
        → Same tstamp n (muxer_rest m') (muxer_rest m)
        → Muxed m' p
        → Muxed m p
    Muxed-from m m' (err rc, q) same s = s
    Muxed-from m m' (ok evs, q) same (live, k, e) =
        (live, Merges-from tstamp n (λ i l. sym (same i l)) k, λ z i l. sym (same i l) ∙ e z i l)

    Started-Muxed :
        (m : Muxer Ev G) (p : Result (Unit {0}) × Muxer Ev G)
        → n ≤ m.pending_gen_i
        → Started tstamp gen IsLive rest n none_waits m p
        → Muxed m (then_ok p (λ m. mux_ongoing tstamp gen (record m { state = ongoing })))
    Started-Muxed m (err rc, m') h s = s
    Started-Muxed m (ok u, m') h (r, same, pend, st) =
        let m'' = record m' { state = ongoing } in
        let idle : n ≤ m'.pending_gen_i = omega (arith, h, pend) in
        Muxed-from m m'' (mux_ongoing tstamp gen m'') same (
          mux_ongoing-Muxed m'' refl
            (idle_pending tstamp gen IsLive rest n m'' idle (IsRunning-in none_waits m' ongoing r)))

    switch-Muxed :
        (s : MuxerState) (m : Muxer Ev G)
        → m.state ≡ s
        → InState s m
        → Muxed m (mux_switch tstamp gen s m)
    unfolding mux_switch mux_fresh
    switch-Muxed fresh m st (r, h) = Started-Muxed m _ h (
        bootstrap-Started tstamp gen IsLive rest n events gives m.gens_len 0 m
          (omega (arith, r.size)) r)
    switch-Muxed ongoing m st r = mux_ongoing-Muxed m st r
    switch-Muxed done m st (r, e) =
        (subst (λ s. InState s m) (sym st) (r, e), Merges.stop (λ i l. refl), λ z. e)
    switch-Muxed failed m st r = absurd r

    -- A call of a live muxer that succeeds gives events that are merged from what is to come of its
    -- generators by their time stamps, and leaves it live with the rest; it gives none only at the
    -- end. A call fails only where a generator does, with its code.
    pub mux-Muxed : (m : Muxer Ev G) → IsLiveMuxer m → Muxed m (mux tstamp gen m)
    unfolding mux
    mux-Muxed m l = switch-Muxed m.state m refl l
