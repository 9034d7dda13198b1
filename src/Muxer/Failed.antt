-- ===== src/Muxer/Failed.antt =====
-- A muxer that has failed.
use actf.Common.{ℕ, zero, suc, ◌≡◌, refl, Bool-cases, inl, inr, List}
use actf.Common.Int.{ℤ}
use actf.Types.{Result, ok, err, error, then_ok}
use actf.EventGenerator.{EventGenerator}
use actf.Muxer.{
  Muxer, MuxerState, fresh, ongoing, done, failed, fresh_evs, has_pending_gen, push_fresh_evs_to_pq,
  bootstrap, push_pending, mux_ongoing, mux_fresh, mux_switch, mux, muxer_reset, sought, seek_loop,
  seek_ns_from_origin,
}

module _ {Ev G : Type 0} (tstamp : Ev → ℤ) (gen : EventGenerator Ev G) where
  -- A call that fails leaves the muxer failed.
  abbrev pub EndsFailed : {A : Type 0} → Result A × Muxer Ev G → Type 0
  EndsFailed (ok a, m) = Unit {0}
  EndsFailed (err rc, m) = m.state ≡ failed

  EndsFailed-then :
      {A B : Type 0} (p : Result A × Muxer Ev G) (f : Muxer Ev G → Result B × Muxer Ev G)
      → EndsFailed p
      → ((m : Muxer Ev G) → EndsFailed (f m))
      → EndsFailed (then_ok p f)
  EndsFailed-then (ok a, m) f h g = g m
  EndsFailed-then (err rc, m) f h g = h

  fresh_evs-EndsFailed :
      (m : Muxer Ev G) (i : ℕ) (p : Result (List Ev) × G) → EndsFailed (fresh_evs tstamp m i p)
  fresh_evs-EndsFailed m i (ok evs, g) = tt
  fresh_evs-EndsFailed m i (err rc, g) = refl

  push_fresh-EndsFailed :
      (m : Muxer Ev G) (i : ℕ) → EndsFailed (push_fresh_evs_to_pq tstamp gen m i)
  unfolding push_fresh_evs_to_pq
  push_fresh-EndsFailed m i = fresh_evs-EndsFailed m i (gen.generate (m.gens i))

  bootstrap-EndsFailed : (k i : ℕ) (m : Muxer Ev G) → EndsFailed (bootstrap tstamp gen k i m)
  unfolding bootstrap
  bootstrap-EndsFailed zero i m = tt
  bootstrap-EndsFailed (suc k) i m =
      EndsFailed-then _ _ (push_fresh-EndsFailed m i) (bootstrap-EndsFailed k (suc i))

  push_pending-EndsFailed : (m : Muxer Ev G) → EndsFailed (push_pending tstamp gen m)
  unfolding push_pending
  push_pending-EndsFailed m = elim (Bool-cases (has_pending_gen m)) [
    | inl e ↦ rw e (EndsFailed-then _ _ (push_fresh-EndsFailed m m.pending_gen_i) (λ m. tt))
    | inr e ↦ rw e tt
  ]

  ongoing-EndsFailed : (m : Muxer Ev G) → EndsFailed (mux_ongoing tstamp gen m)
  unfolding mux_ongoing
  ongoing-EndsFailed m = EndsFailed-then _ _ (push_pending-EndsFailed m) (λ m. tt)

  switch-EndsFailed :
      (s : MuxerState) (m : Muxer Ev G) → m.state ≡ s → EndsFailed (mux_switch tstamp gen s m)
  unfolding mux_switch mux_fresh
  switch-EndsFailed fresh m e =
      EndsFailed-then _ _ (bootstrap-EndsFailed m.gens_len 0 m)
        (λ m. ongoing-EndsFailed (record m { state = ongoing }))
  switch-EndsFailed ongoing m e = ongoing-EndsFailed m
  switch-EndsFailed done m e = tt
  switch-EndsFailed failed m e = e

  sought-EndsFailed :
      (m : Muxer Ev G) (i : ℕ) (p : Result (Unit {0}) × G) → EndsFailed (sought tstamp gen m i p)
  sought-EndsFailed m i (ok u, g) = tt
  sought-EndsFailed m i (err rc, g) = refl

  seek_loop-EndsFailed :
      (k i : ℕ) (t : ℤ) (m : Muxer Ev G) → EndsFailed (seek_loop tstamp gen k i t m)
  unfolding seek_loop
  seek_loop-EndsFailed zero i t m = tt
  seek_loop-EndsFailed (suc k) i t m =
      EndsFailed-then _ _ (sought-EndsFailed m i (gen.seek_ns_from_origin (m.gens i) t))
        (seek_loop-EndsFailed k (suc i) t)

  -- A seek leaves the muxer fresh or failed.
  abbrev pub FreshOrFailed : Result (Unit {0}) × Muxer Ev G → Type 0
  FreshOrFailed (ok u, m) = m.state ≡ fresh
  FreshOrFailed (err rc, m) = m.state ≡ failed

  reset-FreshOrFailed :
      (p : Result (Unit {0}) × Muxer Ev G)
      → EndsFailed p
      → FreshOrFailed (then_ok p (λ m. (ok tt, muxer_reset m)))
  unfolding muxer_reset
  reset-FreshOrFailed (ok u, m) h = refl
  reset-FreshOrFailed (err rc, m) h = h

  -- Whatever the generators do, a call of the muxer that fails leaves it failed; then every call
  -- fails with ACTF_ERROR and changes nothing. A seek leaves it failed where it fails, and fresh
  -- otherwise.
  pub mux-failed :
      (m : Muxer Ev G) (t : ℤ)
      → EndsFailed (mux tstamp gen m)
        × (m.state ≡ failed → mux tstamp gen m ≡ (err error, m))
        × FreshOrFailed (seek_ns_from_origin tstamp gen m t)
  unfolding mux seek_ns_from_origin
  mux-failed m t = (
    switch-EndsFailed m.state m refl,
    λ e. rw e (unfold mux_switch in refl),
    reset-FreshOrFailed _ (seek_loop-EndsFailed m.gens_len 0 t m),
  )
