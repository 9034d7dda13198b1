-- ===== src/Filter/Whole.antt =====
-- A filter over a generator that does not fail, read to its end.
use mathlib.Core.Path.{subst}
use actf.Common.{ℕ, ◌<◌, ◌≡◌, refl, sym, Bool-cases, inl, inr, true, List}
use actf.Common.Lists.{length}
use actf.Common.Int.{ℤ, ltb_ℤ}
use actf.Types.{Result, ok, err}
use actf.EventGenerator.{EventGenerator, from, until, InOrder, Sought, Gives}
use actf.EventGenerator.Collect.{IsOk, NeverFails, collect, collect-rest}
use actf.Filter.{
  FilterState, fresh, ongoing, done, failed, FilterTimeRange, Filter, init, sought, generated,
  seek_in_range, seek_ns_from_origin, filter_ongoing, filter_switch, filter_fresh, filter,
  to_generator,
}
use actf.Filter.Refines.{Runs, IsLiveFilter, dated, filter-Gives}

abbrev IsActive : FilterState → Type 0
IsActive fresh = ⊥
IsActive ongoing = Unit {0}
IsActive done = Unit {0}
IsActive failed = ⊥

module _ {Ev G : Type 0} (tstamp : Ev → ℤ) (gens : EventGenerator Ev G) (events : List Ev)
    (IsLive : G → Type 0) (rest : G → List Ev) (range : FilterTimeRange)
    (gives : Gives tstamp gens events IsLive rest) (in_order : InOrder tstamp events)
    (begin_dated : range.begin_has_date ≡ true) (end_dated : range.end_has_date ≡ true)
    (safe : NeverFails gens IsLive) where
  abbrev at : G → FilterState → Filter G
  at g st = record { gen = g; range = range; state = st }

  -- A seek that succeeds and leaves the filter ready.
  Starts : Result (Unit {0}) × Filter G → Type 0
  Starts p = (g : G) × (st : FilterState) × (p ≡ (ok tt, at g st)) × IsLive g × IsActive st

  sought-Starts :
      (g : G) (st : FilterState) (goal : List Ev) (p : Result (Unit {0}) × G)
      → Sought tstamp IsLive rest goal p
      → IsOk p.0
      → Starts (sought tstamp gens (at g st) p)
  unfolding Starts
  sought-Starts g st goal (err rc, h) s k = absurd k
  sought-Starts g st goal (ok tt, h) (l, r) k = (h, ongoing, refl, l, tt)

  in_range-Starts :
      (g : G) (st : FilterState) (t : ℤ) → IsLive g → Starts (seek_in_range tstamp gens (at g st) t)
  unfolding seek_in_range
  in_range-Starts g st t l = elim (Bool-cases (ltb_ℤ t range.begin)) [
    | inl early ↦ rw early (
        sought-Starts g st _ (gens.seek_ns_from_origin g range.begin) (gives.seeks g range.begin l)
          (safe.seek_ok g range.begin l))
    | inr late ↦ rw late (elim (Bool-cases (ltb_ℤ range.end t)) [
      | inl beyond ↦ rw beyond (unfold Starts in (g, done, refl, l, tt))
      | inr within ↦ rw within (
          sought-Starts g st _ (gens.seek_ns_from_origin g t) (gives.seeks g t l)
            (safe.seek_ok g t l))
    ])
  ]

  seek-Starts :
      (g : G) (st : FilterState) (t : ℤ)
      → IsLive g
      → Starts (seek_ns_from_origin tstamp gens (at g st) t)
  unfolding seek_ns_from_origin
  seek-Starts g st t l =
      rw (dated tstamp gens events IsLive rest range gives in_order begin_dated end_dated g st)
        (in_range-Starts g st t l)

  generated-IsOk :
      (f : Filter G) (p : Result (List Ev) × G) → IsOk p.0 → IsOk (generated tstamp gens f p).0
  generated-IsOk f (ok evs, g) k = tt
  generated-IsOk f (err rc, g) k = k

  switch-IsOk :
      (g : G) (st : FilterState)
      → IsLive g
      → IsActive st
      → IsOk (filter_switch tstamp gens st (at g st)).0
  unfolding filter_switch filter_ongoing
  switch-IsOk g fresh l a = absurd a
  switch-IsOk g ongoing l a = generated-IsOk (at g ongoing) (gens.generate g) (safe.generate_ok g l)
  switch-IsOk g done l a = tt
  switch-IsOk g failed l a = absurd a

  fresh-IsOk : (g : G) → IsLive g → IsOk (filter tstamp gens (at g fresh)).0
  unfolding filter filter_fresh Starts
  fresh-IsOk g l =
      let (h, st, e, k, a) = seek-Starts g fresh range.begin l in
      rw
        (dated tstamp gens events IsLive rest range gives in_order begin_dated end_dated g fresh, e)
        (switch-IsOk h st k a)

  filter-IsOk :
      (g : G) (st : FilterState) → IsLive g → Runs st → IsOk (filter tstamp gens (at g st)).0
  filter-IsOk g fresh l r = fresh-IsOk g l
  filter-IsOk g ongoing l r = unfold filter in switch-IsOk g ongoing l tt
  filter-IsOk g done l r = unfold filter in switch-IsOk g done l tt
  filter-IsOk g failed l r = absurd r

  Starts-IsOk : (p : Result (Unit {0}) × Filter G) → Starts p → IsOk p.0
  unfolding Starts
  Starts-IsOk p (g, st, e, l, a) = subst (λ q. IsOk q.0) (sym e) tt

  filter-NeverFails :
      NeverFails (to_generator tstamp gens) (IsLiveFilter tstamp gens events IsLive rest range)
  unfolding to_generator
  filter-NeverFails = record {
    generate_ok = λ f l.
        subst
          (λ r. IsOk (filter tstamp gens (record { gen = f.gen; range = r; state = f.state })).0)
          (sym l.same_range) (filter-IsOk f.gen f.state l.live l.runs);
    seek_ok = λ f t l.
        subst
          (λ r.
            IsOk
              (seek_ns_from_origin tstamp gens (record { gen = f.gen; range = r; state = f.state })
                t).0)
          (sym l.same_range) (Starts-IsOk _ (seek-Starts f.gen f.state t l.live));
  }

  -- Where the generator below never fails, a new filter whose range has its dates, called more often than there are events to give, gives in order exactly the events of the generator from the begin to the end of the range, wherever the generator stood.
  pub collect-filter :
      (g : G) (n : ℕ)
      → IsLive g
      → length (until tstamp range.end (from tstamp range.begin events)) < n
      → collect (to_generator tstamp gens) n (init g range)
        ≡ until tstamp range.end (from tstamp range.begin events)
  unfolding init
  collect-filter g n l enough =
      collect-rest (to_generator tstamp gens) tstamp _ _ _
        (filter-Gives tstamp gens events IsLive rest range gives in_order begin_dated end_dated)
        filter-NeverFails n (at g fresh) (record { live = l; same_range = refl; runs = tt }) enough
