-- ===== src/Filter/Refines.antt =====
-- A filter over a generator is a generator of the events in its range.
use mathlib.Core.Path.{subst}
use actf.Common.{◌≡◌, refl, sym, ap, ◌∙◌, Bool-cases, inl, inr, true, List, [], ◌∷◌, ◌++◌, arith}
use actf.Common.Int.{ℤ, ltb_ℤ, leb_ℤ}
use actf.Types.{Result, ok, err, then_ok}
use actf.EventGenerator.{
  EventGenerator, keep, from, until, InOrder, Piece, Generated, Sought, Gives,
}
use actf.Filter.{
  FilterState, fresh, ongoing, done, failed, FilterTimeRange, Filter, is_int64_max, done_if_empty,
  passed, generated, sought, ensure_range_has_dates, seek_in_range, seek_ns_from_origin,
  filter_ongoing, filter_switch, filter_fresh, filter, to_generator,
}
use actf.Filter.Events.{
  keep-append, cut-until, past-until, until-all, InOrder-append_left, keep-InOrder, from-early,
  from-late, from-beyond, from-begin,
}

abbrev pub Runs : FilterState → Type 0
Runs fresh = Unit {0}
Runs ongoing = Unit {0}
Runs done = Unit {0}
Runs failed = ⊥

module _ {Ev G : Type 0} (tstamp : Ev → ℤ) (gens : EventGenerator Ev G) (events : List Ev)
    (IsLive : G → Type 0) (rest : G → List Ev) (range : FilterTimeRange) where
  -- The range has its dates, and no call has failed.
  pub record IsLiveFilter (f : Filter G) : Type 0 where
    pub live : IsLive f.gen
    pub same_range : f.range ≡ range
    pub runs : Runs f.state

  abbrev pub rest_in : FilterState → G → List Ev
  rest_in fresh g = until tstamp range.end (from tstamp range.begin events)
  rest_in ongoing g = until tstamp range.end (rest g)
  rest_in done g = []
  rest_in failed g = []

  abbrev pub filter_rest : Filter G → List Ev
  filter_rest f = rest_in f.state f.gen

  module _ (gives : Gives tstamp gens events IsLive rest) (in_order : InOrder tstamp events)
      (begin_dated : range.begin_has_date ≡ true) (end_dated : range.end_has_date ≡ true) where
    abbrev handed_on : List Ev → List Ev
    handed_on evs = passed tstamp gens range.end evs

    passed-until : (evs : List Ev) → InOrder tstamp evs → handed_on evs ≡ until tstamp range.end evs
    passed-until evs o = elim (Bool-cases (is_int64_max range.end)) [
      | inl e ↦ rw e (sym (until-all tstamp range.end evs (ground arith) o))
      | inr e ↦ rw e (cut-until tstamp range.end evs o)
    ]

    abbrev at : G → FilterState → Filter G
    at g st = record { gen = g; range = range; state = st }

    at-IsLiveFilter : (g : G) (st : FilterState) → IsLive g → Runs st → IsLiveFilter (at g st)
    at-IsLiveFilter g st l r = record { live = l; same_range = refl; runs = r }

    -- The piece that is passed on, once it is known whether it is empty.
    handed :
        (g : G) (p before : List Ev)
        → IsLive g
        → before ≡ p ++ until tstamp range.end (rest g)
        → (p ≡ [] → before ≡ [])
        → Generated tstamp IsLiveFilter filter_rest before (ok p, done_if_empty p (at g ongoing))
    handed g [] before l e z = (at-IsLiveFilter g done l tt, (z refl, refl))
    handed g (x ∷ p) before l e z = (at-IsLiveFilter g ongoing l tt, e)

    not_empty :
        (x : Ev) (evs : List Ev)
        → leb_ℤ (tstamp x) range.end ≡ true
        → ¬ (until tstamp range.end (x ∷ evs) ≡ [])
    unfolding keep
    not_empty x evs w h = let c = rw w at h in cc

    -- What is to come before and after a piece of the generator.
    Piece-until :
        (evs before after : List Ev)
        → InOrder tstamp before
        → Piece tstamp evs before after
        → (until tstamp range.end before ≡ handed_on evs ++ until tstamp range.end after)
          × (handed_on evs ≡ [] → until tstamp range.end before ≡ [])
    Piece-until [] before after o (b, a) =
        let none : until tstamp range.end [] ≡ [] = unfold keep in refl in
        let nothing : until tstamp range.end before ≡ [] = ap (until tstamp range.end) b ∙ none in
        let not_passed : handed_on [] ≡ [] = passed-until [] (unfold InOrder in tt) ∙ none in
        (
          nothing
              ∙ sym (
                  ap (λ t. t ++ until tstamp range.end after) not_passed
                  ∙ ap (until tstamp range.end) a
                  ∙ none),
          λ e. nothing,
        )
    Piece-until (x ∷ evs) before after o e =
        let whole : InOrder tstamp ((x ∷ evs) ++ after) = subst (InOrder tstamp) e o in
        let through : handed_on (x ∷ evs) ≡ until tstamp range.end (x ∷ evs) =
          passed-until (x ∷ evs) (InOrder-append_left tstamp (x ∷ evs) after whole) in
        (
          ap (until tstamp range.end) e
              ∙ keep-append tstamp _ (x ∷ evs) after
              ∙ ap (λ t. t ++ until tstamp range.end after) (sym through),
          λ z. elim (Bool-cases (leb_ℤ (tstamp x) range.end)) [
            | inl within ↦ absurd (not_empty x evs within (sym through ∙ z))
            | inr past ↦
                ap (until tstamp range.end) e
                ∙ past-until tstamp range.end x (evs ++ after) whole past
          ],
        )

    outcome-Generated :
        (g₀ : G) (before : List Ev) (p : Result (List Ev) × G)
        → InOrder tstamp before
        → Generated tstamp IsLive rest before p
        → Generated tstamp IsLiveFilter filter_rest
            (until tstamp range.end before)
            (generated tstamp gens (at g₀ ongoing) p)
    outcome-Generated g₀ before (err rc, g) o h = tt
    outcome-Generated g₀ before (ok evs, g) o (l, piece) =
        let (e, z) = Piece-until evs before (rest g) o piece in handed g (handed_on evs) _ l e z

    ongoing-Generated :
        (g : G)
        → IsLive g
        → Generated tstamp IsLiveFilter filter_rest
            (until tstamp range.end (rest g))
            (filter_ongoing tstamp gens (at g ongoing))
    unfolding filter_ongoing
    ongoing-Generated g l =
        outcome-Generated g (rest g) (gens.generate g) (gives.in_order g l) (gives.generates g l)

    -- With its dates at hand the range is left alone.
    pub dated :
        (g : G) (st : FilterState) → ensure_range_has_dates tstamp gens (at g st) ≡ (ok tt, at g st)
    unfolding ensure_range_has_dates
    dated g st = rw (begin_dated, end_dated) refl

    abbrev whole_range : List Ev
    whole_range = until tstamp range.end (from tstamp range.begin events)

    sought-Sought :
        (f : Filter G) (goal goal' : List Ev) (p : Result (Unit {0}) × G)
        → Sought tstamp IsLive rest goal p
        → until tstamp range.end goal ≡ goal'
        → f.range ≡ range
        → Sought tstamp IsLiveFilter filter_rest goal' (sought tstamp gens f p)
    sought-Sought f goal goal' (err rc, g) h e r = tt
    sought-Sought f goal goal' (ok u, g) (l, r) e s =
        (record { live = l; same_range = s; runs = tt }, ap (until tstamp range.end) r ∙ e)

    in_range-Sought :
        (g : G) (st : FilterState) (t : ℤ)
        → IsLive g
        → Sought tstamp IsLiveFilter filter_rest
            (from tstamp t whole_range)
            (seek_in_range tstamp gens (at g st) t)
    unfolding seek_in_range
    in_range-Sought g st t l = elim (Bool-cases (ltb_ℤ t range.begin)) [
      | inl early ↦ rw early (
          sought-Sought (at g st) (from tstamp range.begin events) _
            (gens.seek_ns_from_origin g range.begin) (gives.seeks g range.begin l)
            (from-early tstamp range.begin range.end t events (ground arith)) refl)
      | inr late ↦ rw late (elim (Bool-cases (ltb_ℤ range.end t)) [
        | inl beyond ↦ rw beyond (
          at-IsLiveFilter g done l tt,
          from-beyond tstamp range.begin range.end t events (ground arith),
        )
        | inr within ↦ rw within (
            sought-Sought (at g st) (from tstamp t events) _ (gens.seek_ns_from_origin g t)
              (gives.seeks g t l) (from-late tstamp range.begin range.end t events (ground arith))
              refl)
      ])
    ]

    seek-Sought :
        (g : G) (st : FilterState) (t : ℤ)
        → IsLive g
        → Sought tstamp IsLiveFilter filter_rest
            (from tstamp t whole_range)
            (seek_ns_from_origin tstamp gens (at g st) t)
    unfolding seek_ns_from_origin
    seek-Sought g st t l = rw (dated g st) (in_range-Sought g st t l)

    switch-Generated :
        (g : G) (st : FilterState)
        → IsLive g
        → Runs st
        → Generated tstamp IsLiveFilter filter_rest
            (rest_in st g)
            (filter_switch tstamp gens st (at g st))
    unfolding filter_switch
    switch-Generated g fresh l r = tt
    switch-Generated g ongoing l r = ongoing-Generated g l
    switch-Generated g done l r = (at-IsLiveFilter g done l tt, (refl, refl))
    switch-Generated g failed l r = absurd r

    -- Whatever state the filter is in, with the range that it has.
    switched :
        (f : Filter G)
        → IsLiveFilter f
        → Generated tstamp IsLiveFilter filter_rest
            (filter_rest f)
            (filter_switch tstamp gens f.state f)
    switched f l =
        subst
          (λ r. Generated tstamp IsLiveFilter filter_rest (filter_rest f) (
            filter_switch tstamp gens f.state (record { gen = f.gen; range = r; state = f.state })))
          (sym l.same_range) (switch-Generated f.gen f.state l.live l.runs)

    after_seek :
        (p : Result (Unit {0}) × Filter G)
        → Sought tstamp IsLiveFilter filter_rest (from tstamp range.begin whole_range) p
        → Generated tstamp IsLiveFilter filter_rest whole_range
            (then_ok p (λ f. filter_switch tstamp gens f.state f))
    after_seek (err rc, f) h = tt
    after_seek (ok u, f) (l, r) =
        subst
          (λ t. Generated tstamp IsLiveFilter filter_rest t (filter_switch tstamp gens f.state f))
          (r ∙ sym (from-begin tstamp range.begin range.end range.begin events)) (switched f l)

    fresh-Generated :
        (g : G)
        → IsLive g
        → Generated tstamp IsLiveFilter filter_rest whole_range (filter tstamp gens (at g fresh))
    unfolding filter filter_fresh
    fresh-Generated g l = rw (dated g fresh) (after_seek _ (seek-Sought g fresh range.begin l))

    filter-Generated :
        (g : G) (st : FilterState)
        → IsLive g
        → Runs st
        → Generated tstamp IsLiveFilter filter_rest (rest_in st g) (filter tstamp gens (at g st))
    filter-Generated g fresh l r = fresh-Generated g l
    filter-Generated g ongoing l r = unfold filter in switch-Generated g ongoing l r
    filter-Generated g done l r = unfold filter in switch-Generated g done l r
    filter-Generated g failed l r = absurd r

    rest_in-InOrder : (g : G) (st : FilterState) → IsLive g → InOrder tstamp (rest_in st g)
    rest_in-InOrder g fresh l = keep-InOrder tstamp _ _ (keep-InOrder tstamp _ _ in_order)
    rest_in-InOrder g ongoing l = keep-InOrder tstamp _ _ (gives.in_order g l)
    rest_in-InOrder g done l = unfold InOrder in tt
    rest_in-InOrder g failed l = unfold InOrder in tt

    -- Over a generator that keeps the promises of the interface, and with a range that has its dates, a filter keeps them too: it gives, in pieces and after seeks, exactly the events of the generator from the begin to the end of the range, both included. The events are in the order of their time stamps.
    pub filter-Gives : Gives tstamp (to_generator tstamp gens) whole_range IsLiveFilter filter_rest
    unfolding to_generator
    filter-Gives = record {
      generates = λ f l.
          subst
            (λ r.
              Generated tstamp IsLiveFilter filter_rest (filter_rest f)
                (filter tstamp gens (record { gen = f.gen; range = r; state = f.state })))
            (sym l.same_range) (filter-Generated f.gen f.state l.live l.runs);
      seeks = λ f t l.
          subst
            (λ r. Sought tstamp IsLiveFilter filter_rest (from tstamp t whole_range) (
              seek_ns_from_origin tstamp gens (record { gen = f.gen; range = r; state = f.state })
                t))
            (sym l.same_range) (seek-Sought f.gen f.state t l.live);
      in_order = λ f l. rest_in-InOrder f.gen f.state l.live;
    }
