-- ===== src/Filter.antt =====
-- filter.c and filter.h: a generator that passes on the events of another one in a time range.
pub mod Events
pub mod Refines
pub mod Whole
mod Tests
use actf.Common.{ℕ, ◌*◌, Bool, true, false, not, ◌&&◌, ltb, List, [], ◌∷◌, if◌then◌else◌}
use actf.Common.Int.{ℤ, pos, negsuc, ltb_ℤ, leb_ℤ, ◌+ℤ◌, whole_multiples, int64_max}
use actf.Types.{Rc, Result, ok, err, error, then_ok}
use actf.EventGenerator.{EventGenerator}

pub data FilterState : Type 0 where
  fresh ongoing done failed : FilterState

pub record FilterTimeRange : Type 0 where
  pub begin : ℤ
  pub begin_has_date : Bool
  pub end : ℤ
  pub end_has_date : Bool

-- The functions of the generator stand apart from its state.
pub record Filter (G : Type 0) : Type 0 where
  pub gen : G
  pub range : FilterTimeRange
  pub state : FilterState

unfoldable pub init : {G : Type 0} → G → FilterTimeRange → Filter G
init gen range = record { gen = gen; range = range; state = fresh }

abbrev pub day_ns : ℕ
day_ns = 24 * 60 * 60 * 1000000000

-- A boundary without a date is moved to the date of the event. The sum is taken to fit an int64_t, as it
-- does for a boundary within a day and an event a day or more away from the ends of int64_t.
abbrev pub with_dates : ℤ → FilterTimeRange → FilterTimeRange
with_dates ns_from_origin r =
    let date_off = whole_multiples ns_from_origin day_ns in
    record {
      begin = if r.begin_has_date then r.begin else r.begin +ℤ date_off;
      begin_has_date = true;
      end = if r.end_has_date then r.end else r.end +ℤ date_off;
      end_has_date = true;
    }

abbrev pub is_int64_max : ℤ → Bool
is_int64_max t = leb_ℤ t int64_max && leb_ℤ int64_max t

abbrev pub is_fresh : FilterState → Bool
is_fresh fresh = true
is_fresh ongoing = false
is_fresh done = false
is_fresh failed = false

abbrev pub done_if_empty : {Ev G : Type 0} → List Ev → Filter G → Filter G
done_if_empty [] f = record f { state = done }
done_if_empty (ev ∷ evs) f = f

module _ {Ev : Type 0} (tstamp : Ev → ℤ) where
  -- The loop over the events that are not after the end.
  unfoldable pub cut : ℤ → List Ev → List Ev
  cut end [] = []
  cut end (ev ∷ evs) = let rest = cut end evs in if leb_ℤ (tstamp ev) end then ev ∷ rest else []

module _ {Ev G : Type 0} (tstamp : Ev → ℤ) (gens : EventGenerator Ev G) where
  -- The dates come from the generator's first event, if there is one.
  abbrev pub first_event : Filter G → Result (List Ev) × G → Result (Unit {0}) × Filter G
  first_event f (ok [], g) = (ok tt, record f { gen = g })
  first_event f (ok (ev ∷ evs), g) =
      (ok tt, record f { gen = g; range = with_dates (tstamp ev) f.range })
  first_event f (err rc, g) = (err rc, record f { gen = g; state = failed })

  unfoldable pub ensure_range_has_dates : Filter G → Result (Unit {0}) × Filter G
  ensure_range_has_dates f =
      if f.range.begin_has_date && f.range.end_has_date
      then (ok tt, f)
      else first_event f (gens.generate f.gen)

  -- What a seek of the generator means for the filter.
  abbrev pub sought : Filter G → Result (Unit {0}) × G → Result (Unit {0}) × Filter G
  sought f (ok u, g) = (ok tt, record f { gen = g; state = ongoing })
  sought f (err rc, g) = (err rc, record f { gen = g; state = failed })

  -- The seek once the range has its dates.
  unfoldable pub seek_in_range : Filter G → ℤ → Result (Unit {0}) × Filter G
  seek_in_range f t =
      if ltb_ℤ t f.range.begin
      then sought f (gens.seek_ns_from_origin f.gen f.range.begin)
      else if ltb_ℤ f.range.end t
      then (ok tt, record f { state = done })
      else sought f (gens.seek_ns_from_origin f.gen t)

  unfoldable pub seek_ns_from_origin : Filter G → ℤ → Result (Unit {0}) × Filter G
  unfolding ensure_range_has_dates seek_in_range
  seek_ns_from_origin f t = then_ok (ensure_range_has_dates f) (λ f. seek_in_range f t)

  -- FILTER_STATE_ONGOING
  abbrev pub passed : ℤ → List Ev → List Ev
  passed end evs = if is_int64_max end then evs else cut tstamp end evs

  -- What the events of the generator mean for the filter.
  abbrev pub generated : Filter G → Result (List Ev) × G → Result (List Ev) × Filter G
  generated f (ok evs, g) =
      (ok (passed f.range.end evs), done_if_empty (passed f.range.end evs) (record f { gen = g }))
  generated f (err rc, g) = (err rc, record f { gen = g; state = failed })

  unfoldable pub filter_ongoing : Filter G → Result (List Ev) × Filter G
  unfolding cut
  filter_ongoing f = generated f (gens.generate f.gen)

  -- The switch; the state is no longer fresh after a seek that succeeds.
  unfoldable pub filter_switch : FilterState → Filter G → Result (List Ev) × Filter G
  unfolding filter_ongoing
  filter_switch fresh f = (err Rc.internal, f)
  filter_switch ongoing f = filter_ongoing f
  filter_switch done f = (ok [], f)
  filter_switch failed f = (err error, f)

  -- FILTER_STATE_FRESH
  unfoldable pub filter_fresh : Filter G → Result (Unit {0}) × Filter G
  unfolding ensure_range_has_dates seek_ns_from_origin
  filter_fresh f = then_ok (ensure_range_has_dates f) (λ f. seek_ns_from_origin f f.range.begin)

  unfoldable pub filter : Filter G → Result (List Ev) × Filter G
  unfolding filter_fresh filter_switch
  filter f =
      if is_fresh f.state
      then then_ok (filter_fresh f) (λ f. filter_switch f.state f)
      else filter_switch f.state f

  unfoldable pub to_generator : EventGenerator Ev (Filter G)
  unfolding filter seek_ns_from_origin
  to_generator = record { generate = filter; seek_ns_from_origin = seek_ns_from_origin }
