-- ===== src/Filter/Tests.antt =====
-- A filter over a list of events, and the theorems at this input.
use actf.Common.{◌≡◌, refl, true, false, List, [], ◌∷◌, arith}
use actf.Common.Int.{ℤ, pos, negsuc}
use actf.Types.{Result, ok}
use actf.EventGenerator.{EventGenerator, keep, from, until, InOrder, Generated, Gives}
use actf.Filter.Events.{keep-InOrder}
use actf.EventGenerator.Collect.{IsOk, NeverFails, collect}
use actf.Filter.{FilterTimeRange, init, to_generator, with_dates}
use actf.Filter.Refines.{IsLiveFilter, filter_rest, filter-Gives}
use actf.Filter.Whole.{collect-filter}

-- An event is its time stamp.
abbrev stamp : ℤ → ℤ
stamp t = t

abbrev stamps : List ℤ
stamps = negsuc 4 ∷ pos 3 ∷ pos 8 ∷ pos 8 ∷ pos 20 ∷ []

-- Events one at a time; the state is what is left.
abbrev next_piece : List ℤ → Result (List ℤ) × List ℤ
next_piece [] = (ok [], [])
next_piece (t ∷ ts) = (ok (t ∷ []), ts)

abbrev one_by_one : EventGenerator ℤ (List ℤ)
one_by_one = record {
  generate = next_piece;
  seek_ns_from_origin = λ g t. (ok tt, from stamp t stamps);
}

abbrev range : FilterTimeRange
range = record { begin = pos 3; begin_has_date = true; end = pos 8; end_has_date = true }

stamps-InOrder : InOrder stamp stamps
unfolding InOrder
stamps-InOrder = ground arith

-- Events that are left of the list.
abbrev IsLeft : List ℤ → Type 0
IsLeft g = InOrder stamp g

generates : (g : List ℤ) → IsLeft g → Generated stamp IsLeft (λ g. g) g (next_piece g)
unfolding InOrder
generates [] o = (tt, (refl, refl))
generates (t ∷ ts) (m, a, o) = (o, refl)

gives : Gives stamp one_by_one stamps IsLeft (λ g. g)
gives = record {
  generates = generates;
  seeks = λ g t o. (keep-InOrder stamp _ stamps stamps-InOrder, refl);
  in_order = λ g o. o;
}

piece-IsOk : (g : List ℤ) → IsOk (next_piece g).0
piece-IsOk [] = tt
piece-IsOk (t ∷ ts) = tt

safe : NeverFails one_by_one IsLeft
safe = record { generate_ok = λ g o. piece-IsOk g; seek_ok = λ g t o. tt }

three_events :
    collect (to_generator stamp one_by_one) 4 (init stamps range) ≡ pos 3 ∷ pos 8 ∷ pos 8 ∷ []
unfolding collect to_generator init keep
three_events = refl

-- A begin without a date on the day of an event at 3 days and 5 nanoseconds.
dates :
    with_dates
      (pos 259200000000005)
      (record { begin = pos 10; begin_has_date = false; end = pos 99; end_has_date = true })
    ≡ record {
      begin = pos 259200000000010;
      begin_has_date = true;
      end = pos 99;
      end_has_date = true;
    }
dates = refl

-- An event one nanosecond before the origin, on the last day of 1969, gives the first day of 1970.
day_before_origin :
    with_dates
      (negsuc 0)
      (record { begin = pos 10; begin_has_date = false; end = pos 99; end_has_date = true })
    ≡ record { begin = pos 10; begin_has_date = true; end = pos 99; end_has_date = true }
day_before_origin = refl

filter-Gives_example :
    Gives stamp
      (to_generator stamp one_by_one)
      (until stamp (pos 8) (from stamp (pos 3) stamps))
      (IsLiveFilter stamp one_by_one stamps IsLeft (λ g. g) range)
      (filter_rest stamp one_by_one stamps IsLeft (λ g. g) range)
filter-Gives_example =
    filter-Gives stamp one_by_one stamps IsLeft (λ g. g) range gives stamps-InOrder refl refl

collect-filter_example :
    collect (to_generator stamp one_by_one) 4 (init stamps range)
    ≡ until stamp (pos 8) (from stamp (pos 3) stamps)
unfolding keep
collect-filter_example =
    collect-filter stamp one_by_one stamps IsLeft (λ g. g) range gives stamps-InOrder refl refl safe
      stamps 4 stamps-InOrder (omega arith)
