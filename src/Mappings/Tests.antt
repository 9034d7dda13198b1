-- ===== src/Mappings/Tests.antt =====
-- Mappings at concrete inputs, and ranges that are far apart.
use actf.Common.{ℕ, ◌≡◌, refl, List, [], ◌∷◌, some, arith}
use actf.Common.Int.{negsuc}
use actf.Rng.{Urng}
use actf.Flags.{Name, UMapping}
use actf.Mappings.{Uival, umappings_find_first, ivals, urng_cmp}
use actf.Mappings.Find.{find_names, find_names-named}
use actf.Mappings.Merged.{stabbed, named, stabbed-ivals}

abbrev rng : ℕ → ℕ → Urng
rng l u = record { lower = l; upper = u }

abbrev uival : ℕ → ℕ → Name → Uival
uival l u name = record { lower = l; upper = u; value = name }

-- "a" is [4, 9], [2, 5] and [20, 30], "b" is [5, 5].
abbrev two_names : List UMapping
two_names =
    record { rng_set = rng 4 9 ∷ rng 2 5 ∷ rng 20 30 ∷ []; name = 97 ∷ [] }
    ∷ record { rng_set = rng 5 5 ∷ []; name = 98 ∷ [] }
    ∷ []

three_ivals :
    ivals two_names ≡ uival 2 9 (97 ∷ []) ∷ uival 20 30 (97 ∷ []) ∷ uival 5 5 (98 ∷ []) ∷ []
unfolding ivals
three_ivals = refl

-- [2^31 + 10, 2^31 + 30] and [0, 2^31 + 20]
abbrev far_apart : List UMapping
far_apart =
    record { rng_set = rng 2147483658 2147483678 ∷ rng 0 2147483668 ∷ []; name = 97 ∷ [] } ∷ []

-- The later range stays in front, since the difference of the bounds does not fit an int.
later_first : urng_cmp (rng 2147483658 2147483678) (rng 0 2147483668) ≡ negsuc 2147483637
unfolding urng_cmp
later_first = refl

in_the_set : named 7 far_apart ≡ (97 ∷ []) ∷ []
unfolding named
in_the_set = refl

lost_value : stabbed 7 (ivals far_apart) ≡ []
unfolding stabbed ivals
lost_value = refl

stabbed-ivals_example : stabbed 5 (ivals two_names) ≡ named 5 two_names
stabbed-ivals_example = stabbed-ivals 5 two_names (
  (
    2,
    (
      (omega arith, omega arith, omega arith),
      ((omega arith, omega arith, omega arith), ((omega arith, omega arith, omega arith), tt)),
    ),
  ),
  ((5, ((omega arith, omega arith, omega arith), tt)), tt),
)

first_name : umappings_find_first two_names 5 ≡ some (97 ∷ [])
unfolding umappings_find_first
first_name = refl

find_names-named_example : find_names 3 two_names 5 0 ≡ named 5 two_names
find_names-named_example = find_names-named two_names 5
