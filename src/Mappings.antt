-- ===== src/Mappings.antt =====
-- mappings.c: the names of a value in the mappings of an unsigned field class, and the intervals of
-- its interval tree.
-- struct umappings is the list of its range sets, each with its name. The tree itself is left out:
-- the list holds the intervals that are inserted into it. The signed routines are the same over
-- int64_t and are left out too.
pub mod Sorted
pub mod Merged
pub mod Find
mod Tests
use actf.Common.{
  ℕ, suc, ◌-◌, ◌%◌, ◌^◌, max, List, Option, none, some, [], ◌∷◌, ◌++◌, Bool, ltb, leb,
  if◌then◌else◌,
}
use actf.Common.Int.{ℤ, pos, negsuc, leb_ℤ}
use actf.Rng.{Urng, urng_set_intersect, urng_intersect_urng}
use actf.Common.Lists.{drop}
use actf.Flags.{Name, UMapping, Found}

pub record Uival : Type 0 where
  pub lower : ℕ
  pub upper : ℕ
  pub value : Name

-- The cast of a uint64_t to an int of 32 bits.
abbrev pub to_int : ℕ → ℤ
to_int n = let low = n % 2 ^ 32 in if ltb low (2 ^ 31) then pos low else negsuc (2 ^ 32 - 1 - low)

unfoldable pub urng_cmp : Urng → Urng → ℤ
urng_cmp r1 r2 = if leb r2.lower r1.lower then to_int (r1.lower - r2.lower) else negsuc 0

-- qsort of the C library, which leaves open how equal elements are ordered: here, by insertion.
unfoldable pub insert : (Urng → Urng → ℤ) → Urng → List Urng → List Urng
insert cmp x [] = x ∷ []
insert cmp x (y ∷ ys) =
    let rest = insert cmp x ys in if leb_ℤ (cmp x y) (pos 0) then x ∷ y ∷ ys else y ∷ rest

unfoldable pub qsort : (Urng → Urng → ℤ) → List Urng → List Urng
unfolding insert
qsort cmp [] = []
qsort cmp (x ∷ xs) = insert cmp x (qsort cmp xs)

abbrev pub ival_of : Name → Urng → Uival
ival_of name top = record { lower = top.lower; upper = top.upper; value = name }

-- The loop over the ranges behind `top`, the interval that grows.
unfoldable pub merge_loop : Name → Urng → List Urng → List Uival
unfolding urng_intersect_urng
merge_loop name top [] = ival_of name top ∷ []
merge_loop name top (rng ∷ rngs) =
    let joined = merge_loop name (record top { upper = max rng.upper top.upper }) rngs in
    let apart = merge_loop name rng rngs in
    if urng_intersect_urng rng top then joined else ival_of name top ∷ apart

unfoldable pub merge : Name → List Urng → List Uival
unfolding merge_loop
merge name [] = []
merge name (rng ∷ rngs) = merge_loop name rng rngs

-- init_uivalt, up to the insertion into the tree.
unfoldable pub ivals : List UMapping → List Uival
unfolding qsort urng_cmp merge
ivals [] = []
ivals (m ∷ maps) = merge m.name (qsort urng_cmp m.rng_set) ++ ivals maps

-- The mappings from index `i` on. The iterator keeps its value where nothing is found.
unfoldable pub search : List UMapping → ℕ → ℕ → ℕ → Found
unfolding urng_set_intersect
search [] val i it = record { found = none; it = it }
search (m ∷ maps) val i it =
    let rest = search maps val (suc i) it in
    if urng_set_intersect m.rng_set val then record { found = some m.name; it = suc i } else rest

unfoldable pub umappings_find : List UMapping → ℕ → ℕ → Found
unfolding search
umappings_find maps val it = search (drop it maps) val it it

unfoldable pub umappings_find_first : List UMapping → ℕ → Option Name
unfolding umappings_find
umappings_find_first maps val = (umappings_find maps val 0).found
