-- ===== src/Mappings/Merged.antt =====
-- The intervals of the mappings against their range sets.
use actf.Common.{
  ℕ, ◌≤◌, ◌<◌, ◌≡◌, refl, ap, ◌∙◌, Bool, Bool-cases, inl, inr, true, false, List, [], ◌∷◌, ◌++◌,
  if◌then◌else◌, ◌&&◌, leb, max, arith,
}
use actf.Common.Lists.{All}
use actf.Rng.{Urng, urng_set_intersect, urng_intersect_urng}
use actf.Flags.{Name, UMapping}
use actf.Mappings.{Uival, merge_loop, merge, ivals, qsort, urng_cmp}
use actf.Mappings.Sorted.{Sorted, Near, qsort-All, qsort-Sorted, any-qsort}

-- The names of the intervals that the value lies in, one for each interval.
unfoldable pub stabbed : ℕ → List Uival → List Name
stabbed val [] = []
stabbed val (iv ∷ ivs) =
    let rest = stabbed val ivs in
    if leb iv.lower val && leb val iv.upper then iv.value ∷ rest else rest

-- The names of the mappings whose range set holds the value, one for each mapping.
unfoldable pub named : ℕ → List UMapping → List Name
unfolding urng_set_intersect
named val [] = []
named val (m ∷ maps) =
    let rest = named val maps in if urng_set_intersect m.rng_set val then m.name ∷ rest else rest

-- The name, if the value has been found.
abbrev once : Name → Bool → List Name
once name b = if b then name ∷ [] else []

stabbed-append :
    (val : ℕ) (a b : List Uival) → stabbed val (a ++ b) ≡ stabbed val a ++ stabbed val b
unfolding stabbed
stabbed-append val [] b = refl
stabbed-append val (iv ∷ ivs) b = elim (Bool-cases (leb iv.lower val && leb val iv.upper)) [
  | inl e ↦ rw e (ap (λ l. iv.value ∷ l) (stabbed-append val ivs b))
  | inr e ↦ rw e (stabbed-append val ivs b)
]

-- A value before every lower bound lies in no range.
none_before :
    (val bound : ℕ) (rngs : List Urng)
    → val < bound
    → All (λ r. bound ≤ r.lower) rngs
    → urng_set_intersect rngs val ≡ false
unfolding urng_set_intersect
none_before val bound [] l h = refl
none_before val bound (r ∷ rngs) l (h, hs) = ground (arith, none_before val bound rngs l hs)

abbrev NotEmpty : Urng → Type 0
NotEmpty r = r.lower ≤ r.upper

abbrev grown : Urng → Urng → Urng
grown top r = record top { upper = max r.upper top.upper }

-- Two ranges that intersect hold what the grown one holds.
grown_same :
    (val : ℕ) (top r : Urng) (rngs : List Urng)
    → top.lower ≤ r.lower
    → urng_intersect_urng r top ≡ true
    → urng_set_intersect (grown top r ∷ rngs) val ≡ urng_set_intersect (top ∷ r ∷ rngs) val
unfolding urng_intersect_urng urng_set_intersect
grown_same val top r rngs l e = ground arith

apart_after :
    (top r : Urng)
    → NotEmpty r
    → top.lower ≤ r.lower
    → urng_intersect_urng r top ≡ false
    → top.upper < r.lower
unfolding urng_intersect_urng
apart_after top r n l e = ground arith

stabbed-merge_loop :
    (val : ℕ) (name : Name) (top : Urng) (rngs : List Urng)
    → All NotEmpty rngs
    → Sorted (top ∷ rngs)
    → stabbed val (merge_loop name top rngs) ≡ once name (urng_set_intersect (top ∷ rngs) val)
unfolding stabbed merge_loop urng_set_intersect
stabbed-merge_loop val name top [] ns s =
    elim (Bool-cases (leb top.lower val && leb val top.upper)) [
      | inl e ↦ rw e refl
      | inr e ↦ rw e refl
    ]
stabbed-merge_loop val name top (r ∷ rngs) (n, ns) ((l, ls), (m, s)) =
    elim (Bool-cases (urng_intersect_urng r top)) [
      | inl e ↦ rw e (
          stabbed-merge_loop val name (grown top r) rngs ns (ls, s)
          ∙ ap (once name) (grown_same val top r rngs l e))
      | inr e ↦
          let after : top.upper < r.lower = apart_after top r n l e in
          let rest = stabbed-merge_loop val name r rngs ns (m, s) in
          elim (Bool-cases (leb top.lower val && leb val top.upper)) [
            | inl h ↦
                let none = none_before val r.lower (r ∷ rngs) (ground arith) (omega arith, m) in
                rw (e, h) (ap (λ l. name ∷ l) (rest ∙ ap (once name) none))
            | inr h ↦ rw (e, h) rest
          ]
    ]

stabbed-merge :
    (val : ℕ) (name : Name) (rngs : List Urng)
    → All NotEmpty rngs
    → Sorted rngs
    → stabbed val (merge name rngs) ≡ once name (urng_set_intersect rngs val)
unfolding stabbed merge urng_set_intersect
stabbed-merge val name [] ns s = refl
stabbed-merge val name (r ∷ rngs) (n, ns) s = stabbed-merge_loop val name r rngs ns s

-- The lower bounds of the mapping lie less than 2^31 apart, and no range is empty.
abbrev pub Narrow : UMapping → Type 0
Narrow m = (base : ℕ) × All (Near base) m.rng_set

nonempty_ranges : (base : ℕ) (rngs : List Urng) → All (Near base) rngs → All NotEmpty rngs
nonempty_ranges base [] ns = tt
nonempty_ranges base (r ∷ rngs) ((n, b, c), ns) = (n, nonempty_ranges base rngs ns)

of_mapping :
    (val : ℕ) (m : UMapping)
    → Narrow m
    → stabbed val (merge m.name (qsort urng_cmp m.rng_set))
      ≡ once m.name (urng_set_intersect m.rng_set val)
unfolding urng_set_intersect
of_mapping val m (base, ns) =
    let sorted = qsort urng_cmp m.rng_set in
    stabbed-merge val m.name sorted
      (nonempty_ranges base sorted (qsort-All (Near base) urng_cmp m.rng_set ns))
      (qsort-Sorted base m.rng_set ns)
    ∙ ap (once m.name) (any-qsort (λ r. leb r.lower val && leb val r.upper) urng_cmp m.rng_set)

once-append :
    (name : Name) (b : Bool) (rest : List Name)
    → once name b ++ rest ≡ (if b then name ∷ rest else rest)
once-append name true rest = refl
once-append name false rest = refl

-- Where no range of a mapping is empty and its lower bounds lie less than 2^31 apart, each value
-- lies in exactly one interval of every mapping whose range set holds the value, and in none of the
-- other mappings, in the order of the mappings.
pub stabbed-ivals :
    (val : ℕ) (maps : List UMapping) → All Narrow maps → stabbed val (ivals maps) ≡ named val maps
unfolding ivals named stabbed
stabbed-ivals val [] ns = refl
stabbed-ivals val (m ∷ maps) (n, ns) =
    let rest = stabbed-ivals val maps ns in
    stabbed-append val (merge m.name (qsort urng_cmp m.rng_set)) (ivals maps)
    ∙ ap (λ l. l ++ stabbed val (ivals maps)) (of_mapping val m n)
    ∙ once-append m.name (urng_set_intersect m.rng_set val) (stabbed val (ivals maps))
    ∙ ap (λ l. if urng_set_intersect m.rng_set val then m.name ∷ l else l) rest
