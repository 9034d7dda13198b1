-- ===== src/Mappings/Find.antt =====
-- Asking for names until there is none gives the names of the mappings that hold the value.
use actf.Common.{
  ℕ, zero, suc, ◌≤◌, ◌≡◌, refl, ap, ◌∙◌, Bool-cases, inl, inr, List, [], ◌∷◌, none, some, arith,
}
use actf.Common.Lists.{length, drop, drop-suc}
use actf.Rng.{urng_set_intersect}
use actf.Flags.{Name, UMapping, Found}
use actf.Mappings.{search, umappings_find}
use actf.Mappings.Merged.{named}

-- The names that a client reads who calls umappings_find until it gives none, at most `n` times.
unfoldable pub find_names : ℕ → List UMapping → ℕ → ℕ → List Name
unfolding umappings_find
find_names zero maps val it = []
find_names (suc n) maps val it =
    let next = umappings_find maps val it in
    elim next.found [ none ↦ [] | some name ↦ name ∷ find_names n maps val next.it ]

abbrev go_on : ℕ → List UMapping → ℕ → Found → List Name
go_on n maps val next = elim next.found [
  | none ↦ []
  | some name ↦ name ∷ find_names n maps val next.it
]

asks_at :
    (maps : List UMapping) (val : ℕ) (rest : List UMapping) (n i : ℕ)
    → drop i maps ≡ rest
    → find_names (suc n) maps val i ≡ go_on n maps val (search rest val i i)
unfolding find_names umappings_find
asks_at maps val rest n i d = ap (λ t. go_on n maps val (search t val i i)) d

search_rest :
    (maps : List UMapping) (val : ℕ) (rest : List UMapping) (n i it : ℕ)
    → drop i maps ≡ rest
    → length rest ≤ n
    → go_on n maps val (search rest val i it) ≡ named val rest
unfolding search named
search_rest maps val [] n i it d l = refl
search_rest maps val (m ∷ rest) zero i it d l = absurd (omega arith)
search_rest maps val (m ∷ rest) (suc n) i it d l =
    let d' = drop-suc i maps m rest d in
    elim (Bool-cases (urng_set_intersect m.rng_set val)) [
      | inl e ↦ rw e (
          ap (λ l. m.name ∷ l)
            (asks_at maps val rest n (suc i) d'
              ∙ search_rest maps val rest n (suc i) (suc i) d' (omega arith)))
      | inr e ↦ rw e (search_rest maps val rest (suc n) (suc i) it d' (omega arith))
    ]

-- A client that asks umappings_find for names until it gives none, one call more than there are
-- mappings at most, reads the names of exactly the mappings whose range set holds the value, in order.
pub find_names-named :
    (maps : List UMapping) (val : ℕ) → find_names (suc (length maps)) maps val 0 ≡ named val maps
find_names-named maps val =
    asks_at maps val maps (length maps) 0 refl
    ∙ search_rest maps val maps (length maps) 0 0 refl (omega arith)
