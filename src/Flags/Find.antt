-- ===== src/Flags/Find.antt =====
-- Asking for names until there is none gives the names whose ranges hold a bit of the value.
use actf.Common.{
  ℕ, zero, suc, ◌≤◌, ◌<◌, min, ◌≡◌, refl, ap, ◌∙◌, bit_and, List, [], ◌∷◌, map, none, some, Bool,
  Bool-cases, inl, inr, true, false, not, ◌&&◌, ◌||◌, ◌==◌, if◌then◌else◌, arith,
}
use actf.Common.Lists.{length, drop, drop-suc}
use actf.Common.Bits.{bit, bit-le, bit-zero, bit-and, bit_ext, bit_and-lt_right, u64_mod}
use actf.Rng.{Urng, urng_set_intersect}
use actf.Flags.{Name, UMapping, Flags, Found, make_bit_mask, find_loop, flags_init, flags_find}
use actf.Flags.Masks.{bit-make_bit_mask}

-- The ranges hold one of the lowest `n` bits that are set in the value.
unfoldable pub hits : ℕ → List Urng → ℕ → Bool
unfolding bit urng_set_intersect
hits zero rngs val = false
hits (suc n) rngs val = (urng_set_intersect rngs n && bit n val == 1) || hits n rngs val

-- The names of the mappings that hold a bit of the value, in the order of the mappings.
unfoldable pub names_hit : List UMapping → ℕ → List Name
names_hit [] val = []
names_hit (m ∷ maps) val =
    if hits 64 m.rng_set val then m.name ∷ names_hit maps val else names_hit maps val

-- The names that a client reads who calls flags_find until it gives none, at most `n` times.
unfoldable pub find_all : ℕ → Flags → ℕ → ℕ → List Name
unfolding flags_find
find_all zero f val it = []
find_all (suc n) f val it =
    let next = flags_find f val it in
    elim next.found [ none ↦ [] | some name ↦ name ∷ find_all n f val next.it ]

none_hit :
    (n : ℕ) (rngs : List Urng) (val k : ℕ)
    → hits n rngs val ≡ false
    → k < n
    → min (if urng_set_intersect rngs k then 1 else 0) (bit k val) ≡ 0
unfolding hits
none_hit zero rngs val k e h = absurd (omega arith)
none_hit (suc n) rngs val k e h = elim (Bool-cases (k == n)) [
  | inl same ↦ let s : k ≡ n = ground arith in rw s (ground (arith, bit-le n val))
  | inr other ↦ none_hit n rngs val k (ground arith) (ground arith)
]

one_hit :
    (n : ℕ) (rngs : List Urng) (val : ℕ)
    → hits n rngs val ≡ true
    → (k : ℕ) × (k < n) × (min (if urng_set_intersect rngs k then 1 else 0) (bit k val) ≡ 1)
unfolding hits
one_hit zero rngs val e = cc
one_hit (suc n) rngs val e = elim (Bool-cases (hits n rngs val)) [
  | inl h ↦ let (k, l, m) = one_hit n rngs val h in (k, omega arith, m)
  | inr h ↦ (n, omega arith, ground arith)
]

mask_hit :
    (rngs : List Urng) (val : ℕ)
    → val < u64_mod
    → (bit_and (make_bit_mask rngs) val == 0) ≡ not (hits 64 rngs val)
mask_hit rngs val v = elim (Bool-cases (hits 64 rngs val)) [
  | inl h ↦
      let (k, l, m) = one_hit 64 rngs val h in
      let z : (bit_and (make_bit_mask rngs) val == 0) ≡ false =
        (elim (Bool-cases (bit_and (make_bit_mask rngs) val == 0)) [
          | inl e ↦
              let none : bit_and (make_bit_mask rngs) val ≡ 0 = ground arith in
              absurd (
                omega (
                  arith,
                  m,
                  bit-and k (make_bit_mask rngs) val,
                  bit-make_bit_mask rngs k l,
                  ap (bit k) none,
                  bit-zero k,
                ))
          | inr e ↦ e
        ]) in
      rw (z, h) refl
  | inr h ↦
      let z : bit_and (make_bit_mask rngs) val ≡ 0 =
        bit_ext 64 _ _ (bit_and-lt_right 64 _ val v) (omega arith) (λ k l. omega (
          arith,
          bit-and k (make_bit_mask rngs) val,
          bit-make_bit_mask rngs k l,
          none_hit 64 rngs val k h l,
          bit-zero k,
        )) in
      rw (z, h) refl
]

drop-map : {A B : Type 0} (f : A → B) (n : ℕ) (xs : List A) → drop n (map f xs) ≡ map f (drop n xs)
drop-map f zero xs = refl
drop-map f (suc n) [] = refl
drop-map f (suc n) (x ∷ xs) = drop-map f n xs

abbrev mask_of : UMapping → ℕ
mask_of m = make_bit_mask m.rng_set

abbrev go_on : ℕ → Flags → ℕ → Found → List Name
go_on n f val next = elim next.found [ none ↦ [] | some name ↦ name ∷ find_all n f val next.it ]

loop_at :
    (maps : List UMapping) (val : ℕ) (rest : List UMapping) (i : ℕ)
    → drop i maps ≡ rest
    → flags_find (flags_init maps) val i ≡ find_loop (map mask_of rest) rest val i i
unfolding flags_find flags_init
loop_at maps val rest i d =
    let masks : drop i (map mask_of maps) ≡ map mask_of rest =
      drop-map mask_of i maps ∙ ap (map mask_of) d in
    ap (λ t. find_loop t (drop i maps) val i i) masks
    ∙ ap (λ t. find_loop (map mask_of rest) t val i i) d

asks_again :
    (maps : List UMapping) (val : ℕ) (rest : List UMapping) (n i : ℕ)
    → drop i maps ≡ rest
    → find_all (suc n) (flags_init maps) val i
      ≡ go_on n (flags_init maps) val (find_loop (map mask_of rest) rest val i i)
unfolding find_all
asks_again maps val rest n i d = ap (go_on n (flags_init maps) val) (loop_at maps val rest i d)

find_rest :
    (maps : List UMapping) (val : ℕ)
    → val < u64_mod
    → (rest : List UMapping) (n i it : ℕ) → drop i maps ≡ rest
    → length rest ≤ n
    → go_on n (flags_init maps) val (find_loop (map mask_of rest) rest val i it)
      ≡ names_hit rest val
unfolding find_loop names_hit
find_rest maps val v [] n i it d l = refl
find_rest maps val v (m ∷ rest) zero i it d l = absurd (omega arith)
find_rest maps val v (m ∷ rest) (suc n) i it d l =
    let skip =
      find_rest maps val v rest (suc n) (suc i) it (drop-suc i maps m rest d) (omega arith) in
    let take =
      find_rest maps val v rest n (suc i) (suc i) (drop-suc i maps m rest d) (omega arith) in
    elim (Bool-cases (hits 64 m.rng_set val)) [
      | inl h ↦
          rw (mask_hit m.rng_set val v, h)
            (ap (λ t. m.name ∷ t)
              (asks_again maps val rest n (suc i) (drop-suc i maps m rest d) ∙ take))
      | inr h ↦ rw (mask_hit m.rng_set val v, h) skip
    ]

-- A client that asks flags_find for names until it gives none, from a new iterator, reads in order the names of exactly the mappings whose ranges hold a bit of the uint64_t value, once each; one more call than there are mappings is enough.
pub find_all-names_hit :
    (maps : List UMapping) (val : ℕ)
    → val < u64_mod
    → find_all (suc (length maps)) (flags_init maps) val 0 ≡ names_hit maps val
find_all-names_hit maps val v =
    asks_again maps val maps (length maps) 0 refl
    ∙ find_rest maps val v maps (length maps) 0 0 refl (omega arith)
