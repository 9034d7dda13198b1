-- ===== src/Rng/Overlap.antt =====
-- Whether two range sets overlap, against the sets of integers that they stand for.
use actf.Common.{
  ◌≤◌, ◌≡◌, ◌↔◌, inl, inr, Bool, true, false, Bool-cases, List, [], ◌∷◌, arith, if◌then◌else◌,
}
use actf.Common.Lists.{any, Any, All, any→Any, Any→any, Any-map}
use actf.Common.Int.{ℤ, pos, ◌≤ℤ◌, ltb_ℤ, leb_ℤ}
use actf.Rng.{
  Srng, Urng, RngSet, sint, uint, to_urng, urng_intersect_urng, srng_intersect_srng,
  urng_set_intersect_urng, srng_set_intersect_srng, urng_set_intersect_srng,
  rng_set_intersect_rng_set,
}
use actf.Rng.Member.{InSrng, InUrng, In}

-- No range of the set is empty.
abbrev pub IsSound : RngSet → Type 0
IsSound (sint rngs) = All (λ r. r.lower ≤ℤ r.upper) rngs
IsSound (uint rngs) = All (λ r. r.lower ≤ r.upper) rngs

abbrev upper_of : ℤ → ℤ → ℤ
upper_of a b = if leb_ℤ a b then b else a

-- Two ranges share a point.
abbrev Share : {A B : Type 0} → (ℤ → A → Type 0) → (ℤ → B → Type 0) → A → B → Type 0
Share P Q a b = (x : ℤ) × P x a × Q x b

srng_meet :
    (q r : Srng)
    → q.lower ≤ℤ q.upper
    → r.lower ≤ℤ r.upper
    → srng_intersect_srng q r ≡ true
    → Share InSrng InSrng q r
unfolding srng_intersect_srng
srng_meet q r hq hr h = (upper_of q.lower r.lower, ground arith, ground arith)

srng_met : (q r : Srng) → Share InSrng InSrng q r → srng_intersect_srng q r ≡ true
unfolding srng_intersect_srng
srng_met q r (x, a, b) = ground arith

urng_meet :
    (q r : Urng)
    → q.lower ≤ q.upper
    → r.lower ≤ r.upper
    → urng_intersect_urng q r ≡ true
    → Share InUrng InUrng q r
unfolding urng_intersect_urng
urng_meet q r hq hr h = (upper_of (pos q.lower) (pos r.lower), ground arith, ground arith)

urng_met : (q r : Urng) → Share InUrng InUrng q r → urng_intersect_urng q r ≡ true
unfolding urng_intersect_urng
urng_met q r (x, a, b) = ground arith

mixed_meet :
    (q : Urng) (r : Srng)
    → q.lower ≤ q.upper
    → r.lower ≤ℤ r.upper
    → ltb_ℤ r.upper (pos 0) ≡ false
    → urng_intersect_urng q (to_urng r) ≡ true
    → Share InUrng InSrng q r
unfolding urng_intersect_urng
mixed_meet q r hq hr n h = (upper_of (pos q.lower) r.lower, ground arith, ground arith)

mixed_met :
    (q : Urng) (r : Srng)
    → Share InUrng InSrng q r
    → (ltb_ℤ r.upper (pos 0) ≡ false) × (urng_intersect_urng q (to_urng r) ≡ true)
unfolding urng_intersect_urng
mixed_met q r (x, a, b) = ground arith

module _ {A B : Type 0} (P : ℤ → A → Type 0) (Q : ℤ → B → Type 0) where
  row : (a : A) (bs : List B) → Any (λ b. Share P Q a b) bs → (x : ℤ) × P x a × Any (Q x) bs
  row a [] h = elim h [ ]
  row a (b ∷ bs) (inl (x, p, q)) = (x, p, inl q)
  row a (b ∷ bs) (inr h) = let (x, p, q) = row a bs h in (x, p, inr q)

  shared :
      (rest : List A) (bs : List B)
      → Any (λ a. Any (λ b. Share P Q a b) bs) rest
      → (x : ℤ) × Any (P x) rest × Any (Q x) bs
  shared [] bs h = elim h [ ]
  shared (a ∷ rest) bs (inl h) = let (x, p, q) = row a bs h in (x, inl p, q)
  shared (a ∷ rest) bs (inr h) = let (x, p, q) = shared rest bs h in (x, inr p, q)

  in_row : (x : ℤ) (a : A) (bs : List B) → P x a → Any (Q x) bs → Any (λ b. Share P Q a b) bs
  in_row x a [] p h = h
  in_row x a (b ∷ bs) p (inl q) = inl (x, p, q)
  in_row x a (b ∷ bs) p (inr h) = inr (in_row x a bs p h)

  in_table :
      (x : ℤ) (rest : List A) (bs : List B)
      → Any (P x) rest
      → Any (Q x) bs
      → Any (λ a. Any (λ b. Share P Q a b) bs) rest
  in_table x [] bs h k = h
  in_table x (a ∷ rest) bs (inl p) k = inl (in_row x a bs p k)
  in_table x (a ∷ rest) bs (inr h) k = inr (in_table x rest bs h k)

  -- The outer loop, whose test of an entry stands for an overlap with the other set.
  loop :
      (test : A → Bool) (R : A → Type 0) (bs : List B)
      → ((a : A) → R a → test a ≡ true → Any (λ b. Share P Q a b) bs)
      → ((a : A) → Any (λ b. Share P Q a b) bs → test a ≡ true)
      → (rest : List A) → All R rest
      → (any test rest ≡ true) ↔ ((x : ℤ) × Any (P x) rest × Any (Q x) bs)
  loop test R bs f g rest rs = (
    λ h.
        shared rest bs (Any-map _ _ R f rest rs (any→Any _ (λ a. test a ≡ true) (λ a e. e) rest h)),
    λ (x, p, q). Any→any _ _ g rest (in_table x rest bs p q),
  )

swap_sets :
    {A B : Type 0} (P : ℤ → A → Type 0) (Q : ℤ → B → Type 0) (rest : List A) (bs : List B)
    → ((x : ℤ) × Any (P x) rest × Any (Q x) bs)
    → (x : ℤ) × Any (Q x) bs × Any (P x) rest
swap_sets P Q rest bs (x, p, q) = (x, q, p)

Any-flip :
    {A B : Type 0} (P : ℤ → A → Type 0) (Q : ℤ → B → Type 0) (a : A) (bs : List B)
    → Any (λ b. Share Q P b a) bs
    → Any (λ b. Share P Q a b) bs
Any-flip P Q a [] h = h
Any-flip P Q a (b ∷ bs) (inl (x, q, p)) = inl (x, p, q)
Any-flip P Q a (b ∷ bs) (inr h) = inr (Any-flip P Q a bs h)

Any-unflip :
    {A B : Type 0} (P : ℤ → A → Type 0) (Q : ℤ → B → Type 0) (a : A) (bs : List B)
    → Any (λ b. Share P Q a b) bs
    → Any (λ b. Share Q P b a) bs
Any-unflip P Q a [] h = h
Any-unflip P Q a (b ∷ bs) (inl (x, p, q)) = inl (x, q, p)
Any-unflip P Q a (b ∷ bs) (inr h) = inr (Any-unflip P Q a bs h)

srng_set_met :
    (bs : List Srng) (r : Srng)
    → Any (λ q. Share InSrng InSrng r q) bs
    → srng_set_intersect_srng bs r ≡ true
unfolding srng_set_intersect_srng
srng_set_met bs r h = Any→any _ _ (λ q s. srng_met q r s) bs (Any-unflip InSrng InSrng r bs h)

srng_set_meet :
    (bs : List Srng) (r : Srng)
    → All (λ q. q.lower ≤ℤ q.upper) bs
    → r.lower ≤ℤ r.upper
    → srng_set_intersect_srng bs r ≡ true
    → Any (λ q. Share InSrng InSrng r q) bs
unfolding srng_set_intersect_srng
srng_set_meet bs r hs hr h = Any-flip InSrng InSrng r bs (
    Any-map _ _ _ (λ q hq e. srng_meet q r hq hr e) bs hs
      (any→Any _ (λ q. srng_intersect_srng q r ≡ true) (λ q e. e) bs h))

urng_set_met :
    (bs : List Urng) (r : Urng)
    → Any (λ q. Share InUrng InUrng r q) bs
    → urng_set_intersect_urng bs r ≡ true
unfolding urng_set_intersect_urng
urng_set_met bs r h = Any→any _ _ (λ q s. urng_met q r s) bs (Any-unflip InUrng InUrng r bs h)

urng_set_meet :
    (bs : List Urng) (r : Urng)
    → All (λ q. q.lower ≤ q.upper) bs
    → r.lower ≤ r.upper
    → urng_set_intersect_urng bs r ≡ true
    → Any (λ q. Share InUrng InUrng r q) bs
unfolding urng_set_intersect_urng
urng_set_meet bs r hs hr h = Any-flip InUrng InUrng r bs (
    Any-map _ _ _ (λ q hq e. urng_meet q r hq hr e) bs hs
      (any→Any _ (λ q. urng_intersect_urng q r ≡ true) (λ q e. e) bs h))

not_negative :
    (bs : List Urng) (r : Srng)
    → Any (λ q. Share InUrng InSrng q r) bs
    → ltb_ℤ r.upper (pos 0) ≡ false
not_negative [] r h = elim h [ ]
not_negative (q ∷ bs) r (inl s) = let (n, e) = mixed_met q r s in n
not_negative (q ∷ bs) r (inr h) = not_negative bs r h

mixed_set_met :
    (bs : List Urng) (r : Srng)
    → Any (λ q. Share InSrng InUrng r q) bs
    → urng_set_intersect_srng bs r ≡ true
unfolding urng_set_intersect_srng urng_set_intersect_urng
mixed_set_met bs r h =
    let k = Any-unflip InSrng InUrng r bs h in
    rw (not_negative bs r k) (Any→any _ _ (λ q s. let (n, e) = mixed_met q r s in e) bs k)

mixed_set_meet :
    (bs : List Urng) (r : Srng)
    → All (λ q. q.lower ≤ q.upper) bs
    → r.lower ≤ℤ r.upper
    → urng_set_intersect_srng bs r ≡ true
    → Any (λ q. Share InSrng InUrng r q) bs
unfolding urng_set_intersect_srng urng_set_intersect_urng
mixed_set_meet bs r hs hr h = elim (Bool-cases (ltb_ℤ r.upper (pos 0))) [
  | inl neg ↦ absurd (ground arith)
  | inr n ↦ Any-flip InSrng InUrng r bs (
      Any-map _ _ _ (λ q hq e. mixed_meet q r hq hr n e) bs hs
        (any→Any _ (λ q. urng_intersect_urng q (to_urng r) ≡ true) (λ q e. e) bs (rw n at h)))
]

-- Two sets of ranges that are not empty, over either type, are found to overlap exactly if some integer lies in both.
pub rng_set_intersect_rng_set_iff :
    (a b : RngSet)
    → IsSound a
    → IsSound b
    → (rng_set_intersect_rng_set a b ≡ true) ↔ ((x : ℤ) × In x a × In x b)
unfolding rng_set_intersect_rng_set
rng_set_intersect_rng_set_iff (sint a) (sint b) ha hb =
    loop InSrng InSrng _ _ b (λ r hr. srng_set_meet b r hb hr) (srng_set_met b) a ha
rng_set_intersect_rng_set_iff (uint a) (uint b) ha hb =
    loop InUrng InUrng _ _ b (λ r hr. urng_set_meet b r hb hr) (urng_set_met b) a ha
rng_set_intersect_rng_set_iff (sint a) (uint b) ha hb =
    loop InSrng InUrng _ _ b (λ r hr. mixed_set_meet b r hb hr) (mixed_set_met b) a ha
rng_set_intersect_rng_set_iff (uint a) (sint b) ha hb =
    let (to, from) =
      loop InSrng InUrng _ _ a (λ r hr. mixed_set_meet a r ha hr) (mixed_set_met a) b hb in
    (λ h. swap_sets InSrng InUrng b a (to h), λ h. from (swap_sets InUrng InSrng a b h))
