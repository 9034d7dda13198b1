-- ===== src/Mappings/Sorted.antt =====
-- The order of the ranges, once they are sorted.
use actf.Common.{
  ℕ, ◌+◌, ◌^◌, ◌≤◌, ◌<◌, ◌≡◌, refl, ap, ◌∙◌, Bool, Bool-cases, inl, inr, true, List, [], ◌∷◌,
  if◌then◌else◌, leb, arith,
}
use actf.Common.Lists.{any, All}
use actf.Common.Int.{ℤ, pos, leb_ℤ}
use actf.Rng.{Urng}
use actf.Mappings.{urng_cmp, insert, qsort}

-- The lower bounds ascend.
abbrev pub Sorted : List Urng → Type 0
Sorted [] = Unit {0}
Sorted (x ∷ xs) = All (λ y. x.lower ≤ y.lower) xs × Sorted xs

-- The range is not empty, and its lower bound is less than 2^31 behind the base.
abbrev pub Near : ℕ → Urng → Type 0
Near base r = (r.lower ≤ r.upper) × (base ≤ r.lower) × (r.lower < base + 2 ^ 31)

cmp-le :
    (base : ℕ) (x y : Urng)
    → Near base x
    → Near base y
    → leb_ℤ (urng_cmp x y) (pos 0) ≡ leb x.lower y.lower
unfolding urng_cmp
cmp-le base x y (p, q, r) (s, t, u) = ground arith

insert-All :
    (P : Urng → Type 0) (cmp : Urng → Urng → ℤ) (x : Urng) (ys : List Urng)
    → P x
    → All P ys
    → All P (insert cmp x ys)
unfolding insert
insert-All P cmp x [] p ps = (p, tt)
insert-All P cmp x (y ∷ ys) p (q, qs) = elim (Bool-cases (leb_ℤ (cmp x y) (pos 0))) [
  | inl e ↦ rw e (p, (q, qs))
  | inr e ↦ rw e (q, insert-All P cmp x ys p qs)
]

pub qsort-All :
    (P : Urng → Type 0) (cmp : Urng → Urng → ℤ) (xs : List Urng) → All P xs → All P (qsort cmp xs)
unfolding qsort
qsort-All P cmp [] ps = tt
qsort-All P cmp (x ∷ xs) (p, ps) = insert-All P cmp x (qsort cmp xs) p (qsort-All P cmp xs ps)

lower_bound :
    (a b : ℕ) (ys : List Urng) → a ≤ b → All (λ y. b ≤ y.lower) ys → All (λ y. a ≤ y.lower) ys
lower_bound a b [] l h = tt
lower_bound a b (y ∷ ys) l (h, hs) = (omega arith, lower_bound a b ys l hs)

insert-Sorted :
    (base : ℕ) (x : Urng) (ys : List Urng)
    → Near base x
    → All (Near base) ys
    → Sorted ys
    → Sorted (insert urng_cmp x ys)
unfolding insert
insert-Sorted base x [] n ns s = (tt, tt)
insert-Sorted base x (y ∷ ys) n (m, ms) (l, s) = elim (Bool-cases (leb x.lower y.lower)) [
  | inl e ↦
      let le : x.lower ≤ y.lower = ground arith in
      rw (cmp-le base x y n m, e) ((le, lower_bound x.lower y.lower ys le l), (l, s))
  | inr e ↦
      rw (cmp-le base x y n m, e)
        (
          insert-All (λ z. y.lower ≤ z.lower) urng_cmp x ys (ground arith) l,
          insert-Sorted base x ys n ms s,
        )
]

pub qsort-Sorted : (base : ℕ) (xs : List Urng) → All (Near base) xs → Sorted (qsort urng_cmp xs)
unfolding qsort
qsort-Sorted base [] ns = tt
qsort-Sorted base (x ∷ xs) (n, ns) =
    insert-Sorted base x (qsort urng_cmp xs) n (qsort-All (Near base) urng_cmp xs ns)
      (qsort-Sorted base xs ns)

any-insert :
    (p : Urng → Bool) (cmp : Urng → Urng → ℤ) (x : Urng) (ys : List Urng)
    → any p (insert cmp x ys) ≡ any p (x ∷ ys)
unfolding insert
any-insert p cmp x [] = refl
any-insert p cmp x (y ∷ ys) = elim (Bool-cases (leb_ℤ (cmp x y) (pos 0))) [
  | inl e ↦ rw e refl
  | inr e ↦ rw e (ground (arith, any-insert p cmp x ys))
]

pub any-qsort :
    (p : Urng → Bool) (cmp : Urng → Urng → ℤ) (xs : List Urng) → any p (qsort cmp xs) ≡ any p xs
unfolding qsort
any-qsort p cmp [] = refl
any-qsort p cmp (x ∷ xs) =
    any-insert p cmp x (qsort cmp xs) ∙ ap (λ b. if p x then true else b) (any-qsort p cmp xs)
