-- ===== src/Muxer/Merge.antt =====
-- Merging the events of several sources by their time stamps.
use mathlib.Core.Path.{subst}
use mathlib.Core.List.{Perm, perm_middle, cons≢nil}
use mathlib.Core.List.Perm
use actf.Common.{
  ℕ, zero, suc, ◌<◌, ◌≡◌, refl, sym, ap, ◌∙◌, inl, inr, Bool-cases, ◌==◌, List, [], ◌∷◌, ◌++◌,
  arith,
}
use actf.Common.Int.{ℤ, ◌≤ℤ◌}
use actf.Common.Lists.{All}
use actf.Common.Writes.{write}
use actf.EventGenerator.{InOrder}

module _ {Ev : Type 0} (tstamp : Ev → ℤ) (n : ℕ) where
  -- The sources `i` below `n` agree.
  abbrev pub Same : (ℕ → List Ev) → (ℕ → List Ev) → Type 0
  Same a b = (i : ℕ) → i < n → a i ≡ b i

  -- No event of a source is before `ev`.
  abbrev pub IsLeast : Ev → (ℕ → List Ev) → Type 0
  IsLeast ev left = (i : ℕ) → i < n → All (λ x. tstamp ev ≤ℤ tstamp x) (left i)

  -- Of the sources' events the given ones are taken in turn, each the first event of a source and
  -- at least as early as any event that is left, and the others stay.
  pub data Merges : (ℕ → List Ev) → List Ev → (ℕ → List Ev) → Type 0 where
    stop : {left after : ℕ → List Ev} → Same left after → Merges left [] after
    next :
        {left after : ℕ → List Ev} {evs : List Ev} (i : ℕ) (ev : Ev) (rest : List Ev)
        → i < n
        → left i ≡ ev ∷ rest
        → IsLeast ev left
        → Merges (write left i rest) evs after
        → Merges left (ev ∷ evs) after

  pub Merges-from :
      {left before after : ℕ → List Ev} {evs : List Ev}
      → Same before left
      → Merges left evs after
      → Merges before evs after
  Merges-from s (stop t) = stop (λ i l. s i l ∙ t i l)
  Merges-from {left} {before} s (next i ev rest l e least m) =
      next i ev rest l (s i l ∙ e)
        (λ j k. subst (λ xs. All (λ x. tstamp ev ≤ℤ tstamp x) xs) (sym (s j k)) (least j k))
        (Merges-from
          (λ j k. elim (Bool-cases (i == j)) [ inl d ↦ rw d refl | inr d ↦ rw d (s j k) ]) m)

  pub Merges-none :
      {left after : ℕ → List Ev} {evs : List Ev}
      → Merges left evs after
      → evs ≡ []
      → Same left after
  Merges-none (stop s) e = s
  Merges-none (next i ev rest l f least m) e = absurd (cons≢nil e)

  pub Merges-append :
      {left mid after : ℕ → List Ev} {xs ys : List Ev}
      → Merges left xs mid
      → Merges mid ys after
      → Merges left (xs ++ ys) after
  Merges-append (stop s) m = Merges-from s m
  Merges-append (next i ev rest l e least k) m = next i ev rest l e least (Merges-append k m)

  write-All :
      (P : Ev → Type 0) (left : ℕ → List Ev) (i : ℕ) (ev : Ev) (rest : List Ev)
      → i < n
      → left i ≡ ev ∷ rest
      → ((j : ℕ) → j < n → All P (left j))
      → (j : ℕ) → j < n
      → All P (write left i rest j)
  write-All P left i ev rest l e a j k = elim (Bool-cases (i == j)) [
    | inl d ↦ rw d (subst (λ xs. All P xs) e (a i l)).1
    | inr d ↦ rw d (a j k)
  ]

  Merges-All :
      (P : Ev → Type 0) {left after : ℕ → List Ev} {evs : List Ev}
      → Merges left evs after
      → ((i : ℕ) → i < n → All P (left i))
      → All P evs
  Merges-All P (stop s) a = tt
  Merges-All P {left} (next i ev rest l e least m) a =
      ((subst (λ xs. All P xs) e (a i l)).0, Merges-All P m (write-All P left i ev rest l e a))

  -- What comes out of sources in order is in order.
  pub Merges-InOrder :
      {left after : ℕ → List Ev} {evs : List Ev}
      → Merges left evs after
      → ((i : ℕ) → i < n → InOrder tstamp (left i))
      → InOrder tstamp evs
  unfolding InOrder
  Merges-InOrder (stop s) o = tt
  Merges-InOrder {left} (next i ev rest l e least m) o =
      let (max, a, r) = subst (InOrder tstamp) e (o i l) in
      (
        max,
        Merges-All (λ x. tstamp ev ≤ℤ tstamp x) m (write-All _ left i ev rest l e least),
        Merges-InOrder m
            (λ j k. elim (Bool-cases (i == j)) [ inl d ↦ rw d r | inr d ↦ rw d (o j k) ]),
      )

module _ {Ev : Type 0} where
  -- The events of the sources below `n`, one source after another.
  unfoldable pub flat : (ℕ → List Ev) → ℕ → List Ev
  flat left zero = []
  flat left (suc n) = left n ++ flat left n

  pub flat_ext : (a b : ℕ → List Ev) (n : ℕ) → ((i : ℕ) → i < n → a i ≡ b i) → flat a n ≡ flat b n
  unfolding flat
  flat_ext a b zero h = refl
  flat_ext a b (suc n) h = rw (h n (omega arith), flat_ext a b n (λ i l. h i (omega arith))) refl

  flat-write :
      (left : ℕ → List Ev) (n i : ℕ) (ev : Ev) (rest : List Ev)
      → i < n
      → left i ≡ ev ∷ rest
      → Perm (flat left n) (ev ∷ flat (write left i rest) n)
  unfolding flat
  flat-write left zero i ev rest l e = absurd (omega arith)
  flat-write left (suc n) i ev rest l e = elim (Bool-cases (i == n)) [
    | inl d ↦
        let same : n ≡ i = ground arith in
        let others : flat (write left i rest) n ≡ flat left n =
          flat_ext _ _ n (λ j k. ground arith) in
        rw (d, ap left same ∙ e, others) Perm.rfl
    | inr d ↦
        let below = flat-write left n i ev rest (ground arith) e in
        rw d (Perm.trans (Perm.append_left (left n) below) (perm_middle (left n) _))
  ]

  pub Merges-Perm :
      (tstamp : Ev → ℤ) (n : ℕ) {left after : ℕ → List Ev} {evs : List Ev}
      → Merges tstamp n left evs after
      → Perm (flat left n) (evs ++ flat after n)
  Merges-Perm tstamp n (Merges.stop s) = rw (flat_ext _ _ n s) Perm.rfl
  Merges-Perm tstamp n {left} (Merges.next i ev rest l e least m) =
      Perm.trans (flat-write left n i ev rest l e) (Perm.cons ev (Merges-Perm tstamp n m))

  pub flat_none : (n : ℕ) → flat (λ i. []) n ≡ []
  unfolding flat
  flat_none zero = refl
  flat_none (suc n) = flat_none n
