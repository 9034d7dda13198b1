-- ===== src/Filter/Events.antt =====
-- Events in order, and those of them that lie in a range.
use actf.Common.{
  ◌≡◌, refl, sym, ap, ◌∙◌, Bool, Bool-cases, inl, inr, true, false, ◌&&◌, List, [], ◌∷◌, ◌++◌,
  arith,
}
use actf.Common.Lists.{All}
use actf.Common.Int.{ℤ, ◌≤ℤ◌, ◌<ℤ◌, leb_ℤ, int64_max}
use actf.EventGenerator.{keep, from, until, InOrder}
use actf.Filter.{cut}

module _ {Ev : Type 0} (tstamp : Ev → ℤ) where
  pub keep-append :
      (p : Ev → Bool) (xs ys : List Ev)
      → keep tstamp p (xs ++ ys) ≡ keep tstamp p xs ++ keep tstamp p ys
  unfolding keep
  keep-append p [] ys = refl
  keep-append p (x ∷ xs) ys = elim (Bool-cases (p x)) [
    | inl e ↦ rw e (ap (λ t. x ∷ t) (keep-append p xs ys))
    | inr e ↦ rw e (keep-append p xs ys)
  ]

  -- After an event that is past the end every event is.
  until_past :
      (end : ℤ) (x : Ev) (xs : List Ev)
      → end <ℤ tstamp x
      → All (λ y. tstamp x ≤ℤ tstamp y) xs
      → until tstamp end xs ≡ []
  unfolding keep
  until_past end x [] h a = refl
  until_past end x (y ∷ ys) h (b, a) =
      let out : leb_ℤ (tstamp y) end ≡ false = ground arith in rw out (until_past end x ys h a)

  pub cut-until :
      (end : ℤ) (xs : List Ev) → InOrder tstamp xs → cut tstamp end xs ≡ until tstamp end xs
  unfolding cut keep InOrder
  cut-until end [] o = refl
  cut-until end (x ∷ xs) (m, a, o) = elim (Bool-cases (leb_ℤ (tstamp x) end)) [
    | inl e ↦ rw e (ap (λ t. x ∷ t) (cut-until end xs o))
    | inr e ↦ rw e (sym (until_past end x xs (ground arith) a))
  ]

  pub past-until :
      (end : ℤ) (x : Ev) (xs : List Ev)
      → InOrder tstamp (x ∷ xs)
      → leb_ℤ (tstamp x) end ≡ false
      → until tstamp end (x ∷ xs) ≡ []
  unfolding InOrder keep
  past-until end x xs (m, a, o) e = rw e (until_past end x xs (ground arith) a)

  pub until-all :
      (end : ℤ) (xs : List Ev) → int64_max ≤ℤ end → InOrder tstamp xs → until tstamp end xs ≡ xs
  unfolding keep InOrder
  until-all end [] h o = refl
  until-all end (x ∷ xs) h (m, a, o) =
      let within : leb_ℤ (tstamp x) end ≡ true = ground arith in
      rw within (ap (λ t. x ∷ t) (until-all end xs h o))

  All-append_left : (P : Ev → Type 0) (xs ys : List Ev) → All P (xs ++ ys) → All P xs
  All-append_left P [] ys h = tt
  All-append_left P (x ∷ xs) ys (p, h) = (p, All-append_left P xs ys h)

  pub InOrder-append_left : (xs ys : List Ev) → InOrder tstamp (xs ++ ys) → InOrder tstamp xs
  unfolding InOrder
  InOrder-append_left [] ys o = tt
  InOrder-append_left (x ∷ xs) ys (m, a, o) =
      (m, All-append_left _ xs ys a, InOrder-append_left xs ys o)

  All-keep : (P : Ev → Type 0) (p : Ev → Bool) (xs : List Ev) → All P xs → All P (keep tstamp p xs)
  unfolding keep
  All-keep P p [] h = tt
  All-keep P p (x ∷ xs) (q, h) = elim (Bool-cases (p x)) [
    | inl e ↦ rw e (q, All-keep P p xs h)
    | inr e ↦ rw e (All-keep P p xs h)
  ]

  pub keep-InOrder :
      (p : Ev → Bool) (xs : List Ev) → InOrder tstamp xs → InOrder tstamp (keep tstamp p xs)
  unfolding keep InOrder
  keep-InOrder p [] o = tt
  keep-InOrder p (x ∷ xs) (m, a, o) = elim (Bool-cases (p x)) [
    | inl e ↦ rw e (m, All-keep _ p xs a, keep-InOrder p xs o)
    | inr e ↦ rw e (keep-InOrder p xs o)
  ]

  keep-keep :
      (p q : Ev → Bool) (xs : List Ev)
      → keep tstamp p (keep tstamp q xs) ≡ keep tstamp (λ x. q x && p x) xs
  unfolding keep
  keep-keep p q [] = refl
  keep-keep p q (x ∷ xs) = elim (Bool-cases (q x)) [
    | inl e ↦ rw e (elim (Bool-cases (p x)) [
      | inl d ↦ rw d (ap (λ t. x ∷ t) (keep-keep p q xs))
      | inr d ↦ rw d (keep-keep p q xs)
    ])
    | inr e ↦ rw e (keep-keep p q xs)
  ]

  keep-ext :
      (p q : Ev → Bool) (xs : List Ev)
      → ((x : Ev) → p x ≡ q x)
      → keep tstamp p xs ≡ keep tstamp q xs
  unfolding keep
  keep-ext p q [] h = refl
  keep-ext p q (x ∷ xs) h = rw (h x, keep-ext p q xs h) refl

  keep_none : (xs : List Ev) → keep tstamp (λ x. false) xs ≡ []
  unfolding keep
  keep_none [] = refl
  keep_none (x ∷ xs) = keep_none xs

  module _ (begin end t : ℤ) (xs : List Ev) where
    abbrev pub in_range : List Ev
    in_range = until tstamp end (from tstamp begin xs)

    pub from-early : t <ℤ begin → in_range ≡ from tstamp t in_range
    from-early h =
        keep-keep _ _ xs
        ∙ keep-ext _ _ xs (λ x. ground arith)
        ∙ sym (ap (from tstamp t) (keep-keep _ _ xs) ∙ keep-keep _ _ xs)

    pub from-late : begin ≤ℤ t → until tstamp end (from tstamp t xs) ≡ from tstamp t in_range
    from-late h =
        keep-keep _ _ xs
        ∙ keep-ext _ _ xs (λ x. ground arith)
        ∙ sym (ap (from tstamp t) (keep-keep _ _ xs) ∙ keep-keep _ _ xs)

    pub from-beyond : end <ℤ t → [] ≡ from tstamp t in_range
    from-beyond h = sym (
        ap (from tstamp t) (keep-keep _ _ xs)
        ∙ keep-keep _ _ xs
        ∙ keep-ext _ (λ x. false) xs (λ x. ground arith)
        ∙ keep_none xs)

    -- From the begin of the range on.
    pub from-begin : in_range ≡ from tstamp begin in_range
    from-begin =
        keep-keep _ _ xs
        ∙ keep-ext _ _ xs (λ x. ground arith)
        ∙ sym (ap (from tstamp begin) (keep-keep _ _ xs) ∙ keep-keep _ _ xs)
