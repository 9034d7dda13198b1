-- ===== src/Decoder/Field/Decode/Frame.antt =====
-- The tree of fields that a class stands for, and what a call leaves alone.
use mathlib.Core.Path.{subst}
use actf.Common.{ℕ, suc, ◌+◌, ◌≤◌, ◌<◌, ◌≡◌, sym, ap, ◌∙◌, ◌⊎◌, inl, inr, some, arith}
use actf.Decoder.Scalar.{Fld, nil}
use actf.Decoder.FldCls.{
  FldCls, MemberClses, no_more, member, Opts, no_opt, opt, nil_cls, bit_arr_cls, bit_map_cls,
  sint_cls, bool_cls, float_cls, uint_cls, var_uint_cls, var_sint_cls, null_term_str_cls,
  static_len_str_cls, dyn_len_str_cls, static_len_blob_cls, dyn_len_blob_cls, struct_cls,
  static_len_arr_cls, dyn_len_arr_cls, optional_cls, variant_cls,
}
use actf.Decoder.Field.{leaf, struct_, arr, Field}
use actf.Decoder.Field.Decode.Kinds.{
  Kind, of_uint, of_sint, of_bool, of_bit_map, of_real, of_str, of_blob, IsOf,
}

-- A field with its class and a value of the kind.
pub record IsLeaf (k : Kind) (cls : FldCls) (f : Field) : Type 0 where
  pub fld : Fld
  pub value : f.value ≡ leaf fld
  pub kind : IsOf k fld
  pub classed : f.cls ≡ some cls

-- A structure or an array with its class, whose parts begin at `vals`.
abbrev pub IsStructAt : ℕ → FldCls → Field → Type 0
IsStructAt vals cls f = (f.value ≡ struct_ vals) × (f.cls ≡ some cls)

abbrev pub IsArrAt : ℕ → ℕ → FldCls → Field → Type 0
IsArrAt vals n cls f = (f.value ≡ arr vals n) × (f.cls ≡ some cls)

abbrev pub IsAbsent : FldCls → Field → Type 0
IsAbsent cls f = (f.value ≡ leaf nil) × (f.cls ≡ some cls)

-- The field at `a` and its parts, whose addresses are from `lo` on and below `hi`, are as the class
-- has it: kinds of values, members and elements one by one, each with its parent. An optional field
-- is absent or of the class; a variant is of one of the classes.
unfoldable mutual
  pub Conforms : FldCls → (ℕ → Field) → (a lo hi : ℕ) → Type 0
  Conforms nil_cls st a lo hi = ⊥
  Conforms (bit_arr_cls c) st a lo hi = IsLeaf of_uint (bit_arr_cls c) (st a)
  Conforms (bit_map_cls c) st a lo hi = IsLeaf of_bit_map (bit_map_cls c) (st a)
  Conforms (uint_cls c roles) st a lo hi = IsLeaf of_uint (uint_cls c roles) (st a)
  Conforms (sint_cls c) st a lo hi = IsLeaf of_sint (sint_cls c) (st a)
  Conforms (bool_cls c) st a lo hi = IsLeaf of_bool (bool_cls c) (st a)
  Conforms (float_cls c) st a lo hi = IsLeaf of_real (float_cls c) (st a)
  Conforms (var_uint_cls roles) st a lo hi = IsLeaf of_uint (var_uint_cls roles) (st a)
  Conforms var_sint_cls st a lo hi = IsLeaf of_sint var_sint_cls (st a)
  Conforms (null_term_str_cls enc) st a lo hi = IsLeaf of_str (null_term_str_cls enc) (st a)
  Conforms (static_len_str_cls n enc) st a lo hi = IsLeaf of_str (static_len_str_cls n enc) (st a)
  Conforms (dyn_len_str_cls loc enc) st a lo hi = IsLeaf of_str (dyn_len_str_cls loc enc) (st a)
  Conforms (static_len_blob_cls n roles) st a lo hi =
      IsLeaf of_blob (static_len_blob_cls n roles) (st a)
  Conforms (dyn_len_blob_cls loc) st a lo hi = IsLeaf of_blob (dyn_len_blob_cls loc) (st a)
  Conforms (struct_cls align ms) st a lo hi =
      (vals : ℕ) × IsStructAt vals (struct_cls align ms) (st a) × MembersConform ms st a vals lo hi
  Conforms (static_len_arr_cls min_align n ele) st a lo hi =
      (vals : ℕ) × IsArrAt vals n (static_len_arr_cls min_align n ele) (st a)
      × ((i : ℕ)
          → i < n
          → (lo ≤ vals + i)
            × (vals + i < hi)
            × ((st (vals + i)).parent ≡ (st a).parent)
            × Conforms ele st (vals + i) lo hi)
  Conforms (dyn_len_arr_cls min_align loc ele) st a lo hi =
      (vals : ℕ) × (n : ℕ) × IsArrAt vals n (dyn_len_arr_cls min_align loc ele) (st a)
      × ((i : ℕ)
          → i < n
          → (lo ≤ vals + i)
            × (vals + i < hi)
            × ((st (vals + i)).parent ≡ (st a).parent)
            × Conforms ele st (vals + i) lo hi)
  Conforms (optional_cls loc rngs cls) st a lo hi =
      IsAbsent (optional_cls loc rngs cls) (st a) ⊎ Conforms cls st a lo hi
  Conforms (variant_cls loc opts) st a lo hi = OneConforms opts st a lo hi

  -- The members are the fields from `b` on.
  pub MembersConform : MemberClses → (ℕ → Field) → (a b lo hi : ℕ) → Type 0
  MembersConform no_more st a b lo hi = Unit {0}
  MembersConform (member name cls rest) st a b lo hi =
      (lo ≤ b)
      × (b < hi)
      × ((st b).parent ≡ some a)
      × Conforms cls st b lo hi
      × MembersConform rest st a (suc b) lo hi

  pub OneConforms : Opts → (ℕ → Field) → (a lo hi : ℕ) → Type 0
  OneConforms no_opt st a lo hi = ⊥
  OneConforms (opt rngs cls rest) st a lo hi = Conforms cls st a lo hi ⊎ OneConforms rest st a lo hi

-- A store that agrees on the field and its parts, in a wider range.
pub record Agrees (st st' : ℕ → Field) (lo hi lo' hi' : ℕ) : Type 0 where
  pub below : lo' ≤ lo
  pub above : hi ≤ hi'
  pub inside : (c : ℕ) → lo ≤ c → c < hi → st' c ≡ st c

IsLeaf-agree : {k : Kind} {cls : FldCls} {f f' : Field} → f' ≡ f → IsLeaf k cls f → IsLeaf k cls f'
IsLeaf-agree {k} {cls} e h = subst (IsLeaf k cls) (sym e) h

mutual
  unfolding Conforms

  pub Conforms-agree :
      (cls : FldCls) (st st' : ℕ → Field) (a lo hi lo' hi' : ℕ)
      → Agrees st st' lo hi lo' hi'
      → st' a ≡ st a
      → Conforms cls st a lo hi
      → Conforms cls st' a lo' hi'
  Conforms-agree nil_cls st st' a lo hi lo' hi' g e k = k
  Conforms-agree (bit_arr_cls c) st st' a lo hi lo' hi' g e k = IsLeaf-agree e k
  Conforms-agree (bit_map_cls c) st st' a lo hi lo' hi' g e k = IsLeaf-agree e k
  Conforms-agree (uint_cls c roles) st st' a lo hi lo' hi' g e k = IsLeaf-agree e k
  Conforms-agree (sint_cls c) st st' a lo hi lo' hi' g e k = IsLeaf-agree e k
  Conforms-agree (bool_cls c) st st' a lo hi lo' hi' g e k = IsLeaf-agree e k
  Conforms-agree (float_cls c) st st' a lo hi lo' hi' g e k = IsLeaf-agree e k
  Conforms-agree (var_uint_cls roles) st st' a lo hi lo' hi' g e k = IsLeaf-agree e k
  Conforms-agree var_sint_cls st st' a lo hi lo' hi' g e k = IsLeaf-agree e k
  Conforms-agree (null_term_str_cls enc) st st' a lo hi lo' hi' g e k = IsLeaf-agree e k
  Conforms-agree (static_len_str_cls n enc) st st' a lo hi lo' hi' g e k = IsLeaf-agree e k
  Conforms-agree (dyn_len_str_cls loc enc) st st' a lo hi lo' hi' g e k = IsLeaf-agree e k
  Conforms-agree (static_len_blob_cls n roles) st st' a lo hi lo' hi' g e k = IsLeaf-agree e k
  Conforms-agree (dyn_len_blob_cls loc) st st' a lo hi lo' hi' g e k = IsLeaf-agree e k
  Conforms-agree (struct_cls align ms) st st' a lo hi lo' hi' g e (vals, h, k) = (
    vals,
    subst (IsStructAt vals (struct_cls align ms)) (sym e) h,
    MembersConform-agree ms st st' a vals lo hi lo' hi' g k,
  )
  Conforms-agree (static_len_arr_cls min_align n ele) st st' a lo hi lo' hi' g e (vals, h, k) = (
    vals,
    subst (IsArrAt vals n (static_len_arr_cls min_align n ele)) (sym e) h,
    λ i l.
        let (p, q, r, c) = k i l in
        let same = g.inside (vals + i) p q in
        (
          omega (arith, p, g.below),
          omega (arith, q, g.above),
          ap (λ f. f.parent) same ∙ r ∙ sym (ap (λ f. f.parent) e),
          Conforms-agree ele st st' (vals + i) lo hi lo' hi' g same c,
        ),
  )
  Conforms-agree (dyn_len_arr_cls min_align loc ele) st st' a lo hi lo' hi' g e (vals, n, h, k) = (
    vals,
    n,
    subst (IsArrAt vals n (dyn_len_arr_cls min_align loc ele)) (sym e) h,
    λ i l.
        let (p, q, r, c) = k i l in
        let same = g.inside (vals + i) p q in
        (
          omega (arith, p, g.below),
          omega (arith, q, g.above),
          ap (λ f. f.parent) same ∙ r ∙ sym (ap (λ f. f.parent) e),
          Conforms-agree ele st st' (vals + i) lo hi lo' hi' g same c,
        ),
  )
  Conforms-agree (optional_cls loc rngs cls) st st' a lo hi lo' hi' g e (inl h) =
      inl (subst (IsAbsent (optional_cls loc rngs cls)) (sym e) h)
  Conforms-agree (optional_cls loc rngs cls) st st' a lo hi lo' hi' g e (inr k) =
      inr (Conforms-agree cls st st' a lo hi lo' hi' g e k)
  Conforms-agree (variant_cls loc opts) st st' a lo hi lo' hi' g e k =
      OneConforms-agree opts st st' a lo hi lo' hi' g e k

  pub MembersConform-agree :
      (ms : MemberClses) (st st' : ℕ → Field) (a b lo hi lo' hi' : ℕ)
      → Agrees st st' lo hi lo' hi'
      → MembersConform ms st a b lo hi
      → MembersConform ms st' a b lo' hi'
  MembersConform-agree no_more st st' a b lo hi lo' hi' g k = tt
  MembersConform-agree (member name cls rest) st st' a b lo hi lo' hi' g (p, q, r, c, k) =
      let same = g.inside b p q in
      (
        omega (arith, p, g.below),
        omega (arith, q, g.above),
        ap (λ f. f.parent) same ∙ r,
        Conforms-agree cls st st' b lo hi lo' hi' g same c,
        MembersConform-agree rest st st' a (suc b) lo hi lo' hi' g k,
      )

  pub OneConforms-agree :
      (opts : Opts) (st st' : ℕ → Field) (a lo hi lo' hi' : ℕ)
      → Agrees st st' lo hi lo' hi'
      → st' a ≡ st a
      → OneConforms opts st a lo hi
      → OneConforms opts st' a lo' hi'
  OneConforms-agree no_opt st st' a lo hi lo' hi' g e k = k
  OneConforms-agree (opt rngs cls rest) st st' a lo hi lo' hi' g e (inl k) =
      inl (Conforms-agree cls st st' a lo hi lo' hi' g e k)
  OneConforms-agree (opt rngs cls rest) st st' a lo hi lo' hi' g e (inr k) =
      inr (OneConforms-agree rest st st' a lo hi lo' hi' g e k)
