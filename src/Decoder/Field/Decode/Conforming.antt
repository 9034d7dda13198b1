-- ===== src/Decoder/Field/Decode/Conforming.antt =====
-- A call of fld_cls_decode builds the tree of fields that the class stands for.
use actf.Common.{
  ℕ, suc, ◌+◌, ◌≤◌, ◌<◌, ◌≡◌, refl, ap, ◌∙◌, ◌⊎◌, inl, inr, Bool, true, false, ◌==◌, Option, none,
  some, arith,
}
use actf.Types.{Result, ok, err}
use actf.Rng.{RngSet}
use actf.Decoder.Scalar.{
  Fld, nil, fxd_len_bit_map_decode, fxd_len_sint_decode, fxd_len_uint_decode, fxd_len_bool_decode,
}
use actf.Decoder.FldCls.{
  FldCls, FldLoc, MemberClses, no_more, member, Opts, no_opt, opt, nil_cls, bit_arr_cls,
  bit_map_cls, sint_cls, bool_cls, float_cls, uint_cls, var_uint_cls, var_sint_cls,
  null_term_str_cls, static_len_str_cls, dyn_len_str_cls, static_len_blob_cls, dyn_len_blob_cls,
  struct_cls, static_len_arr_cls, dyn_len_arr_cls, optional_cls, variant_cls, get_align_req,
  n_members,
}
use actf.Decoder.Field.{leaf, struct_, DecState, Done, then_done, allocn, set_cls, set_parent}
use actf.Decoder.Field.Locate.{fld_loc_locate, get_arr_cls_len}
use actf.Decoder.Field.Decode.{
  fld_cls_decode, decode_as, members_decode, opts_decode, fld_cls_fxd_len_bit_arr_decode,
  with_roles, is_enabled, optional_decode, if_enabled, if_integer, struct_vals, variant_decode,
  chosen, selects, last_of,
}
use actf.Decoder.Field.Decode.Kinds.{
  of_uint, of_sint, of_bool, of_bit_map, with_bit_arr-Gives, float-Gives, var_len_uint-Gives,
  var_len_sint-Gives, static_len_blob-Gives, dyn_len_blob-Gives, static_len_str-Runs,
  dyn_len_str-Runs, null_term_str_decode-Runs,
}
use actf.Decoder.Field.Decode.Frame.{Conforms, MembersConform, OneConforms, Conforms-agree}
use actf.Decoder.Field.Decode.Built.{
  Kept, Kept-rfl, Kept-weaken, Ends, Ends-from, Ends-weaken, Ends-then, Ends-after, Other, put-Kept,
  aligned-Ends, write_leaf-Ends, write_real-Ends, write_ran-Ends, with_located-Ends, with_len-Ends,
  with_roles-Ends, with_roles_last-Ends,
}
use actf.Decoder.Field.Decode.Elements.{
  Built, Cleared, allocn-cell, allocn-Cleared, arr_decode-Ends,
}

-- Not one of `n` fields from `b` on.
abbrev Outside : ℕ → ℕ → ℕ → Type 0
Outside b n c = (c < b) ⊎ (b + n ≤ c)

-- Where an option is chosen, its decoder ends with one of the options' trees.
abbrev ChosenEnds : Opts → ℕ → DecState → Option (DecState → Done) → Type 0
ChosenEnds opts a s none = Unit {0}
ChosenEnds opts a s (some decode) =
    Ends (Other a)
      (λ t. OneConforms opts t.store a s.top t.top × ((t.store a).parent ≡ (s.store a).parent)) s
      (decode s)

-- A class noted in the field, and then the decoder of the class.
as_cls-Ends :
    (cls : FldCls) (a : ℕ) (s : DecState) (Goal : DecState → Type 0)
    → Ends (Other a) Goal (set_cls a cls s) (decode_as cls a (set_cls a cls s))
    → Ends (Other a) Goal s (decode_as cls a (set_cls a cls s))
as_cls-Ends cls a s Goal h = Ends-from (Other a) Goal s (set_cls a cls s) _ (put-Kept a _ s) h

pick :
    (rngs : RngSet) (cls : FldCls) (rest : Opts) (a : ℕ) (s : DecState) (b : Bool)
    (decode : DecState → Done) (later : Option (DecState → Done))
    → Ends (Other a) (Built cls a s) s (decode s)
    → ChosenEnds rest a s later
    → ChosenEnds (opt rngs cls rest) a s (last_of b decode later)
unfolding OneConforms
pick rngs cls rest a s b decode (some f) h k =
    Ends-weaken (Other a) (Other a) _ _ s (f s) (λ c l o. o) (λ t q g. (inr g.0, g.1)) k
pick rngs cls rest a s true decode none h k =
    Ends-weaken (Other a) (Other a) _ _ s (decode s) (λ c l o. o) (λ t q g. (inl g.0, g.1)) h
pick rngs cls rest a s false decode none h k = tt

chosen-Ends :
    (opts : Opts) (a : ℕ) (s : DecState) (o : Option (DecState → Done))
    → ChosenEnds opts a s o
    → Ends
        (Other a)
        (λ t. OneConforms opts t.store a s.top t.top × ((t.store a).parent ≡ (s.store a).parent))
        s
        (chosen s o)
chosen-Ends opts a s none h = Kept-rfl (Other a) s
chosen-Ends opts a s (some decode) h = h

-- A field that has been marked with its class.
marked :
    (cls : FldCls) (a : ℕ) (s : DecState)
    → (set_cls a cls s).store a ≡ record (s.store a) { cls = some cls }
marked cls a s = let here : (a == a) ≡ true = ground arith in rw here refl

set_cls-Built :
    (cls : FldCls) (a : ℕ) (s : DecState)
    → Ends
        (Other a)
        (Built cls a (set_cls a cls s))
        (set_cls a cls s)
        (decode_as cls a (set_cls a cls s))
    → Ends (Other a) (Built cls a s) s (decode_as cls a (set_cls a cls s))
set_cls-Built cls a s h =
    Ends-after (Other a) (Other a) (Built cls a (set_cls a cls s)) (Built cls a s) s
      (set_cls a cls s) _ (put-Kept a _ s) (λ c l o. o)
      (λ u k g. (g.0, g.1 ∙ ap (λ f. f.parent) (marked cls a s))) h

-- A field and its roles at the end.
with_last_roles :
    (cls : FldCls) (a : ℕ) (s : DecState) (d : Done)
    → Ends (Other a) (Built cls a s) s d
    → Ends (Other a) (Built cls a s) s (then_done d (with_roles cls a))
with_last_roles cls a s d h =
    Ends-then (Other a) (Other a) (Built cls a s) (Built cls a s) s d (with_roles cls a) h
      (λ c l o. o) (λ t k b. with_roles_last-Ends (Other a) (Built cls a s) cls a t (λ d e. b))

optional-Ends :
    (loc : FldLoc) (rngs : RngSet) (cls : FldCls) (a : ℕ) (s : DecState) (decode : DecState → Done)
    (f : Option Fld)
    → (s.store a).cls ≡ some (optional_cls loc rngs cls)
    → Ends (Other a) (Built cls a s) s (decode s)
    → Ends (Other a) (Built (optional_cls loc rngs cls) a s) s (optional_decode a s decode rngs f)
unfolding Conforms
optional-Ends loc rngs cls a s decode none c h = Kept-rfl (Other a) s
optional-Ends loc rngs cls a s decode (some f) c h = by_test (is_enabled rngs f)
  where
    here : (a == a) ≡ true
    here = ground arith

    by_test :
        (r : Result Bool)
        → Ends (Other a) (Built (optional_cls loc rngs cls) a s) s (if_enabled a s decode r)
    by_test (ok true) =
        Ends-weaken (Other a) (Other a) _ _ s (decode s) (λ c l o. o) (λ t q g. (inr g.0, g.1)) h
    by_test (ok false) = (put-Kept a _ s, rw here (inl (refl, c), refl))
    by_test (err rc) = Kept-rfl (Other a) s

variant-Ends :
    (loc : FldLoc) (opts : Opts) (a : ℕ) (s : DecState) (f : Option Fld)
    → ((test : RngSet → Bool) → ChosenEnds opts a s (opts_decode opts a test))
    → Ends (Other a) (Built (variant_cls loc opts) a s) s (variant_decode s (opts_decode opts a) f)
unfolding Conforms
variant-Ends loc opts a s none h = Kept-rfl (Other a) s
variant-Ends loc opts a s (some f) h = by_test (selects f)
  where
    by_test :
        (o : Option (RngSet → Bool))
        → Ends (Other a) (Built (variant_cls loc opts) a s) s (if_integer s (opts_decode opts a) o)
    by_test none = Kept-rfl (Other a) s
    by_test (some test) = chosen-Ends opts a s (opts_decode opts a test) (h test)

-- A member, its roles and the members behind it.
member-Ends :
    (cls : FldCls) (rest : MemberClses) (a b lo : ℕ) (s : DecState) (decode : Done)
    (next : DecState → Done)
    → lo ≤ b
    → b + suc (n_members rest) ≤ s.top
    → Cleared (suc b) (n_members rest) s
    → (s.store b).parent ≡ some a
    → Ends (Other b) (Built cls b s) s decode
    → ((t : DecState)
        → suc b + n_members rest ≤ t.top
        → Cleared (suc b) (n_members rest) t
        → Ends
            (Outside (suc b) (n_members rest))
            (λ u. MembersConform rest u.store a (suc b) lo u.top)
            t
            (next t))
    → Ends
        (Outside b (suc (n_members rest)))
        (λ u.
          (lo ≤ b)
          × (b < u.top)
          × ((u.store b).parent ≡ some a)
          × Conforms cls u.store b lo u.top
          × MembersConform rest u.store a (suc b) lo u.top)
        s
        (then_done decode (λ s. then_done (with_roles cls b s) next))
member-Ends cls rest a b lo s decode next p q z r h k =
    let n = n_members rest in
    Ends-then (Other b) (Outside b (suc n)) (Built cls b s) _ s decode _ h
      (λ c l o. omega (arith, o))
      (λ t kept built. with_roles-Ends (Outside b (suc n)) _ cls b t next (λ d e.
        let room : suc b + n ≤ t.top = omega (arith, q, kept.grows) in
        let clear : Cleared (suc b) n t = λ c l m.
          ap (λ f. f.value) (kept.same c (omega (arith, q, m)) (λ d. absurd (omega (arith, l, d))))
          ∙ z c l m in
        Ends-weaken (Outside (suc b) n) (Outside b (suc n)) _ _ _ _ (λ c l o. omega (arith, o))
          (λ u k₂ ms.
            let here : u.store b ≡ t.store b =
              k₂.same b (omega (arith, room)) (inl (omega arith)) in
            (
              p,
              omega (arith, room, k₂.grows),
              ap (λ f. f.parent) here ∙ built.1 ∙ r,
              Conforms-agree cls t.store u.store b s.top t.top lo u.top
                  (record {
                    below = omega (arith, p, q);
                    above = k₂.grows;
                    inside = λ c l m. k₂.same c m (inr (omega (arith, q, l)));
                  })
                  here built.0,
              ms,
            ))
          (k _ room clear)))

abbrev New : ℕ → DecState → Type 0
New a s = (a < s.top) × ((s.store a).value ≡ leaf nil)

-- The structure at a cleared field, once its members are decoded.
struct-Ends :
    (align : ℕ) (ms : MemberClses) (a : ℕ) (s : DecState)
    → New a s
    → (s.store a).cls ≡ some (struct_cls align ms)
    → ((t : DecState)
        → s.top + n_members ms ≤ t.top
        → Cleared s.top (n_members ms) t
        → Ends
            (Outside s.top (n_members ms))
            (λ u. MembersConform ms u.store a s.top s.top u.top)
            t
            (members_decode ms a s.top t))
    → Ends
        (Other a)
        (Built (struct_cls align ms) a s)
        s
        (members_decode ms a s.top (struct_vals (n_members ms) a s))
unfolding Conforms
struct-Ends align ms a s (p, e) c h =
    let n = n_members ms in
    let t = struct_vals n a s in
    let here : (a == a) ≡ true = ground arith in
    let old : (allocn n s).store a ≡ s.store a = allocn-cell n a s p in
    let cell : t.store a ≡ record (s.store a) { value = struct_ s.top } = rw (here, old) refl in
    let kept : Kept (Other a) s t = record {
      grows = unfold allocn in omega arith;
      same =
          λ c h o. let off : (a == c) ≡ false = ground (arith, o) in rw off (allocn-cell n c s h);
    } in
    Ends-after (Other a) (Outside s.top n) _ _ s t _ kept (λ c l o. inl l)
      (λ u k ms'.
        let same : u.store a ≡ record (s.store a) { value = struct_ s.top } =
          k.same a (omega (arith, p, kept.grows)) (inl p) ∙ cell in
        ((s.top, (ap (λ f. f.value) same, ap (λ f. f.cls) same ∙ c), ms'), ap (λ f. f.parent) same))
      (h t (unfold allocn in omega arith) (λ c l m.
        let off : (a == c) ≡ false = ground (arith, p, l) in rw off (allocn-Cleared n s c l m)))

-- The class is noted first.
noted-Ends :
    (cls : FldCls) (a : ℕ) (s : DecState)
    → New a s
    → ((t : DecState)
        → New a t
        → (t.store a).cls ≡ some cls
        → Ends (Other a) (Built cls a t) t (decode_as cls a t))
    → Ends (Other a) (Built cls a s) s (decode_as cls a (set_cls a cls s))
noted-Ends cls a s (p, e) h =
    let m = marked cls a s in
    set_cls-Built cls a s (h (set_cls a cls s) (p, ap (λ f. f.value) m ∙ e) (ap (λ f. f.cls) m))

mutual
  unfolding decode_as Conforms fld_cls_fxd_len_bit_arr_decode fxd_len_bit_map_decode
      fxd_len_uint_decode fxd_len_sint_decode fxd_len_bool_decode

  built :
      (cls : FldCls) (a : ℕ) (s : DecState)
      → New a s
      → (s.store a).cls ≡ some cls
      → Ends (Other a) (Built cls a s) s (decode_as cls a s)
  built nil_cls a s n c = Kept-rfl (Other a) s
  built (bit_arr_cls b) a s n c =
      write_leaf-Ends of_uint _ a s _ (with_bit_arr-Gives of_uint s.dec b _ (λ x. tt)) c
  built (bit_map_cls b) a s n c =
      write_leaf-Ends of_bit_map _ a s _ (with_bit_arr-Gives of_bit_map s.dec b _ (λ x. tt)) c
  built (uint_cls b roles) a s n c =
      write_leaf-Ends of_uint _ a s _ (with_bit_arr-Gives of_uint s.dec b _ (λ x. tt)) c
  built (sint_cls b) a s n c =
      write_leaf-Ends of_sint _ a s _ (with_bit_arr-Gives of_sint s.dec b _ (λ x. tt)) c
  built (bool_cls b) a s n c =
      write_leaf-Ends of_bool _ a s _ (with_bit_arr-Gives of_bool s.dec b _ (λ x. tt)) c
  built (float_cls b) a s n c = write_real-Ends _ _ a s _ (float-Gives s.dec b) c
  built (var_uint_cls roles) a s n c = write_leaf-Ends _ _ a s _ (var_len_uint-Gives s.dec) c
  built var_sint_cls a s n c = write_leaf-Ends _ _ a s _ (var_len_sint-Gives s.dec) c
  built (null_term_str_cls enc) a s n c =
      write_ran-Ends _ _ a s _ (null_term_str_decode-Runs s.dec enc) c
  built (static_len_str_cls m enc) a s n c =
      write_ran-Ends _ _ a s _ (static_len_str-Runs s.dec m enc) c
  built (dyn_len_str_cls loc enc) a s n c =
      with_located-Ends (Other a) (Built (dyn_len_str_cls loc enc) a s) s (fld_loc_locate s loc a) _
        (λ f. write_ran-Ends _ _ a s _ (dyn_len_str-Runs s.dec f enc) c)
  built (static_len_blob_cls m roles) a s n c =
      write_leaf-Ends _ _ a s _ (static_len_blob-Gives s.dec m) c
  built (dyn_len_blob_cls loc) a s n c =
      with_located-Ends (Other a) (Built (dyn_len_blob_cls loc) a s) s (fld_loc_locate s loc a) _
        (λ f. write_leaf-Ends _ _ a s _ (dyn_len_blob-Gives s.dec f) c)
  built (struct_cls align ms) a s n c =
      aligned-Ends (Other a) (Built (struct_cls align ms) a s) align s
        (λ s. members_decode ms a s.top (struct_vals (n_members ms) a s))
        (λ d.
          struct-Ends align ms a (record s { dec = d }) n c
            (λ t q z. members_built ms a s.top s.top t (omega arith) q z))
  built (static_len_arr_cls min_align m ele) a s n c =
      with_len-Ends (Other a) (Built (static_len_arr_cls min_align m ele) a s) s
        (get_arr_cls_len s a) _
        (λ k.
          Ends-weaken (Other a) (Other a) _ _ s _ (λ c l o. o)
            (λ t q g. ((g.0, (g.1.0, g.1.1 ∙ c), g.2), g.1.2))
            (arr_decode-Ends ele (λ b s. decode_as ele b (set_cls b ele s))
              (λ b s l e. noted-Ends ele b s (l, e) (λ t n c. built ele b t n c))
              (get_align_req (static_len_arr_cls min_align m ele)) m a s n.0 n.1))
  built (dyn_len_arr_cls min_align loc ele) a s n c =
      with_len-Ends (Other a) (Built (dyn_len_arr_cls min_align loc ele) a s) s
        (get_arr_cls_len s a) _
        (λ k.
          Ends-weaken (Other a) (Other a) _ _ s _ (λ c l o. o)
            (λ t q g. ((g.0, k, (g.1.0, g.1.1 ∙ c), g.2), g.1.2))
            (arr_decode-Ends ele (λ b s. decode_as ele b (set_cls b ele s))
              (λ b s l e. noted-Ends ele b s (l, e) (λ t n c. built ele b t n c))
              (get_align_req (dyn_len_arr_cls min_align loc ele)) k a s n.0 n.1))
  built (optional_cls loc rngs cls) a s n c =
      with_located-Ends (Other a) (Built (optional_cls loc rngs cls) a s) s (fld_loc_locate s loc a)
        _
        (λ f.
          optional-Ends loc rngs cls a s
            (λ s. then_done (decode_as cls a (set_cls a cls s)) (with_roles cls a)) f c
            (with_last_roles cls a s _ (noted-Ends cls a s n (λ t n c. built cls a t n c))))
  built (variant_cls loc opts) a s n c =
      with_located-Ends (Other a) (Built (variant_cls loc opts) a s) s (fld_loc_locate s loc a) _
        (λ f. variant-Ends loc opts a s f (λ test. one_built opts a s test n))

  members_built :
      (ms : MemberClses) (a b lo : ℕ) (s : DecState)
      → lo ≤ b
      → b + n_members ms ≤ s.top
      → Cleared b (n_members ms) s
      → Ends
          (Outside b (n_members ms))
          (λ u. MembersConform ms u.store a b lo u.top)
          s
          (members_decode ms a b s)
  members_built no_more a b lo s p q z = (Kept-rfl (Outside b 0) s, tt)
  members_built (member name cls rest) a b lo s p q z =
      let s₁ = set_parent b (some a) s in
      let here : (b == b) ≡ true = ground arith in
      let n = n_members rest in
      Ends-after (Outside b (suc n)) (Outside b (suc n)) _ _ s s₁ _
        (Kept-weaken (Other b) (Outside b (suc n)) s s₁ (λ c l o. omega (arith, o))
          (put-Kept b _ s))
        (λ c l o. o) (λ u k g. g)
        (member-Ends cls rest a b lo s₁ _ (λ s. members_decode rest a (suc b) s) p q
          (λ c l m.
            let off : (b == c) ≡ false = ground (arith, l) in
            rw off (z c (omega arith) (omega arith)))
          (rw here refl)
          (noted-Ends cls b s₁ (omega arith, rw here (z b (omega arith) (omega arith)))
            (λ t n c. built cls b t n c))
          (λ t r w. members_built rest a (suc b) lo t (omega arith) r w))

  one_built :
      (opts : Opts) (a : ℕ) (s : DecState) (test : RngSet → Bool)
      → New a s
      → ChosenEnds opts a s (opts_decode opts a test)
  one_built no_opt a s test n = tt
  one_built (opt rngs cls rest) a s test n =
      pick rngs cls rest a s (test rngs) _ (opts_decode rest a test)
        (with_last_roles cls a s _ (noted-Ends cls a s n (λ t n c. built cls a t n c)))
        (one_built rest a s test n)

-- A call on a cleared field that succeeds builds the tree of fields that the class stands for, from
-- the field on and in new fields, each with its class and its parent; whether it succeeds or fails, no
-- other field changes. Nothing is said of a call that reads a string behind the stream or follows a
-- location in a circle.
pub fld_cls_decode-Built :
    (cls : FldCls) (a : ℕ) (s : DecState)
    → a < s.top
    → (s.store a).value ≡ leaf nil
    → Ends (Other a) (Built cls a s) s (fld_cls_decode cls a s)
unfolding fld_cls_decode
fld_cls_decode-Built cls a s l e = noted-Ends cls a s (l, e) (λ t n c. built cls a t n c)
