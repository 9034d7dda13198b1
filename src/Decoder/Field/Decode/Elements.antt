-- ===== src/Decoder/Field/Decode/Elements.antt =====
-- The elements of an array.
use mathlib.Core.Path.{subst}
use actf.Common.{
  ℕ, zero, suc, ◌+◌, ◌≤◌, ◌<◌, ◌≡◌, ◌≢◌, refl, sym, ap, ◌∙◌, ◌⊎◌, inl, inr, true, false, ◌==◌,
  Option, arith,
}
use actf.Decoder.Scalar.{nil}
use actf.Decoder.FldCls.{FldCls}
use actf.Decoder.Field.{Value, leaf, arr, Field, DecState, Done, allocn, set_value, set_parent}
use actf.Decoder.Field.Decode.{count_up, n_vals_of, arr_loop, arr_vals, arr_decode}
use actf.Decoder.Field.Decode.Frame.{Conforms, Conforms-agree}
use actf.Decoder.Field.Decode.Built.{
  Kept, Kept-rfl, Kept-weaken, Ends, Ends-then, Ends-after, Other, put-Kept, aligned-Ends,
}

-- The field at `a` is of the class, its parts are new, and it keeps its parent.
abbrev pub Built : FldCls → ℕ → DecState → DecState → Type 0
Built cls a s t = Conforms cls t.store a s.top t.top × ((t.store a).parent ≡ (s.store a).parent)

-- `m` fields from `b` on are still cleared.
abbrev pub Cleared : ℕ → ℕ → DecState → Type 0
Cleared b m s = (c : ℕ) → b ≤ c → c < b + m → (s.store c).value ≡ leaf nil

-- Neither `a` nor one of `m` fields from `b` on.
abbrev pub Beside : ℕ → ℕ → ℕ → ℕ → Type 0
Beside a b m c = (a ≢ c) × ((c < b) ⊎ (b + m ≤ c))

pub allocn-cell : (n c : ℕ) (s : DecState) → c < s.top → (allocn n s).store c ≡ s.store c
unfolding allocn
allocn-cell n c s h = ground (arith, h)

pub allocn-Cleared : (n : ℕ) (s : DecState) → Cleared s.top n (allocn n s)
unfolding allocn
allocn-Cleared n s c p q = ground (arith, p, q)

module _ (ele : FldCls) (decode : ℕ → DecState → Done)
    (builds : (b : ℕ) (s : DecState)
      → b < s.top
      → (s.store b).value ≡ leaf nil
      → Ends (Other b) (Built ele b s) s (decode b s)) where
  -- `m` elements from `b` on.
  abbrev pub Elements : (ℕ → Field) → Option ℕ → (b m lo hi : ℕ) → Type 0
  Elements st parent b m lo hi =
      (i : ℕ)
      → i < m
      → (lo ≤ b + i) × (b + i < hi) × ((st (b + i)).parent ≡ parent) × Conforms ele st (b + i) lo hi

  -- The field of the array after the loop.
  abbrev pub Counted : ℕ → Value → DecState → DecState → Type 0
  Counted a v s t =
      ((t.store a).value ≡ v)
      × ((t.store a).cls ≡ (s.store a).cls)
      × ((t.store a).parent ≡ (s.store a).parent)

  count_up-cell :
      (a vals k : ℕ) (s : DecState)
      → (s.store a).value ≡ arr vals k
      → (count_up a s).store a ≡ record (s.store a) { value = arr vals (suc k) }
  count_up-cell a vals k s e = let same : (a == a) ≡ true = ground arith in rw (same, e) refl

  -- The first element, once the others are decoded.
  first_element :
      (parent : Option ℕ) (a lo m b : ℕ) (s t u : DecState)
      → a < lo
      → lo ≤ b
      → suc b + m ≤ s.top
      → s.top ≤ t.top
      → (s.store b).parent ≡ parent
      → Built ele b s t
      → Kept (Beside a (suc b) m) (count_up a t) u
      → (lo ≤ b) × (b < u.top) × ((u.store b).parent ≡ parent) × Conforms ele u.store b lo u.top
  first_element parent a lo m b s t u p q r g e (conf, par) kept =
      let same : (c : ℕ)
          → c < t.top
          → a ≢ c
          → (c < suc b) ⊎ (suc b + m ≤ c)
          → u.store c ≡ t.store c =
        λ c h n o. kept.same c h (n, o) ∙ ground (arith, n) in
      let here =
        same b (omega (arith, r, g)) (λ d. absurd (omega (arith, p, q, d))) (inl (omega arith)) in
      (
        q,
        omega (arith, r, g, kept.grows),
        ap (λ f. f.parent) here ∙ par ∙ e,
        Conforms-agree ele t.store u.store b s.top t.top lo u.top
            (record {
              below = omega (arith, q, r);
              above = kept.grows;
              inside = λ c l h.
                  same c h (λ d. absurd (omega (arith, p, q, r, d, l))) (inr (omega (arith, r, l)));
            })
            here conf,
      )

  -- The elements behind the first one, counted from the first one.
  shift-Elements :
      (st : ℕ → Field) (parent : Option ℕ) (b m lo hi : ℕ)
      → (lo ≤ b) × (b < hi) × ((st b).parent ≡ parent) × Conforms ele st b lo hi
      → Elements st parent (suc b) m lo hi
      → Elements st parent b (suc m) lo hi
  shift-Elements st parent b m lo hi first others zero l =
      let e : b ≡ b + 0 = omega arith in
      subst (λ c. (lo ≤ c) × (c < hi) × ((st c).parent ≡ parent) × Conforms ele st c lo hi) e first
  shift-Elements st parent b m lo hi first others (suc j) l =
      let e : suc b + j ≡ b + suc j = omega arith in
      subst (λ c. (lo ≤ c) × (c < hi) × ((st c).parent ≡ parent) × Conforms ele st c lo hi) e
        (others j (omega arith))

  abbrev Looped : Option ℕ → (a lo vals n b m : ℕ) → DecState → DecState → Type 0
  Looped parent a lo vals n b m s t =
      Counted a (arr vals n) s t × Elements t.store parent b m lo t.top

  -- The loop behind an element.
  rest-Ends :
      (parent : Option ℕ) (a lo vals k m b : ℕ) (s t : DecState)
      → a < lo
      → lo ≤ b
      → suc b + m ≤ s.top
      → (s.store a).value ≡ arr vals k
      → Cleared (suc b) m s
      → (s.store b).parent ≡ parent
      → Kept (Other b) s t
      → Built ele b s t
      → Ends
          (Beside a (suc b) m)
          (Looped parent a lo vals (suc k + m) (suc b) m (count_up a t))
          (count_up a t)
          (arr_loop decode parent a m (suc b) (count_up a t))
      → Ends
          (Beside a b (suc m))
          (Looped parent a lo vals (k + suc m) b (suc m) s)
          t
          (arr_loop decode parent a m (suc b) (count_up a t))
  rest-Ends parent a lo vals k m b s t p q r e z n kept built looped =
      let before : t.store a ≡ s.store a =
        kept.same a (omega (arith, p, q, r)) (λ d. absurd (omega (arith, p, q, d))) in
      let cell = count_up-cell a vals k t (ap (λ f. f.value) before ∙ e) in
      Ends-after (Beside a b (suc m)) (Beside a (suc b) m) _ _ t (count_up a t) _
        (Kept-weaken (Other a) (Beside a b (suc m)) t (count_up a t) (λ c h o. o.0)
          (put-Kept a _ t))
        (λ c h o. (o.0, ground (arith, o.1)))
        (λ u k₂ l.
          let sum : suc k + m ≡ k + suc m = omega arith in
          (
            (
              rw sum at l.0.0,
              l.0.1 ∙ ap (λ f. f.cls) cell ∙ ap (λ f. f.cls) before,
              l.0.2 ∙ ap (λ f. f.parent) cell ∙ ap (λ f. f.parent) before,
            ),
            shift-Elements u.store parent b m lo u.top
                (first_element parent a lo m b s t u p q r kept.grows n built k₂) l.1,
          ))
        looped

  arr_loop-Ends :
      (parent : Option ℕ) (a lo vals k m b : ℕ) (s : DecState)
      → a < lo
      → lo ≤ b
      → b + m ≤ s.top
      → (s.store a).value ≡ arr vals k
      → Cleared b m s
      → Ends
          (Beside a b m)
          (Looped parent a lo vals (k + m) b m s)
          s
          (arr_loop decode parent a m b s)
  unfolding arr_loop
  arr_loop-Ends parent a lo vals k zero b s p q r e z = (
    Kept-rfl _ s,
    ((let none : k + 0 ≡ k = omega arith in rw none e, refl, refl), λ i l. absurd (omega arith)),
  )
  arr_loop-Ends parent a lo vals k (suc m) b s p q r e z =
      let s₁ = set_parent b parent s in
      let mark = put-Kept b (record (s.store b) { parent = parent }) s in
      let here : (b == b) ≡ true = ground arith in
      let apart : (b == a) ≡ false = ground (arith, p, q) in
      let new : (s₁.store b).value ≡ leaf nil = rw here (z b (omega arith) (omega arith)) in
      let noted : (s₁.store b).parent ≡ parent = rw here refl in
      let stays : s₁.store a ≡ s.store a = rw apart refl in
      let room : suc b + m ≤ s.top = omega arith in
      let clear₁ : Cleared (suc b) m s₁ = λ c l h.
        let off : (b == c) ≡ false = ground (arith, l) in
        rw off (z c (omega arith) (omega arith)) in
      Ends-after (Beside a b (suc m)) (Beside a b (suc m)) _ _ s s₁ _
        (Kept-weaken (Other b) (Beside a b (suc m)) s s₁ (λ c h o. omega (arith, o.1)) mark)
        (λ c h o. o)
        (λ u k₁ l. ((l.0.0, l.0.1 ∙ ap (λ f. f.cls) stays, l.0.2 ∙ ap (λ f. f.parent) stays), l.1))
        (Ends-then (Other b) (Beside a b (suc m)) (Built ele b s₁)
          (Looped parent a lo vals (k + suc m) b (suc m) s₁) s₁ (decode b s₁) _
          (builds b s₁ (omega arith) new) (λ c h o. omega (arith, o.1))
          (λ t kept built.
            let e₁ = ap (λ f. f.value) stays ∙ e in
            let before : t.store a ≡ s₁.store a =
              kept.same a (omega (arith, p, q, r)) (λ d. absurd (omega (arith, p, q, d))) in
            let cell = count_up-cell a vals k t (ap (λ f. f.value) before ∙ e₁) in
            rest-Ends parent a lo vals k m b s₁ t p q room e₁ clear₁ noted kept built (
              arr_loop-Ends parent a lo vals (suc k) m (suc b) (count_up a t) p (omega arith)
                (omega (arith, room, kept.grows)) (ap (λ f. f.value) cell)
                (λ c l h.
                  let off : (a == c) ≡ false = ground (arith, p, q, l) in
                  rw off (
                    ap (λ f. f.value)
                      (kept.same c (omega (arith, room, h)) (λ d. absurd (omega (arith, l, d))))
                    ∙ clear₁ c l h)))))

  abbrev pub ArrBuilt : (n a : ℕ) → DecState → DecState → Type 0
  ArrBuilt n a s t =
      (vals : ℕ) × Counted a (arr vals n) s t
      × Elements t.store (t.store a).parent vals n s.top t.top

  -- An array at a cleared field: as many elements as asked for.
  pub arr_decode-Ends :
      (align n a : ℕ) (s : DecState)
      → a < s.top
      → (s.store a).value ≡ leaf nil
      → Ends (Other a) (ArrBuilt n a s) s (arr_decode decode align n a s)
  unfolding arr_decode
  arr_decode-Ends align n a s p e =
      aligned-Ends (Other a) (ArrBuilt n a s) align s (arr_vals decode n a) (λ d.
        let s₁ = record s { dec = d } in
        let s₂ = allocn n s₁ in
        let vals = s.top in
        let old : s₂.store a ≡ s.store a = allocn-cell n a s₁ p in
        let start : n_vals_of (s₂.store a).value ≡ 0 = rw (old, e) refl in
        let s₃ = set_value a (arr vals (n_vals_of (s₂.store a).value)) s₂ in
        let here : (a == a) ≡ true = ground arith in
        let cell : s₃.store a ≡ record (s.store a) { value = arr vals 0 } =
          rw (here, start, old) refl in
        let kept : Kept (Other a) s₁ s₃ = record {
          grows = unfold allocn in omega arith;
          same = λ c h o.
              let off : (a == c) ≡ false = ground (arith, o) in rw off (allocn-cell n c s₁ h);
        } in
        Ends-after (Other a) (Beside a vals n)
          (Looped (s₃.store a).parent a vals vals (0 + n) vals n s₃) (ArrBuilt n a s₁) s₁ s₃ _ kept
          (λ c h o. (o, inl h))
          (λ u k l. (
            vals,
            (
              let sum : 0 + n ≡ n = omega arith in rw sum at l.0.0,
              l.0.1 ∙ ap (λ f. f.cls) cell,
              l.0.2 ∙ ap (λ f. f.parent) cell,
            ),
            (rw (sym l.0.2) at l.1),
          ))
          (arr_loop-Ends (s₃.store a).parent a vals vals 0 n vals s₃ p (omega arith)
            (unfold allocn in omega arith) (ap (λ f. f.value) cell)
            (λ c l h.
              let off : (a == c) ≡ false = ground (arith, p, l) in
              rw off (allocn-Cleared n s₁ c l h))))
